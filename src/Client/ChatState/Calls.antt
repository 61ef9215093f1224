-- ===== src/Client/ChatState/Calls.antt =====
-- What holds of the state of Client/chatstate.cpp after any calls of its methods.
use messenger_walkie_talkie.Prelude.{
  ℕ, String, refl, List, [], ◌∷◌, ◌||◌, arith, is_empty, ◌==◌, string_eq, Bool-cases, inl, inr,
}
use messenger_walkie_talkie.Prelude.Int.{ℤ}
use messenger_walkie_talkie.Prelude.Dict.{get}
use messenger_walkie_talkie.Prelude.Sort.{has}
use messenger_walkie_talkie.Client.ChatState.{
  ChatMessage, ChatSession, message_by_id, id_comes_before, clear, set_username, set_online_users,
  ensure_private_dialog, merge_dialogs, upsert_message, update_message_status,
  mark_incoming_messages_read,
}
use messenger_walkie_talkie.Client.ChatState.Filed.{IsFiledIn, upsert_message-IsFiled}
use messenger_walkie_talkie.Client.ChatState.Ordered.{IsOrdered, upsert_message-IsOrdered}
use messenger_walkie_talkie.Client.ChatState.Marked.{
  update_message_status-IsFiled, mark_incoming_messages_read-IsFiled,
  update_message_status-IsOrdered, mark_incoming_messages_read-IsOrdered,
}

-- The methods that change the state.
pub data Call : Type 0 where
  clears : Call
  sets_username : String → Call
  sets_online_users : List String → Call
  merges_dialogs : List String → Call
  ensures_dialog : String → Call
  upserts : ℕ → ChatMessage → Call
  updates_status : String → String → ℤ → Call
  marks_read : String → Call

unfoldable pub call : Call → ChatSession → ChatSession
call clears s = clear s
call (sets_username username) s = set_username username s
call (sets_online_users users) s = set_online_users users s
call (merges_dialogs dialogs) s = merge_dialogs dialogs s
call (ensures_dialog username) s = ensure_private_dialog username s
call (upserts now message) s = (upsert_message now message s).0
call (updates_status id status created_at) s = (update_message_status id status created_at s).0
call (marks_read chat_key) s = (mark_incoming_messages_read chat_key s).0

unfoldable pub call_all : List Call → ChatSession → ChatSession
call_all [] s = s
call_all (c ∷ cs) s = call_all cs (call c s)

-- The messages are in the chats that they name, once each, and in their order.
abbrev pub IsOrganized : ChatSession → Type 0
IsOrganized s = IsFiledIn s × IsOrdered s

ensure_private_dialog-IsOrganized :
    (username : String) (s : ChatSession)
    → IsOrganized s
    → IsOrganized (ensure_private_dialog username s)
unfolding ensure_private_dialog id_comes_before message_by_id
ensure_private_dialog-IsOrganized username s v =
    let refused = is_empty username || (username == s.username || username == "Broadcast") in
    elim (Bool-cases refused) [
      | inl skipped ↦ rw skipped v
      | inr added ↦ rw added (elim (Bool-cases (has username s.private_dialogs)) [
        | inl known ↦ rw known v
        | inr unknown ↦ rw unknown v
      ])
    ]

merge_dialogs-IsOrganized :
    (dialogs : List String) (s : ChatSession)
    → IsOrganized s
    → IsOrganized (merge_dialogs dialogs s)
unfolding merge_dialogs
merge_dialogs-IsOrganized [] s v = v
merge_dialogs-IsOrganized (d ∷ ds) s v =
    merge_dialogs-IsOrganized ds (ensure_private_dialog d s)
      (ensure_private_dialog-IsOrganized d s v)

pub clear-IsOrganized : (s : ChatSession) → IsOrganized (clear s)
unfolding clear get
clear-IsOrganized s = (
  record {
    keyed = λ id m found. ground (arith, found);
    there = λ chat id h. ground (arith, h);
    filed = λ chat id named. refl;
    once = λ chat. refl;
  },
  λ chat named. tt,
)

call-IsOrganized : (c : Call) (s : ChatSession) → IsOrganized s → IsOrganized (call c s)
unfolding call set_username set_online_users id_comes_before message_by_id
call-IsOrganized clears s v = clear-IsOrganized s
call-IsOrganized (sets_username username) s v = v
call-IsOrganized (sets_online_users users) s v = v
call-IsOrganized (merges_dialogs dialogs) s v = merge_dialogs-IsOrganized dialogs s v
call-IsOrganized (ensures_dialog username) s v = ensure_private_dialog-IsOrganized username s v
call-IsOrganized (upserts now message) s v =
    (upsert_message-IsFiled now message s v.0, upsert_message-IsOrdered now message s v.0 v.1)
call-IsOrganized (updates_status id status created_at) s v = (
  update_message_status-IsFiled id status created_at s v.0,
  update_message_status-IsOrdered id status created_at s v.0 v.1,
)
call-IsOrganized (marks_read chat_key) s v = (
  mark_incoming_messages_read-IsFiled chat_key s v.0,
  mark_incoming_messages_read-IsOrdered chat_key s v.0 v.1,
)

-- From a state where all this holds, such as a cleared one, it holds after any calls of the methods: a message
-- stands under its own id; a chat whose name is not empty has the ids of the messages that name it and no other,
-- each once, in the order of the times of their messages and then of their ids; the chat without a name has each
-- id once, too, and only ids of messages that are there.
pub call_all-IsOrganized :
    (cs : List Call) (s : ChatSession) → IsOrganized s → IsOrganized (call_all cs s)
unfolding call_all
call_all-IsOrganized [] s v = v
call_all-IsOrganized (c ∷ cs) s v = call_all-IsOrganized cs (call c s) (call-IsOrganized c s v)
