-- ===== src/Client/ChatState/Filed.antt =====
-- The two maps of Client/chatstate.cpp against each other: every message is in the chat that it names,
-- and nothing else is in a chat.
use messenger_walkie_talkie.Prelude.{
  ℕ, String, ◌≡◌, sym, ◌∙◌, Bool, true, false, List, none, some, arith, eq_iff, ◌==◌, string_eq,
  is_empty, Bool-cases, Option-cases, inl, inr,
}
use messenger_walkie_talkie.Prelude.Dict.{get, put, get-put}
use messenger_walkie_talkie.Client.ChatState.{
  ChatMessage, ChatSession, message_by_id, sort_chat_messages, merged, leave_chat, join_chat,
  upsert_message,
}
use messenger_walkie_talkie.Client.ChatState.Upsert.{upserted}
use messenger_walkie_talkie.Client.ChatState.Ids.{
  Chats, is_listed, has_each_once, leave_chat-listed, leave_chat-once, join_chat-listed,
  join_chat-once, sort_chat-listed, sort_chat-once,
}

abbrev pub Messages : Type 0
Messages = List (String × ChatMessage)

abbrev pub is_there : String → Messages → Bool
is_there id ms = elim (get id ms) [ none ↦ false | some m ↦ true ]

-- Whether a message is there that names the chat.
abbrev pub is_filed : String → String → Messages → Bool
is_filed chat id ms = elim (get id ms) [ none ↦ false | some m ↦ m.chat_key == chat ]

pub record IsFiled (ms : Messages) (chats : Chats) : Type 0 where
  pub keyed : (id : String) (m : ChatMessage) → get id ms ≡ some m → m.id ≡ id
  pub there : (chat id : String) → is_listed chat id chats ≡ true → is_there id ms ≡ true
  pub filed :
      (chat id : String) → is_empty chat ≡ false → is_listed chat id chats ≡ is_filed chat id ms
  pub once : (chat : String) → has_each_once chat chats ≡ true

abbrev pub IsFiledIn : ChatSession → Type 0
IsFiledIn s = IsFiled s.messages_by_id s.chat_messages

-- The maps may be told apart only by what is listed.
pub relisted-IsFiled :
    (ms : Messages) (chats chats' : Chats)
    → ((chat id : String) → is_listed chat id chats' ≡ is_listed chat id chats)
    → ((chat : String) → has_each_once chat chats' ≡ has_each_once chat chats)
    → IsFiled ms chats
    → IsFiled ms chats'
relisted-IsFiled ms chats chats' listed once v = record {
  keyed = v.keyed;
  there = λ chat id h. v.there chat id (sym (listed chat id) ∙ h);
  filed = λ chat id named. listed chat id ∙ v.filed chat id named;
  once = λ chat. once chat ∙ v.once chat;
}

pub sorted-IsFiled :
    (key : String) (s : ChatSession) → IsFiledIn s → IsFiledIn (sort_chat_messages key s)
unfolding sort_chat_messages
sorted-IsFiled key s v =
    relisted-IsFiled s.messages_by_id s.chat_messages (sort_chat_messages key s).chat_messages
      (sort_chat-listed key s) (sort_chat-once key s) v

put-keyed :
    (m : ChatMessage) (id : String) (ms : Messages)
    → m.id ≡ id
    → ((j : String) (n : ChatMessage) → get j ms ≡ some n → n.id ≡ j)
    → (j : String) (n : ChatMessage) → get j (put id m ms) ≡ some n
    → n.id ≡ j
put-keyed m id ms same keyed j n found = elim (Bool-cases (id == j)) [
  | inl here ↦ ground (arith, get-put id j m ms, found, same, here, eq_iff id j)
  | inr other ↦ keyed j n (ground (arith, get-put id j m ms, found, other))
]

-- A message is stored over the one of its id, with the same chat.
pub restated-IsFiled :
    (id : String) (old m : ChatMessage) (ms : Messages) (chats : Chats)
    → get id ms ≡ some old
    → m.id ≡ old.id
    → m.chat_key ≡ old.chat_key
    → IsFiled ms chats
    → IsFiled (put id m ms) chats
restated-IsFiled id old m ms chats found same chat_same v = record {
  keyed = put-keyed m id ms (same ∙ v.keyed id old found) v.keyed;
  there = λ chat j h. ground (arith, get-put id j m ms, v.there chat j h, eq_iff id j);
  filed = λ chat j named.
      ground (arith, get-put id j m ms, v.filed chat j named, found, chat_same, eq_iff id j);
  once = v.once;
}

pub upserted-id :
    (now : ℕ) (source : ChatMessage) (s : ChatSession)
    → IsFiledIn s
    → (upserted now source s).id ≡ source.id
unfolding merged
upserted-id now source s v = elim (Option-cases (get source.id s.messages_by_id)) [
  | inl absent ↦ ground (arith, absent)
  | inr (m, found) ↦ ground (arith, found, v.keyed source.id m found)
]

-- A message leaves the chat of the one that it replaces and joins its own.
pub moved-IsFiled :
    (id : String) (m : ChatMessage) (s : ChatSession)
    → m.id ≡ id
    → IsFiledIn s
    → IsFiled
        (put id m s.messages_by_id)
        (join_chat m (leave_chat (message_by_id id s).chat_key m s.chat_messages))
unfolding message_by_id
moved-IsFiled id m s same v =
    let previous = (message_by_id id s).chat_key in
    let left = leave_chat previous m s.chat_messages in
    record {
      keyed = put-keyed m id s.messages_by_id same v.keyed;
      there = λ chat j h. ground (
        arith,
        get-put id j m s.messages_by_id,
        join_chat-listed m left chat j,
        leave_chat-listed previous m s.chat_messages chat j,
        v.there chat j,
        same,
        h,
      );
      filed = λ chat j named. ground (
        arith,
        get-put id j m s.messages_by_id,
        join_chat-listed m left chat j,
        leave_chat-listed previous m s.chat_messages chat j,
        v.filed chat j named,
        same,
        named,
        eq_iff id j,
        eq_iff previous chat,
        eq_iff m.chat_key chat,
        eq_iff previous m.chat_key,
      );
      once = λ chat.
          join_chat-once m left chat (λ c. leave_chat-once previous m s.chat_messages c v.once);
    }

pub upsert_message-IsFiled :
    (now : ℕ) (source : ChatMessage) (s : ChatSession)
    → IsFiledIn s
    → IsFiledIn (upsert_message now source s).0
unfolding upsert_message
upsert_message-IsFiled now source s v =
    let m = upserted now source s in
    let stored : ChatSession = record s {
      messages_by_id = put source.id m s.messages_by_id;
      chat_messages =
          join_chat m (leave_chat (message_by_id source.id s).chat_key m s.chat_messages);
    } in
    sorted-IsFiled m.chat_key stored (moved-IsFiled source.id m s (upserted-id now source s v) v)
