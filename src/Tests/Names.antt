-- ===== src/Tests/Names.antt =====
-- The names, the auth packets and the flow of the client at concrete inputs.
use messenger_walkie_talkie.Prelude.{String, ◌≡◌, ◌↔◌, refl, true, false, List, [], ◌∷◌, differ}
use messenger_walkie_talkie.Prelude.Int.{pos, negsuc}
use messenger_walkie_talkie.Shared.Json.{str, to_long_long, text_to_long_long}
use messenger_walkie_talkie.Prelude.{some, string_eq}
use messenger_walkie_talkie.Prelude.Dict.{get}
use messenger_walkie_talkie.Prelude.Sort.{has, IsSorted}
use messenger_walkie_talkie.Client.ChatState.{
  ChatMessage, ChatSession, ids_or_none, clear, upsert_message,
}
use messenger_walkie_talkie.Client.ChatState.Upsert.{wanted, stands_before, upsert_message_lem}
use messenger_walkie_talkie.Client.ChatState.Calls.{
  Call, upserts, updates_status, marks_read, ensures_dialog, call_all, IsOrganized,
  clear-IsOrganized, call_all-IsOrganized,
}
use messenger_walkie_talkie.Shared.Auth.{
  SessionInfo, is_valid, is_ascii_username_valid, make_auth_ok_packet,
}
use messenger_walkie_talkie.Shared.Auth.Checks.{IsName, is_ascii_username_valid_iff}
use messenger_walkie_talkie.Client.Dispatcher.{dispatch, emits, auth_succeeded}
use messenger_walkie_talkie.Client.Dispatcher.Outcome.{dispatch-make_auth_ok_packet}
use messenger_walkie_talkie.Client.FlowState.{
  FlowState, initial, can_resume_session, handle_auth_succeeded, handle_session_invalid,
}
use messenger_walkie_talkie.Client.FlowState.Invariant.{
  Event, authenticates, loses_socket, resumes, goes_offline, apply_all, IsValid, apply_all-IsValid,
  initial-IsValid,
}
use messenger_walkie_talkie.Client.FlowState.Resume.{invalid_session_stays}

abbrev as_is : String → String
as_is s = s

is_ascii_username_valid_iff_example : (is_ascii_username_valid "ann_1" ≡ true) ↔ IsName "ann_1"
is_ascii_username_valid_iff_example = is_ascii_username_valid_iff "ann_1"

abbrev session : SessionInfo
session = record { token = "t"; expires_at = pos 900 }

session-is_valid : is_valid session ≡ true
unfolding is_valid
session-is_valid = refl

dispatch-make_auth_ok_packet_example :
    dispatch as_is (make_auth_ok_packet "ann" session) ≡ emits (auth_succeeded "ann" "t" (pos 900))
dispatch-make_auth_ok_packet_example =
    dispatch-make_auth_ok_packet as_is "ann" session refl (differ "ann" "" refl) session-is_valid

abbrev events : List Event
events = authenticates "ann" "t" (pos 900) ∷ loses_socket true ∷ resumes ∷ []

apply_all-IsValid_example : IsValid (apply_all as_is events initial)
apply_all-IsValid_example = apply_all-IsValid as_is events initial initial-IsValid

invalid_session_stays_example :
    can_resume_session 500 (
      apply_all as_is
        (loses_socket true ∷ goes_offline ∷ [])
        (handle_session_invalid (apply_all as_is events initial)))
    ≡ false
invalid_session_stays_example =
    invalid_session_stays as_is (loses_socket true ∷ goes_offline ∷ [])
      (apply_all as_is events initial) 500 refl

abbrev logged_in : FlowState
logged_in = handle_auth_succeeded "ann" "t" (pos 900) initial

abbrev line : ChatMessage
line = record {
  id = "m2";
  chat_key = "bob";
  author = "bob";
  text = "hi";
  status = "delivered";
  outgoing = false;
  created_at = pos 7;
}

abbrev chat : ChatSession
chat = record {
  username = "ann";
  online_users = [];
  private_dialogs = "bob" ∷ [];
  messages_by_id = ("m1", record line { id = "m1"; created_at = pos 9 }) ∷ [];
  chat_messages = ("bob", "m1" ∷ []) ∷ [];
}

upsert_message_lem_example :
    let m = wanted 50 line chat in
    let r = (upsert_message 50 line chat).0 in
    (get "m2" r.messages_by_id ≡ some m)
    × (has m.id (ids_or_none (get m.chat_key r.chat_messages)) ≡ true)
    × IsSorted (stands_before r) (ids_or_none (get m.chat_key r.chat_messages))
upsert_message_lem_example = upsert_message_lem 50 line chat

-- Two messages, of which the second moves to another chat.
abbrev chat_calls : List Call
chat_calls =
    ensures_dialog "bob"
    ∷ upserts 50 line
    ∷ upserts 50 (record line { id = "m1"; created_at = pos 9 })
    ∷ marks_read "bob"
    ∷ updates_status "m2" "delivered" (pos 11)
    ∷ upserts 50 (record line { id = "m1"; chat_key = "eve" })
    ∷ []

call_all-IsOrganized_example : IsOrganized (call_all chat_calls (clear chat))
call_all-IsOrganized_example = call_all-IsOrganized chat_calls (clear chat) (clear-IsOrganized chat)

numbers_in_text :
    (to_long_long (str " -12 ") ≡ negsuc 11)
    × (to_long_long (str "12a") ≡ pos 0)
    × (to_long_long (str "9223372036854775808") ≡ pos 0)
unfolding text_to_long_long
numbers_in_text = (refl, refl, refl)
