-- ===== src/Client/Dispatcher.antt =====
-- Client/networkpacketdispatcher.h and Client/networkpacketdispatcher.cpp: a packet to a signal.
-- `trimmed` stands for QString::trimmed.
pub mod Outcome
use messenger_walkie_talkie.Prelude.{
  String, Bool, not, List, [], ◌∷◌, Option, none, some, if◌then◌else◌, ◌==◌, string_eq,
}
use messenger_walkie_talkie.Prelude.Int.{ℤ}
use messenger_walkie_talkie.Shared.Json.{
  Value, Items, nil, arr, JsonObject, value, to_string, to_long_long, to_bool, to_texts,
}
use messenger_walkie_talkie.Shared.Auth.{parse_auth_ok_packet, empty_session}

pub data DispatchResult : Type 0 where
  handled invalid_packet unhandled : DispatchResult

pub data Signal : Type 0 where
  auth_succeeded : String → String → ℤ → Signal
  auth_failed session_invalid transport_error : String → Signal
  users_updated dialogs_received : List String → Signal
  history_received : String → Items → Signal
  user_lookup_finished : String → Bool → Bool → Signal
  public_message_received private_message_received : String → String → String → ℤ → Signal
  message_queued : String → String → ℤ → Signal
  message_delivered : String → ℤ → Signal
  message_read : String → String → Signal

pub record Dispatched : Type 0 where
  pub result : DispatchResult
  pub emitted : Option Signal
  pub error_message : String

abbrev pub emits : Signal → Dispatched
emits signal = record { result = handled; emitted = some signal; error_message = "" }

abbrev to_items : Value → Items
to_items (arr items) = items
to_items _ = nil

-- The branch of auth_ok.
unfoldable pub dispatch_auth_ok : (String → String) → JsonObject → Dispatched
dispatch_auth_ok trimmed packet =
    let r = parse_auth_ok_packet trimmed packet "" empty_session in
    if not r.accepted
    then record { result = invalid_packet; emitted = none; error_message = "Invalid auth response" }
    else emits (auth_succeeded r.username r.session.token r.session.expires_at)

-- The branches of the messages and of their receipts.
unfoldable pub dispatch_message : JsonObject → String → Dispatched
dispatch_message packet type =
    let id = to_string (value packet "id") in
    let from = to_string (value packet "from") in
    let text = to_string (value packet "text") in
    let created_at = to_long_long (value packet "created_at") in
    if type == "message"
    then emits (public_message_received id from text created_at)
    else if type == "private"
    then emits (private_message_received id from text created_at)
    else if type == "queued"
    then emits (message_queued id (to_string (value packet "to")) created_at)
    else if type == "delivered"
    then emits (message_delivered id created_at)
    else if type == "read"
    then emits (message_read id from)
    else if type == "error"
    then emits (transport_error (to_string (value packet "message")))
    else record { result = unhandled; emitted = none; error_message = "" }

unfoldable pub dispatch : (String → String) → JsonObject → Dispatched
unfolding dispatch_auth_ok dispatch_message
dispatch trimmed packet =
    let type = to_string (value packet "type") in
    if type == "auth_ok"
    then dispatch_auth_ok trimmed packet
    else if type == "auth_error"
    then emits (auth_failed (to_string (value packet "message")))
    else if type == "session_invalid"
    then emits (session_invalid (to_string (value packet "message")))
    else if type == "users"
    then emits (users_updated (to_texts (value packet "list")))
    else if type == "dialogs"
    then emits (dialogs_received (to_texts (value packet "list")))
    else if type == "history"
    then emits
        (history_received (to_string (value packet "with")) (to_items (value packet "items")))
    else if type == "user_check_result"
    then emits (
        user_lookup_finished (to_string (value packet "username")) (to_bool (value packet "exists"))
          (to_bool (value packet "online")))
    else dispatch_message packet type
