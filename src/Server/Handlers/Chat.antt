-- ===== src/Server/Handlers/Chat.antt =====
-- The packets of Server/server.cpp that a user who is logged in sends.
use messenger_walkie_talkie.Prelude.{
  ℕ, ◌*◌, min, max, String, not, List, [], ◌∷◌, Option, none, some, map, if◌then◌else◌, is_empty,
  ◌==◌, string_eq,
}
use messenger_walkie_talkie.Prelude.Int.{ℤ, pos, negsuc}
use messenger_walkie_talkie.Prelude.Dict.{get}
use messenger_walkie_talkie.Shared.Json.{
  JsonObject, Value, object, array, arr, str, num, bool, obj, value, to_string, to_int_or,
}
use messenger_walkie_talkie.Shared.Auth.{
  normalize_username, is_message_text_valid, is_private_recipient_valid,
}
use messenger_walkie_talkie.Server.RateLimiter.{Rule}
use messenger_walkie_talkie.Server.Crypto.{Digest}
use messenger_walkie_talkie.Server.Storage.{Database, is_some, user_exists}
use messenger_walkie_talkie.Server.Storage.Messages.{
  Row, Broadcast, status_of, store_broadcast_message, store_private_message, mark_message_read,
  load_broadcast_history, load_private_history,
}
use messenger_walkie_talkie.Server.Handlers.{
  Server, Surroundings, Send, plain, tracked, Reply, values, send_dialog_list, private_packet,
  allow_user_action,
}

abbrev check_user_rate_limit : Rule
check_user_rate_limit = record { max_hits = 20; window_ms = 10 * 1000 }

abbrev message_rate_limit : Rule
message_rate_limit = record { max_hits = 25; window_ms = 10 * 1000 }

abbrev read_receipt_rate_limit : Rule
read_receipt_rate_limit = record { max_hits = 60; window_ms = 10 * 1000 }

-- An error about a message.
abbrev pub error_packet : String → String → JsonObject
error_packet message id =
    object (("type", str "error") ∷ ("message", str message) ∷ ("id", str id) ∷ [])

-- The items of a history.
abbrev history_item : String → String → String → String → String → ℕ → Value
history_item id from to text status created_at = obj (
    object (
      ("id", str id)
      ∷ ("from", str from)
      ∷ ("to", str to)
      ∷ ("text", str text)
      ∷ ("status", str status)
      ∷ ("created_at", num (pos created_at))
      ∷ []))

abbrev private_item : Row → Value
private_item row =
    history_item row.0 row.1.from_user row.1.to_user row.1.text (status_of row.1) row.1.created_at

abbrev broadcast_item : Broadcast → Value
broadcast_item row = history_item row.0 row.1.from_user "" row.1.text "delivered" row.1.created_at

-- The items that sendHistory loads for a chat.
unfoldable history_items : String → String → ℤ → Database → Database × List Value
history_items username chat_user limit db =
    let public = load_broadcast_history limit db in
    let private = load_private_history username chat_user limit db in
    if is_empty chat_user
    then (db, [])
    else if chat_user == "Broadcast"
    then (public.0, map broadcast_item public.1)
    else (private.0, map private_item private.1)

-- sendHistory
unfoldable send_history : ℕ → String → String → ℤ → Database → Database × List Send
unfolding history_items
send_history connection username chat_user limit db =
    let loaded = history_items username chat_user limit db in
    (
      loaded.0,
      plain connection (
            object (
              ("type", str "history")
              ∷ ("with", str chat_user)
              ∷ ("items", arr (array loaded.1))
              ∷ []))
          ∷ [],
    )

-- qBound(1, limit, 200)
abbrev bounded_limit : ℤ → ℤ
bounded_limit (pos n) = pos (min (max 1 n) 200)
bounded_limit (negsuc n) = pos 1

unfoldable pub handle_dialogs_packet : ℕ → String → Server → Reply
handle_dialogs_packet connection username s =
    let sent = send_dialog_list connection username s.storage in
    (record s { storage = sent.0 }, sent.1)

abbrev message_packet : String → String → String → ℕ → JsonObject
message_packet id from text created_at = object (
    ("type", str "message")
    ∷ ("id", str id)
    ∷ ("from", str from)
    ∷ ("text", str text)
    ∷ ("created_at", num (pos created_at))
    ∷ [])

-- The last part of handlePrivatePacket: to the receiver's connection, or queued.
unfoldable pub forward_private : ℕ → JsonObject → String → String → ℕ → Option ℕ → List Send
forward_private connection packet id to created_at none =
    plain connection (
      object (
        ("type", str "queued")
        ∷ ("id", str id)
        ∷ ("to", str to)
        ∷ ("created_at", num (pos created_at))
        ∷ []))
    ∷ []
forward_private connection packet id to created_at (some target) = tracked target packet ∷ []

-- The last part of handleReadPacket.
unfoldable forward_read : String → String → Option ℕ → List Send
forward_read id from none = []
forward_read id from (some target) =
    plain target (object (("type", str "read") ∷ ("id", str id) ∷ ("from", str from) ∷ [])) ∷ []

module _ (trimmed : String → String) (q : Digest) where
  unfoldable pub handle_check_user_packet : Surroundings → ℕ → String → JsonObject → Server → Reply
  unfolding normalize_username
  handle_check_user_packet env connection username packet s =
      let limited =
        allow_user_action trimmed q env username "check_user" check_user_rate_limit
          "Too many user lookup requests." s in
      let lookup = normalize_username trimmed (to_string (value packet "username")) in
      let exists = user_exists trimmed q lookup limited.0.storage in
      let answer = object (
        ("type", str "user_check_result")
        ∷ ("username", str lookup)
        ∷ ("exists", bool exists.1)
        ∷ ("online", bool (is_some (get lookup s.sessions.online_users)))
        ∷ []) in
      elim limited.1 [
        | some message ↦ (
          limited.0,
          plain connection (object (("type", str "error") ∷ ("message", str message) ∷ [])) ∷ [],
        )
        | none ↦ (record limited.0 { storage = exists.0 }, plain connection answer ∷ [])
      ]

  unfoldable pub handle_history_packet : ℕ → String → JsonObject → Server → Reply
  unfolding send_history
  handle_history_packet connection username packet s =
      let other = trimmed (to_string (value packet "with")) in
      let limit = bounded_limit (to_int_or (value packet "limit") (pos 100)) in
      let sent = send_history connection username other limit s.storage in
      (record s { storage = sent.0 }, sent.1)

  -- handleBroadcastPacket behind the rate limit.
  unfoldable pub broadcast_message : Surroundings → ℕ → String → JsonObject → Server → Reply
  unfolding is_message_text_valid
  broadcast_message env connection username packet s =
      let id = to_string (value packet "id") in
      let text = to_string (value packet "text") in
      let stored = store_broadcast_message id username text env.handled_at s.storage in
      let sent = message_packet id username text env.handled_at in
      if not (is_message_text_valid trimmed text)
      then (s, plain connection (error_packet "Message must be 1-4000 characters" id) ∷ [])
      else if not stored.1
      then (
        record s { storage = stored.0 },
        plain connection (error_packet "Database error" id) ∷ [],
      )
      else (
        record s { storage = stored.0 },
        map (λ recipient. tracked recipient sent) (values s.sessions.online_users),
      )

  unfoldable pub handle_broadcast_packet : Surroundings → ℕ → String → JsonObject → Server → Reply
  unfolding broadcast_message
  handle_broadcast_packet env connection username packet s =
      let limited =
        allow_user_action trimmed q env username "message" message_rate_limit "Too many messages."
          s in
      elim limited.1 [
        | some message ↦ (
          limited.0,
          plain connection (error_packet message (to_string (value packet "id"))) ∷ [],
        )
        | none ↦ broadcast_message env connection username packet limited.0
      ]

  -- handlePrivatePacket behind the rate limit.
  unfoldable pub private_message : Surroundings → ℕ → String → JsonObject → Server → Reply
  unfolding is_message_text_valid is_private_recipient_valid forward_private normalize_username
  private_message env connection username packet s =
      let to = normalize_username trimmed (to_string (value packet "to")) in
      let id = to_string (value packet "id") in
      let text = to_string (value packet "text") in
      let exists = user_exists trimmed q to s.storage in
      let stored = store_private_message id username to text env.handled_at exists.0 in
      let sent = private_packet id username to text env.handled_at in
      if not (is_private_recipient_valid trimmed username to)
      then (
        s,
        plain connection (error_packet "You cannot send private messages to yourself" id) ∷ [],
      )
      else if not (is_message_text_valid trimmed text)
      then (s, plain connection (error_packet "Message must be 1-4000 characters" id) ∷ [])
      else if not exists.1
      then (
        record s { storage = exists.0 },
        plain connection (error_packet "User not found" id) ∷ [],
      )
      else if not stored.1
      then (
        record s { storage = stored.0 },
        plain connection (error_packet "Database error" id) ∷ [],
      )
      else (
        record s { storage = stored.0 },
        forward_private connection sent id to env.handled_at (get to s.sessions.online_users),
      )

  unfoldable pub handle_private_packet : Surroundings → ℕ → String → JsonObject → Server → Reply
  unfolding private_message
  handle_private_packet env connection username packet s =
      let limited =
        allow_user_action trimmed q env username "private" message_rate_limit "Too many messages."
          s in
      elim limited.1 [
        | some message ↦ (
          limited.0,
          plain connection (error_packet message (to_string (value packet "id"))) ∷ [],
        )
        | none ↦ private_message env connection username packet limited.0
      ]

  unfoldable pub handle_read_packet : Surroundings → ℕ → String → JsonObject → Server → Reply
  unfolding forward_read normalize_username
  handle_read_packet env connection username packet s =
      let limited =
        allow_user_action trimmed q env username "read" read_receipt_rate_limit
          "Too many read receipts." s in
      let to = normalize_username trimmed (to_string (value packet "to")) in
      let id = to_string (value packet "id") in
      let marked = mark_message_read id env.handled_at limited.0.storage in
      elim limited.1 [
        | some message ↦ (limited.0, [])
        | none ↦ (
          record limited.0 { storage = marked.0 },
          forward_read id username (get to s.sessions.online_users),
        )
      ]
