-- ===== src/Server/Handlers/Routing.antt =====
-- The slots of Server/server.cpp: a packet, an acknowledgement, and the end of a connection.
use messenger_walkie_talkie.Prelude.{
  ℕ, String, not, ◌||◌, List, [], ◌∷◌, Option, none, some, if◌then◌else◌, is_empty, ◌==◌, string_eq,
}
use messenger_walkie_talkie.Prelude.Dict.{get}
use messenger_walkie_talkie.Prelude.Int.{ℤ}
use messenger_walkie_talkie.Shared.Json.{
  JsonObject, object, str, num, value, to_string, to_long_long,
}
use messenger_walkie_talkie.Server.Crypto.{Digest}
use messenger_walkie_talkie.Server.Sessions.{username_for, unregister_connection}
use messenger_walkie_talkie.Server.Storage.Messages.{mark_message_delivered}
use messenger_walkie_talkie.Server.Handlers.{
  Server, Surroundings, Send, plain, Reply, send_auth_error, broadcast_users,
}
use messenger_walkie_talkie.Server.Handlers.Authentication.{
  handle_register_packet, handle_login_packet, handle_resume_session_packet, handle_logout_packet,
}
use messenger_walkie_talkie.Server.Handlers.Chat.{
  handle_check_user_packet, handle_dialogs_packet, handle_history_packet, handle_broadcast_packet,
  handle_private_packet, handle_read_packet,
}

-- The receipt that the sender of a private message gets.
unfoldable forward_delivered : String → String → ℤ → Option ℕ → List Send
forward_delivered id to created_at none = []
forward_delivered id to created_at (some sender) =
    plain sender (
      object (
        ("type", str "delivered")
        ∷ ("id", str id)
        ∷ ("to", str to)
        ∷ ("created_at", num created_at)
        ∷ []))
    ∷ []

-- onTrackedPacketAcknowledged
unfoldable pub on_tracked_packet_acknowledged : Surroundings → JsonObject → Server → Reply
unfolding forward_delivered
on_tracked_packet_acknowledged env packet s =
    let id = to_string (value packet "id") in
    let from = to_string (value packet "from") in
    let to = to_string (value packet "to") in
    let created_at = to_long_long (value packet "created_at") in
    let marked = mark_message_delivered id env.handled_at s.storage in
    if not (to_string (value packet "type") == "private")
    then (s, [])
    else if is_empty id || (is_empty from || is_empty to)
    then (s, [])
    else if not marked.1
    then (record s { storage = marked.0 }, [])
    else (
      record s { storage = marked.0 },
      forward_delivered id to created_at (get from s.sessions.online_users),
    )

-- onConnectionClosed
unfoldable pub on_connection_closed : ℕ → Server → Reply
on_connection_closed connection s =
    let left = unregister_connection connection s.sessions in
    (record s { sessions = left }, broadcast_users left)

module _ (trimmed : String → String) (q : Digest) where
  -- handleAuthenticatedPacket; a packet of another type is only logged.
  unfoldable pub handle_authenticated_packet :
      Surroundings → ℕ → String → JsonObject → Server → Reply
  handle_authenticated_packet env connection username packet s =
      let type = to_string (value packet "type") in
      if type == "logout"
      then handle_logout_packet trimmed q connection username s
      else if type == "check_user"
      then handle_check_user_packet trimmed q env connection username packet s
      else if type == "dialogs"
      then handle_dialogs_packet connection username s
      else if type == "history"
      then handle_history_packet trimmed q connection username packet s
      else if type == "message"
      then handle_broadcast_packet trimmed q env connection username packet s
      else if type == "private"
      then handle_private_packet trimmed q env connection username packet s
      else if type == "read"
      then handle_read_packet trimmed q env connection username packet s
      else (s, [])

  -- onPacketReceived
  unfoldable pub on_packet_received : Surroundings → ℕ → JsonObject → Server → Reply
  unfolding handle_authenticated_packet
  on_packet_received env connection packet s =
      let type = to_string (value packet "type") in
      let username = username_for connection s.sessions in
      if type == "register"
      then handle_register_packet trimmed q env connection packet s
      else if type == "login"
      then handle_login_packet trimmed q env connection packet s
      else if type == "resume_session"
      then handle_resume_session_packet trimmed q env connection packet s
      else if is_empty username
      then (s, send_auth_error connection "Please login first")
      else handle_authenticated_packet env connection username packet s
