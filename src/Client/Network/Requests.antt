-- ===== src/Client/Network/Requests.antt =====
-- The requests of Client/networkclient.cpp: the packet that each of them writes.
use messenger_walkie_talkie.Prelude.{ℕ, min, max, String, true, List, [], ◌∷◌, if◌then◌else◌}
use messenger_walkie_talkie.Prelude.Int.{ℤ, pos, negsuc}
use messenger_walkie_talkie.Shared.Json.{object, str, num, bool}
use messenger_walkie_talkie.Shared.Auth.{
  normalize_username, make_resume_session_packet, make_logout_packet,
}
use messenger_walkie_talkie.Client.Network.{
  NetworkClient, Effect, write, flush, is_connected_state, send_tracked,
}

-- The requests; `sendPlain` writes the packet.
unfoldable pub login : (String → String) → String → String → List Effect
unfolding normalize_username
login trimmed username password =
    write (
      object (
        ("type", str "login")
        ∷ ("username", str (normalize_username trimmed username))
        ∷ ("password", str password)
        ∷ ("client_mode", str "desktop")
        ∷ ("supports_history", bool true)
        ∷ []))
    ∷ []

unfoldable pub register_user : (String → String) → String → String → List Effect
unfolding normalize_username
register_user trimmed username password =
    write (
      object (
        ("type", str "register")
        ∷ ("username", str (normalize_username trimmed username))
        ∷ ("password", str password)
        ∷ []))
    ∷ []

unfoldable pub resume_session : (String → String) → String → String → List Effect
unfolding make_resume_session_packet normalize_username
resume_session trimmed username token =
    write (make_resume_session_packet trimmed (normalize_username trimmed username) token) ∷ []

unfoldable pub logout : NetworkClient → List Effect
unfolding make_logout_packet
logout c = if is_connected_state c.socket then write make_logout_packet ∷ flush ∷ [] else []

unfoldable pub check_user_exists : (String → String) → String → List Effect
unfolding normalize_username
check_user_exists trimmed username =
    write (
      object
        (("type", str "check_user") ∷ ("username", str (normalize_username trimmed username)) ∷ []))
    ∷ []

unfoldable pub request_dialog_list : List Effect
request_dialog_list = write (object (("type", str "dialogs") ∷ [])) ∷ []

-- qBound(1, limit, 200)
abbrev bounded : ℤ → ℕ
bounded (pos n) = min (max 1 n) 200
bounded (negsuc n) = 1

unfoldable pub request_history : String → ℤ → List Effect
request_history chat_user limit =
    write (
      object (
        ("type", str "history")
        ∷ ("with", str chat_user)
        ∷ ("limit", num (pos (bounded limit)))
        ∷ []))
    ∷ []

unfoldable pub send_broadcast_message :
    String → ℕ → String → NetworkClient → NetworkClient × List Effect × String
unfolding send_tracked
send_broadcast_message fresh_id now text c =
    send_tracked fresh_id now (object (("type", str "message") ∷ ("text", str text) ∷ [])) c

unfoldable pub send_private_message :
    String → ℕ → String → String → NetworkClient → NetworkClient × List Effect × String
unfolding send_tracked
send_private_message fresh_id now recipient text c =
    send_tracked fresh_id now
      (object (("type", str "private") ∷ ("to", str recipient) ∷ ("text", str text) ∷ [])) c

unfoldable pub send_read_receipt : String → String → List Effect
send_read_receipt recipient message_id =
    write (object (("type", str "read") ∷ ("to", str recipient) ∷ ("id", str message_id) ∷ [])) ∷ []
