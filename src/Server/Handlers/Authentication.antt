-- ===== src/Server/Handlers/Authentication.antt =====
-- The packets of Server/server.cpp that log a user in or out.
use messenger_walkie_talkie.Prelude.{
  ℕ, ◌*◌, String, not, List, [], ◌∷◌, ◌++◌, Option, none, some, if◌then◌else◌, string_eq,
}
use messenger_walkie_talkie.Shared.Json.{JsonObject, value, to_string}
use messenger_walkie_talkie.Shared.Auth.{
  SessionInfo, normalize_username, make_auth_ok_packet, make_session_invalid_packet,
}
use messenger_walkie_talkie.Server.RateLimiter.{Rule}
use messenger_walkie_talkie.Server.Crypto.{Digest}
use messenger_walkie_talkie.Server.Sessions.{
  can_start_authenticated_session, attach_authenticated_session, unregister_connection,
}
use messenger_walkie_talkie.Server.Storage.{
  Database, Outcome, refused, issued, register_user, login_user, resume_session, invalidate_session,
}
use messenger_walkie_talkie.Server.Handlers.{
  Server, Surroundings, Send, plain, close_and_notify, Reply, send_auth_error, broadcast_users,
  send_dialog_list, send_pending_private_messages, allow_peer_action,
}

abbrev pub register_rate_limit : Rule
register_rate_limit = record { max_hits = 4; window_ms = 60 * 1000 }

abbrev pub login_rate_limit : Rule
login_rate_limit = record { max_hits = 6; window_ms = 60 * 1000 }

abbrev pub resume_session_rate_limit : Rule
resume_session_rate_limit = record { max_hits = 20; window_ms = 60 * 1000 }

-- How a refusal is sent: an auth error, or a packet that says that the session is invalid.
unfoldable pub send_session_invalid : ℕ → String → List Send
send_session_invalid connection message =
    plain connection (make_session_invalid_packet message) ∷ []

module _ (trimmed : String → String) (q : Digest) where
  -- finalizeAuthenticatedSession
  unfoldable pub finalize_authenticated_session : ℕ → String → SessionInfo → Server → Reply
  finalize_authenticated_session connection username session s =
      let dialogs = send_dialog_list connection username s.storage in
      let pending = send_pending_private_messages connection username dialogs.0 in
      (
        record s { storage = pending.0 },
        plain connection (make_auth_ok_packet username session)
            ∷ (broadcast_users s.sessions ++ (dialogs.1 ++ pending.1)),
      )

  -- m_storage.invalidateSession(currentUsername) in attachAuthenticatedSession
  abbrev pub invalidate_old : Option String → Database → Database
  invalidate_old none db = db
  invalidate_old (some user) db = (invalidate_session trimmed q user db).0

  -- The end of the three handlers, from what the storage answered on.
  unfoldable pub attach_outcome :
      (ℕ → String → List Send) → ℕ → String → Database × Outcome → Server → Reply
  unfolding finalize_authenticated_session
  attach_outcome deny connection username (db, refused message) s =
      (record s { storage = db }, deny connection message)
  attach_outcome deny connection username (db, issued session) s =
      let a = attach_authenticated_session connection username s.sessions in
      let attached : Server = record s {
        sessions = a.sessions;
        storage = invalidate_old a.invalidated db;
      } in
      if a.is_attached
      then finalize_authenticated_session connection username session attached
      else (
        record attached { storage = (invalidate_session trimmed q username attached.storage).0 },
        send_auth_error connection "User already logged in",
      )

  -- The part after the rate limit.
  unfoldable pub authenticate_with :
      (Database → Database × Outcome) → (ℕ → String → List Send) → ℕ → String → Server → Reply
  unfolding attach_outcome
  authenticate_with ask deny connection username s =
      if not (can_start_authenticated_session connection username s.sessions)
      then (s, send_auth_error connection "User already logged in")
      else attach_outcome deny connection username (ask s.storage) s

  abbrev pub unless_limited :
      (ℕ → String → List Send) → ℕ → (Server → Reply) → Server × Option String → Reply
  unless_limited deny connection go (s, none) = go s
  unless_limited deny connection go (s, some message) = (s, deny connection message)

  unfoldable pub handle_register_packet : Surroundings → ℕ → JsonObject → Server → Reply
  unfolding authenticate_with normalize_username
  handle_register_packet env connection packet s =
      let username = normalize_username trimmed (to_string (value packet "username")) in
      let password = to_string (value packet "password") in
      let ask = register_user trimmed q env.salt env.token_bytes env.issued_at username password in
      unless_limited send_auth_error connection
        (authenticate_with ask send_auth_error connection username)
        (allow_peer_action trimmed q env "register" register_rate_limit
          "Too many registration attempts." s)

  unfoldable pub handle_login_packet : Surroundings → ℕ → JsonObject → Server → Reply
  unfolding authenticate_with normalize_username
  handle_login_packet env connection packet s =
      let username = normalize_username trimmed (to_string (value packet "username")) in
      let password = to_string (value packet "password") in
      let ask = login_user trimmed q env.token_bytes env.issued_at username password in
      unless_limited send_auth_error connection
        (authenticate_with ask send_auth_error connection username)
        (allow_peer_action trimmed q env "login" login_rate_limit "Too many login attempts." s)

  unfoldable pub handle_resume_session_packet : Surroundings → ℕ → JsonObject → Server → Reply
  unfolding authenticate_with normalize_username send_session_invalid
  handle_resume_session_packet env connection packet s =
      let username = normalize_username trimmed (to_string (value packet "username")) in
      let token = to_string (value packet "session_token") in
      let ask =
        resume_session trimmed q env.token_bytes env.removed_at env.checked_at env.issued_at
          username token in
      unless_limited send_session_invalid connection
        (authenticate_with ask send_session_invalid connection username)
        (allow_peer_action trimmed q env "resume_session" resume_session_rate_limit
          "Too many session restore attempts." s)

  unfoldable pub handle_logout_packet : ℕ → String → Server → Reply
  handle_logout_packet connection username s =
      let left = unregister_connection connection s.sessions in
      (
        record s { sessions = left; storage = (invalidate_session trimmed q username s.storage).0 },
        broadcast_users left ++ close_and_notify connection ∷ [],
      )
