-- ===== src/Server/Handlers/Strangers.antt =====
-- What a connection that has not logged in can do to the messages in Server/server.cpp.
use messenger_walkie_talkie.Prelude.{
  ℕ, String, ◌≡◌, refl, ◌∙◌, Bool, true, false, not, List, Option, none, some, arith, if◌then◌else◌,
  ◌==◌, string_eq,
}
use messenger_walkie_talkie.Shared.Json.{JsonObject, value, to_string}
use messenger_walkie_talkie.Shared.Auth.{SessionInfo, normalize_username}
use messenger_walkie_talkie.Prelude.Dict.{get, put}
use messenger_walkie_talkie.Server.Crypto.{Digest, hash_password}
use messenger_walkie_talkie.Server.Sessions.{
  username_for, can_start_authenticated_session, attach_authenticated_session,
}
use messenger_walkie_talkie.Server.Storage.{
  MessageRow, BroadcastRow, SessionRow, Database, Outcome, refused, issued, tried, issue_session,
  register_user, login_row, login_user, invalidate_session, remove_expired_session, resume_row,
  resume_session,
}
use messenger_walkie_talkie.Server.Storage.Messages.{
  load_dialog_users, load_pending_private_messages,
}
use messenger_walkie_talkie.Server.Handlers.{
  Server, Surroundings, Send, Reply, allow_peer_action, allow_rate_limited_action, send_auth_error,
  send_dialog_list, send_pending_private_messages,
}
use messenger_walkie_talkie.Server.Handlers.Authentication.{
  attach_outcome, authenticate_with, unless_limited, invalidate_old, finalize_authenticated_session,
  handle_register_packet, handle_login_packet, handle_resume_session_packet, send_session_invalid,
  register_rate_limit, login_rate_limit, resume_session_rate_limit,
}
use messenger_walkie_talkie.Server.Handlers.Routing.{on_packet_received}

-- The two tables of messages.
abbrev Chats : Type 0
Chats = List (String × MessageRow) × List (String × BroadcastRow)

abbrev pub chats : Database → Chats
chats db = (db.messages, db.broadcast_messages)

either-chats :
    (start : Chats) (b : Bool) (x y : Reply)
    → chats x.0.storage ≡ start
    → chats y.0.storage ≡ start
    → chats (if b then x else y).0.storage ≡ start
either-chats start true x y p q = p
either-chats start false x y p q = q

module _ (trimmed : String → String) (q : Digest) where
  issue-chats :
      (bytes : List ℕ) (now : ℕ) (u : String) (db : Database)
      → chats (issue_session trimmed q bytes now u db).0 ≡ chats db
  unfolding issue_session
  issue-chats bytes now u db = ground arith

  register-chats :
      (salt bytes : List ℕ) (now : ℕ) (u password : String) (db : Database)
      → chats (register_user trimmed q salt bytes now u password db).0 ≡ chats db
  unfolding register_user tried
  register-chats salt bytes now u password db =
      let name = normalize_username trimmed u in
      let db' : Database = record (tried db) {
        users = put name (hash_password q salt password) db.users;
      } in
      ground (arith, issue-chats bytes now name db')

  login_row-chats :
      (bytes : List ℕ) (now : ℕ) (name password : String) (o : Option String) (db : Database)
      → chats (login_row trimmed q bytes now name password o db).0 ≡ chats db
  unfolding login_row
  login_row-chats bytes now name password none db = refl
  login_row-chats bytes now name password (some h) db =
      ground (arith, issue-chats bytes now name db)

  login-chats :
      (bytes : List ℕ) (now : ℕ) (u password : String) (db : Database)
      → chats (login_user trimmed q bytes now u password db).0 ≡ chats db
  unfolding login_user tried
  login-chats bytes now u password db =
      let row =
        login_row-chats bytes now (normalize_username trimmed u) password (get (trimmed u) db.users)
          (tried db) in
      ground (arith, row)

  invalidate-chats :
      (u : String) (db : Database) → chats (invalidate_session trimmed q u db).0 ≡ chats db
  unfolding invalidate_session
  invalidate-chats u db = ground arith

  remove-chats :
      (now : ℕ) (u : String) (db : Database)
      → chats (remove_expired_session trimmed q now u db).0 ≡ chats db
  unfolding remove_expired_session
  remove-chats now u db = ground arith

  resume_row-chats :
      (bytes : List ℕ) (checked now : ℕ) (name token : String) (o : Option SessionRow)
      (db : Database)
      → chats (resume_row trimmed q bytes checked now name token o db).0 ≡ chats db
  unfolding resume_row
  resume_row-chats bytes checked now name token none db = refl
  resume_row-chats bytes checked now name token (some row) db =
      ground (arith, issue-chats bytes now name db, invalidate-chats name db)

  resume-chats :
      (bytes : List ℕ) (removed checked now : ℕ) (u token : String) (db : Database)
      → chats (resume_session trimmed q bytes removed checked now u token db).0 ≡ chats db
  unfolding resume_session tried
  resume-chats bytes removed checked now u token db =
      let name = normalize_username trimmed u in
      let r = remove_expired_session trimmed q removed name db in
      let row = resume_row-chats bytes checked now name token (get name r.0.sessions) (tried r.0) in
      ground (arith, row, remove-chats removed name db)

  invalidate_old-chats :
      (o : Option String) (db : Database) → chats (invalidate_old trimmed q o db) ≡ chats db
  invalidate_old-chats none db = refl
  invalidate_old-chats (some u) db = invalidate-chats u db

  finalize-chats :
      (c : ℕ) (u : String) (session : SessionInfo) (s : Server)
      → chats (finalize_authenticated_session trimmed q c u session s).0.storage ≡ chats s.storage
  unfolding finalize_authenticated_session send_dialog_list send_pending_private_messages
      load_dialog_users load_pending_private_messages
  finalize-chats c u session s = ground arith

  attach_outcome-chats :
      (deny : ℕ → String → List Send) (c : ℕ) (u : String) (r : Database × Outcome) (s : Server)
      → chats (attach_outcome trimmed q deny c u r s).0.storage ≡ chats r.0
  unfolding attach_outcome
  attach_outcome-chats deny c u (db, refused m) s = refl
  attach_outcome-chats deny c u (db, issued session) s =
      let a = attach_authenticated_session c u s.sessions in
      let attached : Server = record s {
        sessions = a.sessions;
        storage = invalidate_old trimmed q a.invalidated db;
      } in
      let old = invalidate_old-chats a.invalidated db in
      let done = finalize-chats c u session attached ∙ old in
      let undone = invalidate-chats u attached.storage ∙ old in
      either-chats (chats db) a.is_attached
        (finalize_authenticated_session trimmed q c u session attached)
        (
          record attached { storage = (invalidate_session trimmed q u attached.storage).0 },
          send_auth_error c "User already logged in",
        )
        done undone

  unless_limited-chats :
      (ask : Database → Database × Outcome) (deny : ℕ → String → List Send) (c : ℕ) (u : String)
      (limited : Server × Option String) (start : Chats)
      → chats limited.0.storage ≡ start
      → ((db : Database) → chats (ask db).0 ≡ chats db)
      → chats
          (unless_limited trimmed q deny c
            (authenticate_with trimmed q ask deny c u)
            limited).0.storage
        ≡ start
  unfolding authenticate_with
  unless_limited-chats ask deny c u (s, some m) start e keeps = e
  unless_limited-chats ask deny c u (s, none) start e keeps =
      either-chats start (not (can_start_authenticated_session c u s.sessions))
        (s, send_auth_error c "User already logged in")
        (attach_outcome trimmed q deny c u (ask s.storage) s) e
        (attach_outcome-chats deny c u (ask s.storage) s ∙ keeps s.storage ∙ e)

  register_packet-chats :
      (env : Surroundings) (c : ℕ) (p : JsonObject) (s : Server)
      → chats (handle_register_packet trimmed q env c p s).0.storage ≡ chats s.storage
  unfolding handle_register_packet allow_peer_action allow_rate_limited_action normalize_username
  register_packet-chats env c p s =
      let u = trimmed (to_string (value p "username")) in
      let password = to_string (value p "password") in
      unless_limited-chats
        (register_user trimmed q env.salt env.token_bytes env.issued_at u password) send_auth_error
        c u
        (allow_peer_action trimmed q env "register" register_rate_limit
          "Too many registration attempts." s)
        (chats s.storage) refl (register-chats env.salt env.token_bytes env.issued_at u password)

  login_packet-chats :
      (env : Surroundings) (c : ℕ) (p : JsonObject) (s : Server)
      → chats (handle_login_packet trimmed q env c p s).0.storage ≡ chats s.storage
  unfolding handle_login_packet allow_peer_action allow_rate_limited_action normalize_username
  login_packet-chats env c p s =
      let u = trimmed (to_string (value p "username")) in
      let password = to_string (value p "password") in
      unless_limited-chats (login_user trimmed q env.token_bytes env.issued_at u password)
        send_auth_error c u
        (allow_peer_action trimmed q env "login" login_rate_limit "Too many login attempts." s)
        (chats s.storage) refl (login-chats env.token_bytes env.issued_at u password)

  resume_packet-chats :
      (env : Surroundings) (c : ℕ) (p : JsonObject) (s : Server)
      → chats (handle_resume_session_packet trimmed q env c p s).0.storage ≡ chats s.storage
  unfolding handle_resume_session_packet allow_peer_action allow_rate_limited_action
      normalize_username
  resume_packet-chats env c p s =
      let u = trimmed (to_string (value p "username")) in
      let token = to_string (value p "session_token") in
      unless_limited-chats
        (resume_session trimmed q env.token_bytes env.removed_at env.checked_at env.issued_at u
          token)
        send_session_invalid c u
        (allow_peer_action trimmed q env "resume_session" resume_session_rate_limit
          "Too many session restore attempts." s)
        (chats s.storage) refl
        (resume-chats env.token_bytes env.removed_at env.checked_at env.issued_at u token)

  -- Whatever packet a connection without a user sends, and however the storage fails, the tables of
  -- the private and of the broadcast messages stay as they are.
  pub stranger_writes_no_messages :
      (env : Surroundings) (c : ℕ) (p : JsonObject) (s : Server)
      → username_for c s.sessions ≡ ""
      → chats (on_packet_received trimmed q env c p s).0.storage ≡ chats s.storage
  unfolding on_packet_received
  stranger_writes_no_messages env c p s stranger =
      let type = to_string (value p "type") in
      let denied : Reply = (s, send_auth_error c "Please login first") in
      let resumed = handle_resume_session_packet trimmed q env c p s in
      let r2 = if type == "resume_session" then resumed else denied in
      let logged_in = handle_login_packet trimmed q env c p s in
      let r1 = if type == "login" then logged_in else r2 in
      let e2 =
        either-chats (chats s.storage) (type == "resume_session") resumed denied
          (resume_packet-chats env c p s) refl in
      let e1 =
        either-chats (chats s.storage) (type == "login") logged_in r2 (login_packet-chats env c p s)
          e2 in
      rw stranger (
        either-chats (chats s.storage) (type == "register")
          (handle_register_packet trimmed q env c p s) r1 (register_packet-chats env c p s) e1)
