-- ===== src/Server/Handlers/Online.antt =====
-- The maps of users and connections under every slot of Server/server.cpp.
use messenger_walkie_talkie.Prelude.{
  ℕ, String, ◌≡◌, ◌≢◌, refl, sym, subst, ◌∙◌, Bool, true, false, List, [], ◌∷◌, ◌++◌, Option, none,
  some, arith, if◌then◌else◌, ◌==◌, string_eq, is_empty,
}
use messenger_walkie_talkie.Shared.Json.{JsonObject, value, to_string}
use messenger_walkie_talkie.Shared.Auth.{SessionInfo, normalize_username}
use messenger_walkie_talkie.Server.Crypto.{Digest}
use messenger_walkie_talkie.Server.Sessions.{Sessions, username_for, attach_authenticated_session}
use messenger_walkie_talkie.Server.Sessions.Inverse.{
  IsInverse, attach-IsInverse, unregister-IsInverse,
}
use messenger_walkie_talkie.Server.Storage.{
  Database, Outcome, refused, issued, register_user, login_user, resume_session,
}
use messenger_walkie_talkie.Server.Storage.Tokens.{
  Request, registers, logs_in, resumes, authenticate, authenticate-named,
}
use messenger_walkie_talkie.Server.Handlers.{
  Server, Surroundings, Send, Reply, send_auth_error, allow_peer_action, allow_user_action,
  allow_rate_limited_action,
}
use messenger_walkie_talkie.Server.Handlers.Authentication.{
  attach_outcome, authenticate_with, unless_limited, finalize_authenticated_session,
  handle_register_packet, handle_login_packet, handle_resume_session_packet, handle_logout_packet,
  send_session_invalid, register_rate_limit, login_rate_limit, resume_session_rate_limit,
}
use messenger_walkie_talkie.Server.Handlers.Chat.{
  handle_check_user_packet, handle_dialogs_packet, handle_history_packet, handle_broadcast_packet,
  handle_private_packet, handle_read_packet, broadcast_message, private_message,
}
use messenger_walkie_talkie.Server.Handlers.Routing.{
  on_tracked_packet_acknowledged, on_connection_closed, handle_authenticated_packet,
  on_packet_received,
}

-- The slots, one after the other.
pub data Event : Type 0 where
  receives : Surroundings → ℕ → JsonObject → Event
  acknowledged : Surroundings → JsonObject → Event
  closed : ℕ → Event

module _ (trimmed : String → String) (q : Digest) where
  unfoldable pub handle : Event → Server → Reply
  handle (receives env connection packet) s = on_packet_received trimmed q env connection packet s
  handle (acknowledged env packet) s = on_tracked_packet_acknowledged env packet s
  handle (closed connection) s = on_connection_closed connection s

  unfoldable pub run : List Event → Server → Reply
  run [] s = (s, [])
  run (e ∷ events) s =
      let first = handle e s in let others = run events first.0 in (others.0, first.1 ++ others.1)

-- A property of the maps holds whichever branch is taken.
either-sessions :
    (P : Sessions → Type 0) (b : Bool) (x y : Reply)
    → P x.0.sessions
    → P y.0.sessions
    → P (if b then x else y).0.sessions
either-sessions P true x y p q = p
either-sessions P false x y p q = q

module _ (trimmed : String → String) (q : Digest) where
  attach_outcome-IsInverse :
      (deny : ℕ → String → List Send) (c : ℕ) (u : String) (r : Database × Outcome) (s : Server)
      → IsInverse s.sessions
      → ((session : SessionInfo) → r.1 ≡ issued session → u ≢ "")
      → IsInverse (attach_outcome trimmed q deny c u r s).0.sessions
  unfolding attach_outcome finalize_authenticated_session
  attach_outcome-IsInverse deny c u (db, refused m) s v named = v
  attach_outcome-IsInverse deny c u (db, issued session) s v named =
      let w = attach-IsInverse c u s.sessions v (named session refl) in
      either-sessions IsInverse (attach_authenticated_session c u s.sessions).is_attached _ _ w w

  authenticate_with-IsInverse :
      (ask : Database → Database × Outcome) (deny : ℕ → String → List Send) (c : ℕ) (u : String)
      (s : Server)
      → IsInverse s.sessions
      → ((session : SessionInfo) → (ask s.storage).1 ≡ issued session → u ≢ "")
      → IsInverse (authenticate_with trimmed q ask deny c u s).0.sessions
  unfolding authenticate_with
  authenticate_with-IsInverse ask deny c u s v named =
      either-sessions IsInverse _ _ _ v
        (attach_outcome-IsInverse deny c u (ask s.storage) s v named)

  unless_limited-IsInverse :
      (ask : Database → Database × Outcome) (deny : ℕ → String → List Send) (c : ℕ) (u : String)
      (limited : Server × Option String)
      → IsInverse limited.0.sessions
      → ((db : Database) (session : SessionInfo) → (ask db).1 ≡ issued session → u ≢ "")
      → IsInverse
          (unless_limited trimmed q deny c
            (authenticate_with trimmed q ask deny c u)
            limited).0.sessions
  unless_limited-IsInverse ask deny c u (s, none) v named =
      authenticate_with-IsInverse ask deny c u s v (named s.storage)
  unless_limited-IsInverse ask deny c u (s, some m) v named = v

  module _ (again : (text : String) → trimmed (trimmed text) ≡ trimmed text) where
    -- A user name out of a packet is not empty once the storage has issued a session for it.
    named_by :
        (r : Request) (bytes : List ℕ) (now : ℕ) (raw : String) (db : Database)
        (session : SessionInfo)
        → (authenticate trimmed q r bytes now (trimmed raw) db).1 ≡ issued session
        → trimmed raw ≢ ""
    named_by r bytes now raw db session h e =
        authenticate-named trimmed q r bytes now (trimmed raw) db session (again (trimmed raw)) h
          (again raw ∙ e)

    register-IsInverse :
        (env : Surroundings) (c : ℕ) (p : JsonObject) (s : Server)
        → IsInverse s.sessions
        → IsInverse (handle_register_packet trimmed q env c p s).0.sessions
    unfolding handle_register_packet allow_peer_action allow_rate_limited_action authenticate
        normalize_username
    register-IsInverse env c p s v =
        let raw = to_string (value p "username") in
        unless_limited-IsInverse
          (register_user trimmed q env.salt env.token_bytes env.issued_at (trimmed raw)
            (to_string (value p "password")))
          send_auth_error c (trimmed raw)
          (allow_peer_action trimmed q env "register" register_rate_limit
            "Too many registration attempts." s)
          v
          (named_by (registers env.salt (to_string (value p "password"))) env.token_bytes
            env.issued_at raw)

    login-IsInverse :
        (env : Surroundings) (c : ℕ) (p : JsonObject) (s : Server)
        → IsInverse s.sessions
        → IsInverse (handle_login_packet trimmed q env c p s).0.sessions
    unfolding handle_login_packet allow_peer_action allow_rate_limited_action authenticate
        normalize_username
    login-IsInverse env c p s v =
        let raw = to_string (value p "username") in
        unless_limited-IsInverse
          (login_user trimmed q env.token_bytes env.issued_at (trimmed raw)
            (to_string (value p "password")))
          send_auth_error c (trimmed raw)
          (allow_peer_action trimmed q env "login" login_rate_limit "Too many login attempts." s) v
          (named_by (logs_in (to_string (value p "password"))) env.token_bytes env.issued_at raw)

    resume-IsInverse :
        (env : Surroundings) (c : ℕ) (p : JsonObject) (s : Server)
        → IsInverse s.sessions
        → IsInverse (handle_resume_session_packet trimmed q env c p s).0.sessions
    unfolding handle_resume_session_packet allow_peer_action allow_rate_limited_action authenticate
        normalize_username
    resume-IsInverse env c p s v =
        let raw = to_string (value p "username") in
        unless_limited-IsInverse
          (resume_session trimmed q env.token_bytes env.removed_at env.checked_at env.issued_at
            (trimmed raw) (to_string (value p "session_token")))
          send_session_invalid c (trimmed raw)
          (allow_peer_action trimmed q env "resume_session" resume_session_rate_limit
            "Too many session restore attempts." s)
          v
          (named_by (resumes env.removed_at env.checked_at (to_string (value p "session_token")))
            env.token_bytes env.issued_at raw)

    logout-IsInverse :
        (c : ℕ) (u : String) (s : Server)
        → IsInverse s.sessions
        → IsInverse (handle_logout_packet trimmed q c u s).0.sessions
    unfolding handle_logout_packet
    logout-IsInverse c u s v = (unregister-IsInverse c s.sessions v).0

  -- The packets of the chat leave the maps as they are.
  check_user-sessions :
      (env : Surroundings) (c : ℕ) (u : String) (p : JsonObject) (s : Server)
      → (handle_check_user_packet trimmed q env c u p s).0.sessions ≡ s.sessions
  unfolding handle_check_user_packet allow_user_action allow_rate_limited_action
  check_user-sessions env c u p s = ground arith

  broadcast-sessions :
      (env : Surroundings) (c : ℕ) (u : String) (p : JsonObject) (s : Server)
      → (handle_broadcast_packet trimmed q env c u p s).0.sessions ≡ s.sessions
  unfolding handle_broadcast_packet allow_user_action allow_rate_limited_action broadcast_message
  broadcast-sessions env c u p s = ground arith

  private-sessions :
      (env : Surroundings) (c : ℕ) (u : String) (p : JsonObject) (s : Server)
      → (handle_private_packet trimmed q env c u p s).0.sessions ≡ s.sessions
  unfolding handle_private_packet allow_user_action allow_rate_limited_action private_message
  private-sessions env c u p s = ground arith

  read-sessions :
      (env : Surroundings) (c : ℕ) (u : String) (p : JsonObject) (s : Server)
      → (handle_read_packet trimmed q env c u p s).0.sessions ≡ s.sessions
  unfolding handle_read_packet allow_user_action allow_rate_limited_action
  read-sessions env c u p s = ground arith

  acknowledged-sessions :
      (env : Surroundings) (p : JsonObject) (s : Server)
      → (on_tracked_packet_acknowledged env p s).0.sessions ≡ s.sessions
  unfolding on_tracked_packet_acknowledged
  acknowledged-sessions env p s = ground arith

  module _ (again : (text : String) → trimmed (trimmed text) ≡ trimmed text) where
    authenticated-IsInverse :
        (env : Surroundings) (c : ℕ) (u : String) (p : JsonObject) (s : Server)
        → IsInverse s.sessions
        → IsInverse (handle_authenticated_packet trimmed q env c u p s).0.sessions
    unfolding handle_authenticated_packet
    authenticated-IsInverse env c u p s v =
        let type = to_string (value p "type") in
        let stays = λ (ss : Sessions) (e : ss ≡ s.sessions). subst IsInverse (sym e) v in
        let logged_out = handle_logout_packet trimmed q c u s in
        let checked = handle_check_user_packet trimmed q env c u p s in
        let dialogs = handle_dialogs_packet c u s in
        let history = handle_history_packet trimmed q c u p s in
        let sent = handle_broadcast_packet trimmed q env c u p s in
        let sent' = handle_private_packet trimmed q env c u p s in
        let read = handle_read_packet trimmed q env c u p s in
        let none_left : Reply = (s, []) in
        let r6 = if type == "read" then read else none_left in
        let r5 = if type == "private" then sent' else r6 in
        let r4 = if type == "message" then sent else r5 in
        let r3 = if type == "history" then history else r4 in
        let r2 = if type == "dialogs" then dialogs else r3 in
        let r1 = if type == "check_user" then checked else r2 in
        let v6 =
          either-sessions IsInverse (type == "read") read none_left
            (stays _ (read-sessions env c u p s)) v in
        let v5 =
          either-sessions IsInverse (type == "private") sent' r6
            (stays _ (private-sessions env c u p s)) v6 in
        let v4 =
          either-sessions IsInverse (type == "message") sent r5
            (stays _ (broadcast-sessions env c u p s)) v5 in
        let v3 =
          either-sessions IsInverse (type == "history") history r4
            (unfold handle_history_packet in v) v4 in
        let v2 =
          either-sessions IsInverse (type == "dialogs") dialogs r3
            (unfold handle_dialogs_packet in v) v3 in
        let v1 =
          either-sessions IsInverse (type == "check_user") checked r2
            (stays _ (check_user-sessions env c u p s)) v2 in
        either-sessions IsInverse (type == "logout") logged_out r1 (logout-IsInverse again c u s v)
          v1

    received-IsInverse :
        (env : Surroundings) (c : ℕ) (p : JsonObject) (s : Server)
        → IsInverse s.sessions
        → IsInverse (on_packet_received trimmed q env c p s).0.sessions
    unfolding on_packet_received
    received-IsInverse env c p s v =
        let type = to_string (value p "type") in
        let u = username_for c s.sessions in
        let denied : Reply = (s, send_auth_error c "Please login first") in
        let inside = handle_authenticated_packet trimmed q env c u p s in
        let r3 = if is_empty u then denied else inside in
        let resumed = handle_resume_session_packet trimmed q env c p s in
        let r2 = if type == "resume_session" then resumed else r3 in
        let logged_in = handle_login_packet trimmed q env c p s in
        let r1 = if type == "login" then logged_in else r2 in
        let v3 =
          either-sessions IsInverse (is_empty u) denied inside v
            (authenticated-IsInverse env c u p s v) in
        let v2 =
          either-sessions IsInverse (type == "resume_session") resumed r3
            (resume-IsInverse again env c p s v) v3 in
        let v1 =
          either-sessions IsInverse (type == "login") logged_in r2
            (login-IsInverse again env c p s v) v2 in
        either-sessions IsInverse (type == "register") (handle_register_packet trimmed q env c p s)
          r1 (register-IsInverse again env c p s v) v1

    handle-IsInverse :
        (e : Event) (s : Server)
        → IsInverse s.sessions
        → IsInverse (handle trimmed q e s).0.sessions
    unfolding handle on_connection_closed
    handle-IsInverse (receives env c p) s v = received-IsInverse env c p s v
    handle-IsInverse (acknowledged env p) s v =
        subst IsInverse (sym (acknowledged-sessions env p s)) v
    handle-IsInverse (closed c) s v = (unregister-IsInverse c s.sessions v).0

    -- Over any packets, acknowledgements and ends of connections, and whatever the storage answers,
    -- the two maps stay inverse to each other: no user is online on two connections, and no connection
    -- has two users or one without a name. Trimming twice is trimming once.
    pub run-IsInverse :
        (events : List Event) (s : Server)
        → IsInverse s.sessions
        → IsInverse (run trimmed q events s).0.sessions
    unfolding run
    run-IsInverse [] s v = v
    run-IsInverse (e ∷ events) s v =
        run-IsInverse events (handle trimmed q e s).0 (handle-IsInverse e s v)
