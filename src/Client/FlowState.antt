-- ===== src/Client/FlowState.antt =====
-- Client/clientflowstate.h and Client/clientflowstate.cpp, with LastSessionInfo of
-- Client/historystore.h. `trimmed` stands for QString::trimmed.
pub mod Invariant
pub mod Resume
use messenger_walkie_talkie.Prelude.{
  ℕ, String, Bool, true, false, not, ◌&&◌, ◌||◌, eqb, ltb, if◌then◌else◌, is_empty, string_eq,
}
use messenger_walkie_talkie.Prelude.Int.{ℤ, pos, ltb_ℤ, leb_ℤ}

pub record LastSessionInfo : Type 0 where
  pub username : String
  pub host : String
  pub port : ℕ
  pub session_token : String
  pub session_expires_at : ℤ

abbrev pub no_session : LastSessionInfo
no_session = record {
  username = "";
  host = "";
  port = 0;
  session_token = "";
  session_expires_at = pos 0;
}

unfoldable pub has_stored_identity : LastSessionInfo → Bool
has_stored_identity s = not (is_empty s.username) && (not (is_empty s.host) && ltb 0 s.port)

unfoldable pub has_session_token : LastSessionInfo → Bool
unfolding has_stored_identity
has_session_token s =
    has_stored_identity s && (not (is_empty s.session_token) && ltb_ℤ (pos 0) s.session_expires_at)

pub record FlowState : Type 0 where
  pub last_session : LastSessionInfo
  pub current_host : String
  pub current_port : ℕ
  pub pending_username : String
  pub active_username : String
  pub session_resume_pending : Bool
  pub session_resume_blocked : Bool
  pub offline_view_active : Bool

abbrev pub initial : FlowState
initial = record {
  last_session = no_session;
  current_host = "127.0.0.1";
  current_port = 5555;
  pending_username = "";
  active_username = "";
  session_resume_pending = false;
  session_resume_blocked = false;
  offline_view_active = false;
}

unfoldable pub normalized_host : (String → String) → String → String
normalized_host trimmed host = if is_empty (trimmed host) then "127.0.0.1" else trimmed host

unfoldable pub normalized_port : ℕ → ℕ
normalized_port port = if eqb port 0 then 5555 else port

unfoldable pub set_endpoint : (String → String) → String → ℕ → FlowState → FlowState
unfolding normalized_host normalized_port
set_endpoint trimmed host port s = record s {
  current_host = normalized_host trimmed host;
  current_port = normalized_port port;
}

unfoldable pub restore_last_session : (String → String) → LastSessionInfo → FlowState → FlowState
unfolding set_endpoint has_stored_identity
restore_last_session trimmed session s =
    let cleared : FlowState = record s {
      last_session = session;
      pending_username = "";
      active_username = "";
      session_resume_pending = false;
      session_resume_blocked = false;
      offline_view_active = false;
    } in
    if has_stored_identity session
    then set_endpoint trimmed session.host session.port cleared
    else cleared

unfoldable pub has_stored_session : FlowState → Bool
unfolding has_stored_identity
has_stored_session s = has_stored_identity s.last_session

unfoldable has_active_session : FlowState → Bool
has_active_session s = not (is_empty s.active_username)

unfoldable pub login_prefill_username : FlowState → String
login_prefill_username s =
    if is_empty s.pending_username then s.last_session.username else s.pending_username

unfoldable pub clear_stored_session_token : FlowState → FlowState
unfolding has_stored_identity
clear_stored_session_token s = if not (has_stored_identity s.last_session) then s else record s {
  last_session = record s.last_session { session_token = ""; session_expires_at = pos 0 };
}

unfoldable pub expire_stored_session_if_needed : ℕ → FlowState → FlowState × Bool
unfolding clear_stored_session_token
expire_stored_session_if_needed now s =
    if not (has_stored_identity s.last_session)
      || (is_empty s.last_session.session_token
          || (leb_ℤ s.last_session.session_expires_at (pos 0)
              || ltb_ℤ (pos now) s.last_session.session_expires_at))
    then (s, false)
    else (clear_stored_session_token s, true)

unfoldable pub can_resume_session : ℕ → FlowState → Bool
unfolding has_session_token
can_resume_session now s =
    if not (has_session_token s.last_session) || s.session_resume_blocked
    then false
    else ltb_ℤ (pos now) s.last_session.session_expires_at

unfoldable pub begin_session_resume : FlowState → FlowState
unfolding has_stored_identity
begin_session_resume s =
    if not (has_stored_identity s.last_session)
    then s
    else record s { session_resume_pending = true; pending_username = s.last_session.username }

unfoldable pub mark_credential_auth_requested : String → FlowState → FlowState
mark_credential_auth_requested username s = record s {
  pending_username = username;
  session_resume_pending = false;
  session_resume_blocked = false;
}

unfoldable pub handle_socket_disconnected : Bool → FlowState → FlowState × Bool
unfolding has_active_session
handle_socket_disconnected chat_visible s =
    if chat_visible && has_active_session s
    then (record s { offline_view_active = true }, true)
    else (s, false)

unfoldable pub activate_offline_view : FlowState → FlowState × Bool
unfolding has_stored_session
activate_offline_view s = if not (has_stored_session s) then (s, false) else (
  record s {
    active_username =
        if is_empty s.active_username then s.last_session.username else s.active_username;
    offline_view_active = true;
  },
  true,
)

unfoldable pub handle_auth_succeeded : String → String → ℤ → FlowState → FlowState
handle_auth_succeeded username token expires_at s = record s {
  last_session = record {
    username = username;
    host = s.current_host;
    port = s.current_port;
    session_token = token;
    session_expires_at = expires_at;
  };
  pending_username = username;
  active_username = username;
  session_resume_pending = false;
  session_resume_blocked = false;
  offline_view_active = false;
}

unfoldable pub handle_auth_failed : FlowState → FlowState
handle_auth_failed s = record s { session_resume_pending = false }

unfoldable pub handle_session_invalid : FlowState → FlowState
unfolding clear_stored_session_token
handle_session_invalid s =
    clear_stored_session_token
      (record s { session_resume_pending = false; session_resume_blocked = true })

unfoldable pub handle_endpoint_change :
    (String → String) → String → ℕ → Bool → FlowState → FlowState
unfolding set_endpoint
handle_endpoint_change trimmed host port changed s = record (set_endpoint trimmed host port s) {
  session_resume_pending = false;
  session_resume_blocked = changed;
  offline_view_active = false;
}

unfoldable pub handle_logout : FlowState → FlowState
handle_logout s = record s {
  last_session = no_session;
  pending_username = "";
  active_username = "";
  session_resume_pending = false;
  session_resume_blocked = false;
  offline_view_active = false;
}
