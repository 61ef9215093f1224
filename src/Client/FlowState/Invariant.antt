-- ===== src/Client/FlowState/Invariant.antt =====
-- What holds of the flow state after any calls of its methods.
use messenger_walkie_talkie.Prelude.{
  ℕ, ◌<◌, String, ◌≡◌, ◌≢◌, ◌⊎◌, inl, refl, Bool, true, false, List, [], ◌∷◌, arith, eq_iff,
  string_eq,
}
use messenger_walkie_talkie.Prelude.Int.{ℤ}
use messenger_walkie_talkie.Client.FlowState.{
  FlowState, LastSessionInfo, initial, has_stored_identity, set_endpoint, restore_last_session,
  expire_stored_session_if_needed, begin_session_resume, mark_credential_auth_requested,
  handle_socket_disconnected, activate_offline_view, handle_auth_succeeded, handle_auth_failed,
  handle_session_invalid, handle_endpoint_change, handle_logout, clear_stored_session_token,
}

-- The methods that change the state.
pub data Event : Type 0 where
  restores : LastSessionInfo → Event
  sets_endpoint : String → ℕ → Event
  expires : ℕ → Event
  resumes : Event
  requests_auth : String → Event
  loses_socket : Bool → Event
  goes_offline : Event
  authenticates : String → String → ℤ → Event
  fails_auth invalidates logs_out clears_token : Event
  changes_endpoint : String → ℕ → Bool → Event

module _ (trimmed : String → String) where
  unfoldable pub apply : Event → FlowState → FlowState
  apply (restores session) s = restore_last_session trimmed session s
  apply (sets_endpoint host port) s = set_endpoint trimmed host port s
  apply (expires now) s = (expire_stored_session_if_needed now s).0
  apply resumes s = begin_session_resume s
  apply (requests_auth username) s = mark_credential_auth_requested username s
  apply (loses_socket visible) s = (handle_socket_disconnected visible s).0
  apply goes_offline s = (activate_offline_view s).0
  apply (authenticates username token expires_at) s =
      handle_auth_succeeded username token expires_at s
  apply fails_auth s = handle_auth_failed s
  apply invalidates s = handle_session_invalid s
  apply logs_out s = handle_logout s
  apply clears_token s = clear_stored_session_token s
  apply (changes_endpoint host port changed) s = handle_endpoint_change trimmed host port changed s

  unfoldable pub apply_all : List Event → FlowState → FlowState
  apply_all [] s = s
  apply_all (e ∷ es) s = apply_all es (apply e s)

-- There is an endpoint; offline there is a user to show; a pending resume is of the stored user.
pub record IsValid (s : FlowState) : Type 0 where
  pub has_host : s.current_host ≢ ""
  pub has_port : 0 < s.current_port
  pub offline_user : (s.offline_view_active ≡ false) ⊎ (s.active_username ≢ "")
  pub resume_user :
      (s.session_resume_pending ≡ false)
      ⊎ ((has_stored_identity s.last_session ≡ true)
          × (s.pending_username ≡ s.last_session.username))

module _ (trimmed : String → String) where
  set_endpoint-IsValid :
      (host : String) (port : ℕ) (s : FlowState)
      → IsValid s
      → IsValid (set_endpoint trimmed host port s)
  unfolding set_endpoint
  set_endpoint-IsValid host port s v =
      ground (arith, eq_iff (trimmed host) "", eq_iff "127.0.0.1" "")

  apply-IsValid : (e : Event) (s : FlowState) → IsValid s → IsValid (apply trimmed e s)
  unfolding apply expire_stored_session_if_needed begin_session_resume
      mark_credential_auth_requested handle_socket_disconnected activate_offline_view
      handle_auth_succeeded handle_auth_failed handle_session_invalid handle_endpoint_change
      handle_logout restore_last_session clear_stored_session_token has_stored_identity
  apply-IsValid (restores session) s v =
      ground (arith, eq_iff (trimmed session.host) "", eq_iff "127.0.0.1" "")
  apply-IsValid (sets_endpoint host port) s v = set_endpoint-IsValid host port s v
  apply-IsValid (changes_endpoint host port changed) s v =
      ground (arith, eq_iff (trimmed host) "", eq_iff "127.0.0.1" "")
  apply-IsValid goes_offline s v =
      ground (arith, eq_iff s.active_username "", eq_iff s.last_session.username "")
  apply-IsValid (loses_socket visible) s v = ground (arith, eq_iff s.active_username "")
  apply-IsValid _ s v = ground arith

  -- After any calls of its methods from a state where all this holds, such as the initial one, the flow state still has a host and a port, in
  -- the offline view a user to show, and while a resume is pending the stored session's user as the
  -- pending one.
  pub apply_all-IsValid :
      (es : List Event) (s : FlowState) → IsValid s → IsValid (apply_all trimmed es s)
  unfolding apply_all
  apply_all-IsValid [] s v = v
  apply_all-IsValid (e ∷ es) s v = apply_all-IsValid es (apply trimmed e s) (apply-IsValid e s v)

pub initial-IsValid : IsValid initial
initial-IsValid = record {
  has_host = ground (arith, eq_iff "127.0.0.1" "");
  has_port = omega arith;
  offline_user = inl refl;
  resume_user = inl refl;
}
