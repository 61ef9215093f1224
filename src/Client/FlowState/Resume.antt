-- ===== src/Client/FlowState/Resume.antt =====
-- When the client offers its stored session to the server.
use messenger_walkie_talkie.Prelude.{
  ℕ, String, ◌≡◌, Bool, true, false, not, ◌&&◌, List, [], ◌∷◌, arith, eq_iff, is_empty, string_eq,
}
use messenger_walkie_talkie.Prelude.Int.{ℤ, pos, negsuc, ltb_ℤ}
use messenger_walkie_talkie.Client.FlowState.{
  FlowState, has_session_token, set_endpoint, expire_stored_session_if_needed, begin_session_resume,
  mark_credential_auth_requested, handle_socket_disconnected, activate_offline_view,
  handle_auth_succeeded, handle_auth_failed, handle_session_invalid, handle_endpoint_change,
  handle_logout, clear_stored_session_token, can_resume_session,
}
use messenger_walkie_talkie.Client.FlowState.Invariant.{
  Event, restores, authenticates, apply, apply_all, IsValid,
}

-- The events that bring a token: a login, and the start of the program.
abbrev brings_token : Event → Bool
brings_token (restores session) = true
brings_token (authenticates username token expires_at) = true
brings_token _ = false

abbrev none_brings_token : List Event → Bool
none_brings_token [] = true
none_brings_token (e ∷ es) = not (brings_token e) && none_brings_token es

module _ (trimmed : String → String) where
  apply-tokenless :
      (e : Event) (s : FlowState)
      → brings_token e ≡ false
      → has_session_token s.last_session ≡ false
      → has_session_token (apply trimmed e s).last_session ≡ false
  unfolding apply has_session_token set_endpoint expire_stored_session_if_needed
      begin_session_resume mark_credential_auth_requested handle_socket_disconnected
      activate_offline_view handle_auth_failed handle_session_invalid handle_endpoint_change
      handle_logout clear_stored_session_token
  apply-tokenless (restores session) s n h = cc
  apply-tokenless (authenticates username token expires_at) s n h = cc
  apply-tokenless _ s n h = ground (arith, eq_iff "" "")

  apply_all-tokenless :
      (es : List Event) (s : FlowState)
      → none_brings_token es ≡ true
      → has_session_token s.last_session ≡ false
      → has_session_token (apply_all trimmed es s).last_session ≡ false
  unfolding apply_all
  apply_all-tokenless [] s n h = h
  apply_all-tokenless (e ∷ es) s n h =
      apply_all-tokenless es (apply trimmed e s) (ground arith)
        (apply-tokenless e s (ground arith) h)

  handle_session_invalid-tokenless :
      (s : FlowState) → has_session_token (handle_session_invalid s).last_session ≡ false
  unfolding handle_session_invalid has_session_token
  handle_session_invalid-tokenless s = ground (arith, eq_iff "" "")

  -- Once the server has called the session invalid, no calls of the methods make the client offer a
  -- session again, at any time, as long as none of them is a login that succeeded or the reading of
  -- the stored session at the start of the program.
  pub invalid_session_stays :
      (es : List Event) (s : FlowState) (now : ℕ)
      → none_brings_token es ≡ true
      → can_resume_session now (apply_all trimmed es (handle_session_invalid s)) ≡ false
  unfolding can_resume_session
  invalid_session_stays es s now n = ground (
    arith,
    apply_all-tokenless es (handle_session_invalid s) n (handle_session_invalid-tokenless s),
  )

-- After a login in a state with an endpoint the session can be resumed at `now` exactly if the
-- user name and the token are not empty and the session expires after `now`.
can_resume_after_auth :
    (username token : String) (expires_at : ℤ) (now : ℕ) (s : FlowState)
    → IsValid s
    → can_resume_session now (handle_auth_succeeded username token expires_at s)
      ≡ (not (is_empty username) && (not (is_empty token) && ltb_ℤ (pos now) expires_at))
unfolding can_resume_session handle_auth_succeeded
can_resume_after_auth username token (pos n) now s v = ground (arith, eq_iff s.current_host "")
can_resume_after_auth username token (negsuc n) now s v = ground (arith, eq_iff s.current_host "")

-- expireStoredSessionIfNeeded changes no answer of canResumeSession at that time, and where it
-- reports an expired session the session cannot be resumed at any time.
expire_stored_session_lem :
    (now later : ℕ) (s : FlowState)
    → let r = expire_stored_session_if_needed now s in
      (can_resume_session now r.0 ≡ can_resume_session now s)
      × ((r.1 && can_resume_session later r.0) ≡ false)
unfolding can_resume_session expire_stored_session_if_needed
expire_stored_session_lem now later s = (ground (arith, eq_iff "" ""), ground (arith, eq_iff "" ""))
