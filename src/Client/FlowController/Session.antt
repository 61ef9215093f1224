-- ===== src/Client/FlowController/Session.antt =====
-- The last session of the client of Client/clientflowcontroller.cpp where a session is restored, resumed and lost.
use messenger_walkie_talkie.Prelude.{
  ℕ, ◌<◌, ◌^◌, String, ◌≡◌, refl, sym, subst, true, false, not, ◌&&◌, [], arith, if◌then◌else◌,
  string_eq, Bool-cases, inl, inr,
}
use messenger_walkie_talkie.Client.Network.Requests
use messenger_walkie_talkie.Client.FlowState.{
  FlowState, LastSessionInfo, set_endpoint, restore_last_session, expire_stored_session_if_needed,
  can_resume_session, begin_session_resume, handle_session_invalid,
}
use messenger_walkie_talkie.Client.HistoryStore.{
  HistoryStore, tried, load_last_session, session_of_row,
}
use messenger_walkie_talkie.Client.ChatWindow.{said, restoring, connected_at}
use messenger_walkie_talkie.Client.FlowController.{
  Controller, with_flow, set_connection_status, set_chat_status, persist_stored_session_state,
  show_login_window, update_offline_availability,
}
use messenger_walkie_talkie.Client.FlowController.Handlers.{
  on_socket_connected, on_session_invalid, resume_stored_session,
}
use messenger_walkie_talkie.Client.FlowController.Held.{
  IsHeld, either-IsHeld, either_handled-IsHeld, flow-IsHeld, normalized_port-fits,
}
use messenger_walkie_talkie.Client.FlowController.Persisted.{
  IsSaved, form_of, persist-IsHeld, IsSaved-IsAny, changed-IsHeld, clear_token-port, expire-port,
  expire-same, resume-same,
}

-- The start of the program reads the session of the file into the flow state.
pub loaded_session :
    (h : HistoryStore)
    → h.is_open ≡ true
    → h.faults ≡ []
    → load_last_session h ≡ (h, session_of_row h.last_session)
unfolding load_last_session tried
loaded_session h opened no_fault =
    subst (λ k. load_last_session k ≡ (k, session_of_row k.last_session))
      (sym (form_of h opened no_fault)) refl

invalid-port :
    (f : FlowState)
    → ((handle_session_invalid f).last_session.port ≡ f.last_session.port)
      × ((handle_session_invalid f).current_port ≡ f.current_port)
unfolding handle_session_invalid
invalid-port f =
    clear_token-port (record f { session_resume_pending = false; session_resume_blocked = true })

module _ (trimmed : String → String) where
  pub restored-session :
      (s : LastSessionInfo) (f : FlowState) → (restore_last_session trimmed s f).last_session ≡ s
  unfolding restore_last_session set_endpoint
  restored-session s f = ground arith

  pub restored-port :
      (s : LastSessionInfo) (f : FlowState)
      → s.port < 2 ^ 16
      → f.current_port < 2 ^ 16
      → (restore_last_session trimmed s f).current_port < 2 ^ 16
  unfolding restore_last_session set_endpoint
  restored-port s f fits now = ground (arith, normalized_port-fits s.port fits, now)

  resume-IsHeld :
      (now : ℕ) (c : Controller)
      → IsHeld IsSaved c
      → IsHeld IsSaved (resume_stored_session trimmed now c).0
  unfolding resume_stored_session show_login_window
  resume-IsHeld now c v =
      let resuming = with_flow (begin_session_resume c.flow) c in
      let held =
        flow-IsHeld IsSaved (begin_session_resume c.flow) c (resume-same c.flow).0
          (rw (resume-same c.flow).1 v.port) v in
      let last = resuming.flow.last_session in
      let notice = restoring last.username in
      let shown = set_connection_status notice resuming in
      let told = set_chat_status notice shown in
      let asks = c.chat_visible && resuming.flow.offline_view_active in
      let at = connected_at c.flow.current_host c.flow.current_port in
      either_handled-IsHeld IsSaved (not (can_resume_session now c.flow))
        (show_login_window at c, [])
        (
          if asks then told else shown,
          Requests.resume_session trimmed last.username last.session_token,
        )
        v (either-IsHeld IsSaved asks told shown held held)

  expired-IsHeld :
      (now : ℕ) (c : Controller)
      → IsHeld IsSaved c
      → let r = expire_stored_session_if_needed now c.flow in
        IsHeld IsSaved
          (if r.1 then persist_stored_session_state (with_flow r.0 c) else with_flow r.0 c)
  expired-IsHeld now c v =
      let r = expire_stored_session_if_needed now c.flow in
      let same = expire-port now c.flow in
      elim (Bool-cases r.1) [
        | inl expired ↦ rw expired (
            persist-IsHeld (with_flow r.0 c) (
              changed-IsHeld r.0 c (rw same.0 v.session_port) (rw same.1 v.port)
                (IsSaved-IsAny c v)))
        | inr valid ↦ rw (valid, expire-same now c.flow valid) v
      ]

  pub connected-IsHeld :
      (now later : ℕ) (c : Controller)
      → IsHeld IsSaved c
      → IsHeld IsSaved (on_socket_connected trimmed now later c).0
  unfolding on_socket_connected update_offline_availability show_login_window
  connected-IsHeld now later c v =
      let online = update_offline_availability false c in
      let r = expire_stored_session_if_needed now online.flow in
      let checked =
        if r.1 then persist_stored_session_state (with_flow r.0 online) else with_flow r.0 online in
      let asks = checked.chat_visible && checked.flow.offline_view_active in
      let notified = set_chat_status (said "Connected. Sign in to leave offline mode.") checked in
      let told = if asks then notified else checked in
      let at = connected_at checked.flow.current_host checked.flow.current_port in
      let held = expired-IsHeld now online v in
      either_handled-IsHeld IsSaved (can_resume_session now checked.flow)
        (resume_stored_session trimmed later checked) (show_login_window at told, [])
        (resume-IsHeld later checked held) (either-IsHeld IsSaved asks notified checked held held)

  pub loses-IsHeld :
      (message : String) (c : Controller)
      → IsHeld IsSaved c
      → IsHeld IsSaved (on_session_invalid message c)
  unfolding on_session_invalid show_login_window
  loses-IsHeld message c v =
      let f = handle_session_invalid c.flow in
      persist-IsHeld (with_flow f c) (
        changed-IsHeld f c (rw (invalid-port c.flow).0 v.session_port)
          (rw (invalid-port c.flow).1 v.port) (IsSaved-IsAny c v))
