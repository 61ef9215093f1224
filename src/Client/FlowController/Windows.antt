-- ===== src/Client/FlowController/Windows.antt =====
-- Which windows of Client/clientflowcontroller.cpp are shown.
use messenger_walkie_talkie.Prelude.{
  ℕ, String, ◌≡◌, refl, ap, ◌∙◌, Bool, true, false, not, ◌&&◌, ◌||◌, List, [], ◌∷◌, ◌++◌, Option,
  none, some, arith, if◌then◌else◌, ◌==◌, string_eq, eqb,
}
use messenger_walkie_talkie.Client.Network.{
  Effect, Status, status_changed, socket_disconnected, transport_error, abort, connect_to_server,
  on_disconnected, start_connect_attempt, is_unconnected,
}
use messenger_walkie_talkie.Client.Network.Requests
use messenger_walkie_talkie.Client.HistoryStore.{load_last_session}
use messenger_walkie_talkie.Client.ChatWindow.Steps as ChatSteps
use messenger_walkie_talkie.Client.ChatWindow.Running.{is_session_call}
use messenger_walkie_talkie.Client.FlowState.{
  has_stored_session, set_endpoint, handle_socket_disconnected, begin_session_resume,
  can_resume_session, expire_stored_session_if_needed, restore_last_session, activate_offline_view,
  handle_endpoint_change, handle_logout,
}
use messenger_walkie_talkie.Client.ChatWindow.{Notice, said, restoring, connected_at, connecting_at}
use messenger_walkie_talkie.Client.FlowController.{
  Controller, Handled, with_flow, with_store, set_connection_status, set_chat_status,
  show_connection_window, show_login_window, show_chat_window, persist_stored_session_state,
  update_offline_availability, update_endpoint_labels, activate_offline, on_status_changed,
  on_transport_error, on_socket_disconnected, deliver,
}
use messenger_walkie_talkie.Client.FlowController.Handlers.{
  with_client, start, on_socket_connected, on_auth_succeeded, on_auth_failed, on_session_invalid,
  on_login_requested, on_register_requested, on_offline_mode_requested, on_change_server_requested,
  on_logout_requested, leave_session, call_connect, attempt_connection, resume_stored_session,
}
use messenger_walkie_talkie.Client.FlowController.Steps.{
  Event, starts, connects, disconnects, auth_succeeds, auth_fails, session_ends, transport_fails,
  status_changes, requests_login, requests_register, requests_offline, changes_server,
  requests_logout, chats, socket_turns, apply, run,
}

-- Whether the connection, the login and the chat window are shown.
abbrev windows : Controller → Bool × Bool × Bool
windows c = (c.connection_window.visible, c.login_window.visible, c.chat_visible)

abbrev is_one : Bool × Bool × Bool → Bool
is_one (connection, login, chat) =
    (connection && not (login || chat))
    || ((login && not (connection || chat)) || (chat && not (connection || login)))

-- Exactly one window is shown.
abbrev pub IsOne : Controller → Type 0
IsOne c = is_one (windows c) ≡ true

either-IsOne : (b : Bool) (x y : Handled) → IsOne x.0 → IsOne y.0 → IsOne (if b then x else y).0
either-IsOne true x y hx hy = hx
either-IsOne false x y hx hy = hy

either_controller-IsOne :
    (b : Bool) (x y : Controller) → IsOne x → IsOne y → IsOne (if b then x else y)
either_controller-IsOne true x y hx hy = hx
either_controller-IsOne false x y hx hy = hy

status_changed-windows :
    (status : Status) (c : Controller) → windows (on_status_changed status c) ≡ windows c
unfolding on_status_changed
status_changed-windows status c = ground arith

transport_error-windows :
    (message : String) (c : Controller) → windows (on_transport_error message c) ≡ windows c
unfolding on_transport_error update_offline_availability
transport_error-windows message c = ground arith

persist-windows : (c : Controller) → windows (persist_stored_session_state c) ≡ windows c
unfolding persist_stored_session_state
persist-windows c = ground arith

login-IsOne : (notice : Notice) (c : Controller) → IsOne (show_login_window notice c)
unfolding show_login_window
login-IsOne notice c = refl

connection-IsOne : (c : Controller) → IsOne (show_connection_window c)
unfolding show_connection_window
connection-IsOne c = refl

chat-IsOne : (c : Controller) → IsOne (show_chat_window c)
unfolding show_chat_window
chat-IsOne c = refl

module _ (folded_before : String → String → Bool) where
  disconnected-IsOne :
      (now : ℕ) (c : Controller) → IsOne c → IsOne (on_socket_disconnected folded_before now c).0
  unfolding on_socket_disconnected activate_offline
  disconnected-IsOne now c h =
      let r = handle_socket_disconnected c.chat_visible c.flow in
      let lost = with_flow r.0 c in
      either-IsOne r.1 (activate_offline folded_before now lost)
        (
          show_connection_window (update_offline_availability (has_stored_session lost.flow) lost),
          [],
        )
        h (connection-IsOne (update_offline_availability (has_stored_session lost.flow) lost))

  deliver-IsOne :
      (now : ℕ) (effects : List Effect) (c : Controller)
      → IsOne c
      → IsOne (deliver folded_before now effects c).0
  unfolding deliver
  deliver-IsOne now [] c h = h
  deliver-IsOne now (status_changed status ∷ rest) c h =
      deliver-IsOne now rest (on_status_changed status c)
        (ap is_one (status_changed-windows status c) ∙ h)
  deliver-IsOne now (transport_error message ∷ rest) c h =
      deliver-IsOne now rest (on_transport_error message c)
        (ap is_one (transport_error-windows message c) ∙ h)
  deliver-IsOne now (socket_disconnected ∷ rest) c h =
      deliver-IsOne now rest (on_socket_disconnected folded_before now c).0
        (disconnected-IsOne now c h)
  deliver-IsOne now (_ ∷ rest) c h = deliver-IsOne now rest c h

  module _ (trimmed : String → String) where
    call_connect-IsOne :
        (now : ℕ) (drops : Bool) (c : Controller)
        → IsOne c
        → IsOne (call_connect folded_before trimmed now drops c).0
    unfolding call_connect
    call_connect-IsOne now drops c h =
        let before = c.chat_window.client in
        let r = connect_to_server trimmed c.flow.current_host c.flow.current_port before in
        let lost = on_disconnected r.0 in
        let effects = abort ∷ (lost.1 ++ start_connect_attempt r.0) in
        either-IsOne (drops && not (is_unconnected before.socket))
          (deliver folded_before now effects (with_client lost.0 c))
          (deliver folded_before now r.1 (with_client r.0 c))
          (deliver-IsOne now effects (with_client lost.0 c) h)
          (deliver-IsOne now r.1 (with_client r.0 c) h)

    attempt-IsOne :
        (now : ℕ) (drops : Bool) (host : String) (port : ℕ) (c : Controller)
        → IsOne c
        → IsOne (attempt_connection folded_before trimmed now drops host port c).0
    unfolding attempt_connection update_endpoint_labels update_offline_availability
    attempt-IsOne now drops host port c h =
        let aimed = with_flow (set_endpoint trimmed host port c.flow) c in
        let labelled = update_offline_availability false (update_endpoint_labels aimed) in
        call_connect-IsOne now drops
          (set_connection_status
            (connecting_at labelled.flow.current_host labelled.flow.current_port) labelled)
          h

    resume-IsOne :
        (now : ℕ) (c : Controller) → IsOne c → IsOne (resume_stored_session trimmed now c).0
    unfolding resume_stored_session
    resume-IsOne now c h =
        let resuming = with_flow (begin_session_resume c.flow) c in
        let last = resuming.flow.last_session in
        let notice = restoring last.username in
        let shown = set_connection_status notice resuming in
        let told = set_chat_status notice shown in
        let asks = c.chat_visible && resuming.flow.offline_view_active in
        let at = connected_at c.flow.current_host c.flow.current_port in
        either-IsOne (not (can_resume_session now c.flow)) (show_login_window at c, [])
          (
            if asks then told else shown,
            Requests.resume_session trimmed last.username last.session_token,
          )
          (login-IsOne at c) (either_controller-IsOne asks told shown h h)

    connected-IsOne :
        (now later : ℕ) (c : Controller)
        → IsOne c
        → IsOne (on_socket_connected trimmed now later c).0
    unfolding on_socket_connected update_offline_availability
    connected-IsOne now later c h =
        let online = update_offline_availability false c in
        let r = expire_stored_session_if_needed now online.flow in
        let expired = with_flow r.0 online in
        let checked = if r.1 then persist_stored_session_state expired else expired in
        let told =
          if checked.chat_visible && checked.flow.offline_view_active
          then set_chat_status (said "Connected. Sign in to leave offline mode.") checked
          else checked in
        let at = connected_at checked.flow.current_host checked.flow.current_port in
        either-IsOne (can_resume_session now checked.flow)
          (resume_stored_session trimmed later checked) (show_login_window at told, [])
          (resume-IsOne later checked (
            either_controller-IsOne r.1 (persist_stored_session_state expired) expired
              (ap is_one (persist-windows expired) ∙ h) h))
          (login-IsOne at told)

    start-IsOne :
        (now : ℕ) (drops : Bool) (c : Controller)
        → IsOne (start folded_before trimmed now drops c).0
    unfolding start
    start-IsOne now drops c =
        let r = load_last_session c.chat_window.store in
        let restored = with_flow (restore_last_session trimmed r.1 c.flow) (with_store r.0 c) in
        let aimed =
          if not (has_stored_session restored.flow)
          then with_flow (set_endpoint trimmed c.initial_host c.initial_port restored.flow) restored
          else restored in
        let ready = update_offline_availability false (update_endpoint_labels aimed) in
        attempt-IsOne now drops aimed.flow.current_host aimed.flow.current_port
          (show_connection_window ready) (connection-IsOne ready)

    offline-IsOne :
        (now : ℕ) (c : Controller)
        → IsOne c
        → IsOne (on_offline_mode_requested folded_before now c).0
    unfolding on_offline_mode_requested
    offline-IsOne now c h =
        let r = activate_offline_view c.flow in
        let shown = activate_offline folded_before now (with_flow r.0 c) in
        either-IsOne (not r.1) (c, []) (show_chat_window shown.0, shown.1) h (chat-IsOne shown.0)

    change_server-IsOne :
        (now : ℕ) (drops : Bool) (answer : Option (String × ℕ)) (c : Controller)
        → IsOne c
        → IsOne (on_change_server_requested folded_before trimmed now drops answer c).0
    unfolding on_change_server_requested
    change_server-IsOne now drops none c h = h
    change_server-IsOne now drops (some (host, port)) c h =
        let changed = not (host == c.flow.current_host) || not (eqb port c.flow.current_port) in
        let aimed = with_flow (handle_endpoint_change trimmed host port changed c.flow) c in
        attempt-IsOne now drops aimed.flow.current_host aimed.flow.current_port
          (show_connection_window (update_endpoint_labels aimed))
          (connection-IsOne (update_endpoint_labels aimed))

    logout-IsOne :
        (now : ℕ) (closed drops : Bool) (c : Controller)
        → IsOne (on_logout_requested folded_before trimmed now closed drops c).0
    unfolding on_logout_requested
    logout-IsOne now closed drops c =
        let gone = leave_session folded_before trimmed now closed drops c in
        let out = persist_stored_session_state (with_flow (handle_logout gone.0.flow) gone.0) in
        let blank = record out {
          login_window = record out.login_window { username = ""; password = "" };
        } in
        let ready = update_offline_availability false blank in
        let shown = show_connection_window ready in
        attempt-IsOne now false shown.flow.current_host shown.flow.current_port shown
          (connection-IsOne ready)

    apply-IsOne : (e : Event) (c : Controller) → IsOne c → IsOne (apply folded_before trimmed e c).0
    unfolding apply
    apply-IsOne (starts now drops) c h = start-IsOne now drops c
    apply-IsOne (connects now later) c h = connected-IsOne now later c h
    apply-IsOne (disconnects now) c h = disconnected-IsOne now c h
    apply-IsOne (auth_succeeds now username token expires_at) c h =
        unfold on_auth_succeeded show_chat_window in refl
    apply-IsOne (auth_fails message) c h = unfold on_auth_failed show_login_window in refl
    apply-IsOne (session_ends message) c h = unfold on_session_invalid show_login_window in refl
    apply-IsOne (transport_fails message) c h = ap is_one (transport_error-windows message c) ∙ h
    apply-IsOne (status_changes status) c h = ap is_one (status_changed-windows status c) ∙ h
    apply-IsOne (requests_login username password) c h =
        unfold on_login_requested in ground (arith, h)
    apply-IsOne (requests_register username password) c h =
        unfold on_register_requested in ground (arith, h)
    apply-IsOne (requests_offline now) c h =
        either-IsOne (c.connection_window.visible && c.connection_window.offline_mode_available)
          (on_offline_mode_requested folded_before now c) (c, []) (offline-IsOne now c h) h
    apply-IsOne (changes_server now drops answer) c h = change_server-IsOne now drops answer c h
    apply-IsOne (requests_logout now closed drops) c h =
        either-IsOne (c.chat_visible && c.chat_window.can_leave)
          (on_logout_requested folded_before trimmed now closed drops c) (c, [])
          (logout-IsOne now closed drops c) h
    apply-IsOne (chats e) c h =
        let r = ChatSteps.apply folded_before trimmed e c.chat_window in
        either-IsOne (is_session_call e) (c, []) (record c { chat_window = r.0 }, r.1) h h
    apply-IsOne (socket_turns state) c h = h

    run-IsOne :
        (es : List Event) (c : Controller) → IsOne c → IsOne (run folded_before trimmed es c).0
    unfolding run
    run-IsOne [] c h = h
    run-IsOne (e ∷ es) c h = run-IsOne es (apply folded_before trimmed e c).0 (apply-IsOne e c h)

    -- From `start` on exactly one of the connection window, the login window and the chat window is shown,
    -- whatever the network client reports and the user does, in any order, and however the socket and the storage
    -- behave.
    pub started-IsOne :
        (now : ℕ) (drops : Bool) (es : List Event) (c : Controller)
        → IsOne (run folded_before trimmed es (start folded_before trimmed now drops c).0).0
    started-IsOne now drops es c =
        run-IsOne es (start folded_before trimmed now drops c).0 (start-IsOne now drops c)
