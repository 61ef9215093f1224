-- ===== src/Client/FlowController/Handlers.antt =====
-- The handlers of Client/clientflowcontroller.cpp that call the network client.
use messenger_walkie_talkie.Prelude.{
  ℕ, String, Bool, true, false, not, ◌&&◌, ◌||◌, [], ◌∷◌, ◌++◌, Option, none, some, if◌then◌else◌,
  ◌==◌, string_eq, eqb, is_empty,
}
use messenger_walkie_talkie.Prelude.Int.{ℤ}
use messenger_walkie_talkie.Client.Network.{
  NetworkClient, abort, unconnected_state, is_unconnected, connect_to_server,
  disconnect_from_server, start_connect_attempt, on_disconnected,
}
use messenger_walkie_talkie.Client.Network.Requests
use messenger_walkie_talkie.Client.FlowState.{
  set_endpoint, restore_last_session, has_stored_session, expire_stored_session_if_needed,
  can_resume_session, begin_session_resume, mark_credential_auth_requested, activate_offline_view,
  handle_auth_succeeded, handle_auth_failed, handle_session_invalid, handle_endpoint_change,
  handle_logout,
}
use messenger_walkie_talkie.Client.HistoryStore.{load_last_session, clear_user_data}
use messenger_walkie_talkie.Client.ChatWindow.{
  said, connected_as, connected_at, connecting_at, restoring, activate_session, deactivate_session,
}
use messenger_walkie_talkie.Client.FlowController.{
  Controller, Handled, with_flow, with_store, set_connection_status, set_login_status,
  set_chat_status, set_busy, persist_stored_session_state, show_connection_window,
  show_login_window, show_chat_window, update_endpoint_labels, update_offline_availability,
  activate_offline, deliver,
}

abbrev pub with_client : NetworkClient → Controller → Controller
with_client client c = record c { chat_window = record c.chat_window { client = client } }

unfoldable pub on_auth_failed : String → Controller → Controller
on_auth_failed message c =
    show_login_window (said message) (set_busy false (with_flow (handle_auth_failed c.flow) c))

unfoldable pub on_session_invalid : String → Controller → Controller
unfolding persist_stored_session_state show_login_window
on_session_invalid message c =
    let notice =
      said (if is_empty message then "Session expired. Please sign in again." else message) in
    show_login_window notice
      (set_busy false (persist_stored_session_state (with_flow (handle_session_invalid c.flow) c)))

abbrev pub ask_again : Controller → Controller
ask_again c = set_login_status (said "Enter username and password") c

abbrev pub asking : String → String → Controller → Controller
asking username text c =
    set_login_status (said text)
      (set_busy true (with_flow (mark_credential_auth_requested username c.flow) c))

module _ (trimmed : String → String) where
  unfoldable pub resume_stored_session : ℕ → Controller → Handled
  unfolding show_login_window
  resume_stored_session now c =
      let resuming = with_flow (begin_session_resume c.flow) c in
      let last = resuming.flow.last_session in
      let notice = restoring last.username in
      let shown = set_connection_status notice resuming in
      if not (can_resume_session now c.flow)
      then (show_login_window (connected_at c.flow.current_host c.flow.current_port) c, [])
      else (
        if c.chat_visible && resuming.flow.offline_view_active
            then set_chat_status notice shown
            else shown,
        Requests.resume_session trimmed last.username last.session_token,
      )

  -- onSocketConnected; beginSessionResume reads the clock again.
  unfoldable pub on_socket_connected : ℕ → ℕ → Controller → Handled
  unfolding update_offline_availability persist_stored_session_state resume_stored_session
      show_login_window
  on_socket_connected now later c =
      let online = update_offline_availability false c in
      let r = expire_stored_session_if_needed now online.flow in
      let checked =
        if r.1 then persist_stored_session_state (with_flow r.0 online) else with_flow r.0 online in
      let told =
        if checked.chat_visible && checked.flow.offline_view_active
        then set_chat_status (said "Connected. Sign in to leave offline mode.") checked
        else checked in
      if can_resume_session now checked.flow then resume_stored_session later checked else (
        show_login_window (connected_at checked.flow.current_host checked.flow.current_port) told,
        [],
      )

  unfoldable pub on_login_requested : String → String → Controller → Handled
  on_login_requested username password c =
      if is_empty username || is_empty password
      then (ask_again c, [])
      else (asking username "Signing in..." c, Requests.login trimmed username password)

  unfoldable pub on_register_requested : String → String → Controller → Handled
  on_register_requested username password c =
      if is_empty username || is_empty password then (ask_again c, []) else (
        asking username "Creating account..." c,
        Requests.register_user trimmed username password,
      )

module _ (folded_before : String → String → Bool) where
  unfoldable pub on_auth_succeeded : ℕ → String → String → ℤ → Controller → Handled
  unfolding persist_stored_session_state show_chat_window
  on_auth_succeeded now username token expires_at c =
      let known =
        persist_stored_session_state
          (with_flow (handle_auth_succeeded username token expires_at c.flow) c) in
      let r = activate_session folded_before now username false known.chat_window in
      (
        show_chat_window (
            set_chat_status (connected_as username)
              (record (set_busy false known) { chat_window = r.0 })),
        r.1,
      )

  unfoldable pub on_offline_mode_requested : ℕ → Controller → Handled
  unfolding activate_offline show_chat_window
  on_offline_mode_requested now c =
      let r = activate_offline_view c.flow in
      let shown = activate_offline folded_before now (with_flow r.0 c) in
      if not r.1 then (c, []) else (show_chat_window shown.0, shown.1)

module _ (folded_before : String → String → Bool) (trimmed : String → String) where
  -- NetworkClient::connectToServer; a socket that was connected may tell of its end.
  unfoldable pub call_connect : ℕ → Bool → Controller → Handled
  unfolding deliver
  call_connect now drops c =
      let before = c.chat_window.client in
      let r = connect_to_server trimmed c.flow.current_host c.flow.current_port before in
      let lost = on_disconnected r.0 in
      if drops && not (is_unconnected before.socket)
      then deliver folded_before now (abort ∷ (lost.1 ++ start_connect_attempt r.0))
          (with_client lost.0 c)
      else deliver folded_before now r.1 (with_client r.0 c)

  -- NetworkClient::disconnectFromServer, after which the socket is unconnected. `closed` says
  -- whether disconnectFromHost was enough.
  unfoldable pub call_disconnect : ℕ → Bool → Bool → Controller → Handled
  unfolding deliver
  call_disconnect now closed drops c =
      let before = c.chat_window.client in
      let r = disconnect_from_server closed before in
      let lost = on_disconnected r.0 in
      if drops && not (is_unconnected before.socket)
      then deliver folded_before now (r.1 ++ lost.1)
          (with_client (record lost.0 { socket = unconnected_state }) c)
      else deliver folded_before now r.1 (with_client (record r.0 { socket = unconnected_state }) c)

  unfoldable pub attempt_connection : ℕ → Bool → String → ℕ → Controller → Handled
  unfolding update_endpoint_labels update_offline_availability call_connect
  attempt_connection now drops host port c =
      let aimed = with_flow (set_endpoint trimmed host port c.flow) c in
      let labelled = update_offline_availability false (update_endpoint_labels aimed) in
      call_connect now drops (
        set_connection_status (connecting_at labelled.flow.current_host labelled.flow.current_port)
          labelled)

  unfoldable pub start : ℕ → Bool → Controller → Handled
  unfolding update_endpoint_labels update_offline_availability show_connection_window
      attempt_connection
  start now drops c =
      let r = load_last_session c.chat_window.store in
      let restored = with_flow (restore_last_session trimmed r.1 c.flow) (with_store r.0 c) in
      let aimed =
        if not (has_stored_session restored.flow)
        then with_flow (set_endpoint trimmed c.initial_host c.initial_port restored.flow) restored
        else restored in
      attempt_connection now drops aimed.flow.current_host aimed.flow.current_port
        (show_connection_window (update_offline_availability false (update_endpoint_labels aimed)))

  -- onChangeServerRequested; the settings that the user gave, or none where there are none.
  unfoldable pub on_change_server_requested : ℕ → Bool → Option (String × ℕ) → Controller → Handled
  unfolding update_endpoint_labels show_connection_window attempt_connection
  on_change_server_requested now drops none c = (c, [])
  on_change_server_requested now drops (some (host, port)) c =
      let changed = not (host == c.flow.current_host) || not (eqb port c.flow.current_port) in
      let aimed = with_flow (handle_endpoint_change trimmed host port changed c.flow) c in
      attempt_connection now drops aimed.flow.current_host aimed.flow.current_port
        (show_connection_window (update_endpoint_labels aimed))

  -- onLogoutRequested up to the call of disconnectFromServer.
  unfoldable pub leave_session : ℕ → Bool → Bool → Controller → Handled
  unfolding call_disconnect
  leave_session now closed drops c =
      let username =
        if is_empty c.flow.active_username
        then c.chat_window.state.username
        else c.flow.active_username in
      let left = deactivate_session c.chat_window in
      let shut = record c { chat_window = left.0 } in
      let cleared =
        if is_empty username
        then shut
        else with_store (clear_user_data username shut.chat_window.store) shut in
      let gone = call_disconnect now closed drops cleared in
      (gone.0, left.1 ++ (Requests.logout c.chat_window.client ++ gone.1))

  unfoldable pub on_logout_requested : ℕ → Bool → Bool → Controller → Handled
  unfolding persist_stored_session_state update_offline_availability show_connection_window
      leave_session attempt_connection
  on_logout_requested now closed drops c =
      let gone = leave_session now closed drops c in
      let out = persist_stored_session_state (with_flow (handle_logout gone.0.flow) gone.0) in
      let blank = record out {
        login_window = record out.login_window { username = ""; password = "" };
      } in
      let shown = show_connection_window (update_offline_availability false blank) in
      let again =
        attempt_connection now false shown.flow.current_host shown.flow.current_port shown in
      (again.0, gone.1 ++ again.1)
