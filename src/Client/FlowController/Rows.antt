-- ===== src/Client/FlowController/Rows.antt =====
-- The calls of the network client in Client/clientflowcontroller.cpp change no saved message.
use messenger_walkie_talkie.Prelude.{
  ℕ, String, ◌≡◌, refl, ◌∙◌, Bool, true, false, not, ◌&&◌, List, [], ◌∷◌, ◌++◌, arith,
  if◌then◌else◌,
}
use messenger_walkie_talkie.Client.Network.{
  NetworkClient, Effect, Status, status_changed, socket_disconnected, transport_error, abort,
  connect_to_server, disconnect_from_server, on_disconnected, start_connect_attempt, is_unconnected,
  unconnected_state,
}
use messenger_walkie_talkie.Client.FlowState.{
  has_stored_session, set_endpoint, handle_socket_disconnected,
}
use messenger_walkie_talkie.Client.HistoryStore.{
  HistoryStore, Row, tried, save_last_session, clear_last_session,
}
use messenger_walkie_talkie.Client.ChatWindow.{connecting_at}
use messenger_walkie_talkie.Client.ChatWindow.Still.{activate-messages}
use messenger_walkie_talkie.Client.FlowController.{
  Controller, Handled, with_flow, set_connection_status, persist_stored_session_state,
  show_connection_window, update_offline_availability, update_endpoint_labels, activate_offline,
  on_status_changed, on_transport_error, on_socket_disconnected, deliver,
}
use messenger_walkie_talkie.Client.FlowController.Handlers.{
  with_client, call_connect, call_disconnect, attempt_connection,
}

-- The saved messages of the program.
abbrev pub rows_of : Controller → List Row
rows_of c = c.chat_window.store.messages

either-rows :
    (b : Bool) (rows : List Row) (x y : Handled)
    → rows_of x.0 ≡ rows
    → rows_of y.0 ≡ rows
    → rows_of (if b then x else y).0 ≡ rows
either-rows true rows x y hx hy = hx
either-rows false rows x y hx hy = hy

status_changed-rows :
    (status : Status) (c : Controller) → rows_of (on_status_changed status c) ≡ rows_of c
unfolding on_status_changed
status_changed-rows status c = ground arith

transport_error-rows :
    (message : String) (c : Controller) → rows_of (on_transport_error message c) ≡ rows_of c
unfolding on_transport_error update_offline_availability
transport_error-rows message c = ground arith

save_last_session-messages :
    (h : HistoryStore) (c : Controller)
    → (save_last_session c.flow.last_session h).messages ≡ h.messages
unfolding save_last_session tried
save_last_session-messages h c = ground arith

clear_last_session-messages : (h : HistoryStore) → (clear_last_session h).messages ≡ h.messages
unfolding clear_last_session tried
clear_last_session-messages h = ground arith

pub persist-rows : (c : Controller) → rows_of (persist_stored_session_state c) ≡ rows_of c
unfolding persist_stored_session_state
persist-rows c =
    let h = c.chat_window.store in
    ground (arith, save_last_session-messages h c, clear_last_session-messages h)

module _ (folded_before : String → String → Bool) where
  disconnected-rows :
      (now : ℕ) (c : Controller)
      → rows_of (on_socket_disconnected folded_before now c).0 ≡ rows_of c
  unfolding on_socket_disconnected activate_offline show_connection_window
      update_offline_availability
  disconnected-rows now c =
      let r = handle_socket_disconnected c.chat_visible c.flow in
      let lost = with_flow r.0 c in
      either-rows r.1 (rows_of c) (activate_offline folded_before now lost)
        (
          show_connection_window (update_offline_availability (has_stored_session lost.flow) lost),
          [],
        )
        (activate-messages folded_before now lost.flow.active_username true c.chat_window) refl

  deliver-rows :
      (now : ℕ) (effects : List Effect) (c : Controller)
      → rows_of (deliver folded_before now effects c).0 ≡ rows_of c
  unfolding deliver
  deliver-rows now [] c = refl
  deliver-rows now (status_changed status ∷ rest) c =
      deliver-rows now rest (on_status_changed status c) ∙ status_changed-rows status c
  deliver-rows now (transport_error message ∷ rest) c =
      deliver-rows now rest (on_transport_error message c) ∙ transport_error-rows message c
  deliver-rows now (socket_disconnected ∷ rest) c =
      deliver-rows now rest (on_socket_disconnected folded_before now c).0 ∙ disconnected-rows now c
  deliver-rows now (_ ∷ rest) c = deliver-rows now rest c

  module _ (trimmed : String → String) where
    call_connect-rows :
        (now : ℕ) (drops : Bool) (c : Controller)
        → rows_of (call_connect folded_before trimmed now drops c).0 ≡ rows_of c
    unfolding call_connect
    call_connect-rows now drops c =
        let before = c.chat_window.client in
        let r = connect_to_server trimmed c.flow.current_host c.flow.current_port before in
        let lost = on_disconnected r.0 in
        let effects = abort ∷ (lost.1 ++ start_connect_attempt r.0) in
        either-rows (drops && not (is_unconnected before.socket)) (rows_of c)
          (deliver folded_before now effects (with_client lost.0 c))
          (deliver folded_before now r.1 (with_client r.0 c))
          (deliver-rows now effects (with_client lost.0 c))
          (deliver-rows now r.1 (with_client r.0 c))

    pub call_disconnect-rows :
        (now : ℕ) (closed drops : Bool) (c : Controller)
        → rows_of (call_disconnect folded_before trimmed now closed drops c).0 ≡ rows_of c
    unfolding call_disconnect
    call_disconnect-rows now closed drops c =
        let before = c.chat_window.client in
        let r = disconnect_from_server closed before in
        let lost = on_disconnected r.0 in
        let client : NetworkClient = record lost.0 { socket = unconnected_state } in
        let quiet : NetworkClient = record r.0 { socket = unconnected_state } in
        either-rows (drops && not (is_unconnected before.socket)) (rows_of c)
          (deliver folded_before now (r.1 ++ lost.1) (with_client client c))
          (deliver folded_before now r.1 (with_client quiet c))
          (deliver-rows now (r.1 ++ lost.1) (with_client client c))
          (deliver-rows now r.1 (with_client quiet c))

    pub attempt-rows :
        (now : ℕ) (drops : Bool) (host : String) (port : ℕ) (c : Controller)
        → rows_of (attempt_connection folded_before trimmed now drops host port c).0 ≡ rows_of c
    unfolding attempt_connection update_endpoint_labels update_offline_availability
    attempt-rows now drops host port c =
        let aimed = with_flow (set_endpoint trimmed host port c.flow) c in
        let labelled = update_offline_availability false (update_endpoint_labels aimed) in
        call_connect-rows now drops (
          set_connection_status
            (connecting_at labelled.flow.current_host labelled.flow.current_port) labelled)
