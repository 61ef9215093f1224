-- ===== src/Client/FlowController/Held.antt =====
-- What of Client/clientflowcontroller.cpp leaves the last session alone, in the file and in the flow state.
use messenger_walkie_talkie.Prelude.{
  ℕ, ◌<◌, ◌^◌, String, ◌≡◌, refl, sym, subst, Bool, true, false, not, ◌&&◌, List, [], ◌∷◌, ◌++◌,
  arith, if◌then◌else◌, string_eq,
}
use messenger_walkie_talkie.Client.Network.{
  NetworkClient, Effect, Status, status_changed, socket_disconnected, transport_error, abort,
  connect_to_server, disconnect_from_server, on_disconnected, start_connect_attempt, is_unconnected,
  unconnected_state, is_connected_state,
}
use messenger_walkie_talkie.Client.FlowState.{
  FlowState, LastSessionInfo, has_stored_session, set_endpoint, normalized_port,
  handle_socket_disconnected,
}
use messenger_walkie_talkie.Client.HistoryStore.{HistoryStore, session_of_row}
use messenger_walkie_talkie.Client.ChatWindow.{
  ChatWindow, said, of_status, offline_because, connecting_at, activate_session,
}
use messenger_walkie_talkie.Client.ChatWindow.Calm.{IsCalm, activate-IsCalm}
use messenger_walkie_talkie.Client.FlowController.{
  Controller, Handled, with_flow, set_connection_status, set_login_status, set_chat_status,
  set_busy, show_connection_window, update_offline_availability, update_endpoint_labels,
  activate_offline, on_status_changed, on_transport_error, on_socket_disconnected, deliver,
}
use messenger_walkie_talkie.Client.FlowController.Handlers.{
  with_client, call_connect, call_disconnect, attempt_connection,
}

lost_session :
    (visible : Bool) (f : FlowState)
    → (handle_socket_disconnected visible f).0.last_session ≡ f.last_session
unfolding handle_socket_disconnected
lost_session visible f = ground arith

lost_port :
    (visible : Bool) (f : FlowState)
    → (handle_socket_disconnected visible f).0.current_port ≡ f.current_port
unfolding handle_socket_disconnected
lost_port visible f = ground arith

pub normalized_port-fits : (port : ℕ) → port < 2 ^ 16 → normalized_port port < 2 ^ 16
unfolding normalized_port
normalized_port-fits port fits = ground arith

module _ (Related : LastSessionInfo → LastSessionInfo → Type 0) where
  -- The file is open and no statement fails, all ports are of a quint16, and the session in the file is
  -- related to that of the flow state.
  pub record Held (h : HistoryStore) (f : FlowState) (initial : ℕ) : Type 0 where
    pub opened : h.is_open ≡ true
    pub no_fault : h.faults ≡ []
    pub port : f.current_port < 2 ^ 16
    pub session_port : f.last_session.port < 2 ^ 16
    pub initial_port : initial < 2 ^ 16
    pub related : Related (session_of_row h.last_session) f.last_session

  abbrev pub IsHeld : Controller → Type 0
  IsHeld c = Held c.chat_window.store c.flow c.initial_port

  pub either-IsHeld :
      (b : Bool) (x y : Controller) → IsHeld x → IsHeld y → IsHeld (if b then x else y)
  either-IsHeld true x y hx hy = hx
  either-IsHeld false x y hx hy = hy

  pub either_handled-IsHeld :
      (b : Bool) (x y : Handled) → IsHeld x.0 → IsHeld y.0 → IsHeld (if b then x else y).0
  either_handled-IsHeld true x y hx hy = hx
  either_handled-IsHeld false x y hx hy = hy

  pub flow-IsHeld :
      (f : FlowState) (c : Controller)
      → f.last_session ≡ c.flow.last_session
      → f.current_port < 2 ^ 16
      → IsHeld c
      → IsHeld (with_flow f c)
  flow-IsHeld f c same fits v = record {
    opened = v.opened;
    no_fault = v.no_fault;
    port = fits;
    session_port = subst (λ (s : LastSessionInfo). s.port < 2 ^ 16) (sym same) v.session_port;
    initial_port = v.initial_port;
    related =
        subst (Related (session_of_row c.chat_window.store.last_session)) (sym same) v.related;
  }

  pub chat-IsHeld :
      (w : ChatWindow) (c : Controller)
      → IsCalm c.chat_window.store.last_session w.store
      → IsHeld c
      → IsHeld (record c { chat_window = w })
  chat-IsHeld w c calm v = record {
    opened = calm.opened;
    no_fault = calm.no_fault;
    port = v.port;
    session_port = v.session_port;
    initial_port = v.initial_port;
    related =
        subst (λ row. Related (session_of_row row) c.flow.last_session) (sym calm.kept) v.related;
  }

  pub IsHeld-IsCalm :
      (c : Controller) → IsHeld c → IsCalm c.chat_window.store.last_session c.chat_window.store
  IsHeld-IsCalm c v = record { opened = v.opened; no_fault = v.no_fault; kept = refl }

  pub status_changed-IsHeld :
      (status : Status) (c : Controller) → IsHeld c → IsHeld (on_status_changed status c)
  unfolding on_status_changed
  status_changed-IsHeld status c v =
      let notice = of_status status in
      let connection = set_connection_status notice (set_chat_status notice c) in
      let login =
        if c.login_window.visible then set_login_status notice connection else connection in
      let held =
        either-IsHeld c.login_window.visible (set_login_status notice connection) connection v v in
      either-IsHeld c.chat_visible (set_chat_status notice login) login held held

  pub transport_error-IsHeld :
      (message : String) (c : Controller) → IsHeld c → IsHeld (on_transport_error message c)
  unfolding on_transport_error update_offline_availability
  transport_error-IsHeld message c v =
      let notice = said message in
      let connection = set_connection_status notice (set_chat_status notice c) in
      let offline = update_offline_availability (has_stored_session c.flow) connection in
      let alone = not (is_connected_state c.chat_window.client.socket) in
      let available = if alone then offline else connection in
      let told = set_login_status notice (set_busy false available) in
      let login = if c.login_window.visible then told else available in
      let held = either-IsHeld alone offline connection v v in
      let held_login = either-IsHeld c.login_window.visible told available held held in
      either-IsHeld (c.chat_visible && c.flow.offline_view_active)
        (set_chat_status (offline_because message) login) login held_login held_login

  module _ (folded_before : String → String → Bool) where
    pub activate_offline-IsHeld :
        (now : ℕ) (c : Controller) → IsHeld c → IsHeld (activate_offline folded_before now c).0
    unfolding activate_offline
    activate_offline-IsHeld now c v =
        let r = activate_session folded_before now c.flow.active_username true c.chat_window in
        chat-IsHeld r.0 c
          (activate-IsCalm c.chat_window.store.last_session folded_before now c.flow.active_username
            true c.chat_window (IsHeld-IsCalm c v))
          v

    pub disconnected-IsHeld :
        (now : ℕ) (c : Controller)
        → IsHeld c
        → IsHeld (on_socket_disconnected folded_before now c).0
    unfolding on_socket_disconnected show_connection_window update_offline_availability
    disconnected-IsHeld now c v =
        let r = handle_socket_disconnected c.chat_visible c.flow in
        let lost = with_flow r.0 c in
        let held =
          flow-IsHeld r.0 c (lost_session c.chat_visible c.flow)
            (rw (lost_port c.chat_visible c.flow) v.port) v in
        either_handled-IsHeld r.1 (activate_offline folded_before now lost)
          (
            show_connection_window
                (update_offline_availability (has_stored_session lost.flow) lost),
            [],
          )
          (activate_offline-IsHeld now lost held) held

    deliver-IsHeld :
        (now : ℕ) (effects : List Effect) (c : Controller)
        → IsHeld c
        → IsHeld (deliver folded_before now effects c).0
    unfolding deliver
    deliver-IsHeld now [] c v = v
    deliver-IsHeld now (status_changed status ∷ rest) c v =
        deliver-IsHeld now rest (on_status_changed status c) (status_changed-IsHeld status c v)
    deliver-IsHeld now (transport_error message ∷ rest) c v =
        deliver-IsHeld now rest (on_transport_error message c) (transport_error-IsHeld message c v)
    deliver-IsHeld now (socket_disconnected ∷ rest) c v =
        deliver-IsHeld now rest (on_socket_disconnected folded_before now c).0
          (disconnected-IsHeld now c v)
    deliver-IsHeld now (_ ∷ rest) c v = deliver-IsHeld now rest c v

    module _ (trimmed : String → String) where
      call_connect-IsHeld :
          (now : ℕ) (drops : Bool) (c : Controller)
          → IsHeld c
          → IsHeld (call_connect folded_before trimmed now drops c).0
      unfolding call_connect
      call_connect-IsHeld now drops c v =
          let before = c.chat_window.client in
          let r = connect_to_server trimmed c.flow.current_host c.flow.current_port before in
          let lost = on_disconnected r.0 in
          let effects = abort ∷ (lost.1 ++ start_connect_attempt r.0) in
          either_handled-IsHeld (drops && not (is_unconnected before.socket))
            (deliver folded_before now effects (with_client lost.0 c))
            (deliver folded_before now r.1 (with_client r.0 c))
            (deliver-IsHeld now effects (with_client lost.0 c)
              (chat-IsHeld (record c.chat_window { client = lost.0 }) c (IsHeld-IsCalm c v) v))
            (deliver-IsHeld now r.1 (with_client r.0 c)
              (chat-IsHeld (record c.chat_window { client = r.0 }) c (IsHeld-IsCalm c v) v))

      pub call_disconnect-IsHeld :
          (now : ℕ) (closed drops : Bool) (c : Controller)
          → IsHeld c
          → IsHeld (call_disconnect folded_before trimmed now closed drops c).0
      unfolding call_disconnect
      call_disconnect-IsHeld now closed drops c v =
          let before = c.chat_window.client in
          let r = disconnect_from_server closed before in
          let lost = on_disconnected r.0 in
          let client : NetworkClient = record lost.0 { socket = unconnected_state } in
          let quiet : NetworkClient = record r.0 { socket = unconnected_state } in
          either_handled-IsHeld (drops && not (is_unconnected before.socket))
            (deliver folded_before now (r.1 ++ lost.1) (with_client client c))
            (deliver folded_before now r.1 (with_client quiet c))
            (deliver-IsHeld now (r.1 ++ lost.1) (with_client client c)
              (chat-IsHeld (record c.chat_window { client = client }) c (IsHeld-IsCalm c v) v))
            (deliver-IsHeld now r.1 (with_client quiet c)
              (chat-IsHeld (record c.chat_window { client = quiet }) c (IsHeld-IsCalm c v) v))

      pub set_endpoint-IsHeld :
          (host : String) (port : ℕ) (c : Controller)
          → port < 2 ^ 16
          → IsHeld c
          → IsHeld (with_flow (set_endpoint trimmed host port c.flow) c)
      set_endpoint-IsHeld host port c fits v =
          flow-IsHeld (set_endpoint trimmed host port c.flow) c (unfold set_endpoint in refl)
            (unfold set_endpoint in normalized_port-fits port fits) v

      pub attempt-IsHeld :
          (now : ℕ) (drops : Bool) (host : String) (port : ℕ) (c : Controller)
          → port < 2 ^ 16
          → IsHeld c
          → IsHeld (attempt_connection folded_before trimmed now drops host port c).0
      unfolding attempt_connection update_endpoint_labels update_offline_availability
      attempt-IsHeld now drops host port c fits v =
          let aimed = with_flow (set_endpoint trimmed host port c.flow) c in
          let labelled = update_offline_availability false (update_endpoint_labels aimed) in
          call_connect-IsHeld now drops
            (set_connection_status
              (connecting_at labelled.flow.current_host labelled.flow.current_port) labelled)
            (set_endpoint-IsHeld host port c fits v)
