-- ===== src/Client/FlowController.antt =====
-- Client/clientflowcontroller.h and Client/clientflowcontroller.cpp, with the labels and fields of
-- Client/connectionwindow.cpp and Client/loginwindow.cpp: which window is shown, and what the events
-- of the network client and of the windows do. The store and the network client are those of the chat
-- window. A signal that the network client emits during a call is handled before the call is
-- over; what is left of the effects is for the socket. `drops` says whether the socket tells of
-- its end within the call that ends it. Clocks are arguments; `trimmed` stands for QString::trimmed
-- and `folded_before` for the order of names.
pub mod Handlers
pub mod Steps
pub mod Windows
pub mod Held
pub mod Persisted
pub mod Session
pub mod Running
pub mod Restart
pub mod Rows
pub mod Logout
use messenger_walkie_talkie.Prelude.{
  ℕ, String, Bool, true, false, not, ◌&&◌, ◌||◌, List, [], ◌∷◌, ◌++◌, if◌then◌else◌, is_empty,
  string_eq,
}
use messenger_walkie_talkie.Client.Network.{
  NetworkClient, Effect, Status, status_changed, socket_disconnected, transport_error,
  is_connected_state, unconnected_state,
}
use messenger_walkie_talkie.Client.FlowState
use messenger_walkie_talkie.Client.Transport
use messenger_walkie_talkie.Client.FlowState.{
  FlowState, LastSessionInfo, has_stored_session, login_prefill_username,
  handle_socket_disconnected,
}
use messenger_walkie_talkie.Client.HistoryStore.{
  HistoryStore, save_last_session, clear_last_session,
}
use messenger_walkie_talkie.Client.ChatWindow.{
  ChatWindow, Notice, said, of_status, connected_at, offline_because, set_status_text,
  activate_session, new_window,
}

pub record ConnectionWindow : Type 0 where
  pub visible : Bool
  pub endpoint : String × ℕ
  pub status : Notice
  pub offline_mode_available : Bool

pub record LoginWindow : Type 0 where
  pub visible : Bool
  pub endpoint : String × ℕ
  pub status : Notice
  pub username : String
  pub password : String
  pub busy : Bool

pub record Controller : Type 0 where
  pub flow : FlowState
  pub connection_window : ConnectionWindow
  pub login_window : LoginWindow
  pub chat_window : ChatWindow
  pub chat_visible : Bool
  pub initial_host : String
  pub initial_port : ℕ

-- The program after the constructor and setInitialEndpoint, on a file.
abbrev pub launched : String → ℕ → HistoryStore → Controller
launched host port store = record {
  flow = FlowState.initial;
  connection_window = record {
    visible = false;
    endpoint = ("127.0.0.1", 5555);
    status = said "Starting...";
    offline_mode_available = false;
  };
  login_window = record {
    visible = false;
    endpoint = ("127.0.0.1", 5555);
    status = said "Connected";
    username = "";
    password = "";
    busy = false;
  };
  chat_window = new_window store (record {
    transport = Transport.initial;
    socket = unconnected_state;
    ping_timer = false;
    retry_timer = false;
    reconnect_timer = false;
  });
  chat_visible = false;
  initial_host = host;
  initial_port = port;
}

abbrev pub Handled : Type 0
Handled = Controller × List Effect

abbrev pub with_flow : FlowState → Controller → Controller
with_flow flow c = record c { flow = flow }

abbrev pub with_store : HistoryStore → Controller → Controller
with_store store c = record c { chat_window = record c.chat_window { store = store } }

abbrev pub set_connection_status : Notice → Controller → Controller
set_connection_status notice c = record c {
  connection_window = record c.connection_window { status = notice };
}

abbrev pub set_login_status : Notice → Controller → Controller
set_login_status notice c = record c { login_window = record c.login_window { status = notice } }

abbrev pub set_chat_status : Notice → Controller → Controller
set_chat_status notice c = record c { chat_window = set_status_text notice c.chat_window }

abbrev pub set_busy : Bool → Controller → Controller
set_busy busy c = record c { login_window = record c.login_window { busy = busy } }

unfoldable pub persist_stored_session_state : Controller → Controller
persist_stored_session_state c =
    if not (has_stored_session c.flow)
    then with_store (clear_last_session c.chat_window.store) c
    else with_store (save_last_session c.flow.last_session c.chat_window.store) c

unfoldable pub show_connection_window : Controller → Controller
show_connection_window c = record c {
  login_window = record c.login_window { visible = false };
  chat_visible = false;
  connection_window = record c.connection_window { visible = true };
}

abbrev is_blank : Notice → Bool
is_blank (said text) = is_empty text
is_blank _ = false

unfoldable pub show_login_window : Notice → Controller → Controller
show_login_window notice c = record c {
  connection_window = record c.connection_window { visible = false };
  chat_visible = false;
  login_window = record {
    visible = true;
    endpoint = (c.flow.current_host, c.flow.current_port);
    status =
        if is_blank notice then connected_at c.flow.current_host c.flow.current_port else notice;
    username = login_prefill_username c.flow;
    password = "";
    busy = false;
  };
}

unfoldable pub show_chat_window : Controller → Controller
show_chat_window c = record c {
  connection_window = record c.connection_window { visible = false };
  login_window = record c.login_window { visible = false };
  chat_visible = true;
}

unfoldable pub update_endpoint_labels : Controller → Controller
update_endpoint_labels c = record c {
  connection_window = record c.connection_window {
    endpoint = (c.flow.current_host, c.flow.current_port);
  };
  login_window = record c.login_window { endpoint = (c.flow.current_host, c.flow.current_port) };
}

unfoldable pub update_offline_availability : Bool → Controller → Controller
update_offline_availability available c = record c {
  connection_window = record c.connection_window {
    offline_mode_available = available && has_stored_session c.flow;
  };
}

-- statusChanged: the slot of the chat window, and then the controller's.
unfoldable pub on_status_changed : Status → Controller → Controller
on_status_changed status c =
    let notice = of_status status in
    let chat = set_chat_status notice c in
    let connection = set_connection_status notice chat in
    let login = if c.login_window.visible then set_login_status notice connection else connection in
    if c.chat_visible then set_chat_status notice login else login

-- transportError, the same.
unfoldable pub on_transport_error : String → Controller → Controller
unfolding update_offline_availability
on_transport_error message c =
    let connection = set_connection_status (said message) (set_chat_status (said message) c) in
    let available =
      if not (is_connected_state c.chat_window.client.socket)
      then update_offline_availability (has_stored_session c.flow) connection
      else connection in
    let login =
      if c.login_window.visible
      then set_login_status (said message) (set_busy false available)
      else available in
    if c.chat_visible && c.flow.offline_view_active
    then set_chat_status (offline_because message) login
    else login

module _ (folded_before : String → String → Bool) where
  -- The chat window without a connection; what it asks of the network comes back.
  unfoldable pub activate_offline : ℕ → Controller → Handled
  activate_offline now c =
      let r = activate_session folded_before now c.flow.active_username true c.chat_window in
      (
        set_chat_status (said "Offline mode. Reconnecting in background...")
            (record c { chat_window = r.0 }),
        r.1,
      )

  unfoldable pub on_socket_disconnected : ℕ → Controller → Handled
  unfolding activate_offline update_offline_availability show_connection_window
  on_socket_disconnected now c =
      let r = handle_socket_disconnected c.chat_visible c.flow in
      let lost = with_flow r.0 c in
      if r.1 then activate_offline now lost else (
        show_connection_window (update_offline_availability (has_stored_session lost.flow) lost),
        [],
      )

  -- What a call of the network client emitted, one after the other.
  unfoldable pub deliver : ℕ → List Effect → Controller → Handled
  unfolding on_status_changed on_transport_error on_socket_disconnected
  deliver now [] c = (c, [])
  deliver now (status_changed status ∷ rest) c = deliver now rest (on_status_changed status c)
  deliver now (transport_error message ∷ rest) c = deliver now rest (on_transport_error message c)
  deliver now (socket_disconnected ∷ rest) c =
      let first = on_socket_disconnected now c in
      let others = deliver now rest first.0 in (others.0, first.1 ++ others.1)
  deliver now (effect ∷ rest) c = let others = deliver now rest c in (others.0, effect ∷ others.1)
