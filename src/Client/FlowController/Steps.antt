-- ===== src/Client/FlowController/Steps.antt =====
-- What can happen to the client program of Client/clientflowcontroller.cpp: the signals of the network client
-- and of the windows that the controller is connected to, and what happens to the chat window alone. A
-- button of a window that is not shown, or that is not enabled, takes no click. The state of the socket turns by itself, at any time, to any other, the one that Qt is in at
-- a signal included.
use messenger_walkie_talkie.Prelude.{
  ℕ, String, Bool, ◌&&◌, List, [], ◌∷◌, ◌++◌, Option, if◌then◌else◌,
}
use messenger_walkie_talkie.Prelude.Int.{ℤ}
use messenger_walkie_talkie.Client.Network.{Status, SocketState}
use messenger_walkie_talkie.Client.ChatWindow.Steps as ChatSteps
use messenger_walkie_talkie.Client.ChatWindow.Running.{is_session_call}
use messenger_walkie_talkie.Client.FlowController.{
  Controller, Handled, on_status_changed, on_transport_error, on_socket_disconnected,
}
use messenger_walkie_talkie.Client.FlowController.Handlers.{
  start, on_socket_connected, on_auth_succeeded, on_auth_failed, on_session_invalid,
  on_login_requested, on_register_requested, on_offline_mode_requested, on_change_server_requested,
  on_logout_requested, with_client,
}

pub data Event : Type 0 where
  starts : ℕ → Bool → Event
  connects : ℕ → ℕ → Event
  disconnects : ℕ → Event
  auth_succeeds : ℕ → String → String → ℤ → Event
  auth_fails session_ends transport_fails : String → Event
  status_changes : Status → Event
  requests_login requests_register : String → String → Event
  requests_offline : ℕ → Event
  changes_server : ℕ → Bool → Option (String × ℕ) → Event
  requests_logout : ℕ → Bool → Bool → Event
  chats : ChatSteps.Event → Event
  socket_turns : SocketState → Event

module _ (folded_before : String → String → Bool) (trimmed : String → String) where
  unfoldable pub apply : Event → Controller → Handled
  apply (starts now drops) c = start folded_before trimmed now drops c
  apply (connects now later) c = on_socket_connected trimmed now later c
  apply (disconnects now) c = on_socket_disconnected folded_before now c
  apply (auth_succeeds now username token expires_at) c =
      on_auth_succeeded folded_before now username token expires_at c
  apply (auth_fails message) c = (on_auth_failed message c, [])
  apply (session_ends message) c = (on_session_invalid message c, [])
  apply (transport_fails message) c = (on_transport_error message c, [])
  apply (status_changes status) c = (on_status_changed status c, [])
  apply (requests_login username password) c = on_login_requested trimmed username password c
  apply (requests_register username password) c = on_register_requested trimmed username password c
  apply (requests_offline now) c =
      if c.connection_window.visible && c.connection_window.offline_mode_available
      then on_offline_mode_requested folded_before now c
      else (c, [])
  apply (changes_server now drops answer) c =
      on_change_server_requested folded_before trimmed now drops answer c
  apply (requests_logout now closed drops) c =
      if c.chat_visible && c.chat_window.can_leave
      then on_logout_requested folded_before trimmed now closed drops c
      else (c, [])
  apply (chats e) c =
      let r = ChatSteps.apply folded_before trimmed e c.chat_window in
      if is_session_call e then (c, []) else (record c { chat_window = r.0 }, r.1)
  apply (socket_turns state) c =
      (with_client (record c.chat_window.client { socket = state }) c, [])

  unfoldable pub run : List Event → Controller → Handled
  unfolding apply
  run [] c = (c, [])
  run (e ∷ es) c = let first = apply e c in let rest = run es first.0 in (rest.0, first.1 ++ rest.1)
