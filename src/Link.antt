-- ===== src/Link.antt =====
-- The two ends of a connection: Server/connection.cpp against Client/networkclient.cpp.
pub mod Gaps
pub mod Reconnected
use messenger_walkie_talkie.Prelude.{ℕ, String, List}
use messenger_walkie_talkie.Client.Network.{
  NetworkClient, Handled, on_disconnected, reconnect_if_needed, on_connected,
}

-- The client after the connection was lost, the reconnect timer fired and the socket connected.
abbrev pub reconnected : ℕ → NetworkClient → NetworkClient
reconnected now c = (on_connected now (reconnect_if_needed (on_disconnected c).0).0).0
