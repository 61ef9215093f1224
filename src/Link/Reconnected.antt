-- ===== src/Link/Reconnected.antt =====
-- What a client that reconnected by itself makes of the first tracked packet of the new connection.
use messenger_walkie_talkie.Prelude.{ℕ, ◌<◌, String, ◌≡◌, ◌≢◌, [], ◌∷◌, arith, eq_iff, string_eq}
use messenger_walkie_talkie.Prelude.Int.{pos}
use messenger_walkie_talkie.Shared.Json.{
  JsonObject, num, value, set_field, value-set_field, to_string,
}
use messenger_walkie_talkie.Server.Connection.{start, send_tracked, write}
use messenger_walkie_talkie.Client.Transport.{
  schedule_reconnect, can_reconnect, consume_manual_disconnect, mark_connected,
  is_duplicate_incoming_sequence,
}
use messenger_walkie_talkie.Client.Network.{
  NetworkClient, process_packet, send_ack, on_disconnected, reconnect_if_needed, on_connected,
  schedule_reconnect_timer,
}
use messenger_walkie_talkie.Link.{reconnected}

-- Reconnecting does not touch the number of the last packet received.
last_incoming_seq-reconnected :
    (now : ℕ) (c : NetworkClient)
    → (reconnected now c).transport.last_incoming_seq ≡ c.transport.last_incoming_seq
unfolding on_disconnected reconnect_if_needed on_connected schedule_reconnect_timer
    schedule_reconnect can_reconnect consume_manual_disconnect mark_connected
last_incoming_seq-reconnected now c = ground arith

-- The packet that the first `sendTracked` of a new connection writes, for a body with an id.
abbrev pub first_packet : JsonObject → JsonObject
first_packet body = set_field body "seq" (num (pos 1))

send_tracked-start :
    (body : JsonObject) (fresh_id : String) (started now : ℕ)
    → to_string (value body "id") ≢ ""
    → (send_tracked fresh_id now body (start started)).1 ≡ write (first_packet body) ∷ []
unfolding send_tracked start
send_tracked-start body fresh_id started now named =
    ground (arith, eq_iff (to_string (value body "id")) "")

module _ (trimmed : String → String) (body : JsonObject) (started sent now : ℕ)
    (c : NetworkClient) where
  -- A client that has received a numbered packet before drops the first tracked packet of the
  -- server's new connection after it reconnected by itself, for every body with an id whose type
  -- is none of ack, ping and pong: the client's state stays as it is, nothing is dispatched, and
  -- the packet is acknowledged.
  pub reconnected_drops_first :
      to_string (value body "id") ≢ ""
      → to_string (value body "type") ≢ "ack"
      → to_string (value body "type") ≢ "pong"
      → to_string (value body "type") ≢ "ping"
      → 0 < c.transport.last_incoming_seq
      → ((send_tracked "" sent body (start started)).1 ≡ write (first_packet body) ∷ [])
        × (process_packet trimmed now (first_packet body) (reconnected now c)
            ≡ (reconnected now c, send_ack (to_string (value body "id")) 1))
  unfolding process_packet is_duplicate_incoming_sequence
  reconnected_drops_first named no_ack no_pong no_ping before = (
    send_tracked-start body "" started sent named,
    rw
        (
          value-set_field body "seq" "type" (num (pos 1)),
          value-set_field body "seq" "id" (num (pos 1)),
          value-set_field body "seq" "seq" (num (pos 1)),
        )
        (ground (
          arith,
          eq_iff (to_string (value body "type")) "ack",
          eq_iff (to_string (value body "type")) "pong",
          eq_iff (to_string (value body "type")) "ping",
          last_incoming_seq-reconnected now c,
        )),
  )
