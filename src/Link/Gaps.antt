-- ===== src/Link/Gaps.antt =====
-- A packet that arrives damaged and is sent again after a later one.
use messenger_walkie_talkie.Prelude.{ℕ, ◌<◌, ◌≡◌, ◌≢◌, true, [], ◌∷◌, arith, eq_iff, string_eq}
use messenger_walkie_talkie.Shared.Json.{JsonObject, object, str, num, value, to_string}
use messenger_walkie_talkie.Prelude.Int.{pos}
use messenger_walkie_talkie.Shared.ReadLoop.{received, bad_crc}
use messenger_walkie_talkie.Server.Connection.{
  Connection, write, packet_received, packet_seq, accept_packet, process_incoming_packet,
  on_arrivals,
}

-- A packet of some type other than ack, pong and ping.
abbrev pub IsPlain : JsonObject → Type 0
IsPlain p =
    (to_string (value p "type") ≢ "ack")
    × (to_string (value p "type") ≢ "pong")
    × (to_string (value p "type") ≢ "ping")

abbrev pub ack_of : JsonObject → JsonObject
ack_of p = object (
    ("type", str "ack")
    ∷ ("id", str (to_string (value p "id")))
    ∷ ("seq", num (pos (packet_seq p)))
    ∷ [])

process-plain :
    (now : ℕ) (p : JsonObject) (c : Connection)
    → IsPlain p
    → process_incoming_packet now p c ≡ accept_packet p c
unfolding process_incoming_packet
process-plain now p c plain = ground (
  arith,
  eq_iff (to_string (value p "type")) "ack",
  eq_iff (to_string (value p "type")) "pong",
  eq_iff (to_string (value p "type")) "ping",
)

-- On a connected socket, of two packets with ids and with rising numbers above those before, of
-- types other than ack, pong and ping, the first arrives damaged, the second whole, and then the
-- first again, whole: the server is handed the second alone, and both are acknowledged.
pub resent_after_gap_lost :
    (now : ℕ) (first second : JsonObject) (c : Connection)
    → IsPlain first
    → IsPlain second
    → to_string (value first "id") ≢ ""
    → to_string (value second "id") ≢ ""
    → 0 < packet_seq first
    → packet_seq first < packet_seq second
    → c.last_incoming_seq < packet_seq first
    → c.has_socket ≡ true
    → c.is_connected ≡ true
    → (on_arrivals now (bad_crc ∷ received second ∷ received first ∷ []) c).1
      ≡ write (ack_of second) ∷ packet_received second ∷ write (ack_of first) ∷ []
unfolding on_arrivals
resent_after_gap_lost now first second c plain plain' named named' numbered later new there up =
    let d : Connection = record c { last_incoming_seq = packet_seq second } in
    ground (
      arith,
      process-plain now second c plain',
      process-plain now first d plain,
      eq_iff (to_string (value first "id")) "",
      eq_iff (to_string (value second "id")) "",
    )
