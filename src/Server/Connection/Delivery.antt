-- ===== src/Server/Connection/Delivery.antt =====
-- What a connection hands to the server: numbered packets at most once and in order.
use messenger_walkie_talkie.Prelude.{
  ℕ, ◌≡◌, refl, ◌∙◌, List, [], ◌∷◌, ◌++◌, Option, none, some, arith, if◌then◌else◌, ltb, string_eq,
}
use messenger_walkie_talkie.Shared.Json.{JsonObject}
use messenger_walkie_talkie.Shared.Frame.{JsonCodec}
use messenger_walkie_talkie.Shared.Retry.{sweep}
use messenger_walkie_talkie.Shared.ReadLoop.{Arrival, received, bad_packet, feed}
use messenger_walkie_talkie.Server.Connection.{
  Connection, Effect, packet_received, Event, reads, closes, checks, send_plain, writes, packet_seq,
  process_incoming_packet, close_and_notify, on_arrival, on_ready_read, check_pending_messages,
  handle, run,
}
use messenger_walkie_talkie.Server.Connection.Rules.{on_arrivals_rule, run_rule}

-- The number of the last numbered packet delivered, if each of them is above all before it and above
-- `lo`; a packet with no number is passed over.
abbrev pub climb : ℕ → List Effect → Option ℕ
climb lo [] = some lo
climb lo (packet_received p ∷ es) =
    let next = climb (packet_seq p) es in
    let same = climb lo es in
    if ltb 0 (packet_seq p) then (if ltb lo (packet_seq p) then next else none) else same
climb lo (_ ∷ es) = climb lo es

climb-append :
    (lo mid : ℕ) (xs ys : List Effect) → climb lo xs ≡ some mid → climb lo (xs ++ ys) ≡ climb mid ys
climb-append lo mid [] ys h = ground arith
climb-append lo mid (packet_received p ∷ xs) ys h =
    ground (arith, climb-append (packet_seq p) mid xs ys, climb-append lo mid xs ys)
climb-append lo mid (_ ∷ xs) ys h = climb-append lo mid xs ys h

abbrev Climbs : Connection → List Effect → Connection → Type 0
Climbs c es d = climb c.last_incoming_seq es ≡ some d.last_incoming_seq

Climbs-none : (c : Connection) → Climbs c [] c
Climbs-none c = refl

Climbs-then :
    (c d e : Connection) (xs ys : List Effect)
    → Climbs c xs d
    → Climbs d ys e
    → Climbs c (xs ++ ys) e
Climbs-then c d e xs ys p q = climb-append c.last_incoming_seq d.last_incoming_seq xs ys p ∙ q

climb-send_plain : (p : JsonObject) (c : Connection) (lo : ℕ) → climb lo (send_plain p c) ≡ some lo
unfolding send_plain
climb-send_plain p c lo = ground arith

climb-writes : (ps : List JsonObject) (c : Connection) (lo : ℕ) → climb lo (writes ps c) ≡ some lo
climb-writes [] c lo = refl
climb-writes (p ∷ ps) c lo =
    climb-append lo lo (send_plain p c) (writes ps c) (climb-send_plain p c lo)
    ∙ climb-writes ps c lo

close_and_notify-Climbs : (c : Connection) → Climbs c (close_and_notify c).1 (close_and_notify c).0
unfolding close_and_notify
close_and_notify-Climbs c = ground arith

process-Climbs :
    (now : ℕ) (p : JsonObject) (c : Connection)
    → Climbs c (process_incoming_packet now p c).1 (process_incoming_packet now p c).0
unfolding process_incoming_packet packet_seq
process-Climbs now p c = ground arith

on_arrival-Climbs :
    (now : ℕ) (a : Arrival) (c : Connection)
    → Climbs c (on_arrival now a c).1 (on_arrival now a c).0
unfolding on_arrival
on_arrival-Climbs now (received p) c = process-Climbs now p c
on_arrival-Climbs now bad_packet c = close_and_notify-Climbs c
on_arrival-Climbs now _ c = refl

on_ready_read-Climbs :
    (codec : JsonCodec) (now : ℕ) (chunk : List ℕ) (c : Connection)
    → Climbs c (on_ready_read codec now chunk c).1 (on_ready_read codec now chunk c).0
unfolding on_ready_read
on_ready_read-Climbs codec now chunk c =
    let d : Connection = record c { buffer = (feed codec c.buffer chunk).buffer } in
    ground (
      arith,
      on_arrivals_rule Climbs Climbs-none Climbs-then now (feed codec c.buffer chunk).arrivals d
          (on_arrival-Climbs now),
    )

check-Climbs :
    (now : ℕ) (c : Connection)
    → Climbs c (check_pending_messages now c).1 (check_pending_messages now c).0
unfolding check_pending_messages
check-Climbs now c =
    let swept = sweep now c.tracked_messages in
    let c' : Connection = record c { tracked_messages = swept.pending } in
    ground (
      arith,
      climb-writes swept.resend_packets c c.last_incoming_seq,
      close_and_notify-Climbs c',
      climb-append c.last_incoming_seq c.last_incoming_seq (writes swept.resend_packets c)
          (close_and_notify c').1,
    )

handle-Climbs :
    (codec : JsonCodec) (e : Event) (c : Connection)
    → Climbs c (handle codec e c).1 (handle codec e c).0
unfolding handle
handle-Climbs codec (reads now chunk) c = on_ready_read-Climbs codec now chunk c
handle-Climbs codec (checks now) c = check-Climbs now c
handle-Climbs codec closes c = close_and_notify-Climbs c
handle-Climbs codec _ c = ground arith

-- Over any run of events, whatever the peer sends and however often it sends it again, the numbered
-- packets that a connection hands to the server have rising numbers, all above those before the run,
-- and the connection ends with the last of them.
pub run_delivers_rising :
    (codec : JsonCodec) (events : List Event) (c : Connection)
    → climb c.last_incoming_seq (run codec events c).1
      ≡ some (run codec events c).0.last_incoming_seq
run_delivers_rising codec events c =
    run_rule Climbs Climbs-none Climbs-then codec events c (handle-Climbs codec)
