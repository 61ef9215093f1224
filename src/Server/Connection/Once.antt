-- ===== src/Server/Connection/Once.antt =====
-- The `closed` signal of Server/connection.cpp.
use messenger_walkie_talkie.Prelude.{
  ℕ, suc, ◌+◌, ◌≡◌, refl, Bool, List, [], ◌∷◌, ◌++◌, arith, if◌then◌else◌,
}
use messenger_walkie_talkie.Shared.Json.{JsonObject}
use messenger_walkie_talkie.Shared.Frame.{JsonCodec}
use messenger_walkie_talkie.Shared.Retry.{sweep}
use messenger_walkie_talkie.Shared.ReadLoop.{Arrival, received, bad_packet, feed}
use messenger_walkie_talkie.Server.Connection.{
  Connection, Effect, closed, Event, reads, closes, checks, send_plain, writes,
  process_incoming_packet, close_and_notify, on_arrival, on_ready_read, check_pending_messages,
  handle, run,
}
use messenger_walkie_talkie.Server.Connection.Rules.{on_arrivals_rule, run_rule}

abbrev pub closed_count : List Effect → ℕ
closed_count [] = 0
closed_count (closed ∷ es) = suc (closed_count es)
closed_count (_ ∷ es) = closed_count es

closed_count-append :
    (xs ys : List Effect) → closed_count (xs ++ ys) ≡ closed_count xs + closed_count ys
closed_count-append [] ys = omega arith
closed_count-append (closed ∷ xs) ys = omega (arith, closed_count-append xs ys)
closed_count-append (_ ∷ xs) ys = closed_count-append xs ys

abbrev pub as_number : Bool → ℕ
as_number b = if b then 1 else 0

-- The flag says whether the signal has been given.
abbrev Counts : Connection → List Effect → Connection → Type 0
Counts c es d = closed_count es + as_number c.closed_notified ≡ as_number d.closed_notified

Counts-none : (c : Connection) → Counts c [] c
Counts-none c = omega arith

Counts-then :
    (c d e : Connection) (xs ys : List Effect)
    → Counts c xs d
    → Counts d ys e
    → Counts c (xs ++ ys) e
Counts-then c d e xs ys p q = omega (arith, closed_count-append xs ys)

closed_count-send_plain : (p : JsonObject) (c : Connection) → closed_count (send_plain p c) ≡ 0
unfolding send_plain
closed_count-send_plain p c = ground arith

closed_count-writes : (ps : List JsonObject) (c : Connection) → closed_count (writes ps c) ≡ 0
closed_count-writes [] c = refl
closed_count-writes (p ∷ ps) c = omega (
  arith,
  closed_count-append (send_plain p c) (writes ps c),
  closed_count-send_plain p c,
  closed_count-writes ps c,
)

close_and_notify-Counts : (c : Connection) → Counts c (close_and_notify c).1 (close_and_notify c).0
unfolding close_and_notify
close_and_notify-Counts c = ground arith

process-Counts :
    (now : ℕ) (p : JsonObject) (c : Connection)
    → Counts c (process_incoming_packet now p c).1 (process_incoming_packet now p c).0
unfolding process_incoming_packet
process-Counts now p c = ground arith

on_arrival-Counts :
    (now : ℕ) (a : Arrival) (c : Connection)
    → Counts c (on_arrival now a c).1 (on_arrival now a c).0
unfolding on_arrival
on_arrival-Counts now (received p) c = process-Counts now p c
on_arrival-Counts now bad_packet c = close_and_notify-Counts c
on_arrival-Counts now _ c = omega arith

on_ready_read-Counts :
    (codec : JsonCodec) (now : ℕ) (chunk : List ℕ) (c : Connection)
    → Counts c (on_ready_read codec now chunk c).1 (on_ready_read codec now chunk c).0
unfolding on_ready_read
on_ready_read-Counts codec now chunk c =
    let d : Connection = record c { buffer = (feed codec c.buffer chunk).buffer } in
    ground (
      arith,
      on_arrivals_rule Counts Counts-none Counts-then now (feed codec c.buffer chunk).arrivals d
          (on_arrival-Counts now),
    )

check-Counts :
    (now : ℕ) (c : Connection)
    → Counts c (check_pending_messages now c).1 (check_pending_messages now c).0
unfolding check_pending_messages
check-Counts now c =
    let swept = sweep now c.tracked_messages in
    let c' : Connection = record c { tracked_messages = swept.pending } in
    ground (
      arith,
      closed_count-writes swept.resend_packets c,
      close_and_notify-Counts c',
      closed_count-append (writes swept.resend_packets c) (close_and_notify c').1,
    )

handle-Counts :
    (codec : JsonCodec) (e : Event) (c : Connection)
    → Counts c (handle codec e c).1 (handle codec e c).0
unfolding handle
handle-Counts codec (reads now chunk) c = on_ready_read-Counts codec now chunk c
handle-Counts codec (checks now) c = check-Counts now c
handle-Counts codec closes c = close_and_notify-Counts c
handle-Counts codec _ c = ground arith

-- Over any run of events a connection emits `closed` at most once, never once it has been emitted,
-- and exactly if the run sets the flag that it has been.
pub run_closed_once :
    (codec : JsonCodec) (events : List Event) (c : Connection)
    → closed_count (run codec events c).1 + as_number c.closed_notified
      ≡ as_number (run codec events c).0.closed_notified
run_closed_once codec events c =
    run_rule Counts Counts-none Counts-then codec events c (handle-Counts codec)
