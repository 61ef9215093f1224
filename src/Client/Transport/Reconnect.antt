-- ===== src/Client/Transport/Reconnect.antt =====
-- When the client reconnects by itself, and after what delay.
use messenger_walkie_talkie.Prelude.{
  ℕ, zero, suc, ◌+◌, ◌*◌, ◌^◌, min, String, ◌≡◌, refl, false, List, [], ◌∷◌, arith, get_or,
  if◌then◌else◌,
}
use messenger_walkie_talkie.Prelude.Int.{pos, negsuc}
use messenger_walkie_talkie.Shared.Json.{JsonObject}
use messenger_walkie_talkie.Client.Transport.{
  Transport, prepare_disconnect, can_reconnect, consume_manual_disconnect, schedule_reconnect,
  mark_connected, mark_pong_received, next_outgoing_sequence, mark_incoming_sequence,
  track_tracked_packet, acknowledge_tracked_packet, collect_tracked_retry_actions,
  reconnect_schedule_ms,
}

-- A second, doubled with each attempt since the last connection, up to 32 s.
abbrev backoff_ms : ℕ → ℕ
backoff_ms attempt = 1000 * 2 ^ min attempt 5

schedule-backoff :
    (attempt : ℕ) → get_or reconnect_schedule_ms (min attempt 5) 0 ≡ backoff_ms attempt
schedule-backoff zero = refl
schedule-backoff (suc zero) = refl
schedule-backoff (suc (suc zero)) = refl
schedule-backoff (suc (suc (suc zero))) = refl
schedule-backoff (suc (suc (suc (suc zero)))) = refl
schedule-backoff (suc (suc (suc (suc (suc n))))) =
    let e : min (suc (suc (suc (suc (suc n))))) 5 ≡ 5 = omega arith in rw e

-- Where reconnecting is on, the delay is a second doubled with each attempt so far, up to 32 s,
-- and the attempt is counted; where it is off, the answer is -1 and nothing changes.
schedule_reconnect_lem :
    (t : Transport)
    → schedule_reconnect t ≡ (
        if can_reconnect t
        then (
          record t { reconnect_attempt = t.reconnect_attempt + 1 },
          pos (backoff_ms t.reconnect_attempt),
        )
        else (t, negsuc 0))
unfolding schedule_reconnect
schedule_reconnect_lem t = ground (arith, schedule-backoff t.reconnect_attempt)

-- Every call that the client makes on its transport state, but startConnection.
pub data Op : Type 0 where
  prepares consumes schedules : Op
  connects pongs collects : ℕ → Op
  numbers : Op
  marks : ℕ → Op
  tracks : String → JsonObject → ℕ → Op
  acknowledges : String → Op

unfoldable pub apply_op : Op → Transport → Transport
apply_op prepares t = prepare_disconnect t
apply_op consumes t = (consume_manual_disconnect t).0
apply_op schedules t = (schedule_reconnect t).0
apply_op (connects now) t = mark_connected now t
apply_op (pongs now) t = mark_pong_received now t
apply_op (collects now) t = (collect_tracked_retry_actions now t).0
apply_op numbers t = (next_outgoing_sequence t).0
apply_op (marks seq) t = mark_incoming_sequence seq t
apply_op (tracks id packet now) t = track_tracked_packet id packet now t
apply_op (acknowledges id) t = acknowledge_tracked_packet id t

unfoldable pub apply_ops : List Op → Transport → Transport
apply_ops [] t = t
apply_ops (op ∷ ops) t = apply_ops ops (apply_op op t)

apply_op-off :
    (op : Op) (t : Transport)
    → t.reconnect_enabled ≡ false
    → (apply_op op t).reconnect_enabled ≡ false
unfolding apply_op prepare_disconnect consume_manual_disconnect schedule_reconnect mark_connected
    mark_pong_received collect_tracked_retry_actions next_outgoing_sequence mark_incoming_sequence
    track_tracked_packet acknowledge_tracked_packet
apply_op-off consumes t h = ground arith
apply_op-off _ t h = ground arith

apply_ops-off :
    (ops : List Op) (t : Transport)
    → t.reconnect_enabled ≡ false
    → (apply_ops ops t).reconnect_enabled ≡ false
unfolding apply_ops
apply_ops-off [] t h = h
apply_ops-off (op ∷ ops) t h = apply_ops-off ops (apply_op op t) (apply_op-off op t h)

-- After a disconnect by the user no sequence of calls, the signals of the dying connection included,
-- makes the client reconnect, until startConnection is called.
pub prepare_disconnect_final :
    (ops : List Op) (t : Transport)
    → (can_reconnect (apply_ops ops (prepare_disconnect t)) ≡ false)
      × ((schedule_reconnect (apply_ops ops (prepare_disconnect t))).1 ≡ negsuc 0)
unfolding schedule_reconnect
prepare_disconnect_final ops t =
    let off = apply_ops-off ops (prepare_disconnect t) (unfold prepare_disconnect in refl) in
    (ground arith, ground arith)
