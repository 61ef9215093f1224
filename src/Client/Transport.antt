-- ===== src/Client/Transport.antt =====
-- Client/networktransportstate.h and Client/networktransportstate.cpp: what the client keeps of a
-- connection. `trimmed` stands for QString::trimmed; the counter of attempts does not wrap.
pub mod Reconnect
use messenger_walkie_talkie.Prelude.{
  ℕ, suc, ◌+◌, ◌-◌, ◌%◌, ◌^◌, min, String, Bool, true, false, not, ◌&&◌, List, [], ◌∷◌, length, ltb,
  leb, eqb, if◌then◌else◌, is_empty, get_or, string_eq,
}
use messenger_walkie_talkie.Prelude.Int.{ℤ, pos, negsuc}
use messenger_walkie_talkie.Prelude.Dict.{put, remove}
use messenger_walkie_talkie.Shared.Json.{JsonObject}
use messenger_walkie_talkie.Shared.Retry.{Pending, track, Swept, sweep}

abbrev pub reconnect_schedule_ms : List ℕ
reconnect_schedule_ms = 1000 ∷ 2000 ∷ 4000 ∷ 8000 ∷ 16000 ∷ 32000 ∷ []

abbrev heartbeat_timeout_ms : ℕ
heartbeat_timeout_ms = 15000

pub record Transport : Type 0 where
  pub buffer : List ℕ
  pub tracked_packets : Pending
  pub next_outgoing_seq : ℕ
  pub last_incoming_seq : ℕ
  pub last_pong_at_ms : ℕ
  pub host : String
  pub port : ℕ
  pub manual_disconnect : Bool
  pub reconnect_enabled : Bool
  pub reconnect_attempt : ℕ

abbrev pub initial : Transport
initial = record {
  buffer = [];
  tracked_packets = [];
  next_outgoing_seq = 0;
  last_incoming_seq = 0;
  last_pong_at_ms = 0;
  host = "127.0.0.1";
  port = 5555;
  manual_disconnect = false;
  reconnect_enabled = true;
  reconnect_attempt = 0;
}

unfoldable pub normalized_port : ℕ → ℕ
normalized_port port = if eqb port 0 then 5555 else port

module _ (trimmed : String → String) where
  unfoldable pub normalized_host : String → String
  normalized_host host = if is_empty (trimmed host) then "127.0.0.1" else trimmed host

  unfoldable pub start_connection : String → ℕ → Transport → Transport
  unfolding normalized_host normalized_port
  start_connection host port t = record t {
    host = normalized_host host;
    port = normalized_port port;
    manual_disconnect = false;
    reconnect_enabled = true;
    reconnect_attempt = 0;
    buffer = [];
    tracked_packets = [];
    next_outgoing_seq = 0;
    last_incoming_seq = 0;
    last_pong_at_ms = 0;
  }

unfoldable pub prepare_disconnect : Transport → Transport
prepare_disconnect t = record t {
  manual_disconnect = true;
  reconnect_enabled = false;
  tracked_packets = [];
  buffer = [];
}

unfoldable pub can_reconnect : Transport → Bool
can_reconnect t = t.reconnect_enabled && not t.manual_disconnect

unfoldable pub consume_manual_disconnect : Transport → Transport × Bool
consume_manual_disconnect t =
    if not t.manual_disconnect then (t, false) else (record t { manual_disconnect = false }, true)

-- The delay in ms, or -1.
unfoldable pub schedule_reconnect : Transport → Transport × ℤ
unfolding can_reconnect
schedule_reconnect t =
    if not (can_reconnect t)
    then (t, negsuc 0)
    else let index = min t.reconnect_attempt (length reconnect_schedule_ms - 1) in
      (
        record t { reconnect_attempt = t.reconnect_attempt + 1 },
        pos (get_or reconnect_schedule_ms index 0),
      )

unfoldable pub mark_connected : ℕ → Transport → Transport
mark_connected now t = record t { reconnect_attempt = 0; last_pong_at_ms = now }

unfoldable pub mark_pong_received : ℕ → Transport → Transport
mark_pong_received now t = record t { last_pong_at_ms = now }

unfoldable pub is_heartbeat_expired : ℕ → Transport → Bool
is_heartbeat_expired now t =
    ltb 0 t.last_pong_at_ms && ltb heartbeat_timeout_ms (now - t.last_pong_at_ms)

-- `++m_nextOutgoingSeq` on a quint32.
unfoldable pub next_outgoing_sequence : Transport → Transport × ℕ
next_outgoing_sequence t =
    let seq = (t.next_outgoing_seq + 1) % 2 ^ 32 in (record t { next_outgoing_seq = seq }, seq)

unfoldable pub is_duplicate_incoming_sequence : ℕ → Transport → Bool
is_duplicate_incoming_sequence seq t = ltb 0 seq && leb seq t.last_incoming_seq

unfoldable pub mark_incoming_sequence : ℕ → Transport → Transport
mark_incoming_sequence seq t =
    if ltb t.last_incoming_seq seq then record t { last_incoming_seq = seq } else t

unfoldable pub track_tracked_packet : String → JsonObject → ℕ → Transport → Transport
track_tracked_packet id packet now t = record t {
  tracked_packets = put id (track packet now) t.tracked_packets;
}

unfoldable pub acknowledge_tracked_packet : String → Transport → Transport
acknowledge_tracked_packet id t = record t { tracked_packets = remove id t.tracked_packets }

-- The state after the pass, and what the pass resends and drops.
unfoldable pub collect_tracked_retry_actions : ℕ → Transport → Transport × Swept
collect_tracked_retry_actions now t =
    let swept = sweep now t.tracked_packets in (record t { tracked_packets = swept.pending }, swept)

unfoldable pending_tracked_count : Transport → ℕ
pending_tracked_count t = length t.tracked_packets
