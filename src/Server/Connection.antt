-- ===== src/Server/Connection.antt =====
-- Server/connection.h and Server/connection.cpp. What a slot writes, emits and asks of its socket
-- comes back as effects, in order; `now` is the clock at the call and `fresh_id` a new QUuid.
-- Whether the socket is connected is what Qt reports. What goes to the log is left out.
pub mod Rules
pub mod Once
pub mod Delivery
use messenger_walkie_talkie.Prelude.{
  ℕ, ◌+◌, ◌-◌, ◌%◌, ◌^◌, String, Bool, true, false, not, ◌&&◌, ◌||◌, List, [], ◌∷◌, ◌++◌, Option,
  none, some, ltb, leb, if◌then◌else◌, is_empty, ◌==◌, string_eq,
}
use messenger_walkie_talkie.Prelude.Int.{pos}
use messenger_walkie_talkie.Prelude.Dict.{get, put, remove}
use messenger_walkie_talkie.Shared.Json.{
  JsonObject, object, str, num, value, set_field, to_string, to_int_or, to_quint32,
}
use messenger_walkie_talkie.Shared.Frame.{JsonCodec}
use messenger_walkie_talkie.Shared.ReadLoop.{Arrival, received, bad_crc, bad_json, bad_packet, feed}
use messenger_walkie_talkie.Shared.Retry.{Tracked, Pending, track, sweep}

abbrev pong_timeout_ms : ℕ
pong_timeout_ms = 15000

pub data Effect : Type 0 where
  write packet_received tracked_packet_acknowledged : JsonObject → Effect
  closed disconnect_socket delete_socket : Effect

pub record Connection : Type 0 where
  pub has_socket : Bool
  pub is_connected : Bool
  pub buffer : List ℕ
  pub tracked_messages : Pending
  pub retry_timer : Bool
  pub ping_timer : Bool
  pub next_outgoing_seq : ℕ
  pub last_incoming_seq : ℕ
  pub last_pong_at_ms : ℕ
  pub closed_notified : Bool

abbrev pub Handled : Type 0
Handled = Connection × List Effect

-- A connection after its constructor and `start`.
unfoldable pub start : ℕ → Connection
start now = record {
  has_socket = true;
  is_connected = true;
  buffer = [];
  tracked_messages = [];
  retry_timer = true;
  ping_timer = true;
  next_outgoing_seq = 0;
  last_incoming_seq = 0;
  last_pong_at_ms = now;
  closed_notified = false;
}

unfoldable pub send_plain : JsonObject → Connection → List Effect
send_plain packet c = if not c.has_socket || not c.is_connected then [] else write packet ∷ []

unfoldable pub send_tracked : String → ℕ → JsonObject → Connection → Handled
unfolding send_plain
send_tracked fresh_id now packet c =
    let given = to_string (value packet "id") in
    let id = if is_empty given then fresh_id else given in
    let named = if is_empty given then set_field packet "id" (str fresh_id) else packet in
    let seq = (c.next_outgoing_seq + 1) % 2 ^ 32 in
    let numbered = set_field named "seq" (num (pos seq)) in
    (
      record c {
        next_outgoing_seq = seq;
        tracked_messages = put id (track numbered now) c.tracked_messages;
      },
      send_plain numbered c,
    )

unfoldable close_connection : Connection → Handled
close_connection c =
    let stopped : Connection = record c { retry_timer = false; ping_timer = false } in
    if not c.has_socket then (stopped, []) else (
      record stopped { has_socket = false; is_connected = false },
      (if c.is_connected then disconnect_socket ∷ [] else []) ++ delete_socket ∷ [],
    )

unfoldable notify_closed_once : Connection → Handled
notify_closed_once c =
    if c.closed_notified then (c, []) else (record c { closed_notified = true }, closed ∷ [])

unfoldable pub close_and_notify : Connection → Handled
unfolding close_connection notify_closed_once
close_and_notify c =
    let closing = close_connection c in
    let notified = notify_closed_once closing.0 in (notified.0, closing.1 ++ notified.1)

unfoldable pub on_socket_disconnected : Connection → Handled
unfolding notify_closed_once
on_socket_disconnected c = notify_closed_once (record c { is_connected = false })

unfoldable send_ping : Connection → List Effect
unfolding send_plain
send_ping c = send_plain (object (("type", str "ping") ∷ [])) c

unfoldable pub send_ack : String → ℕ → Connection → List Effect
unfolding send_plain
send_ack id seq c =
    if is_empty id
    then []
    else send_plain (object (("type", str "ack") ∷ ("id", str id) ∷ ("seq", num (pos seq)) ∷ [])) c

unfoldable acknowledge : String → Option Tracked → Connection → Handled
acknowledge id none c = (c, [])
acknowledge id (some tracked) c = (
  record c { tracked_messages = remove id c.tracked_messages },
  tracked_packet_acknowledged tracked.payload ∷ [],
)

unfoldable pub packet_seq : JsonObject → ℕ
packet_seq packet = to_quint32 (to_int_or (value packet "seq") (pos 0))

-- The last part of processIncomingPacket, for a packet that is no ack, pong or ping.
unfoldable pub accept_packet : JsonObject → Connection → Handled
unfolding send_ack packet_seq
accept_packet packet c =
    let id = to_string (value packet "id") in
    let seq = packet_seq packet in
    if ltb 0 seq
    then (if leb seq c.last_incoming_seq then (c, send_ack id seq c) else (
      record c { last_incoming_seq = seq },
      send_ack id seq c ++ packet_received packet ∷ [],
    ))
    else (c, packet_received packet ∷ [])

unfoldable pub process_incoming_packet : ℕ → JsonObject → Connection → Handled
unfolding acknowledge accept_packet send_plain
process_incoming_packet now packet c =
    let type = to_string (value packet "type") in
    let id = to_string (value packet "id") in
    if type == "ack"
    then acknowledge id (get id c.tracked_messages) c
    else if type == "pong"
    then (record c { last_pong_at_ms = now }, [])
    else if type == "ping"
    then (c, send_plain (object (("type", str "pong") ∷ [])) c)
    else accept_packet packet c

-- One turn of the loop in onReadyRead.
unfoldable pub on_arrival : ℕ → Arrival → Connection → Handled
unfolding process_incoming_packet close_and_notify
on_arrival now (received packet) c = process_incoming_packet now packet c
on_arrival now bad_crc c = (c, [])
on_arrival now bad_json c = (c, [])
on_arrival now bad_packet c = close_and_notify c

unfoldable pub on_arrivals : ℕ → List Arrival → Connection → Handled
unfolding on_arrival
on_arrivals now [] c = (c, [])
on_arrivals now (a ∷ rest) c =
    let first = on_arrival now a c in
    let others = on_arrivals now rest first.0 in (others.0, first.1 ++ others.1)

unfoldable pub on_ready_read : JsonCodec → ℕ → List ℕ → Connection → Handled
unfolding on_arrivals
on_ready_read codec now chunk c =
    let drained = feed codec c.buffer chunk in
    if not c.has_socket
    then (c, [])
    else on_arrivals now drained.arrivals (record c { buffer = drained.buffer })

abbrev pub writes : List JsonObject → Connection → List Effect
writes [] c = []
writes (p ∷ ps) c = send_plain p c ++ writes ps c

unfoldable pub check_pending_messages : ℕ → Connection → Handled
unfolding close_and_notify send_plain
check_pending_messages now c =
    let swept = sweep now c.tracked_messages in
    let c' : Connection = record c { tracked_messages = swept.pending } in
    let closing = close_and_notify c' in
    if ltb pong_timeout_ms (now - c.last_pong_at_ms)
    then (closing.0, writes swept.resend_packets c ++ closing.1)
    else (c', writes swept.resend_packets c)

-- What may happen to a connection; `Server` makes the calls of `sendPlain`, `sendTracked` and
-- `closeAndNotify` through its event queue.
pub data Event : Type 0 where
  sends_plain : JsonObject → Event
  sends_tracked : String → ℕ → JsonObject → Event
  reads : ℕ → List ℕ → Event
  loses_socket closes pings : Event
  checks : ℕ → Event

unfoldable pub handle : JsonCodec → Event → Connection → Handled
unfolding send_plain send_tracked on_socket_disconnected close_and_notify send_ping
handle codec (sends_plain packet) c = (c, send_plain packet c)
handle codec (sends_tracked fresh_id now packet) c = send_tracked fresh_id now packet c
handle codec (reads now chunk) c = on_ready_read codec now chunk c
handle codec loses_socket c = on_socket_disconnected c
handle codec closes c = close_and_notify c
handle codec pings c = (c, send_ping c)
handle codec (checks now) c = check_pending_messages now c

unfoldable pub run : JsonCodec → List Event → Connection → Handled
run codec [] c = (c, [])
run codec (e ∷ events) c =
    let first = handle codec e c in
    let others = run codec events first.0 in (others.0, first.1 ++ others.1)
