-- ===== src/Client/Network.antt =====
-- Client/networkclient.h and Client/networkclient.cpp. The socket and the timers are Qt's: a handler
-- gives back what it asks of them and what it emits, in order, as effects; the state that the socket
-- reports is set by the environment between the handlers, and a `disconnected` signal that a call
-- of `abort` causes is a later `on_disconnected`. Identifiers and times are arguments.
pub mod Requests
use messenger_walkie_talkie.Prelude.{
  ℕ, ◌+◌, ◌/◌, min, max, String, Bool, true, false, not, ◌&&◌, ◌||◌, List, [], ◌∷◌, ◌++◌, none,
  some, map, ltb, if◌then◌else◌, is_empty, ◌==◌, string_eq,
}
use messenger_walkie_talkie.Prelude.Int.{ℤ, pos, negsuc}
use messenger_walkie_talkie.Shared.Json.{
  JsonObject, object, str, num, bool, value, set_field, to_string, to_int_or, to_quint32,
}
use messenger_walkie_talkie.Shared.Auth.{
  normalize_username, make_resume_session_packet, make_logout_packet,
}
use messenger_walkie_talkie.Shared.Frame.{JsonCodec}
use messenger_walkie_talkie.Shared.ReadLoop.{Arrival, received, bad_crc, bad_json, bad_packet, feed}
use messenger_walkie_talkie.Client.Dispatcher.{Signal, Dispatched, invalid_packet, dispatch}
use messenger_walkie_talkie.Client.Transport.{
  Transport, start_connection, prepare_disconnect, can_reconnect, consume_manual_disconnect,
  schedule_reconnect, mark_connected, mark_pong_received, is_heartbeat_expired,
  next_outgoing_sequence, is_duplicate_incoming_sequence, mark_incoming_sequence,
  track_tracked_packet, acknowledge_tracked_packet, collect_tracked_retry_actions,
}

pub data SocketState : Type 0 where
  unconnected_state connecting_state connected_state closing_state : SocketState

abbrev pub is_unconnected : SocketState → Bool
is_unconnected unconnected_state = true
is_unconnected _ = false

abbrev pub is_connected_state : SocketState → Bool
is_connected_state connected_state = true
is_connected_state _ = false

pub data Status : Type 0 where
  connecting_to connected_to : String → ℕ → Status
  disconnected heartbeat_timeout : Status
  reconnecting_in : String → ℕ → ℕ → Status

pub data Effect : Type 0 where
  write : JsonObject → Effect
  connect_to_host : String → ℕ → Effect
  abort disconnect_from_host flush : Effect
  status_changed : Status → Effect
  socket_connected socket_disconnected : Effect
  reconnect_scheduled : ℕ → Effect
  emitted : Signal → Effect
  transport_error : String → Effect

pub record NetworkClient : Type 0 where
  pub transport : Transport
  pub socket : SocketState
  pub ping_timer : Bool
  pub retry_timer : Bool
  pub reconnect_timer : Bool

abbrev pub Handled : Type 0
Handled = NetworkClient × List Effect

unfoldable pub start_connect_attempt : NetworkClient → List Effect
start_connect_attempt c =
    status_changed (connecting_to c.transport.host c.transport.port)
    ∷ connect_to_host c.transport.host c.transport.port
    ∷ []

unfoldable pub connect_to_server : (String → String) → String → ℕ → NetworkClient → Handled
unfolding start_connect_attempt
connect_to_server trimmed host port c =
    let c' : NetworkClient = record c {
      transport = start_connection trimmed host port c.transport;
      ping_timer = false;
      retry_timer = false;
      reconnect_timer = false;
    } in
    (c', abort ∷ start_connect_attempt c')

-- `closed` says whether disconnectFromHost left the socket unconnected.
unfoldable pub disconnect_from_server : Bool → NetworkClient → Handled
disconnect_from_server closed c =
    let c' : NetworkClient = record c {
      transport = prepare_disconnect c.transport;
      ping_timer = false;
      retry_timer = false;
      reconnect_timer = false;
    } in
    if is_unconnected c.socket
    then (c', status_changed disconnected ∷ [])
    else (c', disconnect_from_host ∷ (if closed then [] else abort ∷ []))

unfoldable schedule_if_idle : NetworkClient → Transport × ℤ → Handled
schedule_if_idle c (t, negsuc n) = (record c { transport = t }, [])
schedule_if_idle c (t, pos delay) =
    let c' : NetworkClient = record c { transport = t; reconnect_timer = ltb 0 delay } in
    if ltb 0 delay
    then (
      c',
      reconnect_scheduled delay
          ∷ status_changed (reconnecting_in t.host t.port ((delay + 999) / 1000))
          ∷ [],
    )
    else (record c { transport = t }, [])

-- NetworkClient::scheduleReconnect
unfoldable pub schedule_reconnect_timer : NetworkClient → Handled
unfolding schedule_if_idle
schedule_reconnect_timer c =
    if not (can_reconnect c.transport) || c.reconnect_timer
    then (c, [])
    else schedule_if_idle c (schedule_reconnect c.transport)

unfoldable pub on_connected : ℕ → NetworkClient → Handled
on_connected now c = (
  record c {
    transport = mark_connected now c.transport;
    reconnect_timer = false;
    ping_timer = true;
    retry_timer = true;
  },
  socket_connected ∷ status_changed (connected_to c.transport.host c.transport.port) ∷ [],
)

unfoldable pub on_disconnected : NetworkClient → Handled
unfolding schedule_reconnect_timer
on_disconnected c =
    let (t, manual) = consume_manual_disconnect c.transport in
    let c' : NetworkClient = record c { transport = t; ping_timer = false; retry_timer = false } in
    let scheduled = schedule_reconnect_timer c' in
    if manual
    then (c', socket_disconnected ∷ status_changed disconnected ∷ [])
    else (scheduled.0, socket_disconnected ∷ scheduled.1)

unfoldable on_socket_error : String → NetworkClient → Handled
unfolding schedule_reconnect_timer
on_socket_error error c =
    let scheduled = schedule_reconnect_timer c in
    if can_reconnect c.transport && is_unconnected c.socket
    then (scheduled.0, transport_error error ∷ scheduled.1)
    else (c, transport_error error ∷ [])

unfoldable pub reconnect_if_needed : NetworkClient → Handled
unfolding start_connect_attempt
reconnect_if_needed c =
    if not (can_reconnect c.transport)
    then (c, [])
    else if is_unconnected c.socket
    then (c, start_connect_attempt c)
    else (c, [])

unfoldable retry_pending_messages : ℕ → NetworkClient → Handled
retry_pending_messages now c =
    let (t, actions) = collect_tracked_retry_actions now c.transport in
    (
      record c { transport = t },
      map (λ id. transport_error id) actions.dropped_message_ids
          ++ (map write actions.resend_packets
              ++ (if is_connected_state c.socket && is_heartbeat_expired now t
                  then status_changed heartbeat_timeout ∷ abort ∷ []
                  else [])),
    )

-- `fresh_id` is the new QUuid.
unfoldable pub send_tracked :
    String → ℕ → JsonObject → NetworkClient → NetworkClient × List Effect × String
send_tracked fresh_id now body c =
    let given = to_string (value body "id") in
    let id = if is_empty given then fresh_id else given in
    let named = if is_empty given then set_field body "id" (str fresh_id) else body in
    let (t, seq) = next_outgoing_sequence c.transport in
    let numbered = set_field named "seq" (num (pos seq)) in
    (record c { transport = track_tracked_packet id numbered now t }, write numbered ∷ [], id)

unfoldable pub send_ack : String → ℕ → List Effect
send_ack id seq =
    if is_empty id
    then []
    else write (object (("type", str "ack") ∷ ("id", str id) ∷ ("seq", num (pos seq)) ∷ [])) ∷ []

abbrev from_dispatched : Dispatched → List Effect
from_dispatched d =
    (elim d.emitted [ none ↦ [] | some signal ↦ emitted signal ∷ [] ])
    ++ (elim d.result [ invalid_packet ↦ transport_error d.error_message ∷ [] | _ ↦ [] ])

-- NetworkClient::processPacket
unfoldable pub process_packet : (String → String) → ℕ → JsonObject → NetworkClient → Handled
unfolding send_ack
process_packet trimmed now packet c =
    let type = to_string (value packet "type") in
    let id = to_string (value packet "id") in
    let seq = to_quint32 (to_int_or (value packet "seq") (pos 0)) in
    if type == "ack"
    then (record c { transport = acknowledge_tracked_packet id c.transport }, [])
    else if type == "pong"
    then (record c { transport = mark_pong_received now c.transport }, [])
    else if type == "ping"
    then (c, write (object (("type", str "pong") ∷ [])) ∷ [])
    else if ltb 0 seq
    then (if is_duplicate_incoming_sequence seq c.transport then (c, send_ack id seq) else (
      record c { transport = mark_incoming_sequence seq c.transport },
      send_ack id seq ++ from_dispatched (dispatch trimmed packet),
    ))
    else (c, from_dispatched (dispatch trimmed packet))

-- One turn of the loop in NetworkClient::onReadyRead.
unfoldable pub on_arrival : (String → String) → ℕ → Arrival → NetworkClient → Handled
unfolding process_packet
on_arrival trimmed now (received p) c = process_packet trimmed now p c
on_arrival trimmed now bad_crc c = (c, transport_error "CRC mismatch" ∷ [])
on_arrival trimmed now bad_json c = (c, transport_error "Invalid JSON packet" ∷ [])
on_arrival trimmed now bad_packet c = (c, transport_error "Invalid packet" ∷ abort ∷ [])

unfoldable pub on_arrivals : (String → String) → ℕ → List Arrival → NetworkClient → Handled
unfolding on_arrival
on_arrivals trimmed now [] c = (c, [])
on_arrivals trimmed now (a ∷ rest) c =
    let first = on_arrival trimmed now a c in
    let others = on_arrivals trimmed now rest first.0 in (others.0, first.1 ++ others.1)

unfoldable pub on_ready_read : JsonCodec → (String → String) → ℕ → List ℕ → NetworkClient → Handled
unfolding on_arrivals
on_ready_read codec trimmed now chunk c =
    let drained = feed codec c.transport.buffer chunk in
    on_arrivals trimmed now drained.arrivals
      (record c { transport = record c.transport { buffer = drained.buffer } })
