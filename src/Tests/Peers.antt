-- ===== src/Tests/Peers.antt =====
-- The two ends of a connection, the rate limiter and the sessions at concrete inputs.
use messenger_walkie_talkie.Prelude.{
  ℕ, ◌+◌, ◌-◌, ◌<◌, min, String, ◌≡◌, refl, true, false, List, [], ◌∷◌, none, some, arith, leb,
  differ, inl, inr, string_eq,
}
use messenger_walkie_talkie.Prelude.Int.{pos, negsuc}
use messenger_walkie_talkie.Prelude.Dict.{get}
use messenger_walkie_talkie.Shared.Json.{JsonObject, object, str, num}
use messenger_walkie_talkie.Shared.Frame.{JsonCodec}
use messenger_walkie_talkie.Shared.ReadLoop.{received, bad_crc}
use messenger_walkie_talkie.Server.RateLimiter.{Rule, Entry, Entries, hit, prune_if_full, allow}
use messenger_walkie_talkie.Server.RateLimiter.Entries.{allow_retry_exact}
use messenger_walkie_talkie.Server.RateLimiter.Window.{Call, calls_of, allowed_of, allowed-InWindow}
use messenger_walkie_talkie.Server.Connection.{
  write, packet_received, start, send_tracked, packet_seq, on_arrivals, run, sends_plain, closes,
  loses_socket,
}
use messenger_walkie_talkie.Server.Connection.Delivery.{climb, run_delivers_rising}
use messenger_walkie_talkie.Server.Connection.Once.{closed_count, as_number, run_closed_once}
use messenger_walkie_talkie.Server.Sessions.{Sessions, no_sessions, attach_authenticated_session}
use messenger_walkie_talkie.Server.Sessions.Inverse.{
  IsInverse, no_sessions-IsInverse, attach-IsInverse,
}
use messenger_walkie_talkie.Client.Transport.{
  initial, can_reconnect, prepare_disconnect, schedule_reconnect,
}
use messenger_walkie_talkie.Client.Transport.Reconnect.{
  schedules, connects, apply_ops, prepare_disconnect_final,
}
use messenger_walkie_talkie.Client.Network.{
  NetworkClient, connected_state, process_packet, send_ack,
}
use messenger_walkie_talkie.Link.{reconnected}
use messenger_walkie_talkie.Link.Gaps.{IsPlain, ack_of, resent_after_gap_lost}
use messenger_walkie_talkie.Link.Reconnected.{first_packet, reconnected_drops_first}

abbrev silent : JsonCodec
silent = record { to_json = λ o. []; from_json = λ bytes. none }

abbrev note : ℕ → String → JsonObject
note seq id = object (("type", str "message") ∷ ("id", str id) ∷ ("seq", num (pos seq)) ∷ [])

run_delivers_rising_example :
    climb 0 (run silent (sends_plain (note 1 "a") ∷ closes ∷ []) (start 100)).1
    ≡ some (run silent (sends_plain (note 1 "a") ∷ closes ∷ []) (start 100)).0.last_incoming_seq
unfolding start
run_delivers_rising_example =
    run_delivers_rising silent (sends_plain (note 1 "a") ∷ closes ∷ []) (start 100)

run_closed_once_example :
    closed_count (run silent (closes ∷ loses_socket ∷ []) (start 100)).1
      + as_number (start 100).closed_notified
    ≡ as_number (run silent (closes ∷ loses_socket ∷ []) (start 100)).0.closed_notified
run_closed_once_example = run_closed_once silent (closes ∷ loses_socket ∷ []) (start 100)

note-IsPlain : IsPlain (note 1 "a")
note-IsPlain =
    (differ "message" "ack" refl, differ "message" "pong" refl, differ "message" "ping" refl)

resent_after_gap_lost_example :
    (on_arrivals 500 (bad_crc ∷ received (note 2 "b") ∷ received (note 1 "a") ∷ []) (start 100)).1
    ≡ write (ack_of (note 2 "b")) ∷ packet_received (note 2 "b") ∷ write (ack_of (note 1 "a")) ∷ []
unfolding packet_seq start
resent_after_gap_lost_example =
    resent_after_gap_lost 500 (note 1 "a") (note 2 "b") (start 100) note-IsPlain note-IsPlain
      (differ "a" "" refl) (differ "b" "" refl) (omega arith) (omega arith) (omega arith) refl refl

abbrev client : NetworkClient
client = record {
  transport = record initial { last_incoming_seq = 3 };
  socket = connected_state;
  ping_timer = true;
  retry_timer = true;
  reconnect_timer = false;
}

reconnected_drops_first_example :
    ((send_tracked "" 150 (note 0 "a") (start 100)).1 ≡ write (first_packet (note 0 "a")) ∷ [])
    × (process_packet (λ s. s) 200 (first_packet (note 0 "a")) (reconnected 200 client)
        ≡ (reconnected 200 client, send_ack "a" 1))
reconnected_drops_first_example =
    reconnected_drops_first (λ s. s) (note 0 "a") 100 150 200 client (differ "a" "" refl)
      (differ "message" "ack" refl) (differ "message" "pong" refl) (differ "message" "ping" refl)
      (omega arith)

abbrev twice : Rule
twice = record { max_hits = 2; window_ms = 1000 }

abbrev used : Entries
used = ("k", record { hits = 2; window_started_at_ms = 100; last_seen_at_ms = 200 }) ∷ []

refused : (allow "k" twice 400 used).1.allowed ≡ false
unfolding allow hit prune_if_full get
refused = refl

allow_retry_exact_example :
    (0 < (allow "k" twice 400 used).1.retry_after_ms)
    × ((allow "k" twice (400 + 700) (allow "k" twice 400 used).0).1.allowed
        ≡ leb (allow "k" twice 400 used).1.retry_after_ms 700)
allow_retry_exact_example =
    allow_retry_exact "k" twice 400 700 used (differ "k" "" refl) (omega arith, omega arith)
      (omega arith) (omega arith) refused

abbrev once : Entry
once = record { hits = 1; window_started_at_ms = 100; last_seen_at_ms = 200 }

abbrev calls : List Call
calls =
    record { key = "k"; rule = twice; now = 300 }
    ∷ record { key = "other"; rule = twice; now = 350 }
    ∷ record { key = "k"; rule = twice; now = 400 }
    ∷ []

allowed-InWindow_example :
    allowed_of "k" (("k", once) ∷ []) calls ≡ min (2 - 1) (calls_of "k" calls)
unfolding get
allowed-InWindow_example =
    allowed-InWindow "k" twice 100 once (("k", once) ∷ []) calls refl
      (omega arith, refl, omega arith, omega arith, omega arith)
      (
        (differ "k" "" refl, (omega arith, omega arith), omega arith, omega arith, inr refl),
        (
          (differ "other" "" refl, (omega arith, omega arith), omega arith, omega arith, inl refl),
          (
            (differ "k" "" refl, (omega arith, omega arith), omega arith, omega arith, inr refl),
            tt,
          ),
        ),
      )

abbrev two_users : Sessions
two_users = (attach_authenticated_session 1 "ann" no_sessions).sessions

two_users-IsInverse : IsInverse two_users
two_users-IsInverse =
    attach-IsInverse 1 "ann" no_sessions no_sessions-IsInverse (differ "ann" "" refl)

prepare_disconnect_final_example :
    (can_reconnect (apply_ops (connects 5 ∷ schedules ∷ []) (prepare_disconnect initial)) ≡ false)
    × ((schedule_reconnect (apply_ops (connects 5 ∷ schedules ∷ []) (prepare_disconnect initial))).1
        ≡ negsuc 0)
prepare_disconnect_final_example = prepare_disconnect_final (connects 5 ∷ schedules ∷ []) initial
