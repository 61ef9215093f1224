-- ===== src/Tests/Wire.antt =====
-- The frames, the read loop and the retries at concrete inputs.
use messenger_walkie_talkie.Prelude.{
  ℕ, ◌+◌, ◌<◌, ◌≡◌, ◌≢◌, Bool, refl, List, [], ◌∷◌, ◌++◌, Option, none, some, map, arith, take,
  drop, length, eqb, if◌then◌else◌, ◌==◌, string_eq,
}
use messenger_walkie_talkie.Prelude.Dict.{get, put, IsDistinct}
use messenger_walkie_talkie.Shared.Json.{JsonObject, end, object, str, value, to_string}
use messenger_walkie_talkie.Shared.Frame.{
  JsonCodec, ok, crc_mismatch, crc_bit, crc_bits, crc_bytes, crc32, write_be32, frame,
  encode_packet, try_decode, max_payload_size,
}
use messenger_walkie_talkie.Shared.Frame.Bytes.{raw_frame}
use messenger_walkie_talkie.Shared.Frame.Checksum.{crc_32}
use messenger_walkie_talkie.Shared.Frame.RoundTrip.{try_decode-encode_packet, try_decode-corrupted}
use messenger_walkie_talkie.Shared.Frame.Progress.{Progress, try_decode-Progress}
use messenger_walkie_talkie.Shared.ReadLoop.{received, drain, feed_all}
use messenger_walkie_talkie.Shared.ReadLoop.Fuel.{drain_enough}
use messenger_walkie_talkie.Shared.ReadLoop.Fragments.{wire, concat, feed_all-wire}
use messenger_walkie_talkie.Shared.Retry.{Pending, track}
use messenger_walkie_talkie.Shared.Retry.Budget.{passes, resent, count, track_life}

abbrev ping : JsonObject
ping = object (("type", str "ping") ∷ [])

abbrev pong : JsonObject
pong = object (("type", str "pong") ∷ [])

-- A codec of two packets.
abbrev tiny_parse : List ℕ → Option JsonObject
tiny_parse (b ∷ []) = if eqb b 1 then some ping else none
tiny_parse _ = some pong

abbrev tiny : JsonCodec
tiny = record {
  to_json = λ o. if to_string (value o "type") == "ping" then 1 ∷ [] else 2 ∷ 200 ∷ [];
  from_json = tiny_parse;
}

abbrev stream : List ℕ
stream = wire tiny (ping ∷ pong ∷ [])

abbrev chunks : List (List ℕ)
chunks = take 5 stream ∷ [] ∷ take 9 (drop 5 stream) ∷ drop 14 stream ∷ []

chunks-concat : concat tiny chunks ≡ stream
unfolding encode_packet frame crc32 crc_bytes crc_bits crc_bit write_be32
chunks-concat = refl

feed_all-wire_example :
    feed_all tiny [] chunks ≡ record { arrivals = map received (ping ∷ pong ∷ []); buffer = [] }
feed_all-wire_example =
    feed_all-wire tiny (ping ∷ pong ∷ []) chunks ((omega arith, refl), ((omega arith, refl), tt))
      chunks-concat

try_decode-encode_packet_example :
    try_decode tiny (encode_packet tiny ping ++ (7 ∷ 7 ∷ [])) end
    ≡ record { status = ok; buffer = 7 ∷ 7 ∷ []; object = ping }
try_decode-encode_packet_example =
    try_decode-encode_packet tiny ping end (7 ∷ 7 ∷ []) (omega arith) refl

try_decode-corrupted_example :
    (5 ≢ crc_32 (1 ∷ [])
      → try_decode tiny (raw_frame (1 ∷ []) 5 ++ (7 ∷ [])) end
        ≡ record { status = crc_mismatch; buffer = 7 ∷ []; object = end })
    × (5 ≡ crc_32 (1 ∷ [])
        → (try_decode tiny (raw_frame (1 ∷ []) 5 ++ (7 ∷ [])) end).status ≢ crc_mismatch)
try_decode-corrupted_example =
    try_decode-corrupted tiny (1 ∷ []) (7 ∷ []) 5 end (omega arith) (omega arith) (omega arith, tt)

try_decode-Progress_example :
    Progress tiny
      (0 ∷ 9 ∷ 9 ∷ 9 ∷ 9 ∷ 9 ∷ 9 ∷ 9 ∷ [])
      end
      (try_decode tiny (0 ∷ 9 ∷ 9 ∷ 9 ∷ 9 ∷ 9 ∷ 9 ∷ 9 ∷ []) end)
try_decode-Progress_example = try_decode-Progress tiny (0 ∷ 9 ∷ 9 ∷ 9 ∷ 9 ∷ 9 ∷ 9 ∷ 9 ∷ []) end

drain_enough_example :
    (drain tiny 5 (0 ∷ 1 ∷ []) ≡ drain tiny 9 (0 ∷ 1 ∷ []))
    × (length (drain tiny 5 (0 ∷ 1 ∷ [])).buffer < 4 + max_payload_size + 4)
drain_enough_example = drain_enough tiny 5 9 (0 ∷ 1 ∷ []) (omega arith) (omega arith)

abbrev pending : Pending
pending =
    ("a", record { payload = ping; retries = 1; retry_at_ms = 100 })
    ∷ ("b", record { payload = pong; retries = 5; retry_at_ms = 100 })
    ∷ []

pending-IsDistinct : IsDistinct pending
unfolding get
pending-IsDistinct = (refl, (refl, tt))

abbrev six : List ℕ
six = 2100 ∷ 34100 ∷ 66100 ∷ 98100 ∷ 130100 ∷ 162100 ∷ []

no_c : get "c" pending ≡ none
unfolding get
no_c = refl

track_life_example :
    (get "c" (passes six (put "c" (track ping 100) pending)) ≡ none)
    × ((test : JsonObject → Bool)
        → count test (resent six (put "c" (track ping 100) pending))
          ≡ count test (resent six pending) + (if test ping then 5 else 0))
track_life_example =
    track_life "c" six pending ping 100 pending-IsDistinct no_c
      (omega arith, (omega arith, (omega arith, (omega arith, (omega arith, (omega arith, tt))))))
      refl
