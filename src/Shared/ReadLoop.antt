-- ===== src/Shared/ReadLoop.antt =====
-- The loop `while (true) { tryDecode ... }` of Connection::onReadyRead (Server/connection.cpp) and
-- of NetworkClient::onReadyRead (Client/networkclient.cpp). What the two do with an arrival is in
-- their own modules; neither touches the buffer there.
pub mod Fuel
pub mod Fragments
use messenger_walkie_talkie.Prelude.{ℕ, zero, suc, List, [], ◌∷◌, ◌++◌, length}
use messenger_walkie_talkie.Shared.Json.{JsonObject, end}
use messenger_walkie_talkie.Shared.Frame.{
  JsonCodec, Decoded, DecodeStatus, need_more_data, ok, invalid_packet, crc_mismatch, invalid_json,
  try_decode,
}

-- What a turn of the loop meets; `bad_packet` ends the loop.
pub data Arrival : Type 0 where
  received : JsonObject → Arrival
  bad_crc bad_json bad_packet : Arrival

pub record Drained : Type 0 where
  pub arrivals : List Arrival
  pub buffer : List ℕ

abbrev pub arrive : Arrival → Drained → Drained
arrive a d = record d { arrivals = a ∷ d.arrivals }

module _ (codec : JsonCodec) where
  -- The rounds left are the first argument.
  unfoldable pub drain : ℕ → List ℕ → Drained
  drain zero buffer = record { arrivals = []; buffer = buffer }
  drain (suc fuel) buffer =
      let decoded = try_decode codec buffer end in
      elim decoded.status [
        | need_more_data ↦ record { arrivals = []; buffer = decoded.buffer }
        | crc_mismatch ↦ arrive bad_crc (drain fuel decoded.buffer)
        | invalid_packet ↦ record { arrivals = bad_packet ∷ []; buffer = decoded.buffer }
        | invalid_json ↦ arrive bad_json (drain fuel decoded.buffer)
        | ok ↦ arrive (received decoded.object) (drain fuel decoded.buffer)
      ]

  -- One readyRead: `m_buffer.append(m_socket->readAll())` and the loop.
  unfoldable pub feed : List ℕ → List ℕ → Drained
  feed buffer chunk = drain (suc (length (buffer ++ chunk))) (buffer ++ chunk)

  -- Several, one after the other.
  unfoldable pub feed_all : List ℕ → List (List ℕ) → Drained
  feed_all buffer [] = record { arrivals = []; buffer = buffer }
  feed_all buffer (chunk ∷ chunks) =
      let first = feed buffer chunk in
      let rest = feed_all first.buffer chunks in
      record { arrivals = first.arrivals ++ rest.arrivals; buffer = rest.buffer }
