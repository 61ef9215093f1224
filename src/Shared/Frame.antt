-- ===== src/Shared/Frame.antt =====
-- Shared/transportprotocol.h: [4 bytes size][payload][4 bytes CRC32], a stream of bytes as a list
-- of numbers below 256. The big-endian quint32 is QDataStream's default; QJsonDocument's
-- toJson and fromJson are the fields of `JsonCodec`.
pub mod Bytes
pub mod RoundTrip
pub mod Progress
pub mod Checksum
use messenger_walkie_talkie.Prelude.{
  ℕ, zero, suc, ◌+◌, ◌-◌, ◌*◌, ◌/◌, ◌%◌, ◌^◌, Bool, true, false, not, List, [], ◌∷◌, ◌++◌, Option,
  none, some, bit_and, bit_xor, ltb, eqb, if◌then◌else◌, length, take, drop,
}
use messenger_walkie_talkie.Shared.Json.{JsonObject, end}

abbrev header_size : ℕ
header_size = 4

abbrev footer_size : ℕ
footer_size = 4

abbrev pub max_payload_size : ℕ
max_payload_size = 256 * 1024

pub data DecodeStatus : Type 0 where
  need_more_data ok invalid_packet crc_mismatch invalid_json : DecodeStatus

-- `to_json` is toJson(Compact); `from_json` gives `none` where the document is no object.
pub record JsonCodec : Type 0 where
  pub to_json : JsonObject → List ℕ
  pub from_json : List ℕ → Option JsonObject

-- static_cast<quint32>(byte) of a signed char.
abbrev widen : ℕ → ℕ
widen byte = if ltb byte 128 then byte else byte + 0xFFFFFF00

-- One turn of the inner loop.
unfoldable pub crc_bit : ℕ → ℕ
crc_bit crc =
    let mask = (2 ^ 32 - bit_and crc 1) % 2 ^ 32 in bit_xor (crc / 2) (bit_and 0xEDB88320 mask)

unfoldable pub crc_bits : ℕ → ℕ → ℕ
unfolding crc_bit
crc_bits zero crc = crc
crc_bits (suc i) crc = crc_bits i (crc_bit crc)

unfoldable pub crc_bytes : List ℕ → ℕ → ℕ
unfolding crc_bits
crc_bytes [] crc = crc
crc_bytes (byte ∷ bytes) crc = crc_bytes bytes (crc_bits 8 (bit_xor crc (widen byte)))

-- crc32; `~crc` is the distance from the largest quint32.
unfoldable pub crc32 : List ℕ → ℕ
unfolding crc_bytes
crc32 bytes = 0xFFFFFFFF - crc_bytes bytes 0xFFFFFFFF

-- stream << quint32
unfoldable pub write_be32 : ℕ → List ℕ
write_be32 n = n / 2 ^ 24 % 256 ∷ n / 2 ^ 16 % 256 ∷ n / 2 ^ 8 % 256 ∷ n % 256 ∷ []

-- stream >> quint32; `none` is a status other than QDataStream::Ok.
unfoldable pub read_be32 : List ℕ → Option ℕ
read_be32 (a ∷ b ∷ c ∷ d ∷ []) = some (((a * 256 + b) * 256 + c) * 256 + d)
read_be32 _ = none

unfoldable pub frame : List ℕ → List ℕ
frame payload = write_be32 (length payload % 2 ^ 32) ++ (payload ++ write_be32 (crc32 payload))

pub record Decoded : Type 0 where
  pub status : DecodeStatus
  pub buffer : List ℕ
  pub object : JsonObject

-- QByteArray::last
abbrev pub take_last : ℕ → List ℕ → List ℕ
take_last n xs = drop (length xs - n) xs

module _ (codec : JsonCodec) where
  unfoldable pub encode_packet : JsonObject → List ℕ
  encode_packet object = frame (codec.to_json object)

  -- document.isObject()
  unfoldable pub decode_document : List ℕ → List ℕ → JsonObject → Decoded
  decode_document payload buffer out = elim (codec.from_json payload) [
    | none ↦ record { status = invalid_json; buffer = buffer; object = out }
    | some object ↦ record { status = ok; buffer = buffer; object = object }
  ]

  -- The tail of tryDecode, from the footer's bytes on.
  unfoldable pub decode_footer : List ℕ → Option ℕ → List ℕ → JsonObject → Decoded
  unfolding decode_document
  decode_footer payload none buffer out = record {
    status = invalid_packet;
    buffer = buffer;
    object = out;
  }
  decode_footer payload (some expected) buffer out =
      if not (eqb (crc32 payload) expected)
      then record { status = crc_mismatch; buffer = buffer; object = out }
      else decode_document payload buffer out

  -- The middle of tryDecode, from the test of the header on.
  unfoldable pub decode_header : Option ℕ → List ℕ → JsonObject → Decoded
  unfolding decode_footer
  decode_header none buffer out = record { status = invalid_packet; buffer = []; object = out }
  decode_header (some payload_size) buffer out =
      let full = header_size + payload_size + footer_size in
      let packet = take full buffer in
      if ltb max_payload_size payload_size
      then record { status = invalid_packet; buffer = []; object = out }
      else if ltb (length buffer) full
      then record { status = need_more_data; buffer = buffer; object = out }
      else decode_footer (take payload_size (drop header_size packet))
          (read_be32 (take_last footer_size packet)) (drop full buffer) out

  unfoldable pub try_decode : List ℕ → JsonObject → Decoded
  unfolding decode_header
  try_decode buffer out =
      if ltb (length buffer) (header_size + footer_size)
      then record { status = need_more_data; buffer = buffer; object = out }
      else decode_header (read_be32 (take header_size buffer)) buffer out
