-- ===== src/Shared/Frame/RoundTrip.antt =====
-- tryDecode on what encodePacket writes, on corrupted frames and on prefixes.
use messenger_walkie_talkie.Prelude.{
  ℕ, ◌+◌, ◌^◌, ◌≤◌, ◌<◌, ◌≡◌, ◌≢◌, inl, inr, refl, sym, ap, ◌∙◌, List, [], ◌++◌, some, arith,
  length, take, drop, length-append, take_append_le, ltb_cases, All,
}
use messenger_walkie_talkie.Shared.Json.{JsonObject}
use messenger_walkie_talkie.Shared.Frame.{
  JsonCodec, Decoded, need_more_data, ok, crc_mismatch, encode_packet, decode_document,
  decode_footer, decode_header, try_decode, crc32, max_payload_size, read_be32, write_be32,
  take_last,
}
use messenger_walkie_talkie.Shared.Frame.Checksum.{crc_32, IsAscii, crc32-ascii}
use messenger_walkie_talkie.Shared.Frame.Bytes.{
  read_be32-write_be32, crc32-lt, raw_frame, frame-eq-raw_frame, length-raw_frame, take-raw_frame,
  drop-raw_frame, payload-raw_frame, footer-raw_frame, header-raw_frame,
}

take_of_raw_frame :
    (payload : List ℕ) (crc : ℕ) → take 4 (raw_frame payload crc) ≡ write_be32 (length payload)
unfolding write_be32
take_of_raw_frame payload crc = refl

module _ (codec : JsonCodec) where
  -- The two guards passed: the frame that the header announces is in the buffer.
  decode_header-whole :
      (n : ℕ) (buffer : List ℕ) (out : JsonObject)
      → n ≤ max_payload_size
      → 4 + n + 4 ≤ length buffer
      → decode_header codec (some n) buffer out
        ≡ decode_footer codec
            (take n (drop 4 (take (4 + n + 4) buffer)))
            (read_be32 (take_last 4 (take (4 + n + 4) buffer)))
            (drop (4 + n + 4) buffer)
            out
  unfolding decode_header
  decode_header-whole n buffer out small whole = ground arith

  try_decode-header :
      (buffer : List ℕ) (out : JsonObject)
      → 8 ≤ length buffer
      → try_decode codec buffer out ≡ decode_header codec (read_be32 (take 4 buffer)) buffer out
  unfolding try_decode
  try_decode-header buffer out enough = ground arith

  -- A whole frame at the head of the buffer is cut off, and the decision rests on its footer.
  try_decode-raw_frame :
      (payload rest : List ℕ) (crc : ℕ) (out : JsonObject)
      → length payload ≤ max_payload_size
      → crc < 2 ^ 32
      → try_decode codec (raw_frame payload crc ++ rest) out
        ≡ decode_footer codec payload (some crc) rest out
  try_decode-raw_frame payload rest crc out small word =
      let buffer = raw_frame payload crc ++ rest in
      let total : length buffer ≡ 4 + length payload + 4 + length rest =
        omega
          (arith, length-append (raw_frame payload crc) rest, length-raw_frame payload rest crc) in
      let head : read_be32 (take 4 buffer) ≡ some (length payload) =
        rw (header-raw_frame payload rest crc)
          (read_be32-write_be32 (length payload) (omega arith)) in
      rw (
        try_decode-header buffer out (omega arith),
        head,
        decode_header-whole (length payload) buffer out small (omega arith),
        take-raw_frame payload rest crc,
        drop-raw_frame payload rest crc,
        payload-raw_frame payload rest crc,
        footer-raw_frame payload rest crc,
        read_be32-write_be32 crc word,
      )

  -- For a payload of at most 256 KiB that fromJson reads back, tryDecode on what encodePacket
  -- wrote, whatever follows in the buffer, returns Ok and the object and leaves what follows.
  pub try_decode-encode_packet :
      (object out : JsonObject) (rest : List ℕ)
      → length (codec.to_json object) ≤ max_payload_size
      → codec.from_json (codec.to_json object) ≡ some object
      → try_decode codec (encode_packet codec object ++ rest) out
        ≡ record { status = ok; buffer = rest; object = object }
  unfolding encode_packet
  try_decode-encode_packet object out rest small reads =
      let payload = codec.to_json object in
      rw (frame-eq-raw_frame payload (omega arith)) (
        try_decode-raw_frame payload rest (crc32 payload) out small (crc32-lt payload)
        ∙ unfold decode_footer decode_document in ground arith)

  matching-status :
      (payload rest : List ℕ) (crc : ℕ) (out : JsonObject)
      → crc ≡ crc32 payload
      → (decode_footer codec payload (some crc) rest out).status ≢ crc_mismatch
  unfolding decode_footer decode_document
  matching-status payload rest crc out right h = ground (arith, right, h)

  -- A whole frame whose footer is not what the code computes of its payload.
  try_decode-mismatch :
      (payload rest : List ℕ) (crc : ℕ) (out : JsonObject)
      → length payload ≤ max_payload_size
      → crc < 2 ^ 32
      → crc ≢ crc32 payload
      → try_decode codec (raw_frame payload crc ++ rest) out
        ≡ record { status = crc_mismatch; buffer = rest; object = out }
  try_decode-mismatch payload rest crc out small word wrong =
      try_decode-raw_frame payload rest crc out small word ∙ unfold decode_footer in ground arith

  -- A whole frame of at most 256 KiB of payload, all of it ASCII, whose footer is not the CRC-32 of its
  -- payload, as that is defined, is reported as CrcMismatch, exactly that frame is taken off the buffer,
  -- and the object that the caller passed stays as it was. With the CRC-32 in its footer it is not reported so.
  pub try_decode-corrupted :
      (payload rest : List ℕ) (crc : ℕ) (out : JsonObject)
      → length payload ≤ max_payload_size
      → crc < 2 ^ 32
      → All IsAscii payload
      → (crc ≢ crc_32 payload
          → try_decode codec (raw_frame payload crc ++ rest) out
            ≡ record { status = crc_mismatch; buffer = rest; object = out })
        × (crc ≡ crc_32 payload
            → (try_decode codec (raw_frame payload crc ++ rest) out).status ≢ crc_mismatch)
  try_decode-corrupted payload rest crc out small word ascii =
      let same = crc32-ascii payload ascii in
      (
        λ wrong. try_decode-mismatch payload rest crc out small word (λ e. wrong (e ∙ same)),
        λ right h. matching-status payload rest crc out (right ∙ sym same) (
            ap (λ (d : Decoded). d.status)
              (sym (try_decode-raw_frame payload rest crc out small word))
            ∙ h),
      )

  -- A proper prefix of a frame of at most 256 KiB of payload is not decoded, and stays in the
  -- buffer as it is.
  pub try_decode-prefix :
      (payload prefix missing : List ℕ) (crc : ℕ) (out : JsonObject)
      → length payload ≤ max_payload_size
      → prefix ++ missing ≡ raw_frame payload crc
      → length prefix < length (raw_frame payload crc)
      → try_decode codec prefix out
        ≡ record { status = need_more_data; buffer = prefix; object = out }
  try_decode-prefix payload prefix missing crc out small split short =
      elim (ltb_cases (length prefix) 8) [
        | inl few ↦ unfold try_decode in ground arith
        | inr enough ↦
            let head : take 4 prefix ≡ write_be32 (length payload) =
              sym (take_append_le 4 prefix missing (omega arith))
              ∙ ap (take 4) split
              ∙ take_of_raw_frame payload crc in
            rw
              (
                try_decode-header prefix out enough,
                head,
                read_be32-write_be32 (length payload) (omega arith),
              )
              (unfold decode_header in ground (arith, length-raw_frame payload [] crc))
      ]
