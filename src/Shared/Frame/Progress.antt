-- ===== src/Shared/Frame/Progress.antt =====
-- tryDecode makes progress: the measure of the read loops.
use messenger_walkie_talkie.Prelude.{
  ℕ, ◌+◌, ◌≤◌, ◌<◌, ◌≡◌, ◌≢◌, ◌⊎◌, List, [], ◌∷◌, ◌-◌, ◌*◌, refl, inl, inr, ltb_cases, length-take,
  Option, none, some, arith, length, drop, take, length-drop,
}
use messenger_walkie_talkie.Shared.Json.{JsonObject}
use messenger_walkie_talkie.Shared.Frame.{
  JsonCodec, Decoded, need_more_data, invalid_packet, decode_document, decode_footer, decode_header,
  try_decode, max_payload_size, read_be32, take_last,
}

module _ (codec : JsonCodec) where
  decode_document_settles :
      (payload buffer : List ℕ) (out : JsonObject)
      → let r = decode_document codec payload buffer out in
        (r.status ≢ need_more_data) × (r.buffer ≡ buffer)
  unfolding decode_document
  decode_document_settles payload buffer out = (ground arith, ground arith)

  decode_footer_settles :
      (payload : List ℕ) (expected : Option ℕ) (buffer : List ℕ) (out : JsonObject)
      → let r = decode_footer codec payload expected buffer out in
        (r.status ≢ need_more_data) × (r.buffer ≡ buffer)
  unfolding decode_footer
  decode_footer_settles payload none buffer out = (ground arith, ground arith)
  decode_footer_settles payload (some c) buffer out = (ground arith, ground arith)

  abbrev pub Progress : List ℕ → JsonObject → Decoded → Type 0
  Progress buffer out r =
      ((r.status ≢ need_more_data) × (length r.buffer < length buffer))
      ⊎ ((r ≡ record { status = need_more_data; buffer = buffer; object = out })
          × (length buffer < 4 + max_payload_size + 4))

  decode_header-Progress :
      (n : Option ℕ) (buffer : List ℕ) (out : JsonObject)
      → 8 ≤ length buffer
      → Progress buffer out (decode_header codec n buffer out)
  unfolding decode_header
  decode_header-Progress none buffer out enough = ground arith
  decode_header-Progress (some n) buffer out enough =
      let packet = take (4 + n + 4) buffer in
      ground (
        arith,
        length-drop (4 + n + 4) buffer,
        decode_footer_settles (take n (drop 4 packet)) (read_be32 (take_last 4 packet))
            (drop (4 + n + 4) buffer) out,
      )

  -- Whatever is in the buffer, a call of tryDecode that does not ask for more data leaves fewer
  -- bytes in it; one that asks for more leaves the buffer and the caller's object as they are, and
  -- the buffer holds fewer bytes than the largest frame.
  pub try_decode-Progress :
      (buffer : List ℕ) (out : JsonObject) → Progress buffer out (try_decode codec buffer out)
  unfolding try_decode
  try_decode-Progress buffer out =
      ground (arith, decode_header-Progress (read_be32 (take 4 buffer)) buffer out)

read_be32_total : (bytes : List ℕ) → length bytes ≡ 4 → (n : ℕ) × (read_be32 bytes ≡ some n)
unfolding read_be32
read_be32_total [] h = absurd (omega arith)
read_be32_total (a ∷ []) h = absurd (omega arith)
read_be32_total (a ∷ b ∷ []) h = absurd (omega arith)
read_be32_total (a ∷ b ∷ c ∷ []) h = absurd (omega arith)
read_be32_total (a ∷ b ∷ c ∷ d ∷ []) h = (((a * 256 + b) * 256 + c) * 256 + d, refl)
read_be32_total (a ∷ b ∷ c ∷ d ∷ e ∷ r) h = absurd (omega arith)

module _ (codec : JsonCodec) where
  decode_document_valid :
      (payload buffer : List ℕ) (out : JsonObject)
      → (decode_document codec payload buffer out).status ≢ invalid_packet
  unfolding decode_document
  decode_document_valid payload buffer out = ground arith

  decode_header_clears :
      (n : Option ℕ) (buffer : List ℕ) (out : JsonObject)
      → (decode_header codec n buffer out).status ≡ invalid_packet
      → (decode_header codec n buffer out).buffer ≡ []
  unfolding decode_header
  decode_header_clears none buffer out h = refl
  decode_header_clears (some n) buffer out h =
      let packet = take (4 + n + 4) buffer in
      let last = take_last 4 packet in
      elim (ltb_cases (length buffer) (4 + n + 4)) [
        | inl short ↦ ground arith
        | inr whole ↦
            let four : length last ≡ 4 =
              omega
                (arith, length-drop (length packet - 4) packet, length-take (4 + n + 4) buffer) in
            let (w, e) = read_be32_total last four in
            ground (
              arith,
              e,
              decode_document_valid (take n (drop 4 packet)) (drop (4 + n + 4) buffer) out,
            )
      ]

  -- An InvalidPacket leaves the buffer empty: the footer of a whole frame is always readable.
  pub try_decode_clears :
      (buffer : List ℕ) (out : JsonObject)
      → (try_decode codec buffer out).status ≡ invalid_packet
      → (try_decode codec buffer out).buffer ≡ []
  unfolding try_decode
  try_decode_clears buffer out h =
      ground (arith, decode_header_clears (read_be32 (take 4 buffer)) buffer out)
