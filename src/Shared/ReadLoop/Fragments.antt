-- ===== src/Shared/ReadLoop/Fragments.antt =====
-- TCP fragmentation: however the bytes of a run of packets are cut into chunks, the read loop
-- delivers the packets, once each and in order.
use messenger_walkie_talkie.Prelude.{
  ℕ, zero, suc, ◌≤◌, ◌<◌, ◌≡◌, refl, sym, ap, ◌∙◌, inl, inr, some, List, [], ◌∷◌, ◌++◌, map, arith,
  length, length-append, append_split, append_assoc, ltb_cases, All, All-append_right,
}
use mathlib.Core.List.{map-append}
use messenger_walkie_talkie.Shared.Json.{JsonObject, end}
use messenger_walkie_talkie.Shared.Frame.{
  JsonCodec, need_more_data, ok, encode_packet, try_decode, max_payload_size, crc32,
}
use messenger_walkie_talkie.Shared.Frame.Bytes.{frame-eq-raw_frame, length-raw_frame}
use messenger_walkie_talkie.Shared.Frame.RoundTrip.{try_decode-encode_packet, try_decode-prefix}
use messenger_walkie_talkie.Shared.ReadLoop.{received, arrive, Drained, drain, feed, feed_all}

module _ (codec : JsonCodec) where
  -- A packet that fits a frame and that fromJson reads back.
  abbrev Sendable : JsonObject → Type 0
  Sendable object =
      (length (codec.to_json object) ≤ max_payload_size)
      × (codec.from_json (codec.to_json object) ≡ some object)

  -- What a run of calls of encodePacket puts on the wire.
  abbrev pub wire : List JsonObject → List ℕ
  wire [] = []
  wire (p ∷ ps) = encode_packet codec p ++ wire ps

  -- The buffer is short of the next frame.
  abbrev Waiting : List ℕ → List JsonObject → Type 0
  Waiting buffer [] = buffer ≡ []
  Waiting buffer (p ∷ ps) = length buffer < length (encode_packet codec p)

  -- `drained` has delivered the front of `ps` and waits for the rest of it.
  abbrev Front : Drained → List ℕ → List JsonObject → Type 0
  Front drained rest ps =
      (done : List JsonObject) × (todo : List JsonObject) × (drained.arrivals ≡ map received done)
      × (ps ≡ done ++ todo)
      × (drained.buffer ++ rest ≡ wire todo)
      × Waiting drained.buffer todo

  encode_packet-pos : (p : JsonObject) → Sendable p → 0 < length (encode_packet codec p)
  unfolding encode_packet
  encode_packet-pos p s =
      let payload = codec.to_json p in
      rw (frame-eq-raw_frame payload (omega arith))
        (omega (arith, length-raw_frame payload [] (crc32 payload)))

  try_decode-short :
      (p : JsonObject) (buffer missing : List ℕ)
      → Sendable p
      → buffer ++ missing ≡ encode_packet codec p
      → length buffer < length (encode_packet codec p)
      → try_decode codec buffer end
        ≡ record { status = need_more_data; buffer = buffer; object = end }
  unfolding encode_packet
  try_decode-short p buffer missing s split short =
      let payload = codec.to_json p in
      let e = frame-eq-raw_frame payload (omega arith) in
      try_decode-prefix codec payload buffer missing (crc32 payload) end s.0 (split ∙ e)
        (rw e at short)

  drain-waits :
      (fuel : ℕ) (buffer : List ℕ)
      → try_decode codec buffer end
        ≡ record { status = need_more_data; buffer = buffer; object = end }
      → drain codec (suc fuel) buffer ≡ record { arrivals = []; buffer = buffer }
  unfolding drain
  drain-waits fuel buffer e = ground arith

  drain-packet :
      (fuel : ℕ) (buffer rest : List ℕ) (p : JsonObject)
      → try_decode codec buffer end ≡ record { status = ok; buffer = rest; object = p }
      → drain codec (suc fuel) buffer ≡ arrive (received p) (drain codec fuel rest)
  unfolding drain
  drain-packet fuel buffer rest p e = ground arith

  drain-Front :
      (fuel : ℕ) (buffer rest : List ℕ) (ps : List JsonObject)
      → length buffer < fuel
      → All Sendable ps
      → buffer ++ rest ≡ wire ps
      → Front (drain codec fuel buffer) rest ps
  drain-Front zero buffer rest ps h s e = elim h [ ]
  drain-Front (suc fuel) [] rest [] h s e =
      rw (drain-waits fuel [] (unfold try_decode in refl)) ([], [], refl, refl, e, refl)
  drain-Front (suc fuel) (x ∷ buffer) rest [] h s e = cc
  drain-Front (suc fuel) buffer rest (p ∷ ps) h s e =
      let code = encode_packet codec p in
      elim (ltb_cases (length buffer) (length code)) [
        | inl short ↦
            let (t, q, r) = append_split code (wire ps) buffer rest (sym e) (omega arith) in
            let d = drain-waits fuel buffer (try_decode-short p buffer t s.0 (sym q) short) in
            rw d ([], p ∷ ps, refl, refl, e, short)
        | inr whole ↦
            let (t, q, r) = append_split buffer rest code (wire ps) e whole in
            let d = try_decode-encode_packet codec p end t s.0.0 s.0.1 in
            let fits : length t < fuel =
              omega (arith, encode_packet-pos p s.0, ap length q, length-append code t) in
            let (done, todo, a, b, c, w) = drain-Front fuel t rest ps fits s.1 r in
            rw (drain-packet fuel buffer t p (rw q d))
              (p ∷ done, todo, ap (◌∷◌ (received p)) a, ap (◌∷◌ p) b, c, w)
      ]

  abbrev pub concat : List (List ℕ) → List ℕ
  concat [] = []
  concat (c ∷ cs) = c ++ concat cs

  feed-Front :
      (buffer chunk rest : List ℕ) (ps : List JsonObject)
      → All Sendable ps
      → buffer ++ (chunk ++ rest) ≡ wire ps
      → Front (feed codec buffer chunk) rest ps
  unfolding feed
  feed-Front buffer chunk rest ps s e =
      drain-Front (suc (length (buffer ++ chunk))) (buffer ++ chunk) rest ps (omega arith) s
        (append_assoc buffer chunk rest ∙ e)

  feed_all_front :
      (buffer : List ℕ) (chunks : List (List ℕ)) (ps : List JsonObject)
      → All Sendable ps
      → buffer ++ concat chunks ≡ wire ps
      → Waiting buffer ps
      → feed_all codec buffer chunks ≡ record { arrivals = map received ps; buffer = [] }
  unfolding feed_all
  feed_all_front buffer [] [] s e w = cc
  feed_all_front buffer [] (p ∷ ps) s e w = absurd (
      omega (
        arith,
        ap length e,
        length-append buffer [],
        length-append (encode_packet codec p) (wire ps),
      ))
  feed_all_front buffer (c ∷ cs) ps s e w =
      let (done, todo, a, b, e', w') = feed-Front buffer c (concat cs) ps s e in
      let s' : All Sendable todo = All-append_right Sendable done todo (rw b at s) in
      let rest = feed_all_front (feed codec buffer c).buffer cs todo s' e' w' in
      rw (a, rest, b) (cc (map-append received done todo))

  empty_waits : (ps : List JsonObject) → All Sendable ps → Waiting [] ps
  empty_waits [] s = refl
  empty_waits (p ∷ ps) s = encode_packet-pos p s.0

  -- For packets that fit a frame and that fromJson reads back: whatever the chunks in which their
  -- encodings arrive, empty ones included, the read loops deliver the packets in order, each once,
  -- report no error, and leave the buffer empty.
  pub feed_all-wire :
      (ps : List JsonObject) (chunks : List (List ℕ))
      → All Sendable ps
      → concat chunks ≡ wire ps
      → feed_all codec [] chunks ≡ record { arrivals = map received ps; buffer = [] }
  feed_all-wire ps chunks s e = feed_all_front [] chunks ps s e (empty_waits ps s)
