-- ===== src/Shared/ReadLoop/Fuel.antt =====
-- The read loop ends by itself: a round for each byte is enough.
use messenger_walkie_talkie.Prelude.{ℕ, zero, suc, ◌+◌, ◌<◌, ◌≡◌, List, arith, length}
use messenger_walkie_talkie.Shared.Json.{end}
use messenger_walkie_talkie.Shared.Frame.{JsonCodec, try_decode, max_payload_size}
use messenger_walkie_talkie.Shared.Frame.Progress.{try_decode-Progress, try_decode_clears}
use messenger_walkie_talkie.Shared.ReadLoop.{drain}

module _ (codec : JsonCodec) where
  -- With more rounds than the buffer has bytes the loop ends by itself: any other such number of
  -- rounds gives the same, and what stays in the buffer is shorter than the largest frame.
  pub drain_enough :
      (fuel fuel' : ℕ) (buffer : List ℕ)
      → length buffer < fuel
      → length buffer < fuel'
      → (drain codec fuel buffer ≡ drain codec fuel' buffer)
        × (length (drain codec fuel buffer).buffer < 4 + max_payload_size + 4)
  unfolding drain
  drain_enough zero fuel' buffer h k = elim h [ ]
  drain_enough (suc fuel) zero buffer h k = elim k [ ]
  drain_enough (suc fuel) (suc fuel') buffer h k =
      let next = (try_decode codec buffer end).buffer in
      let p = try_decode-Progress codec buffer end in
      let c = try_decode_clears codec buffer end in
      (
        ground (
          arith,
          p,
          (λ (a : length next < fuel) (b : length next < fuel').
              (drain_enough fuel fuel' next a b).0),
        ),
        ground (arith, p, c, drain_enough fuel fuel' next),
      )
