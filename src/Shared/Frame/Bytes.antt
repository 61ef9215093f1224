-- ===== src/Shared/Frame/Bytes.antt =====
-- The big-endian words of Shared/transportprotocol.h, and a frame cut into its parts.
use messenger_walkie_talkie.Prelude.{
  ℕ, ◌+◌, ◌-◌, ◌%◌, ◌^◌, ◌<◌, ◌≡◌, refl, sym, ap, subst, List, ◌++◌, some, arith, length, take,
  drop, length-append, take-append, drop-append, append_assoc,
}
use messenger_walkie_talkie.Shared.Frame.{write_be32, read_be32, frame, crc32, take_last}

pub read_be32-write_be32 : (n : ℕ) → n < 2 ^ 32 → read_be32 (write_be32 n) ≡ some n
unfolding read_be32 write_be32
read_be32-write_be32 n h = ap some (omega arith)

length-write_be32 : (n : ℕ) → length (write_be32 n) ≡ 4
unfolding write_be32
length-write_be32 n = refl

pub crc32-lt : (bytes : List ℕ) → crc32 bytes < 2 ^ 32
unfolding crc32
crc32-lt bytes = omega arith

-- A payload in a frame whose footer holds `crc`, right or wrong.
abbrev pub raw_frame : List ℕ → ℕ → List ℕ
raw_frame payload crc = write_be32 (length payload) ++ (payload ++ write_be32 crc)

pub frame-eq-raw_frame :
    (payload : List ℕ) → length payload < 2 ^ 32 → frame payload ≡ raw_frame payload (crc32 payload)
unfolding frame
frame-eq-raw_frame payload h =
    let e : length payload % 2 ^ 32 ≡ length payload = omega arith in rw e

module _ (payload rest : List ℕ) (crc : ℕ) where
  pub length-raw_frame : length (raw_frame payload crc) ≡ 4 + length payload + 4
  unfolding write_be32
  length-raw_frame = omega (arith, length-append payload (write_be32 crc))

  pub take-raw_frame :
      take (4 + length payload + 4) (raw_frame payload crc ++ rest) ≡ raw_frame payload crc
  take-raw_frame =
      subst (λ n. take n (raw_frame payload crc ++ rest) ≡ raw_frame payload crc) length-raw_frame
        (take-append (raw_frame payload crc) rest)

  pub drop-raw_frame : drop (4 + length payload + 4) (raw_frame payload crc ++ rest) ≡ rest
  drop-raw_frame =
      subst (λ n. drop n (raw_frame payload crc ++ rest) ≡ rest) length-raw_frame
        (drop-append (raw_frame payload crc) rest)

  pub payload-raw_frame : take (length payload) (drop 4 (raw_frame payload crc)) ≡ payload
  unfolding write_be32
  payload-raw_frame = take-append payload (write_be32 crc)

  pub footer-raw_frame : take_last 4 (raw_frame payload crc) ≡ write_be32 crc
  footer-raw_frame =
      let front = write_be32 (length payload) ++ payload in
      let whole : raw_frame payload crc ≡ front ++ write_be32 crc =
        sym (append_assoc (write_be32 (length payload)) payload (write_be32 crc)) in
      let cut : length front ≡ length (raw_frame payload crc) - 4 = omega (
        arith,
        length-raw_frame,
        length-append (write_be32 (length payload)) payload,
        length-write_be32 (length payload),
      ) in
      subst (λ n. drop n (raw_frame payload crc) ≡ write_be32 crc) cut
        (rw whole (drop-append front (write_be32 crc)))

  pub header-raw_frame : take 4 (raw_frame payload crc ++ rest) ≡ write_be32 (length payload)
  unfolding write_be32
  header-raw_frame = refl
