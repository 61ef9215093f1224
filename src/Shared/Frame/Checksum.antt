-- ===== src/Shared/Frame/Checksum.antt =====
-- The checksum of Shared/transportprotocol.h against CRC-32 as it is defined: reflected, with the
-- polynomial 0xEDB88320, from all ones, and complemented.
use Prim.Native.Nat.{digits, differ, bit_and-bitwise, bit_xor-bitwise}
use messenger_walkie_talkie.Prelude.{
  ℕ, zero, suc, min, ◌≤◌, ◌-◌, ◌/◌, ◌%◌, ◌<◌, ◌≡◌, ◌≢◌, refl, ap, ◌∙◌, List, [], ◌∷◌, arith,
  bit_and, bit_xor, if◌then◌else◌, eqb, All, Bool-cases, inl, inr,
}
use messenger_walkie_talkie.Shared.Frame.{crc_bit, crc_bits, crc_bytes, crc32, widen}

-- A turn of the shift register.
abbrev shifted : ℕ → ℕ
shifted register = if eqb (register % 2) 1 then bit_xor (register / 2) 0xEDB88320 else register / 2

abbrev turns : ℕ → ℕ → ℕ
turns zero register = register
turns (suc n) register = turns n (shifted register)

abbrev pub checksum_from : ℕ → List ℕ → ℕ
checksum_from register [] = 0xFFFFFFFF - register
checksum_from register (byte ∷ bytes) = checksum_from (turns 8 (bit_xor register byte)) bytes

-- CRC-32 of bytes.
abbrev pub crc_32 : List ℕ → ℕ
crc_32 bytes = checksum_from 0xFFFFFFFF bytes

-- A byte of ASCII.
abbrev pub IsAscii : ℕ → Type 0
IsAscii byte = byte < 128

and_digits : (n a : ℕ) → digits (λ b. 0) min n a 0 ≡ 0
and_digits zero a = refl
and_digits (suc n) zero = refl
and_digits (suc n) (suc a) = omega (arith, and_digits n (suc a / 2))

last_bit : (crc : ℕ) → bit_and crc 1 ≡ crc % 2
last_bit zero = bit_and-bitwise 0 1
last_bit (suc a) = omega (arith, bit_and-bitwise (suc a) 1, and_digits a (suc a / 2))

differ_zero : (x : ℕ) → differ x 0 ≡ x
differ_zero zero = refl
differ_zero (suc x) = refl

xor_digits_zero : (n a : ℕ) → a ≤ n → digits (λ b. b) differ n a 0 ≡ a
xor_digits_zero zero a h = omega (arith, h)
xor_digits_zero (suc n) zero h = refl
xor_digits_zero (suc n) (suc a) h =
    omega (arith, xor_digits_zero n (suc a / 2) (omega (arith, h)), differ_zero (suc a % 2))

bit_xor_zero : (a : ℕ) → bit_xor a 0 ≡ a
bit_xor_zero a = bit_xor-bitwise a 0 ∙ xor_digits_zero a a (omega arith)

crc_bit-shifted : (crc : ℕ) → crc_bit crc ≡ shifted crc
unfolding crc_bit
crc_bit-shifted crc = elim (Bool-cases (eqb (crc % 2) 1)) [
  | inl odd ↦ let one : bit_and crc 1 ≡ 1 = ground (arith, last_bit crc, odd) in rw (one, odd) refl
  | inr even ↦
      let none_set : bit_and crc 1 ≡ 0 = ground (arith, last_bit crc, even) in
      rw (none_set, even) (bit_xor_zero (crc / 2))
]

crc_bits-turns : (n crc : ℕ) → crc_bits n crc ≡ turns n crc
unfolding crc_bits
crc_bits-turns zero crc = refl
crc_bits-turns (suc n) crc = crc_bits-turns n (crc_bit crc) ∙ ap (turns n) (crc_bit-shifted crc)

crc_bytes-checksum :
    (bytes : List ℕ) (crc : ℕ)
    → All IsAscii bytes
    → 0xFFFFFFFF - crc_bytes bytes crc ≡ checksum_from crc bytes
unfolding crc_bytes
crc_bytes-checksum [] crc ascii = refl
crc_bytes-checksum (byte ∷ bytes) crc (small, ascii) =
    let same : widen byte ≡ byte = ground (arith, small) in
    let next : crc_bits 8 (bit_xor crc (widen byte)) ≡ turns 8 (bit_xor crc byte) =
      crc_bits-turns 8 (bit_xor crc (widen byte)) ∙ ap (λ b. turns 8 (bit_xor crc b)) same in
    crc_bytes-checksum bytes (crc_bits 8 (bit_xor crc (widen byte))) ascii
    ∙ ap (λ c. checksum_from c bytes) next

-- On bytes of ASCII the code computes CRC-32.
pub crc32-ascii : (bytes : List ℕ) → All IsAscii bytes → crc32 bytes ≡ crc_32 bytes
unfolding crc32
crc32-ascii bytes ascii = crc_bytes-checksum bytes 0xFFFFFFFF ascii

-- The value that CRC-32 has of the digits from 1 to 9.
crc_32_check : crc_32 (49 ∷ 50 ∷ 51 ∷ 52 ∷ 53 ∷ 54 ∷ 55 ∷ 56 ∷ 57 ∷ []) ≡ 0xCBF43926
crc_32_check = refl

-- A byte behind ASCII, on which the code computes another number.
crc32-not_ascii : crc32 (0x80 ∷ []) ≢ crc_32 (0x80 ∷ [])
unfolding crc32 crc_bytes crc_bits crc_bit
crc32-not_ascii = omega arith
