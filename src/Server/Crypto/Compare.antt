-- ===== src/Server/Crypto/Compare.antt =====
-- The comparison of hashes of Server/serverstorage.cpp.
use messenger_walkie_talkie.Prelude.{
  ℕ, ◌≡◌, ◌↔◌, refl, true, List, [], ◌∷◌, arith, length, bit_or, bit_xor,
}
use messenger_walkie_talkie.Prelude.Bits.{bit_xor_self, bit_xor-eq_zero, bit_or-eq_zero}
use messenger_walkie_talkie.Server.Crypto.{differences, constant_time_equals}

differences_self : (xs : List ℕ) → differences 0 xs xs ≡ 0
unfolding differences
differences_self [] = refl
differences_self (x ∷ xs) = rw (bit_xor_self x) (differences_self xs)

differences-eq_zero :
    (diff : ℕ) (xs ys : List ℕ)
    → length xs ≡ length ys
    → differences diff xs ys ≡ 0
    → (diff ≡ 0) × (xs ≡ ys)
unfolding differences
differences-eq_zero diff [] [] l h = (h, refl)
differences-eq_zero diff [] (y ∷ ys) l h = absurd (omega arith)
differences-eq_zero diff (x ∷ xs) [] l h = absurd (omega arith)
differences-eq_zero diff (x ∷ xs) (y ∷ ys) l h =
    let (d, e) = differences-eq_zero (bit_or diff (bit_xor x y)) xs ys (omega arith) h in
    let (z, n) = bit_or-eq_zero diff (bit_xor x y) d in (z, cc (bit_xor-eq_zero x y n))

-- constantTimeEquals is equality of the two arrays.
pub constant_time_equals_iff :
    (left right : List ℕ) → (constant_time_equals left right ≡ true) ↔ (left ≡ right)
unfolding constant_time_equals
constant_time_equals_iff left right = (sound, complete)
  where
    sound : constant_time_equals left right ≡ true → left ≡ right
    sound h = (differences-eq_zero 0 left right (ground arith) (ground arith)).1

    complete : left ≡ right → constant_time_equals left right ≡ true
    complete e = rw (← e) (ground (arith, differences_self left))
