-- ===== src/Prelude/Text.antt =====
-- QString: a text, its UTF-16 code units, its size in units, and the order of `operator<`.
use Prim.Native.Char.{code}
use Prim.Native.Nat.{ℕ, ◌+◌, ◌-◌, ◌/◌, ◌%◌}
use Prim.Native.String.{String}
use mathlib.Core.Bool.{Bool, true, false, ◌&&◌, ◌||◌}
use mathlib.Core.Path.{◌≡◌, refl}
use mathlib.Core.Logic.{◌≢◌}
use native.Mathlib.Omega.{arith}
use text.Mathlib.TextEquality.{eq_iff}
use mathlib.Core.List.{List, [], ◌∷◌}
use messenger_walkie_talkie.Prelude.Tests.{ltb, eqb, if◌then◌else◌, ◌==◌, string_eq}
use messenger_walkie_talkie.Prelude.Lists.{length}

-- A character outside the basic plane is a surrogate pair.
abbrev pub units : String → List ℕ
units String.[] = []
units (String.◌∷◌ c s) =
    let rest = units s in
    if ltb (code c) 0x10000
    then code c ∷ rest
    else (0xD800 + (code c - 0x10000) / 1024) ∷ (0xDC00 + (code c - 0x10000) % 1024) ∷ rest

-- QString::size
abbrev pub size : String → ℕ
size s = length (units s)

-- QString::isEmpty
abbrev pub is_empty : String → Bool
is_empty s = s == ""

-- The order of two arrays of numbers.
unfoldable pub lex : List ℕ → List ℕ → Bool
lex xs [] = false
lex [] (y ∷ ys) = true
lex (x ∷ xs) (y ∷ ys) = ltb x y || (eqb x y && lex xs ys)

pub lex-asym : (xs ys : List ℕ) → lex xs ys ≡ true → lex ys xs ≡ false
unfolding lex
lex-asym [] [] h = refl
lex-asym [] (y ∷ ys) h = refl
lex-asym (x ∷ xs) [] h = absurd (ground arith)
lex-asym (x ∷ xs) (y ∷ ys) h = ground (arith, lex-asym xs ys)

pub lex_le_trans : (xs ys zs : List ℕ) → lex ys xs ≡ false → lex zs ys ≡ false → lex zs xs ≡ false
unfolding lex
lex_le_trans [] [] zs h k = k
lex_le_trans [] (y ∷ ys) [] h k = absurd (ground arith)
lex_le_trans [] (y ∷ ys) (z ∷ zs) h k = refl
lex_le_trans (x ∷ xs) [] zs h k = absurd (ground arith)
lex_le_trans (x ∷ xs) (y ∷ ys) [] h k = absurd (ground arith)
lex_le_trans (x ∷ xs) (y ∷ ys) (z ∷ zs) h k = ground (arith, lex_le_trans xs ys zs)

-- The code points of a text.
abbrev pub codes : String → List ℕ
codes String.[] = []
codes (String.◌∷◌ c s) = code c ∷ codes s

-- operator<: the order of the code units.
unfoldable pub str_lt : String → String → Bool
unfolding lex
str_lt a b = lex (units a) (units b)

pub str_lt-asym : (a b : String) → str_lt a b ≡ true → str_lt b a ≡ false
unfolding str_lt
str_lt-asym a b h = lex-asym (units a) (units b) h

pub str_le_trans : (a b c : String) → str_lt b a ≡ false → str_lt c b ≡ false → str_lt c a ≡ false
unfolding str_lt
str_le_trans a b c h k = lex_le_trans (units a) (units b) (units c) h k

-- Two texts that the test tells apart.
pub differ : (a b : String) → (a == b) ≡ false → a ≢ b
differ a b e h = ground (arith, eq_iff a b)
