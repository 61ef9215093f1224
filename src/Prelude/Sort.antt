-- ===== src/Prelude/Sort.antt =====
-- Stable sorting by a test of what comes before.
use Prim.Native.Nat.{suc}
use mathlib.Core.Path.{◌≡◌, refl, sym, ap, ◌∙◌}
use mathlib.Core.Logic.{inl, inr}
use mathlib.Core.Bool.{Bool, true, false, ◌||◌}
use mathlib.Core.List.{List, [], ◌∷◌}
use native.Mathlib.Omega.{arith}
use messenger_walkie_talkie.Prelude.Tests.{if◌then◌else◌, Bool-cases, Eq, ◌==◌}
use messenger_walkie_talkie.Prelude.Lists.{length}

-- QList::contains
abbrev pub has {ℓ} : {K : Type ℓ} ⦃e : Eq K⦄ → K → List K → Bool
has ⦃e⦄ k [] = false
has ⦃e⦄ k (j ∷ js) = j == k || has k js

abbrev pub any {ℓ} : {A : Type ℓ} → (A → Bool) → List A → Bool
any test [] = false
any test (x ∷ xs) = test x || any test xs

-- Nothing comes before its left neighbour, by a test.
abbrev IsSortedBy {ℓ} : {A : Type ℓ} → (A → A → Bool) → List A → Type 0
IsSortedBy before [] = Unit
IsSortedBy before (x ∷ []) = Unit
IsSortedBy before (x ∷ y ∷ ys) = (before y x ≡ false) × IsSortedBy before (y ∷ ys)

module _ {ℓ} {A : Type ℓ} (before : A → A → Bool) where
  unfoldable pub insert_by : A → List A → List A
  insert_by x [] = x ∷ []
  insert_by x (y ∷ ys) = let rest = insert_by x ys in if before y x then y ∷ rest else x ∷ y ∷ ys

  unfoldable pub sort_by : List A → List A
  unfolding insert_by
  sort_by [] = []
  sort_by (x ∷ xs) = insert_by x (sort_by xs)

  -- Nothing comes before its left neighbour.
  abbrev pub IsSorted : List A → Type 0
  IsSorted xs = IsSortedBy before xs

  pub IsSorted-tail : (x : A) (xs : List A) → IsSorted (x ∷ xs) → IsSorted xs
  IsSorted-tail x [] h = tt
  IsSorted-tail x (y ∷ ys) h = h.1

  -- The same by another test that gives the same answers.
  pub IsSorted-same :
      (after : A → A → Bool) (xs : List A)
      → ((x y : A) → after x y ≡ before x y)
      → IsSorted xs
      → IsSortedBy after xs
  IsSorted-same after [] same h = tt
  IsSorted-same after (x ∷ []) same h = tt
  IsSorted-same after (x ∷ y ∷ ys) same h = (same y x ∙ h.0, IsSorted-same after (y ∷ ys) same h.1)

  module _ (asym : (x y : A) → before x y ≡ true → before y x ≡ false) where
    -- Behind `y`, which comes before `x`.
    insert_by-behind :
        (x y : A) (ys : List A)
        → before y x ≡ true
        → IsSorted (y ∷ ys)
        → IsSorted (y ∷ insert_by x ys)
    unfolding insert_by
    insert_by-behind x y [] first h = (asym y x first, tt)
    insert_by-behind x y (z ∷ zs) first h = elim (Bool-cases (before z x)) [
      | inl there ↦ rw there (h.0, insert_by-behind x z zs there h.1)
      | inr here ↦ rw here (asym y x first, (here, h.1))
    ]

    pub insert_by-IsSorted : (x : A) (xs : List A) → IsSorted xs → IsSorted (insert_by x xs)
    unfolding insert_by
    insert_by-IsSorted x [] h = tt
    insert_by-IsSorted x (y ∷ ys) h = elim (Bool-cases (before y x)) [
      | inl there ↦ rw there (insert_by-behind x y ys there h)
      | inr here ↦ rw here (here, h)
    ]

    pub sort_by-IsSorted : (xs : List A) → IsSorted (sort_by xs)
    unfolding sort_by
    sort_by-IsSorted [] = tt
    sort_by-IsSorted (x ∷ xs) = insert_by-IsSorted x (sort_by xs) (sort_by-IsSorted xs)

  pub length-insert_by : (x : A) (xs : List A) → length (insert_by x xs) ≡ suc (length xs)
  unfolding insert_by
  length-insert_by x [] = refl
  length-insert_by x (y ∷ ys) = ground (arith, length-insert_by x ys)

  pub length-sort_by : (xs : List A) → length (sort_by xs) ≡ length xs
  unfolding sort_by
  length-sort_by [] = refl
  length-sort_by (x ∷ xs) = length-insert_by x (sort_by xs) ∙ ap suc (length-sort_by xs)

  -- Sorting changes no answer of a test that looks for one element.
  module _ (test : A → Bool) where
    any-insert_by : (x : A) (xs : List A) → any test (insert_by x xs) ≡ (test x || any test xs)
    unfolding insert_by
    any-insert_by x [] = refl
    any-insert_by x (y ∷ ys) = ground (arith, any-insert_by x ys)

    pub any-sort_by : (xs : List A) → any test (sort_by xs) ≡ any test xs
    unfolding sort_by
    any-sort_by [] = refl
    any-sort_by (x ∷ xs) = any-insert_by x (sort_by xs) ∙ ap (◌||◌ (test x)) (any-sort_by xs)

pub has-any {ℓ} : {K : Type ℓ} ⦃e : Eq K⦄ (k : K) (ks : List K) → has k ks ≡ any (λ j. j == k) ks
has-any k [] = refl
has-any k (j ∷ js) = ap (◌||◌ (j == k)) (has-any k js)

pub has-sort_by {ℓ} :
    {K : Type ℓ} ⦃e : Eq K⦄ (before : K → K → Bool) (k : K) (ks : List K)
    → has k (sort_by before ks) ≡ has k ks
has-sort_by before k ks =
    has-any k (sort_by before ks) ∙ any-sort_by before (λ j. j == k) ks ∙ sym (has-any k ks)
