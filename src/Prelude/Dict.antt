-- ===== src/Prelude/Dict.antt =====
-- QHash and QMap as association lists. The order of the entries stands for the hash's own.
use mathlib.Core.Path.{◌≡◌, refl, subst, ◌∙◌}
use mathlib.Core.Logic.{inl, inr}
use mathlib.Core.Bool.{false}
use mathlib.Core.Option.{Option, none, some}
use mathlib.Core.List.{List, [], ◌∷◌}
use native.Mathlib.Omega.{arith}
use messenger_walkie_talkie.Prelude.Tests.{Eq, ◌==◌, if◌then◌else◌, Bool-cases}

pub beq-ne_sym {ℓ} : {K : Type ℓ} ⦃e : Eq K⦄ (j k : K) → (j == k) ≡ false → (k == j) ≡ false
beq-ne_sym ⦃e⦄ j k h = ground (arith, e.test_iff j k, e.test_iff k j)

module _ {ℓ κ} {K : Type ℓ} {V : Type κ} ⦃e : Eq K⦄ where
  unfoldable pub get : K → List (K × V) → Option V
  get k [] = none
  get k ((j, v) ∷ m) = if j == k then some v else get k m

  -- QHash::insert and operator[] with an assignment
  unfoldable pub put : K → V → List (K × V) → List (K × V)
  put k v [] = (k, v) ∷ []
  put k v ((j, w) ∷ m) = if j == k then (k, v) ∷ m else (j, w) ∷ put k v m

  -- QHash::remove
  unfoldable pub remove : K → List (K × V) → List (K × V)
  remove k [] = []
  remove k ((j, v) ∷ m) = let rest = remove k m in if j == k then rest else (j, v) ∷ rest

  pub get-put :
      (k j : K) (v : V) (m : List (K × V))
      → get j (put k v m) ≡ (if k == j then some v else get j m)
  unfolding get put
  get-put k j v [] = refl
  get-put k j v ((i, w) ∷ m) =
      ground (arith, e.test_iff k j, e.test_iff i k, e.test_iff i j, get-put k j v m)

  pub get-put_self : (k : K) (v : V) (m : List (K × V)) → get k (put k v m) ≡ some v
  get-put_self k v m = get-put k k v m ∙ rw ((e.test_iff k k).1 refl)

  pub get-remove :
      (k j : K) (m : List (K × V)) → get j (remove k m) ≡ (if k == j then none else get j m)
  unfolding get remove
  get-remove k j [] = ground arith
  get-remove k j ((i, w) ∷ m) =
      ground (arith, e.test_iff k j, e.test_iff i k, e.test_iff i j, get-remove k j m)

  pub get-remove_self : (k : K) (m : List (K × V)) → get k (remove k m) ≡ none
  get-remove_self k m = get-remove k k m ∙ rw ((e.test_iff k k).1 refl)

  -- No key twice, as in a QHash.
  abbrev pub IsDistinct : List (K × V) → Type κ
  IsDistinct [] = Unit
  IsDistinct ((k, v) ∷ m) = (get k m ≡ none) × IsDistinct m

  pub put-IsDistinct : (k : K) (v : V) (m : List (K × V)) → IsDistinct m → IsDistinct (put k v m)
  unfolding put get
  put-IsDistinct k v [] d = (refl, tt)
  put-IsDistinct k v ((j, w) ∷ m) d = elim (Bool-cases (j == k)) [
    | inl same ↦ rw same (subst (λ x. get x m ≡ none) ((e.test_iff j k).0 same) d.0, d.1)
    | inr other ↦
        rw other (get-put k j v m ∙ rw (beq-ne_sym j k other) d.0, put-IsDistinct k v m d.1)
  ]

  pub remove-IsDistinct : (k : K) (m : List (K × V)) → IsDistinct m → IsDistinct (remove k m)
  unfolding remove
  remove-IsDistinct k [] d = tt
  remove-IsDistinct k ((j, w) ∷ m) d = elim (Bool-cases (j == k)) [
    | inl same ↦ rw same (remove-IsDistinct k m d.1)
    | inr other ↦
        rw other (get-remove k j m ∙ rw (beq-ne_sym j k other) d.0, remove-IsDistinct k m d.1)
  ]

pub ruleset dict_laws = (get-put, get-remove)
