-- ===== src/Prelude/Sql.antt =====
-- What the two stores ask of SQLite: a statement may fail, WHERE keeps rows, ORDER BY sorts them.
use Prim.Native.Nat.{ℕ, ◌+◌}
use Prim.Native.String.{String}
use mathlib.Core.Path.{◌≡◌, refl, ap, ◌∙◌}
use mathlib.Core.Logic.{inl, inr}
use mathlib.Core.Bool.{Bool, false, not, ◌&&◌, ◌||◌}
use mathlib.Core.Option.{Option, none, some}
use mathlib.Core.List.{List, [], ◌∷◌, map}
use native.Mathlib.Omega.{arith}
use messenger_walkie_talkie.Prelude.Tests.{leb, if◌then◌else◌, Eq, ◌==◌, Bool-cases}
use messenger_walkie_talkie.Prelude.Text.{lex, codes}
use messenger_walkie_talkie.Prelude.Dict.{get, IsDistinct}
use messenger_walkie_talkie.Prelude.Sort.{insert_by, sort_by}

-- `faults` are the answers to the statements to come, `true` for a failure, and none left for no
-- failure any more: whether the next statement fails, and the answers behind it.
abbrev pub next_fails : List Bool → Bool
next_fails [] = false
next_fails (f ∷ fs) = f

abbrev pub rest_of : List Bool → List Bool
rest_of [] = []
rest_of (f ∷ fs) = fs

-- The rows that pass a test, as a WHERE does.
unfoldable pub filter {ℓ} : {A : Type ℓ} → (A → Bool) → List A → List A
filter test [] = []
filter test (x ∷ xs) = let rest = filter test xs in if test x then x ∷ rest else rest

-- lower(), which knows the latin letters.
abbrev pub lower_code : ℕ → ℕ
lower_code c = if leb b'A' c && leb c b'Z' then c + 32 else c

-- ORDER BY lower(dialog_user), dialog_user
unfoldable pub name_before : String → String → Bool
name_before a b =
    let la = map lower_code (codes a) in
    let lb = map lower_code (codes b) in lex la lb || (not (lex lb la) && lex (codes a) (codes b))

module _ {ℓ κ} {K : Type ℓ} {V : Type κ} ⦃e : Eq K⦄ where
  -- The value of a key, where the row passes a test.
  abbrev pub passing : (K × V → Bool) → K → Option V → Option V
  passing test k none = none
  passing test k (some v) = if test (k, v) then some v else none

  get-filter_absent :
      (test : K × V → Bool) (k : K) (rows : List (K × V))
      → get k rows ≡ none
      → get k (filter test rows) ≡ none
  unfolding get filter
  get-filter_absent test k [] absent = refl
  get-filter_absent test k ((j, w) ∷ rows) absent = ground (arith, get-filter_absent test k rows)

  pub get-filter :
      (test : K × V → Bool) (k : K) (rows : List (K × V))
      → IsDistinct rows
      → get k (filter test rows) ≡ passing test k (get k rows)
  unfolding get filter
  get-filter test k [] d = refl
  get-filter test k ((j, w) ∷ rows) d = elim (Bool-cases (j == k)) [
    | inl same ↦ ground (arith, (e.test_iff j k).0 same, get-filter_absent test j rows, d.0, same)
    | inr other ↦ ground (arith, get-filter test k rows d.1, other)
  ]

  pub filter-IsDistinct :
      (test : K × V → Bool) (rows : List (K × V)) → IsDistinct rows → IsDistinct (filter test rows)
  unfolding filter
  filter-IsDistinct test [] d = tt
  filter-IsDistinct test ((j, w) ∷ rows) d = elim (Bool-cases (test (j, w))) [
    | inl kept ↦ rw kept (get-filter_absent test j rows d.0, filter-IsDistinct test rows d.1)
    | inr dropped ↦ rw dropped (filter-IsDistinct test rows d.1)
  ]

  module _ (before : K × V → K × V → Bool) where
    get-insert_by :
        (k j : K) (v : V) (rows : List (K × V))
        → get j rows ≡ none
        → get k (insert_by before (j, v) rows) ≡ (if j == k then some v else get k rows)
    unfolding get insert_by
    get-insert_by k j v [] absent = refl
    get-insert_by k j v ((i, w) ∷ rows) absent =
        ground (arith, e.test_iff i k, e.test_iff j k, e.test_iff i j, get-insert_by k j v rows)

    -- The order of the rows of a table does not matter to what is found under a key.
    pub get-sort_by :
        (k : K) (rows : List (K × V)) → IsDistinct rows → get k (sort_by before rows) ≡ get k rows
    unfolding sort_by get
    get-sort_by k [] d = refl
    get-sort_by k ((j, v) ∷ rows) d =
        get-insert_by k j v (sort_by before rows) (get-sort_by j rows d.1 ∙ d.0)
        ∙ ap (λ o. if j == k then some v else o) (get-sort_by k rows d.1)

    insert_by-IsDistinct :
        (j : K) (v : V) (rows : List (K × V))
        → get j rows ≡ none
        → IsDistinct rows
        → IsDistinct (insert_by before (j, v) rows)
    unfolding insert_by get
    insert_by-IsDistinct j v [] absent d = (refl, tt)
    insert_by-IsDistinct j v ((i, w) ∷ rows) absent d = elim (Bool-cases (before (i, w) (j, v))) [
      | inl first ↦ rw first (
        ground (arith, absent, d.0, get-insert_by i j v rows, e.test_iff i j, e.test_iff j i),
        insert_by-IsDistinct j v rows (ground (arith, absent)) d.1,
      )
      | inr behind ↦ rw behind (absent, d)
    ]

    pub sort_by-IsDistinct :
        (rows : List (K × V)) → IsDistinct rows → IsDistinct (sort_by before rows)
    unfolding sort_by
    sort_by-IsDistinct [] d = tt
    sort_by-IsDistinct ((j, v) ∷ rows) d =
        insert_by-IsDistinct j v (sort_by before rows) (get-sort_by j rows d.1 ∙ d.0)
          (sort_by-IsDistinct rows d.1)
