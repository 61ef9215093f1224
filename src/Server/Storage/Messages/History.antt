-- ===== src/Server/Storage/Messages/History.antt =====
-- Which private messages a history shows: loadPrivateHistory of Server/serverstorage.cpp.
use messenger_walkie_talkie.Prelude.{
  ℕ, zero, suc, min, max, String, ◌≡◌, refl, sym, ap, ◌∙◌, Bool, true, false, ◌&&◌, List, [], ◌∷◌,
  Option, none, some, arith, eq_iff, ◌==◌, string_eq, nat_eq, Bool-cases, inl, inr, codes,
  lex_le_trans, length, take, length-take, if◌then◌else◌,
}
use messenger_walkie_talkie.Prelude.Int.{ℤ, pos, negsuc, pos_part}
use messenger_walkie_talkie.Prelude.Dict.{get, IsDistinct}
use messenger_walkie_talkie.Prelude.Sort.{
  sort_by, IsSorted, IsSorted-same, sort_by-IsSorted, length-sort_by,
}
use messenger_walkie_talkie.Prelude.Sql.{
  filter, passing, get-filter, filter-IsDistinct, get-sort_by, sort_by-IsDistinct,
}
use messenger_walkie_talkie.Server.Storage.{MessageRow, Database}
use messenger_walkie_talkie.Server.Storage.Messages.{
  Row, earlier, later, is_between, load_private_history, at_least_one,
}
use messenger_walkie_talkie.Server.Storage.Messages.Pending.{
  earlier-asym, comes_before, comes_before-earlier,
}

-- Whether a row is from one of the two users to the other.
abbrev pub concerns : String → String → Row → Bool
concerns user other row =
    if row.1.from_user == user && row.1.to_user == other
    then true
    else if row.1.from_user == other
    then row.1.to_user == user
    else false

-- The row of a message, where it concerns the two.
abbrev pub exchanged : String → String → String → Option MessageRow → Option MessageRow
exchanged user other id none = none
exchanged user other id (some row) = if concerns user other (id, row) then some row else none

-- How many messages concern the two.
abbrev pub count_exchanged : String → String → List Row → ℕ
count_exchanged user other [] = 0
count_exchanged user other (row ∷ rows) =
    let rest = count_exchanged user other rows in if concerns user other row then suc rest else rest

passing-exchanged :
    (user other id : String) (o : Option MessageRow)
    → passing (is_between user other) id o ≡ exchanged user other id o
unfolding is_between
passing-exchanged user other id none = refl
passing-exchanged user other id (some row) = ground arith

length-between :
    (user other : String) (rows : List Row)
    → length (filter (is_between user other) rows) ≡ count_exchanged user other rows
unfolding filter is_between
length-between user other [] = refl
length-between user other (row ∷ rows) = ground (arith, length-between user other rows)

later-asym : (a b : Row) → later a b ≡ true → later b a ≡ false
unfolding later
later-asym a b h = earlier-asym b a h

later_trans : (a b c : Row) → later b a ≡ false → later c b ≡ false → later c a ≡ false
unfolding later earlier
later_trans a b c h k = ground (arith, lex_le_trans (codes c.0) (codes b.0) (codes a.0))

-- The first of a sorted list comes before no other.
head_first :
    (x : Row) (rows : List Row) (j : String) (r : MessageRow)
    → IsSorted later (x ∷ rows)
    → get j rows ≡ some r
    → later (j, r) x ≡ false
unfolding get
head_first x [] j r h there = absurd (ground (arith, there))
head_first x ((k, w) ∷ rows) j r h there = elim (Bool-cases (k == j)) [
  | inl same ↦ ground (arith, h.0, there, same, eq_iff k j)
  | inr other ↦
      later_trans x (k, w) (j, r) h.0
        (head_first (k, w) rows j r h.1 (ground (arith, there, other)))
]

tail-IsSorted : (x : Row) (rows : List Row) → IsSorted later (x ∷ rows) → IsSorted later rows
tail-IsSorted x [] h = tt
tail-IsSorted x (y ∷ rows) h = h.1

get-take :
    (n : ℕ) (rows : List Row) (i : String) (r : MessageRow)
    → get i (take n rows) ≡ some r
    → get i rows ≡ some r
unfolding get
get-take zero rows i r h = absurd (ground (arith, h))
get-take (suc n) [] i r h = h
get-take (suc n) ((k, w) ∷ rows) i r h = ground (arith, get-take n rows i r, h)

get-take_absent :
    (n : ℕ) (rows : List Row) (k : String) → get k rows ≡ none → get k (take n rows) ≡ none
unfolding get
get-take_absent zero rows k absent = refl
get-take_absent (suc n) [] k absent = refl
get-take_absent (suc n) ((j, v) ∷ rows) k absent = ground (arith, get-take_absent n rows k, absent)

take-IsDistinct : (n : ℕ) (rows : List Row) → IsDistinct rows → IsDistinct (take n rows)
take-IsDistinct zero rows d = tt
take-IsDistinct (suc n) [] d = tt
take-IsDistinct (suc n) ((k, w) ∷ rows) d =
    (get-take_absent n rows k d.0, take-IsDistinct n rows d.1)

-- What is taken of a sorted list, against what is left of it.
take_first :
    (n : ℕ) (rows : List Row) (i j : String) (r s : MessageRow)
    → IsSorted later rows
    → get i (take n rows) ≡ some r
    → get j rows ≡ some s
    → get j (take n rows) ≡ none
    → later (j, s) (i, r) ≡ false
unfolding get
take_first zero rows i j r s h taken there left = absurd (ground (arith, taken))
take_first (suc n) [] i j r s h taken there left = absurd (ground (arith, taken))
take_first (suc n) ((k, w) ∷ rows) i j r s h taken there left =
    let other : (k == j) ≡ false = ground (arith, left) in
    let below : get j rows ≡ some s = ground (arith, there, other) in
    elim (Bool-cases (k == i)) [
      | inl same ↦
          let first = head_first (k, w) rows j s h below in
          ground (arith, first, taken, same, eq_iff k i)
      | inr elsewhere ↦
          take_first n rows i j r s (tail-IsSorted (k, w) rows h) (ground (arith, taken, elsewhere))
            below (ground (arith, left, other))
    ]

limit_lem : (limit : ℤ) → at_least_one limit ≡ max 1 (pos_part limit)
limit_lem (pos n) = refl
limit_lem (negsuc n) = omega arith

found-exchanged :
    (user other i : String) (rows : List Row)
    → IsDistinct rows
    → get i (sort_by later (filter (is_between user other) rows))
      ≡ exchanged user other i (get i rows)
found-exchanged user other i rows d =
    get-sort_by later i (filter (is_between user other) rows)
      (filter-IsDistinct (is_between user other) rows d)
    ∙ get-filter (is_between user other) i rows d
    ∙ passing-exchanged user other i (get i rows)

later-earlier : (a b : Row) → earlier b a ≡ later a b
unfolding later
later-earlier a b = refl

-- Where no statement fails and no id is twice in the table, a history has as many messages as there are between
-- the two users, but no more than were asked for (at least one may be); it shows each of them once, with its row in
-- the table, in the order of their times and then of the code points of their ids; and no message between the two
-- that it leaves out comes behind one that it shows.
pub load_private_history_lem :
    (user other : String) (limit : ℤ) (db : Database)
    → IsDistinct db.messages
    → db.faults ≡ []
    → let shown = (load_private_history user other limit db).1 in
      (length shown ≡ min (max 1 (pos_part limit)) (count_exchanged user other db.messages))
      × IsDistinct shown
      × IsSorted comes_before shown
      × ((i : String) (row : MessageRow)
          → get i shown ≡ some row
          → exchanged user other i (get i db.messages) ≡ some row)
      × ((i j : String) (row left : MessageRow)
          → get i shown ≡ some row
          → exchanged user other j (get j db.messages) ≡ some left
          → get j shown ≡ none
          → comes_before (i, row) (j, left) ≡ false)
unfolding load_private_history
load_private_history_lem user other limit db d no_fault =
    let test = is_between user other in
    let between = filter test db.messages in
    let found = sort_by later between in
    let n = at_least_one limit in
    let newest = take n found in
    let d' = filter-IsDistinct test db.messages d in
    let d'' = take-IsDistinct n found (sort_by-IsDistinct later between d') in
    let sorted = sort_by-IsSorted later later-asym between in
    rw no_fault (
      length-sort_by earlier newest
          ∙ length-take n found
          ∙ ap (min n) (length-sort_by later between ∙ length-between user other db.messages)
          ∙ ap (λ m. min m (count_exchanged user other db.messages)) (limit_lem limit),
      sort_by-IsDistinct earlier newest d'',
      IsSorted-same earlier comes_before (sort_by earlier newest) comes_before-earlier
          (sort_by-IsSorted earlier earlier-asym newest),
      λ i row h.
          sym (found-exchanged user other i db.messages d)
          ∙ get-take n found i row (sym (get-sort_by earlier i newest d'') ∙ h),
      λ i j row left h there out.
          comes_before-earlier (i, row) (j, left)
          ∙ later-earlier (j, left) (i, row)
          ∙ take_first n found i j row left sorted (sym (get-sort_by earlier i newest d'') ∙ h)
              (found-exchanged user other j db.messages d ∙ there)
              (sym (get-sort_by earlier j newest d'') ∙ out),
    )
