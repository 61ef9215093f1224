-- ===== src/Server/Storage/Messages/Pending.antt =====
-- Which private messages wait for a user: loadPendingPrivateMessages of Server/serverstorage.cpp.
use messenger_walkie_talkie.Prelude.{
  String, ◌≡◌, refl, ◌∙◌, Bool, true, false, List, [], ◌∷◌, Option, none, some, arith, eq_iff, ◌==◌,
  string_eq, nat_eq, Bool-cases, inl, inr, codes, lex, lex-asym, ltb, if◌then◌else◌,
}
use messenger_walkie_talkie.Prelude.Dict.{get, IsDistinct}
use messenger_walkie_talkie.Prelude.Sort.{
  sort_by, IsSorted, IsSorted-same, sort_by-IsSorted, any, any-sort_by,
}
use messenger_walkie_talkie.Prelude.Sql.{
  filter, passing, get-filter, filter-IsDistinct, get-sort_by, sort_by-IsDistinct,
}
use messenger_walkie_talkie.Server.Storage.{MessageRow, Database}
use messenger_walkie_talkie.Server.Storage.Messages.{
  Row, earlier, is_pending_for, load_pending_private_messages,
}

-- Whether a message is among rows.
abbrev pub listed : String → List Row → Bool
listed id rows = any (λ row. row.0 == id) rows

-- Whether the row of a message, if there is one, passes a test.
abbrev pub row_passes : (Row → Bool) → String → Option MessageRow → Bool
row_passes test id none = false
row_passes test id (some row) = test (id, row)

listed-absent :
    (test : Row → Bool) (id : String) (rows : List Row)
    → get id rows ≡ none
    → listed id (filter test rows) ≡ false
unfolding get filter
listed-absent test id [] absent = refl
listed-absent test id ((j, w) ∷ rows) absent = ground (arith, listed-absent test id rows)

listed-filter :
    (test : Row → Bool) (id : String) (rows : List Row)
    → IsDistinct rows
    → listed id (filter test rows) ≡ row_passes test id (get id rows)
unfolding get filter
listed-filter test id [] d = refl
listed-filter test id ((j, w) ∷ rows) d = elim (Bool-cases (j == id)) [
  | inl same ↦ ground (arith, (eq_iff j id).0 same, listed-absent test j rows, d.0, same)
  | inr other ↦ ground (arith, listed-filter test id rows d.1, other)
]

pub earlier-asym : (a b : Row) → earlier a b ≡ true → earlier b a ≡ false
unfolding earlier
earlier-asym a b h = ground (arith, lex-asym (codes a.0) (codes b.0))

-- A message that is listed where its row says that it waits.
pub pending-listed :
    (user id : String) (db : Database)
    → IsDistinct db.messages
    → db.faults ≡ []
    → listed id (load_pending_private_messages user db).1
      ≡ row_passes (is_pending_for user) id (get id db.messages)
unfolding load_pending_private_messages
pending-listed user id db d no_fault =
    let found = filter (is_pending_for user) db.messages in
    rw no_fault (
      any-sort_by earlier (λ row. row.0 == id) found
      ∙ listed-filter (is_pending_for user) id db.messages d)

-- Times first, and then ids by their code points.
abbrev pub comes_before : Row → Row → Bool
comes_before a b =
    if a.1.created_at == b.1.created_at
    then lex (codes a.0) (codes b.0)
    else ltb a.1.created_at b.1.created_at

pub comes_before-earlier : (a b : Row) → comes_before a b ≡ earlier a b
unfolding earlier
comes_before-earlier a b = ground arith

-- The row of a message, where it is to the user and was not delivered.
abbrev pub undelivered : String → Option MessageRow → Option MessageRow
undelivered user none = none
undelivered user (some row) = elim row.delivered_at [
  | some time ↦ none
  | none ↦ if row.to_user == user then some row else none
]

passing-undelivered :
    (user id : String) (o : Option MessageRow)
    → passing (is_pending_for user) id o ≡ undelivered user o
unfolding is_pending_for
passing-undelivered user id none = refl
passing-undelivered user id (some row) = ground arith

-- Where no statement fails and no id is twice in the table, the messages that wait for a user are
-- exactly the rows of the table that are to that user and have no time of delivery, each once, in the
-- order of their times and then of the code points of their ids.
pub load_pending_private_messages_lem :
    (user id : String) (db : Database)
    → IsDistinct db.messages
    → db.faults ≡ []
    → (get id (load_pending_private_messages user db).1 ≡ undelivered user (get id db.messages))
      × IsDistinct (load_pending_private_messages user db).1
      × IsSorted comes_before (load_pending_private_messages user db).1
unfolding load_pending_private_messages
load_pending_private_messages_lem user id db d no_fault =
    let found = filter (is_pending_for user) db.messages in
    let d' = filter-IsDistinct (is_pending_for user) db.messages d in
    rw no_fault (
      get-sort_by earlier id found d'
          ∙ get-filter (is_pending_for user) id db.messages d
          ∙ passing-undelivered user id (get id db.messages),
      sort_by-IsDistinct earlier found d',
      IsSorted-same earlier comes_before (sort_by earlier found) comes_before-earlier
          (sort_by-IsSorted earlier earlier-asym found),
    )
