-- ===== src/Server/Storage/Messages/Life.antt =====
-- What Server/serverstorage.cpp keeps of a private message, whatever is called after it was stored.
use messenger_walkie_talkie.Prelude.{
  ℕ, ◌≤◌, String, ◌≡◌, ◌⊎◌, refl, sym, ap, subst, ◌∙◌, inl, inr, Bool, true, false, List, [], ◌∷◌,
  Option, none, some, arith, eq_iff, if◌then◌else◌, ◌==◌, string_eq, Bool-cases,
}
use messenger_walkie_talkie.Prelude.Dict.{get, put, get-put}
use messenger_walkie_talkie.Prelude.Sql.{next_fails}
use messenger_walkie_talkie.Server.Storage.{MessageRow, Database, tried, is_some}
use messenger_walkie_talkie.Server.Storage.Messages.{
  message_row, coalesce, update_row, store_broadcast_message, store_private_message,
  mark_message_delivered, mark_message_read,
}

-- The calls that write messages.
pub data Op : Type 0 where
  stores_private : String → String → String → String → ℕ → Op
  stores_broadcast : String → String → String → ℕ → Op
  delivers reads : String → ℕ → Op

unfoldable pub apply_op : Op → Database → Database
unfolding store_private_message store_broadcast_message mark_message_delivered mark_message_read
apply_op (stores_private id from to text now) db = (store_private_message id from to text now db).0
apply_op (stores_broadcast id from text now) db = (store_broadcast_message id from text now db).0
apply_op (delivers id now) db = (mark_message_delivered id now db).0
apply_op (reads id now) db = (mark_message_read id now db).0

unfoldable pub apply_ops : List Op → Database → Database
apply_ops [] db = db
apply_ops (op ∷ ops) db = apply_ops ops (apply_op op db)

-- How far a message is: sending, delivered or read.
abbrev rank : MessageRow → ℕ
rank row = if is_some row.read_at then 2 else if is_some row.delivered_at then 1 else 0

-- What stays of a row.
abbrev Keeps : MessageRow → MessageRow → Type 0
Keeps row row' =
    (row'.created_at ≡ row.created_at)
    × ((row.delivered_at ≡ none) ⊎ (row'.delivered_at ≡ row.delivered_at))
    × (rank row ≤ rank row')

abbrev pub Kept : MessageRow → Option MessageRow → Type 0
Kept row none = ⊥
Kept row (some row') = Keeps row row'

Keeps-refl : (row : MessageRow) → Keeps row row
Keeps-refl row = (refl, inr refl, omega arith)

coalesce-Keeps :
    (row : MessageRow) (now : ℕ)
    → Keeps row (record row { delivered_at = coalesce row.delivered_at now })
coalesce-Keeps row now = (refl, ground arith, ground arith)

read-Keeps :
    (row : MessageRow) (now : ℕ)
    → Keeps row (record row { delivered_at = coalesce row.delivered_at now; read_at = some now })
read-Keeps row now = (refl, ground arith, ground arith)

Kept-put :
    (key id : String) (row new : MessageRow) (rows : List (String × MessageRow))
    → get key rows ≡ some row
    → ((id ≡ key) → Keeps row new)
    → Kept row (get key (put id new rows))
Kept-put key id row new rows there keeps = elim (Bool-cases (id == key)) [
  | inl same ↦ rw (get-put id key new rows, same) (keeps ((eq_iff id key).0 same))
  | inr other ↦ rw (get-put id key new rows, other, there) (Keeps-refl row)
]

Kept-update :
    (key id : String) (row : MessageRow) (f : MessageRow → MessageRow)
    (rows : List (String × MessageRow))
    → get key rows ≡ some row
    → Keeps row (f row)
    → (found : Option MessageRow) → get id rows ≡ found
    → Kept row (get key (update_row id f found rows))
Kept-update key id row f rows there keeps none h = rw there (Keeps-refl row)
Kept-update key id row f rows there keeps (some old) h =
    Kept-put key id row (f old) rows there (λ same.
      let e : some old ≡ some row = sym h ∙ ap (λ k. get k rows) same ∙ there in
      let e' : old ≡ row = cc in subst (λ r. Keeps row (f r)) (sym e') keeps)

Kept-store :
    (key id from to text : String) (now : ℕ) (row : MessageRow) (rows : List (String × MessageRow))
    → get key rows ≡ some row
    → (found : Option MessageRow) → get id rows ≡ found
    → Kept row (get key (put id (message_row from to text now found) rows))
Kept-store key id from to text now row rows there none h =
    Kept-put key id row (message_row from to text now none) rows there (λ same.
      absurd (let e : none ≡ some row = sym h ∙ ap (λ k. get k rows) same ∙ there in ground arith))
Kept-store key id from to text now row rows there (some old) h =
    Kept-put key id row (message_row from to text now (some old)) rows there (λ same.
      let e : some old ≡ some row = sym h ∙ ap (λ k. get k rows) same ∙ there in
      let e' : old ≡ row = cc in
      subst (λ r. Keeps row (record r { from_user = from; to_user = to; text = text })) (sym e')
        (Keeps-refl row))

-- A statement keeps the row if it does so when it fails and when it does not.
Kept-either :
    (key : String) (row : MessageRow) (failed done : Database × Bool) (b : Bool)
    → Kept row (get key failed.0.messages)
    → Kept row (get key done.0.messages)
    → Kept row (get key (if b then failed else done).0.messages)
Kept-either key row failed done true kept kept' = kept
Kept-either key row failed done false kept kept' = kept'

Kept-tried :
    (key : String) (row : MessageRow) (db : Database)
    → get key db.messages ≡ some row
    → Kept row (get key (tried db).messages)
unfolding tried
Kept-tried key row db there = rw there (Keeps-refl row)

apply_op-Kept :
    (op : Op) (key : String) (row : MessageRow) (db : Database)
    → get key db.messages ≡ some row
    → Kept row (get key (apply_op op db).messages)
unfolding apply_op
apply_op-Kept (stores_private id from to text now) key row db there =
    Kept-either key row _ _ (next_fails db.faults) (Kept-tried key row db there)
      (Kept-store key id from to text now row db.messages there (get id db.messages) refl)
apply_op-Kept (stores_broadcast id from text now) key row db there =
    Kept-either key row _ _ (next_fails db.faults) (Kept-tried key row db there)
      (Kept-tried key row db there)
apply_op-Kept (delivers id now) key row db there =
    Kept-either key row _ _ (next_fails db.faults) (Kept-tried key row db there) (
      Kept-update key id row _ db.messages there (coalesce-Keeps row now) (get id db.messages) refl)
apply_op-Kept (reads id now) key row db there =
    Kept-either key row _ _ (next_fails db.faults) (Kept-tried key row db there)
      (Kept-update key id row _ db.messages there (read-Keeps row now) (get id db.messages) refl)

Keeps-trans : (a b c : MessageRow) → Keeps a b → Keeps b c → Keeps a c
Keeps-trans a b c (t, d, r) (t', d', r') = (t' ∙ t, ground arith, omega arith)

Kept-trans : (a b : MessageRow) (o : Option MessageRow) → Keeps a b → Kept b o → Kept a o
Kept-trans a b none h k = k
Kept-trans a b (some c) h k = Keeps-trans a b c h k

-- A first step and the calls after it.
Kept-then :
    (key : String) (row : MessageRow) (db : Database) (o last : Option MessageRow)
    → get key db.messages ≡ o
    → Kept row o
    → ((row' : MessageRow) → get key db.messages ≡ some row' → Kept row' last)
    → Kept row last
Kept-then key row db none last e kept rest = absurd kept
Kept-then key row db (some row') last e kept rest = Kept-trans row row' last kept (rest row' e)

-- Whatever calls come after a private message is in the table, and whichever of them fail, the message stays
-- there with the time of its first storing, once delivered it keeps the time of its delivery, and
-- its status never goes back from read to delivered or to sending.
pub apply_ops-Kept :
    (ops : List Op) (key : String) (row : MessageRow) (db : Database)
    → get key db.messages ≡ some row
    → Kept row (get key (apply_ops ops db).messages)
unfolding apply_ops
apply_ops-Kept [] key row db there = rw there (Keeps-refl row)
apply_ops-Kept (op ∷ ops) key row db there =
    Kept-then key row (apply_op op db) _ _ refl (apply_op-Kept op key row db there)
      (λ row' e. apply_ops-Kept ops key row' (apply_op op db) e)
