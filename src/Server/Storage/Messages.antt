-- ===== src/Server/Storage/Messages.antt =====
-- The messages of Server/serverstorage.h and Server/serverstorage.cpp: what is stored, marked and
-- loaded. SQLite orders texts by their bytes in UTF-8, which is the order of the code points.
-- An id is a text that is there. A packet without one has a null text, which Qt binds as NULL; the rows that SQLite
-- keeps for it, each store a new one, which no update finds again, are not modelled.
pub mod Life
pub mod Pending
pub mod History
use messenger_walkie_talkie.Prelude.{
  ℕ, ◌+◌, max, String, Bool, true, false, not, ◌&&◌, ◌||◌, List, [], ◌∷◌, ◌++◌, Option, none, some,
  map, ltb, leb, eqb, if◌then◌else◌, ◌==◌, string_eq, is_empty, take, lex, codes,
}
use messenger_walkie_talkie.Prelude.Int.{ℤ, pos, negsuc}
use messenger_walkie_talkie.Prelude.Dict.{get, put}
use messenger_walkie_talkie.Prelude.Sort.{has, sort_by}
use messenger_walkie_talkie.Prelude.Sql.{next_fails, filter, name_before}
use messenger_walkie_talkie.Server.Storage.{MessageRow, BroadcastRow, Database, tried, is_some}

-- ON CONFLICT(id) DO UPDATE: the first row of an id keeps its time.
abbrev broadcast_row : String → String → ℕ → Option BroadcastRow → BroadcastRow
broadcast_row from text created_at none = record {
  from_user = from;
  text = text;
  created_at = created_at;
}
broadcast_row from text created_at (some row) = record row { from_user = from; text = text }

unfoldable pub store_broadcast_message : String → String → String → ℕ → Database → Database × Bool
unfolding tried
store_broadcast_message id from text created_at db =
    let row = broadcast_row from text created_at (get id db.broadcast_messages) in
    if next_fails db.faults
    then (tried db, false)
    else (record (tried db) { broadcast_messages = put id row db.broadcast_messages }, true)

-- The same of a private message, which also keeps when it was delivered and read.
abbrev pub message_row : String → String → String → ℕ → Option MessageRow → MessageRow
message_row from to text created_at none = record {
  from_user = from;
  to_user = to;
  text = text;
  created_at = created_at;
  delivered_at = none;
  read_at = none;
}
message_row from to text created_at (some row) = record row {
  from_user = from;
  to_user = to;
  text = text;
}

unfoldable pub store_private_message :
    String → String → String → String → ℕ → Database → Database × Bool
unfolding tried
store_private_message id from to text created_at db =
    let row = message_row from to text created_at (get id db.messages) in
    if next_fails db.faults
    then (tried db, false)
    else (record (tried db) { messages = put id row db.messages }, true)

-- COALESCE
abbrev pub coalesce : Option ℕ → ℕ → Option ℕ
coalesce none now = some now
coalesce (some before) now = some before

-- UPDATE messages ... WHERE id = ?
abbrev pub update_row :
    String
    → (MessageRow → MessageRow)
    → Option MessageRow
    → List (String × MessageRow)
    → List (String × MessageRow)
update_row id f none rows = rows
update_row id f (some row) rows = put id (f row) rows

unfoldable pub mark_message_delivered : String → ℕ → Database → Database × Bool
unfolding tried
mark_message_delivered id now db =
    let mark = λ (row : MessageRow). record row { delivered_at = coalesce row.delivered_at now } in
    if next_fails db.faults then (tried db, false) else (
      record (tried db) { messages = update_row id mark (get id db.messages) db.messages },
      true,
    )

unfoldable pub mark_message_read : String → ℕ → Database → Database × Bool
unfolding tried
mark_message_read id now db =
    let mark = λ (row : MessageRow). record row {
      delivered_at = coalesce row.delivered_at now;
      read_at = some now;
    } in
    if next_fails db.faults then (tried db, false) else (
      record (tried db) { messages = update_row id mark (get id db.messages) db.messages },
      true,
    )

-- A row that a query gives, with its id.
abbrev pub Row : Type 0
Row = String × MessageRow

-- ORDER BY created_at ASC, id ASC
unfoldable pub earlier : Row → Row → Bool
earlier a b =
    ltb a.1.created_at b.1.created_at
    || (eqb a.1.created_at b.1.created_at && lex (codes a.0) (codes b.0))

-- ORDER BY created_at DESC, id DESC
unfoldable pub later : Row → Row → Bool
unfolding earlier
later a b = earlier b a

-- qMax(1, limit)
abbrev pub at_least_one : ℤ → ℕ
at_least_one (pos n) = max 1 n
at_least_one (negsuc n) = 1

-- The rows between two users.
unfoldable pub is_between : String → String → Row → Bool
is_between user other row =
    (row.1.from_user == user && row.1.to_user == other)
    || (row.1.from_user == other && row.1.to_user == user)

-- The status that a history shows.
abbrev pub status_of : MessageRow → String
status_of row =
    if is_some row.read_at
    then "read"
    else if is_some row.delivered_at
    then "delivered"
    else "sending"

unfoldable pub load_private_history : String → String → ℤ → Database → Database × List Row
unfolding tried is_between later
load_private_history user other limit db =
    let found = sort_by later (filter (is_between user other) db.messages) in
    if next_fails db.faults
    then (tried db, [])
    else (tried db, sort_by earlier (take (at_least_one limit) found))

abbrev pub Broadcast : Type 0
Broadcast = String × BroadcastRow

unfoldable earlier_broadcast : Broadcast → Broadcast → Bool
earlier_broadcast a b =
    ltb a.1.created_at b.1.created_at
    || (eqb a.1.created_at b.1.created_at && lex (codes a.0) (codes b.0))

unfoldable pub load_broadcast_history : ℤ → Database → Database × List Broadcast
unfolding tried earlier_broadcast
load_broadcast_history limit db =
    let found = sort_by (λ a b. earlier_broadcast b a) db.broadcast_messages in
    if next_fails db.faults
    then (tried db, [])
    else (tried db, sort_by earlier_broadcast (take (at_least_one limit) found))

-- WHERE to_user = ? AND delivered_at IS NULL
unfoldable pub is_pending_for : String → Row → Bool
is_pending_for user row = row.1.to_user == user && not (is_some row.1.delivered_at)

unfoldable pub load_pending_private_messages : String → Database → Database × List Row
unfolding tried is_pending_for earlier
load_pending_private_messages user db =
    if next_fails db.faults
    then (tried db, [])
    else (tried db, sort_by earlier (filter (is_pending_for user) db.messages))

-- The partners of a user: the receivers of what it sent and the senders of what it got.
unfoldable partners : String → List Row → List String
partners user [] = []
partners user ((id, row) ∷ rows) =
    let rest = partners user rows in
    (if row.from_user == user then row.to_user ∷ [] else [])
    ++ ((if row.to_user == user then row.from_user ∷ [] else []) ++ rest)

-- UNION and DISTINCT: each once. The empty name is left out by the loop over the rows.
unfoldable distinct_names : List String → List String
distinct_names [] = []
distinct_names (s ∷ ss) =
    let rest = distinct_names ss in if is_empty s || has s rest then rest else s ∷ rest

unfoldable pub load_dialog_users : String → Database → Database × List String
unfolding tried partners distinct_names name_before
load_dialog_users user db =
    if next_fails db.faults
    then (tried db, [])
    else (tried db, sort_by name_before (distinct_names (partners user db.messages)))
