-- ===== src/Client/HistoryStore/Refinement.antt =====
-- Client/historystore.cpp against what a client wants of it: one saved message for each id, with the
-- user it was saved for, and the last session.
use messenger_walkie_talkie.Prelude.{
  ◌<◌, ◌%◌, ◌^◌, String, ◌≡◌, refl, sym, ap, subst, ◌∙◌, Bool, true, false, not, ◌||◌, List, [],
  ◌∷◌, Option, none, some, arith, eq_iff, if◌then◌else◌, ◌==◌, string_eq, is_empty, All, eqb, inl,
  inr, Bool-cases,
}
use messenger_walkie_talkie.Prelude.Dict.{get, get-put, put-IsDistinct, IsDistinct}
use messenger_walkie_talkie.Prelude.Sql.{passing, get-filter, filter-IsDistinct}
use messenger_walkie_talkie.Client.FlowState.{LastSessionInfo, no_session, has_stored_identity}
use messenger_walkie_talkie.Client.ChatState.{ChatMessage}
use messenger_walkie_talkie.Client.HistoryStore.{
  HistoryStore, MessageRow, SessionRow, Row, tried, save_message, row_of, message_of,
  delete_messages, unless_of, delete_session_of, clear_user_data, save_last_session, session_of_row,
  clear_last_session,
}

-- The calls that write.
pub data Op : Type 0 where
  saves : String → ChatMessage → Op
  clears_user : String → Op
  saves_session : LastSessionInfo → Op
  clears_session : Op

unfoldable pub apply : Op → HistoryStore → HistoryStore
apply (saves owner m) h = save_message owner m h
apply (clears_user owner) h = clear_user_data owner h
apply (saves_session session) h = save_last_session session h
apply clears_session h = clear_last_session h

unfoldable pub apply_all : List Op → HistoryStore → HistoryStore
unfolding apply
apply_all [] h = h
apply_all (op ∷ ops) h = apply_all ops (apply op h)

-- The port is a quint16.
abbrev pub Fits : Op → Type 0
Fits (saves_session session) = session.port < 2 ^ 16
Fits _ = Unit

-- What is kept, as a client sees it.
pub record Archive : Type 0 where
  pub saved : String → Option (String × ChatMessage)
  pub session : LastSessionInfo

abbrev unless_owned : String → Option (String × ChatMessage) → Option (String × ChatMessage)
unless_owned owner none = none
unless_owned owner (some entry) = if entry.0 == owner then none else some entry

unfoldable pub replay : Op → Archive → Archive
unfolding has_stored_identity
replay (saves owner m) a =
    if is_empty owner || is_empty m.id
    then a
    else record a { saved = λ id. if m.id == id then some (owner, m) else a.saved id }
replay (clears_user owner) a = if is_empty owner then a else record {
  saved = λ id. unless_owned owner (a.saved id);
  session = if a.session.username == owner then no_session else a.session;
}
replay (saves_session session) a =
    if has_stored_identity session then record a { session = session } else a
replay clears_session a = record a { session = no_session }

unfoldable pub replay_all : List Op → Archive → Archive
unfolding replay
replay_all [] a = a
replay_all (op ∷ ops) a = replay_all ops (replay op a)

-- A row as an entry of the archive.
abbrev pub entry_of : String → Option MessageRow → Option (String × ChatMessage)
entry_of id none = none
entry_of id (some row) = some (row.owner_username, message_of (id, row))

-- A store that is open and whose statements do not fail.
abbrev pub file : List Row → Option SessionRow → HistoryStore
file rows session = record { is_open = true; messages = rows; last_session = session; faults = [] }

-- Such a store keeps what an archive says.
pub record IsArchive (h : HistoryStore) (a : Archive) : Type 0 where
  pub form : h ≡ file h.messages h.last_session
  pub distinct : IsDistinct h.messages
  pub kept : (id : String) → entry_of id (get id h.messages) ≡ a.saved id
  pub session : session_of_row h.last_session ≡ a.session

flag : (b : Bool) → not (eqb (if b then 1 else 0) 0) ≡ b
flag true = refl
flag false = refl

message_of-row_of : (owner : String) (m : ChatMessage) → message_of (m.id, row_of owner m) ≡ m
message_of-row_of owner m = ap (λ b. record m { outgoing = b }) (flag m.outgoing)

entry_of-save :
    (id owner : String) (m : ChatMessage) (o : Option MessageRow)
    → entry_of id (if m.id == id then some (row_of owner m) else o)
      ≡ (if m.id == id then some (owner, m) else entry_of id o)
entry_of-save id owner m o = elim (Bool-cases (m.id == id)) [
  | inl same ↦
      let saved : entry_of id (some (row_of owner m)) ≡ some (owner, m) =
        subst (λ j. entry_of j (some (row_of owner m)) ≡ some (owner, m)) ((eq_iff m.id id).0 same)
          (ap (λ n. some (owner, n)) (message_of-row_of owner m)) in
      ground (arith, saved, same)
  | inr other ↦ ground (arith, other)
]

entry_of-clear :
    (id owner : String) (o : Option MessageRow)
    → entry_of id (passing (λ (row : Row). not (row.1.owner_username == owner)) id o)
      ≡ unless_owned owner (entry_of id o)
entry_of-clear id owner none = refl
entry_of-clear id owner (some row) = ground arith

session-unless_of :
    (owner : String) (o : Option SessionRow)
    → is_empty owner ≡ false
    → session_of_row (unless_of owner o)
      ≡ (if (session_of_row o).username == owner then no_session else session_of_row o)
session-unless_of owner none h = ground (arith, eq_iff "" owner, eq_iff owner "")
session-unless_of owner (some row) h = ground arith

module _ (rows : List Row) (stored : Option SessionRow) (a : Archive) where
  saves-IsArchive :
      (owner : String) (m : ChatMessage)
      → IsArchive (file rows stored) a
      → IsArchive (save_message owner m (file rows stored)) (replay (saves owner m) a)
  unfolding save_message tried replay
  saves-IsArchive owner m v = elim (Bool-cases (is_empty owner || is_empty m.id)) [
    | inl nothing ↦ rw nothing v
    | inr given ↦ rw given record {
      form = refl;
      distinct = put-IsDistinct m.id (row_of owner m) rows v.distinct;
      kept = λ id.
          ap (entry_of id) (get-put m.id id (row_of owner m) rows)
          ∙ entry_of-save id owner m (get id rows)
          ∙ ap (λ o. if m.id == id then some (owner, m) else o) (v.kept id);
      session = v.session;
    }
  ]

  clears_user-IsArchive :
      (owner : String)
      → IsArchive (file rows stored) a
      → IsArchive (clear_user_data owner (file rows stored)) (replay (clears_user owner) a)
  unfolding clear_user_data delete_messages delete_session_of tried replay
  clears_user-IsArchive owner v = elim (Bool-cases (is_empty owner)) [
    | inl nothing ↦ rw nothing v
    | inr given ↦
        let test = λ (row : Row). not (row.1.owner_username == owner) in
        rw given record {
          form = refl;
          distinct = filter-IsDistinct test rows v.distinct;
          kept = λ id.
              ap (entry_of id) (get-filter test id rows v.distinct)
              ∙ entry_of-clear id owner (get id rows)
              ∙ ap (unless_owned owner) (v.kept id);
          session =
              session-unless_of owner stored given
              ∙ ap (λ (s : LastSessionInfo). if s.username == owner then no_session else s)
                  v.session;
        }
  ]

  saves_session-IsArchive :
      (session : LastSessionInfo)
      → session.port < 2 ^ 16
      → IsArchive (file rows stored) a
      → IsArchive (save_last_session session (file rows stored)) (replay (saves_session session) a)
  unfolding save_last_session tried replay
  saves_session-IsArchive session fits v = elim (Bool-cases (has_stored_identity session)) [
    | inl given ↦
        let port : session.port % 2 ^ 16 ≡ session.port = omega (arith, fits) in
        rw given record {
          form = refl;
          distinct = v.distinct;
          kept = v.kept;
          session = ap (λ p. record session { port = p }) port;
        }
    | inr nothing ↦ rw nothing v
  ]

  clears_session-IsArchive :
      IsArchive (file rows stored) a
      → IsArchive (clear_last_session (file rows stored)) (replay clears_session a)
  unfolding clear_last_session tried replay
  clears_session-IsArchive v = record {
    form = refl;
    distinct = v.distinct;
    kept = v.kept;
    session = refl;
  }

  apply-file :
      (op : Op)
      → Fits op
      → IsArchive (file rows stored) a
      → IsArchive (apply op (file rows stored)) (replay op a)
  unfolding apply
  apply-file (saves owner m) f v = saves-IsArchive owner m v
  apply-file (clears_user owner) f v = clears_user-IsArchive owner v
  apply-file (saves_session session) f v = saves_session-IsArchive session f v
  apply-file clears_session f v = clears_session-IsArchive v

pub apply-IsArchive :
    (op : Op) (h : HistoryStore) (a : Archive)
    → Fits op
    → IsArchive h a
    → IsArchive (apply op h) (replay op a)
apply-IsArchive op h a f v =
    subst (λ k. IsArchive (apply op k) (replay op a)) (sym v.form)
      (apply-file h.messages h.last_session a op f (subst (λ k. IsArchive k a) v.form v))

pub apply_all-IsArchive :
    (ops : List Op) (h : HistoryStore) (a : Archive)
    → All Fits ops
    → IsArchive h a
    → IsArchive (apply_all ops h) (replay_all ops a)
unfolding apply_all replay_all
apply_all-IsArchive [] h a f v = v
apply_all-IsArchive (op ∷ ops) h a f v =
    apply_all-IsArchive ops (apply op h) (replay op a) f.1 (apply-IsArchive op h a f.0 v)
