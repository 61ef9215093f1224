-- ===== src/Client/HistoryStore/Dialogs.antt =====
-- The dialogs that Client/historystore.cpp lists.
use messenger_walkie_talkie.Prelude.{
  String, ◌≡◌, refl, Bool, true, false, not, ◌&&◌, List, [], ◌∷◌, map, arith, eq_iff, ◌==◌,
  string_eq,
}
use messenger_walkie_talkie.Prelude.Sort.{has, any, insert_by, sort_by, has-sort_by}
use messenger_walkie_talkie.Prelude.Sql.{filter, name_before}
use messenger_walkie_talkie.Client.ChatState.{remove_duplicates}
use messenger_walkie_talkie.Client.HistoryStore.{
  HistoryStore, Row, message_of, is_in_chat, is_dialog_of, earlier, load_messages, load_dialogs,
}

abbrev pub has_some {ℓ} : {A : Type ℓ} → List A → Bool
has_some [] = false
has_some (x ∷ xs) = true

has_some-map {ℓ κ} :
    {A : Type ℓ} {B : Type κ} (f : A → B) (xs : List A) → has_some (map f xs) ≡ has_some xs
has_some-map f [] = refl
has_some-map f (x ∷ xs) = refl

has_some-insert_by {ℓ} :
    {A : Type ℓ} (before : A → A → Bool) (x : A) (xs : List A)
    → has_some (insert_by before x xs) ≡ true
unfolding insert_by
has_some-insert_by before x [] = refl
has_some-insert_by before x (y ∷ ys) = ground arith

has_some-sort_by {ℓ} :
    {A : Type ℓ} (before : A → A → Bool) (xs : List A) → has_some (sort_by before xs) ≡ has_some xs
unfolding sort_by
has_some-sort_by before [] = refl
has_some-sort_by before (x ∷ xs) = has_some-insert_by before x (sort_by before xs)

has_some-filter :
    (test : Row → Bool) (rows : List Row) → has_some (filter test rows) ≡ any test rows
unfolding filter
has_some-filter test [] = refl
has_some-filter test (row ∷ rows) = ground (arith, has_some-filter test rows)

has-remove_duplicates :
    (x : String) (seen xs : List String)
    → has x (remove_duplicates seen xs) ≡ (has x xs && not (has x seen))
unfolding remove_duplicates
has-remove_duplicates x seen [] = refl
has-remove_duplicates x seen (y ∷ ys) =
    ground
      (arith, eq_iff y x, has-remove_duplicates x seen ys, has-remove_duplicates x (y ∷ seen) ys)

has-keys :
    (owner chat : String) (rows : List Row)
    → has chat (map (λ (row : Row). row.1.chat_key) (filter (is_dialog_of owner) rows))
      ≡ (not (chat == "Broadcast") && any (is_in_chat owner chat) rows)
unfolding filter is_dialog_of is_in_chat
has-keys owner chat [] = ground arith
has-keys owner chat (row ∷ rows) =
    ground (arith, has-keys owner chat rows, eq_iff row.1.chat_key chat)

load_messages-has_some :
    (owner chat : String) (h : HistoryStore)
    → h.faults ≡ []
    → has_some (load_messages owner chat h).1
      ≡ (h.is_open && any (is_in_chat owner chat) h.messages)
unfolding load_messages
load_messages-has_some owner chat h no_fault =
    let found = filter (is_in_chat owner chat) h.messages in
    ground (
      arith,
      no_fault,
      has_some-map message_of (sort_by earlier found),
      has_some-sort_by earlier found,
      has_some-filter (is_in_chat owner chat) h.messages,
    )

load_dialogs-has :
    (owner chat : String) (h : HistoryStore)
    → h.faults ≡ []
    → has chat (load_dialogs owner h).1
      ≡ (h.is_open && (not (chat == "Broadcast") && any (is_in_chat owner chat) h.messages))
unfolding load_dialogs
load_dialogs-has owner chat h no_fault =
    let keys = map (λ (row : Row). row.1.chat_key) (filter (is_dialog_of owner) h.messages) in
    ground (
      arith,
      no_fault,
      has-sort_by name_before chat (remove_duplicates [] keys),
      has-remove_duplicates chat [] keys,
      has-keys owner chat h.messages,
    )

-- Where no statement fails, loadDialogs lists a chat exactly if it is not the broadcast chat and
-- loadMessages has a message of it, for the same user.
pub load_dialogs_lem :
    (owner chat : String) (h : HistoryStore)
    → h.faults ≡ []
    → has chat (load_dialogs owner h).1
      ≡ (not (chat == "Broadcast") && has_some (load_messages owner chat h).1)
load_dialogs_lem owner chat h no_fault =
    ground
      (arith, load_dialogs-has owner chat h no_fault, load_messages-has_some owner chat h no_fault)
