-- ===== src/Client/HistoryStore/Loaded.antt =====
-- What Client/historystore.cpp gives back after any calls that write.
use messenger_walkie_talkie.Prelude.{
  String, ◌≡◌, refl, sym, ap, subst, ◌∙◌, Bool, true, false, not, ◌&&◌, ◌||◌, List, [], ◌∷◌, Option,
  none, some, map, arith, eq_iff, if◌then◌else◌, ◌==◌, string_eq, is_empty, All, lex, lex-asym,
  codes,
}
use messenger_walkie_talkie.Prelude.Int.{ltb_ℤ}
use messenger_walkie_talkie.Prelude.Dict.{get, IsDistinct}
use messenger_walkie_talkie.Prelude.Sort.{IsSorted, sort_by, sort_by-IsSorted}
use messenger_walkie_talkie.Prelude.Sql.{
  filter, passing, get-filter, filter-IsDistinct, get-sort_by,
}
use messenger_walkie_talkie.Client.ChatState.{ChatMessage}
use messenger_walkie_talkie.Client.HistoryStore.{
  HistoryStore, MessageRow, SessionRow, Row, save_message, message_of, is_in_chat, earlier,
  load_messages, load_last_session,
}
use messenger_walkie_talkie.Client.HistoryStore.Refinement.{
  Op, saves, apply, apply_all, Fits, Archive, entry_of, replay, replay_all, file, IsArchive,
  apply_all-IsArchive, apply-IsArchive,
}

-- The message of an id among loaded ones.
abbrev pub find_message : String → List ChatMessage → Option ChatMessage
find_message id [] = none
find_message id (m ∷ ms) = if m.id == id then some m else find_message id ms

-- The saved message of an id, if it is one of a user's chat.
abbrev pub shown : String → String → Option (String × ChatMessage) → Option ChatMessage
shown owner chat none = none
shown owner chat (some entry) =
    if entry.0 == owner && entry.1.chat_key == chat then some entry.1 else none

-- The order of the times and then of the ids.
abbrev pub is_earlier : ChatMessage → ChatMessage → Bool
is_earlier a b =
    ltb_ℤ a.created_at b.created_at
    || (not (ltb_ℤ b.created_at a.created_at) && lex (codes a.id) (codes b.id))

abbrev as_message : String → Option MessageRow → Option ChatMessage
as_message id none = none
as_message id (some row) = some (message_of (id, row))

find_message-map :
    (id : String) (rows : List Row)
    → find_message id (map message_of rows) ≡ as_message id (get id rows)
unfolding get
find_message-map id [] = refl
find_message-map id ((j, row) ∷ rows) = ground (arith, eq_iff j id, find_message-map id rows)

shown-entry_of :
    (owner chat id : String) (o : Option MessageRow)
    → as_message id (passing (is_in_chat owner chat) id o) ≡ shown owner chat (entry_of id o)
unfolding is_in_chat
shown-entry_of owner chat id none = refl
shown-entry_of owner chat id (some row) = ground arith

earlier-asym : (a b : Row) → earlier a b ≡ true → earlier b a ≡ false
unfolding earlier
earlier-asym a b h = ground (arith, lex-asym (codes a.0) (codes b.0))

map-IsSorted : (rows : List Row) → IsSorted earlier rows → IsSorted is_earlier (map message_of rows)
unfolding earlier
map-IsSorted [] h = tt
map-IsSorted (x ∷ []) h = tt
map-IsSorted (x ∷ y ∷ rows) h = (h.0, map-IsSorted (y ∷ rows) h.1)

module _ (owner chat : String) where
  load_messages-file :
      (id : String) (rows : List Row) (stored : Option SessionRow)
      → IsDistinct rows
      → find_message id (load_messages owner chat (file rows stored)).1
        ≡ shown owner chat (entry_of id (get id rows))
  unfolding load_messages
  load_messages-file id rows stored d =
      let found = filter (is_in_chat owner chat) rows in
      find_message-map id (sort_by earlier found)
      ∙ ap (as_message id) (
          get-sort_by earlier id found (filter-IsDistinct (is_in_chat owner chat) rows d)
          ∙ get-filter (is_in_chat owner chat) id rows d)
      ∙ shown-entry_of owner chat id (get id rows)

  load_messages-IsArchive :
      (id : String) (h : HistoryStore) (a : Archive)
      → IsArchive h a
      → find_message id (load_messages owner chat h).1 ≡ shown owner chat (a.saved id)
  load_messages-IsArchive id h a v =
      ap (λ k. find_message id (load_messages owner chat k).1) v.form
      ∙ load_messages-file id h.messages h.last_session v.distinct
      ∙ ap (shown owner chat) (v.kept id)

  load_messages-IsSorted :
      (h : HistoryStore) (a : Archive)
      → IsArchive h a
      → IsSorted is_earlier (load_messages owner chat h).1
  unfolding load_messages
  load_messages-IsSorted h a v =
      subst (λ k. IsSorted is_earlier (load_messages owner chat k).1) (sym v.form)
        (map-IsSorted (sort_by earlier (filter (is_in_chat owner chat) h.messages))
          (sort_by-IsSorted earlier earlier-asym (filter (is_in_chat owner chat) h.messages)))

load_last_session-IsArchive :
    (h : HistoryStore) (a : Archive) → IsArchive h a → (load_last_session h).1 ≡ a.session
unfolding load_last_session
load_last_session-IsArchive h a v = ap (λ k. (load_last_session k).1) v.form ∙ v.session

-- Where no statement fails, after any calls that write the store is the archive that the same calls make, on which a
-- message is a function of its id: what loadMessages gives for a user and a chat is, for each id, the message that was
-- saved last under it, if that was for this user and chat and was not cleared since; the
-- messages stand in the order of their times and then of their ids; and loadLastSession gives the session that was saved
-- last, if it was not cleared since.
pub load_messages-refines :
    (ops : List Op) (h : HistoryStore) (a : Archive) (owner chat id : String)
    → All Fits ops
    → IsArchive h a
    → (find_message id (load_messages owner chat (apply_all ops h)).1
        ≡ shown owner chat ((replay_all ops a).saved id))
      × IsSorted is_earlier (load_messages owner chat (apply_all ops h)).1
      × ((load_last_session (apply_all ops h)).1 ≡ (replay_all ops a).session)
load_messages-refines ops h a owner chat id f v =
    let k = apply_all ops h in
    let b = replay_all ops a in
    let w = apply_all-IsArchive ops h a f v in
    (
      load_messages-IsArchive owner chat id k b w,
      load_messages-IsSorted owner chat k b w,
      load_last_session-IsArchive k b w,
    )

-- Two users of one file do not both keep a message: where no statement fails, saving it for one takes it from all chats of
-- another.
pub save_message-other_owner :
    (owner other chat : String) (m : ChatMessage) (h : HistoryStore) (a : Archive)
    → IsArchive h a
    → is_empty owner ≡ false
    → is_empty m.id ≡ false
    → (owner == other) ≡ false
    → find_message m.id (load_messages other chat (save_message owner m h)).1 ≡ none
unfolding apply replay
save_message-other_owner owner other chat m h a v named given differs =
    load_messages-IsArchive other chat m.id (save_message owner m h) (replay (saves owner m) a)
      (apply-IsArchive (saves owner m) h a tt v)
    ∙ ground (arith, named, given, differs, eq_iff m.id m.id)
