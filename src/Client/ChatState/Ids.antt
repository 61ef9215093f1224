-- ===== src/Client/ChatState/Ids.antt =====
-- The lists of ids of Client/chatstate.cpp: which ids a chat has, and that it has none twice.
use messenger_walkie_talkie.Prelude.{
  String, ◌≡◌, refl, Bool, true, false, not, ◌&&◌, ◌||◌, List, [], ◌∷◌, ◌++◌, arith, eq_iff,
  if◌then◌else◌, ◌==◌, string_eq, is_empty,
}
use messenger_walkie_talkie.Prelude.Dict.{get, put, get-put}
use messenger_walkie_talkie.Prelude.Sort.{has, insert_by, sort_by, has-sort_by}
use messenger_walkie_talkie.Client.ChatState.{
  ChatMessage, ChatSession, ids_or_none, id_comes_before, sort_chat_messages, remove_all,
  leave_chat, join_chat,
}

abbrev pub Chats : Type 0
Chats = List (String × List String)

abbrev pub ids_of : String → Chats → List String
ids_of chat chats = ids_or_none (get chat chats)

abbrev pub is_listed : String → String → Chats → Bool
is_listed chat id chats = has id (ids_of chat chats)

abbrev pub each_once : List String → Bool
each_once [] = true
each_once (x ∷ xs) = not (has x xs) && each_once xs

abbrev pub has_each_once : String → Chats → Bool
has_each_once chat chats = each_once (ids_of chat chats)

pub ids_of-put_here :
    (key chat : String) (ids : List String) (chats : Chats)
    → (key == chat) ≡ true
    → ids_of chat (put key ids chats) ≡ ids
ids_of-put_here key chat ids chats same = ground (arith, get-put key chat ids chats, same)

pub ids_of-put_other :
    (key chat : String) (ids : List String) (chats : Chats)
    → (key == chat) ≡ false
    → ids_of chat (put key ids chats) ≡ ids_of chat chats
ids_of-put_other key chat ids chats other = ground (arith, get-put key chat ids chats, other)

has-remove_all :
    (x y : String) (xs : List String) → has x (remove_all y xs) ≡ (not (y == x) && has x xs)
unfolding remove_all
has-remove_all x y [] = ground arith
has-remove_all x y (z ∷ zs) =
    ground (arith, has-remove_all x y zs, eq_iff z x, eq_iff z y, eq_iff y x)

once-remove_all :
    (y : String) (xs : List String) → each_once xs ≡ true → each_once (remove_all y xs) ≡ true
unfolding remove_all
once-remove_all y [] h = refl
once-remove_all y (z ∷ zs) h = ground (arith, once-remove_all y zs, has-remove_all z y zs)

has-snoc : (x y : String) (xs : List String) → has x (xs ++ y ∷ []) ≡ (has x xs || y == x)
has-snoc x y [] = ground arith
has-snoc x y (z ∷ zs) = ground (arith, has-snoc x y zs)

once-snoc :
    (y : String) (xs : List String)
    → has y xs ≡ false
    → each_once xs ≡ true
    → each_once (xs ++ y ∷ []) ≡ true
once-snoc y [] absent h = refl
once-snoc y (z ∷ zs) absent h =
    ground (arith, once-snoc y zs, has-snoc z y zs, eq_iff z y, eq_iff y z)

module _ (before : String → String → Bool) where
  has-insert_by :
      (x y : String) (xs : List String) → has x (insert_by before y xs) ≡ (y == x || has x xs)
  unfolding insert_by
  has-insert_by x y [] = refl
  has-insert_by x y (z ∷ zs) = ground (arith, has-insert_by x y zs)

  once-insert_by :
      (y : String) (xs : List String)
      → each_once (insert_by before y xs) ≡ (not (has y xs) && each_once xs)
  unfolding insert_by
  once-insert_by y [] = refl
  once-insert_by y (z ∷ zs) =
      ground (arith, once-insert_by y zs, has-insert_by z y zs, eq_iff z y, eq_iff y z)

  once-sort_by : (xs : List String) → each_once (sort_by before xs) ≡ each_once xs
  unfolding sort_by
  once-sort_by [] = refl
  once-sort_by (x ∷ xs) =
      ground (arith, once-insert_by x (sort_by before xs), once-sort_by xs, has-sort_by before x xs)

-- Leaving a chat takes the id out of it.
pub leave_chat-listed :
    (previous : String) (m : ChatMessage) (chats : Chats) (chat id : String)
    → is_listed chat id (leave_chat previous m chats) ≡ (
        is_listed chat id chats
        && (is_empty previous
            || (previous == m.chat_key || (not (previous == chat) || not (m.id == id)))))
unfolding leave_chat
leave_chat-listed previous m chats chat id =
    let ids = ids_of previous chats in
    ground (
      arith,
      get-put previous chat (remove_all m.id ids) chats,
      has-remove_all id m.id ids,
      eq_iff previous chat,
    )

pub leave_chat-once :
    (previous : String) (m : ChatMessage) (chats : Chats) (chat : String)
    → ((c : String) → has_each_once c chats ≡ true)
    → has_each_once chat (leave_chat previous m chats) ≡ true
unfolding leave_chat
leave_chat-once previous m chats chat h =
    let ids = ids_of previous chats in
    ground (
      arith,
      get-put previous chat (remove_all m.id ids) chats,
      once-remove_all m.id ids (h previous),
      h chat,
    )

pub join_chat-listed :
    (m : ChatMessage) (chats : Chats) (chat id : String)
    → is_listed chat id (join_chat m chats)
      ≡ ((m.chat_key == chat && m.id == id) || is_listed chat id chats)
unfolding join_chat
join_chat-listed m chats chat id =
    let ids = ids_of m.chat_key chats in
    ground (
      arith,
      get-put m.chat_key chat (if has m.id ids then ids else ids ++ m.id ∷ []) chats,
      has-snoc id m.id ids,
      eq_iff m.chat_key chat,
      eq_iff m.id id,
    )

pub join_chat-once :
    (m : ChatMessage) (chats : Chats) (chat : String)
    → ((c : String) → has_each_once c chats ≡ true)
    → has_each_once chat (join_chat m chats) ≡ true
unfolding join_chat
join_chat-once m chats chat h =
    let ids = ids_of m.chat_key chats in
    ground (
      arith,
      get-put m.chat_key chat (if has m.id ids then ids else ids ++ m.id ∷ []) chats,
      once-snoc m.id ids,
      h m.chat_key,
      h chat,
    )

pub sort_chat-listed :
    (key : String) (s : ChatSession) (chat id : String)
    → is_listed chat id (sort_chat_messages key s).chat_messages ≡ is_listed chat id s.chat_messages
unfolding sort_chat_messages
sort_chat-listed key s chat id =
    let ids = ids_of key s.chat_messages in
    let before = id_comes_before s in
    ground (
      arith,
      get-put key chat (sort_by before ids) s.chat_messages,
      has-sort_by before id ids,
      eq_iff key chat,
    )

pub sort_chat-once :
    (key : String) (s : ChatSession) (chat : String)
    → has_each_once chat (sort_chat_messages key s).chat_messages
      ≡ has_each_once chat s.chat_messages
unfolding sort_chat_messages
sort_chat-once key s chat =
    let ids = ids_of key s.chat_messages in
    let before = id_comes_before s in
    ground (
      arith,
      get-put key chat (sort_by before ids) s.chat_messages,
      once-sort_by before ids,
      eq_iff key chat,
    )
