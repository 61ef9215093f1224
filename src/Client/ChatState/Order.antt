-- ===== src/Client/ChatState/Order.antt =====
-- The order of the messages in a chat, messageComesBefore of Client/chatstate.cpp, and lists that
-- stand in it.
use messenger_walkie_talkie.Prelude.{
  String, ◌≡◌, refl, ◌∙◌, Bool, true, false, List, [], ◌∷◌, arith, eq_iff, ◌==◌, string_eq,
  str_le_trans, Bool-cases, inl, inr,
}
use messenger_walkie_talkie.Prelude.Dict.{put, get-put}
use messenger_walkie_talkie.Prelude.Sort.{has, IsSorted, IsSorted-tail}
use messenger_walkie_talkie.Client.ChatState.{
  ChatMessage, ChatSession, message_by_id, message_comes_before, id_comes_before, remove_all,
}

message_comes_before_trans :
    (a b c : ChatMessage)
    → message_comes_before b a ≡ false
    → message_comes_before c b ≡ false
    → message_comes_before c a ≡ false
unfolding message_comes_before
message_comes_before_trans a b c h k = ground (arith, str_le_trans a.id b.id c.id)

id_comes_before_trans :
    (s : ChatSession) (a b c : String)
    → id_comes_before s b a ≡ false
    → id_comes_before s c b ≡ false
    → id_comes_before s c a ≡ false
unfolding id_comes_before
id_comes_before_trans s a b c h k =
    message_comes_before_trans (message_by_id a s) (message_by_id b s) (message_by_id c s) h k

-- What is put before a sorted list, where it does not come after the head.
module _ (s : ChatSession) where
  IsSorted-skip :
      (a b : String) (ids : List String)
      → id_comes_before s b a ≡ false
      → IsSorted (id_comes_before s) (b ∷ ids)
      → IsSorted (id_comes_before s) (a ∷ ids)
  IsSorted-skip a b [] h k = tt
  IsSorted-skip a b (c ∷ ids) h k = (id_comes_before_trans s a b c h k.0, k.1)

  IsSorted-remove_after :
      (x a : String) (ids : List String)
      → IsSorted (id_comes_before s) (a ∷ ids)
      → IsSorted (id_comes_before s) (a ∷ remove_all x ids)
  unfolding remove_all
  IsSorted-remove_after x a [] h = tt
  IsSorted-remove_after x a (b ∷ ids) h = elim (Bool-cases (b == x)) [
    | inl gone ↦ rw gone (IsSorted-remove_after x a ids (IsSorted-skip a b ids h.0 h.1))
    | inr stays ↦ rw stays (h.0, IsSorted-remove_after x b ids h.1)
  ]

  pub remove_all-IsSorted :
      (x : String) (ids : List String)
      → IsSorted (id_comes_before s) ids
      → IsSorted (id_comes_before s) (remove_all x ids)
  unfolding remove_all
  remove_all-IsSorted x [] h = tt
  remove_all-IsSorted x (a ∷ ids) h = elim (Bool-cases (a == x)) [
    | inl gone ↦ rw gone (remove_all-IsSorted x ids (IsSorted-tail (id_comes_before s) a ids h))
    | inr stays ↦ rw stays (IsSorted-remove_after x a ids h)
  ]

-- A list that is sorted by one order is so by another that agrees on what it has.
pub IsSorted-agree :
    (before after : String → String → Bool) (ids : List String)
    → ((a b : String) → has a ids ≡ true → has b ids ≡ true → after a b ≡ before a b)
    → IsSorted before ids
    → IsSorted after ids
IsSorted-agree before after [] same h = tt
IsSorted-agree before after (a ∷ []) same h = tt
IsSorted-agree before after (a ∷ b ∷ ids) same h = (
  same b a (ground (arith, eq_iff b b)) (ground (arith, eq_iff a a)) ∙ h.0,
  IsSorted-agree before after (b ∷ ids)
      (λ x y u w. same x y (ground (arith, u)) (ground (arith, w))) h.1,
)

-- The order of two ids is that of the messages under them.
pub put-order :
    (id : String) (m : ChatMessage) (s : ChatSession) (chats : List (String × List String))
    (a b : String)
    → (id == a) ≡ false
    → (id == b) ≡ false
    → id_comes_before
        (record s { messages_by_id = put id m s.messages_by_id; chat_messages = chats })
        a
        b
      ≡ id_comes_before s a b
unfolding id_comes_before message_by_id
put-order id m s chats a b not_a not_b =
    rw (get-put id a m s.messages_by_id, get-put id b m s.messages_by_id, not_a, not_b) refl
