-- ===== src/Client/ChatState/Ordered.antt =====
-- The chats of Client/chatstate.cpp stand in the order of their messages.
use messenger_walkie_talkie.Prelude.{
  ℕ, String, ◌≡◌, sym, subst, ◌∙◌, false, ◌||◌, List, [], ◌∷◌, ◌++◌, arith, eq_iff, if◌then◌else◌,
  ◌==◌, string_eq, is_empty, Bool-cases, inl, inr,
}
use messenger_walkie_talkie.Prelude.Dict.{put, get-put_self}
use messenger_walkie_talkie.Prelude.Sort.{has, sort_by, IsSorted, sort_by-IsSorted}
use messenger_walkie_talkie.Client.ChatState.{
  ChatMessage, ChatSession, message_by_id, id_comes_before, sort_chat_messages, remove_all,
  leave_chat, join_chat, upsert_message,
}
use messenger_walkie_talkie.Client.ChatState.Upsert.{upserted, id_comes_before-asym}
use messenger_walkie_talkie.Client.ChatState.Ids.{Chats, ids_of, ids_of-put_here, ids_of-put_other}
use messenger_walkie_talkie.Client.ChatState.Order.{remove_all-IsSorted, IsSorted-agree, put-order}
use messenger_walkie_talkie.Client.ChatState.Filed.{IsFiledIn, upserted-id, moved-IsFiled}

-- Each chat with a name does so.
abbrev pub IsOrdered : ChatSession → Type 0
IsOrdered s =
    (chat : String)
    → is_empty chat ≡ false
    → IsSorted (id_comes_before s) (ids_of chat s.chat_messages)

-- A message changes that is not in a list.
pub elsewhere-IsSorted :
    (id : String) (m : ChatMessage) (s : ChatSession) (chats : Chats) (ids : List String)
    → has id ids ≡ false
    → IsSorted (id_comes_before s) ids
    → IsSorted
        (id_comes_before
          (record s { messages_by_id = put id m s.messages_by_id; chat_messages = chats }))
        ids
elsewhere-IsSorted id m s chats ids absent h =
    IsSorted-agree (id_comes_before s)
      (id_comes_before
        (record s { messages_by_id = put id m s.messages_by_id; chat_messages = chats }))
      ids
      (λ a b u w.
        put-order id m s chats a b (ground (arith, u, absent, eq_iff id a))
          (ground (arith, w, absent, eq_iff id b)))
      h

-- A chat is sorted, where the others are.
pub resorted-IsOrdered :
    (key : String) (s : ChatSession)
    → ((chat : String)
        → (key == chat) ≡ false
        → is_empty chat ≡ false
        → IsSorted (id_comes_before s) (ids_of chat s.chat_messages))
    → IsOrdered (sort_chat_messages key s)
unfolding sort_chat_messages id_comes_before message_by_id
resorted-IsOrdered key s others chat named =
    let ids = ids_of key s.chat_messages in
    let before = id_comes_before s in
    elim (Bool-cases (key == chat)) [
      | inl same ↦
          subst (IsSorted before)
            (sym (ids_of-put_here key chat (sort_by before ids) s.chat_messages same))
            (sort_by-IsSorted before (id_comes_before-asym s) ids)
      | inr other ↦
          subst (IsSorted before)
            (sym (ids_of-put_other key chat (sort_by before ids) s.chat_messages other))
            (others chat other named)
    ]

left_chat-IsSorted :
    (previous : String) (m : ChatMessage) (s : ChatSession) (chat : String)
    → is_empty chat ≡ false
    → IsOrdered s
    → IsSorted (id_comes_before s) (ids_of chat (leave_chat previous m s.chat_messages))
unfolding leave_chat
left_chat-IsSorted previous m s chat named v =
    let ids = ids_of previous s.chat_messages in
    elim (Bool-cases (is_empty previous || previous == m.chat_key)) [
      | inl stays ↦ rw stays (v chat named)
      | inr leaves ↦ rw leaves (elim (Bool-cases (previous == chat)) [
        | inl same ↦
            subst (IsSorted (id_comes_before s))
              (sym (ids_of-put_here previous chat (remove_all m.id ids) s.chat_messages same))
              (remove_all-IsSorted s m.id ids (v previous (ground (arith, leaves))))
        | inr other ↦
            subst (IsSorted (id_comes_before s))
              (sym (ids_of-put_other previous chat (remove_all m.id ids) s.chat_messages other))
              (v chat named)
      ])
    ]

pub upsert_message-IsOrdered :
    (now : ℕ) (source : ChatMessage) (s : ChatSession)
    → IsFiledIn s
    → IsOrdered s
    → IsOrdered (upsert_message now source s).0
unfolding upsert_message join_chat
upsert_message-IsOrdered now source s v ordered =
    let m = upserted now source s in
    let same = upserted-id now source s v in
    let moved = moved-IsFiled source.id m s same v in
    let left = leave_chat (message_by_id source.id s).chat_key m s.chat_messages in
    let chats = join_chat m left in
    let stored : ChatSession = record s {
      messages_by_id = put source.id m s.messages_by_id;
      chat_messages = chats;
    } in
    let ids = ids_of m.chat_key left in
    resorted-IsOrdered m.chat_key stored (λ chat other named.
      let unchanged : ids_of chat chats ≡ ids_of chat left =
        ids_of-put_other m.chat_key chat (if has m.id ids then ids else ids ++ m.id ∷ []) left
          other in
      elsewhere-IsSorted source.id m s chats (ids_of chat chats)
        (moved.filed chat source.id named
          ∙ ground (arith, get-put_self source.id m s.messages_by_id, other))
        (subst (IsSorted (id_comes_before s)) (sym unchanged)
          (left_chat-IsSorted (message_by_id source.id s).chat_key m s chat named ordered)))
