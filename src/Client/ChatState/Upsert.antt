-- ===== src/Client/ChatState/Upsert.antt =====
-- What Client/chatstate.cpp shows of a message once it was put in.
use messenger_walkie_talkie.Prelude.{
  ℕ, String, ◌≡◌, refl, sym, ap, subst, ◌∙◌, true, false, List, [], ◌∷◌, ◌++◌, some, arith, eq_iff,
  if◌then◌else◌, string_eq, str_lt, str_lt-asym, Option, none, Bool, ◌==◌, Bool-cases, inl, inr,
}
use messenger_walkie_talkie.Prelude.Int.{ℤ, pos, ltb_ℤ, leb_ℤ}
use messenger_walkie_talkie.Prelude.Dict.{get, put, get-put_self}
use messenger_walkie_talkie.Prelude.Sort.{
  has, sort_by, has-sort_by, IsSorted, sort_by-IsSorted, IsSorted-same,
}
use messenger_walkie_talkie.Client.ChatState.{
  ChatMessage, ChatSession, ids_or_none, message_by_id, message_comes_before, id_comes_before,
  sort_chat_messages, merged, leave_chat, join_chat, with_time, upsert_message,
}

message_comes_before-asym :
    (a b : ChatMessage) → message_comes_before a b ≡ true → message_comes_before b a ≡ false
unfolding message_comes_before
message_comes_before-asym a b h = ground (arith, str_lt-asym a.id b.id)

pub id_comes_before-asym :
    (s : ChatSession) (a b : String) → id_comes_before s a b ≡ true → id_comes_before s b a ≡ false
unfolding id_comes_before
id_comes_before-asym s a b h = message_comes_before-asym (message_by_id a s) (message_by_id b s) h

has-append : (k : String) (ids : List String) → has k (ids ++ k ∷ []) ≡ true
has-append k [] = ground (arith, eq_iff k k)
has-append k (j ∷ js) = ground (arith, has-append k js)

joined : (k : String) (ids : List String) → has k (if has k ids then ids else ids ++ k ∷ []) ≡ true
joined k ids = elim (Bool-cases (has k ids)) [
  | inl there ↦ rw (there, there) refl
  | inr absent ↦ rw absent (has-append k ids)
]

-- The message that upsertMessage stores.
abbrev pub upserted : ℕ → ChatMessage → ChatSession → ChatMessage
upserted now source s = merged (with_time now source) (get source.id s.messages_by_id)

-- The ids of a chat after it was sorted, and after a message joined it.
sorted_ids :
    (chat_key : String) (s : ChatSession)
    → ids_or_none (get chat_key (sort_chat_messages chat_key s).chat_messages)
      ≡ sort_by (id_comes_before s) (ids_or_none (get chat_key s.chat_messages))
unfolding sort_chat_messages
sorted_ids chat_key s = ap ids_or_none (
    get-put_self chat_key (sort_by (id_comes_before s) (ids_or_none (get chat_key s.chat_messages)))
      s.chat_messages)

sorted_order :
    (chat_key : String) (s : ChatSession)
    → id_comes_before (sort_chat_messages chat_key s) ≡ id_comes_before s
unfolding id_comes_before message_by_id sort_chat_messages
sorted_order chat_key s = refl

joined_ids :
    (m : ChatMessage) (chats : List (String × List String))
    → has m.id (ids_or_none (get m.chat_key (join_chat m chats))) ≡ true
unfolding join_chat
joined_ids m chats =
    let ids = ids_or_none (get m.chat_key chats) in
    ap (λ o. has m.id (ids_or_none o))
      (get-put_self m.chat_key (if has m.id ids then ids else ids ++ m.id ∷ []) chats)
    ∙ joined m.id ids

-- The message that is to be shown: the given one, in the chat of the one that is there where it names
-- none, and at the clock's time where it has none.
abbrev pub wanted : ℕ → ChatMessage → ChatSession → ChatMessage
wanted now source s = record {
  id = elim (get source.id s.messages_by_id) [ none ↦ source.id | some old ↦ old.id ];
  chat_key = elim (get source.id s.messages_by_id) [
    | none ↦ source.chat_key
    | some old ↦ if source.chat_key == "" then old.chat_key else source.chat_key
  ];
  author = source.author;
  text = source.text;
  status = source.status;
  outgoing = source.outgoing;
  created_at = if ltb_ℤ (pos 0) source.created_at then source.created_at else pos now;
}

timed-wanted :
    (now : ℕ) (time : ℤ)
    → (if leb_ℤ time (pos 0) then pos now else time)
      ≡ (if ltb_ℤ (pos 0) time then time else pos now)
timed-wanted now time = ground arith

merged-wanted :
    (now : ℕ) (source : ChatMessage) (s : ChatSession) (o : Option ChatMessage)
    → get source.id s.messages_by_id ≡ o
    → upserted now source s ≡ wanted now source s
unfolding merged
merged-wanted now source s none absent =
    rw absent
      (ap (λ time. record source { created_at = time }) (timed-wanted now source.created_at))
merged-wanted now source s (some old) there = rw there (
    ap
      (λ time. record {
        id = old.id;
        chat_key = if source.chat_key == "" then old.chat_key else source.chat_key;
        author = source.author;
        text = source.text;
        status = source.status;
        outgoing = source.outgoing;
        created_at = time;
      })
      (timed-wanted now source.created_at))

-- The order of two messages of a session: by their times, and then by their ids.
abbrev pub stands_before : ChatSession → String → String → Bool
stands_before s a b =
    let left = message_by_id a s in
    let right = message_by_id b s in
    if ltb_ℤ left.created_at right.created_at
    then true
    else if ltb_ℤ right.created_at left.created_at
    then false
    else str_lt left.id right.id

stands_before-same : (s : ChatSession) (a b : String) → stands_before s a b ≡ id_comes_before s a b
unfolding id_comes_before message_comes_before
stands_before-same s a b = ground arith

stored_lem :
    (now : ℕ) (source : ChatMessage) (s : ChatSession)
    → (get source.id (upsert_message now source s).0.messages_by_id ≡ some (upserted now source s))
      × (has (upserted now source s).id (
            ids_or_none
              (get (upserted now source s).chat_key (upsert_message now source s).0.chat_messages))
          ≡ true)
      × IsSorted (id_comes_before (upsert_message now source s).0) (
          ids_or_none
            (get (upserted now source s).chat_key (upsert_message now source s).0.chat_messages))
unfolding upsert_message
stored_lem now source s =
    let m = upserted now source s in
    let chats = leave_chat (message_by_id source.id s).chat_key m s.chat_messages in
    let stored : ChatSession = record s {
      messages_by_id = put source.id m s.messages_by_id;
      chat_messages = join_chat m chats;
    } in
    let ids = ids_or_none (get m.chat_key stored.chat_messages) in
    (
      get-put_self source.id m s.messages_by_id,
      ap (has m.id) (sorted_ids m.chat_key stored)
          ∙ has-sort_by (id_comes_before stored) m.id ids
          ∙ joined_ids m chats,
      subst
          (λ before.
            IsSorted before
              (ids_or_none (get m.chat_key (sort_chat_messages m.chat_key stored).chat_messages)))
          (sym (sorted_order m.chat_key stored))
          (subst (IsSorted (id_comes_before stored)) (sym (sorted_ids m.chat_key stored))
            (sort_by-IsSorted (id_comes_before stored) (id_comes_before-asym stored) ids)),
    )

-- After upsertMessage the message of the given id has the author, the text, the status and the direction that were
-- given; its chat is the given one, or, where that is empty and a message of the id was there, the one that this was
-- in; its time is the given one, or the clock's where that is not positive. Its id is in its chat, and the ids of
-- that chat stand in the order of the times of their messages and then of their ids.
pub upsert_message_lem :
    (now : ℕ) (source : ChatMessage) (s : ChatSession)
    → let m = wanted now source s in
      let r = (upsert_message now source s).0 in
      (get source.id r.messages_by_id ≡ some m)
      × (has m.id (ids_or_none (get m.chat_key r.chat_messages)) ≡ true)
      × IsSorted (stands_before r) (ids_or_none (get m.chat_key r.chat_messages))
upsert_message_lem now source s =
    let r = (upsert_message now source s).0 in
    let lem =
      subst
        (λ (m : ChatMessage).
          (get source.id r.messages_by_id ≡ some m)
          × (has m.id (ids_or_none (get m.chat_key r.chat_messages)) ≡ true)
          × IsSorted (id_comes_before r) (ids_or_none (get m.chat_key r.chat_messages)))
        (merged-wanted now source s (get source.id s.messages_by_id) refl)
        (stored_lem now source s) in
    (
      lem.0,
      lem.1,
      IsSorted-same (id_comes_before r) (stands_before r)
          (ids_or_none (get (wanted now source s).chat_key r.chat_messages)) (stands_before-same r)
          lem.2,
    )
