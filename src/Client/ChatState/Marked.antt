-- ===== src/Client/ChatState/Marked.antt =====
-- What a change of the status of messages in Client/chatstate.cpp leaves as it is: where they are,
-- and their order.
use messenger_walkie_talkie.Prelude.{
  String, ◌≡◌, refl, ◌∙◌, true, false, ◌||◌, List, [], ◌∷◌, some, arith, eq_iff, ◌==◌, string_eq,
  Bool-cases, Option-cases, inl, inr,
}
use messenger_walkie_talkie.Prelude.Int.{ℤ, pos, ltb_ℤ}
use messenger_walkie_talkie.Prelude.Dict.{get, put, get-put}
use messenger_walkie_talkie.Prelude.Sort.{has}
use messenger_walkie_talkie.Client.ChatState.{
  ChatMessage, ChatSession, message_by_id, message_comes_before, contains_message, id_comes_before,
  update_message_status, mark_read, mark_incoming_messages_read,
}
use messenger_walkie_talkie.Client.ChatState.Ids.{ids_of, ids_of-put_here, ids_of-put_other}
use messenger_walkie_talkie.Client.ChatState.Order.{IsSorted-agree}
use messenger_walkie_talkie.Client.ChatState.Filed.{
  IsFiledIn, is_there, relisted-IsFiled, restated-IsFiled, sorted-IsFiled,
}
use messenger_walkie_talkie.Client.ChatState.Ordered.{
  IsOrdered, elsewhere-IsSorted, resorted-IsOrdered,
}

pub update_message_status-IsFiled :
    (id status : String) (created_at : ℤ) (s : ChatSession)
    → IsFiledIn s
    → IsFiledIn (update_message_status id status created_at s).0
unfolding update_message_status message_by_id
update_message_status-IsFiled id status created_at s v =
    elim (Option-cases (get id s.messages_by_id)) [
      | inl absent ↦
          let is_absent : contains_message id s ≡ false = ground (arith, absent) in rw is_absent v
      | inr (old, found) ↦
          let message : ChatMessage = record old { status = status } in
          let timed : ChatMessage = record message { created_at = created_at } in
          let moved : ChatSession = record s { messages_by_id = put id timed s.messages_by_id } in
          let stays =
            restated-IsFiled id old message s.messages_by_id s.chat_messages found refl refl v in
          let sorted =
            sorted-IsFiled old.chat_key moved
              (restated-IsFiled id old timed s.messages_by_id s.chat_messages found refl refl v) in
          let is_found : contains_message id s ≡ true = ground (arith, found) in
          rw (is_found, found)
            (elim (Bool-cases (ltb_ℤ (pos 0) created_at)) [
              | inl given ↦ rw given sorted
              | inr kept ↦ rw kept stays
            ])
    ]

mark_read-IsFiled :
    (ids : List String) (s : ChatSession)
    → ((id : String) → has id ids ≡ true → is_there id s.messages_by_id ≡ true)
    → IsFiledIn s
    → IsFiledIn (mark_read ids s).0
unfolding mark_read message_by_id
mark_read-IsFiled [] s there v = v
mark_read-IsFiled (id ∷ ids) s there v = elim (Option-cases (get id s.messages_by_id)) [
  | inl absent ↦ absurd (ground (arith, there id, eq_iff id id, absent))
  | inr (old, found) ↦
      let with_message : ChatMessage → ChatSession =
        λ m. record s { messages_by_id = put id m s.messages_by_id } in
      let goes_on : (m : ChatMessage)
          → m.id ≡ old.id
          → m.chat_key ≡ old.chat_key
          → IsFiledIn (mark_read ids (with_message m)).0 =
        λ m same chat.
          mark_read-IsFiled ids (with_message m)
            (λ j h. ground (arith, get-put id j m s.messages_by_id, there j, h))
            (restated-IsFiled id old m s.messages_by_id s.chat_messages found same chat v) in
      rw found (elim (Bool-cases (old.outgoing || old.status == "read")) [
        | inl skipped ↦ rw skipped (goes_on old refl refl)
        | inr marked ↦ rw marked (goes_on (record old { status = "read" }) refl refl)
      ])
]

pub mark_incoming_messages_read-IsFiled :
    (chat_key : String) (s : ChatSession)
    → IsFiledIn s
    → IsFiledIn (mark_incoming_messages_read chat_key s).0
unfolding mark_incoming_messages_read
mark_incoming_messages_read-IsFiled chat_key s v =
    let ids = ids_of chat_key s.chat_messages in
    let looked_up : ChatSession = record s { chat_messages = put chat_key ids s.chat_messages } in
    mark_read-IsFiled ids looked_up (v.there chat_key) (
      relisted-IsFiled s.messages_by_id s.chat_messages looked_up.chat_messages
        (λ chat id. ground (arith, get-put chat_key chat ids s.chat_messages, eq_iff chat_key chat))
        (λ chat. ground (arith, get-put chat_key chat ids s.chat_messages, eq_iff chat_key chat)) v)

-- A message is stored over the one of its id, with the same time.
restated-order :
    (id : String) (old m : ChatMessage) (s : ChatSession) (a b : String)
    → get id s.messages_by_id ≡ some old
    → m.id ≡ old.id
    → m.created_at ≡ old.created_at
    → id_comes_before (record s { messages_by_id = put id m s.messages_by_id }) a b
      ≡ id_comes_before s a b
unfolding id_comes_before message_by_id message_comes_before
restated-order id old m s a b found same time = ground (
  arith,
  get-put id a m s.messages_by_id,
  get-put id b m s.messages_by_id,
  found,
  same,
  time,
  eq_iff id a,
  eq_iff id b,
)

restated-IsOrdered :
    (id : String) (old m : ChatMessage) (s : ChatSession)
    → get id s.messages_by_id ≡ some old
    → m.id ≡ old.id
    → m.created_at ≡ old.created_at
    → IsOrdered s
    → IsOrdered (record s { messages_by_id = put id m s.messages_by_id })
restated-IsOrdered id old m s found same time ordered chat named =
    IsSorted-agree (id_comes_before s)
      (id_comes_before (record s { messages_by_id = put id m s.messages_by_id }))
      (ids_of chat s.chat_messages) (λ a b u w. restated-order id old m s a b found same time)
      (ordered chat named)

pub update_message_status-IsOrdered :
    (id status : String) (created_at : ℤ) (s : ChatSession)
    → IsFiledIn s
    → IsOrdered s
    → IsOrdered (update_message_status id status created_at s).0
unfolding update_message_status message_by_id
update_message_status-IsOrdered id status created_at s v ordered =
    elim (Option-cases (get id s.messages_by_id)) [
      | inl absent ↦
          let is_absent : contains_message id s ≡ false = ground (arith, absent) in
          rw is_absent ordered
      | inr (old, found) ↦
          let message : ChatMessage = record old { status = status } in
          let timed : ChatMessage = record message { created_at = created_at } in
          let moved : ChatSession = record s { messages_by_id = put id timed s.messages_by_id } in
          let stays = restated-IsOrdered id old message s found refl refl ordered in
          let sorted = resorted-IsOrdered old.chat_key moved (λ chat other named.
            elsewhere-IsSorted id timed s s.chat_messages (ids_of chat s.chat_messages)
              (v.filed chat id named ∙ ground (arith, found, other)) (ordered chat named)) in
          let is_found : contains_message id s ≡ true = ground (arith, found) in
          rw (is_found, found)
            (elim (Bool-cases (ltb_ℤ (pos 0) created_at)) [
              | inl given ↦ rw given sorted
              | inr kept ↦ rw kept stays
            ])
    ]

mark_read-IsOrdered :
    (ids : List String) (s : ChatSession)
    → ((id : String) → has id ids ≡ true → is_there id s.messages_by_id ≡ true)
    → IsOrdered s
    → IsOrdered (mark_read ids s).0
unfolding mark_read message_by_id
mark_read-IsOrdered [] s there v = v
mark_read-IsOrdered (id ∷ ids) s there v = elim (Option-cases (get id s.messages_by_id)) [
  | inl absent ↦ absurd (ground (arith, there id, eq_iff id id, absent))
  | inr (old, found) ↦
      let with_message : ChatMessage → ChatSession =
        λ m. record s { messages_by_id = put id m s.messages_by_id } in
      let goes_on : (m : ChatMessage)
          → m.id ≡ old.id
          → m.created_at ≡ old.created_at
          → IsOrdered (mark_read ids (with_message m)).0 =
        λ m same time.
          mark_read-IsOrdered ids (with_message m)
            (λ j h. ground (arith, get-put id j m s.messages_by_id, there j, h))
            (restated-IsOrdered id old m s found same time v) in
      rw found (elim (Bool-cases (old.outgoing || old.status == "read")) [
        | inl skipped ↦ rw skipped (goes_on old refl refl)
        | inr marked ↦ rw marked (goes_on (record old { status = "read" }) refl refl)
      ])
]

looked_up-IsOrdered :
    (chat_key : String) (s : ChatSession)
    → IsOrdered s
    → IsOrdered (record s {
      chat_messages = put chat_key (ids_of chat_key s.chat_messages) s.chat_messages;
    })
unfolding id_comes_before message_by_id
looked_up-IsOrdered chat_key s v chat named =
    let ids = ids_of chat_key s.chat_messages in
    elim (Bool-cases (chat_key == chat)) [
      | inl same ↦
          rw (ids_of-put_here chat_key chat ids s.chat_messages same)
            (v chat_key (ground (arith, named, same, eq_iff chat_key chat)))
      | inr other ↦ rw (ids_of-put_other chat_key chat ids s.chat_messages other) (v chat named)
    ]

pub mark_incoming_messages_read-IsOrdered :
    (chat_key : String) (s : ChatSession)
    → IsFiledIn s
    → IsOrdered s
    → IsOrdered (mark_incoming_messages_read chat_key s).0
unfolding mark_incoming_messages_read
mark_incoming_messages_read-IsOrdered chat_key s v ordered =
    let ids = ids_of chat_key s.chat_messages in
    mark_read-IsOrdered ids (record s { chat_messages = put chat_key ids s.chat_messages })
      (v.there chat_key) (looked_up-IsOrdered chat_key s ordered)
