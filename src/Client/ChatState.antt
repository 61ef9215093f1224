-- ===== src/Client/ChatState.antt =====
-- Client/chatstate.h and Client/chatstate.cpp, with ChatMessage of Client/historystore.h: the
-- messages that the client shows. `folded_before` stands for Qt's order of names that ignores case;
-- where two names differ in case alone, Qt's sort leaves their order open, and here it is that of
-- the list. The chats hold only ids of messages that are there, so that looking one up makes none.
pub mod Upsert
pub mod Ids
pub mod Filed
pub mod Order
pub mod Ordered
pub mod Marked
pub mod Calls
use messenger_walkie_talkie.Prelude.{
  ℕ, String, Bool, true, false, not, ◌&&◌, ◌||◌, List, [], ◌∷◌, ◌++◌, Option, none, some,
  if◌then◌else◌, is_empty, ◌==◌, string_eq, str_lt, eqb,
}
use messenger_walkie_talkie.Prelude.Int.{ℤ, pos, negsuc, ltb_ℤ, leb_ℤ}
use messenger_walkie_talkie.Prelude.Dict.{get, put}
use messenger_walkie_talkie.Prelude.Sort.{has, sort_by}

pub record ChatMessage : Type 0 where
  pub id : String
  pub chat_key : String
  pub author : String
  pub text : String
  pub status : String
  pub outgoing : Bool
  pub created_at : ℤ

abbrev no_message : ChatMessage
no_message = record {
  id = "";
  chat_key = "";
  author = "";
  text = "";
  status = "";
  outgoing = false;
  created_at = pos 0;
}

pub record ChatSession : Type 0 where
  pub username : String
  pub online_users : List String
  pub private_dialogs : List String
  pub messages_by_id : List (String × ChatMessage)
  pub chat_messages : List (String × List String)

abbrev message_or_none : Option ChatMessage → ChatMessage
message_or_none none = no_message
message_or_none (some m) = m

abbrev pub ids_or_none : Option (List String) → List String
ids_or_none none = []
ids_or_none (some ids) = ids

-- m_messagesById.value(id)
unfoldable pub message_by_id : String → ChatSession → ChatMessage
message_by_id id s = message_or_none (get id s.messages_by_id)

abbrev contains_message : String → ChatSession → Bool
contains_message id s = elim (get id s.messages_by_id) [ none ↦ false | some m ↦ true ]

-- messageComesBefore
unfoldable pub message_comes_before : ChatMessage → ChatMessage → Bool
message_comes_before left right =
    ltb_ℤ left.created_at right.created_at
    || (not (ltb_ℤ right.created_at left.created_at) && str_lt left.id right.id)

-- The order of two ids in sortChatMessages.
unfoldable pub id_comes_before : ChatSession → String → String → Bool
unfolding message_comes_before message_by_id
id_comes_before s left right = message_comes_before (message_by_id left s) (message_by_id right s)

-- sortChatMessages
unfoldable pub sort_chat_messages : String → ChatSession → ChatSession
unfolding id_comes_before
sort_chat_messages chat_key s = record s {
  chat_messages =
      put chat_key (sort_by (id_comes_before s) (ids_or_none (get chat_key s.chat_messages)))
        s.chat_messages;
}

-- QStringList::removeAll
unfoldable remove_all : String → List String → List String
remove_all x [] = []
remove_all x (y ∷ ys) = let rest = remove_all x ys in if y == x then rest else y ∷ rest

-- QStringList::removeDuplicates, which keeps the first of each.
unfoldable pub remove_duplicates : List String → List String → List String
remove_duplicates seen [] = []
remove_duplicates seen (x ∷ xs) =
    let without_x = remove_duplicates seen xs in
    let with_x = remove_duplicates (x ∷ seen) xs in if has x seen then without_x else x ∷ with_x

unfoldable pub clear : ChatSession → ChatSession
clear s = record s {
  online_users = [];
  private_dialogs = [];
  messages_by_id = [];
  chat_messages = [];
}

unfoldable pub set_username : String → ChatSession → ChatSession
set_username username s = record s { username = username }

unfoldable pub set_online_users : List String → ChatSession → ChatSession
set_online_users users s = record s { online_users = users }

unfoldable pub ensure_private_dialog : String → ChatSession → ChatSession
ensure_private_dialog username s =
    if is_empty username || (username == s.username || username == "Broadcast")
    then s
    else if has username s.private_dialogs
    then s
    else record s { private_dialogs = s.private_dialogs ++ username ∷ [] }

unfoldable pub merge_dialogs : List String → ChatSession → ChatSession
unfolding ensure_private_dialog
merge_dialogs [] s = s
merge_dialogs (dialog ∷ dialogs) s = merge_dialogs dialogs (ensure_private_dialog dialog s)

module _ (folded_before : String → String → Bool) where
  unfoldable pub online_users_for_display : ChatSession → List String
  unfolding remove_all remove_duplicates
  online_users_for_display s =
      sort_by folded_before (remove_duplicates [] (remove_all s.username s.online_users))

  unfoldable pub dialog_list : ChatSession → List String
  unfolding remove_all remove_duplicates
  dialog_list s =
      "Broadcast"
      ∷ sort_by folded_before
          (remove_duplicates [] (remove_all s.username (remove_all "Broadcast" s.private_dialogs)))

-- The message that upsertMessage stores over the one that is there.
unfoldable pub merged : ChatMessage → Option ChatMessage → ChatMessage
merged message none = message
merged message (some stored) = record stored {
  chat_key = if is_empty message.chat_key then stored.chat_key else message.chat_key;
  author = message.author;
  text = message.text;
  status = message.status;
  outgoing = message.outgoing;
  created_at = message.created_at;
}

-- m_chatMessages[previousChatKey].removeAll(message.id), where the chat has changed.
unfoldable pub leave_chat :
    String → ChatMessage → List (String × List String) → List (String × List String)
unfolding remove_all
leave_chat previous message chats =
    if is_empty previous || previous == message.chat_key
    then chats
    else put previous (remove_all message.id (ids_or_none (get previous chats))) chats

unfoldable pub join_chat : ChatMessage → List (String × List String) → List (String × List String)
join_chat message chats =
    let ids = ids_or_none (get message.chat_key chats) in
    put message.chat_key (if has message.id ids then ids else ids ++ message.id ∷ []) chats

abbrev pub with_time : ℕ → ChatMessage → ChatMessage
with_time now source = record source {
  created_at = if leb_ℤ source.created_at (pos 0) then pos now else source.created_at;
}

-- upsertMessage; `now` is the clock.
unfoldable pub upsert_message : ℕ → ChatMessage → ChatSession → ChatSession × ChatMessage
unfolding merged leave_chat join_chat sort_chat_messages message_by_id
upsert_message now source s =
    let timed = with_time now source in
    let previous = (message_by_id source.id s).chat_key in
    let message = merged timed (get source.id s.messages_by_id) in
    let stored : ChatSession = record s {
      messages_by_id = put source.id message s.messages_by_id;
      chat_messages = join_chat message (leave_chat previous message s.chat_messages);
    } in
    let sorted = sort_chat_messages message.chat_key stored in
    (sorted, message_by_id message.id sorted)

-- updateMessageStatus; `none` where it returns false.
unfoldable pub update_message_status :
    String → String → ℤ → ChatSession → ChatSession × Option ChatMessage
unfolding sort_chat_messages message_by_id
update_message_status id status created_at s =
    let message = record (message_by_id id s) { status = status } in
    let timed = record message { created_at = created_at } in
    let kept : ChatSession = record s { messages_by_id = put id message s.messages_by_id } in
    let moved : ChatSession = record s { messages_by_id = put id timed s.messages_by_id } in
    if not (contains_message id s)
    then (s, none)
    else if ltb_ℤ (pos 0) created_at
    then (sort_chat_messages message.chat_key moved, some timed)
    else (kept, some message)

abbrev pub messages_of : List String → ChatSession → List ChatMessage
messages_of [] s = []
messages_of (id ∷ ids) s = message_by_id id s ∷ messages_of ids s

unfoldable pub messages_for_chat : String → ChatSession → List ChatMessage
unfolding message_by_id
messages_for_chat chat_key s = messages_of (ids_or_none (get chat_key s.chat_messages)) s

-- The loop of markIncomingMessagesRead; m_messagesById[id] makes an id that is not there.
unfoldable pub mark_read : List String → ChatSession → ChatSession × List ChatMessage
unfolding message_by_id
mark_read [] s = (s, [])
mark_read (id ∷ ids) s =
    let message = message_by_id id s in
    let seen : ChatSession = record s { messages_by_id = put id message s.messages_by_id } in
    let updated = record message { status = "read" } in
    let marked : ChatSession = record s { messages_by_id = put id updated s.messages_by_id } in
    let skipped = mark_read ids seen in
    let rest = mark_read ids marked in
    if message.outgoing || message.status == "read" then skipped else (rest.0, updated ∷ rest.1)

unfoldable pub mark_incoming_messages_read : String → ChatSession → ChatSession × List ChatMessage
unfolding mark_read
mark_incoming_messages_read chat_key s =
    let ids = ids_or_none (get chat_key s.chat_messages) in
    mark_read ids (record s { chat_messages = put chat_key ids s.chat_messages })
