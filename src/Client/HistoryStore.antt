-- ===== src/Client/HistoryStore.antt =====
-- Client/historystore.h and Client/historystore.cpp: the two tables of the file that the client
-- keeps, `messages` by its primary key message_id and the one row of `last_session`. SQLite may fail
-- at any statement, as in Server/Storage; a null text, which the columns of `messages` refuse, is
-- one of those failures.
pub mod Refinement
pub mod Loaded
pub mod Dialogs
use messenger_walkie_talkie.Prelude.{
  ℕ, ◌%◌, ◌^◌, String, Bool, true, false, not, ◌&&◌, ◌||◌, List, [], ◌∷◌, Option, none, some, map,
  eqb, if◌then◌else◌, ◌==◌, string_eq, is_empty, lex, codes,
}
use messenger_walkie_talkie.Prelude.Int.{ℤ, ltb_ℤ}
use messenger_walkie_talkie.Prelude.Dict.{put}
use messenger_walkie_talkie.Prelude.Sort.{sort_by}
use messenger_walkie_talkie.Prelude.Sql.{next_fails, rest_of, filter, name_before}
use messenger_walkie_talkie.Client.FlowState.{LastSessionInfo, no_session, has_stored_identity}
use messenger_walkie_talkie.Client.ChatState.{ChatMessage, remove_duplicates}

pub record MessageRow : Type 0 where
  pub owner_username : String
  pub chat_key : String
  pub author : String
  pub text : String
  pub status : String
  pub outgoing : ℕ
  pub created_at : ℤ

pub record SessionRow : Type 0 where
  pub username : String
  pub host : String
  pub port : ℕ
  pub session_token : String
  pub session_expires_at : ℤ

pub record HistoryStore : Type 0 where
  pub is_open : Bool
  pub messages : List (String × MessageRow)
  pub last_session : Option SessionRow
  pub faults : List Bool

-- A row that a query gives, with its message_id.
abbrev pub Row : Type 0
Row = String × MessageRow

unfoldable pub tried : HistoryStore → HistoryStore
tried h = record h { faults = rest_of h.faults }

abbrev pub row_of : String → ChatMessage → MessageRow
row_of owner m = record {
  owner_username = owner;
  chat_key = m.chat_key;
  author = m.author;
  text = m.text;
  status = m.status;
  outgoing = if m.outgoing then 1 else 0;
  created_at = m.created_at;
}

unfoldable pub save_message : String → ChatMessage → HistoryStore → HistoryStore
unfolding tried
save_message owner m h =
    if not h.is_open || (is_empty owner || is_empty m.id)
    then h
    else if next_fails h.faults
    then tried h
    else record (tried h) { messages = put m.id (row_of owner m) h.messages }

abbrev pub message_of : Row → ChatMessage
message_of row = record {
  id = row.0;
  chat_key = row.1.chat_key;
  author = row.1.author;
  text = row.1.text;
  status = row.1.status;
  outgoing = not (eqb row.1.outgoing 0);
  created_at = row.1.created_at;
}

-- WHERE owner_username = ? AND chat_key = ?
unfoldable pub is_in_chat : String → String → Row → Bool
is_in_chat owner chat row = row.1.owner_username == owner && row.1.chat_key == chat

-- ORDER BY created_at ASC, message_id ASC
unfoldable pub earlier : Row → Row → Bool
earlier a b =
    ltb_ℤ a.1.created_at b.1.created_at
    || (not (ltb_ℤ b.1.created_at a.1.created_at) && lex (codes a.0) (codes b.0))

unfoldable pub load_messages : String → String → HistoryStore → HistoryStore × List ChatMessage
unfolding tried is_in_chat earlier
load_messages owner chat h =
    let found = sort_by earlier (filter (is_in_chat owner chat) h.messages) in
    if not h.is_open
    then (h, [])
    else if next_fails h.faults
    then (tried h, [])
    else (tried h, map message_of found)

-- WHERE owner_username = ? AND chat_key <> 'Broadcast'
unfoldable pub is_dialog_of : String → Row → Bool
is_dialog_of owner row = row.1.owner_username == owner && not (row.1.chat_key == "Broadcast")

unfoldable pub load_dialogs : String → HistoryStore → HistoryStore × List String
unfolding tried is_dialog_of name_before
load_dialogs owner h =
    let keys = map (λ (row : Row). row.1.chat_key) (filter (is_dialog_of owner) h.messages) in
    if not h.is_open
    then (h, [])
    else if next_fails h.faults
    then (tried h, [])
    else (tried h, sort_by name_before (remove_duplicates [] keys))

-- DELETE FROM messages WHERE owner_username = ?
unfoldable pub delete_messages : String → HistoryStore → HistoryStore
unfolding tried
delete_messages owner h = if next_fails h.faults then tried h else record (tried h) {
  messages = filter (λ (row : Row). not (row.1.owner_username == owner)) h.messages;
}

abbrev pub unless_of : String → Option SessionRow → Option SessionRow
unless_of owner none = none
unless_of owner (some row) = if row.username == owner then none else some row

-- DELETE FROM last_session WHERE username = ?
unfoldable pub delete_session_of : String → HistoryStore → HistoryStore
unfolding tried
delete_session_of owner h =
    if next_fails h.faults
    then tried h
    else record (tried h) { last_session = unless_of owner h.last_session }

unfoldable pub clear_user_data : String → HistoryStore → HistoryStore
unfolding delete_messages delete_session_of
clear_user_data owner h =
    if not h.is_open || is_empty owner then h else delete_session_of owner (delete_messages owner h)

unfoldable pub save_last_session : LastSessionInfo → HistoryStore → HistoryStore
unfolding tried has_stored_identity
save_last_session session h =
    if not h.is_open || not (has_stored_identity session)
    then h
    else if next_fails h.faults
    then tried h
    else record (tried h) {
      last_session = some (record {
        username = session.username;
        host = session.host;
        port = session.port;
        session_token = session.session_token;
        session_expires_at = session.session_expires_at;
      });
    }

-- The row of the session as it is read; the port is cast to a quint16.
abbrev pub session_of_row : Option SessionRow → LastSessionInfo
session_of_row none = no_session
session_of_row (some row) = record {
  username = row.username;
  host = row.host;
  port = row.port % 2 ^ 16;
  session_token = row.session_token;
  session_expires_at = row.session_expires_at;
}

unfoldable pub load_last_session : HistoryStore → HistoryStore × LastSessionInfo
unfolding tried
load_last_session h =
    if not h.is_open
    then (h, no_session)
    else if next_fails h.faults
    then (tried h, no_session)
    else (tried h, session_of_row h.last_session)

unfoldable pub clear_last_session : HistoryStore → HistoryStore
unfolding tried
clear_last_session h =
    if not h.is_open
    then h
    else if next_fails h.faults
    then tried h
    else record (tried h) { last_session = none }
