-- ===== src/Client/ChatWindow.antt =====
-- Client/chatwindow.h and Client/chatwindow.cpp without the layout: the state of the chat window with
-- the store and the network client that it shares with the flow controller. What is written to the
-- network comes back as effects. A QListWidget is the texts of its items and that of its current one;
-- clear() tells the slot of currentRowChanged where an item was current. The history view holds the
-- messages that its lines show. Clocks and identifiers are arguments.
pub mod Slots
pub mod Steps
pub mod Face
pub mod Valid
pub mod Running
pub mod Offline
pub mod Calm
pub mod Still
use messenger_walkie_talkie.Prelude.{
  ℕ, String, Bool, true, false, not, ◌&&◌, ◌||◌, List, [], ◌∷◌, ◌++◌, Option, none, some,
  if◌then◌else◌, ◌==◌, string_eq, is_empty,
}
use messenger_walkie_talkie.Prelude.Int.{ℤ, pos}
use messenger_walkie_talkie.Prelude.Sort.{has}
use messenger_walkie_talkie.Client.Network.{NetworkClient, Effect, Status}
use messenger_walkie_talkie.Client.Network.Requests.{
  request_dialog_list, request_history, send_read_receipt,
}
use messenger_walkie_talkie.Client.ChatState.{
  ChatMessage, ChatSession, clear, set_username, merge_dialogs, dialog_list,
  online_users_for_display, upsert_message, messages_for_chat, mark_incoming_messages_read,
}
use messenger_walkie_talkie.Client.HistoryStore.{
  HistoryStore, save_message, load_messages, load_dialogs,
}

-- A text of a status label: a fixed one, one that came with a message, or a format with its
-- arguments.
pub data Notice : Type 0 where
  said : String → Notice
  of_status : Status → Notice
  message_too_long : Notice
  checking not_found dialog_selected dialog_created user_offline queued_for : String → Notice
  connected_as restoring offline_because : String → Notice
  connected_at connecting_at : String → ℕ → Notice

pub record ChatWindow : Type 0 where
  pub store : HistoryStore
  pub client : NetworkClient
  pub state : ChatSession
  pub offline_mode : Bool
  pub online_session : Bool
  pub dialogs : List String
  pub current_item : Option String
  pub online_users : List String
  pub history_view : List ChatMessage
  pub message_edit : String
  pub status : Notice
  pub can_compose : Bool
  pub can_leave : Bool

-- The window after its constructor.
abbrev pub new_window : HistoryStore → NetworkClient → ChatWindow
new_window store client = record {
  store = store;
  client = client;
  state = record {
    username = "";
    online_users = [];
    private_dialogs = [];
    messages_by_id = [];
    chat_messages = [];
  };
  offline_mode = false;
  online_session = false;
  dialogs = [];
  current_item = none;
  online_users = [];
  history_view = [];
  message_edit = "";
  status = said "Ready";
  can_compose = false;
  can_leave = false;
}

abbrev pub Shown : Type 0
Shown = ChatWindow × List Effect

abbrev pub set_status_text : Notice → ChatWindow → ChatWindow
set_status_text notice w = record w { status = notice }

abbrev text_or : String → Option String → String
text_or default none = default
text_or default (some text) = text

unfoldable pub current_chat_key : ChatWindow → String
current_chat_key w = text_or "Broadcast" w.current_item

unfoldable pub refresh_current_chat : ChatWindow → ChatWindow
unfolding current_chat_key
refresh_current_chat w = record w { history_view = messages_for_chat (current_chat_key w) w.state }

unfoldable pub update_ui_state : ChatWindow → ChatWindow
update_ui_state w = record w {
  can_compose = w.online_session && not w.offline_mode;
  can_leave = not (is_empty w.state.username);
}

-- saveMessage for the user of the session, if there is one.
unfoldable pub save_for_user : ChatMessage → ChatWindow → ChatWindow
save_for_user message w =
    if is_empty w.state.username
    then w
    else record w { store = save_message w.state.username message w.store }

unfoldable pub append_message : ℕ → Bool → ChatMessage → ChatWindow → ChatWindow
unfolding save_for_user refresh_current_chat
append_message now persist message w =
    let r = upsert_message now message w.state in
    let upserted : ChatWindow = record w { state = r.0 } in
    refresh_current_chat (if persist then save_for_user r.1 upserted else upserted)

unfoldable pub append_all : ℕ → List ChatMessage → ChatWindow → ChatWindow
unfolding append_message
append_all now [] w = w
append_all now (m ∷ ms) w = append_all now ms (append_message now false m w)

unfoldable pub request_current_history : ChatWindow → List Effect
unfolding current_chat_key
request_current_history w =
    if not w.online_session || w.offline_mode
    then []
    else if is_empty (current_chat_key w)
    then []
    else request_history (current_chat_key w) (pos 100)

-- The loop of markCurrentPrivateMessagesRead.
unfoldable pub save_and_confirm : String → List ChatMessage → ChatWindow → Shown
unfolding save_for_user
save_and_confirm chat [] w = (w, [])
save_and_confirm chat (m ∷ ms) w =
    let rest = save_and_confirm chat ms (save_for_user m w) in
    (rest.0, send_read_receipt chat m.id ++ rest.1)

unfoldable pub mark_current_private_messages_read : ChatWindow → Shown
unfolding save_and_confirm current_chat_key
mark_current_private_messages_read w =
    let chat = current_chat_key w in
    let r = mark_incoming_messages_read chat w.state in
    if not w.online_session || w.offline_mode
    then (w, [])
    else if chat == "Broadcast"
    then (w, [])
    else save_and_confirm chat r.1 (record w { state = r.0 })

-- The slot of currentRowChanged, where the row is already the new one.
unfoldable pub on_current_row_changed : ChatWindow → Shown
unfolding mark_current_private_messages_read refresh_current_chat request_current_history
on_current_row_changed w =
    let marked = mark_current_private_messages_read w in
    let shown = refresh_current_chat marked.0 in (shown, marked.1 ++ request_current_history shown)

abbrev pub is_current : Option String → Bool
is_current none = false
is_current (some text) = true

unfoldable pub clear_loaded_history : ChatWindow → Shown
unfolding on_current_row_changed
clear_loaded_history w =
    let cleared : ChatWindow = record w {
      state = clear w.state;
      dialogs = [];
      current_item = none;
    } in
    let told =
      if is_current w.current_item then on_current_row_changed cleared else (cleared, []) in
    (record told.0 { online_users = []; history_view = []; message_edit = "" }, told.1)

abbrev first_item : List String → Option String
first_item [] = none
first_item (x ∷ xs) = some x

module _ (folded_before : String → String → Bool) where
  unfoldable pub rebuild_dialog_list : String → ChatWindow → ChatWindow
  unfolding refresh_current_chat current_chat_key
  rebuild_dialog_list preferred w =
      let selected = if is_empty preferred then current_chat_key w else preferred in
      let items = dialog_list folded_before w.state in
      refresh_current_chat (record w {
        dialogs = items;
        current_item = if has selected items then some selected else first_item items;
      })

  unfoldable pub rebuild_online_users_list : ChatWindow → ChatWindow
  rebuild_online_users_list w = record w {
    online_users = online_users_for_display folded_before w.state;
  }

  unfoldable pub load_chat : ℕ → String → String → ChatWindow → ChatWindow
  unfolding append_all
  load_chat now username chat w =
      let loaded = load_messages username chat w.store in
      append_all now loaded.1 (record w { store = loaded.0 })

  unfoldable pub load_chats : ℕ → String → List String → ChatWindow → ChatWindow
  unfolding load_chat
  load_chats now username [] w = w
  load_chats now username (chat ∷ chats) w =
      load_chats now username chats (load_chat now username chat w)

  unfoldable pub load_local_history : ℕ → String → ChatWindow → ChatWindow
  unfolding load_chat load_chats rebuild_dialog_list rebuild_online_users_list
  load_local_history now username w =
      let found = load_dialogs username w.store in
      let merged : ChatWindow = record w {
        store = found.0;
        state = merge_dialogs found.1 w.state;
      } in
      let loaded = load_chats now username found.1 (load_chat now username "Broadcast" merged) in
      if is_empty username
      then w
      else rebuild_online_users_list (rebuild_dialog_list "Broadcast" loaded)

  unfoldable pub activate_session : ℕ → String → Bool → ChatWindow → Shown
  unfolding clear_loaded_history load_local_history update_ui_state request_current_history
      refresh_current_chat
  activate_session now username offline w =
      let named : ChatWindow = record w {
        state = set_username username w.state;
        offline_mode = offline;
        online_session = not offline;
      } in
      let cleared = clear_loaded_history named in
      let loaded : Shown =
        if w.state.username == username
        then (named, [])
        else (load_local_history now username cleared.0, cleared.1) in
      let ready = update_ui_state loaded.0 in
      let requests =
        if ready.online_session && not (is_empty ready.state.username)
        then request_dialog_list ++ request_current_history ready
        else [] in
      (refresh_current_chat ready, loaded.1 ++ requests)

unfoldable pub deactivate_session : ChatWindow → Shown
unfolding clear_loaded_history update_ui_state
deactivate_session w =
    let cleared = clear_loaded_history (record w {
      state = set_username "" w.state;
      offline_mode = false;
      online_session = false;
    }) in
    (set_status_text (said "Disconnected") (update_ui_state cleared.0), cleared.1)
