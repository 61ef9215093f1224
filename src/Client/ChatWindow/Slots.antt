-- ===== src/Client/ChatWindow/Slots.antt =====
-- The slots of Client/chatwindow.cpp: what the user does and what the network client reports. A
-- message box, which only tells the user something, is left out. `trimmed` stands for
-- QString::trimmed.
use messenger_walkie_talkie.Prelude.{
  ℕ, String, Bool, true, false, not, ◌||◌, List, [], Option, none, some, if◌then◌else◌, ◌==◌,
  string_eq, is_empty,
}
use messenger_walkie_talkie.Prelude.Int.{ℤ, pos}
use messenger_walkie_talkie.Shared.Json.{
  Value, Items, nil, cons, JsonObject, end, obj, str, value, to_string, to_long_long,
}
use messenger_walkie_talkie.Shared.Auth.{is_message_text_valid}
use messenger_walkie_talkie.Client.Dispatcher.{
  Signal, users_updated, dialogs_received, history_received, user_lookup_finished,
  public_message_received, private_message_received, message_queued, message_delivered,
  message_read, transport_error,
}
use messenger_walkie_talkie.Client.Network.Requests.{
  check_user_exists, send_broadcast_message, send_private_message,
}
use messenger_walkie_talkie.Client.ChatState.{
  ChatMessage, ChatSession, set_online_users, ensure_private_dialog, merge_dialogs,
  update_message_status,
}
use messenger_walkie_talkie.Client.ChatWindow.{
  ChatWindow, Shown, Notice, said, message_too_long, checking, not_found, dialog_selected,
  dialog_created, user_offline, queued_for, set_status_text, current_chat_key, refresh_current_chat,
  save_for_user, append_message, request_current_history, mark_current_private_messages_read,
  rebuild_dialog_list, rebuild_online_users_list,
}

-- toObject()
abbrev to_object : Value → JsonObject
to_object (obj o) = o
to_object _ = end

-- toString(default)
abbrev to_string_or : Value → String → String
to_string_or (str s) default = s
to_string_or _ default = default

abbrev pub with_state : (ChatSession → ChatSession) → ChatWindow → ChatWindow
with_state f w = record w { state = f w.state }

-- The slots that take a new status of a message: messageQueued, onMessageDelivered, onMessageRead.
unfoldable pub update_status : String → String → ℤ → ChatWindow → ChatWindow
unfolding save_for_user
update_status id status created_at w =
    let r = update_message_status id status created_at w.state in
    elim r.1 [ none ↦ w | some message ↦ save_for_user message (record w { state = r.0 }) ]

unfoldable pub on_message_queued : String → String → ℤ → ChatWindow → ChatWindow
unfolding update_status refresh_current_chat
on_message_queued id to created_at w =
    refresh_current_chat (set_status_text (queued_for to) (update_status id "sending" created_at w))

abbrev pub has_message : Option ChatMessage → Bool
has_message none = false
has_message (some message) = true

unfoldable pub on_message_delivered : String → ℤ → ChatWindow → ChatWindow
unfolding update_status refresh_current_chat
on_message_delivered id created_at w =
    if not (has_message (update_message_status id "delivered" created_at w.state).1)
    then w
    else refresh_current_chat (update_status id "delivered" created_at w)

unfoldable pub on_message_read : String → ChatWindow → ChatWindow
unfolding update_status refresh_current_chat
on_message_read id w =
    if not (has_message (update_message_status id "read" (pos 0) w.state).1)
    then w
    else refresh_current_chat (update_status id "read" (pos 0) w)

-- sendMessage; `sent_at` is the clock when the packet is tracked.
module _ (trimmed : String → String) where
  unfoldable pub send_message : String → ℕ → ℕ → ChatWindow → Shown
  unfolding current_chat_key append_message
  send_message fresh_id now sent_at w =
      let text = trimmed w.message_edit in
      let chat = current_chat_key w in
      let sent =
        if chat == "Broadcast"
        then send_broadcast_message fresh_id sent_at text w.client
        else send_private_message fresh_id sent_at chat text w.client in
      let message : ChatMessage = record {
        id = sent.2;
        chat_key = chat;
        author = w.state.username;
        text = text;
        status = "sending";
        outgoing = true;
        created_at = pos now;
      } in
      let appended = append_message now true message (record w { client = sent.0 }) in
      if not w.online_session || (w.offline_mode || is_empty w.state.username)
      then (w, [])
      else if is_empty text
      then (w, [])
      else if not (is_message_text_valid trimmed text)
      then (set_status_text message_too_long w, [])
      else (record appended { message_edit = "" }, sent.1)

-- The message that an item of a history stands for.
unfoldable pub message_of_item : String → String → Value → ChatMessage
message_of_item chat_user username item =
    let object = to_object item in
    let from = to_string (value object "from") in
    record {
      id = to_string (value object "id");
      chat_key = chat_user;
      author = from;
      text = to_string (value object "text");
      status = to_string_or (value object "status") "delivered";
      outgoing = from == username;
      created_at = to_long_long (value object "created_at");
    }

unfoldable pub append_items : ℕ → String → Items → ChatWindow → ChatWindow
unfolding append_message message_of_item
append_items now chat_user nil w = w
append_items now chat_user (cons item items) w =
    append_items now chat_user items
      (append_message now true (message_of_item chat_user w.state.username item) w)

unfoldable pub on_public_message : ℕ → String → String → String → ℤ → ChatWindow → ChatWindow
unfolding append_message
on_public_message now id from text created_at w =
    append_message now true
      (record {
        id = id;
        chat_key = "Broadcast";
        author = from;
        text = text;
        status = "delivered";
        outgoing = from == w.state.username;
        created_at = created_at;
      })
      w

module _ (folded_before : String → String → Bool) where
  unfoldable pub on_users_updated : List String → ChatWindow → ChatWindow
  unfolding rebuild_online_users_list
  on_users_updated users w =
      rebuild_online_users_list folded_before (with_state (set_online_users users) w)

  unfoldable pub on_dialogs_received : List String → ChatWindow → ChatWindow
  unfolding rebuild_dialog_list current_chat_key
  on_dialogs_received received w =
      rebuild_dialog_list folded_before (current_chat_key w) (with_state (merge_dialogs received) w)

  unfoldable pub on_history_received : ℕ → String → Items → ChatWindow → ChatWindow
  unfolding rebuild_dialog_list append_items current_chat_key
  on_history_received now chat_user items w =
      let appended =
        append_items now chat_user items (with_state (ensure_private_dialog chat_user) w) in
      rebuild_dialog_list folded_before (current_chat_key appended) appended

  -- A dialog with a user is opened: onUserLookupFinished and createPrivateDialog.
  unfoldable pub open_dialog : String → Notice → ChatWindow → Shown
  unfolding rebuild_dialog_list request_current_history
  open_dialog username notice w =
      let opened =
        rebuild_dialog_list folded_before username
          (with_state (ensure_private_dialog username) w) in
      (set_status_text notice opened, request_current_history opened)

  unfoldable pub on_user_lookup_finished : String → Bool → Bool → ChatWindow → Shown
  unfolding open_dialog
  on_user_lookup_finished username exists online w =
      if not exists
      then (set_status_text (not_found username) w, [])
      else open_dialog username (if online then dialog_created username else user_offline username)
          w

  -- createPrivateDialog from the end of the dialog's event loop on, in the state that the window is in
  -- then; the answer of the dialog is the text that was typed and the one that was chosen, or none where
  -- it was not accepted.
  unfoldable pub create_private_dialog :
      (String → String) → Option (String × String) → ChatWindow → Shown
  unfolding open_dialog
  create_private_dialog trimmed none w = (w, [])
  create_private_dialog trimmed (some answer) w =
      let typed = trimmed answer.0 in
      let username = if not (is_empty typed) then typed else trimmed answer.1 in
      if is_empty username
      then (w, [])
      else if username == w.state.username
      then (w, [])
      else if not (is_empty typed)
      then (set_status_text (checking username) w, check_user_exists trimmed username)
      else open_dialog username (dialog_selected username) w

  unfoldable pub on_private_message : ℕ → String → String → String → ℤ → ChatWindow → Shown
  unfolding append_message rebuild_dialog_list current_chat_key mark_current_private_messages_read
      refresh_current_chat
  on_private_message now id from text created_at w =
      let selected = current_chat_key w in
      let message : ChatMessage = record {
        id = id;
        chat_key = from;
        author = from;
        text = text;
        status = "delivered";
        outgoing = false;
        created_at = created_at;
      } in
      let rebuilt =
        rebuild_dialog_list folded_before (if is_empty selected then from else selected)
          (append_message now true message (with_state (ensure_private_dialog from) w)) in
      let marked = mark_current_private_messages_read rebuilt in
      if current_chat_key rebuilt == from
      then (refresh_current_chat marked.0, marked.1)
      else (rebuilt, [])

  -- The slots by the signals that they are connected to.
  unfoldable pub on_signal : ℕ → Signal → ChatWindow → Shown
  unfolding on_users_updated on_dialogs_received on_history_received on_user_lookup_finished
      on_public_message on_private_message on_message_queued on_message_delivered on_message_read
  on_signal now (users_updated users) w = (on_users_updated users w, [])
  on_signal now (dialogs_received received) w = (on_dialogs_received received w, [])
  on_signal now (history_received chat_user items) w =
      (on_history_received now chat_user items w, [])
  on_signal now (user_lookup_finished username exists online) w =
      on_user_lookup_finished username exists online w
  on_signal now (public_message_received id from text created_at) w =
      (on_public_message now id from text created_at w, [])
  on_signal now (private_message_received id from text created_at) w =
      on_private_message now id from text created_at w
  on_signal now (message_queued id to created_at) w = (on_message_queued id to created_at w, [])
  on_signal now (message_delivered id created_at) w = (on_message_delivered id created_at w, [])
  on_signal now (message_read id from) w = (on_message_read id w, [])
  on_signal now (transport_error message) w = (set_status_text (said message) w, [])
  on_signal now _ w = (w, [])
