-- ===== src/Client/ChatWindow/Calm/Slots.antt =====
-- The slots of Client/chatwindow.cpp and the row of the last session.
use messenger_walkie_talkie.Prelude.{
  ℕ, String, Bool, true, false, not, ◌||◌, [], Option, none, some, if◌then◌else◌, ◌==◌, string_eq,
  is_empty,
}
use messenger_walkie_talkie.Prelude.Int.{ℤ, pos}
use messenger_walkie_talkie.Prelude.Sort.{has}
use messenger_walkie_talkie.Shared.Auth.{is_message_text_valid}
use messenger_walkie_talkie.Client.Dispatcher.{
  Signal, users_updated, dialogs_received, history_received, user_lookup_finished,
  public_message_received, private_message_received, message_queued, message_delivered,
  message_read,
}
use messenger_walkie_talkie.Client.Network.Requests.{check_user_exists}
use messenger_walkie_talkie.Client.ChatState.{
  ChatMessage, ensure_private_dialog, update_message_status,
}
use messenger_walkie_talkie.Client.HistoryStore.{SessionRow}
use messenger_walkie_talkie.Client.ChatWindow.{
  ChatWindow, Shown, Notice, message_too_long, checking, dialog_selected, dialog_created,
  user_offline, set_status_text, current_chat_key, refresh_current_chat, save_for_user,
  append_message, mark_current_private_messages_read, on_current_row_changed, rebuild_dialog_list,
  rebuild_online_users_list,
}
use messenger_walkie_talkie.Client.ChatWindow.Slots.{
  with_state, update_status, has_message, send_message, create_private_dialog, on_users_updated,
  on_dialogs_received, on_history_received, on_user_lookup_finished, on_public_message,
  on_private_message, on_message_queued, on_message_delivered, on_message_read, open_dialog,
  on_signal,
}
use messenger_walkie_talkie.Client.ChatWindow.Calm.{
  IsCalm, either-IsCalm, either_shown-IsCalm, save_for_user-IsCalm, append_message-IsCalm,
  append_items-IsCalm, mark_current-IsCalm, row_changed-IsCalm, deactivate-IsCalm, activate-IsCalm,
}
use messenger_walkie_talkie.Client.ChatWindow.Running.{message_sent, sent_of, appended_of}
use messenger_walkie_talkie.Client.ChatWindow.Steps.{
  Event, activates, deactivates, edits, selects, sends, creates, receives, status_changes, apply,
}

module _ (row : Option SessionRow) where
  update_status-IsCalm :
      (id status : String) (created_at : ℤ) (w : ChatWindow)
      → IsCalm row w.store
      → IsCalm row (update_status id status created_at w).store
  unfolding update_status
  update_status-IsCalm id status created_at w v =
      let r = update_message_status id status created_at w.state in
      let after : Option ChatMessage → ChatWindow = λ o. elim o [
        | none ↦ w
        | some message ↦ save_for_user message (record w { state = r.0 })
      ] in
      elim r.1 as (λ o. IsCalm row (after o).store) [
        | none ↦ v
        | some message ↦ save_for_user-IsCalm row message (record w { state = r.0 }) v
      ]

  send_message-IsCalm :
      (folded_before : String → String → Bool) (trimmed : String → String) (fresh_id : String)
      (now sent_at : ℕ) (w : ChatWindow)
      → IsCalm row w.store
      → IsCalm row (send_message trimmed fresh_id now sent_at w).0.store
  unfolding send_message
  send_message-IsCalm folded_before trimmed fresh_id now sent_at w v =
      let text = trimmed w.message_edit in
      let appended = appended_of folded_before trimmed fresh_id now sent_at w in
      let sent : Shown = (
        record appended { message_edit = "" },
        (sent_of folded_before trimmed fresh_id sent_at w).1,
      ) in
      let too_long : Shown = (set_status_text message_too_long w, []) in
      let checked : Shown = if not (is_message_text_valid trimmed text) then too_long else sent in
      either_shown-IsCalm row
        (not w.online_session || (w.offline_mode || is_empty w.state.username)) (w, [])
        (if is_empty text then (w, []) else checked) v
        (either_shown-IsCalm row (is_empty text) (w, []) checked v
          (either_shown-IsCalm row (not (is_message_text_valid trimmed text)) too_long sent v (
            append_message-IsCalm row now true
              (message_sent folded_before trimmed fresh_id now sent_at w)
              (record w { client = (sent_of folded_before trimmed fresh_id sent_at w).0 }) v)))

  module _ (folded_before : String → String → Bool) where
    open_dialog-IsCalm :
        (username : String) (notice : Notice) (w : ChatWindow)
        → IsCalm row w.store
        → IsCalm row (open_dialog folded_before username notice w).0.store
    unfolding open_dialog rebuild_dialog_list refresh_current_chat
    open_dialog-IsCalm username notice w v = v

    private_message-IsCalm :
        (now : ℕ) (id from text : String) (created_at : ℤ) (w : ChatWindow)
        → IsCalm row w.store
        → IsCalm row (on_private_message folded_before now id from text created_at w).0.store
    unfolding on_private_message refresh_current_chat
    private_message-IsCalm now id from text created_at w v =
        let selected = current_chat_key w in
        let message : ChatMessage = record {
          id = id;
          chat_key = from;
          author = from;
          text = text;
          status = "delivered";
          outgoing = false;
          created_at = created_at;
        } in
        let preferred = if is_empty selected then from else selected in
        let named = with_state (ensure_private_dialog from) w in
        let appended = append_message now true message named in
        let rebuilt = rebuild_dialog_list folded_before preferred appended in
        let marked = mark_current_private_messages_read rebuilt in
        let calm : IsCalm row rebuilt.store =
          unfold rebuild_dialog_list refresh_current_chat in
          append_message-IsCalm row now true message named v in
        either_shown-IsCalm row (current_chat_key rebuilt == from)
          (refresh_current_chat marked.0, marked.1) (rebuilt, [])
          (mark_current-IsCalm row rebuilt calm) calm

    lookup-IsCalm :
        (username : String) (exists online : Bool) (w : ChatWindow)
        → IsCalm row w.store
        → IsCalm row (on_user_lookup_finished folded_before username exists online w).0.store
    unfolding on_user_lookup_finished
    lookup-IsCalm username true online w v =
        open_dialog-IsCalm username
          (if online then dialog_created username else user_offline username) w v
    lookup-IsCalm username false online w v = v

    on_signal-IsCalm :
        (now : ℕ) (signal : Signal) (w : ChatWindow)
        → IsCalm row w.store
        → IsCalm row (on_signal folded_before now signal w).0.store
    unfolding on_signal on_users_updated on_dialogs_received on_history_received on_public_message
        on_message_queued on_message_delivered on_message_read rebuild_online_users_list
        rebuild_dialog_list refresh_current_chat
    on_signal-IsCalm now (users_updated users) w v = v
    on_signal-IsCalm now (dialogs_received received) w v = v
    on_signal-IsCalm now (history_received chat items) w v =
        append_items-IsCalm row now chat items (with_state (ensure_private_dialog chat) w) v
    on_signal-IsCalm now (user_lookup_finished username exists online) w v =
        lookup-IsCalm username exists online w v
    on_signal-IsCalm now (public_message_received id from text created_at) w v =
        append_message-IsCalm row now true
          (record {
            id = id;
            chat_key = "Broadcast";
            author = from;
            text = text;
            status = "delivered";
            outgoing = from == w.state.username;
            created_at = created_at;
          })
          w v
    on_signal-IsCalm now (private_message_received id from text created_at) w v =
        private_message-IsCalm now id from text created_at w v
    on_signal-IsCalm now (message_queued id to created_at) w v =
        update_status-IsCalm id "sending" created_at w v
    on_signal-IsCalm now (message_delivered id created_at) w v =
        either-IsCalm row
          (not (has_message (update_message_status id "delivered" created_at w.state).1)) w
          (refresh_current_chat (update_status id "delivered" created_at w)) v
          (update_status-IsCalm id "delivered" created_at w v)
    on_signal-IsCalm now (message_read id from) w v =
        either-IsCalm row (not (has_message (update_message_status id "read" (pos 0) w.state).1)) w
          (refresh_current_chat (update_status id "read" (pos 0) w)) v
          (update_status-IsCalm id "read" (pos 0) w v)
    on_signal-IsCalm now _ w v = v

    create-IsCalm :
        (trimmed : String → String) (answer : Option (String × String)) (w : ChatWindow)
        → IsCalm row w.store
        → IsCalm row (create_private_dialog folded_before trimmed answer w).0.store
    unfolding create_private_dialog
    create-IsCalm trimmed none w v = v
    create-IsCalm trimmed (some answer) w v =
        let typed = trimmed answer.0 in
        let username = if not (is_empty typed) then typed else trimmed answer.1 in
        let asked : Shown =
          (set_status_text (checking username) w, check_user_exists trimmed username) in
        let opened = open_dialog folded_before username (dialog_selected username) w in
        let third : Shown = if not (is_empty typed) then asked else opened in
        let second : Shown = if username == w.state.username then (w, []) else third in
        either_shown-IsCalm row (is_empty username) (w, []) second v
          (either_shown-IsCalm row (username == w.state.username) (w, []) third v
            (either_shown-IsCalm row (not (is_empty typed)) asked opened v
              (open_dialog-IsCalm username (dialog_selected username) w v)))

    pub apply-IsCalm :
        (trimmed : String → String) (e : Event) (w : ChatWindow)
        → IsCalm row w.store
        → IsCalm row (apply folded_before trimmed e w).0.store
    unfolding apply
    apply-IsCalm trimmed (activates now username offline) w v =
        activate-IsCalm row folded_before now username offline w v
    apply-IsCalm trimmed deactivates w v = deactivate-IsCalm row w v
    apply-IsCalm trimmed (edits text) w v =
        either_shown-IsCalm row w.can_compose (record w { message_edit = text }, []) (w, []) v v
    apply-IsCalm trimmed (selects chat) w v =
        let selected : ChatWindow = record w { current_item = some chat } in
        either_shown-IsCalm row (has chat w.dialogs) (on_current_row_changed selected) (w, [])
          (row_changed-IsCalm row selected v) v
    apply-IsCalm trimmed (sends fresh_id now sent_at) w v =
        either_shown-IsCalm row w.can_compose (send_message trimmed fresh_id now sent_at w) (w, [])
          (send_message-IsCalm folded_before trimmed fresh_id now sent_at w v) v
    apply-IsCalm trimmed (creates answer) w v = create-IsCalm trimmed answer w v
    apply-IsCalm trimmed (receives now signal) w v = on_signal-IsCalm now signal w v
    apply-IsCalm trimmed (status_changes status) w v = v
