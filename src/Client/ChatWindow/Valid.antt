-- ===== src/Client/ChatWindow/Valid.antt =====
-- What holds of the chat window of Client/chatwindow.cpp whatever happens to it.
use messenger_walkie_talkie.Prelude.{
  ℕ, String, ◌≡◌, refl, sym, ap, ◌∙◌, Bool, true, false, not, List, [], ◌∷◌, arith, if◌then◌else◌,
  ◌==◌, string_eq, is_empty,
}
use messenger_walkie_talkie.Prelude.Int.{ℤ, pos}
use messenger_walkie_talkie.Prelude.Dict.{get}
use messenger_walkie_talkie.Client.Dispatcher.{
  Signal, users_updated, dialogs_received, history_received, user_lookup_finished,
  public_message_received, private_message_received, message_queued, message_delivered,
  message_read, transport_error,
}
use messenger_walkie_talkie.Client.ChatState.{
  ChatMessage, ChatSession, messages_for_chat, set_online_users, update_message_status, messages_of,
  message_by_id, ids_or_none, ensure_private_dialog,
}
use messenger_walkie_talkie.Client.ChatWindow.{
  ChatWindow, Shown, Notice, current_chat_key, refresh_current_chat, append_message,
  rebuild_dialog_list, rebuild_online_users_list, mark_current_private_messages_read,
}
use messenger_walkie_talkie.Client.ChatWindow.Slots.{
  with_state, update_status, has_message, on_users_updated, on_dialogs_received,
  on_history_received, on_user_lookup_finished, on_public_message, on_private_message,
  on_message_queued, on_message_delivered, on_message_read, open_dialog, on_signal,
}

-- The view shows the current chat.
abbrev pub IsShown : ChatWindow → Type 0
IsShown w = w.history_view ≡ messages_for_chat (current_chat_key w) w.state

pub refresh-IsShown : (w : ChatWindow) → IsShown (refresh_current_chat w)
unfolding refresh_current_chat current_chat_key
refresh-IsShown w = refl

-- Of two outcomes, one after which the current chat is shown again and one that changes nothing of it.
either-IsShown :
    (b : Bool) (x y : Shown) → IsShown x.0 → IsShown y.0 → IsShown (if b then x else y).0
either-IsShown true x y hx hy = hx
either-IsShown false x y hx hy = hy

either_window-IsShown :
    (b : Bool) (x y : ChatWindow) → IsShown x → IsShown y → IsShown (if b then x else y)
either_window-IsShown true x y hx hy = hx
either_window-IsShown false x y hx hy = hy

messages_of-online_users :
    (users ids : List String) (s : ChatSession)
    → messages_of ids (set_online_users users s) ≡ messages_of ids s
unfolding set_online_users message_by_id
messages_of-online_users users [] s = refl
messages_of-online_users users (id ∷ ids) s =
    ap (◌∷◌ (message_by_id id s)) (messages_of-online_users users ids s)

module _ (folded_before : String → String → Bool) where
  rebuild-IsShown :
      (preferred : String) (w : ChatWindow)
      → IsShown (rebuild_dialog_list folded_before preferred w)
  unfolding rebuild_dialog_list refresh_current_chat current_chat_key
  rebuild-IsShown preferred w = refl

  pub open_dialog-IsShown :
      (username : String) (notice : Notice) (w : ChatWindow)
      → IsShown (open_dialog folded_before username notice w).0
  unfolding open_dialog current_chat_key
  open_dialog-IsShown username notice w = unfold rebuild_dialog_list refresh_current_chat in refl

  private_message-IsShown :
      (now : ℕ) (id from text : String) (created_at : ℤ) (w : ChatWindow)
      → IsShown (on_private_message folded_before now id from text created_at w).0
  unfolding on_private_message
  private_message-IsShown now id from text created_at w =
      let selected = current_chat_key w in
      let message : ChatMessage = record {
        id = id;
        chat_key = from;
        author = from;
        text = text;
        status = "delivered";
        outgoing = false;
        created_at = created_at;
      } in
      let preferred = if is_empty selected then from else selected in
      let appended = append_message now true message (with_state (ensure_private_dialog from) w) in
      let rebuilt = rebuild_dialog_list folded_before preferred appended in
      let marked = mark_current_private_messages_read rebuilt in
      either-IsShown (current_chat_key rebuilt == from) (refresh_current_chat marked.0, marked.1)
        (rebuilt, []) (refresh-IsShown marked.0) (rebuild-IsShown preferred appended)

  pub on_signal-IsShown :
      (now : ℕ) (signal : Signal) (w : ChatWindow)
      → IsShown w
      → IsShown (on_signal folded_before now signal w).0
  unfolding on_signal on_users_updated on_dialogs_received on_history_received
      on_user_lookup_finished on_public_message on_private_message on_message_queued
      on_message_delivered on_message_read append_message refresh_current_chat current_chat_key
      rebuild_online_users_list set_online_users messages_for_chat open_dialog rebuild_dialog_list
  on_signal-IsShown now (users_updated users) w v =
      v
      ∙ sym (
          messages_of-online_users users
            (ids_or_none (get (current_chat_key w) w.state.chat_messages)) w.state)
  on_signal-IsShown now (dialogs_received received) w v = refl
  on_signal-IsShown now (history_received chat items) w v = refl
  on_signal-IsShown now (user_lookup_finished username exists online) w v = ground arith
  on_signal-IsShown now (public_message_received id from text created_at) w v = refl
  on_signal-IsShown now (private_message_received id from text created_at) w v =
      private_message-IsShown now id from text created_at w
  on_signal-IsShown now (message_queued id to created_at) w v = refl
  on_signal-IsShown now (message_delivered id created_at) w v =
      either_window-IsShown
        (not (has_message (update_message_status id "delivered" created_at w.state).1)) w
        (refresh_current_chat (update_status id "delivered" created_at w)) v
        (refresh-IsShown (update_status id "delivered" created_at w))
  on_signal-IsShown now (message_read id from) w v =
      either_window-IsShown (not (has_message (update_message_status id "read" (pos 0) w.state).1))
        w (refresh_current_chat (update_status id "read" (pos 0) w)) v
        (refresh-IsShown (update_status id "read" (pos 0) w))
  on_signal-IsShown now (transport_error message) w v = v
  on_signal-IsShown now _ w v = v
