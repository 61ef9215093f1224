-- ===== src/Client/ChatWindow/Calm.antt =====
-- The chat window of Client/chatwindow.cpp and the row of the last session: while no statement fails, no slot of the window
-- changes the row or makes a statement fail.
pub mod Slots
use messenger_walkie_talkie.Prelude.{
  ℕ, String, ◌≡◌, refl, Bool, true, false, not, ◌&&◌, ◌||◌, List, [], ◌∷◌, Option, none, some,
  arith, if◌then◌else◌, ◌==◌, string_eq, is_empty,
}
use messenger_walkie_talkie.Prelude.Int.{ℤ, pos}
use messenger_walkie_talkie.Prelude.Sort.{has}
use messenger_walkie_talkie.Shared.Json.{Items, nil, cons}
use messenger_walkie_talkie.Shared.Auth.{is_message_text_valid}
use messenger_walkie_talkie.Client.Dispatcher.{
  Signal, users_updated, dialogs_received, history_received, user_lookup_finished,
  public_message_received, private_message_received, message_queued, message_delivered,
  message_read, transport_error,
}
use messenger_walkie_talkie.Client.Network.Requests.{check_user_exists}
use messenger_walkie_talkie.Client.ChatState.{
  ChatMessage, ChatSession, upsert_message, clear, set_username, merge_dialogs,
  ensure_private_dialog, update_message_status, mark_incoming_messages_read,
}
use messenger_walkie_talkie.Client.HistoryStore.{
  HistoryStore, SessionRow, tried, save_message, load_messages, load_dialogs,
}
use messenger_walkie_talkie.Client.ChatWindow.{
  ChatWindow, Shown, Notice, message_too_long, checking, dialog_selected, dialog_created,
  user_offline, set_status_text, current_chat_key, refresh_current_chat, save_for_user,
  append_message, append_all, save_and_confirm, mark_current_private_messages_read,
  on_current_row_changed, is_current, clear_loaded_history, rebuild_dialog_list,
  rebuild_online_users_list, load_chat, load_chats, load_local_history, activate_session,
  deactivate_session, update_ui_state,
}
use messenger_walkie_talkie.Client.ChatWindow.Slots.{
  with_state, update_status, has_message, send_message, message_of_item, append_items,
  create_private_dialog, on_users_updated, on_dialogs_received, on_history_received,
  on_user_lookup_finished, on_public_message, on_private_message, on_message_queued,
  on_message_delivered, on_message_read, open_dialog, on_signal,
}
use messenger_walkie_talkie.Client.ChatWindow.Steps.{
  Event, activates, deactivates, edits, selects, sends, creates, receives, status_changes, apply,
}

module _ (row : Option SessionRow) where
  -- An open store whose statements do not fail, with this row.
  pub record IsCalm (h : HistoryStore) : Type 0 where
    pub opened : h.is_open ≡ true
    pub no_fault : h.faults ≡ []
    pub kept : h.last_session ≡ row

  pub either-IsCalm :
      (b : Bool) (x y : ChatWindow)
      → IsCalm x.store
      → IsCalm y.store
      → IsCalm (if b then x else y).store
  either-IsCalm true x y hx hy = hx
  either-IsCalm false x y hx hy = hy

  pub either_shown-IsCalm :
      (b : Bool) (x y : Shown)
      → IsCalm x.0.store
      → IsCalm y.0.store
      → IsCalm (if b then x else y).0.store
  either_shown-IsCalm true x y hx hy = hx
  either_shown-IsCalm false x y hx hy = hy

  save_message-IsCalm :
      (owner : String) (m : ChatMessage) (h : HistoryStore)
      → IsCalm h
      → IsCalm (save_message owner m h)
  unfolding save_message tried
  save_message-IsCalm owner m h v = ground (arith, v.opened, v.no_fault, v.kept)

  load_messages-IsCalm :
      (owner chat : String) (h : HistoryStore) → IsCalm h → IsCalm (load_messages owner chat h).0
  unfolding load_messages tried
  load_messages-IsCalm owner chat h v = ground (arith, v.opened, v.no_fault, v.kept)

  load_dialogs-IsCalm :
      (owner : String) (h : HistoryStore) → IsCalm h → IsCalm (load_dialogs owner h).0
  unfolding load_dialogs tried
  load_dialogs-IsCalm owner h v = ground (arith, v.opened, v.no_fault, v.kept)

  pub save_for_user-IsCalm :
      (m : ChatMessage) (w : ChatWindow) → IsCalm w.store → IsCalm (save_for_user m w).store
  unfolding save_for_user
  save_for_user-IsCalm m w v =
      either-IsCalm (is_empty w.state.username) w
        (record w { store = save_message w.state.username m w.store }) v
        (save_message-IsCalm w.state.username m w.store v)

  pub append_message-IsCalm :
      (now : ℕ) (persist : Bool) (m : ChatMessage) (w : ChatWindow)
      → IsCalm w.store
      → IsCalm (append_message now persist m w).store
  unfolding append_message refresh_current_chat
  append_message-IsCalm now persist m w v =
      let r = upsert_message now m w.state in
      let upserted : ChatWindow = record w { state = r.0 } in
      either-IsCalm persist (save_for_user r.1 upserted) upserted
        (save_for_user-IsCalm r.1 upserted v) v

  append_all-IsCalm :
      (now : ℕ) (ms : List ChatMessage) (w : ChatWindow)
      → IsCalm w.store
      → IsCalm (append_all now ms w).store
  unfolding append_all
  append_all-IsCalm now [] w v = v
  append_all-IsCalm now (m ∷ ms) w v =
      append_all-IsCalm now ms (append_message now false m w)
        (append_message-IsCalm now false m w v)

  pub append_items-IsCalm :
      (now : ℕ) (chat : String) (items : Items) (w : ChatWindow)
      → IsCalm w.store
      → IsCalm (append_items now chat items w).store
  unfolding append_items
  append_items-IsCalm now chat nil w v = v
  append_items-IsCalm now chat (cons item items) w v =
      let m = message_of_item chat w.state.username item in
      append_items-IsCalm now chat items (append_message now true m w)
        (append_message-IsCalm now true m w v)

  save_and_confirm-IsCalm :
      (chat : String) (ms : List ChatMessage) (w : ChatWindow)
      → IsCalm w.store
      → IsCalm (save_and_confirm chat ms w).0.store
  unfolding save_and_confirm
  save_and_confirm-IsCalm chat [] w v = v
  save_and_confirm-IsCalm chat (m ∷ ms) w v =
      save_and_confirm-IsCalm chat ms (save_for_user m w) (save_for_user-IsCalm m w v)

  pub mark_current-IsCalm :
      (w : ChatWindow) → IsCalm w.store → IsCalm (mark_current_private_messages_read w).0.store
  unfolding mark_current_private_messages_read
  mark_current-IsCalm w v =
      let chat = current_chat_key w in
      let r = mark_incoming_messages_read chat w.state in
      let marked = save_and_confirm chat r.1 (record w { state = r.0 }) in
      either_shown-IsCalm (not w.online_session || w.offline_mode) (w, [])
        (if chat == "Broadcast" then (w, []) else marked) v
        (either_shown-IsCalm (chat == "Broadcast") (w, []) marked v
          (save_and_confirm-IsCalm chat r.1 (record w { state = r.0 }) v))

  pub row_changed-IsCalm :
      (w : ChatWindow) → IsCalm w.store → IsCalm (on_current_row_changed w).0.store
  unfolding on_current_row_changed refresh_current_chat
  row_changed-IsCalm w v = mark_current-IsCalm w v

  clear_loaded-IsCalm : (w : ChatWindow) → IsCalm w.store → IsCalm (clear_loaded_history w).0.store
  unfolding clear_loaded_history
  clear_loaded-IsCalm w v =
      let cleared : ChatWindow = record w {
        state = clear w.state;
        dialogs = [];
        current_item = none;
      } in
      either_shown-IsCalm (is_current w.current_item) (on_current_row_changed cleared) (cleared, [])
        (row_changed-IsCalm cleared v) v

  pub deactivate-IsCalm : (w : ChatWindow) → IsCalm w.store → IsCalm (deactivate_session w).0.store
  unfolding deactivate_session update_ui_state
  deactivate-IsCalm w v =
      clear_loaded-IsCalm
        (record w { state = set_username "" w.state; offline_mode = false; online_session = false })
        v

  module _ (folded_before : String → String → Bool) where
    load_chat-IsCalm :
        (now : ℕ) (username chat : String) (w : ChatWindow)
        → IsCalm w.store
        → IsCalm (load_chat folded_before now username chat w).store
    unfolding load_chat
    load_chat-IsCalm now username chat w v =
        let loaded = load_messages username chat w.store in
        append_all-IsCalm now loaded.1 (record w { store = loaded.0 })
          (load_messages-IsCalm username chat w.store v)

    load_chats-IsCalm :
        (now : ℕ) (username : String) (chats : List String) (w : ChatWindow)
        → IsCalm w.store
        → IsCalm (load_chats folded_before now username chats w).store
    unfolding load_chats
    load_chats-IsCalm now username [] w v = v
    load_chats-IsCalm now username (chat ∷ chats) w v =
        load_chats-IsCalm now username chats (load_chat folded_before now username chat w)
          (load_chat-IsCalm now username chat w v)

    load_local-IsCalm :
        (now : ℕ) (username : String) (w : ChatWindow)
        → IsCalm w.store
        → IsCalm (load_local_history folded_before now username w).store
    unfolding load_local_history rebuild_online_users_list rebuild_dialog_list refresh_current_chat
    load_local-IsCalm now username w v =
        let found = load_dialogs username w.store in
        let merged : ChatWindow = record w {
          store = found.0;
          state = merge_dialogs found.1 w.state;
        } in
        let first = load_chat folded_before now username "Broadcast" merged in
        let loaded = load_chats folded_before now username found.1 first in
        either-IsCalm (is_empty username) w
          (rebuild_online_users_list folded_before
            (rebuild_dialog_list folded_before "Broadcast" loaded))
          v
          (load_chats-IsCalm now username found.1 first (
            load_chat-IsCalm now username "Broadcast" merged
              (load_dialogs-IsCalm username w.store v)))

    pub activate-IsCalm :
        (now : ℕ) (username : String) (offline : Bool) (w : ChatWindow)
        → IsCalm w.store
        → IsCalm (activate_session folded_before now username offline w).0.store
    unfolding activate_session update_ui_state refresh_current_chat
    activate-IsCalm now username offline w v =
        let named : ChatWindow = record w {
          state = set_username username w.state;
          offline_mode = offline;
          online_session = not offline;
        } in
        let cleared = clear_loaded_history named in
        either_shown-IsCalm (w.state.username == username) (named, [])
          (load_local_history folded_before now username cleared.0, cleared.1) v
          (load_local-IsCalm now username cleared.0 (clear_loaded-IsCalm named v))
