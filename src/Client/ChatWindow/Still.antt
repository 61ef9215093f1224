-- ===== src/Client/ChatWindow/Still.antt =====
-- Activating and deactivating a session in Client/chatwindow.cpp changes no saved message.
use messenger_walkie_talkie.Prelude.{
  ℕ, String, ◌≡◌, refl, ◌∙◌, Bool, true, false, not, ◌||◌, List, [], ◌∷◌, none, arith,
  if◌then◌else◌, ◌==◌, string_eq, is_empty,
}
use messenger_walkie_talkie.Client.ChatState.{ChatMessage, clear, set_username, merge_dialogs}
use messenger_walkie_talkie.Client.HistoryStore.{
  HistoryStore, Row, tried, load_messages, load_dialogs,
}
use messenger_walkie_talkie.Client.ChatWindow.{
  ChatWindow, Shown, current_chat_key, refresh_current_chat, append_message, append_all,
  mark_current_private_messages_read, on_current_row_changed, is_current, clear_loaded_history,
  rebuild_dialog_list, rebuild_online_users_list, load_chat, load_chats, load_local_history,
  activate_session, deactivate_session, update_ui_state,
}

either-messages :
    (b : Bool) (rows : List Row) (x y : Shown)
    → x.0.store.messages ≡ rows
    → y.0.store.messages ≡ rows
    → (if b then x else y).0.store.messages ≡ rows
either-messages true rows x y hx hy = hx
either-messages false rows x y hx hy = hy

either_window-messages :
    (b : Bool) (rows : List Row) (x y : ChatWindow)
    → x.store.messages ≡ rows
    → y.store.messages ≡ rows
    → (if b then x else y).store.messages ≡ rows
either_window-messages true rows x y hx hy = hx
either_window-messages false rows x y hx hy = hy

load_messages-messages :
    (owner chat : String) (h : HistoryStore) → (load_messages owner chat h).0.messages ≡ h.messages
unfolding load_messages tried
load_messages-messages owner chat h = ground arith

load_dialogs-messages :
    (owner : String) (h : HistoryStore) → (load_dialogs owner h).0.messages ≡ h.messages
unfolding load_dialogs tried
load_dialogs-messages owner h = ground arith

append_all-messages :
    (now : ℕ) (ms : List ChatMessage) (w : ChatWindow)
    → (append_all now ms w).store.messages ≡ w.store.messages
unfolding append_all append_message refresh_current_chat
append_all-messages now [] w = refl
append_all-messages now (m ∷ ms) w = append_all-messages now ms (append_message now false m w)

unlisted-messages :
    (w : ChatWindow)
    → (on_current_row_changed (record w { current_item = none })).0.store.messages
      ≡ w.store.messages
unfolding on_current_row_changed mark_current_private_messages_read refresh_current_chat
    current_chat_key
unlisted-messages w =
    let unlisted : ChatWindow = record w { current_item = none } in
    either-messages (not w.online_session || w.offline_mode) w.store.messages (unlisted, [])
      (unlisted, []) refl refl

clear_loaded-messages :
    (w : ChatWindow) → (clear_loaded_history w).0.store.messages ≡ w.store.messages
unfolding clear_loaded_history
clear_loaded-messages w =
    let cleared : ChatWindow = record w {
      state = clear w.state;
      dialogs = [];
      current_item = none;
    } in
    either-messages (is_current w.current_item) w.store.messages (on_current_row_changed cleared)
      (cleared, []) (unlisted-messages cleared) refl

pub deactivate-messages :
    (w : ChatWindow) → (deactivate_session w).0.store.messages ≡ w.store.messages
unfolding deactivate_session update_ui_state
deactivate-messages w =
    clear_loaded-messages
      (record w { state = set_username "" w.state; offline_mode = false; online_session = false })

module _ (folded_before : String → String → Bool) where
  load_chat-messages :
      (now : ℕ) (username chat : String) (w : ChatWindow)
      → (load_chat folded_before now username chat w).store.messages ≡ w.store.messages
  unfolding load_chat
  load_chat-messages now username chat w =
      let loaded = load_messages username chat w.store in
      append_all-messages now loaded.1 (record w { store = loaded.0 })
      ∙ load_messages-messages username chat w.store

  load_chats-messages :
      (now : ℕ) (username : String) (chats : List String) (w : ChatWindow)
      → (load_chats folded_before now username chats w).store.messages ≡ w.store.messages
  unfolding load_chats
  load_chats-messages now username [] w = refl
  load_chats-messages now username (chat ∷ chats) w =
      load_chats-messages now username chats (load_chat folded_before now username chat w)
      ∙ load_chat-messages now username chat w

  load_local-messages :
      (now : ℕ) (username : String) (w : ChatWindow)
      → (load_local_history folded_before now username w).store.messages ≡ w.store.messages
  unfolding load_local_history rebuild_online_users_list rebuild_dialog_list refresh_current_chat
  load_local-messages now username w =
      let found = load_dialogs username w.store in
      let merged : ChatWindow = record w {
        store = found.0;
        state = merge_dialogs found.1 w.state;
      } in
      let first = load_chat folded_before now username "Broadcast" merged in
      let loaded = load_chats folded_before now username found.1 first in
      let same : loaded.store.messages ≡ w.store.messages =
        load_chats-messages now username found.1 first
        ∙ load_chat-messages now username "Broadcast" merged
        ∙ load_dialogs-messages username w.store in
      either_window-messages (is_empty username) w.store.messages w
        (rebuild_online_users_list folded_before
          (rebuild_dialog_list folded_before "Broadcast" loaded))
        refl same

  pub activate-messages :
      (now : ℕ) (username : String) (offline : Bool) (w : ChatWindow)
      → (activate_session folded_before now username offline w).0.store.messages ≡ w.store.messages
  unfolding activate_session update_ui_state refresh_current_chat
  activate-messages now username offline w =
      let named : ChatWindow = record w {
        state = set_username username w.state;
        offline_mode = offline;
        online_session = not offline;
      } in
      let cleared = clear_loaded_history named in
      either-messages (w.state.username == username) w.store.messages (named, [])
        (load_local_history folded_before now username cleared.0, cleared.1) refl
        (load_local-messages now username cleared.0 ∙ clear_loaded-messages named)
