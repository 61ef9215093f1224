-- ===== src/Client/ChatWindow/Face.antt =====
-- What the slots of Client/chatwindow.cpp leave as it is: the session, its mode and the buttons.
use messenger_walkie_talkie.Prelude.{
  ℕ, String, ◌≡◌, refl, ap, ◌∙◌, Bool, true, false, not, ◌||◌, List, [], ◌∷◌, arith, if◌then◌else◌,
  ◌==◌, string_eq, is_empty, Bool-cases, inl, inr,
}
use messenger_walkie_talkie.Prelude.Int.{ℤ, pos}
use messenger_walkie_talkie.Prelude.Dict.{get, put}
use messenger_walkie_talkie.Shared.Json.{Items, nil, cons}
use messenger_walkie_talkie.Client.Dispatcher.{
  Signal, users_updated, dialogs_received, history_received, user_lookup_finished,
  public_message_received, private_message_received, message_queued, message_delivered,
  message_read, transport_error,
}
use messenger_walkie_talkie.Client.ChatState.{
  ChatMessage, ChatSession, merge_dialogs, ensure_private_dialog, upsert_message,
  sort_chat_messages, update_message_status, mark_read, mark_incoming_messages_read, message_by_id,
  set_online_users, ids_or_none,
}
use messenger_walkie_talkie.Client.ChatWindow.{
  ChatWindow, Notice, dialog_created, user_offline, current_chat_key, save_for_user, append_message,
  append_all, save_and_confirm, mark_current_private_messages_read, refresh_current_chat,
  on_current_row_changed, rebuild_dialog_list, rebuild_online_users_list,
}
use messenger_walkie_talkie.Client.ChatWindow.Slots.{
  update_status, message_of_item, append_items, with_state, has_message, on_users_updated,
  on_dialogs_received, on_history_received, on_user_lookup_finished, on_public_message,
  on_private_message, on_message_queued, on_message_delivered, on_message_read, open_dialog,
  on_signal,
}

abbrev pub Face : Type 0
Face = Bool × Bool × Bool × Bool × String

abbrev pub face : ChatWindow → Face
face w = (w.online_session, w.offline_mode, w.can_compose, w.can_leave, w.state.username)

ensure_private_dialog-username :
    (dialog : String) (s : ChatSession) → (ensure_private_dialog dialog s).username ≡ s.username
unfolding ensure_private_dialog
ensure_private_dialog-username dialog s = ground arith

pub ensure_private_dialog-face :
    (dialog : String) (w : ChatWindow) → face (with_state (ensure_private_dialog dialog) w) ≡ face w
ensure_private_dialog-face dialog w =
    ap (λ (name : String). (w.online_session, w.offline_mode, w.can_compose, w.can_leave, name))
      (ensure_private_dialog-username dialog w.state)

merge_dialogs-username :
    (dialogs : List String) (s : ChatSession) → (merge_dialogs dialogs s).username ≡ s.username
unfolding merge_dialogs
merge_dialogs-username [] s = refl
merge_dialogs-username (d ∷ ds) s =
    merge_dialogs-username ds (ensure_private_dialog d s) ∙ ensure_private_dialog-username d s

save_for_user-face : (m : ChatMessage) (w : ChatWindow) → face (save_for_user m w) ≡ face w
unfolding save_for_user
save_for_user-face m w = ground arith

pub append_message-face :
    (now : ℕ) (persist : Bool) (m : ChatMessage) (w : ChatWindow)
    → face (append_message now persist m w) ≡ face w
unfolding append_message refresh_current_chat upsert_message sort_chat_messages save_for_user
append_message-face now persist m w = ground arith

append_all-face :
    (now : ℕ) (ms : List ChatMessage) (w : ChatWindow) → face (append_all now ms w) ≡ face w
unfolding append_all
append_all-face now [] w = refl
append_all-face now (m ∷ ms) w =
    append_all-face now ms (append_message now false m w) ∙ append_message-face now false m w

append_items-face :
    (now : ℕ) (chat : String) (items : Items) (w : ChatWindow)
    → face (append_items now chat items w) ≡ face w
unfolding append_items
append_items-face now chat nil w = refl
append_items-face now chat (cons item items) w =
    let m = message_of_item chat w.state.username item in
    append_items-face now chat items (append_message now true m w)
    ∙ append_message-face now true m w

mark_read-username :
    (ids : List String) (s : ChatSession) → (mark_read ids s).0.username ≡ s.username
unfolding mark_read
mark_read-username [] s = refl
mark_read-username (id ∷ ids) s =
    let message = message_by_id id s in
    let seen : ChatSession = record s { messages_by_id = put id message s.messages_by_id } in
    let updated = record message { status = "read" } in
    let marked : ChatSession = record s { messages_by_id = put id updated s.messages_by_id } in
    elim (Bool-cases (message.outgoing || message.status == "read")) [
      | inl skipped ↦ rw skipped (mark_read-username ids seen)
      | inr unread ↦ rw unread (mark_read-username ids marked)
    ]

save_and_confirm-face :
    (chat : String) (ms : List ChatMessage) (w : ChatWindow)
    → face (save_and_confirm chat ms w).0 ≡ face w
unfolding save_and_confirm
save_and_confirm-face chat [] w = refl
save_and_confirm-face chat (m ∷ ms) w =
    save_and_confirm-face chat ms (save_for_user m w) ∙ save_for_user-face m w

mark_current-face : (w : ChatWindow) → face (mark_current_private_messages_read w).0 ≡ face w
unfolding mark_current_private_messages_read mark_incoming_messages_read
mark_current-face w =
    let chat = current_chat_key w in
    let r = mark_incoming_messages_read chat w.state in
    let ids = ids_or_none (get chat w.state.chat_messages) in
    let listed : ChatSession = record w.state {
      chat_messages = put chat ids w.state.chat_messages;
    } in
    let marked : face (save_and_confirm chat r.1 (record w { state = r.0 })).0 ≡ face w =
      save_and_confirm-face chat r.1 (record w { state = r.0 })
      ∙ ap (λ (name : String). (w.online_session, w.offline_mode, w.can_compose, w.can_leave, name))
          (mark_read-username ids listed) in
    elim (Bool-cases (not w.online_session || w.offline_mode)) [
      | inl off ↦ rw off refl
      | inr on ↦ elim (Bool-cases (chat == "Broadcast")) [
        | inl public_chat ↦ rw (on, public_chat) refl
        | inr private_chat ↦ rw (on, private_chat) marked
      ]
    ]

update_status-face :
    (id status : String) (created_at : ℤ) (w : ChatWindow)
    → face (update_status id status created_at w) ≡ face w
unfolding update_status update_message_status sort_chat_messages save_for_user
update_status-face id status created_at w = ground arith

pub on_current_row_changed-face : (w : ChatWindow) → face (on_current_row_changed w).0 ≡ face w
unfolding on_current_row_changed refresh_current_chat
on_current_row_changed-face w = mark_current-face w

module _ (folded_before : String → String → Bool) where
  pub rebuild_dialog_list-face :
      (preferred : String) (w : ChatWindow)
      → face (rebuild_dialog_list folded_before preferred w) ≡ face w
  unfolding rebuild_dialog_list refresh_current_chat
  rebuild_dialog_list-face preferred w = refl

  pub open_dialog-face :
      (username : String) (notice : Notice) (w : ChatWindow)
      → face (open_dialog folded_before username notice w).0 ≡ face w
  unfolding open_dialog
  open_dialog-face username notice w =
      let named = with_state (ensure_private_dialog username) w in
      rebuild_dialog_list-face username named ∙ ensure_private_dialog-face username w

  on_private_message-face :
      (now : ℕ) (id from text : String) (created_at : ℤ) (w : ChatWindow)
      → face (on_private_message folded_before now id from text created_at w).0 ≡ face w
  unfolding on_private_message refresh_current_chat
  on_private_message-face now id from text created_at w =
      let selected = current_chat_key w in
      let message : ChatMessage = record {
        id = id;
        chat_key = from;
        author = from;
        text = text;
        status = "delivered";
        outgoing = false;
        created_at = created_at;
      } in
      let named = with_state (ensure_private_dialog from) w in
      let rebuilt =
        rebuild_dialog_list folded_before (if is_empty selected then from else selected)
          (append_message now true message named) in
      let kept : face rebuilt ≡ face w =
        rebuild_dialog_list-face (if is_empty selected then from else selected)
          (append_message now true message named)
        ∙ append_message-face now true message named
        ∙ ensure_private_dialog-face from w in
      elim (Bool-cases (current_chat_key rebuilt == from)) [
        | inl here ↦ rw here (mark_current-face rebuilt ∙ kept)
        | inr other ↦ rw other kept
      ]

  pub on_signal-face :
      (now : ℕ) (signal : Signal) (w : ChatWindow)
      → face (on_signal folded_before now signal w).0 ≡ face w
  unfolding on_signal on_users_updated on_dialogs_received on_history_received
      on_user_lookup_finished on_public_message on_message_queued on_message_delivered
      on_message_read rebuild_online_users_list refresh_current_chat set_online_users
  on_signal-face now (users_updated users) w = refl
  on_signal-face now (dialogs_received received) w =
      rebuild_dialog_list-face (current_chat_key w) (with_state (merge_dialogs received) w)
      ∙ ap (λ (name : String). (w.online_session, w.offline_mode, w.can_compose, w.can_leave, name))
          (merge_dialogs-username received w.state)
  on_signal-face now (history_received chat items) w =
      let named = with_state (ensure_private_dialog chat) w in
      append_items-face now chat items named ∙ ensure_private_dialog-face chat w
  on_signal-face now (user_lookup_finished username exists online) w =
      let notice = if online then dialog_created username else user_offline username in
      elim (Bool-cases exists) [
        | inl there ↦ rw there (open_dialog-face username notice w)
        | inr missing ↦ rw missing refl
      ]
  on_signal-face now (public_message_received id from text created_at) w =
      append_message-face now true
        (record {
          id = id;
          chat_key = "Broadcast";
          author = from;
          text = text;
          status = "delivered";
          outgoing = from == w.state.username;
          created_at = created_at;
        })
        w
  on_signal-face now (private_message_received id from text created_at) w =
      on_private_message-face now id from text created_at w
  on_signal-face now (message_queued id to created_at) w =
      update_status-face id "sending" created_at w
  on_signal-face now (message_delivered id created_at) w =
      elim (Bool-cases (has_message (update_message_status id "delivered" created_at w.state).1)) [
        | inl there ↦ rw there (update_status-face id "delivered" created_at w)
        | inr missing ↦ rw missing refl
      ]
  on_signal-face now (message_read id from) w =
      elim (Bool-cases (has_message (update_message_status id "read" (pos 0) w.state).1)) [
        | inl there ↦ rw there (update_status-face id "read" (pos 0) w)
        | inr missing ↦ rw missing refl
      ]
  on_signal-face now (transport_error message) w = refl
  on_signal-face now _ w = refl
