-- ===== src/Client/ChatWindow/Offline.antt =====
-- The chat window of Client/chatwindow.cpp out of a session that is online.
use messenger_walkie_talkie.Prelude.{
  ℕ, String, ◌≡◌, refl, ap, ap₂, ◌∙◌, Bool, true, false, not, ◌&&◌, ◌||◌, List, [], ◌∷◌, ◌++◌, some,
  none, arith, if◌then◌else◌, ◌==◌, string_eq, is_empty, Bool-cases, inl, inr,
}
use messenger_walkie_talkie.Prelude.Int.{ℤ}
use messenger_walkie_talkie.Prelude.Sort.{has}
use messenger_walkie_talkie.Client.Dispatcher.{
  Signal, user_lookup_finished, private_message_received,
}
use messenger_walkie_talkie.Client.ChatState.{ChatMessage, ensure_private_dialog}
use messenger_walkie_talkie.Client.ChatWindow.{
  ChatWindow, Shown, Notice, dialog_created, user_offline, current_chat_key, append_message,
  rebuild_dialog_list, on_current_row_changed, mark_current_private_messages_read,
  refresh_current_chat, request_current_history,
}
use messenger_walkie_talkie.Client.ChatWindow.Slots.{
  with_state, create_private_dialog, on_user_lookup_finished, on_private_message, open_dialog,
  on_signal,
}
use messenger_walkie_talkie.Client.ChatWindow.Steps.{
  Event, activates, deactivates, edits, selects, sends, creates, receives, status_changes, apply,
  run,
}
use messenger_walkie_talkie.Client.ChatWindow.Face.{
  Face, face, append_message-face, rebuild_dialog_list-face, ensure_private_dialog-face,
}
use messenger_walkie_talkie.Client.ChatWindow.Running.{
  IsValid, is_session_call, apply-Kept, apply-IsValid,
}

-- No session, or one that is offline.
abbrev is_off : Face → Bool
is_off (online, offline, compose, leave, user) = not online || offline

-- The dialog for a new chat, accepted.
abbrev is_accepted : Event → Bool
is_accepted (creates (some answer)) = true
is_accepted _ = false

request_current_history-off :
    (w : ChatWindow) → is_off (face w) ≡ true → request_current_history w ≡ []
unfolding request_current_history
request_current_history-off w off = ground (arith, off)

mark_current-off :
    (w : ChatWindow) → is_off (face w) ≡ true → mark_current_private_messages_read w ≡ (w, [])
unfolding mark_current_private_messages_read
mark_current-off w off = rw off refl

row_changed-off : (w : ChatWindow) → is_off (face w) ≡ true → (on_current_row_changed w).1 ≡ []
unfolding on_current_row_changed refresh_current_chat
row_changed-off w off =
    rw (mark_current-off w off) (request_current_history-off (refresh_current_chat w) off)

cannot_compose : (w : ChatWindow) → IsValid w → is_off (face w) ≡ true → w.can_compose ≡ false
cannot_compose w v off = ground (arith, v.enabled.0, off)

module _ (folded_before : String → String → Bool) where
  open_dialog-off :
      (username : String) (notice : Notice) (w : ChatWindow)
      → is_off (face w) ≡ true
      → (open_dialog folded_before username notice w).1 ≡ []
  unfolding open_dialog
  open_dialog-off username notice w off =
      let named = with_state (ensure_private_dialog username) w in
      request_current_history-off (rebuild_dialog_list folded_before username named) (
        ap is_off (
          rebuild_dialog_list-face folded_before username named
          ∙ ensure_private_dialog-face username w)
        ∙ off)

  private_message-off :
      (now : ℕ) (id from text : String) (created_at : ℤ) (w : ChatWindow)
      → is_off (face w) ≡ true
      → (on_private_message folded_before now id from text created_at w).1 ≡ []
  unfolding on_private_message
  private_message-off now id from text created_at w off =
      let selected = current_chat_key w in
      let message : ChatMessage = record {
        id = id;
        chat_key = from;
        author = from;
        text = text;
        status = "delivered";
        outgoing = false;
        created_at = created_at;
      } in
      let preferred = if is_empty selected then from else selected in
      let named = with_state (ensure_private_dialog from) w in
      let appended = append_message now true message named in
      let rebuilt = rebuild_dialog_list folded_before preferred appended in
      let still : is_off (face rebuilt) ≡ true =
        ap is_off (
          rebuild_dialog_list-face folded_before preferred appended
          ∙ append_message-face now true message named
          ∙ ensure_private_dialog-face from w)
        ∙ off in
      elim (Bool-cases (current_chat_key rebuilt == from)) [
        | inl here ↦ rw here (ap (λ (r : Shown). r.1) (mark_current-off rebuilt still))
        | inr other ↦ rw other refl
      ]

  on_signal-off :
      (now : ℕ) (signal : Signal) (w : ChatWindow)
      → is_off (face w) ≡ true
      → (on_signal folded_before now signal w).1 ≡ []
  unfolding on_signal on_user_lookup_finished
  on_signal-off now (user_lookup_finished username exists online) w off =
      let notice = if online then dialog_created username else user_offline username in
      elim (Bool-cases exists) [
        | inl there ↦ rw there (open_dialog-off username notice w off)
        | inr missing ↦ rw missing refl
      ]
  on_signal-off now (private_message_received id from text created_at) w off =
      private_message-off now id from text created_at w off
  on_signal-off now _ w off = refl

module _ (folded_before : String → String → Bool) (trimmed : String → String) where
  apply-off :
      (e : Event) (w : ChatWindow)
      → is_session_call e ≡ false
      → is_accepted e ≡ false
      → IsValid w
      → is_off (face w) ≡ true
      → (apply folded_before trimmed e w).1 ≡ []
  unfolding apply create_private_dialog
  apply-off (activates now username offline) w n a v off = absurd (ground arith)
  apply-off deactivates w n a v off = absurd (ground arith)
  apply-off (edits text) w n a v off = ground arith
  apply-off (selects chat) w n a v off =
      let selected : ChatWindow = record w { current_item = some chat } in
      elim (Bool-cases (has chat w.dialogs)) [
        | inl there ↦ rw there (row_changed-off selected off)
        | inr missing ↦ rw missing refl
      ]
  apply-off (sends fresh_id now sent_at) w n a v off = rw (cannot_compose w v off) refl
  apply-off (creates none) w n a v off = refl
  apply-off (creates (some answer)) w n a v off = absurd (ground arith)
  apply-off (receives now signal) w n a v off = on_signal-off folded_before now signal w off
  apply-off (status_changes status) w n a v off = refl

  abbrev none_calls_session : List Event → Bool
  none_calls_session [] = true
  none_calls_session (e ∷ es) = not (is_session_call e) && none_calls_session es

  abbrev none_accepts : List Event → Bool
  none_accepts [] = true
  none_accepts (e ∷ es) = not (is_accepted e) && none_accepts es

  -- A window that is valid and without an online session writes nothing to the network and stays so, whatever is
  -- clicked, chosen and received, until the flow controller activates or deactivates a session or a dialog for a new
  -- chat, which was opened when the session was online, is accepted: in offline mode nothing is sent, asked for or
  -- confirmed as read.
  pub run_silent :
      (es : List Event) (w : ChatWindow)
      → none_calls_session es ≡ true
      → none_accepts es ≡ true
      → IsValid w
      → is_off (face w) ≡ true
      → ((run folded_before trimmed es w).1 ≡ [])
        × (face (run folded_before trimmed es w).0 ≡ face w)
  unfolding run
  run_silent [] w n a v off = (refl, refl)
  run_silent (e ∷ es) w n a v off =
      let first = apply folded_before trimmed e w in
      let call : is_session_call e ≡ false = ground arith in
      let refused : is_accepted e ≡ false = ground arith in
      let kept = apply-Kept folded_before trimmed e w call v.shown in
      let rest =
        run_silent es first.0 (ground arith) (ground arith)
          (apply-IsValid folded_before trimmed e w v) (ap is_off kept.0 ∙ off) in
      (ap₂ ◌++◌ (apply-off e w call refused v off) rest.0, rest.1 ∙ kept.0)
