-- ===== src/Client/ChatWindow/Running.antt =====
-- The chat window of Client/chatwindow.cpp over any events.
use messenger_walkie_talkie.Prelude.{
  ℕ, String, ◌≡◌, refl, sym, subst, Bool, true, false, not, ◌&&◌, ◌||◌, List, [], ◌∷◌, Option, none,
  some, arith, if◌then◌else◌, ◌==◌, string_eq, is_empty,
}
use messenger_walkie_talkie.Prelude.Int.{pos}
use messenger_walkie_talkie.Prelude.Dict.{get}
use messenger_walkie_talkie.Prelude.Sort.{has}
use messenger_walkie_talkie.Shared.Auth.{is_message_text_valid}
use messenger_walkie_talkie.Client.Network.{Effect, NetworkClient}
use messenger_walkie_talkie.Client.Network.Requests.{
  check_user_exists, send_broadcast_message, send_private_message,
}
use messenger_walkie_talkie.Client.ChatState.{ChatMessage, messages_for_chat, clear, set_username}
use messenger_walkie_talkie.Client.ChatWindow.{
  ChatWindow, Shown, message_too_long, checking, dialog_selected, set_status_text, current_chat_key,
  refresh_current_chat, append_message, on_current_row_changed, mark_current_private_messages_read,
  activate_session, deactivate_session, clear_loaded_history, update_ui_state, is_current,
}
use messenger_walkie_talkie.Client.ChatWindow.Slots.{
  send_message, create_private_dialog, open_dialog,
}
use messenger_walkie_talkie.Client.ChatWindow.Steps.{
  Event, activates, deactivates, edits, selects, sends, creates, receives, status_changes, apply,
  run,
}
use messenger_walkie_talkie.Client.ChatWindow.Face.{
  Face, face, on_signal-face, on_current_row_changed-face, append_message-face, open_dialog-face,
}
use messenger_walkie_talkie.Client.ChatWindow.Valid.{
  IsShown, refresh-IsShown, open_dialog-IsShown, on_signal-IsShown,
}

-- The buttons are enabled as the session allows.
abbrev IsEnabled : Face → Type 0
IsEnabled (online, offline, compose, leave, user) =
    (compose ≡ (online && not offline)) × (leave ≡ not (is_empty user))

-- The view shows the current chat, and the buttons are enabled as the session allows.
pub record IsValid (w : ChatWindow) : Type 0 where
  pub shown : IsShown w
  pub enabled : IsEnabled (face w)

-- The calls of the flow controller that change the session.
abbrev pub is_session_call : Event → Bool
is_session_call (activates now username offline) = true
is_session_call deactivates = true
is_session_call _ = false

-- The face is as before, and the current chat is shown.
abbrev pub Kept : Face → Shown → Type 0
Kept f r = (face r.0 ≡ f) × IsShown r.0

either-Kept :
    (b : Bool) (f : Face) (x y : Shown) → Kept f x → Kept f y → Kept f (if b then x else y)
either-Kept true f x y hx hy = hx
either-Kept false f x y hx hy = hy

-- The window of nobody shows no message, whether its list tells the slot of the row or not.
cleared-IsShown :
    (told : Bool) (w : ChatWindow)
    → w.online_session ≡ false
    → w.state.chat_messages ≡ []
    → let r = if told then on_current_row_changed w else (w, []) in
      [] ≡ messages_for_chat (current_chat_key r.0) r.0.state
unfolding messages_for_chat get
cleared-IsShown true w off empty =
    unfold on_current_row_changed mark_current_private_messages_read refresh_current_chat in
    ground (arith, off, empty)
cleared-IsShown false w off empty = ground (arith, empty)

deactivate-IsShown : (w : ChatWindow) → IsShown (deactivate_session w).0
unfolding deactivate_session clear_loaded_history update_ui_state clear set_username
    current_chat_key
deactivate-IsShown w =
    cleared-IsShown (is_current w.current_item)
      (record w {
        state = clear (set_username "" w.state);
        offline_mode = false;
        online_session = false;
        dialogs = [];
        current_item = none;
      })
      refl refl

module _ (folded_before : String → String → Bool) (trimmed : String → String) where
  -- What sendMessage does where it is allowed to.
  abbrev pub sent_of : String → ℕ → ChatWindow → NetworkClient × List Effect × String
  sent_of fresh_id sent_at w =
      if current_chat_key w == "Broadcast"
      then send_broadcast_message fresh_id sent_at (trimmed w.message_edit) w.client
      else send_private_message fresh_id sent_at (current_chat_key w) (trimmed w.message_edit)
          w.client

  abbrev pub message_sent : String → ℕ → ℕ → ChatWindow → ChatMessage
  message_sent fresh_id now sent_at w = record {
    id = (sent_of fresh_id sent_at w).2;
    chat_key = current_chat_key w;
    author = w.state.username;
    text = trimmed w.message_edit;
    status = "sending";
    outgoing = true;
    created_at = pos now;
  }

  abbrev pub appended_of : String → ℕ → ℕ → ChatWindow → ChatWindow
  appended_of fresh_id now sent_at w =
      append_message now true (message_sent fresh_id now sent_at w)
        (record w { client = (sent_of fresh_id sent_at w).0 })

  send_message-Kept :
      (fresh_id : String) (now sent_at : ℕ) (w : ChatWindow)
      → IsShown w
      → Kept (face w) (send_message trimmed fresh_id now sent_at w)
  unfolding send_message
  send_message-Kept fresh_id now sent_at w v =
      let f = face w in
      let text = trimmed w.message_edit in
      let appended = appended_of fresh_id now sent_at w in
      let sent : Shown = (record appended { message_edit = "" }, (sent_of fresh_id sent_at w).1) in
      let too_long : Shown = (set_status_text message_too_long w, []) in
      let checked : Shown = if not (is_message_text_valid trimmed text) then too_long else sent in
      let same : Kept f (w, []) = (refl, v) in
      either-Kept (not w.online_session || (w.offline_mode || is_empty w.state.username)) f (w, [])
        (if is_empty text then (w, []) else checked) same
        (either-Kept (is_empty text) f (w, []) checked same
          (either-Kept (not (is_message_text_valid trimmed text)) f too_long sent (refl, v)
            (
              append_message-face now true (message_sent fresh_id now sent_at w)
                  (record w { client = (sent_of fresh_id sent_at w).0 }),
              unfold append_message refresh_current_chat current_chat_key in refl,
            )))

  create-Kept :
      (answer : Option (String × String)) (w : ChatWindow)
      → IsShown w
      → Kept (face w) (create_private_dialog folded_before trimmed answer w)
  unfolding create_private_dialog
  create-Kept none w v = (refl, v)
  create-Kept (some answer) w v =
      let f = face w in
      let typed = trimmed answer.0 in
      let username = if not (is_empty typed) then typed else trimmed answer.1 in
      let asked : Shown =
        (set_status_text (checking username) w, check_user_exists trimmed username) in
      let opened = open_dialog folded_before username (dialog_selected username) w in
      let third : Shown = if not (is_empty typed) then asked else opened in
      let second : Shown = if username == w.state.username then (w, []) else third in
      either-Kept (is_empty username) f (w, []) second (refl, v)
        (either-Kept (username == w.state.username) f (w, []) third (refl, v)
          (either-Kept (not (is_empty typed)) f asked opened (refl, v)
            (
              open_dialog-face folded_before username (dialog_selected username) w,
              open_dialog-IsShown folded_before username (dialog_selected username) w,
            )))

  row_changed-Kept : (w : ChatWindow) → Kept (face w) (on_current_row_changed w)
  unfolding on_current_row_changed
  row_changed-Kept w =
      (on_current_row_changed-face w, refresh-IsShown (mark_current_private_messages_read w).0)

  pub apply-Kept :
      (e : Event) (w : ChatWindow)
      → is_session_call e ≡ false
      → IsShown w
      → Kept (face w) (apply folded_before trimmed e w)
  unfolding apply current_chat_key
  apply-Kept (activates now username offline) w n v = absurd (ground arith)
  apply-Kept deactivates w n v = absurd (ground arith)
  apply-Kept (edits text) w n v =
      either-Kept w.can_compose (face w) (record w { message_edit = text }, []) (w, []) (refl, v)
        (refl, v)
  apply-Kept (selects chat) w n v =
      let selected : ChatWindow = record w { current_item = some chat } in
      either-Kept (has chat w.dialogs) (face w) (on_current_row_changed selected) (w, [])
        (row_changed-Kept selected) (refl, v)
  apply-Kept (sends fresh_id now sent_at) w n v =
      either-Kept w.can_compose (face w) (send_message trimmed fresh_id now sent_at w) (w, [])
        (send_message-Kept fresh_id now sent_at w v) (refl, v)
  apply-Kept (creates answer) w n v = create-Kept answer w v
  apply-Kept (receives now signal) w n v =
      (on_signal-face folded_before now signal w, on_signal-IsShown folded_before now signal w v)
  apply-Kept (status_changes status) w n v = (refl, v)

  activate-IsShown :
      (now : ℕ) (username : String) (offline : Bool) (w : ChatWindow)
      → IsShown (activate_session folded_before now username offline w).0
  unfolding activate_session refresh_current_chat current_chat_key
  activate-IsShown now username offline w = refl

  pub apply-IsValid :
      (e : Event) (w : ChatWindow) → IsValid w → IsValid (apply folded_before trimmed e w).0
  unfolding apply activate_session deactivate_session update_ui_state refresh_current_chat
  apply-IsValid (activates now username offline) w v =
      let r = activate_session folded_before now username offline w in
      record { shown = activate-IsShown now username offline w; enabled = (refl, refl) }
  apply-IsValid deactivates w v = record { shown = deactivate-IsShown w; enabled = (refl, refl) }
  apply-IsValid e w v =
      let kept = apply-Kept e w refl v.shown in
      record { shown = kept.1; enabled = subst IsEnabled (sym kept.0) v.enabled }

  -- Whatever happens to a window where this holds (calls of the flow controller, clicks, choices and signals of the
  -- network client, in any order), the history view shows exactly the messages of the current chat, the
  -- message field and the buttons to send and to open a dialog are enabled exactly if the session is online, and the
  -- ones to log out and to change the server exactly if there is a user.
  pub run-IsValid :
      (es : List Event) (w : ChatWindow) → IsValid w → IsValid (run folded_before trimmed es w).0
  unfolding run
  run-IsValid [] w v = v
  run-IsValid (e ∷ es) w v =
      run-IsValid es (apply folded_before trimmed e w).0 (apply-IsValid e w v)
