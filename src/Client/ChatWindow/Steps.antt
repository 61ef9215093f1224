-- ===== src/Client/ChatWindow/Steps.antt =====
-- What can happen to the chat window of Client/chatwindow.cpp: calls of the flow controller, clicks and
-- choices of the user, and signals of the network client. A button that is not enabled takes no click.
-- The dialog of createPrivateDialog runs an event loop of its own, in which anything else may happen: `creates` is
-- its end, at any time after the click that opened it. That it was opened is not asked for.
use messenger_walkie_talkie.Prelude.{
  ℕ, String, Bool, List, [], ◌∷◌, ◌++◌, Option, some, if◌then◌else◌, string_eq,
}
use messenger_walkie_talkie.Prelude.Sort.{has}
use messenger_walkie_talkie.Client.Dispatcher.{Signal}
use messenger_walkie_talkie.Client.Network.{Status}
use messenger_walkie_talkie.Client.ChatWindow.{
  ChatWindow, Shown, of_status, set_status_text, activate_session, deactivate_session,
  on_current_row_changed,
}
use messenger_walkie_talkie.Client.ChatWindow.Slots.{send_message, create_private_dialog, on_signal}

pub data Event : Type 0 where
  activates : ℕ → String → Bool → Event
  deactivates : Event
  edits : String → Event
  selects : String → Event
  sends : String → ℕ → ℕ → Event
  creates : Option (String × String) → Event
  receives : ℕ → Signal → Event
  status_changes : Status → Event

module _ (folded_before : String → String → Bool) (trimmed : String → String) where
  unfoldable pub apply : Event → ChatWindow → Shown
  apply (activates now username offline) w = activate_session folded_before now username offline w
  apply deactivates w = deactivate_session w
  apply (edits text) w = if w.can_compose then (record w { message_edit = text }, []) else (w, [])
  apply (selects chat) w =
      if has chat w.dialogs
      then on_current_row_changed (record w { current_item = some chat })
      else (w, [])
  apply (sends fresh_id now sent_at) w =
      if w.can_compose then send_message trimmed fresh_id now sent_at w else (w, [])
  apply (creates answer) w = create_private_dialog folded_before trimmed answer w
  apply (receives now signal) w = on_signal folded_before now signal w
  apply (status_changes status) w = (set_status_text (of_status status) w, [])

  unfoldable pub run : List Event → ChatWindow → Shown
  unfolding apply
  run [] w = (w, [])
  run (e ∷ es) w = let first = apply e w in let rest = run es first.0 in (rest.0, first.1 ++ rest.1)
