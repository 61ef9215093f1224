-- ===== src/Tests/Desk.antt =====
-- The client's file and windows at concrete inputs.
use messenger_walkie_talkie.Prelude.{
  String, Bool, true, false, not, ◌&&◌, ◌≡◌, refl, List, [], ◌∷◌, none, some, arith, ◌==◌,
  string_eq,
}
use messenger_walkie_talkie.Prelude.Int.{pos}
use messenger_walkie_talkie.Prelude.Dict.{get}
use messenger_walkie_talkie.Prelude.Sort.{has, IsSorted}
use messenger_walkie_talkie.Client.Dispatcher.{private_message_received, message_read}
use messenger_walkie_talkie.Client.Network.{connected_state}
use messenger_walkie_talkie.Client.FlowState
use messenger_walkie_talkie.Client.FlowState.{LastSessionInfo, no_session, has_stored_identity}
use messenger_walkie_talkie.Client.ChatState.{ChatMessage, messages_for_chat}
use messenger_walkie_talkie.Client.HistoryStore.{
  HistoryStore, MessageRow, load_messages, load_dialogs, load_last_session, save_message,
  session_of_row,
}
use messenger_walkie_talkie.Client.HistoryStore.Refinement.{
  Op, saves, saves_session, clears_user, Archive, file, IsArchive, apply_all, replay_all,
}
use messenger_walkie_talkie.Client.HistoryStore.Loaded.{
  find_message, shown, is_earlier, load_messages-refines, save_message-other_owner,
}
use messenger_walkie_talkie.Client.HistoryStore.Dialogs.{has_some, load_dialogs_lem}
use messenger_walkie_talkie.Client.ChatWindow.{ChatWindow, current_chat_key}
use messenger_walkie_talkie.Client.ChatWindow.Steps as Chat
use messenger_walkie_talkie.Client.ChatWindow.Face.{face}
use messenger_walkie_talkie.Client.ChatWindow.Running.{IsValid, run-IsValid}
use messenger_walkie_talkie.Client.ChatWindow.Offline.{run_silent}
use messenger_walkie_talkie.Client.FlowController.{Controller, launched}
use messenger_walkie_talkie.Client.FlowController.Handlers.{start, on_logout_requested}
use messenger_walkie_talkie.Client.FlowController.Steps.{
  Event, starts, connects, auth_succeeds, disconnects, socket_turns, changes_server, session_ends,
  run,
}
use messenger_walkie_talkie.Client.FlowController.Held.{IsHeld}
use messenger_walkie_talkie.Client.FlowController.Persisted.{kept_of, IsSaved}
use messenger_walkie_talkie.Client.FlowController.Windows.{IsOne, started-IsOne}
use messenger_walkie_talkie.Client.FlowController.Restart.{opened_program, restart_has_session}
use messenger_walkie_talkie.Client.FlowController.Logout.{logout_forgets}

abbrev as_is : String → String
as_is s = s

abbrev unordered : String → String → Bool
unordered a b = false

abbrev hello : ChatMessage
hello = record {
  id = "m1";
  chat_key = "bob";
  author = "bob";
  text = "hello";
  status = "delivered";
  outgoing = false;
  created_at = pos 7;
}

abbrev hello_row : MessageRow
hello_row = record {
  owner_username = "ann";
  chat_key = "bob";
  author = "bob";
  text = "hello";
  status = "delivered";
  outgoing = 0;
  created_at = pos 7;
}

abbrev session : LastSessionInfo
session = record {
  username = "ann";
  host = "host";
  port = 6000;
  session_token = "t";
  session_expires_at = pos 900;
}

abbrev nothing : Archive
nothing = record { saved = λ id. none; session = no_session }

empty_file-IsArchive : IsArchive (file [] none) nothing
unfolding get
empty_file-IsArchive = record { form = refl; distinct = tt; kept = λ id. refl; session = refl }

abbrev ops : List Op
ops = saves "ann" hello ∷ saves_session session ∷ clears_user "bob" ∷ []

load_messages-refines_example :
    (find_message "m1" (load_messages "ann" "bob" (apply_all ops (file [] none))).1
      ≡ shown "ann" "bob" ((replay_all ops nothing).saved "m1"))
    × IsSorted is_earlier (load_messages "ann" "bob" (apply_all ops (file [] none))).1
    × ((load_last_session (apply_all ops (file [] none))).1 ≡ (replay_all ops nothing).session)
load_messages-refines_example =
    load_messages-refines ops (file [] none) nothing "ann" "bob" "m1" (tt, (omega arith, (tt, tt)))
      empty_file-IsArchive

save_message-other_owner_example :
    find_message "m1" (load_messages "bob" "bob" (save_message "ann" hello (file [] none))).1 ≡ none
save_message-other_owner_example =
    save_message-other_owner "ann" "bob" "bob" hello (file [] none) nothing empty_file-IsArchive
      refl refl refl

abbrev one_message : HistoryStore
one_message = file (("m1", hello_row) ∷ []) none

abbrev bob : String
bob = "bob"

load_dialogs_lem_example :
    has bob (load_dialogs "ann" one_message).1
    ≡ (not (bob == "Broadcast") && has_some (load_messages "ann" bob one_message).1)
load_dialogs_lem_example = load_dialogs_lem "ann" bob one_message refl

abbrev idle : Controller
idle = launched "127.0.0.1" 5555 one_message

idle_window-IsValid : IsValid idle.chat_window
unfolding messages_for_chat current_chat_key get
idle_window-IsValid = record { shown = refl; enabled = (refl, refl) }

abbrev chat_events : List Chat.Event
chat_events =
    Chat.activates 1 "ann" false
    ∷ Chat.receives 2 (private_message_received "m2" "bob" "hi" (pos 8))
    ∷ Chat.selects "bob"
    ∷ Chat.edits "text"
    ∷ Chat.sends "m3" 9 9
    ∷ []

run-IsValid_example : IsValid (Chat.run unordered as_is chat_events idle.chat_window).0
run-IsValid_example = run-IsValid unordered as_is chat_events idle.chat_window idle_window-IsValid

abbrev offline_window : ChatWindow
offline_window = record idle.chat_window {
  state = record idle.chat_window.state { username = "ann" };
  offline_mode = true;
  dialogs = "Broadcast" ∷ "bob" ∷ [];
  current_item = some "bob";
  can_leave = true;
}

offline_window-IsValid : IsValid offline_window
unfolding messages_for_chat current_chat_key get
offline_window-IsValid = record { shown = refl; enabled = (refl, refl) }

abbrev offline_events : List Chat.Event
offline_events =
    Chat.receives 2 (private_message_received "m2" "bob" "hi" (pos 8))
    ∷ Chat.selects "Broadcast"
    ∷ Chat.sends "m3" 9 9
    ∷ Chat.creates none
    ∷ Chat.receives 3 (message_read "m2" "bob")
    ∷ []

run_silent_example :
    ((Chat.run unordered as_is offline_events offline_window).1 ≡ [])
    × (face (Chat.run unordered as_is offline_events offline_window).0 ≡ face offline_window)
run_silent_example =
    run_silent unordered as_is offline_events offline_window refl refl offline_window-IsValid refl

abbrev events : List Event
events =
    starts 1 false
    ∷ connects 2 3
    ∷ socket_turns connected_state
    ∷ auth_succeeds 4 "ann" "t" (pos 900)
    ∷ disconnects 5
    ∷ changes_server 6 true (some ("host", 6000))
    ∷ session_ends ""
    ∷ []

started-IsOne_example : IsOne (run unordered as_is events (start unordered as_is 1 false idle).0).0
started-IsOne_example = started-IsOne unordered as_is 1 false events idle

idle-IsHeld : IsHeld IsSaved idle
unfolding has_stored_identity
idle-IsHeld = record {
  opened = refl;
  no_fault = refl;
  port = omega arith;
  session_port = omega arith;
  initial_port = omega arith;
  related = refl;
}

-- A file with a session that has expired.
abbrev stored_file : HistoryStore
stored_file = record one_message {
  last_session = some record {
    username = "ann";
    host = "host";
    port = 6000;
    session_token = "old";
    session_expires_at = pos 5;
  };
}

stored_file-saved :
    session_of_row stored_file.last_session ≡ kept_of (session_of_row stored_file.last_session)
unfolding has_stored_identity
stored_file-saved = refl

restart_has_session_example :
    let c =
      (run unordered as_is events
        (opened_program unordered as_is 1 false "127.0.0.1" 5555 stored_file)).0 in
    (opened_program unordered as_is 9 true "127.0.0.1" 5555 c.chat_window.store).flow.last_session
    ≡ kept_of c.flow.last_session
restart_has_session_example =
    restart_has_session unordered as_is events stored_file 1 9 false true "127.0.0.1" 5555 refl refl
      stored_file-saved (omega arith) (tt, (tt, (tt, (tt, (tt, (omega arith, (tt, tt)))))))

abbrev signed_in : Controller
signed_in = record idle { flow = record FlowState.initial { active_username = "ann" } }

logout_forgets_example :
    ((load_messages "ann" "bob"
        (on_logout_requested unordered as_is 9 true true signed_in).0.chat_window.store).1
      ≡ [])
    × ((load_last_session
          (on_logout_requested unordered as_is 9 true true signed_in).0.chat_window.store).1
        ≡ no_session)
    × ((on_logout_requested unordered as_is 9 true true signed_in).0.flow.last_session ≡ no_session)
logout_forgets_example =
    logout_forgets unordered as_is 9 true true "bob" signed_in
      (record {
        opened = idle-IsHeld.opened;
        no_fault = idle-IsHeld.no_fault;
        port = idle-IsHeld.port;
        session_port = idle-IsHeld.session_port;
        initial_port = idle-IsHeld.initial_port;
        related = idle-IsHeld.related;
      })
      refl
