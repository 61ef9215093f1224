-- ===== src/Client/FlowController/Running.antt =====
-- The last session of the client of Client/clientflowcontroller.cpp over any events.
use messenger_walkie_talkie.Prelude.{
  ℕ, ◌<◌, ◌^◌, String, ◌≡◌, refl, sym, ap, subst, ◌∙◌, Bool, false, not, ◌&&◌, ◌||◌, List, [], ◌∷◌,
  Option, none, some, arith, if◌then◌else◌, ◌==◌, string_eq, eqb, is_empty, All,
}
use messenger_walkie_talkie.Prelude.Int.{ℤ}
use messenger_walkie_talkie.Client.Network.Requests
use messenger_walkie_talkie.Client.FlowState.{
  LastSessionInfo, has_stored_session, set_endpoint, restore_last_session,
  mark_credential_auth_requested, activate_offline_view, handle_auth_succeeded, handle_auth_failed,
  handle_endpoint_change, handle_logout,
}
use messenger_walkie_talkie.Client.HistoryStore.{load_last_session, clear_user_data, session_of_row}
use messenger_walkie_talkie.Client.ChatWindow.{activate_session, deactivate_session}
use messenger_walkie_talkie.Client.ChatWindow.Steps as ChatSteps
use messenger_walkie_talkie.Client.ChatWindow.Running.{is_session_call}
use messenger_walkie_talkie.Client.ChatWindow.Calm.{activate-IsCalm, deactivate-IsCalm}
use messenger_walkie_talkie.Client.ChatWindow.Calm.Slots.{apply-IsCalm}
use messenger_walkie_talkie.Client.FlowController.{
  Controller, with_flow, with_store, persist_stored_session_state, show_connection_window,
  show_login_window, show_chat_window, update_endpoint_labels, update_offline_availability,
  activate_offline,
}
use messenger_walkie_talkie.Client.FlowController.Handlers.{
  start, on_auth_succeeded, on_auth_failed, asking, ask_again, on_login_requested,
  on_register_requested, on_offline_mode_requested, on_change_server_requested, leave_session,
  on_logout_requested,
}
use messenger_walkie_talkie.Client.FlowController.Steps.{
  Event, starts, connects, disconnects, auth_succeeds, auth_fails, session_ends, transport_fails,
  status_changes, requests_login, requests_register, requests_offline, changes_server,
  requests_logout, chats, socket_turns, apply, run,
}
use messenger_walkie_talkie.Client.FlowController.Held.{
  Held, IsHeld, either-IsHeld, either_handled-IsHeld, flow-IsHeld, chat-IsHeld, IsHeld-IsCalm,
  status_changed-IsHeld, transport_error-IsHeld, activate_offline-IsHeld, disconnected-IsHeld,
  call_disconnect-IsHeld, set_endpoint-IsHeld, attempt-IsHeld, normalized_port-fits,
}
use messenger_walkie_talkie.Client.FlowController.Persisted.{
  kept_of, IsSaved, IsAny, persist-IsHeld, kept_of-kept_of, kept_of-port, IsSaved-IsAny,
  changed-IsHeld, offline-same, clear_user-IsHeld,
}
use messenger_walkie_talkie.Client.FlowController.Session.{
  loaded_session, restored-session, restored-port, connected-IsHeld, loses-IsHeld,
}

-- A port that comes from outside is a quint16.
abbrev pub Fits : Event → Type 0
Fits (changes_server now drops (some (host, port))) = port < 2 ^ 16
Fits _ = Unit

module _ (trimmed : String → String) (folded_before : String → String → Bool) where
  restored-IsHeld :
      (c : Controller)
      → IsHeld IsSaved c
      → let r = load_last_session c.chat_window.store in
        IsHeld IsSaved (with_flow (restore_last_session trimmed r.1 c.flow) (with_store r.0 c))
  restored-IsHeld c v =
      let h = c.chat_window.store in
      let s = session_of_row h.last_session in
      let f = restore_last_session trimmed s c.flow in
      let small : s.port < 2 ^ 16 =
        subst (λ (x : LastSessionInfo). x.port < 2 ^ 16) (sym v.related)
          (kept_of-port c.flow.last_session v.session_port) in
      let saved : s ≡ kept_of s =
        v.related ∙ sym (kept_of-kept_of c.flow.last_session) ∙ ap kept_of (sym v.related) in
      let held : Held IsSaved h f c.initial_port = record {
        opened = v.opened;
        no_fault = v.no_fault;
        port = restored-port trimmed s c.flow small v.port;
        session_port =
            subst (λ (x : LastSessionInfo). x.port < 2 ^ 16)
              (sym (restored-session trimmed s c.flow)) small;
        initial_port = v.initial_port;
        related = saved ∙ ap kept_of (sym (restored-session trimmed s c.flow));
      } in
      subst (λ r. Held IsSaved r.0 (restore_last_session trimmed r.1 c.flow) c.initial_port)
        (sym (loaded_session h v.opened v.no_fault)) held

  -- The start of the program, from the session that it has read on.
  pub start-related :
      (Related : LastSessionInfo → LastSessionInfo → Type 0) (now : ℕ) (drops : Bool)
      (c : Controller)
      → let r = load_last_session c.chat_window.store in
        IsHeld Related (with_flow (restore_last_session trimmed r.1 c.flow) (with_store r.0 c))
        → IsHeld Related (start folded_before trimmed now drops c).0
  unfolding start update_offline_availability update_endpoint_labels show_connection_window
  start-related Related now drops c held =
      let r = load_last_session c.chat_window.store in
      let restored = with_flow (restore_last_session trimmed r.1 c.flow) (with_store r.0 c) in
      let first =
        with_flow (set_endpoint trimmed c.initial_host c.initial_port restored.flow) restored in
      let none_stored = not (has_stored_session restored.flow) in
      let aimed = if none_stored then first else restored in
      let aimed_held =
        either-IsHeld Related none_stored first restored
          (set_endpoint-IsHeld Related folded_before trimmed c.initial_host c.initial_port restored
            held.initial_port held)
          held in
      attempt-IsHeld Related folded_before trimmed now drops aimed.flow.current_host
        aimed.flow.current_port
        (show_connection_window (update_offline_availability false (update_endpoint_labels aimed)))
        aimed_held.port aimed_held

  start-IsHeld :
      (now : ℕ) (drops : Bool) (c : Controller)
      → IsHeld IsSaved c
      → IsHeld IsSaved (start folded_before trimmed now drops c).0
  start-IsHeld now drops c v = start-related IsSaved now drops c (restored-IsHeld c v)

  auth-IsHeld :
      (now : ℕ) (username token : String) (expires_at : ℤ) (c : Controller)
      → IsHeld IsSaved c
      → IsHeld IsSaved (on_auth_succeeded folded_before now username token expires_at c).0
  unfolding on_auth_succeeded show_chat_window
  auth-IsHeld now username token expires_at c v =
      let f = handle_auth_succeeded username token expires_at c.flow in
      let known = persist_stored_session_state (with_flow f c) in
      let held : IsHeld IsSaved known = persist-IsHeld (with_flow f c) (
        changed-IsHeld f c (unfold handle_auth_succeeded in v.port)
          (unfold handle_auth_succeeded in v.port) (IsSaved-IsAny c v)) in
      chat-IsHeld IsSaved (activate_session folded_before now username false known.chat_window).0
        known
        (activate-IsCalm known.chat_window.store.last_session folded_before now username false
          known.chat_window (IsHeld-IsCalm IsSaved known held))
        held

  offline-IsHeld :
      (now : ℕ) (c : Controller)
      → IsHeld IsSaved c
      → IsHeld IsSaved (on_offline_mode_requested folded_before now c).0
  unfolding on_offline_mode_requested show_chat_window
  offline-IsHeld now c v =
      let r = activate_offline_view c.flow in
      let shown = activate_offline folded_before now (with_flow r.0 c) in
      either_handled-IsHeld IsSaved (not r.1) (c, []) (show_chat_window shown.0, shown.1) v
        (activate_offline-IsHeld IsSaved folded_before now (with_flow r.0 c)
          (flow-IsHeld IsSaved r.0 c (offline-same c.flow).0 (rw (offline-same c.flow).1 v.port) v))

  change_server-IsHeld :
      (now : ℕ) (drops : Bool) (answer : Option (String × ℕ)) (c : Controller)
      → Fits (changes_server now drops answer)
      → IsHeld IsSaved c
      → IsHeld IsSaved (on_change_server_requested folded_before trimmed now drops answer c).0
  unfolding on_change_server_requested update_endpoint_labels show_connection_window
  change_server-IsHeld now drops none c fits v = v
  change_server-IsHeld now drops (some (host, port)) c fits v =
      let changed = not (host == c.flow.current_host) || not (eqb port c.flow.current_port) in
      let f = handle_endpoint_change trimmed host port changed c.flow in
      let held : IsHeld IsSaved (with_flow f c) =
        flow-IsHeld IsSaved f c (unfold handle_endpoint_change set_endpoint in refl)
          (unfold handle_endpoint_change set_endpoint in normalized_port-fits port fits) v in
      attempt-IsHeld IsSaved folded_before trimmed now drops f.current_host f.current_port
        (show_connection_window (update_endpoint_labels (with_flow f c))) held.port held

  pub leave-IsHeld :
      (now : ℕ) (closed drops : Bool) (c : Controller)
      → IsHeld IsSaved c
      → IsHeld IsAny (leave_session folded_before trimmed now closed drops c).0
  unfolding leave_session
  leave-IsHeld now closed drops c v =
      let username =
        if is_empty c.flow.active_username
        then c.chat_window.state.username
        else c.flow.active_username in
      let left = deactivate_session c.chat_window in
      let shut = record c { chat_window = left.0 } in
      let forgotten = with_store (clear_user_data username shut.chat_window.store) shut in
      let cleared = if is_empty username then shut else forgotten in
      let held : IsHeld IsAny shut =
        chat-IsHeld IsAny left.0 c
          (deactivate-IsCalm c.chat_window.store.last_session c.chat_window
            (IsHeld-IsCalm IsSaved c v))
          (IsSaved-IsAny c v) in
      call_disconnect-IsHeld IsAny folded_before trimmed now closed drops cleared (
        either-IsHeld IsAny (is_empty username) shut forgotten held
          (clear_user-IsHeld username shut held))

  logout-IsHeld :
      (now : ℕ) (closed drops : Bool) (c : Controller)
      → IsHeld IsSaved c
      → IsHeld IsSaved (on_logout_requested folded_before trimmed now closed drops c).0
  unfolding on_logout_requested update_offline_availability show_connection_window
  logout-IsHeld now closed drops c v =
      let gone = leave_session folded_before trimmed now closed drops c in
      let any = leave-IsHeld now closed drops c v in
      let f = handle_logout gone.0.flow in
      let out = persist_stored_session_state (with_flow f gone.0) in
      let blank = record out {
        login_window = record out.login_window { username = ""; password = "" };
      } in
      let shown = show_connection_window (update_offline_availability false blank) in
      let held : IsHeld IsSaved out = persist-IsHeld (with_flow f gone.0) (
        changed-IsHeld f gone.0 (unfold handle_logout in omega arith)
          (unfold handle_logout in any.port) any) in
      attempt-IsHeld IsSaved folded_before trimmed now false shown.flow.current_host
        shown.flow.current_port shown held.port held

  asked-IsHeld :
      (username : String) (c : Controller)
      → IsHeld IsSaved c
      → IsHeld IsSaved (with_flow (mark_credential_auth_requested username c.flow) c)
  asked-IsHeld username c v =
      flow-IsHeld IsSaved (mark_credential_auth_requested username c.flow) c
        (unfold mark_credential_auth_requested in refl)
        (unfold mark_credential_auth_requested in v.port) v

  apply-IsHeld :
      (e : Event) (c : Controller)
      → Fits e
      → IsHeld IsSaved c
      → IsHeld IsSaved (apply folded_before trimmed e c).0
  unfolding apply
  apply-IsHeld (starts now drops) c f v = start-IsHeld now drops c v
  apply-IsHeld (connects now later) c f v = connected-IsHeld trimmed now later c v
  apply-IsHeld (disconnects now) c f v = disconnected-IsHeld IsSaved folded_before now c v
  apply-IsHeld (auth_succeeds now username token expires_at) c f v =
      auth-IsHeld now username token expires_at c v
  apply-IsHeld (auth_fails message) c f v =
      unfold on_auth_failed show_login_window in
      flow-IsHeld IsSaved (handle_auth_failed c.flow) c (unfold handle_auth_failed in refl)
        (unfold handle_auth_failed in v.port) v
  apply-IsHeld (session_ends message) c f v = loses-IsHeld trimmed message c v
  apply-IsHeld (transport_fails message) c f v = transport_error-IsHeld IsSaved message c v
  apply-IsHeld (status_changes status) c f v = status_changed-IsHeld IsSaved status c v
  apply-IsHeld (requests_login username password) c f v =
      unfold on_login_requested in
      either_handled-IsHeld IsSaved (is_empty username || is_empty password) (ask_again c, [])
        (asking username "Signing in..." c, Requests.login trimmed username password) v
        (asked-IsHeld username c v)
  apply-IsHeld (requests_register username password) c f v =
      unfold on_register_requested in
      either_handled-IsHeld IsSaved (is_empty username || is_empty password) (ask_again c, [])
        (asking username "Creating account..." c, Requests.register_user trimmed username password)
        v (asked-IsHeld username c v)
  apply-IsHeld (requests_offline now) c f v =
      either_handled-IsHeld IsSaved
        (c.connection_window.visible && c.connection_window.offline_mode_available)
        (on_offline_mode_requested folded_before now c) (c, []) (offline-IsHeld now c v) v
  apply-IsHeld (changes_server now drops answer) c f v = change_server-IsHeld now drops answer c f v
  apply-IsHeld (requests_logout now closed drops) c f v =
      either_handled-IsHeld IsSaved (c.chat_visible && c.chat_window.can_leave)
        (on_logout_requested folded_before trimmed now closed drops c) (c, [])
        (logout-IsHeld now closed drops c v) v
  apply-IsHeld (chats e) c f v =
      let r = ChatSteps.apply folded_before trimmed e c.chat_window in
      either_handled-IsHeld IsSaved (is_session_call e) (c, [])
        (record c { chat_window = r.0 }, r.1) v
        (chat-IsHeld IsSaved r.0 c
          (apply-IsCalm c.chat_window.store.last_session folded_before trimmed e c.chat_window
            (IsHeld-IsCalm IsSaved c v))
          v)
  apply-IsHeld (socket_turns state) c f v = v

  pub run-IsHeld :
      (es : List Event) (c : Controller)
      → All Fits es
      → IsHeld IsSaved c
      → IsHeld IsSaved (run folded_before trimmed es c).0
  unfolding run
  run-IsHeld [] c f v = v
  run-IsHeld (e ∷ es) c f v =
      run-IsHeld es (apply folded_before trimmed e c).0 f.1 (apply-IsHeld e c f.0 v)
