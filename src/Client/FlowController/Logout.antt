-- ===== src/Client/FlowController/Logout.antt =====
-- What a logout of Client/clientflowcontroller.cpp leaves on the disk.
use messenger_walkie_talkie.Prelude.{
  ℕ, String, ◌≡◌, refl, ap, ◌∙◌, Bool, false, not, List, [], ◌∷◌, map, Option, arith, if◌then◌else◌,
  ◌==◌, string_eq, is_empty,
}
use messenger_walkie_talkie.Prelude.Sort.{sort_by}
use messenger_walkie_talkie.Prelude.Sql.{filter}
use messenger_walkie_talkie.Client.FlowState.{
  LastSessionInfo, no_session, has_stored_identity, handle_logout,
}
use messenger_walkie_talkie.Client.HistoryStore.{
  Row, SessionRow, tried, message_of, is_in_chat, earlier, load_messages, load_last_session,
  delete_messages, delete_session_of, clear_user_data,
}
use messenger_walkie_talkie.Client.HistoryStore.Refinement.{file}
use messenger_walkie_talkie.Client.ChatWindow.{deactivate_session}
use messenger_walkie_talkie.Client.ChatWindow.Calm.{deactivate-IsCalm}
use messenger_walkie_talkie.Client.ChatWindow.Still.{deactivate-messages}
use messenger_walkie_talkie.Client.FlowController.{
  Controller, with_flow, with_store, persist_stored_session_state, show_connection_window,
  update_offline_availability,
}
use messenger_walkie_talkie.Client.FlowController.Handlers.{leave_session, on_logout_requested}
use messenger_walkie_talkie.Client.FlowController.Held.{IsHeld, attempt-IsHeld, IsHeld-IsCalm}
use messenger_walkie_talkie.Client.FlowController.Persisted.{
  kept_of, IsSaved, form_of, persist-IsHeld, changed-IsHeld,
}
use messenger_walkie_talkie.Client.FlowController.Running.{leave-IsHeld}
use messenger_walkie_talkie.Client.FlowController.Rows.{
  rows_of, call_disconnect-rows, attempt-rows, persist-rows,
}

-- The user that logs out.
abbrev pub user_of : Controller → String
user_of c =
    if is_empty c.flow.active_username then c.chat_window.state.username else c.flow.active_username

abbrev is_not_of : String → Row → Bool
is_not_of user row = not (row.1.owner_username == user)

abbrev IsGone : LastSessionInfo → LastSessionInfo → Type 0
IsGone stored current = (stored ≡ no_session) × (current ≡ no_session)

filter-forgotten :
    (user chat : String) (rows : List Row)
    → filter (is_in_chat user chat) (filter (is_not_of user) rows) ≡ []
unfolding filter is_in_chat
filter-forgotten user chat [] = refl
filter-forgotten user chat (row ∷ rows) = ground (arith, filter-forgotten user chat rows)

file-forgotten :
    (user chat : String) (rows : List Row) (stored : Option SessionRow)
    → (load_messages user chat (file (filter (is_not_of user) rows) stored)).1 ≡ []
unfolding load_messages sort_by
file-forgotten user chat rows stored =
    ap (λ found. map message_of (sort_by earlier found)) (filter-forgotten user chat rows)

clear_user_data-rows :
    (user : String) (rows : List Row) (stored : Option SessionRow)
    → is_empty user ≡ false
    → (clear_user_data user (file rows stored)).messages ≡ filter (is_not_of user) rows
unfolding clear_user_data delete_messages delete_session_of tried
clear_user_data-rows user rows stored given = rw given refl

persist-flow : (c : Controller) → (persist_stored_session_state c).flow ≡ c.flow
unfolding persist_stored_session_state
persist-flow c = ground arith

module _ (folded_before : String → String → Bool) (trimmed : String → String) where
  leave-rows :
      (now : ℕ) (closed drops : Bool) (c : Controller)
      → IsHeld IsSaved c
      → is_empty (user_of c) ≡ false
      → rows_of (leave_session folded_before trimmed now closed drops c).0
        ≡ filter (is_not_of (user_of c)) (rows_of c)
  unfolding leave_session
  leave-rows now closed drops c v given =
      let user = user_of c in
      let left = deactivate_session c.chat_window in
      let shut = record c { chat_window = left.0 } in
      let h = shut.chat_window.store in
      let forgotten = with_store (clear_user_data user h) shut in
      let cleared = if is_empty user then shut else forgotten in
      let calm =
        deactivate-IsCalm c.chat_window.store.last_session c.chat_window
          (IsHeld-IsCalm IsSaved c v) in
      call_disconnect-rows folded_before trimmed now closed drops cleared
      ∙ ap (λ b. rows_of (if b then shut else forgotten)) given
      ∙ ap (λ k. (clear_user_data user k).messages) (form_of h calm.opened calm.no_fault)
      ∙ clear_user_data-rows user h.messages h.last_session given
      ∙ ap (filter (is_not_of user)) (deactivate-messages c.chat_window)

  logged_out :
      (now : ℕ) (closed drops : Bool) (c : Controller)
      → IsHeld IsSaved c
      → IsHeld IsGone (on_logout_requested folded_before trimmed now closed drops c).0
        × (rows_of (on_logout_requested folded_before trimmed now closed drops c).0
            ≡ rows_of (leave_session folded_before trimmed now closed drops c).0)
  unfolding on_logout_requested update_offline_availability show_connection_window
  logged_out now closed drops c v =
      let gone = leave_session folded_before trimmed now closed drops c in
      let any = leave-IsHeld trimmed folded_before now closed drops c v in
      let f = handle_logout gone.0.flow in
      let left = with_flow f gone.0 in
      let out = persist_stored_session_state left in
      let blank = record out {
        login_window = record out.login_window { username = ""; password = "" };
      } in
      let shown = show_connection_window (update_offline_availability false blank) in
      let saved : IsHeld IsSaved out = persist-IsHeld left (
        changed-IsHeld f gone.0 (unfold handle_logout in omega arith)
          (unfold handle_logout in any.port) any) in
      let none_left : out.flow.last_session ≡ no_session =
        ap (λ g. g.last_session) (persist-flow left) ∙ unfold handle_logout in refl in
      let held : IsHeld IsGone out = record {
        opened = saved.opened;
        no_fault = saved.no_fault;
        port = saved.port;
        session_port = saved.session_port;
        initial_port = saved.initial_port;
        related =
            (saved.related ∙ ap kept_of none_left ∙ unfold has_stored_identity in refl, none_left);
      } in
      (
        attempt-IsHeld IsGone folded_before trimmed now false shown.flow.current_host
            shown.flow.current_port shown held.port held,
        attempt-rows folded_before trimmed now false shown.flow.current_host shown.flow.current_port
              shown
            ∙ persist-rows left,
      )

  -- After a logout of a user, on a file that is open, where no statement fails and whose session is that of the flow
  -- state, as the program keeps it, with all ports those of a quint16: the file has no message of that user in any chat
  -- and no last session, and the flow state has none either, whether the server was connected or not.
  pub logout_forgets :
      (now : ℕ) (closed drops : Bool) (chat : String) (c : Controller)
      → IsHeld IsSaved c
      → is_empty (user_of c) ≡ false
      → let d = (on_logout_requested folded_before trimmed now closed drops c).0 in
        ((load_messages (user_of c) chat d.chat_window.store).1 ≡ [])
        × ((load_last_session d.chat_window.store).1 ≡ no_session)
        × (d.flow.last_session ≡ no_session)
  logout_forgets now closed drops chat c v given =
      let d = (on_logout_requested folded_before trimmed now closed drops c).0 in
      let out = logged_out now closed drops c v in
      let h = d.chat_window.store in
      let form = form_of h out.0.opened out.0.no_fault in
      let rows = out.1 ∙ leave-rows now closed drops c v given in
      (
        ap (λ k. (load_messages (user_of c) chat k).1) form
            ∙ ap (λ rs. (load_messages (user_of c) chat (file rs h.last_session)).1) rows
            ∙ file-forgotten (user_of c) chat (rows_of c) h.last_session,
        ap (λ k. (load_last_session k).1) form ∙ unfold load_last_session in out.0.related.0,
        out.0.related.1,
      )
