-- ===== src/Client/FlowController/Restart.antt =====
-- The client of Client/clientflowcontroller.cpp started again on the file that it has left.
use messenger_walkie_talkie.Prelude.{
  ℕ, ◌<◌, ◌^◌, String, ◌≡◌, refl, sym, subst, ◌∙◌, Bool, true, List, [], Option, none, some, arith,
  All,
}
use messenger_walkie_talkie.Client.FlowState.{LastSessionInfo, restore_last_session}
use messenger_walkie_talkie.Client.HistoryStore.{HistoryStore, SessionRow, session_of_row}
use messenger_walkie_talkie.Client.FlowController.{Controller, launched}
use messenger_walkie_talkie.Client.FlowController.Handlers.{start}
use messenger_walkie_talkie.Client.FlowController.Steps.{Event, run}
use messenger_walkie_talkie.Client.FlowController.Held.{Held, IsHeld}
use messenger_walkie_talkie.Client.FlowController.Persisted.{kept_of, IsSaved}
use messenger_walkie_talkie.Client.FlowController.Session.{
  loaded_session, restored-session, restored-port,
}
use messenger_walkie_talkie.Client.FlowController.Running.{Fits, start-related, run-IsHeld}

abbrev IsExactly : LastSessionInfo → LastSessionInfo → LastSessionInfo → Type 0
IsExactly wanted stored current = current ≡ wanted

row-port : (row : Option SessionRow) → (session_of_row row).port < 2 ^ 16
row-port none = omega arith
row-port (some row) = omega arith

module _ (folded_before : String → String → Bool) (trimmed : String → String) where
  -- The program as it runs after `start`.
  abbrev pub opened_program : ℕ → Bool → String → ℕ → HistoryStore → Controller
  opened_program now drops host port h =
      (start folded_before trimmed now drops (launched host port h)).0

  launched-IsHeld :
      (Related : LastSessionInfo → LastSessionInfo → Type 0) (now : ℕ) (drops : Bool)
      (host : String) (port : ℕ) (h : HistoryStore)
      → port < 2 ^ 16
      → h.is_open ≡ true
      → h.faults ≡ []
      → Related (session_of_row h.last_session) (session_of_row h.last_session)
      → IsHeld Related (opened_program now drops host port h)
  launched-IsHeld Related now drops host port h fits opened no_fault rel =
      let c = launched host port h in
      let s = session_of_row h.last_session in
      let f = restore_last_session trimmed s c.flow in
      let small = row-port h.last_session in
      let held : Held Related h f port = record {
        opened = opened;
        no_fault = no_fault;
        port = restored-port trimmed s c.flow small (omega arith);
        session_port =
            subst (λ (x : LastSessionInfo). x.port < 2 ^ 16)
              (sym (restored-session trimmed s c.flow)) small;
        initial_port = fits;
        related = subst (Related s) (sym (restored-session trimmed s c.flow)) rel;
      } in
      start-related trimmed folded_before Related now drops c (
        subst (λ r. Held Related r.0 (restore_last_session trimmed r.1 c.flow) port)
          (sym (loaded_session h opened no_fault)) held)

  start-session :
      (now : ℕ) (drops : Bool) (host : String) (port : ℕ) (h : HistoryStore)
      → port < 2 ^ 16
      → h.is_open ≡ true
      → h.faults ≡ []
      → (opened_program now drops host port h).flow.last_session ≡ session_of_row h.last_session
  start-session now drops host port h fits opened no_fault =
      (launched-IsHeld (IsExactly (session_of_row h.last_session)) now drops host port h fits opened
        no_fault refl).related

  -- On a file that is open, where no statement fails and whose session, if it has one, names a user and an
  -- endpoint, as the program saves no other: whatever happens to the client that is started on it, the program that is
  -- started again on the file has the last session that the client had, with its user, its endpoint and its token, if that
  -- named a user and an endpoint, and otherwise none. All ports are those of a quint16.
  pub restart_has_session :
      (es : List Event) (h : HistoryStore) (now later : ℕ) (drops drops' : Bool) (host : String)
      (port : ℕ)
      → h.is_open ≡ true
      → h.faults ≡ []
      → session_of_row h.last_session ≡ kept_of (session_of_row h.last_session)
      → port < 2 ^ 16
      → All Fits es
      → let c = (run folded_before trimmed es (opened_program now drops host port h)).0 in
        (opened_program later drops' host port c.chat_window.store).flow.last_session
        ≡ kept_of c.flow.last_session
  restart_has_session es h now later drops drops' host port opened no_fault saved fits f =
      let c = opened_program now drops host port h in
      let v = launched-IsHeld IsSaved now drops host port h fits opened no_fault saved in
      let w = run-IsHeld trimmed folded_before es c f v in
      start-session later drops' host port (run folded_before trimmed es c).0.chat_window.store fits
        w.opened w.no_fault
      ∙ w.related
