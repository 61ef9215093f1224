-- ===== src/Client/FlowController/Persisted.antt =====
-- The session in the file of Client/historystore.cpp is the session of the flow state, whatever happens to the
-- client of Client/clientflowcontroller.cpp.
use messenger_walkie_talkie.Prelude.{
  ℕ, ◌<◌, ◌%◌, ◌^◌, String, ◌≡◌, refl, sym, ap, ap₂, subst, ◌∙◌, Bool, true, false, List, [],
  Option, arith, if◌then◌else◌, string_eq, Bool-cases, inl, inr,
}
use messenger_walkie_talkie.Client.FlowState.{
  FlowState, LastSessionInfo, no_session, has_stored_identity, has_stored_session,
  clear_stored_session_token, expire_stored_session_if_needed, begin_session_resume,
  activate_offline_view,
}
use messenger_walkie_talkie.Client.HistoryStore.{
  HistoryStore, Row, SessionRow, tried, save_last_session, clear_last_session, clear_user_data,
  delete_messages, delete_session_of, session_of_row,
}
use messenger_walkie_talkie.Client.HistoryStore.Refinement.{file}
use messenger_walkie_talkie.Client.FlowController.{
  Controller, with_flow, with_store, persist_stored_session_state,
}
use messenger_walkie_talkie.Client.FlowController.Held.{IsHeld}

-- What the file keeps of a session.
abbrev pub kept_of : LastSessionInfo → LastSessionInfo
kept_of s = if has_stored_identity s then s else no_session

abbrev pub IsSaved : LastSessionInfo → LastSessionInfo → Type 0
IsSaved stored current = stored ≡ kept_of current

abbrev pub IsAny : LastSessionInfo → LastSessionInfo → Type 0
IsAny stored current = Unit

pub form_of :
    (h : HistoryStore) → h.is_open ≡ true → h.faults ≡ [] → h ≡ file h.messages h.last_session
form_of h opened no_fault =
    ap₂
      (λ (o : Bool) (f : List Bool). record {
        is_open = o;
        messages = h.messages;
        last_session = h.last_session;
        faults = f;
      })
      opened no_fault

-- A store after the session of a flow state was saved in it.
record HasSession (h : HistoryStore) (s : LastSessionInfo) : Type 0 where
  opened : h.is_open ≡ true
  no_fault : h.faults ≡ []
  session : session_of_row h.last_session ≡ s

saved_file :
    (s : LastSessionInfo) (rows : List Row) (stored : Option SessionRow)
    → has_stored_identity s ≡ true
    → s.port < 2 ^ 16
    → HasSession (save_last_session s (file rows stored)) s
unfolding save_last_session tried
saved_file s rows stored given fits =
    let port : s.port % 2 ^ 16 ≡ s.port = omega (arith, fits) in
    rw given
      record { opened = refl; no_fault = refl; session = ap (λ p. record s { port = p }) port }

cleared_file :
    (rows : List Row) (stored : Option SessionRow)
    → HasSession (clear_last_session (file rows stored)) no_session
unfolding clear_last_session tried
cleared_file rows stored = record { opened = refl; no_fault = refl; session = refl }

pub persist-IsHeld :
    (c : Controller) → IsHeld IsAny c → IsHeld IsSaved (persist_stored_session_state c)
unfolding persist_stored_session_state has_stored_session
persist-IsHeld c v =
    let h = c.chat_window.store in
    let s = c.flow.last_session in
    let form = form_of h v.opened v.no_fault in
    elim (Bool-cases (has_stored_identity s)) [
      | inl given ↦
          let saved : HasSession (save_last_session s h) s =
            subst (λ k. HasSession (save_last_session s k) s) (sym form)
              (saved_file s h.messages h.last_session given v.session_port) in
          rw given record {
            opened = saved.opened;
            no_fault = saved.no_fault;
            port = v.port;
            session_port = v.session_port;
            initial_port = v.initial_port;
            related = saved.session ∙ rw given refl;
          }
      | inr nothing ↦
          let cleared : HasSession (clear_last_session h) no_session =
            subst (λ k. HasSession (clear_last_session k) no_session) (sym form)
              (cleared_file h.messages h.last_session) in
          rw nothing record {
            opened = cleared.opened;
            no_fault = cleared.no_fault;
            port = v.port;
            session_port = v.session_port;
            initial_port = v.initial_port;
            related = cleared.session ∙ rw nothing refl;
          }
    ]

pub kept_of-kept_of : (s : LastSessionInfo) → kept_of (kept_of s) ≡ kept_of s
unfolding has_stored_identity
kept_of-kept_of s = ground arith

pub kept_of-port : (s : LastSessionInfo) → s.port < 2 ^ 16 → (kept_of s).port < 2 ^ 16
kept_of-port s fits = ground (arith, fits)

pub IsSaved-IsAny : (c : Controller) → IsHeld IsSaved c → IsHeld IsAny c
IsSaved-IsAny c v = record {
  opened = v.opened;
  no_fault = v.no_fault;
  port = v.port;
  session_port = v.session_port;
  initial_port = v.initial_port;
  related = tt;
}

-- What the flow state has after a change of its session.
pub changed-IsHeld :
    (f : FlowState) (c : Controller)
    → f.last_session.port < 2 ^ 16
    → f.current_port < 2 ^ 16
    → IsHeld IsAny c
    → IsHeld IsAny (with_flow f c)
changed-IsHeld f c session fits v = record {
  opened = v.opened;
  no_fault = v.no_fault;
  port = fits;
  session_port = session;
  initial_port = v.initial_port;
  related = tt;
}

pub clear_token-port :
    (f : FlowState)
    → ((clear_stored_session_token f).last_session.port ≡ f.last_session.port)
      × ((clear_stored_session_token f).current_port ≡ f.current_port)
unfolding clear_stored_session_token
clear_token-port f = ground arith

pub expire-port :
    (now : ℕ) (f : FlowState)
    → ((expire_stored_session_if_needed now f).0.last_session.port ≡ f.last_session.port)
      × ((expire_stored_session_if_needed now f).0.current_port ≡ f.current_port)
unfolding expire_stored_session_if_needed
expire-port now f = ground (arith, clear_token-port f)

pub expire-same :
    (now : ℕ) (f : FlowState)
    → (expire_stored_session_if_needed now f).1 ≡ false
    → (expire_stored_session_if_needed now f).0 ≡ f
unfolding expire_stored_session_if_needed
expire-same now f h = ground (arith, h)

pub resume-same :
    (f : FlowState)
    → ((begin_session_resume f).last_session ≡ f.last_session)
      × ((begin_session_resume f).current_port ≡ f.current_port)
unfolding begin_session_resume
resume-same f = ground arith

pub offline-same :
    (f : FlowState)
    → ((activate_offline_view f).0.last_session ≡ f.last_session)
      × ((activate_offline_view f).0.current_port ≡ f.current_port)
unfolding activate_offline_view
offline-same f = ground arith

cleared_user_file :
    (user : String) (rows : List Row) (stored : Option SessionRow)
    → ((clear_user_data user (file rows stored)).is_open ≡ true)
      × ((clear_user_data user (file rows stored)).faults ≡ [])
unfolding clear_user_data delete_messages delete_session_of tried
cleared_user_file user rows stored = ground arith

pub clear_user-IsHeld :
    (user : String) (c : Controller)
    → IsHeld IsAny c
    → IsHeld IsAny (with_store (clear_user_data user c.chat_window.store) c)
clear_user-IsHeld user c v =
    let h = c.chat_window.store in
    let calm : ((clear_user_data user h).is_open ≡ true) × ((clear_user_data user h).faults ≡ []) =
      subst
        (λ k. ((clear_user_data user k).is_open ≡ true) × ((clear_user_data user k).faults ≡ []))
        (sym (form_of h v.opened v.no_fault)) (cleared_user_file user h.messages h.last_session) in
    record {
      opened = calm.0;
      no_fault = calm.1;
      port = v.port;
      session_port = v.session_port;
      initial_port = v.initial_port;
      related = tt;
    }
