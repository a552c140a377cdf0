-- ===== src/Session/Lifecycle/Opened.antt =====
-- What the session manager leaves where it opens a session (start_session of
-- diagnostic_platform/session_orchestrator.py).
use gds2_automation.Base.{
  ℕ, String, ◌≡◌, ◌≢◌, refl, sym, ap, ◌∙◌, subst, Option, none, some, Result, ok, err, string_eq,
}
use gds2_automation.Base.Dict.{Dict, get-put, get-put_self, get-put_ne, get-pop_self, get-pop_ne}
use gds2_automation.Base.Dict
use gds2_automation.Session.State.{
  Session, DecisionGate, SessionContext, Outcome, Message, get_session, found_session, store,
  is_terminal, find_active, emit, rollback_start_session, cleanup_session_state,
}
use gds2_automation.Session.State
use gds2_automation.Session.Registry.{BackendRegistry, BackendDescriptor}
use gds2_automation.Session.Orchestrator.{
  open_session, update, started, bind_descriptor, awaiting, enter, new_session, start_beside,
  start_session, choose,
}
use gds2_automation.Session.Orchestrator.Single.{emit-sessions}

-- What `start_session` leaves where it returns a session.
unfoldable pub Opened : State.Orchestrator → String → Outcome → Type 0
Opened o session_id (err e, o') = Unit {0}
Opened o session_id (ok s, o') =
    (find_active o.sessions ≡ none)
    × (s.session_id ≡ session_id)
    × (Dict.get o'.sessions session_id ≡ some s)
    × ((t : String) → session_id ≢ t → Dict.get o'.sessions t ≡ Dict.get o.sessions t)

update-Opened :
    (o o' : State.Orchestrator) (session_id : String) (s : Session) (m : Message)
    → find_active o.sessions ≡ none
    → s.session_id ≡ session_id
    → ((t : String) → session_id ≢ t → Dict.get o'.sessions t ≡ Dict.get o.sessions t)
    → Opened o session_id (update o' session_id s m)
unfolding Opened update store
update-Opened o o' session_id s m quiet same others =
    let sessions = emit-sessions (store o' session_id s) session_id m in
    (
      quiet,
      same,
      ap (λ d. Dict.get d session_id) sessions ∙ get-put_self o'.sessions session_id s,
      λ t apart.
          ap (λ d. Dict.get d t) sessions
          ∙ get-put_ne o'.sessions session_id t s apart
          ∙ others t apart,
    )

open-Opened :
    (o : State.Orchestrator) (now : ℕ) (session_id : String) (context : SessionContext)
    (c : Result (Option BackendDescriptor × Option DecisionGate))
    → find_active o.sessions ≡ none
    → Opened o session_id (
        open_session
          (enter o session_id (new_session now session_id context))
          now
          session_id
          (new_session now session_id context)
          c)
unfolding open_session enter new_session started bind_descriptor awaiting
open-Opened o now session_id context c quiet = by_choice c
  where
    s : Session
    s = new_session now session_id context

    others :
        (t : String)
        → session_id ≢ t
        → Dict.get (Dict.put o.sessions session_id s) t ≡ Dict.get o.sessions t
    others t apart = get-put_ne o.sessions session_id t s apart

    by_choice :
        (c : Result (Option BackendDescriptor × Option DecisionGate))
        → Opened o session_id (open_session (enter o session_id s) now session_id s c)
    by_choice (err e) = unfold Opened in tt
    by_choice (ok (some d, gate)) =
        update-Opened o (enter o session_id s) session_id (started now d s) _ quiet refl others
    by_choice (ok (none, some gate)) =
        update-Opened o (enter o session_id s) session_id (awaiting now gate s) _ quiet refl others
    by_choice (ok (none, none)) =
        unfold Opened in (quiet, refl, get-put_self o.sessions session_id s, others)

start_beside-Opened :
    (normalize : String → String) (shared own : BackendRegistry) (o : State.Orchestrator) (now : ℕ)
    (session_id decision_id : String) (context : SessionContext) (a : Option Session)
    → find_active o.sessions ≡ a
    → Opened o session_id (start_beside normalize shared own o now session_id decision_id context a)
unfolding start_beside
start_beside-Opened normalize shared own o now session_id decision_id context (some active) at =
    unfold Opened in tt
start_beside-Opened normalize shared own o now session_id decision_id context none at =
    open-Opened o now session_id context (choose normalize shared own now decision_id context) at

pub start-Opened :
    (normalize : String → String) (shared own : BackendRegistry) (o o' : State.Orchestrator)
    (now : ℕ) (session_id decision_id : String) (context : SessionContext) (s : Session)
    → start_session normalize shared own o now session_id decision_id context ≡ (ok s, o')
    → (s.session_id ≡ session_id) × Opened o s.session_id (ok s, o')
unfolding start_session
start-Opened normalize shared own o o' now session_id decision_id context s h =
    let opened : Opened o session_id (ok s, o') = subst (Opened o session_id) h (
      start_beside-Opened normalize shared own o now session_id decision_id context
        (find_active o.sessions) refl) in
    let same : s.session_id ≡ session_id = (unfold Opened in opened.1) in
    (same, subst (λ i. Opened o i (ok s, o')) (sym same) opened)
