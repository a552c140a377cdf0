-- ===== src/Session/Orchestrator/Closed.antt =====
-- Sessions in a terminal state (diagnostic_platform/session_orchestrator.py).
use gds2_automation.Base.{
  ℕ, String, ◌≡◌, refl, true, false, some, ok, err, value_error, ◌∙◌, string_eq,
}
use gds2_automation.Base.Dict
use gds2_automation.Session.Registry.{BackendRegistry}
use gds2_automation.Session.State.{
  SessionStatus, OptionId, DecisionGate, Session, Orchestrator, Outcome, pending, running,
  awaiting_decision, completed, failed, aborted, get_session, found_session, is_terminal,
}
use gds2_automation.Session.Orchestrator.{
  is_awaiting, is_running, answered_gate, submit_decision, submit_found, with_session, behind,
  check_found, check_decision_timeout, abort_session, raise_decision,
}

terminal_not_awaiting : (s : SessionStatus) → is_terminal s ≡ true → is_awaiting s ≡ false
unfolding is_awaiting is_terminal
terminal_not_awaiting completed h = refl
terminal_not_awaiting failed h = refl
terminal_not_awaiting aborted h = refl
terminal_not_awaiting pending h = absurd (cc)
terminal_not_awaiting running h = absurd (cc)
terminal_not_awaiting awaiting_decision h = absurd (cc)

terminal_not_running : (s : SessionStatus) → is_terminal s ≡ true → is_running s ≡ false
unfolding is_running is_terminal
terminal_not_running completed h = refl
terminal_not_running failed h = refl
terminal_not_running aborted h = refl
terminal_not_running pending h = absurd (cc)
terminal_not_running running h = absurd (cc)
terminal_not_running awaiting_decision h = absurd (cc)

get_session-found :
    (o : Orchestrator) (i : String) (s : Session)
    → Dict.get o.sessions i ≡ some s
    → get_session o i ≡ ok s
unfolding get_session
get_session-found o i s h = rw h (unfold found_session in refl)

with_session-found :
    (o : Orchestrator) (i : String) (s : Session) (rest : Session → Outcome)
    → Dict.get o.sessions i ≡ some s
    → with_session o i rest ≡ rest s
unfolding with_session
with_session-found o i s rest h = rw (get_session-found o i s h) (unfold behind in refl)

answered_gate-closed :
    (s : Session) (d : String) (option : OptionId)
    → is_terminal s.status ≡ true
    → answered_gate s d option ≡ err value_error
unfolding answered_gate
answered_gate-closed s d option t = rw (terminal_not_awaiting s.status t) refl

-- A session in a terminal state takes no decision, raises none and cannot be aborted: these calls
-- raise `ValueError`, the check of a timeout answers no, and each leaves the manager as it is.
pub terminal_session_closed :
    (own : BackendRegistry) (o : Orchestrator) (now : ℕ) (i d : String) (option : OptionId)
    (source reason : String) (gate : DecisionGate) (s : Session)
    → Dict.get o.sessions i ≡ some s
    → is_terminal s.status ≡ true
    → (submit_decision own o now i d option source ≡ (err value_error, o))
      × (raise_decision o now i gate ≡ (err value_error, o))
      × (abort_session o now i reason ≡ (err value_error, o))
      × (check_decision_timeout own o now i ≡ (ok false, o))
unfolding submit_decision raise_decision abort_session check_decision_timeout
terminal_session_closed own o now i d option source reason gate s h t = (
  with_session-found o i s _ h
      ∙ rw (answered_gate-closed s d option t) (unfold submit_found in refl),
  with_session-found o i s _ h ∙ rw (terminal_not_running s.status t) refl,
  with_session-found o i s _ h ∙ rw t refl,
  rw (get_session-found o i s h) (unfold check_found in rw (terminal_not_awaiting s.status t) refl),
)
