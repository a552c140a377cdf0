-- ===== src/Session/Orchestrator/Steps.antt =====
-- The histories of the session manager (diagnostic_platform/session_orchestrator.py).
use gds2_automation.Base.{
  ℕ, String, ◌≡◌, refl, sym, inl, inr, Bool, true, false, not, Option, none, some, List, [], ◌∷◌,
  string_eq, if◌then◌else◌, Result, ok, err, value_error,
}
use mathlib.Core.Path.{subst}
use gds2_automation.Base.Dict
use gds2_automation.Base.Dict.{Dict, get-put_self}
use gds2_automation.Session.Registry.{BackendRegistry, BackendDescriptor}
use gds2_automation.Session.State.{
  OptionId, DecisionGate, SessionContext, Session, Message, Orchestrator, Outcome, completed,
  failed, emit, get_session, store, find_active, is_terminal, is_expired, cleanup_session_state,
  rollback_start_session, done_aborted, decision_timeout, decision_required,
}
use gds2_automation.Session.Orchestrator.{
  is_awaiting, is_running, start_session, start_beside, open_session, enter, new_session, started,
  awaiting, update, answered_gate, submit_decision, submit_found, finish_decision, resume, fallback,
  timed_out, check_gate, check_found, check_decision_timeout, end_with, or_by_user, ended,
  aborted_by, abort_session, complete_session, fail_session, emit_progress, raise_decision,
}
use gds2_automation.Session.Orchestrator.Single.{
  IsSingle, idle_put-IsSingle, pop-IsSingle, end_with-sessions, emit-IsSingle, store-IsSingle,
  with_session-IsSingle, running_active, answered_gate-active,
}

open_session-IsSingle :
    (o : Orchestrator) (now : ℕ) (i : String) (s : Session)
    (r : Result (Option BackendDescriptor × Option DecisionGate))
    → IsSingle o.sessions
    → Dict.get o.sessions i ≡ some s
    → is_terminal s.status ≡ false
    → IsSingle (open_session o now i s r).1.sessions
unfolding open_session update
open_session-IsSingle o now i s (err e) v h a = v
open_session-IsSingle o now i s (ok (some d, gate)) v h a =
    emit-IsSingle _ i _ (store-IsSingle o i s (started now d s) v h (inr a))
open_session-IsSingle o now i s (ok (none, some gate)) v h a =
    emit-IsSingle _ i _ (store-IsSingle o i s (awaiting now gate s) v h (inr a))
open_session-IsSingle o now i s (ok (none, none)) v h a = v

start_session-IsSingle :
    (normalize : String → String) (shared own : BackendRegistry) (o : Orchestrator) (now : ℕ)
    (i d : String) (context : SessionContext)
    → IsSingle o.sessions
    → IsSingle (start_session normalize shared own o now i d context).1.sessions
unfolding start_session
start_session-IsSingle normalize shared own o now i d context v = go (find_active o.sessions) refl
  where
    go :
        (a : Option Session)
        → find_active o.sessions ≡ a
        → IsSingle (start_beside normalize shared own o now i d context a).1.sessions
    go (some active) e = unfold start_beside in v
    go none e =
        unfold start_beside in
        open_session-IsSingle (enter o i (new_session now i context)) now i
          (new_session now i context) _
          (unfold enter in idle_put-IsSingle o.sessions i (new_session now i context) e)
          (unfold enter in get-put_self o.sessions i (new_session now i context))
          (unfold new_session is_terminal in refl)

finish_decision-IsSingle :
    (o : Orchestrator) (now : ℕ) (i d : String) (option : OptionId) (source : String)
    (gate : DecisionGate) (s noted : Session) (r : Result Session)
    → IsSingle o.sessions
    → Dict.get o.sessions i ≡ some s
    → is_terminal s.status ≡ false
    → IsSingle (finish_decision o now i d option source gate noted r).1.sessions
unfolding finish_decision
finish_decision-IsSingle o now i d option source gate s noted (err e) v h a =
    store-IsSingle o i s noted v h (inr a)
finish_decision-IsSingle o now i d option source gate s noted (ok t) v h a =
    emit-IsSingle _ i _ (emit-IsSingle _ i _ (store-IsSingle o i s (resume now t) v h (inr a)))

submit_decision-IsSingle :
    (own : BackendRegistry) (o : Orchestrator) (now : ℕ) (i d : String) (option : OptionId)
    (source : String)
    → IsSingle o.sessions
    → IsSingle (submit_decision own o now i d option source).1.sessions
unfolding submit_decision
submit_decision-IsSingle own o now i d option source v =
    with_session-IsSingle o i _ v (λ s h. go s h (answered_gate s d option) refl)
  where
    go :
        (s : Session)
        → Dict.get o.sessions i ≡ some s
        → (r : Result DecisionGate) → answered_gate s d option ≡ r
        → IsSingle (submit_found own o now i d option source s r).1.sessions
    go s h (err e) g = unfold submit_found in v
    go s h (ok gate) g =
        unfold submit_found in
        finish_decision-IsSingle o now i d option source gate s _ _ v h
          (answered_gate-active s d option gate g)

timed_out-sessions : (r : Outcome) → (timed_out r).1.sessions ≡ r.1.sessions
unfolding timed_out
timed_out-sessions (ok s, o) = refl
timed_out-sessions (err e, o) = refl

check_decision_timeout-IsSingle :
    (own : BackendRegistry) (o : Orchestrator) (now : ℕ) (i : String)
    → IsSingle o.sessions
    → IsSingle (check_decision_timeout own o now i).1.sessions
unfolding check_decision_timeout
check_decision_timeout-IsSingle own o now i v = by_session (get_session o i)
  where
    submitted :
        (gate : DecisionGate)
        → IsSingle
            (timed_out (
              submit_decision own
                (emit o i (decision_timeout gate.decision_id (fallback gate)))
                now
                i
                gate.decision_id
                (fallback gate)
                "timeout")).1.sessions
    submitted gate = subst IsSingle (sym (timed_out-sessions _)) (
        submit_decision-IsSingle own _ now i gate.decision_id (fallback gate) "timeout"
          (emit-IsSingle o i _ v))

    by_expiry :
        (gate : DecisionGate) (late : Bool)
        → IsSingle
            (if not late
              then (ok false, o)
              else timed_out (
                  submit_decision own
                    (emit o i (decision_timeout gate.decision_id (fallback gate)))
                    now
                    i
                    gate.decision_id
                    (fallback gate)
                    "timeout")).1.sessions
    by_expiry gate false = v
    by_expiry gate true = submitted gate

    by_gate : (g : Option DecisionGate) → IsSingle (check_gate own o now i g).1.sessions
    by_gate none = unfold check_gate in v
    by_gate (some gate) = unfold check_gate in by_expiry gate (is_expired now gate)

    by_status :
        (s : Session) (waits : Bool)
        → IsSingle
            (if not waits
              then (ok false, o)
              else check_gate own o now i s.pending_decision).1.sessions
    by_status s false = v
    by_status s true = by_gate s.pending_decision

    by_session : (r : Result Session) → IsSingle (check_found own o now i r).1.sessions
    by_session (err e) = unfold check_found in v
    by_session (ok s) = unfold check_found in by_status s (is_awaiting s.status)

ended-IsSingle :
    (o : Orchestrator) (now : ℕ) (i : String) (s s' : Session) (ms : List Message)
    → IsSingle o.sessions
    → Dict.get o.sessions i ≡ some s
    → is_terminal s'.status ≡ true
    → IsSingle (end_with (store o i s') now i s' ms).1.sessions
ended-IsSingle o now i s s' ms v h t =
    subst IsSingle (sym (end_with-sessions ms (store o i s') now i s'))
      (store-IsSingle o i s s' v h (inl t))

complete_session-IsSingle :
    (o : Orchestrator) (now : ℕ) (i result : String)
    → IsSingle o.sessions
    → IsSingle (complete_session o now i result).1.sessions
unfolding complete_session
complete_session-IsSingle o now i result v = with_session-IsSingle o i _ v (λ s h.
    ended-IsSingle o now i s (ended now completed s) _ v h (unfold ended is_terminal in refl))

fail_session-IsSingle :
    (o : Orchestrator) (now : ℕ) (i error : String)
    → IsSingle o.sessions
    → IsSingle (fail_session o now i error).1.sessions
unfolding fail_session
fail_session-IsSingle o now i error v = with_session-IsSingle o i _ v (λ s h.
    ended-IsSingle o now i s (record (ended now failed s) { error = some error }) _ v h
      (unfold ended is_terminal in refl))

abort_session-IsSingle :
    (o : Orchestrator) (now : ℕ) (i reason : String)
    → IsSingle o.sessions
    → IsSingle (abort_session o now i reason).1.sessions
unfolding abort_session
abort_session-IsSingle o now i reason v =
    with_session-IsSingle o i _ v (λ s h. go s h (is_terminal s.status))
  where
    go :
        (s : Session)
        → Dict.get o.sessions i ≡ some s
        → (b : Bool)
        → IsSingle
            (if b
              then (err value_error, o)
              else end_with
                  (store o i (aborted_by now reason s))
                  now
                  i
                  (aborted_by now reason s)
                  (done_aborted (or_by_user reason) ∷ [])).1.sessions
    go s h true = v
    go s h false = ended-IsSingle o now i s _ _ v h (unfold aborted_by ended is_terminal in refl)

raise_decision-IsSingle :
    (o : Orchestrator) (now : ℕ) (i : String) (gate : DecisionGate)
    → IsSingle o.sessions
    → IsSingle (raise_decision o now i gate).1.sessions
unfolding raise_decision
raise_decision-IsSingle o now i gate v =
    with_session-IsSingle o i _ v (λ s h. go s h (is_running s.status) refl)
  where
    go :
        (s : Session)
        → Dict.get o.sessions i ≡ some s
        → (b : Bool) → is_running s.status ≡ b
        → IsSingle
            (if not b
              then (err value_error, o)
              else update o i (awaiting now gate s) (decision_required gate)).1.sessions
    go s h false e = v
    go s h true e =
        unfold update in
        emit-IsSingle _ i _
          (store-IsSingle o i s (awaiting now gate s) v h (inr (running_active s.status e)))

-- What may happen to the manager: a call of one of its methods, or a timer that removes a session.
pub data Step (normalize : String → String) (o : Orchestrator) : Orchestrator → Type 0 where
  started_one :
      (shared own : BackendRegistry) (now : ℕ) (i d : String) (context : SessionContext)
      → Step normalize o (start_session normalize shared own o now i d context).1
  submitted :
      (own : BackendRegistry) (now : ℕ) (i d : String) (option : OptionId) (source : String)
      → Step normalize o (submit_decision own o now i d option source).1
  checked :
      (own : BackendRegistry) (now : ℕ) (i : String)
      → Step normalize o (check_decision_timeout own o now i).1
  raised :
      (now : ℕ) (i : String) (gate : DecisionGate)
      → Step normalize o (raise_decision o now i gate).1
  progressed : (i message : String) → Step normalize o (emit_progress o i message).1
  aborted_one : (now : ℕ) (i reason : String) → Step normalize o (abort_session o now i reason).1
  completed_one :
      (now : ℕ) (i result : String) → Step normalize o (complete_session o now i result).1
  failed_one : (now : ℕ) (i error : String) → Step normalize o (fail_session o now i error).1
  removed : (i : String) → Step normalize o (cleanup_session_state o i)
  rolled_back : (i : String) → Step normalize o (rollback_start_session o i)

Step-IsSingle :
    (normalize : String → String) (o o' : Orchestrator)
    → IsSingle o.sessions
    → Step normalize o o'
    → IsSingle o'.sessions
unfolding cleanup_session_state rollback_start_session emit_progress
Step-IsSingle normalize o _ v (started_one shared own now i d context) =
    start_session-IsSingle normalize shared own o now i d context v
Step-IsSingle normalize o _ v (submitted own now i d option source) =
    submit_decision-IsSingle own o now i d option source v
Step-IsSingle normalize o _ v (checked own now i) = check_decision_timeout-IsSingle own o now i v
Step-IsSingle normalize o _ v (raised now i gate) = raise_decision-IsSingle o now i gate v
Step-IsSingle normalize o _ v (progressed i message) =
    with_session-IsSingle o i _ v (λ s h. emit-IsSingle o i _ v)
Step-IsSingle normalize o _ v (aborted_one now i reason) = abort_session-IsSingle o now i reason v
Step-IsSingle normalize o _ v (completed_one now i result) =
    complete_session-IsSingle o now i result v
Step-IsSingle normalize o _ v (failed_one now i error) = fail_session-IsSingle o now i error v
Step-IsSingle normalize o _ v (removed i) = pop-IsSingle o.sessions i v
Step-IsSingle normalize o _ v (rolled_back i) = pop-IsSingle o.sessions i v

-- The states of a manager from its construction on.
pub data Reach (normalize : String → String) : Orchestrator → Type 0 where
  constructed :
      (retention : ℕ)
      → Reach normalize (record {
        sessions = [];
        queues = [];
        cleanup_timers = [];
        terminal_retention_sec = retention;
      })
  then_step : {o o' : Orchestrator} → Reach normalize o → Step normalize o o' → Reach normalize o'

Reach-IsSingle :
    (normalize : String → String) (o : Orchestrator) → Reach normalize o → IsSingle o.sessions
Reach-IsSingle normalize _ (constructed retention) = λ i j s t h. unfold Dict.get in absurd (cc)
Reach-IsSingle normalize _ (then_step {o} {o'} r step) =
    Step-IsSingle normalize o o' (Reach-IsSingle normalize o r) step

-- In every reachable state of the manager at most one session is in no terminal state.
pub one_active_session :
    (normalize : String → String) (o : Orchestrator) (i j : String) (s t : Session)
    → Reach normalize o
    → Dict.get o.sessions i ≡ some s
    → Dict.get o.sessions j ≡ some t
    → is_terminal s.status ≡ false
    → is_terminal t.status ≡ false
    → i ≡ j
one_active_session normalize o i j s t r = Reach-IsSingle normalize o r i j s t
