-- ===== src/Session/Orchestrator/Single.antt =====
-- At most one active session, and what keeps it so (diagnostic_platform/session_orchestrator.py).
use gds2_automation.Base.{
  ℕ, String, ◌≡◌, refl, sym, ◌∙◌, ◌⊎◌, inl, inr, true, false, Option, none, some, List, [], ◌∷◌,
  arith, string_eq, ok,
}
use text.Mathlib.TextEquality.{eq_iff}
use mathlib.Core.Path.{subst}
use gds2_automation.Base.Dict
use gds2_automation.Base.Dict.{Dict, get-put, get-put_self, get-pop}
use gds2_automation.Session.State.{
  SessionStatus, OptionId, DecisionGate, Session, Message, Orchestrator, Outcome, pending, running,
  awaiting_decision, completed, failed, aborted, emit, emit_to, get_session, found_session, store,
  find_active, is_terminal, schedule_terminal_cleanup,
}
use gds2_automation.Session.Orchestrator.{
  is_awaiting, is_running, answered_gate, with_session, behind, end_with,
}

-- Sessions that are not in a terminal state have one id.
abbrev pub IsSingle : Dict String Session → Type 0
IsSingle d =
    (i j : String) (s t : Session)
    → Dict.get d i ≡ some s
    → Dict.get d j ≡ some t
    → is_terminal s.status ≡ false
    → is_terminal t.status ≡ false
    → i ≡ j

pub idle_terminal :
    (d : Dict String Session) (i : String) (s : Session)
    → find_active d ≡ none
    → Dict.get d i ≡ some s
    → is_terminal s.status ≡ true
unfolding find_active Dict.get
idle_terminal [] i s h g = absurd (cc)
idle_terminal ((k, t) ∷ d) i s h g = ground (arith, h, g, idle_terminal d i s)

pub idle_put-IsSingle :
    (d : Dict String Session) (k : String) (s : Session)
    → find_active d ≡ none
    → IsSingle (Dict.put d k s)
idle_put-IsSingle d k s h i j u v = ground (
  arith,
  get-put d k i s,
  get-put d k j s,
  eq_iff k i,
  eq_iff k j,
  idle_terminal d i u h,
  idle_terminal d j v h,
)

put-IsSingle :
    (d : Dict String Session) (k : String) (s s' : Session)
    → IsSingle d
    → Dict.get d k ≡ some s
    → (is_terminal s'.status ≡ true) ⊎ (is_terminal s.status ≡ false)
    → IsSingle (Dict.put d k s')
put-IsSingle d k s s' single h (inl t) i j u v =
    ground (arith, get-put d k i s', get-put d k j s', eq_iff k i, eq_iff k j, single i j u v)
put-IsSingle d k s s' single h (inr a) i j u v = ground (
  arith,
  h,
  a,
  get-put d k i s',
  get-put d k j s',
  eq_iff k i,
  eq_iff k j,
  single i j u v,
  single k j s v,
  single i k u s,
)

pub pop-IsSingle : (d : Dict String Session) (k : String) → IsSingle d → IsSingle (Dict.pop d k)
pop-IsSingle d k single i j u v = ground (arith, get-pop d k i, get-pop d k j, single i j u v)

pub emit-sessions :
    (o : Orchestrator) (i : String) (m : Message) → (emit o i m).sessions ≡ o.sessions
unfolding emit
emit-sessions o i m = go (Dict.get o.queues i)
  where
    go : (q : Option (List Message)) → (emit_to o i m q).sessions ≡ o.sessions
    go none = unfold emit_to in refl
    go (some q) = unfold emit_to in refl

pub end_with-sessions :
    (ms : List Message) (o : Orchestrator) (now : ℕ) (i : String) (s : Session)
    → (end_with o now i s ms).1.sessions ≡ o.sessions
unfolding end_with
end_with-sessions [] o now i s = unfold schedule_terminal_cleanup in refl
end_with-sessions (m ∷ ms) o now i s =
    end_with-sessions ms (emit o i m) now i s ∙ emit-sessions o i m

pub emit-IsSingle :
    (o : Orchestrator) (i : String) (m : Message)
    → IsSingle o.sessions
    → IsSingle (emit o i m).sessions
emit-IsSingle o i m v = subst IsSingle (sym (emit-sessions o i m)) v

-- Storing a session that ended, or that takes the place of an active one.
pub store-IsSingle :
    (o : Orchestrator) (i : String) (s s' : Session)
    → IsSingle o.sessions
    → Dict.get o.sessions i ≡ some s
    → (is_terminal s'.status ≡ true) ⊎ (is_terminal s.status ≡ false)
    → IsSingle (store o i s').sessions
unfolding store
store-IsSingle o i s s' v h e = put-IsSingle o.sessions i s s' v h e

pub with_session-IsSingle :
    (o : Orchestrator) (i : String) (rest : Session → Outcome)
    → IsSingle o.sessions
    → ((s : Session) → Dict.get o.sessions i ≡ some s → IsSingle (rest s).1.sessions)
    → IsSingle (with_session o i rest).1.sessions
unfolding with_session get_session
with_session-IsSingle o i rest v k = go (Dict.get o.sessions i) refl
  where
    go :
        (r : Option Session)
        → Dict.get o.sessions i ≡ r
        → IsSingle (behind o rest (found_session r)).1.sessions
    go none e = unfold found_session behind in v
    go (some s) e = unfold found_session behind in k s e

awaiting_active : (s : SessionStatus) → is_awaiting s ≡ true → is_terminal s ≡ false
unfolding is_awaiting is_terminal
awaiting_active awaiting_decision h = refl
awaiting_active pending h = absurd (cc)
awaiting_active running h = absurd (cc)
awaiting_active completed h = absurd (cc)
awaiting_active failed h = absurd (cc)
awaiting_active aborted h = absurd (cc)

pub running_active : (s : SessionStatus) → is_running s ≡ true → is_terminal s ≡ false
unfolding is_running is_terminal
running_active running h = refl
running_active pending h = absurd (cc)
running_active awaiting_decision h = absurd (cc)
running_active completed h = absurd (cc)
running_active failed h = absurd (cc)
running_active aborted h = absurd (cc)

pub answered_gate-active :
    (s : Session) (d : String) (i : OptionId) (gate : DecisionGate)
    → answered_gate s d i ≡ ok gate
    → is_terminal s.status ≡ false
unfolding answered_gate
answered_gate-active s d i gate h = awaiting_active s.status (ground (arith, h))
