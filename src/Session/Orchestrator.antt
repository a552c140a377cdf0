-- ===== src/Session/Orchestrator.antt =====
-- The operations on business sessions (SessionOrchestrator of
-- diagnostic_platform/session_orchestrator.py).
pub mod Blocked
pub mod Closed
pub mod Single
pub mod Steps
use gds2_automation.Base.{
  ℕ, ◌+◌, String, Bool, true, false, not, ◌||◌, Option, none, some, List, [], ◌∷◌, ◌++◌, arith,
  ◌==◌, nat_eq, string_eq, if◌then◌else◌, Result, ok, err, value_error, runtime_error, ◌>>=◌, ◌>>◌,
}
use gds2_automation.Base.Dict
use gds2_automation.Base.Dict.{Dict}
use gds2_automation.Session.Registry.{
  BackendDescriptor, BackendRegistry, BackendResolutionResult, selected_descriptor, resolve_brand,
  list_descriptors, get_descriptor,
}
use gds2_automation.Session.State.{
  SessionStatus, pending, running, awaiting_decision, completed, failed, aborted, is_terminal,
  OptionId, manual, backend, other, same_option, DecisionOption, DecisionGate, is_expired,
  SessionContext, ResolvedDecision, Session, Message, routed, decision_required, decision_resolved,
  decision_timeout, option_applied, progress, error_raised, done_aborted, done_completed,
  done_failed, Orchestrator, Outcome, emit, get_session, store, find_active,
  schedule_terminal_cleanup,
}

unfoldable pub is_running : SessionStatus → Bool
is_running running = true
is_running _ = false

unfoldable pub is_awaiting : SessionStatus → Bool
is_awaiting awaiting_decision = true
is_awaiting _ = false

-- `_backend_option`; an empty label makes the option's constructor raise.
unfoldable pub backend_option : BackendDescriptor → Result DecisionOption
backend_option d =
    if d.display_name == ""
    then err value_error
    else ok (record { option_id = backend d.backend_name; label = d.display_name })

unfoldable pub backend_options : List BackendDescriptor → Result (List DecisionOption)
backend_options [] = ok []
backend_options (d ∷ ds) = do
  option ← backend_option d
  options ← backend_options ds
  ok (option ∷ options)

abbrev manual_option : DecisionOption
manual_option = record { option_id = manual; label = "Manual" }

-- The gate over options that end in "manual".
unfoldable pub backend_gate : ℕ → String → List DecisionOption → DecisionGate
backend_gate now decision_id [] = record {
  decision_id = decision_id;
  option = manual_option;
  more_options = [];
  kind = "backend";
  timeout_sec = 120;
  fallback_option_id = some manual;
  created_at = now;
}
backend_gate now decision_id (option ∷ options) = record {
  decision_id = decision_id;
  option = option;
  more_options = options ++ (manual_option ∷ []);
  kind = "backend";
  timeout_sec = 120;
  fallback_option_id = some manual;
  created_at = now;
}

-- `descriptors or _all_backend_descriptors()`
unfoldable pub or_all : BackendRegistry → List BackendDescriptor → List BackendDescriptor
or_all shared [] = list_descriptors shared
or_all shared (d ∷ ds) = d ∷ ds

unfoldable pub build_backend_decision :
    BackendRegistry → ℕ → String → List BackendDescriptor → Result DecisionGate
build_backend_decision shared now decision_id descriptors = do
  options ← backend_options (or_all shared descriptors)
  ok (backend_gate now decision_id options)

-- `name or ""`
unfoldable pub or_no_name : Option String → String
or_no_name none = ""
or_no_name (some name) = name

-- The descriptor of the selected backend, or none where a decision is needed.
unfoldable pub select :
    BackendRegistry → BackendResolutionResult → Option String → Result (Option BackendDescriptor)
select own resolution none = ok none
select own resolution (some name) = elim (selected_descriptor resolution) [
  | some d ↦ ok (some d)
  | none ↦ do d ← get_descriptor own name; ok (some d)
]

unfoldable pub new_session : ℕ → String → SessionContext → Session
new_session now session_id context = record {
  session_id = session_id;
  context = context;
  status = pending;
  backend_name = none;
  capabilities = [];
  pending_decision = none;
  network_override = none;
  resolved_decisions = [];
  updated_at = now;
  error = none;
}

unfoldable pub bind_descriptor : BackendDescriptor → Session → Session
bind_descriptor d s = record s { backend_name = some d.backend_name; capabilities = d.capabilities }

unfoldable pub started : ℕ → BackendDescriptor → Session → Session
started now d s = record (bind_descriptor d s) { status = running; updated_at = now }

unfoldable pub awaiting : ℕ → DecisionGate → Session → Session
awaiting now gate s = record s {
  pending_decision = some gate;
  status = awaiting_decision;
  updated_at = now;
}

-- Storing a session and reporting an event of it.
unfoldable pub update : Orchestrator → String → Session → Message → Outcome
update o session_id s m = (ok s, emit (store o session_id s) session_id m)

-- The end of `start_session`, by what the registry answers.
unfoldable pub open_session :
    Orchestrator
    → ℕ
    → String
    → Session
    → Result (Option BackendDescriptor × Option DecisionGate)
    → Outcome
open_session o now session_id s (err e) = (err e, o)
open_session o now session_id s (ok (some d, gate)) =
    update o session_id (started now d s) (routed (some d.backend_name) d.capabilities)
open_session o now session_id s (ok (none, some gate)) =
    update o session_id (awaiting now gate s) (decision_required gate)
open_session o now session_id s (ok (none, none)) = (ok s, o)

-- The entries that `start_session` makes first.
unfoldable pub enter : Orchestrator → String → Session → Orchestrator
enter o session_id s = record o {
  sessions = Dict.put o.sessions session_id s;
  queues = Dict.put o.queues session_id [];
}

-- `shared` is the process's registry, `own` the manager's, which is the same one unless another is
-- given. `normalize` is `_normalize_brand_key`.
module _ (normalize : String → String) where
  unfoldable pub route_backend : BackendRegistry → String → Result (Option String)
  route_backend shared brand = do
    r ← resolve_brand normalize shared brand ""
    ok r.selected_backend_name

  unfoldable pub routed_name : BackendRegistry → SessionContext → String → Result String
  routed_name shared context preferred =
      if not (preferred == "")
      then ok preferred
      else do name ← route_backend shared context.brand; ok (or_no_name name)

  unfoldable pub preferred_backend_name : SessionContext → String
  preferred_backend_name context =
      if not (context.backend_name == "") then context.backend_name else context.extra_backend

  -- A selected descriptor, or a gate where none is selected.
  unfoldable pub choose :
      BackendRegistry
      → BackendRegistry
      → ℕ
      → String
      → SessionContext
      → Result (Option BackendDescriptor × Option DecisionGate)
  choose shared own now decision_id context = do
    name ← routed_name shared context (preferred_backend_name context)
    resolution ← resolve_brand normalize own context.brand name
    descriptor ← select own resolution resolution.selected_backend_name
    elim descriptor [
      | some d ↦ ok (some d, none)
      | none ↦ do
        gate ← build_backend_decision shared now decision_id resolution.candidates
        ok (none, some gate)
    ]

  -- By the active session that is found.
  unfoldable pub start_beside :
      BackendRegistry
      → BackendRegistry
      → Orchestrator
      → ℕ
      → String
      → String
      → SessionContext
      → Option Session
      → Outcome
  start_beside shared own o now session_id decision_id context (some active) =
      (err runtime_error, o)
  start_beside shared own o now session_id decision_id context none =
      open_session (enter o session_id (new_session now session_id context)) now session_id
        (new_session now session_id context) (choose shared own now decision_id context)

  -- `session_id` and `decision_id` are the random identifiers that it draws.
  unfoldable pub start_session :
      BackendRegistry
      → BackendRegistry
      → Orchestrator
      → ℕ
      → String
      → String
      → SessionContext
      → Outcome
  start_session shared own o now session_id decision_id context =
      start_beside shared own o now session_id decision_id context (find_active o.sessions)

unfoldable pub has_option : OptionId → List DecisionOption → Bool
has_option i [] = false
has_option i (option ∷ options) = same_option option.option_id i || has_option i options

-- The guards of `submit_decision`, and the gate that is answered.
unfoldable pub answered_gate : Session → String → OptionId → Result DecisionGate
answered_gate s decision_id option_id =
    if not (is_awaiting s.status) then err value_error else elim s.pending_decision [
      | none ↦ err value_error
      | some gate ↦
          if not (gate.decision_id == decision_id)
          then err value_error
          else if not (has_option option_id (gate.option ∷ gate.more_options))
          then err value_error
          else ok gate
    ]

unfoldable pub bind_option : BackendRegistry → Session → OptionId → Result Session
bind_option own s manual = ok (record s { backend_name = some "manual"; capabilities = [] })
bind_option own s (backend name) = do d ← get_descriptor own name; ok (bind_descriptor d s)
bind_option own s (other text) = elim (get_descriptor own text) [
  | ok d ↦ ok (record s { backend_name = some text; capabilities = d.capabilities })
  | err e ↦ ok (record s { backend_name = some text; capabilities = [] })
]

-- A decision of the kind "backend" binds the backend.
unfoldable pub apply_option : BackendRegistry → DecisionGate → Session → OptionId → Result Session
apply_option own gate s option_id =
    if gate.kind == "backend" then bind_option own s option_id else ok s

unfoldable pub resume : ℕ → Session → Session
resume now s = record s { pending_decision = none; status = running; updated_at = now }

unfoldable pub note_decision : ℕ → String → OptionId → String → Session → Session
note_decision now decision_id option_id source s = record s {
  resolved_decisions =
      s.resolved_decisions
      ++ (record {
        decision_id = decision_id;
        option_id = option_id;
        resolved_at = now;
        source = source;
      }
          ∷ []);
}

-- The session runs on; where binding the backend raises, the decision stays noted.
unfoldable pub finish_decision :
    Orchestrator
    → ℕ
    → String
    → String
    → OptionId
    → String
    → DecisionGate
    → Session
    → Result Session
    → Outcome
finish_decision o now session_id decision_id option_id source gate noted (err e) =
    (err e, store o session_id noted)
finish_decision o now session_id decision_id option_id source gate noted (ok s) = (
  ok (resume now s),
  emit
      (emit (store o session_id (resume now s)) session_id
        (decision_resolved decision_id option_id source))
      session_id (option_applied (gate.kind == "backend") option_id s.backend_name s.capabilities),
)

unfoldable pub submit_found :
    BackendRegistry
    → Orchestrator
    → ℕ
    → String
    → String
    → OptionId
    → String
    → Session
    → Result DecisionGate
    → Outcome
submit_found own o now session_id decision_id option_id source s (err e) = (err e, o)
submit_found own o now session_id decision_id option_id source s (ok gate) =
    let noted = note_decision now decision_id option_id source s in
    finish_decision o now session_id decision_id option_id source gate noted
      (apply_option own gate noted option_id)

-- The rest of an operation behind the look-up of its session.
unfoldable pub behind : Orchestrator → (Session → Outcome) → Result Session → Outcome
behind o rest (err e) = (err e, o)
behind o rest (ok s) = rest s

unfoldable pub with_session : Orchestrator → String → (Session → Outcome) → Outcome
with_session o session_id rest = behind o rest (get_session o session_id)

unfoldable pub submit_decision :
    BackendRegistry → Orchestrator → ℕ → String → String → OptionId → String → Outcome
submit_decision own o now session_id decision_id option_id source = with_session o session_id (λ s.
    submit_found own o now session_id decision_id option_id source s
      (answered_gate s decision_id option_id))

-- `gate.fallback_option_id or gate.options[0].option_id`
unfoldable pub fallback : DecisionGate → OptionId
fallback gate = elim gate.fallback_option_id [ none ↦ gate.option.option_id | some i ↦ i ]

-- The answer of a check: whether a fallback was applied, or what the submission raises.
unfoldable pub timed_out : Outcome → Result Bool × Orchestrator
timed_out (ok s, o) = (ok true, o)
timed_out (err e, o) = (err e, o)

unfoldable pub check_gate :
    BackendRegistry → Orchestrator → ℕ → String → Option DecisionGate → Result Bool × Orchestrator
check_gate own o now session_id none = (ok false, o)
check_gate own o now session_id (some gate) =
    if not (is_expired now gate)
    then (ok false, o)
    else timed_out (
        submit_decision own (emit o session_id (decision_timeout gate.decision_id (fallback gate)))
          now session_id gate.decision_id (fallback gate) "timeout")

unfoldable pub check_found :
    BackendRegistry → Orchestrator → ℕ → String → Result Session → Result Bool × Orchestrator
check_found own o now session_id (err e) = (err e, o)
check_found own o now session_id (ok s) =
    if not (is_awaiting s.status)
    then (ok false, o)
    else check_gate own o now session_id s.pending_decision

unfoldable pub check_decision_timeout :
    BackendRegistry → Orchestrator → ℕ → String → Result Bool × Orchestrator
check_decision_timeout own o now session_id =
    check_found own o now session_id (get_session o session_id)

-- A session that ended: its event is reported and its removal scheduled.
unfoldable pub end_with : Orchestrator → ℕ → String → Session → List Message → Outcome
end_with o now session_id s [] = (ok s, schedule_terminal_cleanup o now session_id)
end_with o now session_id s (m ∷ ms) = end_with (emit o session_id m) now session_id s ms

-- `reason or "Aborted by user"`
unfoldable pub or_by_user : String → String
or_by_user reason = if reason == "" then "Aborted by user" else reason

unfoldable pub ended : ℕ → SessionStatus → Session → Session
ended now status s = record s { status = status; network_override = none; updated_at = now }

unfoldable pub aborted_by : ℕ → String → Session → Session
aborted_by now reason s = record (ended now aborted s) {
  error = some (or_by_user reason);
  pending_decision = none;
}

unfoldable pub abort_session : Orchestrator → ℕ → String → String → Outcome
abort_session o now session_id reason = with_session o session_id (λ s.
    if is_terminal s.status
    then (err value_error, o)
    else end_with (store o session_id (aborted_by now reason s)) now session_id
        (aborted_by now reason s) (done_aborted (or_by_user reason) ∷ []))

unfoldable pub complete_session : Orchestrator → ℕ → String → String → Outcome
complete_session o now session_id result = with_session o session_id (λ s.
    (let s' = ended now completed s in
      end_with (store o session_id s') now session_id s' (done_completed result ∷ [])))

unfoldable pub fail_session : Orchestrator → ℕ → String → String → Outcome
fail_session o now session_id error = with_session o session_id (λ s.
    (let s' = record (ended now failed s) { error = some error } in
      end_with (store o session_id s') now session_id s'
        (error_raised error ∷ done_failed error ∷ [])))

unfoldable pub emit_progress : Orchestrator → String → String → Outcome
emit_progress o session_id message =
    with_session o session_id (λ s. (ok s, emit o session_id (progress message)))

unfoldable pub raise_decision : Orchestrator → ℕ → String → DecisionGate → Outcome
raise_decision o now session_id gate = with_session o session_id (λ s.
    if not (is_running s.status)
    then (err value_error, o)
    else update o session_id (awaiting now gate s) (decision_required gate))
