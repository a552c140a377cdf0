-- ===== src/Session/State.antt =====
-- The state of the business sessions, their decisions and their event queues
-- (diagnostic_platform/session_models.py and session_orchestrator.py).
pub mod Delivery
use gds2_automation.Base.{
  ℕ, ◌+◌, ◌-◌, String, Bool, true, false, not, Option, none, some, List, [], ◌∷◌, ◌++◌, ltb, leb,
  arith, ◌==◌, nat_eq, string_eq, if◌then◌else◌, Result, ok, err, key_error, ◌>>=◌, length,
}
use text.Mathlib.TextEquality.{eq_iff}
use gds2_automation.Base.Dict
use gds2_automation.Base.Dict.{Dict}

pub data SessionStatus : Type 0 where
  pending running awaiting_decision completed failed aborted : SessionStatus

unfoldable pub is_terminal : SessionStatus → Bool
is_terminal pending = false
is_terminal running = false
is_terminal awaiting_decision = false
is_terminal completed = true
is_terminal failed = true
is_terminal aborted = true

-- An option's id as `submit_decision` reads it: "manual", "backend:" with a name, or another text.
pub data OptionId : Type 0 where
  manual : OptionId
  backend : String → OptionId
  other : String → OptionId

unfoldable pub same_option : OptionId → OptionId → Bool
same_option manual manual = true
same_option (backend a) (backend b) = a == b
same_option (other a) (other b) = a == b
same_option _ _ = false

pub record DecisionOption : Type 0 where
  pub option_id : OptionId
  pub label : String

-- Of the options, which are one or more, `option` is the first. Times are in seconds.
pub record DecisionGate : Type 0 where
  pub decision_id : String
  pub option : DecisionOption
  pub more_options : List DecisionOption
  pub kind : String
  pub timeout_sec : ℕ
  pub fallback_option_id : Option OptionId
  pub created_at : ℕ

unfoldable pub is_expired : ℕ → DecisionGate → Bool
is_expired now gate = leb gate.timeout_sec (now - gate.created_at)

-- `extra_backend` is the stripped text under `backend_name` of the context's extra data.
pub record SessionContext : Type 0 where
  pub brand : String
  pub backend_name : String
  pub extra_backend : String

pub record ResolvedDecision : Type 0 where
  pub decision_id : String
  pub option_id : OptionId
  pub resolved_at : ℕ
  pub source : String

pub record Session : Type 0 where
  pub session_id : String
  pub context : SessionContext
  pub status : SessionStatus
  pub backend_name : Option String
  pub capabilities : List String
  pub pending_decision : Option DecisionGate
  pub network_override : Option String
  pub resolved_decisions : List ResolvedDecision
  pub updated_at : ℕ
  pub error : Option String

-- The events by their payloads, without the session's id that each carries.
pub data Message : Type 0 where
  routed : Option String → List String → Message
  decision_required : DecisionGate → Message
  decision_resolved : String → OptionId → String → Message
  decision_timeout : String → OptionId → Message
  option_applied : Bool → OptionId → Option String → List String → Message
  progress : String → Message
  error_raised : String → Message
  done_aborted : String → Message
  done_completed : String → Message
  done_failed : String → Message

-- The types ERROR and DONE.
unfoldable pub is_terminal_event : Message → Bool
is_terminal_event (error_raised e) = true
is_terminal_event (done_aborted reason) = true
is_terminal_event (done_completed result) = true
is_terminal_event (done_failed e) = true
is_terminal_event _ = false

abbrev pub queue_size : ℕ
queue_size = 500

-- The timers by the time at which they run.
pub record Orchestrator : Type 0 where
  pub sessions : Dict String Session
  pub queues : Dict String (List Message)
  pub cleanup_timers : Dict String ℕ
  pub terminal_retention_sec : ℕ

-- What a method returns or raises, and the manager that it leaves.
abbrev pub Outcome : Type 0
Outcome = Result Session × Orchestrator

-- Where the queue is full, the oldest events make room.
unfoldable pub enqueue_terminal_event : List Message → Message → List Message
enqueue_terminal_event [] m = m ∷ []
enqueue_terminal_event (x ∷ q) m =
    let rest = enqueue_terminal_event q m in
    if ltb (length (x ∷ q)) queue_size then (x ∷ q) ++ (m ∷ []) else rest

unfoldable pub deliver : List Message → Message → List Message
unfolding enqueue_terminal_event
deliver q m =
    if ltb (length q) queue_size
    then q ++ (m ∷ [])
    else if is_terminal_event m
    then enqueue_terminal_event q m
    else q

unfoldable pub emit_to : Orchestrator → String → Message → Option (List Message) → Orchestrator
emit_to o session_id m none = o
emit_to o session_id m (some q) = record o { queues = Dict.put o.queues session_id (deliver q m) }

unfoldable pub emit : Orchestrator → String → Message → Orchestrator
emit o session_id m = emit_to o session_id m (Dict.get o.queues session_id)

unfoldable pub found_session : Option Session → Result Session
found_session none = err key_error
found_session (some s) = ok s

unfoldable pub get_session : Orchestrator → String → Result Session
get_session o session_id = found_session (Dict.get o.sessions session_id)

unfoldable pub store : Orchestrator → String → Session → Orchestrator
store o session_id s = record o { sessions = Dict.put o.sessions session_id s }

unfoldable pub find_active : Dict String Session → Option Session
find_active [] = none
find_active ((session_id, s) ∷ rest) =
    if not (is_terminal s.status) then some s else find_active rest

unfoldable pub cleanup_session_state : Orchestrator → String → Orchestrator
cleanup_session_state o session_id = record o {
  sessions = Dict.pop o.sessions session_id;
  queues = Dict.pop o.queues session_id;
  cleanup_timers = Dict.pop o.cleanup_timers session_id;
}

-- The same entries are dropped, and the timer is cancelled.
unfoldable pub rollback_start_session : Orchestrator → String → Orchestrator
unfolding cleanup_session_state
rollback_start_session o session_id = cleanup_session_state o session_id

unfoldable pub schedule_terminal_cleanup : Orchestrator → ℕ → String → Orchestrator
schedule_terminal_cleanup o now session_id = record o {
  cleanup_timers =
      Dict.put (Dict.pop o.cleanup_timers session_id) session_id (now + o.terminal_retention_sec);
}
