-- ===== src/Session/Tests.antt =====
-- Runs of the worker and of the session manager at concrete inputs.
use gds2_automation.Base.{
  ◌≡◌, refl, true, false, none, some, err, runtime_error, worker_busy_error, arith, string_eq,
  nat_eq,
}
use gds2_automation.Base.{
  String, Result, ◌≢◌, ◌==◌, List, [], ◌∷◌, ◌++◌, drop, replicate, key_error,
}
use gds2_automation.Base.{value_error, ok}
use gds2_automation.Session.State.{failed, DecisionGate, manual}
use gds2_automation.Session.Orchestrator.{
  submit_decision, raise_decision, abort_session, check_decision_timeout,
}
use gds2_automation.Session.Orchestrator.Closed.{terminal_session_closed}
use gds2_automation.Base.Dict
use gds2_automation.Session.Registry.{
  BackendDescriptor, BackendRegistry, resolve_brand, get_descriptor, get_by_name, found_backend,
  selected_descriptor, named,
}
use gds2_automation.Session.State.{
  SessionContext, Session, Orchestrator, Message, running, progress, done_completed, is_terminal,
  is_terminal_event, deliver, emit, emit_to, store, find_active,
}
use gds2_automation.Session.State.Delivery.{terminal_event_delivered}
use gds2_automation.Session.Orchestrator.{
  start_session, start_beside, choose, routed_name, preferred_backend_name, select, open_session,
  enter, update, started, new_session, bind_descriptor,
}
use gds2_automation.Session.Orchestrator.Blocked.{unknown_backend_blocks}
use gds2_automation.Session.Orchestrator.Steps.{Step, Reach, one_active_session}
use gds2_automation.Session.Lifecycle.{System, start_business_session}
use gds2_automation.Session.Lifecycle.Bound.{start_binds, failed_start_undone}
use text.Mathlib.TextEquality.{eq_iff}
use gds2_automation.Session.Worker.{
  WorkerOperation, WorkerRuntime, unbound, bind_business_session, clear_business_session,
  clear_active_backend_bundle, start_operation, finish_operation, cancel_operation, cancel_found,
  other_session, bind_navigation_session, clear_navigation_session, bind_ai_session,
  clear_ai_session, set_live_data_active, set_connection_epoch, get_navigation_session_id,
  get_ai_session_id, is_live_data_active, get_connection_epoch, get_business_session_binding,
}
use gds2_automation.Session.Worker.Exclusive.{
  Serves, Call, Calls, other_session_isolated, one_operation_at_a_time,
}

abbrev serving : WorkerRuntime
serving = record {
  backend = some 1;
  active_backend_bundle = some "gds2";
  action_runtime = none;
  executor = none;
  adapter = none;
  binding = record unbound { session_id = some "s1" };
  active_operation = none;
  next_op = 4;
}

serving-Serves : Serves serving "s1"
serving-Serves = record { bound = refl; named = refl }

other_session_isolated_example :
    (bind_business_session serving "s2" ≡ err runtime_error)
    × (bind_navigation_session serving "s2" "n" ≡ err runtime_error)
    × (bind_ai_session serving "s2" "n" ≡ err runtime_error)
    × (set_live_data_active serving "s2" true ≡ err runtime_error)
    × (clear_business_session serving (some "s2") ≡ serving)
    × (clear_active_backend_bundle serving (some "s2") ≡ serving)
    × (clear_navigation_session serving "s2" ≡ serving)
    × (clear_ai_session serving "s2" ≡ serving)
    × (set_connection_epoch serving "s2" none ≡ serving)
    × (get_navigation_session_id serving "s2" ≡ none)
    × (get_ai_session_id serving "s2" ≡ none)
    × (is_live_data_active serving "s2" ≡ false)
    × (get_connection_epoch serving "s2" ≡ none)
    × (get_business_session_binding serving (some "s2") ≡ unbound)
other_session_isolated_example =
    other_session_isolated serving "s1" "s2" "n" none true serving-Serves
      (ground (arith, eq_iff "s2" "s1"))

abbrev navigation : WorkerOperation
navigation = record { op_id = 4; session_id = "s1"; name = "navigate"; cancelled = false }

abbrev navigating : WorkerRuntime
navigating = record serving { active_operation = some navigation; next_op = 5 }

abbrev cancelling : WorkerRuntime
cancelling = record navigating { active_operation = some (record navigation { cancelled = true }) }

-- The operation is cancelled but not finished.
cancelling-Calls : Calls 4 navigating cancelling
cancelling-Calls = Calls.also Calls.none_yet (
    Call.cancelled {w' = cancelling} (some "s1") true
      (unfold cancel_operation cancel_found other_session in refl))

one_operation_at_a_time_example :
    (start_operation cancelling "s1" "read" ≡ err worker_busy_error)
    × ((finish_operation cancelling navigation).active_operation ≡ none)
one_operation_at_a_time_example =
    one_operation_at_a_time serving navigating cancelling "s1" "navigate" "s1" "read" navigation
      (unfold start_operation in refl) cancelling-Calls

abbrev gds2 : BackendDescriptor
gds2 = record {
  backend_name = "gds2";
  display_name = "GDS2";
  supported_brands = "gm" ∷ [];
  capabilities = "read_dtcs" ∷ [];
  default_for_brands = [];
  ui_mode = "guided";
}

abbrev registry : BackendRegistry
registry = record {
  backends =
      ("gds2", record { name = "gds2"; supported_brands = "gm" ∷ []; descriptor = gds2 }) ∷ [];
  brand_index = ("gm", "gds2" ∷ []) ∷ [];
  brand_defaults = [];
}

abbrev asking : String → SessionContext
asking name = record { brand = "gm"; backend_name = name; extra_backend = "" }

abbrev manager : Orchestrator
manager = record { sessions = []; queues = []; cleanup_timers = []; terminal_retention_sec = 30 }

abbrev as_is : String → String
as_is text = text

abbrev one_running : Orchestrator
one_running = (start_session as_is registry registry manager 10 "s1" "d1" (asking "gds2")).1

abbrev running_session : Session
running_session = record {
  session_id = "s1";
  context = asking "gds2";
  status = running;
  backend_name = some "gds2";
  capabilities = "read_dtcs" ∷ [];
  pending_decision = none;
  network_override = none;
  resolved_decisions = [];
  updated_at = 10;
  error = none;
}

running_stored : Dict.get one_running.sessions "s1" ≡ some running_session
unfolding start_session start_beside find_active choose routed_name preferred_backend_name
    resolve_brand get_descriptor get_by_name found_backend select selected_descriptor named
    open_session enter update emit emit_to deliver store started Dict.get Dict.put new_session
    bind_descriptor
running_stored = refl

running_active_too : is_terminal running_session.status ≡ false
unfolding is_terminal
running_active_too = refl

abbrev first_id : String
first_id = "s1"

one_active_session_example : first_id ≡ first_id
one_active_session_example =
    one_active_session as_is one_running "s1" "s1" running_session running_session
      (Reach.then_step (Reach.constructed 30)
        (Step.started_one registry registry 10 "s1" "d1" (asking "gds2")))
      running_stored running_stored running_active_too running_active_too

running_started :
    start_session as_is registry registry manager 10 "s1" "d1" (asking "gds2")
    ≡ (ok running_session, one_running)
unfolding start_session start_beside find_active choose routed_name preferred_backend_name
    resolve_brand get_descriptor get_by_name found_backend select selected_descriptor named
    open_session enter update emit emit_to deliver store started Dict.get Dict.put new_session
    bind_descriptor
running_started = refl

-- A worker that is bound to a session of before.
abbrev system : System
system = record { worker = serving; manager = manager }

abbrev returned_session : Result Session × System
returned_session =
    start_business_session as_is registry registry system 10 "s1" "d1" (asking "gds2") (ok tt)

start_binds_example :
    (returned_session.0 ≡ ok running_session)
    × (returned_session.1.worker.binding.session_id ≡ some "s1")
    × (Dict.get returned_session.1.manager.sessions "s1"
        ≡ some (record running_session { updated_at = 10 }))
start_binds_example =
    start_binds as_is registry registry system 10 "s1" "d1" (asking "gds2") running_session
      one_running (cc) running_started

abbrev raised_start : Result Session × System
raised_start =
    start_business_session as_is registry registry system 10 "s1" "d1" (asking "gds2")
      (err runtime_error)

other_id : first_id ≢ "s0"
other_id h = let same : (first_id == "s0") ≡ true = (string_eq.beq_iff first_id "s0").1 h in cc

failed_start_undone_example :
    (raised_start.0 ≡ err runtime_error)
    × (raised_start.1.worker.binding.session_id ≡ none)
    × (Dict.get raised_start.1.manager.sessions "s1" ≡ none)
    × (Dict.get raised_start.1.manager.sessions "s0" ≡ Dict.get manager.sessions "s0")
failed_start_undone_example =
    failed_start_undone as_is registry registry system 10 "s1" "d1" "s0" (asking "gds2")
      running_session one_running runtime_error (cc) other_id running_started

-- A backend that is misspelt.
unknown_backend_blocks_example :
    ((start_session as_is registry registry manager 10 "s1" "d1" (asking "gsd2")).0 ≡ err key_error)
    × ((start_session as_is registry registry
          (start_session as_is registry registry manager 10 "s1" "d1" (asking "gsd2")).1
          11
          "s2"
          "d2"
          (asking "gds2")).0
        ≡ err runtime_error)
unknown_backend_blocks_example =
    unknown_backend_blocks as_is registry registry manager 10 11 "s1" "d1" "s2" "d2" (asking "gsd2")
      (asking "gds2") (unfold find_active in refl) refl (unfold Dict.get in refl)

abbrev full : List Message
full = replicate 500 (progress "reading")

terminal_event_delivered_example :
    deliver full (done_completed "{}") ≡ drop 1 full ++ (done_completed "{}" ∷ [])
terminal_event_delivered_example =
    terminal_event_delivered full (done_completed "{}") (omega arith)
      (unfold is_terminal_event in refl)

abbrev closed_manager : Orchestrator
closed_manager = record manager {
  sessions = ("s1", record running_session { status = failed }) ∷ [];
}

abbrev gate : DecisionGate
gate = record {
  decision_id = "d1";
  option = record { option_id = manual; label = "Manual" };
  more_options = [];
  kind = "backend";
  timeout_sec = 120;
  fallback_option_id = none;
  created_at = 10;
}

terminal_session_closed_example :
    (submit_decision registry closed_manager 20 "s1" "d1" manual "user"
      ≡ (err value_error, closed_manager))
    × (raise_decision closed_manager 20 "s1" gate ≡ (err value_error, closed_manager))
    × (abort_session closed_manager 20 "s1" "" ≡ (err value_error, closed_manager))
    × (check_decision_timeout registry closed_manager 20 "s1" ≡ (ok false, closed_manager))
terminal_session_closed_example =
    terminal_session_closed registry closed_manager 20 "s1" "d1" manual "user" "" gate
      (record running_session { status = failed }) (unfold Dict.get in refl)
      (unfold is_terminal in refl)
