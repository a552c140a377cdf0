-- ===== src/Session/Lifecycle.antt =====
-- The start of a business session on the worker (diagnostic_platform/runtime/session_lifecycle.py and
-- session_state.py). What writing the file of the active session's snapshot returns or raises is a
-- parameter; its removal raises nothing.
pub mod Opened
pub mod Bound
use gds2_automation.Base.{
  ℕ, String, Bool, true, false, not, ◌&&◌, ◌||◌, Option, none, some, Result, ok, err, ◌==◌,
  string_eq, if◌then◌else◌,
}
use gds2_automation.Base.Dict
use gds2_automation.Session.Worker.{WorkerRuntime}
use gds2_automation.Session.Worker
use gds2_automation.Session.State.{
  Session, SessionContext, Orchestrator, get_session, store, is_terminal, rollback_start_session,
}
use gds2_automation.Session.Registry.{BackendRegistry}
use gds2_automation.Session.Orchestrator

pub record System : Type 0 where
  pub worker : WorkerRuntime
  pub manager : Orchestrator

-- The session object of a session that is stored.
unfoldable pub touched : Orchestrator → String → ℕ → Option Session → Orchestrator
touched o session_id now none = o
touched o session_id now (some s) = store o session_id (record s { updated_at = now })

unfoldable pub touch : System → String → ℕ → System
touch y session_id now = record y {
  manager = touched y.manager session_id now (Dict.get y.manager.sessions session_id);
}

unfoldable pub has_text : Option String → Bool
has_text none = false
has_text (some t) = not (t == "")

-- `_sync_active_session_snapshot`, where the worker's binding of the session has an id.
unfoldable pub sync : System → String → Result (Unit {0}) → Result (Unit {0}) × System
sync y session_id written =
    if has_text (Worker.get_business_session_binding y.worker (some session_id)).session_id
    then (written, y)
    else (ok tt, y)

-- A worker's method that may raise, and then the session's time and the snapshot.
unfoldable pub then_sync :
    System → String → ℕ → Result (Unit {0}) → Result WorkerRuntime → Result (Unit {0}) × System
then_sync y session_id now written (err e) = (err e, y)
then_sync y session_id now written (ok w) =
    sync (touch (record y { worker = w }) session_id now) session_id written

unfoldable pub bind_business_session :
    System → String → ℕ → Result (Unit {0}) → Result (Unit {0}) × System
bind_business_session y session_id now written =
    then_sync y session_id now written (Worker.bind_business_session y.worker session_id)

unfoldable pub clear_business_session : System → String → System
clear_business_session y session_id = record y {
  worker = Worker.clear_business_session y.worker (some session_id);
}

-- Whether the session that the worker is bound to is gone or has ended.
unfoldable pub is_stale : Result Session → Bool
is_stale (err e) = true
is_stale (ok s) = is_terminal s.status

unfoldable pub clear_stale_from : System → String → Option String → System
clear_stale_from y new_session_id none = y
clear_stale_from y new_session_id (some bound) =
    if (bound == "") || (bound == new_session_id)
    then y
    else if is_stale (get_session y.manager bound)
    then clear_business_session y bound
    else y

unfoldable pub clear_stale_worker_binding : System → String → System
clear_stale_worker_binding y new_session_id =
    clear_stale_from y new_session_id y.worker.binding.session_id

unfoldable pub rollback_failed_session_start : System → String → System
rollback_failed_session_start y session_id = if session_id == "" then y else record {
  worker = Worker.clear_business_session y.worker (some session_id);
  manager = rollback_start_session y.manager session_id;
}

-- The session that is bound, or the rollback and the exception again.
unfoldable pub bound_or_rolled_back : Session → Result (Unit {0}) × System → Result Session × System
bound_or_rolled_back s (ok done, y) = (ok s, y)
bound_or_rolled_back s (err e, y) = (err e, rollback_failed_session_start y s.session_id)

unfoldable pub bind_started :
    WorkerRuntime → ℕ → Result (Unit {0}) → Result Session × Orchestrator → Result Session × System
bind_started w now written (err e, o) = (err e, record { worker = w; manager = o })
bind_started w now written (ok s, o) = bound_or_rolled_back s (
    bind_business_session
      (clear_stale_worker_binding (record { worker = w; manager = o }) s.session_id) s.session_id
      now written)

module _ (normalize : String → String) where
  -- The payload shows the session that is returned.
  unfoldable pub start_business_session :
      BackendRegistry
      → BackendRegistry
      → System
      → ℕ
      → String
      → String
      → SessionContext
      → Result (Unit {0})
      → Result Session × System
  start_business_session shared own y now session_id decision_id context written =
      bind_started y.worker now written (
        Orchestrator.start_session normalize shared own y.manager now session_id decision_id
          context)

-- The other methods of session_state.py: the worker's method, the session's time and the snapshot.
module _ (y : System) (session_id : String) (now : ℕ) (written : Result (Unit {0})) where
  unfoldable pub bind_navigation_session : String → Result (Unit {0}) × System
  bind_navigation_session navigation_session_id =
      then_sync y session_id now written
        (Worker.bind_navigation_session y.worker session_id navigation_session_id)

  unfoldable pub clear_navigation_binding : Result (Unit {0}) × System
  clear_navigation_binding =
      then_sync y session_id now written (ok (Worker.clear_navigation_session y.worker session_id))

  unfoldable pub bind_ai_session : String → Result (Unit {0}) × System
  bind_ai_session ai_session_id =
      then_sync y session_id now written (Worker.bind_ai_session y.worker session_id ai_session_id)

  unfoldable pub clear_ai_binding : Result (Unit {0}) × System
  clear_ai_binding =
      then_sync y session_id now written (ok (Worker.clear_ai_session y.worker session_id))

  unfoldable pub set_live_data_active : Bool → Result (Unit {0}) × System
  set_live_data_active active =
      then_sync y session_id now written (Worker.set_live_data_active y.worker session_id active)

  unfoldable pub set_connection_epoch : Option String → Result (Unit {0}) × System
  set_connection_epoch epoch =
      then_sync y session_id now written
        (ok (Worker.set_connection_epoch y.worker session_id epoch))
