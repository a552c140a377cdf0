-- ===== src/Session/Worker.antt =====
-- The worker's session bindings and its exclusive operation
-- (diagnostic_platform/runtime/worker_runtime.py).
pub mod Exclusive
use gds2_automation.Base.{
  ℕ, ◌+◌, String, Bool, true, false, not, ◌&&◌, Option, none, some, arith, ◌==◌, nat_eq, string_eq,
  pair_eq, bytes_eq, if◌then◌else◌, Result, ok, err, runtime_error, worker_busy_error, ◌>>=◌, ◌>>◌,
}

-- The exclusive operation of a worker. `op_id` stands for the object's identity.
pub record WorkerOperation : Type 0 where
  pub op_id : ℕ
  pub session_id : String
  pub name : String
  pub cancelled : Bool

pub record WorkerSessionBinding : Type 0 where
  pub session_id : Option String
  pub navigation_session_id : Option String
  pub ai_session_id : Option String
  pub live_data_active : Bool
  pub connection_epoch : Option String

abbrev pub unbound : WorkerSessionBinding
unbound = record {
  session_id = none;
  navigation_session_id = none;
  ai_session_id = none;
  live_data_active = false;
  connection_epoch = none;
}

-- The backend objects are handles. `next_op` numbers the operations.
pub record WorkerRuntime : Type 0 where
  pub backend : Option ℕ
  pub active_backend_bundle : Option String
  pub action_runtime : Option ℕ
  pub executor : Option ℕ
  pub adapter : Option ℕ
  pub binding : WorkerSessionBinding
  pub active_operation : Option WorkerOperation
  pub next_op : ℕ

-- `binding.session_id and binding.session_id != session_id`: the empty text binds nothing.
unfoldable pub bound_to_other : Option String → String → Bool
bound_to_other none s = false
bound_to_other (some t) s = not (t == "") && not (t == s)

-- `binding.session_id == session_id`
unfoldable pub bound_to : Option String → String → Bool
bound_to none s = false
bound_to (some t) s = t == s

-- `session_id is not None and binding.session_id != session_id`
unfoldable pub excluded : WorkerRuntime → Option String → Bool
unfolding bound_to
excluded w none = false
excluded w (some s) = not (bound_to w.binding.session_id s)

unfoldable pub drop_bundle : WorkerRuntime → WorkerRuntime
drop_bundle w = record w {
  active_backend_bundle = none;
  backend = none;
  action_runtime = none;
  executor = none;
  adapter = none;
}

unfoldable pub clear_active_backend_bundle : WorkerRuntime → Option String → WorkerRuntime
unfolding drop_bundle excluded
clear_active_backend_bundle w session_id = if excluded w session_id then w else drop_bundle w

unfoldable pub bind_business_session : WorkerRuntime → String → Result WorkerRuntime
unfolding bound_to_other bound_to clear_active_backend_bundle
bind_business_session w s =
    if bound_to_other w.binding.session_id s
    then err runtime_error
    else if not (bound_to w.binding.session_id s)
    then ok (
        clear_active_backend_bundle (record w { binding = record unbound { session_id = some s } })
          none)
    else ok w

unfoldable pub get_business_session_binding : WorkerRuntime → Option String → WorkerSessionBinding
unfolding excluded
get_business_session_binding w session_id = if excluded w session_id then unbound else w.binding

unfoldable pub clear_business_session : WorkerRuntime → Option String → WorkerRuntime
unfolding excluded clear_active_backend_bundle
clear_business_session w session_id =
    if excluded w session_id
    then w
    else clear_active_backend_bundle (record w { binding = unbound }) none

unfoldable pub start_operation :
    WorkerRuntime → String → String → Result (WorkerOperation × WorkerRuntime)
start_operation w session_id name = elim w.active_operation [
  | some active ↦ err worker_busy_error
  | none ↦
      (let operation : WorkerOperation = record {
        op_id = w.next_op;
        session_id = session_id;
        name = name;
        cancelled = false;
      } in
        ok (operation, record w { active_operation = some operation; next_op = w.next_op + 1 }))
]

-- `self.active_operation is operation`
unfoldable pub is_active : Option WorkerOperation → WorkerOperation → Bool
is_active none operation = false
is_active (some active) operation = active.op_id == operation.op_id

unfoldable pub finish_operation : WorkerRuntime → WorkerOperation → WorkerRuntime
unfolding is_active
finish_operation w operation =
    if is_active w.active_operation operation then record w { active_operation = none } else w

-- `session_id is not None and operation.session_id != session_id`
unfoldable pub other_session : Option String → String → Bool
other_session none s = false
other_session (some t) s = not (s == t)

unfoldable pub cancel_found :
    WorkerRuntime → Option String → Option WorkerOperation → Bool × WorkerRuntime
unfolding other_session
cancel_found w session_id none = (false, w)
cancel_found w session_id (some operation) =
    if other_session session_id operation.session_id
    then (false, w)
    else (true, record w { active_operation = some (record operation { cancelled = true }) })

unfoldable pub cancel_operation : WorkerRuntime → Option String → Bool × WorkerRuntime
unfolding cancel_found
cancel_operation w session_id = cancel_found w session_id w.active_operation

unfoldable pub bind_navigation_session : WorkerRuntime → String → String → Result WorkerRuntime
bind_navigation_session w s navigation_session_id = do
  w' ← bind_business_session w s
  ok (record w' {
    binding = record w'.binding { navigation_session_id = some navigation_session_id };
  })

unfoldable pub get_navigation_session_id : WorkerRuntime → String → Option String
unfolding bound_to
get_navigation_session_id w s =
    if not (bound_to w.binding.session_id s) then none else w.binding.navigation_session_id

unfoldable pub clear_navigation_session : WorkerRuntime → String → WorkerRuntime
unfolding bound_to
clear_navigation_session w s =
    if bound_to w.binding.session_id s
    then record w { binding = record w.binding { navigation_session_id = none } }
    else w

unfoldable pub bind_ai_session : WorkerRuntime → String → String → Result WorkerRuntime
bind_ai_session w s ai_session_id = do
  w' ← bind_business_session w s
  ok (record w' { binding = record w'.binding { ai_session_id = some ai_session_id } })

unfoldable pub get_ai_session_id : WorkerRuntime → String → Option String
unfolding bound_to
get_ai_session_id w s =
    if not (bound_to w.binding.session_id s) then none else w.binding.ai_session_id

unfoldable pub clear_ai_session : WorkerRuntime → String → WorkerRuntime
unfolding bound_to
clear_ai_session w s =
    if bound_to w.binding.session_id s
    then record w { binding = record w.binding { ai_session_id = none } }
    else w

unfoldable pub set_live_data_active : WorkerRuntime → String → Bool → Result WorkerRuntime
set_live_data_active w s active = do
  w' ← bind_business_session w s
  ok (record w' { binding = record w'.binding { live_data_active = active } })

unfoldable pub is_live_data_active : WorkerRuntime → String → Bool
unfolding bound_to
is_live_data_active w s = bound_to w.binding.session_id s && w.binding.live_data_active

unfoldable pub set_connection_epoch : WorkerRuntime → String → Option String → WorkerRuntime
unfolding bound_to
set_connection_epoch w s epoch =
    if not (bound_to w.binding.session_id s)
    then w
    else record w { binding = record w.binding { connection_epoch = epoch } }

unfoldable pub get_connection_epoch : WorkerRuntime → String → Option String
unfolding bound_to
get_connection_epoch w s =
    if not (bound_to w.binding.session_id s) then none else w.binding.connection_epoch
