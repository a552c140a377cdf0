-- ===== src/Session/Worker/Exclusive.antt =====
-- One session and one operation at a time (diagnostic_platform/runtime/worker_runtime.py).
use gds2_automation.Base.{
  ℕ, String, ◌≡◌, refl, sym, ap, ◌∙◌, ◌≢◌, inl, inr, Bool, true, false, Option, none, some, arith,
  ◌==◌, nat_eq, string_eq, pair_eq, bytes_eq, Bool-cases, Result, ok, err, runtime_error,
  worker_busy_error, ◌>>=◌,
}
use text.Mathlib.TextEquality.{eq_iff}
use gds2_automation.Session.Worker.{
  WorkerOperation, WorkerRuntime, unbound, bind_business_session, clear_business_session,
  clear_active_backend_bundle, start_operation, finish_operation, cancel_operation,
  bind_navigation_session, clear_navigation_session, bind_ai_session, clear_ai_session,
  set_live_data_active, set_connection_epoch, get_navigation_session_id, get_ai_session_id,
  is_live_data_active, get_connection_epoch, get_business_session_binding, bound_to, bound_to_other,
  excluded, drop_bundle, is_active, other_session, cancel_found,
}

-- The worker serves a session: its id is bound, and is no empty text.
pub record Serves (w : WorkerRuntime) (s : String) : Type 0 where
  pub bound : w.binding.session_id ≡ some s
  pub named : (s == "") ≡ false

other_bound_to : (o : Option String) (s t : String) → o ≡ some s → t ≢ s → bound_to o t ≡ false
unfolding bound_to
other_bound_to none s t h ne = refl
other_bound_to (some r) s t h ne = ground (arith, eq_iff r t, h, ne)

other_bound_to_other :
    (o : Option String) (s t : String)
    → o ≡ some s
    → (s == "") ≡ false
    → t ≢ s
    → bound_to_other o t ≡ true
unfolding bound_to_other
other_bound_to_other none s t h n ne = absurd (cc)
other_bound_to_other (some r) s t h n ne =
    ground (arith, eq_iff r t, eq_iff s t, eq_iff r "", eq_iff s "", h, n, ne)

bind_raises :
    (w : WorkerRuntime) (t : String)
    → bound_to_other w.binding.session_id t ≡ true
    → bind_business_session w t ≡ err runtime_error
unfolding bind_business_session
bind_raises w t h = rw h refl

-- While a worker serves a session with a nonempty id, the calls of another session change nothing,
-- see nothing, and raise where they would bind.
pub other_session_isolated :
    (w : WorkerRuntime) (s t x : String) (epoch : Option String) (active : Bool)
    → Serves w s
    → t ≢ s
    → (bind_business_session w t ≡ err runtime_error)
      × (bind_navigation_session w t x ≡ err runtime_error)
      × (bind_ai_session w t x ≡ err runtime_error)
      × (set_live_data_active w t active ≡ err runtime_error)
      × (clear_business_session w (some t) ≡ w)
      × (clear_active_backend_bundle w (some t) ≡ w)
      × (clear_navigation_session w t ≡ w)
      × (clear_ai_session w t ≡ w)
      × (set_connection_epoch w t epoch ≡ w)
      × (get_navigation_session_id w t ≡ none)
      × (get_ai_session_id w t ≡ none)
      × (is_live_data_active w t ≡ false)
      × (get_connection_epoch w t ≡ none)
      × (get_business_session_binding w (some t) ≡ unbound)
unfolding bind_navigation_session bind_ai_session set_live_data_active clear_business_session
    clear_active_backend_bundle clear_navigation_session clear_ai_session set_connection_epoch
    get_navigation_session_id get_ai_session_id is_live_data_active get_connection_epoch
    get_business_session_binding excluded
other_session_isolated w s t x epoch active h ne =
    let b = other_bound_to w.binding.session_id s t h.bound ne in
    let r = bind_raises w t (other_bound_to_other w.binding.session_id s t h.bound h.named ne) in
    (
      r,
      rw r refl,
      rw r refl,
      rw r refl,
      rw b refl,
      rw b refl,
      rw b refl,
      rw b refl,
      rw b refl,
      rw b refl,
      rw b refl,
      rw b refl,
      rw b refl,
      rw b refl,
    )

-- What other callers do to the worker while an operation runs: every call but finishing the
-- operation of that identity.
pub data Call (id : ℕ) (w : WorkerRuntime) : WorkerRuntime → Type 0 where
  bound : {w' : WorkerRuntime} (s : String) → bind_business_session w s ≡ ok w' → Call id w w'
  navigation_bound :
      {w' : WorkerRuntime} (s x : String) → bind_navigation_session w s x ≡ ok w' → Call id w w'
  ai_bound : {w' : WorkerRuntime} (s x : String) → bind_ai_session w s x ≡ ok w' → Call id w w'
  live_data_set :
      {w' : WorkerRuntime} (s : String) (b : Bool)
      → set_live_data_active w s b ≡ ok w'
      → Call id w w'
  session_cleared : (s : Option String) → Call id w (clear_business_session w s)
  bundle_cleared : (s : Option String) → Call id w (clear_active_backend_bundle w s)
  navigation_cleared : (s : String) → Call id w (clear_navigation_session w s)
  ai_cleared : (s : String) → Call id w (clear_ai_session w s)
  epoch_set : (s : String) (e : Option String) → Call id w (set_connection_epoch w s e)
  cancelled :
      {w' : WorkerRuntime} (s : Option String) (answer : Bool)
      → cancel_operation w s ≡ (answer, w')
      → Call id w w'
  finished : (op : WorkerOperation) → op.op_id ≢ id → Call id w (finish_operation w op)

pub data Calls (id : ℕ) (w : WorkerRuntime) : WorkerRuntime → Type 0 where
  none_yet : Calls id w w
  also : {v u : WorkerRuntime} → Calls id w v → Call id v u → Calls id w u

-- The worker runs the operation of an identity.
Runs : ℕ → WorkerRuntime → Type 0
Runs id w = (op : WorkerOperation) × (w.active_operation ≡ some op) × (op.op_id ≡ id)

binding_keeps_operation :
    (w w' : WorkerRuntime) (s : String)
    → bind_business_session w s ≡ ok w'
    → w'.active_operation ≡ w.active_operation
unfolding bind_business_session clear_active_backend_bundle drop_bundle excluded
binding_keeps_operation w w' s h = ground (arith, h)

rebinding_keeps_operation :
    (w w' : WorkerRuntime) (r : Result WorkerRuntime) (f : WorkerRuntime → WorkerRuntime)
    → ((v : WorkerRuntime) → r ≡ ok v → v.active_operation ≡ w.active_operation)
    → ((v : WorkerRuntime) → (f v).active_operation ≡ v.active_operation)
    → (r >>= λ v. ok (f v)) ≡ ok w'
    → w'.active_operation ≡ w.active_operation
rebinding_keeps_operation w w' (err e) f k p h = absurd (cc)
rebinding_keeps_operation w w' (ok v) f k p h =
    let moved : f v ≡ w' = cc in sym (ap (λ u. u.active_operation) moved) ∙ p v ∙ k v refl

cancel-Runs :
    (id : ℕ) (w w' : WorkerRuntime) (s : Option String) (answer : Bool) (op : WorkerOperation)
    → w.active_operation ≡ some op
    → op.op_id ≡ id
    → cancel_found w s (some op) ≡ (answer, w')
    → Runs id w'
unfolding Runs cancel_found
cancel-Runs id w w' s answer op h e c = elim (Bool-cases (other_session s op.session_id)) [
  | inl o ↦ (op, ground (arith, h, c, o), e)
  | inr o ↦ (record op { cancelled = true }, ground (arith, h, c, o), e)
]

Call-Runs : (id : ℕ) (w w' : WorkerRuntime) → Runs id w → Call id w w' → Runs id w'
unfolding Runs bind_navigation_session bind_ai_session set_live_data_active clear_business_session
    clear_active_backend_bundle drop_bundle excluded clear_navigation_session clear_ai_session
    set_connection_epoch cancel_operation finish_operation is_active
Call-Runs id w w' (op, h, e) (Call.bound s b) = (op, binding_keeps_operation w w' s b ∙ h, e)
Call-Runs id w w' (op, h, e) (Call.navigation_bound s x b) = (
  op,
  rebinding_keeps_operation w w' (bind_business_session w s) _
        (λ v q. binding_keeps_operation w v s q) (λ v. refl) b
      ∙ h,
  e,
)
Call-Runs id w w' (op, h, e) (Call.ai_bound s x b) = (
  op,
  rebinding_keeps_operation w w' (bind_business_session w s) _
        (λ v q. binding_keeps_operation w v s q) (λ v. refl) b
      ∙ h,
  e,
)
Call-Runs id w w' (op, h, e) (Call.live_data_set s x b) = (
  op,
  rebinding_keeps_operation w w' (bind_business_session w s) _
        (λ v q. binding_keeps_operation w v s q) (λ v. refl) b
      ∙ h,
  e,
)
Call-Runs id w _ (op, h, e) (Call.session_cleared s) = (op, ground (arith, h), e)
Call-Runs id w _ (op, h, e) (Call.bundle_cleared s) = (op, ground (arith, h), e)
Call-Runs id w _ (op, h, e) (Call.navigation_cleared s) = (op, ground (arith, h), e)
Call-Runs id w _ (op, h, e) (Call.ai_cleared s) = (op, ground (arith, h), e)
Call-Runs id w _ (op, h, e) (Call.epoch_set s x) = (op, ground (arith, h), e)
Call-Runs id w w' (op, h, e) (Call.cancelled s answer c) =
    cancel-Runs id w w' s answer op h e (sym (ap (cancel_found w s) h) ∙ c)
Call-Runs id w _ (op, h, e) (Call.finished other ne) = (op, ground (arith, h, e, ne), e)

Calls-Runs : (id : ℕ) (w v : WorkerRuntime) → Runs id w → Calls id w v → Runs id v
Calls-Runs id w _ r none_yet = r
Calls-Runs id w _ r (also {v} cs c) = Call-Runs id v _ (Calls-Runs id w v r cs) c

started-Runs :
    (w w' : WorkerRuntime) (s name : String) (op : WorkerOperation)
    → start_operation w s name ≡ ok (op, w')
    → Runs op.op_id w'
unfolding Runs start_operation
started-Runs w w' s name op h = (op, ground (arith, h), refl)

Runs-busy :
    (id : ℕ) (w : WorkerRuntime) (s name : String)
    → Runs id w
    → start_operation w s name ≡ err worker_busy_error
unfolding Runs start_operation
Runs-busy id w s name (op, h, e) = rw h refl

Runs-finish :
    (op : WorkerOperation) (w : WorkerRuntime)
    → Runs op.op_id w
    → (finish_operation w op).active_operation ≡ none
unfolding Runs finish_operation is_active
Runs-finish op w (active, h, e) = ground (arith, h, e)

-- Once an operation starts, and until it is finished, whatever else the worker is asked for, any
-- further operation is refused as busy; finishing it then frees the worker.
pub one_operation_at_a_time :
    (w w' v : WorkerRuntime) (s name t next : String) (op : WorkerOperation)
    → start_operation w s name ≡ ok (op, w')
    → Calls op.op_id w' v
    → (start_operation v t next ≡ err worker_busy_error)
      × ((finish_operation v op).active_operation ≡ none)
one_operation_at_a_time w w' v s name t next op h cs =
    let r = Calls-Runs op.op_id w' v (started-Runs w w' s name op h) cs in
    (Runs-busy op.op_id v t next r, Runs-finish op v r)
