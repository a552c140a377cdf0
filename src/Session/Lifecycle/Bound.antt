-- ===== src/Session/Lifecycle/Bound.antt =====
-- What a start leaves on the worker and in the session manager
-- (diagnostic_platform/runtime/session_lifecycle.py).
use gds2_automation.Base.{
  ℕ, String, ◌≡◌, ◌≢◌, refl, sym, ap, ◌∙◌, inl, inr, true, false, ◌||◌, Option, none, some, Result,
  ok, err, Exn, ◌==◌, string_eq, arith, Bool-cases,
}
use gds2_automation.Base.Dict.{Dict, get-put, get-put_self, get-put_ne, get-pop_self, get-pop_ne}
use gds2_automation.Base.Dict
use gds2_automation.Session.Worker.{
  WorkerRuntime, unbound, bound_to_other, bound_to, excluded, clear_active_backend_bundle,
  drop_bundle,
}
use gds2_automation.Session.Worker
use gds2_automation.Session.State.{
  Session, DecisionGate, SessionContext, Outcome, Message, get_session, found_session, store,
  is_terminal, find_active, emit, rollback_start_session, cleanup_session_state,
}
use gds2_automation.Session.State
use gds2_automation.Session.Registry.{BackendRegistry}
use gds2_automation.Session.Orchestrator.{start_session}
use gds2_automation.Session.Orchestrator.Single.{idle_terminal}
use gds2_automation.Session.Lifecycle.{
  System, touch, touched, has_text, sync, then_sync, bind_business_session, clear_business_session,
  is_stale, clear_stale_from, clear_stale_worker_binding, rollback_failed_session_start,
  bound_or_rolled_back, bind_started, start_business_session,
}
use gds2_automation.Session.Lifecycle.Opened.{Opened, start-Opened}

-- A session that the worker is bound to, other than the new one, is gone or has ended.
others-is_stale :
    (o o' : State.Orchestrator) (session_id t : String) (s : Session)
    → Opened o session_id (ok s, o')
    → session_id ≢ t
    → is_stale (get_session o' t) ≡ true
unfolding Opened get_session found_session is_stale
others-is_stale o o' session_id t s (quiet, same, at, others) apart =
    rw (others t apart) (stale (Dict.get o.sessions t) refl)
  where
    stale : (u : Option Session) → Dict.get o.sessions t ≡ u → is_stale (found_session u) ≡ true
    stale none at_t = refl
    stale (some u) at_t = idle_terminal o.sessions t u quiet at_t

-- The worker is bound to no other session then.
IsFree : WorkerRuntime → String → Type 0
IsFree w session_id = bound_to_other w.binding.session_id session_id ≡ false

cleared-IsFree :
    (w : WorkerRuntime) (t session_id : String)
    → w.binding.session_id ≡ some t
    → IsFree (Worker.clear_business_session w (some t)) session_id
unfolding IsFree Worker.clear_business_session excluded bound_to clear_active_backend_bundle
    drop_bundle bound_to_other
cleared-IsFree w t session_id h =
    let bound : excluded w (some t) ≡ false =
      unfold excluded bound_to in rw h (ground (arith, string_eq.beq_iff t t)) in
    rw bound refl

clear_stale-IsFree :
    (o : State.Orchestrator) (y : System) (session_id : String) (s : Session)
    → Opened o session_id (ok s, y.manager)
    → IsFree (clear_stale_worker_binding y session_id).worker session_id
      × ((clear_stale_worker_binding y session_id).manager ≡ y.manager)
unfolding clear_stale_worker_binding clear_stale_from clear_business_session IsFree bound_to_other
clear_stale-IsFree o y session_id s opened = from (y.worker.binding.session_id) refl
  where
    from :
        (b : Option String)
        → y.worker.binding.session_id ≡ b
        → IsFree (clear_stale_from y session_id b).worker session_id
          × ((clear_stale_from y session_id b).manager ≡ y.manager)
    from none at = (rw at refl, refl)
    from (some t) at = elim (Bool-cases ((t == "") || (t == session_id))) [
      | inl kept ↦ rw kept (rw at (ground (arith, kept)), refl)
      | inr other ↦
          let stale : is_stale (get_session y.manager t) ≡ true =
            others-is_stale o y.manager session_id t s opened
              (λ same. ground (arith, other, string_eq.beq_iff t session_id, same)) in
          rw (other, stale) (cleared-IsFree y.worker t session_id at, refl)
    ]

bound_to-some :
    (b : Option String) (session_id : String) → bound_to b session_id ≡ true → b ≡ some session_id
unfolding bound_to
bound_to-some none session_id h = cc
bound_to-some (some t) session_id h =
    ap (λ x. some x) (ground (arith, string_eq.beq_iff t session_id))

bind-IsFree :
    (w : WorkerRuntime) (session_id : String)
    → IsFree w session_id
    → (w' : WorkerRuntime) × (Worker.bind_business_session w session_id ≡ ok w')
      × (w'.binding.session_id ≡ some session_id)
unfolding IsFree Worker.bind_business_session
bind-IsFree w session_id free = elim (Bool-cases (bound_to w.binding.session_id session_id)) [
  | inl same ↦ (w, rw (free, same) refl, bound_to-some w.binding.session_id session_id same)
  | inr other ↦ (
    clear_active_backend_bundle
        (record w { binding = record unbound { session_id = some session_id } }) none,
    rw (free, other) refl,
    unfold clear_active_backend_bundle drop_bundle excluded in refl,
  )
]

binding-has_text :
    (w : WorkerRuntime) (session_id : String)
    → session_id ≢ ""
    → w.binding.session_id ≡ some session_id
    → has_text (Worker.get_business_session_binding w (some session_id)).session_id ≡ true
unfolding Worker.get_business_session_binding
binding-has_text w session_id named h =
    let bound : excluded w (some session_id) ≡ false =
      unfold excluded bound_to in rw h (ground (arith, string_eq.beq_iff session_id session_id)) in
    rw (bound, h) (unfold has_text in ground (arith, string_eq.beq_iff session_id ""))

-- A worker bound to a session returns from the snapshot with what writing it returns.
synced :
    (y : System) (session_id : String) (now : ℕ) (written : Result (Unit {0})) (w : WorkerRuntime)
    → session_id ≢ ""
    → w.binding.session_id ≡ some session_id
    → then_sync y session_id now written (ok w)
      ≡ (written, touch (record y { worker = w }) session_id now)
unfolding then_sync sync touch
synced y session_id now written w named h = rw (binding-has_text w session_id named h) refl

-- The binding of a session that was opened comes to writing the snapshot.
Opened-bind_started :
    (o o' : State.Orchestrator) (w : WorkerRuntime) (now : ℕ) (written : Result (Unit {0}))
    (s : Session)
    → Opened o s.session_id (ok s, o')
    → s.session_id ≢ ""
    → (w' : WorkerRuntime) × (w'.binding.session_id ≡ some s.session_id)
      × (bind_started w now written (ok s, o')
          ≡ bound_or_rolled_back s
              (written, touch (record { worker = w'; manager = o' }) s.session_id now))
unfolding bind_started bind_business_session
Opened-bind_started o o' w now written s opened named =
    let y : System = record { worker = w; manager = o' } in
    let y1 : System = clear_stale_worker_binding y s.session_id in
    let (free, kept) = clear_stale-IsFree o y s.session_id s opened in
    let (w', bound, is_bound) = bind-IsFree y1.worker s.session_id free in
    (
      w',
      is_bound,
      ap (λ r. bound_or_rolled_back s (then_sync y1 s.session_id now written r)) bound
          ∙ ap (bound_or_rolled_back s) (synced y1 s.session_id now written w' named is_bound)
          ∙ ap
              (λ m.
                bound_or_rolled_back s
                  (written, touch (record { worker = w'; manager = m }) s.session_id now))
              kept,
    )

touched-get :
    (o : State.Orchestrator) (session_id : String) (now : ℕ) (s : Session)
    → Dict.get o.sessions session_id ≡ some s
    → Dict.get (touched o session_id now (Dict.get o.sessions session_id)).sessions session_id
      ≡ some (record s { updated_at = now })
unfolding touched store
touched-get o session_id now s h =
    rw h (get-put_self o.sessions session_id (record s { updated_at = now }))

module _ (normalize : String → String) (shared own : BackendRegistry) (y : System) (now : ℕ)
    (session_id decision_id : String) (context : SessionContext) (written : Result (Unit {0})) where
  -- The start of a session that the manager opens.
  start-computed :
      (s : Session) (o' : State.Orchestrator)
      → session_id ≢ ""
      → start_session normalize shared own y.manager now session_id decision_id context ≡ (ok s, o')
      → (w' : WorkerRuntime) × (w'.binding.session_id ≡ some s.session_id)
        × (s.session_id ≡ session_id)
        × (start_business_session normalize shared own y now session_id decision_id context written
            ≡ bound_or_rolled_back s
                (written, touch (record { worker = w'; manager = o' }) s.session_id now))
  unfolding start_business_session
  start-computed s o' named h =
      let (same, opened) =
        start-Opened normalize shared own y.manager o' now session_id decision_id context s h in
      let (w', bound, result) =
        Opened-bind_started y.manager o' y.worker now written s opened
          (λ e. named (sym same ∙ e)) in
      (w', bound, same, ap (bind_started y.worker now written) h ∙ result)

-- Where the session manager starts a session with a nonempty id and the snapshot can be written, the
-- start returns it, whatever session the worker was bound to before; the worker is bound to the new
-- one, and the manager holds it.
pub start_binds :
    (normalize : String → String) (shared own : BackendRegistry) (y : System) (now : ℕ)
    (session_id decision_id : String) (context : SessionContext) (s : Session)
    (o' : State.Orchestrator)
    → session_id ≢ ""
    → start_session normalize shared own y.manager now session_id decision_id context ≡ (ok s, o')
    → let r : Result Session × System =
        start_business_session normalize shared own y now session_id decision_id context (ok tt) in
      (r.0 ≡ ok s)
      × (r.1.worker.binding.session_id ≡ some session_id)
      × (Dict.get r.1.manager.sessions session_id ≡ some (record s { updated_at = now }))
unfolding bound_or_rolled_back touch
start_binds normalize shared own y now session_id decision_id context s o' named h =
    let (w', bound, same, result) =
      start-computed normalize shared own y now session_id decision_id context (ok tt) s o' named
        h in
    let (same', opened) =
      start-Opened normalize shared own y.manager o' now session_id decision_id context s h in
    let at : Dict.get o'.sessions s.session_id ≡ some s = unfold Opened in opened.2 in
    let r : Result Session × System =
      start_business_session normalize shared own y now session_id decision_id context (ok tt) in
    (
      ap (λ x. x.0) result,
      ap (λ x. x.1.worker.binding.session_id) result ∙ bound ∙ ap (λ x. some x) same,
      ap (Dict.get r.1.manager.sessions) (sym same)
          ∙ ap (λ x. Dict.get x.1.manager.sessions s.session_id) result
          ∙ touched-get o' s.session_id now s at,
    )

rolled_back-get :
    (o : State.Orchestrator) (session_id t : String) (now : ℕ) (a : Option Session)
    → session_id ≢ t
    → Dict.get (rollback_start_session (touched o session_id now a) session_id).sessions t
      ≡ Dict.get o.sessions t
unfolding rollback_start_session cleanup_session_state touched store
rolled_back-get o session_id t now none apart = get-pop_ne o.sessions session_id t apart
rolled_back-get o session_id t now (some s) apart =
    get-pop_ne (Dict.put o.sessions session_id (record s { updated_at = now })) session_id t apart
    ∙ get-put_ne o.sessions session_id t (record s { updated_at = now }) apart

cleared-unbound :
    (w : WorkerRuntime) (t : String)
    → w.binding.session_id ≡ some t
    → (Worker.clear_business_session w (some t)).binding.session_id ≡ none
unfolding Worker.clear_business_session
cleared-unbound w t h =
    let bound : excluded w (some t) ≡ false =
      unfold excluded bound_to in rw h (ground (arith, string_eq.beq_iff t t)) in
    rw bound (unfold clear_active_backend_bundle drop_bundle excluded in refl)

rollback-named :
    (y : System) (session_id : String)
    → session_id ≢ ""
    → rollback_failed_session_start y session_id ≡ record {
      worker = Worker.clear_business_session y.worker (some session_id);
      manager = rollback_start_session y.manager session_id;
    }
unfolding rollback_failed_session_start
rollback-named y session_id named =
    let other : (session_id == "") ≡ false = ground (arith, string_eq.beq_iff session_id "") in
    rw other refl

rolled_back_self :
    (o : State.Orchestrator) (session_id : String)
    → Dict.get (rollback_start_session o session_id).sessions session_id ≡ none
unfolding rollback_start_session cleanup_session_state
rolled_back_self o session_id = get-pop_self o.sessions session_id

-- Where the manager starts a session with a nonempty id and writing the snapshot raises, the start
-- raises the same, the worker is bound to no session, the manager does not hold the new one, and what
-- it holds under another id is as before.
pub failed_start_undone :
    (normalize : String → String) (shared own : BackendRegistry) (y : System) (now : ℕ)
    (session_id decision_id t : String) (context : SessionContext) (s : Session)
    (o' : State.Orchestrator) (e : Exn)
    → session_id ≢ ""
    → session_id ≢ t
    → start_session normalize shared own y.manager now session_id decision_id context ≡ (ok s, o')
    → let r : Result Session × System =
        start_business_session normalize shared own y now session_id decision_id context (err e) in
      (r.0 ≡ err e)
      × (r.1.worker.binding.session_id ≡ none)
      × (Dict.get r.1.manager.sessions session_id ≡ none)
      × (Dict.get r.1.manager.sessions t ≡ Dict.get y.manager.sessions t)
unfolding bound_or_rolled_back touch
failed_start_undone normalize shared own y now session_id decision_id t context s o' e named apart
      h =
    let (w', bound, same, result) =
      start-computed normalize shared own y now session_id decision_id context (err e) s o' named
        h in
    let (same', opened) =
      start-Opened normalize shared own y.manager o' now session_id decision_id context s h in
    let others : Dict.get o'.sessions t ≡ Dict.get y.manager.sessions t =
      unfold Opened in opened.3 t (λ q. apart (sym same ∙ q)) in
    let r : Result Session × System =
      start_business_session normalize shared own y now session_id decision_id context (err e) in
    let y' : System = touch (record { worker = w'; manager = o' }) s.session_id now in
    let undone =
      result ∙ ap (λ x. (err e, x)) (rollback-named y' s.session_id (λ q. named (sym same ∙ q))) in
    (
      ap (λ x. x.0) undone,
      ap (λ x. x.1.worker.binding.session_id) undone ∙ cleared-unbound w' s.session_id bound,
      ap (Dict.get r.1.manager.sessions) (sym same)
          ∙ ap (λ x. Dict.get x.1.manager.sessions s.session_id) undone
          ∙ rolled_back_self y'.manager s.session_id,
      ap (λ x. Dict.get x.1.manager.sessions t) undone
          ∙ rolled_back-get o' s.session_id t now (Dict.get o'.sessions s.session_id)
              (λ q. apart (sym same ∙ q))
          ∙ others,
    )
