-- ===== src/Session/Orchestrator/Blocked.antt =====
-- A start that the registry refuses (start_session of
-- diagnostic_platform/session_orchestrator.py).
use gds2_automation.Base.{
  ℕ, String, ◌≡◌, refl, false, inl, inr, Bool-cases, none, some, [], ◌∷◌, arith, ◌==◌, string_eq,
  Exn, ok, err, key_error, runtime_error, ap,
}
use gds2_automation.Base.Dict
use gds2_automation.Base.Dict.{Dict}
use gds2_automation.Session.Registry.{
  BackendRegistry, resolve_brand, get_descriptor, get_by_name, found_backend,
}
use gds2_automation.Session.State.{
  SessionContext, Session, Orchestrator, Outcome, find_active, is_terminal,
}
use gds2_automation.Session.Orchestrator.{
  start_session, start_beside, choose, routed_name, preferred_backend_name, open_session, enter,
  new_session,
}

find_active-put :
    (d : Dict String Session) (k : String) (s : Session)
    → is_terminal s.status ≡ false
    → (a : Session) × (find_active (Dict.put d k s) ≡ some a)
unfolding find_active Dict.put
find_active-put [] k s h = (s, ground (arith, h))
find_active-put ((j, t) ∷ d) k s h = elim (Bool-cases (j == k)) [
  | inl y ↦ (s, ground (arith, y, h))
  | inr n ↦ elim (Bool-cases (is_terminal t.status)) [
    | inl ended ↦ (let (a, e) = find_active-put d k s h in (a, ground (arith, n, ended, e)))
    | inr active ↦ (t, ground (arith, n, active))
  ]
]

get_descriptor-unknown :
    (r : BackendRegistry) (name : String)
    → Dict.get r.backends name ≡ none
    → get_descriptor r name ≡ err key_error
unfolding get_descriptor get_by_name
get_descriptor-unknown r name h = rw h (unfold found_backend in refl)

module _ (normalize : String → String) where
  resolve_brand-unknown :
      (r : BackendRegistry) (brand name : String)
      → (name == "") ≡ false
      → Dict.get r.backends name ≡ none
      → resolve_brand normalize r brand name ≡ err key_error
  unfolding resolve_brand
  resolve_brand-unknown r brand name named h = rw (named, get_descriptor-unknown r name h) refl

  routed_name-named :
      (shared : BackendRegistry) (context : SessionContext)
      → (context.backend_name == "") ≡ false
      → routed_name normalize shared context (preferred_backend_name normalize context)
        ≡ ok context.backend_name
  unfolding routed_name preferred_backend_name
  routed_name-named shared context named = rw named (rw named refl)

  choose-unknown :
      (shared own : BackendRegistry) (now : ℕ) (decision_id : String) (context : SessionContext)
      → (context.backend_name == "") ≡ false
      → Dict.get own.backends context.backend_name ≡ none
      → choose normalize shared own now decision_id context ≡ err key_error
  unfolding choose
  choose-unknown shared own now decision_id context named unknown =
      rw (routed_name-named shared context named)
        (rw (resolve_brand-unknown own context.brand context.backend_name named unknown) refl)

  start_session-idle :
      (shared own : BackendRegistry) (o : Orchestrator) (now : ℕ) (i d : String)
      (context : SessionContext) (e : Exn)
      → find_active o.sessions ≡ none
      → choose normalize shared own now d context ≡ err e
      → start_session normalize shared own o now i d context
        ≡ (err e, enter o i (new_session now i context))
  unfolding start_session
  start_session-idle shared own o now i d context e idle refused =
      rw idle (unfold start_beside in rw refused (unfold open_session in refl))

  start_session-busy :
      (shared own : BackendRegistry) (o : Orchestrator) (now : ℕ) (i d : String)
      (context : SessionContext) (a : Session)
      → find_active o.sessions ≡ some a
      → start_session normalize shared own o now i d context ≡ (err runtime_error, o)
  unfolding start_session
  start_session-busy shared own o now i d context a busy = rw busy (unfold start_beside in refl)

  -- Where no session is active, starting one for a named backend that is not registered raises
  -- `KeyError`
  -- and leaves its session behind: the next start raises `RuntimeError`, whatever it asks for.
  pub unknown_backend_blocks :
      (shared own : BackendRegistry) (o : Orchestrator) (now now' : ℕ)
      (session_id decision_id session_id' decision_id' : String) (context context' : SessionContext)
      → find_active o.sessions ≡ none
      → (context.backend_name == "") ≡ false
      → Dict.get own.backends context.backend_name ≡ none
      → ((start_session normalize shared own o now session_id decision_id context).0
          ≡ err key_error)
        × ((start_session normalize shared own
              (start_session normalize shared own o now session_id decision_id context).1
              now'
              session_id'
              decision_id'
              context').0
            ≡ err runtime_error)
  unknown_backend_blocks shared own o now now' i d i' d' context context' idle named unknown =
      let first =
        start_session-idle shared own o now i d context key_error idle
          (choose-unknown shared own now d context named unknown) in
      let (a, busy) =
        find_active-put o.sessions i (new_session now i context)
          (unfold new_session is_terminal in refl) in
      (
        ap (λ (r : Outcome). r.0) first,
        rw first (
            ap (λ (r : Outcome). r.0)
              (start_session-busy shared own (enter o i (new_session now i context)) now' i' d'
                context' a (unfold enter in busy))),
      )
