-- ===== src/Streaming/Buffer/Latest.antt =====
-- Trimming keeps the last value of every parameter (DiagnosticBuffer of
-- src/streaming/diagnostic_buffer.py).
use gds2_automation.Base.{
  ℕ, ◌≤◌, String, Bool, true, false, Option, none, some, List, [], ◌∷◌, ◌++◌, ◌≡◌, refl, sym, ap,
  ◌∙◌, subst, All-map, ◌==◌, string_eq, if◌then◌else◌, arith, inl, inr, Bool-cases, Option-cases,
}
use gds2_automation.Base.Dict.{Dict, get-put}
use gds2_automation.Base.Dict
use gds2_automation.Streaming.Buffer.{
  Entry, Param, AgentSnapshot, DiagnosticBuffer, Sampling, init, is_value, last, note_value,
  history_of, key_of, sample, take_param, take_params, note_gap, is_too_soon, store_sampling,
  append_at, or_last, trim_history, trim_histories,
}
use gds2_automation.Streaming.Buffer.Payload.{value_of, get-trim_histories}
use gds2_automation.Streaming.Buffer.Histories.{
  InOrder, UpTo, last-append, All-append, InOrder-append, last-trim, trim-InOrder, trim-UpTo,
}

-- The reference: the last value that was sampled of each parameter.
unfoldable pub note_latest : Dict String String → List Param → Dict String String
note_latest latest [] = latest
note_latest latest (p ∷ ps) = note_latest (Dict.put latest (key_of p) p.value) ps

unfoldable pub current : Dict String (List Entry) → String → Option String
current histories k = value_of (last (history_of (Dict.get histories k)))

-- What holds of the histories at a time: each is in order up to it, and ends at the last value.
pub record Holds (now : ℕ) (histories : Dict String (List Entry)) (latest : Dict String String)
    : Type 0 where
  pub in_order : (k : String) → InOrder (history_of (Dict.get histories k))
  pub up_to : (k : String) → UpTo now (history_of (Dict.get histories k))
  pub is_latest : (k : String) → current histories k ≡ Dict.get latest k

note-InOrder :
    (now : ℕ) (v : String) (h : List Entry) → InOrder h → UpTo now h → InOrder (note_value now v h)
unfolding note_value
note-InOrder now v h o u = elim (Bool-cases (is_value (last h) v)) [
  | inl same ↦ rw same o
  | inr new ↦ rw new (InOrder-append h (record { at = now; value = v }) o u)
]

note-UpTo : (now : ℕ) (v : String) (h : List Entry) → UpTo now h → UpTo now (note_value now v h)
unfolding note_value
note-UpTo now v h u = elim (Bool-cases (is_value (last h) v)) [
  | inl same ↦ rw same u
  | inr new ↦
      rw new (All-append (λ e. e.at ≤ now) h (record { at = now; value = v }) u (omega arith))
]

is_value-value_of : (o : Option Entry) (v : String) → is_value o v ≡ true → value_of o ≡ some v
unfolding is_value value_of
is_value-value_of none v h = cc
is_value-value_of (some e) v h = ap (λ x. some x) (ground (arith, string_eq.beq_iff e.value v))

last-note_value :
    (now : ℕ) (v : String) (h : List Entry) → value_of (last (note_value now v h)) ≡ some v
unfolding note_value
last-note_value now v h = elim (Bool-cases (is_value (last h) v)) [
  | inl same ↦ rw same (is_value-value_of (last h) v same)
  | inr new ↦
      rw new
        (ap value_of (last-append h (record { at = now; value = v })) ∙ unfold value_of in refl)
]

-- What holds of a written history and of the one before holds after the write.
written {κ} :
    (P : List Entry → Type κ) (d : Dict String (List Entry)) (key k : String) (h : List Entry)
    → P h
    → P (history_of (Dict.get d k))
    → P (history_of (Dict.get (Dict.put d key h) k))
unfolding history_of
written P d key k h new old =
    subst (λ o. P (history_of o)) (sym (get-put d key k h)) (either (key == k))
  where
    either : (b : Bool) → P (history_of (if b then some h else Dict.get d k))
    either true = new
    either false = old

current-put :
    (histories : Dict String (List Entry)) (latest : Dict String String) (key k v : String)
    (h : List Entry)
    → value_of (last h) ≡ some v
    → current histories k ≡ Dict.get latest k
    → current (Dict.put histories key h) k ≡ Dict.get (Dict.put latest key v) k
unfolding current history_of
current-put histories latest key k v h new old =
    ap (λ o. value_of (last (history_of o))) (get-put histories key k h)
    ∙ either (key == k)
    ∙ sym (get-put latest key k v)
  where
    either :
        (b : Bool)
        → value_of (last (history_of (if b then some h else Dict.get histories k)))
          ≡ (if b then some v else Dict.get latest k)
    either true = new
    either false = old

-- A sampled parameter.
put-Holds :
    (now : ℕ) (histories : Dict String (List Entry)) (latest : Dict String String) (key v : String)
    → Holds now histories latest
    → Holds now
        (Dict.put histories key (note_value now v (history_of (Dict.get histories key))))
        (Dict.put latest key v)
put-Holds now histories latest key v holds =
    let h : List Entry = history_of (Dict.get histories key) in
    record {
      in_order = λ k.
          written InOrder histories key k (note_value now v h)
            (note-InOrder now v h (holds.in_order key) (holds.up_to key)) (holds.in_order k);
      up_to = λ k.
          written (UpTo now) histories key k (note_value now v h)
            (note-UpTo now v h (holds.up_to key)) (holds.up_to k);
      is_latest = λ k.
          current-put histories latest key k v (note_value now v h) (last-note_value now v h)
            (holds.is_latest k);
    }

note_latest-append :
    (latest : Dict String String) (ps : List Param) (p : Param)
    → note_latest latest (ps ++ (p ∷ [])) ≡ Dict.put (note_latest latest ps) (key_of p) p.value
unfolding note_latest
note_latest-append latest [] p = refl
note_latest-append latest (q ∷ ps) p = note_latest-append (Dict.put latest (key_of q) q.value) ps p

get-trim_none :
    (now window : ℕ) (d : Dict String (List Entry)) (k : String)
    → Dict.get d k ≡ none
    → Dict.get (trim_histories now window d) k ≡ none
unfolding Dict.get trim_histories
get-trim_none now window [] k h = refl
get-trim_none now window ((j, history) ∷ d) k h = ground (arith, h, get-trim_none now window d k)

-- The history of a parameter after trimming.
trimmed_lem :
    (now window : ℕ) (d : Dict String (List Entry)) (k : String)
    → history_of (Dict.get (trim_histories now window d) k)
      ≡ trim_history now window (history_of (Dict.get d k))
unfolding history_of
trimmed_lem now window d k = elim (Option-cases (Dict.get d k)) [
  | inl missing ↦
      rw (missing, get-trim_none now window d k missing) (unfold trim_history or_last last in refl)
  | inr (entries, held) ↦ rw (held, get-trim_histories now window d k entries held) refl
]

trim-Holds :
    (now window : ℕ) (histories : Dict String (List Entry)) (latest : Dict String String)
    → Holds now histories latest
    → Holds now (trim_histories now window histories) latest
trim-Holds now window histories latest holds = record {
  in_order = λ k.
      subst InOrder (sym (trimmed_lem now window histories k))
        (trim-InOrder now window (history_of (Dict.get histories k)) (holds.in_order k));
  up_to = λ k.
      subst (UpTo now) (sym (trimmed_lem now window histories k))
        (trim-UpTo now window (history_of (Dict.get histories k)) (holds.up_to k));
  is_latest = λ k.
      unfold current in
      ap (λ h. value_of (last h)) (trimmed_lem now window histories k)
      ∙ ap value_of (last-trim now window (history_of (Dict.get histories k)) (holds.in_order k))
      ∙ (unfold current in holds.is_latest k);
}

later-Holds :
    (t now : ℕ) (histories : Dict String (List Entry)) (latest : Dict String String)
    → t ≤ now
    → Holds t histories latest
    → Holds now histories latest
later-Holds t now histories latest le holds = record {
  in_order = holds.in_order;
  up_to = λ k.
      All-map (λ e. e.at ≤ t) (λ e. e.at ≤ now) (λ e h. omega arith)
        (history_of (Dict.get histories k)) (holds.up_to k);
  is_latest = holds.is_latest;
}

module _ (is_fast : String → Bool) where
  -- What a sampling keeps, against the values that were sampled.
  Kept : ℕ → Dict String String → Sampling → Type 0
  Kept now latest st = Holds now st.histories (note_latest latest st.sampled)

  sample-Kept :
      (now : ℕ) (latest : Dict String String) (st : Sampling) (p : Param)
      → Kept now latest st
      → Kept now latest (sample now st p)
  unfolding Kept sample
  sample-Kept now latest st p kept =
      subst
        (Holds now (
          Dict.put st.histories (key_of p)
            (note_value now p.value (history_of (Dict.get st.histories (key_of p))))))
        (sym (note_latest-append latest st.sampled p))
        (put-Holds now st.histories (note_latest latest st.sampled) (key_of p) p.value kept)

  take_param-Kept :
      (now : ℕ) (latest : Dict String String) (st : Sampling) (p : Param)
      → Kept now latest st
      → Kept now latest (take_param is_fast now st p)
  unfolding take_param
  take_param-Kept now latest st p kept =
      let slow : Sampling = record st { slow_writes = Dict.put st.slow_writes (key_of p) now } in
      let kept_slow : Kept now latest slow = (unfold Kept in kept) in
      chosen _ _ (p.name == "") (is_fast p.name)
        (is_too_soon now (Dict.get st.slow_writes (key_of p))) (sample-Kept now latest st p kept)
        (sample-Kept now latest slow p kept_slow)
    where
      chosen :
          (x y : Sampling) (a b c : Bool)
          → Kept now latest x
          → Kept now latest y
          → Kept now latest (if a then st else if b then x else if c then st else y)
      chosen x y true b c fast slow = kept
      chosen x y false true c fast slow = fast
      chosen x y false false true fast slow = kept
      chosen x y false false false fast slow = slow

  take_params-Kept :
      (now : ℕ) (latest : Dict String String) (st : Sampling) (ps : List Param)
      → Kept now latest st
      → Kept now latest (take_params is_fast now st ps)
  unfolding take_params
  take_params-Kept now latest st [] kept = kept
  take_params-Kept now latest st (p ∷ ps) kept =
      take_params-Kept now latest (take_param is_fast now st p) ps
        (take_param-Kept now latest st p kept)

  -- The parameters that a snapshot adds, by the rates of sampling.
  unfoldable pub sampling_of : ℕ → DiagnosticBuffer → AgentSnapshot → Sampling
  sampling_of now b snapshot =
      take_params is_fast now
        (record { slow_writes = b.last_slow_write; histories = b.param_history; sampled = [] })
        snapshot.parameters

  append-Holds :
      (t now : ℕ) (b : DiagnosticBuffer) (snapshot : AgentSnapshot) (latest : Dict String String)
      → t ≤ now
      → Holds t b.param_history latest
      → Holds now
          (append_at is_fast now b snapshot).param_history
          (note_latest latest (sampling_of now b snapshot).sampled)
  unfolding append_at store_sampling sampling_of Kept note_latest
  append-Holds t now b snapshot latest le holds =
      trim-Holds now (note_gap now b (last b.sample_times)).window _ _ (
        take_params-Kept now latest _ snapshot.parameters
          (later-Holds t now b.param_history latest le holds))

  -- Snapshots with their times, one after another, and the values that they sample.
  unfoldable pub append_each : DiagnosticBuffer → List (ℕ × AgentSnapshot) → DiagnosticBuffer
  append_each b [] = b
  append_each b ((now, snapshot) ∷ more) = append_each (append_at is_fast now b snapshot) more

  unfoldable pub latest_of :
      DiagnosticBuffer → Dict String String → List (ℕ × AgentSnapshot) → Dict String String
  latest_of b latest [] = latest
  latest_of b latest ((now, snapshot) ∷ more) =
      latest_of (append_at is_fast now b snapshot)
        (note_latest latest (sampling_of now b snapshot).sampled) more

  abbrev pub TimesFrom : ℕ → List (ℕ × AgentSnapshot) → Type 0
  TimesFrom t [] = Unit {0}
  TimesFrom t ((now, snapshot) ∷ more) = (t ≤ now) × TimesFrom now more

  runs_latest :
      (t : ℕ) (b : DiagnosticBuffer) (latest : Dict String String) (more : List (ℕ × AgentSnapshot))
      (k : String)
      → TimesFrom t more
      → Holds t b.param_history latest
      → current (append_each b more).param_history k ≡ Dict.get (latest_of b latest more) k
  unfolding append_each latest_of
  runs_latest t b latest [] k times holds = holds.is_latest k
  runs_latest t b latest ((now, snapshot) ∷ more) k (le, times) holds =
      runs_latest now (append_at is_fast now b snapshot)
        (note_latest latest (sampling_of now b snapshot).sampled) more k times
        (append-Holds t now b snapshot latest le holds)

-- After any snapshots in the order of their times, however many were trimmed from the window, the
-- last value in the history of each parameter is the last one that was sampled of it, and a parameter
-- that was never sampled has none.
pub append_each-latest_of :
    (is_fast : String → Bool) (window : ℕ) (snapshots : List (ℕ × AgentSnapshot)) (k : String)
    → TimesFrom is_fast 0 snapshots
    → current (append_each is_fast (init window) snapshots).param_history k
      ≡ Dict.get (latest_of is_fast (init window) [] snapshots) k
unfolding init
append_each-latest_of is_fast window snapshots k times =
    runs_latest is_fast 0 (init window) [] snapshots k times (record {
      in_order = λ k. unfold history_of Dict.get in tt;
      up_to = λ k. unfold history_of Dict.get in tt;
      is_latest = λ k. unfold current history_of value_of last Dict.get in refl;
    })
