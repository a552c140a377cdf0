-- ===== src/Streaming/Buffer/Payload.antt =====
-- The payload of the window: the first values and the changes after them (get_delta_payload of
-- src/streaming/diagnostic_buffer.py). The rounding of times to tenths of a second and the sort of the
-- timeline by them are left out: the changes are listed parameter by parameter.
use gds2_automation.Base.{
  ℕ, ◌+◌, ◌<◌, String, Bool, true, false, Option, none, some, List, [], ◌∷◌, ◌++◌, ◌≡◌, refl, ap,
  ◌∙◌, filter, All, ◌==◌, string_eq, if◌then◌else◌, arith,
}
use gds2_automation.Base.Dict.{Dict, get-put_self}
use gds2_automation.Base.Dict
use gds2_automation.Streaming.Buffer.{
  Entry, Param, AgentSnapshot, DiagnosticBuffer, Sampling, is_value, last, note_value, history_of,
  key_of, sample, take_param, take_params, note_gap, store_sampling, append_at, in_window, or_last,
  trim_history, trim_histories,
}

pub record Initial : Type 0 where
  pub key : String
  pub value : String

pub record Change : Type 0 where
  pub key : String
  pub at : ℕ
  pub from : String
  pub to : String

unfoldable pub initial_of : String → List Entry → List Initial
initial_of key [] = []
initial_of key (e ∷ es) = record { key = key; value = e.value } ∷ []

unfoldable pub changes_from : String → String → List Entry → List Change
changes_from key before [] = []
changes_from key before (e ∷ es) =
    record { key = key; at = e.at; from = before; to = e.value } ∷ changes_from key e.value es

unfoldable pub changes_of : String → List Entry → List Change
changes_of key [] = []
changes_of key (e ∷ es) = changes_from key e.value es

unfoldable pub initial_state : Dict String (List Entry) → List Initial
initial_state [] = []
initial_state ((key, history) ∷ d) = initial_of key history ++ initial_state d

unfoldable pub timeline : Dict String (List Entry) → List Change
timeline [] = []
timeline ((key, history) ∷ d) = changes_of key history ++ timeline d

-- Going through changes from a value, where each starts at the value before it.
unfoldable pub replay : String → List Change → Option String
replay value [] = some value
replay value (c ∷ cs) =
    let rest : Option String = replay c.to cs in if c.from == value then rest else none

unfoldable pub value_of : Option Entry → Option String
value_of none = none
value_of (some e) = some e.value

replay-changes_from :
    (key : String) (e : Entry) (es : List Entry)
    → replay e.value (changes_from key e.value es) ≡ value_of (last (e ∷ es))
unfolding replay changes_from value_of last
replay-changes_from key e [] = refl
replay-changes_from key e (x ∷ es) =
    let same : (e.value == e.value) ≡ true = ground (arith, string_eq.beq_iff e.value e.value) in
    rw same (replay-changes_from key x es)

-- The changes of a parameter, from its initial value on, start each at the value before and end at its
-- last value.
pub replay-changes_of :
    (key : String) (e : Entry) (es : List Entry)
    → replay e.value (changes_of key (e ∷ es)) ≡ value_of (last (e ∷ es))
unfolding changes_of
replay-changes_of key e es = replay-changes_from key e es

filter-old :
    (now window : ℕ) (entries : List Entry) (e : Entry)
    → All (λ x. x.at + window < now) entries
    → e.at ≡ now
    → filter (λ x. in_window now window x.at) (entries ++ (e ∷ [])) ≡ e ∷ []
unfolding in_window
filter-old now window [] e old h = ground (arith, h)
filter-old now window (x ∷ entries) e (first, old) h =
    ground (arith, first, filter-old now window entries e old h)

pub get-trim_histories :
    (now window : ℕ) (d : Dict String (List Entry)) (k : String) (entries : List Entry)
    → Dict.get d k ≡ some entries
    → Dict.get (trim_histories now window d) k ≡ some (trim_history now window entries)
unfolding Dict.get trim_histories
get-trim_histories now window [] k entries h = cc
get-trim_histories now window ((j, history) ∷ d) k entries h =
    ground (arith, h, get-trim_histories now window d k entries)

pub note_gap-window :
    (now : ℕ) (b : DiagnosticBuffer) (before : Option ℕ) → (note_gap now b before).window ≡ b.window
unfolding note_gap
note_gap-window now b none = refl
note_gap-window now b (some t) = refl

sampled-histories :
    (is_fast : String → Bool) (now : ℕ) (st : Sampling) (ps : List Param) (p : Param)
    (entries : List Entry)
    → (p.name == "") ≡ false
    → is_fast p.name ≡ true
    → ps ≡ p ∷ []
    → Dict.get st.histories (key_of p) ≡ some entries
    → (take_params is_fast now st ps).histories
      ≡ Dict.put st.histories (key_of p) (note_value now p.value entries)
unfolding take_params take_param sample
sampled-histories is_fast now st ps p entries named fast only held =
    ap (λ l. (take_params is_fast now st l).histories) only
    ∙ (rw (named, fast, held) (unfold history_of in refl))

only_new :
    (is_fast : String → Bool) (now : ℕ) (b : DiagnosticBuffer) (snapshot : AgentSnapshot)
    (p : Param) (entries : List Entry)
    → (p.name == "") ≡ false
    → is_fast p.name ≡ true
    → snapshot.parameters ≡ p ∷ []
    → Dict.get b.param_history (key_of p) ≡ some entries
    → All (λ e. e.at + b.window < now) entries
    → is_value (last entries) p.value ≡ false
    → Dict.get (append_at is_fast now b snapshot).param_history (key_of p)
      ≡ some (record { at = now; value = p.value } ∷ [])
unfolding append_at store_sampling trim_history note_value
only_new is_fast now b snapshot p entries named fast only held old new =
    let e : Entry = record { at = now; value = p.value } in
    let st : Sampling = record {
      slow_writes = b.last_slow_write;
      histories = b.param_history;
      sampled = [];
    } in
    let noted : note_value now p.value entries ≡ entries ++ (e ∷ []) = rw new refl in
    let put : Dict String (List Entry) =
      Dict.put b.param_history (key_of p) (note_value now p.value entries) in
    ap
      (λ w.
        Dict.get (trim_histories now w (take_params is_fast now st snapshot.parameters).histories)
          (key_of p))
      (note_gap-window now b (last b.sample_times))
    ∙ ap (λ d. Dict.get (trim_histories now b.window d) (key_of p))
        (sampled-histories is_fast now st snapshot.parameters p entries named fast only held)
    ∙ get-trim_histories now b.window put (key_of p) (note_value now p.value entries)
        (get-put_self b.param_history (key_of p) (note_value now p.value entries))
    ∙ ap (λ l. some (trim_history now b.window l)) noted
    ∙ ap (λ l. some (or_last l (last (entries ++ (e ∷ [])))))
        (filter-old now b.window entries e old refl)
    ∙ unfold or_last in refl

-- A fast parameter whose values are all older than the window, and which then comes with another
-- value as the only one of a snapshot, is left with the new value alone: the payload gives it as the
-- initial value, and no change.
pub change_forgotten :
    (is_fast : String → Bool) (now : ℕ) (b : DiagnosticBuffer) (snapshot : AgentSnapshot)
    (p : Param) (entries : List Entry)
    → (p.name == "") ≡ false
    → is_fast p.name ≡ true
    → snapshot.parameters ≡ p ∷ []
    → Dict.get b.param_history (key_of p) ≡ some entries
    → All (λ e. e.at + b.window < now) entries
    → is_value (last entries) p.value ≡ false
    → let history : List Entry =
        history_of (Dict.get (append_at is_fast now b snapshot).param_history (key_of p)) in
      (initial_of (key_of p) history ≡ record { key = key_of p; value = p.value } ∷ [])
      × (changes_of (key_of p) history ≡ [])
unfolding initial_of changes_of changes_from history_of
change_forgotten is_fast now b snapshot p entries named fast only held old new =
    let left = only_new is_fast now b snapshot p entries named fast only held old new in
    (
      ap (λ h. initial_of (key_of p) (history_of h)) left,
      ap (λ h. changes_of (key_of p) (history_of h)) left,
    )
