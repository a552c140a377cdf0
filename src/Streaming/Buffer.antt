-- ===== src/Streaming/Buffer.antt =====
-- The window of sampled parameters (DiagnosticBuffer of src/streaming/diagnostic_buffer.py). Times are
-- whole milliseconds. Where the code keeps a time relative to the first snapshot, the model keeps the
-- time itself: the code compares only two times that are relative to the same one.
pub mod Histories
pub mod Latest
pub mod Payload
use gds2_automation.Base.{
  ℕ, ◌+◌, ◌-◌, ◌≤◌, String, Bool, true, false, not, ◌||◌, Option, none, some, List, [], ◌∷◌, ◌++◌,
  map, filter, ltb, leb, ◌==◌, string_eq, if◌then◌else◌,
}
use gds2_automation.Base.Dict.{Dict}
use gds2_automation.Base.Dict
use Prim.Native.String.{◌++◌ as text_append}

abbrev pub large_gap_threshold_ms : ℕ
large_gap_threshold_ms = 2000

pub record Param : Type 0 where
  pub name : String
  pub unit : String
  pub value : String

pub record AgentSnapshot : Type 0 where
  pub parameters : List Param
  pub dtcs : List String
  pub agent_timestamp : Option ℕ
  pub collected_at : Option ℕ
  pub collector_lag : Option ℕ

pub record Entry : Type 0 where
  pub at : ℕ
  pub value : String

pub record Stored : Type 0 where
  pub ts : ℕ
  pub parameters : List Param

pub record GapSegment : Type 0 where
  pub start_t : ℕ
  pub end_t : ℕ
  pub duration : ℕ

pub record DiagnosticBuffer : Type 0 where
  pub window : ℕ
  pub snapshots : List Stored
  pub last_slow_write : Dict String ℕ
  pub param_history : Dict String (List Entry)
  pub start_time : Option ℕ
  pub latest_dtcs : List String
  pub snapshot_count : ℕ
  pub sample_times : List ℕ
  pub sample_gaps : List ℕ
  pub collector_lags : List ℕ
  pub stale_snapshot_count : ℕ
  pub gap_segments : List GapSegment

unfoldable pub init : ℕ → DiagnosticBuffer
init window = record {
  window = window;
  snapshots = [];
  last_slow_write = [];
  param_history = [];
  start_time = none;
  latest_dtcs = [];
  snapshot_count = 0;
  sample_times = [];
  sample_gaps = [];
  collector_lags = [];
  stale_snapshot_count = 0;
  gap_segments = [];
}

unfoldable pub clear : DiagnosticBuffer → DiagnosticBuffer
clear b = init b.window

unfoldable pub or_else : Option ℕ → ℕ → ℕ
or_else none t = t
or_else (some s) t = s

-- The agent's time before the collector's, and that before the clock.
unfoldable pub resolve_snapshot_time : ℕ → AgentSnapshot → ℕ
resolve_snapshot_time clock snapshot =
    or_else snapshot.agent_timestamp (or_else snapshot.collected_at clock)

unfoldable pub last : {A : Type 0} → List A → Option A
last [] = none
last (x ∷ []) = some x
last (x ∷ y ∷ xs) = last (y ∷ xs)

unfoldable pub is_value : Option Entry → String → Bool
is_value none value = false
is_value (some e) value = e.value == value

-- A value is recorded where it is the first or has changed.
unfoldable pub note_value : ℕ → String → List Entry → List Entry
note_value now value history =
    if is_value (last history) value
    then history
    else history ++ (record { at = now; value = value } ∷ [])

unfoldable pub history_of : Option (List Entry) → List Entry
history_of none = []
history_of (some history) = history

unfoldable pub key_of : Param → String
key_of p = text_append p.name (text_append "|" p.unit)

-- What going through the parameters of a snapshot leaves.
pub record Sampling : Type 0 where
  pub slow_writes : Dict String ℕ
  pub histories : Dict String (List Entry)
  pub sampled : List Param

unfoldable pub sample : ℕ → Sampling → Param → Sampling
sample now st p = record st {
  sampled = st.sampled ++ (p ∷ []);
  histories =
      Dict.put st.histories (key_of p)
        (note_value now p.value (history_of (Dict.get st.histories (key_of p))));
}

-- A slow parameter within 0.9 seconds of its last write is passed over.
unfoldable pub is_too_soon : ℕ → Option ℕ → Bool
is_too_soon now last_write = ltb now (or_else last_write 0 + 900)

-- An out-of-range gap of the clock is no gap.
unfoldable pub note_gap : ℕ → DiagnosticBuffer → Option ℕ → DiagnosticBuffer
note_gap now b none = b
note_gap now b (some before) =
    let gap : ℕ = now - before in
    record b {
      sample_gaps = b.sample_gaps ++ (gap ∷ []);
      gap_segments =
          if ltb large_gap_threshold_ms gap
          then b.gap_segments ++ (record { start_t = now - gap; end_t = now; duration = gap } ∷ [])
          else b.gap_segments;
    }

unfoldable pub note_lag : List ℕ → Option ℕ → List ℕ
note_lag lags none = lags
note_lag lags (some lag) = lags ++ (lag ∷ [])

unfoldable pub in_window : ℕ → ℕ → ℕ → Bool
in_window now window at = leb now (at + window)

unfoldable pub or_last : List Entry → Option Entry → List Entry
or_last [] none = []
or_last [] (some e) = e ∷ []
or_last (e ∷ es) newest = e ∷ es

-- The entries within the window, or the last one where there is none.
unfoldable pub trim_history : ℕ → ℕ → List Entry → List Entry
trim_history now window entries =
    or_last (filter (λ e. in_window now window e.at) entries) (last entries)

unfoldable pub trim_histories : ℕ → ℕ → Dict String (List Entry) → Dict String (List Entry)
trim_histories now window [] = []
trim_histories now window ((key, entries) ∷ d) =
    (key, trim_history now window entries) ∷ trim_histories now window d

unfoldable pub is_empty : List Param → Bool
is_empty [] = true
is_empty (p ∷ ps) = false

unfoldable pub started_at : ℕ → Option ℕ → Option ℕ
started_at now none = some now
started_at now (some t) = some t

-- `is_fast` is _is_fast_parameter, a test on the name alone.
module _ (is_fast : String → Bool) where
  unfoldable pub take_param : ℕ → Sampling → Param → Sampling
  take_param now st p =
      if p.name == ""
      then st
      else if is_fast p.name
      then sample now st p
      else if is_too_soon now (Dict.get st.slow_writes (key_of p))
      then st
      else sample now (record st { slow_writes = Dict.put st.slow_writes (key_of p) now }) p

  unfoldable pub take_params : ℕ → Sampling → List Param → Sampling
  take_params now st [] = st
  take_params now st (p ∷ ps) = take_params now (take_param now st p) ps

  unfoldable pub store_sampling : ℕ → AgentSnapshot → DiagnosticBuffer → Sampling → DiagnosticBuffer
  store_sampling now snapshot b st = record b {
    start_time = started_at now b.start_time;
    sample_times = b.sample_times ++ (now ∷ []);
    collector_lags = note_lag b.collector_lags snapshot.collector_lag;
    latest_dtcs = snapshot.dtcs;
    last_slow_write = st.slow_writes;
    stale_snapshot_count =
        if is_empty st.sampled then b.stale_snapshot_count + 1 else b.stale_snapshot_count;
    snapshots =
        filter (λ s. in_window now b.window s.ts)
          (b.snapshots ++ (record { ts = now; parameters = st.sampled } ∷ []));
    param_history = trim_histories now b.window st.histories;
    snapshot_count = b.snapshot_count + 1;
  }

  unfoldable pub append_at : ℕ → DiagnosticBuffer → AgentSnapshot → DiagnosticBuffer
  append_at now b snapshot = store_sampling now snapshot (note_gap now b (last b.sample_times)) (
      take_params now
        (record { slow_writes = b.last_slow_write; histories = b.param_history; sampled = [] })
        snapshot.parameters)

  unfoldable pub append_snapshot : ℕ → DiagnosticBuffer → AgentSnapshot → DiagnosticBuffer
  append_snapshot clock b snapshot = append_at (resolve_snapshot_time clock snapshot) b snapshot
