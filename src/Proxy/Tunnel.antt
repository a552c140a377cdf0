-- ===== src/Proxy/Tunnel.antt =====
-- The quality of the tunnel by its probes (TunnelQualityTracker of vci_proxy/tunnel_quality.py).
-- Round trips are in thousandths of a millisecond and times in milliseconds.
pub mod Calls
pub mod Earned
pub mod Hysteresis
pub mod Percentile
pub mod Usable
mod Tests
use gds2_automation.Base.{
  ℕ, zero, suc, ◌+◌, ◌-◌, ◌*◌, ◌/◌, ◌≤◌, min, String, Bool, true, false, not, ◌&&◌, Option, none,
  some, List, [], ◌∷◌, ◌++◌, ltb, leb, ◌==◌, nat_eq, string_eq, if◌then◌else◌, length, drop, sort,
  get_elem?,
}

abbrev pub default_window_size : ℕ
default_window_size = 5

abbrev pub default_freshness_ms : ℕ
default_freshness_ms = 10_000

abbrev pub default_hysteresis_windows : ℕ
default_hysteresis_windows = 2

pub data Grade : Type 0 where
  good warn block : Grade

unfoldable pub same_grade : Grade → Grade → Bool
same_grade good good = true
same_grade warn warn = true
same_grade block block = true
same_grade _ _ = false

unfoldable pub is_candidate : Option Grade → Grade → Bool
is_candidate none g = false
is_candidate (some c) g = same_grade g c

-- max(0, min(n - 1, ceil(n * ratio) - 1)), with the ratio in hundredths.
unfoldable pub percentile_index : ℕ → ℕ → ℕ
percentile_index n hundredths = min (n - 1) ((n * hundredths + 99) / 100 - 1)

-- `_percentile`; an empty window has none.
unfoldable pub percentile : List ℕ → ℕ → Option ℕ
percentile values hundredths =
    get_elem? (sort leb values) (percentile_index (length values) hundredths)

-- A deque of a maximal length drops its oldest items.
unfoldable pub push : ℕ → List ℕ → ℕ → List ℕ
push max_length xs x = drop (length xs + 1 - max_length) (xs ++ (x ∷ []))

pub record TunnelQualityTracker : Type 0 where
  pub window_size : ℕ
  pub freshness : ℕ
  pub hysteresis_windows : ℕ
  pub connection_epoch : Option String
  pub connected : Bool
  pub probe_failures : ℕ
  pub samples : List ℕ
  pub updated_at : Option ℕ
  pub soft_grade : Grade
  pub soft_reason : String
  pub candidate_grade : Option Grade
  pub candidate_count : ℕ

unfoldable pub init : ℕ → ℕ → ℕ → TunnelQualityTracker
init window_size freshness hysteresis_windows = record {
  window_size = window_size;
  freshness = freshness;
  hysteresis_windows = hysteresis_windows;
  connection_epoch = none;
  connected = false;
  probe_failures = 0;
  samples = [];
  updated_at = none;
  soft_grade = block;
  soft_reason = "awaiting_hysteresis";
  candidate_grade = none;
  candidate_count = 0;
}

unfoldable pub status_for_grade : Grade → String
status_for_grade good = "healthy"
status_for_grade warn = "degraded"
status_for_grade block = "blocked"

unfoldable pub reason_for_grade : Grade → String
reason_for_grade good = "p95 within good threshold"
reason_for_grade warn = "p95 above good threshold"
reason_for_grade block = "p95 above warn threshold"

unfoldable pub same_epoch : Option String → String → Bool
same_epoch none epoch = false
same_epoch (some e) epoch = e == epoch

-- What another epoch resets.
unfoldable pub forget_samples : String → TunnelQualityTracker → TunnelQualityTracker
forget_samples reason t = record t {
  samples = [];
  soft_grade = block;
  soft_reason = reason;
  candidate_grade = none;
  candidate_count = 0;
}

unfoldable pub mark_connected : TunnelQualityTracker → String → ℕ → TunnelQualityTracker
mark_connected t connection_epoch ts =
    let t' =
      if same_epoch t.connection_epoch connection_epoch
      then t
      else forget_samples "awaiting_hysteresis" t in
    record t' {
      connection_epoch = some connection_epoch;
      connected = true;
      probe_failures = 0;
      updated_at = some ts;
    }

-- `connection_epoch or self.connection_epoch`
unfoldable pub epoch_or : Option String → Option String → Option String
epoch_or none old = old
epoch_or (some e) old = if e == "" then old else some e

unfoldable pub mark_disconnected : TunnelQualityTracker → Option String → ℕ → TunnelQualityTracker
mark_disconnected t connection_epoch ts = record (forget_samples "tunnel_disconnected" t) {
  connection_epoch = epoch_or connection_epoch t.connection_epoch;
  connected = false;
  probe_failures = 0;
  updated_at = some ts;
}

unfoldable pub grade_of : Option ℕ → Grade
grade_of none = block
grade_of (some p95) = if leb p95 80_000 then good else if leb p95 150_000 then warn else block

unfoldable pub desired_grade : TunnelQualityTracker → Grade
desired_grade t = grade_of (percentile t.samples 95)

unfoldable pub is_block : Grade → Bool
is_block block = true
is_block _ = false

unfoldable pub settle : TunnelQualityTracker → Grade → TunnelQualityTracker
settle t g = record t {
  soft_grade = g;
  soft_reason = reason_for_grade g;
  candidate_grade = none;
  candidate_count = 0;
}

-- The end of `_apply_soft_grade`, behind the count of the candidate.
unfoldable pub judge : TunnelQualityTracker → Grade → TunnelQualityTracker
judge t g =
    if leb t.hysteresis_windows t.candidate_count
    then settle t g
    else if is_block t.soft_grade
    then record t { soft_reason = "awaiting_hysteresis" }
    else t

unfoldable pub apply_soft_grade : TunnelQualityTracker → Grade → TunnelQualityTracker
apply_soft_grade t g =
    if same_grade g t.soft_grade
    then record t { candidate_grade = none; candidate_count = 0; soft_reason = reason_for_grade g }
    else if is_candidate t.candidate_grade g
    then judge (record t { candidate_count = t.candidate_count + 1 }) g
    else judge (record t { candidate_grade = some g; candidate_count = 1 }) g

unfoldable pub sampled : TunnelQualityTracker → ℕ → ℕ → TunnelQualityTracker
sampled t network ts = record t {
  connected = true;
  probe_failures = 0;
  updated_at = some ts;
  samples = push t.window_size t.samples network;
}

unfoldable pub record_probe : TunnelQualityTracker → ℕ → ℕ → TunnelQualityTracker
record_probe t network ts =
    let t' = sampled t network ts in
    if leb t'.window_size (length t'.samples) then apply_soft_grade t' (desired_grade t') else t'

unfoldable pub record_probe_failure : TunnelQualityTracker → ℕ → String → TunnelQualityTracker
record_probe_failure t ts reason = record t {
  probe_failures = t.probe_failures + 1;
  updated_at = some ts;
  soft_reason = reason;
}

pub record Snapshot : Type 0 where
  pub connection_epoch : Option String
  pub connected : Bool
  pub fresh : Bool
  pub updated_at : Option ℕ
  pub sample_count : ℕ
  pub last : Option ℕ
  pub p50 : Option ℕ
  pub p95 : Option ℕ
  pub grade : Grade
  pub status : String
  pub reason : String
  pub probe_failures : ℕ

unfoldable pub is_recent : ℕ → ℕ → Option ℕ → Bool
is_recent now freshness none = false
is_recent now freshness (some ts) = leb (now - ts) freshness

unfoldable pub is_fresh : TunnelQualityTracker → ℕ → Bool
is_fresh t now = t.connected && is_recent now t.freshness t.updated_at

unfoldable pub is_none : Option ℕ → Bool
is_none none = true
is_none (some ts) = false

unfoldable pub blocked_by : String → Grade × String × String
blocked_by reason = (block, "blocked", reason)

-- The grade, the status and the reason.
unfoldable pub verdict : TunnelQualityTracker → ℕ → Grade × String × String
verdict t now =
    if not t.connected
    then blocked_by "tunnel_disconnected"
    else if is_none t.updated_at
    then blocked_by "no_probe_samples"
    else if not (is_fresh t now)
    then blocked_by "snapshot_stale"
    else if ltb (length t.samples) t.window_size
    then blocked_by "insufficient_samples"
    else if ltb 0 t.probe_failures
    then blocked_by "probe_failures"
    else (t.soft_grade, status_for_grade t.soft_grade, t.soft_reason)

unfoldable pub snapshot : TunnelQualityTracker → ℕ → Snapshot
snapshot t now = record {
  connection_epoch = t.connection_epoch;
  connected = t.connected;
  fresh = is_fresh t now;
  updated_at = t.updated_at;
  sample_count = length t.samples;
  last = get_elem? t.samples (length t.samples - 1);
  p50 = percentile t.samples 50;
  p95 = percentile t.samples 95;
  grade = (verdict t now).0;
  status = (verdict t now).1;
  reason = (verdict t now).2;
  probe_failures = t.probe_failures;
}
