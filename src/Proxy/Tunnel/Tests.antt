-- ===== src/Proxy/Tunnel/Tests.antt =====
-- Trackers of the tunnel's quality at concrete inputs (vci_proxy/tunnel_quality.py).
use gds2_automation.Base.{
  ℕ, ◌+◌, ◌≤◌, ◌≡◌, refl, true, false, some, none, List, [], ◌∷◌, replicate, arith, sort, insert,
}
use gds2_automation.Proxy.Tunnel.{
  mark_connected, forget_samples, same_epoch, record_probe, sampled, push, apply_soft_grade, judge,
  settle, desired_grade, grade_of, same_grade, is_candidate, TunnelQualityTracker, good, warn,
  block, init, percentile, percentile_index, snapshot, verdict, is_block, is_fresh, is_recent,
  blocked_by, is_none,
}
use gds2_automation.Proxy.Tunnel.Hysteresis.{apply_all, too_few_to_change, enough_to_change}
use gds2_automation.Proxy.Tunnel.Earned.{counted, tally}
use gds2_automation.Proxy.Tunnel.Usable.{IsRecentSuccess, usable_snapshot}
use gds2_automation.Proxy.Tunnel.Calls.{
  Call, connected, probed, call, calls, IsConsistent, calls-IsConsistent,
}

abbrev round_trips : List ℕ
round_trips = 40_000 ∷ 90_000 ∷ 20_000 ∷ 60_000 ∷ []

third_of_four : percentile round_trips 75 ≡ some 60_000
unfolding percentile percentile_index sort insert
third_of_four = refl

-- A full window, settled as good.
abbrev tracker : TunnelQualityTracker
tracker = record {
  window_size = 2;
  freshness = 10_000;
  hysteresis_windows = 2;
  connection_epoch = some "e";
  connected = true;
  probe_failures = 0;
  samples = 20_000 ∷ 30_000 ∷ [];
  updated_at = some 1000;
  soft_grade = good;
  soft_reason = "p95 within good threshold";
  candidate_grade = none;
  candidate_count = 0;
}

too_few_to_change_example : (apply_all tracker (block ∷ [])).soft_grade ≡ good
too_few_to_change_example = too_few_to_change tracker (block ∷ []) (omega arith)

enough_to_change_example : (apply_all tracker (replicate 2 warn)).soft_grade ≡ warn
enough_to_change_example = enough_to_change tracker warn 2 (omega arith) (omega arith)

abbrev history : List Call
history = connected "e" 0 ∷ probed 20_000 10 ∷ probed 30_000 20 ∷ probed 200_000 30 ∷ []

calls-IsConsistent_example : IsConsistent (calls (init 2 10_000 2) history)
calls-IsConsistent_example = calls-IsConsistent 2 10_000 2 history (omega arith)

abbrev steady : List Call
steady = connected "e" 0 ∷ probed 20_000 10 ∷ probed 30_000 20 ∷ []

steady_is_usable :
    is_block (snapshot (call (calls (init 2 10_000 2) steady) (probed 30_000 30)) 5000).grade
    ≡ false
unfolding snapshot verdict is_fresh is_recent is_block blocked_by is_none init call calls
    mark_connected forget_samples same_epoch record_probe sampled push apply_soft_grade judge settle
    desired_grade grade_of percentile percentile_index sort insert same_grade is_candidate
steady_is_usable = refl

usable_snapshot_example :
    IsRecentSuccess 10_000 5000 (probed 30_000 30)
    × (2 + 2 ≤ (counted (tally (none, 0) steady) (probed 30_000 30)).1 + 1)
usable_snapshot_example = usable_snapshot 2 10_000 2 5000 steady (probed 30_000 30) steady_is_usable
