-- ===== src/Proxy/Tunnel/Usable.antt =====
-- When a snapshot shows a usable grade (snapshot of vci_proxy/tunnel_quality.py).
use gds2_automation.Base.{
  String, ℕ, ◌+◌, ◌-◌, ◌≤◌, ◌≡◌, refl, sym, ap, subst, ◌∙◌, Bool, true, false, not, inl, inr, some,
  none, List, ltb, arith, if◌then◌else◌, length,
}
use gds2_automation.Proxy.Tunnel.{
  TunnelQualityTracker, Grade, block, init, is_block, snapshot, verdict, blocked_by, is_none,
  status_for_grade, is_fresh, is_recent, mark_connected, mark_disconnected, record_probe,
  record_probe_failure, sampled, apply_soft_grade, judge, settle, forget_samples,
}
use gds2_automation.Proxy.Tunnel.Calls.{Call, connected, disconnected, probed, failed, call, calls}
use gds2_automation.Proxy.Tunnel.Earned.{counted, tally, Earned, new-Earned}

-- The verdict by its five guards.
abbrev guarded :
    Bool → Bool → Bool → Bool → Bool → Grade × String × String → Grade × String × String
guarded off empty stale short refused v =
    if off
    then blocked_by "tunnel_disconnected"
    else if empty
    then blocked_by "no_probe_samples"
    else if stale
    then blocked_by "snapshot_stale"
    else if short
    then blocked_by "insufficient_samples"
    else if refused
    then blocked_by "probe_failures"
    else v

unguarded :
    (off empty stale short refused : Bool) (v : Grade × String × String)
    → is_block (guarded off empty stale short refused v).0 ≡ false
    → (off ≡ false)
      × (stale ≡ false)
      × (short ≡ false)
      × (refused ≡ false)
      × (guarded off empty stale short refused v ≡ v)
unfolding blocked_by is_block
unguarded true empty stale short refused v h = cc
unguarded false true stale short refused v h = cc
unguarded false false true short refused v h = cc
unguarded false false false true refused v h = cc
unguarded false false false false true v h = cc
unguarded false false false false false v h = (refl, refl, refl, refl, refl)

verdict_guards :
    (t : TunnelQualityTracker) (now : ℕ)
    → is_block (snapshot t now).grade ≡ false
    → (t.connected ≡ true)
      × (is_fresh t now ≡ true)
      × (t.window_size ≤ length t.samples)
      × (t.probe_failures ≡ 0)
      × ((snapshot t now).grade ≡ t.soft_grade)
unfolding snapshot verdict
verdict_guards t now h =
    let (on, fresh, full, passed, same) =
      unguarded (not t.connected) (is_none t.updated_at) (not (is_fresh t now))
        (ltb (length t.samples) t.window_size) (ltb 0 t.probe_failures)
        (t.soft_grade, status_for_grade t.soft_grade, t.soft_reason) h in
    (
      ground (arith, on),
      ground (arith, fresh),
      ground (arith, full),
      ground (arith, passed),
      ap (λ v. v.0) same,
    )

-- The call is a connection or a successful probe, no longer ago than the freshness.
abbrev pub IsRecentSuccess : ℕ → ℕ → Call → Type 0
IsRecentSuccess freshness now (connected epoch ts) = now - ts ≤ freshness
IsRecentSuccess freshness now (disconnected epoch ts) = ⊥
IsRecentSuccess freshness now (probed network ts) = now - ts ≤ freshness
IsRecentSuccess freshness now (failed ts reason) = ⊥

probe-time :
    (t : TunnelQualityTracker) (network ts : ℕ)
    → ((record_probe t network ts).updated_at ≡ some ts)
      × ((record_probe t network ts).freshness ≡ t.freshness)
unfolding record_probe sampled apply_soft_grade judge settle
probe-time t network ts = ground arith

recent_call :
    (t : TunnelQualityTracker) (c : Call) (now : ℕ)
    → (call t c).connected ≡ true
    → is_fresh (call t c) now ≡ true
    → (call t c).probe_failures ≡ 0
    → IsRecentSuccess (call t c).freshness now c
unfolding call is_fresh is_recent mark_connected mark_disconnected record_probe_failure
    forget_samples
recent_call t (connected epoch ts) now on fresh passed = ground arith
recent_call t (disconnected epoch ts) now on fresh passed = cc
recent_call t (probed network ts) now on fresh passed = ground (arith, probe-time t network ts)
recent_call t (failed ts reason) now on fresh passed = absurd (omega arith)

-- After any calls on a new tracker, a snapshot shows a usable grade only where the last call was a
-- connection or a successful probe, no longer ago than the freshness, and where the connection, since
-- its epoch began, has had at least as many successful probes as fill the window and then let the
-- threshold be reached: the size of the window and the threshold together, less one.
pub usable_snapshot :
    (window_size freshness hysteresis_windows now : ℕ) (cs : List Call) (c : Call)
    → is_block
        (snapshot (call (calls (init window_size freshness hysteresis_windows) cs) c) now).grade
      ≡ false
    → IsRecentSuccess freshness now c
      × (window_size + hysteresis_windows ≤ (counted (tally (none, 0) cs) c).1 + 1)
unfolding Earned
usable_snapshot window_size freshness hysteresis_windows now cs c usable =
    let t : TunnelQualityTracker = calls (init window_size freshness hysteresis_windows) cs in
    let (on, fresh, full, passed, same) = verdict_guards (call t c) now usable in
    let (epoch, window, limit, threshold, few, candidate, earned) =
      new-Earned window_size freshness hysteresis_windows cs c in
    (
      subst (λ f. IsRecentSuccess f now c) limit (recent_call t c now on fresh passed),
      elim earned [
        | inr enough ↦ enough
        | inl blocked ↦
            let no_grade : is_block block ≡ false =
              ap is_block (sym blocked) ∙ (ap is_block (sym same) ∙ usable) in
            absurd (unfold is_block in cc)
      ],
    )
