-- ===== src/Proxy/Tunnel/Calls.antt =====
-- What holds of a tracker after any calls (TunnelQualityTracker of vci_proxy/tunnel_quality.py).
use gds2_automation.Base.{
  ℕ, ◌+◌, ◌-◌, ◌≤◌, ◌<◌, String, Option, List, [], ◌∷◌, ◌++◌, leb, arith, length, length-append,
  length-drop, Bool-cases, inl, inr,
}
use gds2_automation.Proxy.Tunnel.{
  TunnelQualityTracker, Grade, init, mark_connected, mark_disconnected, record_probe,
  record_probe_failure, forget_samples, sampled, desired_grade, apply_soft_grade, judge, settle,
  push,
}

pub data Call : Type 0 where
  connected : String → ℕ → Call
  disconnected : Option String → ℕ → Call
  probed : ℕ → ℕ → Call
  failed : ℕ → String → Call

unfoldable pub call : TunnelQualityTracker → Call → TunnelQualityTracker
call t (connected epoch ts) = mark_connected t epoch ts
call t (disconnected epoch ts) = mark_disconnected t epoch ts
call t (probed network ts) = record_probe t network ts
call t (failed ts reason) = record_probe_failure t ts reason

unfoldable pub calls : TunnelQualityTracker → List Call → TunnelQualityTracker
calls t [] = t
calls t (c ∷ cs) = calls (call t c) cs

-- The window is not overfull, and the candidate would have been reported at the threshold.
abbrev pub IsConsistent : TunnelQualityTracker → Type 0
IsConsistent t = (length t.samples ≤ t.window_size) × (t.candidate_count < t.hysteresis_windows)

length-push : (n : ℕ) (xs : List ℕ) (x : ℕ) → length xs ≤ n → length (push n xs x) ≤ n
unfolding push
length-push n xs x h =
    omega (arith, length-drop (length xs + 1 - n) (xs ++ (x ∷ [])), length-append xs (x ∷ []))

apply-IsConsistent :
    (t : TunnelQualityTracker) (g : Grade) → IsConsistent t → IsConsistent (apply_soft_grade t g)
unfolding apply_soft_grade judge settle
apply-IsConsistent t g (a, b) = ground arith

probe-IsConsistent :
    (t : TunnelQualityTracker) (network ts : ℕ)
    → IsConsistent t
    → IsConsistent (record_probe t network ts)
unfolding record_probe
probe-IsConsistent t network ts (a, b) =
    let t' : TunnelQualityTracker = sampled t network ts in
    let c : IsConsistent t' =
      unfold sampled in (length-push t.window_size t.samples network a, b) in
    elim (Bool-cases (leb t'.window_size (length t'.samples))) [
      | inl full ↦ rw full (apply-IsConsistent t' (desired_grade t') c)
      | inr room ↦ rw room c
    ]

call-IsConsistent : (t : TunnelQualityTracker) (c : Call) → IsConsistent t → IsConsistent (call t c)
unfolding call mark_connected mark_disconnected record_probe_failure forget_samples
call-IsConsistent t (connected epoch ts) (a, b) = ground arith
call-IsConsistent t (disconnected epoch ts) (a, b) = ground arith
call-IsConsistent t (probed network ts) h = probe-IsConsistent t network ts h
call-IsConsistent t (failed ts reason) h = h

calls-IsConsistent_from :
    (t : TunnelQualityTracker) (cs : List Call) → IsConsistent t → IsConsistent (calls t cs)
unfolding calls
calls-IsConsistent_from t [] h = h
calls-IsConsistent_from t (c ∷ cs) h =
    calls-IsConsistent_from (call t c) cs (call-IsConsistent t c h)

-- After any calls on a new tracker with a positive threshold, its window holds at most as many
-- samples as it was made for, and the count of the candidate grade is below the threshold.
pub calls-IsConsistent :
    (window_size freshness hysteresis_windows : ℕ) (cs : List Call)
    → 0 < hysteresis_windows
    → IsConsistent (calls (init window_size freshness hysteresis_windows) cs)
unfolding init
calls-IsConsistent window_size freshness hysteresis_windows cs h =
    calls-IsConsistent_from (init window_size freshness hysteresis_windows) cs (omega arith, h)
