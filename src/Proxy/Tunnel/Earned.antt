-- ===== src/Proxy/Tunnel/Earned.antt =====
-- How many probes a usable grade takes (_apply_soft_grade and snapshot of
-- vci_proxy/tunnel_quality.py).
use gds2_automation.Base.{
  ℕ, ◌+◌, ◌-◌, ◌≤◌, ◌≡◌, ◌⊎◌, inl, inr, refl, ap, String, Option, none, some, List, [], ◌∷◌, ◌++◌,
  leb, ◌==◌, string_eq, if◌then◌else◌, arith, length, length-append, length-drop, Bool-cases,
}
use gds2_automation.Proxy.Tunnel.{
  TunnelQualityTracker, Grade, block, init, mark_connected, mark_disconnected, record_probe,
  record_probe_failure, forget_samples, sampled, desired_grade, apply_soft_grade, judge, settle,
  push, same_epoch, epoch_or,
}
use gds2_automation.Proxy.Tunnel.Calls.{Call, connected, disconnected, probed, failed, call, calls}

-- The epoch and the number of successful probes of the connection, by the calls: a connection under
-- another epoch and a disconnection start it anew.
abbrev pub Tally : Type 0
Tally = Option String × ℕ

unfoldable pub counted : Tally → Call → Tally
counted (none, n) (connected e ts) = (some e, 0)
counted (some d, n) (connected e ts) = (some e, if d == e then n else 0)
counted (d, n) (disconnected none ts) = (d, 0)
counted (d, n) (disconnected (some e) ts) = (if e == "" then d else some e, 0)
counted (d, n) (probed network ts) = (d, n + 1)
counted (d, n) (failed ts reason) = (d, n)

unfoldable pub tally : Tally → List Call → Tally
tally s [] = s
tally s (c ∷ cs) = tally (counted s c) cs

module _ (window_size freshness hysteresis_windows : ℕ) where
  -- The tracker has the sizes it was made with, no more samples than probes, and a candidate or a
  -- usable grade only after the probes that these take.
  unfoldable pub Earned : Tally → TunnelQualityTracker → Type 0
  Earned (epoch, n) t =
      (t.connection_epoch ≡ epoch)
      × (t.window_size ≡ window_size)
      × (t.freshness ≡ freshness)
      × (t.hysteresis_windows ≡ hysteresis_windows)
      × (length t.samples ≤ n)
      × ((t.candidate_count ≡ 0) ⊎ (window_size + t.candidate_count ≤ n + 1))
      × ((t.soft_grade ≡ block) ⊎ (window_size + hysteresis_windows ≤ n + 1))

  apply-Earned :
      (epoch : Option String) (n : ℕ) (t : TunnelQualityTracker) (g : Grade)
      → window_size ≤ n + 1
      → t.connection_epoch ≡ epoch
      → t.window_size ≡ window_size
      → t.freshness ≡ freshness
      → t.hysteresis_windows ≡ hysteresis_windows
      → length t.samples ≤ n + 1
      → (t.candidate_count ≡ 0) ⊎ (window_size + t.candidate_count ≤ n + 1)
      → (t.soft_grade ≡ block) ⊎ (window_size + hysteresis_windows ≤ n + 1)
      → Earned (epoch, n + 1) (apply_soft_grade t g)
  unfolding Earned apply_soft_grade judge settle
  apply-Earned epoch n t g full a b c d e f h = ground arith

  length-push_le : (m : ℕ) (xs : List ℕ) (x : ℕ) → length (push m xs x) ≤ length xs + 1
  unfolding push
  length-push_le m xs x =
      omega (arith, length-drop (length xs + 1 - m) (xs ++ (x ∷ [])), length-append xs (x ∷ []))

  probe-Earned :
      (epoch : Option String) (n : ℕ) (t : TunnelQualityTracker) (network ts : ℕ)
      → Earned (epoch, n) t
      → Earned (epoch, n + 1) (record_probe t network ts)
  unfolding Earned record_probe sampled
  probe-Earned epoch n t network ts (a, b, c, d, e, f, h) =
      let t' : TunnelQualityTracker = unfold sampled in sampled t network ts in
      let few : length t'.samples ≤ n + 1 =
        omega (arith, length-push_le t.window_size t.samples network) in
      elim (Bool-cases (leb t'.window_size (length t'.samples))) [
        | inl full ↦ rw full (
            unfold Earned in
            apply-Earned epoch n t' (desired_grade t') (ground (arith, few, full)) a b c d few f h)
        | inr room ↦ rw room (a, b, c, d, few, ground (arith, f), ground (arith, h))
      ]

  call-Earned :
      (s : Tally) (t : TunnelQualityTracker) (c : Call)
      → Earned s t
      → Earned (counted s c) (call t c)
  unfolding call counted Earned mark_connected mark_disconnected record_probe_failure forget_samples
      same_epoch epoch_or
  call-Earned (none, n) t (connected e ts) (a, b, c, d, f, g, h) =
      rw a (refl, b, c, d, omega arith, inl refl, inl refl)
  call-Earned (some d, n) t (connected e ts) (a, b, c, w, f, g, h) = elim (Bool-cases (d == e)) [
    | inl same ↦ rw (a, same) (refl, b, c, w, f, g, h)
    | inr other ↦ rw (a, other) (refl, b, c, w, omega arith, inl refl, inl refl)
  ]
  call-Earned (d, n) t (disconnected none ts) (a, b, c, w, f, g, h) =
      (a, b, c, w, omega arith, inl refl, inl refl)
  call-Earned (d, n) t (disconnected (some e) ts) (a, b, c, w, f, g, h) =
      (ap (λ x. if e == "" then x else some e) a, b, c, w, omega arith, inl refl, inl refl)
  call-Earned (d, n) t (probed network ts) h = probe-Earned d n t network ts (unfold Earned in h)
  call-Earned (d, n) t (failed ts reason) h = h

  calls-Earned :
      (s : Tally) (t : TunnelQualityTracker) (cs : List Call)
      → Earned s t
      → Earned (tally s cs) (calls t cs)
  unfolding calls tally
  calls-Earned s t [] h = h
  calls-Earned s t (c ∷ cs) h = calls-Earned (counted s c) (call t c) cs (call-Earned s t c h)

  pub new-Earned :
      (cs : List Call) (c : Call)
      → Earned
          (counted (tally (none, 0) cs) c)
          (call (calls (init window_size freshness hysteresis_windows) cs) c)
  new-Earned cs c =
      call-Earned (tally (none, 0) cs) (calls (init window_size freshness hysteresis_windows) cs) c
        (calls-Earned (none, 0) (init window_size freshness hysteresis_windows) cs
          (unfold Earned init in (refl, refl, refl, refl, omega arith, inl refl, inl refl)))
