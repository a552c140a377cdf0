-- ===== src/Proxy/Tunnel/Hysteresis.antt =====
-- How many probes change the grade (_apply_soft_grade of vci_proxy/tunnel_quality.py).
use gds2_automation.Base.{
  ℕ, zero, suc, ◌+◌, ◌≤◌, ◌<◌, ◌≡◌, ◌⊎◌, refl, ◌∙◌, true, inl, inr, Bool-cases, some, List, [], ◌∷◌,
  leb, arith, length, replicate,
}
use gds2_automation.Proxy.Tunnel.{
  TunnelQualityTracker, Grade, good, warn, block, same_grade, is_candidate, apply_soft_grade, judge,
  settle,
}

same_grade_self : (g : Grade) → same_grade g g ≡ true
unfolding same_grade
same_grade_self good = refl
same_grade_self warn = refl
same_grade_self block = refl

same_grade-eq : (g c : Grade) → same_grade g c ≡ true → g ≡ c
unfolding same_grade
same_grade-eq good good h = refl
same_grade-eq good warn h = cc
same_grade-eq good block h = cc
same_grade-eq warn good h = cc
same_grade-eq warn warn h = refl
same_grade-eq warn block h = cc
same_grade-eq block good h = cc
same_grade-eq block warn h = cc
same_grade-eq block block h = refl

-- Grades that are desired one after another.
unfoldable pub apply_all : TunnelQualityTracker → List Grade → TunnelQualityTracker
apply_all t [] = t
apply_all t (g ∷ gs) = apply_all (apply_soft_grade t g) gs

-- One grade leaves the reported grade, unless the count of the candidate is one short.
apply_soft_grade-keeps :
    (t : TunnelQualityTracker) (g : Grade)
    → t.candidate_count + 1 < t.hysteresis_windows
    → ((apply_soft_grade t g).soft_grade ≡ t.soft_grade)
      × ((apply_soft_grade t g).candidate_count ≤ t.candidate_count + 1)
      × ((apply_soft_grade t g).hysteresis_windows ≡ t.hysteresis_windows)
unfolding apply_soft_grade judge
apply_soft_grade-keeps t g h = ground arith

-- Fewer desired grades than the candidate lacks leave the reported grade, whatever they are.
pub too_few_to_change :
    (t : TunnelQualityTracker) (gs : List Grade)
    → t.candidate_count + length gs < t.hysteresis_windows
    → (apply_all t gs).soft_grade ≡ t.soft_grade
unfolding apply_all
too_few_to_change t [] h = refl
too_few_to_change t (g ∷ gs) h =
    let (same, count, windows) = apply_soft_grade-keeps t g (omega arith) in
    too_few_to_change (apply_soft_grade t g) gs (omega arith) ∙ same

reported-apply :
    (t : TunnelQualityTracker) (g : Grade)
    → t.soft_grade ≡ g
    → (apply_soft_grade t g).soft_grade ≡ g
unfolding apply_soft_grade judge
reported-apply t g h =
    let same : same_grade g t.soft_grade ≡ true = rw h (same_grade_self g) in ground arith

reported_stays :
    (n : ℕ) (t : TunnelQualityTracker) (g : Grade)
    → t.soft_grade ≡ g
    → (apply_all t (replicate n g)).soft_grade ≡ g
unfolding apply_all
reported_stays zero t g h = h
reported_stays (suc n) t g h = reported_stays n (apply_soft_grade t g) g (reported-apply t g h)

-- What a desired grade leaves: it is reported, or it is the candidate with a count that the
-- threshold is above.
Counts : TunnelQualityTracker → Grade → ℕ → TunnelQualityTracker → Type 0
Counts t g n t' =
    (t'.soft_grade ≡ g)
    ⊎ ((is_candidate t'.candidate_grade g ≡ true)
        × (t'.candidate_count ≡ n)
        × (n < t.hysteresis_windows)
        × (t'.hysteresis_windows ≡ t.hysteresis_windows))

judge-Counts :
    (t u : TunnelQualityTracker) (g : Grade)
    → is_candidate u.candidate_grade g ≡ true
    → u.hysteresis_windows ≡ t.hysteresis_windows
    → Counts t g u.candidate_count (judge u g)
unfolding Counts judge settle
judge-Counts t u g h e = elim (Bool-cases (leb u.hysteresis_windows u.candidate_count)) [
  | inl enough ↦ inl (ground arith)
  | inr more ↦ inr (ground arith)
]

apply-Counts :
    (t : TunnelQualityTracker) (g : Grade)
    → is_candidate t.candidate_grade g ≡ true
    → Counts t g (t.candidate_count + 1) (apply_soft_grade t g)
unfolding apply_soft_grade
apply-Counts t g h = elim (Bool-cases (same_grade g t.soft_grade)) [
  | inl same ↦ unfold Counts in inl (ground (arith, same_grade-eq g t.soft_grade same))
  | inr new ↦
      rw (new, h) (judge-Counts t (record t { candidate_count = t.candidate_count + 1 }) g h refl)
]

apply-Counts_first :
    (t : TunnelQualityTracker) (g : Grade)
    → Counts t g 1 (apply_soft_grade t g) ⊎ (is_candidate t.candidate_grade g ≡ true)
unfolding apply_soft_grade
apply-Counts_first t g = elim (Bool-cases (is_candidate t.candidate_grade g)) [
  | inl old ↦ inr old
  | inr new ↦ elim (Bool-cases (same_grade g t.soft_grade)) [
    | inl same ↦ unfold Counts in inl (inl (ground (arith, same_grade-eq g t.soft_grade same)))
    | inr other ↦ inl (
        rw (other, new)
          (judge-Counts t (record t { candidate_grade = some g; candidate_count = 1 }) g
            (unfold is_candidate in same_grade_self g) refl))
  ]
]

-- The candidate is reported once its count reaches the threshold.
Counted : TunnelQualityTracker → Grade → ℕ → Type 0
Counted t g n =
    is_candidate t.candidate_grade g ≡ true
    → t.candidate_count < t.hysteresis_windows
    → t.hysteresis_windows ≤ t.candidate_count + n
    → (apply_all t (replicate n g)).soft_grade ≡ g

Counts-reported :
    (n k : ℕ) (t t' : TunnelQualityTracker) (g : Grade)
    → Counts t g k t'
    → t.hysteresis_windows ≤ k + n
    → Counted t' g n
    → (apply_all t' (replicate n g)).soft_grade ≡ g
unfolding Counts Counted
Counts-reported n k t t' g (inl reported) le next = reported_stays n t' g reported
Counts-reported n k t t' g (inr (cand, count, more, windows)) le next =
    next cand (omega arith) (omega arith)

candidate_reported : (n : ℕ) (t : TunnelQualityTracker) (g : Grade) → Counted t g n
unfolding apply_all Counted
candidate_reported zero t g h lt le = absurd (omega arith)
candidate_reported (suc n) t g h lt le =
    Counts-reported n (t.candidate_count + 1) t (apply_soft_grade t g) g (apply-Counts t g h)
      (omega arith) (candidate_reported n (apply_soft_grade t g) g)

-- A grade that is desired as many times in a row as the threshold says is the one reported, for a
-- positive threshold and a tracker whose candidate has a count below it.
pub enough_to_change :
    (t : TunnelQualityTracker) (g : Grade) (n : ℕ)
    → t.candidate_count < t.hysteresis_windows
    → t.hysteresis_windows ≤ n
    → (apply_all t (replicate n g)).soft_grade ≡ g
unfolding apply_all
enough_to_change t g zero lt le = absurd (omega arith)
enough_to_change t g (suc n) lt le = elim (apply-Counts_first t g) [
  | inr cand ↦ unfold Counted in candidate_reported (suc n) t g cand lt (omega arith)
  | inl first ↦
      Counts-reported n 1 t (apply_soft_grade t g) g first (omega arith)
        (candidate_reported n (apply_soft_grade t g) g)
]
