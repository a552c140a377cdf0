-- ===== src/Proxy/Tunnel/Percentile.antt =====
-- What a percentile of the samples says (_percentile of vci_proxy/tunnel_quality.py).
use gds2_automation.Base.{
  ℕ, ◌*◌, ◌≤◌, ◌<◌, ◌≡◌, ◌⊎◌, List, leb, ltb, ◌==◌, nat_eq, length, count_if,
}

-- The nearest rank of a share, in hundredths: one of the values, such that at least the share of
-- them are no greater, and less than the share, or none, are smaller.
abbrev pub IsRank : List ℕ → ℕ → ℕ → Type 0
IsRank values hundredths p =
    (0 < count_if (λ x. x == p) values)
    × (length values * hundredths ≤ 100 * count_if (λ x. leb x p) values)
    × ((count_if (λ x. ltb x p) values ≡ 0)
        ⊎ (100 * count_if (λ x. ltb x p) values < length values * hundredths))
