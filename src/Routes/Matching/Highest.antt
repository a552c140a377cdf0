-- ===== src/Routes/Matching/Highest.antt =====
-- The match of a snapshot is the highest one (match_snapshot_to_node_details of
-- backends/gds2/route_graph.py).
use gds2_automation.Base.{
  ℕ, ◌≤◌, String, Option, none, some, [], ◌∷◌, ltb, ◌≡◌, ◌⊎◌, refl, sym, ap, ◌∙◌, inl, inr, All,
  arith, Bool-cases, string_eq,
}
use gds2_automation.Base.Dict.{Dict}
use gds2_automation.Routes.Graph.{Node, Graph}
use gds2_automation.Routes.Matching.{
  Snapshot, Match, node_match, better_match, best_match, match_snapshot_to_node_details,
}

module _ (strip : String → String) where
  -- The match of one of the nodes.
  unfoldable pub IsAmong : Snapshot → Match → Dict String Node → Type 0
  IsAmong s m [] = ⊥
  IsAmong s m (x ∷ nodes) = (node_match strip s x ≡ some m) ⊎ IsAmong s m nodes

  unfoldable pub IsAtMost : ℕ → Option Match → Type 0
  IsAtMost score none = Unit {0}
  IsAtMost score (some m) = m.score ≤ score

  unfoldable pub IsBest : Snapshot → Dict String Node → Option Match → Type 0
  IsBest s nodes none = All (λ x. node_match strip s x ≡ none) nodes
  IsBest s nodes (some m) =
      IsAmong s m nodes × All (λ x. IsAtMost m.score (node_match strip s x)) nodes

  -- The same from a best match so far.
  Goes : Snapshot → Dict String Node → Match → Option Match → Type 0
  Goes s nodes b none = ⊥
  Goes s nodes b (some m) =
      ((m ≡ b) ⊎ IsAmong s m nodes)
      × (b.score ≤ m.score)
      × All (λ x. IsAtMost m.score (node_match strip s x)) nodes

  Goes-cons :
      (s : Snapshot) (x : String × Node) (nodes : Dict String Node) (b b' : Match)
      (r : Option Match)
      → (b' ≡ b) ⊎ (node_match strip s x ≡ some b')
      → b.score ≤ b'.score
      → IsAtMost b'.score (node_match strip s x)
      → Goes s nodes b' r
      → Goes s (x ∷ nodes) b r
  unfolding Goes IsAmong
  Goes-cons s x nodes b b' none from le most goes = goes
  Goes-cons s x nodes b b' (some m) from le most (at, le', all) =
      (origin from at, omega arith, (lower (node_match strip s x) most, all))
    where
      origin :
          (b' ≡ b) ⊎ (node_match strip s x ≡ some b')
          → (m ≡ b') ⊎ IsAmong s m nodes
          → (m ≡ b) ⊎ ((node_match strip s x ≡ some m) ⊎ IsAmong s m nodes)
      origin from (inr later) = inr (inr later)
      origin (inl kept) (inl same) = inl (same ∙ kept)
      origin (inr new) (inl same) = inr (inl (new ∙ ap (λ y. some y) (sym same)))

      lower : (o : Option Match) → IsAtMost b'.score o → IsAtMost m.score o
      lower none h = unfold IsAtMost in tt
      lower (some o) h =
          let h' : o.score ≤ b'.score = (unfold IsAtMost in h) in
          unfold IsAtMost in omega (arith, le', h')

  goes :
      (s : Snapshot) (nodes : Dict String Node) (b : Match)
      → Goes s nodes b (best_match strip s nodes (some b))
  unfolding best_match better_match
  goes s [] b = unfold Goes in (inl refl, omega arith, tt)
  goes s (x ∷ nodes) b = step (node_match strip s x) refl (goes s nodes b) (λ m. goes s nodes m)
    where
      step :
          (o : Option Match)
          → node_match strip s x ≡ o
          → Goes s nodes b (best_match strip s nodes (some b))
          → ((m : Match) → Goes s nodes m (best_match strip s nodes (some m)))
          → Goes s (x ∷ nodes) b (best_match strip s nodes (better_match strip (some b) o))
      step none at kept new =
          Goes-cons s x nodes b b _ (inl refl) (omega arith) (rw at (unfold IsAtMost in tt)) kept
      step (some m) at kept new = elim (Bool-cases (ltb b.score m.score)) [
        | inl higher ↦ rw higher (
            Goes-cons s x nodes b m _ (inr at) (ground (arith, higher))
              (rw at (unfold IsAtMost in omega arith)) (new m))
        | inr lower ↦ rw lower (
            Goes-cons s x nodes b b _ (inl refl) (omega arith)
              (rw at (unfold IsAtMost in ground (arith, lower))) kept)
      ]

  Goes-IsBest :
      (s : Snapshot) (x : String × Node) (nodes : Dict String Node) (m : Match) (r : Option Match)
      → node_match strip s x ≡ some m
      → Goes s nodes m r
      → IsBest s (x ∷ nodes) r
  unfolding Goes IsBest IsAmong
  Goes-IsBest s x nodes m none at goes = absurd goes
  Goes-IsBest s x nodes m (some r) at (from, le, all) =
      (origin from, (rw at (unfold IsAtMost in le), all))
    where
      origin : (r ≡ m) ⊎ IsAmong s r nodes → (node_match strip s x ≡ some r) ⊎ IsAmong s r nodes
      origin (inl same) = inl (at ∙ ap (λ y. some y) (sym same))
      origin (inr later) = inr later

  IsBest-cons :
      (s : Snapshot) (x : String × Node) (nodes : Dict String Node) (r : Option Match)
      → node_match strip s x ≡ none
      → IsBest s nodes r
      → IsBest s (x ∷ nodes) r
  unfolding IsBest IsAmong
  IsBest-cons s x nodes none at all = (at, all)
  IsBest-cons s x nodes (some m) at (among, all) = (inr among, (rw at (unfold IsAtMost in tt), all))

  best : (s : Snapshot) (nodes : Dict String Node) → IsBest s nodes (best_match strip s nodes none)
  unfolding best_match better_match
  best s [] = unfold IsBest in tt
  best s (x ∷ nodes) = step (node_match strip s x) refl (best s nodes)
    where
      step :
          (o : Option Match)
          → node_match strip s x ≡ o
          → IsBest s nodes (best_match strip s nodes none)
          → IsBest s (x ∷ nodes) (best_match strip s nodes (better_match strip none o))
      step none at later = IsBest-cons s x nodes _ at later
      step (some m) at later = Goes-IsBest s x nodes m _ at (goes s nodes m)

-- The match of a snapshot is none exactly where no node's page matches, and else that of a node whose
-- page does, with a score that no other such node exceeds.
pub match_snapshot-IsBest :
    (strip : String → String) (graph : Graph) (s : Snapshot)
    → IsBest strip s graph.nodes (match_snapshot_to_node_details strip graph s)
unfolding match_snapshot_to_node_details
match_snapshot-IsBest strip graph s = best strip s graph.nodes
