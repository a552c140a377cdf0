-- ===== src/Routes/Plans/Among.antt =====
-- Plans among the nodes of a list (plan_to_action and plan_to_page of
-- backends/gds2/route_graph.py).
use gds2_automation.Base.{
  ◌≤◌, String, none, some, List, [], ◌∷◌, ◌≡◌, refl, sym, subst, inl, inr, ◌⊎◌, length, All, arith,
  Bool-cases, ltb, string_eq,
}
use gds2_automation.Routes.Graph.{Edge, Graph, IsPath}
use gds2_automation.Routes.Search.{Outcome, returned, find_path}
use gds2_automation.Routes.Search.Reaches.{Decides, find_path-Decides}
use gds2_automation.Routes.Plans.{better, with_path, best_path}

module _ (graph : Graph) (start : String) where
  unfoldable pub Unreachable : String → Type 0
  Unreachable n = (path : List Edge) → ¬ IsPath graph.edges start path n

  -- The path leads to one of the nodes.
  unfoldable pub LeadsTo : List Edge → List String → Type 0
  LeadsTo path [] = ⊥
  LeadsTo path (n ∷ ns) = IsPath graph.edges start path n ⊎ LeadsTo path ns

  -- It is no longer than the path that the search finds to any of them.
  unfoldable pub IsShortest : List Edge → List String → Type 0
  IsShortest path ns =
      All
        (λ n.
          (q : List Edge) → find_path graph start n ≡ returned (some q) → length path ≤ length q)
        ns

  -- A plan to some of the nodes, or none where no path leads to any.
  unfoldable pub IsPlanAmong : List String → Outcome → Type 0
  IsPlanAmong ns r =
      ((r ≡ returned none) × All Unreachable ns)
      ⊎ ((path : List Edge) × (r ≡ returned (some path)) × LeadsTo path ns × IsShortest path ns)

  -- The same from a best path so far.
  Continues : List String → List Edge → Outcome → Type 0
  Continues ns best r =
      (path : List Edge) × (r ≡ returned (some path))
      × ((path ≡ best) ⊎ LeadsTo path ns)
      × (length path ≤ length best)
      × IsShortest path ns

  leads :
      (n : String) (ns : List String) (p q : List Edge)
      → IsPath graph.edges start q n
      → (p ≡ q) ⊎ LeadsTo p ns
      → LeadsTo p (n ∷ ns)
  unfolding LeadsTo
  leads n ns p q path (inl same) = inl (subst (λ x. IsPath graph.edges start x n) (sym same) path)
  leads n ns p q path (inr later) = inr later

  found_least :
      (n : String) (p q : List Edge)
      → find_path graph start n ≡ returned (some q)
      → length p ≤ length q
      → (q' : List Edge) → find_path graph start n ≡ returned (some q')
      → length p ≤ length q'
  found_least n p q found le q' h =
      let same : q ≡ q' = cc in subst (λ x. length p ≤ length x) same le

  continued :
      (ns : List String) (best : List Edge)
      → Continues ns best (best_path graph start ns (some best))
  unfolding best_path with_path better Continues IsShortest Decides LeadsTo
  continued [] best = (best, refl, inl refl, omega arith, tt)
  continued (n ∷ ns) best =
      let (p, h, at, short, least) = continued ns best in
      elim (find_path-Decides graph start n) [
        | inr (none_found, cut) ↦ (
          p,
          rw none_found h,
          elim at [ inl b ↦ inl b | inr later ↦ inr (inr later) ],
          short,
          ((λ q e. cc), least),
        )
        | inl (q, found, path) ↦ elim (Bool-cases (ltb (length q) (length best))) [
          | inr longer ↦ (
            p,
            rw found (rw longer h),
            elim at [ inl b ↦ inl b | inr later ↦ inr (inr later) ],
            short,
            (found_least n p q found (ground (arith, short, longer)), least),
          )
          | inl shorter ↦
              let (p', h', at', short', least') = continued ns q in
              (
                p',
                rw found (rw shorter h'),
                inr (leads n ns p' q path at'),
                ground (arith, short', shorter),
                (found_least n p' q found short', least'),
              )
        ]
      ]

  pub planned : (ns : List String) → IsPlanAmong ns (best_path graph start ns none)
  unfolding best_path with_path better Continues IsPlanAmong IsShortest Decides LeadsTo Unreachable
  planned [] = inl (refl, tt)
  planned (n ∷ ns) = elim (find_path-Decides graph start n) [
    | inr (none_found, cut) ↦ elim (planned ns) [
      | inl (h, others) ↦ inl (rw none_found h, (cut, others))
      | inr (p, h, at, least) ↦ inr (p, rw none_found h, inr at, ((λ q e. cc), least))
    ]
    | inl (q, found, path) ↦
        let (p, h, at, short, least) = continued ns q in
        inr (p, rw found h, leads n ns p q path at, (found_least n p q found short, least))
  ]
