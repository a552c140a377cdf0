-- ===== src/Routes/Plans/Best.antt =====
-- What a plan is (plan_to_action and plan_to_page of backends/gds2/route_graph.py).
use gds2_automation.Base.{
  ◌≤◌, String, Option, none, some, List, [], ◌∷◌, ◌≡◌, refl, inl, inr, ◌⊎◌, length, All, arith,
  Bool, true, false, ◌==◌, ◌&&◌, ◌||◌, ◌↔◌, string_eq, if◌then◌else◌,
}
use gds2_automation.Base.Dict.{Dict}
use gds2_automation.Routes.Graph.{Action, Node, Edge, Graph, IsPath}
use gds2_automation.Routes.Search.{Outcome, returned, find_path}
use gds2_automation.Routes.Plans.{
  best_path, candidates, is_kind, has_action, node_has_action, has_page, plan_to_action,
  plan_to_page,
}
use gds2_automation.Routes.Plans.Among.{Unreachable, LeadsTo, IsShortest, IsPlanAmong, planned}

-- The recorded page has an action of the label, and of the kind where one is asked for.
unfoldable pub IsOfKind : Option String → Action → Type 0
IsOfKind none a = Unit
IsOfKind (some kind) a = a.kind ≡ kind

unfoldable pub HasSome : String → Option String → List Action → Type 0
HasSome label kind [] = ⊥
HasSome label kind (a ∷ actions) =
    (IsOfKind kind a × (a.label ≡ label)) ⊎ HasSome label kind actions

abbrev pub HasAction : String → Option String → Node → Type 0
HasAction label kind node = HasSome label kind node.observed_actions

abbrev pub HasPage : String → Node → Type 0
HasPage page_id node = node.page_id ≡ page_id

module _ (graph : Graph) (start : String) (Target : Node → Type 0) where
  -- No path leads to a target among the nodes.
  unfoldable pub NoneReachable : Dict String Node → Type 0
  NoneReachable nodes = All (λ x. Target x.1 → Unreachable graph start x.0) nodes

  -- The path leads to a target among the nodes.
  unfoldable pub ReachesOne : List Edge → Dict String Node → Type 0
  ReachesOne path [] = ⊥
  ReachesOne path ((n, node) ∷ nodes) =
      (Target node × IsPath graph.edges start path n) ⊎ ReachesOne path nodes

  -- It is no longer than the path that the search finds to any target among the nodes.
  unfoldable pub IsLeast : List Edge → Dict String Node → Type 0
  IsLeast path nodes =
      All
        (λ x.
          Target x.1
          → (q : List Edge) → find_path graph start x.0 ≡ returned (some q)
          → length path ≤ length q)
        nodes

  -- A plan to the recorded pages that are targets.
  unfoldable pub IsPlan : Outcome → Type 0
  IsPlan r =
      ((r ≡ returned none) × NoneReachable graph.nodes)
      ⊎ ((path : List Edge) × (r ≡ returned (some path))
          × ReachesOne path graph.nodes
          × IsLeast path graph.nodes)

  module _ (test : Node → Bool) (tests : (node : Node) → (test node ≡ true) ↔ Target node) where
    candidates-NoneReachable :
        (nodes : Dict String Node)
        → All (Unreachable graph start) (candidates test nodes)
        → NoneReachable nodes
    unfolding candidates NoneReachable
    candidates-NoneReachable [] h = tt
    candidates-NoneReachable ((n, node) ∷ nodes) h =
        by_test (test node) refl h (candidates-NoneReachable nodes)
      where
        by_test :
            (b : Bool)
            → test node ≡ b
            → All
                (Unreachable graph start)
                (if b then n ∷ candidates test nodes else candidates test nodes)
            → (All (Unreachable graph start) (candidates test nodes) → NoneReachable nodes)
            → NoneReachable ((n, node) ∷ nodes)
        by_test true e h later = unfold NoneReachable in ((λ target. h.0), later h.1)
        by_test false e h later =
            unfold NoneReachable in
            (
              (λ target. let same : test node ≡ true = (tests node).1 target in absurd (cc)),
              later h,
            )

    candidates-ReachesOne :
        (path : List Edge) (nodes : Dict String Node)
        → LeadsTo graph start path (candidates test nodes)
        → ReachesOne path nodes
    unfolding candidates ReachesOne LeadsTo
    candidates-ReachesOne path [] h = h
    candidates-ReachesOne path ((n, node) ∷ nodes) h =
        by_test (test node) refl h (candidates-ReachesOne path nodes)
      where
        by_test :
            (b : Bool)
            → test node ≡ b
            → LeadsTo graph start path
                (if b then n ∷ candidates test nodes else candidates test nodes)
            → (LeadsTo graph start path (candidates test nodes) → ReachesOne path nodes)
            → ReachesOne path ((n, node) ∷ nodes)
        by_test true e (inl h) later = unfold ReachesOne in inl ((tests node).0 e, h)
        by_test true e (inr h) later = unfold ReachesOne in inr (later h)
        by_test false e h later = unfold ReachesOne in inr (later h)

    candidates-IsLeast :
        (path : List Edge) (nodes : Dict String Node)
        → IsShortest graph start path (candidates test nodes)
        → IsLeast path nodes
    unfolding candidates IsLeast IsShortest
    candidates-IsLeast path [] h = tt
    candidates-IsLeast path ((n, node) ∷ nodes) h =
        by_test (test node) refl h (candidates-IsLeast path nodes)
      where
        by_test :
            (b : Bool)
            → test node ≡ b
            → IsShortest graph start path
                (if b then n ∷ candidates test nodes else candidates test nodes)
            → (IsShortest graph start path (candidates test nodes) → IsLeast path nodes)
            → IsLeast path ((n, node) ∷ nodes)
        by_test true e h later =
            unfold IsLeast IsShortest in ((λ target. h.0), later (unfold IsShortest in h.1))
        by_test false e h later =
            unfold IsLeast in
            (
              (λ target. let same : test node ≡ true = (tests node).1 target in absurd (cc)),
              later h,
            )

    planned-IsPlan : IsPlan (best_path graph start (candidates test graph.nodes) none)
    unfolding IsPlanAmong IsPlan
    planned-IsPlan = elim (planned graph start (candidates test graph.nodes)) [
      | inl (h, cut) ↦ inl (h, candidates-NoneReachable graph.nodes cut)
      | inr (path, h, at, least) ↦ inr (
        path,
        h,
        candidates-ReachesOne path graph.nodes at,
        candidates-IsLeast path graph.nodes least,
      )
    ]

has_page-HasPage :
    (page_id : String) (node : Node) → (has_page page_id node ≡ true) ↔ HasPage page_id node
unfolding has_page
has_page-HasPage page_id node = string_eq.beq_iff node.page_id page_id

is_kind-IsOfKind : (kind : Option String) (a : Action) → (is_kind kind a ≡ true) ↔ IsOfKind kind a
unfolding is_kind IsOfKind
is_kind-IsOfKind none a = ((λ h. tt), (λ h. refl))
is_kind-IsOfKind (some kind) a = string_eq.beq_iff a.kind kind

has_action-HasSome :
    (label : String) (kind : Option String) (actions : List Action)
    → (has_action actions label kind ≡ true) ↔ HasSome label kind actions
unfolding has_action HasSome
has_action-HasSome label kind [] = ((λ h. cc), (λ h. absurd h))
has_action-HasSome label kind (a ∷ actions) =
    either (is_kind kind a) (a.label == label) (has_action actions label kind)
      (is_kind-IsOfKind kind a) (string_eq.beq_iff a.label label)
      (has_action-HasSome label kind actions)
  where
    either :
        {P Q R : Type 0} (p q r : Bool)
        → (p ≡ true) ↔ P
        → (q ≡ true) ↔ Q
        → (r ≡ true) ↔ R
        → ((p && q || r) ≡ true) ↔ ((P × Q) ⊎ R)
    either p q r f g h =
        ((λ e. ground (arith, f.0, g.0, h.0)), (λ e. ground (arith, f.1, g.1, h.1)))

node_has_action-HasAction :
    (label : String) (kind : Option String) (node : Node)
    → (node_has_action label kind node ≡ true) ↔ HasAction label kind node
unfolding node_has_action
node_has_action-HasAction label kind node = has_action-HasSome label kind node.observed_actions

-- plan_to_action and plan_to_page return for any graph, node and target. They return a path to a
-- recorded page that has an action of the label and of the kind asked for, or that has the page id,
-- and it is no longer than the one that the search finds to any other such page; or they return
-- none, and then no path leads from the start to any such page.
pub plans-IsPlan :
    (graph : Graph) (start label page_id : String) (kind : Option String)
    → IsPlan graph start (HasAction label kind) (plan_to_action graph start label kind)
      × IsPlan graph start (HasPage page_id) (plan_to_page graph start page_id)
unfolding plan_to_action plan_to_page
plans-IsPlan graph start label page_id kind = (
  planned-IsPlan graph start (HasAction label kind) (node_has_action label kind)
      (node_has_action-HasAction label kind),
  planned-IsPlan graph start (HasPage page_id) (has_page page_id) (has_page-HasPage page_id),
)
