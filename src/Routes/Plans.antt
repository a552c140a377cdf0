-- ===== src/Routes/Plans.antt =====
-- Plans to a page or to an action (plan_to_action, plan_to_page and node_has_action of
-- backends/gds2/route_graph.py).
pub mod Among
pub mod Best
use gds2_automation.Base.{
  ℕ, String, Bool, true, false, ◌&&◌, ◌||◌, Option, none, some, List, [], ◌∷◌, ◌==◌, string_eq, ltb,
  length, if◌then◌else◌,
}
use gds2_automation.Base.Dict.{Dict}
use gds2_automation.Routes.Graph.{Action, Node, Edge, Graph}
use gds2_automation.Routes.Search.{Outcome, returned, out_of_fuel, find_path}

unfoldable pub is_kind : Option String → Action → Bool
is_kind none action = true
is_kind (some kind) action = action.kind == kind

unfoldable pub has_action : List Action → String → Option String → Bool
has_action [] label kind = false
has_action (a ∷ actions) label kind =
    (is_kind kind a && (a.label == label)) || has_action actions label kind

unfoldable pub node_has_action : String → Option String → Node → Bool
node_has_action label kind node = has_action node.observed_actions label kind

unfoldable pub has_page : String → Node → Bool
has_page page_id node = node.page_id == page_id

-- candidate_node_ids
unfoldable pub candidates : (Node → Bool) → Dict String Node → List String
candidates test [] = []
candidates test ((node_id, node) ∷ nodes) =
    if test node then node_id ∷ candidates test nodes else candidates test nodes

-- The first of the shortest paths so far.
unfoldable pub better : Option (List Edge) → Option (List Edge) → Option (List Edge)
better best none = best
better none (some path) = some path
better (some best) (some path) = if ltb (length path) (length best) then some path else some best

unfoldable pub with_path : (Option (List Edge) → Outcome) → Outcome → Outcome
with_path continue (returned path) = continue path
with_path continue out_of_fuel = out_of_fuel

unfoldable pub best_path : Graph → String → List String → Option (List Edge) → Outcome
best_path graph start [] best = returned best
best_path graph start (n ∷ ns) best =
    with_path (λ path. best_path graph start ns (better best path)) (find_path graph start n)

unfoldable pub plan_to_action : Graph → String → String → Option String → Outcome
plan_to_action graph start label kind =
    best_path graph start (candidates (node_has_action label kind) graph.nodes) none

unfoldable pub plan_to_page : Graph → String → String → Outcome
plan_to_page graph start page_id =
    best_path graph start (candidates (has_page page_id) graph.nodes) none
