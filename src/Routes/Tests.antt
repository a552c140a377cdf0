-- ===== src/Routes/Tests.antt =====
-- Routes at concrete graphs (backends/gds2/route_graph.py).
use gds2_automation.Base.{String, ◌≡◌, refl, none, some, [], ◌∷◌, string_eq}
use gds2_automation.Base.Dict
use gds2_automation.Routes.Graph.{Action, Node, Edge, Graph}
use gds2_automation.Routes.Search.{
  returned, find_path, search, resume, scan, add_edges, add_edge, edges_of, or_empty, visit,
  enqueue, is_new, has,
}
use gds2_automation.Routes.Search.Reaches.{Decides, find_path-Decides}
use gds2_automation.Routes.Matching.{Snapshot, match_snapshot_to_node_details}
use gds2_automation.Routes.Matching.Highest.{IsBest, match_snapshot-IsBest}
use gds2_automation.Routes.Plans.{plan_to_action, plan_to_page}
use gds2_automation.Routes.Plans.Best.{IsPlan, HasAction, HasPage, plans-IsPlan}

abbrev click : Action
click = record { kind = "button"; label = "Diagnostics" }

abbrev edge : String → String → Edge
edge source_id target_id = record { source_id = source_id; target_id = target_id; action = click }

abbrev page : String → Node
page page_id = record {
  page_id = page_id;
  raw_page_id = "";
  raw_page_ids = [];
  observed_actions = click ∷ [];
  list_items = [];
  navigation_path = [];
}

-- A graph with a cycle and two ways to "d".
abbrev graph : Graph
graph = record {
  nodes = ("a", page "main_menu") ∷ ("d", page "data") ∷ [];
  edges = edge "a" "b" ∷ edge "b" "a" ∷ edge "b" "c" ∷ edge "c" "d" ∷ edge "b" "d" ∷ [];
}

shortcut : find_path graph "a" "d" ≡ returned (some (edge "a" "b" ∷ edge "b" "d" ∷ []))
unfolding find_path search resume scan add_edges add_edge edges_of or_empty visit enqueue is_new has
    Dict.get Dict.put
shortcut = refl

no_way_back : find_path graph "d" "a" ≡ returned none
unfolding find_path search resume scan add_edges add_edge edges_of or_empty visit enqueue is_new has
    Dict.get Dict.put
no_way_back = refl

find_path-Decides_example : Decides graph.edges "a" "d" (find_path graph "a" "d")
find_path-Decides_example = find_path-Decides graph "a" "d"

plans-IsPlan_example :
    IsPlan graph "a" (HasAction "Diagnostics" none) (plan_to_action graph "a" "Diagnostics" none)
    × IsPlan graph "a" (HasPage "data") (plan_to_page graph "a" "data")
plans-IsPlan_example = plans-IsPlan graph "a" "Diagnostics" "data" none

abbrev on_data : Snapshot
on_data = record {
  effective_page_id = "data";
  raw_page_id = "";
  page_page_id = "";
  observed_actions = click ∷ [];
  list_items = [];
  navigation_path = [];
}

abbrev same_text : String → String
same_text t = t

match_snapshot-IsBest_example :
    IsBest same_text on_data graph.nodes (match_snapshot_to_node_details same_text graph on_data)
match_snapshot-IsBest_example = match_snapshot-IsBest same_text graph on_data
