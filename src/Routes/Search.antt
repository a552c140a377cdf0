-- ===== src/Routes/Search.antt =====
-- The breadth-first search of a path (find_path of backends/gds2/route_graph.py). The loop has as much
-- fuel as the graph has edges, and one more.
pub mod Visited
pub mod Adjacency
pub mod Reaches
use gds2_automation.Base.{
  ℕ, zero, suc, String, Bool, true, false, not, ◌&&◌, Option, none, some, List, [], ◌∷◌, ◌++◌, ◌==◌,
  string_eq, ◌||◌, if◌then◌else◌, length,
}
use gds2_automation.Base.Dict.{Dict}
use gds2_automation.Base.Dict
use gds2_automation.Routes.Graph.{Edge, Graph}

unfoldable pub or_empty : Option (List Edge) → List Edge
or_empty none = []
or_empty (some es) = es

-- adjacency.get(node_id, [])
unfoldable pub edges_of : Dict String (List Edge) → String → List Edge
edges_of adjacency node_id = or_empty (Dict.get adjacency node_id)

-- adjacency.setdefault(source_id, []).append(edge)
unfoldable pub add_edge : Dict String (List Edge) → Edge → Dict String (List Edge)
add_edge adjacency e =
    if e.source_id == ""
    then adjacency
    else Dict.put adjacency e.source_id (edges_of adjacency e.source_id ++ (e ∷ []))

unfoldable pub add_edges : Dict String (List Edge) → List Edge → Dict String (List Edge)
add_edges adjacency [] = adjacency
add_edges adjacency (e ∷ es) = add_edges (add_edge adjacency e) es

unfoldable pub has : List String → String → Bool
has [] s = false
has (x ∷ xs) s = (x == s) || has xs s

abbrev pub Queue : Type 0
Queue = List (String × List Edge)

-- What going through the edges of a node leads to: a return, or the visited nodes and the queue.
pub data Scan : Type 0 where
  hit : List Edge → Scan
  missed : List String → Queue → Scan

unfoldable pub is_new : List String → Edge → Bool
is_new visited e = not (e.target_id == "") && not (has visited e.target_id)

unfoldable pub visit : List String → Edge → List String
visit visited e = if is_new visited e then e.target_id ∷ visited else visited

unfoldable pub enqueue : List String → Edge → List Edge → Queue → Queue
enqueue visited e next_path queue =
    if is_new visited e then queue ++ ((e.target_id, next_path) ∷ []) else queue

unfoldable pub scan : String → List Edge → List Edge → List String → Queue → Scan
scan target path [] visited queue = missed visited queue
scan target path (e ∷ es) visited queue =
    let next_path : List Edge = path ++ (e ∷ []) in
    let rest : Scan = scan target path es (visit visited e) (enqueue visited e next_path queue) in
    if is_new visited e && (e.target_id == target) then hit next_path else rest

pub data Outcome : Type 0 where
  returned : Option (List Edge) → Outcome
  out_of_fuel : Outcome

unfoldable pub resume : (List String → Queue → Outcome) → Scan → Outcome
resume continue (hit path) = returned (some path)
resume continue (missed visited queue) = continue visited queue

unfoldable pub search : Dict String (List Edge) → String → ℕ → List String → Queue → Outcome
search adjacency target fuel visited [] = returned none
search adjacency target zero visited (item ∷ queue) = out_of_fuel
search adjacency target (suc fuel) visited ((node_id, path) ∷ queue) =
    resume (search adjacency target fuel)
      (scan target path (edges_of adjacency node_id) visited queue)

unfoldable pub find_path : Graph → String → String → Outcome
find_path graph start target =
    if start == target
    then returned (some [])
    else search (add_edges [] graph.edges) target (suc (length graph.edges)) (start ∷ [])
        ((start, []) ∷ [])
