-- ===== src/Routes/Search/Reaches.antt =====
-- The search finds a path where there is one, and says so where there is none (find_path of
-- backends/gds2/route_graph.py).
use gds2_automation.Base.{
  ℕ, zero, suc, ◌+◌, ◌≤◌, String, true, false, not, ◌&&◌, none, some, List, [], ◌∷◌, ◌++◌, ◌==◌,
  string_eq, ◌≡◌, refl, sym, ap, ◌∙◌, subst, inl, inr, ◌⊎◌, length, All, All-map, All-filter,
  filter, arith, Bool-cases,
}
use gds2_automation.Base.Dict.{Dict, get-put}
use gds2_automation.Base.Dict
use gds2_automation.Routes.Graph.{Edge, Graph, IsIn, IsPath, is_usable}
use gds2_automation.Routes.Search.{
  has, Queue, Scan, hit, missed, scan, is_new, visit, enqueue, edges_of, or_empty, add_edges,
  search, resume, Outcome, returned, find_path,
}
use gds2_automation.Routes.Search.Visited.{
  unvisited, nodes_of, Grows, Grows-refl, Grows-trans, step-Grows, Covered, Routed, Good,
  IsPath-append, enqueue-Routed, visit-covers,
}
use gds2_automation.Routes.Search.Adjacency.{
  leaves, edges_of-add_edges, All-IsIn_self, All-IsIn, IsIn-filter,
}

module _ (edges : List Edge) (start target : String) where
  -- What the edges of a node have to be.
  Leave : String → List Edge → Type 0
  Leave node es =
      All (λ e. IsIn e edges × (is_usable e ≡ not (e.target_id == "")) × (e.source_id ≡ node)) es

  Good-step :
      (e : Edge) (es path : List Edge) (visited : List String) (queue : Queue) (r : Scan)
      → Grows edges target visited queue (visit visited e) (enqueue visited e path queue)
      → Good edges start target es (visit visited e) (enqueue visited e path queue) r
      → Good edges start target (e ∷ es) visited queue r
  unfolding Good Covered
  Good-step e es path visited queue (hit p) g good = good
  Good-step e es path visited queue (missed v q) g (grown, covered, routed) = (
    Grows-trans g grown,
    (λ h. grown.visited_kept e.target_id (visit-covers visited e h), covered),
    routed,
  )

  scan-Good :
      (node : String) (path es : List Edge) (visited : List String) (queue : Queue)
      → Leave node es
      → IsPath edges start path node
      → Routed edges start visited queue
      → Good edges start target es visited queue (scan target path es visited queue)
  unfolding scan Leave is_new
  scan-Good node path [] visited queue leave at routed =
      unfold Good Covered in (Grows-refl edges target visited queue, tt, routed)
  scan-Good node path (e ∷ es) visited queue ((m, u, s), leave) at routed =
      elim (Bool-cases (is_new visited e && (e.target_id == target))) [
        | inl found ↦
            let at_target : e.target_id ≡ target =
              ground (arith, string_eq.beq_iff e.target_id target, found) in
            rw found (
              unfold Good in
              subst (IsPath edges start (path ++ (e ∷ []))) at_target
                (longer (ground (arith, found))))
        | inr on ↦ rw on (
            Good-step e es (path ++ (e ∷ [])) visited queue _
              (step-Grows edges target e (path ++ (e ∷ [])) visited queue m on)
              (scan-Good node path es (visit visited e) (enqueue visited e (path ++ (e ∷ [])) queue)
                leave at
                (enqueue-Routed edges start visited queue e (path ++ (e ∷ [])) routed longer)))
      ]
    where
      longer : is_new visited e ≡ true → IsPath edges start (path ++ (e ∷ [])) e.target_id
      longer new = IsPath-append edges start node path e at m (u ∙ ground (arith, new)) s

  -- The nodes behind the queue have had all their edges gone through.
  IsDone : List String → String → Type 0
  IsDone visited n =
      (e : Edge)
      → IsIn e edges
      → is_usable e ≡ true
      → e.source_id ≡ n
      → has visited e.target_id ≡ true

  IsClosed : List String → Queue → Type 0
  IsClosed visited queue =
      (n : String) → has visited n ≡ true → (has (nodes_of queue) n ≡ true) ⊎ IsDone visited n

  unfoldable pub Decides : Outcome → Type 0
  Decides r =
      ((path : List Edge) × (r ≡ returned (some path)) × IsPath edges start path target)
      ⊎ ((r ≡ returned none) × ((path : List Edge) → ¬ IsPath edges start path target))

  -- From a node that is visited, all paths stay where all visited nodes are done.
  stays_visited :
      (visited : List String) (s t : String) (path : List Edge)
      → IsClosed visited []
      → has visited s ≡ true
      → IsPath edges s path t
      → has visited t ≡ true
  unfolding IsClosed IsDone IsPath nodes_of has
  stays_visited visited s t [] closed seen h = ap (has visited) (sym h) ∙ seen
  stays_visited visited s t (e ∷ path) closed seen (m, u, at, h) = elim (closed s seen) [
    | inl queued ↦ cc
    | inr done ↦ stays_visited visited e.target_id t path closed (done e m u at) h
  ]

  edges_at : (k : String) → edges_of (add_edges [] edges) k ≡ filter (leaves k) edges
  unfolding edges_of or_empty Dict.get
  edges_at k = edges_of-add_edges [] edges k

  Leave-edges_of : (k : String) → Leave k (edges_of (add_edges [] edges) k)
  unfolding is_usable
  Leave-edges_of k = subst (Leave k) (sym (edges_at k)) (
      unfold Leave in
      All-map (λ e. IsIn e edges × (leaves k e ≡ true)) _ left (filter (leaves k) edges)
        (All-filter (λ e. IsIn e edges) (leaves k) edges (All-IsIn_self edges)))
    where
      left :
          (e : Edge)
          → IsIn e edges × (leaves k e ≡ true)
          → IsIn e edges × (is_usable e ≡ not (e.target_id == "")) × (e.source_id ≡ k)
      left e (m, h) = (m, ground (arith, h), ground (arith, string_eq.beq_iff e.source_id k, h))

  covers_all :
      (k : String) (visited : List String)
      → Covered visited (edges_of (add_edges [] edges) k)
      → IsDone visited k
  unfolding Covered IsDone is_usable
  covers_all k visited covered e m u at =
      All-IsIn (λ x. not (x.target_id == "") ≡ true → has visited x.target_id ≡ true) e
        (edges_of (add_edges [] edges) k) covered
        (subst (IsIn e) (sym (edges_at k)) (
          IsIn-filter (leaves k) e edges m
            (ground (arith, string_eq.beq_iff e.source_id k, u, at))))
        (ground (arith, u))

  next-IsClosed :
      (node : String) (path : List Edge) (visited v : List String) (queue q : Queue)
      → IsClosed visited ((node, path) ∷ queue)
      → Grows edges target visited queue v q
      → IsDone v node
      → IsClosed v q
  unfolding IsClosed IsDone nodes_of has
  next-IsClosed node path visited v queue q closed grown done n seen =
      elim (grown.new_queued n seen) [
        | inr queued ↦ inl queued
        | inl old ↦ elim (closed n old) [
          | inr before ↦ inr (λ e m u at. grown.visited_kept e.target_id (before e m u at))
          | inl waiting ↦ elim (Bool-cases (node == n)) [
            | inl this ↦
                inr (λ e m u at. done e m u (at ∙ ground (arith, string_eq.beq_iff node n)))
            | inr other ↦ inl (grown.queued_kept n (ground (arith, waiting)))
          ]
        ]
      ]

  -- With enough fuel the search decides.
  Correct : ℕ → Type 0
  Correct fuel =
      (visited : List String) (queue : Queue)
      → length queue + unvisited edges visited ≤ fuel
      → has visited start ≡ true
      → has visited target ≡ false
      → IsClosed visited queue
      → Routed edges start visited queue
      → Decides (search (add_edges [] edges) target fuel visited queue)

  resume-Decides :
      (fuel : ℕ) (node : String) (path : List Edge) (visited : List String) (queue : Queue)
      (r : Scan)
      → length queue + unvisited edges visited ≤ fuel
      → has visited start ≡ true
      → has visited target ≡ false
      → IsClosed visited ((node, path) ∷ queue)
      → Good edges start target (edges_of (add_edges [] edges) node) visited queue r
      → Correct fuel
      → Decides (resume (search (add_edges [] edges) target fuel) r)
  unfolding resume Good Correct Decides
  resume-Decides fuel node path visited queue (hit p) enough at_start new closed good later =
      inl (p, refl, good)
  resume-Decides fuel node path visited queue (missed v q) enough at_start new closed
        (grown, covered, routed) later =
      later v q (omega (arith, grown.measure)) (grown.visited_kept start at_start)
        (grown.not_target new)
        (next-IsClosed node path visited v queue q closed grown (covers_all node v covered)) routed

  search-Decides : (fuel : ℕ) → Correct fuel
  unfolding search Correct
  search-Decides fuel visited [] enough at_start new closed routed =
      unfold Decides in
      inr
        (refl, λ path h. let seen = stays_visited visited start target path closed at_start h in cc)
  search-Decides zero visited ((node, path) ∷ queue) enough at_start new closed routed =
      absurd (omega arith)
  search-Decides (suc fuel) visited ((node, path) ∷ queue) enough at_start new closed routed =
      let (at_node, others) : (IsPath edges start path node × (has visited node ≡ true))
          × Routed edges start visited queue =
        unfold Routed in routed in
      resume-Decides fuel node path visited queue _ (omega (arith, enough)) at_start new closed
        (scan-Good node path (edges_of (add_edges [] edges) node) visited queue
          (Leave-edges_of node) at_node.0 others)
        (search-Decides fuel)

  unvisited_bound : (es : List Edge) (visited : List String) → unvisited es visited ≤ length es
  unfolding unvisited
  unvisited_bound [] visited = omega arith
  unvisited_bound (e ∷ es) visited = ground (arith, unvisited_bound es visited)

-- find_path returns for any graph and any two nodes: a chain of edges of the graph from the one to
-- the other, or none, and then there is no such chain.
pub find_path-Decides :
    (graph : Graph) (start target : String)
    → Decides graph.edges start target (find_path graph start target)
unfolding find_path Correct IsClosed Routed IsPath nodes_of has
find_path-Decides graph start target = elim (Bool-cases (start == target)) [
  | inl same ↦
      rw same
        (unfold Decides IsPath in inl ([], refl, ground (arith, string_eq.beq_iff start target)))
  | inr other ↦ rw other (
      search-Decides graph.edges start target (suc (length graph.edges)) (start ∷ [])
        ((start, []) ∷ [])
        (omega (arith, unvisited_bound graph.edges start target graph.edges (start ∷ [])))
        (ground (arith, string_eq.beq_iff start start)) (ground (arith, other)) (λ n seen. inl seen)
        ((refl, ground (arith, string_eq.beq_iff start start)), tt))
]
