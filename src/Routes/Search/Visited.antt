-- ===== src/Routes/Search/Visited.antt =====
-- What going through the edges of one node does (the loop of find_path in
-- backends/gds2/route_graph.py).
use gds2_automation.Base.{
  ℕ, suc, ◌+◌, ◌≤◌, String, true, false, not, ◌&&◌, ◌||◌, List, [], ◌∷◌, ◌++◌, ◌==◌, string_eq, ◌≡◌,
  refl, sym, ap, ◌∙◌, inl, inr, ◌⊎◌, length, length-append, count_if, All, All-map, arith,
  Bool-cases,
}
use gds2_automation.Routes.Graph.{Edge, IsIn, IsPath, is_usable}
use gds2_automation.Routes.Search.{has, Queue, Scan, hit, missed, is_new, visit, enqueue}

-- How many edges lead to a node that is not visited.
unfoldable pub unvisited : List Edge → List String → ℕ
unvisited edges visited = count_if (λ e. not (has visited e.target_id)) edges

unfoldable pub nodes_of : Queue → List String
nodes_of [] = []
nodes_of ((n, path) ∷ queue) = n ∷ nodes_of queue

-- How the visited nodes and the queue grow.
pub record Grows (edges : List Edge) (target : String) (visited : List String) (queue : Queue)
    (visited' : List String) (queue' : Queue) : Type 0 where
  pub visited_kept : (n : String) → has visited n ≡ true → has visited' n ≡ true
  pub new_queued :
      (n : String)
      → has visited' n ≡ true
      → (has visited n ≡ true) ⊎ (has (nodes_of queue') n ≡ true)
  pub queued_kept : (n : String) → has (nodes_of queue) n ≡ true → has (nodes_of queue') n ≡ true
  pub not_target : has visited target ≡ false → has visited' target ≡ false
  pub measure : length queue' + unvisited edges visited' ≤ length queue + unvisited edges visited

pub Grows-refl :
    (edges : List Edge) (target : String) (visited : List String) (queue : Queue)
    → Grows edges target visited queue visited queue
Grows-refl edges target visited queue = record {
  visited_kept = λ n h. h;
  new_queued = λ n h. inl h;
  queued_kept = λ n h. h;
  not_target = λ h. h;
  measure = omega arith;
}

pub Grows-trans :
    {edges : List Edge} {target : String} {v v' v'' : List String} {q q' q'' : Queue}
    → Grows edges target v q v' q'
    → Grows edges target v' q' v'' q''
    → Grows edges target v q v'' q''
Grows-trans a b = record {
  visited_kept = λ n h. b.visited_kept n (a.visited_kept n h);
  new_queued = λ n h. elim (b.new_queued n h) [
    | inr queued ↦ inr queued
    | inl seen ↦ elim (a.new_queued n seen) [
      | inl old ↦ inl old
      | inr queued ↦ inr (b.queued_kept n queued)
    ]
  ];
  queued_kept = λ n h. b.queued_kept n (a.queued_kept n h);
  not_target = λ h. b.not_target (a.not_target h);
  measure = omega (arith, a.measure, b.measure);
}

unvisited-cons :
    (edges : List Edge) (t : String) (visited : List String)
    → unvisited edges (t ∷ visited) ≤ unvisited edges visited
unfolding unvisited has
unvisited-cons [] t visited = omega arith
unvisited-cons (e ∷ es) t visited = ground (arith, unvisited-cons es t visited)

-- An edge to a node that is not visited counts until the node is.
unvisited-new :
    (edges : List Edge) (e : Edge) (visited : List String)
    → IsIn e edges
    → has visited e.target_id ≡ false
    → suc (unvisited edges (e.target_id ∷ visited)) ≤ unvisited edges visited
unfolding unvisited has IsIn
unvisited-new [] e visited m new = absurd m
unvisited-new (x ∷ xs) e visited (inl same) new =
    let at_x : x.target_id ≡ e.target_id = ap (λ y. y.target_id) same in
    let new_x : has visited x.target_id ≡ false = ap (has visited) at_x ∙ new in
    let now : (e.target_id == x.target_id) ≡ true =
      ground (arith, string_eq.beq_iff e.target_id x.target_id) in
    ground (arith, unvisited-cons xs e.target_id visited, now, new_x)
unvisited-new (x ∷ xs) e visited (inr m) new = ground (arith, unvisited-new xs e visited m new)

has-nodes_append :
    (queue : Queue) (t n : String) (path : List Edge)
    → has (nodes_of (queue ++ ((t, path) ∷ []))) n ≡ (has (nodes_of queue) n || (t == n))
unfolding has nodes_of
has-nodes_append [] t n path = ground arith
has-nodes_append ((m, q) ∷ queue) t n path = ground (arith, has-nodes_append queue t n path)

-- One edge of the graph.
pub step-Grows :
    (edges : List Edge) (target : String) (e : Edge) (path : List Edge) (visited : List String)
    (queue : Queue)
    → IsIn e edges
    → (is_new visited e && (e.target_id == target)) ≡ false
    → Grows edges target visited queue (visit visited e) (enqueue visited e path queue)
unfolding visit enqueue has is_new
step-Grows edges target e path visited queue m on = elim (Bool-cases (is_new visited e)) [
  | inr old ↦ rw old (Grows-refl edges target visited queue)
  | inl new ↦ rw new (added new)
]
  where
    added :
        is_new visited e ≡ true
        → Grows edges target visited queue
            (e.target_id ∷ visited)
            (queue ++ ((e.target_id, path) ∷ []))
    added new = record {
      visited_kept = λ n h. ground (arith, h);
      new_queued = λ n h. ground (arith, has-nodes_append queue e.target_id n path, h);
      queued_kept = λ n h. ground (arith, has-nodes_append queue e.target_id n path, h);
      not_target = λ h. ground (arith, h);
      measure = omega (
        arith,
        length-append queue ((e.target_id, path) ∷ []),
        unvisited-new edges e visited m (ground arith),
      );
    }

-- The targets of the edges that were gone through are visited.
unfoldable pub Covered : List String → List Edge → Type 0
Covered visited es = All (λ e. not (e.target_id == "") ≡ true → has visited e.target_id ≡ true) es

-- The queue holds visited nodes with a path to each.
unfoldable pub Routed : List Edge → String → List String → Queue → Type 0
Routed edges start visited queue =
    All (λ x. IsPath edges start x.1 x.0 × (has visited x.0 ≡ true)) queue

-- What a scan of the edges promises.
unfoldable pub Good : List Edge → String → String → List Edge → List String → Queue → Scan → Type 0
Good edges start target es visited queue (hit path) = IsPath edges start path target
Good edges start target es visited queue (missed visited' queue') =
    Grows edges target visited queue visited' queue'
    × Covered visited' es
    × Routed edges start visited' queue'

pub IsPath-append :
    (edges : List Edge) (s m : String) (path : List Edge) (e : Edge)
    → IsPath edges s path m
    → IsIn e edges
    → is_usable e ≡ true
    → e.source_id ≡ m
    → IsPath edges s (path ++ (e ∷ [])) e.target_id
unfolding IsPath
IsPath-append edges s m [] e h i u at = (i, u, at ∙ sym h, refl)
IsPath-append edges s m (x ∷ path) e (i', u', at', h) i u at =
    (i', u', at', IsPath-append edges x.target_id m path e h i u at)

Routed-more :
    (edges : List Edge) (start : String) (v v' : List String) (queue : Queue)
    → ((n : String) → has v n ≡ true → has v' n ≡ true)
    → Routed edges start v queue
    → Routed edges start v' queue
unfolding Routed
Routed-more edges start v v' queue more h =
    All-map _ _ (λ x (path, seen). (path, more x.0 seen)) queue h

Routed-append :
    (edges : List Edge) (start : String) (v : List String) (queue : Queue) (t : String)
    (path : List Edge)
    → Routed edges start v queue
    → IsPath edges start path t
    → has v t ≡ true
    → Routed edges start v (queue ++ ((t, path) ∷ []))
unfolding Routed
Routed-append edges start v [] t path h i seen = ((i, seen), tt)
Routed-append edges start v (x ∷ queue) t path (h, hs) i seen =
    (h, Routed-append edges start v queue t path hs i seen)

-- After one edge the queue holds paths, as before.
pub enqueue-Routed :
    (edges : List Edge) (start : String) (visited : List String) (queue : Queue) (e : Edge)
    (path : List Edge)
    → Routed edges start visited queue
    → (is_new visited e ≡ true → IsPath edges start path e.target_id)
    → Routed edges start (visit visited e) (enqueue visited e path queue)
unfolding visit enqueue has
enqueue-Routed edges start visited queue e path h i = elim (Bool-cases (is_new visited e)) [
  | inr old ↦ rw old h
  | inl new ↦ rw new (
      Routed-append edges start (e.target_id ∷ visited) queue e.target_id path
        (Routed-more edges start visited (e.target_id ∷ visited) queue
          (λ n seen. ground (arith, seen)) h)
        (i new) (ground (arith, string_eq.beq_iff e.target_id e.target_id)))
]

-- An edge that is gone through is covered.
pub visit-covers :
    (visited : List String) (e : Edge)
    → not (e.target_id == "") ≡ true
    → has (visit visited e) e.target_id ≡ true
unfolding visit is_new has
visit-covers visited e h = ground (arith, string_eq.beq_iff e.target_id e.target_id)
