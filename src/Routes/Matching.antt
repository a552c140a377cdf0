-- ===== src/Routes/Matching.antt =====
-- Which recorded page a snapshot of the screen shows (match_snapshot_to_node_details of
-- backends/gds2/route_graph.py). `strip` is the method of texts.
pub mod Highest
use gds2_automation.Base.{
  ℕ, zero, suc, ◌+◌, ◌*◌, ◌≤◌, String, Bool, true, false, not, ◌&&◌, ◌||◌, Option, none, some, List,
  [], ◌∷◌, map, filter, ltb, ◌==◌, string_eq, if◌then◌else◌, length, ◌≡◌, ◌⊎◌, refl, inl, inr, All,
  arith, Bool-cases,
}
use gds2_automation.Base.Dict.{Dict}
use gds2_automation.Routes.Graph.{Action, Node, Graph}

-- A snapshot; `page_page_id` is the id of its page field.
pub record Snapshot : Type 0 where
  pub effective_page_id : String
  pub raw_page_id : String
  pub page_page_id : String
  pub observed_actions : List Action
  pub list_items : List String
  pub navigation_path : List String

pub record Match : Type 0 where
  pub node_id : String
  pub score : ℕ
  pub page_score : ℕ
  pub action_overlap : ℕ
  pub item_overlap : ℕ
  pub path_overlap : ℕ

unfoldable pub is_text : String → Bool
is_text s = not (s == "")

unfoldable pub holds : List String → String → Bool
holds [] s = false
holds (x ∷ xs) s = (x == s) || holds xs s

-- A set, as the list of its elements.
unfoldable pub as_set : List String → List String
as_set [] = []
as_set (x ∷ xs) = let rest = as_set xs in if holds rest x then rest else x ∷ rest

-- len(a & b)
unfoldable pub overlap : List String → List String → ℕ
overlap a b = length (filter (holds b) (as_set a))

unfoldable pub prefix_overlap : List String → List String → ℕ
prefix_overlap (x ∷ xs) (y ∷ ys) = let rest = prefix_overlap xs ys in if x == y then suc rest else 0
prefix_overlap _ _ = 0

unfoldable pub labels : List Action → List String
labels [] = []
labels (a ∷ actions) = let rest = labels actions in if is_text a.label then a.label ∷ rest else rest

module _ (strip : String → String) where
  unfoldable pub texts : List String → List String
  texts xs = filter (λ x. is_text (strip x)) xs

  unfoldable pub stripped : List String → List String
  stripped xs = filter is_text (map strip xs)

  unfoldable pub raw_page : Snapshot → String
  raw_page s = strip (if is_text s.raw_page_id then s.raw_page_id else s.page_page_id)

  -- No score where the page does not match.
  unfoldable pub page_score : Snapshot → Node → Option ℕ
  page_score s n =
      if is_text (strip s.effective_page_id) && (strip n.page_id == strip s.effective_page_id)
      then some 100
      else if is_text (raw_page s)
          && ((strip n.page_id == raw_page s)
              || ((strip n.raw_page_id == raw_page s)
                  || holds (stripped n.raw_page_ids) (raw_page s)))
      then some 80
      else none

  unfoldable pub scored : Snapshot → String → Node → ℕ → Match
  scored s node_id n page =
      let actions : ℕ = overlap (labels s.observed_actions) (labels n.observed_actions) in
      let items : ℕ = overlap (texts s.list_items) (texts n.list_items) in
      let path : ℕ = prefix_overlap (stripped s.navigation_path) (stripped n.navigation_path) in
      record {
        node_id = node_id;
        score = page + actions * 10 + items + path * 20;
        page_score = page;
        action_overlap = actions;
        item_overlap = items;
        path_overlap = path;
      }

  unfoldable pub match_of : Snapshot → String → Node → Option ℕ → Option Match
  match_of s node_id n none = none
  match_of s node_id n (some page) = some (scored s node_id n page)

  unfoldable pub node_match : Snapshot → String × Node → Option Match
  node_match s (node_id, n) = match_of s node_id n (page_score s n)

  -- The first of the best matches so far; a score is positive, so that none is below it.
  unfoldable pub better_match : Option Match → Option Match → Option Match
  better_match best none = best
  better_match none (some m) = some m
  better_match (some best) (some m) = if ltb best.score m.score then some m else some best

  unfoldable pub best_match : Snapshot → Dict String Node → Option Match → Option Match
  best_match s [] best = best
  best_match s (x ∷ nodes) best = best_match s nodes (better_match best (node_match s x))

  unfoldable pub match_snapshot_to_node_details : Graph → Snapshot → Option Match
  match_snapshot_to_node_details graph s = best_match s graph.nodes none

  unfoldable pub id_of : Option Match → Option String
  id_of none = none
  id_of (some m) = some m.node_id

  unfoldable pub match_snapshot_to_node : Graph → Snapshot → Option String
  match_snapshot_to_node graph s = id_of (match_snapshot_to_node_details graph s)
