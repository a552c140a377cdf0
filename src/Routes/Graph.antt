-- ===== src/Routes/Graph.antt =====
-- Recorded pages and the actions between them (backends/gds2/route_graph.py). A field that a dict lacks
-- is read as an empty text or list, as the code reads it.
use gds2_automation.Base.{String, Bool, true, not, ◌&&◌, List, [], ◌∷◌, ◌≡◌, ◌⊎◌, ◌==◌, string_eq}
use gds2_automation.Base.Dict.{Dict}

pub record Action : Type 0 where
  pub kind : String
  pub label : String

pub record Node : Type 0 where
  pub page_id : String
  pub raw_page_id : String
  pub raw_page_ids : List String
  pub observed_actions : List Action
  pub list_items : List String
  pub navigation_path : List String

pub record Edge : Type 0 where
  pub source_id : String
  pub target_id : String
  pub action : Action

pub record Graph : Type 0 where
  pub nodes : Dict String Node
  pub edges : List Edge

unfoldable pub IsIn : Edge → List Edge → Type 0
IsIn e [] = ⊥
IsIn e (x ∷ xs) = (x ≡ e) ⊎ IsIn e xs

-- Edges without a source or a target are passed over.
unfoldable pub is_usable : Edge → Bool
is_usable e = not (e.source_id == "") && not (e.target_id == "")

-- A chain of edges of the graph from one node to another.
unfoldable pub IsPath : List Edge → String → List Edge → String → Type 0
IsPath edges s [] t = s ≡ t
IsPath edges s (e ∷ es) t =
    IsIn e edges × (is_usable e ≡ true) × (e.source_id ≡ s) × IsPath edges e.target_id es t
