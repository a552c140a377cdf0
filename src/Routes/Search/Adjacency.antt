-- ===== src/Routes/Search/Adjacency.antt =====
-- The edges that leave a node (the adjacency of find_path in backends/gds2/route_graph.py).
use gds2_automation.Base.{
  String, Bool, true, false, not, ◌&&◌, some, List, [], ◌∷◌, ◌++◌, ◌==◌, string_eq, ◌≡◌, refl, sym,
  ap, ◌∙◌, subst, inl, inr, if◌then◌else◌, All, All-map, filter, arith, Bool-cases, append_assoc,
  append-nil,
}
use gds2_automation.Base.Dict.{Dict, get-put}
use gds2_automation.Base.Dict
use gds2_automation.Routes.Graph.{Edge, IsIn}
use gds2_automation.Routes.Search.{edges_of, or_empty, add_edge, add_edges}

abbrev pub leaves : String → Edge → Bool
leaves k e = not (e.source_id == "") && (e.source_id == k)

edges_of-add_edge :
    (adjacency : Dict String (List Edge)) (e : Edge) (k : String)
    → edges_of (add_edge adjacency e) k ≡ edges_of adjacency k ++ filter (leaves k) (e ∷ [])
unfolding edges_of add_edge or_empty
edges_of-add_edge adjacency e k = elim (Bool-cases (e.source_id == "")) [
  | inl nameless ↦ rw nameless (sym (append-nil (edges_of adjacency k)))
  | inr named ↦ rw named (
      ap or_empty (get-put adjacency e.source_id k (edges_of adjacency e.source_id ++ (e ∷ [])))
      ∙ held (e.source_id == k) refl)
]
  where
    held :
        (b : Bool)
        → (e.source_id == k) ≡ b
        → or_empty (
            if e.source_id == k
            then some (edges_of adjacency e.source_id ++ (e ∷ []))
            else Dict.get adjacency k)
          ≡ edges_of adjacency k ++ (if e.source_id == k then e ∷ [] else [])
    held true here = rw here (
        ap (λ i. edges_of adjacency i ++ (e ∷ []))
          (ground (arith, string_eq.beq_iff e.source_id k)))
    held false other = rw other (sym (append-nil (edges_of adjacency k)))

-- The edges of a node in the adjacency are those of the graph that leave it.
pub edges_of-add_edges :
    (adjacency : Dict String (List Edge)) (es : List Edge) (k : String)
    → edges_of (add_edges adjacency es) k ≡ edges_of adjacency k ++ filter (leaves k) es
unfolding add_edges
edges_of-add_edges adjacency [] k = sym (append-nil (edges_of adjacency k))
edges_of-add_edges adjacency (e ∷ es) k =
    edges_of-add_edges (add_edge adjacency e) es k
    ∙ ap (λ l. l ++ filter (leaves k) es) (edges_of-add_edge adjacency e k)
    ∙ append_assoc (edges_of adjacency k) (filter (leaves k) (e ∷ [])) (filter (leaves k) es)
    ∙ ap (λ l. edges_of adjacency k ++ l) (one_more (leaves k e))
  where
    one_more :
        (b : Bool)
        → (if b then e ∷ [] else []) ++ filter (leaves k) es
          ≡ (if b then e ∷ filter (leaves k) es else filter (leaves k) es)
    one_more true = refl
    one_more false = refl

pub All-IsIn_self : (xs : List Edge) → All (λ e. IsIn e xs) xs
unfolding IsIn
All-IsIn_self [] = tt
All-IsIn_self (x ∷ xs) = (inl refl, All-map _ _ (λ e m. inr m) xs (All-IsIn_self xs))

pub All-IsIn : (P : Edge → Type 0) (e : Edge) (xs : List Edge) → All P xs → IsIn e xs → P e
unfolding IsIn
All-IsIn P e [] h m = absurd m
All-IsIn P e (x ∷ xs) (h, hs) (inl same) = subst P same h
All-IsIn P e (x ∷ xs) (h, hs) (inr m) = All-IsIn P e xs hs m

pub IsIn-filter :
    (p : Edge → Bool) (e : Edge) (xs : List Edge) → IsIn e xs → p e ≡ true → IsIn e (filter p xs)
unfolding IsIn
IsIn-filter p e [] m h = m
IsIn-filter p e (x ∷ xs) (inl same) h = rw (ap p same ∙ h) (inl same)
IsIn-filter p e (x ∷ xs) (inr m) h = elim (Bool-cases (p x)) [
  | inl passed ↦ rw passed (inr (IsIn-filter p e xs m h))
  | inr failed ↦ rw failed (IsIn-filter p e xs m h)
]
