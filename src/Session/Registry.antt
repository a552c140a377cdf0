-- ===== src/Session/Registry.antt =====
-- The registry of diagnostic backends (BackendRegistry, BackendDescriptor and
-- BackendResolutionResult of diagnostic_platform/contracts.py).
use gds2_automation.Base.{
  String, Bool, true, false, not, ◌&&◌, ◌||◌, Option, none, some, List, [], ◌∷◌, ◌++◌, ◌==◌,
  string_eq, if◌then◌else◌, Result, ok, err, value_error, key_error, ◌>>=◌,
}
use gds2_automation.Base.Dict
use gds2_automation.Base.Dict.{Dict}

-- The capabilities by their values.
pub record BackendDescriptor : Type 0 where
  pub backend_name : String
  pub display_name : String
  pub supported_brands : List String
  pub capabilities : List String
  pub default_for_brands : List String
  pub ui_mode : String

-- What the registry reads of a backend.
pub record Backend : Type 0 where
  pub name : String
  pub supported_brands : List String
  pub descriptor : BackendDescriptor

pub data Why : Type 0 where
  explicit_backend no_brand_match unique_match default_match ambiguous_brand : Why

pub record BackendResolutionResult : Type 0 where
  pub selected_backend_name : Option String
  pub candidates : List BackendDescriptor
  pub decision_required : Bool
  pub reason : Why

unfoldable pub named : String → List BackendDescriptor → Option BackendDescriptor
named name [] = none
named name (d ∷ ds) = if d.backend_name == name then some d else named name ds

unfoldable pub selected_descriptor : BackendResolutionResult → Option BackendDescriptor
unfolding named
selected_descriptor r = elim r.selected_backend_name [
  | none ↦ none
  | some name ↦ named name r.candidates
]

pub record BackendRegistry : Type 0 where
  pub backends : Dict String Backend
  pub brand_index : Dict String (List String)
  pub brand_defaults : Dict String String

unfoldable pub found_backend : Option Backend → Result Backend
found_backend none = err key_error
found_backend (some b) = ok b

unfoldable pub get_by_name : BackendRegistry → String → Result Backend
get_by_name r name = found_backend (Dict.get r.backends name)

unfoldable pub get_descriptor : BackendRegistry → String → Result BackendDescriptor
get_descriptor r name = do backend ← get_by_name r name; ok backend.descriptor

unfoldable pub descriptors_of : Dict String Backend → List BackendDescriptor
descriptors_of [] = []
descriptors_of ((name, b) ∷ bs) = b.descriptor ∷ descriptors_of bs

unfoldable pub list_descriptors : BackendRegistry → List BackendDescriptor
unfolding descriptors_of
list_descriptors r = descriptors_of r.backends

-- tuple(self.get_descriptor(name) for name in backend_names)
unfoldable pub get_descriptors : BackendRegistry → List String → Result (List BackendDescriptor)
get_descriptors r [] = ok []
get_descriptors r (name ∷ names) = do
  d ← get_descriptor r name
  ds ← get_descriptors r names
  ok (d ∷ ds)

unfoldable pub names_at : Option (List String) → List String
names_at none = []
names_at (some names) = names

unfoldable pub contains_name : String → List String → Bool
contains_name name [] = false
contains_name name (n ∷ ns) = n == name || contains_name name ns

unfoldable pub unmatched : BackendRegistry → BackendResolutionResult
unmatched r = record {
  selected_backend_name = none;
  candidates = list_descriptors r;
  decision_required = true;
  reason = no_brand_match;
}

-- Several backends support the brand; `chosen` is the brand's default.
unfoldable pub among_candidates :
    List String → List BackendDescriptor → Option String → BackendResolutionResult
among_candidates names candidates none = record {
  selected_backend_name = none;
  candidates = candidates;
  decision_required = true;
  reason = ambiguous_brand;
}
among_candidates names candidates (some chosen) =
    if not (chosen == "") && contains_name chosen names
    then record {
      selected_backend_name = some chosen;
      candidates = candidates;
      decision_required = false;
      reason = default_match;
    }
    else record {
      selected_backend_name = none;
      candidates = candidates;
      decision_required = true;
      reason = ambiguous_brand;
    }

unfoldable pub resolve_names :
    BackendRegistry → String → List String → Result BackendResolutionResult
resolve_names r brand [] = ok (unmatched r)
resolve_names r brand (name ∷ []) = do
  d ← get_descriptor r name
  ok (record {
    selected_backend_name = some name;
    candidates = d ∷ [];
    decision_required = false;
    reason = unique_match;
  })
resolve_names r brand (name ∷ other ∷ names) = do
  ds ← get_descriptors r (name ∷ other ∷ names)
  ok (among_candidates (name ∷ other ∷ names) ds (Dict.get r.brand_defaults brand))

-- `normalize` is `_normalize_brand_key`, which strips, lowers and respaces a text.
module _ (normalize : String → String) where
  -- `preferred` is the empty text where the caller prefers none.
  unfoldable pub resolve_brand : BackendRegistry → String → String → Result BackendResolutionResult
  resolve_brand r brand preferred =
      if not (preferred == "")
      then (do
        d ← get_descriptor r preferred
        ok (record {
          selected_backend_name = some preferred;
          candidates = d ∷ [];
          decision_required = false;
          reason = explicit_backend;
        }))
      else if normalize brand == ""
      then ok (unmatched r)
      else resolve_names r (normalize brand) (names_at (Dict.get r.brand_index (normalize brand)))

  unfoldable pub index_brands :
      String → List String → Dict String (List String) → Dict String (List String)
  index_brands name [] d = d
  index_brands name (brand ∷ brands) d = index_brands name brands (
      if normalize brand == ""
      then d
      else Dict.put d (normalize brand) (names_at (Dict.get d (normalize brand)) ++ (name ∷ [])))

  unfoldable pub index_defaults : String → List String → Dict String String → Dict String String
  index_defaults name [] d = d
  index_defaults name (brand ∷ brands) d =
      index_defaults name brands
        (if normalize brand == "" then d else Dict.put d (normalize brand) name)

  unfoldable pub register : BackendRegistry → Backend → Result BackendRegistry
  register r b = elim (Dict.get r.backends b.name) [
    | some old ↦ err value_error
    | none ↦ ok (record {
      backends = Dict.put r.backends b.name b;
      brand_index = index_brands b.name b.supported_brands r.brand_index;
      brand_defaults = index_defaults b.name b.descriptor.default_for_brands r.brand_defaults;
    })
  ]
