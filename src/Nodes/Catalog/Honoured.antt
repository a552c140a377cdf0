-- ===== src/Nodes/Catalog/Honoured.antt =====
-- A node is launched where the route says (the two resolvers of
-- diagnostic_platform/node_allocation.py).
use gds2_automation.Base.{
  String, Bool, true, false, Option, none, some, List, [], ◌∷◌, string_eq, if◌then◌else◌, ◌≡◌, ◌⊎◌,
  refl, subst, inl, inr, All, arith, Bool-cases, Option-cases,
}
use gds2_automation.Nodes.Catalog.{
  RawEntry, Defaults, ZoneEntry, Route, Hints, is_text, contains, normalize_lookup_text,
  prepend_lookup, filled_entry, is_complete, normalize_zone_catalog_entries, first_with,
  match_entry, or_entry, select_entry, zone_route, metro_route, or_route, resolve_default_route,
  resolve_route,
}

guarded-some :
    (b : Bool) (o : Option ZoneEntry) (x : ZoneEntry)
    → (if b then o else none) ≡ some x
    → o ≡ some x
guarded-some true o x h = h
guarded-some false o x h = cc

module _ (strip lower : String → String) (split_commas : String → List String) where
  abbrev norm : String → String
  norm = normalize_lookup_text strip lower split_commas false

  -- An entry is found by its own zone and by its own metro.
  Named : ZoneEntry → Type 0
  Named e =
      (is_text (norm e.zone) ≡ true)
      × (contains e.zone_keys (norm e.zone) ≡ true)
      × (is_text (norm e.metro) ≡ true)
      × (contains e.metro_keys (norm e.metro) ≡ true)

  prepend-contains :
      (values : List String) (v : String)
      → is_text (norm v) ≡ true
      → contains (prepend_lookup strip lower split_commas false values v) (norm v) ≡ true
  unfolding prepend_lookup
  prepend-contains values v h = elim (Bool-cases (contains values (norm v))) [
    | inl there ↦ rw (h, there) (there)
    | inr absent ↦
        rw (h, absent) (unfold contains in ground (arith, string_eq.beq_iff (norm v) (norm v)))
  ]

  filled-Named :
      (d : Defaults) (raw : RawEntry)
      → ((t : String) → strip (strip t) ≡ strip t)
      → ((t : String) → is_text t ≡ true → is_text (lower t) ≡ true)
      → is_complete strip lower split_commas (filled_entry strip lower split_commas d raw) ≡ true
      → Named (filled_entry strip lower split_commas d raw)
  unfolding Named filled_entry is_complete
  filled-Named d raw strip_strip lower_text h = (
    zone,
    prepend-contains _ (strip raw.zone) zone,
    metro,
    prepend-contains _ (strip raw.metro) metro,
  )
    where
      kept : (t : String) → is_text (strip t) ≡ true → is_text (norm (strip t)) ≡ true
      kept t i = unfold normalize_lookup_text in rw (strip_strip t) (lower_text (strip t) i)

      zone : is_text (norm (strip raw.zone)) ≡ true
      zone = kept raw.zone (ground (arith, h))

      metro : is_text (norm (strip raw.metro)) ≡ true
      metro = kept raw.metro (ground (arith, h))

  first_with-All :
      (P : ZoneEntry → Type 0) (keys : ZoneEntry → List String) (v : String) (es : List ZoneEntry)
      (e : ZoneEntry)
      → All P es
      → first_with strip lower split_commas keys v es ≡ some e
      → P e
  unfolding first_with
  first_with-All P keys v [] e all h = cc
  first_with-All P keys v (x ∷ es) e (p, all) h =
      either (contains (keys x) v) h (first_with-All P keys v es e all)
    where
      either :
          (b : Bool)
          → (if b then some x else first_with strip lower split_commas keys v es) ≡ some e
          → (first_with strip lower split_commas keys v es ≡ some e → P e)
          → P e
      either true h later = let same : x ≡ e = cc in subst P same p
      either false h later = later h

  -- Where an entry is found by some keys, one is found by any other key of it.
  first_with-other :
      (keys other : ZoneEntry → List String) (v w : String) (es : List ZoneEntry) (e : ZoneEntry)
      → first_with strip lower split_commas keys v es ≡ some e
      → contains (other e) w ≡ true
      → (f : ZoneEntry) × (first_with strip lower split_commas other w es ≡ some f)
  unfolding first_with
  first_with-other keys other v w [] e h has = cc
  first_with-other keys other v w (x ∷ es) e h has =
      either (contains (keys x) v) (contains (other x) w) refl h
        (λ i. first_with-other keys other v w es e i has)
    where
      either :
          (b c : Bool)
          → contains (other x) w ≡ c
          → (if b then some x else first_with strip lower split_commas keys v es) ≡ some e
          → (first_with strip lower split_commas keys v es ≡ some e
              → (f : ZoneEntry) × (first_with strip lower split_commas other w es ≡ some f))
          → (f : ZoneEntry) × ((if c
                then some x
                else first_with strip lower split_commas other w es)
              ≡ some f)
      either b true at h later = (x, refl)
      either false false at h later = later h
      either true false at h later =
          let same : x ≡ e = cc in
          let bad : contains (other e) w ≡ false =
            subst (λ y. contains (other y) w ≡ false) same at in
          cc

  -- The launch takes an entry that the route's zone or metro finds.
  unfoldable pub Honours : ZoneEntry → List ZoneEntry → String → String → Route → Type 0
  Honours e es default_zone default_metro r =
      (f : ZoneEntry) × ((match_entry strip lower split_commas (e ∷ es) (λ x. x.zone_keys) false
            r.preferred_zone
          ≡ some f)
        ⊎ (match_entry strip lower split_commas (e ∷ es) (λ x. x.metro_keys) false r.preferred_metro
            ≡ some f))
      × (select_entry strip lower split_commas e es default_zone default_metro r.preferred_zone
            r.preferred_metro
          ≡ f)

  module _ (e : ZoneEntry) (es : List ZoneEntry) (default_zone default_metro : String)
      (named : All Named (e ∷ es)) where
    -- An entry that was found by some keys is found by its zone and by its metro.
    named_again :
        (keys : ZoneEntry → List String) (time_zone : Bool) (value : String) (x : ZoneEntry)
        → match_entry strip lower split_commas (e ∷ es) keys time_zone value ≡ some x
        → ((f : ZoneEntry) × (match_entry strip lower split_commas
                (e ∷ es)
                (λ y. y.zone_keys)
                false
                x.zone
              ≡ some f))
          × ((g : ZoneEntry) × (match_entry strip lower split_commas
                  (e ∷ es)
                  (λ y. y.metro_keys)
                  false
                  x.metro
                ≡ some g))
    unfolding match_entry Named
    named_again keys time_zone value x h =
        let t : String = normalize_lookup_text strip lower split_commas time_zone value in
        let found : first_with strip lower split_commas keys t (e ∷ es) ≡ some x =
          guarded-some (is_text t) _ x h in
        let (is_zone, has_zone, is_metro, has_metro) =
          first_with-All Named keys t (e ∷ es) x named found in
        let (f, by_zone) =
          first_with-other keys (λ y. y.zone_keys) t (norm x.zone) (e ∷ es) x found has_zone in
        let (g, by_metro) =
          first_with-other keys (λ y. y.metro_keys) t (norm x.metro) (e ∷ es) x found has_metro in
        ((f, rw is_zone by_zone), (g, rw is_metro by_metro))

    by_zone-Honours :
        (r : Route) (f : ZoneEntry)
        → match_entry strip lower split_commas (e ∷ es) (λ y. y.zone_keys) false r.preferred_zone
          ≡ some f
        → Honours e es default_zone default_metro r
    unfolding Honours select_entry or_entry
    by_zone-Honours r f h = (f, inl h, rw h refl)

    by_metro-Honours :
        (r : Route) (g : ZoneEntry)
        → match_entry strip lower split_commas (e ∷ es) (λ y. y.metro_keys) false r.preferred_metro
          ≡ some g
        → Honours e es default_zone default_metro r
    unfolding Honours select_entry or_entry
    by_metro-Honours r g h =
        elim (Option-cases (
          match_entry strip lower split_commas (e ∷ es) (λ y. y.zone_keys) false
            r.preferred_zone)) [
              | inr (f, by_zone) ↦ (f, inl by_zone, rw by_zone refl)
              | inl nothing ↦ (g, inr h, rw (nothing, h) refl)
            ]

    or_route-Honours :
        (route : ZoneEntry → Route) (o : Option ZoneEntry) (next : Option Route) (r : Route)
        → ((x : ZoneEntry) → o ≡ some x → Honours e es default_zone default_metro (route x))
        → (next ≡ some r → Honours e es default_zone default_metro r)
        → or_route strip lower split_commas route o next ≡ some r
        → Honours e es default_zone default_metro r
    unfolding or_route
    or_route-Honours route none next r here later h = later h
    or_route-Honours route (some x) next r here later h =
        let same : route x ≡ r = cc in
        subst (Honours e es default_zone default_metro) same (here x refl)

    zone-Honours :
        (source : String) (keys : ZoneEntry → List String) (value : String) (x : ZoneEntry)
        → match_entry strip lower split_commas (e ∷ es) keys false value ≡ some x
        → Honours e es default_zone default_metro (zone_route strip lower split_commas source x)
    unfolding zone_route
    zone-Honours source keys value x h =
        let (f, by_zone) = (named_again keys false value x h).0 in
        by_zone-Honours
          (record { preferred_zone = x.zone; preferred_metro = x.metro; source = source }) f by_zone

    metro-Honours :
        (source : String) (keys : ZoneEntry → List String) (time_zone : Bool) (value : String)
        (x : ZoneEntry)
        → match_entry strip lower split_commas (e ∷ es) keys time_zone value ≡ some x
        → Honours e es default_zone default_metro (metro_route strip lower split_commas source x)
    unfolding metro_route
    metro-Honours source keys time_zone value x h =
        let (g, by_metro) = (named_again keys time_zone value x h).1 in
        by_metro-Honours
          (record { preferred_zone = ""; preferred_metro = x.metro; source = source }) g by_metro

    first-Honours :
        Honours e es default_zone default_metro
          (zone_route strip lower split_commas "catalog_first" e)
    unfolding zone_route match_entry first_with Named
    first-Honours =
        let (is_zone, has_zone, is_metro, has_metro) = named.0 in
        by_zone-Honours
          (record { preferred_zone = e.zone; preferred_metro = e.metro; source = "catalog_first" })
          e (rw (is_zone, has_zone) refl)

    default-Honours :
        (r : Route)
        → resolve_default_route strip lower split_commas e es default_zone default_metro ≡ some r
        → Honours e es default_zone default_metro r
    unfolding resolve_default_route
    default-Honours r h =
        or_route-Honours _ _ _ r (zone-Honours "default_zone" (λ x. x.zone_keys) default_zone)
          (λ i.
            or_route-Honours _ _ _ r
              (metro-Honours "default_metro" (λ x. x.metro_keys) false default_metro)
              (λ j.
                let same : zone_route strip lower split_commas "catalog_first" e ≡ r = cc in
                subst (Honours e es default_zone default_metro) same first-Honours)
              i)
          h

    resolve-Honours :
        (hints : Hints) (include_fallbacks : Bool) (r : Route)
        → resolve_route strip lower split_commas e es default_zone default_metro hints
            include_fallbacks
          ≡ some r
        → Honours e es default_zone default_metro r
    unfolding resolve_route
    resolve-Honours hints include_fallbacks r h =
        or_route-Honours _ _ _ r
          (zone-Honours "preferred_zone" (λ x. x.zone_keys) hints.preferred_zone)
          (or_route-Honours _ _ _ r
            (metro-Honours "preferred_metro" (λ x. x.metro_keys) false hints.preferred_metro)
            (or_route-Honours _ _ _ r
              (metro-Honours "client_city" (λ x. x.city_keys) false hints.client_city)
              (or_route-Honours _ _ _ r
                (metro-Honours "client_time_zone" (λ x. x.time_zone_keys) true
                  hints.client_time_zone)
                (or_route-Honours _ _ _ r
                  (metro-Honours "organization_city" (λ x. x.city_keys) false
                    hints.organization_city)
                  (or_route-Honours _ _ _ r
                    (metro-Honours "organization_time_zone" (λ x. x.time_zone_keys) true
                      hints.organization_time_zone)
                    (fallback include_fallbacks))))))
          h
      where
        fallback :
            (b : Bool)
            → (if b
                then resolve_default_route strip lower split_commas e es default_zone default_metro
                else none)
              ≡ some r
            → Honours e es default_zone default_metro r
        fallback true i = default-Honours r i
        fallback false i = cc

  entries-Named :
      (d : Defaults) (catalog : List RawEntry)
      → ((t : String) → strip (strip t) ≡ strip t)
      → ((t : String) → is_text t ≡ true → is_text (lower t) ≡ true)
      → All Named (normalize_zone_catalog_entries strip lower split_commas d catalog)
  unfolding normalize_zone_catalog_entries
  entries-Named d [] strip_strip lower_text = tt
  entries-Named d (raw ∷ catalog) strip_strip lower_text =
      elim (Bool-cases
        (is_complete strip lower split_commas (filled_entry strip lower split_commas d raw))) [
          | inl complete ↦ rw complete (
            filled-Named d raw strip_strip lower_text complete,
            entries-Named d catalog strip_strip lower_text,
          )
          | inr incomplete ↦ rw incomplete (entries-Named d catalog strip_strip lower_text)
        ]

-- Of a catalog with a complete entry, where stripping a text twice is stripping it once and a text
-- does not become empty in lower case, a launch by a route that was resolved from the hints of a
-- request takes an entry that the route's zone finds among the names of zones, or its metro among the
-- names of metros.
pub resolve_route-Honours :
    (strip lower : String → String) (split_commas : String → List String) (d : Defaults)
    (catalog : List RawEntry) (e : ZoneEntry) (es : List ZoneEntry)
    (default_zone default_metro : String) (hints : Hints) (include_fallbacks : Bool) (r : Route)
    → ((t : String) → strip (strip t) ≡ strip t)
    → ((t : String) → is_text t ≡ true → is_text (lower t) ≡ true)
    → normalize_zone_catalog_entries strip lower split_commas d catalog ≡ e ∷ es
    → resolve_route strip lower split_commas e es default_zone default_metro hints include_fallbacks
      ≡ some r
    → Honours strip lower split_commas e es default_zone default_metro r
resolve_route-Honours strip lower split_commas d catalog e es default_zone default_metro hints
      include_fallbacks r strip_strip lower_text entries h =
    resolve-Honours strip lower split_commas e es default_zone default_metro
      (subst (All (Named strip lower split_commas)) entries
        (entries-Named strip lower split_commas d catalog strip_strip lower_text))
      hints include_fallbacks r h
