-- ===== src/Nodes/Catalog.antt =====
-- The zones that nodes are launched in, and which of them a request's hints mean
-- (_normalize_zone_catalog_entries and the resolvers of diagnostic_platform/node_allocation.py). An
-- entry's field that is missing or null is read as an empty text, as the code reads it; the methods of
-- texts are parameters.
pub mod Honoured
use gds2_automation.Base.{
  String, Bool, true, false, not, ◌&&◌, ◌||◌, Option, none, some, List, [], ◌∷◌, ◌++◌, map, filter,
  ◌==◌, string_eq, if◌then◌else◌,
}
use gds2_automation.Base.Dict.{Dict}
use gds2_automation.Base.Dict

abbrev pub windows_time_zone_aliases : Dict String String
windows_time_zone_aliases =
    ("alaskan standard time", "america/anchorage")
    ∷ ("central standard time", "america/chicago")
    ∷ ("china standard time", "asia/shanghai")
    ∷ ("eastern standard time", "america/new_york")
    ∷ ("hawaiian standard time", "pacific/honolulu")
    ∷ ("mountain standard time", "america/denver")
    ∷ ("pacific standard time", "america/los_angeles")
    ∷ ("tokyo standard time", "asia/tokyo")
    ∷ ("us mountain standard time", "america/phoenix")
    ∷ []

-- A list, or a text with commas.
pub data Listing : Type 0 where
  items : List String → Listing
  text : String → Listing

pub record RawEntry : Type 0 where
  pub zone : String
  pub metro : String
  pub subnet_id : String
  pub api_base_url : String
  pub tunnel_host : String
  pub launch_template_name : String
  pub instance_type : String
  pub security_group_ids : Listing
  pub cities : Listing
  pub metro_aliases : Listing
  pub zone_aliases : Listing
  pub time_zones : Listing
  pub time_zone : String

pub record Defaults : Type 0 where
  pub api_base : String
  pub tunnel_host : String
  pub launch_template_name : String
  pub instance_type : String
  pub subnet_id : String
  pub security_group_ids : List String

pub record ZoneEntry : Type 0 where
  pub zone : String
  pub metro : String
  pub subnet_id : String
  pub api_base_url : String
  pub tunnel_host : String
  pub launch_template_name : String
  pub instance_type : String
  pub security_group_ids : List String
  pub zone_keys : List String
  pub metro_keys : List String
  pub city_keys : List String
  pub time_zone_keys : List String

pub record Route : Type 0 where
  pub preferred_zone : String
  pub preferred_metro : String
  pub source : String

-- The hints of a request; one that is missing is an empty text.
pub record Hints : Type 0 where
  pub preferred_zone : String
  pub preferred_metro : String
  pub client_city : String
  pub client_time_zone : String
  pub organization_city : String
  pub organization_time_zone : String

unfoldable pub is_text : String → Bool
is_text s = not (s == "")

-- a or b
unfoldable pub or_text : String → String → String
or_text a b = if is_text a then a else b

unfoldable pub or_list : List String → List String → List String
or_list [] ys = ys
or_list (x ∷ xs) ys = x ∷ xs

unfoldable pub contains : List String → String → Bool
contains [] s = false
contains (x ∷ xs) s = (x == s) || contains xs s

unfoldable pub or_same : String → Option String → String
or_same t none = t
or_same t (some s) = s

unfoldable pub add_missing : List String → List String → List String
add_missing keys [] = keys
add_missing keys (x ∷ xs) = add_missing (if contains keys x then keys else keys ++ (x ∷ [])) xs

pub record LocalZoneLaunchSpec : Type 0 where
  pub zone : String
  pub metro : String
  pub api_base_url : String
  pub tunnel_host : String
  pub launch_template_name : String
  pub instance_type : String
  pub subnet_id : String
  pub security_group_ids : List String
  pub tags : Option (Dict String String)

unfoldable pub launch_spec : String → ZoneEntry → LocalZoneLaunchSpec
launch_spec brand e = record {
  zone = e.zone;
  metro = e.metro;
  api_base_url = e.api_base_url;
  tunnel_host = e.tunnel_host;
  launch_template_name = e.launch_template_name;
  instance_type = e.instance_type;
  subnet_id = e.subnet_id;
  security_group_ids = e.security_group_ids;
  tags = if is_text brand then some (("Brand", brand) ∷ []) else none;
}

module _ (strip lower : String → String) (split_commas : String → List String) where
  unfoldable pub pieces : Listing → List String
  pieces (items xs) = xs
  pieces (text t) = split_commas t

  unfoldable pub coerce_string_tuple : Listing → List String
  coerce_string_tuple v = filter is_text (map strip (pieces v))

  unfoldable pub normalize_lookup_text : Bool → String → String
  normalize_lookup_text time_zone value =
      let t : String = lower (strip value) in
      if time_zone then or_same t (Dict.get windows_time_zone_aliases t) else t

  unfoldable pub normalize_each : Bool → List String → List String → List String
  normalize_each time_zone normalized [] = normalized
  normalize_each time_zone normalized (x ∷ xs) =
      let t : String = normalize_lookup_text time_zone x in
      normalize_each time_zone
        (if is_text t && not (contains normalized t) then normalized ++ (t ∷ []) else normalized) xs

  unfoldable pub normalize_lookup_tuple : Bool → Listing → List String
  normalize_lookup_tuple time_zone v = normalize_each time_zone [] (coerce_string_tuple v)

  unfoldable pub prepend_lookup : Bool → List String → String → List String
  prepend_lookup time_zone values value =
      let t : String = normalize_lookup_text time_zone value in
      if not (is_text t) || contains values t then values else t ∷ values

  -- An entry with its fields filled in, without a test of them.
  unfoldable pub filled_entry : Defaults → RawEntry → ZoneEntry
  filled_entry d raw =
      let cities : List String = normalize_lookup_tuple false raw.cities in
      record {
        zone = strip raw.zone;
        metro = strip raw.metro;
        subnet_id = or_text (strip raw.subnet_id) d.subnet_id;
        api_base_url = or_text (strip raw.api_base_url) d.api_base;
        tunnel_host = or_text (strip raw.tunnel_host) d.tunnel_host;
        launch_template_name = or_text (strip raw.launch_template_name) d.launch_template_name;
        instance_type = or_text (strip raw.instance_type) d.instance_type;
        security_group_ids =
            or_list (coerce_string_tuple raw.security_group_ids) d.security_group_ids;
        zone_keys =
            prepend_lookup false (normalize_lookup_tuple false raw.zone_aliases) (strip raw.zone);
        metro_keys =
            prepend_lookup false
              (add_missing (normalize_lookup_tuple false raw.metro_aliases) cities)
              (strip raw.metro);
        city_keys = prepend_lookup false cities (strip raw.metro);
        time_zone_keys =
            prepend_lookup true (normalize_lookup_tuple true raw.time_zones) raw.time_zone;
      }

  unfoldable pub is_complete : ZoneEntry → Bool
  is_complete e =
      is_text e.zone
      && is_text e.metro
      && is_text e.subnet_id
      && is_text e.api_base_url
      && is_text e.tunnel_host
      && is_text e.launch_template_name
      && is_text e.instance_type

  unfoldable pub normalize_zone_catalog_entries : Defaults → List RawEntry → List ZoneEntry
  normalize_zone_catalog_entries d catalog = filter is_complete (map (filled_entry d) catalog)

  unfoldable pub first_with : (ZoneEntry → List String) → String → List ZoneEntry → Option ZoneEntry
  first_with keys value [] = none
  first_with keys value (e ∷ es) =
      let rest = first_with keys value es in if contains (keys e) value then some e else rest

  unfoldable pub match_entry :
      List ZoneEntry → (ZoneEntry → List String) → Bool → String → Option ZoneEntry
  match_entry entries keys time_zone value =
      let t : String = normalize_lookup_text time_zone value in
      if is_text t then first_with keys t entries else none

  unfoldable pub or_entry : Option ZoneEntry → ZoneEntry → ZoneEntry
  or_entry none e = e
  or_entry (some f) e = f

  -- `_select_entry`, for the entries of a catalog that is not empty.
  unfoldable pub select_entry :
      ZoneEntry → List ZoneEntry → String → String → String → String → ZoneEntry
  select_entry e es default_zone default_metro preferred_zone preferred_metro =
      or_entry (match_entry (e ∷ es) (λ x. x.zone_keys) false preferred_zone) (
        or_entry (match_entry (e ∷ es) (λ x. x.metro_keys) false preferred_metro) (
          or_entry (match_entry (e ∷ es) (λ x. x.zone_keys) false default_zone)
            (or_entry (match_entry (e ∷ es) (λ x. x.metro_keys) false default_metro) e)))

  unfoldable pub zone_route : String → ZoneEntry → Route
  zone_route source e = record {
    preferred_zone = e.zone;
    preferred_metro = e.metro;
    source = source;
  }

  unfoldable pub metro_route : String → ZoneEntry → Route
  metro_route source e = record { preferred_zone = ""; preferred_metro = e.metro; source = source }

  -- A route by an entry that is found, or the next one.
  unfoldable pub or_route : (ZoneEntry → Route) → Option ZoneEntry → Option Route → Option Route
  or_route route none next = next
  or_route route (some e) next = some (route e)

  unfoldable pub resolve_default_route : ZoneEntry → List ZoneEntry → String → String → Option Route
  resolve_default_route e es default_zone default_metro =
      or_route (zone_route "default_zone")
        (match_entry (e ∷ es) (λ x. x.zone_keys) false default_zone)
        (or_route (metro_route "default_metro")
          (match_entry (e ∷ es) (λ x. x.metro_keys) false default_metro)
          (some (zone_route "catalog_first" e)))

  -- `_resolve` of the routes; none is the empty dict.
  unfoldable pub resolve_route :
      ZoneEntry → List ZoneEntry → String → String → Hints → Bool → Option Route
  resolve_route e es default_zone default_metro hints include_fallbacks =
      or_route (zone_route "preferred_zone")
        (match_entry (e ∷ es) (λ x. x.zone_keys) false hints.preferred_zone)
        (or_route (metro_route "preferred_metro")
          (match_entry (e ∷ es) (λ x. x.metro_keys) false hints.preferred_metro)
          (or_route (metro_route "client_city")
            (match_entry (e ∷ es) (λ x. x.city_keys) false hints.client_city)
            (or_route (metro_route "client_time_zone")
              (match_entry (e ∷ es) (λ x. x.time_zone_keys) true hints.client_time_zone)
              (or_route (metro_route "organization_city")
                (match_entry (e ∷ es) (λ x. x.city_keys) false hints.organization_city)
                (or_route (metro_route "organization_time_zone")
                  (match_entry (e ∷ es) (λ x. x.time_zone_keys) true hints.organization_time_zone)
                  (if include_fallbacks
                    then resolve_default_route e es default_zone default_metro
                    else none))))))

  -- `_resolve` of the launch specifications.
  unfoldable pub resolve_launch_spec :
      ZoneEntry → List ZoneEntry → String → String → String → String → String → LocalZoneLaunchSpec
  resolve_launch_spec e es default_zone default_metro brand preferred_zone preferred_metro =
      launch_spec (strip brand)
        (select_entry e es default_zone default_metro preferred_zone preferred_metro)
