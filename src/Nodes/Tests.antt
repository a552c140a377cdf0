-- ===== src/Nodes/Tests.antt =====
-- The allocation of nodes at concrete inputs (diagnostic_platform/node_allocation.py).
use gds2_automation.Base.{
  String, ◌≡◌, refl, Bool, true, false, none, some, List, [], ◌∷◌, ok, err, no_capacity_error,
  string_eq, ◌⊎◌, sort, insert, key_leq, text_leq,
}
use gds2_automation.Base.Dict
use gds2_automation.Nodes.Catalog
use gds2_automation.Nodes.Catalog.Honoured.{Honours, resolve_route-Honours}
use gds2_automation.Nodes.Inventory.{
  NodeRecord, NodeState, idle, booting, in_use, Inventory, healthy_idle_nodes, is_available,
  is_idle, changed, hold, claim_found,
}
use gds2_automation.Nodes.Inventory
use gds2_automation.Nodes.Allocator.{
  HotPoolAllocator, NodeLease, allocate, allocate_selected, select, first, by_priority, priority,
  class_of, is_preferred, leased, put_lease, to_dict, reason_of, release,
}
use gds2_automation.Nodes.Allocator.Order.{Precedes, Explains}
use gds2_automation.Nodes.Allocator.Priority.{IsFree, IsLeased, allocate_outcome}
use gds2_automation.Nodes.Allocator.Leases.{IsSound}
use gds2_automation.Nodes.Run.{
  Step, Reach, here, ◌then_step◌, start, leases-IsSound, released_capacity,
}
use gds2_automation.Nodes.Run

abbrev node : String → String → NodeState → Bool → NodeRecord
node node_id zone state healthy = record {
  node_id = node_id;
  zone = zone;
  metro = "dallas";
  api_base_url = "http://host";
  tunnel_host = "host";
  state = state;
  healthy = healthy;
  current_session_id = none;
}

-- One idle node in another zone, one in the preferred zone, and one that boots.
abbrev nodes : List NodeRecord
nodes = node "a" "east" idle true ∷ node "b" "west" idle true ∷ node "c" "west" booting false ∷ []

abbrev leased_b : NodeLease
leased_b = record {
  assignment_id = "1";
  node = record (node "b" "west" idle true) { state = in_use; current_session_id = some "s" };
  session_id = "s";
  selection_reason = "preferred_zone";
}

abbrev pool : HotPoolAllocator
pool = record {
  inventory =
      ("a", node "a" "east" idle true)
      ∷ ("b", leased_b.node)
      ∷ ("c", node "c" "west" booting false)
      ∷ [];
  leases =
      (
        "1",
        record {
          assignment_id = "1";
          node_id = "b";
          session_id = "s";
          selection_reason = "preferred_zone";
        },
      )
      ∷ [];
}

allocated_b : allocate (start nodes) "west" "dallas" "s" "1" ≡ ok (leased_b, pool)
unfolding allocate allocate_selected select first sort insert by_priority priority class_of
    is_preferred key_leq text_leq healthy_idle_nodes is_available is_idle Inventory.claim
    Inventory.get claim_found changed start Inventory.init hold Dict.put Dict.get leased put_lease
    to_dict reason_of
allocated_b = refl

new_id : Dict.get (start nodes).leases "1" ≡ none
unfolding start Dict.get
new_id = refl

run : Reach (start nodes) pool
run =
    Run.allocated {a = start nodes} "west" "dallas" "s" "1" leased_b new_id allocated_b
    then_step here

leases-IsSound_example : IsSound pool
leases-IsSound_example = leases-IsSound nodes pool run

released_capacity_example :
    (lease : NodeLease) × (a' : HotPoolAllocator) × (allocate
        (release pool "1" idle true).1
        "east"
        ""
        "t"
        "2"
      ≡ ok (lease, a'))
released_capacity_example =
    released_capacity nodes pool "1" (to_dict leased_b) "east" "" "t" "2" run
      (unfold Dict.get to_dict in refl)

allocate_outcome_example :
    (((n : NodeRecord) → ¬ IsFree pool.inventory n)
      × (allocate pool "west" "" "t" "2" ≡ err no_capacity_error))
    ⊎ ((n : NodeRecord) × (lease : NodeLease) × (a' : HotPoolAllocator) × (allocate pool "west" ""
            "t" "2"
          ≡ ok (lease, a'))
        × IsFree pool.inventory n
        × ((m : NodeRecord) → IsFree pool.inventory m → Precedes "west" "" n m)
        × IsLeased pool "t" "2" n lease a'
        × Explains "west" "" n lease.selection_reason)
unfolding Dict.get
allocate_outcome_example =
    allocate_outcome pool "west" "" "t" "2" ((refl, (refl, (refl, tt))), (refl, (refl, (refl, tt))))

-- A catalog of one zone, and texts that are stripped and in lower case already.
abbrev same_text : String → String
same_text t = t

abbrev whole : String → List String
whole t = t ∷ []

abbrev raw_entry : Catalog.RawEntry
raw_entry = record {
  zone = "us-east-1-dfw-2a";
  metro = "dallas";
  subnet_id = "subnet-1";
  api_base_url = "";
  tunnel_host = "";
  launch_template_name = "worker";
  instance_type = "c6i.large";
  security_group_ids = Catalog.items [];
  cities = Catalog.items ("austin" ∷ []);
  metro_aliases = Catalog.items [];
  zone_aliases = Catalog.items [];
  time_zones = Catalog.items ("central standard time" ∷ []);
  time_zone = "";
}

abbrev defaults : Catalog.Defaults
defaults = record {
  api_base = "http://host";
  tunnel_host = "host";
  launch_template_name = "";
  instance_type = "";
  subnet_id = "";
  security_group_ids = [];
}

abbrev filled : Catalog.ZoneEntry
filled = Catalog.filled_entry same_text same_text whole defaults raw_entry

abbrev from_austin : Catalog.Hints
from_austin = record {
  preferred_zone = "";
  preferred_metro = "";
  client_city = "austin";
  client_time_zone = "";
  organization_city = "";
  organization_time_zone = "";
}

abbrev to_dallas : Catalog.Route
to_dallas = record { preferred_zone = ""; preferred_metro = "dallas"; source = "client_city" }

one_entry :
    Catalog.normalize_zone_catalog_entries same_text same_text whole defaults (raw_entry ∷ [])
    ≡ filled ∷ []
unfolding Catalog.normalize_zone_catalog_entries Catalog.filled_entry Catalog.is_complete
    Catalog.is_text Catalog.or_text
one_entry = refl

austin_route :
    Catalog.resolve_route same_text same_text whole filled [] "" "" from_austin true
    ≡ some to_dallas
unfolding Catalog.resolve_route Catalog.or_route Catalog.match_entry Catalog.first_with
    Catalog.contains Catalog.metro_route Catalog.filled_entry Catalog.prepend_lookup
    Catalog.normalize_lookup_tuple Catalog.normalize_each Catalog.normalize_lookup_text
    Catalog.coerce_string_tuple Catalog.pieces Catalog.is_text
austin_route = refl

resolve_route-Honours_example : Honours same_text same_text whole filled [] "" "" to_dallas
resolve_route-Honours_example =
    resolve_route-Honours same_text same_text whole defaults (raw_entry ∷ []) filled [] "" ""
      from_austin true to_dallas (λ t. refl) (λ t h. h) one_entry austin_route
