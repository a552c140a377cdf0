-- ===== src/Nodes/Allocator.antt =====
-- The allocator of the hot pool and its leases (HotPoolAllocator and InMemoryLeaseStore of
-- diagnostic_platform/node_allocation.py).
pub mod Order
pub mod Priority
pub mod Selection
pub mod Leases
use gds2_automation.Base.{
  ℕ, zero, suc, String, Bool, true, false, not, ◌&&◌, Option, none, some, List, [], ◌∷◌, Result, ok,
  err, key_error, no_capacity_error, ◌>>=◌, if◌then◌else◌, ◌==◌, string_eq, sort, key_leq,
}
use gds2_automation.Base.Dict.{Dict}
use gds2_automation.Base.Dict
use gds2_automation.Nodes.Inventory.{
  NodeRecord, NodeState, Inventory, healthy_idle_nodes, pending_capacity_nodes,
}
use gds2_automation.Nodes.Inventory

pub record NodeLease : Type 0 where
  pub assignment_id : String
  pub node : NodeRecord
  pub session_id : String
  pub selection_reason : String

-- `NodeLease.to_dict`
pub record LeasePayload : Type 0 where
  pub assignment_id : String
  pub node_id : String
  pub session_id : String
  pub selection_reason : String

unfoldable pub to_dict : NodeLease → LeasePayload
to_dict lease = record {
  assignment_id = lease.assignment_id;
  node_id = lease.node.node_id;
  session_id = lease.session_id;
  selection_reason = lease.selection_reason;
}

abbrev pub LeaseStore : Type 0
LeaseStore = Dict String LeasePayload

unfoldable pub put_lease : LeaseStore → NodeLease → LeaseStore
put_lease leases lease = Dict.put leases lease.assignment_id (to_dict lease)

pub record HotPoolAllocator : Type 0 where
  pub inventory : Inventory
  pub leases : LeaseStore

-- `preferred and value == preferred`
unfoldable pub is_preferred : String → String → Bool
is_preferred preferred value = not (preferred == "") && (value == preferred)

unfoldable pub class_of : String → String → NodeRecord → ℕ
class_of preferred_zone preferred_metro n =
    if is_preferred preferred_zone n.zone
    then 0
    else if is_preferred preferred_metro n.metro
    then 1
    else 2

unfoldable pub priority : String → String → NodeRecord → ℕ × String
priority preferred_zone preferred_metro n = (class_of preferred_zone preferred_metro n, n.node_id)

unfoldable pub by_priority : String → String → NodeRecord → NodeRecord → Bool
by_priority preferred_zone preferred_metro m n =
    key_leq (priority preferred_zone preferred_metro m) (priority preferred_zone preferred_metro n)

unfoldable pub first : List NodeRecord → Option NodeRecord
first [] = none
first (n ∷ ns) = some n

-- sorted(candidates, key=_priority)[0], where there are candidates
unfoldable pub select : String → String → List NodeRecord → Option NodeRecord
select preferred_zone preferred_metro candidates =
    first (sort (by_priority preferred_zone preferred_metro) candidates)

unfoldable pub pending_capacity_node : HotPoolAllocator → String → String → Option NodeRecord
pending_capacity_node a preferred_zone preferred_metro =
    select preferred_zone preferred_metro (pending_capacity_nodes a.inventory)

unfoldable pub reason_of : ℕ → String
reason_of zero = "preferred_zone"
reason_of (suc zero) = "preferred_metro"
reason_of (suc (suc n)) = "any_healthy_idle"

-- The lease of a claimed node, put in the store; the assignment id is what uuid4 gave.
unfoldable pub leased :
    HotPoolAllocator
    → String
    → String
    → String
    → String
    → NodeRecord × Inventory
    → NodeLease × HotPoolAllocator
leased a preferred_zone preferred_metro session_id uuid (n, inv) =
    let lease : NodeLease = record {
      assignment_id = uuid;
      node = n;
      session_id = session_id;
      selection_reason = reason_of (class_of preferred_zone preferred_metro n);
    } in
    (lease, record { inventory = inv; leases = put_lease a.leases lease })

unfoldable pub allocate_selected :
    HotPoolAllocator
    → String
    → String
    → String
    → String
    → Option NodeRecord
    → Result (NodeLease × HotPoolAllocator)
allocate_selected a preferred_zone preferred_metro session_id uuid none = err no_capacity_error
allocate_selected a preferred_zone preferred_metro session_id uuid (some n) =
    Inventory.claim a.inventory n.node_id session_id >>= λ claimed.
    ok (leased a preferred_zone preferred_metro session_id uuid claimed)

unfoldable pub allocate :
    HotPoolAllocator → String → String → String → String → Result (NodeLease × HotPoolAllocator)
allocate a preferred_zone preferred_metro session_id uuid =
    allocate_selected a preferred_zone preferred_metro session_id uuid
      (select preferred_zone preferred_metro (healthy_idle_nodes a.inventory))

unfoldable pub payload_of : Option LeasePayload → Result LeasePayload
payload_of none = err key_error
payload_of (some p) = ok p

unfoldable pub rebound :
    HotPoolAllocator → LeasePayload → String → NodeRecord × Inventory → NodeLease × HotPoolAllocator
rebound a p session_id (n, inv) =
    let lease : NodeLease = record {
      assignment_id = p.assignment_id;
      node = n;
      session_id = session_id;
      selection_reason = p.selection_reason;
    } in
    (lease, record { inventory = inv; leases = put_lease a.leases lease })

unfoldable pub bind_found :
    HotPoolAllocator → String → LeasePayload → Result (NodeLease × HotPoolAllocator)
bind_found a session_id p = Inventory.get a.inventory p.node_id >>= λ n.
    Inventory.bind_session a.inventory n.node_id session_id >>= λ bound.
    ok (rebound a p session_id bound)

unfoldable pub bind : HotPoolAllocator → String → String → Result (NodeLease × HotPoolAllocator)
bind a assignment_id session_id =
    payload_of (Dict.get a.leases assignment_id) >>= bind_found a session_id

unfoldable pub with_inventory :
    HotPoolAllocator → Result (NodeRecord × Inventory) → Result NodeRecord × HotPoolAllocator
with_inventory a (err e) = (err e, a)
with_inventory a (ok (n, inv)) = (ok n, record a { inventory = inv })

-- The lease is gone from the store even where the inventory then raises.
unfoldable pub release_found :
    HotPoolAllocator
    → String
    → NodeState
    → Bool
    → Result LeasePayload
    → Result NodeRecord × HotPoolAllocator
release_found a assignment_id next_state healthy (err e) = (err e, a)
release_found a assignment_id next_state healthy (ok p) =
    with_inventory (record a { leases = Dict.pop a.leases assignment_id })
      (Inventory.release a.inventory p.node_id next_state healthy)

unfoldable pub release :
    HotPoolAllocator → String → NodeState → Bool → Result NodeRecord × HotPoolAllocator
release a assignment_id next_state healthy =
    release_found a assignment_id next_state healthy (payload_of (Dict.get a.leases assignment_id))
