-- ===== src/Nodes/Allocator/Priority.antt =====
-- Which node `allocate` takes (HotPoolAllocator of diagnostic_platform/node_allocation.py).
use gds2_automation.Base.{
  String, ◌≡◌, refl, inl, inr, ◌⊎◌, true, some, ok, err, no_capacity_error, string_eq, nat_eq, ◌≢◌,
  arith,
}
use gds2_automation.Base.Dict.{
  values, IsDict, entries-get, All-values, get-put_self, get-put_ne, get-filter-values,
  filter-values-All,
}
use gds2_automation.Base.Dict
use gds2_automation.Nodes.Inventory.{
  NodeRecord, NodeState, idle, allocating, booting, in_use, draining, unhealthy, is_idle, Inventory,
  healthy_idle_nodes, is_available, changed,
}
use gds2_automation.Nodes.Allocator.{
  HotPoolAllocator, NodeLease, by_priority, leased, put_lease, to_dict, allocate,
}
use gds2_automation.Nodes.Allocator.Order.{
  Precedes, by_priority-Precedes, Explains, reason_of-Explains,
}
use gds2_automation.Nodes.Allocator.Selection.{IsKeyed, claimed, allocate_cases}

-- The inventory finds the node by its id, idle and healthy.
abbrev pub IsFree : Inventory → NodeRecord → Type 0
IsFree inv n = (Dict.get inv n.node_id ≡ some n) × (n.state ≡ idle) × (n.healthy ≡ true)

-- The node is claimed for the session and leased under the id, and all else is as it was.
abbrev pub IsLeased :
    HotPoolAllocator → String → String → NodeRecord → NodeLease → HotPoolAllocator → Type 0
IsLeased a session_id uuid n lease a' =
    (lease.node ≡ record n { state = in_use; current_session_id = some session_id })
    × (lease.assignment_id ≡ uuid)
    × (lease.session_id ≡ session_id)
    × (Dict.get a'.inventory n.node_id ≡ some lease.node)
    × ((k : String) → n.node_id ≢ k → Dict.get a'.inventory k ≡ Dict.get a.inventory k)
    × (Dict.get a'.leases uuid
        ≡ some (record {
          assignment_id = uuid;
          node_id = n.node_id;
          session_id = session_id;
          selection_reason = lease.selection_reason;
        }))
    × ((k : String) → uuid ≢ k → Dict.get a'.leases k ≡ Dict.get a.leases k)

leased-IsLeased :
    (a : HotPoolAllocator) (zone metro session_id uuid : String) (n : NodeRecord)
    → let r : NodeLease × HotPoolAllocator =
        leased a zone metro session_id uuid
          (changed a.inventory n.node_id (claimed n session_id)) in
      IsLeased a session_id uuid n r.0 r.1 × Explains zone metro n r.0.selection_reason
unfolding leased put_lease to_dict changed claimed
leased-IsLeased a zone metro session_id uuid n = (
  (
    refl,
    refl,
    refl,
    get-put_self a.inventory n.node_id _,
    (λ k other. get-put_ne a.inventory n.node_id k _ other),
    get-put_self a.leases uuid _,
    (λ k other. get-put_ne a.leases uuid k _ other),
  ),
  reason_of-Explains zone metro (claimed n session_id),
)

is_idle-eq : (s : NodeState) → is_idle s ≡ true → s ≡ idle
unfolding is_idle
is_idle-eq idle h = refl
is_idle-eq allocating h = cc
is_idle-eq booting h = cc
is_idle-eq in_use h = cc
is_idle-eq draining h = cc
is_idle-eq unhealthy h = cc

available-IsFree :
    (inv : Inventory) (n : NodeRecord)
    → Dict.get inv n.node_id ≡ some n
    → is_available n ≡ true
    → IsFree inv n
unfolding is_available
available-IsFree inv n found h = (found, is_idle-eq n.state (ground (arith, h)), ground (arith, h))

IsFree-available : (inv : Inventory) (n : NodeRecord) → IsFree inv n → is_available n ≡ true
unfolding is_available is_idle
IsFree-available inv n (found, at_rest, well) = rw (at_rest, well) refl

-- On an inventory that holds each node under its id, `allocate` either raises that there is no
-- capacity, and then no node is idle and healthy; or it returns the lease of a node that is. That
-- node is in the preferred zone where any idle and healthy node is, else in the preferred metro where
-- any of them is in either, and of the nodes that stand like it has the least id. It is then in use
-- by the session, the store holds the lease under the new assignment id with the reason of the
-- choice, and no other node and no other lease has changed.
pub allocate_outcome :
    (a : HotPoolAllocator) (zone metro session_id uuid : String)
    → IsKeyed a.inventory
    → (((n : NodeRecord) → ¬ IsFree a.inventory n)
        × (allocate a zone metro session_id uuid ≡ err no_capacity_error))
      ⊎ ((n : NodeRecord) × (lease : NodeLease) × (a' : HotPoolAllocator) × (allocate a zone metro
              session_id uuid
            ≡ ok (lease, a'))
          × IsFree a.inventory n
          × ((m : NodeRecord) → IsFree a.inventory m → Precedes zone metro n m)
          × IsLeased a session_id uuid n lease a'
          × Explains zone metro n lease.selection_reason)
unfolding healthy_idle_nodes
allocate_outcome a zone metro session_id uuid keyed =
    elim (allocate_cases a zone metro session_id uuid keyed) [
      | inl (nothing, h) ↦ inl (
        λ n free.
            get-filter-values is_available a.inventory n.node_id n free.0
              (IsFree-available a.inventory n free) nothing,
        h,
      )
      | inr (n, found, free, least, h) ↦
          let (held, why) = leased-IsLeased a zone metro session_id uuid n in
          inr (
            n,
            _,
            _,
            h,
            available-IsFree a.inventory n found free,
            (λ m other. by_priority-Precedes zone metro n m (
                filter-values-All (λ x. by_priority zone metro n x ≡ true) is_available a.inventory
                  m.node_id m least other.0 (IsFree-available a.inventory m other))),
            held,
            why,
          )
    ]
