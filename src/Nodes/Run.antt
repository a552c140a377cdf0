-- ===== src/Nodes/Run.antt =====
-- Runs of the allocator, its inventory and the readiness monitor
-- (diagnostic_platform/node_allocation.py).
use gds2_automation.Base.{
  String, ◌≡◌, ◌≢◌, refl, inl, inr, Bool, true, none, some, List, [], ◌∷◌, Result, ok, string_eq,
}
use gds2_automation.Base.Dict.{put-IsDict, get-All, get-put_self, get-filter-values}
use gds2_automation.Base.Dict
use gds2_automation.Nodes.Inventory.{
  NodeRecord, NodeState, in_use, idle, booting, is_booting, is_idle, is_available,
  healthy_idle_nodes, Inventory, register, hold, changed,
}
use gds2_automation.Nodes.Inventory
use gds2_automation.Nodes.Readiness.{poll_once}
use gds2_automation.Nodes.Allocator.{
  HotPoolAllocator, NodeLease, LeasePayload, allocate, bind, release, release_found, payload_of,
  with_inventory,
}
use gds2_automation.Nodes.Allocator.Selection.{IsKeyed, allocate_cases}
use gds2_automation.Nodes.Allocator.Leases.{IsSound, InUse, Held, IsExclusive, changed-IsKeyed}
use gds2_automation.Nodes.Sound.{
  allocate-IsSound, bind-IsSound, release-IsSound, unleased-IsSound, leased_node,
}
use gds2_automation.Nodes.Promotion.{promote_each-IsSound}

-- An operation of the pool that succeeds, or a release in any case. Assignment ids are new, as uuid4's
-- are taken to be, and so are the ids of the nodes that EC2 launches.
pub data Step : HotPoolAllocator → HotPoolAllocator → Type 0 where
  allocated :
      {a a' : HotPoolAllocator}
      → (zone metro session_id uuid : String) → (lease : NodeLease) → Dict.get a.leases uuid ≡ none
      → allocate a zone metro session_id uuid ≡ ok (lease, a')
      → Step a a'
  bound :
      {a a' : HotPoolAllocator}
      → (k session_id : String) → (lease : NodeLease) → bind a k session_id ≡ ok (lease, a')
      → Step a a'
  released :
      {a : HotPoolAllocator}
      → (k : String) → (next_state : NodeState) → (healthy : Bool)
      → Step a (release a k next_state healthy).1
  registered :
      {a : HotPoolAllocator}
      → (n : NodeRecord) → Dict.get a.inventory n.node_id ≡ none
      → Step a (record a { inventory = (register a.inventory n).1 })
  polled :
      {a : HotPoolAllocator}
      → {inv' : Inventory} → (probe : NodeRecord → Result Bool) → (ready : List NodeRecord)
      → poll_once probe a.inventory ≡ ok (ready, inv')
      → Step a (record a { inventory = inv' })

infixr 5 ◌then_step◌
pub data Reach : HotPoolAllocator → HotPoolAllocator → Type 0 where
  here : {a : HotPoolAllocator} → Reach a a
  ◌then_step◌ : {a b c : HotPoolAllocator} → Step a b → Reach b c → Reach a c

absent_unused :
    (inv : Inventory) (node_id : String) → Dict.get inv node_id ≡ none → ¬ InUse inv node_id
unfolding InUse
absent_unused inv node_id missing (m, found, used) = cc

-- In an allocator whose leases are held and name distinct nodes, they are and do after any step.
Step-IsSound : {a b : HotPoolAllocator} → Step a b → IsSound a → IsSound b
unfolding register changed poll_once
Step-IsSound {a} {b} (allocated zone metro session_id uuid lease new h) sound =
    allocate-IsSound a b zone metro session_id uuid lease sound h
Step-IsSound {a} {b} (bound k session_id lease h) sound =
    bind-IsSound a b k session_id lease sound h
Step-IsSound {a} {b} (released k next_state healthy) sound =
    release-IsSound a k next_state healthy sound
Step-IsSound {a} {b} (registered n new) sound =
    unleased-IsSound a n.node_id n sound refl (absent_unused a.inventory n.node_id new)
Step-IsSound {a} {b} (polled {inv' = inv'} probe ready h) sound =
    promote_each-IsSound probe a _ ready inv' sound h

steps-IsSound : {a b : HotPoolAllocator} → Reach a b → IsSound a → IsSound b
steps-IsSound here sound = sound
steps-IsSound (s then_step rest) sound = steps-IsSound rest (Step-IsSound s sound)

hold-IsKeyed : (nodes : List NodeRecord) (inv : Inventory) → IsKeyed inv → IsKeyed (hold inv nodes)
unfolding hold
hold-IsKeyed [] inv keyed = keyed
hold-IsKeyed (n ∷ ns) inv keyed =
    hold-IsKeyed ns (Dict.put inv n.node_id n) (changed-IsKeyed inv n.node_id n keyed refl)

-- A new allocator over an inventory of the given nodes.
unfoldable pub start : List NodeRecord → HotPoolAllocator
start nodes = record { inventory = Inventory.init nodes; leases = [] }

start-IsSound : (nodes : List NodeRecord) → IsSound (start nodes)
unfolding start IsSound Held IsExclusive Inventory.init Dict.get
start-IsSound nodes = (hold-IsKeyed nodes [] (tt, tt), (λ k p h. cc), λ j k p q h i same. cc)

-- From a new allocator on, whatever is allocated, bound, released, launched and promoted, the
-- inventory holds each node under its id, each lease is stored under its own id, its node is there
-- and in use, and no two leases name one node.
pub leases-IsSound :
    (nodes : List NodeRecord) (a : HotPoolAllocator) → Reach (start nodes) a → IsSound a
leases-IsSound nodes a run = steps-IsSound run (start-IsSound nodes)

available_listed :
    (inv : Inventory) (k : String) (n : NodeRecord)
    → Dict.get inv k ≡ some n
    → is_available n ≡ true
    → healthy_idle_nodes inv ≢ []
unfolding healthy_idle_nodes
available_listed inv k n found free = get-filter-values is_available inv k n found free

-- A leased node that is released is held, idle and healthy.
release_idle :
    (a : HotPoolAllocator) (k : String) (p : LeasePayload)
    → IsSound a
    → Dict.get a.leases k ≡ some p
    → (n : NodeRecord) × (Dict.get (release a k idle true).1.inventory p.node_id ≡ some n)
      × (is_available n ≡ true)
unfolding release release_found payload_of with_inventory Inventory.release Inventory.get changed
    is_available is_idle
release_idle a k p sound leased =
    let (id, n, found, used, same) = leased_node a k p sound leased in
    let n' : NodeRecord = record n { state = idle; healthy = true; current_session_id = none } in
    (n', rw (leased, found) (get-put_self a.inventory p.node_id n'), refl)

-- In a reachable state, once a leased node is released as idle and healthy, an allocation succeeds,
-- whatever zone and metro it prefers.
pub released_capacity :
    (nodes : List NodeRecord) (a : HotPoolAllocator) (k : String) (p : LeasePayload)
    (zone metro session_id uuid : String)
    → Reach (start nodes) a
    → Dict.get a.leases k ≡ some p
    → (lease : NodeLease) × (a' : HotPoolAllocator) × (allocate
          (release a k idle true).1
          zone
          metro
          session_id
          uuid
        ≡ ok (lease, a'))
released_capacity nodes a k p zone metro session_id uuid run leased =
    let sound : IsSound a = leases-IsSound nodes a run in
    let a' : HotPoolAllocator = (release a k idle true).1 in
    let (n, found, free) = release_idle a k p sound leased in
    let keyed : IsKeyed a'.inventory = unfold IsSound in (release-IsSound a k idle true sound).0 in
    elim (allocate_cases a' zone metro session_id uuid keyed) [
      | inl (nothing, raised) ↦
          absurd (available_listed a'.inventory p.node_id n found free nothing)
      | inr (m, at_m, available, least, result) ↦ (_, _, result)
    ]
