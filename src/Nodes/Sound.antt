-- ===== src/Nodes/Sound.antt =====
-- Every operation keeps a node leased once (diagnostic_platform/node_allocation.py).
use gds2_automation.Base.{
  String, ◌≡◌, refl, sym, ap, ◌∙◌, subst, inl, inr, Bool, true, ◌&&◌, Option, none, some, ok, err,
  key_error, string_eq, Option-cases,
}
use gds2_automation.Base.Dict.{get-put_self, get-All}
use gds2_automation.Base.Dict
use gds2_automation.Nodes.Inventory.{
  NodeRecord, NodeState, in_use, idle, is_idle, is_available, Inventory, changed,
}
use gds2_automation.Nodes.Inventory
use gds2_automation.Nodes.Allocator.{
  HotPoolAllocator, NodeLease, LeasePayload, allocate, leased, put_lease, to_dict, bind, bind_found,
  payload_of, rebound, release, release_found, with_inventory,
}
use gds2_automation.Nodes.Allocator.Selection.{claimed, allocate_cases}
use gds2_automation.Nodes.Allocator.Leases.{
  InUse, Held, IsExclusive, IsSound, changed-IsKeyed, changed-Held, lease-Held, lease-IsExclusive,
  drop-Held, drop-IsExclusive, pop-cases,
}

some_same : {A : Type 0} (o : Option A) (a b : A) → o ≡ some a → o ≡ some b → a ≡ b
some_same o a b h i = cc

available_unused : (n : NodeRecord) → is_available n ≡ true → n.state ≡ in_use → ⊥
unfolding is_available is_idle
available_unused n free used = used_idle n.state n.healthy free used
  where
    used_idle : (st : NodeState) (h : Bool) → (is_idle st && h) ≡ true → st ≡ in_use → ⊥
    used_idle st h free used =
        let bad : (is_idle in_use && h) ≡ true = subst (λ x. (is_idle x && h) ≡ true) used free in
        cc

claimed-IsSound :
    (a : HotPoolAllocator) (zone metro session_id uuid : String) (n : NodeRecord)
    → IsSound a
    → Dict.get a.inventory n.node_id ≡ some n
    → is_available n ≡ true
    → IsSound
        (leased a zone metro session_id uuid
          (changed a.inventory n.node_id (claimed n session_id))).1
unfolding IsSound Held leased put_lease to_dict changed claimed InUse
claimed-IsSound a zone metro session_id uuid n (keyed, held, alone) found free = (
  changed-IsKeyed a.inventory n.node_id (claimed n session_id) keyed refl,
  lease-Held a.leases inv' p
      (changed-Held a.leases a.inventory n.node_id (claimed n session_id) held (λ k q h same. refl))
      (claimed n session_id, get-put_self a.inventory n.node_id (claimed n session_id), refl),
  lease-IsExclusive a.leases p alone others,
)
  where
    inv' : Inventory
    inv' = Dict.put a.inventory n.node_id (claimed n session_id)

    p : LeasePayload
    p =
        to_dict
          (leased a zone metro session_id uuid
            (changed a.inventory n.node_id (claimed n session_id))).0

    others :
        (k : String) (q : LeasePayload)
        → Dict.get a.leases k ≡ some q
        → n.node_id ≡ q.node_id
        → uuid ≡ k
    others k q h same =
        let (m, at_q, used) = (held k q h).1 in
        let one : m ≡ n =
          some_same (Dict.get a.inventory q.node_id) m n at_q
            (ap (Dict.get a.inventory) (sym same) ∙ found) in
        absurd (available_unused n free (ap (λ x. x.state) (sym one) ∙ used))

-- The lease that a claim adds is the only one of its node.
pub allocate-IsSound :
    (a a' : HotPoolAllocator) (zone metro session_id uuid : String) (lease : NodeLease)
    → IsSound a
    → allocate a zone metro session_id uuid ≡ ok (lease, a')
    → IsSound a'
unfolding IsSound
allocate-IsSound a a' zone metro session_id uuid lease sound h =
    elim (allocate_cases a zone metro session_id uuid sound.0) [
      | inl (none_idle, raised) ↦ cc
      | inr (n, found, free, least, result) ↦
          let same : (leased a zone metro session_id uuid
                (changed a.inventory n.node_id (claimed n session_id))).1
              ≡ a' =
            cc in
          subst IsSound same (claimed-IsSound a zone metro session_id uuid n sound found free)
    ]

-- A lease finds its node in the inventory, in use and under its id.
pub leased_node :
    (a : HotPoolAllocator) (k : String) (p : LeasePayload)
    → IsSound a
    → Dict.get a.leases k ≡ some p
    → (p.assignment_id ≡ k)
      × (n : NodeRecord) × (Dict.get a.inventory p.node_id ≡ some n)
      × (n.state ≡ in_use)
      × (n.node_id ≡ p.node_id)
unfolding IsSound Held InUse
leased_node a k p (keyed, held, alone) h =
    let (same, (n, found, used)) = held k p h in
    (same, n, found, used, get-All (λ x. x.1.node_id ≡ x.0) a.inventory p.node_id n keyed.1 found)

bind_computed :
    (a : HotPoolAllocator) (k session_id : String) (p : LeasePayload) (n : NodeRecord)
    → Dict.get a.leases k ≡ some p
    → Dict.get a.inventory p.node_id ≡ some n
    → n.node_id ≡ p.node_id
    → bind a k session_id
      ≡ ok (
          rebound a p session_id
            (changed a.inventory n.node_id (record n { current_session_id = some session_id })))
unfolding bind bind_found payload_of Inventory.get Inventory.bind_session
bind_computed a k session_id p n h found same =
    rw (h, found, ap (Dict.get a.inventory) same ∙ found) refl

rebound-IsSound :
    (a : HotPoolAllocator) (k session_id : String) (p : LeasePayload) (n : NodeRecord)
    → IsSound a
    → Dict.get a.leases k ≡ some p
    → n.state ≡ in_use
    → n.node_id ≡ p.node_id
    → IsSound
        (rebound a p session_id
          (changed a.inventory n.node_id (record n { current_session_id = some session_id }))).1
unfolding IsSound Held IsExclusive InUse rebound changed put_lease to_dict
rebound-IsSound a k session_id p n (keyed, held, alone) h used same = (
  changed-IsKeyed a.inventory n.node_id n' keyed refl,
  lease-Held a.leases inv' p'
      (changed-Held a.leases a.inventory n.node_id n' held (λ j q i at_n. used))
      (n', get-put_self a.inventory n.node_id n', used),
  lease-IsExclusive a.leases p' alone
      (λ j q i at_n. (held k p h).0 ∙ alone k j p q h i (sym same ∙ at_n)),
)
  where
    n' : NodeRecord
    n' = record n { current_session_id = some session_id }

    inv' : Inventory
    inv' = Dict.put a.inventory n.node_id n'

    p' : LeasePayload
    p' = to_dict (rebound a p session_id (n', inv')).0

pub bind-IsSound :
    (a a' : HotPoolAllocator) (k session_id : String) (lease : NodeLease)
    → IsSound a
    → bind a k session_id ≡ ok (lease, a')
    → IsSound a'
bind-IsSound a a' k session_id lease sound h = elim (Option-cases (Dict.get a.leases k)) [
  | inl none_there ↦
      let raised : bind a k session_id ≡ err key_error =
        unfold bind payload_of in rw none_there refl in
      cc
  | inr (p, there) ↦
      let (id, n, found, used, same) = leased_node a k p sound there in
      let result = bind_computed a k session_id p n there found same in
      let last : (rebound a p session_id
            (changed a.inventory n.node_id (record n { current_session_id = some session_id }))).1
          ≡ a' =
        cc in
      subst IsSound last (rebound-IsSound a k session_id p n sound there used same)
]

abbrev freed : NodeRecord → NodeState → Bool → NodeRecord
freed n next_state healthy = record n {
  state = next_state;
  healthy = healthy;
  current_session_id = none;
}

freed-IsSound :
    (a : HotPoolAllocator) (k : String) (p : LeasePayload) (n : NodeRecord)
    → IsSound a
    → Dict.get a.leases k ≡ some p
    → n.node_id ≡ p.node_id
    → IsSound
        (record { inventory = Dict.put a.inventory p.node_id n; leases = Dict.pop a.leases k })
unfolding IsSound IsExclusive
freed-IsSound a k p n (keyed, held, alone) there same = (
  changed-IsKeyed a.inventory p.node_id n keyed same,
  changed-Held (Dict.pop a.leases k) a.inventory p.node_id n (drop-Held a.leases a.inventory k held)
      others,
  drop-IsExclusive a.leases k alone,
)
  where
    others :
        (j : String) (q : LeasePayload)
        → Dict.get (Dict.pop a.leases k) j ≡ some q
        → q.node_id ≡ p.node_id
        → n.state ≡ in_use
    others j q i at_n =
        let (apart, there_q) = pop-cases a.leases k j q i in
        absurd (apart (alone k j p q there there_q (sym at_n)))

-- The node of the lease that goes is no other's.
pub release-IsSound :
    (a : HotPoolAllocator) (k : String) (next_state : NodeState) (healthy : Bool)
    → IsSound a
    → IsSound (release a k next_state healthy).1
unfolding release release_found payload_of with_inventory Inventory.release Inventory.get changed
release-IsSound a k next_state healthy sound = elim (Option-cases (Dict.get a.leases k)) [
  | inl none_there ↦ rw none_there sound
  | inr (p, there) ↦
      let (id, n, found, used, same) = leased_node a k p sound there in
      rw there (rw found (freed-IsSound a k p (freed n next_state healthy) sound there same))
]

-- A node with a new id, and a booting one that is promoted, have no lease.
pub unleased-IsSound :
    (a : HotPoolAllocator) (node_id : String) (n : NodeRecord)
    → IsSound a
    → n.node_id ≡ node_id
    → ¬ InUse a.inventory node_id
    → IsSound (record a { inventory = Dict.put a.inventory node_id n })
unfolding IsSound Held
unleased-IsSound a node_id n (keyed, held, alone) same unused = (
  changed-IsKeyed a.inventory node_id n keyed same,
  changed-Held a.leases a.inventory node_id n held
      (λ k q i at_n. absurd (unused (subst (InUse a.inventory) at_n (held k q i).1))),
  alone,
)
