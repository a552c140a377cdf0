-- ===== src/Nodes/Allocator/Leases.antt =====
-- The leases of the allocator over its operations: a node is leased once (HotPoolAllocator and
-- BootingNodeReadinessMonitor of diagnostic_platform/node_allocation.py).
use gds2_automation.Base.{
  String, ◌≡◌, ◌≢◌, sym, ap, ◌∙◌, subst, inl, inr, ◌⊎◌, some, string_eq, arith, Bool-cases, ◌==◌,
}
use gds2_automation.Base.Dict.{
  IsDict, put-IsDict, put-All, get-All, get-put, get-put_self, get-put_ne, get-pop,
}
use gds2_automation.Base.Dict
use gds2_automation.Nodes.Inventory.{NodeRecord, in_use, Inventory}
use gds2_automation.Nodes.Allocator.{HotPoolAllocator, LeasePayload, LeaseStore}
use gds2_automation.Nodes.Allocator.Selection.{IsKeyed}

-- The node is there and in use.
unfoldable pub InUse : Inventory → String → Type 0
InUse inv node_id = (n : NodeRecord) × (Dict.get inv node_id ≡ some n) × (n.state ≡ in_use)

-- Each lease is stored under its id, and its node is in use.
unfoldable pub Held : LeaseStore → Inventory → Type 0
Held leases inv =
    (k : String) (p : LeasePayload)
    → Dict.get leases k ≡ some p
    → (p.assignment_id ≡ k) × InUse inv p.node_id

-- No two leases name one node.
unfoldable pub IsExclusive : LeaseStore → Type 0
IsExclusive leases =
    (j k : String) (p q : LeasePayload)
    → Dict.get leases j ≡ some p
    → Dict.get leases k ≡ some q
    → p.node_id ≡ q.node_id
    → j ≡ k

unfoldable pub IsSound : HotPoolAllocator → Type 0
IsSound a = IsKeyed a.inventory × Held a.leases a.inventory × IsExclusive a.leases

pub changed-IsKeyed :
    (inv : Inventory) (node_id : String) (n : NodeRecord)
    → IsKeyed inv
    → n.node_id ≡ node_id
    → IsKeyed (Dict.put inv node_id n)
changed-IsKeyed inv node_id n (distinct, keyed) h =
    (put-IsDict inv node_id n distinct, put-All _ inv node_id n (λ j same. h ∙ sym same) keyed)

pub kept_in_use :
    (inv : Inventory) (node_id other : String) (n : NodeRecord)
    → InUse inv other
    → (other ≡ node_id → n.state ≡ in_use)
    → InUse (Dict.put inv node_id n) other
unfolding InUse
kept_in_use inv node_id other n (m, found, used) busy = elim (Bool-cases (node_id == other)) [
  | inl here ↦
      let at_node : node_id ≡ other = ground (arith, string_eq.beq_iff node_id other) in
      (
        n,
        ap (Dict.get (Dict.put inv node_id n)) (sym at_node) ∙ get-put_self inv node_id n,
        busy (sym at_node),
      )
  | inr apart ↦ (
    m,
    get-put_ne inv node_id other n (λ at_node. ground (arith, string_eq.beq_iff node_id other))
        ∙ found,
    used,
  )
]

-- A node that is written leaves the leases held, where those on it find it in use.
pub changed-Held :
    (leases : LeaseStore) (inv : Inventory) (node_id : String) (n : NodeRecord)
    → Held leases inv
    → ((k : String) (p : LeasePayload)
        → Dict.get leases k ≡ some p
        → p.node_id ≡ node_id
        → n.state ≡ in_use)
    → Held leases (Dict.put inv node_id n)
unfolding Held
changed-Held leases inv node_id n held busy k p h =
    let (same, used) = held k p h in (same, kept_in_use inv node_id p.node_id n used (busy k p h))

-- The payload that a store with another lease finds.
pub put-cases :
    (leases : LeaseStore) (uuid k : String) (p q : LeasePayload)
    → Dict.get (Dict.put leases uuid p) k ≡ some q
    → ((uuid ≡ k) × (p ≡ q)) ⊎ (Dict.get leases k ≡ some q)
put-cases leases uuid k p q h = elim (Bool-cases (uuid == k)) [
  | inl same ↦ inl (ground (arith, get-put leases uuid k p, string_eq.beq_iff uuid k))
  | inr other ↦ inr (ground (arith, get-put leases uuid k p))
]

-- A new lease of a node in use that no other lease names.
pub lease-Held :
    (leases : LeaseStore) (inv : Inventory) (p : LeasePayload)
    → Held leases inv
    → InUse inv p.node_id
    → Held (Dict.put leases p.assignment_id p) inv
unfolding Held
lease-Held leases inv p held used k q h = elim (put-cases leases p.assignment_id k p q h) [
  | inl (here, same) ↦
      (ap (λ x. x.assignment_id) (sym same) ∙ here, subst (λ x. InUse inv x.node_id) same used)
  | inr old ↦ held k q old
]

pub lease-IsExclusive :
    (leases : LeaseStore) (p : LeasePayload)
    → IsExclusive leases
    → ((k : String) (q : LeasePayload)
        → Dict.get leases k ≡ some q
        → p.node_id ≡ q.node_id
        → p.assignment_id ≡ k)
    → IsExclusive (Dict.put leases p.assignment_id p)
unfolding IsExclusive
lease-IsExclusive leases p alone other j k q r h i same =
    distinct (put-cases leases p.assignment_id j p q h) (put-cases leases p.assignment_id k p r i)
  where
    distinct :
        ((p.assignment_id ≡ j) × (p ≡ q)) ⊎ (Dict.get leases j ≡ some q)
        → ((p.assignment_id ≡ k) × (p ≡ r)) ⊎ (Dict.get leases k ≡ some r)
        → j ≡ k
    distinct (inl (a, b)) (inl (c, d)) = sym a ∙ c
    distinct (inl (a, b)) (inr d) = sym a ∙ other k r d (ap (λ x. x.node_id) b ∙ same)
    distinct (inr b) (inl (c, d)) = sym (other j q b (ap (λ x. x.node_id) d ∙ sym same)) ∙ c
    distinct (inr b) (inr d) = alone j k q r b d same

-- What a store without one lease finds.
pub pop-cases :
    (leases : LeaseStore) (uuid k : String) (q : LeasePayload)
    → Dict.get (Dict.pop leases uuid) k ≡ some q
    → (uuid ≢ k) × (Dict.get leases k ≡ some q)
pop-cases leases uuid k q h = (
  λ same. ground (arith, get-pop leases uuid k, string_eq.beq_iff uuid k),
  ground (arith, get-pop leases uuid k),
)

pub drop-Held :
    (leases : LeaseStore) (inv : Inventory) (uuid : String)
    → Held leases inv
    → Held (Dict.pop leases uuid) inv
unfolding Held
drop-Held leases inv uuid held k q h = held k q (pop-cases leases uuid k q h).1

pub drop-IsExclusive :
    (leases : LeaseStore) (uuid : String) → IsExclusive leases → IsExclusive (Dict.pop leases uuid)
unfolding IsExclusive
drop-IsExclusive leases uuid alone j k p q h i same =
    alone j k p q (pop-cases leases uuid j p h).1 (pop-cases leases uuid k q i).1 same
