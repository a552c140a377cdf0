-- ===== src/Nodes/Allocator/Selection.antt =====
-- Which of the listed nodes `allocate` takes (HotPoolAllocator of
-- diagnostic_platform/node_allocation.py).
use gds2_automation.Base.{
  String, ◌≡◌, refl, ap, ◌∙◌, subst, inl, inr, ◌⊎◌, Bool, true, none, some, List, [], ◌∷◌, ok, err,
  no_capacity_error, string_eq, nat_eq, sort, TotalOrder, key_order, All, All-filter, All-map,
  All-both, length, length-sort, sort-first, All-sort, arith, Option-cases,
}
use gds2_automation.Base.Dict.{
  values, IsDict, entries-get, All-values, get-put_self, get-put_ne, get-filter-values,
  filter-values-All,
}
use gds2_automation.Base.Dict
use gds2_automation.Nodes.Inventory.{
  NodeRecord, NodeState, idle, allocating, booting, in_use, draining, unhealthy, is_idle, Inventory,
  healthy_idle_nodes, is_available, changed, claim_found,
}
use gds2_automation.Nodes.Inventory
use gds2_automation.Nodes.Allocator.{
  HotPoolAllocator, by_priority, priority, select, first, leased, allocate, allocate_selected,
}

-- The inventory holds each node under its id.
abbrev pub IsKeyed : Inventory → Type 0
IsKeyed inv = IsDict inv × All (λ x. x.1.node_id ≡ x.0) inv

-- The node after its claim.
unfoldable pub claimed : NodeRecord → String → NodeRecord
claimed n session_id = record n { state = in_use; current_session_id = some session_id }

priority_order : (zone metro : String) → TotalOrder (by_priority zone metro)
unfolding by_priority
priority_order zone metro = record {
  total = λ m n. key_order.total (priority zone metro m) (priority zone metro n);
  trans = λ m n k.
      key_order.trans (priority zone metro m) (priority zone metro n) (priority zone metro k);
}

first-some :
    (ms : List NodeRecord) (n : NodeRecord)
    → first ms ≡ some n
    → (rest : List NodeRecord) × (ms ≡ n ∷ rest)
unfolding first
first-some [] n h = cc
first-some (m ∷ ms) n h = (ms, cc)

-- The node that is selected precedes every candidate, and is one.
select-some :
    (zone metro : String) (ns : List NodeRecord) (n : NodeRecord)
    → select zone metro ns ≡ some n
    → All (λ m. by_priority zone metro n m ≡ true) ns × ((P : NodeRecord → Type 0) → All P ns → P n)
unfolding select
select-some zone metro ns n h =
    let (rest, sorted) = first-some (sort (by_priority zone metro) ns) n h in
    let order : TotalOrder (by_priority zone metro) = priority_order zone metro in
    (
      sort-first (by_priority zone metro) order ns rest n sorted,
      λ P all. (subst (All P) sorted (All-sort (by_priority zone metro) order P ns all)).0,
    )

length-first : (ms : List NodeRecord) → first ms ≡ none → length ms ≡ 0
unfolding first
length-first [] h = refl
length-first (m ∷ ms) h = cc

select-none : (zone metro : String) (ns : List NodeRecord) → select zone metro ns ≡ none → ns ≡ []
unfolding select
select-none zone metro [] h = refl
select-none zone metro (n ∷ ns) h =
    let leq : NodeRecord → NodeRecord → Bool = by_priority zone metro in
    absurd (omega (arith, length-sort leq (n ∷ ns), length-first (sort leq (n ∷ ns)) h))

-- In an inventory by ids, what the list of idle nodes holds is found, and available.
idle_nodes_found :
    (inv : Inventory)
    → IsKeyed inv
    → All
        (λ n. (Dict.get inv n.node_id ≡ some n) × (is_available n ≡ true))
        (healthy_idle_nodes inv)
unfolding healthy_idle_nodes
idle_nodes_found inv (distinct, keyed) =
    All-filter (λ n. Dict.get inv n.node_id ≡ some n) is_available (values inv)
      (All-values (λ n. Dict.get inv n.node_id ≡ some n) inv
        (All-map (λ x. (Dict.get inv x.0 ≡ some x.1) × (x.1.node_id ≡ x.0)) _ at_id inv
          (All-both _ _ inv (entries-get inv distinct) keyed)))
  where
    at_id :
        (x : String × NodeRecord)
        → (Dict.get inv x.0 ≡ some x.1) × (x.1.node_id ≡ x.0)
        → Dict.get inv x.1.node_id ≡ some x.1
    at_id x (found, same) = ap (Dict.get inv) same ∙ found

claim-available :
    (inv : Inventory) (n : NodeRecord) (session_id : String)
    → Dict.get inv n.node_id ≡ some n
    → is_available n ≡ true
    → Inventory.claim inv n.node_id session_id ≡ ok (changed inv n.node_id (claimed n session_id))
unfolding Inventory.claim Inventory.get claim_found claimed
claim-available inv n session_id found free = rw (found, free) refl

-- The two cases of `allocate`, by the nodes it selects from.
pub allocate_cases :
    (a : HotPoolAllocator) (zone metro session_id uuid : String)
    → IsKeyed a.inventory
    → ((healthy_idle_nodes a.inventory ≡ [])
        × (allocate a zone metro session_id uuid ≡ err no_capacity_error))
      ⊎ ((n : NodeRecord) × (Dict.get a.inventory n.node_id ≡ some n)
          × (is_available n ≡ true)
          × All (λ m. by_priority zone metro n m ≡ true) (healthy_idle_nodes a.inventory)
          × (allocate a zone metro session_id uuid
              ≡ ok (
                  leased a zone metro session_id uuid
                    (changed a.inventory n.node_id (claimed n session_id)))))
unfolding allocate allocate_selected
allocate_cases a zone metro session_id uuid keyed =
    elim (Option-cases (select zone metro (healthy_idle_nodes a.inventory))) [
      | inl nothing ↦
          inl (select-none zone metro (healthy_idle_nodes a.inventory) nothing, rw nothing refl)
      | inr (n, h) ↦
          let (least, each) = select-some zone metro (healthy_idle_nodes a.inventory) n h in
          let (found, free) =
            each (λ m. (Dict.get a.inventory m.node_id ≡ some m) × (is_available m ≡ true))
              (idle_nodes_found a.inventory keyed) in
          inr (
            n,
            found,
            free,
            least,
            rw h (rw (claim-available a.inventory n session_id found free) refl),
          )
    ]
