-- ===== src/Nodes/Promotion.antt =====
-- A poll of the readiness monitor leaves the leases as they are (poll_once of
-- diagnostic_platform/node_allocation.py).
use gds2_automation.Base.{
  String, ◌≡◌, refl, sym, ap, ◌∙◌, subst, inl, inr, ◌⊎◌, Bool, true, none, some, List, [], ◌∷◌,
  Result, ok, err, key_error, ◌>>=◌, string_eq, if◌then◌else◌, arith, Bool-cases, Option-cases,
}
use gds2_automation.Base.Dict.{put-IsDict, get-All, get-put_self, get-filter-values}
use gds2_automation.Base.Dict
use gds2_automation.Nodes.Inventory.{
  NodeRecord, NodeState, in_use, idle, booting, is_booting, is_idle, is_available,
  healthy_idle_nodes, Inventory, register, hold, changed,
}
use gds2_automation.Nodes.Inventory
use gds2_automation.Nodes.Readiness.{promote, promote_each, promoted, should_promote, now, gathered}
use gds2_automation.Nodes.Allocator.{HotPoolAllocator}
use gds2_automation.Nodes.Allocator.Leases.{IsSound, InUse}
use gds2_automation.Nodes.Sound.{unleased-IsSound}

booting_unused :
    (inv : Inventory) (node_id : String) (n : NodeRecord)
    → Dict.get inv node_id ≡ some n
    → is_booting n.state ≡ true
    → ¬ InUse inv node_id
unfolding InUse is_booting
booting_unused inv node_id n found boots (m, at_m, used) =
    let one : m ≡ n = cc in
    let bad : is_booting in_use ≡ true =
      subst (λ s. is_booting s ≡ true) (ap (λ x. x.state) (sym one) ∙ used) boots in
    cc

abbrev readied : NodeRecord → NodeRecord
readied n = record n { state = idle; healthy = true; current_session_id = none }

should_promote-booting :
    (probe : NodeRecord → Result Bool) (n : NodeRecord)
    → should_promote probe n ≡ true
    → is_booting n.state ≡ true
unfolding should_promote
should_promote-booting probe n h = ground arith

promote-missing :
    (probe : NodeRecord → Result Bool) (inv : Inventory) (n : NodeRecord)
    → Dict.get inv n.node_id ≡ none
    → promote probe inv n ≡ (if should_promote probe n then err key_error else ok ([], inv))
unfolding promote promoted Inventory.mark_ready Inventory.get now
promote-missing probe inv n missing = rw missing refl

promote-present :
    (probe : NodeRecord → Result Bool) (inv : Inventory) (n m : NodeRecord)
    → Dict.get inv n.node_id ≡ some m
    → promote probe inv n ≡ (
        if should_promote probe m
        then ok (readied m ∷ [], Dict.put inv n.node_id (readied m))
        else ok ([], inv))
unfolding promote promoted Inventory.mark_ready Inventory.get now changed
promote-present probe inv n m found = rw found refl

-- What a promotion leaves: the inventory as it was, or a booting node of it that is ready.
promote-cases :
    (probe : NodeRecord → Result Bool) (inv inv' : Inventory) (n : NodeRecord)
    (ready : List NodeRecord)
    → promote probe inv n ≡ ok (ready, inv')
    → (inv ≡ inv')
      ⊎ ((m : NodeRecord) × (Dict.get inv n.node_id ≡ some m)
          × (is_booting m.state ≡ true)
          × (Dict.put inv n.node_id (readied m) ≡ inv'))
promote-cases probe inv inv' n ready h = elim (Option-cases (Dict.get inv n.node_id)) [
  | inl missing ↦
      let result = sym (promote-missing probe inv n missing) ∙ h in
      elim (Bool-cases (should_promote probe n)) [ inl booted ↦ cc | inr skipped ↦ inl cc ]
  | inr (m, found) ↦
      let result = sym (promote-present probe inv n m found) ∙ h in
      elim (Bool-cases (should_promote probe m)) [
        | inl booted ↦ inr (m, found, should_promote-booting probe m booted, cc)
        | inr skipped ↦ inl cc
      ]
]

promote-IsSound :
    (probe : NodeRecord → Result Bool) (a : HotPoolAllocator) (n : NodeRecord)
    (ready : List NodeRecord) (inv' : Inventory)
    → IsSound a
    → promote probe a.inventory n ≡ ok (ready, inv')
    → IsSound (record a { inventory = inv' })
unfolding IsSound
promote-IsSound probe a n ready inv' sound h =
    elim (promote-cases probe a.inventory inv' n ready h) [
      | inl same ↦ subst (λ i. IsSound (record a { inventory = i })) same sound
      | inr (m, found, boots, result) ↦
          let keyed : m.node_id ≡ n.node_id =
            get-All (λ x. x.1.node_id ≡ x.0) a.inventory n.node_id m sound.0.1 found in
          subst (λ i. IsSound (record a { inventory = i })) result
            (unleased-IsSound a n.node_id (readied m) sound keyed
              (booting_unused a.inventory n.node_id m found boots))
    ]

gathered-ok :
    (first : List NodeRecord) (r : Result (List NodeRecord × Inventory)) (ready : List NodeRecord)
    (inv : Inventory)
    → gathered first r ≡ ok (ready, inv)
    → (more : List NodeRecord) × (r ≡ ok (more, inv))
unfolding gathered
gathered-ok first (err e) ready inv h = cc
gathered-ok first (ok (others, i)) ready inv h = (others, cc)

pub promote_each-IsSound :
    (probe : NodeRecord → Result Bool) (a : HotPoolAllocator) (ns ready : List NodeRecord)
    (inv' : Inventory)
    → IsSound a
    → promote_each probe a.inventory ns ≡ ok (ready, inv')
    → IsSound (record a { inventory = inv' })
unfolding promote_each
promote_each-IsSound probe a [] ready inv' sound h =
    let same : a.inventory ≡ inv' = cc in
    subst (λ i. IsSound (record a { inventory = i })) same sound
promote_each-IsSound probe a (n ∷ ns) ready inv' sound h =
    each (promote probe a.inventory n) refl h (λ first i more at.
      promote_each-IsSound probe (record a { inventory = i }) ns more inv'
        (promote-IsSound probe a n first i sound at))
  where
    each :
        (r : Result (List NodeRecord × Inventory))
        → promote probe a.inventory n ≡ r
        → (r >>= λ (first, i). gathered first (promote_each probe i ns)) ≡ ok (ready, inv')
        → ((first : List NodeRecord) (i : Inventory) (more : List NodeRecord)
            → promote probe a.inventory n ≡ ok (first, i)
            → promote_each probe i ns ≡ ok (more, inv')
            → IsSound (record a { inventory = inv' }))
        → IsSound (record a { inventory = inv' })
    each (err e) at h later = cc
    each (ok (first, i)) at h later =
        let (more, rest) = gathered-ok first (promote_each probe i ns) ready inv' h in
        later first i more at rest
