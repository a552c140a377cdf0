-- ===== src/Nodes/Allocator/Order.antt =====
-- What the key that `allocate` sorts by says of zones, metros and ids (`_priority` in
-- HotPoolAllocator of diagnostic_platform/node_allocation.py).
use gds2_automation.Base.{
  String, ◌≡◌, ◌≢◌, ◌↔◌, ◌⊎◌, inl, inr, Bool, true, false, refl, Bool-cases, arith, ltb,
  if◌then◌else◌, string_eq, text_leq, key_leq,
}
use gds2_automation.Nodes.Inventory.{NodeRecord}
use gds2_automation.Nodes.Allocator.{by_priority, priority, class_of, is_preferred, reason_of}

-- The value is the one preferred, where one is.
abbrev pub IsWanted : String → String → Type 0
IsWanted preferred value = (preferred ≢ "") × (value ≡ preferred)

is_preferred-IsWanted :
    (preferred value : String) → (is_preferred preferred value ≡ true) ↔ IsWanted preferred value
unfolding is_preferred
is_preferred-IsWanted preferred value = (
  λ h. ground (arith, string_eq.beq_iff preferred "", string_eq.beq_iff value preferred),
  λ h. ground (arith, string_eq.beq_iff preferred "", string_eq.beq_iff value preferred),
)

-- A node is in the preferred zone where any other is, else in the preferred metro where any other is
-- in either, and has the least id of the nodes that stand like it.
abbrev pub Precedes : String → String → NodeRecord → NodeRecord → Type 0
Precedes zone metro n m =
    (IsWanted zone m.zone → IsWanted zone n.zone)
    × (IsWanted metro m.metro → IsWanted zone n.zone ⊎ IsWanted metro n.metro)
    × ((IsWanted zone n.zone → IsWanted zone m.zone)
        → (IsWanted metro n.metro → IsWanted zone m.zone ⊎ IsWanted metro m.metro)
        → text_leq n.node_id m.node_id ≡ true)

pub by_priority-Precedes :
    (zone metro : String) (n m : NodeRecord)
    → by_priority zone metro n m ≡ true
    → Precedes zone metro n m
unfolding by_priority priority class_of key_leq
by_priority-Precedes zone metro n m h =
    let nz = is_preferred-IsWanted zone n.zone in
    let nm = is_preferred-IsWanted metro n.metro in
    let mz = is_preferred-IsWanted zone m.zone in
    let mm = is_preferred-IsWanted metro m.metro in
    by_class (is_preferred zone n.zone) (is_preferred metro n.metro) (is_preferred zone m.zone)
      (is_preferred metro m.metro) (text_leq n.node_id m.node_id) nz nm mz mm h
  where
    by_class :
        {A B C D : Type 0} (p q r s t : Bool)
        → (p ≡ true) ↔ A
        → (q ≡ true) ↔ B
        → (r ≡ true) ↔ C
        → (s ≡ true) ↔ D
        → (if ltb (if p then 0 else if q then 1 else 2) (if r then 0 else if s then 1 else 2)
            then true
            else if ltb (if r then 0 else if s then 1 else 2) (if p then 0 else if q then 1 else 2)
            then false
            else t)
          ≡ true
        → (C → A) × (D → A ⊎ B) × ((A → C) → (B → C ⊎ D) → t ≡ true)
    by_class p q r s t f g h k e = (
      λ c. f.0 (ground (arith, e, h.1 c)),
      λ d. elim (Bool-cases p) [
        | inl y ↦ inl (f.0 y)
        | inr n ↦ inr (g.0 (ground (arith, e, k.1 d)))
      ],
      λ zones metros. ground (arith, f.0, f.1, g.0, g.1, h.0, h.1, k.0, k.1),
    )

-- The reason names what the node was preferred for.
abbrev pub Explains : String → String → NodeRecord → String → Type 0
Explains zone metro n reason =
    (IsWanted zone n.zone → reason ≡ "preferred_zone")
    × (¬ IsWanted zone n.zone → IsWanted metro n.metro → reason ≡ "preferred_metro")
    × (¬ IsWanted zone n.zone → ¬ IsWanted metro n.metro → reason ≡ "any_healthy_idle")

pub reason_of-Explains :
    (zone metro : String) (n : NodeRecord)
    → Explains zone metro n (reason_of (class_of zone metro n))
unfolding class_of
reason_of-Explains zone metro n =
    by_class (is_preferred zone n.zone) (is_preferred metro n.metro)
      (is_preferred-IsWanted zone n.zone) (is_preferred-IsWanted metro n.metro)
  where
    by_class :
        {A B : Type 0} (p q : Bool)
        → (p ≡ true) ↔ A
        → (q ≡ true) ↔ B
        → (A → reason_of (if p then 0 else if q then 1 else 2) ≡ "preferred_zone")
          × (¬ A → B → reason_of (if p then 0 else if q then 1 else 2) ≡ "preferred_metro")
          × (¬ A → ¬ B → reason_of (if p then 0 else if q then 1 else 2) ≡ "any_healthy_idle")
    by_class true q f g = (
      λ a. unfold reason_of in refl,
      λ other. absurd (other (f.0 refl)),
      λ other. absurd (other (f.0 refl)),
    )
    by_class false true f g = (
      λ a. (let same : false ≡ true = f.1 a in absurd (cc)),
      λ other b. unfold reason_of in refl,
      λ other none_of. absurd (none_of (g.0 refl)),
    )
    by_class false false f g = (
      λ a. (let same : false ≡ true = f.1 a in absurd (cc)),
      λ other b. (let same : false ≡ true = g.1 b in absurd (cc)),
      λ other none_of. unfold reason_of in refl,
    )
