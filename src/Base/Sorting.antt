-- ===== src/Base/Sorting.antt =====
-- Python's `sorted` with a key, as a stable insertion sort, and what a sorted list knows of its items.
use gds2_automation.Base.Tests.{if◌then◌else◌, Bool-cases}
use gds2_automation.Base.Lists.{length, All}
use Prim.Native.Nat.{ℕ, zero, suc, ◌+◌}
use mathlib.Core.Path.{◌≡◌, refl, subst}
use mathlib.Core.Logic.{◌⊎◌, inl, inr}
use mathlib.Core.Bool.{Bool, true, false}
use mathlib.Core.Option.{Option, none, some}
use mathlib.Core.List.{List, [], ◌∷◌}
use native.Mathlib.Omega.{arith}

-- An order by its test: total and transitive.
pub record TotalOrder {ℓ} {A : Type ℓ} (leq : A → A → Bool) : Type ℓ where
  pub total : (a b : A) → (leq a b ≡ true) ⊎ (leq b a ≡ true)
  pub trans : (a b c : A) → leq a b ≡ true → leq b c ≡ true → leq a c ≡ true

module _ {ℓ} {A : Type ℓ} where
  abbrev pub get_elem? : List A → ℕ → Option A
  get_elem? [] i = none
  get_elem? (x ∷ xs) zero = some x
  get_elem? (x ∷ xs) (suc i) = get_elem? xs i

  -- The number of items that pass a test.
  abbrev pub count_if : (A → Bool) → List A → ℕ
  count_if p [] = 0
  count_if p (x ∷ xs) = (if p x then 1 else 0) + count_if p xs

module _ {ℓ} {A : Type ℓ} (leq : A → A → Bool) where
  unfoldable pub insert : A → List A → List A
  insert x [] = x ∷ []
  insert x (y ∷ ys) = if leq x y then x ∷ y ∷ ys else y ∷ insert x ys

  unfoldable pub sort : List A → List A
  sort [] = []
  sort (x ∷ xs) = insert x (sort xs)

  -- Each item precedes all behind it.
  abbrev pub IsSorted : List A → Type ℓ
  IsSorted [] = Unit {ℓ}
  IsSorted (x ∷ xs) = All (λ y. leq x y ≡ true) xs × IsSorted xs

  pub count_if-insert :
      (p : A → Bool) (x : A) (ys : List A) → count_if p (insert x ys) ≡ count_if p (x ∷ ys)
  unfolding insert
  count_if-insert p x [] = refl
  count_if-insert p x (y ∷ ys) = ground (arith, count_if-insert p x ys)

  -- Sorting keeps the items.
  pub count_if-sort : (p : A → Bool) (xs : List A) → count_if p (sort xs) ≡ count_if p xs
  unfolding sort
  count_if-sort p [] = refl
  count_if-sort p (x ∷ xs) = omega (arith, count_if-insert p x (sort xs), count_if-sort p xs)

  length-insert : (x : A) (ys : List A) → length (insert x ys) ≡ suc (length ys)
  unfolding insert
  length-insert x [] = refl
  length-insert x (y ∷ ys) = ground (arith, length-insert x ys)

  pub length-sort : (xs : List A) → length (sort xs) ≡ length xs
  unfolding sort
  length-sort [] = refl
  length-sort (x ∷ xs) = omega (arith, length-insert x (sort xs), length-sort xs)

  insert-All {κ} : (P : A → Type κ) (x : A) (ys : List A) → All P (insert x ys) → P x × All P ys
  unfolding insert
  insert-All P x [] h = h
  insert-All P x (y ∷ ys) h = placed (leq x y) h (insert-All P x ys)
    where
      placed :
          (before : Bool)
          → All P (if before then x ∷ y ∷ ys else y ∷ insert x ys)
          → (All P (insert x ys) → P x × All P ys)
          → P x × All P (y ∷ ys)
      placed true h split = h
      placed false (first, rest) split =
          let (behind, others) = split rest in (behind, (first, others))

  -- What holds of all items sorted holds of all items, and the other way round.
  pub sort-All {κ} : (P : A → Type κ) (xs : List A) → All P (sort xs) → All P xs
  unfolding sort
  sort-All P [] h = tt
  sort-All P (x ∷ xs) h =
      let (first, rest) = insert-All P x (sort xs) h in (first, sort-All P xs rest)

  module _ (order : TotalOrder leq) where
    All-trans :
        (x y : A) (ys : List A)
        → leq x y ≡ true
        → All (λ z. leq y z ≡ true) ys
        → All (λ z. leq x z ≡ true) ys
    All-trans x y [] h a = tt
    All-trans x y (z ∷ zs) h a = (order.trans x y z h a.0, All-trans x y zs h a.1)

    All-insert {κ} : (P : A → Type κ) (x : A) (ys : List A) → P x → All P ys → All P (insert x ys)
    unfolding insert
    All-insert P x [] h a = (h, tt)
    All-insert P x (y ∷ ys) h a = elim (Bool-cases (leq x y)) [
      | inl before ↦ rw before (h, a)
      | inr behind ↦ rw behind (a.0, All-insert P x ys h a.1)
    ]

    insert-IsSorted : (x : A) (ys : List A) → IsSorted ys → IsSorted (insert x ys)
    unfolding insert
    insert-IsSorted x [] s = (tt, tt)
    insert-IsSorted x (y ∷ ys) s = elim (Bool-cases (leq x y)) [
      | inl before ↦ rw before ((before, All-trans x y ys before s.0), s)
      | inr behind ↦
          rw behind
            (All-insert _ x ys (flipped behind (order.total x y)) s.0, insert-IsSorted x ys s.1)
    ]
      where
        flipped : leq x y ≡ false → (leq x y ≡ true) ⊎ (leq y x ≡ true) → leq y x ≡ true
        flipped n (inl h) = cc
        flipped n (inr h) = h

    pub sort-IsSorted : (xs : List A) → IsSorted (sort xs)
    unfolding sort
    sort-IsSorted [] = tt
    sort-IsSorted (x ∷ xs) = insert-IsSorted x (sort xs) (sort-IsSorted xs)

    pub All-sort {κ} : (P : A → Type κ) (xs : List A) → All P xs → All P (sort xs)
    unfolding sort
    All-sort P [] h = tt
    All-sort P (x ∷ xs) (h, hs) = All-insert P x (sort xs) h (All-sort P xs hs)

    pub leq_self : (x : A) → leq x x ≡ true
    leq_self x = elim (order.total x x) [ inl h ↦ h | inr h ↦ h ]

    -- Nothing precedes the head of a sorted list.
    pub sort-first : (xs ys : List A) (x : A) → sort xs ≡ x ∷ ys → All (λ y. leq x y ≡ true) xs
    sort-first xs ys x h =
        let sorted : IsSorted (x ∷ ys) = subst IsSorted h (sort-IsSorted xs) in
        sort-All (λ y. leq x y ≡ true) xs (rw h (leq_self x, sorted.0))
