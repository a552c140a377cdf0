-- ===== src/Base/Dict.antt =====
-- Python's `dict`, in the order of insertion: a write to a present key keeps its place.
use gds2_automation.Base.Tests.{Eq, if◌then◌else◌, Bool-cases}
use gds2_automation.Base.Lists.{All, All-map, filter}
use mathlib.Core.Path.{◌≡◌, refl, ◌∙◌, subst}
use mathlib.Core.Logic.{◌≢◌, inl, inr}
use mathlib.Core.Bool.{Bool, true, false}
use mathlib.Core.Option.{Option, none, some}
use mathlib.Core.List.{List, [], ◌∷◌}
use native.Mathlib.Omega.{arith}

abbrev pub Dict {ℓ κ} : Type ℓ → Type κ → Type (ℓ ⊔ κ)
Dict K V = List (K × V)

abbrev pub values {ℓ κ} : {K : Type ℓ} {V : Type κ} → Dict K V → List V
values [] = []
values ((k, v) ∷ d) = v ∷ values d

module _ {ℓ κ} {K : Type ℓ} {V : Type κ} ⦃e : Eq K⦄ where
  -- d.get(k)
  unfoldable pub get : Dict K V → K → Option V
  get [] k = none
  get ((j, v) ∷ d) k = if e.beq j k then some v else get d k

  -- d[k] = v
  unfoldable pub put : Dict K V → K → V → Dict K V
  put [] k v = (k, v) ∷ []
  put ((j, w) ∷ d) k v = if e.beq j k then (j, v) ∷ d else (j, w) ∷ put d k v

  -- d.pop(k, None); the keys of a dict are distinct, so one pass that drops every match is the same
  unfoldable pub pop : Dict K V → K → Dict K V
  pop [] k = []
  pop ((j, v) ∷ d) k = let rest = pop d k in if e.beq j k then rest else (j, v) ∷ rest

  pub get-put :
      (d : Dict K V) (k j : K) (v : V) → get (put d k v) j ≡ (if e.beq k j then some v else get d j)
  unfolding get put
  get-put [] k j v = refl
  get-put ((i, w) ∷ d) k j v =
      ground (arith, e.beq_iff k j, e.beq_iff i k, e.beq_iff i j, get-put d k j v)

  pub get-pop : (d : Dict K V) (k j : K) → get (pop d k) j ≡ (if e.beq k j then none else get d j)
  unfolding get pop
  get-pop [] k j = ground arith
  get-pop ((i, w) ∷ d) k j =
      ground (arith, e.beq_iff k j, e.beq_iff i k, e.beq_iff i j, get-pop d k j)

  pub get-put_self : (d : Dict K V) (k : K) (v : V) → get (put d k v) k ≡ some v
  get-put_self d k v = ground (arith, get-put d k k v, e.beq_iff k k)

  pub get-put_ne : (d : Dict K V) (k j : K) (v : V) → k ≢ j → get (put d k v) j ≡ get d j
  get-put_ne d k j v h = ground (arith, get-put d k j v, e.beq_iff k j)

  pub get-pop_self : (d : Dict K V) (k : K) → get (pop d k) k ≡ none
  get-pop_self d k = ground (arith, get-pop d k k, e.beq_iff k k)

  pub get-pop_ne : (d : Dict K V) (k j : K) → k ≢ j → get (pop d k) j ≡ get d j
  get-pop_ne d k j h = ground (arith, get-pop d k j, e.beq_iff k j)

  -- Adding a key that is not there leaves the others.
  pub get-put_keeps :
      (d : Dict K V) (k j : K) (v w : V)
      → get d j ≡ some w
      → get d k ≡ none
      → get (put d k v) j ≡ some w
  get-put_keeps d k j v w h n = ground (arith, get-put d k j v, e.beq_iff k j)

  -- The keys are distinct.
  abbrev pub IsDict : Dict K V → Type κ
  IsDict [] = Unit {κ}
  IsDict ((k, v) ∷ d) = (get d k ≡ none) × IsDict d

  pub put-IsDict : (d : Dict K V) (k : K) (v : V) → IsDict d → IsDict (put d k v)
  unfolding put
  put-IsDict [] k v h = (unfold get in refl, tt)
  put-IsDict ((j, w) ∷ d) k v (n, h) = elim (Bool-cases (e.beq j k)) [
    | inl same ↦ rw same (n, h)
    | inr other ↦ rw other (absent other, put-IsDict d k v h)
  ]
    where
      absent : e.beq j k ≡ false → get (put d k v) j ≡ none
      absent other = get-put_ne d k j v (λ k≡j. ground (arith, e.beq_iff j k, other, k≡j)) ∙ n

  -- A key that is not found is that of no entry.
  pub get-none : (d : Dict K V) (k : K) → get d k ≡ none → All (λ x. x.0 ≢ k) d
  unfolding get
  get-none [] k h = tt
  get-none ((j, v) ∷ d) k h = elim (Bool-cases (e.beq j k)) [
    | inl same ↦ absurd (ground (arith, h, same))
    | inr other ↦ (
      λ j≡k. absurd (ground (arith, e.beq_iff j k, other, j≡k)),
      get-none d k (ground (arith, h, other)),
    )
  ]

  get_later :
      (d : Dict K V) (j : K) (w : V) (x : K × V)
      → get d j ≡ none
      → get d x.0 ≡ some x.1
      → get ((j, w) ∷ d) x.0 ≡ some x.1
  unfolding get
  get_later d j w (k, v) n h = ground (arith, e.beq_iff j k)

  -- Each entry is what its key finds.
  pub entries-get : (d : Dict K V) → IsDict d → All (λ x. get d x.0 ≡ some x.1) d
  entries-get [] h = tt
  entries-get ((j, w) ∷ d) (n, h) = (
    unfold get in ground (arith, e.beq_iff j j),
    All-map _ _ (λ x. get_later d j w x n) d (entries-get d h),
  )

  pub All-values {σ} : (P : V → Type σ) (d : Dict K V) → All (λ x. P x.1) d → All P (values d)
  All-values P [] h = tt
  All-values P ((k, v) ∷ d) (h, hs) = (h, All-values P d hs)

  -- What holds of the entries and of the written value under its key holds after the write.
  pub put-All {σ} :
      (P : K × V → Type σ) (d : Dict K V) (k : K) (v : V)
      → ((j : K) → j ≡ k → P (j, v))
      → All P d
      → All P (put d k v)
  unfolding put
  put-All P [] k v h all = (h k refl, tt)
  put-All P ((j, w) ∷ d) k v h (first, rest) = elim (Bool-cases (e.beq j k)) [
    | inl same ↦ rw same (h j (ground (arith, e.beq_iff j k)), rest)
    | inr other ↦ rw other (first, put-All P d k v h rest)
  ]

  pub get-All {σ} :
      (P : K × V → Type σ) (d : Dict K V) (k : K) (v : V) → All P d → get d k ≡ some v → P (k, v)
  unfolding get
  get-All P [] k v all h = cc
  get-All P ((j, w) ∷ d) k v (first, rest) h = found (e.beq j k) refl h (get-All P d k v rest)
    where
      found :
          (b : Bool)
          → e.beq j k ≡ b
          → (if b then some w else get d k) ≡ some v
          → (get d k ≡ some v → P (k, v))
          → P (k, v)
      found true same h later =
          let here : (j, w) ≡ (k, v) = ground (arith, e.beq_iff j k) in subst P here first
      found false other h later = later h

  -- A value that is found and passes a test is among the values that do.
  pub get-filter-values :
      (p : V → Bool) (d : Dict K V) (k : K) (v : V)
      → get d k ≡ some v
      → p v ≡ true
      → filter p (values d) ≢ []
  unfolding get
  get-filter-values p [] k v h t nothing = cc
  get-filter-values p ((j, w) ∷ d) k v h t nothing =
      kept (e.beq j k) (p w) refl h nothing (λ i. get-filter-values p d k v i t)
    where
      kept :
          (same passed : Bool)
          → p w ≡ passed
          → (if same then some w else get d k) ≡ some v
          → (if passed then w ∷ filter p (values d) else filter p (values d)) ≡ []
          → (get d k ≡ some v → filter p (values d) ≢ [])
          → ⊥
      kept same true eq h nothing later = cc
      kept true false eq h nothing later = cc
      kept false false eq h nothing later = later h nothing

  -- What holds of the values that pass a test holds of one that is found and passes it.
  pub filter-values-All {σ} :
      (P : V → Type σ) (p : V → Bool) (d : Dict K V) (k : K) (v : V)
      → All P (filter p (values d))
      → get d k ≡ some v
      → p v ≡ true
      → P v
  unfolding get
  filter-values-All P p [] k v all h t = cc
  filter-values-All P p ((j, w) ∷ d) k v all h t =
      found (e.beq j k) (p w) refl h all (λ rest i. filter-values-All P p d k v rest i t)
    where
      found :
          (same passed : Bool)
          → p w ≡ passed
          → (if same then some w else get d k) ≡ some v
          → All P (if passed then w ∷ filter p (values d) else filter p (values d))
          → (All P (filter p (values d)) → get d k ≡ some v → P v)
          → P v
      found true true eq h all later = let here : w ≡ v = cc in subst P here all.0
      found true false eq h all later = let here : w ≡ v = cc in absurd (cc)
      found false true eq h all later = later all.1 h
      found false false eq h all later = later all h
