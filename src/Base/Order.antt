-- ===== src/Base/Order.antt =====
-- Python's order of texts and of (number, text) tuples, which `sorted` compares keys by.
use gds2_automation.Base.Tests.{ltb, if◌then◌else◌}
use gds2_automation.Base.Sorting.{TotalOrder}
use Prim.Native.Nat.{ℕ, Ordering, compare as compare_ℕ}
use Prim.Native.Char.{Char, code}
use Prim.Native.String.{String, [], ◌∷◌, compare, then as and_then}
use Prim.Native.String.compare as Compare
use mathlib.Core.Path.{◌≡◌, refl, sym, ap, ◌∙◌}
use mathlib.Core.Logic.{◌⊎◌, inl, inr}
use mathlib.Core.Bool.{Bool, true, false}
use native.Mathlib.Omega.{arith}

abbrev not_gt : Ordering → Bool
not_gt Ordering.gt = false
not_gt _ = true

-- s <= t
unfoldable pub text_leq : String → String → Bool
text_leq s t = not_gt (compare s t)

-- A first number decides, and equal ones leave it to the rest.
abbrev lex : ℕ → ℕ → Bool → Bool
lex a b rest = if ltb a b then true else if ltb b a then false else rest

lex-then : (a b : ℕ) (o : Ordering) → not_gt (and_then (compare_ℕ a b) o) ≡ lex a b (not_gt o)
lex-then a b o = by_order (compare_ℕ a b) refl
  where
    by_order : (c : Ordering) → compare_ℕ a b ≡ c → not_gt (and_then c o) ≡ lex a b (not_gt o)
    by_order Ordering.lt h = ground (arith, h)
    by_order Ordering.eq h = ground (arith, h)
    by_order Ordering.gt h = ground (arith, h)

text_leq-cons :
    (c d : Char) (s t : String) → text_leq (c ∷ s) (d ∷ t) ≡ lex (code c) (code d) (text_leq s t)
unfolding text_leq
text_leq-cons c d s t =
    ap not_gt (Compare.cons-cons c d s t) ∙ lex-then (code c) (code d) (compare s t)

text_leq-nil : (c : Char) (s : String) → text_leq (c ∷ s) [] ≡ false
text_leq-nil c s = (unfold text_leq in ap not_gt (Compare.cons-nil c s))

lex_total :
    (a b : ℕ) (p q : Bool) → (p ≡ true) ⊎ (q ≡ true) → (lex a b p ≡ true) ⊎ (lex b a q ≡ true)
lex_total a b p q h = ground arith

lex_trans :
    (a b c : ℕ) (p q r : Bool)
    → (p ≡ true → q ≡ true → r ≡ true)
    → lex a b p ≡ true
    → lex b c q ≡ true
    → lex a c r ≡ true
lex_trans a b c p q r step h i = ground arith

text_total : (s t : String) → (text_leq s t ≡ true) ⊎ (text_leq t s ≡ true)
text_total [] [] = inl (unfold text_leq in ap not_gt Compare.nil-nil)
text_total [] (d ∷ t) = inl (unfold text_leq in ap not_gt (Compare.nil-cons d t))
text_total (c ∷ s) [] = inr (unfold text_leq in ap not_gt (Compare.nil-cons c s))
text_total (c ∷ s) (d ∷ t) =
    rw (text_leq-cons c d s t, text_leq-cons d c t s)
      (lex_total (code c) (code d) (text_leq s t) (text_leq t s) (text_total s t))

text_trans : (s t u : String) → text_leq s t ≡ true → text_leq t u ≡ true → text_leq s u ≡ true
text_trans [] t [] h i = (unfold text_leq in ap not_gt Compare.nil-nil)
text_trans [] t (e ∷ u) h i = (unfold text_leq in ap not_gt (Compare.nil-cons e u))
text_trans (c ∷ s) [] u h i = let short : text_leq (c ∷ s) [] ≡ false = text_leq-nil c s in cc
text_trans (c ∷ s) (d ∷ t) [] h i = let short : text_leq (d ∷ t) [] ≡ false = text_leq-nil d t in cc
text_trans (c ∷ s) (d ∷ t) (e ∷ u) h i =
    let first : lex (code c) (code d) (text_leq s t) ≡ true = sym (text_leq-cons c d s t) ∙ h in
    let second : lex (code d) (code e) (text_leq t u) ≡ true = sym (text_leq-cons d e t u) ∙ i in
    text_leq-cons c e s u
    ∙ lex_trans (code c) (code d) (code e) (text_leq s t) (text_leq t u) (text_leq s u)
        (text_trans s t u) first second

pub text_order : TotalOrder text_leq
text_order = record { total = text_total; trans = text_trans }

-- (m, s) <= (n, t)
unfoldable pub key_leq : ℕ × String → ℕ × String → Bool
key_leq (m, s) (n, t) = lex m n (text_leq s t)

pub key_order : TotalOrder key_leq
unfolding key_leq
key_order = record {
  total = λ (m, s) (n, t). lex_total m n (text_leq s t) (text_leq t s) (text_total s t);
  trans = λ (m, s) (n, t) (k, u).
      lex_trans m n k (text_leq s t) (text_leq t u) (text_leq s u) (text_trans s t u);
}
