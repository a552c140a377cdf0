-- ===== src/Streaming/Buffer/Histories.antt =====
-- Entries in the order of their times, appended and trimmed (the histories of
-- src/streaming/diagnostic_buffer.py).
use gds2_automation.Base.{
  ℕ, ◌≤◌, Bool, true, false, Option, none, some, List, [], ◌∷◌, ◌++◌, ◌≡◌, ◌⊎◌, refl, subst, filter,
  All, string_eq, if◌then◌else◌, arith, inl, inr, Bool-cases,
}
use gds2_automation.Streaming.Buffer.{Entry, last, in_window, or_last, trim_history}

abbrev pub InOrder : List Entry → Type 0
InOrder [] = Unit {0}
InOrder (e ∷ es) = All (λ x. e.at ≤ x.at) es × InOrder es

abbrev pub UpTo : ℕ → List Entry → Type 0
UpTo now es = All (λ e. e.at ≤ now) es

pub last-append : (es : List Entry) (e : Entry) → last (es ++ (e ∷ [])) ≡ some e
unfolding last
last-append [] e = refl
last-append (x ∷ []) e = refl
last-append (x ∷ y ∷ es) e = last-append (y ∷ es) e

pub All-append {κ} :
    (P : Entry → Type κ) (es : List Entry) (e : Entry) → All P es → P e → All P (es ++ (e ∷ []))
All-append P [] e h i = (i, tt)
All-append P (x ∷ es) e (h, hs) i = (h, All-append P es e hs i)

pub InOrder-append :
    (es : List Entry) (e : Entry) → InOrder es → UpTo e.at es → InOrder (es ++ (e ∷ []))
InOrder-append [] e o u = (tt, tt)
InOrder-append (x ∷ es) e (h, o) (i, u) =
    (All-append (λ y. x.at ≤ y.at) es e h i, InOrder-append es e o u)

filter-All {κ} :
    (P : Entry → Type κ) (p : Entry → Bool) (es : List Entry) → All P es → All P (filter p es)
filter-All P p [] h = tt
filter-All P p (e ∷ es) (h, hs) = elim (Bool-cases (p e)) [
  | inl passed ↦ rw passed (h, filter-All P p es hs)
  | inr failed ↦ rw failed (filter-All P p es hs)
]

filter-InOrder : (p : Entry → Bool) (es : List Entry) → InOrder es → InOrder (filter p es)
filter-InOrder p [] o = tt
filter-InOrder p (e ∷ es) (h, o) = elim (Bool-cases (p e)) [
  | inl passed ↦ rw passed (filter-All (λ x. e.at ≤ x.at) p es h, filter-InOrder p es o)
  | inr failed ↦ rw failed (filter-InOrder p es o)
]

-- Of entries in order, those within the window end at the last one, where there are any.
last-filter :
    (now window : ℕ) (es : List Entry)
    → InOrder es
    → (filter (λ e. in_window now window e.at) es ≡ [])
      ⊎ (last (filter (λ e. in_window now window e.at) es) ≡ last es)
unfolding last in_window
last-filter now window [] o = inl refl
last-filter now window (e ∷ []) o = elim (Bool-cases (in_window now window e.at)) [
  | inl inside ↦ inr (rw inside refl)
  | inr outside ↦ inl (rw outside refl)
]
last-filter now window (e ∷ x ∷ es) ((le, h), o) =
    both (in_window now window e.at) refl (last-filter now window (x ∷ es) o)
  where
    kept : Entry → Bool
    kept y = in_window now window y.at

    both :
        (inside : Bool)
        → in_window now window e.at ≡ inside
        → (filter kept (x ∷ es) ≡ []) ⊎ (last (filter kept (x ∷ es)) ≡ last (x ∷ es))
        → ((if inside then e ∷ filter kept (x ∷ es) else filter kept (x ∷ es)) ≡ [])
          ⊎ (last (if inside then e ∷ filter kept (x ∷ es) else filter kept (x ∷ es))
              ≡ last (e ∷ x ∷ es))
    both false at (inl nothing) = inl nothing
    both false at (inr same) = inr same
    both true at later =
        let inside_x : in_window now window x.at ≡ true = ground (arith, at, le) in
        inr (rw inside_x (behind later inside_x))
      where
        behind :
            (filter kept (x ∷ es) ≡ []) ⊎ (last (filter kept (x ∷ es)) ≡ last (x ∷ es))
            → kept x ≡ true
            → last (x ∷ filter kept es) ≡ last (x ∷ es)
        behind (inl nothing) inside_x =
            let bad : (x ∷ filter kept es) ≡ [] =
              subst (λ b. (if b then x ∷ filter kept es else filter kept es) ≡ []) inside_x
                nothing in
            cc
        behind (inr same) inside_x =
            subst (λ b. last (if b then x ∷ filter kept es else filter kept es) ≡ last (x ∷ es))
              inside_x same

last-or_last :
    (fs : List Entry) (o : Option Entry) → (fs ≡ []) ⊎ (last fs ≡ o) → last (or_last fs o) ≡ o
unfolding or_last last
last-or_last [] none h = refl
last-or_last [] (some e) h = refl
last-or_last (f ∷ fs) o (inl h) = cc
last-or_last (f ∷ fs) o (inr h) = h

pub last-trim :
    (now window : ℕ) (es : List Entry) → InOrder es → last (trim_history now window es) ≡ last es
unfolding trim_history
last-trim now window es o =
    last-or_last (filter (λ e. in_window now window e.at) es) (last es)
      (last-filter now window es o)

pub trim-InOrder :
    (now window : ℕ) (es : List Entry) → InOrder es → InOrder (trim_history now window es)
unfolding trim_history
trim-InOrder now window es o =
    filled (filter (λ e. in_window now window e.at) es) (last es)
      (filter-InOrder (λ e. in_window now window e.at) es o)
  where
    filled : (fs : List Entry) (e : Option Entry) → InOrder fs → InOrder (or_last fs e)
    filled [] none h = unfold or_last in tt
    filled [] (some e) h = unfold or_last in (tt, tt)
    filled (f ∷ fs) e h = unfold or_last in h

UpTo-last : (now : ℕ) (es : List Entry) (e : Entry) → UpTo now es → last es ≡ some e → e.at ≤ now
unfolding last
UpTo-last now [] e u h = cc
UpTo-last now (x ∷ []) e (u, us) h = let same : x ≡ e = cc in subst (λ y. y.at ≤ now) same u
UpTo-last now (x ∷ y ∷ es) e (u, us) h = UpTo-last now (y ∷ es) e us h

pub trim-UpTo :
    (now window : ℕ) (es : List Entry) → UpTo now es → UpTo now (trim_history now window es)
unfolding trim_history
trim-UpTo now window es u =
    filled (filter (λ e. in_window now window e.at) es) (last es) refl
      (filter-All (λ e. e.at ≤ now) (λ e. in_window now window e.at) es u)
  where
    filled :
        (fs : List Entry) (e : Option Entry) → last es ≡ e → UpTo now fs → UpTo now (or_last fs e)
    filled [] none at h = unfold or_last in tt
    filled [] (some e) at h = unfold or_last in (UpTo-last now es e u at, tt)
    filled (f ∷ fs) e at h = unfold or_last in h
