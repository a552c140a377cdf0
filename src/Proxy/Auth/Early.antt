-- ===== src/Proxy/Auth/Early.antt =====
-- Auth requests whose timestamp lies ahead of the clock (vci_proxy/auth.py and _is_replayed_auth of
-- vci_proxy/reverse_server.py).
use gds2_automation.Base.{
  ℕ, ◌+◌, ◌-◌, ◌≤◌, ◌<◌, ◌≡◌, ◌≢◌, refl, sym, ◌∙◌, inl, inr, true, false, Option, none, some, List,
  [], ◌∷◌, arith, leb, nat_eq, pair_eq, bytes_eq, bytes_beq_iff, Bool-cases, ok, All, All-map,
}
use gds2_automation.Base.Dict
use gds2_automation.Base.Dict.{Dict, put-All, get-none}
use gds2_automation.Wire.Pack.{Bytes}
use gds2_automation.Proxy.Auth.{
  verified, Seen, prune, mark_seen, is_replayed_auth, replay_check, compute_signature,
  verify_signature, verify_and_check, max_drift_s,
}
use gds2_automation.Proxy.Auth.Replay.{Accepts, seen_after, attempts}

-- No entry of the key is later than the time.
unfoldable NoLater : Seen → ℕ × Bytes → ℕ → Type 0
NoLater seen k t = All (λ x. x.0 ≡ k → x.1 ≤ t) seen

absent-NoLater : (seen : Seen) (k : ℕ × Bytes) (t : ℕ) → Dict.get seen k ≡ none → NoLater seen k t
unfolding NoLater
absent-NoLater seen k t h =
    All-map (λ x. x.0 ≢ k) (λ x. x.0 ≡ k → x.1 ≤ t) (λ x other same. absurd (other same)) seen
      (get-none seen k h)

prune-NoLater :
    (b : ℕ) (seen : Seen) (k : ℕ × Bytes) (t : ℕ) → NoLater seen k t → NoLater (prune b seen) k t
unfolding NoLater prune
prune-NoLater b [] k t h = tt
prune-NoLater b ((j, s) ∷ seen) k t h = elim (Bool-cases (leb b s)) [
  | inl kept ↦ rw kept (h.0, prune-NoLater b seen k t h.1)
  | inr dropped ↦ rw dropped (prune-NoLater b seen k t h.1)
]

-- What is pruned later than that does not hold the key.
get-prune_later :
    (b : ℕ) (seen : Seen) (k : ℕ × Bytes) (t : ℕ)
    → NoLater seen k t
    → t < b
    → Dict.get (prune b seen) k ≡ none
unfolding NoLater prune Dict.get
get-prune_later b [] k t h lt = refl
get-prune_later b ((j, s) ∷ seen) k t h lt = elim (Bool-cases (leb b s)) [
  | inr dropped ↦ rw dropped (get-prune_later b seen k t h.1 lt)
  | inl kept ↦ elim (Bool-cases (pair_eq.beq j k)) [
    | inr other ↦ rw (kept, other) (get-prune_later b seen k t h.1 lt)
    | inl same ↦
        let early : s ≤ t = h.0 ((pair_eq.beq_iff j k).0 same) in absurd (ground (arith, kept))
  ]
]

attempt-NoLater :
    (now : ℕ) (seen : Seen) (sig : Bytes) (ts : ℕ) (k : ℕ × Bytes) (t : ℕ)
    → (ts, sig) ≢ k
    → NoLater seen k t
    → NoLater (is_replayed_auth now seen sig ts).1 k t
unfolding is_replayed_auth
attempt-NoLater now seen sig ts k t other h =
    marked (Dict.get (prune (now - max_drift_s) seen) (ts, sig))
  where
    kept : NoLater (prune (now - max_drift_s) seen) k t
    kept = prune-NoLater (now - max_drift_s) seen k t h

    marked :
        (o : Option ℕ) → NoLater (mark_seen (prune (now - max_drift_s) seen) (ts, sig) now o).1 k t
    marked (some s) = unfold mark_seen in kept
    marked none =
        unfold mark_seen NoLater in
        put-All (λ x. x.0 ≡ k → x.1 ≤ t) (prune (now - max_drift_s) seen) (ts, sig) now
          (λ j e same. absurd (other (sym e ∙ same))) (unfold NoLater in kept)

-- An attempt of another signature or timestamp.
abbrev pub IsOther : ℕ × Bytes → ℕ × Bytes × ℕ → Type 0
IsOther k (now, sig, ts) = (ts, sig) ≢ k

attempts-NoLater :
    (others : List (ℕ × Bytes × ℕ)) (seen : Seen) (k : ℕ × Bytes) (t : ℕ)
    → All (IsOther k) others
    → NoLater seen k t
    → NoLater (attempts seen others) k t
unfolding attempts
attempts-NoLater [] seen k t differ h = h
attempts-NoLater ((now, sig, ts) ∷ others) seen k t differ h =
    attempt-NoLater now (attempts seen others) sig ts k t differ.0
      (attempts-NoLater others seen k t differ.1 h)

not_replayed :
    (now : ℕ) (seen : Seen) (sig : Bytes) (ts : ℕ)
    → Dict.get (prune (now - max_drift_s) seen) (ts, sig) ≡ none
    → (is_replayed_auth now seen sig ts).0 ≡ false
unfolding is_replayed_auth mark_seen
not_replayed now seen sig ts h = rw h refl

get-prune_absent :
    (b : ℕ) (seen : Seen) (k : ℕ × Bytes)
    → Dict.get seen k ≡ none
    → Dict.get (prune b seen) k ≡ none
unfolding prune Dict.get
get-prune_absent b [] k h = refl
get-prune_absent b ((j, s) ∷ seen) k h = ground (arith, get-prune_absent b seen k)

-- An attempt that is not remembered writes an entry of its time.
accepted-NoLater :
    (now : ℕ) (seen : Seen) (sig : Bytes) (ts : ℕ)
    → Dict.get seen (ts, sig) ≡ none
    → ((is_replayed_auth now seen sig ts).0 ≡ false)
      × NoLater (is_replayed_auth now seen sig ts).1 (ts, sig) now
unfolding is_replayed_auth
accepted-NoLater now seen sig ts h =
    let gone = get-prune_absent (now - max_drift_s) seen (ts, sig) h in
    let kept : NoLater (prune (now - max_drift_s) seen) (ts, sig) now =
      prune-NoLater (now - max_drift_s) seen (ts, sig) now (absent-NoLater seen (ts, sig) now h) in
    (
      rw gone (unfold mark_seen in refl),
      rw gone (
          unfold mark_seen NoLater in
          put-All (λ x. x.0 ≡ (ts, sig) → x.1 ≤ now) (prune (now - max_drift_s) seen) (ts, sig) now
            (λ j e same. omega arith) (unfold NoLater in kept)),
    )

module _ (hmac : Bytes → Bytes → Bytes) where
  verify_signed :
      (now ts : ℕ) (token sig : Bytes)
      → compute_signature hmac token ts ≡ ok sig
      → now ≤ ts + max_drift_s
      → ts ≤ now + max_drift_s
      → verify_signature hmac now token ts sig ≡ ok (true, verified)
  unfolding verify_signature
  verify_signed now ts token sig signed a b = rw signed (ground (arith, bytes_beq_iff sig sig))

  checked :
      (now ts : ℕ) (seen : Seen) (token sig : Bytes)
      → compute_signature hmac token ts ≡ ok sig
      → now ≤ ts + max_drift_s
      → ts ≤ now + max_drift_s
      → (is_replayed_auth now seen sig ts).0 ≡ false
      → verify_and_check hmac now seen token ts sig
        ≡ ok ((true, verified), (is_replayed_auth now seen sig ts).1)
  unfolding verify_and_check
  checked now ts seen token sig signed a b new =
      rw (verify_signed now ts token sig signed a b) (unfold replay_check in rw new refl)

  -- A correctly signed request whose timestamp lies up to 300 seconds ahead of the server's clock
  -- outlives the memory of its signature. Where the server does not remember it, it is accepted; and
  -- more than 300 seconds later, while its timestamp is still within the drift, the same request is
  -- accepted again, whatever attempts of other signatures or timestamps the server handles between.
  pub early_timestamp_replayed :
      (t t' ts : ℕ) (seen : Seen) (token sig : Bytes) (others : List (ℕ × Bytes × ℕ))
      → compute_signature hmac token ts ≡ ok sig
      → t ≤ ts
      → ts ≤ t + max_drift_s
      → t + max_drift_s < t'
      → t' ≤ ts + max_drift_s
      → Dict.get seen (ts, sig) ≡ none
      → All (IsOther (ts, sig)) others
      → Accepts hmac (verify_and_check hmac t seen token ts sig)
        × Accepts hmac (
            verify_and_check hmac t'
              (attempts (seen_after hmac seen (verify_and_check hmac t seen token ts sig)) others)
              token
              ts
              sig)
  early_timestamp_replayed t t' ts seen token sig others signed a b c d new differ =
      let (fresh, early) = accepted-NoLater t seen sig ts new in
      let seen' : Seen = (is_replayed_auth t seen sig ts).1 in
      let forgotten : Dict.get (prune (t' - max_drift_s) (attempts seen' others)) (ts, sig) ≡ none =
        get-prune_later (t' - max_drift_s) (attempts seen' others) (ts, sig) t
          (attempts-NoLater others seen' (ts, sig) t differ early) (omega arith) in
      let first = checked t ts seen token sig signed (omega arith) b fresh in
      let again =
        checked t' ts (attempts seen' others) token sig signed d (omega arith)
          (not_replayed t' (attempts seen' others) sig ts forgotten) in
      (rw first refl, rw first (rw again refl))
