-- ===== src/Proxy/Auth/Replay.antt =====
-- Replayed Auth requests (vci_proxy/auth.py and _is_replayed_auth of vci_proxy/reverse_server.py).
use gds2_automation.Base.{
  ℕ, ◌+◌, ◌-◌, ◌≤◌, ◌<◌, ◌≡◌, refl, inl, inr, Bool, true, false, ◌&&◌, Option, none, some, List, [],
  ◌∷◌, arith, leb, nat_eq, string_eq, pair_eq, bytes_eq, Bool-cases, Result, ok, err, ◌>>=◌,
}
use gds2_automation.Base.Dict
use gds2_automation.Base.Dict.{Dict, get-put_self, get-put_keeps}
use gds2_automation.Wire.Pack.{Bytes}
use native.Mathlib.Decide.{dec_lt}
use gds2_automation.Proxy.Auth.{
  Reason, drift_too_large, Seen, prune, mark_seen, is_replayed_auth, replay_check, verify_signature,
  verify_and_check, max_drift_s,
}

-- Pruning keeps what was seen at the bound or later.
get-prune :
    (b : ℕ) (seen : Seen) (k : ℕ × Bytes) (s : ℕ)
    → Dict.get seen k ≡ some s
    → b ≤ s
    → Dict.get (prune b seen) k ≡ some s
unfolding prune Dict.get
get-prune b [] k s h le = cc
get-prune b ((j, v) ∷ seen) k s h le = elim (Bool-cases (pair_eq.beq j k)) [
  | inl y ↦ ground arith
  | inr n ↦ ground (arith, get-prune b seen k s (ground arith) le)
]

-- A signature that was seen is still known after another attempt, up to the drift later.
known_after :
    (now : ℕ) (seen : Seen) (sig : Bytes) (ts : ℕ) (k : ℕ × Bytes) (s : ℕ)
    → Dict.get seen k ≡ some s
    → now ≤ s + max_drift_s
    → Dict.get (is_replayed_auth now seen sig ts).1 k ≡ some s
unfolding is_replayed_auth
known_after now seen sig ts k s h le = go (Dict.get (prune (now - max_drift_s) seen) (ts, sig)) refl
  where
    kept : Dict.get (prune (now - max_drift_s) seen) k ≡ some s
    kept = get-prune (now - max_drift_s) seen k s h (omega arith)

    go :
        (o : Option ℕ)
        → Dict.get (prune (now - max_drift_s) seen) (ts, sig) ≡ o
        → Dict.get (mark_seen (prune (now - max_drift_s) seen) (ts, sig) now o).1 k ≡ some s
    go (some v) e = unfold mark_seen in kept
    go none e =
        unfold mark_seen in get-put_keeps (prune (now - max_drift_s) seen) (ts, sig) k now s kept e

-- Other attempts: the time, the signature and the timestamp of each, the last one first.
unfoldable pub attempts : Seen → List (ℕ × Bytes × ℕ) → Seen
attempts seen [] = seen
attempts seen ((now, sig, ts) ∷ others) = (is_replayed_auth now (attempts seen others) sig ts).1

unfoldable pub all_before : ℕ → List (ℕ × Bytes × ℕ) → Bool
all_before limit [] = true
all_before limit ((now, sig, ts) ∷ others) = leb now limit && all_before limit others

known_after_attempts :
    (others : List (ℕ × Bytes × ℕ)) (seen : Seen) (k : ℕ × Bytes) (s : ℕ)
    → Dict.get seen k ≡ some s
    → all_before (s + max_drift_s) others ≡ true
    → Dict.get (attempts seen others) k ≡ some s
unfolding attempts all_before
known_after_attempts [] seen k s h a = h
known_after_attempts ((now, sig, ts) ∷ others) seen k s h a =
    known_after now (attempts seen others) sig ts k s
      (known_after_attempts others seen k s h (ground arith)) (ground arith)

all_before_le :
    (a b : ℕ) (others : List (ℕ × Bytes × ℕ))
    → a ≤ b
    → all_before a others ≡ true
    → all_before b others ≡ true
unfolding all_before
all_before_le a b [] le h = refl
all_before_le a b ((now, sig, ts) ∷ others) le h = ground (arith, all_before_le a b others le)

-- A known signature is detected.
detected :
    (now : ℕ) (seen : Seen) (sig : Bytes) (ts s : ℕ)
    → Dict.get seen (ts, sig) ≡ some s
    → now ≤ s + max_drift_s
    → (is_replayed_auth now seen sig ts).0 ≡ true
unfolding is_replayed_auth
detected now seen sig ts s h le =
    rw (get-prune (now - max_drift_s) seen (ts, sig) s h (omega arith)) (unfold mark_seen in refl)

-- What was accepted is remembered at the time of its acceptance.
remembered :
    (now : ℕ) (seen : Seen) (sig : Bytes) (ts : ℕ)
    → (is_replayed_auth now seen sig ts).0 ≡ false
    → Dict.get (is_replayed_auth now seen sig ts).1 (ts, sig) ≡ some now
unfolding is_replayed_auth
remembered now seen sig ts = go (Dict.get (prune (now - max_drift_s) seen) (ts, sig))
  where
    go :
        (o : Option ℕ)
        → (mark_seen (prune (now - max_drift_s) seen) (ts, sig) now o).0 ≡ false
        → Dict.get (mark_seen (prune (now - max_drift_s) seen) (ts, sig) now o).1 (ts, sig)
          ≡ some now
    go (some v) h = unfold mark_seen in absurd (unfold mark_seen in cc)
    go none h = unfold mark_seen in get-put_self (prune (now - max_drift_s) seen) (ts, sig) now

checked_refused :
    (now : ℕ) (seen : Seen) (ts : ℕ) (sig : Bytes) (v : Bool × Reason)
    → (is_replayed_auth now seen sig ts).0 ≡ true
    → (replay_check now seen ts sig v).0.0 ≡ false
unfolding replay_check
checked_refused now seen ts sig (false, r) h = refl
checked_refused now seen ts sig (true, r) h = rw h

checked_accepted :
    (now : ℕ) (seen : Seen) (ts : ℕ) (sig : Bytes) (v : Bool × Reason)
    → (replay_check now seen ts sig v).0.0 ≡ true
    → ((is_replayed_auth now seen sig ts).0 ≡ false)
      × ((replay_check now seen ts sig v).1 ≡ (is_replayed_auth now seen sig ts).1)
unfolding replay_check
checked_accepted now seen ts sig (false, r) h = cc
checked_accepted now seen ts sig (true, r) h = (ground arith, refl)

module _ (hmac : Bytes → Bytes → Bytes) where
  -- Whether a check that raises nothing accepts.
  abbrev pub Accepts : Result ((Bool × Reason) × Seen) → Type 0
  Accepts (ok (v, seen)) = v.0 ≡ true
  Accepts (err e) = ⊥

  abbrev pub seen_after : Seen → Result ((Bool × Reason) × Seen) → Seen
  seen_after seen (ok (v, seen')) = seen'
  seen_after seen (err e) = seen

  verify_drift :
      (now : ℕ) (token : Bytes) (ts : ℕ) (sig : Bytes)
      → max_drift_s < now - ts
      → verify_signature hmac now token ts sig ≡ ok (false, drift_too_large)
  unfolding verify_signature
  verify_drift now token ts sig far = ground arith

  accepted_remembers :
      (t : ℕ) (seen : Seen) (token : Bytes) (ts : ℕ) (sig : Bytes)
      → Accepts (verify_and_check hmac t seen token ts sig)
      → Dict.get (seen_after seen (verify_and_check hmac t seen token ts sig)) (ts, sig) ≡ some t
  unfolding verify_and_check
  accepted_remembers t seen token ts sig = go (verify_signature hmac t token ts sig)
    where
      go :
          (r : Result (Bool × Reason))
          → Accepts (r >>= λ v. ok (replay_check t seen ts sig v))
          → Dict.get (seen_after seen (r >>= λ v. ok (replay_check t seen ts sig v))) (ts, sig)
            ≡ some t
      go (err e) a = absurd a
      go (ok v) a =
          let (fresh, same) = checked_accepted t seen ts sig v a in
          rw same (remembered t seen sig ts fresh)

  far_refused :
      (t' : ℕ) (seen : Seen) (token : Bytes) (ts : ℕ) (sig : Bytes)
      → max_drift_s < t' - ts
      → ¬ (Accepts (verify_and_check hmac t' seen token ts sig))
  unfolding verify_and_check
  far_refused t' seen token ts sig far =
      rw (verify_drift t' token ts sig far) (unfold replay_check in cc)

  known_refused :
      (t' : ℕ) (seen : Seen) (token : Bytes) (ts s : ℕ) (sig : Bytes)
      → Dict.get seen (ts, sig) ≡ some s
      → t' ≤ s + max_drift_s
      → ¬ (Accepts (verify_and_check hmac t' seen token ts sig))
  unfolding verify_and_check
  known_refused t' seen token ts s sig h le = go (verify_signature hmac t' token ts sig)
    where
      go :
          (r : Result (Bool × Reason)) → ¬ (Accepts (r >>= λ v. ok (replay_check t' seen ts sig v)))
      go (err e) a = a
      go (ok v) a = cc (checked_refused t' seen ts sig v (detected t' seen sig ts s h le))

  -- An Auth request whose timestamp does not lie ahead of the server's clock is accepted at most
  -- once: whatever other attempts the server handles by then, at a later time the same signature and
  -- timestamp are refused, or the check raises.
  pub accepted_once :
      (t t' : ℕ) (seen : Seen) (token : Bytes) (ts : ℕ) (sig : Bytes)
      (others : List (ℕ × Bytes × ℕ))
      → ts ≤ t
      → all_before t' others ≡ true
      → Accepts (verify_and_check hmac t seen token ts sig)
      → ¬ (
          Accepts (
            verify_and_check hmac t'
              (attempts (seen_after seen (verify_and_check hmac t seen token ts sig)) others)
              token
              ts
              sig))
  accepted_once t t' seen token ts sig others le before a = elim (dec_lt max_drift_s (t' - ts)) [
    | yes far ↦ far_refused t' _ token ts sig far
    | no near ↦
        known_refused t' _ token ts t sig
          (known_after_attempts others _ (ts, sig) t (accepted_remembers t seen token ts sig a)
            (all_before_le t' (t + max_drift_s) others (omega arith) before))
          (omega arith)
  ]
