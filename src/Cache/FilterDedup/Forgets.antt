-- ===== src/Cache/FilterDedup/Forgets.antt =====
-- Requests whose filter is stopped or whose channel is disconnected are not answered from the
-- cache (vci_proxy/cache_filter_dedup.py).
use gds2_automation.Base.{
  ℕ, String, ◌≡◌, refl, ◌≢◌, inl, inr, Bool, true, false, Option, none, some, List, [], ◌∷◌, ◌++◌,
  arith, ◌==◌, nat_eq, string_eq, pair_eq, if◌then◌else◌, Bool-cases, ok,
}
use gds2_automation.Base.Dict
use gds2_automation.Base.Dict.{Dict, get-put, get-pop}
use gds2_automation.Wire.Pack.{Bytes}
use gds2_automation.Cache.FilterDedup.{
  FilterDedup, init, contains, add, add_to, add_channel_key, drop_key, drop_keys, keys_of,
  invalidate_channel, on_stop_filter, clear, stored, found, try_dedup, record_result,
}
use gds2_automation.Cache.FilterDedup.Owned.{
  IsOwned, IsFresh, IsOwned-init, record_result-IsOwned, on_stop_filter-IsOwned,
  invalidate_channel-IsOwned, clear-IsOwned, on_stop_filter_forgets,
}
use text.Mathlib.TextEquality.{eq_iff}

drop_key_self :
    (c : FilterDedup) (k : String) → Dict.get (drop_key c k (Dict.get c.filters k)).filters k ≡ none
drop_key_self c k = go (Dict.get c.filters k) refl
  where
    go :
        (o : Option (ℕ × Bytes))
        → Dict.get c.filters k ≡ o
        → Dict.get (drop_key c k o).filters k ≡ none
    go none e = unfold drop_key in e
    go (some (g, body)) e = unfold drop_key in ground (arith, get-pop c.filters k k, eq_iff k k)

drop_key-none :
    (c : FilterDedup) (j k : String)
    → Dict.get c.filters k ≡ none
    → Dict.get (drop_key c j (Dict.get c.filters j)).filters k ≡ none
drop_key-none c j k h = go (Dict.get c.filters j)
  where
    go : (o : Option (ℕ × Bytes)) → Dict.get (drop_key c j o).filters k ≡ none
    go none = unfold drop_key in h
    go (some (g, body)) = unfold drop_key in ground (arith, get-pop c.filters j k)

drop_keys-none :
    (ks : List String) (c : FilterDedup) (k : String)
    → Dict.get c.filters k ≡ none
    → Dict.get (drop_keys c ks).filters k ≡ none
unfolding drop_keys
drop_keys-none [] c k h = h
drop_keys-none (j ∷ ks) c k h =
    drop_keys-none ks (drop_key c j (Dict.get c.filters j)) k (drop_key-none c j k h)

-- Every listed key is dropped.
drop_keys_drops :
    (ks : List String) (c : FilterDedup) (k : String)
    → contains k ks ≡ true
    → Dict.get (drop_keys c ks).filters k ≡ none
unfolding drop_keys contains
drop_keys_drops [] c k h = cc
drop_keys_drops (j ∷ ks) c k h = elim (Bool-cases (j == k)) [
  | inl y ↦
      drop_keys-none ks (drop_key c j (Dict.get c.filters j)) k
        (rw (← (eq_iff j k).0 y) (drop_key_self c j))
  | inr n ↦ drop_keys_drops ks (drop_key c j (Dict.get c.filters j)) k (ground arith)
]

contains-snoc : (k : String) (ks : List String) → contains k (ks ++ (k ∷ [])) ≡ true
unfolding contains
contains-snoc k [] = ground (arith, eq_iff k k)
contains-snoc k (j ∷ js) = ground (arith, contains-snoc k js)

contains-add : (k : String) (ks : List String) → contains k (add k ks) ≡ true
unfolding add
contains-add k ks = ground (arith, contains-snoc k ks)

contains-add_channel_key :
    (d : Dict ℕ (List String)) (ch : ℕ) (k : String)
    → contains k (keys_of (Dict.get (add_channel_key d ch k) ch)) ≡ true
unfolding add_channel_key
contains-add_channel_key d ch k = go (Dict.get d ch)
  where
    go : (o : Option (List String)) → contains k (keys_of (Dict.get (add_to d ch k o) ch)) ≡ true
    go none = unfold add_to keys_of in ground (arith, get-put d ch ch (add k []), contains-add k [])
    go (some ks) =
        unfold add_to keys_of in ground (arith, get-put d ch ch (add k ks), contains-add k ks)

pub invalidate_channel_drops :
    (c : FilterDedup) (ch : ℕ) (k : String)
    → contains k (keys_of (Dict.get c.channel_filters ch)) ≡ true
    → Dict.get (invalidate_channel c ch).filters k ≡ none
unfolding invalidate_channel
invalidate_channel_drops c ch k h =
    drop_keys_drops (keys_of (Dict.get c.channel_filters ch))
      (record c { channel_filters = Dict.pop c.channel_filters ch }) k h

module _ (sha256 : Bytes → String) where
  -- A request that was stored and whose channel is disconnected is not answered from the cache.
  pub disconnect_forgets :
      (c : FilterDedup) (body : Bytes) (ch f seq : ℕ) (resp : Bytes)
      → (try_dedup sha256 (invalidate_channel (stored c (sha256 body) ch f resp) ch) body seq).0
        ≡ ok none
  unfolding try_dedup
  disconnect_forgets c body ch f seq resp = ground (
    arith,
    invalidate_channel_drops (stored c (sha256 body) ch f resp) ch (sha256 body)
        (unfold stored in contains-add_channel_key c.channel_filters ch (sha256 body)),
  )

  -- The states that the server brings the cache to, where the device hands out no filter id that
  -- another cached request holds.
  pub data Reach : FilterDedup → Type 0 where
    start : (on : Bool) → Reach (init on)
    looked_up :
        {c : FilterDedup}
        → Reach c
        → (body : Bytes) (seq : ℕ) → Reach (try_dedup sha256 c body seq).1
    recorded :
        {c c' : FilterDedup}
        → Reach c
        → (body : Bytes) (f rc : ℕ) (resp : Bytes) → IsFresh sha256 c body f
        → record_result sha256 c body f rc resp ≡ ok c'
        → Reach c'
    stopped : {c : FilterDedup} → Reach c → (f : ℕ) → Reach (on_stop_filter c f)
    disconnected : {c : FilterDedup} → Reach c → (ch : ℕ) → Reach (invalidate_channel c ch)
    cleared : {c : FilterDedup} → Reach c → Reach (clear c)

  try_dedup-IsOwned :
      (c : FilterDedup) (body : Bytes) (seq : ℕ)
      → IsOwned c
      → IsOwned (try_dedup sha256 c body seq).1
  unfolding try_dedup
  try_dedup-IsOwned c body seq v = go c.enabled (Dict.get c.filters (sha256 body))
    where
      go :
          (on : Bool) (o : Option (ℕ × Bytes))
          → IsOwned (if on then found sha256 c seq o else (ok none, c)).1
      go false o = v
      go true none = unfold found in record { owned = v.owned }
      go true (some p) = unfold found in record { owned = v.owned }

  Reach-IsOwned : {c : FilterDedup} → Reach c → IsOwned c
  Reach-IsOwned (start on) = IsOwned-init on
  Reach-IsOwned (looked_up {c} r body seq) = try_dedup-IsOwned c body seq (Reach-IsOwned r)
  Reach-IsOwned (recorded {c} {c'} r body f rc resp fresh e) =
      record_result-IsOwned sha256 c c' body f rc resp (Reach-IsOwned r) fresh e
  Reach-IsOwned (stopped {c} r f) = on_stop_filter-IsOwned c f (Reach-IsOwned r)
  Reach-IsOwned (disconnected {c} r ch) = invalidate_channel-IsOwned c ch (Reach-IsOwned r)
  Reach-IsOwned (cleared {c} r) = clear-IsOwned c

  -- In every state that the cache reaches while the device hands out no filter id that another
  -- cached request holds, StopFilter of a filter leaves no cached request that this filter answers:
  -- an entry that is left is another filter's.
  pub stopped_filter_forgotten :
      (c : FilterDedup) (f : ℕ) (k : String) (g : ℕ) (r : Bytes)
      → Reach c
      → Dict.get (on_stop_filter c f).filters k ≡ some (g, r)
      → g ≢ f
  stopped_filter_forgotten c f k g r reach = on_stop_filter_forgets c f k g r (Reach-IsOwned reach)
