-- ===== src/Cache/FilterDedup/Owned.antt =====
-- Which filter a cached request stands for (vci_proxy/cache_filter_dedup.py).
use gds2_automation.Base.{
  ℕ, String, ◌≡◌, refl, ◌≢◌, Bool, true, false, not, Option, none, some, List, [], ◌∷◌, arith, ◌==◌,
  nat_eq, string_eq, pair_eq, if◌then◌else◌, Result, ok, err, ◌>>=◌, take,
}
use gds2_automation.Base.Dict
use gds2_automation.Base.Dict.{Dict, get-put, get-pop}
use gds2_automation.Wire.Pack.{Bytes, unpack1}
use gds2_automation.Cache.FilterDedup.{
  FilterDedup, init, drop_key, drop_keys, keys_of, invalidate_channel, forget, on_stop_filter,
  clear, stored, record_result,
}
use mathlib.Core.Path.{subst}
use text.Mathlib.TextEquality.{eq_iff}

-- Each cached filter is the one that its id stands for.
pub record IsOwned (c : FilterDedup) : Type 0 where
  pub owned :
      (k : String) (f : ℕ) (r : Bytes)
      → Dict.get c.filters k ≡ some (f, r)
      → Dict.get c.id_to_key f ≡ some k

pub IsOwned-init : (on : Bool) → IsOwned (init on)
unfolding init
IsOwned-init on = record { owned = λ k f r. unfold Dict.get in cc }

pub clear-IsOwned : (c : FilterDedup) → IsOwned (clear c)
unfolding clear
clear-IsOwned c = record { owned = λ k f r. unfold Dict.get in cc }

-- Dropping a key and the id of its filter.
drop_key-IsOwned :
    (c : FilterDedup) (k : String) → IsOwned c → IsOwned (drop_key c k (Dict.get c.filters k))
drop_key-IsOwned c k v = go (Dict.get c.filters k) refl
  where
    go : (o : Option (ℕ × Bytes)) → Dict.get c.filters k ≡ o → IsOwned (drop_key c k o)
    go none e = unfold drop_key in v
    go (some (g, body)) e =
        unfold drop_key in
        record {
          owned = λ j f r h. ground (
            arith,
            v.owned j f r,
            v.owned k g body e,
            get-pop c.filters k j,
            get-pop c.id_to_key g f,
            eq_iff k j,
          );
        }

drop_keys-IsOwned : (ks : List String) (c : FilterDedup) → IsOwned c → IsOwned (drop_keys c ks)
unfolding drop_keys
drop_keys-IsOwned [] c v = v
drop_keys-IsOwned (k ∷ ks) c v = drop_keys-IsOwned ks _ (drop_key-IsOwned c k v)

pub invalidate_channel-IsOwned :
    (c : FilterDedup) (ch : ℕ) → IsOwned c → IsOwned (invalidate_channel c ch)
unfolding invalidate_channel
invalidate_channel-IsOwned c ch v =
    drop_keys-IsOwned (keys_of (Dict.get c.channel_filters ch))
      (record c { channel_filters = Dict.pop c.channel_filters ch }) (record { owned = v.owned })

pub on_stop_filter-IsOwned : (c : FilterDedup) (f : ℕ) → IsOwned c → IsOwned (on_stop_filter c f)
unfolding on_stop_filter
on_stop_filter-IsOwned c f v = go (Dict.get c.id_to_key f) refl
  where
    go : (o : Option String) → Dict.get c.id_to_key f ≡ o → IsOwned (forget c f o)
    go none e = unfold forget in v
    go (some key) e =
        unfold forget in
        record {
          owned = λ j g r h. ground (
            arith,
            v.owned j g r,
            get-pop c.filters key j,
            get-pop c.id_to_key f g,
            eq_iff key j,
          );
        }

module _ (sha256 : Bytes → String) where
  -- The device hands out an id that no other cached request holds.
  unfoldable pub IsFresh : FilterDedup → Bytes → ℕ → Type 0
  IsFresh c body f = (k : String) (r : Bytes) → Dict.get c.filters k ≡ some (f, r) → k ≡ sha256 body

  stored-IsOwned :
      (c : FilterDedup) (body : Bytes) (ch f : ℕ) (resp : Bytes)
      → IsOwned c
      → IsFresh c body f
      → IsOwned (stored c (sha256 body) ch f resp)
  unfolding stored IsFresh
  stored-IsOwned c body ch f resp v fresh = record {
    owned = λ k g r h. ground (
      arith,
      v.owned k g r,
      fresh k r,
      get-put c.filters (sha256 body) k (f, resp),
      get-put c.id_to_key f g (sha256 body),
      eq_iff (sha256 body) k,
    );
  }

  pub record_result-IsOwned :
      (c c' : FilterDedup) (body : Bytes) (f rc : ℕ) (resp : Bytes)
      → IsOwned c
      → IsFresh c body f
      → record_result sha256 c body f rc resp ≡ ok c'
      → IsOwned c'
  unfolding record_result
  record_result-IsOwned c c' body f rc resp v fresh = go c.enabled (rc == 0) (unpack1 (take 4 body))
    where
      go :
          (on success : Bool) (u : Result ℕ)
          → (if not on
              then ok c
              else if not success
              then ok c
              else (do ch ← u; ok (stored c (sha256 body) ch f resp)))
            ≡ ok c'
          → IsOwned c'
      go false success u h = subst IsOwned (cc) v
      go true false u h = subst IsOwned (cc) v
      go true true (err e) h = absurd (cc)
      go true true (ok ch) h =
          subst IsOwned {x = stored c (sha256 body) ch f resp} (cc)
            (stored-IsOwned c body ch f resp v fresh)

-- After StopFilter no cached request is answered by the stopped filter.
pub on_stop_filter_forgets :
    (c : FilterDedup) (f : ℕ) (k : String) (g : ℕ) (r : Bytes)
    → IsOwned c
    → Dict.get (on_stop_filter c f).filters k ≡ some (g, r)
    → g ≢ f
unfolding on_stop_filter
on_stop_filter_forgets c f k g r v = go (Dict.get c.id_to_key f) refl
  where
    go :
        (o : Option String)
        → Dict.get c.id_to_key f ≡ o
        → Dict.get (forget c f o).filters k ≡ some (g, r)
        → g ≢ f
    go none e = unfold forget in λ h same. ground (arith, v.owned k g r)
    go (some key) e =
        unfold forget in
        λ h same. ground (arith, v.owned k g r, get-pop c.filters key k, eq_iff key k)
