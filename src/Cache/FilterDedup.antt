-- ===== src/Cache/FilterDedup.antt =====
-- The deduplication of StartFilter requests (vci_proxy/cache_filter_dedup.py).
pub mod Owned
pub mod Forgets
use gds2_automation.Base.{
  ℕ, ◌+◌, ◌-◌, String, Bool, false, not, ◌||◌, Option, none, some, List, [], ◌∷◌, ◌++◌, arith, ◌==◌,
  nat_eq, string_eq, pair_eq, if◌then◌else◌, Result, ok, ◌>>=◌, ◌>>◌, take,
}
use gds2_automation.Base.Dict
use gds2_automation.Base.Dict.{Dict, get-put, get-pop}
use gds2_automation.Wire.Pack.{Bytes, unpack1}
use gds2_automation.Wire.Frame.{frame, start_filter_rsp}

pub record FilterDedup : Type 0 where
  pub enabled : Bool
  pub filters : Dict String (ℕ × Bytes)
  pub channel_filters : Dict ℕ (List String)
  pub id_to_key : Dict ℕ String
  pub hits : ℕ
  pub misses : ℕ

unfoldable pub init : Bool → FilterDedup
init enabled = record {
  enabled = enabled;
  filters = [];
  channel_filters = [];
  id_to_key = [];
  hits = 0;
  misses = 0;
}

-- A set of keys as the list of its members: `add` and `discard`.
unfoldable pub discard : String → List String → List String
discard k [] = []
discard k (j ∷ js) = let rest = discard k js in if j == k then rest else j ∷ rest

unfoldable pub contains : String → List String → Bool
contains k [] = false
contains k (j ∷ js) = j == k || contains k js

unfoldable pub add : String → List String → List String
unfolding contains
add k js = if contains k js then js else js ++ (k ∷ [])

-- self._channel_filters.setdefault(channel_id, set()).add(key)
unfoldable pub add_to :
    Dict ℕ (List String) → ℕ → String → Option (List String) → Dict ℕ (List String)
unfolding add
add_to d ch k none = Dict.put d ch (add k [])
add_to d ch k (some ks) = Dict.put d ch (add k ks)

unfoldable pub add_channel_key : Dict ℕ (List String) → ℕ → String → Dict ℕ (List String)
unfolding add_to
add_channel_key d ch k = add_to d ch k (Dict.get d ch)

-- for channel_keys in self._channel_filters.values(): channel_keys.discard(key)
unfoldable pub discard_everywhere : Dict ℕ (List String) → String → Dict ℕ (List String)
unfolding discard
discard_everywhere [] k = []
discard_everywhere ((ch, ks) ∷ d) k = (ch, discard k ks) ∷ discard_everywhere d k

-- The end of `invalidate_channel`'s loop for one key.
unfoldable pub drop_key : FilterDedup → String → Option (ℕ × Bytes) → FilterDedup
drop_key c k none = c
drop_key c k (some (filter_id, body)) = record c {
  filters = Dict.pop c.filters k;
  id_to_key = Dict.pop c.id_to_key filter_id;
}

unfoldable pub drop_keys : FilterDedup → List String → FilterDedup
unfolding drop_key
drop_keys c [] = c
drop_keys c (k ∷ ks) = drop_keys (drop_key c k (Dict.get c.filters k)) ks

unfoldable pub keys_of : Option (List String) → List String
keys_of none = []
keys_of (some ks) = ks

unfoldable pub invalidate_channel : FilterDedup → ℕ → FilterDedup
unfolding drop_keys keys_of
invalidate_channel c channel_id =
    drop_keys (record c { channel_filters = Dict.pop c.channel_filters channel_id })
      (keys_of (Dict.get c.channel_filters channel_id))

unfoldable pub forget : FilterDedup → ℕ → Option String → FilterDedup
unfolding discard_everywhere
forget c filter_id none = c
forget c filter_id (some key) = record c {
  filters = Dict.pop c.filters key;
  id_to_key = Dict.pop c.id_to_key filter_id;
  channel_filters = discard_everywhere c.channel_filters key;
}

unfoldable pub on_stop_filter : FilterDedup → ℕ → FilterDedup
unfolding forget
on_stop_filter c filter_id = forget c filter_id (Dict.get c.id_to_key filter_id)

unfoldable pub clear : FilterDedup → FilterDedup
clear c = record c { filters = []; channel_filters = []; id_to_key = [] }

unfoldable pub stats : FilterDedup → ℕ × ℕ
stats c = (c.hits, c.misses)

-- What a successful result writes, under the request's key and channel.
unfoldable pub stored : FilterDedup → String → ℕ → ℕ → Bytes → FilterDedup
unfolding add_channel_key
stored c key channel_id filter_id response_body = record c {
  filters = Dict.put c.filters key (filter_id, response_body);
  id_to_key = Dict.put c.id_to_key filter_id key;
  channel_filters = add_channel_key c.channel_filters channel_id key;
}

-- The SHA-256 digest of a request's body is computed by the standard library.
module _ (sha256 : Bytes → String) where
  unfoldable pub found : FilterDedup → ℕ → Option (ℕ × Bytes) → Result (Option Bytes) × FilterDedup
  found c seq none = (ok none, record c { misses = c.misses + 1 })
  found c seq (some (filter_id, cached)) = (
    (do reply ← frame start_filter_rsp seq cached; ok (some reply)),
    record c { hits = c.hits + 1 },
  )

  unfoldable pub try_dedup : FilterDedup → Bytes → ℕ → Result (Option Bytes) × FilterDedup
  unfolding found
  try_dedup c body seq =
      if c.enabled then found c seq (Dict.get c.filters (sha256 body)) else (ok none, c)

  -- A body of less than four bytes raises `struct.error` before anything is stored.
  unfoldable pub record_result : FilterDedup → Bytes → ℕ → ℕ → Bytes → Result FilterDedup
  unfolding stored
  record_result c body filter_id return_code response_body =
      if not c.enabled then ok c else if not (return_code == 0) then ok c else do
        channel_id ← unpack1 (take 4 body)
        ok (stored c (sha256 body) channel_id filter_id response_body)
