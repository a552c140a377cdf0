-- ===== src/Cache/ReadMsgs.antt =====
-- The cache of empty reads, one entry for each channel (vci_proxy/cache_read_msgs.py).
use gds2_automation.Base.{
  ℕ, ◌+◌, ◌-◌, ◌≡◌, refl, ap, inl, inr, Bool, true, not, ◌&&◌, Option, none, some, List, [], ◌∷◌,
  arith, ltb, leb, ◌==◌, nat_eq, string_eq, pair_eq, if◌then◌else◌, Bool-cases, Result, ok, ◌>>=◌,
}
use gds2_automation.Base.Dict
use gds2_automation.Base.Dict.{Dict, get-put, get-pop}
use gds2_automation.Wire.Pack.{Bytes, pack_words, pack_u32}
use gds2_automation.Wire.Frame.{frame, read_msgs_rsp}
use gds2_automation.Wire.Messages.{encode_read_msgs_rsp, encode_msgs}

abbrev pub buffer_empty : ℕ
buffer_empty = 0x10

pub record ReadMsgsCacheConfig : Type 0 where
  pub enabled : Bool
  pub ttl_ms : ℕ

-- Times are readings of the monotonic clock in milliseconds.
pub record ReadMsgsCache : Type 0 where
  pub enabled : Bool
  pub ttl : ℕ
  pub channels : Dict ℕ (ℕ × ℕ)
  pub hits : ℕ
  pub misses : ℕ

unfoldable pub init : ReadMsgsCacheConfig → ReadMsgsCache
init config = record {
  enabled = config.enabled;
  ttl = config.ttl_ms;
  channels = [];
  hits = 0;
  misses = 0;
}

unfoldable pub miss : ReadMsgsCache → ReadMsgsCache
miss c = record c { misses = c.misses + 1 }

-- The prebuilt response: `header + body` with a body of two words.
unfoldable pub empty_reply : ℕ → Result (Option Bytes)
empty_reply seq = do
  body ← pack_words (buffer_empty ∷ 0 ∷ [])
  reply ← frame read_msgs_rsp seq body
  ok (some reply)

-- The branches behind the look-up of the channel's entry.
unfoldable pub serve_entry :
    ReadMsgsCache → ℕ → ℕ → Option (ℕ × ℕ) → Result (Option Bytes) × ReadMsgsCache
unfolding miss empty_reply
serve_entry c now seq none = (ok none, miss c)
serve_entry c now seq (some (ts, return_code)) =
    if not (return_code == buffer_empty)
    then (ok none, miss c)
    else if ltb c.ttl (now - ts)
    then (ok none, miss c)
    else (empty_reply seq, record c { hits = c.hits + 1 })

-- A call may raise, and what it counted stays counted.
unfoldable pub try_serve_from_cache :
    ReadMsgsCache → ℕ → ℕ → ℕ → Result (Option Bytes) × ReadMsgsCache
unfolding serve_entry
try_serve_from_cache c now channel_id seq =
    if c.enabled then serve_entry c now seq (Dict.get c.channels channel_id) else (ok none, c)

unfoldable pub record_result : ReadMsgsCache → ℕ → ℕ → ℕ → ReadMsgsCache
record_result c now channel_id return_code =
    if c.enabled
    then record c { channels = Dict.put c.channels channel_id (now, return_code) }
    else c

unfoldable pub invalidate_channel : ReadMsgsCache → ℕ → ReadMsgsCache
invalidate_channel c channel_id = record c { channels = Dict.pop c.channels channel_id }

unfoldable pub clear : ReadMsgsCache → ReadMsgsCache
clear c = record c { channels = [] }

unfoldable pub stats : ReadMsgsCache → ℕ × ℕ
stats c = (c.hits, c.misses)

-- What happened to a cache, newest first.
pub data Event : Type 0 where
  served : ℕ → ℕ → ℕ → Event
  recorded : ℕ → ℕ → ℕ → Event
  invalidated : ℕ → Event
  cleared : Event

unfoldable pub step : ReadMsgsCache → Event → ReadMsgsCache
step c (served now channel_id seq) = (try_serve_from_cache c now channel_id seq).1
step c (recorded now channel_id return_code) = record_result c now channel_id return_code
step c (invalidated channel_id) = invalidate_channel c channel_id
step c cleared = clear c

unfoldable pub after : ReadMsgsCacheConfig → List Event → ReadMsgsCache
after config [] = init config
after config (e ∷ events) = step (after config events) e

-- The last result of a channel that no disconnect has voided, with the time of its recording.
unfoldable pub latest : ℕ → List Event → Option (ℕ × ℕ)
latest ch [] = none
latest ch (served now c seq ∷ events) = latest ch events
latest ch (recorded now c return_code ∷ events) =
    if c == ch then some (now, return_code) else latest ch events
latest ch (invalidated c ∷ events) = if c == ch then none else latest ch events
latest ch (cleared ∷ events) = none

record Tracks (config : ReadMsgsCacheConfig) (events : List Event) (c : ReadMsgsCache)
    : Type 0 where
  enabled_eq : c.enabled ≡ config.enabled
  ttl_eq : c.ttl ≡ config.ttl_ms
  entries : (ch : ℕ) → config.enabled ≡ true → Dict.get c.channels ch ≡ latest ch events

step-Tracks :
    (config : ReadMsgsCacheConfig) (events : List Event) (c : ReadMsgsCache) (e : Event)
    → Tracks config events c
    → Tracks config (e ∷ events) (step c e)
unfolding step latest
step-Tracks config events c (served now ch' seq) t =
    unfold try_serve_from_cache in
    record {
      enabled_eq = ground (arith, t.enabled_eq);
      ttl_eq = ground (arith, t.ttl_eq);
      entries = λ ch on. ground (arith, t.entries ch on);
    }
step-Tracks config events c (recorded now ch' rc) t =
    unfold record_result in
    record {
      enabled_eq = ground (arith, t.enabled_eq);
      ttl_eq = ground (arith, t.ttl_eq);
      entries = λ ch on.
          ground (arith, t.enabled_eq, t.entries ch on, get-put c.channels ch' ch (now, rc));
    }
step-Tracks config events c (invalidated ch') t =
    unfold invalidate_channel in
    record {
      enabled_eq = t.enabled_eq;
      ttl_eq = t.ttl_eq;
      entries = λ ch on. ground (arith, t.entries ch on, get-pop c.channels ch' ch);
    }
step-Tracks config events c cleared t =
    unfold clear in
    record {
      enabled_eq = t.enabled_eq;
      ttl_eq = t.ttl_eq;
      entries = λ ch on. unfold Dict.get in refl;
    }

after-Tracks :
    (config : ReadMsgsCacheConfig) (events : List Event)
    → Tracks config events (after config events)
unfolding after
after-Tracks config [] =
    unfold init in
    record { enabled_eq = refl; ttl_eq = refl; entries = λ ch on. unfold Dict.get latest in refl }
after-Tracks config (e ∷ events) =
    step-Tracks config events (after config events) e (after-Tracks config events)

-- The answer by the history alone: the last result of the channel was an empty buffer, not longer
-- ago than the time to live.
abbrev pub answer : ReadMsgsCacheConfig → ℕ → ℕ → Option (ℕ × ℕ) → Result (Option Bytes)
answer config now seq none = ok none
answer config now seq (some (ts, return_code)) =
    if return_code == buffer_empty && leb (now - ts) config.ttl_ms then empty_reply seq else ok none

serve_entry-answer :
    (config : ReadMsgsCacheConfig) (c : ReadMsgsCache) (now seq : ℕ) (o : Option (ℕ × ℕ))
    → c.ttl ≡ config.ttl_ms
    → (serve_entry c now seq o).0 ≡ answer config now seq o
unfolding serve_entry
serve_entry-answer config c now seq none h = refl
serve_entry-answer config c now seq (some (ts, rc)) h = ground arith

Tracks-answer :
    (config : ReadMsgsCacheConfig) (events : List Event) (c : ReadMsgsCache) (now ch seq : ℕ)
    → Tracks config events c
    → (try_serve_from_cache c now ch seq).0
      ≡ (if config.enabled then answer config now seq (latest ch events) else ok none)
unfolding try_serve_from_cache
Tracks-answer config events c now ch seq t = elim (Bool-cases config.enabled) [
  | inr n ↦ ground (arith, t.enabled_eq)
  | inl y ↦ ground (
    arith,
    t.enabled_eq,
    serve_entry-answer config c now seq (Dict.get c.channels ch) t.ttl_eq,
    ap (λ o. answer config now seq o) (t.entries ch y),
  )
]

-- After any history of calls, a look-up answers as the history says: nothing if the cache is
-- switched off, the prebuilt empty response if the channel's last result that no disconnect has
-- voided was an empty buffer within the time to live, and nothing otherwise.
pub try_serve_from_cache-answer :
    (config : ReadMsgsCacheConfig) (events : List Event) (now ch seq : ℕ)
    → (try_serve_from_cache (after config events) now ch seq).0
      ≡ (if config.enabled then answer config now seq (latest ch events) else ok none)
try_serve_from_cache-answer config events now ch seq =
    Tracks-answer config events (after config events) now ch seq (after-Tracks config events)

-- The prebuilt response is the encoding of an empty ReadMsgs result.
pub empty_reply_lem :
    (seq : ℕ)
    → empty_reply seq ≡ (encode_read_msgs_rsp buffer_empty [] seq >>= λ reply. ok (some reply))
unfolding empty_reply encode_read_msgs_rsp encode_msgs
empty_reply_lem seq = unfold pack_words pack_u32 in refl

pub try_serve_from_cache-invalidate_channel :
    (c : ReadMsgsCache) (now ch seq : ℕ)
    → (try_serve_from_cache (invalidate_channel c ch) now ch seq).0 ≡ ok none
unfolding try_serve_from_cache invalidate_channel
try_serve_from_cache-invalidate_channel c now ch seq = ground (arith, get-pop c.channels ch ch)

pub try_serve_from_cache-clear :
    (c : ReadMsgsCache) (now ch seq : ℕ) → (try_serve_from_cache (clear c) now ch seq).0 ≡ ok none
unfolding try_serve_from_cache clear Dict.get
try_serve_from_cache-clear c now ch seq = ground arith
