-- ===== src/Cache/Ioctl.antt =====
-- The cache of read-only Ioctls, one entry for each channel and id (vci_proxy/cache_ioctl.py).
use gds2_automation.Base.{
  ℕ, ◌+◌, ◌-◌, ◌*◌, ◌≤◌, ◌≡◌, refl, ap, inl, inr, Bool, true, not, ◌&&◌, ◌||◌, Option, none, some,
  List, [], ◌∷◌, arith, ltb, leb, ◌==◌, nat_eq, string_eq, pair_eq, if◌then◌else◌, Bool-cases,
}
use gds2_automation.Base.Dict
use gds2_automation.Base.Dict.{Dict, get-put}
use gds2_automation.Wire.Pack.{Bytes}

-- The ids of DEFAULT_CACHEABLE_IDS: GET_CONFIG, READ_VBATT and READ_PROG_VOLTAGE.
abbrev pub ioctl_get_config : ℕ
ioctl_get_config = 0x01

abbrev pub ioctl_read_vbatt : ℕ
ioctl_read_vbatt = 0x03

abbrev pub ioctl_read_prog_voltage : ℕ
ioctl_read_prog_voltage = 0x09

unfoldable pub is_cacheable : ℕ → Bool
is_cacheable ioctl_id =
    ioctl_id == ioctl_get_config
    || (ioctl_id == ioctl_read_vbatt || ioctl_id == ioctl_read_prog_voltage)

pub record IoctlCacheConfig : Type 0 where
  pub enabled : Bool
  pub ttl_s : ℕ

-- The time of the recording, the return code and the output.
abbrev pub Entry : Type 0
Entry = ℕ × ℕ × Option Bytes

-- Times are readings of the monotonic clock in milliseconds; the time to live is set in seconds.
pub record IoctlCache : Type 0 where
  pub enabled : Bool
  pub ttl : ℕ
  pub entries : Dict (ℕ × ℕ) Entry
  pub hits : ℕ
  pub misses : ℕ

unfoldable pub init : IoctlCacheConfig → IoctlCache
init config = record {
  enabled = config.enabled;
  ttl = 1000 * config.ttl_s;
  entries = [];
  hits = 0;
  misses = 0;
}

unfoldable pub miss : IoctlCache → IoctlCache
miss c = record c { misses = c.misses + 1 }

-- The branches behind the look-up of the key.
unfoldable pub serve_entry : IoctlCache → ℕ → Option Entry → Option (ℕ × Option Bytes) × IoctlCache
unfolding miss
serve_entry c now none = (none, miss c)
serve_entry c now (some (ts, return_code, output_data)) =
    if ltb c.ttl (now - ts)
    then (none, miss c)
    else (some (return_code, output_data), record c { hits = c.hits + 1 })

unfoldable pub try_get_cached : IoctlCache → ℕ → ℕ → ℕ → Option (ℕ × Option Bytes) × IoctlCache
unfolding serve_entry is_cacheable
try_get_cached c now channel_id ioctl_id =
    if not c.enabled
    then (none, c)
    else if not (is_cacheable ioctl_id)
    then (none, c)
    else serve_entry c now (Dict.get c.entries (channel_id, ioctl_id))

unfoldable pub record_result : IoctlCache → ℕ → ℕ → ℕ → ℕ → Option Bytes → IoctlCache
unfolding is_cacheable
record_result c now channel_id ioctl_id return_code output_data =
    if not c.enabled
    then c
    else if not (is_cacheable ioctl_id)
    then c
    else if not (return_code == 0)
    then c
    else record c {
      entries = Dict.put c.entries (channel_id, ioctl_id) (now, return_code, output_data);
    }

-- The entries whose key has another channel.
unfoldable pub without_channel : Dict (ℕ × ℕ) Entry → ℕ → Dict (ℕ × ℕ) Entry
without_channel [] ch = []
without_channel (((c, i), v) ∷ d) ch =
    let rest = without_channel d ch in if c == ch then rest else ((c, i), v) ∷ rest

unfoldable pub invalidate_channel : IoctlCache → ℕ → IoctlCache
invalidate_channel c channel_id = record c { entries = without_channel c.entries channel_id }

unfoldable pub invalidate : IoctlCache → IoctlCache
invalidate c = record c { entries = [] }

unfoldable pub stats : IoctlCache → ℕ × ℕ
stats c = (c.hits, c.misses)

get-without_channel :
    (d : Dict (ℕ × ℕ) Entry) (ch c i : ℕ)
    → Dict.get (without_channel d ch) (c, i) ≡ (if ch == c then none else Dict.get d (c, i))
unfolding without_channel Dict.get
get-without_channel [] ch c i = ground arith
get-without_channel (((c', i'), v) ∷ d) ch c i = ground (arith, get-without_channel d ch c i)

-- What happened to a cache, newest first.
pub data Event : Type 0 where
  looked_up : ℕ → ℕ → ℕ → Event
  recorded : ℕ → ℕ → ℕ → ℕ → Option Bytes → Event
  channel_invalidated : ℕ → Event
  invalidated : Event

unfoldable pub step : IoctlCache → Event → IoctlCache
step c (looked_up now ch i) = (try_get_cached c now ch i).1
step c (recorded now ch i rc out) = record_result c now ch i rc out
step c (channel_invalidated ch) = invalidate_channel c ch
step c invalidated = invalidate c

unfoldable pub after : IoctlCacheConfig → List Event → IoctlCache
after config [] = init config
after config (e ∷ events) = step (after config events) e

-- The last successful result of an Ioctl on a channel that no invalidation has voided.
unfoldable pub latest : ℕ → ℕ → List Event → Option Entry
latest ch i [] = none
latest ch i (looked_up now c j ∷ events) = latest ch i events
latest ch i (recorded now c j rc out ∷ events) =
    if c == ch && j == i && rc == 0 then some (now, rc, out) else latest ch i events
latest ch i (channel_invalidated c ∷ events) = if c == ch then none else latest ch i events
latest ch i (invalidated ∷ events) = none

record Tracks (config : IoctlCacheConfig) (events : List Event) (c : IoctlCache) : Type 0 where
  enabled_eq : c.enabled ≡ config.enabled
  ttl_eq : c.ttl ≡ 1000 * config.ttl_s
  entries_eq :
      (ch i : ℕ)
      → config.enabled ≡ true
      → is_cacheable i ≡ true
      → Dict.get c.entries (ch, i) ≡ latest ch i events

step-Tracks :
    (config : IoctlCacheConfig) (events : List Event) (c : IoctlCache) (e : Event)
    → Tracks config events c
    → Tracks config (e ∷ events) (step c e)
unfolding step latest
step-Tracks config events c (looked_up now ch' i') t =
    unfold try_get_cached in
    record {
      enabled_eq = ground (arith, t.enabled_eq);
      ttl_eq = ground (arith, t.ttl_eq);
      entries_eq = λ ch i on ok_id. ground (arith, t.entries_eq ch i on ok_id);
    }
step-Tracks config events c (recorded now ch' i' rc out) t =
    unfold record_result in
    record {
      enabled_eq = ground (arith, t.enabled_eq);
      ttl_eq = ground (arith, t.ttl_eq);
      entries_eq = λ ch i on ok_id. ground (
        arith,
        t.enabled_eq,
        t.entries_eq ch i on ok_id,
        get-put c.entries (ch', i') (ch, i) (now, rc, out),
      );
    }
step-Tracks config events c (channel_invalidated ch') t =
    unfold invalidate_channel in
    record {
      enabled_eq = t.enabled_eq;
      ttl_eq = t.ttl_eq;
      entries_eq = λ ch i on ok_id.
          ground (arith, t.entries_eq ch i on ok_id, get-without_channel c.entries ch' ch i);
    }
step-Tracks config events c invalidated t =
    unfold invalidate in
    record {
      enabled_eq = t.enabled_eq;
      ttl_eq = t.ttl_eq;
      entries_eq = λ ch i on ok_id. unfold Dict.get in refl;
    }

after-Tracks :
    (config : IoctlCacheConfig) (events : List Event) → Tracks config events (after config events)
unfolding after
after-Tracks config [] =
    unfold init in
    record {
      enabled_eq = refl;
      ttl_eq = refl;
      entries_eq = λ ch i on c. unfold Dict.get latest in refl;
    }
after-Tracks config (e ∷ events) =
    step-Tracks config events (after config events) e (after-Tracks config events)

-- The answer by the history alone.
abbrev pub answer : IoctlCacheConfig → ℕ → Option Entry → Option (ℕ × Option Bytes)
answer config now none = none
answer config now (some (ts, rc, out)) =
    if leb (now - ts) (1000 * config.ttl_s) then some (rc, out) else none

serve_entry-answer :
    (config : IoctlCacheConfig) (c : IoctlCache) (now : ℕ) (o : Option Entry)
    → c.ttl ≡ 1000 * config.ttl_s
    → (serve_entry c now o).0 ≡ answer config now o
unfolding serve_entry
serve_entry-answer config c now none h = refl
serve_entry-answer config c now (some (ts, rc, out)) h = ground arith

Tracks-answer :
    (config : IoctlCacheConfig) (events : List Event) (c : IoctlCache) (now ch i : ℕ)
    → Tracks config events c
    → (try_get_cached c now ch i).0
      ≡ (if config.enabled && is_cacheable i then answer config now (latest ch i events) else none)
unfolding try_get_cached
Tracks-answer config events c now ch i t = elim (Bool-cases (config.enabled && is_cacheable i)) [
  | inr n ↦ ground (arith, t.enabled_eq)
  | inl y ↦ ground (
    arith,
    t.enabled_eq,
    serve_entry-answer config c now (Dict.get c.entries (ch, i)) t.ttl_eq,
    ap (λ o. answer config now o) (t.entries_eq ch i (ground arith) (ground arith)),
  )
]

-- After any history of calls, a look-up answers as the history says: the return code and the output
-- of the last successful result of that Ioctl on that channel, if no invalidation has voided it, it
-- is not older than the time to live, the id is cacheable and the cache is switched on; nothing
-- otherwise.
pub try_get_cached-answer :
    (config : IoctlCacheConfig) (events : List Event) (now ch i : ℕ)
    → (try_get_cached (after config events) now ch i).0
      ≡ (if config.enabled && is_cacheable i then answer config now (latest ch i events) else none)
try_get_cached-answer config events now ch i =
    Tracks-answer config events (after config events) now ch i (after-Tracks config events)

-- A successful result answers the next look-ups of its channel and id within the time to live.
pub record-try_get_cached :
    (c : IoctlCache) (t now ch i : ℕ) (out : Option Bytes)
    → c.enabled ≡ true
    → is_cacheable i ≡ true
    → now - t ≤ c.ttl
    → (try_get_cached (record_result c t ch i 0 out) now ch i).0 ≡ some (0, out)
unfolding try_get_cached record_result
record-try_get_cached c t now ch i out on known fresh =
    ground (arith, get-put c.entries (ch, i) (ch, i) (t, 0, out), pair_eq.beq_iff (ch, i) (ch, i))

pub try_get_cached-invalidate_channel :
    (c : IoctlCache) (now ch i : ℕ) → (try_get_cached (invalidate_channel c ch) now ch i).0 ≡ none
unfolding try_get_cached invalidate_channel
try_get_cached-invalidate_channel c now ch i = ground (arith, get-without_channel c.entries ch ch i)

pub try_get_cached-invalidate :
    (c : IoctlCache) (now ch i : ℕ) → (try_get_cached (invalidate c) now ch i).0 ≡ none
unfolding try_get_cached invalidate Dict.get
try_get_cached-invalidate c now ch i = ground arith
