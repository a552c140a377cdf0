-- ===== src/Cache/Vbatt.antt =====
-- The cache of the battery voltage, which the server no longer uses (vci_proxy/cache_vbatt.py).
use gds2_automation.Base.{
  ℕ, ◌+◌, ◌-◌, ◌*◌, ◌≡◌, Bool, true, not, Option, none, some, arith, ltb, leb, ◌==◌, nat_eq,
  string_eq, pair_eq, if◌then◌else◌,
}
use gds2_automation.Wire.Pack.{Bytes}

abbrev pub ioctl_read_vbatt : ℕ
ioctl_read_vbatt = 0x03

pub record VbattCacheConfig : Type 0 where
  pub enabled : Bool
  pub ttl_s : ℕ

-- Times are readings of the monotonic clock in milliseconds; the time to live is set in seconds.
pub record VbattCache : Type 0 where
  pub enabled : Bool
  pub ttl : ℕ
  pub cached : Option (ℕ × ℕ × Option Bytes)
  pub hits : ℕ
  pub misses : ℕ

unfoldable pub init : VbattCacheConfig → VbattCache
init config = record {
  enabled = config.enabled;
  ttl = 1000 * config.ttl_s;
  cached = none;
  hits = 0;
  misses = 0;
}

unfoldable pub is_read_vbatt : ℕ → Bool
is_read_vbatt ioctl_id = ioctl_id == ioctl_read_vbatt

unfoldable pub serve_entry :
    VbattCache → ℕ → Option (ℕ × ℕ × Option Bytes) → Option (ℕ × Option Bytes) × VbattCache
serve_entry c now none = (none, record c { misses = c.misses + 1 })
serve_entry c now (some (ts, return_code, output_data)) =
    if ltb c.ttl (now - ts)
    then (none, record c { misses = c.misses + 1 })
    else (some (return_code, output_data), record c { hits = c.hits + 1 })

unfoldable pub try_get_cached : VbattCache → ℕ → ℕ → Option (ℕ × Option Bytes) × VbattCache
unfolding serve_entry is_read_vbatt
try_get_cached c now ioctl_id =
    if not c.enabled
    then (none, c)
    else if not (is_read_vbatt ioctl_id)
    then (none, c)
    else serve_entry c now c.cached

unfoldable pub record_result : VbattCache → ℕ → ℕ → ℕ → Option Bytes → VbattCache
unfolding is_read_vbatt
record_result c now ioctl_id return_code output_data =
    if not c.enabled
    then c
    else if not (is_read_vbatt ioctl_id)
    then c
    else if not (return_code == 0)
    then c
    else record c { cached = some (now, return_code, output_data) }

unfoldable pub invalidate : VbattCache → VbattCache
invalidate c = record c { cached = none }

unfoldable pub stats : VbattCache → ℕ × ℕ
stats c = (c.hits, c.misses)

-- What is cached is a successful result.
abbrev pub IsValid : VbattCache → Type 0
IsValid c = (ts rc : ℕ) (out : Option Bytes) → c.cached ≡ some (ts, rc, out) → rc ≡ 0

pub record_result-IsValid :
    (c : VbattCache) (now i rc : ℕ) (out : Option Bytes)
    → IsValid c
    → IsValid (record_result c now i rc out)
unfolding record_result
record_result-IsValid c now i rc out v ts rc' out' = ground (arith, v ts rc' out')

-- When the cache is switched on, a successful read answers the reads of the voltage within its time
-- to live, and no later ones.
pub record-try_get_cached :
    (c : VbattCache) (t now : ℕ) (out : Option Bytes)
    → c.enabled ≡ true
    → (try_get_cached (record_result c t ioctl_read_vbatt 0 out) now ioctl_read_vbatt).0
      ≡ (if leb (now - t) c.ttl then some (0, out) else none)
unfolding try_get_cached record_result
record-try_get_cached c t now out on = ground arith
