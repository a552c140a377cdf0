-- ===== src/Cache/Tests.antt =====
-- Runs of the caches at concrete inputs.
use gds2_automation.Base.{
  ℕ, String, ◌≡◌, ◌≢◌, refl, true, none, some, List, [], ◌∷◌, ok, length, ◌==◌, string_eq, nat_eq,
  pair_eq, arith, if◌then◌else◌,
}
use gds2_automation.Base.Dict
use gds2_automation.Wire.Pack.{Bytes, unpack1, word}
use gds2_automation.Cache.ReadMsgs
use gds2_automation.Cache.ReadMsgs.{try_serve_from_cache-answer}
use gds2_automation.Cache.Ioctl
use gds2_automation.Cache.Ioctl.{try_get_cached-answer}
use gds2_automation.Cache.Vbatt
use gds2_automation.Cache.Vbatt.{record-try_get_cached}
use gds2_automation.Cache.FilterDedup
use gds2_automation.Cache.FilterDedup.{FilterDedup}
use gds2_automation.Cache.FilterDedup.Owned.{IsFresh}
use gds2_automation.Cache.FilterDedup.Forgets.{Reach, disconnect_forgets, stopped_filter_forgotten}

abbrev reads_config : ReadMsgs.ReadMsgsCacheConfig
reads_config = record { enabled = true; ttl_ms = 50 }

-- The last read of channel 1 was empty, and 30 ms ago.
try_serve_from_cache-answer_example :
    (ReadMsgs.try_serve_from_cache
      (ReadMsgs.after reads_config (ReadMsgs.recorded 100 1 16 ∷ []))
      130
      1
      7).0
    ≡ ReadMsgs.empty_reply 7
unfolding ReadMsgs.latest
try_serve_from_cache-answer_example =
    try_serve_from_cache-answer reads_config (ReadMsgs.recorded 100 1 16 ∷ []) 130 1 7

abbrev ioctls_config : Ioctl.IoctlCacheConfig
ioctls_config = record { enabled = true; ttl_s = 2 }

-- A voltage that was read before channel 2 was disconnected, while channel 1 stays connected.
abbrev history : List Ioctl.Event
history = Ioctl.channel_invalidated 2 ∷ Ioctl.recorded 100 1 3 0 (some (12 ∷ [])) ∷ []

try_get_cached-answer_example :
    (Ioctl.try_get_cached (Ioctl.after ioctls_config history) 900 1 3).0 ≡ some (0, some (12 ∷ []))
unfolding Ioctl.latest Ioctl.is_cacheable
try_get_cached-answer_example = try_get_cached-answer ioctls_config history 900 1 3

abbrev vbatt_cache : Vbatt.VbattCache
vbatt_cache = record { enabled = true; ttl = 5000; cached = none; hits = 0; misses = 0 }

-- A digest that tells the two requests of the tests apart.
abbrev digest : Bytes → String
digest body = if length body == 4 then "first" else "second"

disconnect_forgets_example :
    (FilterDedup.try_dedup digest
      (FilterDedup.invalidate_channel
        (FilterDedup.stored (FilterDedup.init true) "first" 1 7 (9 ∷ []))
        1)
      (0 ∷ 0 ∷ 0 ∷ 1 ∷ [])
      5).0
    ≡ ok none
disconnect_forgets_example =
    disconnect_forgets digest (FilterDedup.init true) (0 ∷ 0 ∷ 0 ∷ 1 ∷ []) 1 7 5 (9 ∷ [])

-- Two requests of channel 1 that the device answers with the filters 7 and 8.
abbrev one_filter : FilterDedup
one_filter = FilterDedup.stored (FilterDedup.init true) "first" 1 7 (9 ∷ [])

abbrev two_filters : FilterDedup
two_filters = FilterDedup.stored one_filter "second" 1 8 (10 ∷ [])

one_filter-Reach : Reach digest one_filter
one_filter-Reach =
    Reach.recorded {c' = one_filter} (Reach.start true) (0 ∷ 0 ∷ 0 ∷ 1 ∷ []) 7 0 (9 ∷ [])
      (unfold IsFresh FilterDedup.init Dict.get in λ k r h. absurd (cc))
      (unfold FilterDedup.record_result FilterDedup.init unpack1 word in refl)

two_filters-Reach : Reach digest two_filters
two_filters-Reach =
    Reach.recorded {c' = two_filters} one_filter-Reach (0 ∷ 0 ∷ 0 ∷ 1 ∷ 7 ∷ []) 8 0 (10 ∷ [])
      (unfold IsFresh FilterDedup.stored FilterDedup.init Dict.get Dict.put in
        λ k r h. ground (arith, h))
      (unfold FilterDedup.record_result FilterDedup.stored FilterDedup.init unpack1 word in refl)

abbrev left : ℕ
left = 8

stopped_filter_forgotten_example : left ≢ 7
stopped_filter_forgotten_example =
    stopped_filter_forgotten digest two_filters 7 "second" 8 (10 ∷ []) two_filters-Reach (
      unfold FilterDedup.on_stop_filter FilterDedup.forget FilterDedup.stored FilterDedup.init
        Dict.get Dict.put Dict.pop in
      refl)
