-- ===== src/Streaming/Tests.antt =====
-- The window of sampled parameters at concrete inputs (src/streaming/diagnostic_buffer.py).
use gds2_automation.Base.{
  ℕ, String, Bool, true, false, none, some, List, [], ◌∷◌, ◌≡◌, refl, arith, string_eq,
}
use gds2_automation.Base.Dict.{Dict}
use gds2_automation.Base.Dict
use gds2_automation.Streaming.Buffer.{
  Param, AgentSnapshot, DiagnosticBuffer, init, append_at, key_of, history_of, is_value, last,
}
use gds2_automation.Streaming.Buffer.Payload.{initial_of, changes_of, change_forgotten}
use gds2_automation.Streaming.Buffer.Latest.{current, append_each, latest_of, append_each-latest_of}

abbrev speed : String → Param
speed value = record { name = "Engine Speed"; unit = "RPM"; value = value }

abbrev shot : Param → AgentSnapshot
shot p = record {
  parameters = p ∷ [];
  dtcs = [];
  agent_timestamp = none;
  collected_at = none;
  collector_lag = none;
}

abbrev all_fast : String → Bool
all_fast name = true

abbrev steady : DiagnosticBuffer
steady = record (init 30_000) {
  param_history = (key_of (speed "840"), record { at = 1000; value = "840" } ∷ []) ∷ [];
}

steady_held :
    Dict.get steady.param_history (key_of (speed "850"))
    ≡ some (record { at = 1000; value = "840" } ∷ [])
unfolding Dict.get key_of
steady_held = refl

is_new_value : is_value (last (record { at = 1000; value = "840" } ∷ [])) "850" ≡ false
unfolding is_value last
is_new_value = refl

-- A change from 840 to 850 after forty seconds.
change_forgotten_example :
    (initial_of (key_of (speed "850")) (
        history_of (
          Dict.get
            (append_at all_fast 41_000 steady (shot (speed "850"))).param_history
            (key_of (speed "850"))))
      ≡ record { key = key_of (speed "850"); value = "850" } ∷ [])
    × (changes_of (key_of (speed "850")) (
          history_of (
            Dict.get
              (append_at all_fast 41_000 steady (shot (speed "850"))).param_history
              (key_of (speed "850"))))
        ≡ [])
unfolding init
change_forgotten_example =
    change_forgotten all_fast 41_000 steady (shot (speed "850")) (speed "850")
      (record { at = 1000; value = "840" } ∷ []) refl refl refl steady_held (omega arith, tt)
      is_new_value

abbrev shots : List (ℕ × AgentSnapshot)
shots = (1000, shot (speed "840")) ∷ (1100, shot (speed "850")) ∷ (41_000, shot (speed "850")) ∷ []

append_each-latest_of_example :
    current (append_each all_fast (init 30_000) shots).param_history (key_of (speed ""))
    ≡ Dict.get (latest_of all_fast (init 30_000) [] shots) (key_of (speed ""))
append_each-latest_of_example =
    append_each-latest_of all_fast 30_000 shots (key_of (speed ""))
      (omega arith, (omega arith, (omega arith, tt)))
