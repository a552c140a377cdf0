-- ===== src/Base/Raises.antt =====
-- Python exceptions as values, and the monad of code that may raise.
use mathlib.Core.Bool.{Bool, true, false}

-- The exception classes that the modelled code raises. Their messages are not modelled.
pub data Exn : Type 0 where
  struct_error value_error key_error runtime_error no_capacity_error worker_busy_error : Exn

-- What a call returns or raises.
pub data Result {ℓ} (Value : Type ℓ) : Type ℓ where
  ok : Value → Result Value
  err : Exn → Result Value

-- `if not test: raise exn`
abbrev pub require : Bool → Exn → Result (Unit {0})
require passed exn = elim passed [ true ↦ ok tt | false ↦ err exn ]

infixl 5 ◌>>=◌ ◌>>◌
abbrev pub ◌>>=◌ {ℓ κ} : {V : Type ℓ} {W : Type κ} → Result V → (V → Result W) → Result W
err exn >>= next = err exn
ok v >>= next = next v

abbrev pub ◌>>◌ {κ} : {W : Type κ} → Result (Unit {0}) → Result W → Result W
first >> next = first >>= λ done. next
