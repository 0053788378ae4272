-- ===== src/Shared/Outcome.antt =====
-- `Result`, with the `?` operator as its bind, and the fixed-width arithmetic of the pallets.
use Prim.Native.Nat.{ℕ, ◌+◌, ◌-◌, ◌^◌, ◌<◌}
use mathlib.Core.Option.{Option, none, some}
use package.rust_state_machine.Shared.Tests.{ltb, leb, if◌then◌else◌}

pub data Result {ℓ κ} (A : Type ℓ) (E : Type κ) : Type (ℓ ⊔ κ) where
  ok : A → Result A E
  err : E → Result A E

-- `Option::ok_or`.
abbrev pub ok_or {ℓ κ} : {A : Type ℓ} {E : Type κ} → Option A → E → Result A E
ok_or none e = err e
ok_or (some a) e = ok a

abbrev pub IsU32 : ℕ → Type 0
IsU32 n = n < 2 ^ 32

abbrev pub IsU128 : ℕ → Type 0
IsU128 n = n < 2 ^ 128

-- `CheckedAdd::checked_add` on an unsigned type of `w` bits.
abbrev pub checked_add : ℕ → ℕ → ℕ → Option ℕ
checked_add w a b = if ltb (a + b) (2 ^ w) then some (a + b) else none

-- `CheckedSub::checked_sub` on an unsigned type.
abbrev pub checked_sub : ℕ → ℕ → Option ℕ
checked_sub a b = if leb b a then some (a - b) else none
