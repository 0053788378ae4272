-- ===== src/Examples/UnitTests.antt =====
-- The unit tests in the files of src/. A test is a chain that ends in `none` where an assertion or an
-- `unwrap` panics; it starts from an empty store, as the test harness gives each test a thread of its
-- own. Names and contents are texts.
mod SystemPallet
mod BalancesPallet
mod ClaimsPallet
mod Pool
mod Signatures
use rust_state_machine.Shared.{
  ℕ, Bool, true, false, Option, some, none, ok, err, ◌==◌, if◌then◌else◌,
}
use rust_state_machine.Shared.Order.{Bytes, bytes_ord, same}
use rust_state_machine.Dispatch.{
  DispatchError, DispatchResult, not_enough_funds, overflow, already_claimed, claim_does_not_exist,
  caller_is_not_owner, block_number_mismatch, invalid_public_key, invalid_signature,
}

abbrev pub Test : Type 0
Test = Option (Unit {0})

-- Assertions one after the other.
infixl 5 ◌>>◌
abbrev pub ◌>>◌ : {A : Type 0} → Test → Option A → Option A
none >> k = none
some _ >> k = k

-- `assert!`
abbrev pub assert : Bool → Test
assert condition = if condition then some tt else none

abbrev pub is_ok : DispatchResult → Bool
is_ok (ok _) = true
is_ok (err _) = false

-- `Result::unwrap`
abbrev pub unwrap : DispatchResult → Test
unwrap r = assert (is_ok r)

abbrev error_number : DispatchError → ℕ
error_number not_enough_funds = 0
error_number overflow = 1
error_number already_claimed = 2
error_number claim_does_not_exist = 3
error_number caller_is_not_owner = 4
error_number block_number_mismatch = 5
error_number invalid_public_key = 6
error_number invalid_signature = 7

-- `assert_eq!` of a result with an error.
abbrev pub assert_err : DispatchResult → DispatchError → Test
assert_err (ok _) e = none
assert_err (err x) e = assert (error_number x == error_number e)

-- `assert_eq!` of an `Option<&String>`.
abbrev pub assert_owner : Option Bytes → Option Bytes → Test
assert_owner none none = some tt
assert_owner none (some b) = none
assert_owner (some a) none = none
assert_owner (some a) (some b) = assert (same a b)
