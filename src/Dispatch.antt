-- ===== src/Dispatch.antt =====
-- `DispatchResult` of src/support.rs: each error message of the runtime and its pallets is a
-- constructor.
use rust_state_machine.Shared.{Result}

pub data DispatchError : Type 0 where
  not_enough_funds : DispatchError
  overflow : DispatchError
  already_claimed : DispatchError
  claim_does_not_exist : DispatchError
  caller_is_not_owner : DispatchError
  block_number_mismatch : DispatchError
  invalid_public_key : DispatchError
  invalid_signature : DispatchError

abbrev pub DispatchResult : Type 0
DispatchResult = Result (Unit {0}) DispatchError
