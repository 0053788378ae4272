-- ===== src/Examples/Pools.antt =====
-- The pool of src/support.rs and signatures at concrete inputs.
use rust_state_machine.Shared.{ℕ, ◌≡◌, ◌≤◌, refl, some, none, List, [], ◌∷◌, length, ok, err}
use rust_state_machine.Shared.Order.{bytes_ord}
use rust_state_machine.Dispatch.{invalid_signature}
use rust_state_machine.Extrinsic.{new_signed, verify, verify_batch}
use rust_state_machine.Mempool
use rust_state_machine.Mempool.{Mempool}
use rust_state_machine.Mempool.Capacity.{Op, run, with_capacity_bounds}
use rust_state_machine.Runtime.{Extrinsic}
use package.rust_state_machine.Examples.{dalek, payload, pay_bob, claim_seven}

abbrev pool : Mempool ℕ
pool = record { pending = 4 ∷ 8 ∷ 6 ∷ []; max_capacity = none; block_limit = some 2 }

abbrev ops : List (Op ℕ)
ops = Op.submitted 1 ∷ Op.submitted 2 ∷ Op.submitted 3 ∷ Op.drained 1 ∷ Op.submitted 4 ∷ []

with_capacity_bounds_example : length (run (Mempool.with_capacity 2) ops).pending ≤ 2
with_capacity_bounds_example = with_capacity_bounds 2 ops

-- Of two extrinsics the second was altered after signing.
abbrev mixed_batch : List Extrinsic
mixed_batch =
    new_signed (1 ∷ []) 0 pay_bob ∷ record (new_signed (1 ∷ []) 1 claim_seven) { nonce = 5 } ∷ []

verify-mixed_batch : verify_batch mixed_batch ≡ ok tt ∷ err invalid_signature ∷ []
unfolding verify_batch verify new_signed
verify-mixed_batch = refl
