-- ===== src/Examples/Blocks.antt =====
-- The runtime and its blocks at concrete inputs.
use rust_state_machine.Shared.{◌≡◌, refl, some, [], ◌∷◌, ok, arith, unwrap_or}
use rust_state_machine.Shared.Order.{bytes_ord}
use rust_state_machine.Store.Memory.{MemStore, mem_store, mem_store-IsReliable}
use rust_state_machine.Dispatch.{DispatchResult}
use rust_state_machine.Extrinsic.{AccountId32, account_ord, Block, Header, new_signed, verify}
use rust_state_machine.BTreeMap as Map
use rust_state_machine.System
use rust_state_machine.Balances
use rust_state_machine.ProofOfExistence
use rust_state_machine.Runtime.{
  Runtime, RuntimeBlock, Extrinsic, Content, apply_extrinsic, execute_block, new,
}
use rust_state_machine.Runtime.Valid.{IsValid}
use rust_state_machine.Runtime.Supply.{execute_block-supply}
use rust_state_machine.Runtime.Ownership.{execute_block-get_claim}
use rust_state_machine.Runtime.Nonces.{here, next, replay_skipped}
use rust_state_machine.Runtime.Restart.{InStep, restart}
use package.rust_state_machine.Examples.{
  account_codec, content_codec, u32_codec, u128_codec, dalek, payload, empty_store, alice, bob,
  pay_bob, claim_seven, claim_five,
}
use package.rust_state_machine.Examples.Pallets.{alice_not_bob}

abbrev pub start : Runtime
start = record {
  system = record { block_number = 0; nonce = [] };
  balances = record { balances = (alice, 100) ∷ (bob, 50) ∷ [] };
  proof_of_existence = record { claims = (5 ∷ [], alice) ∷ [] };
}

start-IsValid : IsValid start
start-IsValid = record {
  system = record { block_number_fits = omega arith; sorted = tt; nonces_fit = tt };
  balances = record {
    sorted = ((refl, tt), (tt, tt));
    balances_fit = (omega arith, (omega arith, tt));
  };
  claims = (tt, tt);
}

abbrev alice_pays : Extrinsic
alice_pays = new_signed (1 ∷ []) 0 pay_bob

-- Alice pays Bob and makes a claim; Bob tries to take a claim that is Alice's.
abbrev pub block_one : RuntimeBlock
block_one = record {
  header = record { block_number = 1 };
  extrinsics =
      alice_pays ∷ new_signed (1 ∷ []) 1 claim_seven ∷ new_signed (2 ∷ []) 0 claim_five ∷ [];
}

abbrev wrong_block : RuntimeBlock
wrong_block = record block_one { header = record { block_number = 7 } }

abbrev pub run_one : Runtime × MemStore × DispatchResult
run_one = unwrap_or (execute_block start empty_store block_one) (start, empty_store, ok tt)

run-block_one : execute_block start empty_store block_one ≡ some run_one
unfolding execute_block System.inc_block_number rust_state_machine.Runtime.apply_extrinsics
    rust_state_machine.Extrinsic.verify_batch apply_extrinsic verify new_signed System.nonce Map.get
    System.inc_nonce rust_state_machine.Runtime.dispatch Balances.dispatch Balances.transfer
    Balances.set_balance Balances.balance Map.insert Map.last_key ProofOfExistence.dispatch
    ProofOfExistence.create_claim mem_store rust_state_machine.Storage.entry_key
    ProofOfExistence.claim_key Balances.balance_key
run-block_one = refl

execute_block-supply_example :
    Balances.Supply.supply run_one.0.balances ≡ Balances.Supply.supply start.balances
execute_block-supply_example =
    execute_block-supply start empty_store block_one start-IsValid
      (
        (λ _. unfold new_signed in alice_not_bob),
        ((λ _. unfold new_signed in tt), ((λ _. unfold new_signed in tt), tt)),
      )
      run-block_one

execute_block-get_claim_example :
    ProofOfExistence.get_claim run_one.0.proof_of_existence (5 ∷ []) ≡ some alice
execute_block-get_claim_example =
    execute_block-get_claim start empty_store block_one alice (5 ∷ [])
      (unfold ProofOfExistence.get_claim Map.get in refl)
      (
        (λ _ h. unfold new_signed in h.1),
        ((λ _ h. unfold new_signed in h.1), ((λ _ h. unfold new_signed in h.1), tt)),
      )
      run-block_one

abbrev run_wrong : Runtime × MemStore × DispatchResult
run_wrong = unwrap_or (execute_block start empty_store wrong_block) (start, empty_store, ok tt)

run-wrong_block : execute_block start empty_store wrong_block ≡ some run_wrong
unfolding execute_block System.inc_block_number
run-wrong_block = refl

-- The payment is applied on its own, and its block is executed afterwards.
abbrev paid : Runtime × MemStore
paid = unwrap_or (apply_extrinsic start empty_store (alice_pays, ok tt)) (start, empty_store)

apply-alice_pays : apply_extrinsic start empty_store (alice_pays, ok tt) ≡ some paid
unfolding execute_block System.inc_block_number rust_state_machine.Runtime.apply_extrinsics
    rust_state_machine.Extrinsic.verify_batch apply_extrinsic verify new_signed System.nonce Map.get
    System.inc_nonce rust_state_machine.Runtime.dispatch Balances.dispatch Balances.transfer
    Balances.set_balance Balances.balance Map.insert Map.last_key ProofOfExistence.dispatch
    ProofOfExistence.create_claim mem_store rust_state_machine.Storage.entry_key
    ProofOfExistence.claim_key Balances.balance_key
apply-alice_pays = refl

abbrev run_two : Runtime × MemStore × DispatchResult
run_two = unwrap_or (execute_block paid.0 paid.1 block_one) (start, empty_store, ok tt)

run-after_payment : execute_block paid.0 paid.1 block_one ≡ some run_two
unfolding execute_block System.inc_block_number rust_state_machine.Runtime.apply_extrinsics
    rust_state_machine.Extrinsic.verify_batch apply_extrinsic verify new_signed System.nonce Map.get
    System.inc_nonce rust_state_machine.Runtime.dispatch Balances.dispatch Balances.transfer
    Balances.set_balance Balances.balance Map.insert Map.last_key ProofOfExistence.dispatch
    ProofOfExistence.create_claim mem_store rust_state_machine.Storage.entry_key
    ProofOfExistence.claim_key Balances.balance_key
run-after_payment = refl

replay_skipped_example :
    apply_extrinsic run_two.0 run_two.1 (alice_pays, ok tt) ≡ some (run_two.0, run_two.1)
replay_skipped_example =
    replay_skipped start empty_store alice_pays paid (ok tt)
      (unfold System.nonce Map.get new_signed in refl) apply-alice_pays
      (next here block_one run-after_payment)

-- Nothing is stored yet.
abbrev pub blank : Runtime
blank = record {
  system = record { block_number = 0; nonce = [] };
  balances = record { balances = [] };
  proof_of_existence = record { claims = [] };
}

abbrev run_blank : Runtime × MemStore × DispatchResult
run_blank = unwrap_or (execute_block blank empty_store block_one) (blank, empty_store, ok tt)

run-blank : execute_block blank empty_store block_one ≡ some run_blank
unfolding execute_block System.inc_block_number rust_state_machine.Runtime.apply_extrinsics
    rust_state_machine.Extrinsic.verify_batch apply_extrinsic verify new_signed System.nonce Map.get
    System.inc_nonce rust_state_machine.Runtime.dispatch Balances.dispatch Balances.transfer
    Balances.set_balance Balances.balance Map.insert Map.last_key ProofOfExistence.dispatch
    ProofOfExistence.create_claim mem_store rust_state_machine.Storage.entry_key
    ProofOfExistence.claim_key Balances.balance_key
run-blank = refl

blank-IsValid : IsValid blank
blank-IsValid = record {
  system = record { block_number_fits = omega arith; sorted = tt; nonces_fit = tt };
  balances = record { sorted = tt; balances_fit = tt };
  claims = tt;
}

blank-InStep : InStep blank empty_store
unfolding Map.get mem_store System.load_block_number
blank-InStep = record {
  system = record {
    number = refl;
    nonces = record { covers = λ k v h. cc; exact = λ j w h p. cc };
  };
  balances = record { covers = λ k v h. cc; exact = λ j w h p. cc };
}

restart_example :
    ((new run_blank.1).system ≡ run_blank.0.system)
    × ((new run_blank.1).balances ≡ run_blank.0.balances)
restart_example =
    restart mem_store-IsReliable blank empty_store run_blank.0 run_blank.1 blank-IsValid
      blank-InStep (next here block_one run-blank)
