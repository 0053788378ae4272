-- ===== src/Examples/Replicas.antt =====
-- Two nodes of src/node.rs that execute the same block: one makes it, the other gets it.
use rust_state_machine.Shared.{◌≡◌, refl, some, List, [], ◌∷◌, unwrap_or}
use rust_state_machine.Shared.Order.{bytes_ord}
use rust_state_machine.Store.Memory.{MemStore, mem_store}
use rust_state_machine.Extrinsic.{AccountId32, account_ord, new_signed, verify}
use rust_state_machine.BTreeMap as Map
use rust_state_machine.System
use rust_state_machine.Balances
use rust_state_machine.ProofOfExistence
use rust_state_machine.Mempool
use rust_state_machine.Runtime.{RuntimeBlock, execute_block}
use rust_state_machine.Runtime.Agreement.{observe}
use rust_state_machine.Runtime.Ledger.{ledger, execute, execute_each}
use rust_state_machine.Runtime.Ledger.Refines.{ledger_and_result, execute_block_refines}
use rust_state_machine.Node.Production.{
  group_from, sort_by_nonce, take_run, build_batch, produce_block,
}
use rust_state_machine.Node.Loop.{on_block, current_slot, is_my_slot, on_extrinsic, on_tick}
use rust_state_machine.Node.Loop.Events.{Node, Event, publish, handle, handle_all}
use rust_state_machine.Node.Loop.Replicas.{executed, node_refines, replicas_agree}
use package.rust_state_machine.Examples.{
  account_codec, content_codec, u32_codec, u128_codec, dalek, payload, empty_store, alice, bob,
  pay_bob, claim_seven,
}
use package.rust_state_machine.Examples.Blocks
use package.rust_state_machine.Examples.Blocks.{start}
use package.rust_state_machine.Examples.Nodes.{fresh, events}
use package.rust_state_machine.Examples.Producer.{visit}

abbrev alice_end : Node AccountId32 MemStore
alice_end = unwrap_or (handle_all alice visit events fresh) fresh

alice_handles : handle_all alice visit events fresh ≡ some alice_end
unfolding handle_all handle publish on_extrinsic on_tick is_my_slot current_slot
    rust_state_machine.Node.Loop.connection_established
    rust_state_machine.Node.Loop.connection_closed rust_state_machine.Node.Loop.sort_peers
    rust_state_machine.Node.Loop.insert_peer Mempool.submit Mempool.with_block_limit produce_block
    build_batch group_from rust_state_machine.Node.Production.push_entry sort_by_nonce
    rust_state_machine.Node.Production.insert_by_nonce take_run Mempool.drain_for_block
    Mempool.drain_loop execute_block System.inc_block_number
    rust_state_machine.Runtime.apply_extrinsics rust_state_machine.Extrinsic.verify_batch
    rust_state_machine.Runtime.apply_extrinsic verify new_signed System.nonce Map.get
    System.inc_nonce rust_state_machine.Runtime.dispatch Map.insert Map.last_key
    ProofOfExistence.dispatch ProofOfExistence.create_claim mem_store
    rust_state_machine.Storage.entry_key ProofOfExistence.claim_key Balances.dispatch
    Balances.transfer Balances.set_balance Balances.balance Balances.balance_key
alice_handles = refl

-- The block that Alice makes.
abbrev block_one : RuntimeBlock
block_one = record {
  header = record { block_number = 1 };
  extrinsics = new_signed (1 ∷ []) 0 claim_seven ∷ [];
}

-- An extrinsic of Bob's is still pending when the block comes.
abbrev bob_events : List (Event AccountId32)
bob_events =
    Event.extrinsic (new_signed (2 ∷ []) 0 pay_bob)
    ∷ Event.established alice
    ∷ Event.block block_one
    ∷ []

abbrev bob_end : Node AccountId32 MemStore
bob_end = unwrap_or (handle_all bob visit bob_events fresh) fresh

bob_handles : handle_all bob visit bob_events fresh ≡ some bob_end
unfolding on_block Mempool.retain handle_all handle publish on_extrinsic on_tick is_my_slot
    current_slot rust_state_machine.Node.Loop.connection_established
    rust_state_machine.Node.Loop.connection_closed rust_state_machine.Node.Loop.sort_peers
    rust_state_machine.Node.Loop.insert_peer Mempool.submit Mempool.with_block_limit produce_block
    build_batch group_from rust_state_machine.Node.Production.push_entry sort_by_nonce
    rust_state_machine.Node.Production.insert_by_nonce take_run Mempool.drain_for_block
    Mempool.drain_loop execute_block System.inc_block_number
    rust_state_machine.Runtime.apply_extrinsics rust_state_machine.Extrinsic.verify_batch
    rust_state_machine.Runtime.apply_extrinsic verify new_signed System.nonce Map.get
    System.inc_nonce rust_state_machine.Runtime.dispatch Map.insert Map.last_key
    ProofOfExistence.dispatch ProofOfExistence.create_claim mem_store
    rust_state_machine.Storage.entry_key ProofOfExistence.claim_key Balances.dispatch
    Balances.transfer Balances.set_balance Balances.balance Balances.balance_key
bob_handles = refl

same_blocks : executed alice visit events fresh ≡ executed bob visit bob_events fresh
unfolding on_block Mempool.retain handle_all handle publish on_extrinsic on_tick is_my_slot
    current_slot rust_state_machine.Node.Loop.connection_established
    rust_state_machine.Node.Loop.connection_closed rust_state_machine.Node.Loop.sort_peers
    rust_state_machine.Node.Loop.insert_peer Mempool.submit Mempool.with_block_limit produce_block
    build_batch group_from rust_state_machine.Node.Production.push_entry sort_by_nonce
    rust_state_machine.Node.Production.insert_by_nonce take_run Mempool.drain_for_block
    Mempool.drain_loop execute_block System.inc_block_number
    rust_state_machine.Runtime.apply_extrinsics rust_state_machine.Extrinsic.verify_batch
    rust_state_machine.Runtime.apply_extrinsic verify new_signed System.nonce Map.get
    System.inc_nonce rust_state_machine.Runtime.dispatch Map.insert Map.last_key
    ProofOfExistence.dispatch ProofOfExistence.create_claim mem_store
    rust_state_machine.Storage.entry_key ProofOfExistence.claim_key Balances.dispatch
    Balances.transfer Balances.set_balance Balances.balance Balances.balance_key
same_blocks = refl

replicas_agree_example : alice_end.runtime ≡ bob_end.runtime
replicas_agree_example =
    replicas_agree alice bob visit visit events bob_events fresh alice_end fresh bob_end refl
      alice_handles bob_handles same_blocks

node_refines_example :
    execute_each (ledger fresh.runtime) (executed alice visit events fresh)
    ≡ some (ledger alice_end.runtime)
node_refines_example = node_refines alice visit events fresh alice_handles

-- A payment and two claims, one of them of a content that is claimed.
execute_block_refines_example :
    observe ledger_and_result (execute_block start empty_store Blocks.block_one)
    ≡ execute (ledger start) Blocks.block_one
execute_block_refines_example = execute_block_refines start empty_store Blocks.block_one
