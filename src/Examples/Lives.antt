-- ===== src/Examples/Lives.antt =====
-- A node of src/node.rs that is launched on an empty store, works and is launched again.
use rust_state_machine.Shared.{◌≡◌, refl, none, some, [], unwrap_or, arith, not, Option}
use rust_state_machine.Shared.Order.{bytes_ord}
use rust_state_machine.Store.Memory.{MemStore, mem_store, mem_store-IsReliable}
use rust_state_machine.Extrinsic.{AccountId32, account_ord, new_signed, verify}
use rust_state_machine.BTreeMap as Map
use rust_state_machine.System
use rust_state_machine.Balances
use rust_state_machine.ProofOfExistence
use rust_state_machine.Mempool
use rust_state_machine.Mempool.{Mempool}
use rust_state_machine.Runtime.{Runtime, RuntimeBlock, Extrinsic, Content, execute_block}
use rust_state_machine.Runtime.Sound.{IsEmpty}
use rust_state_machine.Genesis.{public_key, fund_dev_accounts, maybe_apply_genesis}
use rust_state_machine.Node.Production.{
  group_from, sort_by_nonce, take_run, build_batch, produce_block,
}
use rust_state_machine.Node.Loop.{
  on_block, included_in, is_included, current_slot, is_my_slot, on_extrinsic, on_tick,
}
use rust_state_machine.Node.Loop.Events
use rust_state_machine.Node.Loop.Events.{Node, Event, publish, handle, handle_all}
use rust_state_machine.Node.Loop.Total.{handle_all_total}
use rust_state_machine.Node.Loop.Agreement.{peer_follows}
use rust_state_machine.Node.Lives.{Life, launch, run, relaunch_recovers}
use package.rust_state_machine.Examples.{
  account_codec, content_codec, u32_codec, u128_codec, dalek, payload, empty_store, alice, bob,
}
use package.rust_state_machine.Examples.Blocks.{start, block_one}
use package.rust_state_machine.Examples.Slots.{by_seed}
use package.rust_state_machine.Examples.Nodes.{fresh, events, pool}
use package.rust_state_machine.Examples.Producer.{visit, visit-VisitsEachOnce}

abbrev launched : Node AccountId32 MemStore
launched = unwrap_or (Events.start alice by_seed empty_store) fresh

start-empty_store : Events.start alice by_seed empty_store ≡ some launched
unfolding Events.start maybe_apply_genesis fund_dev_accounts public_key execute_block
    rust_state_machine.Runtime.apply_extrinsics rust_state_machine.Extrinsic.verify_batch
    System.inc_block_number rust_state_machine.Runtime.new System.new Balances.new
    ProofOfExistence.new mem_store System.load_block_number Map.get
start-empty_store = refl

abbrev worked : Node AccountId32 MemStore
worked = unwrap_or (handle_all alice visit events launched) launched

handle-events : handle_all alice visit events launched ≡ some worked
unfolding handle_all handle publish on_extrinsic on_tick is_my_slot current_slot
    rust_state_machine.Node.Loop.connection_established
    rust_state_machine.Node.Loop.connection_closed rust_state_machine.Node.Loop.sort_peers
    rust_state_machine.Node.Loop.insert_peer Mempool.submit Mempool.with_block_limit produce_block
    build_batch group_from rust_state_machine.Node.Production.push_entry sort_by_nonce
    rust_state_machine.Node.Production.insert_by_nonce take_run Mempool.drain_for_block
    Mempool.drain_loop execute_block System.inc_block_number
    rust_state_machine.Runtime.apply_extrinsics rust_state_machine.Extrinsic.verify_batch
    rust_state_machine.Runtime.apply_extrinsic verify new_signed System.nonce Map.get
    System.inc_nonce rust_state_machine.Runtime.dispatch Map.insert Map.last_key
    ProofOfExistence.dispatch ProofOfExistence.create_claim mem_store
    rust_state_machine.Storage.entry_key ProofOfExistence.claim_key Events.start maybe_apply_genesis
    fund_dev_accounts public_key rust_state_machine.Genesis.signing_key Balances.set_balance
    Balances.balance_key rust_state_machine.Runtime.new System.new System.load_block_number
    rust_state_machine.Storage.load_entries ProofOfExistence.new
handle-events = refl

empty_store-IsEmpty : IsEmpty empty_store
unfolding mem_store Map.get
empty_store-IsEmpty = λ j. refl

life : Life by_seed alice worked
life =
    run visit events (launch alice empty_store empty_store-IsEmpty start-empty_store) handle-events

relaunch_recovers_example :
    (node' : Node AccountId32 MemStore) × (Events.start bob by_seed worked.store ≡ some node')
    × (node'.runtime.system ≡ worked.runtime.system)
    × (node'.runtime.balances ≡ worked.runtime.balances)
    × ((claim : Content) (owner : AccountId32)
        → ProofOfExistence.get_claim node'.runtime.proof_of_existence claim ≡ some owner
        → ProofOfExistence.get_claim worked.runtime.proof_of_existence claim ≡ some owner)
    × (node'.store ≡ worked.store)
    × (node'.mempool.pending ≡ [])
relaunch_recovers_example = relaunch_recovers by_seed mem_store-IsReliable life bob

handle_all_total_example :
    (node' : Node AccountId32 MemStore) × (handle_all alice visit events fresh ≡ some node')
handle_all_total_example =
    handle_all_total alice visit visit-VisitsEachOnce events fresh (omega arith)
      (λ a. unfold System.nonce Map.get Mempool.with_block_limit in omega arith)

-- Bob's node, with an empty pool, gets the block of Alice's.
abbrev made : Runtime × MemStore × Mempool Extrinsic × Option RuntimeBlock
made = unwrap_or (produce_block visit start empty_store pool) (start, empty_store, pool, none)

abbrev sent : RuntimeBlock
sent = unwrap_or made.3 block_one

produce-pool : produce_block visit start empty_store pool ≡ some made
unfolding handle_all handle publish on_extrinsic on_tick is_my_slot current_slot
    rust_state_machine.Node.Loop.connection_established
    rust_state_machine.Node.Loop.connection_closed rust_state_machine.Node.Loop.sort_peers
    rust_state_machine.Node.Loop.insert_peer Mempool.submit Mempool.with_block_limit produce_block
    build_batch group_from rust_state_machine.Node.Production.push_entry sort_by_nonce
    rust_state_machine.Node.Production.insert_by_nonce take_run Mempool.drain_for_block
    Mempool.drain_loop execute_block System.inc_block_number
    rust_state_machine.Runtime.apply_extrinsics rust_state_machine.Extrinsic.verify_batch
    rust_state_machine.Runtime.apply_extrinsic verify new_signed System.nonce Map.get
    System.inc_nonce rust_state_machine.Runtime.dispatch Map.insert Map.last_key
    ProofOfExistence.dispatch ProofOfExistence.create_claim mem_store
    rust_state_machine.Storage.entry_key ProofOfExistence.claim_key Balances.dispatch
    Balances.transfer Balances.set_balance Balances.balance Balances.balance_key
produce-pool = refl

sent_by_alice : made.3 ≡ some sent
unfolding handle_all handle publish on_extrinsic on_tick is_my_slot current_slot
    rust_state_machine.Node.Loop.connection_established
    rust_state_machine.Node.Loop.connection_closed rust_state_machine.Node.Loop.sort_peers
    rust_state_machine.Node.Loop.insert_peer Mempool.submit Mempool.with_block_limit produce_block
    build_batch group_from rust_state_machine.Node.Production.push_entry sort_by_nonce
    rust_state_machine.Node.Production.insert_by_nonce take_run Mempool.drain_for_block
    Mempool.drain_loop execute_block System.inc_block_number
    rust_state_machine.Runtime.apply_extrinsics rust_state_machine.Extrinsic.verify_batch
    rust_state_machine.Runtime.apply_extrinsic verify new_signed System.nonce Map.get
    System.inc_nonce rust_state_machine.Runtime.dispatch Map.insert Map.last_key
    ProofOfExistence.dispatch ProofOfExistence.create_claim mem_store
    rust_state_machine.Storage.entry_key ProofOfExistence.claim_key Balances.dispatch
    Balances.transfer Balances.set_balance Balances.balance Balances.balance_key
sent_by_alice = refl

peer_follows_example :
    (r' : Runtime × MemStore × Mempool Extrinsic) × (on_block start empty_store pool sent ≡ some r')
    × (r'.0 ≡ made.0)
    × (r'.2 ≡ Mempool.retain pool (λ e. not (is_included (included_in sent) e)))
peer_follows_example =
    peer_follows visit start empty_store pool empty_store pool sent produce-pool sent_by_alice
