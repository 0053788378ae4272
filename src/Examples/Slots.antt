-- ===== src/Examples/Slots.antt =====
-- The event loop of src/node.rs, the genesis and the store on disk at concrete inputs.
use rust_state_machine.Shared.{
  ◌⊎◌, ◌≢◌, ◌+◌, ◌≡◌, refl, true, some, none, List, [], ◌∷◌, map, ok, arith, unwrap_or,
  if◌then◌else◌,
}
use rust_state_machine.Shared.Order.{Bytes, bytes_ord, same}
use rust_state_machine.Store.{IsReliable}
use rust_state_machine.Store.Memory.{MemStore, mem_store}
use rust_state_machine.Store.Rocks.{RocksDb, IsWorking, rocks_store, rocks_store-IsReliable}
use rust_state_machine.Extrinsic.{AccountId32, account_ord, new_signed}
use rust_state_machine.BTreeMap as Map
use rust_state_machine.System
use rust_state_machine.Balances
use rust_state_machine.Mempool
use rust_state_machine.Mempool.{Mempool}
use rust_state_machine.Runtime.{Runtime, RuntimeBlock, Extrinsic, execute_block}
use rust_state_machine.Genesis.{
  AccountKeyring, public_key, maybe_apply_genesis, maybe_apply_genesis_lem,
}
use rust_state_machine.Node.Loop.{is_my_slot, on_block}
use rust_state_machine.Node.Loop.Slots.{one_author_per_slot}
use rust_state_machine.Node.Loop.Import.{Evicted, on_block_evicts}
use package.rust_state_machine.Examples.{
  account_codec, content_codec, u32_codec, u128_codec, dalek, payload, empty_store, alice, bob,
  pay_bob, claim_seven,
}
use package.rust_state_machine.Examples.Blocks.{start, block_one}

abbrev peers : List AccountId32
peers = alice ∷ bob ∷ []

one_author_per_slot_example :
    (author : AccountId32) × (is_my_slot 1234 author peers ≡ some true)
    × ((id : AccountId32) → is_my_slot 1234 id peers ≡ some (same author id))
one_author_per_slot_example = one_author_per_slot 1234 peers (omega arith)

abbrev pub by_seed : Bytes → Bytes
by_seed bytes = bytes

maybe_apply_genesis_example :
    (q : Runtime × MemStore) × (maybe_apply_genesis by_seed start empty_store ≡ some q)
    × (q.0.system.block_number ≡ 1)
    × (q.0.system.nonce ≡ start.system.nonce)
    × (Balances.balance q.0.balances bob ≡ (
        if same bob (public_key by_seed AccountKeyring.charlie)
        then 1000000
        else if same bob (public_key by_seed AccountKeyring.bob)
        then 1000000
        else if same bob (public_key by_seed AccountKeyring.alice)
        then 1000000
        else Balances.balance start.balances bob))
    × (maybe_apply_genesis by_seed q.0 q.1 ≡ some q)
maybe_apply_genesis_example = maybe_apply_genesis_lem by_seed start empty_store bob refl

-- One extrinsic of the block and one other.
abbrev pool : Mempool Extrinsic
pool = record {
  pending = new_signed (1 ∷ []) 0 pay_bob ∷ new_signed (2 ∷ []) 1 claim_seven ∷ [];
  max_capacity = none;
  block_limit = some 2;
}

abbrev after_block : Runtime × MemStore × Mempool Extrinsic
after_block = unwrap_or (on_block start empty_store pool block_one) (start, empty_store, pool)

import-block_one : on_block start empty_store pool block_one ≡ some after_block
unfolding on_block Mempool.retain execute_block System.inc_block_number
    rust_state_machine.Runtime.apply_extrinsics rust_state_machine.Extrinsic.verify_batch
    rust_state_machine.Runtime.apply_extrinsic rust_state_machine.Extrinsic.verify new_signed
    System.nonce Map.get System.inc_nonce rust_state_machine.Runtime.dispatch Balances.dispatch
    Balances.transfer Balances.set_balance Balances.balance Map.insert Map.last_key
    rust_state_machine.ProofOfExistence.dispatch rust_state_machine.ProofOfExistence.create_claim
    mem_store rust_state_machine.Storage.entry_key rust_state_machine.ProofOfExistence.claim_key
    Balances.balance_key
import-block_one = refl

on_block_evicts_example :
    ((block_one.header.block_number ≡ start.system.block_number + 1)
      × Evicted block_one.extrinsics pool.pending after_block.2.pending
      × (after_block.2.max_capacity ≡ pool.max_capacity)
      × (after_block.2.block_limit ≡ pool.block_limit))
    ⊎ ((block_one.header.block_number ≢ start.system.block_number + 1) × (after_block.2 ≡ pool))
on_block_evicts_example = on_block_evicts start empty_store pool block_one import-block_one

-- A database in memory that never fails.
abbrev memory_db : RocksDb MemStore
memory_db = record {
  get = λ d k. ok (mem_store.get d k);
  put = mem_store.put;
  delete = mem_store.delete;
  iterator = λ d. map ok d.entries;
}

memory_db-IsWorking : IsWorking memory_db
unfolding mem_store
memory_db-IsWorking = record {
  contents = λ d. d.entries;
  sorted = λ d. d.sorted;
  gets = λ d k. refl;
  puts = λ d k v. refl;
  deletes = λ d k. refl;
  iterates = λ d. refl;
}

rocks_store-IsReliable_example : IsReliable (rocks_store memory_db)
rocks_store-IsReliable_example = rocks_store-IsReliable memory_db memory_db-IsWorking
