-- ===== src/Examples/Producer.antt =====
-- Block production and the RPC handlers of src/node.rs at concrete inputs.
use rust_state_machine.Shared.{
  ◌++◌, drop, any, filter_by, ◌+◌, ◌≡◌, refl, true, Option, some, none, List, [], ◌∷◌, All, length,
  ok, arith, unwrap_or,
}
use rust_state_machine.Shared.Order.{Bytes, bytes_ord}
use rust_state_machine.Store.Memory.{MemStore, mem_store}
use rust_state_machine.Extrinsic.{AccountId32, account_ord, new_signed, verify}
use rust_state_machine.Extrinsic.Signing.{verify-new_signed}
use rust_state_machine.BTreeMap as Map
use rust_state_machine.System
use rust_state_machine.Balances
use rust_state_machine.ProofOfExistence
use rust_state_machine.Mempool
use rust_state_machine.Mempool.{Mempool}
use rust_state_machine.Runtime.{Runtime, RuntimeBlock, Extrinsic, Content, execute_block}
use rust_state_machine.Node.Production.{
  Groups, group_from, sort_by_nonce, take_run, build_batch, produce_block,
}
use rust_state_machine.Node.Production.Batch.{is_from, VisitsEachOnce, batch_of_account}
use rust_state_machine.Node.Production.Blocks.{Consecutive, produce_block_lem}
use rust_state_machine.Node.Production.Stale.{is_stale, stale_shuts_out}
use rust_state_machine.Node.Rpc.{nonce_handler, nonce_handler_runs_on}
use package.rust_state_machine.Examples.{
  account_codec, content_codec, u32_codec, u128_codec, dalek, payload, empty_store, alice, pay_bob,
  claim_seven, claim_five,
}
use package.rust_state_machine.Examples.Blocks.{start}

abbrev pub visit : Groups → Groups
visit g = g

pub visit-VisitsEachOnce : VisitsEachOnce visit
visit-VisitsEachOnce = record { distinct = λ g h. h; finds = λ g a h. refl }

-- Out of order, from two accounts.
abbrev candidates : List Extrinsic
candidates =
    new_signed (1 ∷ []) 1 claim_seven
    ∷ new_signed (2 ∷ []) 0 claim_five
    ∷ new_signed (1 ∷ []) 0 pay_bob
    ∷ []

abbrev pool : Mempool Extrinsic
pool = record { pending = candidates; max_capacity = none; block_limit = some 3 }

batch_of_account_example :
    filter_by (is_from alice) (build_batch start (visit (group_from [] candidates)))
    ≡ take_run
        (System.nonce start.system alice)
        (sort_by_nonce (filter_by (is_from alice) candidates))
batch_of_account_example = batch_of_account visit visit-VisitsEachOnce start candidates alice

-- The runtime has passed Alice's nonce 0.
abbrev ahead : Runtime
ahead = record start { system = record { block_number = 1; nonce = (alice, 1) ∷ [] } }

is_stale-candidates :
    any (is_stale (System.nonce ahead.system alice)) (filter_by (is_from alice) candidates) ≡ true
unfolding System.nonce Map.get new_signed
is_stale-candidates = refl

stale_shuts_out_example :
    filter_by (is_from alice) (build_batch ahead (visit (group_from [] candidates))) ≡ []
stale_shuts_out_example =
    stale_shuts_out visit visit-VisitsEachOnce ahead candidates alice is_stale-candidates

abbrev produced : Runtime × MemStore × Mempool Extrinsic × Option RuntimeBlock
produced = unwrap_or (produce_block visit start empty_store pool) (start, empty_store, pool, none)

produce-pool : produce_block visit start empty_store pool ≡ some produced
unfolding produce_block build_batch group_from rust_state_machine.Node.Production.push_entry
    sort_by_nonce rust_state_machine.Node.Production.insert_by_nonce take_run
    Mempool.drain_for_block Mempool.drain_loop execute_block System.inc_block_number
    rust_state_machine.Runtime.apply_extrinsics rust_state_machine.Extrinsic.verify_batch
    rust_state_machine.Runtime.apply_extrinsic verify new_signed System.nonce Map.get
    System.inc_nonce rust_state_machine.Runtime.dispatch Balances.dispatch Balances.transfer
    Balances.set_balance Balances.balance Map.insert Map.last_key ProofOfExistence.dispatch
    ProofOfExistence.create_claim mem_store rust_state_machine.Storage.entry_key
    ProofOfExistence.claim_key Balances.balance_key
produce-pool = refl

candidates-signed : All (λ e. verify e ≡ ok tt) pool.pending
candidates-signed = (
  verify-new_signed (1 ∷ []) 1 claim_seven,
  (verify-new_signed (2 ∷ []) 0 claim_five, (verify-new_signed (1 ∷ []) 0 pay_bob, tt)),
)

produce_block_example :
    (block : RuntimeBlock) × (produced.3 ≡ some block)
    × (block.header.block_number ≡ start.system.block_number + 1)
    × (produced.2.pending ≡ drop (unwrap_or pool.block_limit 10) pool.pending)
    × ((a : AccountId32)
        → System.nonce produced.0.system a
          ≡ System.nonce start.system a + length (filter_by (is_from a) block.extrinsics))
produce_block_example =
    produce_block_lem visit visit-VisitsEachOnce start empty_store pool candidates-signed
      (λ a. unfold System.nonce Map.get in omega arith) produce-pool

abbrev pub decode_hex : Bytes → Option Bytes
decode_hex b = some b

abbrev pub key : Bytes
key =
    1 ∷ 2 ∷ 3 ∷ 4 ∷ 5 ∷ 6 ∷ 7 ∷ 8 ∷ 1 ∷ 2 ∷ 3 ∷ 4 ∷ 5 ∷ 6 ∷ 7 ∷ 8 ∷ 1 ∷ 2 ∷ 3 ∷ 4 ∷ 5 ∷ 6 ∷ 7 ∷ 8
    ∷ 1 ∷ 2 ∷ 3 ∷ 4 ∷ 5 ∷ 6 ∷ 7 ∷ 8 ∷ []

abbrev pub carol : AccountId32
carol = record { bytes = key }

abbrev busy : Mempool Extrinsic
busy = record pool { pending = new_signed key 0 claim_seven ∷ candidates }

nonce_handler-busy : nonce_handler decode_hex start busy key ≡ ok 1
unfolding nonce_handler System.nonce Map.get new_signed
nonce_handler-busy = refl

nonce_handler_example :
    Consecutive
      (System.nonce start.system carol)
      (filter_by (is_from carol) (busy.pending ++ (new_signed key 1 claim_five ∷ [])))
unfolding new_signed
nonce_handler_example =
    nonce_handler_runs_on decode_hex start busy key (new_signed key 1 claim_five) refl
      (unfold System.nonce Map.get new_signed in omega arith)
      (unfold System.nonce Map.get new_signed in (refl, tt)) nonce_handler-busy
