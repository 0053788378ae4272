-- ===== src/Examples/Races.antt =====
-- Timings and heights of src/node.rs that go wrong, and one submission, at concrete inputs.
use rust_state_machine.Shared.{
  ℕ, ◌+◌, ◌≤◌, ◌≡◌, ◌≢◌, refl, not, ◌&&◌, Option, none, some, List, [], ◌∷◌, length, filter_by,
  get_elem?, arith, ok, ◌==◌, if◌then◌else◌,
}
use rust_state_machine.Shared.Order.{bytes_ord}
use rust_state_machine.Store.Memory.{MemStore, mem_store}
use rust_state_machine.Extrinsic.{account_ord, new_signed}
use rust_state_machine.Extrinsic.Signing.{verify-new_signed}
use rust_state_machine.BTreeMap as Map
use rust_state_machine.System
use rust_state_machine.Mempool.{Mempool}
use rust_state_machine.Runtime.{Runtime, RuntimeBlock, Extrinsic}
use rust_state_machine.Runtime.Ledger.{ledger}
use rust_state_machine.Node.Loop.{on_tick}
use rust_state_machine.Node.Loop.Replicas.{replay}
use rust_state_machine.Node.Rpc.{nonce_handler}
use rust_state_machine.Node.Production.Batch.{is_from}
use rust_state_machine.Node.Race.{Stage, stages, nonce_race}
use rust_state_machine.Node.Behind.{never_catches_up}
use rust_state_machine.Node.Effect.{one_block, submission_takes_effect}
use package.rust_state_machine.Examples.{
  account_codec, content_codec, u32_codec, u128_codec, dalek, payload, empty_store, alice, pay_bob,
  claim_seven, claim_five,
}
use package.rust_state_machine.Examples.Blocks.{start}
use package.rust_state_machine.Examples.Producer.{
  visit, visit-VisitsEachOnce, decode_hex, key, carol,
}
use package.rust_state_machine.Examples.Nodes.{peers, alice_slot}

-- Two extrinsics of Carol in turn, one of Bob between them.
abbrev pool : Mempool Extrinsic
pool = record {
  pending =
      new_signed key 0 pay_bob
      ∷ new_signed (2 ∷ []) 0 claim_five
      ∷ new_signed key 1 claim_seven
      ∷ [];
  max_capacity = none;
  block_limit = some 3;
}

nonce_race_example :
    (moments : List Stage) × (stages visit start empty_store pool ≡ some moments)
    × ((last : Stage)
        → get_elem? moments 2 ≡ some last
        → System.nonce last.runtime.system carol
          ≡ System.nonce start.system carol + length (filter_by (is_from carol) pool.pending))
    × ((i j : ℕ) (read counted : Stage)
        → i ≤ j
        → get_elem? moments i ≡ some read
        → get_elem? moments j ≡ some counted
        → nonce_handler decode_hex read.runtime counted.mempool key
          ≡ ok (
              if i == j && not (i == 1)
              then System.nonce start.system carol + length (filter_by (is_from carol) pool.pending)
              else System.nonce start.system carol))
nonce_race_example =
    nonce_race visit visit-VisitsEachOnce start empty_store pool (omega arith)
      (λ a. unfold System.nonce Map.get in omega arith) (omega arith)
      (
        verify-new_signed key 0 pay_bob,
        (verify-new_signed (2 ∷ []) 0 claim_five, (verify-new_signed key 1 claim_seven, tt)),
      )
      decode_hex key carol refl refl (unfold System.nonce Map.get new_signed in (refl, (refl, tt)))

-- The node stands at the height of `start`, its producer at 6.
abbrev later : List RuntimeBlock
later =
    record { header = record { block_number = 7 }; extrinsics = new_signed key 0 pay_bob ∷ [] }
    ∷ record { header = record { block_number = 8 }; extrinsics = [] }
    ∷ []

never_catches_up_example :
    (t : Runtime × MemStore) × (replay start empty_store later ≡ some t)
    × (t.0.system.nonce ≡ start.system.nonce)
    × (t.0.balances ≡ start.balances)
    × (t.0.proof_of_existence ≡ start.proof_of_existence)
    × (t.0.system.block_number ≡ start.system.block_number + length later)
    × (t.0.system.block_number ≢ 6 + length later)
never_catches_up_example =
    never_catches_up 6 later start empty_store (λ e. cc e) (refl, (refl, tt)) (omega arith)

abbrev alone : Mempool Extrinsic
alone = record pool { pending = new_signed (1 ∷ []) 0 pay_bob ∷ [] }

submission_takes_effect_example :
    (r : Runtime × MemStore × Mempool Extrinsic × Option RuntimeBlock) × (on_tick visit 1200 alice
        peers start empty_store alone
      ≡ some r)
    × (r.2.pending ≡ [])
    × (ledger r.0 ≡ one_block (ledger start) (new_signed (1 ∷ []) 0 pay_bob))
submission_takes_effect_example =
    submission_takes_effect visit visit-VisitsEachOnce 1200 alice peers (omega arith) alice_slot
      start empty_store alone (new_signed (1 ∷ []) 0 pay_bob) (omega arith)
      (λ a. unfold System.nonce Map.get in omega arith) refl (omega arith)
      (verify-new_signed (1 ∷ []) 0 pay_bob) (unfold new_signed System.nonce Map.get in refl)
