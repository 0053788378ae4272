-- ===== src/Examples/Nodes.antt =====
-- A node of src/node.rs at concrete inputs: its slots, its blocks and a sequence of its events.
use rust_state_machine.Shared.{
  ℕ, ◌+◌, ◌<◌, ◌≡◌, refl, true, Option, none, some, List, [], ◌∷◌, length, filter_by, arith,
}
use rust_state_machine.Shared.Order.{bytes_ord}
use rust_state_machine.Store.Memory.{MemStore, mem_store}
use rust_state_machine.Extrinsic.{AccountId32, account_ord, new_signed}
use rust_state_machine.Extrinsic.Signing.{verify-new_signed}
use rust_state_machine.BTreeMap as Map
use rust_state_machine.System
use rust_state_machine.Mempool
use rust_state_machine.Mempool.{Mempool}
use rust_state_machine.Runtime.{Runtime, RuntimeBlock, Extrinsic}
use rust_state_machine.Node.Production.Batch.{is_from}
use rust_state_machine.Node.Loop.{current_slot, tick_time, is_my_slot, on_tick}
use rust_state_machine.Node.Loop.Slots.{ticks_take_turns}
use rust_state_machine.Node.Loop.Tick.{tick_seals_pending}
use rust_state_machine.Node.Loop.Events.{Node, Event}
use package.rust_state_machine.Examples.{
  account_codec, content_codec, u32_codec, u128_codec, dalek, payload, empty_store, alice, bob,
  pay_bob, claim_seven, claim_five,
}
use package.rust_state_machine.Examples.Blocks.{start, blank}
use package.rust_state_machine.Examples.Producer.{visit, visit-VisitsEachOnce}

abbrev pub peers : List AccountId32
peers = alice ∷ bob ∷ []

ticks_take_turns_example :
    ((k : ℕ) → current_slot (tick_time 1234 k) ≡ current_slot 1234 + 1 + k)
    × (k : ℕ) × (k < length peers)
    × (is_my_slot (tick_time 1234 k) bob peers ≡ some true)
ticks_take_turns_example = ticks_take_turns 1234 1 bob peers (omega arith) refl

-- Two extrinsics of Alice in turn, one of Bob out of turn.
abbrev pub pool : Mempool Extrinsic
pool = record {
  pending =
      new_signed (1 ∷ []) 0 pay_bob
      ∷ new_signed (2 ∷ []) 4 claim_five
      ∷ new_signed (1 ∷ []) 1 claim_seven
      ∷ [];
  max_capacity = none;
  block_limit = some 3;
}

pub alice_slot : is_my_slot 1200 alice peers ≡ some true
unfolding is_my_slot current_slot
alice_slot = refl

tick_seals_pending_example :
    (r : Runtime × MemStore × Mempool Extrinsic × Option RuntimeBlock) × (block : RuntimeBlock)
    × (on_tick visit 1200 alice peers start empty_store pool ≡ some r)
    × (r.3 ≡ some block)
    × (r.2.pending ≡ [])
    × (filter_by (is_from alice) block.extrinsics ≡ filter_by (is_from alice) pool.pending)
    × (System.nonce r.0.system alice
        ≡ System.nonce start.system alice + length (filter_by (is_from alice) pool.pending))
tick_seals_pending_example =
    tick_seals_pending visit visit-VisitsEachOnce 1200 alice peers (omega arith) alice_slot start
      empty_store pool (omega arith) (λ a. unfold System.nonce Map.get in omega arith) (omega arith)
      (
        verify-new_signed (1 ∷ []) 0 pay_bob,
        (verify-new_signed (2 ∷ []) 4 claim_five, (verify-new_signed (1 ∷ []) 1 claim_seven, tt)),
      )
      alice (unfold System.nonce Map.get new_signed in (refl, (refl, tt)))

-- A node on an empty store, alone so far.
abbrev pub fresh : Node AccountId32 MemStore
fresh = record {
  runtime = blank;
  store = empty_store;
  mempool = Mempool.with_block_limit 3;
  peers = alice ∷ [];
  published = [];
}

-- Bob connects, Alice's extrinsic comes, and her slot.
abbrev pub events : List (Event AccountId32)
events =
    Event.established bob
    ∷ Event.extrinsic (new_signed (1 ∷ []) 0 claim_seven)
    ∷ Event.tick 1200
    ∷ Event.closed bob
    ∷ []
