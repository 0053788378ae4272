-- ===== src/Examples/Network.antt =====
-- Two nodes of src/node.rs over two slots, with gossip between them.
use rust_state_machine.Shared.{
  ◌+◌, ◌≡◌, refl, some, List, [], ◌∷◌, All, length, arith, if◌then◌else◌,
}
use rust_state_machine.Shared.Order.{bytes_ord, same}
use rust_state_machine.Store.Memory.{MemStore, mem_store}
use rust_state_machine.Extrinsic.{AccountId32, account_ord, new_signed}
use rust_state_machine.BTreeMap as Map
use rust_state_machine.System
use rust_state_machine.Mempool
use rust_state_machine.Runtime.{Runtime, RuntimeBlock, Extrinsic}
use rust_state_machine.Runtime.Ledger.{ledger, execute_each}
use rust_state_machine.Node.Loop.{current_slot}
use rust_state_machine.Network.{Participant, Round, run_rounds}
use rust_state_machine.Network.Steps.{HasRuntime}
use rust_state_machine.Network.Rounds.{rounds_agree}
use package.rust_state_machine.Examples.{
  account_codec, content_codec, u32_codec, u128_codec, dalek, payload, alice, bob, claim_seven,
  claim_five,
}
use package.rust_state_machine.Examples.Blocks.{blank}
use package.rust_state_machine.Examples.Nodes.{fresh}
use package.rust_state_machine.Examples.Wires.{toy_wire}
use package.rust_state_machine.Examples.Producer.{visit, visit-VisitsEachOnce}

abbrev peers : List AccountId32
peers = alice ∷ bob ∷ []

abbrev alice_node : Participant AccountId32 MemStore
alice_node = record { id = alice; iterate = visit; node = record fresh { peers = peers } }

abbrev bob_node : Participant AccountId32 MemStore
bob_node = record { id = bob; iterate = λ groups. groups; node = record fresh { peers = peers } }

-- In slot 60, Alice's, both hear a claim of Alice's; in slot 61, Bob's, only Bob hears a claim of his.
abbrev in_slot_60 : Round AccountId32
in_slot_60 = record { time = λ id. 1200; heard = λ id. new_signed (1 ∷ []) 0 claim_seven ∷ [] }

abbrev only_bob : AccountId32 → List Extrinsic
only_bob id = if same id bob then new_signed (2 ∷ []) 0 claim_five ∷ [] else []

abbrev in_slot_61 : Round AccountId32
in_slot_61 = record { time = λ id. 1221; heard = only_bob }

abbrev rounds : List (Round AccountId32)
rounds = in_slot_60 ∷ in_slot_61 ∷ []

abbrev start_nodes : List (Participant AccountId32 MemStore)
start_nodes = alice_node ∷ bob_node ∷ []

rounds_agree_example :
    (qs : List (Participant AccountId32 MemStore)) × (run_rounds toy_wire rounds start_nodes
      ≡ some qs)
    × (blocks : List RuntimeBlock) × (rt' : Runtime) × All (HasRuntime peers rt') qs
    × (length blocks ≡ length rounds)
    × (rt'.system.block_number ≡ blank.system.block_number + length rounds)
    × (execute_each (ledger blank) blocks ≡ some (ledger rt'))
rounds_agree_example =
    rounds_agree toy_wire rounds peers blank start_nodes
      ((60, λ id. unfold current_slot in refl), ((61, λ id. unfold current_slot in refl), tt))
      (omega arith) ((refl, tt), (tt, tt)) refl
      (
        (refl, refl, visit-VisitsEachOnce),
        ((refl, refl, record { distinct = λ g h. h; finds = λ g a h. refl }), tt),
      )
      (omega arith)
      (λ a. unfold System.nonce Map.get Mempool.with_block_limit new_signed in omega arith)
