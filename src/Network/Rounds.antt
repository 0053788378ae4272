-- ===== src/Network/Rounds.antt =====
-- Connected nodes of src/node.rs keep the same runtime, slot after slot.
use rust_state_machine.Shared.{
  ℕ, ◌+◌, ◌<◌, ◌≡◌, refl, arith, some, List, [], ◌∷◌, All, length, map, IsU32, IsU128,
}
use rust_state_machine.Shared.Order.{Ord}
use rust_state_machine.Codec.{Codec, Always}
use rust_state_machine.Store.{KeyValueStore}
use rust_state_machine.Extrinsic.{AccountId32, account_ord, Ed25519, PayloadCodec}
use rust_state_machine.Runtime.{Runtime, RuntimeBlock, Content, RuntimeCall}
use rust_state_machine.Runtime.Ledger.{ledger, execute_each}
use rust_state_machine.System
use rust_state_machine.Node.Loop.Total.{sum_over}
use rust_state_machine.Network.{Participant, Round, Wire, run_rounds}
use rust_state_machine.Network.Steps.{
  Distinct, InOneSlot, HasRuntime, pending_of, heard_by, ledger_of_Leads,
}
use rust_state_machine.Network.Slot.{run_round_agrees}

module _ {S : Type 0} ⦃kv : KeyValueStore S⦄ ⦃account_codec : Codec AccountId32 Always⦄
    ⦃content_codec : Codec Content Always⦄ ⦃u32_codec : Codec ℕ IsU32⦄ ⦃u128_codec : Codec ℕ IsU128⦄
    ⦃dalek : Ed25519⦄ ⦃payload : PayloadCodec RuntimeCall⦄ {PeerId : Type 0} ⦃o : Ord PeerId⦄
    (wire : Wire) where
  -- Nodes that are connected, each to all others, and have the same runtime and the same list of peers,
  -- in which nobody stands twice, have the same runtime after any number of slots, provided that their
  -- clocks show the same slot at each tick and that each block arrives at all others before the slot
  -- ends, whatever extrinsics each of them hears and in whatever order it iterates its HashMap, entry by
  -- entry. None of them panics while the block number has room for one block in each slot, and the nonces
  -- have room, each of them, for all that is pending and heard. The chain grows by exactly one block in
  -- each slot, and the ledger is what the abstract blocks make of the first one.
  pub rounds_agree :
      (rounds : List (Round PeerId)) (peers : List PeerId) (rt : Runtime)
      (ps : List (Participant PeerId S))
      → All InOneSlot rounds
      → 1 < length peers
      → Distinct peers
      → map (λ (p : Participant PeerId S). p.id) ps ≡ peers
      → All (HasRuntime peers rt) ps
      → IsU32 (rt.system.block_number + length rounds)
      → ((a : AccountId32)
          → IsU32 (
              System.nonce rt.system a
              + sum_over pending_of ps
              + sum_over (λ round. sum_over (heard_by round) peers) rounds))
      → (qs : List (Participant PeerId S)) × (run_rounds wire rounds ps ≡ some qs)
        × (blocks : List RuntimeBlock) × (rt' : Runtime) × All (HasRuntime peers rt') qs
        × (length blocks ≡ length rounds)
        × (rt'.system.block_number ≡ rt.system.block_number + length rounds)
        × (execute_each (ledger rt) blocks ≡ some (ledger rt'))
  unfolding run_rounds
  rounds_agree [] peers rt ps slots several distinct ids agree height room =
      (ps, refl, [], rt, agree, refl, omega arith, refl)
  rounds_agree (round ∷ rounds) peers rt ps slots several distinct ids agree height room =
      let (qs, first, b, rt₁, ids₁, agree₁, leads, used) =
        run_round_agrees wire round peers rt ps slots.0 several distinct ids agree
          (omega (arith, height)) (λ a. omega (arith, room a)) in
      let (made, number) = ledger_of_Leads S rt rt₁ b leads in
      let (rs, rest, blocks, rt', agree', many, grown, made_each) =
        rounds_agree rounds peers rt₁ qs slots.1 several distinct ids₁ agree₁
          (omega (arith, height, number)) (λ a. omega (arith, room a, used a)) in
      (
        rs,
        rw first rest,
        b ∷ blocks,
        rt',
        agree',
        omega (arith, many),
        omega (arith, number, grown),
        rw made made_each,
      )
