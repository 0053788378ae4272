-- ===== src/Node/Behind.antt =====
-- A node of src/node.rs whose height is not that of the chain it follows: it missed a block, joined late,
-- or got a block with a wrong number, which raises its height all the same.
use rust_state_machine.System
use rust_state_machine.Dispatch.{DispatchResult, block_number_mismatch}
use rust_state_machine.Shared.{
  err, ◌==◌, false, Option-cases, inl, inr, ℕ, ◌+◌, ◌≡◌, ◌≢◌, refl, ◌∙◌, arith, some, List, [], ◌∷◌,
  length, IsU32, IsU128,
}
use rust_state_machine.Codec.{Codec, Always}
use rust_state_machine.Store.{KeyValueStore}
use rust_state_machine.Extrinsic.{AccountId32, Ed25519, PayloadCodec}
use rust_state_machine.Runtime.{Runtime, RuntimeBlock, Content, RuntimeCall, execute_block}
use rust_state_machine.Runtime.Blocks.{execute_block_refused}
use rust_state_machine.Node.Loop.Replicas.{replay}

-- The blocks that a producer makes from a height on.
abbrev pub Numbered : ℕ → List RuntimeBlock → Type 0
Numbered n [] = Unit
Numbered n (b ∷ blocks) = (b.header.block_number ≡ n + 1) × Numbered (n + 1) blocks

module _ {S : Type 0} ⦃kv : KeyValueStore S⦄ ⦃account_codec : Codec AccountId32 Always⦄
    ⦃content_codec : Codec Content Always⦄ ⦃u32_codec : Codec ℕ IsU32⦄ ⦃u128_codec : Codec ℕ IsU128⦄
    ⦃dalek : Ed25519⦄ ⦃payload : PayloadCodec RuntimeCall⦄ where
  refused_total :
      (rt : Runtime) (s : S) (b : RuntimeBlock)
      → IsU32 (rt.system.block_number + 1)
      → b.header.block_number ≢ rt.system.block_number + 1
      → (q : Runtime × S × DispatchResult) × (execute_block rt s b ≡ some q)
  unfolding execute_block
  refused_total rt s b height other = elim (Option-cases (System.inc_block_number rt.system s)) [
    | inl full ↦
        absurd (omega (arith, (System.Nonces.inc_block_number-eq-none rt.system s).0 full, height))
    | inr (t, counted) ↦
        let one = System.Nonces.inc_block_number-eq-some rt.system s counted in
        let differs : (b.header.block_number == t.0.block_number) ≡ false =
          ground (arith, other, one.0) in
        ((record rt { system = t.0 }, t.1, err block_number_mismatch), rw (counted, differs) refl)
  ]

  -- A node whose height differs from the producer's, in either direction and by whatever amount, never
  -- takes a block of it again: over all blocks that the producer makes from then on, while the node's
  -- block number has room for one more for each of them, it does not panic, its nonces, balances and
  -- claims stay as they are, and its height keeps its distance.
  pub never_catches_up :
      (n : ℕ) (blocks : List RuntimeBlock) (rt : Runtime) (s : S)
      → rt.system.block_number ≢ n
      → Numbered n blocks
      → IsU32 (rt.system.block_number + length blocks)
      → (t : Runtime × S) × (replay rt s blocks ≡ some t)
        × (t.0.system.nonce ≡ rt.system.nonce)
        × (t.0.balances ≡ rt.balances)
        × (t.0.proof_of_existence ≡ rt.proof_of_existence)
        × (t.0.system.block_number ≡ rt.system.block_number + length blocks)
        × (t.0.system.block_number ≢ n + length blocks)
  never_catches_up n [] rt s apart numbered room =
      ((rt, s), refl, refl, refl, refl, omega arith, λ e. apart (omega arith))
  never_catches_up n (b ∷ blocks) rt s apart (number, numbered) room =
      let other : b.header.block_number ≢ rt.system.block_number + 1 =
        λ e. apart (omega (arith, e, number)) in
      let (q, run) = refused_total rt s b (omega (arith, room)) other in
      let (result, nonces, balances, claims, height) = execute_block_refused rt s b other run in
      let (t, rest, nonces', balances', claims', height', apart') =
        never_catches_up (n + 1) blocks q.0 q.1 (λ e. apart (omega (arith, e, height))) numbered
          (omega (arith, room, height)) in
      (
        t,
        rw run rest,
        nonces' ∙ nonces,
        balances' ∙ balances,
        claims' ∙ claims,
        omega (arith, height, height'),
        λ e. apart' (omega (arith, e)),
      )
