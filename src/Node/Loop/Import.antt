-- ===== src/Node/Loop/Import.antt =====
-- A peer's block and the pool: the branch of `rx_blk` in `run` of src/node.rs.
use rust_state_machine.Shared.Order.{same, same_iff, bytes_ord}
use rust_state_machine.Dispatch.{block_number_mismatch}
use rust_state_machine.Shared.{
  ◌≢◌, ◌↔◌, ◌⊎◌, true, ◌==◌, map, ◌&&◌, ℕ, ◌+◌, ◌≡◌, refl, not, Bool-cases, inl, inr, some,
  >>=-eq-some, List, [], ◌∷◌, filter_by, IsU32, IsU128, ok, err, arith,
}
use rust_state_machine.Codec.{Codec, Always}
use rust_state_machine.Store.{KeyValueStore}
use rust_state_machine.Extrinsic.{AccountId32, account_ord, Ed25519, PayloadCodec}
use rust_state_machine.Mempool
use rust_state_machine.Mempool.{Mempool}
use rust_state_machine.Runtime.{
  Runtime, Extrinsic, RuntimeBlock, Content, RuntimeCall, execute_block,
}
use rust_state_machine.Runtime.Blocks.{execute_block_result}
use rust_state_machine.Node.Loop.{included_in, is_included, on_block}

-- Some extrinsic of a list has the signer and the nonce of another.
abbrev pub Includes : List Extrinsic → Extrinsic → Type 0
Includes [] e = ⊥
Includes (x ∷ xs) e = ((x.signer ≡ e.signer) × (x.nonce ≡ e.nonce)) ⊎ Includes xs e

-- A queue, and what stays of it in the same order: all that a list of extrinsics does not include.
abbrev pub Evicted : List Extrinsic → List Extrinsic → List Extrinsic → Type 0
Evicted included [] left = left ≡ []
Evicted included (e ∷ queue) left =
    (Includes included e × Evicted included queue left)
    ⊎ ((¬ Includes included e)
        × (rest : List Extrinsic) × (left ≡ e ∷ rest)
        × Evicted included queue rest)

any_iff :
    (xs : List Extrinsic) (e : Extrinsic)
    → (is_included (map (λ (x : Extrinsic). (x.signer, x.nonce)) xs) e ≡ true) ↔ Includes xs e
unfolding is_included
any_iff [] e = (λ h. cc, λ h. absurd h)
any_iff (x ∷ xs) e = (
  λ h. elim (Bool-cases (same x.signer e.signer && x.nonce == e.nonce)) [
    | inl y ↦ inl ((same_iff x.signer e.signer).0 (ground arith), ground (arith, y))
    | inr n ↦ inr ((any_iff xs e).0 (ground (arith, h, n)))
  ],
  λ h. elim h [
    | inl (signer, nonce) ↦ ground (arith, (same_iff x.signer e.signer).1 signer, nonce)
    | inr later ↦ ground (arith, (any_iff xs e).1 later)
  ],
)

is_included_iff :
    (block : RuntimeBlock) (e : Extrinsic)
    → (is_included (included_in block) e ≡ true) ↔ Includes block.extrinsics e
unfolding included_in
is_included_iff block e = any_iff block.extrinsics e

retain-Evicted :
    (block : RuntimeBlock) (queue : List Extrinsic)
    → Evicted block.extrinsics queue
        (filter_by (λ e. not (is_included (included_in block) e)) queue)
retain-Evicted block [] = refl
retain-Evicted block (e ∷ queue) = elim (Bool-cases (is_included (included_in block) e)) [
  | inl y ↦ rw y (inl ((is_included_iff block e).0 y, retain-Evicted block queue))
  | inr n ↦ rw n (
      inr (
        (λ h. absurd (cc (n, (is_included_iff block e).1 h))),
        filter_by (λ x. not (is_included (included_in block) x)) queue,
        refl,
        retain-Evicted block queue,
      ))
]

module _ {S : Type 0} ⦃kv : KeyValueStore S⦄ ⦃account_codec : Codec AccountId32 Always⦄
    ⦃content_codec : Codec Content Always⦄ ⦃u32_codec : Codec ℕ IsU32⦄ ⦃u128_codec : Codec ℕ IsU128⦄
    ⦃dalek : Ed25519⦄ ⦃payload : PayloadCodec RuntimeCall⦄ where
  -- A peer's block that is executed without a panic: if it has the next number, the pool keeps its
  -- capacity and its limit, and what was pending, in its order, without the extrinsics that have the
  -- signer and the nonce of one in the block; with any other number the pool is left as it was.
  pub on_block_evicts :
      (rt : Runtime) (s : S) (mempool : Mempool Extrinsic) (block : RuntimeBlock)
      {r : Runtime × S × Mempool Extrinsic}
      → on_block rt s mempool block ≡ some r
      → ((block.header.block_number ≡ rt.system.block_number + 1)
          × Evicted block.extrinsics mempool.pending r.2.pending
          × (r.2.max_capacity ≡ mempool.max_capacity)
          × (r.2.block_limit ≡ mempool.block_limit))
        ⊎ ((block.header.block_number ≢ rt.system.block_number + 1) × (r.2 ≡ mempool))
  unfolding on_block Mempool.retain
  on_block_evicts rt s mempool block {r} h =
      let (q, run, last) =
        >>=-eq-some (execute_block rt s block)
          (λ q. some (
            q.0,
            q.1,
            elim (q.2) [
              | ok _ ↦ Mempool.retain mempool (λ e. not (is_included (included_in block) e))
              | err _ ↦ mempool
            ],
          ))
          {b = r} h in
      let result = execute_block_result rt s block run in
      elim (Bool-cases (block.header.block_number == rt.system.block_number + 1)) [
        | inl next ↦
            let accepted : q.2 ≡ ok tt = ground (arith, result.1, next) in
            let after : r ≡ (
              q.0,
              q.1,
              Mempool.retain mempool (λ e. not (is_included (included_in block) e)),
            ) =
              ground (arith, last, accepted) in
            rw after (inl (ground (arith, next), retain-Evicted block mempool.pending, refl, refl))
        | inr other ↦
            let refused : q.2 ≡ err block_number_mismatch = ground (arith, result.1, other) in
            inr (ground (arith, other), ground (arith, last, refused))
      ]
