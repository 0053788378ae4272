-- ===== src/Runtime/Blocks.antt =====
-- A block as a whole: its result, its number, and panics (macros/src/runtime/expand.rs).
use rust_state_machine.Shared.{
  length-zip-map, All-of, refl, ◌≢◌, if◌then◌else◌, ℕ, ◌+◌, ◌≤◌, ◌≡◌, inl, inr, some, List, [], ◌∷◌,
  arith, Bool-cases, Option-cases, IsU32, IsU128, ok, err, zip, ◌==◌, ◌∙◌, length,
}
use rust_state_machine.Shared.Order.{same_iff, bytes_ord}
use rust_state_machine.Codec.{Codec, Always}
use rust_state_machine.Store.{KeyValueStore}
use rust_state_machine.Dispatch.{DispatchResult, block_number_mismatch}
use rust_state_machine.Extrinsic.{
  AccountId32, account_ord, Ed25519, PayloadCodec, verify_batch, verify,
}
use rust_state_machine.System
use rust_state_machine.Runtime.{
  Runtime, Extrinsic, RuntimeBlock, Content, RuntimeCall, apply_extrinsic, apply_extrinsics,
  execute_block,
}
use rust_state_machine.Runtime.Extrinsics.{
  Applied, apply_extrinsic_cases, execute_block_cases, execute_block_inv,
}
use rust_state_machine.Runtime.Valid.{dispatch-system, dispatch_total}
use rust_state_machine.Runtime.Nonces.{Applied-nonce}

pub same_nonces :
    (p p' : System.Pallet AccountId32) (a : AccountId32)
    → p'.nonce ≡ p.nonce
    → System.nonce p' a ≡ System.nonce p a
unfolding System.nonce
same_nonces p p' a e = rw e

module _ ⦃dalek : Ed25519⦄ ⦃payload : PayloadCodec RuntimeCall⦄ where
  length_checked : (exts : List Extrinsic) → length (zip exts (verify_batch exts)) ≡ length exts
  unfolding verify_batch
  length_checked exts = length-zip-map verify exts

module _ {S : Type 0} ⦃kv : KeyValueStore S⦄ ⦃account_codec : Codec AccountId32 Always⦄
    ⦃content_codec : Codec Content Always⦄ ⦃u32_codec : Codec ℕ IsU32⦄
    ⦃u128_codec : Codec ℕ IsU128⦄ where
  -- An extrinsic does not count as a block.
  Applied-block_number :
      (rt : Runtime) (s : S) (ext : Extrinsic) (u : Runtime × S)
      → Applied rt s ext u
      → u.0.system.block_number ≡ rt.system.block_number
  Applied-block_number rt s ext u x = ground (
    arith,
    x.after,
    dispatch-system (record rt { system = x.counted.0 }) x.counted.1 ext.signer ext.call
        x.dispatched,
    System.Nonces.inc_nonce-eq-some rt.system s ext.signer ext.signer x.inc_nonce,
  )

module _ {S : Type 0} ⦃kv : KeyValueStore S⦄ ⦃account_codec : Codec AccountId32 Always⦄
    ⦃content_codec : Codec Content Always⦄ ⦃u32_codec : Codec ℕ IsU32⦄ ⦃u128_codec : Codec ℕ IsU128⦄
    ⦃dalek : Ed25519⦄ ⦃payload : PayloadCodec RuntimeCall⦄ where
  -- A block is accepted exactly if its number is the next one. Either way the block number is
  -- raised by one; a refused block changes nothing else of the runtime.
  execute_block_lem :
      (rt : Runtime) (s : S) (block : RuntimeBlock) {q : Runtime × S × DispatchResult}
      → execute_block rt s block ≡ some q
      → (q.0.system.block_number ≡ rt.system.block_number + 1)
        × (block.header.block_number ≡ rt.system.block_number + 1 → q.2 ≡ ok tt)
        × (block.header.block_number ≢ rt.system.block_number + 1
            → (q.2 ≡ err block_number_mismatch)
              × (q.0.system.nonce ≡ rt.system.nonce)
              × (q.0.balances ≡ rt.balances)
              × (q.0.proof_of_existence ≡ rt.proof_of_existence))
  execute_block_lem rt s block {q} h =
      let (t, counted, rest) = execute_block_cases rt s block h in
      let one = System.Nonces.inc_block_number-eq-some rt.system s counted in
      (
        execute_block_inv (λ rt' _. rt'.system.block_number ≡ rt.system.block_number + 1)
            (λ _. Unit {0}) rt s block
            (λ t e. (System.Nonces.inc_block_number-eq-some rt.system s e).0)
            (λ rt' s' ext u _ p x. Applied-block_number rt' s' ext u x ∙ p)
            (All-of (λ _ _. tt) block.extrinsics) h,
        λ e. elim rest [ inl r ↦ r.1 | inr r ↦ absurd (r.0 (omega arith)) ],
        λ ne. elim rest [
          | inl r ↦ absurd (ne (omega arith))
          | inr r ↦ rw r.1 (refl, one.2, refl, refl)
        ],
      )

  -- Whenever executing a block does not panic, the block number is raised by one, and the result
  -- is an error exactly if the header has another number than that.
  pub execute_block_result :
      (rt : Runtime) (s : S) (block : RuntimeBlock) {q : Runtime × S × DispatchResult}
      → execute_block rt s block ≡ some q
      → (q.0.system.block_number ≡ rt.system.block_number + 1)
        × (q.2 ≡ (
            if block.header.block_number == rt.system.block_number + 1
            then ok tt
            else err block_number_mismatch))
  execute_block_result rt s block {q} h =
      let (number, accepted, refused) = execute_block_lem rt s block h in
      (
        number,
        elim (Bool-cases (block.header.block_number == rt.system.block_number + 1)) [
          | inl y ↦ rw y (accepted (ground arith))
          | inr n ↦ rw n (refused (ground arith)).0
        ],
      )

  -- A block with a wrong number in its header is refused: nonces, balances and claims stay as they
  -- were, yet the block number of the runtime is raised by one.
  pub execute_block_refused :
      (rt : Runtime) (s : S) (block : RuntimeBlock) {q : Runtime × S × DispatchResult}
      → block.header.block_number ≢ rt.system.block_number + 1
      → execute_block rt s block ≡ some q
      → (q.2 ≡ err block_number_mismatch)
        × (q.0.system.nonce ≡ rt.system.nonce)
        × (q.0.balances ≡ rt.balances)
        × (q.0.proof_of_existence ≡ rt.proof_of_existence)
        × (q.0.system.block_number ≡ rt.system.block_number + 1)
  execute_block_refused rt s block {q} ne h =
      let (number, accepted, refused) = execute_block_lem rt s block h in
      let kept = refused ne in (kept.0, kept.1, kept.2, kept.3, number)

module _ {S : Type 0} ⦃kv : KeyValueStore S⦄ ⦃account_codec : Codec AccountId32 Always⦄
    ⦃content_codec : Codec Content Always⦄ ⦃u32_codec : Codec ℕ IsU32⦄
    ⦃u128_codec : Codec ℕ IsU128⦄ where
  -- With room for one more nonce the step does not panic, and raises no nonce by more than one.
  pub apply_extrinsic_total :
      (rt : Runtime) (s : S) (ext : Extrinsic) (r : DispatchResult)
      → IsU32 (System.nonce rt.system ext.signer + 1)
      → (u : Runtime × S) × (apply_extrinsic rt s (ext, r) ≡ some u)
  unfolding apply_extrinsic
  apply_extrinsic_total rt s ext (err e) h = ((rt, s), refl)
  apply_extrinsic_total rt s ext (ok x) h =
      elim (Bool-cases (System.nonce rt.system ext.signer == ext.nonce)) [
        | inr other ↦ ((rt, s), rw other)
        | inl turn ↦ elim (Option-cases (System.inc_nonce rt.system s ext.signer)) [
          | inl full ↦
              absurd
                (omega (arith, (System.Nonces.inc_nonce-eq-none rt.system s ext.signer).0 full))
          | inr (t, counted) ↦
              let w = dispatch_total (record rt { system = t.0 }) t.1 ext.signer ext.call in
              (((w.0).0, (w.0).1), rw (turn, counted, w.1))
        ]
      ]

  apply_extrinsic_room :
      (rt : Runtime) (s : S) (ext : Extrinsic) (r : DispatchResult) (a : AccountId32)
      {u : Runtime × S}
      → apply_extrinsic rt s (ext, r) ≡ some u
      → System.nonce u.0.system a ≤ System.nonce rt.system a + 1
  apply_extrinsic_room rt s ext r a {u} h = elim (apply_extrinsic_cases rt s ext r h) [
    | inl skipped ↦ rw skipped (omega arith)
    | inr (valid, x) ↦
        ground (arith, Applied-nonce rt s ext u a x, x.in_turn, same_iff a ext.signer)
  ]

  apply_extrinsics_total :
      (rt : Runtime) (s : S) (xs : List (Extrinsic × DispatchResult))
      → ((a : AccountId32) → IsU32 (System.nonce rt.system a + length xs))
      → (u : Runtime × S) × (apply_extrinsics rt s xs ≡ some u)
  unfolding apply_extrinsics
  apply_extrinsics_total rt s [] h = ((rt, s), refl)
  apply_extrinsics_total rt s ((ext, r) ∷ xs) h =
      let (t, e) = apply_extrinsic_total rt s ext r (omega (arith, h ext.signer)) in
      let (u, f) =
        apply_extrinsics_total t.0 t.1 xs
          (λ a. omega (arith, h a, apply_extrinsic_room rt s ext r a e)) in
      (u, rw e f)

module _ {S : Type 0} ⦃kv : KeyValueStore S⦄ ⦃account_codec : Codec AccountId32 Always⦄
    ⦃content_codec : Codec Content Always⦄ ⦃u32_codec : Codec ℕ IsU32⦄ ⦃u128_codec : Codec ℕ IsU128⦄
    ⦃dalek : Ed25519⦄ ⦃payload : PayloadCodec RuntimeCall⦄ where
  -- While the block number and, for every account, the nonce plus the length of the block fit their
  -- type, executing the block does not panic.
  pub execute_block_total :
      (rt : Runtime) (s : S) (block : RuntimeBlock)
      → IsU32 (rt.system.block_number + 1)
      → ((a : AccountId32) → IsU32 (System.nonce rt.system a + length block.extrinsics))
      → (q : Runtime × S × DispatchResult) × (execute_block rt s block ≡ some q)
  unfolding execute_block
  execute_block_total rt s block n h = elim (Option-cases (System.inc_block_number rt.system s)) [
    | inl full ↦ absurd (omega (arith, (System.Nonces.inc_block_number-eq-none rt.system s).0 full))
    | inr (t, counted) ↦
        let one = System.Nonces.inc_block_number-eq-some rt.system s counted in
        let (u, applied) =
          apply_extrinsics_total (record rt { system = t.0 }) t.1
            (zip block.extrinsics (verify_batch block.extrinsics))
            (λ a.
              omega
                (arith, h a, same_nonces rt.system t.0 a one.2, length_checked block.extrinsics)) in
        elim (Bool-cases (block.header.block_number == t.0.block_number)) [
          | inl next ↦ ((u.0, u.1, ok tt), rw (counted, next, applied))
          | inr other ↦
              ((record rt { system = t.0 }, t.1, err block_number_mismatch), rw (counted, other))
        ]
  ]
