-- ===== src/Runtime/Ownership.antt =====
-- Who can take a claim away.
use rust_state_machine.Shared.{ℕ, ◌≡◌, some, >>=-eq-some, All, arith, IsU32, IsU128, ok}
use rust_state_machine.Shared.Order.{bytes_ord}
use rust_state_machine.Codec.{Codec, Always}
use rust_state_machine.Store.{KeyValueStore}
use rust_state_machine.Dispatch.{DispatchResult}
use rust_state_machine.Extrinsic.{AccountId32, account_ord, Ed25519, PayloadCodec, verify}
use rust_state_machine.ProofOfExistence
use rust_state_machine.ProofOfExistence.Calls as ProofOfExistenceCalls
use rust_state_machine.Runtime.{
  Runtime, RuntimeBlock, Content, RuntimeCall, dispatch, execute_block,
}
use rust_state_machine.Runtime.Extrinsics.{execute_block_inv}

-- The call revokes this content.
abbrev pub Revokes : Content → RuntimeCall → Type 0
Revokes claim (RuntimeCall.proof_of_existence (ProofOfExistenceCalls.Call.revoke_claim c)) =
    c ≡ claim
Revokes claim call = ⊥

module _ {S : Type 0} ⦃kv : KeyValueStore S⦄ ⦃account_codec : Codec AccountId32 Always⦄
    ⦃content_codec : Codec Content Always⦄ ⦃u32_codec : Codec ℕ IsU32⦄
    ⦃u128_codec : Codec ℕ IsU128⦄ where
  dispatch-get_claim :
      (rt : Runtime) (s : S) (caller : AccountId32) (call : RuntimeCall) (owner : AccountId32)
      (claim : Content) {w : Runtime × S × DispatchResult}
      → ProofOfExistence.get_claim rt.proof_of_existence claim ≡ some owner
      → ¬ ((caller ≡ owner) × Revokes claim call)
      → dispatch rt s caller call ≡ some w
      → ProofOfExistence.get_claim w.0.proof_of_existence claim ≡ some owner
  unfolding dispatch ProofOfExistence.dispatch
  dispatch-get_claim rt s caller (RuntimeCall.balances call) owner claim g no_revoke h =
      ground arith
  dispatch-get_claim rt s caller
        (RuntimeCall.proof_of_existence (ProofOfExistenceCalls.Call.create_claim c)) owner claim g
        no_revoke h =
      let (t, made, last) =
        >>=-eq-some (ProofOfExistence.create_claim rt.proof_of_existence s caller c)
          (λ t. some (record rt { proof_of_existence = t.0 }, t.1, t.2)) h in
      ground
        (arith, ProofOfExistence.Claims.create_claim_lem rt.proof_of_existence s caller c claim)
  dispatch-get_claim rt s caller
        (RuntimeCall.proof_of_existence (ProofOfExistenceCalls.Call.revoke_claim c)) owner claim g
        no_revoke h =
      ground (
        arith,
        ProofOfExistence.Claims.revoke_claim_keeps rt.proof_of_existence s caller owner c claim g
            no_revoke,
      )

module _ {S : Type 0} ⦃kv : KeyValueStore S⦄ ⦃account_codec : Codec AccountId32 Always⦄
    ⦃content_codec : Codec Content Always⦄ ⦃u32_codec : Codec ℕ IsU32⦄ ⦃u128_codec : Codec ℕ IsU128⦄
    ⦃dalek : Ed25519⦄ ⦃payload : PayloadCodec RuntimeCall⦄ where
  -- A claim stays with its owner over every block that does not panic and in which no validly
  -- signed extrinsic of the owner revokes it, whatever the others send.
  pub execute_block-get_claim :
      (rt : Runtime) (s : S) (block : RuntimeBlock) (owner : AccountId32) (claim : Content)
      {q : Runtime × S × DispatchResult}
      → ProofOfExistence.get_claim rt.proof_of_existence claim ≡ some owner
      → All (λ e. verify e ≡ ok tt → ¬ ((e.signer ≡ owner) × Revokes claim e.call)) block.extrinsics
      → execute_block rt s block ≡ some q
      → ProofOfExistence.get_claim q.0.proof_of_existence claim ≡ some owner
  execute_block-get_claim rt s block owner claim {q} g all h =
      execute_block_inv
        (λ rt' _. ProofOfExistence.get_claim rt'.proof_of_existence claim ≡ some owner)
        (λ e. ¬ ((e.signer ≡ owner) × Revokes claim e.call)) rt s block (λ t e. g)
        (λ rt' s' ext u no_revoke p x. rw x.after (
          dispatch-get_claim (record rt' { system = x.counted.0 }) x.counted.1 ext.signer ext.call
            owner claim p no_revoke x.dispatched))
        all h
