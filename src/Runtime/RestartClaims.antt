-- ===== src/Runtime/RestartClaims.antt =====
-- The claims that a restart finds (`Runtime::new`), after any blocks.
use rust_state_machine.Shared.{All-of, ℕ, ◌≡◌, some, >>=-eq-some, arith, IsU32, IsU128, true, false}
use rust_state_machine.Shared.Order.{Bytes, bytes_ord, starts_with, starts_with_other}
use rust_state_machine.Codec.{Codec, Always}
use rust_state_machine.Store.{KeyValueStore, IsReliable}
use rust_state_machine.Dispatch.{DispatchResult}
use rust_state_machine.Extrinsic.{AccountId32, account_ord, Ed25519, PayloadCodec}
use rust_state_machine.System
use rust_state_machine.Balances
use rust_state_machine.Balances.Calls as BalancesCalls
use rust_state_machine.ProofOfExistence
use rust_state_machine.ProofOfExistence.Saved.{Saved, Saved-frame, dispatch-Saved, new-Saved}
use rust_state_machine.Runtime.{
  new, Runtime, Extrinsic, RuntimeBlock, Content, RuntimeCall, dispatch, execute_block,
}
use rust_state_machine.Runtime.Extrinsics.{Applied, execute_block_inv}
use rust_state_machine.Runtime.Nonces.{Chain, here, next}
use rust_state_machine.Storage.{codes}

pub poe_not_balance :
    (j : Bytes)
    → starts_with j ProofOfExistence.prefix_poe ≡ true
    → starts_with j Balances.prefix_balance ≡ false
poe_not_balance j h = starts_with_other j (codes "oe:") (codes "alances:") b'p' b'b' h (omega arith)

poe_not_system :
    (j : Bytes)
    → starts_with j ProofOfExistence.prefix_poe ≡ true
    → starts_with j System.InStep.prefix ≡ false
poe_not_system j h = starts_with_other j (codes "oe:") (codes "ystem:") b'p' b's' h (omega arith)

module _ {S : Type 0} ⦃kv : KeyValueStore S⦄ ⦃account_codec : Codec AccountId32 Always⦄
    ⦃content_codec : Codec Content Always⦄ ⦃u32_codec : Codec ℕ IsU32⦄
    ⦃u128_codec : Codec ℕ IsU128⦄ where
  runtime_dispatch-Saved :
      IsReliable kv
      → (rt : Runtime) (s : S) (caller : AccountId32) (call : RuntimeCall)
        {w : Runtime × S × DispatchResult}
      → Saved rt.proof_of_existence s
      → dispatch rt s caller call ≡ some w
      → Saved w.0.proof_of_existence w.1
  unfolding dispatch Balances.dispatch
  runtime_dispatch-Saved r rt s caller
        (RuntimeCall.balances (BalancesCalls.Call.transfer to amount)) {w} h e =
      let t = Balances.transfer rt.balances s caller to amount in
      let after : w ≡ (record rt { balances = t.0 }, t.1, t.2) = ground arith in
      rw after (
        Saved-frame rt.proof_of_existence s t.1
          (λ j sw.
            Balances.InStep.transfer_elsewhere r rt.balances s caller to amount j
              (poe_not_balance j sw))
          h)
  runtime_dispatch-Saved r rt s caller (RuntimeCall.proof_of_existence call) {w} h e =
      let (t, made, last) =
        >>=-eq-some (ProofOfExistence.dispatch rt.proof_of_existence s caller call)
          (λ t. some (record rt { proof_of_existence = t.0 }, t.1, t.2)) e in
      let after : w ≡ (record rt { proof_of_existence = t.0 }, t.1, t.2) = ground arith in
      rw after (dispatch-Saved r rt.proof_of_existence s caller call h made)

  Applied-Saved :
      IsReliable kv
      → (rt : Runtime) (s : S) (ext : Extrinsic) (u : Runtime × S) → Saved rt.proof_of_existence s
      → Applied rt s ext u
      → Saved u.0.proof_of_existence u.1
  Applied-Saved r rt s ext u h x =
      let counted =
        Saved-frame rt.proof_of_existence s x.counted.1
          (λ j sw.
            System.InStep.inc_nonce_elsewhere r rt.system s ext.signer j x.inc_nonce
              (poe_not_system j sw))
          h in
      rw x.after (
        runtime_dispatch-Saved r (record rt { system = x.counted.0 }) x.counted.1 ext.signer
          ext.call counted x.dispatched)

module _ {S : Type 0} ⦃kv : KeyValueStore S⦄ ⦃account_codec : Codec AccountId32 Always⦄
    ⦃content_codec : Codec Content Always⦄ ⦃u32_codec : Codec ℕ IsU32⦄ ⦃u128_codec : Codec ℕ IsU128⦄
    ⦃dalek : Ed25519⦄ ⦃payload : PayloadCodec RuntimeCall⦄ where
  pub execute_block-Saved :
      IsReliable kv
      → (rt : Runtime) (s : S) (block : RuntimeBlock) {q : Runtime × S × DispatchResult}
      → Saved rt.proof_of_existence s
      → execute_block rt s block ≡ some q
      → Saved q.0.proof_of_existence q.1
  execute_block-Saved r rt s block h =
      execute_block_inv (λ rt' s'. Saved rt'.proof_of_existence s') (λ _. Unit {0}) rt s block
        (λ t e.
          Saved-frame rt.proof_of_existence s t.1
            (λ j sw.
              System.InStep.inc_block_number_elsewhere r rt.system s j e (poe_not_system j sw))
            h)
        (λ rt' s' ext u _ p x. Applied-Saved r rt' s' ext u p x)
        (All-of (λ _ _. tt) block.extrinsics)

  Chain-Saved :
      IsReliable kv
      → {rt : Runtime} {s : S} {rt' : Runtime} {s' : S} → Saved rt.proof_of_existence s
      → Chain rt s rt' s'
      → Saved rt'.proof_of_existence s'
  Chain-Saved r h here = h
  Chain-Saved r h (next c block e) = execute_block-Saved r _ _ block (Chain-Saved r h c) e

  -- On a reliable store whose claims all stand in memory: after any number of blocks, each claim that
  -- a restart finds is one of the running node's, with the same owner.
  restart_claims :
      IsReliable kv
      → (rt : Runtime) (s : S) (rt' : Runtime) (s' : S) (claim : Content) (owner : AccountId32)
      → Saved rt.proof_of_existence s
      → Chain rt s rt' s'
      → ProofOfExistence.get_claim (new s').proof_of_existence claim ≡ some owner
      → ProofOfExistence.get_claim rt'.proof_of_existence claim ≡ some owner
  unfolding new ProofOfExistence.get_claim
  restart_claims r rt s rt' s' claim owner h c e =
      let after = Chain-Saved r h c in
      after.agrees claim owner (rw (new-Saved r rt'.proof_of_existence s' after) at e)
