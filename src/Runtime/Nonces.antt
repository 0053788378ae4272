-- ===== src/Runtime/Nonces.antt =====
-- Nonces over an extrinsic, a block and a chain of blocks (macros/src/runtime/expand.rs).
use rust_state_machine.Shared.{
  All-of, refl, ◌≢◌, if◌then◌else◌, ℕ, ◌+◌, ◌≤◌, ◌≡◌, some, arith, IsU32, IsU128, ok, err,
}
use rust_state_machine.Shared.Order.{same, same_iff, bytes_ord}
use rust_state_machine.Codec.{Codec, Always}
use rust_state_machine.Store.{KeyValueStore}
use rust_state_machine.Dispatch.{DispatchResult}
use rust_state_machine.Extrinsic.{AccountId32, account_ord, Ed25519, PayloadCodec}
use rust_state_machine.System
use rust_state_machine.Runtime.{
  Runtime, Extrinsic, RuntimeBlock, Content, RuntimeCall, apply_extrinsic, execute_block,
}
use rust_state_machine.Runtime.Extrinsics.{Applied, apply_extrinsic_in_turn, execute_block_inv}
use rust_state_machine.Runtime.Valid.{dispatch-system}

module _ {S : Type 0} ⦃kv : KeyValueStore S⦄ ⦃account_codec : Codec AccountId32 Always⦄
    ⦃content_codec : Codec Content Always⦄ ⦃u32_codec : Codec ℕ IsU32⦄
    ⦃u128_codec : Codec ℕ IsU128⦄ where
  -- Applying an extrinsic raises one nonce by one.
  pub Applied-nonce :
      (rt : Runtime) (s : S) (ext : Extrinsic) (u : Runtime × S) (a : AccountId32)
      → Applied rt s ext u
      → System.nonce u.0.system a
        ≡ (if same a ext.signer then ext.nonce + 1 else System.nonce rt.system a)
  Applied-nonce rt s ext u a h = ground (
    arith,
    h.after,
    h.in_turn,
    dispatch-system (record rt { system = h.counted.0 }) h.counted.1 ext.signer ext.call
        h.dispatched,
    System.Nonces.inc_nonce-eq-some rt.system s ext.signer a h.inc_nonce,
  )

  -- An extrinsic whose nonce is not that of its signer is skipped.
  apply_extrinsic_stale :
      (rt : Runtime) (s : S) (ext : Extrinsic) (r : DispatchResult)
      → System.nonce rt.system ext.signer ≢ ext.nonce
      → apply_extrinsic rt s (ext, r) ≡ some (rt, s)
  unfolding apply_extrinsic
  apply_extrinsic_stale rt s ext (ok x) h = ground arith
  apply_extrinsic_stale rt s ext (err e) h = refl

module _ {S : Type 0} ⦃kv : KeyValueStore S⦄ ⦃account_codec : Codec AccountId32 Always⦄
    ⦃content_codec : Codec Content Always⦄ ⦃u32_codec : Codec ℕ IsU32⦄ ⦃u128_codec : Codec ℕ IsU128⦄
    ⦃dalek : Ed25519⦄ ⦃payload : PayloadCodec RuntimeCall⦄ where
  -- A block lowers no nonce.
  execute_block_nonce_grows :
      (rt : Runtime) (s : S) (block : RuntimeBlock) (a : AccountId32)
      {q : Runtime × S × DispatchResult}
      → execute_block rt s block ≡ some q
      → System.nonce rt.system a ≤ System.nonce q.0.system a
  execute_block_nonce_grows rt s block a h =
      execute_block_inv (λ rt' _. System.nonce rt.system a ≤ System.nonce rt'.system a)
        (λ _. Unit {0}) rt s block
        (λ t e.
          unfold System.nonce in
          ground (arith, System.Nonces.inc_block_number-eq-some rt.system s e))
        (λ rt' s' ext u _ p x.
          ground (arith, p, Applied-nonce rt' s' ext u a x, x.in_turn, same_iff a ext.signer))
        (All-of (λ _ _. tt) block.extrinsics) h

  -- A chain: blocks executed one after another, whatever each answers.
  pub data Chain (rt : Runtime) (s : S) : Runtime → S → Type 0 where
    here : Chain rt s rt s
    next :
        {rt' : Runtime} {s' : S} {q : Runtime × S × DispatchResult}
        → Chain rt s rt' s'
        → (block : RuntimeBlock) → execute_block rt' s' block ≡ some q
        → Chain rt s q.0 q.1

  Chain-nonce_grows :
      {rt : Runtime} {s : S} {rt' : Runtime} {s' : S} (a : AccountId32)
      → Chain rt s rt' s'
      → System.nonce rt.system a ≤ System.nonce rt'.system a
  Chain-nonce_grows a here = omega arith
  Chain-nonce_grows a (next c block e) =
      omega (arith, Chain-nonce_grows a c, execute_block_nonce_grows _ _ block a e)

  -- Once an extrinsic with a good signature and the nonce of its signer went through without a panic,
  -- it is skipped and changes nothing, whatever the check of its signature says, however many blocks
  -- are executed in between.
  pub replay_skipped :
      (rt : Runtime) (s : S) (ext : Extrinsic) (u : Runtime × S) {rt' : Runtime} {s' : S}
      (r : DispatchResult)
      → System.nonce rt.system ext.signer ≡ ext.nonce
      → apply_extrinsic rt s (ext, ok tt) ≡ some u
      → Chain u.0 u.1 rt' s'
      → apply_extrinsic rt' s' (ext, r) ≡ some (rt', s')
  replay_skipped rt s ext u {rt'} {s'} r turn a c = apply_extrinsic_stale rt' s' ext r (λ e.
      ground (
        arith,
        e,
        Applied-nonce rt s ext u ext.signer (apply_extrinsic_in_turn rt s ext turn a),
        same_iff ext.signer ext.signer,
        Chain-nonce_grows ext.signer c,
      ))
