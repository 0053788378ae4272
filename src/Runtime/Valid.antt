-- ===== src/Runtime/Valid.antt =====
-- The invariant of the runtime: every map is in order and every number fits its type.
use rust_state_machine.Shared.{refl, ℕ, ◌≡◌, some, >>=-eq-some, arith, IsU32, IsU128}
use rust_state_machine.Shared.Order.{bytes_ord}
use rust_state_machine.Codec.{Codec, Always}
use rust_state_machine.Store.{KeyValueStore}
use rust_state_machine.Dispatch.{DispatchResult}
use rust_state_machine.Extrinsic.{AccountId32, account_ord}
use rust_state_machine.System
use rust_state_machine.Balances
use rust_state_machine.Balances.Calls as BalancesCalls
use rust_state_machine.ProofOfExistence
use rust_state_machine.ProofOfExistence.Calls as ProofOfExistenceCalls
use rust_state_machine.Runtime.{Runtime, Extrinsic, Content, RuntimeCall, dispatch}
use rust_state_machine.Runtime.Extrinsics.{Applied}

-- Each pallet is well-formed.
pub record IsValid (rt : Runtime) : Type 0 where
  pub system : System.Nonces.IsValid rt.system
  pub balances : Balances.Transfer.IsValid rt.balances
  pub claims : ProofOfExistence.Claims.IsValid rt.proof_of_existence

module _ {S : Type 0} ⦃kv : KeyValueStore S⦄ ⦃account_codec : Codec AccountId32 Always⦄
    ⦃content_codec : Codec Content Always⦄ ⦃u32_codec : Codec ℕ IsU32⦄
    ⦃u128_codec : Codec ℕ IsU128⦄ where
  -- A dispatch leaves the system pallet alone.
  pub dispatch-system :
      (rt : Runtime) (s : S) (caller : AccountId32) (call : RuntimeCall)
      {w : Runtime × S × DispatchResult}
      → dispatch rt s caller call ≡ some w
      → w.0.system ≡ rt.system
  unfolding dispatch
  dispatch-system rt s caller (RuntimeCall.balances call) h = ground arith
  dispatch-system rt s caller (RuntimeCall.proof_of_existence call) h = ground arith

  -- A dispatch never panics.
  pub dispatch_total :
      (rt : Runtime) (s : S) (caller : AccountId32) (call : RuntimeCall)
      → (w : Runtime × S × DispatchResult) × (dispatch rt s caller call ≡ some w)
  unfolding dispatch ProofOfExistence.dispatch
  dispatch_total rt s caller (RuntimeCall.balances call) = (_, refl)
  dispatch_total rt s caller
        (RuntimeCall.proof_of_existence (ProofOfExistenceCalls.Call.create_claim c)) =
      let t = ProofOfExistence.Claims.create_claim_lem rt.proof_of_existence s caller c c in
      ((record rt { proof_of_existence = (t.0).0 }, (t.0).1, (t.0).2), rw t.1)
  dispatch_total rt s caller
        (RuntimeCall.proof_of_existence (ProofOfExistenceCalls.Call.revoke_claim c)) =
      (_, refl)

  dispatch-IsValid :
      (rt : Runtime) (s : S) (caller : AccountId32) (call : RuntimeCall)
      {w : Runtime × S × DispatchResult}
      → IsValid rt
      → dispatch rt s caller call ≡ some w
      → IsValid w.0
  unfolding dispatch Balances.dispatch ProofOfExistence.dispatch
  dispatch-IsValid rt s caller (RuntimeCall.balances (BalancesCalls.Call.transfer to amount)) v h =
      ground (arith, Balances.Transfer.transfer-IsValid rt.balances s caller to amount v.balances)
  dispatch-IsValid rt s caller
        (RuntimeCall.proof_of_existence (ProofOfExistenceCalls.Call.create_claim c)) v h =
      let (t, made, rest) =
        >>=-eq-some (ProofOfExistence.create_claim rt.proof_of_existence s caller c)
          (λ t. some (record rt { proof_of_existence = t.0 }, t.1, t.2)) h in
      ground (
        arith,
        ProofOfExistence.Claims.create_claim-IsValid rt.proof_of_existence s caller c v.claims made,
      )
  dispatch-IsValid rt s caller
        (RuntimeCall.proof_of_existence (ProofOfExistenceCalls.Call.revoke_claim c)) v h =
      ground (
        arith,
        ProofOfExistence.Claims.revoke_claim-IsValid rt.proof_of_existence s caller c v.claims,
      )

  pub Applied-IsValid :
      (rt : Runtime) (s : S) (ext : Extrinsic) (u : Runtime × S)
      → IsValid rt
      → Applied rt s ext u
      → IsValid u.0
  Applied-IsValid rt s ext u v a =
      let counted : IsValid (record rt { system = a.counted.0 }) = record {
        system = System.Nonces.inc_nonce-IsValid rt.system s ext.signer v.system a.inc_nonce;
        balances = v.balances;
        claims = v.claims;
      } in
      rw a.after (
        dispatch-IsValid (record rt { system = a.counted.0 }) a.counted.1 ext.signer ext.call
          counted a.dispatched)
