-- ===== src/Runtime/Supply.antt =====
-- The sum of all balances over a block.
use rust_state_machine.Shared.{
  refl, ◌≢◌, ℕ, ◌≡◌, some, >>=-eq-some, All, arith, IsU32, IsU128, ok, ◌∙◌,
}
use rust_state_machine.Shared.Order.{bytes_ord}
use rust_state_machine.Codec.{Codec, Always}
use rust_state_machine.Store.{KeyValueStore}
use rust_state_machine.Dispatch.{DispatchResult}
use rust_state_machine.Extrinsic.{AccountId32, account_ord, Ed25519, PayloadCodec, verify}
use rust_state_machine.BTreeMap as Map
use rust_state_machine.System
use rust_state_machine.Balances
use rust_state_machine.Balances.Calls as BalancesCalls
use rust_state_machine.ProofOfExistence
use rust_state_machine.Runtime.{
  Runtime, Extrinsic, RuntimeBlock, Content, RuntimeCall, dispatch, execute_block,
}
use rust_state_machine.Runtime.Extrinsics.{execute_block_inv}
use rust_state_machine.Runtime.Valid.{IsValid, Applied-IsValid}

-- The call is not a transfer of the caller to itself.
abbrev pub IsOutgoing : AccountId32 → RuntimeCall → Type 0
IsOutgoing caller (RuntimeCall.balances (BalancesCalls.Call.transfer to amount)) = caller ≢ to
IsOutgoing caller (RuntimeCall.proof_of_existence call) = Unit

abbrev pub IsOutgoingExtrinsic : Extrinsic → Type 0
IsOutgoingExtrinsic ext = IsOutgoing ext.signer ext.call

module _ {S : Type 0} ⦃kv : KeyValueStore S⦄ ⦃account_codec : Codec AccountId32 Always⦄
    ⦃content_codec : Codec Content Always⦄ ⦃u32_codec : Codec ℕ IsU32⦄
    ⦃u128_codec : Codec ℕ IsU128⦄ where
  dispatch-supply :
      (rt : Runtime) (s : S) (caller : AccountId32) (call : RuntimeCall)
      {w : Runtime × S × DispatchResult}
      → Map.Order.IsSorted rt.balances.balances
      → IsOutgoing caller call
      → dispatch rt s caller call ≡ some w
      → Balances.Supply.supply w.0.balances ≡ Balances.Supply.supply rt.balances
  unfolding dispatch Balances.dispatch
  dispatch-supply rt s caller (RuntimeCall.balances (BalancesCalls.Call.transfer to amount)) v ne
        h =
      ground (arith, Balances.Supply.supply-transfer rt.balances s caller to amount v ne)
  dispatch-supply rt s caller (RuntimeCall.proof_of_existence call) v ne h =
      let (t, e, last) =
        >>=-eq-some (ProofOfExistence.dispatch rt.proof_of_existence s caller call)
          (λ t. some (record rt { proof_of_existence = t.0 }, t.1, t.2)) h in
      ground arith

module _ {S : Type 0} ⦃kv : KeyValueStore S⦄ ⦃account_codec : Codec AccountId32 Always⦄
    ⦃content_codec : Codec Content Always⦄ ⦃u32_codec : Codec ℕ IsU32⦄ ⦃u128_codec : Codec ℕ IsU128⦄
    ⦃dalek : Ed25519⦄ ⦃payload : PayloadCodec RuntimeCall⦄ where
  -- In a valid runtime, a block in which no validly signed extrinsic pays its own signer
  -- conserves the sum of all balances, if executing it does not panic.
  pub execute_block-supply :
      (rt : Runtime) (s : S) (block : RuntimeBlock) {q : Runtime × S × DispatchResult}
      → IsValid rt
      → All (λ e. verify e ≡ ok tt → IsOutgoingExtrinsic e) block.extrinsics
      → execute_block rt s block ≡ some q
      → Balances.Supply.supply q.0.balances ≡ Balances.Supply.supply rt.balances
  execute_block-supply rt s block {q} v all h =
      let kept =
        execute_block_inv
          (λ rt' _.
            IsValid rt'
            × (Balances.Supply.supply rt'.balances ≡ Balances.Supply.supply rt.balances))
          IsOutgoingExtrinsic rt s block
          (λ t e. (
            record {
              system = System.Nonces.inc_block_number-IsValid rt.system s v.system e;
              balances = v.balances;
              claims = v.claims;
            },
            refl,
          ))
          (λ rt' s' ext u outgoing p x. (
            Applied-IsValid rt' s' ext u p.0 x,
            rw x.after (
                dispatch-supply (record rt' { system = x.counted.0 }) x.counted.1 ext.signer
                  ext.call p.0.balances.sorted outgoing x.dispatched
                ∙ p.1),
          ))
          all h in
      kept.1
