-- ===== src/Examples/Pallets.antt =====
-- The pallets of src/system.rs, src/balances.rs and src/proof_of_existence.rs at concrete inputs.
use rust_state_machine.Shared.{
  ◌^◌, ltb, ◌+◌, ◌≡◌, ◌≢◌, ◌⊎◌, refl, some, none, [], ◌∷◌, if◌then◌else◌, ok, err, arith,
}
use rust_state_machine.Shared.Order.{bytes_ord, same, same_iff}
use rust_state_machine.Store.Memory.{MemStore, mem_store}
use rust_state_machine.Dispatch.{
  DispatchResult, not_enough_funds, overflow, claim_does_not_exist, caller_is_not_owner,
  already_claimed,
}
use rust_state_machine.Extrinsic.{AccountId32, account_ord}
use rust_state_machine.BTreeMap as Map
use rust_state_machine.Balances
use rust_state_machine.ProofOfExistence
use rust_state_machine.Runtime.{Content}
use package.rust_state_machine.Examples.{
  account_codec, content_codec, u32_codec, u128_codec, empty_store, alice, bob,
}

pub alice_not_bob : alice ≢ bob
alice_not_bob e = ground (arith, e, (same_iff alice bob).1 e)

abbrev funds : Balances.Pallet AccountId32
funds = record { balances = (alice, 100) ∷ (bob, 50) ∷ [] }

transfer_result_example :
    let (p', s', r) = Balances.transfer funds empty_store alice bob 101 in
    (r ≡ (
      if ltb (Balances.balance funds alice) 101
      then err not_enough_funds
      else if ltb (Balances.balance funds bob + 101) (2 ^ 128)
      then ok tt
      else err overflow))
    × ((r ≡ ok tt) ⊎ ((p' ≡ funds) × (s' ≡ empty_store)))
transfer_result_example = Balances.Transfer.transfer_result funds empty_store alice bob 101

supply-transfer_to_self_example :
    Balances.Supply.supply (Balances.transfer funds empty_store alice alice 30).0
    ≡ Balances.Supply.supply funds + 30
supply-transfer_to_self_example =
    Balances.Supply.supply-transfer_to_self funds empty_store alice 30 ((refl, tt), (tt, tt))
      (unfold Balances.balance Map.get in omega arith)
      (unfold Balances.balance Map.get in omega arith)

abbrev claims : ProofOfExistence.Pallet Content AccountId32
claims = record { claims = (5 ∷ [], alice) ∷ (7 ∷ [], bob) ∷ [] }

create_claim_example :
    (q : ProofOfExistence.Pallet Content AccountId32 × MemStore × DispatchResult)
    × (ProofOfExistence.create_claim claims empty_store bob (6 ∷ []) ≡ some q)
    × (q.2 ≡ elim (ProofOfExistence.get_claim claims (6 ∷ [])) [
      | none ↦ ok tt
      | some _ ↦ err already_claimed
    ])
    × (ProofOfExistence.get_claim q.0 (5 ∷ []) ≡ elim (ProofOfExistence.get_claim claims (5 ∷ [])) [
      | none ↦ if same {K = Content} (5 ∷ []) (6 ∷ []) then some bob else none
      | some owner ↦ some owner
    ])
create_claim_example =
    ProofOfExistence.Claims.create_claim_lem claims empty_store bob (6 ∷ []) (5 ∷ [])

revoke_claim_example :
    let (p', s', r) = ProofOfExistence.revoke_claim claims empty_store alice (7 ∷ []) in
    (r ≡ elim (ProofOfExistence.get_claim claims (7 ∷ [])) [
      | none ↦ err claim_does_not_exist
      | some owner ↦ if same owner alice then ok tt else err caller_is_not_owner
    ])
    × (ProofOfExistence.get_claim p' (5 ∷ []) ≡ elim r [
      | ok _ ↦
          if same {K = Content} (5 ∷ []) (7 ∷ [])
          then none
          else ProofOfExistence.get_claim claims (5 ∷ [])
      | err _ ↦ ProofOfExistence.get_claim claims (5 ∷ [])
    ])
revoke_claim_example =
    ProofOfExistence.Claims.revoke_claim_result claims empty_store alice (7 ∷ []) (5 ∷ [])
