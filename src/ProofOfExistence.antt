-- ===== src/ProofOfExistence.antt =====
-- The proof-of-existence pallet, src/proof_of_existence.rs. An `expect` that fails is a panic,
-- `none`; an error of a write to the store is only printed, so the model passes over it.
pub mod Calls
pub mod Claims
pub mod InStep
pub mod Saved
pub mod Survives
use rust_state_machine.Shared.{Option, none, some, ◌>>=◌, [], if◌then◌else◌, ok, err, ok_or}
use rust_state_machine.Shared.Order.{Ord, Bytes, same}
use rust_state_machine.Codec.{Codec, Always}
use rust_state_machine.Store.{KeyValueStore}
use rust_state_machine.Storage.{codes, load_entries, entry_key}
use rust_state_machine.Dispatch.{
  DispatchResult, already_claimed, claim_does_not_exist, caller_is_not_owner,
}
use rust_state_machine.BTreeMap as Map
use rust_state_machine.BTreeMap.{BTreeMap}
use Calls.{Call}

abbrev pub prefix_poe : Bytes
prefix_poe = codes "poe:"

-- `C` is the type of the content, `K` that of the accounts.
pub record Pallet (C K : Type 0) : Type 0 where
  pub claims : BTreeMap C K

module _ {C : Type 0} ⦃content_codec : Codec C Always⦄ where
  unfoldable pub claim_key : C → Bytes
  unfolding entry_key
  claim_key claim = entry_key prefix_poe claim

module _ {C K : Type 0} ⦃oc : Ord C⦄ where
  unfoldable pub get_claim : Pallet C K → C → Option K
  get_claim p claim = Map.get p.claims claim

module _ {C K S : Type 0} ⦃oc : Ord C⦄ ⦃content_codec : Codec C Always⦄ ⦃kc : Codec K Always⦄
    ⦃kv : KeyValueStore S⦄ where
  unfoldable pub new : S → Pallet C K
  new s = record {
    claims = load_entries {V = K} Always prefix_poe [] (kv.scan_prefix s prefix_poe);
  }

  unfoldable pub create_claim : Pallet C K → S → K → C → Option (Pallet C K × S × DispatchResult)
  create_claim p s caller claim =
      if Map.contains_key p.claims claim
      then some (p, s, err already_claimed)
      else let claims = Map.insert p.claims claim caller in
        do
          last_claim ← Map.last_key claims
          owner ← Map.get claims last_claim
          some (
            record { claims = claims },
            (kv.put s (claim_key last_claim) (kc.encode owner)).0,
            ok tt,
          )

module _ {C K S : Type 0} ⦃oc : Ord C⦄ ⦃o : Ord K⦄ ⦃content_codec : Codec C Always⦄
    ⦃kc : Codec K Always⦄ ⦃kv : KeyValueStore S⦄ where
  unfoldable pub revoke_claim : Pallet C K → S → K → C → Pallet C K × S × DispatchResult
  revoke_claim p s caller claim = elim (ok_or (Map.get p.claims claim) claim_does_not_exist) [
    | err e ↦ (p, s, err e)
    | ok owner ↦
        if same owner caller
        then (
          record { claims = Map.remove p.claims claim },
          (kv.delete s (claim_key claim)).0,
          ok tt,
        )
        else (p, s, err caller_is_not_owner)
  ]

  -- Generated by `#[macros::call]`: a match over the calls, each handed the caller first.
  unfoldable pub dispatch : Pallet C K → S → K → Call C → Option (Pallet C K × S × DispatchResult)
  dispatch p s caller (Call.create_claim claim) = create_claim p s caller claim
  dispatch p s caller (Call.revoke_claim claim) = some (revoke_claim p s caller claim)
