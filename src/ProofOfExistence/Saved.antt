-- ===== src/ProofOfExistence/Saved.antt =====
-- What the store holds of the claims (src/proof_of_existence.rs), where it may hold less than memory.
use rust_state_machine.Shared.{◌≡◌, some, arith, inl, inr, true, Bool-cases}
use rust_state_machine.Shared.Order.{Ord, Bytes, bytes_ord, same, same_iff, starts_with}
use rust_state_machine.Codec.{Codec, Always}
use rust_state_machine.Store.{KeyValueStore, IsReliable}
use rust_state_machine.Storage.Reload.{
  IsStored, IsStored-frame, reload, put-IsStored, delete-IsStored,
}
use rust_state_machine.Dispatch.{DispatchResult}
use rust_state_machine.BTreeMap as Map
use rust_state_machine.BTreeMap.{BTreeMap}
use rust_state_machine.BTreeMap.Order.{IsSorted, insert-IsSorted, remove-IsSorted}
use rust_state_machine.ProofOfExistence.{
  Pallet, get_claim, new, claim_key, create_claim, revoke_claim, prefix_poe, dispatch,
}
use rust_state_machine.ProofOfExistence.Calls.{Call}
use rust_state_machine.ProofOfExistence.Claims.{create_claim-done, create_claim-eq-some}

module _ {C K S : Type 0} ⦃oc : Ord C⦄ ⦃content_codec : Codec C Always⦄ ⦃kc : Codec K Always⦄
    ⦃kv : KeyValueStore S⦄ where
  -- The entries of the store are those of an ordered map, each of which the pallet has too.
  pub record Saved (p : Pallet C K) (s : S) : Type 0 where
    pub kept : BTreeMap C K
    pub sorted : IsSorted kept
    pub stored : IsStored {V = K} Always prefix_poe kept s
    pub agrees : (c : C) (owner : K) → Map.get kept c ≡ some owner → Map.get p.claims c ≡ some owner

  pub new-Saved :
      IsReliable kv → (p : Pallet C K) (s : S) (h : Saved p s) → new s ≡ record { claims = h.kept }
  unfolding new
  new-Saved r p s h = ground (arith, reload {V = K} Always r prefix_poe h.kept s h.sorted h.stored)

  pub Saved-frame :
      (p : Pallet C K) (s s' : S)
      → ((j : Bytes) → starts_with j prefix_poe ≡ true → kv.get s' j ≡ kv.get s j)
      → Saved p s
      → Saved p s'
  Saved-frame p s s' f h = record {
    kept = h.kept;
    sorted = h.sorted;
    stored = IsStored-frame {V = K} Always prefix_poe h.kept s s' f h.stored;
    agrees = h.agrees;
  }

  pub create_claim-Saved :
      IsReliable kv
      → (p : Pallet C K) (s : S) (caller : K) (claim : C) {q : Pallet C K × S × DispatchResult}
      → Saved p s
      → create_claim p s caller claim ≡ some q
      → Saved q.0 q.1
  create_claim-Saved r p s caller claim {q} h e = elim (create_claim-eq-some p s caller claim e) [
    | inr same_pallet ↦ rw same_pallet h
    | inl went ↦
        let (last, owner, el, eg, made, free) = create_claim-done p s caller claim e went.2 in
        rw made (record {
          kept = Map.insert h.kept last owner;
          sorted = insert-IsSorted h.kept last owner h.sorted;
          stored =
              unfold claim_key in
              put-IsStored {V = K} Always r prefix_poe h.kept s last owner tt h.stored;
          agrees = λ c who g. elim (Bool-cases (same c last)) [
            | inl here ↦ ground (arith, Map.get-insert h.kept last c owner, same_iff c last)
            | inr other ↦
                let old : Map.get p.claims c ≡ some who =
                  h.agrees c who (ground (arith, Map.get-insert h.kept last c owner)) in
                unfold get_claim in
                ground (arith, Map.get-insert p.claims claim c caller, same_iff c claim)
          ];
        })
  ]

module _ {C K S : Type 0} ⦃oc : Ord C⦄ ⦃o : Ord K⦄ ⦃content_codec : Codec C Always⦄
    ⦃kc : Codec K Always⦄ ⦃kv : KeyValueStore S⦄ where
  revoke_claim-Saved :
      IsReliable kv
      → (p : Pallet C K) (s : S) (caller : K) (claim : C) → Saved p s
      → Saved (revoke_claim p s caller claim).0 (revoke_claim p s caller claim).1
  unfolding revoke_claim claim_key
  revoke_claim-Saved r p s caller claim h =
      let gone : Saved (record { claims = Map.remove p.claims claim })
          (kv.delete s (claim_key claim)).0 =
        record {
          kept = Map.remove h.kept claim;
          sorted = remove-IsSorted h.kept claim h.sorted;
          stored = delete-IsStored {V = K} Always r prefix_poe h.kept s claim h.stored;
          agrees = λ c who g. ground (
            arith,
            Map.get-remove h.kept claim c,
            Map.get-remove p.claims claim c,
            h.agrees c who,
          );
        } in
      ground (arith, gone)

  pub dispatch-Saved :
      IsReliable kv
      → (p : Pallet C K) (s : S) (caller : K) (call : Call C) {q : Pallet C K × S × DispatchResult}
      → Saved p s
      → dispatch p s caller call ≡ some q
      → Saved q.0 q.1
  unfolding dispatch
  dispatch-Saved r p s caller (Call.create_claim claim) h e =
      create_claim-Saved r p s caller claim h e
  dispatch-Saved r p s caller (Call.revoke_claim claim) h e =
      ground (arith, revoke_claim-Saved r p s caller claim h)
