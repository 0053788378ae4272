-- ===== src/ProofOfExistence/InStep.antt =====
-- The store of the proof-of-existence pallet (src/proof_of_existence.rs) against its memory.
use Prim.Native.Nat.Ordering.{lt}
use rust_state_machine.Shared.{◌≡◌, some, none, ok, arith, false, All, inl, inr}
use rust_state_machine.Shared.Order.{Ord, Bytes, bytes_ord, same_iff, starts_with}
use rust_state_machine.Codec.{Codec, Always}
use rust_state_machine.Store.{KeyValueStore, IsReliable}
use rust_state_machine.Storage.{entry_key}
use rust_state_machine.Storage.Reload.{
  IsStored, IsStored-frame, reload, put-IsStored, delete-IsStored, get-put_elsewhere,
  get-delete_elsewhere,
}
use rust_state_machine.Dispatch.{DispatchResult}
use rust_state_machine.BTreeMap as Map
use rust_state_machine.BTreeMap.Last.{last_key-insert_above, last_key-insert_below}
use rust_state_machine.ProofOfExistence.{
  Pallet, get_claim, new, claim_key, create_claim, revoke_claim, prefix_poe, dispatch,
}
use rust_state_machine.ProofOfExistence.Calls.{Call}
use rust_state_machine.ProofOfExistence.Claims.{IsValid, create_claim-done, create_claim-eq-some}

module _ {C K S : Type 0} ⦃oc : Ord C⦄ ⦃content_codec : Codec C Always⦄ ⦃kc : Codec K Always⦄
    ⦃kv : KeyValueStore S⦄ where
  abbrev pub InStep : Pallet C K → S → Type 0
  InStep p s = IsStored {V = K} Always prefix_poe p.claims s

  -- A restart reads back the pallet that was running.
  pub new-InStep : IsReliable kv → (p : Pallet C K) (s : S) → IsValid p → InStep p s → new s ≡ p
  unfolding new
  new-InStep r p s v h = ground (arith, reload {V = K} Always r prefix_poe p.claims s v h)

  -- A claim above all other contents is written, and the store stays in step.
  pub create_claim_above :
      IsReliable kv
      → (p : Pallet C K) (s : S) (caller : K) (claim : C) {q : Pallet C K × S × DispatchResult}
      → All (λ e. oc.cmp e.0 claim ≡ lt) p.claims
      → InStep p s
      → create_claim p s caller claim ≡ some q
      → q.2 ≡ ok tt
      → InStep q.0 q.1
  create_claim_above r p s caller claim {q} above h e done =
      let (last, owner, el, eg, made, free) = create_claim-done p s caller claim e done in
      let newest : last ≡ claim = cc (last_key-insert_above p.claims claim caller above) in
      let its : owner ≡ caller =
        ground (arith, Map.get-insert p.claims claim claim caller, same_iff claim claim) in
      rw (made, newest, its)
        (unfold claim_key in put-IsStored {V = K} Always r prefix_poe p.claims s claim caller tt h)

  -- On a reliable store in step with an ordered map of claims: a claim that goes through for a
  -- content below the greatest one claimed is in memory, but a restart brings the pallet before
  -- it back, where the content is not claimed.
  pub create_claim_lost :
      IsReliable kv
      → (p : Pallet C K) (s : S) (caller : K) (claim : C) (top : C)
        {q : Pallet C K × S × DispatchResult}
      → IsValid p
      → InStep p s
      → Map.last_key p.claims ≡ some top
      → oc.cmp claim top ≡ lt
      → create_claim p s caller claim ≡ some q
      → q.2 ≡ ok tt
      → (get_claim q.0 claim ≡ some caller)
        × (new q.1 ≡ p)
        × (get_claim (new {K = K} q.1) claim ≡ none)
  create_claim_lost r p s caller claim top {q} v h last below e done =
      let (written, owner, el, eg, made, free) = create_claim-done p s caller claim e done in
      let old : written ≡ top = cc (last_key-insert_below p.claims claim caller last below) in
      let its : Map.get p.claims top ≡ some owner =
        ground (arith, Map.get-insert p.claims claim top caller, oc.cmp-reversed claim top) in
      let same_store : (j : Bytes) → kv.get q.1 j ≡ kv.get s j = λ j.
        rw (made, old)
          (unfold claim_key in
            ground (
              arith,
              r.get-put s (entry_key prefix_poe top) (kc.encode owner) j,
              same_iff j (entry_key prefix_poe top),
              h.covers top owner its,
            )) in
      let back =
        new-InStep r p q.1 v
          (IsStored-frame {V = K} Always prefix_poe p.claims s q.1 (λ j _. same_store j) h) in
      (
        rw made (
            unfold get_claim in
            ground (arith, Map.get-insert p.claims claim claim caller, same_iff claim claim)),
        back,
        rw back free,
      )

  -- What `create_claim` writes stands under the prefix of the pallet.
  create_claim_elsewhere :
      IsReliable kv
      → (p : Pallet C K) (s : S) (caller : K) (claim : C) {q : Pallet C K × S × DispatchResult}
        (j : Bytes)
      → create_claim p s caller claim ≡ some q
      → starts_with j prefix_poe ≡ false
      → kv.get q.1 j ≡ kv.get s j
  create_claim_elsewhere r p s caller claim {q} j e h =
      elim (create_claim-eq-some p s caller claim e) [
        | inl went ↦
            let t = create_claim-done p s caller claim e went.2 in
            rw (t.4) (
              unfold claim_key in
              get-put_elsewhere r prefix_poe s (entry_key prefix_poe t.0) (kc.encode t.1) j
                (unfold entry_key in rw h))
        | inr same_pallet ↦ rw same_pallet
      ]

module _ {C K S : Type 0} ⦃oc : Ord C⦄ ⦃o : Ord K⦄ ⦃content_codec : Codec C Always⦄
    ⦃kc : Codec K Always⦄ ⦃kv : KeyValueStore S⦄ where
  -- Revoking, whether it goes through or fails, keeps the store in step.
  revoke_claim-InStep :
      IsReliable kv
      → (p : Pallet C K) (s : S) (caller : K) (claim : C) → InStep p s
      → InStep (revoke_claim p s caller claim).0 (revoke_claim p s caller claim).1
  unfolding revoke_claim claim_key
  revoke_claim-InStep r p s caller claim h =
      ground (arith, delete-IsStored {V = K} Always r prefix_poe p.claims s claim h)

  revoke_claim_elsewhere :
      IsReliable kv
      → (p : Pallet C K) (s : S) (caller : K) (claim : C) (j : Bytes)
      → starts_with j prefix_poe ≡ false
      → kv.get (revoke_claim p s caller claim).1 j ≡ kv.get s j
  unfolding revoke_claim claim_key
  revoke_claim_elsewhere r p s caller claim j h = ground (
    arith,
    get-delete_elsewhere r prefix_poe s (entry_key prefix_poe claim) j (unfold entry_key in rw h),
  )

  -- What any call of the pallet writes stands under its prefix.
  pub dispatch_elsewhere :
      IsReliable kv
      → (p : Pallet C K) (s : S) (caller : K) (call : Call C) {q : Pallet C K × S × DispatchResult}
        (j : Bytes)
      → dispatch p s caller call ≡ some q
      → starts_with j prefix_poe ≡ false
      → kv.get q.1 j ≡ kv.get s j
  unfolding dispatch
  dispatch_elsewhere r p s caller (Call.create_claim claim) j e h =
      create_claim_elsewhere r p s caller claim j e h
  dispatch_elsewhere r p s caller (Call.revoke_claim claim) j e h =
      ground (arith, revoke_claim_elsewhere r p s caller claim j h)
