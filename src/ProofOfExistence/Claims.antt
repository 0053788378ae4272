-- ===== src/ProofOfExistence/Claims.antt =====
-- `create_claim` and `revoke_claim` of src/proof_of_existence.rs, branch by branch.
use rust_state_machine.Shared.{
  Bool-cases, ◌⊎◌, false, ◌≡◌, some, none, arith, ok, err, if◌then◌else◌, Option-cases, inl, inr,
}
use rust_state_machine.Shared.Order.{Ord, same, same_iff}
use rust_state_machine.Codec.{Codec, Always}
use rust_state_machine.Store.{KeyValueStore}
use rust_state_machine.Dispatch.{
  DispatchResult, already_claimed, claim_does_not_exist, caller_is_not_owner,
}
use rust_state_machine.BTreeMap as Map
use rust_state_machine.BTreeMap.Order.{IsSorted, insert-IsSorted, remove-IsSorted, remove-insert}
use rust_state_machine.BTreeMap.Last.{get-last_key, last_key-insert-ne_none}
use rust_state_machine.ProofOfExistence.{Pallet, get_claim, claim_key, create_claim, revoke_claim}

module _ {C K : Type 0} ⦃oc : Ord C⦄ where
  abbrev pub IsValid : Pallet C K → Type 0
  IsValid p = IsSorted p.claims

module _ {C K S : Type 0} ⦃oc : Ord C⦄ ⦃content_codec : Codec C Always⦄ ⦃kc : Codec K Always⦄
    ⦃kv : KeyValueStore S⦄ where
  -- The first claim of a content goes through, with no panic.
  create_claim_first :
      (p : Pallet C K) (s : S) (caller : K) (claim : C)
      → get_claim p claim ≡ none
      → (last : C) × (owner : K) × (Map.last_key (Map.insert p.claims claim caller) ≡ some last)
        × (Map.get (Map.insert p.claims claim caller) last ≡ some owner)
        × (create_claim p s caller claim
            ≡ some (
              record { claims = Map.insert p.claims claim caller },
              (kv.put s (claim_key last) (kc.encode owner)).0,
              ok tt,
            ))
  unfolding create_claim get_claim
  create_claim_first p s caller claim h =
      let m = Map.insert p.claims claim caller in
      elim (Option-cases (Map.last_key m)) [
        | inl n ↦ absurd (last_key-insert-ne_none p.claims claim caller n)
        | inr (last, e) ↦ elim (Option-cases (Map.get m last)) [
          | inl n ↦ absurd (get-last_key m last e n)
          | inr (owner, g) ↦ (last, owner, e, g, ground arith)
        ]
      ]

  -- A content that is claimed stays with its owner, and a new claim is the caller's. There is no
  -- panic.
  pub create_claim_lem :
      (p : Pallet C K) (s : S) (caller : K) (claim c : C)
      → (q : Pallet C K × S × DispatchResult) × (create_claim p s caller claim ≡ some q)
        × (q.2 ≡ elim (get_claim p claim) [ none ↦ ok tt | some _ ↦ err already_claimed ])
        × (get_claim q.0 c ≡ elim (get_claim p c) [
          | none ↦ if same c claim then some caller else none
          | some owner ↦ some owner
        ])
  create_claim_lem p s caller claim c = elim (Option-cases (get_claim p claim)) [
    | inl free ↦
        let (last, owner, e, g, made) = create_claim_first p s caller claim free in
        (
          (
            record { claims = Map.insert p.claims claim caller },
            (kv.put s (claim_key last) (kc.encode owner)).0,
            ok tt,
          ),
          made,
          rw free,
          unfold get_claim in
              ground (arith, Map.get-insert p.claims claim c caller, same_iff c claim),
        )
    | inr (owner, taken) ↦ (
      (p, s, err already_claimed),
      unfold create_claim get_claim in ground arith,
      rw taken,
      unfold get_claim in ground (arith, same_iff c claim),
    )
  ]

  pub create_claim-eq-some :
      (p : Pallet C K) (s : S) (caller : K) (claim : C) {q : Pallet C K × S × DispatchResult}
      → create_claim p s caller claim ≡ some q
      → ((get_claim p claim ≡ none)
          × (q.0 ≡ record { claims = Map.insert p.claims claim caller })
          × (q.2 ≡ ok tt))
        ⊎ (q ≡ (p, s, err already_claimed))
  create_claim-eq-some p s caller claim h = elim (Option-cases (get_claim p claim)) [
    | inl free ↦ let made = (create_claim_first p s caller claim free).4 in inl (free, cc, cc)
    | inr (owner, taken) ↦ inr (unfold create_claim get_claim in ground arith)
  ]

  -- What a call that went through has done.
  pub create_claim-done :
      (p : Pallet C K) (s : S) (caller : K) (claim : C) {q : Pallet C K × S × DispatchResult}
      → create_claim p s caller claim ≡ some q
      → q.2 ≡ ok tt
      → (last : C) × (owner : K) × (Map.last_key (Map.insert p.claims claim caller) ≡ some last)
        × (Map.get (Map.insert p.claims claim caller) last ≡ some owner)
        × (q ≡ (
          record { claims = Map.insert p.claims claim caller },
          (kv.put s (claim_key last) (kc.encode owner)).0,
          ok tt,
        ))
        × (get_claim p claim ≡ none)
  create_claim-done p s caller claim {q} h e =
      let free : get_claim p claim ≡ none =
        ground (arith, create_claim-eq-some p s caller claim h) in
      let (last, owner, el, eg, made) = create_claim_first p s caller claim free in
      (last, owner, el, eg, cc, free)

  pub create_claim-IsValid :
      (p : Pallet C K) (s : S) (caller : K) (claim : C) {q : Pallet C K × S × DispatchResult}
      → IsValid p
      → create_claim p s caller claim ≡ some q
      → IsValid q.0
  create_claim-IsValid p s caller claim v h =
      ground
        (arith, create_claim-eq-some p s caller claim h, insert-IsSorted p.claims claim caller v)

module _ {C K S : Type 0} ⦃oc : Ord C⦄ ⦃o : Ord K⦄ ⦃content_codec : Codec C Always⦄
    ⦃kc : Codec K Always⦄ ⦃kv : KeyValueStore S⦄ where
  -- Only the owner revokes a claim: for anybody else, and for a content that is not claimed, the
  -- call fails and changes nothing.
  revoke_claim_lem :
      (p : Pallet C K) (s : S) (caller : K) (claim c : C)
      → let (p', s', r) = revoke_claim p s caller claim in
        (get_claim p claim ≡ some caller
          → (r ≡ ok tt) × (get_claim p' c ≡ (if same c claim then none else get_claim p c)))
        × (get_claim p claim ≡ none
            → revoke_claim p s caller claim ≡ (p, s, err claim_does_not_exist))
        × ((owner : K)
            → get_claim p claim ≡ some owner
            → same owner caller ≡ false
            → revoke_claim p s caller claim ≡ (p, s, err caller_is_not_owner))
  unfolding revoke_claim get_claim
  revoke_claim_lem p s caller claim c = (
    λ h. ground (arith, Map.get-remove p.claims claim c, same_iff caller caller),
    λ h. ground arith,
    λ owner h g. ground arith,
  )

  -- Revoking succeeds exactly for the owner of a claim, and then it is the only claim that goes; a
  -- call for a content that is not claimed, or of anybody else, fails and changes no claim.
  pub revoke_claim_result :
      (p : Pallet C K) (s : S) (caller : K) (claim c : C)
      → let (p', s', r) = revoke_claim p s caller claim in
        (r ≡ elim (get_claim p claim) [
          | none ↦ err claim_does_not_exist
          | some owner ↦ if same owner caller then ok tt else err caller_is_not_owner
        ])
        × (get_claim p' c ≡ elim r [
          | ok _ ↦ if same c claim then none else get_claim p c
          | err _ ↦ get_claim p c
        ])
  unfolding revoke_claim get_claim
  revoke_claim_result p s caller claim c = elim (Option-cases (Map.get p.claims claim)) [
    | inl e ↦ (ground arith, ground arith)
    | inr (o', e) ↦ elim (Bool-cases (same o' caller)) [
      | inl y ↦ (ground arith, ground (arith, Map.get-remove p.claims claim c))
      | inr n ↦ (ground arith, ground arith)
    ]
  ]

  -- A call that is not the owner's own revocation of a content leaves that claim with the owner.
  pub revoke_claim_keeps :
      (p : Pallet C K) (s : S) (caller owner : K) (claim c : C)
      → get_claim p c ≡ some owner
      → ¬ ((caller ≡ owner) × (claim ≡ c))
      → get_claim (revoke_claim p s caller claim).0 c ≡ some owner
  unfolding revoke_claim get_claim
  revoke_claim_keeps p s caller owner claim c g n = elim (Option-cases (Map.get p.claims claim)) [
    | inl e ↦ ground arith
    | inr (o', e) ↦
        ground (arith, Map.get-remove p.claims claim c, same_iff c claim, same_iff o' caller)
  ]

  -- Revoking a claim that was just made leaves the claims as they were.
  revoke_claim-create_claim :
      (p : Pallet C K) (s : S) (caller : K) (claim : C) {q : Pallet C K × S × DispatchResult}
      → IsValid p
      → create_claim p s caller claim ≡ some q
      → q.2 ≡ ok tt
      → ((revoke_claim q.0 q.1 caller claim).0 ≡ p)
        × ((revoke_claim q.0 q.1 caller claim).2 ≡ ok tt)
  revoke_claim-create_claim p s caller claim {q} v h e =
      let made = create_claim-eq-some p s caller claim h in
      unfold revoke_claim get_claim in
      ground (
        arith,
        made,
        remove-insert p.claims claim caller v,
        Map.get-insert p.claims claim claim caller,
        same_iff claim claim,
        same_iff caller caller,
      )

  pub revoke_claim-IsValid :
      (p : Pallet C K) (s : S) (caller : K) (claim : C)
      → IsValid p
      → IsValid (revoke_claim p s caller claim).0
  unfolding revoke_claim
  revoke_claim-IsValid p s caller claim v = ground (arith, remove-IsSorted p.claims claim v)
