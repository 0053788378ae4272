-- ===== src/ProofOfExistence/Survives.antt =====
-- Which claims of src/proof_of_existence.rs outlive a restart: those that were above all others when
-- they were made.
use Prim.Native.Nat.Ordering.{lt}
use rust_state_machine.Shared.{
  ◌≡◌, ◌≢◌, ap, ap₂, sym, ◌∙◌, refl, Option, some, ◌>>=◌, some_injective, ok, arith, false, All,
  inl, inr, List, [], ◌∷◌, Bool-cases,
}
use rust_state_machine.Shared.Order.{Ord, bytes_ord, same, same_iff}
use rust_state_machine.Codec.{Codec, Always}
use rust_state_machine.Store.{KeyValueStore, IsReliable}
use rust_state_machine.Storage.{entry_key}
use rust_state_machine.Storage.Load.{same-entry_key, entry_key-starts_with}
use rust_state_machine.Dispatch.{DispatchResult}
use rust_state_machine.BTreeMap as Map
use rust_state_machine.BTreeMap.Last.{last_key-insert_above}
use rust_state_machine.ProofOfExistence.{
  Pallet, get_claim, new, claim_key, create_claim, revoke_claim, prefix_poe, dispatch,
}
use rust_state_machine.ProofOfExistence.Calls.{Call}
use rust_state_machine.ProofOfExistence.Claims.{
  create_claim_lem, create_claim-done, create_claim-eq-some,
}
use rust_state_machine.ProofOfExistence.Saved.{Saved, new-Saved, create_claim-Saved, dispatch-Saved}

-- A call that is not the owner's own revocation of a claim.
abbrev pub Spares : {C K : Type 0} → K → C → K × Call C → Type 0
Spares who c x = x ≢ (who, Call.revoke_claim c)

module _ {C K S : Type 0} ⦃oc : Ord C⦄ ⦃o : Ord K⦄ ⦃content_codec : Codec C Always⦄
    ⦃kc : Codec K Always⦄ ⦃kv : KeyValueStore S⦄ where
  -- Calls in turn, each with its caller.
  abbrev pub dispatch_each : Pallet C K → S → List (K × Call C) → Option (Pallet C K × S)
  dispatch_each p s [] = some (p, s)
  dispatch_each p s ((caller, call) ∷ calls) =
      dispatch p s caller call >>= λ q. dispatch_each q.0 q.1 calls

  -- A claim that stands in memory and in the store.
  abbrev Written : C → K → Pallet C K → S → Type 0
  Written c who p s = (get_claim p c ≡ some who) × (kv.get s (claim_key c) ≡ some (kc.encode who))

  create_claim-Written :
      IsReliable kv
      → (p : Pallet C K) (s : S) (caller : K) (claim c : C) (who : K)
        {q : Pallet C K × S × DispatchResult}
      → Written c who p s
      → create_claim p s caller claim ≡ some q
      → Written c who q.0 q.1
  create_claim-Written r p s caller claim c who {q} (held, stored) e =
      elim (create_claim-eq-some p s caller claim e) [
        | inr same_pallet ↦ rw same_pallet (held, stored)
        | inl went ↦
            let (last, owner, el, eg, made, free) = create_claim-done p s caller claim e went.2 in
            let memory : get_claim (record { claims = Map.insert p.claims claim caller }) c
                ≡ some who =
              unfold get_claim in
              ground
                (arith, Map.get-insert p.claims claim c caller, same_iff c claim, held, free) in
            let here : (c ≡ last) → owner ≡ who = λ at. some_injective (
              sym eg
              ∙ ap (Map.get (Map.insert p.claims claim caller)) (sym at)
              ∙ unfold get_claim in memory) in
            rw made (
              memory,
              unfold claim_key in
                  ground (
                    arith,
                    r.get-put s (entry_key prefix_poe last) (kc.encode owner)
                        (entry_key prefix_poe c),
                    same-entry_key prefix_poe c last,
                    same_iff c last,
                    here,
                    stored,
                  ),
            )
      ]

  revoke_claim-Written :
      IsReliable kv
      → (p : Pallet C K) (s : S) (caller : K) (claim c : C) (who : K) → Written c who p s
      → ¬ ((caller ≡ who) × (claim ≡ c))
      → Written c who (revoke_claim p s caller claim).0 (revoke_claim p s caller claim).1
  unfolding revoke_claim claim_key get_claim
  revoke_claim-Written r p s caller claim c who (held, stored) other =
      elim (Bool-cases (same c claim)) [
        | inr differs ↦ ground (
          arith,
          Map.get-remove p.claims claim c,
          r.get-delete s (entry_key prefix_poe claim) (entry_key prefix_poe c),
          same-entry_key prefix_poe c claim,
          differs,
          held,
          stored,
        )
        | inl at ↦
            let owned : Map.get p.claims claim ≡ some who =
              ap (Map.get p.claims) (sym ((same_iff c claim).0 at)) ∙ held in
            let stranger : same who caller ≡ false = elim (Bool-cases (same who caller)) [
              | inl own ↦
                  absurd (other (sym ((same_iff who caller).0 own), sym ((same_iff c claim).0 at)))
              | inr another ↦ another
            ] in
            ground (arith, owned, stranger, held, stored)
      ]

  Written-new :
      IsReliable kv
      → (p : Pallet C K) (s : S) (c : C) (who : K) → Saved p s
      → Written c who p s
      → get_claim (new s) c ≡ some who
  unfolding get_claim claim_key
  Written-new r p s c who h (held, stored) =
      let (k, v, key, value, fits, found) =
        h.stored.exact (entry_key prefix_poe c) (kc.encode who) stored
          (entry_key-starts_with prefix_poe c) in
      let at : c ≡ k = (same_iff c k).0 (
        sym (same-entry_key prefix_poe c k)
        ∙ (same_iff (entry_key prefix_poe c) (entry_key prefix_poe k)).1 key) in
      rw (new-Saved r p s h) (ground (arith, at, found, h.agrees k v found, held))

  dispatch-Written :
      IsReliable kv
      → (p : Pallet C K) (s : S) (caller : K) (call : Call C) (c : C) (who : K) → Saved p s
      → Written c who p s
      → Spares who c (caller, call)
      → (q : Pallet C K × S × DispatchResult) × (dispatch p s caller call ≡ some q)
        × Saved q.0 q.1
        × Written c who q.0 q.1
  unfolding dispatch
  dispatch-Written r p s caller (Call.create_claim claim) c who h w other =
      let (q, run, result, found) = create_claim_lem p s caller claim c in
      (
        q,
        run,
        create_claim-Saved r p s caller claim h run,
        create_claim-Written r p s caller claim c who w run,
      )
  dispatch-Written r p s caller (Call.revoke_claim claim) c who h w other = (
    revoke_claim p s caller claim,
    refl,
    dispatch-Saved r p s caller (Call.revoke_claim claim) h refl,
    revoke_claim-Written r p s caller claim c who w
        (λ e. other (ap₂ (λ a b. (a, Call.revoke_claim b)) e.0 e.1)),
  )

  calls-Written :
      IsReliable kv
      → (p : Pallet C K) (s : S) (calls : List (K × Call C)) (c : C) (who : K) → Saved p s
      → Written c who p s
      → All (Spares who c) calls
      → (t : Pallet C K × S) × (dispatch_each p s calls ≡ some t)
        × Saved t.0 t.1
        × Written c who t.0 t.1
  calls-Written r p s [] c who h w others = ((p, s), refl, h, w)
  calls-Written r p s ((caller, call) ∷ calls) c who h w (other, others) =
      let (q, run, h₁, w₁) = dispatch-Written r p s caller call c who h w other in
      let (t, rest, h', w') = calls-Written r q.0 q.1 calls c who h₁ w₁ others in
      (t, rw run rest, h', w')

  -- On a reliable store whose claims all stand in memory: a claim that goes through for a content above
  -- all others that are claimed is found by a restart, with its owner, after any further calls of anybody
  -- but its owner's own revocation. None of these calls panics.
  pub claim_above_survives :
      IsReliable kv
      → (p : Pallet C K) (s : S) (caller : K) (claim : C) (calls : List (K × Call C))
        {q : Pallet C K × S × DispatchResult}
      → Saved p s
      → All (λ e. oc.cmp e.0 claim ≡ lt) p.claims
      → create_claim p s caller claim ≡ some q
      → q.2 ≡ ok tt
      → All (Spares caller claim) calls
      → (t : Pallet C K × S) × (dispatch_each q.0 q.1 calls ≡ some t)
        × (get_claim t.0 claim ≡ some caller)
        × (get_claim (new {K = K} t.1) claim ≡ some caller)
  claim_above_survives r p s caller claim calls {q} h above e done others =
      let (last, owner, el, eg, made, free) = create_claim-done p s caller claim e done in
      let newest : last ≡ claim = cc (last_key-insert_above p.claims claim caller above) in
      let its : Map.get (Map.insert p.claims claim caller) claim ≡ some caller =
        ground (arith, Map.get-insert p.claims claim claim caller, same_iff claim claim) in
      let owned : owner ≡ caller =
        some_injective (sym eg ∙ ap (Map.get (Map.insert p.claims claim caller)) newest ∙ its) in
      let written : Written claim caller q.0 q.1 =
        rw (made, newest, owned)
          (
            unfold get_claim in its,
            unfold claim_key in
                ground (
                  arith,
                  r.get-put s (entry_key prefix_poe claim) (kc.encode caller)
                      (entry_key prefix_poe claim),
                  same_iff (entry_key prefix_poe claim) (entry_key prefix_poe claim),
                ),
          ) in
      let (t, run, h', w') =
        calls-Written r q.0 q.1 calls claim caller (create_claim-Saved r p s caller claim h e)
          written others in
      (t, run, w'.0, Written-new r t.0 t.1 claim caller h' w')
