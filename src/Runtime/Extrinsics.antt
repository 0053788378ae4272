-- ===== src/Runtime/Extrinsics.antt =====
-- One extrinsic, one block: what a step that did not panic has done, and the rule by which a fact
-- about one extrinsic becomes one about a block.
use rust_state_machine.Shared.{
  true, refl, sym, ◌≢◌, if◌then◌else◌, some_injective, All-zip-map, ℕ, ◌≡◌, ◌⊎◌, inl, inr, some,
  ◌>>=◌, >>=-eq-some, List, [], ◌∷◌, All, arith, Bool-cases, IsU32, IsU128, ok, err, zip, ◌==◌,
}
use mathlib.Core.Path.{subst}
use rust_state_machine.Codec.{Codec, Always}
use rust_state_machine.Store.{KeyValueStore}
use rust_state_machine.Dispatch.{DispatchResult, block_number_mismatch}
use rust_state_machine.Extrinsic.{
  AccountId32, account_ord, Ed25519, PayloadCodec, verify_batch, verify,
}
use rust_state_machine.System
use rust_state_machine.Runtime.{
  Runtime, Extrinsic, RuntimeBlock, Content, RuntimeCall, dispatch, apply_extrinsic,
  apply_extrinsics, execute_block,
}

module _ {S : Type 0} ⦃kv : KeyValueStore S⦄ ⦃account_codec : Codec AccountId32 Always⦄
    ⦃content_codec : Codec Content Always⦄ ⦃u32_codec : Codec ℕ IsU32⦄
    ⦃u128_codec : Codec ℕ IsU128⦄ where
  -- A step past the signature and the nonce: the nonce is counted, then the call is dispatched.
  pub record Applied (rt : Runtime) (s : S) (ext : Extrinsic) (u : Runtime × S) : Type 0 where
    pub in_turn : System.nonce rt.system ext.signer ≡ ext.nonce
    pub counted : System.Pallet AccountId32 × S
    pub inc_nonce : System.inc_nonce rt.system s ext.signer ≡ some counted
    pub result : Runtime × S × DispatchResult
    pub dispatched :
        dispatch (record rt { system = counted.0 }) counted.1 ext.signer ext.call ≡ some result
    pub after : u ≡ (result.0, result.1)

  -- A valid extrinsic that is in turn is applied.
  pub apply_extrinsic_in_turn :
      (rt : Runtime) (s : S) (ext : Extrinsic) {u : Runtime × S}
      → System.nonce rt.system ext.signer ≡ ext.nonce
      → apply_extrinsic rt s (ext, ok tt) ≡ some u
      → Applied rt s ext u
  unfolding apply_extrinsic
  apply_extrinsic_in_turn rt s ext {u} turn h =
      let test : (System.nonce rt.system ext.signer == ext.nonce) ≡ true = ground arith in
      let (t, counted, rest) =
        >>=-eq-some (System.inc_nonce rt.system s ext.signer)
          (λ t.
            dispatch (record rt { system = t.0 }) t.1 ext.signer ext.call >>= λ u. some (u.0, u.1))
          {b = u} (rw test at h) in
      let (w, done, last) =
        >>=-eq-some (dispatch (record rt { system = t.0 }) t.1 ext.signer ext.call)
          (λ u. some (u.0, u.1)) rest in
      record {
        in_turn = turn;
        counted = t;
        inc_nonce = counted;
        result = w;
        dispatched = done;
        after = cc;
      }

  -- An extrinsic is skipped and changes nothing, or it is applied.
  pub apply_extrinsic_cases :
      (rt : Runtime) (s : S) (ext : Extrinsic) (r : DispatchResult) {u : Runtime × S}
      → apply_extrinsic rt s (ext, r) ≡ some u
      → (u ≡ (rt, s)) ⊎ ((r ≡ ok tt) × Applied rt s ext u)
  apply_extrinsic_cases rt s ext (err e) h = inl (unfold apply_extrinsic in ground arith)
  apply_extrinsic_cases rt s ext (ok x) {u} h =
      elim (Bool-cases (System.nonce rt.system ext.signer == ext.nonce)) [
        | inr other ↦ inl (unfold apply_extrinsic in ground arith)
        | inl turn ↦ inr (refl, apply_extrinsic_in_turn rt s ext (ground arith) h)
      ]

  -- What each extrinsic of a list keeps, the list keeps.
  apply_extrinsics_inv {ℓ κ} :
      (P : Runtime → S → Type ℓ) (Q : Extrinsic × DispatchResult → Type κ)
      (xs : List (Extrinsic × DispatchResult))
      → ((rt : Runtime) (s : S) (ext : Extrinsic) (u : Runtime × S)
          → Q (ext, ok tt)
          → P rt s
          → Applied rt s ext u
          → P u.0 u.1)
      → (rt : Runtime) (s : S) {u : Runtime × S} → All Q xs
      → P rt s
      → apply_extrinsics rt s xs ≡ some u
      → P u.0 u.1
  unfolding apply_extrinsics
  apply_extrinsics_inv P Q [] step rt s {u} q p h = subst (λ v. P v.0 v.1) (some_injective h) p
  apply_extrinsics_inv P Q ((ext, r) ∷ xs) step rt s {u} q p h =
      let (t, e, rest) =
        >>=-eq-some (apply_extrinsic rt s (ext, r)) (λ t. apply_extrinsics t.0 t.1 xs) h in
      apply_extrinsics_inv P Q xs step t.0 t.1 q.1
        (elim (apply_extrinsic_cases rt s ext r e) [
          | inl skipped ↦ subst (λ v. P v.0 v.1) (sym skipped) p
          | inr (valid, applied) ↦ step rt s ext t (subst (λ x. Q (ext, x)) valid q.0) p applied
        ])
        rest

module _ {S : Type 0} ⦃kv : KeyValueStore S⦄ ⦃account_codec : Codec AccountId32 Always⦄
    ⦃content_codec : Codec Content Always⦄ ⦃u32_codec : Codec ℕ IsU32⦄ ⦃u128_codec : Codec ℕ IsU128⦄
    ⦃dalek : Ed25519⦄ ⦃payload : PayloadCodec RuntimeCall⦄ where
  -- A block is counted; then its extrinsics are applied if it has the next number.
  pub execute_block_cases :
      (rt : Runtime) (s : S) (block : RuntimeBlock) {q : Runtime × S × DispatchResult}
      → execute_block rt s block ≡ some q
      → (t : System.Pallet AccountId32 × S) × (System.inc_block_number rt.system s ≡ some t)
        × (((block.header.block_number ≡ t.0.block_number)
              × (q.2 ≡ ok tt)
              × (apply_extrinsics
                    (record rt { system = t.0 })
                    t.1
                    (zip block.extrinsics (verify_batch block.extrinsics))
                  ≡ some (q.0, q.1)))
            ⊎ ((block.header.block_number ≢ t.0.block_number)
                × (q ≡ (record rt { system = t.0 }, t.1, err block_number_mismatch))))
  unfolding execute_block
  execute_block_cases rt s block {q} h =
      let (t, counted, rest) =
        >>=-eq-some (System.inc_block_number rt.system s)
          (λ t.
            if block.header.block_number == t.0.block_number
            then apply_extrinsics (record rt { system = t.0 }) t.1
                (zip block.extrinsics (verify_batch block.extrinsics))
              >>= (λ u. some (u.0, u.1, ok tt))
            else some (record rt { system = t.0 }, t.1, err block_number_mismatch))
          {b = q} h in
      (
        t,
        counted,
        elim (Bool-cases (block.header.block_number == t.0.block_number)) [
          | inl next ↦
              let (u, applied, last) =
                >>=-eq-some
                  (apply_extrinsics (record rt { system = t.0 }) t.1
                    (zip block.extrinsics (verify_batch block.extrinsics)))
                  (λ u. some (u.0, u.1, ok tt)) {b = q} (rw next at rest) in
              inl (ground arith, cc, cc)
          | inr other ↦ inr (ground arith, ground arith)
        ],
      )

  -- What counting a block and each valid extrinsic keep, the block keeps.
  pub execute_block_inv {ℓ κ} :
      (P : Runtime → S → Type ℓ) (Q : Extrinsic → Type κ) (rt : Runtime) (s : S)
      (block : RuntimeBlock)
      → ((t : System.Pallet AccountId32 × S)
          → System.inc_block_number rt.system s ≡ some t
          → P (record rt { system = t.0 }) t.1)
      → ((rt : Runtime) (s : S) (ext : Extrinsic) (u : Runtime × S)
          → Q ext
          → P rt s
          → Applied rt s ext u
          → P u.0 u.1)
      → {q : Runtime × S × DispatchResult} → All (λ e. verify e ≡ ok tt → Q e) block.extrinsics
      → execute_block rt s block ≡ some q
      → P q.0 q.1
  execute_block_inv P Q rt s block start step {q} all h =
      let (t, counted, rest) = execute_block_cases rt s block h in
      elim rest [
        | inr (other, e) ↦
            subst (λ (v : Runtime × S × DispatchResult). P v.0 v.1) (sym e) (start t counted)
        | inl (next, good, applied) ↦
            apply_extrinsics_inv P (λ x. x.1 ≡ ok tt → Q x.0)
              (zip block.extrinsics (verify_batch block.extrinsics))
              (λ rt s ext u qx p a. step rt s ext u (qx refl) p a) (record rt { system = t.0 }) t.1
              {u = (q.0, q.1)}
              (unfold verify_batch in
                All-zip-map (λ x. x.1 ≡ ok tt → Q x.0) verify block.extrinsics all)
              (start t counted) applied
      ]
