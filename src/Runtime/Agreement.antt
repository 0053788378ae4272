-- ===== src/Runtime/Agreement.antt =====
-- What a block does to a runtime (macros/src/runtime/expand.rs) does not depend on the store: two nodes
-- with the same runtime agree on it, whatever their stores hold and whether their writes succeed.
use rust_state_machine.Shared.{
  ℕ, ◌≡◌, refl, ap, arith, Option, none, some, ◌>>=◌, List, [], ◌∷◌, IsU32, IsU128, ok, err, zip,
  ◌==◌, if◌then◌else◌, Bool-cases, inl, inr,
}
use rust_state_machine.Shared.Order.{Ord, bytes_ord}
use rust_state_machine.Codec.{Codec, Always}
use rust_state_machine.Store.{KeyValueStore}
use rust_state_machine.Dispatch.{DispatchResult, block_number_mismatch}
use rust_state_machine.Extrinsic.{AccountId32, account_ord, Ed25519, PayloadCodec, verify_batch}
use rust_state_machine.System
use rust_state_machine.Balances
use rust_state_machine.Balances.Calls as BalancesCalls
use rust_state_machine.ProofOfExistence
use rust_state_machine.ProofOfExistence.Calls as ProofOfExistenceCalls
use rust_state_machine.Runtime.{
  Runtime, Extrinsic, RuntimeBlock, Content, RuntimeCall, dispatch, apply_extrinsic,
  apply_extrinsics, execute_block,
}

-- What shows of a result.
abbrev pub observe : {A B : Type 0} → (A → B) → Option A → Option B
observe f none = none
observe f (some a) = some (f a)

bind_agree :
    {X X' Y Y' A C : Type 0} (p : X → A) (p' : X' → A) (out : Y → C) (out' : Y' → C) (m : Option X)
    (m' : Option X') (f : X → Option Y) (f' : X' → Option Y')
    → observe p m ≡ observe p' m'
    → ((x : X) (x' : X') → p x ≡ p' x' → observe out (f x) ≡ observe out' (f' x'))
    → observe out (m >>= f) ≡ observe out' (m' >>= f')
bind_agree p p' out out' none none f f' e h = refl
bind_agree p p' out out' none (some x') f f' e h = cc
bind_agree p p' out out' (some x) none f f' e h = cc
bind_agree p p' out out' (some x) (some x') f f' e h = h x x' (cc)

-- All but the store.
abbrev pub without_store : {A S : Type 0} → A × S × DispatchResult → A × DispatchResult
without_store (a, s, r) = (a, r)

abbrev before_store : {A S : Type 0} → A × S → A
before_store (a, s) = a

module _ {K S S' : Type 0} ⦃o : Ord K⦄ ⦃kc : Codec K Always⦄ ⦃u32_codec : Codec ℕ IsU32⦄
    ⦃kv : KeyValueStore S⦄ ⦃kv' : KeyValueStore S'⦄ (s : S) (s' : S') where
  inc_nonce_agree :
      (p : System.Pallet K) (who : K)
      → observe before_store (System.inc_nonce p s who)
        ≡ observe before_store (System.inc_nonce p s' who)
  unfolding System.inc_nonce
  inc_nonce_agree p who = ground arith

  inc_block_number_agree :
      (p : System.Pallet K)
      → observe before_store (System.inc_block_number p s)
        ≡ observe before_store (System.inc_block_number p s')
  unfolding System.inc_block_number
  inc_block_number_agree p = ground arith

module _ {K S S' : Type 0} ⦃o : Ord K⦄ ⦃kc : Codec K Always⦄ ⦃u128_codec : Codec ℕ IsU128⦄
    ⦃kv : KeyValueStore S⦄ ⦃kv' : KeyValueStore S'⦄ (s : S) (s' : S') where
  transfer_agree :
      (p : Balances.Pallet K) (caller to : K) (amount : ℕ)
      → without_store (Balances.transfer p s caller to amount)
        ≡ without_store (Balances.transfer p s' caller to amount)
  unfolding Balances.transfer Balances.set_balance
  transfer_agree p caller to amount = ground arith

module _ {C K S S' : Type 0} ⦃oc : Ord C⦄ ⦃o : Ord K⦄ ⦃content_codec : Codec C Always⦄
    ⦃kc : Codec K Always⦄ ⦃kv : KeyValueStore S⦄ ⦃kv' : KeyValueStore S'⦄ (s : S) (s' : S') where
  claim_agree :
      (p : ProofOfExistence.Pallet C K) (caller : K) (call : ProofOfExistenceCalls.Call C)
      → observe without_store (ProofOfExistence.dispatch p s caller call)
        ≡ observe without_store (ProofOfExistence.dispatch p s' caller call)
  unfolding ProofOfExistence.dispatch ProofOfExistence.create_claim ProofOfExistence.revoke_claim
  claim_agree p caller (ProofOfExistenceCalls.Call.create_claim claim) = ground arith
  claim_agree p caller (ProofOfExistenceCalls.Call.revoke_claim claim) = ground arith

module _ {S S' : Type 0} ⦃kv : KeyValueStore S⦄ ⦃kv' : KeyValueStore S'⦄
    ⦃account_codec : Codec AccountId32 Always⦄ ⦃content_codec : Codec Content Always⦄
    ⦃u32_codec : Codec ℕ IsU32⦄ ⦃u128_codec : Codec ℕ IsU128⦄ where
  dispatch_agree :
      (rt : Runtime) (s : S) (s' : S') (caller : AccountId32) (call : RuntimeCall)
      → observe without_store (dispatch rt s caller call)
        ≡ observe without_store (dispatch rt s' caller call)
  unfolding dispatch Balances.dispatch
  dispatch_agree rt s s' caller (RuntimeCall.balances (BalancesCalls.Call.transfer to amount)) =
      ap
        (λ (x : Balances.Pallet AccountId32 × DispatchResult).
          some (record rt { balances = x.0 }, x.1))
        (transfer_agree s s' rt.balances caller to amount)
  dispatch_agree rt s s' caller (RuntimeCall.proof_of_existence call) =
      bind_agree without_store without_store without_store without_store
        (ProofOfExistence.dispatch rt.proof_of_existence s caller call)
        (ProofOfExistence.dispatch rt.proof_of_existence s' caller call)
        (λ t. some (record rt { proof_of_existence = t.0 }, t.1, t.2))
        (λ t. some (record rt { proof_of_existence = t.0 }, t.1, t.2))
        (claim_agree s s' rt.proof_of_existence caller call)
        (λ t t' e.
          ap
            (λ (x : ProofOfExistence.Pallet Content AccountId32 × DispatchResult).
              some (record rt { proof_of_existence = x.0 }, x.1))
            e)

  apply_extrinsic_agree :
      (rt : Runtime) (s : S) (s' : S') (x : Extrinsic × DispatchResult)
      → observe before_store (apply_extrinsic rt s x)
        ≡ observe before_store (apply_extrinsic rt s' x)
  unfolding apply_extrinsic
  apply_extrinsic_agree rt s s' (ext, err e) = refl
  apply_extrinsic_agree rt s s' (ext, ok _) =
      elim (Bool-cases (System.nonce rt.system ext.signer == ext.nonce)) [
        | inr other ↦ rw other refl
        | inl turn ↦ rw turn (
            bind_agree before_store before_store before_store before_store
              (System.inc_nonce rt.system s ext.signer) (System.inc_nonce rt.system s' ext.signer)
              (λ t. dispatch (record rt { system = t.0 }) t.1 ext.signer ext.call >>= λ u.
                some (u.0, u.1))
              (λ t. dispatch (record rt { system = t.0 }) t.1 ext.signer ext.call >>= λ u.
                some (u.0, u.1))
              (inc_nonce_agree s s' rt.system ext.signer)
              (λ t t' e. rw e (
                bind_agree without_store without_store before_store before_store
                  (dispatch (record rt { system = t'.0 }) t.1 ext.signer ext.call)
                  (dispatch (record rt { system = t'.0 }) t'.1 ext.signer ext.call)
                  (λ u. some (u.0, u.1)) (λ u. some (u.0, u.1))
                  (dispatch_agree (record rt { system = t'.0 }) t.1 t'.1 ext.signer ext.call)
                  (λ u u' f. ap (λ (y : Runtime × DispatchResult). some y.0) f))))
      ]

  apply_extrinsics_agree :
      (rt : Runtime) (s : S) (s' : S') (xs : List (Extrinsic × DispatchResult))
      → observe before_store (apply_extrinsics rt s xs)
        ≡ observe before_store (apply_extrinsics rt s' xs)
  unfolding apply_extrinsics
  apply_extrinsics_agree rt s s' [] = refl
  apply_extrinsics_agree rt s s' (x ∷ xs) =
      bind_agree before_store before_store before_store before_store (apply_extrinsic rt s x)
        (apply_extrinsic rt s' x) (λ t. apply_extrinsics t.0 t.1 xs)
        (λ t. apply_extrinsics t.0 t.1 xs) (apply_extrinsic_agree rt s s' x)
        (λ t t' e. rw e (apply_extrinsics_agree t'.0 t.1 t'.1 xs))

module _ {S S' : Type 0} ⦃kv : KeyValueStore S⦄ ⦃kv' : KeyValueStore S'⦄
    ⦃account_codec : Codec AccountId32 Always⦄ ⦃content_codec : Codec Content Always⦄
    ⦃u32_codec : Codec ℕ IsU32⦄ ⦃u128_codec : Codec ℕ IsU128⦄ ⦃dalek : Ed25519⦄
    ⦃payload : PayloadCodec RuntimeCall⦄ where
  -- Over any two stores, a block makes the same runtime of one runtime, with the same result, and it
  -- panics over both or over neither.
  pub execute_block_agree :
      (rt : Runtime) (s : S) (s' : S') (block : RuntimeBlock)
      → observe without_store (execute_block rt s block)
        ≡ observe without_store (execute_block rt s' block)
  unfolding execute_block
  execute_block_agree rt s s' block =
      let checked = zip block.extrinsics (verify_batch block.extrinsics) in
      bind_agree before_store before_store without_store without_store
        (System.inc_block_number rt.system s) (System.inc_block_number rt.system s')
        (λ t.
          let rt₁ = record rt { system = t.0 } in
          if block.header.block_number == t.0.block_number
          then (do u ← apply_extrinsics rt₁ t.1 checked; some (u.0, u.1, ok tt))
          else some (rt₁, t.1, err block_number_mismatch))
        (λ t.
          let rt₁ = record rt { system = t.0 } in
          if block.header.block_number == t.0.block_number
          then (do u ← apply_extrinsics rt₁ t.1 checked; some (u.0, u.1, ok tt))
          else some (rt₁, t.1, err block_number_mismatch))
        (inc_block_number_agree {K = AccountId32} s s' rt.system)
        (λ t t' e. rw e (elim (Bool-cases (block.header.block_number == (t'.0).block_number)) [
          | inr other ↦ rw other refl
          | inl next ↦ rw next (
              bind_agree before_store before_store without_store without_store
                (apply_extrinsics (record rt { system = t'.0 }) t.1 checked)
                (apply_extrinsics (record rt { system = t'.0 }) t'.1 checked)
                (λ u. some (u.0, u.1, ok tt)) (λ u. some (u.0, u.1, ok tt))
                (apply_extrinsics_agree (record rt { system = t'.0 }) t.1 t'.1 checked)
                (λ u u' f. ap (λ (x : Runtime). some (x, ok tt)) f))
        ]))
