-- ===== src/Runtime/Ledger/Refines.antt =====
-- The runtime of src/lib.rs does to its ledger what the abstract blocks do.
use rust_state_machine.Shared.{
  ℕ, ◌+◌, ◌-◌, ◌^◌, ◌≡◌, refl, sym, ap, ◌∙◌, arith, true, false, ◌&&◌, Bool-cases, inl, inr, Option,
  Option-cases, none, some, ◌>>=◌, List, [], ◌∷◌, IsU32, IsU128, ok, err, zip, ◌==◌, leb, ltb,
  if◌then◌else◌, some_injective,
}
use rust_state_machine.Shared.Order.{bytes_ord, same}
use rust_state_machine.Codec.{Codec, Always}
use rust_state_machine.Store.{KeyValueStore}
use rust_state_machine.Dispatch.{DispatchResult, block_number_mismatch}
use rust_state_machine.Extrinsic.{
  AccountId32, account_ord, Ed25519, PayloadCodec, verify, verify_batch,
}
use rust_state_machine.System
use rust_state_machine.Balances
use rust_state_machine.Balances.Calls as BalancesCalls
use rust_state_machine.Balances.Transfer.{balance-set_balance}
use rust_state_machine.ProofOfExistence
use rust_state_machine.ProofOfExistence.Calls as ProofOfExistenceCalls
use rust_state_machine.ProofOfExistence.Claims.{create_claim_lem, revoke_claim_result}
use rust_state_machine.Runtime.{
  Runtime, Extrinsic, RuntimeBlock, Content, RuntimeCall, dispatch, apply_extrinsic,
  apply_extrinsics, execute_block,
}
use rust_state_machine.Runtime.Agreement.{observe}
use rust_state_machine.Runtime.Blocks.{same_nonces}
use rust_state_machine.Runtime.Ledger.{
  Ledger, effect, apply_checked, apply, apply_all, execute, ledger,
}

same_ledger :
    {l m : Ledger}
    → l.height ≡ m.height
    → ((a : AccountId32) → l.nonce_of a ≡ m.nonce_of a)
    → ((a : AccountId32) → l.balance_of a ≡ m.balance_of a)
    → ((c : Content) → l.owner_of c ≡ m.owner_of c)
    → l ≡ m
same_ledger h n b o = λ i. record {
  height = h i;
  nonce_of = λ a. n a i;
  balance_of = λ a. b a i;
  owner_of = λ c. o c i;
}

pub observe-bind :
    {A B C D : Type 0} (p : A → C) (out : B → D) (m : Option A) (m' : Option C) (f : A → Option B)
    (f' : C → Option D)
    → observe p m ≡ m'
    → ((a : A) → m ≡ some a → observe out (f a) ≡ f' (p a))
    → observe out (m >>= f) ≡ (m' >>= f')
observe-bind p out none m' f f' e h = ap (λ m. m >>= f') e
observe-bind p out (some a) m' f f' e h = h a refl ∙ ap (λ m. m >>= f') e

module _ {S : Type 0} ⦃kv : KeyValueStore S⦄ ⦃account_codec : Codec AccountId32 Always⦄
    ⦃content_codec : Codec Content Always⦄ ⦃u32_codec : Codec ℕ IsU32⦄
    ⦃u128_codec : Codec ℕ IsU128⦄ where
  balance-transfer :
      (p : Balances.Pallet AccountId32) (s : S) (from to a : AccountId32) (amount : ℕ)
      → Balances.balance (Balances.transfer p s from to amount).0 a ≡ (
          if leb amount (Balances.balance p from) && ltb (Balances.balance p to + amount) (2 ^ 128)
          then (if same a to
              then Balances.balance p to + amount
              else if same a from
              then Balances.balance p from - amount
              else Balances.balance p a)
          else Balances.balance p a)
  unfolding Balances.transfer
  balance-transfer p s from to a amount =
      let (p₁, s₁) = Balances.set_balance p s from (Balances.balance p from - amount) in
      ground (
        arith,
        balance-set_balance p₁ s₁ to a (Balances.balance p to + amount),
        balance-set_balance p s from a (Balances.balance p from - amount),
      )

  get_claim-create_claim :
      (p : ProofOfExistence.Pallet Content AccountId32) (s : S) (from : AccountId32)
      (claim c : Content) {q : ProofOfExistence.Pallet Content AccountId32 × S × DispatchResult}
      → ProofOfExistence.create_claim p s from claim ≡ some q
      → ProofOfExistence.get_claim q.0 c ≡ elim (ProofOfExistence.get_claim p c) [
        | none ↦ if same c claim then some from else none
        | some owner ↦ some owner
      ]
  get_claim-create_claim p s from claim c {q} h =
      let (q', made, r, found) = create_claim_lem p s from claim c in
      let same_pallet : q ≡ q' = some_injective (sym h ∙ made) in
      ap
        (λ (x : ProofOfExistence.Pallet Content AccountId32 × S × DispatchResult).
          ProofOfExistence.get_claim x.0 c)
        same_pallet
      ∙ found

  get_claim-revoke_claim :
      (p : ProofOfExistence.Pallet Content AccountId32) (s : S) (from : AccountId32)
      (claim c : Content)
      → ProofOfExistence.get_claim (ProofOfExistence.revoke_claim p s from claim).0 c ≡ (
          if elim (ProofOfExistence.get_claim p claim) [
            | none ↦ false
            | some owner ↦ same owner from
          ]
            && same c claim
          then none
          else ProofOfExistence.get_claim p c)
  get_claim-revoke_claim p s from claim c =
      let (r, found) = revoke_claim_result p s from claim c in
      elim (Option-cases (ProofOfExistence.get_claim p claim)) [
        | inl free ↦ ground (arith, r, found, free)
        | inr (owner, taken) ↦ elim (Bool-cases (same owner from)) [
          | inl own ↦ ground (arith, r, found, taken, own)
          | inr other ↦ ground (arith, r, found, taken, other)
        ]
      ]

  dispatch-effect :
      (rt : Runtime) (s : S) (from : AccountId32) (call : RuntimeCall)
      → (q : Runtime × S × DispatchResult) × (dispatch rt s from call ≡ some q)
        × (ledger q.0 ≡ effect (ledger rt) from call)
  unfolding dispatch Balances.dispatch ProofOfExistence.dispatch
  dispatch-effect rt s from (RuntimeCall.balances (BalancesCalls.Call.transfer to amount)) = (
    _,
    refl,
    same_ledger refl (λ a. refl) (λ a. balance-transfer rt.balances s from to a amount) (λ c. refl),
  )
  dispatch-effect rt s from
        (RuntimeCall.proof_of_existence (ProofOfExistenceCalls.Call.create_claim claim)) =
      let (q, made, r, found) = create_claim_lem rt.proof_of_existence s from claim claim in
      (
        (record rt { proof_of_existence = q.0 }, q.1, q.2),
        rw made refl,
        same_ledger refl (λ a. refl) (λ a. refl)
            (λ c. get_claim-create_claim rt.proof_of_existence s from claim c made),
      )
  dispatch-effect rt s from
        (RuntimeCall.proof_of_existence (ProofOfExistenceCalls.Call.revoke_claim claim)) =
      (
        _,
        refl,
        same_ledger refl (λ a. refl) (λ a. refl)
            (λ c. get_claim-revoke_claim rt.proof_of_existence s from claim c),
      )

module _ {S : Type 0} ⦃kv : KeyValueStore S⦄ ⦃account_codec : Codec AccountId32 Always⦄
    ⦃content_codec : Codec Content Always⦄ ⦃u32_codec : Codec ℕ IsU32⦄ ⦃u128_codec : Codec ℕ IsU128⦄
    ⦃dalek : Ed25519⦄ ⦃payload : PayloadCodec RuntimeCall⦄ where
  abbrev pub ledger_left : Runtime × S → Ledger
  ledger_left t = ledger t.0

  abbrev pub ledger_and_result : Runtime × S × DispatchResult → Ledger × DispatchResult
  ledger_and_result q = (ledger q.0, q.2)

  apply_extrinsic-apply_checked :
      (rt : Runtime) (s : S) (ext : Extrinsic) (r : DispatchResult)
      → observe ledger_left (apply_extrinsic rt s (ext, r)) ≡ apply_checked (ledger rt) ext r
  unfolding apply_extrinsic
  apply_extrinsic-apply_checked rt s ext (err _) = refl
  apply_extrinsic-apply_checked rt s ext (ok _) =
      elim (Bool-cases (System.nonce rt.system ext.signer == ext.nonce)) [
        | inr other ↦ rw other refl
        | inl turn ↦ elim (Option-cases (System.inc_nonce rt.system s ext.signer)) [
          | inl full ↦
              let big : ltb (ext.nonce + 1) (2 ^ 32) ≡ false =
                ground
                  (arith, turn, (System.Nonces.inc_nonce-eq-none rt.system s ext.signer).0 full) in
              rw (turn, full, big) refl
          | inr (t, counted) ↦
              let after = λ (a : AccountId32).
                System.Nonces.inc_nonce-eq-some rt.system s ext.signer a counted in
              let fits : ltb (ext.nonce + 1) (2 ^ 32) ≡ true =
                ground (arith, turn, (after ext.signer).1) in
              let (q, made, done) =
                dispatch-effect (record rt { system = t.0 }) t.1 ext.signer ext.call in
              let number : System.nonce rt.system ext.signer ≡ ext.nonce = ground (arith, turn) in
              rw (turn, counted, fits, made)
                (ap some (
                  done
                  ∙ ap (λ l. effect l ext.signer ext.call)
                      (same_ledger {l = ledger (record rt { system = t.0 })} (after ext.signer).0
                        (λ a.
                          (after a).2
                          ∙ ap (λ n. if same a ext.signer then n + 1 else System.nonce rt.system a)
                              number)
                        (λ a. refl) (λ c. refl))))
        ]
      ]

  apply_extrinsics-apply_all :
      (rt : Runtime) (s : S) (exts : List Extrinsic)
      → observe ledger_left (apply_extrinsics rt s (zip exts (verify_batch exts)))
        ≡ apply_all (ledger rt) exts
  unfolding apply_extrinsics verify_batch
  apply_extrinsics-apply_all rt s [] = refl
  apply_extrinsics-apply_all rt s (ext ∷ exts) =
      observe-bind ledger_left ledger_left (apply_extrinsic rt s (ext, verify ext))
        (apply (ledger rt) ext) (λ t. apply_extrinsics t.0 t.1 (zip exts (verify_batch exts)))
        (λ m. apply_all m exts) (apply_extrinsic-apply_checked rt s ext (verify ext))
        (λ t e. apply_extrinsics-apply_all t.0 t.1 exts)

  -- What executing a block does to the ledger of a runtime, and its result, is what the abstract block
  -- does, on every branch: it panics exactly if the height or a nonce does not fit, is refused exactly if
  -- the header has the wrong number, and else each extrinsic in turn has its effect, if it has one. The
  -- order of the maps, their lack of an entry for zero, and the store do not matter.
  pub execute_block_refines :
      (rt : Runtime) (s : S) (block : RuntimeBlock)
      → observe ledger_and_result (execute_block rt s block) ≡ execute (ledger rt) block
  unfolding execute_block
  execute_block_refines rt s block = elim (Option-cases (System.inc_block_number rt.system s)) [
    | inl full ↦
        let big : ltb (rt.system.block_number + 1) (2 ^ 32) ≡ false =
          ground (arith, (System.Nonces.inc_block_number-eq-none rt.system s).0 full) in
        rw (full, big) refl
    | inr (t, counted) ↦
        let one = System.Nonces.inc_block_number-eq-some rt.system s counted in
        let fits : ltb (rt.system.block_number + 1) (2 ^ 32) ≡ true = ground (arith, one.1) in
        let begun : ledger (record rt { system = t.0 })
            ≡ record (ledger rt) { height = rt.system.block_number + 1 } =
          same_ledger one.0 (λ a. same_nonces rt.system t.0 a one.2) (λ a. refl) (λ c. refl) in
        let number = ap (λ n. block.header.block_number == n) one.0 in
        elim (Bool-cases (block.header.block_number == rt.system.block_number + 1)) [
          | inr other ↦
              rw (counted, fits, number ∙ other, other)
                (ap (λ l. some (l, err block_number_mismatch)) begun)
          | inl next ↦
              rw (counted, fits, number ∙ next, next)
                (observe-bind ledger_left ledger_and_result
                  (apply_extrinsics (record rt { system = t.0 }) t.1
                    (zip block.extrinsics (verify_batch block.extrinsics)))
                  (apply_all (record (ledger rt) { height = rt.system.block_number + 1 })
                    block.extrinsics)
                  (λ u. some (u.0, u.1, ok tt)) (λ m. some (m, ok tt))
                  (apply_extrinsics-apply_all (record rt { system = t.0 }) t.1 block.extrinsics
                    ∙ ap (λ l. apply_all l block.extrinsics) begun)
                  (λ u e. refl))
        ]
  ]
