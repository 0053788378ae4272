-- ===== src/Cli/Submit/Local.antt =====
-- The branches of `submit_transfer` and `submit_claim` (src/main.rs) that execute a block themselves.
use rust_state_machine.Shared.{
  ℕ, ◌+◌, ◌*◌, ◌%◌, ◌^◌, ◌≡◌, ◌≢◌, refl, sym, ap, ◌∙◌, arith, true, Option-cases, inl, inr, some,
  [], ◌∷◌, IsU32, IsU128, ok, if◌then◌else◌, ◌==◌, checked_add,
}
use rust_state_machine.Shared.Order.{Bytes, same, same_iff, bytes_ord}
use rust_state_machine.Codec.{Codec, Always}
use rust_state_machine.Store.{KeyValueStore}
use rust_state_machine.Dispatch.{DispatchResult}
use rust_state_machine.Extrinsic.{
  AccountId32, account_ord, Ed25519, PayloadCodec, new_signed, verify, verify_batch,
}
use rust_state_machine.Extrinsic.Signing.{verify-new_signed}
use rust_state_machine.System
use rust_state_machine.Balances
use rust_state_machine.Balances.Calls as BalancesCalls
use rust_state_machine.Balances.Transfer.{balance-set_balance, transfer_moves}
use rust_state_machine.Runtime.{
  Runtime, Extrinsic, Content, RuntimeCall, new, dispatch, apply_extrinsic, apply_extrinsics,
  execute_block,
}
use rust_state_machine.Runtime.Valid.{dispatch_total}
use rust_state_machine.Genesis.{AccountKeyring, signing_key, public_key}
use rust_state_machine.Cli.Submit.{execute_next, transfer_locally}

module _ {S : Type 0} ⦃kv : KeyValueStore S⦄ ⦃account_codec : Codec AccountId32 Always⦄
    ⦃content_codec : Codec Content Always⦄ ⦃u32_codec : Codec ℕ IsU32⦄ ⦃u128_codec : Codec ℕ IsU128⦄
    ⦃dalek : Ed25519⦄ ⦃payload : PayloadCodec RuntimeCall⦄ where
  -- A block of one extrinsic in turn with a good signature is accepted and dispatches its call.
  execute_block_of_one :
      (rt : Runtime) (s : S) (ext : Extrinsic) {p : System.Pallet AccountId32} {s₁ : S}
      {p' : System.Pallet AccountId32} {s₂ : S} {u : Runtime × S × DispatchResult}
      → System.inc_block_number rt.system s ≡ some (p, s₁)
      → verify ext ≡ ok tt
      → System.nonce p ext.signer ≡ ext.nonce
      → System.inc_nonce p s₁ ext.signer ≡ some (p', s₂)
      → dispatch (record rt { system = p' }) s₂ ext.signer ext.call ≡ some u
      → execute_block rt s (record {
        header = record { block_number = rt.system.block_number + 1 };
        extrinsics = ext ∷ [];
      })
        ≡ some (u.0, u.1, ok tt)
  unfolding execute_block apply_extrinsics apply_extrinsic verify_batch
  execute_block_of_one rt s ext {p} counted good turn raised done =
      let number : (rt.system.block_number + 1 == p.block_number) ≡ true =
        ground (arith, System.Nonces.inc_block_number-eq-some rt.system s counted) in
      let in_turn : (System.nonce p ext.signer == ext.nonce) ≡ true = ground arith in
      rw (counted, number, good, in_turn, raised, done) refl

module _ {S : Type 0} ⦃kv : KeyValueStore S⦄ ⦃account_codec : Codec AccountId32 Always⦄
    ⦃content_codec : Codec Content Always⦄ ⦃u32_codec : Codec ℕ IsU32⦄ ⦃u128_codec : Codec ℕ IsU128⦄
    ⦃dalek : Ed25519⦄ ⦃payload : PayloadCodec RuntimeCall⦄
    (from_seed : Bytes → dalek.SigningKey) where
  -- With room for the two counters the call is dispatched once, and the block accepted.
  execute_next_dispatches :
      (who : AccountKeyring) (call : RuntimeCall) (rt : Runtime) (s : S)
      → let account = public_key from_seed who in
        IsU32 (rt.system.block_number + 1)
        → IsU32 (System.nonce rt.system account + 1)
        → (p : System.Pallet AccountId32) × (s' : S) × (u : Runtime × S × DispatchResult)
          × (p.block_number ≡ rt.system.block_number + 1)
          × (System.nonce p account ≡ System.nonce rt.system account + 1)
          × (dispatch (record rt { system = p }) s' account call ≡ some u)
          × (execute_next from_seed who call rt s ≡ some (u.0, u.1, ok tt))
  execute_next_dispatches who call rt s room turn =
      elim (Option-cases (System.inc_block_number rt.system s)) [
        | inl full ↦
            absurd (omega (arith, (System.Nonces.inc_block_number-eq-none rt.system s).0 full))
        | inr ((p, s₁), counted) ↦
            let account = public_key from_seed who in
            let one = System.Nonces.inc_block_number-eq-some rt.system s counted in
            let same_nonce : System.nonce p account ≡ System.nonce rt.system account =
              unfold System.nonce in rw one.2 refl in
            elim (Option-cases (System.inc_nonce p s₁ account)) [
              | inl full ↦
                  absurd (
                    omega
                      (arith, (System.Nonces.inc_nonce-eq-none p s₁ account).0 full, same_nonce))
              | inr ((p', s₂), raised) ↦
                  let two = System.Nonces.inc_nonce-eq-some p s₁ account account raised in
                  let (u, done) = dispatch_total (record rt { system = p' }) s₂ account call in
                  let ext =
                    new_signed (signing_key from_seed who) (System.nonce rt.system account) call in
                  let signer_is : ext.signer ≡ account = unfold new_signed public_key in refl in
                  let nonce_is : ext.nonce ≡ System.nonce rt.system account =
                    unfold new_signed in refl in
                  let call_is : ext.call ≡ call = unfold new_signed in refl in
                  let dispatched : dispatch (record rt { system = p' }) s₂ ext.signer ext.call
                      ≡ some u =
                    rw (signer_is, call_is) done in
                  let next : checked_add 32 rt.system.block_number 1
                      ≡ some (rt.system.block_number + 1) =
                    ground arith in
                  let executed : execute_next from_seed who call rt s ≡ some (u.0, u.1, ok tt) =
                    unfold execute_next in
                    rw next (
                      execute_block_of_one rt s ext counted
                        (verify-new_signed (signing_key from_seed who)
                          (System.nonce rt.system account) call)
                        (ap (System.nonce p) signer_is ∙ same_nonce ∙ sym nonce_is)
                        (ap (System.inc_nonce p s₁) signer_is ∙ raised) dispatched) in
                  (
                    p',
                    s₂,
                    u,
                    omega (arith, two.0, one.0),
                    ground (arith, two, same_nonce, same_iff account account),
                    done,
                    executed,
                  )
            ]
      ]

  dispatch-transfer :
      (rt : Runtime) (s : S) (caller to : AccountId32) (amount : ℕ)
      → dispatch rt s caller (RuntimeCall.balances (BalancesCalls.Call.transfer to amount))
        ≡ some (
          record rt { balances = (Balances.transfer rt.balances s caller to amount).0 },
          (Balances.transfer rt.balances s caller to amount).1,
          (Balances.transfer rt.balances s caller to amount).2,
        )
  unfolding dispatch Balances.dispatch
  dispatch-transfer rt s caller to amount = refl

  -- A transfer without a node, between two different accounts, is accepted if ten times the amount
  -- and the recipient's new balance fit and there is room for the two counters. It replaces the
  -- sender's balance: whatever it was, it is nine times the amount afterwards. The recipient has the
  -- amount more than is stored, no third balance changes, and the sender's nonce and the block number
  -- are one more than stored.
  pub transfer_locally_lem :
      (from_kr to_kr : AccountKeyring) (amount : ℕ) (s : S) (a : AccountId32)
      → let from = public_key from_seed from_kr in
        let to = public_key from_seed to_kr in
        let rt = new s in
        from ≢ to
        → IsU128 (amount * 10)
        → IsU128 (Balances.balance rt.balances to + amount)
        → IsU32 (rt.system.block_number + 1)
        → IsU32 (System.nonce rt.system from + 1)
        → (q : Runtime × S × DispatchResult) × (transfer_locally from_seed from_kr
              (RuntimeCall.balances (BalancesCalls.Call.transfer to amount))
              amount
              s
            ≡ some q)
          × (q.2 ≡ ok tt)
          × (q.0.system.block_number ≡ rt.system.block_number + 1)
          × (System.nonce q.0.system from ≡ System.nonce rt.system from + 1)
          × (Balances.balance q.0.balances a ≡ (
              if same a from
              then 9 * amount
              else if same a to
              then Balances.balance rt.balances to + amount
              else Balances.balance rt.balances a))
  unfolding transfer_locally
  transfer_locally_lem from_kr to_kr amount s a ne fits room number turn =
      let from = public_key from_seed from_kr in
      let to = public_key from_seed to_kr in
      let rt = new s in
      let call = RuntimeCall.balances (BalancesCalls.Call.transfer to amount) in
      let (b, s₁) = Balances.set_balance rt.balances s from (amount * 10 % 2 ^ 128) in
      let (p, s', u, counted, raised, done, executed) =
        execute_next_dispatches from_kr call (record rt { balances = b }) s₁ number turn in
      let wraps : amount * 10 % 2 ^ 128 ≡ 10 * amount = omega arith in
      let set : (x : AccountId32)
          → Balances.balance b x
            ≡ (if same x from then amount * 10 % 2 ^ 128 else Balances.balance rt.balances x) =
        λ x. balance-set_balance rt.balances s from x (amount * 10 % 2 ^ 128) in
      let has : Balances.balance b from ≡ 10 * amount =
        ground (arith, set from, wraps, same_iff from from) in
      let had : Balances.balance b to ≡ Balances.balance rt.balances to =
        ground (arith, set to, same_iff to from) in
      let moved =
        transfer_moves b s' from to a amount ne (omega (arith, has)) (omega (arith, had, room)) in
      let done' : u ≡ (
        record rt { system = p; balances = (Balances.transfer b s' from to amount).0 },
        (Balances.transfer b s' from to amount).1,
        (Balances.transfer b s' from to amount).2,
      ) =
        cc (done, dispatch-transfer (record rt { balances = b; system = p }) s' from to amount) in
      (
        (u.0, u.1, ok tt),
        executed,
        refl,
        rw done' counted,
        rw done' raised,
        ground (
          arith,
          ap (λ (x : Runtime × S × DispatchResult). Balances.balance x.0.balances a) done',
          moved.1,
          set a,
          has,
          had,
        ),
      )
