-- ===== src/Runtime/Restart.antt =====
-- A restart: `Runtime::new` against the runtime that was running.
use rust_state_machine.Shared.{All-of, ℕ, ◌≡◌, some, >>=-eq-some, arith, IsU32, IsU128, true, false}
use rust_state_machine.Shared.Order.{Bytes, bytes_ord, starts_with, starts_with_other}
use rust_state_machine.Codec.{Codec, Always}
use rust_state_machine.Store.{KeyValueStore, IsReliable}
use rust_state_machine.Dispatch.{DispatchResult}
use rust_state_machine.Extrinsic.{AccountId32, account_ord, Ed25519, PayloadCodec}
use rust_state_machine.System
use rust_state_machine.Balances
use rust_state_machine.Balances.Calls as BalancesCalls
use rust_state_machine.ProofOfExistence
use rust_state_machine.Runtime.{
  new, Runtime, Extrinsic, RuntimeBlock, Content, RuntimeCall, dispatch, execute_block,
}
use rust_state_machine.Runtime.Extrinsics.{Applied, execute_block_inv}
use rust_state_machine.Runtime.Valid.{IsValid, Applied-IsValid}
use rust_state_machine.Runtime.Nonces.{Chain, here, next}
use rust_state_machine.Storage.{codes}
use rust_state_machine.Storage.Reload.{IsStored-frame}

-- The prefixes of the three pallets begin with different bytes.
pub system_not_balance :
    (j : Bytes)
    → starts_with j System.InStep.prefix ≡ true
    → starts_with j Balances.prefix_balance ≡ false
system_not_balance j h =
    starts_with_other j (codes "ystem:") (codes "alances:") b's' b'b' h (omega arith)

system_not_poe :
    (j : Bytes)
    → starts_with j System.InStep.prefix ≡ true
    → starts_with j ProofOfExistence.prefix_poe ≡ false
system_not_poe j h = starts_with_other j (codes "ystem:") (codes "oe:") b's' b'p' h (omega arith)

balance_not_poe :
    (j : Bytes)
    → starts_with j Balances.prefix_balance ≡ true
    → starts_with j ProofOfExistence.prefix_poe ≡ false
balance_not_poe j h = starts_with_other j (codes "alances:") (codes "oe:") b'b' b'p' h (omega arith)

balance_not_system :
    (j : Bytes)
    → starts_with j Balances.prefix_balance ≡ true
    → starts_with j System.InStep.prefix ≡ false
balance_not_system j h =
    starts_with_other j (codes "alances:") (codes "ystem:") b'b' b's' h (omega arith)

module _ {S : Type 0} ⦃kv : KeyValueStore S⦄ ⦃account_codec : Codec AccountId32 Always⦄
    ⦃content_codec : Codec Content Always⦄ ⦃u32_codec : Codec ℕ IsU32⦄
    ⦃u128_codec : Codec ℕ IsU128⦄ where
  -- The store holds what the system and the balances pallet hold in memory.
  pub record InStep (rt : Runtime) (s : S) : Type 0 where
    pub system : System.InStep.InStep rt.system s
    pub balances : Balances.InStep.InStep rt.balances s

  -- A dispatch keeps the store in step.
  dispatch-InStep :
      IsReliable kv
      → (rt : Runtime) (s : S) (caller : AccountId32) (call : RuntimeCall)
        {w : Runtime × S × DispatchResult}
      → IsValid rt
      → InStep rt s
      → dispatch rt s caller call ≡ some w
      → InStep w.0 w.1
  unfolding dispatch Balances.dispatch ProofOfExistence.dispatch
  dispatch-InStep r rt s caller (RuntimeCall.balances (BalancesCalls.Call.transfer to amount)) {w} v
        i h =
      let e : w ≡ (
        record rt { balances = (Balances.transfer rt.balances s caller to amount).0 },
        (Balances.transfer rt.balances s caller to amount).1,
        (Balances.transfer rt.balances s caller to amount).2,
      ) =
        ground arith in
      rw e (record {
        system =
            System.InStep.InStep-frame rt.system s
              (Balances.transfer rt.balances s caller to amount).1
              (λ j sw.
                Balances.InStep.transfer_elsewhere r rt.balances s caller to amount j
                  (system_not_balance j sw))
              i.system;
        balances =
            Balances.InStep.transfer-InStep r rt.balances s caller to amount v.balances i.balances;
      })
  dispatch-InStep r rt s caller (RuntimeCall.proof_of_existence call) {w} v i h =
      let (t, made, last) =
        >>=-eq-some (ProofOfExistence.dispatch rt.proof_of_existence s caller call)
          (λ t. some (record rt { proof_of_existence = t.0 }, t.1, t.2)) h in
      let e : w ≡ (record rt { proof_of_existence = t.0 }, t.1, t.2) = ground arith in
      rw e (record {
        system =
            System.InStep.InStep-frame rt.system s t.1
              (λ j sw.
                ProofOfExistence.InStep.dispatch_elsewhere r rt.proof_of_existence s caller call j
                  made (system_not_poe j sw))
              i.system;
        balances =
            IsStored-frame IsU128 Balances.prefix_balance rt.balances.balances s t.1
              (λ j sw.
                ProofOfExistence.InStep.dispatch_elsewhere r rt.proof_of_existence s caller call j
                  made (balance_not_poe j sw))
              i.balances;
      })

  Applied-InStep :
      IsReliable kv
      → (rt : Runtime) (s : S) (ext : Extrinsic) (u : Runtime × S) → IsValid rt
      → InStep rt s
      → Applied rt s ext u
      → InStep u.0 u.1
  Applied-InStep r rt s ext u v i x =
      let counted : IsValid (record rt { system = x.counted.0 }) = record {
        system = System.Nonces.inc_nonce-IsValid rt.system s ext.signer v.system x.inc_nonce;
        balances = v.balances;
        claims = v.claims;
      } in
      let stored : InStep (record rt { system = x.counted.0 }) x.counted.1 = record {
        system = System.InStep.inc_nonce-InStep r rt.system s ext.signer i.system x.inc_nonce;
        balances =
            IsStored-frame IsU128 Balances.prefix_balance rt.balances.balances s x.counted.1
              (λ j sw.
                System.InStep.inc_nonce_elsewhere r rt.system s ext.signer j x.inc_nonce
                  (balance_not_system j sw))
              i.balances;
      } in
      rw x.after (
        dispatch-InStep r (record rt { system = x.counted.0 }) x.counted.1 ext.signer ext.call
          counted stored x.dispatched)

module _ {S : Type 0} ⦃kv : KeyValueStore S⦄ ⦃account_codec : Codec AccountId32 Always⦄
    ⦃content_codec : Codec Content Always⦄ ⦃u32_codec : Codec ℕ IsU32⦄ ⦃u128_codec : Codec ℕ IsU128⦄
    ⦃dalek : Ed25519⦄ ⦃payload : PayloadCodec RuntimeCall⦄ where
  -- A block keeps the store in step.
  pub execute_block-InStep :
      IsReliable kv
      → (rt : Runtime) (s : S) (block : RuntimeBlock) {q : Runtime × S × DispatchResult}
      → IsValid rt
      → InStep rt s
      → execute_block rt s block ≡ some q
      → IsValid q.0 × InStep q.0 q.1
  execute_block-InStep r rt s block {q} v i h =
      execute_block_inv (λ rt' s'. IsValid rt' × InStep rt' s') (λ _. Unit {0}) rt s block
        (λ t e. (
          record {
            system = System.Nonces.inc_block_number-IsValid rt.system s v.system e;
            balances = v.balances;
            claims = v.claims;
          },
          record {
            system = System.InStep.inc_block_number-InStep r rt.system s i.system e;
            balances =
                IsStored-frame IsU128 Balances.prefix_balance rt.balances.balances s t.1
                  (λ j sw.
                    System.InStep.inc_block_number_elsewhere r rt.system s j e
                      (balance_not_system j sw))
                  i.balances;
          },
        ))
        (λ rt' s' ext u _ p x.
          (Applied-IsValid rt' s' ext u p.0 x, Applied-InStep r rt' s' ext u p.0 p.1 x))
        (All-of (λ _ _. tt) block.extrinsics) h

  Chain-InStep :
      IsReliable kv
      → {rt : Runtime} {s : S} {rt' : Runtime} {s' : S} → IsValid rt
      → InStep rt s
      → Chain rt s rt' s'
      → IsValid rt' × InStep rt' s'
  Chain-InStep r v i here = (v, i)
  Chain-InStep r v i (next c block e) =
      let p = Chain-InStep r v i c in execute_block-InStep r _ _ block p.0 p.1 e

  -- On a reliable store: if a valid runtime is in step with the store, then after any number of
  -- blocks a restart finds the same block number, nonces and balances.
  pub restart :
      IsReliable kv
      → (rt : Runtime) (s : S) (rt' : Runtime) (s' : S) → IsValid rt
      → InStep rt s
      → Chain rt s rt' s'
      → ((new s').system ≡ rt'.system) × ((new s').balances ≡ rt'.balances)
  unfolding new
  restart r rt s rt' s' v i c =
      let (v', i') = Chain-InStep r v i c in
      (
        System.InStep.new-InStep r rt'.system s' v'.system i'.system,
        Balances.InStep.new-InStep r rt'.balances s' v'.balances i'.balances,
      )
