-- ===== src/Balances/InStep.antt =====
-- The store of the balances pallet (src/balances.rs) against its memory.
use rust_state_machine.Shared.{ℕ, ◌+◌, ◌-◌, ◌≡◌, arith, IsU128, false}
use rust_state_machine.Shared.Order.{Ord, Bytes, starts_with}
use rust_state_machine.Codec.{Codec, Always}
use rust_state_machine.Store.{KeyValueStore, IsReliable}
use rust_state_machine.Storage.{entry_key}
use rust_state_machine.Storage.Reload.{IsStored, reload, put-IsStored, get-put_elsewhere}
use rust_state_machine.Balances.{
  Pallet, balance, new, set_balance, transfer, prefix_balance, balance_key,
}
use rust_state_machine.Balances.Transfer.{IsValid, balance-IsU128}

module _ {K S : Type 0} ⦃o : Ord K⦄ ⦃kc : Codec K Always⦄ ⦃u128_codec : Codec ℕ IsU128⦄
    ⦃kv : KeyValueStore S⦄ where
  abbrev pub InStep : Pallet K → S → Type 0
  InStep p s = IsStored IsU128 prefix_balance p.balances s

  -- A restart reads back the pallet that was running.
  pub new-InStep : IsReliable kv → (p : Pallet K) (s : S) → IsValid p → InStep p s → new s ≡ p
  unfolding new
  new-InStep r p s v h = ground (arith, reload IsU128 r prefix_balance p.balances s v.sorted h)

  pub set_balance-InStep :
      IsReliable kv
      → (p : Pallet K) (s : S) (who : K) (amount : ℕ) → IsU128 amount
      → InStep p s
      → InStep (set_balance p s who amount).0 (set_balance p s who amount).1
  unfolding set_balance balance_key
  set_balance-InStep r p s who amount f h =
      put-IsStored IsU128 r prefix_balance p.balances s who amount f h

  -- A transfer, whether it goes through or fails, keeps the store in step.
  pub transfer-InStep :
      IsReliable kv
      → (p : Pallet K) (s : S) (caller to : K) (amount : ℕ) → IsValid p
      → InStep p s
      → InStep (transfer p s caller to amount).0 (transfer p s caller to amount).1
  unfolding transfer
  transfer-InStep r p s caller to amount v h =
      let (p₁, s₁) = set_balance p s caller (balance p caller - amount) in
      ground (
        arith,
        balance-IsU128 p caller v,
        set_balance-InStep r p s caller (balance p caller - amount),
        set_balance-InStep r p₁ s₁ to (balance p to + amount),
      )

  pub set_balance_elsewhere :
      IsReliable kv
      → (p : Pallet K) (s : S) (who : K) (amount : ℕ) (j : Bytes)
      → starts_with j prefix_balance ≡ false
      → kv.get (set_balance p s who amount).1 j ≡ kv.get s j
  unfolding set_balance balance_key
  set_balance_elsewhere r p s who amount j h =
      get-put_elsewhere r prefix_balance s (balance_key who) (u128_codec.encode amount) j
        (unfold entry_key in rw h)

  -- What the pallet writes stands under its prefix.
  pub transfer_elsewhere :
      IsReliable kv
      → (p : Pallet K) (s : S) (caller to : K) (amount : ℕ) (j : Bytes)
      → starts_with j prefix_balance ≡ false
      → kv.get (transfer p s caller to amount).1 j ≡ kv.get s j
  unfolding transfer
  transfer_elsewhere r p s caller to amount j h =
      let (p₁, s₁) = set_balance p s caller (balance p caller - amount) in
      ground (
        arith,
        set_balance_elsewhere r p s caller (balance p caller - amount) j h,
        set_balance_elsewhere r p₁ s₁ to (balance p to + amount) j h,
      )
