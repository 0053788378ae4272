-- ===== src/Balances/Supply.antt =====
-- The sum of all balances of src/balances.rs, before and after a transfer.
use rust_state_machine.Shared.{ℕ, ◌+◌, ◌-◌, ◌≤◌, ◌≡◌, ◌≢◌, arith, IsU128}
use rust_state_machine.Shared.Order.{Ord, same_iff}
use rust_state_machine.Codec.{Codec, Always}
use rust_state_machine.Store.{KeyValueStore}
use rust_state_machine.BTreeMap.Order.{IsSorted}
use rust_state_machine.BTreeMap.Total.{total, total-insert}
use rust_state_machine.Balances.{Pallet, balance, set_balance, transfer}
use rust_state_machine.Balances.Transfer.{balance-set_balance, set_balance-IsSorted}

module _ {K : Type 0} where
  abbrev pub supply : Pallet K → ℕ
  supply p = total p.balances

module _ {K S : Type 0} ⦃o : Ord K⦄ ⦃kc : Codec K Always⦄ ⦃u128_codec : Codec ℕ IsU128⦄
    ⦃kv : KeyValueStore S⦄ where
  -- Setting one balance replaces it in the sum.
  supply-set_balance :
      (p : Pallet K) (s : S) (who : K) (amount : ℕ)
      → IsSorted p.balances
      → supply (set_balance p s who amount).0 + balance p who ≡ supply p + amount
  unfolding set_balance balance
  supply-set_balance p s who amount h = total-insert p.balances who amount h

  -- A transfer between two accounts conserves the sum, also where it fails.
  pub supply-transfer :
      (p : Pallet K) (s : S) (caller to : K) (amount : ℕ)
      → IsSorted p.balances
      → caller ≢ to
      → supply (transfer p s caller to amount).0 ≡ supply p
  unfolding transfer
  supply-transfer p s caller to amount h ne =
      let (p₁, s₁) = set_balance p s caller (balance p caller - amount) in
      ground (
        arith,
        supply-set_balance p s caller (balance p caller - amount) h,
        supply-set_balance p₁ s₁ to (balance p to + amount)
            (set_balance-IsSorted p s caller (balance p caller - amount) h),
        balance-set_balance p s caller to (balance p caller - amount),
        same_iff to caller,
      )

  -- In an ordered map of balances, a transfer of an account to itself that is covered and does
  -- not overflow raises the sum by the amount.
  pub supply-transfer_to_self :
      (p : Pallet K) (s : S) (caller : K) (amount : ℕ)
      → IsSorted p.balances
      → amount ≤ balance p caller
      → IsU128 (balance p caller + amount)
      → supply (transfer p s caller caller amount).0 ≡ supply p + amount
  unfolding transfer
  supply-transfer_to_self p s caller amount h covered fits =
      let (p₁, s₁) = set_balance p s caller (balance p caller - amount) in
      ground (
        arith,
        supply-set_balance p s caller (balance p caller - amount) h,
        supply-set_balance p₁ s₁ caller (balance p caller + amount)
            (set_balance-IsSorted p s caller (balance p caller - amount) h),
        balance-set_balance p s caller caller (balance p caller - amount),
        same_iff caller caller,
      )
