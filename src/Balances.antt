-- ===== src/Balances.antt =====
-- The balances pallet, src/balances.rs. An error of a write to the store is only printed, so the
-- model passes over it.
pub mod Calls
pub mod Transfer
pub mod Supply
pub mod InStep
use rust_state_machine.Shared.{ℕ, [], checked_add, checked_sub, unwrap_or, IsU128, ok, err, ok_or}
use rust_state_machine.Shared.Order.{Ord, Bytes}
use rust_state_machine.Codec.{Codec, Always}
use rust_state_machine.Store.{KeyValueStore}
use rust_state_machine.Storage.{codes, load_entries, entry_key}
use rust_state_machine.Dispatch.{DispatchResult, not_enough_funds, overflow}
use rust_state_machine.BTreeMap as Map
use rust_state_machine.BTreeMap.{BTreeMap}
use Calls.{Call}

abbrev pub prefix_balance : Bytes
prefix_balance = codes "balances:"

pub record Pallet (K : Type 0) : Type 0 where
  pub balances : BTreeMap K ℕ

module _ {K : Type 0} ⦃kc : Codec K Always⦄ where
  unfoldable pub balance_key : K → Bytes
  unfolding entry_key
  balance_key who = entry_key prefix_balance who

module _ {K : Type 0} ⦃o : Ord K⦄ where
  unfoldable pub balance : Pallet K → K → ℕ
  balance p who = unwrap_or (Map.get p.balances who) 0

module _ {K S : Type 0} ⦃o : Ord K⦄ ⦃kc : Codec K Always⦄ ⦃u128_codec : Codec ℕ IsU128⦄
    ⦃kv : KeyValueStore S⦄ where
  unfoldable pub new : S → Pallet K
  new s = record {
    balances = load_entries IsU128 prefix_balance [] (kv.scan_prefix s prefix_balance);
  }

  unfoldable pub set_balance : Pallet K → S → K → ℕ → Pallet K × S
  set_balance p s who amount = (
    record { balances = Map.insert p.balances who amount },
    (kv.put s (balance_key who) (u128_codec.encode amount)).0,
  )

  unfoldable pub transfer : Pallet K → S → K → K → ℕ → Pallet K × S × DispatchResult
  transfer p s caller to amount =
      let caller_balance = balance p caller in
      let to_balance = balance p to in
      elim (ok_or (checked_sub caller_balance amount) not_enough_funds) [
        | err e ↦ (p, s, err e)
        | ok new_caller_balance ↦ elim (ok_or (checked_add 128 to_balance amount) overflow) [
          | err e ↦ (p, s, err e)
          | ok new_to_balance ↦
              let (p₁, s₁) = set_balance p s caller new_caller_balance in
              let (p₂, s₂) = set_balance p₁ s₁ to new_to_balance in (p₂, s₂, ok tt)
        ]
      ]

  -- Generated by `#[macros::call]`: a match over the calls, each handed the caller first.
  unfoldable pub dispatch : Pallet K → S → K → Call K → Pallet K × S × DispatchResult
  dispatch p s caller (Call.transfer to amount) = transfer p s caller to amount
