-- ===== src/Balances/Transfer.antt =====
-- `transfer` of src/balances.rs, branch by branch.
use rust_state_machine.Shared.{
  ◌^◌, Bool-cases, ltb, ◌⊎◌, ℕ, ◌+◌, ◌-◌, ◌≤◌, ◌<◌, ◌≡◌, ◌≢◌, arith, All, IsU128, ok, err,
  if◌then◌else◌, Option-cases, inl, inr,
}
use rust_state_machine.Shared.Order.{Ord, same, same_iff}
use rust_state_machine.Codec.{Codec, Always}
use rust_state_machine.Store.{KeyValueStore}
use rust_state_machine.Dispatch.{DispatchError, not_enough_funds, overflow}
use rust_state_machine.BTreeMap as Map
use rust_state_machine.BTreeMap.Order.{IsSorted, insert-IsSorted, All-insert, All-get}
use rust_state_machine.Balances.{Pallet, balance, set_balance, transfer}

module _ {K : Type 0} ⦃o : Ord K⦄ where
  pub record IsValid (p : Pallet K) : Type 0 where
    pub sorted : IsSorted p.balances
    pub balances_fit : All (λ e. IsU128 e.1) p.balances

  pub balance-IsU128 : (p : Pallet K) (who : K) → IsValid p → IsU128 (balance p who)
  unfolding balance
  balance-IsU128 p who h = elim (Option-cases (Map.get p.balances who)) [
    | inl e ↦ rw e (omega arith)
    | inr (n, e) ↦ rw e (All-get (λ e. IsU128 e.1) p.balances who n h.balances_fit e)
  ]

module _ {K S : Type 0} ⦃o : Ord K⦄ ⦃kc : Codec K Always⦄ ⦃u128_codec : Codec ℕ IsU128⦄
    ⦃kv : KeyValueStore S⦄ where
  pub balance-set_balance :
      (p : Pallet K) (s : S) (who a : K) (amount : ℕ)
      → balance (set_balance p s who amount).0 a ≡ (if same a who then amount else balance p a)
  unfolding set_balance balance
  balance-set_balance p s who a amount = ground (arith, Map.get-insert p.balances who a amount)

  -- Between two accounts, an amount that is covered and does not overflow moves from one to the
  -- other, and no third balance changes.
  pub transfer_moves :
      (p : Pallet K) (s : S) (caller to a : K) (amount : ℕ)
      → caller ≢ to
      → amount ≤ balance p caller
      → IsU128 (balance p to + amount)
      → let (p', s', r) = transfer p s caller to amount in
        (r ≡ ok tt)
        × (balance p' a ≡ (
            if same a caller
            then balance p caller - amount
            else if same a to
            then balance p to + amount
            else balance p a))
  unfolding transfer
  transfer_moves p s caller to a amount ne covered fits =
      let (p₁, s₁) = set_balance p s caller (balance p caller - amount) in
      ground (
        arith,
        balance-set_balance p₁ s₁ to a (balance p to + amount),
        balance-set_balance p s caller a (balance p caller - amount),
        same_iff a caller,
        same_iff a to,
      )

  -- A transfer fails exactly if the amount is not covered or overflows, and then changes nothing.
  transfer_fails :
      (p : Pallet K) (s : S) (caller to : K) (amount : ℕ)
      → (balance p caller < amount → transfer p s caller to amount ≡ (p, s, err not_enough_funds))
        × (amount ≤ balance p caller
            → ¬ IsU128 (balance p to + amount)
            → transfer p s caller to amount ≡ (p, s, err overflow))
        × ((e : DispatchError)
            → (transfer p s caller to amount).2 ≡ err e
            → transfer p s caller to amount ≡ (p, s, err e))
  unfolding transfer
  transfer_fails p s caller to amount =
      (λ h. ground arith, λ h g. ground arith, λ e h. ground arith)

  -- A transfer fails for want of funds if the amount is more than the caller has, with an
  -- overflow if it is covered but does not fit on top of what the recipient has, and else goes
  -- through. A failure changes neither the balances nor the store.
  pub transfer_result :
      (p : Pallet K) (s : S) (caller to : K) (amount : ℕ)
      → let (p', s', r) = transfer p s caller to amount in
        (r ≡ (
          if ltb (balance p caller) amount
          then err not_enough_funds
          else if ltb (balance p to + amount) (2 ^ 128)
          then ok tt
          else err overflow))
        × ((r ≡ ok tt) ⊎ ((p' ≡ p) × (s' ≡ s)))
  unfolding transfer
  transfer_result p s caller to amount = elim (Bool-cases (ltb (balance p caller) amount)) [
    | inl poor ↦ (ground arith, inr (ground arith, ground arith))
    | inr rich ↦ elim (Bool-cases (ltb (balance p to + amount) (2 ^ 128))) [
      | inl fits ↦ (ground arith, inl (ground arith))
      | inr full ↦ (ground arith, inr (ground arith, ground arith))
    ]
  ]

  pub set_balance-IsSorted :
      (p : Pallet K) (s : S) (who : K) (amount : ℕ)
      → IsSorted p.balances
      → IsSorted (set_balance p s who amount).0.balances
  unfolding set_balance
  set_balance-IsSorted p s who amount h = insert-IsSorted p.balances who amount h

  pub set_balance-IsValid :
      (p : Pallet K) (s : S) (who : K) (amount : ℕ)
      → IsValid p
      → IsU128 amount
      → IsValid (set_balance p s who amount).0
  unfolding set_balance
  set_balance-IsValid p s who amount h f = record {
    sorted = insert-IsSorted p.balances who amount h.sorted;
    balances_fit = All-insert (λ e. IsU128 e.1) p.balances who amount f h.balances_fit;
  }

  pub transfer-IsValid :
      (p : Pallet K) (s : S) (caller to : K) (amount : ℕ)
      → IsValid p
      → IsValid (transfer p s caller to amount).0
  unfolding transfer
  transfer-IsValid p s caller to amount h =
      grind (arith, balance-IsU128 p caller h, set_balance-IsValid)

  -- An account that pays itself ends with its balance raised by the amount.
  transfer_to_self :
      (p : Pallet K) (s : S) (caller a : K) (amount : ℕ)
      → amount ≤ balance p caller
      → IsU128 (balance p caller + amount)
      → let (p', s', r) = transfer p s caller caller amount in
        (r ≡ ok tt)
        × (balance p' a ≡ (if same a caller then balance p caller + amount else balance p a))
  unfolding transfer
  transfer_to_self p s caller a amount covered fits =
      let (p₁, s₁) = set_balance p s caller (balance p caller - amount) in
      ground (
        arith,
        balance-set_balance p₁ s₁ caller a (balance p caller + amount),
        balance-set_balance p s caller a (balance p caller - amount),
        same_iff a caller,
      )
