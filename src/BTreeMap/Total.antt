-- ===== src/BTreeMap/Total.antt =====
-- The sum of the values of a map with numbers for values.
use rust_state_machine.Shared.{ℕ, ◌+◌, ◌≡◌, [], ◌∷◌, arith, unwrap_or}
use rust_state_machine.Shared.Order.{Ord}
use rust_state_machine.BTreeMap.{BTreeMap, get, insert}
use rust_state_machine.BTreeMap.Order.{IsSorted, get_below, below_trans}

abbrev pub total {ℓ} : {K : Type ℓ} → BTreeMap K ℕ → ℕ
total [] = 0
total ((k, v) ∷ m) = v + total m

module _ {ℓ} {K : Type ℓ} ⦃o : Ord K⦄ where
  -- A write replaces one summand; a key that is not there counts as 0.
  pub total-insert :
      (m : BTreeMap K ℕ) (q : K) (w : ℕ)
      → IsSorted m
      → total (insert m q w) + unwrap_or (get m q) 0 ≡ total m + w
  unfolding insert get
  total-insert [] q w h = omega arith
  total-insert ((k, v) ∷ m) q w h =
      ground (arith, total-insert m q w, get_below m q, below_trans m q k, o.eq_of_cmp q k)
