-- ===== src/BTreeMap.antt =====
-- `std::collections::BTreeMap`: its entries in the order of the keys.
pub mod Order
pub mod Total
pub mod Last
use Prim.Native.Nat.Ordering.{lt, eq, gt}
use rust_state_machine.Shared.{
  ◌≡◌, refl, Option, none, some, List, [], ◌∷◌, arith, Bool, true, false, if◌then◌else◌, is_some,
}
use rust_state_machine.Shared.Order.{Ord, same}

abbrev pub BTreeMap {ℓ κ} : Type ℓ → Type κ → Type (ℓ ⊔ κ)
BTreeMap K V = List (K × V)

-- `map.keys().last()`
unfoldable pub last_key {ℓ κ} : {K : Type ℓ} {V : Type κ} → BTreeMap K V → Option K
last_key [] = none
last_key ((k, v) ∷ []) = some k
last_key ((k, v) ∷ e ∷ m) = last_key (e ∷ m)

module _ {ℓ κ} {K : Type ℓ} {V : Type κ} ⦃o : Ord K⦄ where
  unfoldable pub get : BTreeMap K V → K → Option V
  get [] q = none
  get ((k, v) ∷ m) q = elim (o.cmp q k) [ eq ↦ some v | _ ↦ get m q ]

  unfoldable pub insert : BTreeMap K V → K → V → BTreeMap K V
  insert [] q w = (q, w) ∷ []
  insert ((k, v) ∷ m) q w = elim (o.cmp q k) [
    | lt ↦ (q, w) ∷ (k, v) ∷ m
    | eq ↦ (q, w) ∷ m
    | gt ↦ (k, v) ∷ insert m q w
  ]

  unfoldable pub remove : BTreeMap K V → K → BTreeMap K V
  remove [] q = []
  remove ((k, v) ∷ m) q = elim (o.cmp q k) [ eq ↦ remove m q | _ ↦ (k, v) ∷ remove m q ]

  abbrev pub contains_key : BTreeMap K V → K → Bool
  contains_key m q = is_some (get m q)

  pub get-insert :
      (m : BTreeMap K V) (q p : K) (w : V)
      → get (insert m q w) p ≡ (if same p q then some w else get m p)
  unfolding get insert
  get-insert [] q p w = ground arith
  get-insert ((k, v) ∷ m) q p w =
      ground (arith, get-insert m q p w, o.eq_of_cmp q k, o.eq_of_cmp p q, o.eq_of_cmp p k)

  pub get-remove :
      (m : BTreeMap K V) (q p : K) → get (remove m q) p ≡ (if same p q then none else get m p)
  unfolding get remove
  get-remove [] q p = ground arith
  get-remove ((k, v) ∷ m) q p = ground (
    arith,
    get-remove m q p,
    o.eq_of_cmp q k,
    o.eq_of_cmp p q,
    o.eq_of_cmp p k,
    o.cmp-reversed k q,
  )
