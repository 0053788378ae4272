-- ===== src/BTreeMap/Last.antt =====
-- The greatest key of a map before and after an insertion.
use Prim.Native.Nat.Ordering.{lt}
use rust_state_machine.Shared.{
  Option-cases, inl, inr, ◌≡◌, ◌≢◌, refl, some, none, [], ◌∷◌, arith, All, unwrap_or,
}
use rust_state_machine.Shared.Order.{Ord}
use rust_state_machine.BTreeMap.{BTreeMap, last_key, get, insert}

last_key-cons {ℓ κ} :
    {K : Type ℓ} {V : Type κ} (k : K) (v : V) (m : BTreeMap K V)
    → last_key ((k, v) ∷ m) ≡ some (unwrap_or (last_key m) k)
unfolding last_key
last_key-cons k v [] = refl
last_key-cons k v ((j, w) ∷ []) = refl
last_key-cons k v ((j, w) ∷ e ∷ m) = ground (arith, last_key-cons j w (e ∷ m))

module _ {ℓ κ} {K : Type ℓ} {V : Type κ} ⦃o : Ord K⦄ where
  -- The greatest key has an entry.
  pub get-last_key : (m : BTreeMap K V) (top : K) → last_key m ≡ some top → get m top ≢ none
  unfolding get
  get-last_key [] top e h = unfold last_key in cc
  get-last_key ((k, v) ∷ m) top e h = elim (Option-cases (last_key m)) [
    | inl n ↦ ground (arith, last_key-cons k v m, o.cmp-self k)
    | inr (t, n) ↦ ground (arith, last_key-cons k v m, get-last_key m t n)
  ]

  -- A map that was just written to has a greatest key.
  pub last_key-insert-ne_none : (m : BTreeMap K V) (q : K) (w : V) → last_key (insert m q w) ≢ none
  unfolding insert
  last_key-insert-ne_none [] q w h = unfold last_key in cc
  last_key-insert-ne_none ((k, v) ∷ m) q w h =
      ground (
        arith,
        last_key-cons q w ((k, v) ∷ m),
        last_key-cons q w m,
        last_key-cons k v (insert m q w),
      )

  -- A key below the greatest leaves it the greatest.
  pub last_key-insert_below :
      (m : BTreeMap K V) (q : K) (w : V) {top : K}
      → last_key m ≡ some top
      → o.cmp q top ≡ lt
      → last_key (insert m q w) ≡ some top
  unfolding insert
  last_key-insert_below [] q w e h = unfold last_key in cc
  last_key-insert_below ((k, v) ∷ m) q w {top} e h = ground (
    arith,
    last_key-cons q w ((k, v) ∷ m),
    last_key-cons q w m,
    last_key-cons k v m,
    last_key-cons k v (insert m q w),
    last_key-insert_below m q w {top = top},
  )

  -- A key above all others becomes the greatest.
  pub last_key-insert_above :
      (m : BTreeMap K V) (q : K) (w : V)
      → All (λ e. o.cmp e.0 q ≡ lt) m
      → last_key (insert m q w) ≡ some q
  unfolding insert
  last_key-insert_above [] q w h = unfold last_key in refl
  last_key-insert_above ((k, v) ∷ m) q w h =
      ground
        (arith, last_key-cons k v (insert m q w), last_key-insert_above m q w, o.cmp-reversed k q)
