-- ===== src/BTreeMap/Order.antt =====
-- The order of the keys in a map.
use Prim.Native.Nat.Ordering.{lt}
use mathlib.Core.Path.{subst}
use rust_state_machine.Shared.{
  Bool-cases, inl, inr, ◌≡◌, refl, none, some, [], ◌∷◌, arith, All, All-imp,
}
use rust_state_machine.Shared.Order.{Ord, same, same_iff}
use rust_state_machine.BTreeMap.{BTreeMap, get, insert, remove, get-insert, get-remove}

module _ {ℓ κ} {K : Type ℓ} {V : Type κ} ⦃o : Ord K⦄ where
  abbrev pub IsSorted : BTreeMap K V → Type 0
  IsSorted [] = Unit
  IsSorted ((k, v) ∷ m) = All (λ e. o.cmp k e.0 ≡ lt) m × IsSorted m

  pub All-insert {μ} :
      (P : K × V → Type μ) (m : BTreeMap K V) (q : K) (w : V)
      → P (q, w)
      → All P m
      → All P (insert m q w)
  unfolding insert
  All-insert P [] q w p h = (p, tt)
  All-insert P ((k, v) ∷ m) q w p h = ground (arith, All-insert P m q w)

  All-remove {μ} : (P : K × V → Type μ) (m : BTreeMap K V) (q : K) → All P m → All P (remove m q)
  unfolding remove
  All-remove P [] q h = tt
  All-remove P ((k, v) ∷ m) q h = ground (arith, All-remove P m q)

  -- A key below a key that is below a map is below the map.
  pub below_trans :
      (m : BTreeMap K V) (q k : K)
      → o.cmp q k ≡ lt
      → All (λ e. o.cmp k e.0 ≡ lt) m
      → All (λ e. o.cmp q e.0 ≡ lt) m
  below_trans m q k h = All-imp (λ (e : K × V). o.cmp_trans q k e.0 h) m

  pub insert-IsSorted : (m : BTreeMap K V) (q : K) (w : V) → IsSorted m → IsSorted (insert m q w)
  unfolding insert
  insert-IsSorted [] q w h = (tt, tt)
  insert-IsSorted ((k, v) ∷ m) q w h = ground (
    arith,
    insert-IsSorted m q w,
    All-insert (λ e. o.cmp k e.0 ≡ lt) m q w,
    o.cmp-reversed q k,
    o.eq_of_cmp q k,
    below_trans m q k,
  )

  pub remove-IsSorted : (m : BTreeMap K V) (q : K) → IsSorted m → IsSorted (remove m q)
  unfolding remove
  remove-IsSorted [] q h = tt
  remove-IsSorted ((k, v) ∷ m) q h =
      ground (arith, remove-IsSorted m q, All-remove (λ e. o.cmp k e.0 ≡ lt) m q)

  -- A key below all keys of a map is not in it.
  pub get_below : (m : BTreeMap K V) (q : K) → All (λ e. o.cmp q e.0 ≡ lt) m → get m q ≡ none
  unfolding get
  get_below [] q h = refl
  get_below ((k, v) ∷ m) q h = ground (arith, get_below m q)

  -- Two maps that answer alike begin with the same entry.
  same_head :
      (k j : K) (v w : V) (m n : BTreeMap K V)
      → IsSorted ((k, v) ∷ m)
      → IsSorted ((j, w) ∷ n)
      → ((q : K) → get ((k, v) ∷ m) q ≡ get ((j, w) ∷ n) q)
      → (k ≡ j) × (v ≡ w)
  unfolding get
  same_head k j v w m n h g e = ground (
    arith,
    e k,
    e j,
    get_below m j,
    get_below n k,
    below_trans n k j,
    below_trans m j k,
    o.cmp-self k,
    o.cmp-self j,
    o.cmp-reversed k j,
    o.eq_of_cmp k j,
  )

  same_tail :
      (k j : K) (v w : V) (m n : BTreeMap K V)
      → k ≡ j
      → IsSorted ((k, v) ∷ m)
      → IsSorted ((j, w) ∷ n)
      → ((q : K) → get ((k, v) ∷ m) q ≡ get ((j, w) ∷ n) q)
      → (q : K) → get m q ≡ get n q
  unfolding get
  same_tail k j v w m n kj h g e q =
      ground (arith, e q, get_below m q, get_below n q, o.eq_of_cmp q k)

  -- Two maps in order that answer alike have the same entries.
  pub eq_of_get :
      (m n : BTreeMap K V) → IsSorted m → IsSorted n → ((q : K) → get m q ≡ get n q) → m ≡ n
  eq_of_get [] [] h g e = refl
  eq_of_get [] ((k, v) ∷ n) h g e = unfold get in ground (arith, e k, o.cmp-self k)
  eq_of_get ((k, v) ∷ m) [] h g e = unfold get in ground (arith, e k, o.cmp-self k)
  eq_of_get ((k, v) ∷ m) ((j, w) ∷ n) h g e =
      let s = same_head k j v w m n h g e in
      cc (s.0, s.1, eq_of_get m n h.1 g.1 (same_tail k j v w m n s.0 h g e))

  pub All-get {μ} :
      (P : K × V → Type μ) (m : BTreeMap K V) (q : K) (v : V)
      → All P m
      → get m q ≡ some v
      → P (q, v)
  unfolding get
  All-get P [] q v h e = cc
  All-get P ((k, w) ∷ m) q v h e = elim (Bool-cases (same q k)) [
    | inl here ↦ subst P (ground (arith, o.eq_of_cmp q k)) h.0
    | inr there ↦ All-get P m q v h.1 (ground arith)
  ]

  -- Removing a key that was just added gives the old map back.
  pub remove-insert :
      (m : BTreeMap K V) (q : K) (w : V) → IsSorted m → get m q ≡ none → remove (insert m q w) q ≡ m
  remove-insert m q w h e =
      eq_of_get (remove (insert m q w) q) m
        (remove-IsSorted (insert m q w) q (insert-IsSorted m q w h)) h
        (λ p. ground (arith, get-remove (insert m q w) q p, get-insert m q p w, same_iff p q))
