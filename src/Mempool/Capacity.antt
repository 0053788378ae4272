-- ===== src/Mempool/Capacity.antt =====
-- Sequences of operations on a pool with a capacity (src/support.rs).
use rust_state_machine.Shared.{
  zero, ap, length-filter_by, ℕ, suc, ◌≤◌, ◌≡◌, refl, Bool, some, List, [], ◌∷◌, arith, length,
  length-append, length-drop,
}
use rust_state_machine.Mempool.{
  Mempool, submit, drain_for_block, remove_at, remove, retain, with_capacity,
}
use rust_state_machine.Mempool.Laws.{drain_for_block_lem}

-- A call of one of the operations.
pub data Op (E : Type 0) : Type 0 where
  submitted : E → Op E
  drained : ℕ → Op E
  removed : ℕ → Op E
  retained : (E → Bool) → Op E

module _ {E : Type 0} where
  unfoldable pub step : Mempool E → Op E → Mempool E
  step m (Op.submitted x) = (submit m x).0
  step m (Op.drained n) = (drain_for_block m n).0
  step m (Op.removed i) = (remove m i).0
  step m (Op.retained f) = retain m f

  unfoldable pub run : Mempool E → List (Op E) → Mempool E
  run m [] = m
  run m (op ∷ ops) = run (step m op) ops

  abbrev pub IsBounded : ℕ → Mempool E → Type 0
  IsBounded max m = (m.max_capacity ≡ some max) × (length m.pending ≤ max)

  length-remove_at : (xs : List E) (i : ℕ) → length (remove_at xs i).0 ≤ length xs
  unfolding remove_at
  length-remove_at [] i = omega arith
  length-remove_at (x ∷ xs) zero = omega arith
  length-remove_at (x ∷ xs) (suc i) = omega (arith, length-remove_at xs i)

  step-IsBounded :
      (max : ℕ) (m : Mempool E) (op : Op E) → IsBounded max m → IsBounded max (step m op)
  unfolding step
  step-IsBounded max m (Op.submitted x) h =
      unfold submit in ground (arith, length-append m.pending (x ∷ []))
  step-IsBounded max m (Op.drained n) h =
      let e = (drain_for_block_lem m n).1 in
      (unfold drain_for_block in h.0, omega (arith, h.1, ap length e, length-drop n m.pending))
  step-IsBounded max m (Op.removed i) h =
      unfold remove in ground (arith, length-remove_at m.pending i)
  step-IsBounded max m (Op.retained f) h =
      unfold retain in (h.0, omega (arith, h.1, length-filter_by f m.pending))

  run-IsBounded :
      (max : ℕ) (m : Mempool E) (ops : List (Op E)) → IsBounded max m → IsBounded max (run m ops)
  unfolding run
  run-IsBounded max m [] h = h
  run-IsBounded max m (op ∷ ops) h = run-IsBounded max (step m op) ops (step-IsBounded max m op h)

  -- Whatever is done to a pool made with a capacity, it never holds more.
  pub with_capacity_bounds :
      (max : ℕ) (ops : List (Op E)) → length (run (with_capacity max) ops).pending ≤ max
  with_capacity_bounds max ops =
      (run-IsBounded max (with_capacity max) ops (unfold with_capacity in (refl, omega arith))).1
