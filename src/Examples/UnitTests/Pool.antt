-- ===== src/Examples/UnitTests/Pool.antt =====
-- The tests of `Mempool` in src/support.rs.
use rust_state_machine.Shared.{
  ℕ, ◌%◌, ◌≡◌, refl, Option, some, none, List, [], ◌∷◌, ok, err, ◌==◌, not, Bool, true, false,
  Result,
}
use rust_state_machine.Shared.Order.{bytes_ord, same}
use rust_state_machine.Mempool
use rust_state_machine.Mempool.{Mempool, MempoolFull}
use package.rust_state_machine.Examples.UnitTests.{Test, ◌>>◌, assert}

-- `Result::is_ok` of a submission.
abbrev entered : Result (Unit {0}) MempoolFull → Bool
entered (ok _) = true
entered (err _) = false

-- `submit(…).unwrap()`, one after the other.
abbrev submit_all : Mempool ℕ → List ℕ → Mempool ℕ × Test
submit_all pool [] = (pool, some tt)
submit_all pool (x ∷ xs) =
    let (pool₁, r) = Mempool.submit pool x in
    let (pool₂, rest) = submit_all pool₁ xs in (pool₂, assert (entered r) >> rest)

-- `assert_eq!` of a removed element.
abbrev assert_removed : Option ℕ → Option ℕ → Test
assert_removed none none = some tt
assert_removed none (some b) = none
assert_removed (some a) none = none
assert_removed (some a) (some b) = assert (a == b)

abbrev mempool_new_is_empty : Test
mempool_new_is_empty = do
  let pool : Mempool ℕ = Mempool.new
  assert (Mempool.is_empty pool)
  assert (Mempool.len pool == 0)

abbrev mempool_submit_and_drain_all : Test
mempool_submit_and_drain_all = do
  let (pool₁, submitted) = submit_all Mempool.new (1 ∷ 2 ∷ 3 ∷ [])
  submitted
  let (pool₂, batch) = Mempool.drain_for_block pool₁ 10
  assert (same batch (1 ∷ 2 ∷ 3 ∷ []))
  assert (Mempool.is_empty pool₂)

abbrev mempool_drain_partial_leaves_remainder : Test
mempool_drain_partial_leaves_remainder = do
  let (pool₁, submitted) = submit_all Mempool.new (0 ∷ 1 ∷ 2 ∷ 3 ∷ 4 ∷ [])
  submitted
  let (pool₂, batch) = Mempool.drain_for_block pool₁ 3
  assert (same batch (0 ∷ 1 ∷ 2 ∷ []))
  assert (Mempool.len pool₂ == 2)

abbrev mempool_drain_from_empty_returns_empty_vec : Test
mempool_drain_from_empty_returns_empty_vec =
    assert (same (Mempool.drain_for_block {E = ℕ} Mempool.new 10).1 [])

abbrev mempool_capacity_rejects_overflow : Test
mempool_capacity_rejects_overflow = do
  let (pool₁, r₁) = Mempool.submit {E = ℕ} (Mempool.with_capacity 2) 1
  assert (entered r₁)
  let (pool₂, r₂) = Mempool.submit pool₁ 2
  assert (entered r₂)
  let (pool₃, r₃) = Mempool.submit pool₂ 3
  assert (not (entered r₃))
  assert (Mempool.len pool₃ == 2)

abbrev mempool_block_limit_signals_correctly : Test
mempool_block_limit_signals_correctly = do
  let pool : Mempool ℕ = Mempool.with_block_limit 2
  assert (not (Mempool.is_block_ready pool))
  let (pool₁, first) = submit_all pool (1 ∷ [])
  first
  assert (not (Mempool.is_block_ready pool₁))
  let (pool₂, second) = submit_all pool₁ (2 ∷ [])
  second
  assert (Mempool.is_block_ready pool₂)
  let (pool₃, batch) = Mempool.drain_for_block pool₂ 2
  assert (not (Mempool.is_block_ready pool₃))

abbrev mempool_retain_evicts_matching : Test
mempool_retain_evicts_matching = do
  let (pool₁, submitted) = submit_all Mempool.new (0 ∷ 1 ∷ 2 ∷ 3 ∷ 4 ∷ [])
  submitted
  let pool₂ = Mempool.retain pool₁ (λ x. x % 2 == 0)
  assert (same (Mempool.drain_for_block pool₂ 10).1 (0 ∷ 2 ∷ 4 ∷ []))

abbrev mempool_remove_by_index : Test
mempool_remove_by_index = do
  let (pool₁, submitted) = submit_all Mempool.new (10 ∷ 20 ∷ 30 ∷ [])
  submitted
  let (pool₂, removed) = Mempool.remove pool₁ 1
  assert_removed removed (some 20)
  assert (Mempool.len pool₂ == 2)
  assert (same (Mempool.drain_for_block pool₂ 10).1 (10 ∷ 30 ∷ []))

abbrev mempool_remove_out_of_bounds_returns_none : Test
mempool_remove_out_of_bounds_returns_none = do
  let (pool₁, submitted) = submit_all Mempool.new (1 ∷ [])
  submitted
  let (pool₂, removed) = Mempool.remove pool₁ 5
  assert_removed removed none
  assert (Mempool.len pool₂ == 1)

abbrev mempool_pending_extrinsics_iter : Test
mempool_pending_extrinsics_iter = do
  let (pool₁, submitted) = submit_all Mempool.new (10 ∷ 20 ∷ [])
  submitted
  assert (same pool₁.pending (10 ∷ 20 ∷ []))

-- All of them pass.
pool_tests-pass :
    (mempool_new_is_empty ≡ some tt)
    × (mempool_submit_and_drain_all ≡ some tt)
    × (mempool_drain_partial_leaves_remainder ≡ some tt)
    × (mempool_drain_from_empty_returns_empty_vec ≡ some tt)
    × (mempool_capacity_rejects_overflow ≡ some tt)
    × (mempool_block_limit_signals_correctly ≡ some tt)
    × (mempool_retain_evicts_matching ≡ some tt)
    × (mempool_remove_by_index ≡ some tt)
    × (mempool_remove_out_of_bounds_returns_none ≡ some tt)
    × (mempool_pending_extrinsics_iter ≡ some tt)
unfolding Mempool.new Mempool.with_capacity Mempool.with_block_limit Mempool.is_block_ready
    Mempool.submit Mempool.drain_loop Mempool.drain_for_block Mempool.remove_at Mempool.remove
    Mempool.len Mempool.is_empty Mempool.retain
pool_tests-pass = (refl, refl, refl, refl, refl, refl, refl, refl, refl, refl)
