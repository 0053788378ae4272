-- ===== src/Mempool.antt =====
-- `Mempool` of src/support.rs: received extrinsics in the order of arrival. A `usize` counts elements
-- in memory and cannot overflow here.
pub mod Laws
pub mod Capacity
use rust_state_machine.Shared.{
  ℕ, zero, suc, Bool, true, false, Option, none, some, List, [], ◌∷◌, ◌++◌, length, filter_by, leb,
  ltb, if◌then◌else◌, Result, ok, err,
}

pub record Mempool (E : Type 0) : Type 0 where
  pub pending : List E
  pub max_capacity : Option ℕ
  pub block_limit : Option ℕ

pub data MempoolFull : Type 0 where
  full : MempoolFull

module _ {E : Type 0} where
  unfoldable pub new : Mempool E
  new = record { pending = []; max_capacity = none; block_limit = none }

  unfoldable pub with_capacity : ℕ → Mempool E
  with_capacity max_len = record { pending = []; max_capacity = some max_len; block_limit = none }

  unfoldable pub with_block_limit : ℕ → Mempool E
  with_block_limit limit = record { pending = []; max_capacity = none; block_limit = some limit }

  unfoldable pub is_block_ready : Mempool E → Bool
  is_block_ready m = elim (m.block_limit) [
    | none ↦ false
    | some limit ↦ leb limit (length m.pending)
  ]

  unfoldable pub submit : Mempool E → E → Mempool E × Result (Unit {0}) MempoolFull
  submit m ext = elim (m.max_capacity) [
    | none ↦ (record m { pending = m.pending ++ (ext ∷ []) }, ok tt)
    | some max ↦
        if leb max (length m.pending)
        then (m, err full)
        else (record m { pending = m.pending ++ (ext ∷ []) }, ok tt)
  ]

  -- The loop of `drain_for_block`: the rounds left, the queue, and what was taken so far.
  unfoldable pub drain_loop : ℕ → List E → List E → List E × List E
  drain_loop zero queue exts = (exts, queue)
  drain_loop (suc n) [] exts = (exts, [])
  drain_loop (suc n) (ext ∷ queue) exts = drain_loop n queue (exts ++ (ext ∷ []))

  unfoldable pub drain_for_block : Mempool E → ℕ → Mempool E × List E
  drain_for_block m n =
      let (exts, queue) = drain_loop n m.pending [] in (record m { pending = queue }, exts)

  -- `VecDeque::remove`: the element at an index, and the queue without it.
  unfoldable pub remove_at : List E → ℕ → List E × Option E
  remove_at [] i = ([], none)
  remove_at (x ∷ xs) zero = (xs, some x)
  remove_at (x ∷ xs) (suc i) = let (rest, found) = remove_at xs i in (x ∷ rest, found)

  unfoldable pub remove : Mempool E → ℕ → Mempool E × Option E
  remove m index =
      if ltb index (length m.pending)
      then (let (rest, found) = remove_at m.pending index in (record m { pending = rest }, found))
      else (m, none)

  unfoldable pub len : Mempool E → ℕ
  len m = length m.pending

  unfoldable pub is_empty : Mempool E → Bool
  is_empty m = elim (m.pending) [ [] ↦ true | _ ↦ false ]

  unfoldable pub retain : Mempool E → (E → Bool) → Mempool E
  retain m f = record m { pending = filter_by f m.pending }
