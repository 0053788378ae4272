-- ===== src/Mempool/Laws.antt =====
-- What each operation of the pool (src/support.rs) does to the pending extrinsics.
use rust_state_machine.Shared.{
  ltb, take_all, length-take, filter_by-append, ℕ, zero, suc, ◌≤◌, ◌<◌, ◌≡◌, refl, Bool, true,
  false, none, some, List, [], ◌∷◌, ◌++◌, arith, length, take, drop, take-append-drop, get_elem?,
  Bool-cases, inl, inr, ap, ◌∙◌,
}
use mathlib.Core.List.{append_assoc, append-nil}
use rust_state_machine.Mempool.{
  Mempool, new, submit, drain_loop, drain_for_block, remove_at, remove, retain, is_block_ready,
}

module _ {E : Type 0} where
  drain_loop_lem :
      (n : ℕ) (queue exts : List E) → drain_loop n queue exts ≡ (exts ++ take n queue, drop n queue)
  unfolding drain_loop
  drain_loop_lem zero queue exts = rw append-nil
  drain_loop_lem (suc n) [] exts = rw append-nil
  drain_loop_lem (suc n) (x ∷ queue) exts =
      drain_loop_lem n queue (exts ++ (x ∷ [])) ∙ rw append_assoc

  -- Draining takes the oldest extrinsics, up to the number asked for, and leaves the others in order.
  pub drain_for_block_lem :
      (m : Mempool E) (n : ℕ)
      → let (m', exts) = drain_for_block m n in
        (exts ≡ take n m.pending)
        × (m'.pending ≡ drop n m.pending)
        × (exts ++ m'.pending ≡ m.pending)
  unfolding drain_for_block
  drain_for_block_lem m n =
      rw (drain_loop_lem n m.pending []) (refl, refl, take-append-drop n m.pending)

  -- The extrinsics submitted to a pool, one after another; those that find it full are refused.
  abbrev pub submit_all : Mempool E → List E → Mempool E
  submit_all m [] = m
  submit_all m (x ∷ xs) = submit_all (submit m x).0 xs

  submit_unbounded :
      (m : Mempool E) (x : E)
      → m.max_capacity ≡ none
      → (submit m x).0 ≡ record m { pending = m.pending ++ (x ∷ []) }
  unfolding submit
  submit_unbounded m x h = ground arith

  submit_all_pending :
      (m : Mempool E) (xs : List E)
      → m.max_capacity ≡ none
      → ((submit_all m xs).pending ≡ m.pending ++ xs)
  submit_all_pending m [] h = rw append-nil
  submit_all_pending m (x ∷ xs) h =
      let e = submit_unbounded m x h in
      submit_all_pending (submit m x).0 xs (ap (λ (m : Mempool E). m.max_capacity) e ∙ h)
      ∙ ap (λ (m : Mempool E). m.pending ++ xs) e
      ∙ append_assoc m.pending (x ∷ []) xs

  -- Without a capacity, draining as many as were submitted to a new pool returns them all in the
  -- order of submission.
  drain_for_block-submit_all :
      (xs : List E) → (drain_for_block (submit_all new xs) (length xs)).1 ≡ xs
  drain_for_block-submit_all xs =
      let kept : (submit_all new xs).pending ≡ xs =
        submit_all_pending new xs (unfold new in refl) ∙ (unfold new in refl) in
      (drain_for_block_lem (submit_all new xs) (length xs)).0
      ∙ ap (take (length xs)) kept
      ∙ take_all xs

  remove_at_lem :
      (xs : List E) (i : ℕ)
      → ((remove_at xs i).1 ≡ get_elem? xs i) × ((remove_at xs i).0 ≡ take i xs ++ drop (suc i) xs)
  unfolding remove_at
  remove_at_lem [] zero = (refl, refl)
  remove_at_lem [] (suc i) = (refl, refl)
  remove_at_lem (x ∷ xs) zero = (refl, refl)
  remove_at_lem (x ∷ xs) (suc i) = let t = remove_at_lem xs i in (t.0, ap (λ l. x ∷ l) t.1)

  beyond :
      (xs : List E) (i : ℕ)
      → length xs ≤ i
      → (none ≡ get_elem? xs i) × (xs ≡ take i xs ++ drop (suc i) xs)
  beyond [] zero h = (refl, refl)
  beyond [] (suc i) h = (refl, refl)
  beyond (x ∷ xs) zero h = absurd (omega arith)
  beyond (x ∷ xs) (suc i) h = let t = beyond xs i (omega arith) in (t.0, ap (λ l. x ∷ l) t.1)

  -- An index in range gives its extrinsic and closes the gap; any other changes nothing.
  remove_lem :
      (m : Mempool E) (i : ℕ)
      → let (m', found) = remove m i in
        (found ≡ get_elem? m.pending i) × (m'.pending ≡ take i m.pending ++ drop (suc i) m.pending)
  unfolding remove
  remove_lem m i = elim (Bool-cases (ltb i (length m.pending))) [
    | inl inside ↦ rw inside (remove_at_lem m.pending i)
    | inr outside ↦ rw outside (beyond m.pending i (ground arith))
  ]

  -- Without a capacity, retaining commutes with submitting an extrinsic that passes the test.
  retain-submit :
      (m : Mempool E) (f : E → Bool) (x : E)
      → m.max_capacity ≡ none
      → f x ≡ true
      → (retain (submit m x).0 f) ≡ (submit (retain m f) x).0
  unfolding retain submit
  retain-submit m f x h e = ground (arith, filter_by-append f m.pending (x ∷ []))

  -- `is_block_ready` turns true exactly when the pool holds as many extrinsics as a block takes, and
  -- draining a whole block then fills it.
  is_block_ready_lem :
      (m : Mempool E) (limit : ℕ)
      → m.block_limit ≡ some limit
      → (is_block_ready m ≡ true → length (drain_for_block m limit).1 ≡ limit)
        × (is_block_ready m ≡ false → length (drain_for_block m limit).1 < limit)
  unfolding is_block_ready
  is_block_ready_lem m limit h =
      let e = ap length (drain_for_block_lem m limit).0 in
      (
        λ r. ground (arith, e, length-take limit m.pending),
        λ r. ground (arith, e, length-take limit m.pending),
      )
