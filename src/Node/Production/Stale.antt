-- ===== src/Node/Production/Stale.antt =====
-- Candidates in `produce_block` of src/node.rs whose nonce the runtime has passed.
use rust_state_machine.Shared.{
  ℕ, ◌≡◌, refl, Bool, true, false, List, [], ◌∷◌, ◌||◌, arith, ltb, any, filter_by, ◌∙◌,
}
use rust_state_machine.Extrinsic.{AccountId32, account_ord}
use rust_state_machine.System
use rust_state_machine.Runtime.{Runtime, Extrinsic}
use rust_state_machine.Node.Production.{
  Groups, group_from, insert_by_nonce, sort_by_nonce, take_run, build_batch,
}
use rust_state_machine.Node.Production.Batch.{is_from, VisitsEachOnce, batch_of_account}

abbrev pub is_stale : ℕ → Extrinsic → Bool
is_stale n ext = ltb ext.nonce n

starts_stale : ℕ → List Extrinsic → Bool
starts_stale n [] = false
starts_stale n (x ∷ xs) = is_stale n x

starts_stale-insert :
    (n : ℕ) (x : Extrinsic) (xs : List Extrinsic)
    → (is_stale n x || starts_stale n xs) ≡ true
    → starts_stale n (insert_by_nonce x xs) ≡ true
unfolding starts_stale insert_by_nonce
starts_stale-insert n x [] h = ground arith
starts_stale-insert n x (y ∷ xs) h = ground arith

starts_stale-sort :
    (n : ℕ) (xs : List Extrinsic)
    → any (is_stale n) xs ≡ true
    → starts_stale n (sort_by_nonce xs) ≡ true
unfolding sort_by_nonce
starts_stale-sort n [] h = cc
starts_stale-sort n (x ∷ xs) h =
    starts_stale-insert n x (sort_by_nonce xs) (ground (arith, starts_stale-sort n xs))

take_run_stale : (n : ℕ) (xs : List Extrinsic) → starts_stale n xs ≡ true → take_run n xs ≡ []
unfolding starts_stale take_run
take_run_stale n [] h = refl
take_run_stale n (x ∷ xs) h = ground arith

-- If the HashMap is iterated entry by entry, one stale candidate of an account keeps every
-- candidate of that account out of the batch, also those whose nonces are next.
pub stale_shuts_out :
    (iterate : Groups → Groups)
    → VisitsEachOnce iterate
    → (rt : Runtime) (candidates : List Extrinsic) (a : AccountId32)
    → any (is_stale (System.nonce rt.system a)) (filter_by (is_from a) candidates) ≡ true
    → filter_by (is_from a) (build_batch rt (iterate (group_from [] candidates))) ≡ []
stale_shuts_out iterate v rt candidates a h =
    batch_of_account iterate v rt candidates a
    ∙ take_run_stale (System.nonce rt.system a) (sort_by_nonce (filter_by (is_from a) candidates))
        (starts_stale-sort (System.nonce rt.system a) (filter_by (is_from a) candidates) h)
