-- ===== src/Node/Production/Batch.antt =====
-- The batch of `produce_block` (src/node.rs), account by account, and the `HashMap` it is built with.
use rust_state_machine.Shared.{
  All-filter_by, ℕ, ◌+◌, ◌%◌, ◌^◌, ◌≡◌, ◌≢◌, refl, sym, ap, ◌∙◌, Bool, true, false, Option, some,
  none, List, [], ◌∷◌, ◌++◌, All, All-imp, All-append, arith, filter_by, filter_by-append,
  unwrap_or, Bool-cases, inl, inr, if◌then◌else◌,
}
use rust_state_machine.Shared.Order.{same, same_iff}
use mathlib.Core.List.{append_assoc, append-nil}
use rust_state_machine.Extrinsic.{AccountId32, account_ord}
use rust_state_machine.BTreeMap as Map
use rust_state_machine.System
use rust_state_machine.Runtime.{Runtime, Extrinsic}
use rust_state_machine.Node.Production.{
  Groups, push_entry, group_from, insert_by_nonce, sort_by_nonce, take_run, build_batch,
}

abbrev pub is_from : AccountId32 → Extrinsic → Bool
is_from a ext = same ext.signer a

-- No signer has two entries.
abbrev pub IsDistinct : Groups → Type 0
IsDistinct [] = Unit
IsDistinct ((k, txs) ∷ groups) = (Map.get groups k ≡ none) × IsDistinct groups

-- Iterating a `HashMap` visits each entry once.
pub record VisitsEachOnce (iterate : Groups → Groups) : Type 0 where
  pub distinct : (g : Groups) → IsDistinct g → IsDistinct (iterate g)
  pub finds : (g : Groups) (a : AccountId32) → IsDistinct g → Map.get (iterate g) a ≡ Map.get g a

get-push_entry :
    (g : Groups) (ext : Extrinsic) (a : AccountId32)
    → Map.get (push_entry g ext) a
      ≡ (if is_from a ext then some (unwrap_or (Map.get g a) [] ++ (ext ∷ [])) else Map.get g a)
unfolding push_entry Map.get
get-push_entry [] ext a = ground (arith, same_iff ext.signer a, same_iff a ext.signer)
get-push_entry ((k, txs) ∷ g) ext a = ground (
  arith,
  get-push_entry g ext a,
  same_iff ext.signer a,
  same_iff a ext.signer,
  same_iff a k,
  same_iff ext.signer k,
)

push_entry-IsDistinct :
    (g : Groups) (ext : Extrinsic) → IsDistinct g → IsDistinct (push_entry g ext)
unfolding push_entry
push_entry-IsDistinct [] ext h = unfold Map.get in (refl, tt)
push_entry-IsDistinct ((k, txs) ∷ g) ext h =
    ground (arith, push_entry-IsDistinct g ext, get-push_entry g ext k)

group_from-IsDistinct :
    (g : Groups) (exts : List Extrinsic) → IsDistinct g → IsDistinct (group_from g exts)
unfolding group_from
group_from-IsDistinct g [] h = h
group_from-IsDistinct g (e ∷ exts) h =
    group_from-IsDistinct (push_entry g e) exts (push_entry-IsDistinct g e h)

-- The entry of an account is the list of its candidates in the order of arrival.
get-group_from :
    (g : Groups) (exts : List Extrinsic) (a : AccountId32)
    → unwrap_or (Map.get (group_from g exts) a) []
      ≡ unwrap_or (Map.get g a) [] ++ filter_by (is_from a) exts
unfolding group_from
get-group_from g [] a = sym (append-nil _)
get-group_from g (e ∷ exts) a = ground (
  arith,
  get-group_from (push_entry g e) exts a,
  get-push_entry g e a,
  append_assoc (unwrap_or (Map.get g a) []) (e ∷ []) (filter_by (is_from a) exts),
)

All-insert_by_nonce :
    (P : Extrinsic → Type 0) (x : Extrinsic) (xs : List Extrinsic)
    → P x
    → All P xs
    → All P (insert_by_nonce x xs)
unfolding insert_by_nonce
All-insert_by_nonce P x [] p h = (p, tt)
All-insert_by_nonce P x (y ∷ xs) p h = ground (arith, All-insert_by_nonce P x xs)

All-sort_by_nonce :
    (P : Extrinsic → Type 0) (xs : List Extrinsic) → All P xs → All P (sort_by_nonce xs)
unfolding sort_by_nonce
All-sort_by_nonce P [] h = tt
All-sort_by_nonce P (x ∷ xs) h =
    All-insert_by_nonce P x (sort_by_nonce xs) h.0 (All-sort_by_nonce P xs h.1)

All-take_run :
    (P : Extrinsic → Type 0) (n : ℕ) (xs : List Extrinsic) → All P xs → All P (take_run n xs)
unfolding take_run
All-take_run P n [] h = tt
All-take_run P n (x ∷ xs) h = ground (arith, All-take_run P ((n + 1) % 2 ^ 32) xs)

filter_by-All :
    (p : Extrinsic → Bool) (xs : List Extrinsic) → All (λ x. p x ≡ true) xs → filter_by p xs ≡ xs
filter_by-All p [] h = refl
filter_by-All p (x ∷ xs) h = ground (arith, filter_by-All p xs h.1)

filter_by_none :
    (p : Extrinsic → Bool) (xs : List Extrinsic) → All (λ x. p x ≡ false) xs → filter_by p xs ≡ []
filter_by_none p [] h = refl
filter_by_none p (x ∷ xs) h = ground (arith, filter_by_none p xs h.1)

All-filter_by_test :
    (p : Extrinsic → Bool) (xs : List Extrinsic) → All (λ x. p x ≡ true) (filter_by p xs)
All-filter_by_test p [] = tt
All-filter_by_test p (x ∷ xs) = ground (arith, All-filter_by_test p xs)

-- What holds of every entry that is found holds of every entry.
All-of_get :
    (P : AccountId32 × List Extrinsic → Type 0) (g : Groups)
    → IsDistinct g
    → ((k : AccountId32) (txs : List Extrinsic) → Map.get g k ≡ some txs → P (k, txs))
    → All P g
All-of_get P [] d h = tt
All-of_get P ((k, txs) ∷ g) d h = (
  h k txs (unfold Map.get in ground (arith, same_iff k k)),
  All-of_get P g d.1 (λ j ts e. h j ts (unfold Map.get in ground (arith, same_iff j k))),
)

All-build_batch :
    (P : Extrinsic → Type 0) (rt : Runtime) (g : Groups)
    → All (λ e. All P e.1) g
    → All P (build_batch rt g)
unfolding build_batch
All-build_batch P rt [] h = tt
All-build_batch P rt ((k, txs) ∷ g) h =
    All-append P (take_run (System.nonce rt.system k) (sort_by_nonce txs)) (build_batch rt g)
      (All-take_run P (System.nonce rt.system k) (sort_by_nonce txs) (All-sort_by_nonce P txs h.0))
      (All-build_batch P rt g h.1)

abbrev AreFrom : AccountId32 → List Extrinsic → Type 0
AreFrom k xs = All (λ x. x.signer ≡ k) xs

are_from :
    (a k : AccountId32) (xs : List Extrinsic)
    → a ≡ k
    → AreFrom k xs
    → All (λ x. is_from a x ≡ true) xs
are_from a k xs e h = All-imp (λ (x : Extrinsic) f. ground (arith, same_iff x.signer a)) xs h

are_not_from :
    (a k : AccountId32) (xs : List Extrinsic)
    → a ≢ k
    → AreFrom k xs
    → All (λ x. is_from a x ≡ false) xs
are_not_from a k xs n h = All-imp (λ (x : Extrinsic) f. ground (arith, same_iff x.signer a)) xs h

run_of : Runtime → AccountId32 → List Extrinsic → List Extrinsic
run_of rt a txs = take_run (System.nonce rt.system a) (sort_by_nonce txs)

AreFrom-run_of :
    (rt : Runtime) (k : AccountId32) (txs : List Extrinsic)
    → AreFrom k txs
    → AreFrom k (run_of rt k txs)
unfolding run_of
AreFrom-run_of rt k txs h =
    All-take_run (λ x. x.signer ≡ k) (System.nonce rt.system k) (sort_by_nonce txs)
      (All-sort_by_nonce (λ x. x.signer ≡ k) txs h)

filter_by-build_batch :
    (rt : Runtime) (g : Groups) (a : AccountId32)
    → IsDistinct g
    → All (λ e. AreFrom e.0 e.1) g
    → filter_by (is_from a) (build_batch rt g) ≡ run_of rt a (unwrap_or (Map.get g a) [])
filter_by-build_batch rt [] a d h = unfold build_batch Map.get run_of sort_by_nonce take_run in refl
filter_by-build_batch rt ((k, txs) ∷ g) a d h =
    let run = run_of rt k txs in
    let split : filter_by (is_from a) (build_batch rt ((k, txs) ∷ g))
        ≡ filter_by (is_from a) run ++ filter_by (is_from a) (build_batch rt g) =
      unfold build_batch run_of in
      filter_by-append (is_from a) (run_of rt k txs) (build_batch rt g) in
    let rest = filter_by-build_batch rt g a d.1 h.1 in
    elim (Bool-cases (same a k)) [
      | inl this ↦
          let e : a ≡ k = (same_iff a k).0 this in
          let found : Map.get ((k, txs) ∷ g) a ≡ some txs = unfold Map.get in ground arith in
          let own : filter_by (is_from a) run ≡ run =
            filter_by-All (is_from a) run (are_from a k run e (AreFrom-run_of rt k txs h.0)) in
          let gone : Map.get g a ≡ none = rw e d.0 in
          let empty : run_of rt a [] ≡ [] = unfold run_of sort_by_nonce take_run in refl in
          cc (split, own, rest, gone, found, empty, append-nil run, e)
      | inr other ↦
          let ne : a ≢ k = λ e. ground (arith, (same_iff a k).1 e) in
          let found : Map.get ((k, txs) ∷ g) a ≡ Map.get g a = unfold Map.get in ground arith in
          let own : filter_by (is_from a) run ≡ [] =
            filter_by_none (is_from a) run
              (are_not_from a k run ne (AreFrom-run_of rt k txs h.0)) in
          cc (split, own, rest, found)
    ]

-- The candidates of an account in the order of arrival.
listed :
    (candidates : List Extrinsic) (a : AccountId32)
    → unwrap_or (Map.get (group_from [] candidates) a) [] ≡ filter_by (is_from a) candidates
listed candidates a = get-group_from [] candidates a ∙ (unfold Map.get in refl)

module _ (iterate : Groups → Groups) (visits : VisitsEachOnce iterate) where
  iterated-IsDistinct :
      (candidates : List Extrinsic) → IsDistinct (iterate (group_from [] candidates))
  iterated-IsDistinct candidates = visits.distinct _ (group_from-IsDistinct [] candidates tt)

  -- Each entry that is visited holds all candidates of its account.
  visited :
      (candidates : List Extrinsic) (k : AccountId32) (txs : List Extrinsic)
      → Map.get (iterate (group_from [] candidates)) k ≡ some txs
      → txs ≡ filter_by (is_from k) candidates
  visited candidates k txs e = cc (
    e,
    visits.finds (group_from [] candidates) k (group_from-IsDistinct [] candidates tt),
    listed candidates k,
  )

  visited-AreFrom :
      (candidates : List Extrinsic)
      → All (λ e. AreFrom e.0 e.1) (iterate (group_from [] candidates))
  visited-AreFrom candidates =
      All-of_get (λ e. AreFrom e.0 e.1) (iterate (group_from [] candidates))
        (iterated-IsDistinct candidates)
        (λ k txs e. rw (visited candidates k txs e) (
          All-imp (λ (x : Extrinsic) f. (same_iff x.signer k).0 f)
            (filter_by (is_from k) candidates) (All-filter_by_test (is_from k) candidates)))

  -- If the HashMap is iterated entry by entry, in whatever order, the batch restricted to an
  -- account is the run of consecutive nonces, from the nonce of the runtime on, that its
  -- candidates begin with when they are sorted.
  pub batch_of_account :
      (rt : Runtime) (candidates : List Extrinsic) (a : AccountId32)
      → filter_by (is_from a) (build_batch rt (iterate (group_from [] candidates)))
        ≡ take_run (System.nonce rt.system a) (sort_by_nonce (filter_by (is_from a) candidates))
  batch_of_account rt candidates a =
      filter_by-build_batch rt (iterate (group_from [] candidates)) a
        (iterated-IsDistinct candidates) (visited-AreFrom candidates)
      ∙ ap (run_of rt a) (
          ap (λ (o : Option (List Extrinsic)). unwrap_or o [])
            (visits.finds _ a (group_from-IsDistinct [] candidates tt))
          ∙ listed candidates a)
      ∙ (unfold run_of in refl)

  -- What holds of all candidates holds of the batch.
  pub All-batch :
      (P : Extrinsic → Type 0) (rt : Runtime) (candidates : List Extrinsic)
      → All P candidates
      → All P (build_batch rt (iterate (group_from [] candidates)))
  All-batch P rt candidates h = All-build_batch P rt (iterate (group_from [] candidates)) (
      All-of_get (λ e. All P e.1) (iterate (group_from [] candidates))
        (iterated-IsDistinct candidates)
        (λ k txs e. rw (visited candidates k txs e) (All-filter_by P (is_from k) candidates h)))
