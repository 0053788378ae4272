-- ===== src/Node/Production/Blocks.antt =====
-- A produced block, `produce_block` of src/node.rs, and its execution by the runtime.
use rust_state_machine.Shared.{
  checked_add, map-zip-map, All-zip-map, All-take, length-take, ℕ, suc, ◌+◌, ◌%◌, ◌^◌, ◌≤◌, ◌≡◌,
  refl, sym, ap, ◌∙◌, true, Option, some, none, ◌>>=◌, >>=-eq-some, List, [], ◌∷◌, All, arith,
  filter_by, length, length-filter_by, drop, IsU32, IsU128, unwrap_or, Bool-cases, inl, inr,
  if◌then◌else◌, ◌==◌, ok, err, zip, map,
}
use rust_state_machine.Shared.Order.{same_iff}
use rust_state_machine.Codec.{Codec, Always}
use rust_state_machine.Store.{KeyValueStore}
use rust_state_machine.Dispatch.{DispatchResult}
use rust_state_machine.Extrinsic.{
  AccountId32, account_ord, Ed25519, PayloadCodec, verify, verify_batch,
}
use rust_state_machine.System
use rust_state_machine.Mempool
use rust_state_machine.Mempool.{Mempool}
use rust_state_machine.Mempool.Laws.{drain_for_block_lem}
use rust_state_machine.Runtime.{
  Runtime, Extrinsic, RuntimeBlock, Content, RuntimeCall, apply_extrinsic, apply_extrinsics,
  execute_block,
}
use rust_state_machine.Runtime.Extrinsics.{apply_extrinsic_in_turn, execute_block_cases}
use rust_state_machine.Runtime.Nonces.{Applied-nonce}
use rust_state_machine.Runtime.Blocks.{same_nonces}
use rust_state_machine.Node.Production.{
  Groups, group_from, insert_by_nonce, sort_by_nonce, take_run, build_batch, produce_block,
}
use rust_state_machine.Node.Production.Batch.{is_from, VisitsEachOnce, batch_of_account, All-batch}

-- The nonces are `n`, `n + 1` and so on.
abbrev pub Consecutive : ℕ → List Extrinsic → Type 0
Consecutive n [] = Unit
Consecutive n (x ∷ xs) = (x.nonce ≡ n) × Consecutive (n + 1) xs

take_run-Consecutive :
    (n : ℕ) (xs : List Extrinsic) → IsU32 (n + length xs) → Consecutive n (take_run n xs)
unfolding take_run
take_run-Consecutive n [] h = tt
take_run-Consecutive n (x ∷ xs) h =
    let m : (n + 1) % 2 ^ 32 ≡ n + 1 = omega arith in
    elim (Bool-cases (x.nonce == n)) [
      | inl e ↦ rw (e, m) (ground arith, take_run-Consecutive (n + 1) xs (omega arith))
      | inr e ↦ rw e tt
    ]

-- Behind an extrinsic the run of each account goes on.
next_run :
    (a : AccountId32) (n m : ℕ) (ext : Extrinsic) (xs : List Extrinsic)
    → m ≡ (if is_from a ext then n + 1 else n)
    → Consecutive n (filter_by (is_from a) (ext ∷ xs))
    → Consecutive m (filter_by (is_from a) xs)
next_run a n m ext xs e c = elim (Bool-cases (is_from a ext)) [
  | inl y ↦ rw (e, y) (rw y at c).1
  | inr y ↦ rw (e, y) (rw y at c)
]

first_in_turn :
    (n : ℕ) (ext : Extrinsic) (xs : List Extrinsic)
    → Consecutive n (filter_by (is_from ext.signer) (ext ∷ xs))
    → n ≡ ext.nonce
first_in_turn n ext xs c =
    let y : is_from ext.signer ext ≡ true = (same_iff ext.signer ext.signer).1 refl in
    sym (rw y at c).0

length-insert_by_nonce :
    (x : Extrinsic) (xs : List Extrinsic) → length (insert_by_nonce x xs) ≡ suc (length xs)
unfolding insert_by_nonce
length-insert_by_nonce x [] = refl
length-insert_by_nonce x (y ∷ xs) = ground (arith, length-insert_by_nonce x xs)

pub length-sort_by_nonce : (xs : List Extrinsic) → length (sort_by_nonce xs) ≡ length xs
unfolding sort_by_nonce
length-sort_by_nonce [] = refl
length-sort_by_nonce (x ∷ xs) =
    length-insert_by_nonce x (sort_by_nonce xs) ∙ ap suc (length-sort_by_nonce xs)

module _ {S : Type 0} ⦃kv : KeyValueStore S⦄ ⦃account_codec : Codec AccountId32 Always⦄
    ⦃content_codec : Codec Content Always⦄ ⦃u32_codec : Codec ℕ IsU32⦄
    ⦃u128_codec : Codec ℕ IsU128⦄ where
  -- An extrinsic with a good signature and the nonce of its signer is applied.
  apply_in_turn :
      (rt : Runtime) (s : S) (ext : Extrinsic) (r : DispatchResult) {u : Runtime × S}
      (a : AccountId32)
      → r ≡ ok tt
      → System.nonce rt.system ext.signer ≡ ext.nonce
      → apply_extrinsic rt s (ext, r) ≡ some u
      → System.nonce u.0.system a
        ≡ (if is_from a ext then System.nonce rt.system a + 1 else System.nonce rt.system a)
  apply_in_turn rt s ext r a good turn h =
      let x = apply_extrinsic_in_turn rt s ext turn (rw good at h) in
      ground (arith, Applied-nonce rt s ext _ a x, same_iff a ext.signer, same_iff ext.signer a)

  -- If the extrinsics of each account run on from its nonce, each of them is applied.
  apply_runs :
      (rt : Runtime) (s : S) (xs : List (Extrinsic × DispatchResult)) {u : Runtime × S}
      → All (λ x. x.1 ≡ ok tt) xs
      → ((a : AccountId32)
          → Consecutive (System.nonce rt.system a) (filter_by (is_from a) (map (λ x. x.0) xs)))
      → apply_extrinsics rt s xs ≡ some u
      → (a : AccountId32)
      → System.nonce u.0.system a
        ≡ System.nonce rt.system a + length (filter_by (is_from a) (map (λ x. x.0) xs))
  unfolding apply_extrinsics
  apply_runs rt s [] good c h a = ground arith
  apply_runs rt s ((ext, r) ∷ xs) good c h a =
      let (t, e, rest) =
        >>=-eq-some (apply_extrinsic rt s (ext, r)) (λ t. apply_extrinsics t.0 t.1 xs) h in
      let turn =
        first_in_turn (System.nonce rt.system ext.signer) ext
          (map (λ (x : Extrinsic × DispatchResult). x.0) xs) (c ext.signer) in
      let step : (a : AccountId32)
          → System.nonce t.0.system a
            ≡ (if is_from a ext then System.nonce rt.system a + 1 else System.nonce rt.system a) =
        λ a. apply_in_turn rt s ext r a good.0 turn e in
      let later =
        apply_runs t.0 t.1 xs good.1
          (λ a.
            next_run a (System.nonce rt.system a) (System.nonce t.0.system a) ext
              (map (λ x. x.0) xs) (step a) (c a))
          rest a in
      ground (arith, later, step a)

module _ {S : Type 0} ⦃kv : KeyValueStore S⦄ ⦃account_codec : Codec AccountId32 Always⦄
    ⦃content_codec : Codec Content Always⦄ ⦃u32_codec : Codec ℕ IsU32⦄ ⦃u128_codec : Codec ℕ IsU128⦄
    ⦃dalek : Ed25519⦄ ⦃payload : PayloadCodec RuntimeCall⦄ where
  -- An accepted block with good signatures, in which the extrinsics of each account run on from its
  -- nonce, applies all of them.
  execute_block_runs :
      (rt : Runtime) (s : S) (block : RuntimeBlock) {q : Runtime × S × DispatchResult}
      → block.header.block_number ≡ rt.system.block_number + 1
      → All (λ e. verify e ≡ ok tt) block.extrinsics
      → ((a : AccountId32)
          → Consecutive (System.nonce rt.system a) (filter_by (is_from a) block.extrinsics))
      → execute_block rt s block ≡ some q
      → (q.2 ≡ ok tt)
        × ((a : AccountId32)
            → System.nonce q.0.system a
              ≡ System.nonce rt.system a + length (filter_by (is_from a) block.extrinsics))
  execute_block_runs rt s block {q} next good runs h =
      let (t, counted, rest) = execute_block_cases rt s block h in
      let one = System.Nonces.inc_block_number-eq-some rt.system s counted in
      let xs = zip block.extrinsics (verify_batch block.extrinsics) in
      let names : map (λ (x : Extrinsic × DispatchResult). x.0) xs ≡ block.extrinsics =
        unfold verify_batch in map-zip-map verify block.extrinsics in
      let checked : All (λ x. x.1 ≡ ok tt) xs =
        unfold verify_batch in All-zip-map (λ x. x.1 ≡ ok tt) verify block.extrinsics good in
      elim rest [
        | inr r ↦ absurd (r.0 (omega arith))
        | inl r ↦ (
          r.1,
          λ a. ground (
            arith,
            apply_runs (record rt { system = t.0 }) t.1 xs {u = (q.0, q.1)} checked
                (λ a. rw (names, same_nonces rt.system t.0 a one.2) (runs a)) r.2 a,
            names,
            same_nonces rt.system t.0 a one.2,
          ),
        )
      ]

  -- If the pending extrinsics are validly signed, no nonce can overflow over them, and the
  -- HashMap is iterated entry by entry, a call of produce_block that does not panic publishes a
  -- block with the next number, the drained candidates leave the pool, and every extrinsic of
  -- the block is applied: each account's nonce is raised by the number of its extrinsics.
  pub produce_block_lem :
      (iterate : Groups → Groups)
      → VisitsEachOnce iterate
      → (rt : Runtime) (s : S) (mempool : Mempool Extrinsic)
        {r : Runtime × S × Mempool Extrinsic × Option RuntimeBlock}
      → All (λ e. verify e ≡ ok tt) mempool.pending
      → ((a : AccountId32) → IsU32 (System.nonce rt.system a + length mempool.pending))
      → produce_block iterate rt s mempool ≡ some r
      → (block : RuntimeBlock) × (r.3 ≡ some block)
        × (block.header.block_number ≡ rt.system.block_number + 1)
        × (r.2.pending ≡ drop (unwrap_or mempool.block_limit 10) mempool.pending)
        × ((a : AccountId32)
            → System.nonce r.0.system a
              ≡ System.nonce rt.system a + length (filter_by (is_from a) block.extrinsics))
  unfolding produce_block
  produce_block_lem iterate v rt s mempool {r} good room h =
      let limit = unwrap_or mempool.block_limit 10 in
      let drained = drain_for_block_lem mempool limit in
      let candidates = (Mempool.drain_for_block mempool limit).1 in
      let batch = build_batch rt (iterate (group_from [] candidates)) in
      let (n, e, rest) =
        >>=-eq-some (checked_add 32 rt.system.block_number 1)
          (λ n.
            execute_block rt s (record { header = record { block_number = n }; extrinsics = batch })
            >>= λ q. some (
              q.0,
              q.1,
              (Mempool.drain_for_block mempool limit).0,
              elim (q.2) [
                | ok _ ↦ some (record { header = record { block_number = n }; extrinsics = batch })
                | err _ ↦ none
              ],
            ))
          {b = r} h in
      let block : RuntimeBlock = record {
        header = record { block_number = n };
        extrinsics = batch;
      } in
      let (q, done, last) =
        >>=-eq-some (execute_block rt s block)
          (λ q. some (
            q.0,
            q.1,
            (Mempool.drain_for_block mempool limit).0,
            elim (q.2) [ ok _ ↦ some block | err _ ↦ none ],
          ))
          {b = r} rest in
      let next : n ≡ rt.system.block_number + 1 = ground arith in
      let good_candidates : All (λ x. verify x ≡ ok tt) candidates =
        rw drained.0 (All-take (λ x. verify x ≡ ok tt) limit mempool.pending good) in
      let few : length candidates ≤ length mempool.pending =
        omega (arith, ap length drained.0, length-take limit mempool.pending) in
      let ran =
        execute_block_runs rt s block next
          (All-batch iterate v (λ x. verify x ≡ ok tt) rt candidates good_candidates)
          (λ a. rw (batch_of_account iterate v rt candidates a) (
            take_run-Consecutive (System.nonce rt.system a)
              (sort_by_nonce (filter_by (is_from a) candidates))
              (omega (
                arith,
                room a,
                few,
                length-sort_by_nonce (filter_by (is_from a) candidates),
                length-filter_by (is_from a) candidates,
              ))))
          done in
      (
        block,
        ground (arith, last, ran.0),
        next,
        ground (arith, last, drained.1),
        λ a. ground (arith, last, ran.1 a),
      )
