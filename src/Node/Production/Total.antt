-- ===== src/Node/Production/Total.antt =====
-- `produce_block` of src/node.rs does not panic while the counters have room, and what it publishes.
use rust_state_machine.Shared.{
  ℕ, ◌+◌, ◌%◌, ◌^◌, ◌≤◌, ◌≡◌, refl, ap, ◌∙◌, arith, Bool, Bool-cases, inl, inr, Option,
  Option-cases, some, List, [], ◌∷◌, length, filter_by, length-filter_by, take, length-take, map,
  zip, unwrap_or, checked_add, IsU32, IsU128, ok, err, ◌==◌, >>=-eq-some,
}
use rust_state_machine.Shared.Order.{same_iff, bytes_ord}
use rust_state_machine.Codec.{Codec, Always}
use rust_state_machine.Store.{KeyValueStore}
use rust_state_machine.Dispatch.{DispatchResult, block_number_mismatch}
use rust_state_machine.Extrinsic.{
  AccountId32, account_ord, Ed25519, PayloadCodec, verify, verify_batch,
}
use rust_state_machine.System
use rust_state_machine.Mempool
use rust_state_machine.Mempool.{Mempool}
use rust_state_machine.Mempool.Laws.{drain_for_block_lem}
use rust_state_machine.Runtime.{
  Runtime, Extrinsic, RuntimeBlock, Content, RuntimeCall, apply_extrinsic, apply_extrinsics,
  execute_block,
}
use rust_state_machine.Runtime.Extrinsics.{apply_extrinsic_cases, execute_block_cases}
use rust_state_machine.Runtime.Nonces.{Applied-nonce}
use rust_state_machine.Runtime.Blocks.{apply_extrinsic_total, execute_block_result, same_nonces}
use rust_state_machine.Node.Production.{
  Groups, group_from, sort_by_nonce, take_run, build_batch, produce_block,
}
use rust_state_machine.Node.Production.Blocks.{length-sort_by_nonce}
use rust_state_machine.Node.Production.Batch.{is_from, VisitsEachOnce, batch_of_account}

-- The checked extrinsics of an account.
abbrev checked_from : AccountId32 → Extrinsic × DispatchResult → Bool
checked_from a x = is_from a x.0

length-checked_from :
    (f : Extrinsic → DispatchResult) (a : AccountId32) (exts : List Extrinsic)
    → length (filter_by (checked_from a) (zip exts (map f exts)))
      ≡ length (filter_by (is_from a) exts)
length-checked_from f a [] = refl
length-checked_from f a (e ∷ exts) = elim (Bool-cases (is_from a e)) [
  | inl y ↦ rw y (omega (arith, length-checked_from f a exts))
  | inr n ↦ rw n (length-checked_from f a exts)
]

module _ {S : Type 0} ⦃kv : KeyValueStore S⦄ ⦃account_codec : Codec AccountId32 Always⦄
    ⦃content_codec : Codec Content Always⦄ ⦃u32_codec : Codec ℕ IsU32⦄
    ⦃u128_codec : Codec ℕ IsU128⦄ where
  apply_extrinsic-room :
      (rt : Runtime) (s : S) (x : Extrinsic × DispatchResult)
      (xs : List (Extrinsic × DispatchResult)) (a : AccountId32) {u : Runtime × S}
      → apply_extrinsic rt s x ≡ some u
      → System.nonce u.0.system a + length (filter_by (checked_from a) xs)
        ≤ System.nonce rt.system a + length (filter_by (checked_from a) (x ∷ xs))
  apply_extrinsic-room rt s (ext, r) xs a {u} h = elim (apply_extrinsic_cases rt s ext r h) [
    | inl skipped ↦ rw skipped (ground arith)
    | inr (valid, x) ↦ ground (
      arith,
      Applied-nonce rt s ext u a x,
      x.in_turn,
      same_iff a ext.signer,
      same_iff ext.signer a,
    )
  ]

  apply_extrinsics_bound :
      (rt : Runtime) (s : S) (xs : List (Extrinsic × DispatchResult)) (a : AccountId32)
      {u : Runtime × S}
      → apply_extrinsics rt s xs ≡ some u
      → System.nonce u.0.system a
        ≤ System.nonce rt.system a + length (filter_by (checked_from a) xs)
  unfolding apply_extrinsics
  apply_extrinsics_bound rt s [] a h = ground arith
  apply_extrinsics_bound rt s (x ∷ xs) a {u} h =
      let (t, first, rest) =
        >>=-eq-some (apply_extrinsic rt s x) (λ t. apply_extrinsics t.0 t.1 xs) {b = u} h in
      omega
        (arith, apply_extrinsics_bound t.0 t.1 xs a rest, apply_extrinsic-room rt s x xs a first)

  -- Where each account's nonce has room for its own extrinsics, the second pass does not panic.
  apply_extrinsics_room :
      (rt : Runtime) (s : S) (xs : List (Extrinsic × DispatchResult))
      → ((a : AccountId32)
          → IsU32 (System.nonce rt.system a + length (filter_by (checked_from a) xs)))
      → (u : Runtime × S) × (apply_extrinsics rt s xs ≡ some u)
  unfolding apply_extrinsics
  apply_extrinsics_room rt s [] h = ((rt, s), refl)
  apply_extrinsics_room rt s ((ext, r) ∷ xs) h =
      let (t, e) =
        apply_extrinsic_total rt s ext r
          (ground (arith, h ext.signer, same_iff ext.signer ext.signer)) in
      let (u, f) =
        apply_extrinsics_room t.0 t.1 xs
          (λ a. omega (arith, h a, apply_extrinsic-room rt s (ext, r) xs a e)) in
      (u, rw e f)

pub length-take_run : (n : ℕ) (xs : List Extrinsic) → length (take_run n xs) ≤ length xs
unfolding take_run
length-take_run n [] = omega arith
length-take_run n (x ∷ xs) = ground (arith, length-take_run ((n + 1) % 2 ^ 32) xs)

module _ ⦃dalek : Ed25519⦄ ⦃payload : PayloadCodec RuntimeCall⦄ where
  checked_from-block :
      (a : AccountId32) (exts : List Extrinsic)
      → length (filter_by (checked_from a) (zip exts (verify_batch exts)))
        ≡ length (filter_by (is_from a) exts)
  unfolding verify_batch
  checked_from-block a exts = length-checked_from verify a exts

module _ {S : Type 0} ⦃kv : KeyValueStore S⦄ ⦃account_codec : Codec AccountId32 Always⦄
    ⦃content_codec : Codec Content Always⦄ ⦃u32_codec : Codec ℕ IsU32⦄ ⦃u128_codec : Codec ℕ IsU128⦄
    ⦃dalek : Ed25519⦄ ⦃payload : PayloadCodec RuntimeCall⦄ where
  -- Executing a block does not panic if the block number has room for one more, and the nonce of each
  -- account for its extrinsics in the block.
  execute_block_room :
      (rt : Runtime) (s : S) (block : RuntimeBlock)
      → IsU32 (rt.system.block_number + 1)
      → ((a : AccountId32)
          → IsU32 (System.nonce rt.system a + length (filter_by (is_from a) block.extrinsics)))
      → (q : Runtime × S × DispatchResult) × (execute_block rt s block ≡ some q)
  unfolding execute_block
  execute_block_room rt s block n h = elim (Option-cases (System.inc_block_number rt.system s)) [
    | inl full ↦ absurd (omega (arith, (System.Nonces.inc_block_number-eq-none rt.system s).0 full))
    | inr (t, counted) ↦
        let one = System.Nonces.inc_block_number-eq-some rt.system s counted in
        let xs = zip block.extrinsics (verify_batch block.extrinsics) in
        let (u, applied) =
          apply_extrinsics_room (record rt { system = t.0 }) t.1 xs
            (λ a. omega (
              arith,
              h a,
              same_nonces rt.system t.0 a one.2,
              checked_from-block a block.extrinsics,
            )) in
        elim (Bool-cases (block.header.block_number == t.0.block_number)) [
          | inl next ↦ ((u.0, u.1, ok tt), rw (counted, next, applied))
          | inr other ↦
              ((record rt { system = t.0 }, t.1, err block_number_mismatch), rw (counted, other))
        ]
  ]

  -- A block raises the nonce of an account by no more than the number of its extrinsics.
  pub execute_block_bound :
      (rt : Runtime) (s : S) (block : RuntimeBlock) (a : AccountId32)
      {q : Runtime × S × DispatchResult}
      → execute_block rt s block ≡ some q
      → System.nonce q.0.system a
        ≤ System.nonce rt.system a + length (filter_by (is_from a) block.extrinsics)
  execute_block_bound rt s block a {q} h =
      let (t, counted, rest) = execute_block_cases rt s block h in
      let one = System.Nonces.inc_block_number-eq-some rt.system s counted in
      let start = same_nonces rt.system t.0 a one.2 in
      elim rest [
        | inl (number, good, applied) ↦ omega (
          arith,
          start,
          apply_extrinsics_bound (record rt { system = t.0 }) t.1
              (zip block.extrinsics (verify_batch block.extrinsics)) a {u = (q.0, q.1)} applied,
          checked_from-block a block.extrinsics,
        )
        | inr (number, refused) ↦ omega (
          arith,
          start,
          ap (λ (x : Runtime × S × DispatchResult). System.nonce x.0.system a) refused,
        )
      ]

  -- If the HashMap is iterated entry by entry, and the block number has room for one more and each
  -- account's nonce for all that is pending, then `produce_block` does not panic. It publishes a block
  -- that has, for each account, the run at the front of its sorted candidates, which are among the
  -- first pending extrinsics, up to the block limit.
  pub produce_block_total :
      (iterate : Groups → Groups)
      → VisitsEachOnce iterate
      → (rt : Runtime) (s : S) (mempool : Mempool Extrinsic) → IsU32 (rt.system.block_number + 1)
      → ((a : AccountId32) → IsU32 (System.nonce rt.system a + length mempool.pending))
      → (r : Runtime × S × Mempool Extrinsic × Option RuntimeBlock) × (block : RuntimeBlock)
        × (produce_block iterate rt s mempool ≡ some r)
        × (r.3 ≡ some block)
        × ((a : AccountId32)
            → filter_by (is_from a) block.extrinsics
              ≡ take_run (System.nonce rt.system a) (
                  sort_by_nonce (
                    filter_by
                      (is_from a)
                      (take (unwrap_or mempool.block_limit 10) mempool.pending))))
  unfolding produce_block
  produce_block_total iterate v rt s mempool n room =
      let limit = unwrap_or mempool.block_limit 10 in
      let drained = drain_for_block_lem mempool limit in
      let candidates = (Mempool.drain_for_block mempool limit).1 in
      let block : RuntimeBlock = record {
        header = record { block_number = rt.system.block_number + 1 };
        extrinsics = build_batch rt (iterate (group_from [] candidates));
      } in
      let few : length candidates ≤ length mempool.pending =
        omega (arith, ap length drained.0, length-take limit mempool.pending) in
      let (q, done) = execute_block_room rt s block n (λ a.
        let mine = sort_by_nonce (filter_by (is_from a) candidates) in
        omega (
          arith,
          room a,
          few,
          ap length (batch_of_account iterate v rt candidates a),
          length-take_run (System.nonce rt.system a) mine,
          length-sort_by_nonce (filter_by (is_from a) candidates),
          length-filter_by (is_from a) candidates,
        )) in
      let next : checked_add 32 rt.system.block_number 1 ≡ some (rt.system.block_number + 1) =
        ground arith in
      let accepted : q.2 ≡ ok tt = ground (arith, (execute_block_result rt s block done).1) in
      (
        (q.0, q.1, (Mempool.drain_for_block mempool limit).0, some block),
        block,
        ground (arith, next, done, accepted),
        refl,
        λ a.
            batch_of_account iterate v rt candidates a
            ∙ ap
                (λ xs.
                  take_run (System.nonce rt.system a) (sort_by_nonce (filter_by (is_from a) xs)))
                drained.0,
      )
