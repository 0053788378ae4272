-- ===== src/Node/Loop/Tick.antt =====
-- The ticker of `run` in src/node.rs: the slot of a peer comes, and its block takes up what is pending.
use rust_state_machine.Shared.{
  ℕ, zero, suc, ◌+◌, ◌%◌, ◌^◌, ◌≤◌, ◌<◌, ◌≡◌, refl, ap, ◌∙◌, arith, true, Option, some, List, [],
  ◌∷◌, All, length, take, drop, filter_by, length-filter_by, unwrap_or, ltb, ◌==◌, IsU32, IsU128,
  ok,
}
use rust_state_machine.Shared.Order.{Ord}
use rust_state_machine.Codec.{Codec, Always}
use rust_state_machine.Store.{KeyValueStore}
use rust_state_machine.Extrinsic.{AccountId32, account_ord, Ed25519, PayloadCodec, verify}
use rust_state_machine.System
use rust_state_machine.Mempool.{Mempool}
use rust_state_machine.Runtime.{Runtime, Extrinsic, RuntimeBlock, Content, RuntimeCall}
use rust_state_machine.Node.Production.{
  Groups, insert_by_nonce, sort_by_nonce, take_run, produce_block,
}
use rust_state_machine.Node.Production.Batch.{is_from, VisitsEachOnce}
use rust_state_machine.Node.Production.Blocks.{Consecutive, produce_block_lem}
use rust_state_machine.Node.Production.Total.{produce_block_total}
use rust_state_machine.Node.Loop.{is_my_slot, on_tick}

sort_by_nonce-Consecutive : (n : ℕ) (xs : List Extrinsic) → Consecutive n xs → sort_by_nonce xs ≡ xs
unfolding sort_by_nonce insert_by_nonce
sort_by_nonce-Consecutive n [] h = refl
sort_by_nonce-Consecutive n (x ∷ []) h = refl
sort_by_nonce-Consecutive n (x ∷ y ∷ xs) h =
    rw (sort_by_nonce-Consecutive (n + 1) (y ∷ xs) h.1) (ground arith)

take_run-whole :
    (n : ℕ) (xs : List Extrinsic) → IsU32 (n + length xs) → Consecutive n xs → take_run n xs ≡ xs
unfolding take_run
take_run-whole n [] room h = refl
take_run-whole n (x ∷ xs) room h =
    let m : (n + 1) % 2 ^ 32 ≡ n + 1 = omega arith in
    let e : (x.nonce == n) ≡ true = ground arith in
    rw (e, m) (ap (λ ys. x ∷ ys) (take_run-whole (n + 1) xs (omega arith) h.1))

take_whole : {A : Type 0} → (n : ℕ) (xs : List A) → length xs ≤ n → take n xs ≡ xs
take_whole zero [] h = refl
take_whole (suc n) [] h = refl
take_whole zero (x ∷ xs) h = absurd (omega arith)
take_whole (suc n) (x ∷ xs) h = ap (λ ys. x ∷ ys) (take_whole n xs (omega arith))

drop_whole : {A : Type 0} → (n : ℕ) (xs : List A) → length xs ≤ n → drop n xs ≡ []
drop_whole zero [] h = refl
drop_whole (suc n) [] h = refl
drop_whole zero (x ∷ xs) h = absurd (omega arith)
drop_whole (suc n) (x ∷ xs) h = drop_whole n xs (omega arith)

module _ {S : Type 0} ⦃kv : KeyValueStore S⦄ ⦃account_codec : Codec AccountId32 Always⦄
    ⦃content_codec : Codec Content Always⦄ ⦃u32_codec : Codec ℕ IsU32⦄ ⦃u128_codec : Codec ℕ IsU128⦄
    ⦃dalek : Ed25519⦄ ⦃payload : PayloadCodec RuntimeCall⦄ where
  -- If the HashMap is iterated entry by entry, production does not panic while the counters have room.
  -- If no more extrinsics are pending than go into one block, all of them with good signatures, and
  -- those of an account run on from its nonce in the order in which they came, then it empties the pool
  -- and publishes a block with all of that account's pending extrinsics, and each of them is applied.
  pub produce_block_seals :
      (iterate : Groups → Groups)
      → VisitsEachOnce iterate
      → (rt : Runtime) (s : S) (mempool : Mempool Extrinsic) → IsU32 (rt.system.block_number + 1)
      → ((a : AccountId32) → IsU32 (System.nonce rt.system a + length mempool.pending))
      → length mempool.pending ≤ unwrap_or mempool.block_limit 10
      → All (λ e. verify e ≡ ok tt) mempool.pending
      → (a : AccountId32)
      → Consecutive (System.nonce rt.system a) (filter_by (is_from a) mempool.pending)
      → (r : Runtime × S × Mempool Extrinsic × Option RuntimeBlock) × (block : RuntimeBlock)
        × (produce_block iterate rt s mempool ≡ some r)
        × (r.3 ≡ some block)
        × (r.2.pending ≡ [])
        × (filter_by (is_from a) block.extrinsics ≡ filter_by (is_from a) mempool.pending)
        × (System.nonce r.0.system a
            ≡ System.nonce rt.system a + length (filter_by (is_from a) mempool.pending))
  produce_block_seals iterate v rt s mempool n room few good a run =
      let (r, block, made, published, runs) = produce_block_total iterate v rt s mempool n room in
      let (block', published', number, left, raised) =
        produce_block_lem iterate v rt s mempool good room made in
      let mine_only = filter_by (is_from a) mempool.pending in
      let all_of : filter_by (is_from a) block.extrinsics ≡ mine_only =
        runs a
        ∙ ap (λ xs. take_run (System.nonce rt.system a) (sort_by_nonce (filter_by (is_from a) xs)))
            (take_whole (unwrap_or mempool.block_limit 10) mempool.pending few)
        ∙ ap (take_run (System.nonce rt.system a))
            (sort_by_nonce-Consecutive (System.nonce rt.system a) mine_only run)
        ∙ take_run-whole (System.nonce rt.system a) mine_only
            (omega (arith, room a, length-filter_by (is_from a) mempool.pending)) run in
      let same_block : block' ≡ block = cc (published, published') in
      (
        r,
        block,
        made,
        published,
        left ∙ drop_whole (unwrap_or mempool.block_limit 10) mempool.pending few,
        all_of,
        raised a
            ∙ ap
                (λ (b : RuntimeBlock).
                  System.nonce rt.system a + length (filter_by (is_from a) b.extrinsics))
                same_block
            ∙ ap (λ xs. System.nonce rt.system a + length xs) all_of,
      )

  -- In the slot of a node with peers, if the HashMap is iterated entry by entry, a tick does not
  -- panic while the counters have room. If no more extrinsics are pending than go into one block,
  -- all of them with good signatures, and those of an account run on from its nonce in the order in
  -- which they came, then the tick empties the pool and publishes a block with all of that
  -- account's pending extrinsics, and each of them is applied.
  pub tick_seals_pending :
      {PeerId : Type 0} ⦃o : Ord PeerId⦄
      → (iterate : Groups → Groups) → VisitsEachOnce iterate
      → (now : ℕ) (my_id : PeerId) (peers : List PeerId) → 1 < length peers
      → is_my_slot now my_id peers ≡ some true
      → (rt : Runtime) (s : S) (mempool : Mempool Extrinsic) → IsU32 (rt.system.block_number + 1)
      → ((a : AccountId32) → IsU32 (System.nonce rt.system a + length mempool.pending))
      → length mempool.pending ≤ unwrap_or mempool.block_limit 10
      → All (λ e. verify e ≡ ok tt) mempool.pending
      → (a : AccountId32)
      → Consecutive (System.nonce rt.system a) (filter_by (is_from a) mempool.pending)
      → (r : Runtime × S × Mempool Extrinsic × Option RuntimeBlock) × (block : RuntimeBlock)
        × (on_tick iterate now my_id peers rt s mempool ≡ some r)
        × (r.3 ≡ some block)
        × (r.2.pending ≡ [])
        × (filter_by (is_from a) block.extrinsics ≡ filter_by (is_from a) mempool.pending)
        × (System.nonce r.0.system a
            ≡ System.nonce rt.system a + length (filter_by (is_from a) mempool.pending))
  tick_seals_pending iterate v now my_id peers several mine rt s mempool n room few good a run =
      let together : ltb 1 (length peers) ≡ true = ground arith in
      let (r, block, made, sent, empty, all_of, raised) =
        produce_block_seals iterate v rt s mempool n room few good a run in
      (r, block, unfold on_tick in rw (together, mine) made, sent, empty, all_of, raised)
