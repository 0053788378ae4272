-- ===== src/Node/Loop/Total.antt =====
-- The loops of `run` in src/node.rs do not panic while the counters have room for what the events
-- bring.
use rust_state_machine.Shared.{
  ℕ, Bool, ◌+◌, ◌≤◌, ◌≡◌, refl, ap, ◌∙◌, arith, Bool-cases, true, false, inl, inr, Option, none,
  some, List, [], ◌∷◌, length, length-append, length-filter_by, filter_by, take, ltb, unwrap_or,
  not, IsU32, IsU128, ok, err,
}
use rust_state_machine.Shared.Order.{Ord, bytes_ord, same}
use rust_state_machine.Codec.{Codec, Always}
use rust_state_machine.Store.{KeyValueStore}
use rust_state_machine.Dispatch.{DispatchResult}
use rust_state_machine.Extrinsic.{AccountId32, account_ord, Ed25519, PayloadCodec}
use rust_state_machine.System
use rust_state_machine.Mempool
use rust_state_machine.Mempool.{Mempool}
use rust_state_machine.Mempool.Laws.{drain_for_block_lem}
use rust_state_machine.Runtime.{Runtime, Extrinsic, RuntimeBlock, Content, RuntimeCall}
use rust_state_machine.Runtime.Blocks.{execute_block_total, execute_block_result}
use rust_state_machine.Node.Production.{Groups, sort_by_nonce, produce_block}
use rust_state_machine.Node.Production.Batch.{is_from, VisitsEachOnce}
use rust_state_machine.Node.Production.Blocks.{length-sort_by_nonce}
use rust_state_machine.Node.Production.Total.{
  length-take_run, execute_block_bound, produce_block_total,
}
use rust_state_machine.Node.Loop.{
  is_my_slot, included_in, is_included, on_extrinsic, on_block, on_tick,
}
use rust_state_machine.Node.Loop.Slots.{one_author_per_slot}
use rust_state_machine.Node.Loop.Agreement.{published_was_executed}
use rust_state_machine.Node.Loop.Events.{Node, Event, publish, handle, handle_all}

-- The blocks that an event may execute, and the extrinsics that it brings.
abbrev pub blocks_of : {PeerId : Type 0} → Event PeerId → ℕ
blocks_of (Event.block b) = 1
blocks_of (Event.tick now) = 1
blocks_of _ = 0

abbrev pub extrinsics_of : {PeerId : Type 0} → Event PeerId → ℕ
extrinsics_of (Event.extrinsic ext) = 1
extrinsics_of (Event.block b) = length b.extrinsics
extrinsics_of _ = 0

abbrev pub sum_over : {A : Type 0} → (A → ℕ) → List A → ℕ
sum_over f [] = 0
sum_over f (x ∷ xs) = f x + sum_over f xs

pub on_extrinsic-length :
    (m : Mempool Extrinsic) (ext : Extrinsic)
    → length (on_extrinsic m ext).pending ≤ length m.pending + 1
unfolding on_extrinsic Mempool.submit
on_extrinsic-length m ext = ground (arith, length-append m.pending (ext ∷ []))

-- Room for some blocks and for some extrinsics more.
abbrev pub HasRoom : Runtime → Mempool Extrinsic → ℕ → ℕ → Type 0
HasRoom rt m blocks exts =
    IsU32 (rt.system.block_number + blocks)
    × ((a : AccountId32) → IsU32 (System.nonce rt.system a + length m.pending + exts))

-- What a step uses up at most.
abbrev pub Uses : Runtime → Mempool Extrinsic → Runtime → Mempool Extrinsic → ℕ → ℕ → Type 0
Uses rt m rt' m' blocks exts =
    (rt'.system.block_number ≤ rt.system.block_number + blocks)
    × ((a : AccountId32)
        → System.nonce rt'.system a + length m'.pending
          ≤ System.nonce rt.system a + length m.pending + exts)

-- The pool after a block of a peer.
abbrev pub pool_after : DispatchResult → Mempool Extrinsic → (Extrinsic → Bool) → Mempool Extrinsic
pool_after r m stays = elim r [ ok _ ↦ Mempool.retain m stays | err _ ↦ m ]

pub length-pool_after :
    (r : DispatchResult) (m : Mempool Extrinsic) (stays : Extrinsic → Bool)
    → length (pool_after r m stays).pending ≤ length m.pending
unfolding Mempool.retain
length-pool_after (ok _) m stays = length-filter_by stays m.pending
length-pool_after (err _) m stays = omega arith

module _ {S : Type 0} ⦃kv : KeyValueStore S⦄ ⦃account_codec : Codec AccountId32 Always⦄
    ⦃content_codec : Codec Content Always⦄ ⦃u32_codec : Codec ℕ IsU32⦄ ⦃u128_codec : Codec ℕ IsU128⦄
    ⦃dalek : Ed25519⦄ ⦃payload : PayloadCodec RuntimeCall⦄ where
  on_block_total :
      (rt : Runtime) (s : S) (m : Mempool Extrinsic) (block : RuntimeBlock)
      → HasRoom rt m 1 (length block.extrinsics)
      → (r : Runtime × S × Mempool Extrinsic) × (on_block rt s m block ≡ some r)
        × Uses rt m r.0 r.2 1 (length block.extrinsics)
  unfolding on_block
  on_block_total rt s m block room =
      let (q, run) = execute_block_total rt s block room.0 (λ a. omega (arith, room.1 a)) in
      let stays = λ (e : Extrinsic). not (is_included (included_in block) e) in
      (
        (q.0, q.1, pool_after q.2 m stays),
        rw run refl,
        (
          omega (arith, (execute_block_result rt s block run).0),
          λ a. omega (
            arith,
            execute_block_bound rt s block a run,
            length-filter_by (is_from a) block.extrinsics,
            length-pool_after q.2 m stays,
          ),
        ),
      )

  -- What production uses up, and that it does not panic.
  pub produce_block-Uses :
      (iterate : Groups → Groups)
      → VisitsEachOnce iterate
      → (rt : Runtime) (s : S) (m : Mempool Extrinsic) → HasRoom rt m 1 0
      → (r : Runtime × S × Mempool Extrinsic × Option RuntimeBlock) × (produce_block iterate rt s m
          ≡ some r)
        × Uses rt m r.0 r.2 1 0
  produce_block-Uses iterate v rt s m room =
      let (r, block, made, published, runs) =
        produce_block_total iterate v rt s m room.0 (λ a. omega (arith, room.1 a)) in
      let (run, left) = published_was_executed iterate rt s m block made published in
      let limit = unwrap_or m.block_limit 10 in
      (
        r,
        made,
        (
          omega (arith, (execute_block_result rt s block run).0),
          λ a. omega (
            arith,
            execute_block_bound rt s block a run,
            ap length (runs a),
            length-take_run (System.nonce rt.system a)
                (sort_by_nonce (filter_by (is_from a) (take limit m.pending))),
            length-sort_by_nonce (filter_by (is_from a) (take limit m.pending)),
            length-filter_by (is_from a) (take limit m.pending),
            ap (λ (x : Mempool Extrinsic). length x.pending) left,
            ap length (drain_for_block_lem m limit).0,
            ap length (drain_for_block_lem m limit).2,
            length-append (Mempool.drain_for_block m limit).1
                (Mempool.drain_for_block m limit).0.pending,
          ),
        ),
      )

module _ {S : Type 0} ⦃kv : KeyValueStore S⦄ ⦃account_codec : Codec AccountId32 Always⦄
    ⦃content_codec : Codec Content Always⦄ ⦃u32_codec : Codec ℕ IsU32⦄ ⦃u128_codec : Codec ℕ IsU128⦄
    ⦃dalek : Ed25519⦄ ⦃payload : PayloadCodec RuntimeCall⦄ {PeerId : Type 0} ⦃o : Ord PeerId⦄
    (my_id : PeerId) (iterate : Groups → Groups) (v : VisitsEachOnce iterate) where
  on_tick_total :
      (now : ℕ) (peers : List PeerId) (rt : Runtime) (s : S) (m : Mempool Extrinsic)
      → HasRoom rt m 1 0
      → (r : Runtime × S × Mempool Extrinsic × Option RuntimeBlock) × (on_tick iterate now my_id
            peers rt s m
          ≡ some r)
        × Uses rt m r.0 r.2 1 0
  unfolding on_tick
  on_tick_total now peers rt s m room = elim (Bool-cases (ltb 1 (length peers))) [
    | inr alone ↦ ((rt, s, m, none), rw alone refl, (omega arith, λ a. omega arith))
    | inl together ↦
        let (author, own, mine) = one_author_per_slot now peers (ground arith) in
        elim (Bool-cases (same author my_id)) [
          | inr other ↦
              let turn : is_my_slot now my_id peers ≡ some false = mine my_id ∙ ap some other in
              ((rt, s, m, none), rw (together, turn) refl, (omega arith, λ a. omega arith))
          | inl me ↦
              let turn : is_my_slot now my_id peers ≡ some true = mine my_id ∙ ap some me in
              let (r, made, used) = produce_block-Uses iterate v rt s m room in
              (r, rw (together, turn) made, used)
        ]
  ]

  handle_total :
      (e : Event PeerId) (node : Node PeerId S)
      → HasRoom node.runtime node.mempool (blocks_of e) (extrinsics_of e)
      → (node' : Node PeerId S) × (handle my_id iterate e node ≡ some node')
        × Uses node.runtime node.mempool node'.runtime node'.mempool (blocks_of e) (extrinsics_of e)
  unfolding handle
  handle_total (Event.extrinsic ext) node room =
      (_, refl, (omega arith, λ a. omega (arith, on_extrinsic-length node.mempool ext)))
  handle_total (Event.block b) node room =
      let (r, run, used) = on_block_total node.runtime node.store node.mempool b room in
      (record node { runtime = r.0; store = r.1; mempool = r.2 }, rw run refl, used)
  handle_total (Event.tick now) node room =
      let (r, run, used) = on_tick_total now node.peers node.runtime node.store node.mempool room in
      (
        record node {
          runtime = r.0;
          store = r.1;
          mempool = r.2;
          published = publish node.published (r.3);
        },
        rw run refl,
        used,
      )
  handle_total (Event.established p) node room = (_, refl, (omega arith, λ a. omega arith))
  handle_total (Event.closed p) node room = (_, refl, (omega arith, λ a. omega arith))

  -- If the HashMap is iterated entry by entry, a node whose block number has room for one block for
  -- each block that comes and for each tick, and whose nonces have room, each of them, for all
  -- pending extrinsics and for all those that come, alone or in blocks, handles the events without
  -- a panic.
  pub handle_all_total :
      (events : List (Event PeerId)) (node : Node PeerId S)
      → IsU32 (node.runtime.system.block_number + sum_over blocks_of events)
      → ((a : AccountId32)
          → IsU32 (
              System.nonce node.runtime.system a
              + length node.mempool.pending
              + sum_over extrinsics_of events))
      → (node' : Node PeerId S) × (handle_all my_id iterate events node ≡ some node')
  unfolding handle_all
  handle_all_total [] node n h = (node, refl)
  handle_all_total (e ∷ events) node n h =
      let (node₁, run, used) = handle_total e node (omega arith, λ a. omega (arith, h a)) in
      let (node', rest) =
        handle_all_total events node₁ (omega (arith, used.0)) (λ a. omega (arith, used.1 a, h a)) in
      (node', rw run rest)
