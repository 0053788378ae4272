-- ===== src/Node/Loop/Events.antt =====
-- A node of src/node.rs as a whole: its start in `run`, and any sequence of events of its two
-- loops. The two loops share the peers and the channels; a branch runs to its end before the next
-- one of its loop, so their branches come one after the other. A tick reads the peers twice, here
-- at once.
use rust_state_machine.Shared.{
  ℕ, ◌≡◌, Bool-cases, true, false, inl, inr, Option, Option-cases, none, some, ◌>>=◌, >>=-eq-some,
  List, [], ◌∷◌, ◌++◌, length, ltb, IsU32, IsU128, checked_add, unwrap_or,
}
use rust_state_machine.Shared.Order.{Bytes, Ord, bytes_ord}
use rust_state_machine.Codec.{Codec, Always}
use rust_state_machine.Store.{KeyValueStore}
use rust_state_machine.Dispatch.{DispatchResult}
use rust_state_machine.Extrinsic.{AccountId32, account_ord, Ed25519, PayloadCodec}
use rust_state_machine.Mempool
use rust_state_machine.Mempool.{Mempool}
use rust_state_machine.Runtime.{
  Runtime, Extrinsic, RuntimeBlock, Content, RuntimeCall, new, execute_block,
}
use rust_state_machine.Runtime.Nonces.{Chain, here, next}
use rust_state_machine.Genesis.{maybe_apply_genesis}
use rust_state_machine.Node.Production.{Groups, group_from, build_batch, produce_block}
use rust_state_machine.Node.Loop.{
  on_extrinsic, on_block, on_tick, is_my_slot, connection_established, connection_closed,
}

-- What the tasks of a node share, and what it has published so far.
pub record Node (PeerId S : Type 0) : Type 0 where
  pub runtime : Runtime
  pub store : S
  pub mempool : Mempool Extrinsic
  pub peers : List PeerId
  pub published : List RuntimeBlock

pub data Event (PeerId : Type 0) : Type 0 where
  extrinsic : Extrinsic → Event PeerId
  block : RuntimeBlock → Event PeerId
  tick : ℕ → Event PeerId
  established : PeerId → Event PeerId
  closed : PeerId → Event PeerId

unfoldable pub publish : List RuntimeBlock → Option RuntimeBlock → List RuntimeBlock
publish sent none = sent
publish sent (some b) = sent ++ (b ∷ [])

module _ {S : Type 0} ⦃kv : KeyValueStore S⦄ ⦃account_codec : Codec AccountId32 Always⦄
    ⦃content_codec : Codec Content Always⦄ ⦃u32_codec : Codec ℕ IsU32⦄ ⦃u128_codec : Codec ℕ IsU128⦄
    ⦃dalek : Ed25519⦄ ⦃payload : PayloadCodec RuntimeCall⦄ {PeerId : Type 0} ⦃o : Ord PeerId⦄
    (my_id : PeerId) where
  unfoldable pub start : (Bytes → dalek.SigningKey) → S → Option (Node PeerId S)
  start from_seed s = do
    t ← maybe_apply_genesis from_seed (new s) s
    some (record {
      runtime = t.0;
      store = t.1;
      mempool = Mempool.with_block_limit 3;
      peers = my_id ∷ [];
      published = [];
    })

  unfoldable pub handle : (Groups → Groups) → Event PeerId → Node PeerId S → Option (Node PeerId S)
  handle iterate (Event.extrinsic ext) node =
      some (record node { mempool = on_extrinsic node.mempool ext })
  handle iterate (Event.block b) node = do
    r ← on_block node.runtime node.store node.mempool b
    some (record node { runtime = r.0; store = r.1; mempool = r.2 })
  handle iterate (Event.tick now) node = do
    r ← on_tick iterate now my_id node.peers node.runtime node.store node.mempool
    some (record node {
      runtime = r.0;
      store = r.1;
      mempool = r.2;
      published = publish node.published (r.3);
    })
  handle iterate (Event.established p) node =
      some (record node { peers = connection_established p node.peers })
  handle iterate (Event.closed p) node =
      some (record node { peers = connection_closed p node.peers })

  unfoldable pub handle_all :
      (Groups → Groups) → List (Event PeerId) → Node PeerId S → Option (Node PeerId S)
  handle_all iterate [] node = some node
  handle_all iterate (e ∷ events) node = handle iterate e node >>= handle_all iterate events

  Chain-trans :
      {rt : Runtime} {s : S} {rt' : Runtime} {s' : S} {rt'' : Runtime} {s'' : S}
      → Chain rt s rt' s'
      → Chain rt' s' rt'' s''
      → Chain rt s rt'' s''
  Chain-trans c here = c
  Chain-trans c (next d b e) = next (Chain-trans c d) b e

  same-Chain :
      {rt : Runtime} {s : S} {a : Runtime} {b : S} {rt' : Runtime} {s' : S}
      → Chain rt s a b
      → rt' ≡ a
      → s' ≡ b
      → Chain rt s rt' s'
  same-Chain c same_runtime same_store = rw (same_runtime, same_store) c

  -- One block more.
  block-Chain :
      {rt : Runtime} {s : S} (b : RuntimeBlock) {q : Runtime × S × DispatchResult} {rt' : Runtime}
      {s' : S}
      → execute_block rt s b ≡ some q
      → rt' ≡ q.0
      → s' ≡ q.1
      → Chain rt s rt' s'
  block-Chain b e same_runtime same_store = same-Chain (next here b e) same_runtime same_store

  produce_block-Chain :
      (iterate : Groups → Groups) (rt : Runtime) (s : S) (mempool : Mempool Extrinsic)
      {r : Runtime × S × Mempool Extrinsic × Option RuntimeBlock}
      → produce_block iterate rt s mempool ≡ some r
      → Chain rt s r.0 r.1
  unfolding produce_block
  produce_block-Chain iterate rt s mempool {r} h =
      elim (Option-cases (checked_add 32 rt.system.block_number 1)) [
        | inl e ↦ absurd (cc (rw e at h))
        | inr (n, e) ↦
            let candidates =
              (Mempool.drain_for_block mempool (unwrap_or mempool.block_limit 10)).1 in
            let block : RuntimeBlock = record {
              header = record { block_number = n };
              extrinsics = build_batch rt (iterate (group_from [] candidates));
            } in
            let rest = rw e at h in
            elim (Option-cases (execute_block rt s block)) [
              | inl f ↦ absurd (cc (rw f at rest))
              | inr (q, f) ↦ let last = rw f at rest in block-Chain block f (cc last) (cc last)
            ]
      ]

  on_block-Chain :
      (rt : Runtime) (s : S) (mempool : Mempool Extrinsic) (b : RuntimeBlock)
      {r : Runtime × S × Mempool Extrinsic}
      → on_block rt s mempool b ≡ some r
      → Chain rt s r.0 r.1
  unfolding on_block
  on_block-Chain rt s mempool b {r} h = elim (Option-cases (execute_block rt s b)) [
    | inl e ↦ absurd (cc (rw e at h))
    | inr (q, e) ↦ let last = rw e at h in block-Chain b e (cc last) (cc last)
  ]

  on_tick-Chain :
      (iterate : Groups → Groups) (now : ℕ) (peers : List PeerId) (rt : Runtime) (s : S)
      (mempool : Mempool Extrinsic) {r : Runtime × S × Mempool Extrinsic × Option RuntimeBlock}
      → on_tick iterate now my_id peers rt s mempool ≡ some r
      → Chain rt s r.0 r.1
  unfolding on_tick
  on_tick-Chain iterate now peers rt s mempool {r} h = elim (Bool-cases (ltb 1 (length peers))) [
    | inr alone ↦ let last = rw alone at h in same-Chain here (cc last) (cc last)
    | inl together ↦ elim (Option-cases (is_my_slot now my_id peers)) [
      | inl e ↦ absurd (cc (rw (together, e) at h))
      | inr (true, e) ↦ produce_block-Chain iterate rt s mempool (rw (together, e) at h)
      | inr (false, e) ↦ let last = rw (together, e) at h in same-Chain here (cc last) (cc last)
    ]
  ]

  handle-Chain :
      (iterate : Groups → Groups) (e : Event PeerId) (node : Node PeerId S) {node' : Node PeerId S}
      → handle iterate e node ≡ some node'
      → Chain node.runtime node.store node'.runtime node'.store
  unfolding handle
  handle-Chain iterate (Event.extrinsic ext) node h = same-Chain here (cc h) (cc h)
  handle-Chain iterate (Event.block b) node {node'} h =
      elim (Option-cases (on_block node.runtime node.store node.mempool b)) [
        | inl e ↦ absurd (cc (rw e at h))
        | inr (r, e) ↦
            let last = rw e at h in
            same-Chain (on_block-Chain node.runtime node.store node.mempool b e) (cc last) (cc last)
      ]
  handle-Chain iterate (Event.tick now) node {node'} h =
      elim (Option-cases
        (on_tick iterate now my_id node.peers node.runtime node.store node.mempool)) [
          | inl e ↦ absurd (cc (rw e at h))
          | inr (r, e) ↦
              let last = rw e at h in
              same-Chain
                (on_tick-Chain iterate now node.peers node.runtime node.store node.mempool e)
                (cc last) (cc last)
        ]
  handle-Chain iterate (Event.established p) node h = same-Chain here (cc h) (cc h)
  handle-Chain iterate (Event.closed p) node h = same-Chain here (cc h) (cc h)

  -- Whatever the events of a node that does not panic, and in whatever order, they execute a chain of
  -- blocks: the runtime and the store are only ever changed by blocks, one after another.
  pub handle_all-Chain :
      (iterate : Groups → Groups) (events : List (Event PeerId)) (node : Node PeerId S)
      {node' : Node PeerId S}
      → handle_all iterate events node ≡ some node'
      → Chain node.runtime node.store node'.runtime node'.store
  unfolding handle_all
  handle_all-Chain iterate [] node h = same-Chain here (cc h) (cc h)
  handle_all-Chain iterate (e ∷ events) node h =
      let (node₁, first, rest) =
        >>=-eq-some (handle iterate e node) (handle_all iterate events) h in
      Chain-trans (handle-Chain iterate e node first) (handle_all-Chain iterate events node₁ rest)
