-- ===== src/Node/Loop/Replicas.antt =====
-- Nodes of src/node.rs as replicas: what a node has executed is all that its runtime depends on.
use rust_state_machine.Shared.{
  ℕ, ◌≡◌, refl, sym, ap, ◌∙◌, Bool-cases, true, false, inl, inr, Option, Option-cases, none, some,
  ◌>>=◌, >>=-eq-some, some_injective, List, [], ◌∷◌, ◌++◌, length, ltb, IsU32, IsU128,
}
use rust_state_machine.Shared.Order.{Ord}
use rust_state_machine.Codec.{Codec, Always}
use rust_state_machine.Store.{KeyValueStore}
use rust_state_machine.Dispatch.{DispatchResult}
use rust_state_machine.Extrinsic.{AccountId32, account_ord, Ed25519, PayloadCodec}
use rust_state_machine.Mempool.{Mempool}
use rust_state_machine.Runtime.{
  Runtime, Extrinsic, RuntimeBlock, Content, RuntimeCall, execute_block,
}
use rust_state_machine.Runtime.Agreement.{observe, without_store, execute_block_agree}
use rust_state_machine.Runtime.Ledger.{ledger, execute, execute_each}
use rust_state_machine.Runtime.Ledger.Refines.{
  observe-bind, ledger_left, ledger_and_result, execute_block_refines,
}
use rust_state_machine.Node.Production.{Groups}
use rust_state_machine.Node.Loop.{is_my_slot, on_block, on_tick}
use rust_state_machine.Node.Loop.Agreement.{
  observe-eq-some, published_was_executed, produce_block-publishes,
}
use rust_state_machine.Node.Loop.Events.{Node, Event, publish, handle, handle_all}

module _ {S : Type 0} ⦃kv : KeyValueStore S⦄ ⦃account_codec : Codec AccountId32 Always⦄
    ⦃content_codec : Codec Content Always⦄ ⦃u32_codec : Codec ℕ IsU32⦄ ⦃u128_codec : Codec ℕ IsU128⦄
    ⦃dalek : Ed25519⦄ ⦃payload : PayloadCodec RuntimeCall⦄ where
  -- One block after another, accepted or refused.
  abbrev pub replay : Runtime → S → List RuntimeBlock → Option (Runtime × S)
  replay rt s [] = some (rt, s)
  replay rt s (b ∷ blocks) = execute_block rt s b >>= λ q. replay q.0 q.1 blocks

  replay-append :
      (rt : Runtime) (s : S) (bs cs : List RuntimeBlock) {t : Runtime × S}
      → replay rt s bs ≡ some t
      → replay rt s (bs ++ cs) ≡ replay t.0 t.1 cs
  replay-append rt s [] cs {t} h = ap (λ (u : Runtime × S). replay u.0 u.1 cs) (some_injective h)
  replay-append rt s (b ∷ bs) cs {t} h =
      let (q, run, rest) = >>=-eq-some (execute_block rt s b) (λ q. replay q.0 q.1 bs) h in
      rw run (replay-append q.0 q.1 bs cs rest)

  module _ {PeerId : Type 0} ⦃o : Ord PeerId⦄ (my_id : PeerId) (iterate : Groups → Groups) where
    abbrev made_in :
        Option (Runtime × S × Mempool Extrinsic × Option RuntimeBlock) → List RuntimeBlock
    made_in none = []
    made_in (some r) = publish [] r.3

    -- The blocks that an event makes a node execute: the one that comes, or the one that it makes.
    abbrev pub executed_by : Event PeerId → Node PeerId S → List RuntimeBlock
    executed_by (Event.block b) node = b ∷ []
    executed_by (Event.tick now) node =
        made_in (on_tick iterate now my_id node.peers node.runtime node.store node.mempool)
    executed_by _ node = []

    abbrev followed :
        List RuntimeBlock
        → (Node PeerId S → List RuntimeBlock)
        → Option (Node PeerId S)
        → List RuntimeBlock
    followed blocks later none = blocks
    followed blocks later (some node) = blocks ++ later node

    -- All blocks that a node executes over some events, in order.
    abbrev pub executed : List (Event PeerId) → Node PeerId S → List RuntimeBlock
    executed [] node = []
    executed (e ∷ events) node =
        followed (executed_by e node) (executed events) (handle my_id iterate e node)

    on_block-replay :
        (rt : Runtime) (s : S) (mempool : Mempool Extrinsic) (b : RuntimeBlock)
        {r : Runtime × S × Mempool Extrinsic}
        → on_block rt s mempool b ≡ some r
        → replay rt s (b ∷ []) ≡ some (r.0, r.1)
    unfolding on_block
    on_block-replay rt s mempool b {r} h = elim (Option-cases (execute_block rt s b)) [
      | inl e ↦ absurd (cc (rw e at h))
      | inr (q, e) ↦
          let last = rw e at h in
          rw e (ap (λ (x : Runtime × S × Mempool Extrinsic). some (x.0, x.1)) (some_injective last))
    ]

    abbrev state : Node PeerId S → Option (Runtime × S)
    state node = some (node.runtime, node.store)

    idle :
        (node : Node PeerId S) {r : Runtime × S × Mempool Extrinsic × Option RuntimeBlock}
        → (node.runtime, node.store, node.mempool, none) ≡ r
        → replay node.runtime node.store (publish [] r.3) ≡ some (r.0, r.1)
    unfolding publish
    idle node e = rw (sym e) refl

    on_tick-replay :
        (now : ℕ) (node : Node PeerId S) {r : Runtime × S × Mempool Extrinsic × Option RuntimeBlock}
        → on_tick iterate now my_id node.peers node.runtime node.store node.mempool ≡ some r
        → replay node.runtime node.store (publish [] r.3) ≡ some (r.0, r.1)
    unfolding on_tick publish
    on_tick-replay now node {r} h = elim (Bool-cases (ltb 1 (length node.peers))) [
      | inr alone ↦ let last = rw alone at h in idle node (some_injective last)
      | inl together ↦ elim (Option-cases (is_my_slot now my_id node.peers)) [
        | inl e ↦ absurd (cc (rw (together, e) at h))
        | inr (false, e) ↦ let last = rw (together, e) at h in idle node (some_injective last)
        | inr (true, e) ↦
            let made = rw (together, e) at h in
            let (block, sent) =
              produce_block-publishes iterate node.runtime node.store node.mempool made in
            let run =
              (published_was_executed iterate node.runtime node.store node.mempool block made
                sent).0 in
            rw (sent, run) refl
      ]
    ]

    -- Replaying what an event made a node execute leads to the runtime and the store that it left.
    handle-replay :
        (e : Event PeerId) (node : Node PeerId S) {node' : Node PeerId S}
        → handle my_id iterate e node ≡ some node'
        → replay node.runtime node.store (executed_by e node) ≡ some (node'.runtime, node'.store)
    unfolding handle
    handle-replay (Event.extrinsic ext) node h = ap state (some_injective h)
    handle-replay (Event.block b) node h =
        let (r, run, last) = >>=-eq-some (on_block node.runtime node.store node.mempool b) _ h in
        on_block-replay node.runtime node.store node.mempool b run ∙ ap state (some_injective last)
    handle-replay (Event.tick now) node h =
        let (r, run, last) =
          >>=-eq-some (on_tick iterate now my_id node.peers node.runtime node.store node.mempool) _
            h in
        ap (λ m. replay node.runtime node.store (made_in m)) run
        ∙ on_tick-replay now node run
        ∙ ap state (some_injective last)
    handle-replay (Event.established p) node h = ap state (some_injective h)
    handle-replay (Event.closed p) node h = ap state (some_injective h)

    handle_all-replay :
        (events : List (Event PeerId)) (node : Node PeerId S) {node' : Node PeerId S}
        → handle_all my_id iterate events node ≡ some node'
        → replay node.runtime node.store (executed events node) ≡ some (node'.runtime, node'.store)
    unfolding handle_all
    handle_all-replay [] node h = ap state (some_injective h)
    handle_all-replay (e ∷ events) node h =
        let (node₁, first, rest) =
          >>=-eq-some (handle my_id iterate e node) (handle_all my_id iterate events) h in
        ap (λ m. replay node.runtime node.store (followed (executed_by e node) (executed events) m))
          first
        ∙ replay-append node.runtime node.store (executed_by e node) (executed events node₁)
            (handle-replay e node first)
        ∙ handle_all-replay events node₁ rest

module _ {S : Type 0} ⦃kv : KeyValueStore S⦄ ⦃account_codec : Codec AccountId32 Always⦄
    ⦃content_codec : Codec Content Always⦄ ⦃u32_codec : Codec ℕ IsU32⦄ ⦃u128_codec : Codec ℕ IsU128⦄
    ⦃dalek : Ed25519⦄ ⦃payload : PayloadCodec RuntimeCall⦄ where
  replay-execute_each :
      (rt : Runtime) (s : S) (blocks : List RuntimeBlock)
      → observe ledger_left (replay rt s blocks) ≡ execute_each (ledger rt) blocks
  replay-execute_each rt s [] = refl
  replay-execute_each rt s (b ∷ blocks) =
      observe-bind ledger_and_result ledger_left (execute_block rt s b) (execute (ledger rt) b)
        (λ q. replay q.0 q.1 blocks) (λ q. execute_each q.0 blocks) (execute_block_refines rt s b)
        (λ q e. replay-execute_each q.0 q.1 blocks)

  -- Whatever the events of a node that does not panic, the ledger of its runtime afterwards is the one
  -- that the abstract blocks make of the ledger before, for the blocks that it has executed: its own
  -- and those that came, in order.
  pub node_refines :
      {PeerId : Type 0} ⦃o : Ord PeerId⦄ (my_id : PeerId) (iterate : Groups → Groups)
      (events : List (Event PeerId)) (node : Node PeerId S) {node' : Node PeerId S}
      → handle_all my_id iterate events node ≡ some node'
      → execute_each (ledger node.runtime) (executed my_id iterate events node)
        ≡ some (ledger node'.runtime)
  node_refines my_id iterate events node h =
      sym (replay-execute_each node.runtime node.store (executed my_id iterate events node))
      ∙ ap (observe ledger_left) (handle_all-replay my_id iterate events node h)

module _ {S S' : Type 0} ⦃kv : KeyValueStore S⦄ ⦃kv' : KeyValueStore S'⦄
    ⦃account_codec : Codec AccountId32 Always⦄ ⦃content_codec : Codec Content Always⦄
    ⦃u32_codec : Codec ℕ IsU32⦄ ⦃u128_codec : Codec ℕ IsU128⦄ ⦃dalek : Ed25519⦄
    ⦃payload : PayloadCodec RuntimeCall⦄ where
  replay_agree :
      (rt : Runtime) (s : S) (s' : S') (blocks : List RuntimeBlock) {t : Runtime × S}
      {t' : Runtime × S'}
      → replay rt s blocks ≡ some t
      → replay rt s' blocks ≡ some t'
      → t.0 ≡ t'.0
  replay_agree rt s s' [] h h' =
      sym (ap (λ (u : Runtime × S). u.0) (some_injective h))
      ∙ ap (λ (u : Runtime × S'). u.0) (some_injective h')
  replay_agree rt s s' (b ∷ blocks) {t} {t'} h h' =
      let (q, run, rest) = >>=-eq-some (execute_block rt s b) (λ q. replay q.0 q.1 blocks) h in
      let (q', run', rest') = >>=-eq-some (execute_block rt s' b) (λ q. replay q.0 q.1 blocks) h' in
      let (found, same_run, agree) =
        observe-eq-some without_store without_store (execute_block rt s b) (execute_block rt s' b)
          (execute_block_agree rt s s' b) run in
      let same_found : found ≡ q' = some_injective (sym same_run ∙ run') in
      let same_runtime : q'.0 ≡ q.0 =
        ap (λ (x : Runtime × S' × DispatchResult). x.0) (sym same_found) ∙ ap (λ x. x.0) agree in
      replay_agree q.0 q.1 q'.1 blocks rest (rw same_runtime at rest')

  -- Two nodes that do not panic, start with the same runtime and have executed the same blocks in
  -- the same order, their own and those that came, have the same runtime, whatever else has
  -- happened to them: whatever their stores, pools and peers, and whatever events came between the
  -- blocks.
  pub replicas_agree :
      {PeerId : Type 0} ⦃o : Ord PeerId⦄ (a b : PeerId) (iterate iterate' : Groups → Groups)
      (events events' : List (Event PeerId)) (node end : Node PeerId S)
      (node' end' : Node PeerId S')
      → node.runtime ≡ node'.runtime
      → handle_all a iterate events node ≡ some end
      → handle_all b iterate' events' node' ≡ some end'
      → executed a iterate events node ≡ executed b iterate' events' node'
      → end.runtime ≡ end'.runtime
  replicas_agree a b iterate iterate' events events' node end node' end' same_start h h'
        same_blocks =
      let first = handle_all-replay a iterate events node h in
      let second = handle_all-replay b iterate' events' node' h' in
      replay_agree node.runtime node.store node'.store (executed a iterate events node)
        {t' = (end'.runtime, end'.store)} first
        (ap (λ blocks. replay node.runtime node'.store blocks) same_blocks
          ∙ ap (λ rt. replay rt node'.store (executed b iterate' events' node')) same_start
          ∙ second)
