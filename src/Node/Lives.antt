-- ===== src/Node/Lives.antt =====
-- A node of src/node.rs over any number of processes: it is launched on an empty database, handles
-- events, stops between two of them, and is launched again on what is stored. Each process has a
-- new peer id and its own order of iteration.
use rust_state_machine.Shared.{
  ℕ, ◌≤◌, ◌≡◌, refl, sym, ap, ◌∙◌, arith, Bool-cases, Option-cases, false, inl, inr, some, List, [],
  ◌∷◌, IsU32, IsU128, some_injective, ok, err, ◌==◌,
}
use mathlib.Core.Path.{subst}
use rust_state_machine.Shared.Order.{Bytes, Ord, bytes_ord}
use rust_state_machine.Codec.{Codec, Always}
use rust_state_machine.Store.{KeyValueStore, IsReliable}
use rust_state_machine.Extrinsic.{AccountId32, account_ord, Ed25519, PayloadCodec}
use rust_state_machine.Balances
use rust_state_machine.ProofOfExistence
use rust_state_machine.Mempool
use rust_state_machine.Runtime.{Runtime, Content, RuntimeCall, new, execute_block}
use rust_state_machine.Runtime.Sound.{
  IsEmpty, IsSound, new-of_empty, blank-IsSound, new-IsSound, restarted-IsSound,
  set_balance-IsSound, execute_block-IsSound, Chain-IsSound, Chain-block_number,
}
use rust_state_machine.Genesis.{
  AccountKeyring, public_key, genesis, fund_dev_accounts, maybe_apply_genesis,
  maybe_apply_genesis_lem,
}
use rust_state_machine.Node.Production.{Groups}
use rust_state_machine.Node.Loop.Events
use rust_state_machine.Node.Loop.Events.{Node, Event, handle_all, handle_all-Chain}

module _ {S : Type 0} ⦃kv : KeyValueStore S⦄ ⦃account_codec : Codec AccountId32 Always⦄
    ⦃content_codec : Codec Content Always⦄ ⦃u32_codec : Codec ℕ IsU32⦄ ⦃u128_codec : Codec ℕ IsU128⦄
    ⦃dalek : Ed25519⦄ ⦃payload : PayloadCodec RuntimeCall⦄
    (from_seed : Bytes → dalek.SigningKey) where
  fund_dev_accounts-IsSound :
      IsReliable kv
      → (rt : Runtime) (s : S) → IsSound rt s
      → let t = fund_dev_accounts from_seed rt.balances s in
        IsSound (record rt { balances = t.0 }) t.1
  unfolding fund_dev_accounts
  fund_dev_accounts-IsSound r rt s h =
      let alice = public_key from_seed AccountKeyring.alice in
      let bob = public_key from_seed AccountKeyring.bob in
      let charlie = public_key from_seed AccountKeyring.charlie in
      let (p₁, s₁) = Balances.set_balance rt.balances s alice 1000000 in
      let (p₂, s₂) = Balances.set_balance p₁ s₁ bob 1000000 in
      set_balance-IsSound r (record rt { balances = p₂ }) s₂ charlie 1000000 (omega arith)
        (set_balance-IsSound r (record rt { balances = p₁ }) s₁ bob 1000000 (omega arith)
          (set_balance-IsSound r rt s alice 1000000 (omega arith) h))

  same-IsSound : {u v : Runtime × S} → u ≡ v → IsSound u.0 u.1 → IsSound v.0 v.1
  same-IsSound e h = subst (λ (u : Runtime × S). IsSound u.0 u.1) e h

  maybe_apply_genesis-IsSound :
      IsReliable kv
      → (rt : Runtime) (s : S) {q : Runtime × S} → IsSound rt s
      → maybe_apply_genesis from_seed rt s ≡ some q
      → IsSound q.0 q.1
  unfolding maybe_apply_genesis
  maybe_apply_genesis-IsSound r rt s {q} h e = elim (Bool-cases (rt.system.block_number == 0)) [
    | inr begun ↦ let last = rw begun at e in same-IsSound (some_injective last) h
    | inl fresh ↦
        let t = fund_dev_accounts from_seed rt.balances s in
        let funded = record rt { balances = t.0 } in
        elim (Option-cases (execute_block funded t.1 genesis)) [
          | inl f ↦ absurd (cc (rw (fresh, f) at e))
          | inr ((rt₁, s₁, ok _), f) ↦
              let last = rw (fresh, f) at e in
              same-IsSound (some_injective last)
                (execute_block-IsSound r funded t.1 genesis (fund_dev_accounts-IsSound r rt s h) f)
          | inr ((rt₁, s₁, err _), f) ↦ absurd (cc (rw (fresh, f) at e))
        ]
  ]

  -- A process that starts on a sound store has the runtime that the genesis leaves.
  start-eq-some :
      {PeerId : Type 0} ⦃o : Ord PeerId⦄ (my_id : PeerId) (s : S) {node : Node PeerId S}
      → Events.start my_id from_seed s ≡ some node
      → maybe_apply_genesis from_seed (new s) s ≡ some (node.runtime, node.store)
  unfolding Events.start
  start-eq-some my_id s {node} h = elim (Option-cases (maybe_apply_genesis from_seed (new s) s)) [
    | inl e ↦ absurd (cc (rw e at h))
    | inr (t, e) ↦ let last = rw e at h in e ∙ cc last
  ]

  -- On a begun chain the genesis does nothing.
  genesis_done :
      (rt : Runtime) (s : S)
      → 1 ≤ rt.system.block_number
      → maybe_apply_genesis from_seed rt s ≡ some (rt, s)
  unfolding maybe_apply_genesis
  genesis_done rt s h =
      let begun : (rt.system.block_number == 0) ≡ false = ground arith in rw begun refl

  module _ {PeerId : Type 0} ⦃o : Ord PeerId⦄ where
    pub data Life : PeerId → Node PeerId S → Type 0 where
      launch :
          {node : Node PeerId S} (my_id : PeerId) (s : S)
          → IsEmpty s
          → Events.start my_id from_seed s ≡ some node
          → Life my_id node
      run :
          {my_id : PeerId} {node node' : Node PeerId S} (iterate : Groups → Groups)
          (events : List (Event PeerId))
          → Life my_id node
          → handle_all my_id iterate events node ≡ some node'
          → Life my_id node'
      relaunch :
          {my_id : PeerId} {node node' : Node PeerId S} (new_id : PeerId)
          → Life my_id node
          → Events.start new_id from_seed node.store ≡ some node'
          → Life new_id node'

    -- Sound, and past its genesis.
    record IsBegun (node : Node PeerId S) : Type 0 where
      sound : IsSound node.runtime node.store
      numbered : 1 ≤ node.runtime.system.block_number

    launch-IsBegun :
        IsReliable kv
        → (my_id : PeerId) (s : S) {node : Node PeerId S} → IsEmpty s
        → Events.start my_id from_seed s ≡ some node
        → IsBegun node
    launch-IsBegun r my_id s {node} h e =
        let made = start-eq-some my_id s e in
        let (q, again, number, nonces, funds, twice) =
          maybe_apply_genesis_lem from_seed (new s) s (public_key from_seed AccountKeyring.alice)
            (rw (new-of_empty r s h) refl) in
        let same_node : q ≡ (node.runtime, node.store) = cc (made, again) in
        record {
          sound =
              maybe_apply_genesis-IsSound r (new s) s (rw (new-of_empty r s h) (blank-IsSound s h))
                made;
          numbered =
              omega (arith, number, ap (λ (u : Runtime × S). u.0.system.block_number) same_node);
        }

    -- A relaunch of a node that is sound and past its genesis has the runtime that is stored.
    relaunched :
        IsReliable kv
        → (new_id : PeerId) (node : Node PeerId S) → IsBegun node
        → Events.start new_id from_seed node.store
          ≡ some (record {
            runtime = new node.store;
            store = node.store;
            mempool = Mempool.with_block_limit 3;
            peers = new_id ∷ [];
            published = [];
          })
    unfolding Events.start
    relaunched r new_id node b =
        let found = new-IsSound r node.runtime node.store b.sound in
        let begun : 1 ≤ (new node.store).system.block_number = rw found b.numbered in
        rw (genesis_done (new node.store) node.store begun) refl

    Life-IsBegun :
        IsReliable kv → {my_id : PeerId} {node : Node PeerId S} → Life my_id node → IsBegun node
    Life-IsBegun r (launch my_id s h e) = launch-IsBegun r my_id s h e
    Life-IsBegun r (run {my_id = my_id} {node = node} iterate events life e) =
        let before = Life-IsBegun r life in
        let chain = handle_all-Chain my_id iterate events node e in
        record {
          sound = Chain-IsSound r before.sound chain;
          numbered = omega (arith, before.numbered, Chain-block_number chain);
        }
    Life-IsBegun r (relaunch {node = node} {node' = node'} new_id life e) =
        let before = Life-IsBegun r life in
        let same_node = some_injective (sym (relaunched r new_id node before) ∙ e) in
        let found = new-IsSound r node.runtime node.store before.sound in
        let same_runtime =
          ap {B = Runtime × S} (λ (x : Node PeerId S). (x.runtime, x.store)) same_node in
        record {
          sound =
              same-IsSound same_runtime (restarted-IsSound r node.runtime node.store before.sound);
          numbered = omega (
            arith,
            before.numbered,
            ap (λ (x : Node PeerId S). x.runtime.system.block_number) same_node,
            ap (λ (rt : Runtime). rt.system.block_number) found,
          );
        }

    -- On a reliable store, whatever events a node has handled since it was launched on an empty
    -- database, and however often it was launched again in between, one more launch does not panic:
    -- it finds the block number, the nonces and the balances that the node had, each claim found is
    -- one that the node had, with the same owner, the store is left alone, and the pool is empty.
    pub relaunch_recovers :
        IsReliable kv
        → {my_id : PeerId} {node : Node PeerId S} → Life my_id node
        → (new_id : PeerId)
        → (node' : Node PeerId S) × (Events.start new_id from_seed node.store ≡ some node')
          × (node'.runtime.system ≡ node.runtime.system)
          × (node'.runtime.balances ≡ node.runtime.balances)
          × ((claim : Content) (owner : AccountId32)
              → ProofOfExistence.get_claim node'.runtime.proof_of_existence claim ≡ some owner
              → ProofOfExistence.get_claim node.runtime.proof_of_existence claim ≡ some owner)
          × (node'.store ≡ node.store)
          × (node'.mempool.pending ≡ [])
    unfolding ProofOfExistence.get_claim Mempool.with_block_limit
    relaunch_recovers r {my_id} {node} life new_id =
        let b = Life-IsBegun r life in
        let found = new-IsSound r node.runtime node.store b.sound in
        (
          _,
          relaunched r new_id node b,
          ap (λ (rt : Runtime). rt.system) found,
          ap (λ (rt : Runtime). rt.balances) found,
          λ claim owner e. b.sound.saved.agrees claim owner (rw found at e),
          refl,
          refl,
        )
