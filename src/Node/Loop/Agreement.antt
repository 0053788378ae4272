-- ===== src/Node/Loop/Agreement.antt =====
-- Two nodes of src/node.rs: the one that makes a block, and a peer that gets it.
use rust_state_machine.Shared.{
  ℕ, ◌≡◌, ◌+◌, refl, ap, arith, Option, Option-cases, inl, inr, none, some, [], IsU32, IsU128, ok,
  err, not, checked_add, unwrap_or,
}
use rust_state_machine.Codec.{Codec, Always}
use rust_state_machine.Store.{KeyValueStore}
use rust_state_machine.Extrinsic.{AccountId32, account_ord, Ed25519, PayloadCodec}
use rust_state_machine.Mempool
use rust_state_machine.Mempool.{Mempool}
use rust_state_machine.Runtime.{
  Runtime, Extrinsic, RuntimeBlock, Content, RuntimeCall, execute_block,
}
use rust_state_machine.Runtime.Blocks.{execute_block_result}
use rust_state_machine.Runtime.Agreement.{observe, without_store, execute_block_agree}
use rust_state_machine.Node.Production.{Groups, build_batch, group_from, produce_block}
use rust_state_machine.Node.Loop.{on_block, included_in, is_included}

pub observe-eq-some :
    {A B C : Type 0} (f : A → C) (g : B → C) (m : Option A) (m' : Option B) {a : A}
    → observe f m ≡ observe g m'
    → m ≡ some a
    → (b : B) × (m' ≡ some b) × (g b ≡ f a)
observe-eq-some f g none m' e h = cc
observe-eq-some f g (some x) none e h = cc
observe-eq-some f g (some x) (some y) {a} e h =
    let same_value : x ≡ a = cc h in (y, refl, cc (e, same_value))

module _ {S : Type 0} ⦃kv : KeyValueStore S⦄ ⦃account_codec : Codec AccountId32 Always⦄
    ⦃content_codec : Codec Content Always⦄ ⦃u32_codec : Codec ℕ IsU32⦄ ⦃u128_codec : Codec ℕ IsU128⦄
    ⦃dalek : Ed25519⦄ ⦃payload : PayloadCodec RuntimeCall⦄ where
  -- A published block is the one that was executed, it was accepted, and the candidates have left the
  -- pool.
  pub published_was_executed :
      (iterate : Groups → Groups) (rt : Runtime) (s : S) (mempool : Mempool Extrinsic)
      (block : RuntimeBlock) {r : Runtime × S × Mempool Extrinsic × Option RuntimeBlock}
      → produce_block iterate rt s mempool ≡ some r
      → r.3 ≡ some block
      → (execute_block rt s block ≡ some (r.0, r.1, ok tt))
        × (r.2 ≡ (Mempool.drain_for_block mempool (unwrap_or mempool.block_limit 10)).0)
  unfolding produce_block
  published_was_executed iterate rt s mempool block {r} h sent =
      elim (Option-cases (checked_add 32 rt.system.block_number 1)) [
        | inl e ↦ absurd (cc (rw e at h))
        | inr (n, e) ↦
            let candidates =
              (Mempool.drain_for_block mempool (unwrap_or mempool.block_limit 10)).1 in
            let built : RuntimeBlock = record {
              header = record { block_number = n };
              extrinsics = build_batch rt (iterate (group_from [] candidates));
            } in
            let rest = rw e at h in
            elim (Option-cases (execute_block rt s built)) [
              | inl f ↦ absurd (cc (rw f at rest))
              | inr ((rt₁, s₁, ok _), f) ↦
                  let last = rw f at rest in
                  let same_block : built ≡ block = ground (arith, last, sent) in
                  (rw (← same_block) (ground (arith, f, last)), ground (arith, last))
              | inr ((rt₁, s₁, err x), f) ↦
                  let last = rw f at rest in absurd (ground (arith, last, sent))
            ]
      ]

module _ {S : Type 0} ⦃kv : KeyValueStore S⦄ ⦃account_codec : Codec AccountId32 Always⦄
    ⦃content_codec : Codec Content Always⦄ ⦃u32_codec : Codec ℕ IsU32⦄ ⦃u128_codec : Codec ℕ IsU128⦄
    ⦃dalek : Ed25519⦄ ⦃payload : PayloadCodec RuntimeCall⦄ where
  -- A node never refuses a block of its own: unless it panics, it publishes one.
  pub produce_block-publishes :
      (iterate : Groups → Groups) (rt : Runtime) (s : S) (mempool : Mempool Extrinsic)
      {r : Runtime × S × Mempool Extrinsic × Option RuntimeBlock}
      → produce_block iterate rt s mempool ≡ some r
      → (block : RuntimeBlock) × (r.3 ≡ some block)
  unfolding produce_block
  produce_block-publishes iterate rt s mempool {r} h =
      elim (Option-cases (checked_add 32 rt.system.block_number 1)) [
        | inl e ↦ absurd (cc (rw e at h))
        | inr (n, e) ↦
            let candidates =
              (Mempool.drain_for_block mempool (unwrap_or mempool.block_limit 10)).1 in
            let built : RuntimeBlock = record {
              header = record { block_number = n };
              extrinsics = build_batch rt (iterate (group_from [] candidates));
            } in
            let rest = rw e at h in
            elim (Option-cases (execute_block rt s built)) [
              | inl f ↦ absurd (cc (rw f at rest))
              | inr ((rt₁, s₁, ok _), f) ↦ let last = rw f at rest in (built, ground (arith, last))
              | inr ((rt₁, s₁, err x), f) ↦
                  let number : n ≡ rt.system.block_number + 1 = ground (arith, e) in
                  absurd (ground (arith, number, (execute_block_result rt s built f).1))
            ]
      ]

module _ {S S' : Type 0} ⦃kv : KeyValueStore S⦄ ⦃kv' : KeyValueStore S'⦄
    ⦃account_codec : Codec AccountId32 Always⦄ ⦃content_codec : Codec Content Always⦄
    ⦃u32_codec : Codec ℕ IsU32⦄ ⦃u128_codec : Codec ℕ IsU128⦄ ⦃dalek : Ed25519⦄
    ⦃payload : PayloadCodec RuntimeCall⦄ where
  -- A node's block, if it is published, makes of a peer with the same runtime, whatever its store and
  -- its pool, a peer with the same runtime again: the peer does not panic, and what the block includes
  -- leaves its pool.
  pub peer_follows :
      (iterate : Groups → Groups) (rt : Runtime) (s : S) (mempool : Mempool Extrinsic) (s' : S')
      (pool : Mempool Extrinsic) (block : RuntimeBlock)
      {r : Runtime × S × Mempool Extrinsic × Option RuntimeBlock}
      → produce_block iterate rt s mempool ≡ some r
      → r.3 ≡ some block
      → (r' : Runtime × S' × Mempool Extrinsic) × (on_block rt s' pool block ≡ some r')
        × (r'.0 ≡ r.0)
        × (r'.2 ≡ Mempool.retain pool (λ e. not (is_included (included_in block) e)))
  unfolding on_block
  peer_follows iterate rt s mempool s' pool block {r} h sent =
      let made = (published_was_executed iterate rt s mempool block h sent).0 in
      let (q, run, agree) =
        observe-eq-some without_store without_store (execute_block rt s block)
          (execute_block rt s' block) (execute_block_agree rt s s' block) made in
      let accepted : q.2 ≡ ok tt = cc (ap (λ x. x.1) agree) in
      (
        (q.0, q.1, Mempool.retain pool (λ e. not (is_included (included_in block) e))),
        rw run (
            ap
              (λ r. some (
                q.0,
                q.1,
                elim r [
                  | ok _ ↦ Mempool.retain pool (λ e. not (is_included (included_in block) e))
                  | err _ ↦ pool
                ],
              ))
              accepted),
        ap (λ x. x.0) agree,
        refl,
      )
