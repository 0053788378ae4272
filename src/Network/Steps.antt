-- ===== src/Network/Steps.antt =====
-- One node of src/node.rs in one slot of a network: what it says, and what it does with a block.
use rust_state_machine.Shared.{
  ℕ, zero, suc, ◌+◌, ◌%◌, ◌<◌, ◌≤◌, not, drop, ◌≡◌, refl, sym, ap, ◌∙◌, arith, true, false, some,
  >>=-eq-some, some_injective, List, [], ◌∷◌, All, length, map, drop-append, drop-length, get_elem?,
  ltb, IsU32, IsU128, ok,
}
use mathlib.Core.Path.{subst}
use rust_state_machine.Shared.Order.{Ord, same, same_iff}
use rust_state_machine.Codec.{Codec, Always}
use rust_state_machine.Store.{KeyValueStore}
use rust_state_machine.Extrinsic.{AccountId32, account_ord, Ed25519, PayloadCodec}
use rust_state_machine.System
use rust_state_machine.Mempool
use rust_state_machine.Mempool.{Mempool}
use rust_state_machine.Runtime.{
  Runtime, Extrinsic, RuntimeBlock, Content, RuntimeCall, execute_block,
}
use rust_state_machine.Runtime.Agreement.{observe, without_store, execute_block_agree}
use rust_state_machine.Runtime.Blocks.{execute_block_result}
use rust_state_machine.Runtime.Ledger.{ledger, execute}
use rust_state_machine.Runtime.Ledger.Refines.{ledger_and_result, execute_block_refines}
use rust_state_machine.Node.Production.Batch.{VisitsEachOnce}
use rust_state_machine.Node.Loop.{
  on_message, on_extrinsic, included_in, is_included, current_slot, is_my_slot, on_block, on_tick,
}
use rust_state_machine.Node.Loop.Agreement.{
  observe-eq-some, published_was_executed, produce_block-publishes,
}
use rust_state_machine.Node.Loop.Total.{
  on_extrinsic-length, produce_block-Uses, pool_after, length-pool_after,
}
use rust_state_machine.Node.Loop.Events.{publish, handle, handle_all}
use rust_state_machine.Network.{
  Participant, Message, Round, Wire, block_message, take_in, forwarded, requests, speak, receive,
  listen,
}

pub All-map {ℓ κ} :
    {A B : Type ℓ} (f : A → B) (P : B → Type κ) (xs : List A)
    → All (λ x. P (f x)) xs
    → All P (map f xs)
All-map f P [] h = tt
All-map f P (x ∷ xs) h = (h.0, All-map f P xs h.1)

All-get_elem? {ℓ κ} :
    {A : Type ℓ} (P : A → Type κ) (xs : List A) (i : ℕ) {x : A}
    → All P xs
    → get_elem? xs i ≡ some x
    → P x
All-get_elem? P [] i h e = cc
All-get_elem? P (x ∷ xs) zero h e = subst P (some_injective e) h.0
All-get_elem? P (x ∷ xs) (suc i) h e = All-get_elem? P xs i h.1 e

module _ {PeerId : Type 0} ⦃o : Ord PeerId⦄ where
  -- No peer stands twice in a list.
  abbrev pub Distinct : List PeerId → Type 0
  Distinct [] = Unit
  Distinct (p ∷ ps) = All (λ q. same p q ≡ false) ps × Distinct ps

  -- Whose slot it is depends on the slot only.
  pub is_my_slot_of_slot :
      (now now' : ℕ) (id : PeerId) (peers : List PeerId)
      → current_slot now ≡ current_slot now'
      → is_my_slot now id peers ≡ is_my_slot now' id peers
  unfolding is_my_slot
  is_my_slot_of_slot now now' id peers e = rw e refl

  pub no_slot_of_others :
      (now : ℕ) (author : PeerId) (peers : List PeerId)
      → is_my_slot now author peers ≡ some true
      → ¬ All (λ q. same author q ≡ false) peers
  unfolding is_my_slot
  no_slot_of_others now author peers h others =
      let (found, e, own) = >>=-eq-some (get_elem? peers (current_slot now % length peers)) _ h in
      let other =
        All-get_elem? (λ q. same author q ≡ false) peers (current_slot now % length peers) others
          e in
      ground (arith, same_iff found author, same_iff author found, own, other)

-- The clocks of all nodes show the same slot.
abbrev pub InOneSlot : {PeerId : Type 0} → Round PeerId → Type 0
InOneSlot {PeerId} round = (slot : ℕ) × ((id : PeerId) → current_slot (round.time id) ≡ slot)

-- A node that has a runtime and a list of peers, and iterates its `HashMap` entry by entry.
abbrev pub HasRuntime : {PeerId S : Type 0} → List PeerId → Runtime → Participant PeerId S → Type 0
HasRuntime peers rt p = (p.node.runtime ≡ rt) × (p.node.peers ≡ peers) × VisitsEachOnce p.iterate

abbrev pub pending_of : {PeerId S : Type 0} → Participant PeerId S → ℕ
pending_of p = length p.node.mempool.pending

abbrev pub heard_by : {PeerId : Type 0} → Round PeerId → PeerId → ℕ
heard_by round id = length (round.heard id)

take_in-length :
    (m : Mempool Extrinsic) (exts : List Extrinsic)
    → length (take_in m exts).pending ≤ length m.pending + length exts
unfolding take_in
take_in-length m [] = omega arith
take_in-length m (ext ∷ exts) =
    omega (arith, take_in-length (on_extrinsic m ext) exts, on_extrinsic-length m ext)

module _ (S : Type 0) ⦃kv : KeyValueStore S⦄ ⦃account_codec : Codec AccountId32 Always⦄
    ⦃content_codec : Codec Content Always⦄ ⦃u32_codec : Codec ℕ IsU32⦄ ⦃u128_codec : Codec ℕ IsU128⦄
    ⦃dalek : Ed25519⦄ ⦃payload : PayloadCodec RuntimeCall⦄ where
  -- A block that leads from one runtime to another over some store.
  abbrev pub Leads : Runtime → RuntimeBlock → Runtime → Type 0
  Leads rt b rt' = (s : S) × (s' : S) × (execute_block rt s b ≡ some (rt', s', ok tt))

  pub ledger_of_Leads :
      (rt rt' : Runtime) (b : RuntimeBlock)
      → Leads rt b rt'
      → (execute (ledger rt) b ≡ some (ledger rt', ok tt))
        × (rt'.system.block_number ≡ rt.system.block_number + 1)
  ledger_of_Leads rt rt' b (s, s', run) = (
    sym (execute_block_refines rt s b) ∙ ap (observe ledger_and_result) run,
    (execute_block_result rt s b run).0,
  )

module _ {S : Type 0} ⦃kv : KeyValueStore S⦄ ⦃account_codec : Codec AccountId32 Always⦄
    ⦃content_codec : Codec Content Always⦄ ⦃u32_codec : Codec ℕ IsU32⦄ ⦃u128_codec : Codec ℕ IsU128⦄
    ⦃dalek : Ed25519⦄ ⦃payload : PayloadCodec RuntimeCall⦄ {PeerId : Type 0} ⦃o : Ord PeerId⦄
    (wire : Wire) where
  -- A node whose slot it is not says nothing.
  pub speak_other :
      (round : Round PeerId) (p : Participant PeerId S)
      → 1 < length p.node.peers
      → is_my_slot (round.time p.id) p.id p.node.peers ≡ some false
      → VisitsEachOnce p.iterate
      → (t : Participant PeerId S × List (Message PeerId)) × (speak wire round p ≡ some t)
        × (t.0.id ≡ p.id)
        × HasRuntime p.node.peers p.node.runtime t.0
        × (t.1 ≡ [])
        × (pending_of t.0 ≤ pending_of p + heard_by round p.id)
  unfolding speak handle on_tick publish requests
  speak_other round p several other v =
      let together : ltb 1 (length p.node.peers) ≡ true = ground arith in
      let mempool = take_in p.node.mempool (round.heard p.id) in
      (
        (
          record p { node = record p.node { mempool = mempool } },
          map (block_message wire p.id) (drop (length p.node.published) p.node.published),
        ),
        rw (together, other) refl,
        refl,
        (refl, refl, v),
        ap (map (block_message wire p.id)) (drop-length p.node.published),
        take_in-length p.node.mempool (round.heard p.id),
      )

  -- The node whose slot it is publishes the block that it executes.
  pub speak_author :
      (round : Round PeerId) (p : Participant PeerId S)
      → 1 < length p.node.peers
      → is_my_slot (round.time p.id) p.id p.node.peers ≡ some true
      → VisitsEachOnce p.iterate
      → IsU32 (p.node.runtime.system.block_number + 1)
      → ((a : AccountId32)
          → IsU32 (System.nonce p.node.runtime.system a + pending_of p + heard_by round p.id))
      → (t : Participant PeerId S × List (Message PeerId)) × (speak wire round p ≡ some t)
        × (t.0.id ≡ p.id)
        × HasRuntime p.node.peers t.0.node.runtime t.0
        × (b : RuntimeBlock) × (t.1 ≡ block_message wire p.id b ∷ [])
        × Leads S p.node.runtime b t.0.node.runtime
        × ((a : AccountId32)
            → System.nonce t.0.node.runtime.system a + pending_of t.0
              ≤ System.nonce p.node.runtime.system a + pending_of p + heard_by round p.id)
  unfolding speak handle on_tick requests publish
  speak_author round p several mine v height room =
      let together : ltb 1 (length p.node.peers) ≡ true = ground arith in
      let mempool = take_in p.node.mempool (round.heard p.id) in
      let few = take_in-length p.node.mempool (round.heard p.id) in
      let (r, made, used) =
        produce_block-Uses p.iterate v p.node.runtime p.node.store mempool
          (height, λ a. omega (arith, room a, few)) in
      let (b, sent) = produce_block-publishes p.iterate p.node.runtime p.node.store mempool made in
      let executed =
        (published_was_executed p.iterate p.node.runtime p.node.store mempool b made sent).0 in
      let said : requests wire p.id p.node.published (publish p.node.published r.3)
          ≡ block_message wire p.id b ∷ [] =
        ap (λ m. requests wire p.id p.node.published (publish p.node.published m)) sent
        ∙ ap (map (block_message wire p.id)) (drop-append p.node.published (b ∷ [])) in
      (
        (
          record p {
            node = record p.node {
              runtime = r.0;
              store = r.1;
              mempool = r.2;
              published = publish p.node.published (r.3);
            };
          },
          requests wire p.id p.node.published (publish p.node.published r.3),
        ),
        rw (together, mine, made) refl,
        refl,
        (refl, refl, v),
        b,
        said,
        (p.node.store, r.1, executed),
        λ a. omega (arith, used.1 a, few),
      )

  -- A node that gets a block from another with the runtime before it has the runtime after it.
  pub listen_other :
      (p : Participant PeerId S) (author : PeerId) (b : RuntimeBlock) (rt' : Runtime)
      → Leads S p.node.runtime b rt'
      → same author p.id ≡ false
      → VisitsEachOnce p.iterate
      → (q : Participant PeerId S) × (listen wire (block_message wire author b ∷ []) p ≡ some q)
        × (q.id ≡ p.id)
        × HasRuntime p.node.peers rt' q
        × (pending_of q ≤ pending_of p)
  unfolding listen receive on_message forwarded handle_all handle on_block Mempool.retain
  listen_other p author b rt' (s, s', run) other v =
      let (found, again, agree) =
        observe-eq-some without_store without_store (execute_block p.node.runtime s b)
          (execute_block p.node.runtime p.node.store b)
          (execute_block_agree p.node.runtime s p.node.store b) run in
      let stays = λ (e : Extrinsic). not (is_included (included_in b) e) in
      (
        record p {
          node = record p.node {
            runtime = found.0;
            store = found.1;
            mempool = pool_after (found.2) p.node.mempool stays;
          };
        },
        rw (other, wire.decode_block-encode_block b, again) refl,
        refl,
        (ap (λ x. x.0) agree, refl, v),
        length-pool_after (found.2) p.node.mempool stays,
      )

  pub listen_self :
      (p : Participant PeerId S) (author : PeerId) (b : RuntimeBlock)
      → same author p.id ≡ true
      → listen wire (block_message wire author b ∷ []) p ≡ some p
  unfolding listen
  listen_self p author b own = rw own refl
