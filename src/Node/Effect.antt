-- ===== src/Node/Effect.antt =====
-- From a signed extrinsic in the pool of src/node.rs to its effect on the ledger.
use rust_state_machine.Shared.{
  ℕ, ◌+◌, ◌^◌, ◌<◌, ◌≡◌, refl, sym, ap, ap₂, ◌∙◌, arith, Bool-cases, true, inl, inr, Option, some,
  some_injective, List, [], All, ◌∷◌, length, filter_by, unwrap_or, ltb, IsU32, IsU128, ok,
  if◌then◌else◌, ◌==◌, ◌≤◌,
}
use rust_state_machine.Shared.Order.{Ord, bytes_ord, same, same_iff}
use rust_state_machine.Dispatch.{DispatchResult}
use rust_state_machine.Codec.{Codec, Always}
use rust_state_machine.Store.{KeyValueStore}
use rust_state_machine.Extrinsic.{AccountId32, account_ord, Ed25519, PayloadCodec, verify}
use rust_state_machine.System
use rust_state_machine.Mempool.{Mempool}
use rust_state_machine.Runtime.{
  Runtime, Extrinsic, RuntimeBlock, Content, RuntimeCall, execute_block,
}
use rust_state_machine.Runtime.Agreement.{observe}
use rust_state_machine.Runtime.Ledger.{Ledger, ledger, effect, execute}
use rust_state_machine.Runtime.Ledger.Refines.{ledger_and_result, execute_block_refines}
use rust_state_machine.Node.Production.{Groups}
use rust_state_machine.Node.Production.Batch.{is_from, VisitsEachOnce}
use rust_state_machine.Node.Production.Blocks.{Consecutive, produce_block_lem}
use rust_state_machine.Node.Loop.{is_my_slot, on_tick}
use rust_state_machine.Node.Loop.Tick.{produce_block_seals}
use rust_state_machine.Node.Loop.Agreement.{published_was_executed}

is_from_signer : (e : Extrinsic) → is_from e.signer e ≡ true
is_from_signer e = (same_iff e.signer e.signer).1 refl

nothing_from_anyone :
    (xs : List Extrinsic) → ((a : AccountId32) → filter_by (is_from a) xs ≡ []) → xs ≡ []
nothing_from_anyone [] h = refl
nothing_from_anyone (x ∷ xs) h = absurd (ground (arith, h x.signer, is_from_signer x))

-- A list in which each account has what it has in a list of one is that list.
only_one :
    (e : Extrinsic) (xs : List Extrinsic)
    → ((a : AccountId32) → filter_by (is_from a) xs ≡ filter_by (is_from a) (e ∷ []))
    → xs ≡ e ∷ []
only_one e [] h = absurd (ground (arith, h e.signer, is_from_signer e))
only_one e (x ∷ xs) h = elim (Bool-cases (same x.signer e.signer)) [
  | inr n ↦ absurd (
      ground (
        arith,
        n,
        h x.signer,
        is_from_signer x,
        same_iff e.signer x.signer,
        same_iff x.signer e.signer,
      ))
  | inl y ↦
      let signer : x.signer ≡ e.signer = (same_iff x.signer e.signer).0 y in
      let first : x ≡ e = ground (arith, h e.signer, y, is_from_signer e) in
      let others : xs ≡ [] = nothing_from_anyone xs (λ a. elim (Bool-cases (is_from a e)) [
        | inl same_as ↦ ground (arith, h a, same_as, signer)
        | inr differs ↦ ground (arith, h a, differs, ap (is_from a) first)
      ]) in
      ap₂ (λ z zs. z ∷ zs) first others
]

from_alone :
    (e : Extrinsic) (n : AccountId32 → ℕ) (xs : List Extrinsic)
    → xs ≡ e ∷ []
    → e.nonce ≡ n e.signer
    → (a : AccountId32) → Consecutive (n a) (filter_by (is_from a) xs)
from_alone e n xs alone next a = rw alone (elim (Bool-cases (is_from a e)) [
  | inl y ↦ rw y (next ∙ ap n ((same_iff e.signer a).0 y), tt)
  | inr m ↦ rw m tt
])

-- The ledger after a block with one extrinsic, whose turn it is.
abbrev pub one_block : Ledger → Extrinsic → Ledger
one_block l ext =
    effect
      (record l {
        height = l.height + 1;
        nonce_of = λ a. if same a ext.signer then ext.nonce + 1 else l.nonce_of a;
      })
      ext.signer ext.call

execute_one :
    ⦃dalek : Ed25519⦄ ⦃payload : PayloadCodec RuntimeCall⦄
    → (l : Ledger) (block : RuntimeBlock) (ext : Extrinsic) → IsU32 (l.height + 1)
    → IsU32 (ext.nonce + 1)
    → block.header.block_number ≡ l.height + 1
    → block.extrinsics ≡ ext ∷ []
    → verify ext ≡ ok tt
    → ext.nonce ≡ l.nonce_of ext.signer
    → execute l block ≡ some (one_block l ext, ok tt)
execute_one l block ext n m number alone valid next =
    let fits : ltb (l.height + 1) (2 ^ 32) ≡ true = ground arith in
    let fits' : ltb (ext.nonce + 1) (2 ^ 32) ≡ true = ground arith in
    let right : (block.header.block_number == l.height + 1) ≡ true = ground arith in
    let turn : (l.nonce_of ext.signer == ext.nonce) ≡ true = ground arith in
    rw (fits, right, alone, valid, turn, fits') refl

module _ {S : Type 0} ⦃kv : KeyValueStore S⦄ ⦃account_codec : Codec AccountId32 Always⦄
    ⦃content_codec : Codec Content Always⦄ ⦃u32_codec : Codec ℕ IsU32⦄ ⦃u128_codec : Codec ℕ IsU128⦄
    ⦃dalek : Ed25519⦄ ⦃payload : PayloadCodec RuntimeCall⦄ where
  ledger_after :
      (rt : Runtime) (s : S) (block : RuntimeBlock) (ext : Extrinsic) {u : Runtime} {s' : S}
      → execute_block rt s block ≡ some (u, s', ok tt)
      → execute (ledger rt) block ≡ some (one_block (ledger rt) ext, ok tt)
      → ledger u ≡ one_block (ledger rt) ext
  ledger_after rt s block ext done e =
      ap (λ (x : Ledger × DispatchResult). x.0)
        (some_injective
          (sym (ap (observe ledger_and_result) done) ∙ execute_block_refines rt s block ∙ e))

  -- In the slot of a node with peers, if the HashMap is iterated entry by entry and the counters have
  -- room, then an extrinsic that is alone in the pool, with a good signature and the nonce that is next
  -- for its signer, takes effect with the tick: the ledger gains one block, the signer one nonce, and
  -- what the call does to balances and claims.
  pub submission_takes_effect :
      {PeerId : Type 0} ⦃o : Ord PeerId⦄
      → (iterate : Groups → Groups) → VisitsEachOnce iterate
      → (now : ℕ) (my_id : PeerId) (peers : List PeerId) → 1 < length peers
      → is_my_slot now my_id peers ≡ some true
      → (rt : Runtime) (s : S) (mempool : Mempool Extrinsic) (ext : Extrinsic)
      → IsU32 (rt.system.block_number + 1)
      → ((a : AccountId32) → IsU32 (System.nonce rt.system a + 1))
      → mempool.pending ≡ ext ∷ []
      → 1 ≤ unwrap_or mempool.block_limit 10
      → verify ext ≡ ok tt
      → ext.nonce ≡ System.nonce rt.system ext.signer
      → (r : Runtime × S × Mempool Extrinsic × Option RuntimeBlock) × (on_tick iterate now my_id
            peers rt s mempool
          ≡ some r)
        × (r.2.pending ≡ [])
        × (ledger r.0 ≡ one_block (ledger rt) ext)
  submission_takes_effect iterate v now my_id peers several mine rt s mempool ext n room alone fits
        valid next =
      let together : ltb 1 (length peers) ≡ true = ground arith in
      let one : length mempool.pending ≡ 1 = ap length alone in
      let few : length mempool.pending ≤ unwrap_or mempool.block_limit 10 =
        omega (arith, one, fits) in
      let room' : (a : AccountId32) → IsU32 (System.nonce rt.system a + length mempool.pending) =
        λ a. omega (arith, room a, one) in
      let good : All (λ e. verify e ≡ ok tt) mempool.pending = rw alone (valid, tt) in
      let runs = from_alone ext (System.nonce rt.system) mempool.pending alone next in
      let (r, block, made, sent, empty, from_signer, rest) =
        produce_block_seals iterate v rt s mempool n room' few good ext.signer (runs ext.signer) in
      let all_of : block.extrinsics ≡ ext ∷ [] = only_one ext block.extrinsics (λ a.
        let (r', block', made', sent', empty', same_from, rest') =
          produce_block_seals iterate v rt s mempool n room' few good a (runs a) in
        let same_block : block ≡ block' = cc (made, made', sent, sent') in
        ap (λ (b : RuntimeBlock). filter_by (is_from a) b.extrinsics) same_block
        ∙ same_from
        ∙ ap (filter_by (is_from a)) alone) in
      let number : block.header.block_number ≡ rt.system.block_number + 1 =
        let (block', sent', number', left, raised) =
          produce_block_lem iterate v rt s mempool good room' made in
        ap (λ (b : RuntimeBlock). b.header.block_number) (some_injective (sym sent ∙ sent'))
        ∙ number' in
      let (executed, rest') = published_was_executed iterate rt s mempool block made sent in
      let done =
        execute_one (ledger rt) block ext n (omega (arith, room ext.signer, next)) number all_of
          valid next in
      (
        r,
        unfold on_tick in rw (together, mine) made,
        empty,
        ledger_after rt s block ext executed done,
      )
