-- ===== src/Node/Race.antt =====
-- The nonce handler of src/node.rs while a block is produced. `produce_block` takes the candidates under
-- the lock of the pool, lets go of it, and changes the runtime under that lock later; the handler reads
-- the runtime under one lock and counts the pool under the other, so that either of its reads falls
-- before, between or after the two.
use rust_state_machine.Shared.{
  ℕ, zero, suc, ◌+◌, ◌≤◌, ◌≡◌, refl, sym, ap, ◌∙◌, arith, not, ◌&&◌, Option, some, ◌>>=◌, List, [],
  ◌∷◌, All, length, filter_by, length-filter_by, get_elem?, unwrap_or, some_injective, IsU32,
  IsU128, Result, ok, ◌==◌, if◌then◌else◌,
}
use rust_state_machine.Shared.Order.{Bytes}
use rust_state_machine.Codec.{Codec, Always}
use rust_state_machine.Store.{KeyValueStore}
use rust_state_machine.Extrinsic.{AccountId32, account_ord, Ed25519, PayloadCodec, verify}
use rust_state_machine.System
use rust_state_machine.Mempool
use rust_state_machine.Mempool.{Mempool}
use rust_state_machine.Runtime.{Runtime, Extrinsic, Content, RuntimeCall}
use rust_state_machine.Node.Production.{Groups, produce_block}
use rust_state_machine.Node.Production.Batch.{is_from, VisitsEachOnce}
use rust_state_machine.Node.Production.Blocks.{Consecutive}
use rust_state_machine.Node.Rpc.{BadRequest, nonce_handler, nonce_handler-pending}
use rust_state_machine.Node.Loop.Tick.{produce_block_seals}
use rust_state_machine.Node.Loop.Agreement.{published_was_executed}

-- What the tasks share at one moment.
pub record Stage : Type 0 where
  pub runtime : Runtime
  pub mempool : Mempool Extrinsic

abbrev three :
    Runtime → Runtime → Mempool Extrinsic → Mempool Extrinsic → Mempool Extrinsic → List Stage
three rt₀ rt₂ m₀ m₁ m₂ =
    record { runtime = rt₀; mempool = m₀ }
    ∷ record { runtime = rt₀; mempool = m₁ }
    ∷ record { runtime = rt₂; mempool = m₂ }
    ∷ []

-- What the handler answers over all timings, from what it answers over four of them.
answers :
    (rt₀ rt₂ : Runtime) (m₀ m₁ m₂ : Mempool Extrinsic) (old now : ℕ)
    (ask : Runtime → Mempool Extrinsic → Result ℕ BadRequest)
    → ask rt₀ m₀ ≡ ok now
    → ask rt₀ m₁ ≡ ok old
    → ask rt₀ m₂ ≡ ok old
    → ask rt₂ m₂ ≡ ok now
    → (i j : ℕ) (read counted : Stage) → i ≤ j
    → get_elem? (three rt₀ rt₂ m₀ m₁ m₂) i ≡ some read
    → get_elem? (three rt₀ rt₂ m₀ m₁ m₂) j ≡ some counted
    → ask read.runtime counted.mempool ≡ ok (if i == j && not (i == 1) then now else old)
answers rt₀ rt₂ m₀ m₁ m₂ old now ask a b c d zero zero read counted le e f = cc (a, e, f)
answers rt₀ rt₂ m₀ m₁ m₂ old now ask a b c d zero (suc zero) read counted le e f = cc (b, e, f)
answers rt₀ rt₂ m₀ m₁ m₂ old now ask a b c d zero (suc (suc zero)) read counted le e f =
    cc (c, e, f)
answers rt₀ rt₂ m₀ m₁ m₂ old now ask a b c d zero (suc (suc (suc j))) read counted le e f =
    absurd (cc f)
answers rt₀ rt₂ m₀ m₁ m₂ old now ask a b c d (suc zero) zero read counted le e f =
    absurd (omega arith)
answers rt₀ rt₂ m₀ m₁ m₂ old now ask a b c d (suc zero) (suc zero) read counted le e f =
    cc (b, e, f)
answers rt₀ rt₂ m₀ m₁ m₂ old now ask a b c d (suc zero) (suc (suc zero)) read counted le e f =
    cc (c, e, f)
answers rt₀ rt₂ m₀ m₁ m₂ old now ask a b c d (suc zero) (suc (suc (suc j))) read counted le e f =
    absurd (cc f)
answers rt₀ rt₂ m₀ m₁ m₂ old now ask a b c d (suc (suc zero)) zero read counted le e f =
    absurd (omega arith)
answers rt₀ rt₂ m₀ m₁ m₂ old now ask a b c d (suc (suc zero)) (suc zero) read counted le e f =
    absurd (omega arith)
answers rt₀ rt₂ m₀ m₁ m₂ old now ask a b c d (suc (suc zero)) (suc (suc zero)) read counted le e f =
    cc (d, e, f)
answers rt₀ rt₂ m₀ m₁ m₂ old now ask a b c d (suc (suc zero)) (suc (suc (suc j))) read counted le e
      f =
    absurd (cc f)
answers rt₀ rt₂ m₀ m₁ m₂ old now ask a b c d (suc (suc (suc i))) j read counted le e f =
    absurd (cc e)

-- With nothing pending the handler answers the nonce of the runtime.
quiet :
    (hex_decode : Bytes → Option Bytes) (hex : Bytes) (a : AccountId32)
    → hex_decode hex ≡ some a.bytes
    → length a.bytes ≡ 32
    → (rt : Runtime) (m : Mempool Extrinsic) (n : ℕ) → m.pending ≡ []
    → IsU32 n
    → System.nonce rt.system a ≡ n
    → nonce_handler hex_decode rt m hex ≡ ok n
quiet hex_decode hex a decodes size rt m n empty fits e =
    nonce_handler-pending hex_decode rt m hex a decodes size (omega (arith, ap length empty))
    ∙ ap ok
        (omega (arith, e, ap (λ (xs : List Extrinsic). length (filter_by (is_from a) xs)) empty))

module _ {S : Type 0} ⦃kv : KeyValueStore S⦄ ⦃account_codec : Codec AccountId32 Always⦄
    ⦃content_codec : Codec Content Always⦄ ⦃u32_codec : Codec ℕ IsU32⦄ ⦃u128_codec : Codec ℕ IsU128⦄
    ⦃dalek : Ed25519⦄ ⦃payload : PayloadCodec RuntimeCall⦄ where
  -- The three moments between the locks of `produce_block`: before it, with the candidates taken, and
  -- after it.
  unfoldable pub stages : (Groups → Groups) → Runtime → S → Mempool Extrinsic → Option (List Stage)
  stages iterate rt s mempool = do
    let drained = (Mempool.drain_for_block mempool (unwrap_or mempool.block_limit 10)).0
    r ← produce_block iterate rt s mempool
    some (three rt r.0 mempool drained r.2)

  -- If the HashMap is iterated entry by entry, and the counters have room, and all pending extrinsics
  -- fit into one block and have good signatures, and those of an account run on from its nonce, then
  -- production does not panic, and afterwards the account's nonce is the old one and the number of its
  -- extrinsics. A handler whose two reads both come before it, or both after it, answers that; with any
  -- other timing of the two reads it answers the old nonce, which extrinsics of the block have used.
  pub nonce_race :
      (iterate : Groups → Groups)
      → VisitsEachOnce iterate
      → (rt : Runtime) (s : S) (mempool : Mempool Extrinsic) → IsU32 (rt.system.block_number + 1)
      → ((a : AccountId32) → IsU32 (System.nonce rt.system a + length mempool.pending))
      → length mempool.pending ≤ unwrap_or mempool.block_limit 10
      → All (λ e. verify e ≡ ok tt) mempool.pending
      → (hex_decode : Bytes → Option Bytes) (hex : Bytes) (a : AccountId32)
      → hex_decode hex ≡ some a.bytes
      → length a.bytes ≡ 32
      → Consecutive (System.nonce rt.system a) (filter_by (is_from a) mempool.pending)
      → let n = System.nonce rt.system a in
        let used = length (filter_by (is_from a) mempool.pending) in
        (moments : List Stage) × (stages iterate rt s mempool ≡ some moments)
        × ((last : Stage)
            → get_elem? moments 2 ≡ some last
            → System.nonce last.runtime.system a ≡ n + used)
        × ((i j : ℕ) (read counted : Stage)
            → i ≤ j
            → get_elem? moments i ≡ some read
            → get_elem? moments j ≡ some counted
            → nonce_handler hex_decode read.runtime counted.mempool hex
              ≡ ok (if i == j && not (i == 1) then n + used else n))
  unfolding stages
  nonce_race iterate v rt s mempool n room few good hex_decode hex a decodes size run =
      let (r, block, made, sent, empty, all_of, raised) =
        produce_block_seals iterate v rt s mempool n room few good a run in
      let drained = (Mempool.drain_for_block mempool (unwrap_or mempool.block_limit 10)).0 in
      let before = System.nonce rt.system a in
      let used = length (filter_by (is_from a) mempool.pending) in
      let room_after : IsU32 (before + used) =
        omega (arith, room a, length-filter_by (is_from a) mempool.pending) in
      let fits : IsU32 before = omega (arith, room a) in
      let left : r.2 ≡ drained = (published_was_executed iterate rt s mempool block made sent).1 in
      (
        three rt r.0 mempool drained r.2,
        rw made refl,
        λ last e.
            ap (λ (x : Stage). System.nonce x.runtime.system a) (some_injective (sym e)) ∙ raised,
        answers rt r.0 mempool drained r.2 before (before + used)
            (λ x m. nonce_handler hex_decode x m hex)
            (nonce_handler-pending hex_decode rt mempool hex a decodes size (room a))
            (quiet hex_decode hex a decodes size rt drained before
              (ap (λ (m : Mempool Extrinsic). m.pending) (sym left) ∙ empty) fits refl)
            (quiet hex_decode hex a decodes size rt r.2 before empty fits refl)
            (quiet hex_decode hex a decodes size r.0 r.2 (before + used) empty room_after raised),
      )
