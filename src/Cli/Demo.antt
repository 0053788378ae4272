-- ===== src/Cli/Demo.antt =====
-- `run_demo` of src/main.rs: five blocks of transfers and claims, and one from a pool. What is printed
-- is the runtime at the end; the errors of blocks are dropped.
use rust_state_machine.Shared.{ℕ, Option, some, ◌>>=◌, List, [], ◌∷◌, IsU32, IsU128, checked_add}
use rust_state_machine.Shared.Order.{Bytes}
use rust_state_machine.Codec.{Codec, Always}
use rust_state_machine.Store.{KeyValueStore}
use rust_state_machine.Storage.{codes}
use rust_state_machine.Extrinsic.{AccountId32, account_ord, Ed25519, PayloadCodec, new_signed}
use rust_state_machine.Balances
use rust_state_machine.Balances.Calls as BalancesCalls
use rust_state_machine.ProofOfExistence.Calls as ProofOfExistenceCalls
use rust_state_machine.Mempool
use rust_state_machine.Mempool.{Mempool}
use rust_state_machine.Runtime.{
  Runtime, RuntimeBlock, Extrinsic, Content, RuntimeCall, new, execute_block,
}
use rust_state_machine.Genesis.{AccountKeyring, signing_key, public_key}

abbrev my_first_document : Content
my_first_document = codes "My first document"

abbrev patent : Content
patent = codes "Patent for my invention"

abbrev copyright : Content
copyright = codes "Copyright on my work"

abbrev non_existent : Content
non_existent = codes "Non-existent claim"

abbrev creating : Content → RuntimeCall
creating claim = RuntimeCall.proof_of_existence (ProofOfExistenceCalls.Call.create_claim claim)

abbrev revoking : Content → RuntimeCall
revoking claim = RuntimeCall.proof_of_existence (ProofOfExistenceCalls.Call.revoke_claim claim)

module _ ⦃dalek : Ed25519⦄ ⦃payload : PayloadCodec RuntimeCall⦄
    (from_seed : Bytes → dalek.SigningKey) where
  abbrev pay_to : AccountKeyring → ℕ → RuntimeCall
  pay_to to amount =
      RuntimeCall.balances (BalancesCalls.Call.transfer (public_key from_seed to) amount)

  -- An extrinsic with the counter of its account.
  abbrev signed_by : AccountKeyring → ℕ → RuntimeCall → Extrinsic
  signed_by who nonce call = new_signed (signing_key from_seed who) nonce call

  abbrev block_of : ℕ → List Extrinsic → RuntimeBlock
  block_of n exts = record { header = record { block_number = n }; extrinsics = exts }

  unfoldable pub block_1 : RuntimeBlock
  block_1 = block_of 1 (
      signed_by AccountKeyring.alice 0 (pay_to AccountKeyring.bob 70)
      ∷ signed_by AccountKeyring.alice 1 (pay_to AccountKeyring.charlie 20)
      ∷ signed_by AccountKeyring.bob 0 (pay_to AccountKeyring.charlie 30)
      ∷ [])

  unfoldable pub block_2 : RuntimeBlock
  block_2 = block_of 2 (signed_by AccountKeyring.charlie 0 (pay_to AccountKeyring.alice 40) ∷ [])

  unfoldable pub block_3 : RuntimeBlock
  block_3 = block_of 3 (
      signed_by AccountKeyring.alice 2 (creating my_first_document)
      ∷ signed_by AccountKeyring.bob 1 (pay_to AccountKeyring.alice 5)
      ∷ signed_by AccountKeyring.bob 2 (creating patent)
      ∷ signed_by AccountKeyring.charlie 1 (creating copyright)
      ∷ [])

  unfoldable pub block_4 : RuntimeBlock
  block_4 = block_of 4 (
      signed_by AccountKeyring.charlie 2 (pay_to AccountKeyring.bob 10)
      ∷ signed_by AccountKeyring.bob 3 (creating my_first_document)
      ∷ signed_by AccountKeyring.alice 3 (revoking my_first_document)
      ∷ [])

  -- Charlie's counter is not raised here.
  unfoldable pub block_5 : RuntimeBlock
  block_5 = block_of 5 (
      signed_by AccountKeyring.alice 4 (pay_to AccountKeyring.charlie 3)
      ∷ signed_by AccountKeyring.alice 5 (revoking non_existent)
      ∷ signed_by AccountKeyring.charlie 3 (revoking patent)
      ∷ signed_by AccountKeyring.bob 4 (revoking patent)
      ∷ signed_by AccountKeyring.bob 5 (pay_to AccountKeyring.alice 15)
      ∷ [])

  -- The pool with the two last extrinsics.
  unfoldable pub demo_pool : Mempool Extrinsic
  demo_pool =
      let (m₁, r₁) =
        Mempool.submit Mempool.new
          (signed_by AccountKeyring.alice 6 (pay_to AccountKeyring.bob 1)) in
      (Mempool.submit m₁ (signed_by AccountKeyring.bob 6 (pay_to AccountKeyring.charlie 2))).0

module _ {S : Type 0} ⦃kv : KeyValueStore S⦄ ⦃account_codec : Codec AccountId32 Always⦄
    ⦃content_codec : Codec Content Always⦄ ⦃u32_codec : Codec ℕ IsU32⦄ ⦃u128_codec : Codec ℕ IsU128⦄
    ⦃dalek : Ed25519⦄ ⦃payload : PayloadCodec RuntimeCall⦄
    (from_seed : Bytes → dalek.SigningKey) where
  unfoldable pub execute_ignoring : Runtime × S → RuntimeBlock → Option (Runtime × S)
  execute_ignoring (rt, s) block = do q ← execute_block rt s block; some (q.0, q.1)

  unfoldable pub run_demo : S → Option (Runtime × S)
  run_demo s =
      let rt = new s in
      let (p, s₁) =
        Balances.set_balance rt.balances s (public_key from_seed AccountKeyring.alice) 100 in
      do
        t₁ ← execute_ignoring (record rt { balances = p }, s₁) (block_1 from_seed)
        t₂ ← execute_ignoring t₁ (block_2 from_seed)
        t₃ ← execute_ignoring t₂ (block_3 from_seed)
        t₄ ← execute_ignoring t₃ (block_4 from_seed)
        t₅ ← execute_ignoring t₄ (block_5 from_seed)
        let batch = (Mempool.drain_for_block (demo_pool from_seed) 2).1
        next ← checked_add 32 t₅.0.system.block_number 1
        execute_ignoring t₅ (record { header = record { block_number = next }; extrinsics = batch })
