-- ===== src/Examples/IntegrationTests/FromState.antt =====
-- The tests of tests/runtime.rs as functions of the state that they start from.
use rust_state_machine.Shared.{
  ◌+◌, ◌≡◌, refl, none, some, ◌>>=◌, [], ◌∷◌, ◌==◌, not, if◌then◌else◌, unwrap_or,
}
use rust_state_machine.Shared.Order.{bytes_ord}
use rust_state_machine.Storage.{codes}
use rust_state_machine.Store.Memory.{mem_store}
use rust_state_machine.Extrinsic.{AccountId32, account_ord, new_signed, verify}
use rust_state_machine.BTreeMap as Map
use rust_state_machine.System
use rust_state_machine.Balances
use rust_state_machine.ProofOfExistence
use rust_state_machine.Runtime.{Runtime, RuntimeCall, RuntimeBlock, Extrinsic, execute_block, new}
use rust_state_machine.Genesis.{AccountKeyring, signing_key, public_key, maybe_apply_genesis}
use package.rust_state_machine.Examples.{
  account_codec, content_codec, u32_codec, u128_codec, dalek, payload, empty_store,
}
use package.rust_state_machine.Examples.UnitTests.{Test, ◌>>◌, assert, is_ok}
use package.rust_state_machine.Examples.IntegrationTests.{
  State, from_seed, signed_transfer, signed_claim, signed_revoke, execute_next, fund, nonce_of,
  has_balance, is_claimed,
}

abbrev execute_block_increments_block_number : State → Test
execute_block_increments_block_number t = do
  t₁ ← execute_next t []
  assert (t₁.0.system.block_number == t.0.system.block_number + 1)

abbrev execute_block_rejects_wrong_header_number : State → Test
execute_block_rejects_wrong_header_number t = do
  let bad : RuntimeBlock = record {
    header = record { block_number = t.0.system.block_number + 5 };
    extrinsics = [];
  }
  q ← execute_block t.0 t.1 bad
  assert (not (is_ok (q.2)))

abbrev multiple_empty_blocks_advance_block_number : State → Test
multiple_empty_blocks_advance_block_number t = do
  t₁ ← execute_next t []
  t₂ ← execute_next t₁ []
  t₃ ← execute_next t₂ []
  assert (t₃.0.system.block_number == t.0.system.block_number + 3)

abbrev single_transfer_updates_balances : State → Test
single_transfer_updates_balances t = do
  let start = fund (fund t AccountKeyring.alice 1000) AccountKeyring.bob 0
  let nonce = nonce_of start AccountKeyring.alice
  t₁ ← execute_next start (signed_transfer AccountKeyring.alice nonce AccountKeyring.bob 300 ∷ [])
  has_balance t₁ AccountKeyring.alice 700
  has_balance t₁ AccountKeyring.bob 300

abbrev transfer_exact_balance_drains_sender : State → Test
transfer_exact_balance_drains_sender t = do
  let start = fund (fund t AccountKeyring.alice 500) AccountKeyring.bob 0
  let nonce = nonce_of start AccountKeyring.alice
  t₁ ← execute_next start (signed_transfer AccountKeyring.alice nonce AccountKeyring.bob 500 ∷ [])
  has_balance t₁ AccountKeyring.alice 0
  has_balance t₁ AccountKeyring.bob 500

abbrev insufficient_balance_fails_dispatch_block_still_commits : State → Test
insufficient_balance_fails_dispatch_block_still_commits t = do
  let start = fund (fund t AccountKeyring.alice 50) AccountKeyring.bob 0
  let nonce = nonce_of start AccountKeyring.alice
  t₁ ← execute_next start (signed_transfer AccountKeyring.alice nonce AccountKeyring.bob 9999 ∷ [])
  assert (t₁.0.system.block_number == start.0.system.block_number + 1)
  has_balance t₁ AccountKeyring.alice 50
  has_balance t₁ AccountKeyring.bob 0

abbrev two_transfers_in_one_block_from_different_senders : State → Test
two_transfers_in_one_block_from_different_senders t = do
  let funded = fund (fund t AccountKeyring.alice 1000) AccountKeyring.bob 1000
  let start = fund funded AccountKeyring.charlie 0
  let an = nonce_of start AccountKeyring.alice
  let bn = nonce_of start AccountKeyring.bob
  t₁ ← execute_next start (
      signed_transfer AccountKeyring.alice an AccountKeyring.charlie 100
      ∷ signed_transfer AccountKeyring.bob bn AccountKeyring.charlie 200
      ∷ [])
  has_balance t₁ AccountKeyring.alice 900
  has_balance t₁ AccountKeyring.bob 800
  has_balance t₁ AccountKeyring.charlie 300

abbrev nonce_increments_after_successful_dispatch : State → Test
nonce_increments_after_successful_dispatch t = do
  let start = fund t AccountKeyring.alice 1000
  let before = nonce_of start AccountKeyring.alice
  t₁ ← execute_next start (signed_transfer AccountKeyring.alice before AccountKeyring.bob 10 ∷ [])
  assert (nonce_of t₁ AccountKeyring.alice == before + 1)

abbrev nonce_mismatch_extrinsic_is_skipped : State → Test
nonce_mismatch_extrinsic_is_skipped t = do
  let start = fund (fund t AccountKeyring.alice 1000) AccountKeyring.bob 0
  let nonce = nonce_of start AccountKeyring.alice + 100
  let wrong = signed_transfer AccountKeyring.alice nonce AccountKeyring.bob 200
  assert (is_ok (verify wrong))
  t₁ ← execute_next start (wrong ∷ [])
  has_balance t₁ AccountKeyring.bob 0

abbrev sequential_nonces_across_blocks : State → Test
sequential_nonces_across_blocks t = do
  let start = fund (fund t AccountKeyring.alice 1000) AccountKeyring.bob 0
  let n0 = nonce_of start AccountKeyring.alice
  t₁ ← execute_next start (signed_transfer AccountKeyring.alice n0 AccountKeyring.bob 10 ∷ [])
  assert (nonce_of t₁ AccountKeyring.alice == n0 + 1)
  let n1 = nonce_of t₁ AccountKeyring.alice
  t₂ ← execute_next t₁ (signed_transfer AccountKeyring.alice n1 AccountKeyring.bob 10 ∷ [])
  assert (nonce_of t₂ AccountKeyring.alice == n0 + 2)
  has_balance t₂ AccountKeyring.bob 20

abbrev poe_create_claim_recorded_on_chain : State → Test
poe_create_claim_recorded_on_chain t = do
  let nonce = nonce_of t AccountKeyring.alice
  t₁ ← execute_next t (signed_claim AccountKeyring.alice nonce (codes "rt-poe-create") ∷ [])
  is_claimed t₁ (codes "rt-poe-create") (some AccountKeyring.alice)

abbrev poe_duplicate_claim_is_rejected_at_dispatch : State → Test
poe_duplicate_claim_is_rejected_at_dispatch t = do
  let claim = codes "rt-poe-duplicate"
  let a_nonce = nonce_of t AccountKeyring.alice
  let b_nonce = nonce_of t AccountKeyring.bob
  t₁ ← execute_next t (signed_claim AccountKeyring.alice a_nonce claim ∷ [])
  t₂ ← execute_next t₁ (signed_claim AccountKeyring.bob b_nonce claim ∷ [])
  is_claimed t₂ claim (some AccountKeyring.alice)

abbrev poe_revoke_allows_reclaim_by_new_owner : State → Test
poe_revoke_allows_reclaim_by_new_owner t = do
  let claim = codes "rt-poe-revoke-reclaim"
  let a0 = nonce_of t AccountKeyring.alice
  let b0 = nonce_of t AccountKeyring.bob
  t₁ ← execute_next t (signed_claim AccountKeyring.alice a0 claim ∷ [])
  t₂ ← execute_next t₁ (signed_revoke AccountKeyring.alice (a0 + 1) claim ∷ [])
  is_claimed t₂ claim none
  t₃ ← execute_next t₂ (signed_claim AccountKeyring.bob b0 claim ∷ [])
  is_claimed t₃ claim (some AccountKeyring.bob)

abbrev maybe_apply_genesis_idempotent : State → Test
maybe_apply_genesis_idempotent t = do
  t₁ ← maybe_apply_genesis from_seed t.0 t.1
  t₂ ← maybe_apply_genesis from_seed t₁.0 t₁.1
  assert (t₂.0.system.block_number == t₁.0.system.block_number)
  if t.0.system.block_number == 0
      then (do assert (t₁.0.system.block_number == 1); has_balance t₂ AccountKeyring.alice 1000000)
      else some tt

-- `Runtime::new()` on an empty database.
abbrev fresh_state : State
fresh_state = (new empty_store, empty_store)

-- A database that Alice has used.
abbrev used_state : State
used_state =
    unwrap_or
      (execute_next (fund fresh_state AccountKeyring.alice 70) (
        signed_transfer AccountKeyring.alice 0 AccountKeyring.bob 7
        ∷ signed_claim AccountKeyring.alice 1 (codes "other")
        ∷ []))
      fresh_state

abbrev all_from : State → Test
all_from t = do
  execute_block_increments_block_number t
  execute_block_rejects_wrong_header_number t
  multiple_empty_blocks_advance_block_number t
  single_transfer_updates_balances t
  transfer_exact_balance_drains_sender t
  insufficient_balance_fails_dispatch_block_still_commits t
  two_transfers_in_one_block_from_different_senders t
  nonce_increments_after_successful_dispatch t
  nonce_mismatch_extrinsic_is_skipped t
  sequential_nonces_across_blocks t
  poe_create_claim_recorded_on_chain t
  poe_duplicate_claim_is_rejected_at_dispatch t
  poe_revoke_allows_reclaim_by_new_owner t
  maybe_apply_genesis_idempotent t

-- All of them pass, from an empty database and from one that was used before.
runtime_tests-pass : (all_from fresh_state ≡ some tt) × (all_from used_state ≡ some tt)
unfolding new System.new Balances.new ProofOfExistence.new mem_store System.load_block_number
    rust_state_machine.Storage.load_entries execute_block System.inc_block_number
    rust_state_machine.Runtime.apply_extrinsics rust_state_machine.Extrinsic.verify_batch
    rust_state_machine.Runtime.apply_extrinsic verify new_signed System.nonce Map.get
    System.inc_nonce rust_state_machine.Runtime.dispatch Balances.dispatch Balances.transfer
    Balances.set_balance Balances.balance Map.insert Map.last_key Map.remove
    ProofOfExistence.dispatch ProofOfExistence.create_claim ProofOfExistence.revoke_claim
    ProofOfExistence.get_claim rust_state_machine.Storage.entry_key ProofOfExistence.claim_key
    Balances.balance_key public_key signing_key maybe_apply_genesis
    rust_state_machine.Genesis.fund_dev_accounts
runtime_tests-pass = (refl, refl)
