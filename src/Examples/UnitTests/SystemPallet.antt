-- ===== src/Examples/UnitTests/SystemPallet.antt =====
-- The tests of src/system.rs.
use rust_state_machine.Shared.{◌≡◌, refl, some, ◌>>=◌, ◌==◌}
use rust_state_machine.Shared.Order.{Bytes, bytes_ord}
use rust_state_machine.Storage.{codes}
use rust_state_machine.Store.Memory.{mem_store}
use rust_state_machine.System
use rust_state_machine.BTreeMap as Map
use package.rust_state_machine.Examples.{content_codec, u32_codec, empty_store}
use package.rust_state_machine.Examples.UnitTests.{Test, ◌>>◌, assert}

abbrev block_number_starts_at_zero : Test
block_number_starts_at_zero = assert ((System.new {K = Bytes} empty_store).block_number == 0)

abbrev inc_block_number_increments_by_one : Test
inc_block_number_increments_by_one = do
  (s, store) ← System.inc_block_number (System.new {K = Bytes} empty_store) empty_store
  assert (s.block_number == 1)
  (s, store) ← System.inc_block_number s store
  assert (s.block_number == 2)

abbrev nonce_starts_at_zero_for_unknown_account : Test
nonce_starts_at_zero_for_unknown_account =
    assert (System.nonce (System.new {K = Bytes} empty_store) (codes "alice") == 0)

abbrev inc_nonce_increments_target_account : Test
inc_nonce_increments_target_account = do
  (s, store) ← System.inc_nonce (System.new empty_store) empty_store (codes "alice")
  assert (System.nonce s (codes "alice") == 1)

abbrev inc_nonce_does_not_affect_other_accounts : Test
inc_nonce_does_not_affect_other_accounts = do
  (s, store) ← System.inc_nonce (System.new empty_store) empty_store (codes "alice")
  assert (System.nonce s (codes "bob") == 0)

abbrev inc_nonce_multiple_times : Test
inc_nonce_multiple_times = do
  (s, store) ← System.inc_nonce (System.new empty_store) empty_store (codes "alice")
  (s, store) ← System.inc_nonce s store (codes "alice")
  (s, store) ← System.inc_nonce s store (codes "alice")
  assert (System.nonce s (codes "alice") == 3)

abbrev multiple_accounts_track_nonces_independently : Test
multiple_accounts_track_nonces_independently = do
  (s, store) ← System.inc_nonce (System.new empty_store) empty_store (codes "alice")
  (s, store) ← System.inc_nonce s store (codes "alice")
  (s, store) ← System.inc_nonce s store (codes "bob")
  assert (System.nonce s (codes "alice") == 2)
  assert (System.nonce s (codes "bob") == 1)
  assert (System.nonce s (codes "charlie") == 0)

-- All of them pass.
system_tests-pass :
    (block_number_starts_at_zero ≡ some tt)
    × (inc_block_number_increments_by_one ≡ some tt)
    × (nonce_starts_at_zero_for_unknown_account ≡ some tt)
    × (inc_nonce_increments_target_account ≡ some tt)
    × (inc_nonce_does_not_affect_other_accounts ≡ some tt)
    × (inc_nonce_multiple_times ≡ some tt)
    × (multiple_accounts_track_nonces_independently ≡ some tt)
unfolding System.inc_block_number System.inc_nonce System.nonce System.new System.load_block_number
    Map.get Map.insert mem_store rust_state_machine.Storage.load_entries
    rust_state_machine.Storage.entry_key
system_tests-pass = (refl, refl, refl, refl, refl, refl, refl)
