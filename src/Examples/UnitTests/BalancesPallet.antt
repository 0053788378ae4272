-- ===== src/Examples/UnitTests/BalancesPallet.antt =====
-- The tests of src/balances.rs.
use rust_state_machine.Shared.{◌≡◌, refl, some, ◌==◌}
use rust_state_machine.Shared.Order.{Bytes, bytes_ord}
use rust_state_machine.Storage.{codes}
use rust_state_machine.Store.Memory.{mem_store}
use rust_state_machine.Dispatch.{not_enough_funds}
use rust_state_machine.Balances
use rust_state_machine.BTreeMap as Map
use package.rust_state_machine.Examples.{content_codec, u128_codec, empty_store}
use package.rust_state_machine.Examples.UnitTests.{Test, ◌>>◌, assert, unwrap, assert_err}

abbrev new_balances : Balances.Pallet Bytes
new_balances = Balances.new empty_store

abbrev unknown_account_balance_is_zero : Test
unknown_account_balance_is_zero = assert (Balances.balance new_balances (codes "alice") == 0)

abbrev set_and_get_balance : Test
set_and_get_balance = do
  let (p, store) = Balances.set_balance new_balances empty_store (codes "alice") 100
  assert (Balances.balance p (codes "alice") == 100)
  assert (Balances.balance p (codes "bob") == 0)

abbrev transfer_ok : Test
transfer_ok = do
  let (p₁, s₁) = Balances.set_balance new_balances empty_store (codes "alice") 100
  let (p₂, s₂, r) = Balances.transfer p₁ s₁ (codes "alice") (codes "bob") 40
  unwrap r
  assert (Balances.balance p₂ (codes "alice") == 60)
  assert (Balances.balance p₂ (codes "bob") == 40)

abbrev transfer_exact_balance_empties_sender : Test
transfer_exact_balance_empties_sender = do
  let (p₁, s₁) = Balances.set_balance new_balances empty_store (codes "alice") 100
  let (p₂, s₂, r) = Balances.transfer p₁ s₁ (codes "alice") (codes "bob") 100
  unwrap r
  assert (Balances.balance p₂ (codes "alice") == 0)
  assert (Balances.balance p₂ (codes "bob") == 100)

abbrev transfer_insufficient_funds_leaves_balances_unchanged : Test
transfer_insufficient_funds_leaves_balances_unchanged = do
  let (p₁, s₁) = Balances.set_balance new_balances empty_store (codes "alice") 50
  let (p₂, s₂, r) = Balances.transfer p₁ s₁ (codes "alice") (codes "bob") 51
  assert_err r not_enough_funds
  assert (Balances.balance p₂ (codes "alice") == 50)
  assert (Balances.balance p₂ (codes "bob") == 0)

abbrev transfer_from_zero_balance_fails : Test
transfer_from_zero_balance_fails =
    assert_err (Balances.transfer new_balances empty_store (codes "alice") (codes "bob") 1).2
      not_enough_funds

abbrev multiple_transfers_accumulate : Test
multiple_transfers_accumulate = do
  let (p₁, s₁) = Balances.set_balance new_balances empty_store (codes "alice") 100
  let (p₂, s₂, r₂) = Balances.transfer p₁ s₁ (codes "alice") (codes "bob") 30
  unwrap r₂
  let (p₃, s₃, r₃) = Balances.transfer p₂ s₂ (codes "alice") (codes "bob") 30
  unwrap r₃
  assert (Balances.balance p₃ (codes "alice") == 40)
  assert (Balances.balance p₃ (codes "bob") == 60)

-- All of them pass.
balances_tests-pass :
    (unknown_account_balance_is_zero ≡ some tt)
    × (set_and_get_balance ≡ some tt)
    × (transfer_ok ≡ some tt)
    × (transfer_exact_balance_empties_sender ≡ some tt)
    × (transfer_insufficient_funds_leaves_balances_unchanged ≡ some tt)
    × (transfer_from_zero_balance_fails ≡ some tt)
    × (multiple_transfers_accumulate ≡ some tt)
unfolding Balances.new Balances.balance Balances.set_balance Balances.transfer Map.get Map.insert
    mem_store rust_state_machine.Storage.load_entries Balances.balance_key
balances_tests-pass = (refl, refl, refl, refl, refl, refl, refl)
