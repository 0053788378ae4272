-- ===== src/Examples/IntegrationTests.antt =====
-- The tests of tests/runtime.rs, each from a runtime and its database, with a toy signature scheme.
-- `set_balance` and `execute_block` change both; a refused block is a panic of `unwrap`.
mod FromState
use rust_state_machine.Shared.{
  ℕ, ◌+◌, ◌≡◌, refl, Option, none, some, ◌>>=◌, List, [], ◌∷◌, ◌==◌, not, if◌then◌else◌, unwrap_or,
}
use rust_state_machine.Shared.Order.{Bytes, bytes_ord}
use rust_state_machine.Storage.{codes}
use rust_state_machine.Store.Memory.{MemStore, mem_store}
use rust_state_machine.Extrinsic.{AccountId32, account_ord, new_signed, verify}
use rust_state_machine.BTreeMap as Map
use rust_state_machine.System
use rust_state_machine.Balances
use rust_state_machine.Balances.Calls as BalancesCalls
use rust_state_machine.ProofOfExistence
use rust_state_machine.ProofOfExistence.Calls as ProofOfExistenceCalls
use rust_state_machine.Runtime.{Runtime, RuntimeCall, RuntimeBlock, Extrinsic, execute_block, new}
use rust_state_machine.Genesis.{AccountKeyring, signing_key, public_key, maybe_apply_genesis}
use package.rust_state_machine.Examples.{
  account_codec, content_codec, u32_codec, u128_codec, dalek, payload, empty_store,
}
use package.rust_state_machine.Examples.UnitTests.{Test, ◌>>◌, assert, unwrap, is_ok, assert_owner}

abbrev pub State : Type 0
State = Runtime × MemStore

abbrev pub from_seed : Bytes → Bytes
from_seed seed = seed

abbrev pub public : AccountKeyring → AccountId32
public who = public_key from_seed who

abbrev pub signed_call : AccountKeyring → ℕ → RuntimeCall → Extrinsic
signed_call from nonce call = new_signed (signing_key from_seed from) nonce call

abbrev pub signed_transfer : AccountKeyring → ℕ → AccountKeyring → ℕ → Extrinsic
signed_transfer from nonce to amount =
    signed_call from nonce (RuntimeCall.balances (BalancesCalls.Call.transfer (public to) amount))

abbrev pub signed_claim : AccountKeyring → ℕ → Bytes → Extrinsic
signed_claim from nonce claim =
    signed_call from nonce
      (RuntimeCall.proof_of_existence (ProofOfExistenceCalls.Call.create_claim claim))

abbrev pub signed_revoke : AccountKeyring → ℕ → Bytes → Extrinsic
signed_revoke from nonce claim =
    signed_call from nonce
      (RuntimeCall.proof_of_existence (ProofOfExistenceCalls.Call.revoke_claim claim))

abbrev pub next_block : Runtime → List Extrinsic → RuntimeBlock
next_block rt exts = record {
  header = record { block_number = rt.system.block_number + 1 };
  extrinsics = exts;
}

-- `rt.execute_block(next_block(&rt, …)).unwrap()`
abbrev pub execute_next : State → List Extrinsic → Option State
execute_next (rt, s) exts = do
  q ← execute_block rt s (next_block rt exts)
  unwrap (q.2)
  some (q.0, q.1)

abbrev pub fund : State → AccountKeyring → ℕ → State
fund (rt, s) who amount =
    let (p, s') = Balances.set_balance rt.balances s (public who) amount in
    (record rt { balances = p }, s')

abbrev pub nonce_of : State → AccountKeyring → ℕ
nonce_of t who = System.nonce t.0.system (public who)

abbrev pub has_balance : State → AccountKeyring → ℕ → Test
has_balance t who amount = assert (Balances.balance t.0.balances (public who) == amount)

abbrev pub is_claimed : State → Bytes → Option AccountKeyring → Test
is_claimed t claim owner =
    assert_owner (ProofOfExistence.get_claim t.0.proof_of_existence claim >>= λ a. some a.bytes)
      (owner >>= λ who. some (public who).bytes)
