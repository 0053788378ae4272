-- ===== src/Runtime.antt =====
-- The runtime: the struct of src/lib.rs with what `#[macros::runtime]`
-- (macros/src/runtime/expand.rs) generates for it. A panic of a pallet is `none`. What is printed
-- about a failed extrinsic is left out.
pub mod Extrinsics
pub mod Valid
pub mod Nonces
pub mod Blocks
pub mod Supply
pub mod Ownership
pub mod Restart
pub mod RestartClaims
pub mod Agreement
pub mod Ledger
pub mod Sound
use rust_state_machine.Shared.{
  ℕ, Option, some, none, ◌>>=◌, List, [], ◌∷◌, IsU32, IsU128, ok, err, if◌then◌else◌, ◌==◌, zip,
}
use rust_state_machine.Shared.Order.{Bytes, bytes_ord}
use rust_state_machine.Codec.{Codec, Always}
use rust_state_machine.Store.{KeyValueStore}
use rust_state_machine.Dispatch.{DispatchResult, block_number_mismatch}
use rust_state_machine.Extrinsic.{
  AccountId32, account_ord, Header, Block, UncheckedExtrinsic, Ed25519, PayloadCodec, verify_batch,
}
use rust_state_machine.System
use rust_state_machine.Balances
use rust_state_machine.Balances.Calls as BalancesCalls
use rust_state_machine.ProofOfExistence
use rust_state_machine.ProofOfExistence.Calls as ProofOfExistenceCalls

-- `types::Content` is a `String`: its bytes.
abbrev pub Content : Type 0
Content = Bytes

pub data RuntimeCall : Type 0 where
  balances : BalancesCalls.Call AccountId32 → RuntimeCall
  proof_of_existence : ProofOfExistenceCalls.Call Content → RuntimeCall

abbrev pub Extrinsic : Type 0
Extrinsic = UncheckedExtrinsic RuntimeCall

-- `types::Block`.
abbrev pub RuntimeBlock : Type 0
RuntimeBlock = Block (Header ℕ) Extrinsic

pub record Runtime : Type 0 where
  pub system : System.Pallet AccountId32
  pub balances : Balances.Pallet AccountId32
  pub proof_of_existence : ProofOfExistence.Pallet Content AccountId32

module _ {S : Type 0} ⦃kv : KeyValueStore S⦄ ⦃account_codec : Codec AccountId32 Always⦄
    ⦃content_codec : Codec Content Always⦄ ⦃u32_codec : Codec ℕ IsU32⦄
    ⦃u128_codec : Codec ℕ IsU128⦄ where
  unfoldable pub new : S → Runtime
  new s = record {
    system = System.new s;
    balances = Balances.new s;
    proof_of_existence = ProofOfExistence.new s;
  }

  unfoldable pub dispatch :
      Runtime → S → AccountId32 → RuntimeCall → Option (Runtime × S × DispatchResult)
  dispatch rt s caller (RuntimeCall.balances call) =
      let (p, s', r) = Balances.dispatch rt.balances s caller call in
      some (record rt { balances = p }, s', r)
  dispatch rt s caller (RuntimeCall.proof_of_existence call) = do
    t ← ProofOfExistence.dispatch rt.proof_of_existence s caller call
    some (record rt { proof_of_existence = t.0 }, t.1, t.2)

  -- The body of the second pass: an extrinsic with the result of its signature check.
  unfoldable pub apply_extrinsic : Runtime → S → Extrinsic × DispatchResult → Option (Runtime × S)
  apply_extrinsic rt s (ext, err e) = some (rt, s)
  apply_extrinsic rt s (ext, ok _) =
      if System.nonce rt.system ext.signer == ext.nonce
      then (do
        t ← System.inc_nonce rt.system s ext.signer
        u ← dispatch (record rt { system = t.0 }) t.1 ext.signer ext.call
        some (u.0, u.1))
      else some (rt, s)

  unfoldable pub apply_extrinsics :
      Runtime → S → List (Extrinsic × DispatchResult) → Option (Runtime × S)
  apply_extrinsics rt s [] = some (rt, s)
  apply_extrinsics rt s (x ∷ xs) = do t ← apply_extrinsic rt s x; apply_extrinsics t.0 t.1 xs

module _ {S : Type 0} ⦃kv : KeyValueStore S⦄ ⦃account_codec : Codec AccountId32 Always⦄
    ⦃content_codec : Codec Content Always⦄ ⦃u32_codec : Codec ℕ IsU32⦄ ⦃u128_codec : Codec ℕ IsU128⦄
    ⦃dalek : Ed25519⦄ ⦃payload : PayloadCodec RuntimeCall⦄ where
  unfoldable pub execute_block : Runtime → S → RuntimeBlock → Option (Runtime × S × DispatchResult)
  execute_block rt s block = do
    t ← System.inc_block_number rt.system s
    let rt₁ = record rt { system = t.0 }
    if block.header.block_number == t.0.block_number
        then (do
          u ← apply_extrinsics rt₁ t.1 (zip block.extrinsics (verify_batch block.extrinsics))
          some (u.0, u.1, ok tt))
        else some (rt₁, t.1, err block_number_mismatch)
