-- ===== src/Cli/Submit.antt =====
-- `submit_transfer` and `submit_claim` of src/main.rs. HTTP (ureq) is a parameter over a state of its
-- own, which both requests may change; so are the encoding of an extrinsic and the keyring's keys. What
-- is printed is the report.
pub mod Local
pub mod Remote
use rust_state_machine.Shared.{
  ℕ, ◌*◌, ◌%◌, ◌^◌, Option, none, some, ◌>>=◌, List, [], ◌∷◌, IsU32, IsU128, Result, ok, err,
  checked_add,
}
use rust_state_machine.Shared.Order.{Bytes}
use rust_state_machine.Codec.{Codec, Always}
use rust_state_machine.Store.{KeyValueStore}
use rust_state_machine.Dispatch.{DispatchResult}
use rust_state_machine.Extrinsic.{AccountId32, account_ord, Ed25519, PayloadCodec, new_signed}
use rust_state_machine.System
use rust_state_machine.Balances
use rust_state_machine.Balances.Calls as BalancesCalls
use rust_state_machine.ProofOfExistence.Calls as ProofOfExistenceCalls
use rust_state_machine.Runtime.{
  Runtime, RuntimeBlock, Extrinsic, Content, RuntimeCall, new, execute_block,
}
use rust_state_machine.Genesis.{AccountKeyring, signing_key, public_key}
use rust_state_machine.Cli.Text.{from_name, hex_text, nonce_url, submit_url}
use rust_state_machine.Cli.Decimal.{from_text}

-- How `post` ends: a response, an error status, or no connection.
pub data Report : Type 0 where
  submitted : ℕ → Report
  server_error : ℕ → Report
  connection_error : Report

-- A `get` that fails is `none`.
pub record Http (W : Type 0) : Type 0 where
  pub get : W → Bytes → W × Option Bytes
  pub post : W → Bytes → Bytes → W × Report

pub data Submission (W S : Type 0) : Type 0 where
  remote : W → Report → Submission W S
  local : Runtime → S → DispatchResult → Submission W S

module _ ⦃dalek : Ed25519⦄ ⦃payload : PayloadCodec RuntimeCall⦄
    (from_seed : Bytes → dalek.SigningKey) {W : Type 0} (http : Http W)
    (encode : Extrinsic → Bytes) where
  -- The branch with the address of a node.
  unfoldable pub submit_to_node : AccountKeyring → RuntimeCall → Bytes → W → Option (W × Report)
  submit_to_node who call url w =
      let account_hex = hex_text (public_key from_seed who).bytes in
      let (w₁, answer) = http.get w (nonce_url url account_hex) in
      do
        text ← answer
        nonce ← from_text text
        let ext = new_signed (signing_key from_seed who) nonce call
        some (http.post w₁ (submit_url url) (encode ext))

module _ {S : Type 0} ⦃kv : KeyValueStore S⦄ ⦃account_codec : Codec AccountId32 Always⦄
    ⦃content_codec : Codec Content Always⦄ ⦃u32_codec : Codec ℕ IsU32⦄ ⦃u128_codec : Codec ℕ IsU128⦄
    ⦃dalek : Ed25519⦄ ⦃payload : PayloadCodec RuntimeCall⦄
    (from_seed : Bytes → dalek.SigningKey) where
  -- One extrinsic with the next nonce of the account, in a block with the next number.
  unfoldable pub execute_next :
      AccountKeyring → RuntimeCall → Runtime → S → Option (Runtime × S × DispatchResult)
  execute_next who call rt s =
      let nonce = System.nonce rt.system (public_key from_seed who) in
      let ext = new_signed (signing_key from_seed who) nonce call in
      do
        next_block_number ← checked_add 32 rt.system.block_number 1
        let block : RuntimeBlock = record {
          header = record { block_number = next_block_number };
          extrinsics = ext ∷ [];
        }
        execute_block rt s block

  -- The branch without a node. `amount * 10` wraps as in a release build.
  unfoldable pub transfer_locally :
      AccountKeyring → RuntimeCall → ℕ → S → Option (Runtime × S × DispatchResult)
  transfer_locally who call amount s =
      let rt = new s in
      let (p, s₁) =
        Balances.set_balance rt.balances s (public_key from_seed who) (amount * 10 % 2 ^ 128) in
      execute_next who call (record rt { balances = p }) s₁

  unfoldable pub claim_locally :
      AccountKeyring → RuntimeCall → S → Option (Runtime × S × DispatchResult)
  claim_locally who call s = execute_next who call (new s) s

  module _ {W : Type 0} (http : Http W) (encode : Extrinsic → Bytes) where
    unfoldable pub submit_transfer :
        Bytes → Bytes → ℕ → Option Bytes → W → S → Option (Submission W S)
    submit_transfer from to amount node w s = do
      from_kr ← from_name from
      to_kr ← from_name to
      let call =
          RuntimeCall.balances (BalancesCalls.Call.transfer (public_key from_seed to_kr) amount)
      elim node [
        | some url ↦ (do
          r ← submit_to_node from_seed http encode from_kr call url w
          some (Submission.remote (r.0) (r.1)))
        | none ↦ (do
          r ← transfer_locally from_kr call amount s
          some (Submission.local (r.0) (r.1) (r.2)))
      ]

    unfoldable pub submit_claim : Bytes → Content → Option Bytes → W → S → Option (Submission W S)
    submit_claim account claim node w s = do
      kr ← from_name account
      let call = RuntimeCall.proof_of_existence (ProofOfExistenceCalls.Call.create_claim claim)
      elim node [
        | some url ↦ (do
          r ← submit_to_node from_seed http encode kr call url w
          some (Submission.remote (r.0) (r.1)))
        | none ↦ (do r ← claim_locally kr call s; some (Submission.local (r.0) (r.1) (r.2)))
      ]
