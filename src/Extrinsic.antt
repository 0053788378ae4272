-- ===== src/Extrinsic.antt =====
-- Accounts, blocks and signed extrinsics of src/support.rs. The signature scheme (ed25519_dalek) and
-- the encoding of the signed tuple (parity_scale_codec) are parameters.
pub mod Signing
use rust_state_machine.Shared.{
  ℕ, ◌≡◌, Bool, true, Option, List, ap, map, Result, ok, err, ok_or, if◌then◌else◌,
}
use rust_state_machine.Shared.Order.{
  Ord, Bytes, bytes_ord, cmp_bytes, cmp_bytes_self, eq_of_cmp_bytes, cmp_bytes-reversed,
  cmp_bytes_trans,
}
use rust_state_machine.Dispatch.{DispatchResult, invalid_public_key, invalid_signature}

-- An array of 32 bytes, compared from the left.
pub record AccountId32 : Type 0 where
  pub bytes : Bytes

pub account_eq_of_cmp :
    (a b : AccountId32) → cmp_bytes a.bytes b.bytes ≡ Prim.Native.Nat.Ordering.eq → a ≡ b
account_eq_of_cmp a b h = λ i. record { bytes = eq_of_cmp_bytes a.bytes b.bytes h i }

instance abbrev pub account_ord : Ord AccountId32
account_ord = record {
  cmp = λ a b. cmp_bytes a.bytes b.bytes;
  cmp-self = λ a. cmp_bytes_self a.bytes;
  eq_of_cmp = account_eq_of_cmp;
  cmp-reversed = λ a b. cmp_bytes-reversed a.bytes b.bytes;
  cmp_trans = λ a b c. cmp_bytes_trans a.bytes b.bytes c.bytes;
}

pub record Header (BlockNumber : Type 0) : Type 0 where
  pub block_number : BlockNumber

pub record Block (H E : Type 0) : Type 0 where
  pub header : H
  pub extrinsics : List E

pub record UncheckedExtrinsic (Call : Type 0) : Type 0 where
  pub signer : AccountId32
  pub signature : Bytes
  pub nonce : ℕ
  pub call : Call

-- What the program uses of `ed25519_dalek`, with what is documented of it: a public key is read back
-- from its bytes, and a signature is valid for the key and the message that it was made with.
pub record Ed25519 : Type 1 where
  pub SigningKey : Type 0
  pub VerifyingKey : Type 0
  pub verifying_key : SigningKey → VerifyingKey
  pub as_bytes : VerifyingKey → Bytes
  pub from_bytes : Bytes → Option VerifyingKey
  pub sign : SigningKey → Bytes → Bytes
  pub verify : VerifyingKey → Bytes → Bytes → Bool
  pub from_bytes-as_bytes : (k : VerifyingKey) → from_bytes (as_bytes k) ≡ Option.some k
  pub verify-sign : (k : SigningKey) (m : Bytes) → verify (verifying_key k) m (sign k m) ≡ true

-- `(signer.as_bytes(), nonce, &call).encode()`.
pub record PayloadCodec (Call : Type 0) : Type 0 where
  pub encode : Bytes → ℕ → Call → Bytes

module _ {Call : Type 0} ⦃dalek : Ed25519⦄ ⦃payload : PayloadCodec Call⦄ where
  unfoldable pub new_signed : dalek.SigningKey → ℕ → Call → UncheckedExtrinsic Call
  new_signed sk nonce call =
      let signer : AccountId32 = record { bytes = dalek.as_bytes (dalek.verifying_key sk) } in
      record {
        signer = signer;
        signature = dalek.sign sk (payload.encode signer.bytes nonce call);
        nonce = nonce;
        call = call;
      }

  unfoldable pub verify : UncheckedExtrinsic Call → DispatchResult
  verify e = elim (ok_or (dalek.from_bytes e.signer.bytes) invalid_public_key) [
    | err x ↦ err x
    | ok vk ↦
        if dalek.verify vk (payload.encode e.signer.bytes e.nonce e.call) e.signature
        then ok tt
        else err invalid_signature
  ]

  -- `par_iter().map(…).collect()` keeps the order.
  unfoldable pub verify_batch : List (UncheckedExtrinsic Call) → List DispatchResult
  verify_batch exts = map verify exts
