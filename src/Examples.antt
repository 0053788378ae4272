-- ===== src/Examples.antt =====
-- Concrete data for the tests: a store in memory, toy encodings, a toy signature scheme (the
-- signature of a message is the key and the message), accounts, calls and blocks.
mod Pools
mod Pallets
mod Blocks
mod Producer
mod Claims
mod Slots
mod Macros
mod Commands
mod Nodes
mod Lives
mod Peers
mod Replicas
mod Wires
mod Network
mod UnitTests
mod Races
mod IntegrationTests
use rust_state_machine.Shared.{
  ℕ, ◌≡◌, ◌≢◌, refl, Option, some, none, List, [], ◌∷◌, ◌++◌, IsU32, IsU128,
}
use rust_state_machine.Shared.Order.{Bytes, bytes_ord, same, same_iff}
use rust_state_machine.Codec.{Codec, Always}
use rust_state_machine.Store.Memory.{MemStore, mem_store}
use rust_state_machine.Extrinsic.{AccountId32, Ed25519, PayloadCodec}
use rust_state_machine.Balances.Calls as BalancesCalls
use rust_state_machine.ProofOfExistence.Calls as ProofOfExistenceCalls
use rust_state_machine.Runtime.{RuntimeCall, Content}

pub cons_not_nil : {x : ℕ} {b : Bytes} → x ∷ b ≢ []
cons_not_nil e = cc

abbrev pub encode_bytes : Bytes → Bytes
encode_bytes b = 1 ∷ b

abbrev pub decode_bytes : Bytes → Option Bytes
decode_bytes [] = none
decode_bytes (b ∷ bytes) = some bytes

abbrev pub decode_account : Bytes → Option AccountId32
decode_account [] = none
decode_account (b ∷ bytes) = some (record { bytes = bytes })

abbrev pub decode_number : Bytes → Option ℕ
decode_number [] = none
decode_number (n ∷ bytes) = some n

instance abbrev pub account_codec : Codec AccountId32 Always
account_codec = record {
  encode = λ a. 1 ∷ a.bytes;
  decode = decode_account;
  decode-encode = λ a h. refl;
  encode-ne_nil = λ a h. cons_not_nil;
}

instance abbrev pub content_codec : Codec Content Always
content_codec = record {
  encode = encode_bytes;
  decode = decode_bytes;
  decode-encode = λ a h. refl;
  encode-ne_nil = λ a h. cons_not_nil;
}

instance abbrev pub u32_codec : Codec ℕ IsU32
u32_codec = record {
  encode = λ n. n ∷ [];
  decode = decode_number;
  decode-encode = λ a h. refl;
  encode-ne_nil = λ a h. cons_not_nil;
}

instance abbrev pub u128_codec : Codec ℕ IsU128
u128_codec = record {
  encode = λ n. n ∷ [];
  decode = decode_number;
  decode-encode = λ a h. refl;
  encode-ne_nil = λ a h. cons_not_nil;
}

instance abbrev pub dalek : Ed25519
dalek = record {
  SigningKey = Bytes;
  VerifyingKey = Bytes;
  verifying_key = λ k. k;
  as_bytes = λ k. k;
  from_bytes = λ b. some b;
  sign = λ k m. k ++ m;
  verify = λ k m s. same s (k ++ m);
  from_bytes-as_bytes = λ k. refl;
  verify-sign = λ k m. (same_iff (k ++ m) (k ++ m)).1 refl;
}

-- A call as bytes: its number, its length and its argument.
abbrev pub encode_call : RuntimeCall → Bytes
encode_call (RuntimeCall.balances (BalancesCalls.Call.transfer to amount)) = 0 ∷ amount ∷ to.bytes
encode_call (RuntimeCall.proof_of_existence (ProofOfExistenceCalls.Call.create_claim c)) = 1 ∷ c
encode_call (RuntimeCall.proof_of_existence (ProofOfExistenceCalls.Call.revoke_claim c)) = 2 ∷ c

instance abbrev pub payload : PayloadCodec RuntimeCall
payload = record { encode = λ signer nonce call. nonce ∷ encode_call call }

abbrev pub empty_store : MemStore
empty_store = record { entries = []; sorted = tt }

abbrev pub alice : AccountId32
alice = record { bytes = 1 ∷ [] }

abbrev pub bob : AccountId32
bob = record { bytes = 2 ∷ [] }

abbrev pub pay_bob : RuntimeCall
pay_bob = RuntimeCall.balances (BalancesCalls.Call.transfer bob 30)

abbrev pub claim_seven : RuntimeCall
claim_seven = RuntimeCall.proof_of_existence (ProofOfExistenceCalls.Call.create_claim (7 ∷ []))

abbrev pub claim_five : RuntimeCall
claim_five = RuntimeCall.proof_of_existence (ProofOfExistenceCalls.Call.create_claim (5 ∷ []))
