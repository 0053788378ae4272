-- ===== src/System.antt =====
-- The system pallet, src/system.rs: the block number and a nonce for each account, in memory and in
-- the store. An overflow of `checked_add(…).unwrap()` is a panic, `none`; an error of a write is
-- only printed, so the model passes over it.
pub mod Nonces
pub mod InStep
use rust_state_machine.Shared.{ℕ, Option, some, none, ◌>>=◌, [], checked_add, unwrap_or, IsU32}
use rust_state_machine.Shared.Order.{Ord, Bytes}
use rust_state_machine.Codec.{Codec, Always}
use rust_state_machine.Store.{KeyValueStore}
use rust_state_machine.Storage.{codes, load_entries, entry_key}
use rust_state_machine.BTreeMap as Map
use rust_state_machine.BTreeMap.{BTreeMap}

abbrev pub prefix_block_number : Bytes
prefix_block_number = codes "system:block_number"

abbrev pub prefix_nonce : Bytes
prefix_nonce = codes "system:nonce:"

pub record Pallet (K : Type 0) : Type 0 where
  pub block_number : ℕ
  pub nonce : BTreeMap K ℕ

module _ {K : Type 0} ⦃o : Ord K⦄ where
  unfoldable pub nonce : Pallet K → K → ℕ
  nonce p who = unwrap_or (Map.get p.nonce who) 0

module _ {S : Type 0} ⦃kv : KeyValueStore S⦄ ⦃u32_codec : Codec ℕ IsU32⦄ where
  -- The block number that is stored, or zero.
  unfoldable pub load_block_number : S → ℕ
  load_block_number s = unwrap_or (kv.get s prefix_block_number >>= u32_codec.decode) 0

module _ {K S : Type 0} ⦃o : Ord K⦄ ⦃kc : Codec K Always⦄ ⦃u32_codec : Codec ℕ IsU32⦄
    ⦃kv : KeyValueStore S⦄ where
  unfoldable pub new : S → Pallet K
  new s = record {
    block_number = load_block_number s;
    nonce = load_entries IsU32 prefix_nonce [] (kv.scan_prefix s prefix_nonce);
  }

  unfoldable pub inc_nonce : Pallet K → S → K → Option (Pallet K × S)
  inc_nonce p s who = do
    n ← checked_add 32 (nonce p who) 1
    some (
      record p { nonce = Map.insert p.nonce who n },
      (kv.put s (entry_key prefix_nonce who) (u32_codec.encode n)).0,
    )

module _ {K S : Type 0} ⦃u32_codec : Codec ℕ IsU32⦄ ⦃kv : KeyValueStore S⦄ where
  unfoldable pub inc_block_number : Pallet K → S → Option (Pallet K × S)
  inc_block_number p s = do
    n ← checked_add 32 p.block_number 1
    some (record p { block_number = n }, (kv.put s prefix_block_number (u32_codec.encode n)).0)
