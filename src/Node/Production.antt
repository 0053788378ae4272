-- ===== src/Node/Production.antt =====
-- `produce_block` of src/node.rs. The `HashMap` of candidates is an association list; the order in
-- which it is iterated is a parameter. `expected += 1` wraps as in a release build.
pub mod Batch
pub mod Blocks
pub mod Stale
pub mod Total
use rust_state_machine.Shared.{
  ℕ, ◌+◌, ◌%◌, ◌^◌, Option, some, none, ◌>>=◌, List, [], ◌∷◌, ◌++◌, IsU32, IsU128, ok, err,
  if◌then◌else◌, ◌==◌, leb, unwrap_or, checked_add,
}
use rust_state_machine.Shared.Order.{same}
use rust_state_machine.Codec.{Codec, Always}
use rust_state_machine.Store.{KeyValueStore}
use rust_state_machine.Extrinsic.{
  AccountId32, account_ord, Header, Block, UncheckedExtrinsic, Ed25519, PayloadCodec,
}
use rust_state_machine.BTreeMap.{BTreeMap}
use rust_state_machine.System
use rust_state_machine.Mempool
use rust_state_machine.Mempool.{Mempool}
use rust_state_machine.Runtime.{
  Runtime, Extrinsic, RuntimeBlock, Content, RuntimeCall, execute_block,
}

-- The entries of the `HashMap` by signer.
abbrev pub Groups : Type 0
Groups = List (AccountId32 × List Extrinsic)

-- `by_signer.entry(ext.signer).or_default().push(ext)`
unfoldable pub push_entry : Groups → Extrinsic → Groups
push_entry [] ext = (ext.signer, ext ∷ []) ∷ []
push_entry ((signer, txs) ∷ groups) ext =
    if same ext.signer signer
    then (signer, txs ++ (ext ∷ [])) ∷ groups
    else (signer, txs) ∷ push_entry groups ext

unfoldable pub group_from : Groups → List Extrinsic → Groups
group_from groups [] = groups
group_from groups (ext ∷ exts) = group_from (push_entry groups ext) exts

-- `sort_by_key(|e| e.nonce)`, which is stable.
unfoldable pub insert_by_nonce : Extrinsic → List Extrinsic → List Extrinsic
insert_by_nonce ext [] = ext ∷ []
insert_by_nonce ext (x ∷ xs) =
    if leb ext.nonce x.nonce then ext ∷ x ∷ xs else x ∷ insert_by_nonce ext xs

unfoldable pub sort_by_nonce : List Extrinsic → List Extrinsic
sort_by_nonce [] = []
sort_by_nonce (x ∷ xs) = insert_by_nonce x (sort_by_nonce xs)

-- The loop over the sorted extrinsics of one signer, up to the first gap.
unfoldable pub take_run : ℕ → List Extrinsic → List Extrinsic
take_run expected [] = []
take_run expected (tx ∷ txs) =
    if tx.nonce == expected then tx ∷ take_run ((expected + 1) % 2 ^ 32) txs else []

unfoldable pub build_batch : Runtime → Groups → List Extrinsic
build_batch rt [] = []
build_batch rt ((signer, txs) ∷ groups) =
    take_run (System.nonce rt.system signer) (sort_by_nonce txs) ++ build_batch rt groups

module _ {S : Type 0} ⦃kv : KeyValueStore S⦄ ⦃account_codec : Codec AccountId32 Always⦄
    ⦃content_codec : Codec Content Always⦄ ⦃u32_codec : Codec ℕ IsU32⦄ ⦃u128_codec : Codec ℕ IsU128⦄
    ⦃dalek : Ed25519⦄ ⦃payload : PayloadCodec RuntimeCall⦄ (iterate : Groups → Groups) where
  -- The runtime, the store and the pool afterwards, and the block that is published, if any.
  unfoldable pub produce_block :
      Runtime
      → S
      → Mempool Extrinsic
      → Option (Runtime × S × Mempool Extrinsic × Option RuntimeBlock)
  produce_block rt s mempool =
      let limit = unwrap_or mempool.block_limit 10 in
      let (mempool', candidates) = Mempool.drain_for_block mempool limit in
      let batch = build_batch rt (iterate (group_from [] candidates)) in
      do
        next_num ← checked_add 32 rt.system.block_number 1
        let block : RuntimeBlock = record {
          header = record { block_number = next_num };
          extrinsics = batch;
        }
        q ← execute_block rt s block
        some (q.0, q.1, mempool', elim (q.2) [ ok _ ↦ some block | err _ ↦ none ])
