-- ===== src/Genesis.antt =====
-- The development accounts (module keyring of src/support.rs) and `maybe_apply_genesis` of
-- src/lib.rs. How a signing key comes from its 32 bytes is a parameter.
use rust_state_machine.Shared.{
  ℕ, ◌-◌, ◌≡◌, refl, ap, ◌∙◌, Option, some, none, ◌>>=◌, [], ◌∷◌, ◌++◌, length, IsU32, IsU128, ok,
  err, if◌then◌else◌, ◌==◌, zero, suc,
}
use rust_state_machine.Shared.Order.{Bytes, same}
use rust_state_machine.Codec.{Codec, Always}
use rust_state_machine.Store.{KeyValueStore}
use rust_state_machine.Storage.{codes}
use rust_state_machine.Extrinsic.{AccountId32, account_ord, Ed25519, PayloadCodec, verify_batch}
use rust_state_machine.System
use rust_state_machine.Balances
use rust_state_machine.Runtime.{
  Runtime, RuntimeBlock, Content, RuntimeCall, apply_extrinsics, execute_block,
}
use rust_state_machine.Balances.Transfer.{balance-set_balance}

pub data AccountKeyring : Type 0 where
  alice : AccountKeyring
  bob : AccountKeyring
  charlie : AccountKeyring

abbrev pub keyring_name : AccountKeyring → Bytes
keyring_name AccountKeyring.alice = codes "Alice"
keyring_name AccountKeyring.bob = codes "Bob"
keyring_name AccountKeyring.charlie = codes "Charlie"

abbrev pub zeros : ℕ → Bytes
zeros zero = []
zeros (suc n) = 0 ∷ zeros n

-- The name, padded with zeros to 32 bytes.
abbrev pub seed : AccountKeyring → Bytes
seed who = keyring_name who ++ zeros (32 - length (keyring_name who))

module _ ⦃dalek : Ed25519⦄ (from_seed : Bytes → dalek.SigningKey) where
  unfoldable pub signing_key : AccountKeyring → dalek.SigningKey
  signing_key who = from_seed (seed who)

  unfoldable pub public_key : AccountKeyring → AccountId32
  public_key who = record { bytes = dalek.as_bytes (dalek.verifying_key (signing_key who)) }

abbrev pub genesis : RuntimeBlock
genesis = record { header = record { block_number = 1 }; extrinsics = [] }

module _ {S : Type 0} ⦃kv : KeyValueStore S⦄ ⦃account_codec : Codec AccountId32 Always⦄
    ⦃content_codec : Codec Content Always⦄ ⦃u32_codec : Codec ℕ IsU32⦄ ⦃u128_codec : Codec ℕ IsU128⦄
    ⦃dalek : Ed25519⦄ ⦃payload : PayloadCodec RuntimeCall⦄
    (from_seed : Bytes → dalek.SigningKey) where
  unfoldable pub fund_dev_accounts :
      Balances.Pallet AccountId32 → S → Balances.Pallet AccountId32 × S
  fund_dev_accounts p s =
      let (p₁, s₁) = Balances.set_balance p s (public_key from_seed AccountKeyring.alice) 1000000 in
      let (p₂, s₂) = Balances.set_balance p₁ s₁ (public_key from_seed AccountKeyring.bob) 1000000 in
      Balances.set_balance p₂ s₂ (public_key from_seed AccountKeyring.charlie) 1000000

  -- The `expect` on the genesis block is a panic if the block is refused.
  unfoldable pub maybe_apply_genesis : Runtime → S → Option (Runtime × S)
  maybe_apply_genesis rt s =
      if rt.system.block_number == 0
      then (do
        let (p, s₁) = fund_dev_accounts rt.balances s
        q ← execute_block (record rt { balances = p }) s₁ genesis
        elim (q.2) [ ok _ ↦ some (q.0, q.1) | err _ ↦ none ])
      else some (rt, s)

  after_genesis : Runtime → S → Runtime × S
  after_genesis rt s = (
    record rt {
      system = record rt.system { block_number = 1 };
      balances = (fund_dev_accounts rt.balances s).0;
    },
    (kv.put (fund_dev_accounts rt.balances s).1 System.prefix_block_number (u32_codec.encode 1)).0,
  )

  genesis_runs :
      (rt : Runtime) (s : S)
      → maybe_apply_genesis (record rt { system = record rt.system { block_number = 0 } }) s
        ≡ some (after_genesis rt s)
  unfolding maybe_apply_genesis execute_block apply_extrinsics System.inc_block_number verify_batch
      after_genesis
  genesis_runs rt s = refl

  balance-fund_dev_accounts :
      (p : Balances.Pallet AccountId32) (s : S) (a : AccountId32)
      → Balances.balance (fund_dev_accounts p s).0 a ≡ (
          if same a (public_key from_seed AccountKeyring.charlie)
          then 1000000
          else if same a (public_key from_seed AccountKeyring.bob)
          then 1000000
          else if same a (public_key from_seed AccountKeyring.alice)
          then 1000000
          else Balances.balance p a)
  unfolding fund_dev_accounts
  balance-fund_dev_accounts p s a =
      let (p₁, s₁) = Balances.set_balance p s (public_key from_seed AccountKeyring.alice) 1000000 in
      let (p₂, s₂) = Balances.set_balance p₁ s₁ (public_key from_seed AccountKeyring.bob) 1000000 in
      rw
        (
          balance-set_balance p₂ s₂ (public_key from_seed AccountKeyring.charlie) a 1000000,
          balance-set_balance p₁ s₁ (public_key from_seed AccountKeyring.bob) a 1000000,
          balance-set_balance p s (public_key from_seed AccountKeyring.alice) a 1000000,
        )
        refl

  -- At block number zero the genesis does not panic: afterwards the block number is one, each
  -- development account has a million, every other balance and the nonces are as they were, and
  -- applied again the genesis changes nothing.
  pub maybe_apply_genesis_lem :
      (rt : Runtime) (s : S) (a : AccountId32)
      → rt.system.block_number ≡ 0
      → (q : Runtime × S) × (maybe_apply_genesis rt s ≡ some q)
        × (q.0.system.block_number ≡ 1)
        × (q.0.system.nonce ≡ rt.system.nonce)
        × (Balances.balance q.0.balances a ≡ (
            if same a (public_key from_seed AccountKeyring.charlie)
            then 1000000
            else if same a (public_key from_seed AccountKeyring.bob)
            then 1000000
            else if same a (public_key from_seed AccountKeyring.alice)
            then 1000000
            else Balances.balance rt.balances a))
        × (maybe_apply_genesis q.0 q.1 ≡ some q)
  unfolding maybe_apply_genesis after_genesis
  maybe_apply_genesis_lem rt s a z =
      let e : rt ≡ record rt { system = record rt.system { block_number = 0 } } =
        λ i. record rt { system = record rt.system { block_number = z i } } in
      (
        after_genesis rt s,
        ap (λ r. maybe_apply_genesis r s) e ∙ genesis_runs rt s,
        refl,
        refl,
        balance-fund_dev_accounts rt.balances s a,
        refl,
      )
