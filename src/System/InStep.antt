-- ===== src/System/InStep.antt =====
-- The store of the system pallet (src/system.rs) against its memory.
use rust_state_machine.Shared.{true, ◌+◌, ℕ, ◌≡◌, refl, ◌∙◌, some, arith, IsU32, false}
use rust_state_machine.Shared.Order.{Ord, Bytes, bytes_ord, starts_with, starts_with_shorter}
use rust_state_machine.Codec.{Codec, Always}
use rust_state_machine.Store.{KeyValueStore, IsReliable}
use rust_state_machine.Storage.{codes, entry_key}
use rust_state_machine.Storage.Reload.{
  IsStored, IsStored-frame, reload, put-IsStored, get-put_elsewhere,
}
use rust_state_machine.BTreeMap as Map
use rust_state_machine.System.{
  Pallet, nonce, new, load_block_number, inc_block_number, inc_nonce, prefix_block_number,
  prefix_nonce,
}
use rust_state_machine.System.Nonces.{IsValid}

abbrev pub prefix : Bytes
prefix = codes "system:"

module _ {S : Type 0} ⦃u32_codec : Codec ℕ IsU32⦄ ⦃kv : KeyValueStore S⦄ where
  number-put :
      IsReliable kv
      → (s : S) (n : ℕ) → IsU32 n
      → load_block_number (kv.put s prefix_block_number (u32_codec.encode n)).0 ≡ n
  unfolding load_block_number
  number-put r s n f = rw (
    r.get-put s prefix_block_number (u32_codec.encode n) prefix_block_number,
    u32_codec.decode-encode n f,
  )

module _ {K S : Type 0} ⦃o : Ord K⦄ ⦃kc : Codec K Always⦄ ⦃u32_codec : Codec ℕ IsU32⦄
    ⦃kv : KeyValueStore S⦄ where
  pub record InStep (p : Pallet K) (s : S) : Type 0 where
    pub number : load_block_number s ≡ p.block_number
    pub nonces : IsStored IsU32 prefix_nonce p.nonce s

  -- A restart reads back the pallet that was running.
  pub new-InStep : IsReliable kv → (p : Pallet K) (s : S) → IsValid p → InStep p s → new s ≡ p
  unfolding new
  new-InStep r p s v h =
      ground (arith, h.number, reload IsU32 r prefix_nonce p.nonce s v.sorted h.nonces)

  -- What leaves the entries of the pallet alone keeps it in step.
  pub InStep-frame :
      (p : Pallet K) (s s' : S)
      → ((j : Bytes) → starts_with j prefix ≡ true → kv.get s' j ≡ kv.get s j)
      → InStep p s
      → InStep p s'
  unfolding load_block_number
  InStep-frame p s s' f h = record {
    number = rw (f prefix_block_number refl) h.number;
    nonces =
        IsStored-frame IsU32 prefix_nonce p.nonce s s'
          (λ j e. f j (starts_with_shorter j prefix (codes "nonce:") e)) h.nonces;
  }

  number-put_nonce :
      IsReliable kv
      → (s : S) (who : K) (w : Bytes)
      → load_block_number (kv.put s (entry_key prefix_nonce who) w).0 ≡ load_block_number s
  unfolding load_block_number entry_key
  number-put_nonce r s who w = rw (r.get-put s (entry_key prefix_nonce who) w prefix_block_number)

  -- Counting a block keeps the store in step.
  pub inc_block_number-InStep :
      IsReliable kv
      → (p : Pallet K) (s : S) {q : Pallet K × S} → InStep p s
      → inc_block_number p s ≡ some q
      → InStep q.0 q.1
  inc_block_number-InStep r p s {q} h e =
      let n = p.block_number + 1 in
      let s' = (kv.put s prefix_block_number (u32_codec.encode n)).0 in
      let t : IsU32 n × (q ≡ (record p { block_number = n }, s')) =
        unfold inc_block_number in ground arith in
      rw t.1 (record {
        number = number-put r s n t.0;
        nonces =
            IsStored-frame IsU32 prefix_nonce p.nonce s s'
              (λ j e'.
                get-put_elsewhere r prefix_nonce s prefix_block_number (u32_codec.encode n) j
                  (rw e'))
              h.nonces;
      })

  -- Counting an extrinsic of an account keeps the store in step.
  pub inc_nonce-InStep :
      IsReliable kv
      → (p : Pallet K) (s : S) (who : K) {q : Pallet K × S} → InStep p s
      → inc_nonce p s who ≡ some q
      → InStep q.0 q.1
  inc_nonce-InStep r p s who {q} h e =
      let n = nonce p who + 1 in
      let w = u32_codec.encode n in
      let s' = (kv.put s (entry_key prefix_nonce who) w).0 in
      let t : IsU32 n × (q ≡ (record p { nonce = Map.insert p.nonce who n }, s')) =
        unfold inc_nonce in ground arith in
      rw t.1 (record {
        number = number-put_nonce r s who w ∙ h.number;
        nonces = put-IsStored IsU32 r prefix_nonce p.nonce s who n t.0 h.nonces;
      })

  -- What the pallet writes stands under its prefix.
  pub inc_block_number_elsewhere :
      IsReliable kv
      → (p : Pallet K) (s : S) {q : Pallet K × S} (j : Bytes) → inc_block_number p s ≡ some q
      → starts_with j prefix ≡ false
      → kv.get q.1 j ≡ kv.get s j
  unfolding inc_block_number
  inc_block_number_elsewhere r p s j e h = ground (
    arith,
    get-put_elsewhere r prefix s prefix_block_number (u32_codec.encode (p.block_number + 1)) j
        (rw h),
  )

  pub inc_nonce_elsewhere :
      IsReliable kv
      → (p : Pallet K) (s : S) (who : K) {q : Pallet K × S} (j : Bytes) → inc_nonce p s who ≡ some q
      → starts_with j prefix ≡ false
      → kv.get q.1 j ≡ kv.get s j
  unfolding inc_nonce
  inc_nonce_elsewhere r p s who j e h = ground (
    arith,
    get-put_elsewhere r prefix s (entry_key prefix_nonce who) (u32_codec.encode (nonce p who + 1)) j
        (unfold entry_key in rw h),
  )
