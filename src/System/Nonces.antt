-- ===== src/System/Nonces.antt =====
-- What the operations of the system pallet do to the block number and the nonces, and when they panic.
use rust_state_machine.Shared.{
  Option-cases, inl, inr, ℕ, ◌+◌, ◌^◌, ◌≤◌, ◌≡◌, ◌↔◌, some, none, All, arith, IsU32, if◌then◌else◌,
}
use rust_state_machine.Shared.Order.{Ord, same}
use rust_state_machine.Codec.{Codec, Always}
use rust_state_machine.Store.{KeyValueStore}
use rust_state_machine.BTreeMap as Map
use rust_state_machine.BTreeMap.Order.{IsSorted, insert-IsSorted, All-insert, All-get}
use rust_state_machine.System.{Pallet, nonce, inc_block_number, inc_nonce}

module _ {K : Type 0} ⦃o : Ord K⦄ where
  pub record IsValid (p : Pallet K) : Type 0 where
    pub block_number_fits : IsU32 p.block_number
    pub sorted : IsSorted p.nonce
    pub nonces_fit : All (λ e. IsU32 e.1) p.nonce

  nonce-IsU32 : (p : Pallet K) (who : K) → IsValid p → IsU32 (nonce p who)
  unfolding nonce
  nonce-IsU32 p who h = elim (Option-cases (Map.get p.nonce who)) [
    | inl e ↦ rw e (omega arith)
    | inr (n, e) ↦ rw e (All-get (λ e. IsU32 e.1) p.nonce who n h.nonces_fit e)
  ]

module _ {K S : Type 0} ⦃o : Ord K⦄ ⦃kc : Codec K Always⦄ ⦃u32_codec : Codec ℕ IsU32⦄
    ⦃kv : KeyValueStore S⦄ where
  pub inc_nonce-eq-some :
      (p : Pallet K) (s : S) (who a : K) {q : Pallet K × S}
      → inc_nonce p s who ≡ some q
      → (q.0.block_number ≡ p.block_number)
        × IsU32 (nonce p who + 1)
        × (nonce q.0 a ≡ (if same a who then nonce p who + 1 else nonce p a))
  unfolding inc_nonce nonce
  inc_nonce-eq-some p s who a h = ground (arith, Map.get-insert p.nonce who a (nonce p who + 1))

  pub inc_nonce-eq-none :
      (p : Pallet K) (s : S) (who : K) → (inc_nonce p s who ≡ none) ↔ (2 ^ 32 ≤ nonce p who + 1)
  unfolding inc_nonce
  inc_nonce-eq-none p s who = ground arith

  pub inc_nonce-IsValid :
      (p : Pallet K) (s : S) (who : K) {q : Pallet K × S}
      → IsValid p
      → inc_nonce p s who ≡ some q
      → IsValid q.0
  unfolding inc_nonce
  inc_nonce-IsValid p s who h e = ground (
    arith,
    insert-IsSorted p.nonce who (nonce p who + 1),
    All-insert (λ e. IsU32 e.1) p.nonce who (nonce p who + 1),
  )

module _ {K S : Type 0} ⦃u32_codec : Codec ℕ IsU32⦄ ⦃kv : KeyValueStore S⦄ where
  pub inc_block_number-eq-some :
      (p : Pallet K) (s : S) {q : Pallet K × S}
      → inc_block_number p s ≡ some q
      → (q.0.block_number ≡ p.block_number + 1) × IsU32 (p.block_number + 1) × (q.0.nonce ≡ p.nonce)
  unfolding inc_block_number
  inc_block_number-eq-some p s h = ground arith

  pub inc_block_number-eq-none :
      (p : Pallet K) (s : S) → (inc_block_number p s ≡ none) ↔ (2 ^ 32 ≤ p.block_number + 1)
  unfolding inc_block_number
  inc_block_number-eq-none p s = ground arith

module _ {K S : Type 0} ⦃o : Ord K⦄ ⦃u32_codec : Codec ℕ IsU32⦄ ⦃kv : KeyValueStore S⦄ where
  pub inc_block_number-IsValid :
      (p : Pallet K) (s : S) {q : Pallet K × S}
      → IsValid p
      → inc_block_number p s ≡ some q
      → IsValid q.0
  unfolding inc_block_number
  inc_block_number-IsValid p s h e = ground arith
