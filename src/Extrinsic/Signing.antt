-- ===== src/Extrinsic/Signing.antt =====
-- Signing and verification of extrinsics.
use rust_state_machine.Shared.{
  ℕ, ◌≡◌, ◌≢◌, some, List, get_elem?, get_elem?-map, arith, true, ok, err,
}
use rust_state_machine.Dispatch.{invalid_signature}
use rust_state_machine.Extrinsic.{
  UncheckedExtrinsic, Ed25519, PayloadCodec, new_signed, verify, verify_batch,
}

module _ {Call : Type 0} ⦃dalek : Ed25519⦄ ⦃payload : PayloadCodec Call⦄ where
  -- A freshly signed extrinsic is valid.
  pub verify-new_signed :
      (sk : dalek.SigningKey) (nonce : ℕ) (call : Call) → verify (new_signed sk nonce call) ≡ ok tt
  unfolding verify new_signed
  verify-new_signed sk nonce call =
      let vk = dalek.verifying_key sk in
      ground (
        arith,
        dalek.from_bytes-as_bytes vk,
        dalek.verify-sign sk (payload.encode (dalek.as_bytes vk) nonce call),
      )

  -- Where a signature stands for one payload only, and payloads with different nonces differ, a
  -- changed nonce is refused.
  verify_tampered_nonce :
      (sk : dalek.SigningKey) (nonce other : ℕ) (call : Call)
      → ((m m' : _) → dalek.verify (dalek.verifying_key sk) m' (dalek.sign sk m) ≡ true → m' ≡ m)
      → ((b : _) → payload.encode b other call ≡ payload.encode b nonce call → other ≡ nonce)
      → other ≢ nonce
      → verify (record (new_signed sk nonce call) { nonce = other }) ≡ err invalid_signature
  unfolding verify new_signed
  verify_tampered_nonce sk nonce other call binds injective ne =
      let vk = dalek.verifying_key sk in
      let b = dalek.as_bytes vk in
      ground (
        arith,
        dalek.from_bytes-as_bytes vk,
        binds (payload.encode b nonce call) (payload.encode b other call),
        injective b,
      )

  -- The results of a batch stand in the order of the extrinsics, one for each.
  get_elem?-verify_batch :
      (exts : List (UncheckedExtrinsic Call)) (i : ℕ) {e : UncheckedExtrinsic Call}
      → get_elem? exts i ≡ some e
      → get_elem? (verify_batch exts) i ≡ some (verify e)
  unfolding verify_batch
  get_elem?-verify_batch exts i h = get_elem?-map verify exts i h
