-- ===== src/Examples/UnitTests/Signatures.antt =====
-- The tests of extrinsics and `verify_batch` in src/support.rs, with a toy signature scheme.
use rust_state_machine.Shared.{
  ℕ, Bool, true, ◌&&◌, ◌≡◌, refl, some, ◌>>=◌, List, [], ◌∷◌, map, not, ◌==◌, get_elem?,
}
use rust_state_machine.Shared.Order.{Bytes, bytes_ord, same}
use rust_state_machine.Dispatch.{DispatchResult}
use rust_state_machine.Extrinsic.{
  account_ord, UncheckedExtrinsic, PayloadCodec, new_signed, verify, verify_batch,
}
use rust_state_machine.Genesis.{AccountKeyring, signing_key, public_key}
use package.rust_state_machine.Examples.{dalek}
use package.rust_state_machine.Examples.UnitTests.{Test, ◌>>◌, assert, is_ok}

-- `TestCall(u32)`
abbrev TestCall : Type 0
TestCall = ℕ

instance abbrev test_payload : PayloadCodec TestCall
test_payload = record { encode = λ signer nonce call. nonce ∷ call ∷ [] }

abbrev from_bytes : Bytes → Bytes
from_bytes seed = seed

abbrev signed : ℕ → TestCall → UncheckedExtrinsic TestCall
signed nonce call = new_signed (signing_key from_bytes AccountKeyring.alice) nonce call

abbrev new_signed_produces_valid_extrinsic : Test
new_signed_produces_valid_extrinsic = do
  let ext = signed 0 42
  assert (same ext.signer (public_key from_bytes AccountKeyring.alice))
  assert (ext.nonce == 0)
  assert (is_ok (verify ext))

abbrev verify_rejects_tampered_nonce : Test
verify_rejects_tampered_nonce = do
  let ext = record (signed 0 1) { nonce = 99 }
  assert (not (is_ok (verify ext)))

abbrev verify_rejects_wrong_signer_field : Test
verify_rejects_wrong_signer_field = do
  let ext = record (signed 0 1) { signer = public_key from_bytes AccountKeyring.bob }
  assert (not (is_ok (verify ext)))

abbrev nonces_produce_different_signatures : Test
nonces_produce_different_signatures =
    assert (not (same (signed 0 1).signature (signed 1 1).signature))

abbrev all_ok : List DispatchResult → Bool
all_ok [] = true
all_ok (r ∷ results) = is_ok r && all_ok results

abbrev verify_batch_all_valid : Test
verify_batch_all_valid = assert (all_ok (verify_batch (map (λ n. signed n n) (0 ∷ 1 ∷ 2 ∷ 3 ∷ []))))

abbrev verify_batch_catches_tampered_entry : Test
verify_batch_catches_tampered_entry = do
  let results = verify_batch (signed 0 0 ∷ record (signed 1 1) { nonce = 99 } ∷ signed 2 2 ∷ [])
  first ← get_elem? results 0
  assert (is_ok first)
  second ← get_elem? results 1
  assert (not (is_ok second))
  third ← get_elem? results 2
  assert (is_ok third)

-- All of them pass.
signature_tests-pass :
    (new_signed_produces_valid_extrinsic ≡ some tt)
    × (verify_rejects_tampered_nonce ≡ some tt)
    × (verify_rejects_wrong_signer_field ≡ some tt)
    × (nonces_produce_different_signatures ≡ some tt)
    × (verify_batch_all_valid ≡ some tt)
    × (verify_batch_catches_tampered_entry ≡ some tt)
unfolding new_signed verify verify_batch signing_key public_key
signature_tests-pass = (refl, refl, refl, refl, refl, refl)
