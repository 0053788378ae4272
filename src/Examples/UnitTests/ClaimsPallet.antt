-- ===== src/Examples/UnitTests/ClaimsPallet.antt =====
-- The tests of src/proof_of_existence.rs.
use rust_state_machine.Shared.{◌≡◌, refl, some, none, ◌>>=◌}
use rust_state_machine.Shared.Order.{Bytes, bytes_ord}
use rust_state_machine.Storage.{codes}
use rust_state_machine.Store.Memory.{mem_store}
use rust_state_machine.Dispatch.{already_claimed, claim_does_not_exist, caller_is_not_owner}
use rust_state_machine.ProofOfExistence
use rust_state_machine.BTreeMap as Map
use package.rust_state_machine.Examples.{content_codec, empty_store}
use package.rust_state_machine.Examples.UnitTests.{Test, ◌>>◌, unwrap, assert_err, assert_owner}

abbrev new_claims : ProofOfExistence.Pallet Bytes Bytes
new_claims = ProofOfExistence.new empty_store

abbrev get_claim_returns_none_for_missing_content : Test
get_claim_returns_none_for_missing_content =
    assert_owner (ProofOfExistence.get_claim new_claims (codes "ghost")) none

abbrev create_claim_stores_owner : Test
create_claim_stores_owner = do
  (poe, s, r) ← ProofOfExistence.create_claim new_claims empty_store (codes "alice") (codes "doc")
  unwrap r
  assert_owner (ProofOfExistence.get_claim poe (codes "doc")) (some (codes "alice"))

abbrev create_duplicate_claim_fails : Test
create_duplicate_claim_fails = do
  (p₁, s₁, r₁) ← ProofOfExistence.create_claim new_claims empty_store (codes "alice") (codes "doc")
  unwrap r₁
  (p₂, s₂, r₂) ← ProofOfExistence.create_claim p₁ s₁ (codes "bob") (codes "doc")
  assert_err r₂ already_claimed
  assert_owner (ProofOfExistence.get_claim p₂ (codes "doc")) (some (codes "alice"))

abbrev revoke_claim_removes_it : Test
revoke_claim_removes_it = do
  (p₁, s₁, r₁) ← ProofOfExistence.create_claim new_claims empty_store (codes "alice") (codes "doc")
  unwrap r₁
  let (p₂, s₂, r₂) = ProofOfExistence.revoke_claim p₁ s₁ (codes "alice") (codes "doc")
  unwrap r₂
  assert_owner (ProofOfExistence.get_claim p₂ (codes "doc")) none

abbrev revoke_nonexistent_claim_fails : Test
revoke_nonexistent_claim_fails =
    assert_err
      (ProofOfExistence.revoke_claim new_claims empty_store (codes "alice") (codes "ghost")).2
      claim_does_not_exist

abbrev revoke_claim_wrong_owner_fails : Test
revoke_claim_wrong_owner_fails = do
  (p₁, s₁, r₁) ← ProofOfExistence.create_claim new_claims empty_store (codes "alice") (codes "doc")
  unwrap r₁
  let (p₂, s₂, r₂) = ProofOfExistence.revoke_claim p₁ s₁ (codes "bob") (codes "doc")
  assert_err r₂ caller_is_not_owner
  assert_owner (ProofOfExistence.get_claim p₂ (codes "doc")) (some (codes "alice"))

abbrev reclaim_after_revoke_succeeds : Test
reclaim_after_revoke_succeeds = do
  (p₁, s₁, r₁) ← ProofOfExistence.create_claim new_claims empty_store (codes "alice") (codes "doc")
  unwrap r₁
  let (p₂, s₂, r₂) = ProofOfExistence.revoke_claim p₁ s₁ (codes "alice") (codes "doc")
  unwrap r₂
  (p₃, s₃, r₃) ← ProofOfExistence.create_claim p₂ s₂ (codes "bob") (codes "doc")
  unwrap r₃
  assert_owner (ProofOfExistence.get_claim p₃ (codes "doc")) (some (codes "bob"))

abbrev multiple_claims_are_independent : Test
multiple_claims_are_independent = do
  (p₁, s₁, r₁) ← ProofOfExistence.create_claim new_claims empty_store (codes "alice") (codes "doc1")
  unwrap r₁
  (p₂, s₂, r₂) ← ProofOfExistence.create_claim p₁ s₁ (codes "bob") (codes "doc2")
  unwrap r₂
  assert_owner (ProofOfExistence.get_claim p₂ (codes "doc1")) (some (codes "alice"))
  assert_owner (ProofOfExistence.get_claim p₂ (codes "doc2")) (some (codes "bob"))

abbrev revoking_one_claim_does_not_affect_others : Test
revoking_one_claim_does_not_affect_others = do
  (p₁, s₁, r₁) ← ProofOfExistence.create_claim new_claims empty_store (codes "alice") (codes "doc1")
  unwrap r₁
  (p₂, s₂, r₂) ← ProofOfExistence.create_claim p₁ s₁ (codes "alice") (codes "doc2")
  unwrap r₂
  let (p₃, s₃, r₃) = ProofOfExistence.revoke_claim p₂ s₂ (codes "alice") (codes "doc1")
  unwrap r₃
  assert_owner (ProofOfExistence.get_claim p₃ (codes "doc1")) none
  assert_owner (ProofOfExistence.get_claim p₃ (codes "doc2")) (some (codes "alice"))

-- All of them pass.
claims_tests-pass :
    (get_claim_returns_none_for_missing_content ≡ some tt)
    × (create_claim_stores_owner ≡ some tt)
    × (create_duplicate_claim_fails ≡ some tt)
    × (revoke_claim_removes_it ≡ some tt)
    × (revoke_nonexistent_claim_fails ≡ some tt)
    × (revoke_claim_wrong_owner_fails ≡ some tt)
    × (reclaim_after_revoke_succeeds ≡ some tt)
    × (multiple_claims_are_independent ≡ some tt)
    × (revoking_one_claim_does_not_affect_others ≡ some tt)
unfolding ProofOfExistence.new ProofOfExistence.get_claim ProofOfExistence.create_claim
    ProofOfExistence.revoke_claim ProofOfExistence.claim_key Map.get Map.insert Map.remove
    Map.last_key mem_store rust_state_machine.Storage.load_entries
claims_tests-pass = (refl, refl, refl, refl, refl, refl, refl, refl, refl)
