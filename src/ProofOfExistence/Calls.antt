-- ===== src/ProofOfExistence/Calls.antt =====
-- The enum that `#[macros::call]` generates for src/proof_of_existence.rs.
pub data Call (C : Type 0) : Type 0 where
  create_claim : C → Call C
  revoke_claim : C → Call C
