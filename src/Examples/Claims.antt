-- ===== src/Examples/Claims.antt =====
-- What the store keeps of the claims of src/proof_of_existence.rs, at concrete inputs.
use rust_state_machine.Shared.{◌≡◌, refl, some, none, List, [], ◌∷◌, ok, unwrap_or}
use rust_state_machine.Shared.Order.{bytes_ord}
use rust_state_machine.Store.Memory.{MemStore, mem_store, mem_store-IsReliable}
use rust_state_machine.Dispatch.{DispatchResult}
use rust_state_machine.Extrinsic.{AccountId32, account_ord}
use rust_state_machine.BTreeMap as Map
use rust_state_machine.ProofOfExistence
use rust_state_machine.ProofOfExistence.InStep.{InStep, create_claim_above, create_claim_lost}
use rust_state_machine.ProofOfExistence.Calls.{Call}
use rust_state_machine.ProofOfExistence.Survives.{dispatch_each, claim_above_survives}
use rust_state_machine.Runtime.{Content}
use package.rust_state_machine.Examples.{account_codec, content_codec, empty_store, alice, bob}

abbrev no_claims : ProofOfExistence.Pallet Content AccountId32
no_claims = record { claims = [] }

abbrev five : Content
five = 5 ∷ []

abbrev seven : Content
seven = 7 ∷ []

abbrev Outcome : Type 0
Outcome = ProofOfExistence.Pallet Content AccountId32 × MemStore × DispatchResult

abbrev one : Outcome
one =
    unwrap_or (ProofOfExistence.create_claim no_claims empty_store bob (7 ∷ []))
      (no_claims, empty_store, ok tt)

create-one : ProofOfExistence.create_claim no_claims empty_store bob (7 ∷ []) ≡ some one
unfolding ProofOfExistence.create_claim Map.get Map.insert Map.last_key mem_store
    rust_state_machine.Storage.entry_key ProofOfExistence.claim_key
create-one = refl

one-InStep : InStep one.0 one.1
one-InStep =
    create_claim_above mem_store-IsReliable no_claims empty_store bob (7 ∷ []) tt
      (unfold Map.get mem_store in record { covers = λ k v h. cc; exact = λ j w h p. cc })
      create-one
      (unfold ProofOfExistence.create_claim Map.get Map.insert Map.last_key mem_store
          rust_state_machine.Storage.entry_key ProofOfExistence.claim_key in
        refl)

abbrev two : Outcome
two = unwrap_or (ProofOfExistence.create_claim one.0 one.1 alice (5 ∷ [])) one

create-two : ProofOfExistence.create_claim one.0 one.1 alice (5 ∷ []) ≡ some two
unfolding ProofOfExistence.create_claim Map.get Map.insert Map.last_key mem_store
    rust_state_machine.Storage.entry_key ProofOfExistence.claim_key
create-two = refl

create_claim_lost_example :
    (ProofOfExistence.get_claim two.0 five ≡ some alice)
    × (ProofOfExistence.new two.1 ≡ one.0)
    × (ProofOfExistence.get_claim (ProofOfExistence.new {K = AccountId32} two.1) five ≡ none)
create_claim_lost_example =
    create_claim_lost mem_store-IsReliable one.0 one.1 alice five (7 ∷ [])
      (unfold ProofOfExistence.create_claim Map.get Map.insert Map.last_key mem_store
          rust_state_machine.Storage.entry_key ProofOfExistence.claim_key in
        (tt, tt))
      one-InStep
      (unfold ProofOfExistence.create_claim Map.get Map.insert Map.last_key mem_store
          rust_state_machine.Storage.entry_key ProofOfExistence.claim_key in
        refl)
      refl create-two
      (unfold ProofOfExistence.create_claim Map.get Map.insert Map.last_key mem_store
          rust_state_machine.Storage.entry_key ProofOfExistence.claim_key in
        refl)

-- Alice claims a content below, tries to revoke Bob's claim, and Bob claims one above.
abbrev later_calls : List (AccountId32 × Call Content)
later_calls =
    (alice, Call.create_claim five)
    ∷ (alice, Call.revoke_claim (7 ∷ []))
    ∷ (bob, Call.create_claim (9 ∷ []))
    ∷ []

claim_above_survives_example :
    (t : ProofOfExistence.Pallet Content AccountId32 × MemStore) × (dispatch_each one.0 one.1
        later_calls
      ≡ some t)
    × (ProofOfExistence.get_claim t.0 seven ≡ some bob)
    × (ProofOfExistence.get_claim (ProofOfExistence.new {K = AccountId32} t.1) seven ≡ some bob)
claim_above_survives_example =
    claim_above_survives mem_store-IsReliable no_claims empty_store bob seven later_calls
      (record {
        kept = [];
        sorted = tt;
        stored = unfold Map.get mem_store in record { covers = λ k v h. cc; exact = λ j w h p. cc };
        agrees = λ c owner h. unfold Map.get in cc;
      })
      tt create-one
      (unfold ProofOfExistence.create_claim Map.get Map.insert Map.last_key mem_store
          rust_state_machine.Storage.entry_key ProofOfExistence.claim_key in
        refl)
      (λ e. cc e, (λ e. cc e, (λ e. cc e, tt)))
