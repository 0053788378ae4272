-- ===== src/Runtime/Ledger.antt =====
-- The ledger that a runtime of src/lib.rs keeps, without its maps: what blocks do to the height, the
-- nonces, the balances and the owners of claims, each a function of the account or the content.
pub mod Refines
use rust_state_machine.Shared.{
  ℕ, ◌+◌, ◌-◌, ◌^◌, Bool, false, ◌&&◌, Option, none, some, ◌>>=◌, List, [], ◌∷◌, ok, err, ◌==◌, leb,
  ltb, if◌then◌else◌,
}
use rust_state_machine.Shared.Order.{bytes_ord, same}
use rust_state_machine.Dispatch.{DispatchResult, block_number_mismatch}
use rust_state_machine.Extrinsic.{AccountId32, account_ord, Ed25519, PayloadCodec, verify}
use rust_state_machine.System
use rust_state_machine.Balances
use rust_state_machine.Balances.Calls as BalancesCalls
use rust_state_machine.ProofOfExistence
use rust_state_machine.ProofOfExistence.Calls as ProofOfExistenceCalls
use rust_state_machine.Runtime.{Runtime, Extrinsic, RuntimeBlock, Content, RuntimeCall}

pub record Ledger : Type 0 where
  pub height : ℕ
  pub nonce_of : AccountId32 → ℕ
  pub balance_of : AccountId32 → ℕ
  pub owner_of : Content → Option AccountId32

-- Whether an amount is covered and fits on top of what the recipient has.
abbrev pub goes_through : Ledger → AccountId32 → AccountId32 → ℕ → Bool
goes_through l from to amount =
    leb amount (l.balance_of from) && ltb (l.balance_of to + amount) (2 ^ 128)

abbrev pub owns : Ledger → AccountId32 → Content → Bool
owns l who claim = elim (l.owner_of claim) [ none ↦ false | some owner ↦ same owner who ]

-- What a call does. To oneself, the amount is gained.
abbrev pub effect : Ledger → AccountId32 → RuntimeCall → Ledger
effect l from (RuntimeCall.balances (BalancesCalls.Call.transfer to amount)) = record l {
  balance_of = λ a.
      if goes_through l from to amount
      then (if same a to
          then l.balance_of to + amount
          else if same a from
          then l.balance_of from - amount
          else l.balance_of a)
      else l.balance_of a;
}
effect l from (RuntimeCall.proof_of_existence (ProofOfExistenceCalls.Call.create_claim claim)) =
    record l {
      owner_of = λ c. elim (l.owner_of c) [
        | none ↦ if same c claim then some from else none
        | some owner ↦ some owner
      ];
    }
effect l from (RuntimeCall.proof_of_existence (ProofOfExistenceCalls.Call.revoke_claim claim)) =
    record l { owner_of = λ c. if owns l from claim && same c claim then none else l.owner_of c }

-- An extrinsic has an effect if its signature is good and its nonce is next; `none` if the nonce after
-- it does not fit.
abbrev pub apply_checked : Ledger → Extrinsic → DispatchResult → Option Ledger
apply_checked l ext (err _) = some l
apply_checked l ext (ok _) =
    if l.nonce_of ext.signer == ext.nonce
    then (if ltb (ext.nonce + 1) (2 ^ 32)
        then some (
            effect
              (record l {
                nonce_of = λ a. if same a ext.signer then ext.nonce + 1 else l.nonce_of a;
              })
              ext.signer ext.call)
        else none)
    else some l

module _ ⦃dalek : Ed25519⦄ ⦃payload : PayloadCodec RuntimeCall⦄ where
  abbrev pub apply : Ledger → Extrinsic → Option Ledger
  apply l ext = apply_checked l ext (verify ext)

  abbrev pub apply_all : Ledger → List Extrinsic → Option Ledger
  apply_all l [] = some l
  apply_all l (ext ∷ exts) = apply l ext >>= λ m. apply_all m exts

  abbrev pub execute : Ledger → RuntimeBlock → Option (Ledger × DispatchResult)
  execute l block =
      if ltb (l.height + 1) (2 ^ 32)
      then (if block.header.block_number == l.height + 1
          then (apply_all (record l { height = l.height + 1 }) block.extrinsics >>= λ m.
              some (m, ok tt))
          else some (record l { height = l.height + 1 }, err block_number_mismatch))
      else none

  -- One block after another, accepted or refused.
  abbrev pub execute_each : Ledger → List RuntimeBlock → Option Ledger
  execute_each l [] = some l
  execute_each l (b ∷ blocks) = execute l b >>= λ q. execute_each q.0 blocks

-- The ledger of a runtime.
abbrev pub ledger : Runtime → Ledger
ledger rt = record {
  height = rt.system.block_number;
  nonce_of = System.nonce rt.system;
  balance_of = Balances.balance rt.balances;
  owner_of = ProofOfExistence.get_claim rt.proof_of_existence;
}
