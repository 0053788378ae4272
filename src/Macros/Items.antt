-- ===== src/Macros/Items.antt =====
-- The items of this program that the two macros are applied to: the `impl` blocks of src/balances.rs and
-- src/proof_of_existence.rs and the struct of src/lib.rs. A type is its path, without its arguments.
use rust_state_machine.Shared.{Option, some, List, [], ◌∷◌}
use rust_state_machine.Storage.{codes}
use rust_state_machine.Macros.Syntax.{Ident, Pat, FnArg, ImplItem, ItemImpl, ItemStruct, Token}

abbrev pub RustType : Type 0
RustType = List Ident

abbrev pub tokens : RustType → List Token
tokens [] = []
tokens (x ∷ []) = Token.ident x ∷ []
tokens (x ∷ y ∷ path) = Token.ident x ∷ Token.path_sep ∷ tokens (y ∷ path)

abbrev pub segments : RustType → Option (List Ident)
segments path = some path

abbrev pub account_id : RustType
account_id = codes "T" ∷ codes "AccountId" ∷ []

abbrev pub argument : Ident → RustType → FnArg RustType
argument name ty = FnArg.typed (record { pat = Pat.ident name; ty = ty })

abbrev pub balances_impl : ItemImpl RustType
balances_impl = record {
  self_ty = codes "Pallet" ∷ [];
  items =
      ImplItem.method (record {
        ident = codes "transfer";
        inputs =
            FnArg.receiver
            ∷ argument (codes "caller") account_id
            ∷ argument (codes "to") account_id
            ∷ argument (codes "amount") (codes "T" ∷ codes "Balance" ∷ [])
            ∷ [];
      })
      ∷ [];
}

abbrev pub claim_inputs : List (FnArg RustType)
claim_inputs =
    FnArg.receiver
    ∷ argument (codes "caller") account_id
    ∷ argument (codes "claim") (codes "T" ∷ codes "Content" ∷ [])
    ∷ []

abbrev pub proof_of_existence_impl : ItemImpl RustType
proof_of_existence_impl = record {
  self_ty = codes "Pallet" ∷ [];
  items =
      ImplItem.method (record { ident = codes "create_claim"; inputs = claim_inputs })
      ∷ ImplItem.method (record { ident = codes "revoke_claim"; inputs = claim_inputs })
      ∷ [];
}

abbrev pub runtime_struct : ItemStruct RustType
runtime_struct = record {
  ident = codes "Runtime";
  fields =
      record { ident = some (codes "system"); ty = codes "system" ∷ codes "Pallet" ∷ [] }
      ∷ record { ident = some (codes "balances"); ty = codes "balances" ∷ codes "Pallet" ∷ [] }
      ∷ record {
        ident = some (codes "proof_of_existence");
        ty = codes "proof_of_existence" ∷ codes "Pallet" ∷ [];
      }
      ∷ [];
}
