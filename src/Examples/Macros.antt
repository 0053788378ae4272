-- ===== src/Examples/Macros.antt =====
-- The macros of macros/src on a pallet with two methods and on the program's runtime.
use rust_state_machine.Extrinsic.{AccountId32}
use rust_state_machine.Shared.{
  ℕ, Bool, true, false, ◌&&◌, ◌⊎◌, inl, inr, ◌≡◌, ◌↔◌, refl, some, List, [], ◌∷◌, All, map, ok,
}
use rust_state_machine.Shared.Order.{bytes_ord, same}
use rust_state_machine.Storage.{codes}
use rust_state_machine.Store.Memory.{mem_store}
use rust_state_machine.Macros.Syntax.{Pat, Signature, FnArg, ImplItem, Item, Field}
use rust_state_machine.Macros.Call.{
  CallCode, call, expand_call, CallVariantDef, CallDef, parse_first_arg, is_wrong_name,
  check_caller_arg, parse_args, parse_inputs, parse_methods, first_segment, parse_call,
}
use rust_state_machine.Macros.Call.Accepts.{Accepts, parse_call_iff}
use rust_state_machine.Macros.Items.{
  RustType, tokens, segments, account_id, argument, runtime_struct, balances_impl,
  proof_of_existence_impl,
}
use rust_state_machine.Macros.Call.Runs.{run_code}
use rust_state_machine.Macros.Call.Covers.{generated_call_lem}
use rust_state_machine.Macros.Entry.{
  RuntimeDef, check_first_field, check_system, named_fields, skip_first, parse_runtime,
  expand_runtime,
}
use rust_state_machine.Macros.Entry.Fields.{named, entry, parse_runtime_fields}
use package.rust_state_machine.Examples.{
  account_codec, content_codec, u32_codec, u128_codec, alice, bob,
}

abbrev same_path : RustType → RustType → Bool
same_path [] [] = true
same_path [] (y ∷ ys) = false
same_path (x ∷ xs) [] = false
same_path (x ∷ xs) (y ∷ ys) = same x y && same_path xs ys

abbrev balance_type : RustType
balance_type = codes "T" ∷ codes "Balance" ∷ []

abbrev transfer_def : CallVariantDef RustType
transfer_def = record {
  name = codes "transfer";
  args = (codes "to", account_id) ∷ (codes "amount", balance_type) ∷ [];
}

abbrev burn : CallVariantDef RustType
burn = record { name = codes "burn"; args = (codes "amount", balance_type) ∷ [] }

abbrev pallet_item : Item RustType
pallet_item = Item.impl (record {
  self_ty = codes "Pallet" ∷ [];
  items =
      ImplItem.method (record {
        ident = codes "transfer";
        inputs =
            FnArg.receiver
            ∷ argument (codes "caller") account_id
            ∷ argument (codes "to") account_id
            ∷ argument (codes "amount") balance_type
            ∷ [];
      })
      ∷ ImplItem.other
      ∷ ImplItem.method (record {
        ident = codes "burn";
        inputs =
            FnArg.receiver
            ∷ argument (codes "_caller") account_id
            ∷ argument (codes "amount") balance_type
            ∷ [];
      })
      ∷ [];
})

abbrev pallet_def : CallDef RustType
pallet_def = record { pallet_struct = codes "Pallet"; methods = transfer_def ∷ burn ∷ [] }

parse-pallet_item : parse_call tokens segments pallet_item ≡ some (ok pallet_def)
unfolding parse_call parse_methods parse_inputs parse_args check_caller_arg is_wrong_name
    parse_first_arg first_segment
parse-pallet_item = refl

parse_call_iff_example :
    (parse_call tokens segments pallet_item ≡ some (ok pallet_def))
    ↔ Accepts tokens segments pallet_item pallet_def
parse_call_iff_example = parse_call_iff tokens segments pallet_item pallet_def

abbrev runtime_def : RuntimeDef RustType
runtime_def = record {
  runtime_struct = codes "Runtime";
  pallets =
      (codes "balances", codes "balances" ∷ codes "Pallet" ∷ [])
      ∷ (codes "proof_of_existence", codes "proof_of_existence" ∷ codes "Pallet" ∷ [])
      ∷ [];
}

parse-runtime_struct : parse_runtime (Item.struct runtime_struct) ≡ ok runtime_def
unfolding parse_runtime check_system check_first_field named_fields skip_first
parse-runtime_struct = refl

parse_runtime_fields_example :
    let code = expand_runtime runtime_def in
    (first : Field RustType) × (rest : List (Field RustType)) × (runtime_struct.fields
      ≡ first ∷ rest)
    × (first.ident ≡ some code.system_field)
    × (map named code.new_fields ≡ map entry rest)
    × (map (λ v. some v.0) code.call_enum ≡ map (λ (f : Field RustType). f.ident) rest)
    × All (λ v. v.0 ≡ v.1) code.call_enum
    × (code.arms ≡ code.call_enum)
    × (code.runtime_struct ≡ runtime_struct.ident)
parse_runtime_fields_example =
    parse_runtime_fields runtime_struct ((λ h. cc), ((λ h. cc), ((λ h. cc), tt)))
      parse-runtime_struct

-- A value of an account or of an amount, and whether it has a type.
abbrev has_type : AccountId32 ⊎ ℕ → RustType → Bool
has_type (inl a) ty = same_path ty account_id
has_type (inr n) ty = same_path ty balance_type

abbrev transfer_signature : Signature RustType
transfer_signature = record {
  ident = codes "transfer";
  inputs =
      FnArg.receiver
      ∷ argument (codes "caller") account_id
      ∷ argument (codes "to") account_id
      ∷ argument (codes "amount") balance_type
      ∷ [];
}

abbrev transfer_params : List (FnArg RustType)
transfer_params = argument (codes "to") account_id ∷ argument (codes "amount") balance_type ∷ []

abbrev balances_code : CallCode RustType
balances_code = expand_call (record { pallet_struct = codes "Pallet"; methods = transfer_def ∷ [] })

call-balances_impl :
    call tokens segments (Item.impl balances_impl)
    ≡ some (Item.impl balances_impl, ok balances_code)
unfolding call parse_call parse_methods parse_inputs parse_args check_caller_arg is_wrong_name
    parse_first_arg first_segment
call-balances_impl = refl

-- Alice pays Bob, by the code that is generated for src/balances.rs.
generated_call_lem_example :
    (Item.impl balances_impl ≡ Item.impl balances_impl)
    × (run_code has_type balances_code (codes "transfer") (inl alice) (inl bob ∷ inr 30 ∷ [])
        ≡ some (codes "transfer", inl alice ∷ inl bob ∷ inr 30 ∷ []))
generated_call_lem_example =
    generated_call_lem tokens segments has_type balances_impl (Item.impl balances_impl)
      balances_code transfer_signature [] []
      (record { pat = Pat.ident (codes "caller"); ty = account_id }) transfer_params
      transfer_def.args (inl alice) (inl bob ∷ inr 30 ∷ []) call-balances_impl refl tt refl
      ((refl, refl), ((refl, refl), tt)) ((refl, tt), (tt, tt)) (refl, (refl, tt))
      (refl, (refl, tt))

-- What is collected from src/proof_of_existence.rs.
parse-proof_of_existence_impl :
    parse_call tokens segments (Item.impl proof_of_existence_impl)
    ≡ some (
        ok (record {
          pallet_struct = codes "Pallet";
          methods =
              record {
                name = codes "create_claim";
                args = (codes "claim", codes "T" ∷ codes "Content" ∷ []) ∷ [];
              }
              ∷ record {
                name = codes "revoke_claim";
                args = (codes "claim", codes "T" ∷ codes "Content" ∷ []) ∷ [];
              }
              ∷ [];
        }))
unfolding parse_call parse_methods parse_inputs parse_args check_caller_arg is_wrong_name
    parse_first_arg first_segment
parse-proof_of_existence_impl = refl
