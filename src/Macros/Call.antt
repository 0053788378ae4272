-- ===== src/Macros/Call.antt =====
-- `#[macros::call]`: macros/src/call/parse.rs, macros/src/call/expand.rs and macros/src/call/mod.rs.
pub mod Accepts
pub mod Runs
pub mod Covers
use Prim.Native.String.{String}
use rust_state_machine.Shared.{
  ℕ, Bool, true, false, not, ◌&&◌, Option, none, some, List, [], ◌∷◌, map, Result, ok, err,
  if◌then◌else◌,
}
use rust_state_machine.Shared.Order.{Bytes, bytes_ord, same}
use rust_state_machine.Storage.{codes}
use rust_state_machine.Macros.Syntax.{
  Ident, Pat, PatType, FnArg, Signature, ImplItem, ItemImpl, Item, Token, MacroError, Parsed, ◌>>=◌,
}

pub record CallVariantDef (Ty : Type 0) : Type 0 where
  pub name : Ident
  pub args : List (Ident × Ty)

pub record CallDef (Ty : Type 0) : Type 0 where
  pub pallet_struct : Ident
  pub methods : List (CallVariantDef Ty)

-- `CheckDispatchableFirstArg`: exactly `T::AccountId`, with nothing behind it.
unfoldable pub parse_first_arg : List Token → Bool
parse_first_arg (Token.ident t ∷ Token.path_sep ∷ Token.ident a ∷ []) =
    same t (codes "T") && same a (codes "AccountId")
parse_first_arg _ = false

-- A pattern that is no identifier is not looked at.
unfoldable pub is_wrong_name : Pat → Bool
is_wrong_name (Pat.ident x) = not (same x (codes "caller")) && not (same x (codes "_caller"))
is_wrong_name Pat.other = false

-- `tokens` is `to_token_stream`; `segments` are the identifiers of a `Type::Path`, if it is one.
module _ {Ty : Type 0} (tokens : Ty → List Token) where
  unfoldable pub check_caller_arg : PatType Ty → Parsed (Unit {0})
  check_caller_arg arg =
      if is_wrong_name arg.pat
      then some (err MacroError.invalid_caller_name)
      else if parse_first_arg (tokens arg.ty)
      then some (ok tt)
      else some (err MacroError.invalid_caller_type)

-- The loop over the arguments behind `self` and `caller`; a receiver there is `unreachable!`.
unfoldable pub parse_args : {Ty : Type 0} → List (FnArg Ty) → Parsed (List (Ident × Ty))
parse_args [] = some (ok [])
parse_args (FnArg.receiver ∷ inputs) = none
parse_args (FnArg.typed arg ∷ inputs) =
    let rest = parse_args inputs in
    elim (arg.pat) [
      | Pat.ident x ↦ rest >>= (λ args. some (ok ((x, arg.ty) ∷ args)))
      | Pat.other ↦ some (err MacroError.argument_not_ident)
    ]

module _ {Ty : Type 0} (tokens : Ty → List Token) where
  unfoldable pub parse_inputs : Ident → List (FnArg Ty) → Parsed (CallVariantDef Ty)
  parse_inputs name (FnArg.receiver ∷ FnArg.typed caller ∷ inputs) = do
    _ ← check_caller_arg tokens caller
    args ← parse_args inputs
    some (ok (record { name = name; args = args }))
  parse_inputs name (FnArg.receiver ∷ _) = some (err MacroError.second_argument_not_caller)
  parse_inputs name _ = some (err MacroError.first_argument_not_self)

  -- The loop over the items of the `impl`: only functions are looked at.
  unfoldable pub parse_methods : List (ImplItem Ty) → Parsed (List (CallVariantDef Ty))
  parse_methods [] = some (ok [])
  parse_methods (ImplItem.other ∷ items) = parse_methods items
  parse_methods (ImplItem.method sig ∷ items) =
      let rest = parse_methods items in
      parse_inputs sig.ident sig.inputs >>= (λ m. rest >>= (λ ms. some (ok (m ∷ ms))))

-- `tp.path.segments.first().unwrap()`, or the panic for another type.
unfoldable pub first_segment : Option (List Ident) → Parsed Ident
first_segment none = none
first_segment (some []) = none
first_segment (some (x ∷ _)) = some (ok x)

module _ {Ty : Type 0} (tokens : Ty → List Token) (segments : Ty → Option (List Ident)) where
  unfoldable pub parse_call : Item Ty → Parsed (CallDef Ty)
  parse_call (Item.impl i) = do
    pallet_struct ← first_segment (segments i.self_ty)
    methods ← parse_methods tokens i.items
    some (ok (record { pallet_struct = pallet_struct; methods = methods }))
  parse_call _ = some (err MacroError.expected_item_impl)

-- A variant of the generated `enum Call`.
pub record Variant (Ty : Type 0) : Type 0 where
  pub name : Ident
  pub fields : List (Ident × Ty)

-- An arm of the generated `match call`: its pattern, and the method called with its arguments.
pub record Arm : Type 0 where
  pub variant : Ident
  pub fields : List Ident
  pub method : Ident
  pub arguments : List Ident

pub record CallCode (Ty : Type 0) : Type 0 where
  pub call_enum : List (Variant Ty)
  pub pallet_struct : Ident
  pub arms : List Arm

abbrev pub caller_name : Ident
caller_name = codes "caller"

module _ {Ty : Type 0} where
  unfoldable pub args_name : CallVariantDef Ty → List Ident
  args_name m = map (λ (a : Ident × Ty). a.0) m.args

  unfoldable pub expand_variant : CallVariantDef Ty → Variant Ty
  expand_variant m = record { name = m.name; fields = m.args }

  unfoldable pub expand_arm : CallVariantDef Ty → Arm
  expand_arm m = record {
    variant = m.name;
    fields = args_name m;
    method = m.name;
    arguments = caller_name ∷ args_name m;
  }

  unfoldable pub expand_call : CallDef Ty → CallCode Ty
  expand_call def = record {
    call_enum = map expand_variant def.methods;
    pallet_struct = def.pallet_struct;
    arms = map expand_arm def.methods;
  }

-- The attribute: the item stays, and behind it stands the generated code or the error.
unfoldable pub call :
    {Ty : Type 0}
    → (Ty → List Token)
    → (Ty → Option (List Ident))
    → Item Ty
    → Option (Item Ty × Result (CallCode Ty) MacroError)
call tokens segments item = elim (parse_call tokens segments item) [
  | none ↦ none
  | some (ok def) ↦ some (item, ok (expand_call def))
  | some (err e) ↦ some (item, err e)
]
