-- ===== src/Macros/Syntax.antt =====
-- The parts of syn's trees that macros/src reads, the errors that it reports, and the steps of its
-- parsers. The types of Rust (`syn::Type`) are a parameter `Ty`.
use rust_state_machine.Shared.{Option, none, some, List, Result, ok, err}
use rust_state_machine.Shared.Order.{Bytes}

-- An identifier is its text.
abbrev pub Ident : Type 0
Ident = Bytes

pub data Pat : Type 0 where
  ident : Ident → Pat
  other : Pat

pub record PatType (Ty : Type 0) : Type 0 where
  pub pat : Pat
  pub ty : Ty

pub data FnArg (Ty : Type 0) : Type 0 where
  receiver : FnArg Ty
  typed : PatType Ty → FnArg Ty

pub record Signature (Ty : Type 0) : Type 0 where
  pub ident : Ident
  pub inputs : List (FnArg Ty)

pub data ImplItem (Ty : Type 0) : Type 0 where
  method : Signature Ty → ImplItem Ty
  other : ImplItem Ty

pub record ItemImpl (Ty : Type 0) : Type 0 where
  pub self_ty : Ty
  pub items : List (ImplItem Ty)

pub record Field (Ty : Type 0) : Type 0 where
  pub ident : Option Ident
  pub ty : Ty

pub record ItemStruct (Ty : Type 0) : Type 0 where
  pub ident : Ident
  pub fields : List (Field Ty)

pub data Item (Ty : Type 0) : Type 0 where
  impl : ItemImpl Ty → Item Ty
  struct : ItemStruct Ty → Item Ty
  other : Item Ty

-- The tokens that `check_caller_arg` parses, and any other.
pub data Token : Type 0 where
  ident : Ident → Token
  path_sep : Token
  other : Token

pub data MacroError : Type 0 where
  expected_item_impl : MacroError
  first_argument_not_self : MacroError
  second_argument_not_caller : MacroError
  argument_not_ident : MacroError
  invalid_caller_name : MacroError
  invalid_caller_type : MacroError
  expected_item_struct : MacroError
  first_field_unnamed : MacroError
  no_fields : MacroError
  first_field_not_system : MacroError

-- What a parser comes to: a panic, or the result of `syn::Result`.
abbrev pub Parsed : Type 0 → Type 0
Parsed A = Option (Result A MacroError)

infixl 5 ◌>>=◌
abbrev pub ◌>>=◌ : {A B : Type 0} → Parsed A → (A → Parsed B) → Parsed B
none >>= f = none
some (err e) >>= f = some (err e)
some (ok a) >>= f = f a
