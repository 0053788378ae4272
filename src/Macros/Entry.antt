-- ===== src/Macros/Entry.antt =====
-- `#[macros::runtime]`: macros/src/runtime/parse.rs, macros/src/runtime/expand.rs and
-- macros/src/runtime/mod.rs.
pub mod Fields
use rust_state_machine.Shared.{
  ℕ, Bool, Option, none, some, List, [], ◌∷◌, map, Result, ok, err, if◌then◌else◌,
}
use rust_state_machine.Shared.Order.{Bytes, bytes_ord, same}
use rust_state_machine.Storage.{codes}
use rust_state_machine.Macros.Syntax.{Ident, Field, ItemStruct, Item, MacroError}

pub record RuntimeDef (Ty : Type 0) : Type 0 where
  pub runtime_struct : Ident
  pub pallets : List (Ident × Ty)

abbrev pub system_name : Ident
system_name = codes "system"

module _ {Ty : Type 0} where
  unfoldable pub check_first_field : List (Field Ty) → Result (Unit {0}) MacroError
  check_first_field [] = err MacroError.no_fields
  check_first_field (field ∷ fields) = elim (field.ident) [
    | none ↦ err MacroError.first_field_unnamed
    | some name ↦ if same name system_name then ok tt else err MacroError.first_field_not_system
  ]

  unfoldable pub check_system : ItemStruct Ty → Result (Unit {0}) MacroError
  unfolding check_first_field
  check_system item_struct = check_first_field item_struct.fields

  -- The loop that collects the fields with a name.
  unfoldable pub named_fields : List (Field Ty) → List (Ident × Ty)
  named_fields [] = []
  named_fields (field ∷ fields) = elim (field.ident) [
    | none ↦ named_fields fields
    | some name ↦ (name, field.ty) ∷ named_fields fields
  ]

  -- `skip(1)`
  unfoldable pub skip_first : List (Field Ty) → List (Field Ty)
  skip_first [] = []
  skip_first (field ∷ fields) = fields

  unfoldable pub parse_runtime : Item Ty → Result (RuntimeDef Ty) MacroError
  parse_runtime (Item.struct s) = elim (check_system s) [
    | err e ↦ err e
    | ok _ ↦ ok (record { runtime_struct = s.ident; pallets = named_fields (skip_first s.fields) })
  ]
  parse_runtime _ = err MacroError.expected_item_struct

-- What the `quote!` blocks fill in: the variants of `RuntimeCall`, each with the module whose `Call` it
-- holds; the arms of `dispatch`, each with the field whose `dispatch` it calls; and the fields that
-- `new` sets, the first by `system::Pallet::new`, each other one by `new` of its type.
pub record RuntimeCode (Ty : Type 0) : Type 0 where
  pub runtime_struct : Ident
  pub call_enum : List (Ident × Ident)
  pub arms : List (Ident × Ident)
  pub system_field : Ident
  pub new_fields : List (Ident × Ty)

module _ {Ty : Type 0} where
  unfoldable pub expand_runtime : RuntimeDef Ty → RuntimeCode Ty
  expand_runtime def =
      let pallet_names = map (λ (p : Ident × Ty). p.0) def.pallets in
      record {
        runtime_struct = def.runtime_struct;
        call_enum = map (λ name. (name, name)) pallet_names;
        arms = map (λ name. (name, name)) pallet_names;
        system_field = system_name;
        new_fields = def.pallets;
      }

  unfoldable pub runtime : Item Ty → Item Ty × Result (RuntimeCode Ty) MacroError
  runtime item = elim (parse_runtime item) [
    | ok def ↦ (item, ok (expand_runtime def))
    | err e ↦ (item, err e)
  ]
