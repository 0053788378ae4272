-- ===== src/Macros/Entry/Fields.antt =====
-- The fields of the runtime struct and the code that `#[macros::runtime]` generates from them
-- (macros/src/runtime/parse.rs and macros/src/runtime/expand.rs).
use rust_state_machine.Shared.{
  ◌≡◌, ◌≢◌, refl, arith, Option, none, some, List, [], ◌∷◌, map, All, Option-cases, Bool-cases, inl,
  inr, ok,
}
use rust_state_machine.Shared.Order.{bytes_ord, same, same_iff}
use rust_state_machine.Macros.Syntax.{Ident, Field, ItemStruct, Item}
use rust_state_machine.Macros.Entry.{
  RuntimeDef, system_name, check_system, named_fields, skip_first, parse_runtime, expand_runtime,
}

abbrev pub IsNamed : {Ty : Type 0} → Field Ty → Type 0
IsNamed field = field.ident ≢ none

-- A field with the name that it has, and its type.
abbrev pub named : {Ty : Type 0} → Ident × Ty → Option Ident × Ty
named (name, ty) = (some name, ty)

abbrev pub entry : {Ty : Type 0} → Field Ty → Option Ident × Ty
entry field = (field.ident, field.ty)

All-names :
    (names : List Ident) → All (λ (v : Ident × Ident). v.0 ≡ v.1) (map (λ name. (name, name)) names)
All-names [] = tt
All-names (x ∷ names) = (refl, All-names names)

module _ {Ty : Type 0} where
  map-named_fields :
      (fields : List (Field Ty))
      → All IsNamed fields
      → map named (named_fields fields) ≡ map entry fields
  unfolding named_fields
  map-named_fields [] h = refl
  map-named_fields (field ∷ fields) h = elim (Option-cases field.ident) [
    | inl no_name ↦ absurd (h.0 no_name)
    | inr (name, e) ↦ ground (arith, e, map-named_fields fields h.1)
  ]

  map-names :
      (fields : List (Field Ty))
      → All IsNamed fields
      → map
          (λ (p : Ident × Ident). some p.0)
          (map (λ name. (name, name)) (map (λ (p : Ident × Ty). p.0) (named_fields fields)))
        ≡ map (λ (f : Field Ty). f.ident) fields
  unfolding named_fields
  map-names [] h = refl
  map-names (field ∷ fields) h = elim (Option-cases field.ident) [
    | inl no_name ↦ absurd (h.0 no_name)
    | inr (name, e) ↦ ground (arith, e, map-names fields h.1)
  ]

  parse_runtime-ok :
      (ident : Ident) (fields : List (Field Ty)) {def : RuntimeDef Ty}
      → parse_runtime (Item.struct (record { ident = ident; fields = fields })) ≡ ok def
      → (first : Field Ty) × (rest : List (Field Ty)) × (fields ≡ first ∷ rest)
        × (first.ident ≡ some system_name)
        × (def ≡ record { runtime_struct = ident; pallets = named_fields rest })
  unfolding parse_runtime check_system skip_first
  parse_runtime-ok ident [] h = cc
  parse_runtime-ok ident (first ∷ rest) h = elim (Option-cases first.ident) [
    | inl no_name ↦ absurd (ground arith)
    | inr (name, e) ↦ elim (Bool-cases (same name system_name)) [
      | inl is_system ↦ (first, rest, refl, ground (arith, same_iff name system_name), ground arith)
      | inr other ↦ absurd (ground arith)
    ]
  ]

  -- If the fields of the struct are named, and the macro takes it, then `system` is its first field,
  -- `new` sets each field once, in order and by its own type, and the variants of `RuntimeCall` and the
  -- arms of `dispatch` are the other fields, each variant with the calls of the module of its own name
  -- and each arm with the field of that name.
  pub parse_runtime_fields :
      (s : ItemStruct Ty) {def : RuntimeDef Ty}
      → All IsNamed s.fields
      → parse_runtime (Item.struct s) ≡ ok def
      → let code = expand_runtime def in
        (first : Field Ty) × (rest : List (Field Ty)) × (s.fields ≡ first ∷ rest)
        × (first.ident ≡ some code.system_field)
        × (map named code.new_fields ≡ map entry rest)
        × (map (λ v. some v.0) code.call_enum ≡ map (λ (f : Field Ty). f.ident) rest)
        × All (λ v. v.0 ≡ v.1) code.call_enum
        × (code.arms ≡ code.call_enum)
        × (code.runtime_struct ≡ s.ident)
  parse_runtime_fields s {def} all h =
      let (first, rest, e, sys, made) = parse_runtime-ok s.ident s.fields h in
      let kept : All IsNamed rest = (rw e at all).1 in
      rw made (
        unfold expand_runtime in
        (
          first,
          rest,
          e,
          sys,
          map-named_fields rest kept,
          map-names rest kept,
          All-names (map (λ (p : Ident × Ty). p.0) (named_fields rest)),
          refl,
          refl,
        ))
