-- ===== src/Macros/Call/Runs.antt =====
-- What the code generated by `#[macros::call]` (macros/src/call/expand.rs) does when it runs: a value of
-- the enum, and the match over the variants with the names that its patterns bind.
use rust_state_machine.Macros.Call.Accepts.{All2}
use rust_state_machine.Shared.{
  Bool, true, ◌==◌, ◌>>=◌, ◌≡◌, Option, none, some, List, [], ◌∷◌, ◌++◌, length, if◌then◌else◌,
}
use rust_state_machine.Shared.Order.{bytes_ord, same}
use rust_state_machine.Macros.Syntax.{Ident}
use rust_state_machine.Macros.Call.{Variant, CallCode, Arm, caller_name}

module _ {V : Type 0} where
  -- The value of a name: of the innermost binding.
  abbrev pub lookup_name : List (Ident × V) → Ident → Option V
  lookup_name [] x = none
  lookup_name ((y, v) ∷ env) x = if same x y then some v else lookup_name env x

  abbrev pub push_value : Option V → Option (List V) → Option (List V)
  push_value (some v) (some vs) = some (v ∷ vs)
  push_value (some v) none = none
  push_value none vs = none

  abbrev pub lookup_all : List (Ident × V) → List Ident → Option (List V)
  lookup_all env [] = some []
  lookup_all env (x ∷ xs) = push_value (lookup_name env x) (lookup_all env xs)

  abbrev pub bind_fields : List Ident → List V → List (Ident × V)
  bind_fields [] vs = []
  bind_fields (x ∷ xs) [] = []
  bind_fields (x ∷ xs) (v ∷ vs) = (x, v) ∷ bind_fields xs vs

  -- An arm on a caller and a value of the enum, its fields by name: the arguments of the call. The
  -- pattern has no `..`, so it names as many fields as the value has. The fields that it binds shadow the
  -- parameter `caller`.
  unfoldable pub run_arm : Arm → V → List (Ident × V) → Option (Ident × List V)
  run_arm arm caller fields =
      if length fields == length arm.fields
      then (do
        values ← lookup_all fields arm.fields
        arguments ←
            lookup_all (bind_fields arm.fields values ++ ((caller_name, caller) ∷ [])) arm.arguments
        some (arm.method, arguments))
      else none

  -- `match call { … }`: the first arm of the variant.
  unfoldable pub run_match : List Arm → Ident → V → List (Ident × V) → Option (Ident × List V)
  run_match [] variant caller fields = none
  run_match (arm ∷ arms) variant caller fields =
      if same arm.variant variant
      then run_arm arm caller fields
      else run_match arms variant caller fields

module _ {Ty V : Type 0} (has_type : V → Ty → Bool) where
  -- The fields of a variant with a value for each, if it has the field's type.
  unfoldable pub fill : List (Ident × Ty) → List V → Option (List (Ident × V))
  fill [] [] = some []
  fill [] (v ∷ vs) = none
  fill ((x, ty) ∷ fields) [] = none
  fill ((x, ty) ∷ fields) (v ∷ vs) =
      let rest = fill fields vs in if has_type v ty then (rest >>= λ r. some ((x, v) ∷ r)) else none

  -- A value of the enum: the first variant of the name, filled in. `none` is code that does not compile.
  unfoldable pub construct : List (Variant Ty) → Ident → List V → Option (List (Ident × V))
  construct [] name values = none
  construct (v ∷ variants) name values =
      if same v.name name then fill v.fields values else construct variants name values

  -- A call of the generated enum, handed to the generated dispatch.
  unfoldable pub run_code : CallCode Ty → Ident → V → List V → Option (Ident × List V)
  run_code code name caller values =
      construct code.call_enum name values >>= λ fields. run_match code.arms name caller fields

  -- Values of the types of parameters.
  abbrev pub Fit : List V → List (Ident × Ty) → Type 0
  Fit = All2 (λ v (a : Ident × Ty). has_type v a.1 ≡ true)
