-- ===== src/Macros/Call/Covers.antt =====
-- The code generated by `#[macros::call]` (macros/src/call/expand.rs) covers the functions of the `impl`.
use rust_state_machine.Macros.Call.Accepts.{All2, IsArg, IsCallable, functions, parse_call_iff}
use rust_state_machine.Shared.{
  Bool, true, sym, ap, ap₂, ok, err, Option-cases, inl, inr, ◌∙◌, map, ◌==◌, ◌≡◌, refl, false,
  arith, Option, some, List, [], ◌∷◌, ◌++◌, length, All,
}
use rust_state_machine.Shared.Order.{bytes_ord, same, same_iff}
use rust_state_machine.Macros.Syntax.{Ident, Item, ItemImpl, Signature, PatType, FnArg, Token}
use mathlib.Core.List.{append-nil}
use rust_state_machine.Macros.Call.{
  CallCode, CallDef, parse_call, call, expand_variant, CallVariantDef, caller_name, args_name,
  expand_arm, expand_call,
}
use rust_state_machine.Macros.Call.Runs.{
  lookup_name, lookup_all, bind_fields, run_arm, run_match, fill, construct, run_code, Fit,
}

-- No name stands twice.
abbrev pub IsDistinctNames : List Ident → Type 0
IsDistinctNames [] = Unit
IsDistinctNames (x ∷ xs) = All (λ y. same y x ≡ false) xs × IsDistinctNames xs

module _ {V : Type 0} where
  lookup_all-skip :
      (x : Ident) (v : V) (env : List (Ident × V)) (ys : List Ident)
      → All (λ y. same y x ≡ false) ys
      → lookup_all ((x, v) ∷ env) ys ≡ lookup_all env ys
  lookup_all-skip x v env [] h = refl
  lookup_all-skip x v env (y ∷ ys) h = rw (h.0, lookup_all-skip x v env ys h.1) refl

  lookup_name-skip :
      (xs : List Ident) (vs : List V) (env : List (Ident × V)) (y : Ident)
      → All (λ x. same y x ≡ false) xs
      → lookup_name (bind_fields xs vs ++ env) y ≡ lookup_name env y
  lookup_name-skip [] vs env y h = refl
  lookup_name-skip (x ∷ xs) [] env y h = refl
  lookup_name-skip (x ∷ xs) (v ∷ vs) env y h = rw (h.0) (lookup_name-skip xs vs env y h.1)

module _ {V : Type 0} where
  lookup_all-bind_fields :
      (xs : List Ident) (vs : List V) (env : List (Ident × V))
      → IsDistinctNames xs
      → length vs ≡ length xs
      → lookup_all (bind_fields xs vs ++ env) xs ≡ some vs
  lookup_all-bind_fields [] [] env d h = refl
  lookup_all-bind_fields [] (v ∷ vs) env d h = absurd (omega arith)
  lookup_all-bind_fields (x ∷ xs) [] env d h = absurd (omega arith)
  lookup_all-bind_fields (x ∷ xs) (v ∷ vs) env d h =
      rw
        (
          (same_iff x x).1 refl,
          lookup_all-skip x v (bind_fields xs vs ++ env) xs d.0,
          lookup_all-bind_fields xs vs env d.1 (omega arith),
        )
        refl

module _ {Ty V : Type 0} (has_type : V → Ty → Bool) where
  fill_fits :
      (args : List (Ident × Ty)) (values : List V)
      → Fit has_type values args
      → (fill has_type args values ≡ some (bind_fields (map (λ (a : Ident × Ty). a.0) args) values))
        × (length values ≡ length (map (λ (a : Ident × Ty). a.0) args))
  unfolding fill
  fill_fits [] [] h = (refl, refl)
  fill_fits [] (v ∷ vs) h = absurd h
  fill_fits (a ∷ args) [] h = absurd h
  fill_fits (a ∷ args) (v ∷ vs) (typed, h) =
      let (filled, many) = fill_fits args vs h in (rw (filled, typed) refl, omega (arith, many))

  length-bind_fields :
      (xs : List Ident) (vs : List V)
      → length vs ≡ length xs
      → length (bind_fields xs vs) ≡ length xs
  length-bind_fields [] [] h = refl
  length-bind_fields [] (v ∷ vs) h = absurd (omega arith)
  length-bind_fields (x ∷ xs) [] h = absurd (omega arith)
  length-bind_fields (x ∷ xs) (v ∷ vs) h =
      omega (arith, length-bind_fields xs vs (omega (arith, h)))

  run_arm-expand_arm :
      (m : CallVariantDef Ty) (caller : V) (values : List V)
      → IsDistinctNames (args_name m)
      → All (λ x. same caller_name x ≡ false) (args_name m)
      → length values ≡ length (args_name m)
      → run_arm (expand_arm m) caller (bind_fields (args_name m) values)
        ≡ some (m.name, caller ∷ values)
  unfolding run_arm expand_arm
  run_arm-expand_arm m caller values distinct free fit =
      let all_named : (length (bind_fields (args_name m) values) == length (args_name m)) ≡ true =
        ground (arith, length-bind_fields (args_name m) values fit) in
      let bound : lookup_all (bind_fields (args_name m) values) (args_name m) ≡ some values =
        ap (λ env. lookup_all env (args_name m)) (sym (append-nil _))
        ∙ lookup_all-bind_fields (args_name m) values [] distinct fit in
      rw
        (
          all_named,
          bound,
          lookup_name-skip (args_name m) values ((caller_name, caller) ∷ []) caller_name free,
          lookup_all-bind_fields (args_name m) values ((caller_name, caller) ∷ []) distinct fit,
        )
        refl

  construct-expand_call :
      (front back : List (CallVariantDef Ty)) (m : CallVariantDef Ty) (values : List V)
      → All (λ n. same n.name m.name ≡ false) front
      → construct has_type (map expand_variant (front ++ (m ∷ back))) m.name values
        ≡ fill has_type m.args values
  unfolding construct expand_variant
  construct-expand_call [] back m values first = rw ((same_iff m.name m.name).1 refl) refl
  construct-expand_call (n ∷ front) back m values first =
      rw first.0 (construct-expand_call front back m values first.1)

  run_match-expand_call :
      (front back : List (CallVariantDef Ty)) (m : CallVariantDef Ty) (caller : V)
      (fields : List (Ident × V))
      → All (λ n. same n.name m.name ≡ false) front
      → run_match (map expand_arm (front ++ (m ∷ back))) m.name caller fields
        ≡ run_arm (expand_arm m) caller fields
  unfolding run_match expand_arm
  run_match-expand_call [] back m caller fields first = rw ((same_iff m.name m.name).1 refl) refl
  run_match-expand_call (n ∷ front) back m caller fields first =
      rw first.0 (run_match-expand_call front back m caller fields first.1)

  run_code-expand_call :
      (def : CallDef Ty) (front back : List (CallVariantDef Ty)) (m : CallVariantDef Ty)
      (caller : V) (values : List V)
      → def.methods ≡ front ++ (m ∷ back)
      → All (λ n. same n.name m.name ≡ false) front
      → IsDistinctNames (args_name m)
      → All (λ x. same caller_name x ≡ false) (args_name m)
      → Fit has_type values m.args
      → run_code has_type (expand_call def) m.name caller values ≡ some (m.name, caller ∷ values)
  unfolding run_code expand_call args_name
  run_code-expand_call def front back m caller values e first distinct free fit =
      let (filled, many) = fill_fits m.args values fit in
      rw
        (
          e,
          construct-expand_call front back m values first,
          filled,
          run_match-expand_call front back m caller (bind_fields (args_name m) values) first,
        )
        (run_arm-expand_arm m caller values distinct free many)

unique_args :
    {Ty : Type 0} (inputs : List (FnArg Ty)) (xs ys : List (Ident × Ty))
    → All2 IsArg inputs xs
    → All2 IsArg inputs ys
    → xs ≡ ys
unique_args [] [] [] h g = refl
unique_args [] [] (y ∷ ys) h g = absurd g
unique_args [] (x ∷ xs) ys h g = absurd h
unique_args (i ∷ inputs) [] ys h g = absurd h
unique_args (i ∷ inputs) (x ∷ xs) [] h g = absurd g
unique_args (FnArg.receiver ∷ inputs) (x ∷ xs) (y ∷ ys) h g = absurd (h.0)
unique_args (FnArg.typed p ∷ inputs) (x ∷ xs) (y ∷ ys) h g =
    let rest = unique_args inputs xs ys h.1 g.1 in
    let name : x.0 ≡ y.0 = cc (h.0.0, g.0.0) in
    let type : x.1 ≡ y.1 = sym (h.0.1) ∙ g.0.1 in
    ap₂ (λ z zs. z ∷ zs) (ap₂ (λ a b. (a, b)) name type) rest

-- The place of a function among the methods that were collected.
methods-split :
    {Ty : Type 0} (tokens : Ty → List Token) (front back : List (Signature Ty)) (sig : Signature Ty)
    (ms : List (CallVariantDef Ty))
    → All2 (IsCallable tokens) (front ++ (sig ∷ back)) ms
    → All (λ n. same n.ident sig.ident ≡ false) front
    → (front' back' : List (CallVariantDef Ty)) × (m : CallVariantDef Ty) × (ms
        ≡ front' ++ (m ∷ back'))
      × All (λ n. same n.name sig.ident ≡ false) front'
      × IsCallable tokens sig m
methods-split tokens [] back sig [] h first = absurd h
methods-split tokens [] back sig (m ∷ ms) h first = ([], ms, m, refl, tt, h.0)
methods-split tokens (n ∷ front) back sig [] h first = absurd h
methods-split tokens (n ∷ front) back sig (m ∷ ms) h first =
    let (front', back', m', e, others, its) = methods-split tokens front back sig ms h.1 first.1 in
    let name : m.name ≡ n.ident = let (c, inputs, e₁, e₂, e₃, e₄, e₅) = h.0 in e₅ in
    (
      m ∷ front',
      back',
      m',
      ap (λ zs. m ∷ zs) e,
      (ap (λ x. same x sig.ident) name ∙ first.0, others),
      its,
    )

module _ {Ty V : Type 0} (tokens : Ty → List Token) (segments : Ty → Option (List Ident))
    (has_type : V → Ty → Bool) where
  call-eq-ok :
      (i : ItemImpl Ty) {item : Item Ty} {code : CallCode Ty}
      → call tokens segments (Item.impl i) ≡ some (item, ok code)
      → (def : CallDef Ty) × (parse_call tokens segments (Item.impl i) ≡ some (ok def))
        × (item ≡ Item.impl i)
        × (code ≡ expand_call def)
  unfolding call
  call-eq-ok i h = elim (Option-cases (parse_call tokens segments (Item.impl i))) [
    | inl e ↦ absurd (cc (rw (call, e) at h))
    | inr (ok def, e) ↦ let last = rw (call, e) at h in (def, e, cc last, cc last)
    | inr (err x, e) ↦ absurd (cc (rw (call, e) at h))
  ]

  -- If the macro takes an `impl` block, then the value of the generated enum that is named after a
  -- function of the block, with values of the types of its parameters behind the caller, can be built
  -- and is handed by the generated dispatch to that function, the caller first and then the values, in
  -- the order of the parameters. No earlier function has the same name, and the parameters behind the
  -- caller have different names, none of them `caller`.
  pub generated_call_lem :
      (i : ItemImpl Ty) (item : Item Ty) (code : CallCode Ty) (sig : Signature Ty)
      (front back : List (Signature Ty)) (caller_param : PatType Ty) (params : List (FnArg Ty))
      (args : List (Ident × Ty)) (caller : V) (values : List V)
      → call tokens segments (Item.impl i) ≡ some (item, ok code)
      → functions i.items ≡ front ++ (sig ∷ back)
      → All (λ n. same n.ident sig.ident ≡ false) front
      → sig.inputs ≡ FnArg.receiver ∷ FnArg.typed caller_param ∷ params
      → All2 IsArg params args
      → IsDistinctNames (map (λ (a : Ident × Ty). a.0) args)
      → All (λ x. same caller_name x ≡ false) (map (λ (a : Ident × Ty). a.0) args)
      → Fit has_type values args
      → (item ≡ Item.impl i)
        × (run_code has_type code sig.ident caller values ≡ some (sig.ident, caller ∷ values))
  generated_call_lem i item code sig front back caller_param params args caller values h at first e
        named distinct free fit =
      let (def, parsed, same_item, its_code) = call-eq-ok i h in
      let (path, own, callable) = (parse_call_iff tokens segments (Item.impl i) def).0 parsed in
      let (front', back', m, e', others, (c, inputs, e₁, is_pat, is_type, params', name)) =
        methods-split tokens front back sig def.methods (rw at at callable) first in
      let same_params : inputs ≡ params = cc (e, e₁) in
      let same_args : args ≡ m.args =
        unique_args params args m.args named (rw same_params at params') in
      (
        same_item,
        rw (its_code, ← name)
            (run_code-expand_call has_type def front' back' m caller values e'
              (rw (← name) at others) (unfold args_name in rw (same_args) at distinct)
              (unfold args_name in rw (same_args) at free) (rw same_args at fit)),
      )
