-- ===== src/Macros/Call/Accepts.antt =====
-- Which items `#[macros::call]` takes, without its loops: what each function of the `impl` looks like.
-- Whether a function is `pub` is not looked at.
use rust_state_machine.Shared.{
  ◌≡◌, ◌↔◌, ◌⊎◌, inl, inr, refl, true, false, arith, Bool-cases, Option, none, some, List, [], ◌∷◌,
  ok, err,
}
use rust_state_machine.Shared.Order.{bytes_ord, same, same_iff}
use rust_state_machine.Storage.{codes}
use rust_state_machine.Macros.Syntax.{
  Ident, Pat, PatType, FnArg, Signature, ImplItem, Item, Token, Parsed, ◌>>=◌,
}
use rust_state_machine.Macros.Call.{
  CallVariantDef, CallDef, parse_first_arg, is_wrong_name, check_caller_arg, parse_args,
  parse_inputs, parse_methods, first_segment, parse_call,
}

-- Two lists of one length, related place by place.
abbrev pub All2 : {A B : Type 0} → (A → B → Type 0) → List A → List B → Type 0
All2 R [] [] = Unit
All2 R [] (y ∷ ys) = ⊥
All2 R (x ∷ xs) [] = ⊥
All2 R (x ∷ xs) (y ∷ ys) = R x y × All2 R xs ys

abbrev pub account_tokens : List Token
account_tokens = Token.ident (codes "T") ∷ Token.path_sep ∷ Token.ident (codes "AccountId") ∷ []

abbrev pub IsCallerPat : Pat → Type 0
IsCallerPat (Pat.ident x) = (x ≡ codes "caller") ⊎ (x ≡ codes "_caller")
IsCallerPat Pat.other = Unit

abbrev pub IsArg : {Ty : Type 0} → FnArg Ty → Ident × Ty → Type 0
IsArg FnArg.receiver a = ⊥
IsArg (FnArg.typed p) a = (p.pat ≡ Pat.ident a.0) × (p.ty ≡ a.1)

abbrev pub functions : {Ty : Type 0} → List (ImplItem Ty) → List (Signature Ty)
functions [] = []
functions (ImplItem.other ∷ items) = functions items
functions (ImplItem.method sig ∷ items) = sig ∷ functions items

module _ {Ty : Type 0} (tokens : Ty → List Token) where
  -- `fn name(self, caller: T::AccountId, args)`, with `caller` also spelled `_caller` or a pattern
  -- that is no identifier.
  abbrev pub IsCallable : Signature Ty → CallVariantDef Ty → Type 0
  IsCallable sig m =
      (caller : PatType Ty) × (inputs : List (FnArg Ty)) × (sig.inputs
        ≡ FnArg.receiver ∷ FnArg.typed caller ∷ inputs)
      × IsCallerPat caller.pat
      × (tokens caller.ty ≡ account_tokens)
      × All2 IsArg inputs m.args
      × (m.name ≡ sig.ident)

module _ {Ty : Type 0} (tokens : Ty → List Token) (segments : Ty → Option (List Ident)) where
  abbrev pub Accepts : Item Ty → CallDef Ty → Type 0
  Accepts (Item.impl i) def =
      (path : List Ident) × (segments i.self_ty ≡ some (def.pallet_struct ∷ path))
      × All2 (IsCallable tokens) (functions i.items) def.methods
  Accepts (Item.struct s) def = ⊥
  Accepts Item.other def = ⊥

>>=-eq-ok :
    {A B : Type 0} (m : Parsed A) (f : A → Parsed B) {b : B}
    → (m >>= f) ≡ some (ok b)
    → (a : A) × (m ≡ some (ok a)) × (f a ≡ some (ok b))
>>=-eq-ok none f h = cc
>>=-eq-ok (some (err e)) f h = cc
>>=-eq-ok (some (ok a)) f h = (a, refl, h)

parse_first_arg_sound : (ts : List Token) → parse_first_arg ts ≡ true → ts ≡ account_tokens
unfolding parse_first_arg
parse_first_arg_sound (Token.ident t ∷ Token.path_sep ∷ Token.ident a ∷ []) h =
    ground (arith, same_iff t (codes "T"), same_iff a (codes "AccountId"))
parse_first_arg_sound _ h = cc

parse_first_arg_iff : (ts : List Token) → (parse_first_arg ts ≡ true) ↔ (ts ≡ account_tokens)
parse_first_arg_iff ts = (parse_first_arg_sound ts, λ e. rw e (unfold parse_first_arg in refl))

is_wrong_name_iff : (p : Pat) → (is_wrong_name p ≡ false) ↔ IsCallerPat p
unfolding is_wrong_name
is_wrong_name_iff (Pat.ident x) = (
  λ h. elim (Bool-cases (same x (codes "caller"))) [
    | inl y ↦ inl ((same_iff x (codes "caller")).0 y)
    | inr n ↦ inr (ground (arith, h, n, same_iff x (codes "_caller")))
  ],
  λ h. elim h [ inl e ↦ rw e refl | inr e ↦ rw e refl ],
)
is_wrong_name_iff Pat.other = (λ h. tt, λ h. refl)

-- An argument by its pattern.
parse_args-typed :
    {Ty : Type 0} (pat : Pat) (ty : Ty) (inputs : List (FnArg Ty)) (args : List (Ident × Ty))
    → ((rest : List (Ident × Ty)) → (parse_args inputs ≡ some (ok rest)) ↔ All2 IsArg inputs rest)
    → (parse_args (FnArg.typed (record { pat = pat; ty = ty }) ∷ inputs) ≡ some (ok args))
      ↔ All2 IsArg (FnArg.typed (record { pat = pat; ty = ty }) ∷ inputs) args
unfolding parse_args
parse_args-typed Pat.other ty inputs [] ih = (λ h. cc, λ h. absurd h)
parse_args-typed Pat.other ty inputs (a ∷ args) ih = (λ h. cc, λ h. cc ((h.0).0))
parse_args-typed (Pat.ident x) ty inputs [] ih = (
  λ h.
      let (rest, e, f) = >>=-eq-ok (parse_args inputs) (λ args. some (ok ((x, ty) ∷ args))) h in
      cc f,
  λ h. absurd h,
)
parse_args-typed (Pat.ident x) ty inputs (a ∷ args) ih = (
  λ h.
      let (rest, e, f) = >>=-eq-ok (parse_args inputs) (λ args. some (ok ((x, ty) ∷ args))) h in
      let same_rest : rest ≡ args = cc f in ((cc f, cc f), (ih args).0 (rw same_rest at e)),
  λ h. rw ((ih args).1 h.1) (ground (arith, h.0)),
)

parse_args_iff :
    {Ty : Type 0} (inputs : List (FnArg Ty)) (args : List (Ident × Ty))
    → (parse_args inputs ≡ some (ok args)) ↔ All2 IsArg inputs args
parse_args_iff [] [] = unfold parse_args in (λ h. tt, λ h. refl)
parse_args_iff [] (a ∷ args) = unfold parse_args in (λ h. cc, λ h. absurd h)
parse_args_iff (FnArg.receiver ∷ inputs) [] = unfold parse_args in (λ h. cc, λ h. absurd h)
parse_args_iff (FnArg.receiver ∷ inputs) (a ∷ args) =
    unfold parse_args in (λ h. cc, λ h. absurd (h.0))
parse_args_iff (FnArg.typed p ∷ inputs) args =
    parse_args-typed p.pat p.ty inputs args (λ rest. parse_args_iff inputs rest)

module _ {Ty : Type 0} (tokens : Ty → List Token) where
  check_caller_arg_iff :
      (p : PatType Ty)
      → (check_caller_arg tokens p ≡ some (ok tt))
        ↔ (IsCallerPat p.pat × (tokens p.ty ≡ account_tokens))
  unfolding check_caller_arg
  check_caller_arg_iff p = (
    λ h. (
      (is_wrong_name_iff p.pat).0 (ground arith),
      (parse_first_arg_iff (tokens p.ty)).0 (ground arith),
    ),
    λ h. ground (arith, (is_wrong_name_iff p.pat).1 h.0, (parse_first_arg_iff (tokens p.ty)).1 h.1),
  )

  parse_inputs_sound :
      (name : Ident) (inputs : List (FnArg Ty)) (m : CallVariantDef Ty)
      → parse_inputs tokens name inputs ≡ some (ok m)
      → IsCallable tokens (record { ident = name; inputs = inputs }) m
  unfolding parse_inputs
  parse_inputs_sound name (FnArg.receiver ∷ FnArg.typed caller ∷ inputs) m h =
      let (u, checked, rest) =
        >>=-eq-ok (check_caller_arg tokens caller)
          (λ _. parse_args inputs >>= λ args. some (ok (record { name = name; args = args }))) h in
      let (args, parsed, last) =
        >>=-eq-ok (parse_args inputs) (λ args. some (ok (record { name = name; args = args })))
          rest in
      let its = (check_caller_arg_iff caller).0 checked in
      (
        caller,
        inputs,
        refl,
        its.0,
        its.1,
        (parse_args_iff inputs m.args).0 (ground arith),
        ground arith,
      )
  parse_inputs_sound name _ m h = cc

  parse_inputs_iff :
      (sig : Signature Ty) (m : CallVariantDef Ty)
      → (parse_inputs tokens sig.ident sig.inputs ≡ some (ok m)) ↔ IsCallable tokens sig m
  parse_inputs_iff sig m = (
    parse_inputs_sound sig.ident sig.inputs m,
    λ h.
        let (caller, inputs, e, is_pat, is_type, args, name) = h in
        let checked = (check_caller_arg_iff caller).1 (is_pat, is_type) in
        rw e (
          unfold parse_inputs in
          rw (checked, (parse_args_iff inputs m.args).1 args) (ground arith)),
  )

  parse_methods_iff :
      (items : List (ImplItem Ty)) (ms : List (CallVariantDef Ty))
      → (parse_methods tokens items ≡ some (ok ms)) ↔ All2 (IsCallable tokens) (functions items) ms
  unfolding parse_methods
  parse_methods_iff [] [] = (λ h. tt, λ h. refl)
  parse_methods_iff [] (m ∷ ms) = (λ h. cc, λ h. absurd h)
  parse_methods_iff (ImplItem.other ∷ items) ms = parse_methods_iff items ms
  parse_methods_iff (ImplItem.method sig ∷ items) [] = (
    λ h.
        let (m, e, rest) =
          >>=-eq-ok (parse_inputs tokens sig.ident sig.inputs)
            (λ m. parse_methods tokens items >>= λ ms. some (ok (m ∷ ms))) h in
        let (ms, f, last) =
          >>=-eq-ok (parse_methods tokens items) (λ ms. some (ok (m ∷ ms))) rest in
        cc last,
    λ h. absurd h,
  )
  parse_methods_iff (ImplItem.method sig ∷ items) (m ∷ ms) = (
    λ h.
        let (n, e, rest) =
          >>=-eq-ok (parse_inputs tokens sig.ident sig.inputs)
            (λ m. parse_methods tokens items >>= λ ms. some (ok (m ∷ ms))) h in
        let (ns, f, last) =
          >>=-eq-ok (parse_methods tokens items) (λ ms. some (ok (n ∷ ms))) rest in
        ((parse_inputs_iff sig m).0 (cc), (parse_methods_iff items ms).0 (cc)),
    λ h. rw ((parse_inputs_iff sig m).1 h.0, (parse_methods_iff items ms).1 h.1) refl,
  )

first_segment_iff :
    (path : Option (List Ident)) (x : Ident)
    → (first_segment path ≡ some (ok x)) ↔ ((rest : List Ident) × (path ≡ some (x ∷ rest)))
unfolding first_segment
first_segment_iff none x = (λ h. cc, λ h. cc (h.1))
first_segment_iff (some []) x = (λ h. cc, λ h. cc (h.1))
first_segment_iff (some (y ∷ path)) x = (λ h. (path, cc), λ h. cc (h.1))

module _ {Ty : Type 0} (tokens : Ty → List Token) (segments : Ty → Option (List Ident)) where
  -- The macro takes exactly the `impl` blocks on a path in which each function, public or not, begins
  -- with a receiver, then has a parameter of type `T::AccountId` that is named `caller` or `_caller` or
  -- has a pattern that is no identifier, and then only parameters that are identifiers. What it collects
  -- is the first segment of the path and, function by function, the name with the parameters behind the
  -- second.
  pub parse_call_iff :
      (item : Item Ty) (def : CallDef Ty)
      → (parse_call tokens segments item ≡ some (ok def)) ↔ Accepts tokens segments item def
  unfolding parse_call
  parse_call_iff (Item.struct i) def = (λ h. cc, λ h. absurd h)
  parse_call_iff Item.other def = (λ h. cc, λ h. absurd h)
  parse_call_iff (Item.impl i) def = (
    λ h.
        let (name, e, rest) =
          >>=-eq-ok (first_segment (segments i.self_ty))
            (λ name. parse_methods tokens i.items >>= λ ms.
              some (ok (record { pallet_struct = name; methods = ms })))
            h in
        let (ms, f, last) =
          >>=-eq-ok (parse_methods tokens i.items)
            (λ ms. some (ok (record { pallet_struct = name; methods = ms }))) rest in
        let its = (first_segment_iff (segments i.self_ty) def.pallet_struct).0 (ground arith) in
        (its.0, its.1, (parse_methods_iff tokens i.items def.methods).0 (ground arith)),
    λ h.
        rw
          (
            (first_segment_iff (segments i.self_ty) def.pallet_struct).1 (h.0, h.1),
            (parse_methods_iff tokens i.items def.methods).1 h.2,
          )
          refl,
  )
