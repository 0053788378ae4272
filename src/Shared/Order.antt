-- ===== src/Shared/Order.antt =====
-- The bound `Ord` of the map keys, with the laws that the trait documents, and the order of byte
-- strings (`[u8]`, `Vec<u8>`, `[u8; 32]` and `String` compare their bytes from the left).
use Prim.Native.Nat.{ℕ, compare, Ordering}
use Prim.Native.Nat.Ordering.{lt, eq, gt}
use mathlib.Core.Path.{◌≡◌, refl}
use mathlib.Core.Logic.{◌↔◌, ◌≢◌}
use mathlib.Core.Bool.{Bool, true, false}
use mathlib.Core.List.{List, [], ◌∷◌, ◌++◌}
use native.Mathlib.Omega.{arith}

abbrev pub reversed : Ordering → Ordering
reversed lt = gt
reversed eq = eq
reversed gt = lt

pub record Ord {ℓ} (K : Type ℓ) : Type ℓ where
  pub cmp : K → K → Ordering
  pub cmp-self : (a : K) → cmp a a ≡ eq
  pub eq_of_cmp : (a b : K) → cmp a b ≡ eq → a ≡ b
  pub cmp-reversed : (a b : K) → cmp b a ≡ reversed (cmp a b)
  pub cmp_trans : (a b c : K) → cmp a b ≡ lt → cmp b c ≡ lt → cmp a c ≡ lt

module _ {ℓ} {K : Type ℓ} ⦃o : Ord K⦄ where
  -- `PartialEq` of a key.
  abbrev pub same : K → K → Bool
  same a b = elim (o.cmp a b) [ eq ↦ true | _ ↦ false ]

  pub same_iff : (a b : K) → (same a b ≡ true) ↔ (a ≡ b)
  same_iff a b = (λ h. ground (arith, o.eq_of_cmp a b), λ e. ground (arith, o.cmp-self b))

abbrev pub Bytes : Type 0
Bytes = List ℕ

abbrev pub cmp_bytes : Bytes → Bytes → Ordering
cmp_bytes [] [] = eq
cmp_bytes [] (y ∷ ys) = lt
cmp_bytes (x ∷ xs) [] = gt
cmp_bytes (x ∷ xs) (y ∷ ys) = elim (compare x y) [ lt ↦ lt | eq ↦ cmp_bytes xs ys | gt ↦ gt ]

pub cmp_bytes_self : (a : Bytes) → cmp_bytes a a ≡ eq
cmp_bytes_self [] = refl
cmp_bytes_self (x ∷ xs) = ground (arith, cmp_bytes_self xs)

pub eq_of_cmp_bytes : (a b : Bytes) → cmp_bytes a b ≡ eq → a ≡ b
eq_of_cmp_bytes [] [] h = refl
eq_of_cmp_bytes [] (y ∷ ys) h = cc
eq_of_cmp_bytes (x ∷ xs) [] h = cc
eq_of_cmp_bytes (x ∷ xs) (y ∷ ys) h = ground (arith, eq_of_cmp_bytes xs ys)

pub cmp_bytes-reversed : (a b : Bytes) → cmp_bytes b a ≡ reversed (cmp_bytes a b)
cmp_bytes-reversed [] [] = refl
cmp_bytes-reversed [] (y ∷ ys) = refl
cmp_bytes-reversed (x ∷ xs) [] = refl
cmp_bytes-reversed (x ∷ xs) (y ∷ ys) = ground (arith, cmp_bytes-reversed xs ys)

pub cmp_bytes_trans : (a b c : Bytes) → cmp_bytes a b ≡ lt → cmp_bytes b c ≡ lt → cmp_bytes a c ≡ lt
cmp_bytes_trans [] [] c h k = k
cmp_bytes_trans [] (y ∷ ys) [] h k = cc
cmp_bytes_trans [] (y ∷ ys) (z ∷ zs) h k = refl
cmp_bytes_trans (x ∷ xs) [] c h k = cc
cmp_bytes_trans (x ∷ xs) (y ∷ ys) [] h k = cc
cmp_bytes_trans (x ∷ xs) (y ∷ ys) (z ∷ zs) h k = ground (arith, cmp_bytes_trans xs ys zs)

instance abbrev pub bytes_ord : Ord Bytes
bytes_ord = record {
  cmp = cmp_bytes;
  cmp-self = cmp_bytes_self;
  eq_of_cmp = eq_of_cmp_bytes;
  cmp-reversed = cmp_bytes-reversed;
  cmp_trans = cmp_bytes_trans;
}

abbrev pub starts_with : Bytes → Bytes → Bool
starts_with k [] = true
starts_with [] (p ∷ ps) = false
starts_with (x ∷ k) (p ∷ ps) = elim (compare x p) [ eq ↦ starts_with k ps | _ ↦ false ]

pub starts_with-append : (p x : Bytes) → starts_with (p ++ x) p ≡ true
starts_with-append [] [] = refl
starts_with-append [] (y ∷ x) = refl
starts_with-append (b ∷ p) x = ground (arith, starts_with-append p x)

-- What starts with a text starts with each beginning of it.
pub starts_with_shorter : (k p x : Bytes) → starts_with k (p ++ x) ≡ true → starts_with k p ≡ true
starts_with_shorter k [] x h = refl
starts_with_shorter [] (b ∷ p) x h = cc
starts_with_shorter (c ∷ k) (b ∷ p) x h = ground (arith, starts_with_shorter k p x)

-- A text that starts with one byte does not start with another.
pub starts_with_other :
    (k p q : Bytes) (b c : ℕ) → starts_with k (b ∷ p) ≡ true → b ≢ c → starts_with k (c ∷ q) ≡ false
starts_with_other [] p q b c h n = refl
starts_with_other (x ∷ k) p q b c h n = ground arith
