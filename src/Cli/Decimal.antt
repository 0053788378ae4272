-- ===== src/Cli/Decimal.antt =====
-- A `u32` as decimal text: `to_string` in `nonce_handler` of src/node.rs, and `trim` and `parse` on the
-- other side, in src/main.rs.
use rust_state_machine.Shared.{
  ℕ, zero, suc, ◌+◌, ◌-◌, ◌*◌, ◌/◌, ◌%◌, ◌^◌, ◌≤◌, ◌<◌, ◌≡◌, refl, arith, All, All-append, ◌≢◌,
  Bool, ◌&&◌, ◌||◌, Bool-cases, inl, inr, Option, none, some, [], ◌∷◌, ◌++◌, ltb, leb, ◌==◌, ◌>>=◌,
  if◌then◌else◌, IsU32,
}
use rust_state_machine.Shared.Order.{Bytes}

-- The digits of a number with at most as many digits as the fuel says: a `u32` has ten.
unfoldable pub digits : ℕ → ℕ → Bytes
digits zero n = []
digits (suc f) n =
    let front = digits f (n / 10) in
    if ltb n 10 then (n + b'0') ∷ [] else front ++ ((n % 10 + b'0') ∷ [])

unfoldable pub to_text : ℕ → Bytes
to_text n = digits 10 n

-- ASCII white space; `trim` also takes other Unicode white space, which no server sends.
unfoldable pub is_space : ℕ → Bool
is_space c = c == 32 || (leb 9 c && leb c 13)

unfoldable pub trim_start : Bytes → Bytes
trim_start [] = []
trim_start (c ∷ text) = let rest = trim_start text in if is_space c then rest else c ∷ text

unfoldable pub trim_end : Bytes → Bytes
trim_end [] = []
trim_end (c ∷ text) = elim (trim_end text) [
  | [] ↦ if is_space c then [] else c ∷ []
  | d ∷ rest ↦ c ∷ d ∷ rest
]

-- The loop of `u32::from_str`, with its overflow.
unfoldable pub parse_digits : ℕ → Bytes → Option ℕ
parse_digits acc [] = some acc
parse_digits acc (c ∷ text) =
    if leb b'0' c && leb c b'9' && ltb (acc * 10 + (c - b'0')) (2 ^ 32)
    then parse_digits (acc * 10 + (c - b'0')) text
    else none

-- A sign `+` may stand in front of a digit.
unfoldable pub parse_u32 : Bytes → Option ℕ
parse_u32 [] = none
parse_u32 (c ∷ []) = parse_digits 0 (c ∷ [])
parse_u32 (c ∷ d ∷ text) =
    if c == b'+' then parse_digits 0 (d ∷ text) else parse_digits 0 (c ∷ d ∷ text)

unfoldable pub from_text : Bytes → Option ℕ
from_text text = parse_u32 (trim_end (trim_start text))

parse_digits-append :
    (xs ys : Bytes) (acc : ℕ)
    → parse_digits acc (xs ++ ys) ≡ (parse_digits acc xs >>= λ a. parse_digits a ys)
unfolding parse_digits
parse_digits-append [] ys acc = refl
parse_digits-append (x ∷ xs) ys acc =
    ground (arith, parse_digits-append xs ys (acc * 10 + (x - b'0')))

abbrev pow_ten : ℕ → ℕ
pow_ten zero = 1
pow_ten (suc f) = 10 * pow_ten f

parse_digits-digits : (f n : ℕ) → n < pow_ten f → IsU32 n → parse_digits 0 (digits f n) ≡ some n
unfolding digits
parse_digits-digits zero n h b = unfold parse_digits in ground arith
parse_digits-digits (suc f) n h b = elim (Bool-cases (ltb n 10)) [
  | inl small ↦ rw small (unfold parse_digits in ground arith)
  | inr large ↦
      rw
        (
          large,
          parse_digits-append (digits f (n / 10)) ((n % 10 + b'0') ∷ []) 0,
          parse_digits-digits f (n / 10) (ground arith) (ground arith),
        )
        (unfold parse_digits in ground arith)
]

abbrev IsDigit : ℕ → Type 0
IsDigit c = (b'0' ≤ c) × (c ≤ b'9')

digits-AllDigit : (f n : ℕ) → All IsDigit (digits f n)
unfolding digits
digits-AllDigit zero n = tt
digits-AllDigit (suc f) n = elim (Bool-cases (ltb n 10)) [
  | inl small ↦ rw small (ground arith)
  | inr large ↦ rw large (
      All-append IsDigit (digits f (n / 10)) ((n % 10 + b'0') ∷ []) (digits-AllDigit f (n / 10))
        (ground arith))
]

append_one-ne_nil : (xs : Bytes) (c : ℕ) → xs ++ (c ∷ []) ≢ []
append_one-ne_nil [] c h = cc
append_one-ne_nil (x ∷ xs) c h = cc

digits-ne_nil : (f n : ℕ) → digits (suc f) n ≢ []
unfolding digits
digits-ne_nil f n h = elim (Bool-cases (ltb n 10)) [
  | inl small ↦ cc (rw small at h)
  | inr large ↦ append_one-ne_nil (digits f (n / 10)) (n % 10 + b'0') (rw large at h)
]

trim_start-AllDigit : (xs : Bytes) → All IsDigit xs → trim_start xs ≡ xs
unfolding trim_start is_space
trim_start-AllDigit [] h = refl
trim_start-AllDigit (c ∷ xs) h = ground arith

trim_end-AllDigit : (xs : Bytes) → All IsDigit xs → trim_end xs ≡ xs
unfolding trim_end is_space
trim_end-AllDigit [] h = refl
trim_end-AllDigit (c ∷ []) h = ground arith
trim_end-AllDigit (c ∷ d ∷ xs) h = rw (trim_end-AllDigit (d ∷ xs) h.1) refl

parse_u32-AllDigit : (xs : Bytes) → xs ≢ [] → All IsDigit xs → parse_u32 xs ≡ parse_digits 0 xs
unfolding parse_u32
parse_u32-AllDigit [] n h = absurd (n refl)
parse_u32-AllDigit (c ∷ []) n h = refl
parse_u32-AllDigit (c ∷ d ∷ xs) n h = ground arith

pub from_text-to_text : (n : ℕ) → IsU32 n → from_text (to_text n) ≡ some n
unfolding from_text to_text
from_text-to_text n h =
    let xs = digits 10 n in
    let d = digits-AllDigit 10 n in
    rw
      (
        trim_start-AllDigit xs d,
        trim_end-AllDigit xs d,
        parse_u32-AllDigit xs (digits-ne_nil 9 n) d,
      )
      (parse_digits-digits 10 n (omega arith) h)
