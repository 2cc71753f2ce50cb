-- ===== src/Prelude/Decimal.antt =====
-- `str(n)` of a natural number: its decimal digits, without leading zeros.
use Prim.Native.Nat.{ℕ, zero, suc, ◌+◌, ◌-◌, ◌*◌, ◌/◌, ◌%◌, ◌≤◌, ◌<◌}
use mathlib.Core.Path.{◌≡◌, refl, ap, sym, ◌∙◌}
use mathlib.Core.Logic.{◌≢◌, inl, inr}
use mathlib.Core.List.{[], ◌∷◌, ◌++◌}
use native.Mathlib.Omega.{arith}
use mathlib.Core.Bool.{Bool, true, ◌&&◌}
use fun_with_dragonfly_db.Prelude.Results.{Result, ok, err, value_error}
use fun_with_dragonfly_db.Prelude.Tests.{ltb, leb, if◌then◌else◌, Bool-cases, ltb-false→le, ltb→lt}
use fun_with_dragonfly_db.Prelude.Lists.{All, All-append, All-map}
use fun_with_dragonfly_db.Prelude.Texts.{Text, Lacks, codes}

-- On fuel: a number has fewer digits than its successor.
digits_of : ℕ → ℕ → Text
digits_of zero n = []
digits_of (suc f) n =
    let rest = digits_of f (n / 10) in
    if ltb n 10 then (b'0' + n) ∷ [] else rest ++ ((b'0' + n % 10) ∷ [])

unfoldable pub decimal : ℕ → Text
unfolding digits_of
decimal n = digits_of (suc n) n

-- Horner's rule.
value_from : ℕ → Text → ℕ
value_from acc [] = acc
value_from acc (c ∷ s) = value_from (acc * 10 + (c - b'0')) s

value_from-snoc :
    (acc : ℕ) (s : Text) (c : ℕ)
    → value_from acc (s ++ (c ∷ [])) ≡ value_from acc s * 10 + (c - b'0')
unfolding value_from
value_from-snoc acc [] c = refl
value_from-snoc acc (d ∷ s) c = value_from-snoc (acc * 10 + (d - b'0')) s c

digits_of-value : (f n : ℕ) → n < f → value_from 0 (digits_of f n) ≡ n
unfolding digits_of
digits_of-value zero n h = absurd (omega arith)
digits_of-value (suc f) n h = elim (Bool-cases (ltb n 10)) [
  | inl e ↦ rw e (unfold value_from in omega arith)
  | inr e ↦ rw e (
      value_from-snoc 0 (digits_of f (n / 10)) (b'0' + n % 10)
      ∙ omega (arith, digits_of-value f (n / 10) (omega (arith, ltb-false→le n 10 e))))
]

abbrev pub IsDigit : ℕ → Type 0
IsDigit c = (b'0' ≤ c) × (c ≤ b'9')

digits_of-IsDigit : (f n : ℕ) → All IsDigit (digits_of f n)
unfolding digits_of
digits_of-IsDigit zero n = tt
digits_of-IsDigit (suc f) n = elim (Bool-cases (ltb n 10)) [
  | inl e ↦ rw e (let lt = ltb→lt n 10 e in ((omega arith, omega arith), tt))
  | inr e ↦ rw e (
      All-append IsDigit (digits_of f (n / 10)) _ (digits_of-IsDigit f (n / 10))
        ((omega arith, omega arith), tt))
]

pub decimal-IsDigit : (n : ℕ) → All IsDigit (decimal n)
unfolding decimal
decimal-IsDigit n = digits_of-IsDigit (suc n) n

-- A decimal numeral holds no character that is not a digit.
pub decimal-Lacks : (n b : ℕ) → (IsDigit b → ⊥) → Lacks b (decimal n)
decimal-Lacks n b h =
    All-map IsDigit (λ c. c ≢ b) (λ c d e. h (rw e at d)) (decimal n) (decimal-IsDigit n)

pub decimal_injective : (m n : ℕ) → decimal m ≡ decimal n → m ≡ n
unfolding decimal
decimal_injective m n e =
    sym (digits_of-value (suc m) m (omega arith))
    ∙ ap (value_from 0) e
    ∙ digits_of-value (suc n) n (omega arith)

decimal_65535 : decimal 65535 ≡ codes "65535"
unfolding decimal
decimal_65535 = refl

abbrev pub all_digits : Text → Bool
all_digits [] = true
all_digits (c ∷ s) = leb b'0' c && leb c b'9' && all_digits s

-- `int(s)` of a text of digits, as `str` writes them. Anything else is refused here; Python's `int`
-- also takes signs, surrounding white space and underscores.
unfoldable pub parse_nat : Text → Result ℕ
unfolding value_from
parse_nat [] = err value_error
parse_nat (c ∷ s) = if all_digits (c ∷ s) then ok (value_from 0 (c ∷ s)) else err value_error

all_digits-IsDigit : (s : Text) → All IsDigit s → all_digits s ≡ true
all_digits-IsDigit [] h = refl
all_digits-IsDigit (c ∷ s) ((lo, hi), hs) = ground (arith, all_digits-IsDigit s hs)

parse_nat-value : (s : Text) → s ≢ [] → All IsDigit s → parse_nat s ≡ ok (value_from 0 s)
unfolding parse_nat
parse_nat-value [] h d = absurd (h refl)
parse_nat-value (c ∷ s) h d = rw (all_digits-IsDigit (c ∷ s) d)

pub decimal-ne-nil : (n : ℕ) → decimal n ≢ []
unfolding decimal
decimal-ne-nil n = elim (Bool-cases (ltb n 10)) [
  | inl e ↦ rw e (cc)
  | inr e ↦ rw e (snoc-ne-nil (digits_of n (n / 10)) _)
]
  where
    snoc-ne-nil : (s : Text) (c : ℕ) → s ++ (c ∷ []) ≢ []
    snoc-ne-nil [] c = cc
    snoc-ne-nil (d ∷ s) c = cc

-- Reading back what was written.
pub parse_nat-decimal : (n : ℕ) → parse_nat (decimal n) ≡ ok n
parse_nat-decimal n =
    parse_nat-value (decimal n) (decimal-ne-nil n) (decimal-IsDigit n)
    ∙ ap ok (unfold decimal in digits_of-value (suc n) n (omega arith))
