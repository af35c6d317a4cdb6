-- ===== src/Base/Decimal.antt =====
-- `"%d" % n` for a natural number, and its digits.
use flux_guard.Base.{
  ℕ, zero, suc, ◌+◌, ◌-◌, ◌*◌, ◌/◌, ◌%◌, ◌<◌, ◌≤◌, ◌≡◌, refl, ◌≢◌, true, false, [], ◌∷◌, ◌++◌,
  arith, ltb, Text, All, All-append, Bool-cases, inl, inr,
}

-- Each round shows the last digit; `n + 1` rounds are enough.
show_digits : ℕ → ℕ → Text
show_digits zero n = []
show_digits (suc fuel) n = elim (ltb n 10) [
  | true ↦ (b'0' + n) ∷ []
  | false ↦ show_digits fuel (n / 10) ++ (b'0' + n % 10) ∷ []
]

unfoldable pub show_nat : ℕ → Text
unfolding show_digits
show_nat n = show_digits (suc n) n

abbrev pub IsDigit : ℕ → Type 0
IsDigit c = (b'0' ≤ c) × (c ≤ b'9')

show_digits_large :
    (fuel n : ℕ)
    → ltb n 10 ≡ false
    → show_digits (suc fuel) n ≡ show_digits fuel (n / 10) ++ (b'0' + n % 10) ∷ []
unfolding show_digits
show_digits_large fuel n h = ground arith

show_digits_small : (fuel n : ℕ) → ltb n 10 ≡ true → show_digits (suc fuel) n ≡ (b'0' + n) ∷ []
unfolding show_digits
show_digits_small fuel n h = ground arith

show_digits-IsDigit : (fuel n : ℕ) → All IsDigit (show_digits fuel n)
show_digits-IsDigit zero n = unfold show_digits in tt
show_digits-IsDigit (suc fuel) n = elim (Bool-cases (ltb n 10)) [
  | inl small ↦ rw (show_digits_small fuel n small) (ground arith)
  | inr large ↦ rw (show_digits_large fuel n large) (
      All-append IsDigit (show_digits fuel (n / 10)) _ (show_digits-IsDigit fuel (n / 10))
        (omega arith))
]

-- The value that digits add to a number read so far.
abbrev pub value_from : ℕ → Text → ℕ
value_from n [] = n
value_from n (c ∷ s) = value_from (n * 10 + (c - b'0')) s

value_from-append :
    (n : ℕ) (s : Text) (c : ℕ) → value_from n (s ++ c ∷ []) ≡ value_from n s * 10 + (c - b'0')
value_from-append n [] c = refl
value_from-append n (d ∷ s) c = value_from-append (n * 10 + (d - b'0')) s c

value_from-show_digits : (fuel n : ℕ) → n < fuel → value_from 0 (show_digits fuel n) ≡ n
unfolding show_digits
value_from-show_digits zero n h = absurd (omega arith)
value_from-show_digits (suc fuel) n h = ground (
  arith,
  value_from-append 0 (show_digits fuel (n / 10)) (b'0' + n % 10),
  value_from-show_digits fuel (n / 10),
)

-- A number is shown by digits that stand for it, at least one.
pub value_from-show_nat : (n : ℕ) → value_from 0 (show_nat n) ≡ n
unfolding show_nat
value_from-show_nat n = value_from-show_digits (suc n) n (omega arith)

pub show_nat-IsDigit : (n : ℕ) → All IsDigit (show_nat n)
unfolding show_nat
show_nat-IsDigit n = show_digits-IsDigit (suc n) n

append-ne-nil : (s : Text) (c : ℕ) → s ++ c ∷ [] ≢ []
append-ne-nil [] c h = cc
append-ne-nil (d ∷ s) c h = cc

pub show_nat-ne-nil : (n : ℕ) → show_nat n ≢ []
unfolding show_nat
show_nat-ne-nil n = ground (arith, append-ne-nil (show_digits n (n / 10)) (b'0' + n % 10))
