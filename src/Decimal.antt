-- ===== src/Decimal.antt =====
-- Whole numbers in template strings, `${n}`: their decimal digits.
use dbtabase_workbench.Common.{
  ℕ, zero, suc, ◌+◌, ◌-◌, ◌*◌, ◌/◌, ◌%◌, ◌<◌, ◌≡◌, refl, inl, inr, [], ◌∷◌, ◌++◌, Text, ltb,
  if◌then◌else◌, arith, Bool-cases,
}

-- `fuel` bounds the number of digits.
unfoldable pub digits : ℕ → ℕ → Text
digits zero n = []
digits (suc fuel) n =
    let front = digits fuel (n / 10) in
    if ltb n 10 then (b'0' + n) ∷ [] else front ++ ((b'0' + n % 10) ∷ [])

-- A number has fewer digits than units.
unfoldable pub decimal : ℕ → Text
unfolding digits
decimal n = digits (suc n) n

-- The number that decimal digits stand for, after those that were read before.
unfoldable pub read_digits : ℕ → Text → ℕ
read_digits n [] = n
read_digits n (c ∷ s) = read_digits (n * 10 + (c - b'0')) s

read_digits-append : (n : ℕ) (s t : Text) → read_digits n (s ++ t) ≡ read_digits (read_digits n s) t
unfolding read_digits
read_digits-append n [] t = refl
read_digits-append n (c ∷ s) t = read_digits-append (n * 10 + (c - b'0')) s t

read_digits-digits : (fuel n : ℕ) → n < fuel → read_digits 0 (digits fuel n) ≡ n
unfolding digits
read_digits-digits zero n h = absurd (omega arith)
read_digits-digits (suc fuel) n h = elim (Bool-cases (ltb n 10)) [
  | inl e ↦ rw e (unfold read_digits in omega arith)
  | inr e ↦
      rw (e, read_digits-append, read_digits-digits fuel (n / 10) (ground arith))
        (unfold read_digits in omega arith)
]

-- The digits of a number are read back as that number.
pub read_digits-decimal : (n : ℕ) → read_digits 0 (decimal n) ≡ n
unfolding decimal
read_digits-decimal n = read_digits-digits (suc n) n (omega arith)
