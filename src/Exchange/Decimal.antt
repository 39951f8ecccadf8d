-- ===== src/Exchange/Decimal.antt =====
-- The numbers in the headers that sendFile and getFile write.
use etransfer.Common.{
  ℕ, zero, suc, ◌+◌, ◌-◌, ◌*◌, ◌/◌, ◌%◌, ◌^◌, ◌<◌, ◌≡◌, refl, ap, ◌∙◌, true, [], ◌∷◌, Bytes, some,
  Bool, ltb, ◌&&◌, Bool-cases, inl, inr, arith, lt→ltb, ltb→lt, ltb→le,
}
use etransfer.Text.{is_digit}
use etransfer.DevZero.{digits_value, stoull}
use etransfer.Exchange.{print_digits, print_ℕ}

-- Every byte is a digit.
abbrev pub are_digits : Bytes → Bool
are_digits [] = true
are_digits (c ∷ s) = is_digit c && are_digits s

pub digits_value-print_digits :
    (fuel n : ℕ) (rest : Bytes)
    → n < fuel
    → digits_value 0 (print_digits fuel n rest) ≡ digits_value n rest
unfolding digits_value print_digits
digits_value-print_digits zero n rest h = absurd (omega arith)
digits_value-print_digits (suc fuel) n rest h = elim (Bool-cases (ltb n 10)) [
  | inl small ↦
      let value : 0 + ((b'0' + n) - b'0') ≡ n = omega arith in
      rw (print_digits, small) (ap (λ m. digits_value m rest) value)
  | inr large ↦
      let le = ltb→le n 10 large in
      let value : (n / 10) * 10 + ((b'0' + n % 10) - b'0') ≡ n = omega arith in
      rw (print_digits, large)
        (digits_value-print_digits fuel (n / 10) ((b'0' + n % 10) ∷ rest) (omega (arith, le))
          ∙ ap (λ m. digits_value m rest) value)
]

pub print_digits-digits :
    (fuel n : ℕ) (rest : Bytes)
    → n < fuel
    → are_digits rest ≡ true
    → are_digits (print_digits fuel n rest) ≡ true
unfolding print_digits is_digit
print_digits-digits zero n rest h d = absurd (omega arith)
print_digits-digits (suc fuel) n rest h d = elim (Bool-cases (ltb n 10)) [
  | inl small ↦ rw (print_digits, small) (ground (arith, d, ltb→lt n 10 small))
  | inr large ↦
      let le = ltb→le n 10 large in
      rw (print_digits, large)
        (print_digits-digits fuel (n / 10) ((b'0' + n % 10) ∷ rest) (omega (arith, le))
          (ground (arith, d)))
]

stoull-digits_value : (s : Bytes) (n : ℕ) → digits_value 0 s ≡ n → n < 2 ^ 64 → stoull s ≡ some n
unfolding stoull
stoull-digits_value s n e h = rw (stoull, e, lt→ltb n (2 ^ 64) h) refl

pub digits_value-print_ℕ : (n : ℕ) → digits_value 0 (print_ℕ n) ≡ n
unfolding print_ℕ digits_value
digits_value-print_ℕ n = digits_value-print_digits (suc n) n [] (omega arith)

-- The decimal text that is written for a number below 2 ^ 64 holds digits only, and stoull reads it
-- as that number.
pub stoull-print_ℕ :
    (n : ℕ) → n < 2 ^ 64 → (are_digits (print_ℕ n) ≡ true) × (stoull (print_ℕ n) ≡ some n)
unfolding print_ℕ digits_value
stoull-print_ℕ n h = (
  print_digits-digits (suc n) n [] (omega arith) refl,
  stoull-digits_value (print_ℕ n) n (digits_value-print_digits (suc n) n [] (omega arith)) h,
)
