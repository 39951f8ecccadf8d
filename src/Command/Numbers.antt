-- ===== src/Command/Numbers.antt =====
-- The numbers in commands and replies are read as they are written.
use etransfer.Common.{
  ℕ, zero, suc, ◌+◌, ◌/◌, ◌%◌, ◌^◌, ◌<◌, ◌≡◌, refl, inl, inr, true, false, [], ◌∷◌, some, Bytes,
  arith, ltb, ltb→le, ltb→lt, lt→ltb, ◌==◌, Bool-cases,
}
use etransfer.Common.Int.{pos}
use etransfer.Text.{is_space, is_digit}
use etransfer.DevZero.{digits_value}
use etransfer.Exchange.{print_digits, print_ℕ}
use etransfer.Exchange.Decimal.{digits_value-print_digits}
use etransfer.Proxy.{all_bytes, off_of}
use etransfer.Command.{not_space}
use etransfer.Command.Parts.{is_field}

digit-visible : (c : ℕ) → is_digit c ≡ true → not_space c ≡ true
unfolding is_digit is_space
digit-visible c h = ground (arith, h)

print_digits-field :
    (fuel n : ℕ) (rest : Bytes)
    → n < fuel
    → all_bytes is_digit rest ≡ true
    → is_field is_digit (print_digits fuel n rest) ≡ true
unfolding print_digits all_bytes is_digit is_space
print_digits-field zero n rest h d = absurd (omega arith)
print_digits-field (suc fuel) n rest h d = elim (Bool-cases (ltb n 10)) [
  | inl small ↦ rw (print_digits, small) (ground (arith, d, ltb→lt n 10 small))
  | inr large ↦
      let le = ltb→le n 10 large in
      rw (print_digits, large)
        (print_digits-field fuel (n / 10) ((b'0' + n % 10) ∷ rest) (omega (arith, le))
          (ground (arith, d)))
]

pub print_ℕ-field : (n : ℕ) → is_field is_digit (print_ℕ n) ≡ true
unfolding print_ℕ all_bytes
print_ℕ-field n = print_digits-field (suc n) n [] (omega arith) refl

off_of-digits :
    (s : Bytes) (n : ℕ)
    → is_field is_digit s ≡ true
    → digits_value 0 s ≡ n
    → n < 2 ^ 63
    → off_of s ≡ some (pos n)
unfolding off_of all_bytes is_digit
off_of-digits [] n d e h = absurd (ground (arith, d))
off_of-digits (c ∷ s) n d e h =
    let no_minus : (c == b'-') ≡ false = ground (arith, d) in
    rw (off_of, no_minus, e, lt→ltb n (2 ^ 63) h) refl

-- A number below 2 ^ 63 is read as it was written.
pub off_of-print_ℕ : (n : ℕ) → n < 2 ^ 63 → off_of (print_ℕ n) ≡ some (pos n)
unfolding print_ℕ digits_value
off_of-print_ℕ n h =
    off_of-digits (print_ℕ n) n (print_ℕ-field n)
      (digits_value-print_digits (suc n) n [] (omega arith)) h
