-- ===== src/Address/Hosts.antt =====
-- The host of an address or of a URL, in brackets if it is a literal, is read as it is written.
use mathlib.Core.Bool.{false≢true}
use etransfer.Common.{
  ℕ, Bool, true, false, [], ◌∷◌, some, Bytes, length, not, ◌==◌, ◌≡◌, refl, arith, Bool-cases, inl,
  inr, ==_iff, sym, ◌∙◌, subst,
}
use etransfer.Text.{is_digit}
use etransfer.Proxy.{all_bytes}
use etransfer.Address.{
  occurs, in_brackets, bracket, is_hex_byte, some_of, optional_part, behind_literal, unbracket,
}
use etransfer.Command.Parts.{take_while-end, drop_while-end}

pub occurs-none :
    (p : ℕ → Bool) (d : ℕ) (s : Bytes) → all_bytes p s ≡ true → p d ≡ false → occurs d s ≡ false
unfolding occurs all_bytes
occurs-none p d [] h e = refl
occurs-none p d (c ∷ s) h e = elim (Bool-cases (c == d)) [
  | inl same ↦
      absurd
        (false≢true (sym e ∙ subst (λ x. p x ≡ true) ((==_iff c d).0 same) (ground (arith, h))))
  | inr other ↦ let rest = occurs-none p d s (ground (arith, h)) e in rw (other) rest
]

-- A host that consists of bytes of a kind without colon, slash and percent sign is written as it is.
pub bracket-name :
    (p : ℕ → Bool) (s : Bytes)
    → all_bytes p s ≡ true
    → p b':' ≡ false
    → p b'/' ≡ false
    → p b'%' ≡ false
    → bracket s ≡ s
unfolding bracket
bracket-name p [] h a b c = refl
bracket-name p (d ∷ s) h a b c =
    let x = occurs-none p b':' (d ∷ s) h a in
    let y = occurs-none p b'/' (d ∷ s) h b in
    let z = occurs-none p b'%' (d ∷ s) h c in rw (bracket, x, y, z) refl

hex-no_bracket : (d : ℕ) → is_hex_byte d ≡ true → (d == b'[') ≡ false
unfolding is_hex_byte is_digit
hex-no_bracket d h = ground (arith, h)

-- A text of hexadecimal digits and colons, with a colon, is written in brackets.
pub bracket-literal :
    (s : Bytes) → all_bytes is_hex_byte s ≡ true → occurs b':' s ≡ true → bracket s ≡ in_brackets s
unfolding bracket all_bytes occurs
bracket-literal [] h colon = absurd (false≢true colon)
bracket-literal (d ∷ s) h colon =
    let start : (d == b'[') ≡ false = hex-no_bracket d (ground (arith, h)) in
    rw (bracket, colon, start) refl

pub some_of-all :
    (p : ℕ → Bool) (c : ℕ) (s : Bytes)
    → all_bytes p (c ∷ s) ≡ true
    → some_of p (length (c ∷ s)) (c ∷ s) ≡ some []
unfolding some_of
some_of-all p c s h =
    rw (some_of, take_while-end p (c ∷ s) h, drop_while-end p (c ∷ s) h) (ground arith)

pub behind_literal-hex :
    (p : ℕ → Bool) (c : ℕ) (s : Bytes)
    → all_bytes p (c ∷ s) ≡ true
    → behind_literal p (c ∷ s) ≡ some []
unfolding behind_literal optional_part
behind_literal-hex p c s h = rw (behind_literal, some_of-all p c s h) refl

pub unbracket-hex :
    (c : ℕ) (s : Bytes) → all_bytes is_hex_byte (c ∷ s) ≡ true → unbracket (c ∷ s) ≡ c ∷ s
unfolding unbracket
unbracket-hex c s h = rw (unbracket, behind_literal-hex is_hex_byte c s h) refl

pub hex-inside :
    (s : Bytes) → all_bytes is_hex_byte s ≡ true → all_bytes (λ c. not (c == b']')) s ≡ true
unfolding all_bytes is_hex_byte is_digit
hex-inside [] h = refl
hex-inside (c ∷ s) h =
    let rest : all_bytes (λ c. not (c == b']')) s ≡ true = hex-inside s (ground (arith, h)) in
    ground (arith, h, rest)
