-- ===== src/Uuid/Alphabet.antt =====
-- Which random numbers give a uuid of letters and digits.
use etransfer.Common.{
  ℕ, zero, suc, ◌≡◌, refl, Bool, true, List, [], ◌∷◌, Bytes, length, ◌&&◌, ◌||◌, leb, ltb, arith,
}
use etransfer.Uuid.{uuid_chars, char_at, mk_uuid}

abbrev pub is_alphanumeric : ℕ → Bool
is_alphanumeric c =
    (leb b'a' c && leb c b'z') || (leb b'A' c && leb c b'Z') || (leb b'0' c && leb c b'9')

abbrev pub all_alphanumeric : Bytes → Bool
all_alphanumeric [] = true
all_alphanumeric (c ∷ s) = is_alphanumeric c && all_alphanumeric s

abbrev pub all_below : ℕ → List ℕ → Bool
all_below n [] = true
all_below n (i ∷ is) = ltb i n && all_below n is

char_at-alphanumeric :
    (s : Bytes) (i : ℕ)
    → all_alphanumeric s ≡ true
    → is_alphanumeric (char_at s i) ≡ ltb i (length s)
unfolding char_at
char_at-alphanumeric [] i h = ground arith
char_at-alphanumeric (c ∷ s) zero h = ground (arith, h)
char_at-alphanumeric (c ∷ s) (suc i) h = ground (arith, h, char_at-alphanumeric s i)

-- A uuid holds letters and digits only if and only if each number that was drawn is below the number
-- of characters: the largest number that can be drawn gives a byte that is neither.
pub mk_uuid_iff : (is : List ℕ) → all_alphanumeric (mk_uuid is) ≡ all_below (length uuid_chars) is
unfolding mk_uuid
mk_uuid_iff [] = refl
mk_uuid_iff (i ∷ is) = rw (char_at-alphanumeric uuid_chars i refl, mk_uuid_iff is) refl
