-- ===== src/Text.antt =====
-- src/etdc_stringutil.h: comparing text without regard to case; and the classes of characters that
-- the regular expressions and the streams of the programs use, in the C locale.
mod Tests
use etransfer.Common.{
  ℕ, ◌-◌, true, false, Bool, [], ◌∷◌, Bytes, ◌&&◌, ◌||◌, not, length, leb, bytes_eq, List, ◌++◌,
  ltb, ◌==◌, if◌then◌else◌,
}

-- isspace(3), and \s of ECMAScript on bytes
unfoldable pub is_space : ℕ → Bool
is_space c = (c == b' ') || (leb 9 c && leb c 13)

unfoldable pub is_digit : ℕ → Bool
is_digit c = leb b'0' c && leb c b'9'

-- toupper(3)
unfoldable pub to_upper : ℕ → ℕ
to_upper c = if leb b'a' c && leb c b'z' then c - 32 else c

-- The part of a text in front of the first byte that fails the test, and the rest.
module _ (p : ℕ → Bool) where
  abbrev pub take_while : Bytes → Bytes
  take_while [] = []
  take_while (c ∷ s) = if p c then c ∷ take_while s else []

  abbrev pub drop_while : Bytes → Bytes
  drop_while [] = []
  drop_while (c ∷ s) = if p c then drop_while s else c ∷ s

-- std::equal with case_insensitive_eq_t, on texts of one length
unfoldable pub equal_ci : Bytes → Bytes → Bool
unfolding to_upper
equal_ci [] r = true
equal_ci (a ∷ l) [] = true
equal_ci (a ∷ l) (b ∷ r) = (to_upper a == to_upper b) && equal_ci l r

unfoldable pub stricmp : Bytes → Bytes → Bool
unfolding equal_ci
stricmp l r = if length l == length r then equal_ci l r else false

-- case_insensitive_lt: std::lexicographical_compare with case_insensitive_lt_t
unfoldable pub case_insensitive_lt : Bytes → Bytes → Bool
unfolding to_upper
case_insensitive_lt l [] = false
case_insensitive_lt [] (b ∷ r) = true
case_insensitive_lt (a ∷ l) (b ∷ r) =
    let rest = case_insensitive_lt l r in
    if ltb (to_upper a) (to_upper b)
    then true
    else if ltb (to_upper b) (to_upper a)
    then false
    else rest

-- `is >> s` on a std::string: the next word.
unfoldable pub next_word : Bytes → Bytes
unfolding is_space
next_word s = take_while (λ c. not (is_space c)) (drop_while is_space s)

-- string_split, for a separator that is no letter and no digit: the parts between the matches of the
-- separator, or of a run of it. `after`: a match has just ended.
unfoldable pub split_parts : Bool → ℕ → Bool → Bytes → Bytes → List Bytes
split_parts skip_empty sep after part [] = if length part == 0 then [] else part ∷ []
split_parts skip_empty sep after part (c ∷ s) =
    let in_part = split_parts skip_empty sep false (part ++ c ∷ []) s in
    let behind = split_parts skip_empty sep true [] s in
    if not (c == sep) then in_part else if skip_empty && after then behind else part ∷ behind

-- Without a match the text is one part; an empty part at the end is no part.
unfoldable pub string_split : Bool → ℕ → Bytes → List Bytes
unfolding split_parts
string_split skip_empty sep s =
    if bytes_eq (take_while (λ c. not (c == sep)) s) s
    then s ∷ []
    else split_parts skip_empty sep false [] s
