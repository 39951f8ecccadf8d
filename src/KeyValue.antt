-- ===== src/KeyValue.antt =====
-- src/etdc_etdserver.cc: getKeyValuePairs, the parser of key and value pairs in a data command, and the map
-- that they go into, which refuses duplicates (src/utilities.h).
pub mod Values
use etransfer.Common.{
  ℕ, zero, suc, ◌+◌, ◌-◌, ◌*◌, ◌^◌, take, Bool, true, false, List, [], ◌∷◌, ◌++◌, Option, none,
  some, Bytes, codes, Result, ok, err, out_of_fuel, read_hung_up, missing_field, duplicate_field,
  bad_number, bad_push, no_command, not_initialized, not_for_reading, not_for_writing, length, leb,
  ltb, not, bytes_eq, ◌==◌, ◌&&◌, ◌||◌, if◌then◌else◌,
}
use etransfer.Common.Int.{ℤ, pos, negsuc}
use etransfer.Text.{is_space, is_digit, take_while, drop_while, case_insensitive_lt}
use etransfer.Fd.{EtdcFd}
use etransfer.OpenMode.{OpenMode}
use etransfer.DevZero.{digits_value}
use etransfer.Files.{Store}
use etransfer.State.{Transfer, EtdState, find_uuid}
use etransfer.Server.{Attempt, again, done, is_read_mode}
use etransfer.Copy.{push_n, pull_n}
use etransfer.Exchange.{may_fill}

-- \w, and what a key and an unquoted value consist of
unfoldable pub is_letter : ℕ → Bool
is_letter c = (leb b'a' c && leb c b'z') || (leb b'A' c && leb c b'Z')

unfoldable pub is_word_byte : ℕ → Bool
unfolding is_letter is_digit
is_word_byte c = is_letter c || (is_digit c || (c == b'_'))

unfoldable pub is_key_byte : ℕ → Bool
unfolding is_word_byte
is_key_byte c = is_word_byte c || (c == b'-')

unfoldable pub is_value_byte : ℕ → Bool
is_value_byte c = not ((c == b',') || ((c == b' ') || ((c == 9) || (c == 11))))

-- "(.*(?!\\))"" behind the first quote: up to the last quote of the line. What the lookahead excludes
-- is a backslash, where a quote must stand.
unfoldable pub last_quote : Bytes → Option (Bytes × Bytes)
last_quote [] = none
last_quote (c ∷ s) =
    let later = last_quote s in
    if (c == 10) || (c == 13) then none else elim later [
      | some (text, rest) ↦ some (c ∷ text, rest)
      | none ↦ if c == b'"' then some ([], s) else none
    ]

-- "[^, \t\v]+"
unfoldable pub plain_value : Bytes → Option (Bytes × Bytes)
unfolding is_value_byte
plain_value s = elim (take_while is_value_byte s) [
  | [] ↦ none
  | c ∷ v ↦ some (c ∷ v, drop_while is_value_byte s)
]

-- A quoted value, whose third group is the text between the quotes; the second, with the quotes, stands
-- in for it if that is empty.
unfoldable pub quoted_value : Bytes → Option (Bytes × Bytes)
unfolding last_quote
quoted_value s = elim (last_quote s) [
  | none ↦ none
  | some (text, rest) ↦ elim text [ [] ↦ some (codes "\"\"", rest) | c ∷ t ↦ some (c ∷ t, rest) ]
]

-- "\s*" and the value: the spaces are given back one by one if nothing else fits.
unfoldable pub match_value : Bytes → Option (Bytes × Bytes)
unfolding is_space plain_value quoted_value
match_value [] = none
match_value (c ∷ s) =
    let behind = match_value s in
    let plain = plain_value (c ∷ s) in
    if is_space c
    then elim behind [ some r ↦ some r | none ↦ plain ]
    else if c == b'"'
    then elim (quoted_value s) [ some r ↦ some r | none ↦ plain ]
    else plain

-- unSlash
unfoldable pub un_slash : Bytes → Bytes
un_slash [] = []
un_slash (c ∷ s) = if c == b'\\' then un_slash s else c ∷ un_slash s

-- The colon between key and value, behind "\s*", and the value.
unfoldable pub match_colon : Bytes → Bytes → Option (Bytes × Bytes × Bytes)
unfolding match_value un_slash
match_colon key s = elim (drop_while is_space s) [
  | [] ↦ none
  | c ∷ r ↦
      if c == b':'
      then elim (match_value r) [
        | none ↦ none
        | some (value, rest) ↦ some (key, un_slash value, rest)
      ]
      else none
]

-- A match of rxKeyValue at this place, where no word goes on: the key, the value, and what stands behind.
unfoldable pub match_pair : Bytes → Option (Bytes × Bytes × Bytes)
unfolding match_colon is_letter is_key_byte
match_pair [] = none
match_pair (c ∷ s) =
    if is_letter c
    then elim (take_while is_key_byte s) [
      | [] ↦ none
      | d ∷ key ↦ match_colon (c ∷ d ∷ key) (drop_while is_key_byte s)
    ]
    else none

-- Whether the last byte is one of a word.
unfoldable pub ends_word : Bytes → Bool
unfolding is_word_byte
ends_word [] = false
ends_word (d ∷ []) = is_word_byte d
ends_word (d ∷ e ∷ s) = ends_word (e ∷ s)

-- getKeyValuePairs: the search goes on behind each match. `word` tells whether the byte before is one of
-- a word. There are as many rounds as bytes.
unfoldable pub scan_pairs : ℕ → Bool → Bytes → List (Bytes × Bytes)
unfolding match_pair ends_word
scan_pairs fuel word [] = []
scan_pairs zero word (c ∷ s) = []
scan_pairs (suc fuel) word (c ∷ s) = elim (if word then none else match_pair (c ∷ s)) [
  | none ↦ scan_pairs fuel (is_word_byte c) s
  | some (key, value, rest) ↦
      (key, value) ∷ scan_pairs fuel (ends_word (take (suc (length s) - length rest) (c ∷ s))) rest
]

-- The keys of kvmap_type are the same if neither comes before the other.
unfoldable pub same_key : Bytes → Bytes → Bool
unfolding case_insensitive_lt
same_key l r = not (case_insensitive_lt l r) && not (case_insensitive_lt r l)

unfoldable pub find_key : Bytes → List (Bytes × Bytes) → Option Bytes
unfolding same_key
find_key key [] = none
find_key key ((k, v) ∷ kvs) = if same_key k key then some v else find_key key kvs

-- The no_duplicates policy of each insertion. (The map is only searched: its order is left out.)
unfoldable pub no_duplicates :
    List (Bytes × Bytes) → List (Bytes × Bytes) → Result (List (Bytes × Bytes))
unfolding find_key
no_duplicates kvs [] = ok kvs
no_duplicates kvs ((key, value) ∷ pairs) = elim (find_key key kvs) [
  | some _ ↦ err duplicate_field
  | none ↦ no_duplicates ((key, value) ∷ kvs) pairs
]
