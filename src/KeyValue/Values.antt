-- ===== src/KeyValue/Values.antt =====
-- Pairs of a key and a plain value are found as they were written.
use etransfer.Common.{
  take, ℕ, suc, ◌-◌, ◌≡◌, refl, ap, ◌∙◌, Bool, true, false, List, [], ◌∷◌, ◌++◌, some, Bytes, codes,
  arith, not, ◌&&◌, ◌==◌, length,
}
use etransfer.Text.{is_space, is_digit}
use etransfer.Exchange.{print_ℕ}
use etransfer.Proxy.{all_bytes}
use etransfer.Command.Parts.{
  is_field, take_while-end, drop_while-end, take_while-stop, drop_while-stop,
}
use etransfer.Command.Parts.{field-all}
use etransfer.Command.Numbers.{print_ℕ-field}
use etransfer.KeyValue.{
  is_letter, is_word_byte, is_key_byte, is_value_byte, plain_value, match_value, un_slash,
  match_colon, match_pair, ends_word, scan_pairs,
}

-- What a Uuid is written with: no space, comma, brace, quote or backslash.
unfoldable pub is_plain : ℕ → Bool
unfolding is_space
is_plain c =
    not (is_space c)
    && (not (c == b',') && (not (c == b'}') && (not (c == b'"') && not (c == b'\\'))))

pub all_bytes-weaken :
    (p q : ℕ → Bool)
    → ((c : ℕ) → p c ≡ true → q c ≡ true)
    → (s : Bytes) → all_bytes p s ≡ true
    → all_bytes q s ≡ true
unfolding all_bytes
all_bytes-weaken p q f [] h = refl
all_bytes-weaken p q f (c ∷ s) h = ground (arith, h, f c, all_bytes-weaken p q f s)

plain-value : (c : ℕ) → is_plain c ≡ true → is_value_byte c ≡ true
unfolding is_plain is_value_byte is_space
plain-value c h = ground (arith, h)

digit-plain : (c : ℕ) → is_digit c ≡ true → is_plain c ≡ true
unfolding is_plain is_digit is_space
digit-plain c h = ground (arith, h)

abbrev pub no_brace : ℕ → Bool
no_brace c = not (c == b'}')

pub plain-no_brace : (c : ℕ) → is_plain c ≡ true → no_brace c ≡ true
unfolding is_plain
plain-no_brace c h = ground (arith, h)

un_slash-plain : (s : Bytes) → all_bytes is_plain s ≡ true → un_slash s ≡ s
unfolding un_slash all_bytes is_plain
un_slash-plain [] h = refl
un_slash-plain (c ∷ s) h = ground (arith, h, un_slash-plain s)

-- A text of such bytes is read as a value up to a comma or to the end.
match_value-comma :
    (v s : Bytes) → is_field is_plain v ≡ true → match_value (v ++ b',' ∷ s) ≡ some (v, b',' ∷ s)
unfolding match_value plain_value is_plain is_value_byte all_bytes is_space
match_value-comma [] s h = absurd (ground (arith, h))
match_value-comma (c ∷ v) s h =
    let all =
      all_bytes-weaken is_plain is_value_byte plain-value (c ∷ v) (field-all is_plain (c ∷ v) h) in
    let visible : is_space c ≡ false = ground (arith, h) in
    let no_quote : (c == b'"') ≡ false = ground (arith, h) in
    rw
      (
        match_value,
        visible,
        no_quote,
        plain_value,
        take_while-stop is_value_byte (c ∷ v) b',' s all refl,
        drop_while-stop is_value_byte (c ∷ v) b',' s all refl,
      )
      refl

match_value-end : (v : Bytes) → is_field is_plain v ≡ true → match_value v ≡ some (v, [])
unfolding match_value plain_value is_plain is_value_byte all_bytes is_space
match_value-end [] h = absurd (ground (arith, h))
match_value-end (c ∷ v) h =
    let all =
      all_bytes-weaken is_plain is_value_byte plain-value (c ∷ v) (field-all is_plain (c ∷ v) h) in
    let visible : is_space c ≡ false = ground (arith, h) in
    let no_quote : (c == b'"') ≡ false = ground (arith, h) in
    rw
      (
        match_value,
        visible,
        no_quote,
        plain_value,
        take_while-end is_value_byte (c ∷ v) all,
        drop_while-end is_value_byte (c ∷ v) all,
      )
      refl

pub number-plain : (n : ℕ) → is_field is_plain (print_ℕ n) ≡ true
number-plain n = plain_field (print_ℕ n) (print_ℕ-field n)
  where
    plain_field : (s : Bytes) → is_field is_digit s ≡ true → is_field is_plain s ≡ true
    plain_field [] h = absurd (ground (arith, h))
    plain_field (c ∷ s) h =
        let all =
          all_bytes-weaken is_digit is_plain digit-plain (c ∷ s) (field-all is_digit (c ∷ s) h) in
        ground (arith, h, all)

-- A key that is matched goes into the list, with its value.
scan_pairs-hit :
    (fuel : ℕ) (c : ℕ) (s key value rest : Bytes)
    → match_pair (c ∷ s) ≡ some (key, value, rest)
    → (word : Bool) × (scan_pairs (suc fuel) false (c ∷ s)
        ≡ (key, value) ∷ scan_pairs fuel word rest)
unfolding scan_pairs
scan_pairs-hit fuel c s key value rest h =
    (ends_word (take (suc (length s) - length rest) (c ∷ s)), rw (scan_pairs, h) refl)

scan_pairs-comma :
    (fuel : ℕ) (word : Bool) (s : Bytes)
    → scan_pairs (suc (suc fuel)) word (b',' ∷ b' ' ∷ s) ≡ scan_pairs fuel false s
unfolding scan_pairs match_pair is_word_byte is_letter is_digit
scan_pairs-comma fuel true s = refl
scan_pairs-comma fuel false s = refl

match_uuid_pair :
    (u s : Bytes)
    → is_field is_plain u ≡ true
    → match_pair (codes "uuid:" ++ (u ++ b',' ∷ s)) ≡ some (codes "uuid", u, b',' ∷ s)
unfolding match_pair match_colon is_letter is_key_byte is_word_byte is_space is_digit
match_uuid_pair u s h =
    rw (match_pair, match_colon, match_value-comma u s h, un_slash-plain u (field-all is_plain u h))
      refl

match_sz_pair :
    (v : Bytes)
    → is_field is_plain v ≡ true
    → match_pair (codes "sz:" ++ v) ≡ some (codes "sz", v, [])
unfolding match_pair match_colon is_letter is_key_byte is_word_byte is_space is_digit
match_sz_pair v h =
    rw (match_pair, match_colon, match_value-end v h, un_slash-plain v (field-all is_plain v h))
      refl

match_push_pair :
    (s : Bytes) → match_pair (codes "push:1" ++ b',' ∷ s) ≡ some (codes "push", codes "1", b',' ∷ s)
unfolding match_pair match_colon match_value un_slash is_letter is_key_byte is_word_byte is_space
    is_digit
match_push_pair s = refl

scan_pairs-space :
    (fuel : ℕ) (s : Bytes) → scan_pairs (suc fuel) false (b' ' ∷ s) ≡ scan_pairs fuel false s
unfolding scan_pairs match_pair is_word_byte is_letter is_digit
scan_pairs-space fuel s = refl

-- The pairs of either command, in order.
pub uuid_first :
    (fuel : ℕ) (u s : Bytes) (kvs : List (Bytes × Bytes))
    → is_field is_plain u ≡ true
    → scan_pairs fuel false s ≡ kvs
    → scan_pairs
        (suc (suc (suc (suc fuel))))
        false
        (b' ' ∷ (codes "uuid:" ++ (u ++ b',' ∷ b' ' ∷ s)))
      ≡ (codes "uuid", u) ∷ kvs
uuid_first fuel u s kvs h more =
    let (word, first) =
      scan_pairs-hit (suc (suc fuel)) b'u' (codes "uid:" ++ (u ++ b',' ∷ b' ' ∷ s)) (codes "uuid") u
        (b',' ∷ b' ' ∷ s) (match_uuid_pair u (b' ' ∷ s) h) in
    scan_pairs-space (suc (suc (suc fuel))) (codes "uuid:" ++ (u ++ b',' ∷ b' ' ∷ s))
    ∙ (first ∙ ap (◌∷◌ (codes "uuid", u)) (scan_pairs-comma fuel word s ∙ more))

pub scan_pairs-sz :
    (fuel : ℕ) (v : Bytes)
    → is_field is_plain v ≡ true
    → scan_pairs (suc fuel) false (codes "sz:" ++ v) ≡ (codes "sz", v) ∷ []
unfolding scan_pairs
scan_pairs-sz fuel v h =
    let (word, e) =
      scan_pairs-hit fuel b's' (codes "z:" ++ v) (codes "sz") v [] (match_sz_pair v h) in
    e

pub scan_pairs-push :
    (fuel : ℕ) (v : Bytes)
    → is_field is_plain v ≡ true
    → scan_pairs (suc (suc (suc (suc fuel)))) false (codes "push:1, sz:" ++ v)
      ≡ (codes "push", codes "1") ∷ (codes "sz", v) ∷ []
scan_pairs-push fuel v h =
    let (word, e) =
      scan_pairs-hit (suc (suc (suc fuel))) b'p' (codes "ush:1, sz:" ++ v) (codes "push")
        (codes "1") (codes ", sz:" ++ v) (match_push_pair (codes " sz:" ++ v)) in
    e
    ∙ ap (◌∷◌ (codes "push", codes "1"))
        (scan_pairs-comma (suc fuel) word (codes "sz:" ++ v) ∙ scan_pairs-sz fuel v h)
