-- ===== src/DataServer/Header.antt =====
-- The fields of the commands that sendFile and getFile write are understood by the data server.
use etransfer.Common.{
  ℕ, suc, ◌+◌, ◌^◌, ◌<◌, ◌≡◌, refl, true, false, [], ◌∷◌, ◌++◌, some, Bytes, codes, ok, arith, ltb,
  lt→ltb, ◌==◌, length, length-append,
}
use etransfer.Common.Int.{pos}
use etransfer.Text.{is_space, is_digit, to_upper, case_insensitive_lt}
use etransfer.DevZero.{digits_value}
use etransfer.Exchange.{print_ℕ}
use etransfer.Exchange.Decimal.{digits_value-print_ℕ}
use etransfer.Proxy.{all_bytes}
use etransfer.Command.Parts.{is_field, take_while-end, take_while-stop}
use etransfer.Command.Parts.{field-all}
use etransfer.Command.Numbers.{print_ℕ-field}
use etransfer.KeyValue.{scan_pairs, same_key, find_key, no_duplicates}
use etransfer.DataServer.{stol_digits, signed_off_t, stol, verify, read_request, find_command}
use etransfer.KeyValue.Values.{
  is_plain, no_brace, number-plain, uuid_first, scan_pairs-sz, scan_pairs-push,
}

stol-digits :
    (s : Bytes) (n : ℕ)
    → is_field is_digit s ≡ true
    → digits_value 0 s ≡ n
    → n < 2 ^ 63
    → stol s ≡ some (pos n)
unfolding stol stol_digits signed_off_t is_digit all_bytes is_space
stol-digits [] n d e h = absurd (ground (arith, d))
stol-digits (c ∷ s) n d e h =
    let visible : is_space c ≡ false = ground (arith, d) in
    let no_minus : (c == b'-') ≡ false = ground (arith, d) in
    let no_plus : (c == b'+') ≡ false = ground (arith, d) in
    let all = take_while-end is_digit (c ∷ s) (field-all is_digit (c ∷ s) d) in
    rw (stol, visible, no_minus, no_plus, stol_digits, all, e, signed_off_t, lt→ltb n (2 ^ 63) h)
      refl

pub find_command-fields :
    (fields behind : Bytes)
    → all_bytes no_brace fields ≡ true
    → find_command (b'{' ∷ (fields ++ b'}' ∷ behind)) ≡ some (fields, length fields + 2)
unfolding find_command
find_command-fields fields behind h =
    let shorter : ltb (length fields) (length (fields ++ b'}' ∷ behind)) ≡ true =
      lt→ltb (length fields) (length (fields ++ b'}' ∷ behind))
        (omega (arith, length-append fields (b'}' ∷ behind))) in
    rw (find_command, take_while-stop no_brace fields b'}' behind h refl, shorter) refl

-- What sendFile and getFile write between the braces.
abbrev pub send_fields : Bytes → ℕ → Bytes
send_fields u n = b' ' ∷ (codes "uuid:" ++ (u ++ b',' ∷ b' ' ∷ (codes "sz:" ++ print_ℕ n)))

abbrev pub get_fields : Bytes → ℕ → Bytes
get_fields u n = b' ' ∷ (codes "uuid:" ++ (u ++ b',' ∷ b' ' ∷ (codes "push:1, sz:" ++ print_ℕ n)))

send_pairs :
    (u : Bytes) (n : ℕ)
    → is_field is_plain u ≡ true
    → scan_pairs (length (send_fields u n)) false (send_fields u n)
      ≡ (codes "uuid", u) ∷ (codes "sz", print_ℕ n) ∷ []
send_pairs u n h =
    let s = codes "sz:" ++ print_ℕ n in
    let fuel = length u + length (print_ℕ n) + 6 in
    let long : length (send_fields u n) ≡ suc (suc (suc (suc (suc fuel)))) =
      omega (arith, length-append u (b',' ∷ b' ' ∷ s)) in
    rw long (
      uuid_first (suc fuel) u s ((codes "sz", print_ℕ n) ∷ []) h
        (scan_pairs-sz fuel (print_ℕ n) (number-plain n)))

get_pairs :
    (u : Bytes) (n : ℕ)
    → is_field is_plain u ≡ true
    → scan_pairs (length (get_fields u n)) false (get_fields u n)
      ≡ (codes "uuid", u) ∷ (codes "push", codes "1") ∷ (codes "sz", print_ℕ n) ∷ []
get_pairs u n h =
    let s = codes "push:1, sz:" ++ print_ℕ n in
    let fuel = length u + length (print_ℕ n) + 11 in
    let long : length (get_fields u n) ≡ suc (suc (suc (suc (suc (suc (suc (suc fuel))))))) =
      omega (arith, length-append u (b',' ∷ b' ' ∷ s)) in
    rw long (
      uuid_first (suc (suc (suc (suc fuel)))) u s
        ((codes "push", codes "1") ∷ (codes "sz", print_ℕ n) ∷ []) h
        (scan_pairs-push fuel (print_ℕ n) (number-plain n)))

pub send_request :
    (u : Bytes) (n : ℕ)
    → is_field is_plain u ≡ true
    → n < 2 ^ 63
    → read_request (send_fields u n) ≡ ok (record { uuid = u; amount = pos n; push = false })
unfolding read_request no_duplicates find_key same_key case_insensitive_lt verify to_upper
send_request u n h small =
    let number = stol-digits (print_ℕ n) n (print_ℕ-field n) (digits_value-print_ℕ n) small in
    rw (read_request, send_pairs u n h) (rw number refl)

pub get_request :
    (u : Bytes) (n : ℕ)
    → is_field is_plain u ≡ true
    → n < 2 ^ 63
    → read_request (get_fields u n) ≡ ok (record { uuid = u; amount = pos n; push = true })
unfolding read_request no_duplicates find_key same_key case_insensitive_lt verify to_upper
get_request u n h small =
    let number = stol-digits (print_ℕ n) n (print_ℕ-field n) (digits_value-print_ℕ n) small in
    rw (read_request, get_pairs u n h) (rw number refl)
