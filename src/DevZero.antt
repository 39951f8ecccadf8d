-- ===== src/DevZero.antt =====
-- src/etdc_fd.h and src/etdc_fd.cc, class devzeronull: the file that is not there, "/dev/null" or
-- "/dev/zero:<size>". size_t and off_t are 64 bits wide; sizes wrap around.
mod Io
mod Tests
use etransfer.Common.{
  ℕ, zero, suc, ◌+◌, ◌-◌, ◌*◌, ◌/◌, ◌%◌, ◌^◌, min, max, Bool, true, false, List, [], ◌∷◌, Option,
  none, some, Bytes, codes, ◌&&◌, ◌||◌, not, length, bytes_eq, leb, ltb, ◌==◌, if◌then◌else◌,
}
use Prim.Native.Nat.{bit_and}
use etransfer.Common.Int.{ℤ, pos, negsuc, ltb_ℤ}
use etransfer.Fd.{Whence, seek_set, seek_cur, seek_end}
use etransfer.OpenMode.{o_rdonly, o_wronly, o_rdwr}
use etransfer.Text.{is_digit, take_while, drop_while}

-- The value of a run of digits, as std::stoull reads it. It throws above 2 ^ 64 - 1.
unfoldable pub digits_value : ℕ → Bytes → ℕ
digits_value n [] = n
digits_value n (c ∷ s) = digits_value (n * 10 + (c - b'0')) s

unfoldable pub stoull : Bytes → Option ℕ
unfolding digits_value
stoull s = let n = digits_value 0 s in if ltb n (2 ^ 64) then some n else none

-- What stands behind the size: "(([kMGT])(i?)B)?$". The exponent of `exponents`, and whether there is
-- an i.
pub data Unit10 : Type 0 where
  no_unit : Unit10
  unit : ℕ → Bool → Unit10

unfoldable pub exponent_of : ℕ → Option ℕ
exponent_of c =
    if c == b'k'
    then some 1
    else if c == b'M'
    then some 2
    else if c == b'G'
    then some 3
    else if c == b'T'
    then some 4
    else none

unfoldable pub unit_of : Bytes → Option Unit10
unfolding exponent_of
unit_of [] = some no_unit
unit_of (p ∷ b ∷ []) = elim (exponent_of p) [
  | none ↦ none
  | some e ↦ if b == b'B' then some (unit e false) else none
]
unit_of (p ∷ i ∷ b ∷ []) = elim (exponent_of p) [
  | none ↦ none
  | some e ↦ if (i == b'i') && (b == b'B') then some (unit e true) else none
]
unit_of _ = none

-- The text behind a prefix that it starts with.
unfoldable pub strip_prefix : Bytes → Bytes → Option Bytes
strip_prefix [] s = some s
strip_prefix (p ∷ ps) [] = none
strip_prefix (p ∷ ps) (c ∷ s) = if p == c then strip_prefix ps s else none

-- A match of rxDevZero: the digits and the unit.
unfoldable pub match_dev_zero : Bytes → Option (Bytes × Unit10)
unfolding strip_prefix unit_of is_digit
match_dev_zero path = elim (strip_prefix (codes "/dev/zero:") path) [
  | none ↦ none
  | some s ↦ elim (take_while is_digit s) [
    | [] ↦ none
    | d ∷ ds ↦ elim (unit_of (drop_while is_digit s)) [ none ↦ none | some u ↦ some (d ∷ ds, u) ]
  ]
]

unfoldable pub is_dev_zero : Bytes → Bool
unfolding match_dev_zero
is_dev_zero path = elim (match_dev_zero path) [ none ↦ false | some _ ↦ true ]

-- detail::ipow, in int64_t: the square of the base is computed once more than it is used. One round
-- for each halving of the exponent; the fuel is the exponent.
unfoldable pub ipow : ℕ → ℕ → ℕ → ℕ → ℕ
ipow fuel base zero result = result
ipow zero base (suc exp) result = result
ipow (suc fuel) base (suc exp) result =
    ipow fuel ((base * base) % 2 ^ 64) (suc exp / 2)
      (if suc exp % 2 == 1 then (result * base) % 2 ^ 64 else result)

-- The factor by which the constructor multiplies the size.
unfoldable pub unit_factor : Unit10 → ℕ
unfolding ipow
unit_factor no_unit = 1
unit_factor (unit e i) = ipow e (if i then 1000 else 1024) e 1

pub record DevZeroNull : Type 0 where
  pub closed : Bool
  pub mode : ℕ
  pub size : ℕ
  pub pointer : ℕ

-- The constructor; `none` if it throws.
unfoldable pub mk_device : Bytes → ℕ → Option DevZeroNull
unfolding match_dev_zero stoull unit_factor
mk_device path omode = elim (match_dev_zero path) [
  | none ↦
      if bytes_eq path (codes "/dev/null")
      then some (record { closed = false; mode = omode; size = 0; pointer = 0 })
      else none
  | some (digits, u) ↦ elim (stoull digits) [
    | none ↦ none
    | some n ↦
        some (record {
          closed = false;
          mode = omode;
          size = (n * unit_factor u) % 2 ^ 64;
          pointer = 0;
        })
  ]
]

-- read_fn: the number of bytes, `none` for -1. The buffer is not written to.
unfoldable pub device_read : ℕ → DevZeroNull → DevZeroNull × Option ℕ
device_read n d =
    if d.closed
      || (not (bit_and d.mode o_rdwr == o_rdwr) && not (bit_and d.mode o_rdonly == o_rdonly))
    then (d, none)
    else if leb d.size d.pointer
    then (d, some 0)
    else let next = min d.size ((d.pointer + n) % 2 ^ 64) in
      (record d { pointer = next }, some ((next + 2 ^ 64 - d.pointer) % 2 ^ 64))

-- write_fn
unfoldable pub device_write : ℕ → DevZeroNull → DevZeroNull × Option ℕ
device_write n d =
    if d.closed || ((bit_and d.mode o_rdwr == 0) && (bit_and d.mode o_wronly == 0))
    then (d, none)
    else let next = (d.pointer + n) % 2 ^ 64 in
      (record d { pointer = next; size = max d.size next }, some n)

-- off_t to size_t, and back
abbrev pub to_size : ℤ → ℕ
to_size (pos n) = n % 2 ^ 64
to_size (negsuc n) = (2 ^ 64 - 1 - n % 2 ^ 64) % 2 ^ 64

abbrev pub to_off : ℕ → ℤ
to_off n = if ltb n (2 ^ 63) then pos n else negsuc (2 ^ 64 - 1 - n)

-- lseek_fn: the new position, -1 for an error.
unfoldable pub device_lseek : ℤ → Whence → DevZeroNull → DevZeroNull × ℤ
device_lseek offset whence d =
    let at : ℕ → DevZeroNull × ℤ = λ p. (record d { pointer = p }, to_off p) in
    let failed : DevZeroNull × ℤ = (d, negsuc 0) in
    if d.closed then failed else elim whence [
      | seek_set ↦ at (to_size offset)
      | seek_cur ↦ at ((d.pointer + to_size offset) % 2 ^ 64)
      | seek_end ↦
          if ltb_ℤ (to_off d.size) offset
          then failed
          else at ((d.size + 2 ^ 64 - to_size offset) % 2 ^ 64)
    ]

-- close_fn
unfoldable pub device_close : DevZeroNull → DevZeroNull
device_close d = record d { closed = true }
