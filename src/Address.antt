-- ===== src/Address.antt =====
-- src/etdc_fd.h and src/etdc_etdserver.cc: the text of the address of a data channel, as it is written
-- and as decode_data_addr reads it.
pub mod Hosts
mod RoundTrip
mod Tests
use etransfer.Common.{
  ℕ, zero, suc, ◌+◌, Bool, true, false, List, [], ◌∷◌, ◌++◌, Option, none, some, Bytes, codes,
  length, leb, not, bytes_eq, ◌==◌, ◌&&◌, ◌||◌, if◌then◌else◌,
}
use etransfer.Text.{is_digit, take_while, drop_while}
use etransfer.DevZero.{digits_value}
use etransfer.Exchange.{print_ℕ}
use etransfer.State.{SockName}

-- Whether a byte stands in a text.
unfoldable pub occurs : ℕ → Bytes → Bool
occurs d [] = false
occurs d (c ∷ s) = (c == d) || occurs d s

unfoldable pub in_brackets : Bytes → Bytes
in_brackets s = b'[' ∷ (s ++ b']' ∷ [])

-- bracket: a host with a colon, a slash or a percent sign is bracketed, unless it starts with a bracket.
unfoldable pub bracket : Bytes → Bytes
unfolding occurs in_brackets
bracket [] = []
bracket (c ∷ s) =
    let is_literal = occurs b':' (c ∷ s) || (occurs b'/' (c ∷ s) || occurs b'%' (c ∷ s)) in
    if not is_literal || (c == b'[') then c ∷ s else in_brackets (c ∷ s)

-- operator<< of a sockname_type
unfoldable pub print_sockname : SockName → Bytes
unfolding bracket print_ℕ
print_sockname a =
    b'<' ∷ (a.protocol ++ b'/' ∷ (bracket a.host ++ b':' ∷ (print_ℕ a.port ++ b'>' ∷ [])))

abbrev is_between : ℕ → ℕ → ℕ → Bool
is_between lo hi c = leb lo c && leb c hi

-- [a-zA-Z0-9], [:0-9a-zA-Z], [:0-9a-fA-F], and what a host name consists of
unfoldable pub is_alnum : ℕ → Bool
unfolding is_digit
is_alnum c = is_digit c || (is_between b'a' b'z' c || is_between b'A' b'Z' c)

unfoldable pub is_literal_byte : ℕ → Bool
unfolding is_alnum
is_literal_byte c = (c == b':') || is_alnum c

unfoldable pub is_hex_byte : ℕ → Bool
unfolding is_digit
is_hex_byte c = (c == b':') || (is_digit c || (is_between b'a' b'f' c || is_between b'A' b'F' c))

unfoldable pub is_host_byte : ℕ → Bool
unfolding is_alnum
is_host_byte c = is_alnum c || ((c == b'-') || (c == b'.'))

-- One or more bytes of a kind, at most n of them: what stands behind them.
unfoldable pub some_of : (ℕ → Bool) → ℕ → Bytes → Option Bytes
some_of p n s =
    let word = take_while p s in
    if leb 1 (length word) && leb (length word) n then some (drop_while p s) else none

-- "(c…)?": what stands behind the part that c starts, if there is one.
unfoldable pub optional_part : ℕ → (ℕ → Bool) → ℕ → Bytes → Option Bytes
unfolding some_of
optional_part d p n [] = some []
optional_part d p n (c ∷ s) = if c == d then some_of p n s else some (c ∷ s)

-- "[…]+(/[0-9]{1,3})?(%[a-zA-Z0-9]+)?" for a kind of bytes: what stands behind.
unfoldable pub behind_literal : (ℕ → Bool) → Bytes → Option Bytes
unfolding some_of optional_part is_digit is_alnum
behind_literal p s = elim (some_of p (length s) s) [
  | none ↦ none
  | some r ↦ elim (optional_part b'/' is_digit 3 r) [
    | none ↦ none
    | some r' ↦ optional_part b'%' is_alnum (length r') r'
  ]
]

-- The parts between dots.
unfoldable pub split_dots : Bytes → Bytes → List Bytes
split_dots label [] = label ∷ []
split_dots label (c ∷ s) =
    let joined = split_dots (label ++ c ∷ []) s in
    let rest = split_dots [] s in if c == b'.' then label ∷ rest else joined

unfoldable pub ends_alnum : Bytes → Bool
unfolding is_alnum
ends_alnum [] = false
ends_alnum (c ∷ []) = is_alnum c
ends_alnum (c ∷ d ∷ s) = ends_alnum (d ∷ s)

-- "[a-zA-Z0-9]|[a-zA-Z0-9][a-zA-Z0-9\-]{0,61}[a-zA-Z0-9]", of a text of letters, digits and dashes
unfoldable pub is_label : Bytes → Bool
unfolding ends_alnum is_alnum
is_label [] = false
is_label (c ∷ s) = is_alnum c && (ends_alnum (c ∷ s) && leb (length (c ∷ s)) 63)

unfoldable pub are_labels : List Bytes → Bool
unfolding is_label
are_labels [] = true
are_labels (l ∷ ls) = is_label l && are_labels ls

-- unbracket, of a host in brackets: they go if only hexadecimal digits and colons stand in front of the
-- optional parts.
unfoldable pub unbracket : Bytes → Bytes
unfolding behind_literal is_hex_byte in_brackets
unbracket s = elim (behind_literal is_hex_byte s) [
  | none ↦ in_brackets s
  | some r ↦ if bytes_eq r [] then s else in_brackets s
]

-- The second group of rxSockName without a bracket at its front: the host name, which must not be
-- longer than 255 bytes, and what stands behind it.
unfoldable pub host_name : Bytes → Option (Bytes × Bytes)
unfolding are_labels split_dots is_host_byte
host_name s =
    let name = take_while is_host_byte s in
    if are_labels (split_dots [] name) && leb (length name) 255
    then some (name, drop_while is_host_byte s)
    else none

-- The same with brackets. `inside` is what stands between them.
unfoldable pub host_literal : Bytes → Option (Bytes × Bytes)
unfolding behind_literal is_literal_byte unbracket
host_literal s =
    let inside = take_while (λ c. not (c == b']')) s in
    elim (behind_literal is_literal_byte inside) [
      | none ↦ none
      | some r ↦ elim (drop_while (λ c. not (c == b']')) s) [
        | [] ↦ none
        | _ ∷ behind ↦ if bytes_eq r [] then some (unbracket inside, behind) else none
      ]
    ]

unfoldable pub host_part : Bytes → Option (Bytes × Bytes)
unfolding host_name host_literal
host_part [] = none
host_part (c ∷ s) =
    let literal = host_literal s in
    let name = host_name (c ∷ s) in if c == b'[' then literal else name

-- ":([0-9]+)>$", and the range of a port
unfoldable pub port_part : Bytes → Option ℕ
unfolding digits_value
port_part [] = none
port_part (c ∷ s) =
    let digits = take_while is_digit s in
    let n = digits_value 0 digits in
    if (c == b':')
      && (leb 1 (length digits) && (bytes_eq (drop_while is_digit s) (b'>' ∷ []) && leb n 65535))
    then some n
    else none

-- decode_data_addr
unfoldable pub decode_data_addr : Bytes → Option SockName
unfolding host_part port_part
decode_data_addr [] = none
decode_data_addr (c ∷ s) =
    elim ((c == b'<') && leb 1 (length (take_while (λ d. not (d == b'/')) s))) [
      | false ↦ none
      | true ↦ elim (drop_while (λ d. not (d == b'/')) s) [
        | [] ↦ none
        | _ ∷ r ↦ elim (host_part r) [
          | none ↦ none
          | some (host, r') ↦ elim (port_part r') [
            | none ↦ none
            | some n ↦
                some
                  (record { protocol = take_while (λ d. not (d == b'/')) s; host = host; port = n })
          ]
        ]
      ]
    ]
