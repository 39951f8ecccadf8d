-- ===== src/Address/RoundTrip.antt =====
-- The address of a data channel that the daemon announces is the address that the client reads.
use mathlib.Core.Bool.{false≢true}
use etransfer.Common.{
  ℕ, ◌≤◌, Bool, true, false, [], ◌∷◌, ◌++◌, some, Bytes, length, leb, not, ◌==◌, ◌&&◌, ◌||◌,
  if◌then◌else◌, ◌≡◌, refl, arith, sym, subst, append_assoc,
}
use etransfer.Text.{is_digit, take_while, drop_while}
use etransfer.DevZero.{digits_value}
use etransfer.Exchange.{print_ℕ}
use etransfer.Exchange.Decimal.{digits_value-print_ℕ}
use etransfer.Proxy.{all_bytes}
use etransfer.State.{SockName}
use etransfer.Address.{
  occurs, in_brackets, bracket, print_sockname, is_alnum, is_literal_byte, is_hex_byte,
  is_host_byte, split_dots, are_labels, behind_literal, unbracket, host_name, host_literal,
  host_part, port_part, decode_data_addr,
}
use etransfer.Address.Hosts.{
  bracket-name, bracket-literal, hex-inside, behind_literal-hex, unbracket-hex,
}
use etransfer.Command.Parts.{is_field, take_while-stop, drop_while-stop}
use etransfer.Command.Numbers.{print_ℕ-field}

abbrev not_slash : ℕ → Bool
not_slash d = not (d == b'/')

-- A host name of labels between dots, of 255 bytes at most.
abbrev is_name : Bytes → Bool
is_name h = all_bytes is_host_byte h && (are_labels (split_dots [] h) && leb (length h) 255)

-- What is read for a host: a name or a hexadecimal literal with a colon is read as it is, and what
-- getsockname gives for IPv6, a literal in brackets, loses them.
pub data IsReadAs : Bytes → Bytes → Type 0 where
  as_name : (h : Bytes) → is_name h ≡ true → IsReadAs h h
  as_literal : (h : Bytes) → all_bytes is_hex_byte h ≡ true → occurs b':' h ≡ true → IsReadAs h h
  as_bracketed :
      (c : ℕ) (h : Bytes)
      → all_bytes is_hex_byte (c ∷ h) ≡ true
      → IsReadAs (in_brackets (c ∷ h)) (c ∷ h)

host_name-of :
    (s host rest : Bytes)
    → take_while is_host_byte s ≡ host
    → drop_while is_host_byte s ≡ rest
    → (are_labels (split_dots [] host) && leb (length host) 255) ≡ true
    → host_name s ≡ some (host, rest)
unfolding host_name
host_name-of s host rest t d l = rw (host_name, t, d, l) refl

host_byte-no_bracket : (c : ℕ) → is_host_byte c ≡ true → (c == b'[') ≡ false
unfolding is_host_byte is_alnum is_digit
host_byte-no_bracket c h = ground (arith, h)

host_part-name : (h s : Bytes) → is_name h ≡ true → host_part (h ++ b':' ∷ s) ≡ some (h, b':' ∷ s)
unfolding host_part all_bytes is_host_byte is_alnum is_digit
host_part-name [] s h = absurd (ground (arith, h))
host_part-name (c ∷ w) s h =
    let all : all_bytes is_host_byte (c ∷ w) ≡ true = ground (arith, h) in
    let start : (c == b'[') ≡ false = host_byte-no_bracket c (ground (arith, all)) in
    let labels : (are_labels (split_dots [] (c ∷ w)) && leb (length (c ∷ w)) 255) ≡ true =
      ground (arith, h) in
    rw (host_part, start)
      (host_name-of ((c ∷ w) ++ b':' ∷ s) (c ∷ w) (b':' ∷ s)
        (take_while-stop is_host_byte (c ∷ w) b':' s all refl)
        (drop_while-stop is_host_byte (c ∷ w) b':' s all refl) labels)

host_literal-of :
    (s inside rest : Bytes)
    → take_while (λ c. not (c == b']')) s ≡ inside
    → drop_while (λ c. not (c == b']')) s ≡ b']' ∷ rest
    → behind_literal is_literal_byte inside ≡ some []
    → unbracket inside ≡ inside
    → host_literal s ≡ some (inside, rest)
unfolding host_literal
host_literal-of s inside rest t d b u = rw (host_literal, t, b, d) (rw (t, u) refl)

hex-literal : (s : Bytes) → all_bytes is_hex_byte s ≡ true → all_bytes is_literal_byte s ≡ true
unfolding all_bytes is_hex_byte is_literal_byte is_alnum is_digit
hex-literal [] h = refl
hex-literal (c ∷ s) h =
    let rest : all_bytes is_literal_byte s ≡ true = hex-literal s (ground (arith, h)) in
    ground (arith, h, rest)

host_part-literal :
    (c : ℕ) (w s : Bytes)
    → all_bytes is_hex_byte (c ∷ w) ≡ true
    → host_part (in_brackets (c ∷ w) ++ b':' ∷ s) ≡ some (c ∷ w, b':' ∷ s)
unfolding host_part in_brackets
host_part-literal c w s h =
    let inside = hex-inside (c ∷ w) h in
    let kind : ℕ → Bool = λ d. not (d == b']') in
    subst (λ t. host_literal t ≡ some (c ∷ w, b':' ∷ s))
      (sym (append_assoc (c ∷ w) (b']' ∷ []) (b':' ∷ s)))
      (host_literal-of ((c ∷ w) ++ b']' ∷ b':' ∷ s) (c ∷ w) (b':' ∷ s)
        (take_while-stop kind (c ∷ w) b']' (b':' ∷ s) inside refl)
        (drop_while-stop kind (c ∷ w) b']' (b':' ∷ s) inside refl)
        (behind_literal-hex is_literal_byte c w (hex-literal (c ∷ w) h)) (unbracket-hex c w h))

if-true : (b : Bool) (s t : Bytes) → (if b || true then s else t) ≡ s
if-true true s t = refl
if-true false s t = refl

-- What stands in brackets gets no more of them.
bracket-in_brackets : (s : Bytes) → bracket (in_brackets s) ≡ in_brackets s
unfolding bracket in_brackets
bracket-in_brackets s = if-true _ (in_brackets s) (in_brackets (in_brackets s))

host_part-bracket :
    (h plain s : Bytes)
    → IsReadAs h plain
    → host_part (bracket h ++ b':' ∷ s) ≡ some (plain, b':' ∷ s)
unfolding is_host_byte is_alnum is_digit occurs
host_part-bracket h plain s (as_name _ name) =
    rw (bracket-name is_host_byte h (ground (arith, name)) refl refl refl) (host_part-name h s name)
host_part-bracket h plain s (as_literal [] hex colon) = absurd (false≢true colon)
host_part-bracket h plain s (as_literal (c ∷ w) hex colon) =
    rw (bracket-literal (c ∷ w) hex colon) (host_part-literal c w s hex)
host_part-bracket h plain s (as_bracketed c w hex) =
    rw (bracket-in_brackets (c ∷ w)) (host_part-literal c w s hex)

port_part-of :
    (s digits : Bytes) (port : ℕ)
    → take_while is_digit s ≡ digits
    → drop_while is_digit s ≡ b'>' ∷ []
    → leb 1 (length digits) ≡ true
    → digits_value 0 digits ≡ port
    → leb port 65535 ≡ true
    → port_part (b':' ∷ s) ≡ some port
unfolding port_part
port_part-of s digits port t d l v le = rw (port_part, t, d, l, v, le) refl

port_part-digits :
    (n : Bytes) (port : ℕ)
    → is_field is_digit n ≡ true
    → digits_value 0 n ≡ port
    → port ≤ 65535
    → port_part (b':' ∷ (n ++ b'>' ∷ [])) ≡ some port
unfolding all_bytes is_digit
port_part-digits [] port h v le = absurd (ground (arith, h))
port_part-digits (c ∷ w) port h v le =
    let all : all_bytes is_digit (c ∷ w) ≡ true = ground (arith, h) in
    port_part-of ((c ∷ w) ++ b'>' ∷ []) (c ∷ w) port
      (take_while-stop is_digit (c ∷ w) b'>' [] all refl)
      (drop_while-stop is_digit (c ∷ w) b'>' [] all refl) (ground arith) v (ground arith)

decode_data_addr-of :
    (s protocol r host r' : Bytes) (port : ℕ)
    → take_while not_slash s ≡ protocol
    → drop_while not_slash s ≡ b'/' ∷ r
    → leb 1 (length protocol) ≡ true
    → host_part r ≡ some (host, r')
    → port_part r' ≡ some port
    → decode_data_addr (b'<' ∷ s) ≡ some (record { protocol = protocol; host = host; port = port })
unfolding decode_data_addr
decode_data_addr-of s protocol r host r' port t d l h p =
    rw (decode_data_addr, t, l, d, h, p) (rw (t) refl)

-- The text of an address is read back as that address, with its host as IsReadAs says: its protocol is
-- not empty and has no slash, its host is a name of valid labels of 255 bytes at most, a hexadecimal
-- literal with a colon, or a hexadecimal literal in brackets, which are taken off, and its port is below
-- 2 ^ 16.
pub decode_data_addr-print_sockname :
    (a : SockName) (plain : Bytes)
    → leb 1 (length a.protocol) ≡ true
    → all_bytes not_slash a.protocol ≡ true
    → IsReadAs a.host plain
    → a.port ≤ 65535
    → decode_data_addr (print_sockname a) ≡ some (record a { host = plain })
unfolding print_sockname
decode_data_addr-print_sockname a plain some_protocol no_slash host le =
    let digits = print_ℕ a.port in
    let behind = bracket a.host ++ b':' ∷ (digits ++ b'>' ∷ []) in
    decode_data_addr-of (a.protocol ++ b'/' ∷ behind) a.protocol behind plain
      (b':' ∷ (digits ++ b'>' ∷ [])) a.port
      (take_while-stop not_slash a.protocol b'/' behind no_slash refl)
      (drop_while-stop not_slash a.protocol b'/' behind no_slash refl) some_protocol
      (host_part-bracket a.host plain (digits ++ b'>' ∷ []) host)
      (port_part-digits digits a.port (print_ℕ-field a.port) (digits_value-print_ℕ a.port) le)
