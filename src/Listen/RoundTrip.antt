-- ===== src/Listen/RoundTrip.antt =====
-- An address to listen on is read as it is written.
use mathlib.Core.Bool.{false≢true}
use etransfer.Common.{
  ℕ, ◌≤◌, true, false, [], ◌∷◌, ◌++◌, some, Bytes, codes, ok, length, leb, ◌==◌, ◌≡◌, ◌⊎◌, refl,
  arith, sym, subst, inl, inr, append_assoc,
}
use etransfer.Text.{is_digit, take_while, drop_while}
use etransfer.DevZero.{digits_value}
use etransfer.Exchange.{print_ℕ}
use etransfer.Exchange.Decimal.{digits_value-print_ℕ}
use etransfer.Proxy.{all_bytes}
use etransfer.Address.{occurs, in_brackets, bracket, is_alnum, is_hex_byte, is_host_byte}
use etransfer.Address.Hosts.{bracket-name, bracket-literal}
use etransfer.Command.Parts.{
  is_field, take_while-stop, drop_while-stop, take_while-end, drop_while-end,
}
use etransfer.Command.Numbers.{print_ℕ-field}
use etransfer.Url.{url_literal, protocol_part}
use etransfer.Url.Parts.{url_literal-hex}
use etransfer.Url.RoundTrip.{Protocol, name, protocol_part-name}
use etransfer.Listen.{listen_host, listen_port, port_of, listen_address}

-- A host name, which may be empty, or a hexadecimal literal.
abbrev pub IsListenHost : Bytes → Type 0
IsListenHost h =
    (all_bytes is_host_byte h ≡ true) ⊎ ((all_bytes is_hex_byte h ≡ true) × (occurs b':' h ≡ true))

byte-no_bracket : (c : ℕ) → is_host_byte c ≡ true → (c == b'[') ≡ false
unfolding is_host_byte is_alnum is_digit
byte-no_bracket c h = ground (arith, h)

listen_host-plain :
    (c : ℕ) (s host rest : Bytes)
    → (c == b'[') ≡ false
    → take_while is_host_byte (c ∷ s) ≡ host
    → drop_while is_host_byte (c ∷ s) ≡ rest
    → listen_host (c ∷ s) ≡ some (host, rest)
unfolding listen_host
listen_host-plain c s host rest n t d = rw (listen_host, n) (rw (t, d) refl)

listen_host-name :
    (h s : Bytes)
    → all_bytes is_host_byte h ≡ true
    → listen_host (h ++ b':' ∷ s) ≡ some (h, b':' ∷ s)
unfolding listen_host all_bytes is_host_byte is_alnum is_digit
listen_host-name [] s h = refl
listen_host-name (c ∷ w) s h =
    listen_host-plain c (w ++ b':' ∷ s) (c ∷ w) (b':' ∷ s) (byte-no_bracket c (ground (arith, h)))
      (take_while-stop is_host_byte (c ∷ w) b':' s h refl)
      (drop_while-stop is_host_byte (c ∷ w) b':' s h refl)

listen_host-literal :
    (c : ℕ) (w s : Bytes)
    → all_bytes is_hex_byte (c ∷ w) ≡ true
    → listen_host (in_brackets (c ∷ w) ++ b':' ∷ s) ≡ some (c ∷ w, b':' ∷ s)
unfolding listen_host in_brackets
listen_host-literal c w s h =
    subst (λ t. url_literal t ≡ some (c ∷ w, b':' ∷ s))
      (sym (append_assoc (c ∷ w) (b']' ∷ []) (b':' ∷ s))) (url_literal-hex c w (b':' ∷ s) h)

listen_host-bracket :
    (h s : Bytes) → IsListenHost h → listen_host (bracket h ++ b':' ∷ s) ≡ some (h, b':' ∷ s)
unfolding is_host_byte is_alnum is_digit occurs
listen_host-bracket h s (inl plain) =
    rw (bracket-name is_host_byte h plain refl refl refl) (listen_host-name h s plain)
listen_host-bracket [] s (inr (hex, colon)) = absurd (false≢true colon)
listen_host-bracket (c ∷ w) s (inr (hex, colon)) =
    rw (bracket-literal (c ∷ w) hex colon) (listen_host-literal c w s hex)

listen_port-of :
    (default_port : ℕ) (s digits : Bytes) (port : ℕ)
    → take_while is_digit s ≡ digits
    → drop_while is_digit s ≡ []
    → leb 1 (length digits) ≡ true
    → digits_value 0 digits ≡ port
    → leb port 65535 ≡ true
    → listen_port default_port (b':' ∷ s) ≡ some (ok port)
unfolding listen_port
listen_port-of default_port s digits port t d l v le = rw (listen_port, t, d, l) (rw (v, le) refl)

listen_port-digits :
    (default_port : ℕ) (n : Bytes) (port : ℕ)
    → is_field is_digit n ≡ true
    → digits_value 0 n ≡ port
    → port ≤ 65535
    → listen_port default_port (b':' ∷ n) ≡ some (ok port)
unfolding all_bytes is_digit
listen_port-digits default_port [] port h v le = absurd (false≢true h)
listen_port-digits default_port (c ∷ w) port h v le =
    let all : all_bytes is_digit (c ∷ w) ≡ true = ground (arith, h) in
    listen_port-of default_port (c ∷ w) (c ∷ w) port (take_while-end is_digit (c ∷ w) all)
      (drop_while-end is_digit (c ∷ w) all) (ground arith) v (ground arith)

listen_address-of :
    (default_port : ℕ) (s protocol r host r' : Bytes) (port : ℕ)
    → protocol_part s ≡ some (protocol, r)
    → listen_host r ≡ some (host, r')
    → listen_port default_port r' ≡ some (ok port)
    → listen_address default_port s ≡ ok (record { protocol = protocol; host = host; port = port })
unfolding listen_address port_of
listen_address-of default_port s protocol r host r' port p h q = rw (listen_address, p, h, q) refl

-- An address to listen on that is written as protocol, host, which may be empty and is in brackets if it
-- is a literal, and port is read as these, whatever the default port: the host is a name of letters,
-- digits, dashes and dots or a literal of hexadecimal digits and colons; the port is below 2 ^ 16.
pub listen_address-text :
    (default_port : ℕ) (p : Protocol) (host : Bytes) (port : ℕ)
    → IsListenHost host
    → port ≤ 65535
    → listen_address default_port (name p ++ codes "://" ++ (bracket host ++ b':' ∷ print_ℕ port))
      ≡ ok (record { protocol = name p; host = host; port = port })
listen_address-text default_port p host port h le =
    let rest = bracket host ++ b':' ∷ print_ℕ port in
    listen_address-of default_port (name p ++ codes "://" ++ rest) (name p) rest host
      (b':' ∷ print_ℕ port) port (protocol_part-name p rest)
      (listen_host-bracket host (print_ℕ port) h)
      (listen_port-digits default_port (print_ℕ port) port (print_ℕ-field port)
        (digits_value-print_ℕ port) le)
