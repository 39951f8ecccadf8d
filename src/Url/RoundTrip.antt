-- ===== src/Url/RoundTrip.antt =====
-- A remote URL that is written in full is read as it is written.
use mathlib.Core.Bool.{false≢true}
use etransfer.Common.{
  ℕ, ◌≤◌, Bool, true, false, [], ◌∷◌, ◌++◌, some, Bytes, codes, ok, length, leb, ltb, ◌≡◌, refl,
  arith, ◌∙◌,
}
use etransfer.Text.{is_digit, stricmp}
use etransfer.DevZero.{digits_value, strip_prefix}
use etransfer.Exchange.{print_ℕ}
use etransfer.Exchange.Decimal.{digits_value-print_ℕ}
use etransfer.Proxy.{all_bytes}
use etransfer.Address.{bracket, is_alnum}
use etransfer.Command.Parts.{is_field}
use etransfer.Command.Numbers.{print_ℕ-field}
use etransfer.Url.Parts.{
  user_at, IsHost, url_port-digits, url_host-bracket, user_part-text, path_part-path,
}
use etransfer.Url.{
  Remote, is_path, protocol_end, with_six, protocol_part, user_part, url_host, url_port, path_part,
  remote_part, match_remote, url_of, str2url,
}

-- "(tcp|udt)6?"
pub data Protocol : Type 0 where
  tcp tcp6 udt udt6 : Protocol

abbrev pub name : Protocol → Bytes
name tcp = codes "tcp"
name tcp6 = codes "tcp6"
name udt = codes "udt"
name udt6 = codes "udt6"

-- "protocol://user@host#port:path"
abbrev pub url_text : Protocol → Bytes → Bytes → ℕ → Bytes → Bytes
url_text p user host port path =
    name p ++ codes "://" ++ user_at user (bracket host ++ b'#' ∷ (print_ℕ port ++ b':' ∷ path))

pub protocol_part-name :
    (p : Protocol) (s : Bytes) → protocol_part (name p ++ codes "://" ++ s) ≡ some (name p, s)
unfolding protocol_part with_six protocol_end strip_prefix stricmp
protocol_part-name tcp s = refl
protocol_part-name tcp6 s = refl
protocol_part-name udt s = refl
protocol_part-name udt6 s = refl

remote_part-of :
    (p s user r host r' port r'' path : Bytes)
    → user_part s ≡ (user, r)
    → url_host r ≡ some (host, r')
    → url_port r' ≡ (port, r'')
    → path_part r'' ≡ some path
    → remote_part p s
      ≡ some (record {
        protocol_text = p;
        user_text = user;
        host_text = host;
        port_text = port;
        rest = path;
      })
unfolding remote_part
remote_part-of p s user r host r' port r'' path a b c d =
    rw (remote_part, a, b, c, d) (rw (a, c) refl)

match_remote-of :
    (s p r : Bytes) (m : Remote)
    → protocol_part s ≡ some (p, r)
    → remote_part p r ≡ some m
    → match_remote s ≡ some m
unfolding match_remote
match_remote-of s p r m a b = rw (match_remote, a, b) refl

name-some : (p : Protocol) → ltb 0 (length (name p)) ≡ true
name-some tcp = refl
name-some tcp6 = refl
name-some udt = refl
name-some udt6 = refl

field-some : (p : ℕ → Bool) (s : Bytes) → is_field p s ≡ true → ltb 0 (length s) ≡ true
field-some p [] h = absurd (false≢true h)
field-some p (c ∷ s) h = ground arith

url_of-fields :
    (p user host digits path : Bytes) (port : ℕ)
    → ltb 0 (length p) ≡ true
    → ltb 0 (length digits) ≡ true
    → digits_value 0 digits ≡ port
    → leb port 65535 ≡ true
    → url_of (record {
      protocol_text = p;
      user_text = user;
      host_text = host;
      port_text = digits;
      rest = path;
    })
      ≡ ok (record {
        protocol = p;
        user = user;
        host = host;
        port = port;
        path = path;
        is_local = false;
      })
unfolding url_of
url_of-fields p user host digits path port a b c d = rw (a, b, c, d) refl

str2url-of : (s : Bytes) (m : Remote) → match_remote s ≡ some m → str2url s ≡ url_of m
unfolding str2url
str2url-of s m e = rw (str2url, e) refl

-- A remote URL with its protocol, its user or none, its host in brackets if it is a literal, its port
-- and its path is read back: the host is a name of the bytes that a URL has, or a literal of hexadecimal
-- digits and colons; the port is below 2 ^ 16; the path is not empty and is one line.
pub str2url-url_text :
    (p : Protocol) (user host : Bytes) (port : ℕ) (path : Bytes)
    → all_bytes is_alnum user ≡ true
    → IsHost host
    → port ≤ 65535
    → is_path path ≡ true
    → str2url (url_text p user host port path)
      ≡ ok (record {
        protocol = name p;
        user = user;
        host = host;
        port = port;
        path = path;
        is_local = false;
      })
str2url-url_text p user host port path u h le one =
    let digits = print_ℕ port in
    let rest = b'#' ∷ (digits ++ b':' ∷ path) in
    let text = user_at user (bracket host ++ rest) in
    let parsed =
      remote_part-of (name p) text user (bracket host ++ rest) host rest digits (b':' ∷ path) path
        (user_part-text user host (digits ++ b':' ∷ path) u h)
        (url_host-bracket host (digits ++ b':' ∷ path) h)
        (url_port-digits digits path (print_ℕ-field port)) (path_part-path path one) in
    str2url-of (url_text p user host port path) _ (
      match_remote-of (url_text p user host port path) (name p) text _ (protocol_part-name p text)
        parsed)
    ∙ url_of-fields (name p) user host digits path port (name-some p)
        (field-some is_digit digits (print_ℕ-field port)) (digits_value-print_ℕ port) (ground arith)
