-- ===== src/Url/Parts.antt =====
-- The parts of a remote URL are taken apart as they are written.
use mathlib.Core.Bool.{false≢true}
use etransfer.Common.{
  ℕ, Bool, true, false, [], ◌∷◌, ◌++◌, some, Bytes, length, leb, not, ◌==◌, ◌≡◌, ◌⊎◌, refl, arith,
  Bool-cases, List-cases, inl, inr, append_assoc, sym, subst,
}
use etransfer.Text.{is_digit, take_while, drop_while}
use etransfer.Proxy.{all_bytes}
use etransfer.Address.{
  occurs, in_brackets, bracket, unbracket, is_alnum, is_hex_byte, is_host_byte, optional_part,
}
use etransfer.Address.Hosts.{bracket-name, bracket-literal, some_of-all, unbracket-hex, hex-inside}
use etransfer.Command.Parts.{is_field, take_while-stop, drop_while-stop}
use etransfer.Url.{
  is_url_host_byte, is_path, user_part, behind_hex, url_literal, url_host, url_port, path_part,
}

-- "user@", unless there is no user
abbrev pub user_at : Bytes → Bytes → Bytes
user_at [] s = s
user_at (c ∷ user) s = (c ∷ user) ++ b'@' ∷ s

-- The name of a host, or a hexadecimal literal.
abbrev pub IsHost : Bytes → Type 0
IsHost h =
    (all_bytes is_url_host_byte h ≡ true)
    ⊎ ((all_bytes is_hex_byte h ≡ true) × (occurs b':' h ≡ true))

abbrev starts_at : Bytes → Bool
starts_at [] = false
starts_at (c ∷ s) = c == b'@'

user_part-none : (s : Bytes) → starts_at (drop_while is_alnum s) ≡ false → user_part s ≡ ([], s)
unfolding user_part
user_part-none s h = elim (List-cases (drop_while is_alnum s)) [
  | inl e ↦ rw (user_part, e) refl
  | inr (c, r, e) ↦
      let no_at : (c == b'@') ≡ false = subst (λ t. starts_at t ≡ false) e h in
      rw (user_part, e, no_at) refl
]

user_part-of :
    (s user rest : Bytes)
    → take_while is_alnum s ≡ user
    → drop_while is_alnum s ≡ b'@' ∷ rest
    → leb 1 (length user) ≡ true
    → user_part s ≡ (user, rest)
unfolding user_part
user_part-of s user rest t d l = rw (user_part, d, t, l) refl

user_part-user :
    (c : ℕ) (user s : Bytes)
    → all_bytes is_alnum (c ∷ user) ≡ true
    → user_part (user_at (c ∷ user) s) ≡ (c ∷ user, s)
unfolding is_alnum is_digit
user_part-user c user s h =
    user_part-of ((c ∷ user) ++ b'@' ∷ s) (c ∷ user) s
      (take_while-stop is_alnum (c ∷ user) b'@' s h refl)
      (drop_while-stop is_alnum (c ∷ user) b'@' s h refl) (ground arith)

url_byte-no_at : (c : ℕ) → is_url_host_byte c ≡ true → (c == b'@') ≡ false
unfolding is_url_host_byte is_host_byte is_alnum is_digit
url_byte-no_at c h = ground (arith, h)

url_byte-no_bracket : (c : ℕ) → is_url_host_byte c ≡ true → (c == b'[') ≡ false
unfolding is_url_host_byte is_host_byte is_alnum is_digit
url_byte-no_bracket c h = ground (arith, h)

-- The byte behind the letters and digits at the front of a host is no @.
name-no_at :
    (h s : Bytes)
    → all_bytes is_url_host_byte h ≡ true
    → starts_at (drop_while is_alnum (h ++ b'#' ∷ s)) ≡ false
unfolding all_bytes is_url_host_byte is_host_byte is_alnum is_digit
name-no_at [] s h = refl
name-no_at (c ∷ w) s h =
    let rest : all_bytes is_url_host_byte w ≡ true = ground (arith, h) in
    elim (Bool-cases (is_alnum c)) [
      | inl e ↦ rw (e) (name-no_at w s rest)
      | inr e ↦ rw (e) (url_byte-no_at c (ground (arith, h)))
    ]

url_host-plain :
    (c : ℕ) (s host rest : Bytes)
    → (c == b'[') ≡ false
    → take_while is_url_host_byte (c ∷ s) ≡ host
    → drop_while is_url_host_byte (c ∷ s) ≡ rest
    → url_host (c ∷ s) ≡ some (host, rest)
unfolding url_host
url_host-plain c s host rest n t d = rw (url_host, n) (rw (t, d) refl)

url_host-name :
    (h s : Bytes)
    → all_bytes is_url_host_byte h ≡ true
    → url_host (h ++ b'#' ∷ s) ≡ some (h, b'#' ∷ s)
unfolding url_host all_bytes is_url_host_byte is_host_byte is_alnum is_digit
url_host-name [] s h = refl
url_host-name (c ∷ w) s h =
    url_host-plain c (w ++ b'#' ∷ s) (c ∷ w) (b'#' ∷ s) (url_byte-no_bracket c (ground (arith, h)))
      (take_while-stop is_url_host_byte (c ∷ w) b'#' s h refl)
      (drop_while-stop is_url_host_byte (c ∷ w) b'#' s h refl)

behind_hex-hex :
    (c : ℕ) (s : Bytes) → all_bytes is_hex_byte (c ∷ s) ≡ true → behind_hex (c ∷ s) ≡ some []
unfolding behind_hex optional_part
behind_hex-hex c s h = rw (behind_hex, some_of-all is_hex_byte c s h) refl

url_literal-of :
    (s inside rest : Bytes)
    → take_while (λ c. not (c == b']')) s ≡ inside
    → drop_while (λ c. not (c == b']')) s ≡ b']' ∷ rest
    → behind_hex inside ≡ some []
    → unbracket inside ≡ inside
    → url_literal s ≡ some (inside, rest)
unfolding url_literal
url_literal-of s inside rest t d b u = rw (url_literal, t, b, d) (rw (t, u) refl)

-- A literal in brackets, behind the first one.
pub url_literal-hex :
    (c : ℕ) (w s : Bytes)
    → all_bytes is_hex_byte (c ∷ w) ≡ true
    → url_literal ((c ∷ w) ++ b']' ∷ s) ≡ some (c ∷ w, s)
url_literal-hex c w s h =
    let inside = hex-inside (c ∷ w) h in
    let kind : ℕ → Bool = λ d. not (d == b']') in
    url_literal-of ((c ∷ w) ++ b']' ∷ s) (c ∷ w) s (take_while-stop kind (c ∷ w) b']' s inside refl)
      (drop_while-stop kind (c ∷ w) b']' s inside refl) (behind_hex-hex c w h) (unbracket-hex c w h)

url_host-literal :
    (c : ℕ) (w s : Bytes)
    → all_bytes is_hex_byte (c ∷ w) ≡ true
    → url_host (in_brackets (c ∷ w) ++ b'#' ∷ s) ≡ some (c ∷ w, b'#' ∷ s)
unfolding url_host in_brackets
url_host-literal c w s h =
    subst (λ t. url_literal t ≡ some (c ∷ w, b'#' ∷ s))
      (sym (append_assoc (c ∷ w) (b']' ∷ []) (b'#' ∷ s))) (url_literal-hex c w (b'#' ∷ s) h)

url_port-of :
    (s digits rest : Bytes)
    → take_while is_digit s ≡ digits
    → drop_while is_digit s ≡ rest
    → leb 1 (length digits) ≡ true
    → url_port (b'#' ∷ s) ≡ (digits, rest)
unfolding url_port
url_port-of s digits rest t d l = rw (url_port, t, d, l) refl

pub url_port-digits :
    (n s : Bytes) → is_field is_digit n ≡ true → url_port (b'#' ∷ (n ++ b':' ∷ s)) ≡ (n, b':' ∷ s)
unfolding url_port is_digit all_bytes
url_port-digits [] s h = absurd (ground (arith, h))
url_port-digits (c ∷ w) s h =
    let all : all_bytes is_digit (c ∷ w) ≡ true = ground (arith, h) in
    url_port-of ((c ∷ w) ++ b':' ∷ s) (c ∷ w) (b':' ∷ s)
      (take_while-stop is_digit (c ∷ w) b':' s all refl)
      (drop_while-stop is_digit (c ∷ w) b':' s all refl) (ground arith)

-- The host, as it is written in front of a port, is taken apart.
pub url_host-bracket :
    (h s : Bytes) → IsHost h → url_host (bracket h ++ b'#' ∷ s) ≡ some (h, b'#' ∷ s)
unfolding is_url_host_byte is_host_byte is_alnum is_digit occurs
url_host-bracket h s (inl plain) =
    rw (bracket-name is_url_host_byte h plain refl refl refl) (url_host-name h s plain)
url_host-bracket [] s (inr (hex, colon)) = absurd (false≢true colon)
url_host-bracket (c ∷ w) s (inr (hex, colon)) =
    rw (bracket-literal (c ∷ w) hex colon) (url_host-literal c w s hex)

host-no_at :
    (h s : Bytes) → IsHost h → starts_at (drop_while is_alnum (bracket h ++ b'#' ∷ s)) ≡ false
unfolding is_url_host_byte is_host_byte is_alnum is_digit in_brackets
host-no_at h s (inl plain) =
    rw (bracket-name is_url_host_byte h plain refl refl refl) (name-no_at h s plain)
host-no_at h s (inr (hex, colon)) = rw (bracket-literal h hex colon) refl

pub user_part-text :
    (user h s : Bytes)
    → all_bytes is_alnum user ≡ true
    → IsHost h
    → user_part (user_at user (bracket h ++ b'#' ∷ s)) ≡ (user, bracket h ++ b'#' ∷ s)
user_part-text [] h s u host = user_part-none (bracket h ++ b'#' ∷ s) (host-no_at h s host)
user_part-text (c ∷ user) h s u host = user_part-user c user (bracket h ++ b'#' ∷ s) u

pub path_part-path : (s : Bytes) → is_path s ≡ true → path_part (b':' ∷ s) ≡ some s
unfolding path_part
path_part-path s h = rw (h) refl
