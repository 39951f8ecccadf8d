-- ===== src/Url.antt =====
-- src/etc.cc: the text of a URL or of a local path on the command line of the client, as rxURL and
-- str2url_type read it, and the conditions on the URLs.
pub mod Parts
pub mod RoundTrip
mod Local
mod Tests
use etransfer.Common.{
  ℕ, zero, suc, ◌+◌, Bool, true, false, List, [], ◌∷◌, ◌++◌, Option, none, some, Bytes, codes,
  Result, ok, err, bad_address, out_of_range, length, take, drop, leb, ltb, not, bytes_eq, ◌==◌,
  ◌&&◌, ◌||◌, if◌then◌else◌,
}
use etransfer.Text.{is_digit, take_while, drop_while, stricmp}
use etransfer.DevZero.{digits_value, strip_prefix}
use etransfer.Address.{is_alnum, is_hex_byte, is_host_byte, some_of, optional_part, unbracket}

-- url_type
pub record Url : Type 0 where
  pub protocol : Bytes
  pub user : Bytes
  pub host : Bytes
  pub port : ℕ
  pub path : Bytes
  pub is_local : Bool

-- The groups 3, 6, 7 without its brackets, 11 and 12 of a match in which group 1 takes part.
pub record Remote : Type 0 where
  pub protocol_text : Bytes
  pub user_text : Bytes
  pub host_text : Bytes
  pub port_text : Bytes
  pub rest : Bytes

-- [-a-zA-Z0-9_\.]
unfoldable pub is_url_host_byte : ℕ → Bool
unfolding is_host_byte
is_url_host_byte c = is_host_byte c || (c == b'_')

-- [a-zA-Z0-9\.]
unfoldable pub is_scope_byte : ℕ → Bool
unfolding is_alnum
is_scope_byte c = is_alnum c || (c == b'.')

-- "(.+)" up to the end: a dot does not match the end of a line.
abbrev pub one_line : Bytes → Bool
one_line [] = true
one_line (c ∷ s) = not ((c == 10) || (c == 13)) && one_line s

unfoldable pub is_path : Bytes → Bool
is_path s = leb 1 (length s) && one_line s

-- "://" behind the word of a protocol
unfoldable pub protocol_end : Bytes → Bytes → Option (Bytes × Bytes)
unfolding strip_prefix
protocol_end word s = elim (strip_prefix (codes "://") s) [ none ↦ none | some r ↦ some (word, r) ]

unfoldable pub with_six : Bytes → Bytes → Option (Bytes × Bytes)
unfolding protocol_end
with_six word [] = none
with_six word (c ∷ s) =
    if c == b'6' then protocol_end (word ++ b'6' ∷ []) s else protocol_end word (c ∷ s)

-- "((tcp|udt)6?):\/\/", without regard to case: group 3 and what stands behind.
unfoldable pub protocol_part : Bytes → Option (Bytes × Bytes)
unfolding with_six stricmp
protocol_part s =
    if stricmp (take 3 s) (codes "tcp") || stricmp (take 3 s) (codes "udt")
    then with_six (take 3 s) (drop 3 s)
    else none

-- "(([a-z0-9]+)@)?", without regard to case: group 6 and what stands behind.
unfoldable pub user_part : Bytes → Bytes × Bytes
unfolding is_alnum
user_part s =
    let name = take_while is_alnum s in
    elim (drop_while is_alnum s) [
      | [] ↦ ([], s)
      | c ∷ r ↦ if (c == b'@') && leb 1 (length name) then (name, r) else ([], s)
    ]

-- "[:0-9a-fA-F]+(/[0-9]{1,3})?(%[a-zA-Z0-9\.]+)?": what stands behind.
unfoldable pub behind_hex : Bytes → Option Bytes
unfolding some_of optional_part is_digit is_hex_byte is_scope_byte
behind_hex s = elim (some_of is_hex_byte (length s) s) [
  | none ↦ none
  | some r ↦ elim (optional_part b'/' is_digit 3 r) [
    | none ↦ none
    | some r' ↦ optional_part b'%' is_scope_byte (length r') r'
  ]
]

-- Group 7 with a bracket at its front, behind that bracket: the host that unbracket makes of it.
unfoldable pub url_literal : Bytes → Option (Bytes × Bytes)
unfolding behind_hex unbracket
url_literal s =
    let inside = take_while (λ c. not (c == b']')) s in
    elim (behind_hex inside) [
      | none ↦ none
      | some r ↦ elim (drop_while (λ c. not (c == b']')) s) [
        | [] ↦ none
        | _ ∷ behind ↦ if bytes_eq r [] then some (unbracket inside, behind) else none
      ]
    ]

unfoldable pub url_host : Bytes → Option (Bytes × Bytes)
unfolding url_literal is_url_host_byte
url_host [] = some ([], [])
url_host (c ∷ s) =
    let literal = url_literal s in
    if c == b'['
    then literal
    else some (take_while is_url_host_byte (c ∷ s), drop_while is_url_host_byte (c ∷ s))

-- "(#([0-9]+))?": group 11 and what stands behind.
unfoldable pub url_port : Bytes → Bytes × Bytes
unfolding is_digit
url_port [] = ([], [])
url_port (c ∷ s) =
    if (c == b'#') && leb 1 (length (take_while is_digit s))
    then (take_while is_digit s, drop_while is_digit s)
    else ([], c ∷ s)

-- ":" and the path
unfoldable pub path_part : Bytes → Option Bytes
unfolding is_path
path_part [] = none
path_part (c ∷ s) = if (c == b':') && is_path s then some s else none

-- rxURL behind the protocol. Each part stops at a byte that the next one cannot start with, so there is
-- one way to match.
unfoldable pub remote_part : Bytes → Bytes → Option Remote
unfolding user_part url_host url_port path_part
remote_part protocol s =
    let (user, r) = user_part s in
    elim (url_host r) [
      | none ↦ none
      | some (host, r') ↦
          let (port, r'') = url_port r' in
          elim (path_part r'') [
            | none ↦ none
            | some path ↦ some (record {
              protocol_text = protocol;
              user_text = user;
              host_text = host;
              port_text = port;
              rest = path;
            })
          ]
    ]

-- A match of rxURL with group 1: if it cannot go on behind the protocol it goes back and tries without.
unfoldable pub match_remote : Bytes → Option Remote
unfolding protocol_part remote_part
match_remote s =
    let plain = remote_part [] s in
    elim (protocol_part s) [
      | none ↦ plain
      | some (protocol, r) ↦ elim (remote_part protocol r) [ none ↦ plain | some m ↦ some m ]
    ]

-- The fields of a match; `port` throws on what is no port.
unfoldable pub url_of : Remote → Result Url
unfolding digits_value
url_of m =
    let port = if ltb 0 (length m.port_text) then digits_value 0 m.port_text else 4004 in
    if leb port 65535
    then ok (record {
      protocol = if ltb 0 (length m.protocol_text) then m.protocol_text else codes "tcp";
      user = m.user_text;
      host = m.host_text;
      port = port;
      path = m.rest;
      is_local = false;
    })
    else err out_of_range

-- The other fields of a local path are not set.
unfoldable pub local_url : Bytes → Url
local_url path = record {
  protocol = [];
  user = [];
  host = [];
  port = 0;
  path = path;
  is_local = true;
}

-- AP::match(rxURL) and str2url_type
unfoldable pub str2url : Bytes → Result Url
unfolding match_remote url_of local_url is_path
str2url s = elim (match_remote s) [
  | some m ↦ url_of m
  | none ↦ if is_path s then ok (local_url s) else err bad_address
]

-- The conditions: "--list" with one remote URL, or two URLs of which one at most is local.
unfoldable pub are_urls : Bool → List Url → Bool
are_urls true (u ∷ []) = not u.is_local
are_urls false (u ∷ v ∷ []) = not (u.is_local && v.is_local)
are_urls listing urls = false
