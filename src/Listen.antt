-- ===== src/Listen.antt =====
-- src/etd.cc: the text of an address to listen on, on the command line of the daemon, as its rxURL and
-- string2socket_type_m read it: what mk_server is called with. The patterns of the literals and
-- `unbracket` are those of the client.
mod RoundTrip
mod Tests
use etransfer.Common.{
  ℕ, zero, suc, ◌+◌, Bool, true, false, List, [], ◌∷◌, Option, none, some, Bytes, Result, ok, err,
  bad_address, out_of_range, length, leb, bytes_eq, ◌==◌, ◌&&◌, if◌then◌else◌,
}
use etransfer.Text.{is_digit, take_while, drop_while}
use etransfer.DevZero.{digits_value}
use etransfer.State.{SockName}
use etransfer.Address.{is_host_byte}
use etransfer.Url.{protocol_part, url_literal}

-- "([-a-z0-9\.]+|\[…\])?", without regard to case: group 3 without its brackets, and what stands behind.
unfoldable pub listen_host : Bytes → Option (Bytes × Bytes)
unfolding url_literal is_host_byte
listen_host [] = some ([], [])
listen_host (c ∷ s) =
    let literal = url_literal s in
    if c == b'['
    then literal
    else some (take_while is_host_byte (c ∷ s), drop_while is_host_byte (c ∷ s))

-- "(:([0-9]+))?" at the end, and the range of a port, which must be there: `none` is a text that does not
-- match.
unfoldable pub listen_port : ℕ → Bytes → Option (Result ℕ)
unfolding is_digit digits_value
listen_port default_port [] = some (ok default_port)
listen_port default_port (c ∷ s) =
    let port = digits_value 0 (take_while is_digit s) in
    if (c == b':')
      && (leb 1 (length (take_while is_digit s)) && bytes_eq (drop_while is_digit s) [])
    then some (if leb port 65535 then ok port else err out_of_range)
    else none

unfoldable pub port_of : Bytes → Bytes → Option (Result ℕ) → Result SockName
port_of protocol host none = err bad_address
port_of protocol host (some (err e)) = err e
port_of protocol host (some (ok port)) =
    ok (record { protocol = protocol; host = host; port = port })

-- AP::match(rxURL) and string2socket_type_m
unfoldable pub listen_address : ℕ → Bytes → Result SockName
unfolding protocol_part listen_host listen_port port_of
listen_address default_port s = elim (protocol_part s) [
  | none ↦ err bad_address
  | some (protocol, r) ↦ elim (listen_host r) [
    | none ↦ err bad_address
    | some (host, r') ↦ port_of protocol host (listen_port default_port r')
  ]
]
