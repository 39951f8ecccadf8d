-- ===== src/Address/Tests.antt =====
-- Addresses of data channels, written and read.
use etransfer.Common.{◌≡◌, refl, codes, some, none, arith}
use etransfer.State.{SockName}
use etransfer.Text.{is_digit}
use etransfer.Proxy.{all_bytes}
use etransfer.Address.{in_brackets, decode_data_addr, print_sockname, is_hex_byte}
use etransfer.Address.RoundTrip.{as_bracketed, decode_data_addr-print_sockname}

abbrev local : SockName
local = record { protocol = codes "tcp"; host = codes "::1"; port = 4004 }

named :
    decode_data_addr (codes "<udt/jop83.jive.nl:8008>")
    ≡ some (record { protocol = codes "udt"; host = codes "jop83.jive.nl"; port = 8008 })
unfolding decode_data_addr
named = refl

literal : decode_data_addr (print_sockname local) ≡ some local
unfolding decode_data_addr print_sockname
literal = refl

zone :
    decode_data_addr (codes "<tcp/[fe80::1/64%eth0]:46227>")
    ≡ some (record { protocol = codes "tcp"; host = codes "fe80::1/64%eth0"; port = 46227 })
unfolding decode_data_addr
zone = refl

not_hex :
    decode_data_addr (codes "<tcp/[xyz]:46227>")
    ≡ some (record { protocol = codes "tcp"; host = codes "[xyz]"; port = 46227 })
unfolding decode_data_addr
not_hex = refl

bad_label : decode_data_addr (codes "<tcp/a-.b:46227>") ≡ none
unfolding decode_data_addr
bad_label = refl

bad_port : decode_data_addr (codes "<tcp/a:65536>") ≡ none
unfolding decode_data_addr
bad_port = refl

-- What getsockname of an IPv6 socket gives.
abbrev hex_address : SockName
hex_address = record {
  protocol = codes "udt6";
  host = in_brackets (codes "2001:db8::1");
  port = 8008;
}

decode_data_addr-print_sockname_example :
    decode_data_addr (print_sockname hex_address)
    ≡ some (record { protocol = codes "udt6"; host = codes "2001:db8::1"; port = 8008 })
unfolding all_bytes is_hex_byte is_digit
decode_data_addr-print_sockname_example =
    decode_data_addr-print_sockname hex_address (codes "2001:db8::1") refl refl
      (as_bracketed b'2' (codes "001:db8::1") refl) (omega arith)
