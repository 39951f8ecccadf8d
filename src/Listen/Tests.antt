-- ===== src/Listen/Tests.antt =====
-- Addresses on the command line of the daemon.
use etransfer.Common.{
  ◌≡◌, refl, [], ◌++◌, ◌∷◌, ok, err, codes, arith, inr, bad_address, out_of_range,
}
use etransfer.Text.{is_digit}
use etransfer.Proxy.{all_bytes}
use etransfer.Exchange.{print_ℕ}
use etransfer.Address.{bracket, occurs, is_hex_byte}
use etransfer.Url.RoundTrip.{udt6, name}
use etransfer.Listen.{listen_address}
use etransfer.Listen.RoundTrip.{listen_address-text}

any_host :
    listen_address 8008 (codes "udt://")
    ≡ ok (record { protocol = codes "udt"; host = []; port = 8008 })
unfolding listen_address
any_host = refl

only_port :
    listen_address 8008 (codes "tcp://:4005")
    ≡ ok (record { protocol = codes "tcp"; host = []; port = 4005 })
unfolding listen_address
only_port = refl

no_protocol : listen_address 8008 (codes "host:4005") ≡ err bad_address
unfolding listen_address
no_protocol = refl

large : listen_address 8008 (codes "tcp://host:70000") ≡ err out_of_range
unfolding listen_address
large = refl

listen_address-text_example :
    listen_address 4004
      (name udt6 ++ codes "://" ++ (bracket (codes "fe80::1") ++ b':' ∷ print_ℕ 2620))
    ≡ ok (record { protocol = codes "udt6"; host = codes "fe80::1"; port = 2620 })
unfolding all_bytes is_hex_byte is_digit occurs
listen_address-text_example =
    listen_address-text 4004 udt6 (codes "fe80::1") 2620 (inr (refl, refl)) (omega arith)
