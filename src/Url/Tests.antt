-- ===== src/Url/Tests.antt =====
-- Texts on the command line of the client.
use etransfer.Common.{◌≡◌, refl, false, [], ok, err, inr, codes, arith, out_of_range}
use etransfer.Proxy.{all_bytes}
use etransfer.Address.{occurs, is_alnum, is_hex_byte}
use etransfer.Text.{is_digit}
use etransfer.Url.{str2url, is_path, local_url}
use etransfer.Url.RoundTrip.{udt6, url_text, str2url-url_text}

defaults :
    str2url (codes "jop83:/data/a")
    ≡ ok (record {
      protocol = codes "tcp";
      user = [];
      host = codes "jop83";
      port = 4004;
      path = codes "/data/a";
      is_local = false;
    })
unfolding str2url
defaults = refl

no_protocol_after_all :
    str2url (codes "tcp:///data/a")
    ≡ ok (record {
      protocol = codes "tcp";
      user = [];
      host = codes "tcp";
      port = 4004;
      path = codes "///data/a";
      is_local = false;
    })
unfolding str2url
no_protocol_after_all = refl

-- The case of the protocol is kept.
upper_case :
    str2url (codes "TCP://jop83:/data")
    ≡ ok (record {
      protocol = codes "TCP";
      user = [];
      host = codes "jop83";
      port = 4004;
      path = codes "/data";
      is_local = false;
    })
unfolding str2url
upper_case = refl

-- The form that the help of the client gives.
helped :
    str2url (codes "jop83:2620/data")
    ≡ ok (record {
      protocol = codes "tcp";
      user = [];
      host = codes "jop83";
      port = 4004;
      path = codes "2620/data";
      is_local = false;
    })
unfolding str2url
helped = refl

-- unbracket does not know the dot in the scope, which rxURL lets pass.
dotted_scope :
    str2url (codes "[fe80::1%eth0.5]:/a")
    ≡ ok (record {
      protocol = codes "tcp";
      user = [];
      host = codes "[fe80::1%eth0.5]";
      port = 4004;
      path = codes "/a";
      is_local = false;
    })
unfolding str2url
dotted_scope = refl

relative : str2url (codes "a/b:c") ≡ ok (local_url (codes "a/b:c"))
unfolding str2url
relative = refl

large_port : str2url (codes "host#65536:/a") ≡ err out_of_range
unfolding str2url
large_port = refl

str2url-url_text_example :
    str2url (url_text udt6 (codes "joe") (codes "fe80::1") 8008 (codes "/dev/null"))
    ≡ ok (record {
      protocol = codes "udt6";
      user = codes "joe";
      host = codes "fe80::1";
      port = 8008;
      path = codes "/dev/null";
      is_local = false;
    })
unfolding all_bytes is_alnum is_hex_byte is_digit occurs is_path
str2url-url_text_example =
    str2url-url_text udt6 (codes "joe") (codes "fe80::1") 8008 (codes "/dev/null") refl
      (inr (refl, refl)) (omega arith) refl
