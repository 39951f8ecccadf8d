-- ===== src/DataServer/Tests.antt =====
-- Commands of a data connection.
use etransfer.Common.{
  ℕ, arith, ◌++◌, ◌≡◌, refl, true, false, [], ◌∷◌, codes, some, none, ok, err, duplicate_field,
  missing_field, bad_push,
}
use etransfer.Common.Int.{pos, negsuc}
use etransfer.Text.{is_space}
use etransfer.Fd.{EtdcFd}
use etransfer.Files.{Store}
use etransfer.State.{EtdState, find_uuid}
use etransfer.OpenMode.{read}
use etransfer.DataServer.Serving.{Outcome, after, is_locked, serve_loop-Outcome}
use etransfer.Exchange.{send_header, get_header}
use etransfer.Proxy.{all_bytes}
use etransfer.KeyValue.Values.{is_plain}
use etransfer.DataServer.Parsed.{parse_request-header}
use etransfer.DataServer.{serve_loop, parse_request, DataRequest}

pushes :
    parse_request (codes "{ uuid:a-1, push:1, sz:30}xyz")
    ≡ some (ok (record { uuid = codes "a-1"; amount = pos 30; push = true }), 26)
unfolding parse_request
pushes = refl

incomplete : parse_request (codes "{ uuid:a-1, sz:30") ≡ none
unfolding parse_request
incomplete = refl

-- A quoted value, in any order, with keys in capitals.
quoted :
    parse_request (codes "{SZ : 7,UUID:\"a b\"}")
    ≡ some (ok (record { uuid = codes "a b"; amount = pos 7; push = false }), 19)
unfolding parse_request
quoted = refl

-- An empty quoted value is read as the two quotes.
empty_quotes :
    parse_request (codes "{sz:1, uuid:\"\"}")
    ≡ some (ok (record { uuid = codes "\"\""; amount = pos 1; push = false }), 15)
unfolding parse_request
empty_quotes = refl

negative :
    parse_request (codes "{uuid:a,sz:-1}")
    ≡ some (ok (record { uuid = codes "a"; amount = negsuc 0; push = false }), 14)
unfolding parse_request
negative = refl

twice : parse_request (codes "{uuid:a, Uuid:b, sz:1}") ≡ some (err duplicate_field, 22)
unfolding parse_request
twice = refl

no_size : parse_request (codes "{uuid:a}") ≡ some (err missing_field, 8)
unfolding parse_request
no_size = refl

odd_push : parse_request (codes "{uuid:a, push:yes, sz:1}") ≡ some (err bad_push, 24)
unfolding parse_request
odd_push = refl

parse_request-header_example :
    (parse_request (send_header (codes "x-1") 30 ++ codes "}z")
      ≡ some (ok (record { uuid = codes "x-1"; amount = pos 30; push = false }), 18))
    × (parse_request (get_header (codes "x-1") 30 ++ codes "}z")
        ≡ some (ok (record { uuid = codes "x-1"; amount = pos 30; push = true }), 26))
unfolding is_plain all_bytes send_header get_header is_space
parse_request-header_example = parse_request-header (codes "x-1") (codes "}z") 30 refl (omega arith)

-- A connection and a file that give nothing and take nothing.
abbrev silent : EtdcFd (Store ℕ)
silent = record {
  read = λ n w. (w, none);
  write = λ bs w. (w, none);
  lseek = λ _ _ w. (w, err missing_field);
  close = λ w. w;
}

abbrev reading : EtdState ℕ
reading = record {
  transfers =
      (codes "x-1", record { path = codes "/a"; fd = silent; open_mode = read; locked = false })
      ∷ [];
  data_addrs = [];
  store = record { world = 0; devices = [] };
}

abbrev wanted : DataRequest
wanted = record { uuid = codes "x-1"; amount = pos 30; push = true }

-- The lock of the transfer is held, and given back while the request sleeps.
abbrev held : EtdState ℕ
held = record {
  transfers =
      (codes "x-1", record { path = codes "/a"; fd = silent; open_mode = read; locked = true })
      ∷ [];
  data_addrs = [];
  store = record { world = 0; devices = [] };
}

serve_loop-Outcome_example :
    Outcome silent wanted 28 [] reading (serve_loop silent (λ _. reading) 2 wanted 28 [] held)
unfolding after is_locked find_uuid
serve_loop-Outcome_example =
    serve_loop-Outcome silent (λ _. reading) 1 2 wanted 28 [] held (refl, refl) (omega arith)
