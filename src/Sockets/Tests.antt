-- ===== src/Sockets/Tests.antt =====
-- A network of which the first call on a socket succeeds and connect fails.
use etransfer.Common.{
  ℕ, ◌≡◌, refl, true, false, List, [], ◌∷◌, none, Bytes, Result, ok, err, codes, not_connected,
  not_resolved, sym, ap, ◌∙◌, Failure, arith,
}
use etransfer.Sockets.{
  tcp, Settings, Call, set_option, set_blocking, bind, listen, connect, refuse, Resolver,
  so_reuseaddr, so_sndbuf, server_calls, client_calls, scope_of,
}
use etransfer.Sockets.Making.{Net, mk_server, mk_client}
use etransfer.Sockets.Settled.{Keeping, Settles, names_ipv6, mk_server_client-Settles}

-- One host is known; its address is 5.
abbrev names : Resolver ℕ
names = record {
  pton = λ v6 s. none;
  lookup = λ v6 s. ok ((true, 6) ∷ (false, 5) ∷ []);
  any_address = λ v6. 0;
  index_of = λ s. 2;
}

abbrev to_host : Bytes → Settings
to_host host = record {
  blocking = true;
  backlog = 4;
  host = host;
  port = 4004;
  udt_mss = 1500;
  rcv_buf = 0;
  snd_buf = 1024;
  udt_rcv_buf = 0;
  udt_snd_buf = 0;
  udp_rcv_buf = 0;
  udp_snd_buf = 0;
  ipv6_only = true;
}

server_in_order :
    server_calls names tcp (to_host [])
    ≡ set_option so_reuseaddr
      ∷ set_option (so_sndbuf 1024)
      ∷ set_blocking true
      ∷ bind 0 0 4004
      ∷ listen 4
      ∷ []
unfolding server_calls
server_in_order = refl

client_in_order :
    client_calls names tcp (to_host (codes "host"))
    ≡ set_option (so_sndbuf 1024) ∷ set_blocking true ∷ connect 5 0 4004 ∷ []
unfolding client_calls
client_in_order = refl

client_without_host : client_calls names tcp (to_host []) ≡ refuse not_resolved ∷ []
unfolding client_calls
client_without_host = refl

scope : scope_of (codes "fe80::1%eth0.5") ≡ codes "eth0.5"
unfolding scope_of
scope = refl

-- The world is the list of what is open; sockets are numbered by it.
abbrev no_connection : Call ℕ → Result (Unit {0})
no_connection (connect a n p) = err not_connected
no_connection c = ok tt

abbrev drop_first : List ℕ → List ℕ
drop_first [] = []
drop_first (fd ∷ fds) = fds

abbrev net : Net ℕ (List ℕ)
net = record {
  socket = λ k w. (3 ∷ w, ok 3);
  call = λ k fd c w. (w, no_connection c);
  close = λ k fd w. drop_first w;
}

client_fails :
    mk_client net names (codes "tcp") (to_host (codes "host")) (7 ∷ [])
    ≡ (7 ∷ [], err not_connected)
unfolding mk_client
client_fails = refl

server_there : mk_server net names (codes "tcp") (to_host []) (7 ∷ []) ≡ (3 ∷ 7 ∷ [], ok 3)
unfolding mk_server
server_there = refl

-- Over IPv6 a second descriptor stays open, which is not returned.
leaking : mk_server net names (codes "tcp6") (to_host []) (7 ∷ []) ≡ (3 ∷ 3 ∷ 7 ∷ [], ok 3)
unfolding mk_server
leaking = refl

abbrev number : Result ℕ → ℕ
number (ok n) = n
number (err e) = 0

socket_opens_3 :
    (w w' : List ℕ) (fd : ℕ) → ◌≡◌ {A = List ℕ × Result ℕ} (3 ∷ w, ok 3) (w', ok fd) → w' ≡ fd ∷ w
socket_opens_3 w w' fd q =
    sym (ap (λ (p : List ℕ × Result ℕ). p.0) q)
    ∙ ap (λ n. n ∷ w) (ap (λ (p : List ℕ × Result ℕ). number p.1) q)

ok_is_no_err : {n : ℕ} {e : Failure} → ◌≡◌ {A = Result ℕ} (ok n) (err e) → ⊥
ok_is_no_err q = ground (arith, q)

abbrev keeping : Keeping net
keeping = record {
  opened = λ w. w;
  socket_opens = λ k w w' fd q. socket_opens_3 w w' fd q;
  socket_fails = λ k w w' e q. absurd (ok_is_no_err (ap (λ (p : List ℕ × Result ℕ). p.1) q));
  call_keeps = λ k fd c w. refl;
  close_closes = λ k fd w fds q. ap drop_first q;
}

mk_server_client-Settles_example :
    Settles keeping true (7 ∷ []) (mk_server net names (codes "tcp6") (to_host []) (7 ∷ []))
    × Settles keeping true (7 ∷ []) (mk_client net names (codes "tcp6") (to_host []) (7 ∷ []))
unfolding names_ipv6
mk_server_client-Settles_example =
    mk_server_client-Settles keeping names (codes "tcp6") (to_host []) (7 ∷ [])
