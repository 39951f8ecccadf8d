-- ===== src/Sockets.antt =====
-- src/etdc_fd.h and src/etdc_resolve.h: sockets for a host and a port: resolve_host, and mk_server and
-- mk_client with settings, as the calls that they make in their order. The calls themselves, of the
-- system and of the UDT library, are parameters.
mod Making
mod Settled
mod Tests
use etransfer.Common.{
  ℕ, suc, ◌+◌, ◌-◌, ◌/◌, Bool, true, false, List, [], ◌∷◌, ◌++◌, Option, none, some, Bytes, codes,
  Failure, Result, ok, err, unknown_protocol, not_resolved, bytes_eq, ltb, not, ◌==◌, if◌then◌else◌,
}
use etransfer.Text.{take_while, drop_while}
use etransfer.Url.{is_scope_byte}

-- The keys of protocol_map.
pub data Kind : Type 0 where
  tcp tcp6 udt udt6 : Kind

unfoldable pub find_protocol : Bytes → Option Kind
find_protocol s =
    if bytes_eq s (codes "tcp")
    then some tcp
    else if bytes_eq s (codes "tcp6")
    then some tcp6
    else if bytes_eq s (codes "udt")
    then some udt
    else if bytes_eq s (codes "udt6")
    then some udt6
    else none

unfoldable pub is_ipv6 : Kind → Bool
is_ipv6 tcp = false
is_ipv6 tcp6 = true
is_ipv6 udt = false
is_ipv6 udt6 = true

-- server_settings and client_settings. A size of 0 is one that is not set; the size of a UDT packet is
-- above 28.
pub record Settings : Type 0 where
  pub blocking : Bool
  pub backlog : ℕ
  pub host : Bytes
  pub port : ℕ
  pub udt_mss : ℕ
  pub rcv_buf : ℕ
  pub snd_buf : ℕ
  pub udt_rcv_buf : ℕ
  pub udt_snd_buf : ℕ
  pub udp_rcv_buf : ℕ
  pub udp_snd_buf : ℕ
  pub ipv6_only : Bool

pub data SockOpt : Type 0 where
  so_reuseaddr : SockOpt
  -- so_reuseaddr and ipv6_only in one call
  reuse_ipv6_only : Bool → SockOpt
  just_ipv6_only : Bool → SockOpt
  so_rcvbuf : ℕ → SockOpt
  so_sndbuf : ℕ → SockOpt
  -- udt_reuseaddr, udt_fc, the two buffers of UDT, its packet size and its linger in one call
  udt_options : ℕ → ℕ → ℕ → ℕ → SockOpt
  udp_rcvbuf : ℕ → SockOpt
  udp_sndbuf : ℕ → SockOpt

-- What is done to a socket; addresses are of type A.
pub data Call (A : Type 0) : Type 0 where
  set_option : SockOpt → Call A
  set_blocking : Bool → Call A
  -- address, scope and port
  bind : A → ℕ → ℕ → Call A
  listen : ℕ → Call A
  connect : A → ℕ → ℕ → Call A
  -- no call: an exception
  refuse : Failure → Call A

-- inet_pton, getaddrinfo with the family of each result, and if_nametoindex; `v6` says which family is
-- asked for.
pub record Resolver (A : Type 0) : Type 0 where
  pub pton : (v6 : Bool) → Bytes → Option A
  pub lookup : (v6 : Bool) → Bytes → Result (List (Bool × A))
  pub any_address : (v6 : Bool) → A
  pub index_of : Bytes → ℕ

unfoldable pub same_family : Bool → Bool → Bool
same_family true b = b
same_family false b = not b

module _ {A : Type 0} where
  -- The first result of the family.
  unfoldable pub first_of_family : Bool → List (Bool × A) → Option A
  unfolding same_family
  first_of_family v6 [] = none
  first_of_family v6 ((f, a) ∷ rs) =
      let rest = first_of_family v6 rs in if same_family v6 f then some a else rest

  unfoldable pub looked_up : Bool → Result (List (Bool × A)) → Result A
  unfolding first_of_family
  looked_up v6 (err e) = err e
  looked_up v6 (ok rs) = elim (first_of_family v6 rs) [ none ↦ err not_resolved | some a ↦ ok a ]

  -- resolve_host, whose `false` is an exception of its callers. `empty`: EmptyMeansAny for a server,
  -- EmptyMeansInvalid for a client.
  unfoldable pub resolve_host : Resolver A → Option A → Bool → Bytes → Result A
  unfolding looked_up
  resolve_host r none v6 [] = err not_resolved
  resolve_host r (some a) v6 [] = ok a
  resolve_host r empty v6 (c ∷ s) = elim (r.pton v6 (c ∷ s)) [
    | some a ↦ ok a
    | none ↦ looked_up v6 (r.lookup v6 (c ∷ s))
  ]

-- std::regex_search with rxScope: the scope behind the first percent sign that has one.
unfoldable pub scope_of : Bytes → Bytes
unfolding is_scope_byte
scope_of [] = []
scope_of (c ∷ s) =
    let rest = scope_of s in
    if c == b'%' then elim (take_while is_scope_byte s) [ [] ↦ rest | d ∷ ds ↦ d ∷ ds ] else rest

unfoldable pub scope_id : {A : Type 0} → Resolver A → Kind → Bytes → ℕ
unfolding scope_of is_ipv6
scope_id r k host =
    if is_ipv6 k then elim (scope_of host) [ [] ↦ 0 | c ∷ s ↦ r.index_of (c ∷ s) ] else 0

unfoldable pub flow_control : ℕ → ℕ → ℕ
flow_control buf mss = buf / (mss - 28) + 256

module _ {A : Type 0} where
  -- `if( size ) setsockopt(…)`
  unfoldable pub if_set : (ℕ → SockOpt) → ℕ → List (Call A)
  if_set opt size = if ltb 0 size then set_option (opt size) ∷ [] else []

  -- What follows on the address, or the exception.
  unfoldable pub at_address : Result A → (A → List (Call A)) → List (Call A)
  at_address (err e) calls = refuse e ∷ []
  at_address (ok a) calls = calls a

  abbrev udt_server_options : Settings → List (Call A)
  unfolding if_set flow_control
  udt_server_options s =
      set_option
        (udt_options (flow_control s.udt_rcv_buf s.udt_mss) s.udt_rcv_buf s.udt_snd_buf s.udt_mss)
      ∷ (if_set udp_rcvbuf s.udp_rcv_buf ++ if_set udp_sndbuf s.udp_snd_buf)

  unfoldable pub client_options : Kind → Settings → List (Call A)
  unfolding if_set flow_control
  client_options tcp s = if_set so_sndbuf s.snd_buf ++ if_set so_rcvbuf s.rcv_buf
  client_options tcp6 s =
      set_option (just_ipv6_only s.ipv6_only)
      ∷ (if_set so_sndbuf s.snd_buf ++ if_set so_rcvbuf s.rcv_buf)
  client_options k s =
      set_option
        (udt_options (flow_control s.udt_rcv_buf s.udt_mss) s.udt_rcv_buf s.udt_snd_buf s.udt_mss)
      ∷ (if_set udp_sndbuf s.udp_snd_buf ++ if_set udp_rcvbuf s.udp_rcv_buf)

module _ {A : Type 0} (r : Resolver A) where
  unfoldable pub bound : Kind → Settings → A → List (Call A)
  unfolding scope_id
  bound k s a =
      set_blocking s.blocking ∷ bind a (scope_id r k s.host) s.port ∷ listen s.backlog ∷ []

  -- server_map
  unfoldable pub server_calls : Kind → Settings → List (Call A)
  unfolding resolve_host is_ipv6 if_set at_address udt_server_options bound
  server_calls tcp s = at_address (resolve_host r (some (r.any_address false)) false s.host) (λ a.
      set_option so_reuseaddr
      ∷ (if_set so_rcvbuf s.rcv_buf ++ (if_set so_sndbuf s.snd_buf ++ bound tcp s a)))
  server_calls tcp6 s = at_address (resolve_host r (some (r.any_address true)) true s.host) (λ a.
      set_option (reuse_ipv6_only s.ipv6_only)
      ∷ (if_set so_rcvbuf s.rcv_buf ++ (if_set so_sndbuf s.snd_buf ++ bound tcp6 s a)))
  server_calls udt s =
      udt_server_options s
      ++ at_address (resolve_host r (some (r.any_address false)) false s.host) (bound udt s)
  server_calls udt6 s =
      udt_server_options s
      ++ at_address (resolve_host r (some (r.any_address true)) true s.host) (bound udt6 s)

  -- client_map
  unfoldable pub client_calls : Kind → Settings → List (Call A)
  unfolding resolve_host is_ipv6 at_address client_options scope_id
  client_calls k s = at_address (resolve_host r none (is_ipv6 k) s.host) (λ a.
      client_options k s ++ set_blocking s.blocking ∷ connect a (scope_id r k s.host) s.port ∷ [])
