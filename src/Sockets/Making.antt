-- ===== src/Sockets/Making.antt =====
-- src/etdc_fd.h: mk_socket, and mk_server and mk_client with settings. When an exception is thrown the
-- last pointer to the new etdc_fd goes, and its destructor closes the descriptor.
use etransfer.Common.{ℕ, List, [], ◌∷◌, none, some, Bytes, Result, ok, err, unknown_protocol}
use etransfer.Sockets.{
  Kind, tcp, tcp6, udt, udt6, find_protocol, Settings, Call, refuse, Resolver, server_calls,
  client_calls,
}

-- socket(2) or UDT::socket for a kind of socket, a call on the socket, and close. The number of the
-- protocol "tcp", which the constructors look up each time, is part of the first.
pub record Net (A W : Type 0) : Type 0 where
  pub socket : Kind → W → W × Result ℕ
  pub call : Kind → ℕ → Call A → W → W × Result (Unit {0})
  pub close : Kind → ℕ → W → W

module _ {A W : Type 0} (net : Net A W) where
  -- The constructor of a class that is derived: that of its base class has opened a socket, whose
  -- descriptor in __m_fd the second one replaces, also if that is -1, and then nothing closes the first.
  unfoldable pub overwritten : Kind → W × Result ℕ → W × Result ℕ
  overwritten k (w, err e) = (w, err e)
  overwritten k (w, ok first) = net.socket k w

  -- protocol_map: etdc_tcp(), etdc_tcp6(), etdc_udt() and etdc_udt6().
  unfoldable pub construct : Kind → W → W × Result ℕ
  unfolding overwritten
  construct tcp w = net.socket tcp w
  construct tcp6 w = overwritten tcp6 (net.socket tcp w)
  construct udt w = net.socket udt w
  construct udt6 w = overwritten udt6 (net.socket udt w)

  -- One call after the other, as long as they succeed.
  unfoldable pub run_calls : Kind → ℕ → List (Call A) → W → W × Result (Unit {0})
  run_calls k fd [] w = (w, ok tt)
  run_calls k fd (refuse e ∷ calls) w = (w, err e)
  run_calls k fd (c ∷ calls) w =
      let (w', r) = net.call k fd c w in
      let rest = run_calls k fd calls w' in elim r [ err e ↦ (w', err e) | ok _ ↦ rest ]

  unfoldable pub settled : Kind → ℕ → W × Result (Unit {0}) → W × Result ℕ
  settled k fd (w, err e) = (net.close k fd w, err e)
  settled k fd (w, ok _) = (w, ok fd)

  unfoldable pub made : Kind → List (Call A) → W × Result ℕ → W × Result ℕ
  unfolding settled run_calls
  made k calls (w, err e) = (w, err e)
  made k calls (w, ok fd) = settled k fd (run_calls k fd calls w)

  -- mk_socket, and what is done to the socket.
  unfoldable pub make_socket : Bytes → (Kind → List (Call A)) → W → W × Result ℕ
  unfolding find_protocol construct made
  make_socket protocol calls w = elim (find_protocol protocol) [
    | none ↦ (w, err unknown_protocol)
    | some k ↦ made k (calls k) (construct k w)
  ]

  unfoldable pub mk_server : Resolver A → Bytes → Settings → W → W × Result ℕ
  unfolding make_socket server_calls
  mk_server r protocol s w = make_socket protocol (λ k. server_calls r k s) w

  unfoldable pub mk_client : Resolver A → Bytes → Settings → W → W × Result ℕ
  unfolding make_socket client_calls
  mk_client r protocol s w = make_socket protocol (λ k. client_calls r k s) w
