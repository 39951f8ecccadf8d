-- ===== src/Sockets/Settled.antt =====
-- What stays open when a socket is made, or is not.
use etransfer.Common.{
  ℕ, Bool, true, false, none, some, ◌⊎◌, ap, List, [], ◌∷◌, Bytes, Failure, Result, ok, err, ◌≡◌,
  ◌∙◌, inl, inr, Option-cases, Result-cases, refl,
}
use etransfer.Sockets.{
  Kind, tcp, tcp6, udt, udt6, find_protocol, is_ipv6, Settings, Call, refuse, Resolver,
  server_calls, client_calls,
}
use etransfer.Sockets.Making.{
  Net, overwritten, construct, run_calls, settled, made, make_socket, mk_server, mk_client,
}

-- What the calls do to the descriptors that are open: socket opens the one that it returns, close closes
-- it, and no other call opens or closes any.
pub record Keeping {A W : Type 0} (net : Net A W) : Type 0 where
  pub opened : W → List ℕ
  pub socket_opens :
      (k : Kind) (w w' : W) (fd : ℕ) → net.socket k w ≡ (w', ok fd) → opened w' ≡ fd ∷ opened w
  pub socket_fails :
      (k : Kind) (w w' : W) (e : Failure) → net.socket k w ≡ (w', err e) → opened w' ≡ opened w
  pub call_keeps :
      (k : Kind) (fd : ℕ) (c : Call A) (w : W) → opened (net.call k fd c w).0 ≡ opened w
  pub close_closes :
      (k : Kind) (fd : ℕ) (w : W) (fds : List ℕ)
      → opened w ≡ fd ∷ fds
      → opened (net.close k fd w) ≡ fds

-- The protocols whose classes are derived from those for IPv4.
unfoldable pub names_ipv6 : Bytes → Bool
unfolding find_protocol is_ipv6
names_ipv6 protocol = elim (find_protocol protocol) [ none ↦ false | some k ↦ is_ipv6 k ]

module _ {A W : Type 0} {net : Net A W} (l : Keeping net) where
  open l use {opened}

  -- What comes of making a socket: one more is open, or as many as before. If a first socket was replaced
  -- without being closed, it stays open too, unless it could not be made.
  abbrev pub Settles : (replaces : Bool) → List ℕ → W × Result ℕ → Type 0
  Settles false fds (w, err e) = opened w ≡ fds
  Settles false fds (w, ok fd) = opened w ≡ fd ∷ fds
  Settles true fds (w, err e) = (opened w ≡ fds) ⊎ ((lost : ℕ) × (opened w ≡ lost ∷ fds))
  Settles true fds (w, ok fd) = (lost : ℕ) × (opened w ≡ fd ∷ lost ∷ fds)

  socket-Settles :
      (k : Kind) (w : W) (o : W × Result ℕ) → net.socket k w ≡ o → Settles false (opened w) o
  socket-Settles k w (w', err e) q = l.socket_fails k w w' e q
  socket-Settles k w (w', ok fd) q = l.socket_opens k w w' fd q

  second-Settles :
      (k : Kind) (lost : ℕ) (fds : List ℕ) (w : W) (o : W × Result ℕ)
      → opened w ≡ lost ∷ fds
      → Settles false (opened w) o
      → Settles true fds o
  second-Settles k lost fds w (w', err e) h q = inr (lost, q ∙ h)
  second-Settles k lost fds w (w', ok fd) h q = (lost, q ∙ ap (λ t. fd ∷ t) h)

  overwritten-Settles :
      (k : Kind) (fds : List ℕ) (o : W × Result ℕ)
      → Settles false fds o
      → Settles true fds (overwritten net k o)
  unfolding overwritten
  overwritten-Settles k fds (w, err e) h = inl h
  overwritten-Settles k fds (w, ok lost) h =
      second-Settles k lost fds w (net.socket k w) h (socket-Settles k w (net.socket k w) refl)

  construct-Settles : (k : Kind) (w : W) → Settles (is_ipv6 k) (opened w) (construct net k w)
  unfolding construct is_ipv6
  construct-Settles tcp w = socket-Settles tcp w (net.socket tcp w) refl
  construct-Settles udt w = socket-Settles udt w (net.socket udt w) refl
  construct-Settles tcp6 w =
      overwritten-Settles tcp6 (opened w) (net.socket tcp w)
        (socket-Settles tcp w (net.socket tcp w) refl)
  construct-Settles udt6 w =
      overwritten-Settles udt6 (opened w) (net.socket udt w)
        (socket-Settles udt w (net.socket udt w) refl)

  run_calls-keeps :
      (k : Kind) (fd : ℕ) (calls : List (Call A)) (w : W)
      → opened (run_calls net k fd calls w).0 ≡ opened w
  unfolding run_calls
  run_calls-keeps k fd [] w = refl
  run_calls-keeps k fd (refuse e ∷ calls) w = refl
  run_calls-keeps k fd (c ∷ calls) w =
      let o = net.call k fd c w in
      elim (Result-cases o.1) [
        | inl (e, q) ↦ rw (run_calls, q) (l.call_keeps k fd c w)
        | inr (u, q) ↦ rw (run_calls, q) (run_calls-keeps k fd calls o.0 ∙ l.call_keeps k fd c w)
      ]

  settled-Settles :
      (b : Bool) (k : Kind) (fd : ℕ) (fds : List ℕ) (w : W) (o : W × Result (Unit {0}))
      → opened o.0 ≡ opened w
      → Settles b fds (w, ok fd)
      → Settles b fds (settled net k fd o)
  unfolding settled
  settled-Settles false k fd fds w (w', err e) q h = l.close_closes k fd w' fds (q ∙ h)
  settled-Settles false k fd fds w (w', ok _) q h = q ∙ h
  settled-Settles true k fd fds w (w', err e) q (lost, h) =
      inr (lost, l.close_closes k fd w' (lost ∷ fds) (q ∙ h))
  settled-Settles true k fd fds w (w', ok _) q (lost, h) = (lost, q ∙ h)

  made-Settles :
      (b : Bool) (k : Kind) (calls : List (Call A)) (fds : List ℕ) (o : W × Result ℕ)
      → Settles b fds o
      → Settles b fds (made net k calls o)
  unfolding made
  made-Settles false k calls fds (w, err e) h = h
  made-Settles true k calls fds (w, err e) h = h
  made-Settles b k calls fds (w, ok fd) h =
      settled-Settles b k fd fds w (run_calls net k fd calls w) (run_calls-keeps k fd calls w) h

  make_socket-Settles :
      (protocol : Bytes) (calls : Kind → List (Call A)) (w : W)
      → Settles (names_ipv6 protocol) (opened w) (make_socket net protocol calls w)
  unfolding make_socket names_ipv6
  make_socket-Settles protocol calls w = elim (Option-cases (find_protocol protocol)) [
    | inl q ↦ rw (make_socket, names_ipv6, q) refl
    | inr (k, q) ↦
        rw (make_socket, names_ipv6, q)
          (made-Settles (is_ipv6 k) k (calls k) (opened w) (construct net k w)
            (construct-Settles k w))
  ]

-- Over IPv4, whatever fails - the protocol is not known, the host is not resolved, or any call fails -,
-- mk_server and mk_client leave open the descriptors that were open before and no other; and if one
-- returns, just the descriptor that it returns has been added. Over IPv6 (tcp6 and udt6) one more stays
-- open when they return, that of the socket which the constructor of the base class made; when they fail,
-- at most that one does. The calls behave as Keeping says.
pub mk_server_client-Settles :
    {A W : Type 0} {net : Net A W} (l : Keeping net) (r : Resolver A) (protocol : Bytes)
    (s : Settings) (w : W)
    → Settles l (names_ipv6 protocol) (l.opened w) (mk_server net r protocol s w)
      × Settles l (names_ipv6 protocol) (l.opened w) (mk_client net r protocol s w)
unfolding mk_server mk_client
mk_server_client-Settles l r protocol s w = (
  make_socket-Settles l protocol (λ k. server_calls r k s) w,
  make_socket-Settles l protocol (λ k. client_calls r k s) w,
)
