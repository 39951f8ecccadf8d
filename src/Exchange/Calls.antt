-- ===== src/Exchange/Calls.antt =====
-- sendFile and getFile as calls on the shared state.
use etransfer.Common.{
  ◌≡◌, refl, sym, subst, Bool, true, false, List, Option, none, some, Bytes, Result, Failure, ok,
  err, Bool-cases, Option-cases, inl, inr, ◌⊎◌, bytes_eq, ℕ, zero, suc, not_initialized,
  not_for_reading, not_for_writing,
}
use etransfer.Common.Int.{ℤ, pos, negsuc}
use etransfer.Fd.{EtdcFd}
use etransfer.OpenMode.{OpenMode}
use etransfer.Files.{Store}
use etransfer.State.{Transfer, EtdState, SockName, find_uuid}
use etransfer.Server.{Attempt, again, done, is_read_mode}
use etransfer.Exchange.{
  may_fill, connect, over_connection, hang_up, with_transfer, send_over, get_over, send_file,
  get_file,
}

-- There is nothing to move.
abbrev pub Idle : ℤ → Type 0
Idle todo = (todo ≡ pos 0) ⊎ ((n : ℕ) × (todo ≡ negsuc n))

module _ {W : Type 0} where
  -- How a call on the transfer `mine` may end: the map of transfers is as it was; it is tried again
  -- only if somebody has locked the transfer, with nothing changed; it returns true, and only if
  -- there was nothing to do or the transfer is there, unlocked and of the right mode.
  abbrev pub Called :
      Bytes → (OpenMode → Bool) → Type 0 → EtdState W → EtdState W × Attempt (Result Bool) → Type 0
  Called mine right_mode idle st (st', again) =
      (st' ≡ st) × (t : Transfer W) × (find_uuid mine st.transfers ≡ some t) × (t.locked ≡ true)
  Called mine right_mode idle st (st', done (err e)) = st'.transfers ≡ st.transfers
  Called mine right_mode idle st (st', done (ok b)) =
      (st'.transfers ≡ st.transfers)
      × (b ≡ true)
      × (idle
          ⊎ ((t : Transfer W) × (find_uuid mine st.transfers ≡ some t)
              × (t.locked ≡ false)
              × (right_mode t.open_mode ≡ true)))

  over_connection-Called :
      (mine : Bytes) (right_mode : OpenMode → Bool) (idle : Type 0)
      → (run : EtdcFd (Store W) → Store W → Store W × Result (Unit {0})) (st : EtdState W)
      → (o : Store W × Option (EtdcFd (Store W))) (t : Transfer W)
      → find_uuid mine st.transfers ≡ some t
      → t.locked ≡ false
      → right_mode t.open_mode ≡ true
      → Called mine right_mode idle st (over_connection run st o)
  unfolding over_connection hang_up
  over_connection-Called mine right_mode idle run st (s, none) t f l m = refl
  over_connection-Called mine right_mode idle run st (s, some sock) t f l m =
      hang_up-Called (run sock s)
    where
      hang_up-Called :
          (o : Store W × Result (Unit {0})) → Called mine right_mode idle st (hang_up sock st o)
      hang_up-Called (s', err e) = refl
      hang_up-Called (s', ok _) = (refl, refl, inr (t, f, l, m))

module _ {W : Type 0} (mk_client : SockName → Store W → Store W × Option (EtdcFd (Store W))) where
  with_transfer-Called :
      (mine : Bytes) (right_mode : OpenMode → Bool) (idle : Type 0) (wrong : Failure)
      → (addrs : List SockName)
      → (run : EtdcFd (Store W) → EtdcFd (Store W) → Store W → Store W × Result (Unit {0}))
      → (st : EtdState W)
      → Called mine right_mode idle st (with_transfer mk_client mine right_mode wrong addrs run st)
  unfolding with_transfer
  with_transfer-Called mine right_mode idle wrong addrs run st =
      let to : EtdState W × Attempt (Result Bool) → Type 0 = Called mine right_mode idle st in
      let call = with_transfer mk_client mine right_mode wrong addrs run st in
      elim (Option-cases (find_uuid mine st.transfers)) [
        | inl e ↦
            let q : call ≡ (st, done (err not_initialized)) = rw (with_transfer, e) refl in
            subst to (sym q) refl
        | inr (t, e) ↦ elim (Bool-cases t.locked) [
          | inl l ↦
              let q : call ≡ (st, again) = rw (with_transfer, e, l) refl in
              subst to (sym q) (refl, t, e, l)
          | inr l ↦ elim (Bool-cases (right_mode t.open_mode)) [
            | inr m ↦
                let q : call ≡ (st, done (err wrong)) = rw (with_transfer, e, l, m) refl in
                subst to (sym q) refl
            | inl m ↦
                let o = connect mk_client addrs st.store in
                let q : call ≡ over_connection (run t.fd) st o = rw (with_transfer, e, l, m) refl in
                subst to (sym q)
                  (over_connection-Called mine right_mode idle (run t.fd) st o t e l m)
          ]
        ]
      ]

  -- sendFile leaves the map of transfers as it was. It is tried again only if somebody has locked
  -- the transfer, with nothing changed. It returns true, and only if there was nothing to send or
  -- the server has a transfer that is unlocked and reads.
  pub send_file-Called :
      (mine src_uuid dst_uuid : Bytes) (todo : ℤ) (addrs : List SockName) (st : EtdState W)
      → Called mine is_read_mode
          (Idle todo)
          st
          (send_file mk_client mine src_uuid dst_uuid todo addrs st)
  unfolding send_file
  send_file-Called mine src_uuid dst_uuid (pos zero) addrs st =
      elim (Bool-cases (bytes_eq src_uuid mine)) [
        | inl e ↦ rw (send_file, e) (refl, refl, inl (inl refl))
        | inr e ↦ rw (send_file, e) refl
      ]
  send_file-Called mine src_uuid dst_uuid (negsuc n) addrs st =
      elim (Bool-cases (bytes_eq src_uuid mine)) [
        | inl e ↦ rw (send_file, e) (refl, refl, inl (inr (n, refl)))
        | inr e ↦ rw (send_file, e) refl
      ]
  send_file-Called mine src_uuid dst_uuid (pos (suc n)) addrs st =
      elim (Bool-cases (bytes_eq src_uuid mine)) [
        | inl e ↦
            rw (send_file, e)
              (with_transfer-Called mine is_read_mode (Idle (pos (suc n))) not_for_reading addrs
                (λ file sock s. send_over file sock dst_uuid (suc n) s) st)
        | inr e ↦ rw (send_file, e) refl
      ]

  -- getFile leaves the map of transfers as it was. It is tried again only if somebody has locked
  -- the transfer, with nothing changed. It returns true, and only if there was nothing to get or
  -- the server has a transfer that is unlocked and writes, and not in the mode SkipExisting.
  pub get_file-Called :
      (mine src_uuid dst_uuid : Bytes) (todo : ℤ) (addrs : List SockName) (st : EtdState W)
      → Called mine may_fill
          (Idle todo)
          st
          (get_file mk_client mine src_uuid dst_uuid todo addrs st)
  unfolding get_file
  get_file-Called mine src_uuid dst_uuid (pos zero) addrs st =
      elim (Bool-cases (bytes_eq dst_uuid mine)) [
        | inl e ↦ rw (get_file, e) (refl, refl, inl (inl refl))
        | inr e ↦ rw (get_file, e) refl
      ]
  get_file-Called mine src_uuid dst_uuid (negsuc n) addrs st =
      elim (Bool-cases (bytes_eq dst_uuid mine)) [
        | inl e ↦ rw (get_file, e) (refl, refl, inl (inr (n, refl)))
        | inr e ↦ rw (get_file, e) refl
      ]
  get_file-Called mine src_uuid dst_uuid (pos (suc n)) addrs st =
      elim (Bool-cases (bytes_eq dst_uuid mine)) [
        | inl e ↦
            rw (get_file, e)
              (with_transfer-Called mine may_fill (Idle (pos (suc n))) not_for_writing addrs
                (λ file sock s. get_over file sock src_uuid (suc n) s) st)
        | inr e ↦ rw (get_file, e) refl
      ]
