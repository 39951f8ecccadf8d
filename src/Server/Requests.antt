-- ===== src/Server/Requests.antt =====
-- What a request does to the map of transfers, on each of its ends.
use etransfer.Common.{
  ◌≡◌, refl, sym, subst, not_inserted, already_busy, invalid_mode, path_in_use, if◌then◌else◌, true,
  false, List, none, Bytes, Result, ok, err, Bool-cases, Option-cases, zero, suc, inl, inr,
}
use etransfer.Common.Int.{ℤ, pos, negsuc, ◌-ℤ◌}
use etransfer.Fd.{EtdcFd, seek_end, seek_set}
use etransfer.OpenMode.{OpenMode, read, open_flags}
use etransfer.DevZero.{is_dev_zero}
use etransfer.Path.{normalize_path}
use etransfer.Files.{Os, Store, mk_file, mk_device_fd}
use etransfer.State.{Transfer, EtdState, find_uuid, insert, emplace}
use etransfer.Server.{
  is_write_mode, is_dev_null, path_present, may_read, add_transfer, sized, opened_write, positioned,
  sized_read, opened_read, request_file_write, request_file_read,
}

module _ {W : Type 0} where
  -- A new transfer, which nobody has locked.
  abbrev pub unlocked : Bytes → EtdcFd (Store W) → OpenMode → Transfer W
  unlocked path fd mode = record { path = path; fd = fd; open_mode = mode; locked = false }

  -- A call that fails leaves the map as it was; one that returns has put one transfer into it, of
  -- that path and mode, under the uuid that it gives back.
  abbrev pub Adds :
      Bytes
      → Bytes
      → OpenMode
      → List (Bytes × Transfer W)
      → EtdState W × Result (Bytes × ℤ)
      → Type 0
  Adds uuid path mode ts (st, err e) = st.transfers ≡ ts
  Adds uuid path mode ts (st, ok (u, size)) =
      (u ≡ uuid) × (fd : EtdcFd (Store W)) × (st.transfers ≡ insert uuid (unlocked path fd mode) ts)

  add_transfer-Adds :
      (uuid path : Bytes) (fd : EtdcFd (Store W)) (mode : OpenMode) (size : ℤ) (st : EtdState W)
      → Adds uuid path mode st.transfers (add_transfer uuid (unlocked path fd mode) size st)
  unfolding add_transfer emplace
  add_transfer-Adds uuid path fd mode size st =
      let t = unlocked path fd mode in
      let to : EtdState W × Result (Bytes × ℤ) → Type 0 = Adds uuid path mode st.transfers in
      elim (Option-cases (find_uuid uuid st.transfers)) [
        | inl e ↦
            let q : add_transfer uuid t size st
                ≡ (record st { transfers = insert uuid t st.transfers }, ok (uuid, size)) =
              rw (add_transfer, emplace, e) refl in
            subst to (sym q) (refl, fd, refl)
        | inr (u, e) ↦
            let q : add_transfer uuid t size st
                ≡ (record st { store = fd.close st.store }, err not_inserted) =
              rw (add_transfer, emplace, e) refl in
            subst to (sym q) refl
      ]

  opened_write-Adds :
      (uuid path : Bytes) (mode : OpenMode) (st : EtdState W)
      → (o : Store W × Result (EtdcFd (Store W)))
      → Adds uuid path mode st.transfers (opened_write uuid path mode st o)
  unfolding opened_write sized
  opened_write-Adds uuid path mode st (s, err e) = refl
  opened_write-Adds uuid path mode st (s, ok fd) = sized-Adds (fd.lseek (pos 0) seek_end s)
    where
      sized-Adds :
          (o : Store W × Result ℤ) → Adds uuid path mode st.transfers (sized uuid path mode fd st o)
      sized-Adds (s', err e) = refl
      sized-Adds (s', ok size) = add_transfer-Adds uuid path fd mode size (record st { store = s' })

  positioned-Adds :
      (uuid path : Bytes) (left : ℤ) (fd : EtdcFd (Store W)) (st : EtdState W)
      → (o : Store W × Result ℤ)
      → Adds uuid path read st.transfers (positioned uuid path left fd st o)
  unfolding positioned
  positioned-Adds uuid path left fd st (s, err e) = refl
  positioned-Adds uuid path left fd st (s, ok (negsuc zero)) = refl
  positioned-Adds uuid path left fd st (s, ok (negsuc (suc n))) =
      add_transfer-Adds uuid path fd read left (record st { store = s })
  positioned-Adds uuid path left fd st (s, ok (pos n)) =
      add_transfer-Adds uuid path fd read left (record st { store = s })

  opened_read-Adds :
      (uuid path : Bytes) (have : ℤ) (st : EtdState W)
      → (o : Store W × Result (EtdcFd (Store W)))
      → Adds uuid path read st.transfers (opened_read uuid path have st o)
  unfolding opened_read sized_read
  opened_read-Adds uuid path have st (s, err e) = refl
  opened_read-Adds uuid path have st (s, ok fd) = sized_read-Adds (fd.lseek (pos 0) seek_end s)
    where
      sized_read-Adds :
          (o : Store W × Result ℤ)
          → Adds uuid path read st.transfers (sized_read uuid path have fd st o)
      sized_read-Adds (s', err e) = refl
      sized_read-Adds (s', ok size) =
          positioned-Adds uuid path (size -ℤ have) fd st (fd.lseek have seek_set s')

  -- The same, with what else is known of a call that returns.
  abbrev pub Grants :
      Type 0
      → Bytes
      → Bytes
      → OpenMode
      → List (Bytes × Transfer W)
      → EtdState W × Result (Bytes × ℤ)
      → Type 0
  Grants G uuid path mode ts (st, err e) = st.transfers ≡ ts
  Grants G uuid path mode ts (st, ok (u, size)) =
      G
      × (u ≡ uuid)
      × (fd : EtdcFd (Store W)) × (st.transfers ≡ insert uuid (unlocked path fd mode) ts)

  grant :
      {G : Type 0} (uuid path : Bytes) (mode : OpenMode) (ts : List (Bytes × Transfer W))
      → (o : EtdState W × Result (Bytes × ℤ)) → G
      → Adds uuid path mode ts o
      → Grants G uuid path mode ts o
  grant uuid path mode ts (st, err e) g a = a
  grant uuid path mode ts (st, ok (u, size)) g a = (g, a.0, a.1, a.2)

module _ {W : Type 0} (os : Os W) where
  -- requestFileWrite, whatever the operating system does: if it fails the map of transfers is as it
  -- was; if it returns, the uuid had no transfer, the mode is one for writing, the path was not in
  -- use (or is /dev/null), and the map has gained one transfer, of that path and mode, under the uuid
  -- that comes back.
  pub request_file_write_lem :
      (uuid path : Bytes) (mode : OpenMode) (st : EtdState W)
      → Grants
          ((find_uuid uuid st.transfers ≡ none)
            × (is_write_mode mode ≡ true)
            × (path_present (normalize_path path) st.transfers ≡ false))
          uuid
          (normalize_path path)
          mode
          st.transfers
          (request_file_write os uuid path mode st)
  unfolding request_file_write
  request_file_write_lem uuid path mode st =
      let npath = normalize_path path in
      let ts = st.transfers in
      let G : Type 0 =
        (find_uuid uuid ts ≡ none)
        × (is_write_mode mode ≡ true)
        × (path_present npath ts ≡ false) in
      let to : EtdState W × Result (Bytes × ℤ) → Type 0 = Grants G uuid npath mode ts in
      let o : Store W × Result (EtdcFd (Store W)) =
        if is_dev_null npath
        then mk_device_fd os npath (open_flags mode) st.store
        else mk_file os npath (open_flags mode) st.store in
      elim (Option-cases (find_uuid uuid ts)) [
        | inr (t, e) ↦
            let q : request_file_write os uuid path mode st ≡ (st, err already_busy) =
              rw (request_file_write, e) refl in
            subst to (sym q) refl
        | inl e ↦ elim (Bool-cases (is_write_mode mode)) [
          | inr m ↦
              let q : request_file_write os uuid path mode st ≡ (st, err invalid_mode) =
                rw (request_file_write, e, m) refl in
              subst to (sym q) refl
          | inl m ↦ elim (Bool-cases (path_present npath ts)) [
            | inl p ↦
                let q : request_file_write os uuid path mode st ≡ (st, err path_in_use) =
                  rw (request_file_write, e, m, p) refl in
                subst to (sym q) refl
            | inr p ↦
                let q : request_file_write os uuid path mode st
                    ≡ opened_write uuid npath mode st o =
                  rw (request_file_write, e, m, p) refl in
                subst to (sym q) (
                  grant uuid npath mode ts (opened_write uuid npath mode st o) (e, m, p)
                    (opened_write-Adds uuid npath mode st o))
          ]
        ]
      ]

  -- requestFileRead, whatever the operating system does: if it fails the map of transfers is as it
  -- was; if it returns, the uuid had no transfer, the first transfer of the path, if any, was reading
  -- it, and the map has gained one transfer that reads the path, under the uuid that comes back.
  pub request_file_read_lem :
      (uuid path : Bytes) (have : ℤ) (st : EtdState W)
      → Grants
          ((find_uuid uuid st.transfers ≡ none)
            × (may_read (normalize_path path) st.transfers ≡ true))
          uuid
          (normalize_path path)
          read
          st.transfers
          (request_file_read os uuid path have st)
  unfolding request_file_read
  request_file_read_lem uuid path have st =
      let npath = normalize_path path in
      let ts = st.transfers in
      let G : Type 0 = (find_uuid uuid ts ≡ none) × (may_read npath ts ≡ true) in
      let to : EtdState W × Result (Bytes × ℤ) → Type 0 = Grants G uuid npath read ts in
      let o : Store W × Result (EtdcFd (Store W)) =
        if is_dev_zero npath
        then mk_device_fd os npath (open_flags read) st.store
        else mk_file os npath (open_flags read) st.store in
      elim (Option-cases (find_uuid uuid ts)) [
        | inr (t, e) ↦
            let q : request_file_read os uuid path have st ≡ (st, err already_busy) =
              rw (request_file_read, e) refl in
            subst to (sym q) refl
        | inl e ↦ elim (Bool-cases (may_read npath ts)) [
          | inr p ↦
              let q : request_file_read os uuid path have st ≡ (st, err path_in_use) =
                rw (request_file_read, e, p) refl in
              subst to (sym q) refl
          | inl p ↦
              let q : request_file_read os uuid path have st ≡ opened_read uuid npath have st o =
                rw (request_file_read, e, p) refl in
              subst to (sym q) (
                grant uuid npath read ts (opened_read uuid npath have st o) (e, p)
                  (opened_read-Adds uuid npath have st o))
        ]
      ]
