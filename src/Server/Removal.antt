-- ===== src/Server/Removal.antt =====
-- removeUUID takes away what a request added.
use etransfer.Common.{
  ◌≡◌, refl, Bool, true, List, some, Bytes, Result, ok, err, arith, bytes_eq_refl, sym, subst,
}
use etransfer.Common.Int.{ℤ}
use etransfer.OpenMode.{OpenMode, read}
use etransfer.Path.{normalize_path}
use etransfer.Files.{Os}
use etransfer.State.{Transfer, EtdState, find_uuid, erase}
use etransfer.State.Map.{find_uuid-insert, erase-insert}
use etransfer.Server.{request_file_write, request_file_read, remove_uuid, Attempt, done}
use etransfer.Server.Requests.{Grants, unlocked, request_file_write_lem, request_file_read_lem}

module _ {W : Type 0} where
  -- How the removal of a transfer ends that was put into `ts`.
  abbrev pub Removes :
      Bytes
      → Bytes
      → List (Bytes × Transfer W)
      → EtdState W
      → EtdState W × Attempt (Result Bool)
      → Type 0
  Removes uuid path ts st o =
      (o.1 ≡ done (ok true))
      × (o.0.transfers ≡ ts)
      × (t : Transfer W) × (find_uuid uuid st.transfers ≡ some t)
      × (t.path ≡ path)
      × (o.0.store ≡ t.fd.close (t.fd.close st.store))

  Removes-granted :
      (G : Type 0) (uuid path : Bytes) (mode : OpenMode) (ts : List (Bytes × Transfer W))
      → (o : EtdState W × Result (Bytes × ℤ)) (u : Bytes) (size : ℤ) → o.1 ≡ ok (u, size)
      → Grants G uuid path mode ts o
      → Removes uuid path ts o.0 (remove_uuid uuid u o.0)
  unfolding remove_uuid
  Removes-granted G uuid path mode ts (st, err e) u size h g = absurd (ground arith)
  Removes-granted G uuid path mode ts (st, ok (u', size')) u size h (_, same, fd, i) =
      let t = unlocked path fd mode in
      let mine : uuid ≡ u = ground (arith, h, same) in
      let found : find_uuid uuid st.transfers ≡ some t = rw i (find_uuid-insert uuid t ts) in
      let q : remove_uuid uuid uuid st ≡ (
        record st { transfers = erase uuid st.transfers; store = fd.close (fd.close st.store) },
        done (ok true),
      ) =
        rw (remove_uuid, bytes_eq_refl uuid, found) refl in
      let out : Removes uuid path ts st (
        record st { transfers = erase uuid st.transfers; store = fd.close (fd.close st.store) },
        done (ok true),
      ) =
        (refl, rw i (erase-insert uuid t ts), t, found, refl, refl) in
      subst (λ v. Removes uuid path ts st (remove_uuid uuid v st)) mine
        (subst (Removes uuid path ts st) (sym q) out)

module _ {W : Type 0} (os : Os W) where
  -- After a requestFileWrite that returned, removeUUID with the uuid that came back returns true in
  -- its first round, the map of transfers is what it was before the request, and the descriptor of
  -- the transfer, which is that of the path, has been closed two times in a row.
  pub remove-request_file_write :
      (uuid path : Bytes) (mode : OpenMode) (st : EtdState W) (u : Bytes) (size : ℤ)
      → (request_file_write os uuid path mode st).1 ≡ ok (u, size)
      → let st' = (request_file_write os uuid path mode st).0 in
        Removes uuid (normalize_path path) st.transfers st' (remove_uuid uuid u st')
  remove-request_file_write uuid path mode st u size h =
      Removes-granted _ uuid (normalize_path path) mode st.transfers
        (request_file_write os uuid path mode st) u size h
        (request_file_write_lem os uuid path mode st)

  -- After a requestFileRead that returned, removeUUID with the uuid that came back returns true in
  -- its first round, the map of transfers is what it was before the request, and the descriptor of
  -- the transfer, which is that of the path, has been closed two times in a row.
  pub remove-request_file_read :
      (uuid path : Bytes) (have : ℤ) (st : EtdState W) (u : Bytes) (size : ℤ)
      → (request_file_read os uuid path have st).1 ≡ ok (u, size)
      → let st' = (request_file_read os uuid path have st).0 in
        Removes uuid (normalize_path path) st.transfers st' (remove_uuid uuid u st')
  remove-request_file_read uuid path have st u size h =
      Removes-granted _ uuid (normalize_path path) read st.transfers
        (request_file_read os uuid path have st) u size h
        (request_file_read_lem os uuid path have st)
