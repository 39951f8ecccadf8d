-- ===== src/Server/Reach.antt =====
-- Any sequence of requests to the servers that share one state.
use etransfer.Common.{◌≡◌, refl, Bool, true, List, Bytes, Result, ok, err, arith}
use etransfer.Common.Int.{ℤ}
use etransfer.OpenMode.{OpenMode, read}
use etransfer.Path.{normalize_path}
use etransfer.Files.{Os, Store}
use etransfer.State.{Transfer, EtdState, set_locked}
use etransfer.Server.{is_read_mode, request_file_write, request_file_read, remove_uuid}
use etransfer.Server.Exclusive.{
  exclusive, all_compatible, exclusive-insert, exclusive-erase, exclusive-set_locked,
  path_present-compatible, may_read-compatible,
}
use etransfer.Server.Requests.{Grants, unlocked, request_file_write_lem, request_file_read_lem}

module _ {W : Type 0} where
  Grants-exclusive :
      {G : Type 0} (uuid path : Bytes) (mode : OpenMode) (ts : List (Bytes × Transfer W))
      → (o : EtdState W × Result (Bytes × ℤ))
      → (G → (t : Transfer W) → t.path ≡ path → t.open_mode ≡ mode → all_compatible t ts ≡ true)
      → Grants G uuid path mode ts o
      → exclusive ts ≡ true
      → exclusive o.0.transfers ≡ true
  Grants-exclusive uuid path mode ts (st, err e) c g x = rw g x
  Grants-exclusive uuid path mode ts (st, ok (u, size)) c (g, _, fd, h) x =
      let t = unlocked path fd mode in rw h (exclusive-insert uuid t ts (c g t refl refl) x)

  remove_uuid-exclusive :
      (mine uuid : Bytes) (st : EtdState W)
      → exclusive st.transfers ≡ true
      → exclusive (remove_uuid mine uuid st).0.transfers ≡ true
  unfolding remove_uuid
  remove_uuid-exclusive mine uuid st x = ground (arith, exclusive-erase mine st.transfers)

module _ {W : Type 0} (os : Os W) where
  -- What one server, or the rest of the world, does to the shared state.
  pub data Step : EtdState W → EtdState W → Type 0 where
    by_write :
        {st : EtdState W} (uuid path : Bytes) (mode : OpenMode)
        → Step st (request_file_write os uuid path mode st).0
    by_read :
        {st : EtdState W} (uuid path : Bytes) (have : ℤ)
        → Step st (request_file_read os uuid path have st).0
    by_remove : {st : EtdState W} (mine uuid : Bytes) → Step st (remove_uuid mine uuid st).0
    -- a transfer starts or ends
    by_lock :
        {st : EtdState W} (uuid : Bytes) (b : Bool)
        → Step st (record st { transfers = set_locked uuid b st.transfers })
    -- bytes move, or other programs act
    by_world : {st : EtdState W} (s : Store W) → Step st (record st { store = s })

  pub data Steps : EtdState W → EtdState W → Type 0 where
    stay : {st : EtdState W} → Steps st st
    more : {st st' st'' : EtdState W} → Steps st st' → Step st' st'' → Steps st st''

  Step-exclusive :
      {st st' : EtdState W}
      → Step st st'
      → exclusive st.transfers ≡ true
      → exclusive st'.transfers ≡ true
  unfolding is_read_mode
  Step-exclusive (by_write {st} uuid path mode) x =
      Grants-exclusive uuid (normalize_path path) mode st.transfers
        (request_file_write os uuid path mode st)
        (λ g t e _. path_present-compatible t st.transfers (rw e (g.2)))
        (request_file_write_lem os uuid path mode st) x
  Step-exclusive (by_read {st} uuid path have) x =
      Grants-exclusive uuid (normalize_path path) read st.transfers
        (request_file_read os uuid path have st)
        (λ g t e m. may_read-compatible t st.transfers (rw m refl) x (rw e (g.1)))
        (request_file_read_lem os uuid path have st) x
  Step-exclusive (by_remove {st} mine uuid) x = remove_uuid-exclusive mine uuid st x
  Step-exclusive (by_lock {st} uuid b) x = exclusive-set_locked uuid b st.transfers x
  Step-exclusive (by_world s) x = x

  -- Whatever requests come, in whatever order, and whatever else happens to the files meanwhile: if
  -- the transfers at the start are not in each other's way, no later transfer writes a file (other
  -- than /dev/null) that another transfer has open under the same normalized path.
  pub Steps-exclusive :
      {st st' : EtdState W}
      → Steps st st'
      → exclusive st.transfers ≡ true
      → exclusive st'.transfers ≡ true
  Steps-exclusive stay x = x
  Steps-exclusive (more h s) x = Step-exclusive s (Steps-exclusive h x)
