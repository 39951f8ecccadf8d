-- ===== src/Server.antt =====
-- src/etdc_etdserver.cc: ETDServer, which opens files for reading and writing, keeps them in the map
-- of transfers under its own uuid, and closes them.
pub mod Listing
mod Exclusive
mod Reach
mod Removal
mod Requests
mod Tests
use etransfer.Common.{
  ℕ, zero, suc, ◌-◌, min, Bool, true, false, List, [], ◌∷◌, ◌++◌, Option, none, some, Bytes, codes,
  Result, ok, err, already_busy, invalid_mode, path_in_use, cannot_seek, not_inserted, not_my_uuid,
  bytes_eq, not, ◌&&◌, ◌||◌, if◌then◌else◌,
}
use etransfer.Common.Int.{ℤ, pos, negsuc, ◌-ℤ◌}
use etransfer.Fd.{EtdcFd, seek_set, seek_end}
use etransfer.OpenMode.{OpenMode, new, over_write, resume, read, skip_existing, invalid, open_flags}
use etransfer.Path.{normalize_path}
use etransfer.DevZero.{is_dev_zero}
use etransfer.Files.{Os, Store, mk_file, mk_device_fd}
use etransfer.State.{Transfer, EtdState, SockName, find_uuid, emplace, erase, find_path, set_locked}

-- allowedModes of requestFileWrite
unfoldable pub is_write_mode : OpenMode → Bool
is_write_mode read = false
is_write_mode invalid = false
is_write_mode m = true

unfoldable pub is_read_mode : OpenMode → Bool
is_read_mode read = true
is_read_mode m = false

abbrev pub dev_null : Bytes
dev_null = codes "/dev/null"

unfoldable pub is_dev_null : Bytes → Bool
is_dev_null path = bytes_eq path dev_null

-- One round of a loop that tries to lock a transfer: it sleeps and starts again, or is done.
pub data Attempt (A : Type 0) : Type 0 where
  again : Attempt A
  done : A → Attempt A

module _ {W : Type 0} where
  -- pathPresent of requestFileWrite
  unfoldable pub path_present : Bytes → List (Bytes × Transfer W) → Bool
  unfolding is_dev_null find_path
  path_present path ts =
      if is_dev_null path then false else elim (find_path path ts) [ none ↦ false | some _ ↦ true ]

  -- The test of requestFileRead: the first transfer of the path, if there is one, reads.
  unfoldable pub may_read : Bytes → List (Bytes × Transfer W) → Bool
  unfolding find_path is_read_mode
  may_read path ts = elim (find_path path ts) [ none ↦ true | some t ↦ is_read_mode t.open_mode ]

  -- The end of both requests: the new transfer goes into the map. If that fails, the last owner of
  -- the descriptor is gone, and it is closed.
  unfoldable pub add_transfer :
      Bytes → Transfer W → ℤ → EtdState W → EtdState W × Result (Bytes × ℤ)
  unfolding emplace
  add_transfer uuid t size st = elim (emplace uuid t st.transfers) [
    | none ↦ (record st { store = t.fd.close st.store }, err not_inserted)
    | some ts ↦ (record st { transfers = ts }, ok (uuid, size))
  ]

  -- requestFileWrite when the descriptor was made, and when the seek is done.
  unfoldable pub sized :
      Bytes
      → Bytes
      → OpenMode
      → EtdcFd (Store W)
      → EtdState W
      → Store W × Result ℤ
      → EtdState W × Result (Bytes × ℤ)
  unfolding add_transfer
  sized uuid path mode fd st (s, err e) = (record st { store = fd.close s }, err e)
  sized uuid path mode fd st (s, ok size) =
      add_transfer uuid (record { path = path; fd = fd; open_mode = mode; locked = false }) size
        (record st { store = s })

  unfoldable pub opened_write :
      Bytes
      → Bytes
      → OpenMode
      → EtdState W
      → Store W × Result (EtdcFd (Store W))
      → EtdState W × Result (Bytes × ℤ)
  unfolding sized
  opened_write uuid path mode st (s, err e) = (record st { store = s }, err e)
  opened_write uuid path mode st (s, ok fd) =
      sized uuid path mode fd st (fd.lseek (pos 0) seek_end s)

  -- requestFileRead when the descriptor was made, and when each of its seeks is done. The second
  -- may give -1 in place of an exception.
  unfoldable pub positioned :
      Bytes
      → Bytes
      → ℤ
      → EtdcFd (Store W)
      → EtdState W
      → Store W × Result ℤ
      → EtdState W × Result (Bytes × ℤ)
  unfolding add_transfer
  positioned uuid path left fd st (s, err e) = (record st { store = fd.close s }, err e)
  positioned uuid path left fd st (s, ok (negsuc zero)) =
      (record st { store = fd.close s }, err cannot_seek)
  positioned uuid path left fd st (s, ok at) =
      add_transfer uuid (record { path = path; fd = fd; open_mode = read; locked = false }) left
        (record st { store = s })

  unfoldable pub sized_read :
      Bytes
      → Bytes
      → ℤ
      → EtdcFd (Store W)
      → EtdState W
      → Store W × Result ℤ
      → EtdState W × Result (Bytes × ℤ)
  unfolding positioned
  sized_read uuid path have fd st (s, err e) = (record st { store = fd.close s }, err e)
  sized_read uuid path have fd st (s, ok size) =
      positioned uuid path (size -ℤ have) fd st (fd.lseek have seek_set s)

  unfoldable pub opened_read :
      Bytes
      → Bytes
      → ℤ
      → EtdState W
      → Store W × Result (EtdcFd (Store W))
      → EtdState W × Result (Bytes × ℤ)
  unfolding sized_read
  opened_read uuid path have st (s, err e) = (record st { store = s }, err e)
  opened_read uuid path have st (s, ok fd) =
      sized_read uuid path have fd st (fd.lseek (pos 0) seek_end s)

  -- ETDServer::removeUUID, one round of its loop. The descriptor is closed, and once more by the
  -- destructor of etdc_fd when the transfer is deleted. (A devzeronull has no descriptor that the
  -- destructor would close; to close it again changes nothing.)
  unfoldable pub remove_uuid : Bytes → Bytes → EtdState W → EtdState W × Attempt (Result Bool)
  unfolding find_uuid erase
  remove_uuid my_uuid uuid st =
      if not (bytes_eq uuid my_uuid)
      then (st, done (err not_my_uuid))
      else elim (find_uuid my_uuid st.transfers) [
        | none ↦ (st, done (ok false))
        | some t ↦ elim t.locked [
          | true ↦ (st, again)
          | false ↦ (
            record st {
              transfers = erase my_uuid st.transfers;
              store = t.fd.close (t.fd.close st.store);
            },
            done (ok true),
          )
        ]
      ]

  -- ETDServer::dataChannelAddr
  unfoldable pub data_channel_addr : EtdState W → List SockName
  data_channel_addr st = st.data_addrs

module _ {W : Type 0} (os : Os W) where
  -- ETDServer::requestFileWrite: the uuid, and the size that the file has.
  unfoldable pub request_file_write :
      Bytes → Bytes → OpenMode → EtdState W → EtdState W × Result (Bytes × ℤ)
  unfolding find_uuid path_present is_write_mode opened_write mk_file mk_device_fd normalize_path
      open_flags
  request_file_write uuid path mode st =
      let npath = normalize_path path in
      elim (find_uuid uuid st.transfers) [
        | some _ ↦ (st, err already_busy)
        | none ↦ elim (is_write_mode mode) [
          | false ↦ (st, err invalid_mode)
          | true ↦ elim (path_present npath st.transfers) [
            | true ↦ (st, err path_in_use)
            | false ↦ opened_write uuid npath mode st (
                if is_dev_null npath
                then mk_device_fd os npath (open_flags mode) st.store
                else mk_file os npath (open_flags mode) st.store)
          ]
        ]
      ]

  -- ETDServer::requestFileRead: the uuid, and how much there is behind `have`.
  unfoldable pub request_file_read :
      Bytes → Bytes → ℤ → EtdState W → EtdState W × Result (Bytes × ℤ)
  unfolding find_uuid may_read opened_read mk_file mk_device_fd normalize_path open_flags
      is_dev_zero
  request_file_read uuid path have st =
      let npath = normalize_path path in
      elim (find_uuid uuid st.transfers) [
        | some _ ↦ (st, err already_busy)
        | none ↦ elim (may_read npath st.transfers) [
          | false ↦ (st, err path_in_use)
          | true ↦ opened_read uuid npath have st (
              if is_dev_zero npath
              then mk_device_fd os npath (open_flags read) st.store
              else mk_file os npath (open_flags read) st.store)
        ]
      ]
