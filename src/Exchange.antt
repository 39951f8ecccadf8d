-- ===== src/Exchange.antt =====
-- src/etdc_etdserver.cc: ETDServer::sendFile and ETDServer::getFile, which move the bytes of a
-- transfer to or from a data server. The number of bytes left, an off_t, is at most 0 where it is 0
-- here: the loops only ask whether it is positive.
mod Calls
pub mod Decimal
mod Loops
mod Tests
use etransfer.Common.{
  ℕ, zero, suc, ◌-◌, ◌+◌, ◌/◌, ◌%◌, ◌^◌, ◌*◌, min, Bool, true, false, List, [], ◌∷◌, ◌++◌, Option,
  none, some, Bytes, codes, Result, ok, err, Failure, out_of_fuel, read_failed, read_hung_up,
  write_failed, write_zero, not_my_uuid, not_initialized, not_for_reading, not_for_writing,
  not_connected, length, bytes_eq, not, ltb, ◌==◌, if◌then◌else◌,
}
use etransfer.Common.Int.{ℤ, pos, negsuc}
use etransfer.Fd.{EtdcFd}
use etransfer.OpenMode.{OpenMode, new, over_write, resume, read, skip_existing, invalid}
use etransfer.Copy.{write_all, await_ack, send_ack}
use etransfer.Files.{Store}
use etransfer.State.{Transfer, EtdState, SockName, find_uuid}
use etransfer.Server.{Attempt, again, done, is_read_mode}

-- The decimal digits that operator<< writes in front of `rest`; n + 1 rounds are enough.
unfoldable pub print_digits : ℕ → ℕ → Bytes → Bytes
print_digits zero n rest = rest
print_digits (suc fuel) n rest =
    let more = print_digits fuel (n / 10) ((b'0' + n % 10) ∷ rest) in
    if ltb n 10 then (b'0' + n) ∷ rest else more

unfoldable pub print_ℕ : ℕ → Bytes
unfolding print_digits
print_ℕ n = print_digits (suc n) n []

-- The command that goes to the data server in front of the bytes, or to ask for them.
unfoldable pub send_header : Bytes → ℕ → Bytes
unfolding print_ℕ
send_header uuid todo = codes "{ uuid:" ++ (uuid ++ (codes ", sz:" ++ (print_ℕ todo ++ codes "}")))

unfoldable pub get_header : Bytes → ℕ → Bytes
unfolding print_ℕ
get_header uuid todo =
    codes "{ uuid:" ++ (uuid ++ (codes ", push:1, sz:" ++ (print_ℕ todo ++ codes "}")))

-- allowedWriteModes of getFile
unfoldable pub may_fill : OpenMode → Bool
may_fill over_write = true
may_fill new = true
may_fill resume = true
may_fill m = false

abbrev pub buf_size : ℕ
buf_size = 32 * 1024 * 1024

module _ {W : Type 0} where
  -- The inner `while( todo>0 )` of sendFile.
  unfoldable pub send_loop : ℕ → EtdcFd W → EtdcFd W → ℕ → ℕ → W → W × Result (Unit {0})
  unfolding write_all
  send_loop fuel src dst buf_sz zero w = (w, ok tt)
  send_loop zero src dst buf_sz (suc todo) w = (w, err out_of_fuel)
  send_loop (suc fuel) src dst buf_sz (suc todo) w =
      let (w', r) = src.read (min (suc todo) buf_sz) w in
      elim r [
        | none ↦ (w', err read_failed)
        | some bs ↦ elim bs [
          | [] ↦ (w', err read_hung_up)
          | b ∷ more ↦
              let (w'', written) = write_all (length (b ∷ more)) dst (b ∷ more) 0 w' in
              elim written [
                | err e ↦ (w'', err e)
                | ok k ↦ send_loop fuel src dst buf_sz (suc todo - k) w''
              ]
        ]
      ]

  -- The inner `while( todo>0 )` of getFile: what one write leaves of the buffer is not written again.
  unfoldable pub get_loop : ℕ → EtdcFd W → EtdcFd W → ℕ → ℕ → W → W × Result (Unit {0})
  get_loop fuel src dst buf_sz zero w = (w, ok tt)
  get_loop zero src dst buf_sz (suc todo) w = (w, err out_of_fuel)
  get_loop (suc fuel) src dst buf_sz (suc todo) w =
      let (w', r) = src.read buf_sz w in
      elim r [
        | none ↦ (w', err read_failed)
        | some bs ↦ elim bs [
          | [] ↦ (w', err read_hung_up)
          | b ∷ more ↦
              let (w'', took) = dst.write (b ∷ more) w' in
              elim took [
                | none ↦ (w'', err write_failed)
                | some zero ↦ (w'', err write_zero)
                | some (suc k) ↦ get_loop fuel src dst buf_sz (suc todo - suc k) w''
              ]
        ]
      ]

  -- What is done on a connection: the header goes out, whether or not all of it is taken, and the
  -- bytes follow. The loops are given as many rounds as there are bytes.
  unfoldable pub send_over : EtdcFd W → EtdcFd W → Bytes → ℕ → W → W × Result (Unit {0})
  unfolding send_loop await_ack send_header
  send_over file sock uuid todo w =
      let w' = (sock.write (send_header uuid todo) w).0 in
      await_ack sock (send_loop todo file sock buf_size todo w')

  unfoldable pub get_over : EtdcFd W → EtdcFd W → Bytes → ℕ → W → W × Result (Unit {0})
  unfolding get_loop send_ack get_header
  get_over file sock uuid todo w =
      let w' = (sock.write (get_header uuid todo) w).0 in
      send_ack sock (get_loop todo sock file buf_size todo w')

  -- The end of a call that had a connection, which the destructor closes.
  unfoldable pub hang_up :
      EtdcFd (Store W)
      → EtdState W
      → Store W × Result (Unit {0})
      → EtdState W × Attempt (Result Bool)
  hang_up sock st (s, err e) = (record st { store = sock.close s }, done (err e))
  hang_up sock st (s, ok _) = (record st { store = sock.close s }, done (ok true))

  -- The rest of either call once there is a connection or none.
  unfoldable pub over_connection :
      (EtdcFd (Store W) → Store W → Store W × Result (Unit {0}))
      → EtdState W
      → Store W × Option (EtdcFd (Store W))
      → EtdState W × Attempt (Result Bool)
  unfolding hang_up
  over_connection run st (s, none) = (record st { store = s }, done (err not_connected))
  over_connection run st (s, some sock) = hang_up sock st (run sock s)

-- mk_client makes a connection to a data server, or throws.
module _ {W : Type 0} (mk_client : SockName → Store W → Store W × Option (EtdcFd (Store W))) where
  -- `for(auto addr: dataAddrs)`: the first that can be reached.
  unfoldable pub connect : List SockName → Store W → Store W × Option (EtdcFd (Store W))
  connect [] s = (s, none)
  connect (a ∷ addrs) s =
      let (s', r) = mk_client a s in
      let rest = connect addrs s' in elim r [ some fd ↦ (s', some fd) | none ↦ rest ]

  -- Either call from the search for the transfer on: one round of `while( todo>0 )`, which is the
  -- last unless the transfer is locked. `right_mode` tells which modes may go on.
  unfoldable pub with_transfer :
      Bytes
      → (OpenMode → Bool)
      → Failure
      → List SockName
      → (EtdcFd (Store W) → EtdcFd (Store W) → Store W → Store W × Result (Unit {0}))
      → EtdState W
      → EtdState W × Attempt (Result Bool)
  unfolding find_uuid connect over_connection
  with_transfer mine right_mode wrong addrs run st = elim (find_uuid mine st.transfers) [
    | none ↦ (st, done (err not_initialized))
    | some t ↦ elim t.locked [
      | true ↦ (st, again)
      | false ↦ elim (right_mode t.open_mode) [
        | false ↦ (st, done (err wrong))
        | true ↦ over_connection (run t.fd) st (connect addrs st.store)
      ]
    ]
  ]

  -- ETDServer::sendFile
  unfoldable pub send_file :
      Bytes → Bytes → Bytes → ℤ → List SockName → EtdState W → EtdState W × Attempt (Result Bool)
  unfolding with_transfer send_over is_read_mode
  send_file mine src_uuid dst_uuid todo addrs st =
      if not (bytes_eq src_uuid mine) then (st, done (err not_my_uuid)) else elim todo [
        | pos (suc n) ↦
            with_transfer mine is_read_mode not_for_reading addrs
              (λ file sock s. send_over file sock dst_uuid (suc n) s) st
        | _ ↦ (st, done (ok true))
      ]

  -- ETDServer::getFile
  unfoldable pub get_file :
      Bytes → Bytes → Bytes → ℤ → List SockName → EtdState W → EtdState W × Attempt (Result Bool)
  unfolding with_transfer get_over may_fill
  get_file mine src_uuid dst_uuid todo addrs st =
      if not (bytes_eq dst_uuid mine) then (st, done (err not_my_uuid)) else elim todo [
        | pos (suc n) ↦
            with_transfer mine may_fill not_for_writing addrs
              (λ file sock s. get_over file sock src_uuid (suc n) s) st
        | _ ↦ (st, done (ok true))
      ]
