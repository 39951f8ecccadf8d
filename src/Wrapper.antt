-- ===== src/Wrapper.antt =====
-- src/etdc_etdserver.h and src/etdc_etdserver.cc: ETDServerInterface, what a server can be asked, and
-- ETDServerWrapper::handle, which reads commands from a connection, has a server carry them out, and
-- sends back the replies.
pub mod Unknown
mod Tests
use etransfer.Common.{
  ℕ, zero, suc, ◌-◌, ◌+◌, Bool, true, false, List, [], ◌∷◌, ◌++◌, Option, none, some, Bytes, codes,
  Result, Failure, ok, err, out_of_fuel, read_hung_up, bad_number, bad_address, map, length, drop,
  ltb, not, ◌||◌, if◌then◌else◌,
}
use etransfer.Common.Int.{ℤ}
use etransfer.Fd.{EtdcFd}
use etransfer.OpenMode.{OpenMode}
use etransfer.State.{SockName}
use etransfer.Wire.{get_replies, list_replies}
use etransfer.Address.{print_sockname, decode_data_addr}
use etransfer.Command.{
  Command, list_path, write_file, read_file, send_file, data_channel_addr, remove_uuid, print_ℤ,
  parse_command,
}

-- ETDServerInterface, but for getFile and status, which the wrapper never asks for. listPath is asked
-- without expansion of a tilde.
pub record EtdServerInterface (W : Type 0) : Type 0 where
  pub on_list_path : Bytes → W → W × Result (List Bytes)
  pub on_request_file_write : Bytes → OpenMode → W → W × Result (Bytes × ℤ)
  pub on_request_file_read : Bytes → ℤ → W → W × Result (Bytes × ℤ)
  pub on_send_file : Bytes → Bytes → ℤ → List SockName → W → W × Result Bool
  pub on_data_channel_addr : W → W × Result (List SockName)
  pub on_remove_uuid : Bytes → W → W × Result Bool

-- The replies to a request that gave a position and a Uuid; `name` is "AlreadyHave:" or "Remain:".
unfoldable pub answer_replies : Bytes → Bytes × ℤ → List Bytes
unfolding print_ℤ
answer_replies name (uuid, n) = (name ++ print_ℤ n) ∷ (codes "UUID:" ++ uuid) ∷ codes "OK" ∷ []

unfoldable pub done_replies : Bytes → Bool → List Bytes
done_replies failed true = codes "OK" ∷ []
done_replies failed false = failed ∷ []

-- decode_data_addr on each
unfoldable pub decode_all : List Bytes → Option (List SockName)
decode_all [] = some []
decode_all (s ∷ ss) =
    let rest = decode_all ss in
    elim (decode_data_addr s) [
      | none ↦ none
      | some a ↦ elim rest [ none ↦ none | some found ↦ some (a ∷ found) ]
    ]

-- `what` is the text of an exception, e.what().
module _ (what : Failure → Bytes) where
  -- The handler of exceptions of the standard library.
  unfoldable pub err_reply : Failure → List Bytes
  err_reply e = (codes "ERR " ++ what e) ∷ []

  -- The replies to a request, from its result.
  unfoldable pub replies_of : {W A : Type 0} → (A → List Bytes) → W × Result A → W × List Bytes
  unfolding err_reply
  replies_of f (w, ok a) = (w, f a)
  replies_of f (w, err e) = (w, err_reply e)

  module _ {W : Type 0} (srv : EtdServerInterface W) where
    -- The branch of each command: the replies that are collected.
    unfoldable pub run_command : Command → W → W × List Bytes
    unfolding replies_of answer_replies list_replies decode_all done_replies print_sockname
    run_command (list_path path) w = replies_of list_replies (srv.on_list_path path w)
    run_command (write_file mode path) w =
        replies_of (answer_replies (codes "AlreadyHave:")) (srv.on_request_file_write path mode w)
    run_command (read_file have path) w =
        replies_of (answer_replies (codes "Remain:")) (srv.on_request_file_read path have w)
    run_command (send_file u v todo addrs) w = elim (decode_all addrs) [
      | none ↦ (w, err_reply bad_address)
      | some found ↦
          replies_of (done_replies (codes "ERR Failed to send file"))
            (srv.on_send_file u v todo found w)
    ]
    run_command data_channel_addr w =
        replies_of (λ found. list_replies (map print_sockname found)) (srv.on_data_channel_addr w)
    run_command (remove_uuid u) w =
        replies_of (done_replies (codes "ERR Failed to remove UUID")) (srv.on_remove_uuid u w)

    -- What is done with a line: `none` if it is no command.
    unfoldable pub answer_line : Bytes → W → W × Option (List Bytes)
    unfolding parse_command run_command
    answer_line line w = elim (parse_command line) [
      | none ↦ (w, none)
      | some none ↦ (w, some (err_reply bad_number))
      | some (some c) ↦ let (w', rs) = run_command c w in (w', some rs)
    ]

    module _ (conn : EtdcFd W) where
      -- `for(auto const& r: replies)`: what the writes return is not looked at.
      unfoldable pub write_replies : List Bytes → W → W
      write_replies [] w = w
      write_replies (r ∷ rs) w = write_replies rs (conn.write (10 ∷ []) (conn.write r w).0).0

      -- The `for` over the lines of one read: a line that is no command closes the connection and
      -- terminates the outer loop, but the lines behind it are still carried out.
      unfoldable pub handle_lines : List Bytes → Bool → W → W × Bool
      unfolding answer_line write_replies
      handle_lines [] terminated w = (w, terminated)
      handle_lines (line ∷ lines) terminated w =
          let (w', replies) = answer_line line w in
          elim replies [
            | none ↦ handle_lines lines true (conn.close w')
            | some rs ↦ handle_lines lines terminated (write_replies rs w')
          ]

      -- ETDServerWrapper::handle: `while( !terminated && curPos<bufSz )`
      unfoldable pub handle_loop : ℕ → ℕ → Bytes → W → W × Result (Unit {0})
      unfolding get_replies handle_lines
      handle_loop zero buf_sz buf w = (w, err out_of_fuel)
      handle_loop (suc fuel) buf_sz buf w = elim (ltb (length buf) buf_sz) [
        | false ↦ (w, ok tt)
        | true ↦
            let (w', r) = conn.read (buf_sz - length buf) w in
            elim r [
              | none ↦ (w', err read_hung_up)
              | some bs ↦ elim bs [
                | [] ↦ (w', err read_hung_up)
                | b ∷ more ↦
                    let (lines, end) = get_replies (buf ++ b ∷ more) in
                    let (w'', terminated) = handle_lines lines false w' in
                    let next = handle_loop fuel buf_sz (drop end (buf ++ b ∷ more)) w'' in
                    elim terminated [ true ↦ (w'', ok tt) | false ↦ next ]
              ]
            ]
      ]

      unfoldable pub handle : ℕ → W → W × Result (Unit {0})
      unfolding handle_loop
      handle fuel w = handle_loop fuel 2048 [] w
