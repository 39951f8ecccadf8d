-- ===== src/Proxy/Requests.antt =====
-- src/etdc_etdserver.cc: the requests of ETDProxy: the command goes out, and the reply is read. The
-- size of the buffer is that of the source; `fuel` is the number of reads that are waited for.
use etransfer.Common.{
  ℕ, ◌*◌, Bool, true, false, List, [], ◌∷◌, ◌++◌, none, some, Bytes, Result, ok, err, map,
  bad_address,
}
use etransfer.Common.Int.{ℤ}
use etransfer.Fd.{EtdcFd}
use etransfer.OpenMode.{OpenMode}
use etransfer.State.{SockName}
use etransfer.Wire.{Listed, list_step}
use etransfer.Address.{print_sockname, decode_data_addr}
use etransfer.Command.{
  Command, list_path, write_file, read_file, send_file, data_channel_addr, remove_uuid,
  print_command,
}
use etransfer.Proxy.{
  no_answer, match_have, match_remain, answer_step, answer_result, send_command, read_reply,
  one_line_loop,
}

-- `state` and `rv` of ETDProxy::dataChannelAddr
pub record Addressed : Type 0 where
  pub state : Bytes
  pub addrs : List SockName

-- The body of its loop, which is that of listPath but for the last line: `rv.push_back( decode_data_addr(info) )`.
unfoldable pub push_decoded : Addressed → Listed → Result (Bool × Addressed)
unfolding decode_data_addr
push_decoded s l = elim l.paths [
  | [] ↦ ok (false, record s { state = l.state })
  | info ∷ _ ↦ elim (decode_data_addr info) [
    | none ↦ err bad_address
    | some a ↦ ok (false, record { state = l.state; addrs = s.addrs ++ a ∷ [] })
  ]
]

unfoldable pub addr_step : Addressed → Bytes → Result (Bool × Addressed)
unfolding list_step push_decoded
addr_step s line = elim (list_step (record { state = s.state; paths = [] }) line) [
  | err e ↦ err e
  | ok (true, l) ↦ ok (true, record s { state = l.state })
  | ok (false, l) ↦ push_decoded s l
]

unfoldable pub after_reply : {W A B : Type 0} → (A → Result B) → W × Result A → W × Result B
after_reply f (w, err e) = (w, err e)
after_reply f (w, ok a) = (w, f a)

module _ {W : Type 0} (conn : EtdcFd W) (fuel : ℕ) where
  -- The line of a command goes out; then the reply is read.
  unfoldable pub ask : {A : Type 0} → Command → (W → W × Result A) → W → W × Result A
  unfolding send_command print_command
  ask c receive w =
      let (w', sent) = send_command conn (print_command c ++ 10 ∷ []) w in
      elim sent [ err e ↦ (w', err e) | ok _ ↦ receive w' ]

  -- ETDProxy::listPath
  unfoldable pub ask_list_path : Bytes → W → W × Result (List Bytes)
  unfolding ask after_reply read_reply list_step
  ask_list_path path = ask (list_path path) (λ w.
      after_reply (λ s. ok s.paths)
        (read_reply list_step (16 * 1024) conn fuel (record { state = []; paths = [] }) w))

  -- ETDProxy::requestFileWrite
  unfoldable pub ask_request_file_write : Bytes → OpenMode → W → W × Result (Bytes × ℤ)
  unfolding ask after_reply read_reply answer_step answer_result match_have
  ask_request_file_write file mode = ask (write_file mode file) (λ w.
      after_reply answer_result (read_reply (answer_step match_have) 2048 conn fuel no_answer w))

  -- ETDProxy::requestFileRead
  unfoldable pub ask_request_file_read : Bytes → ℤ → W → W × Result (Bytes × ℤ)
  unfolding ask after_reply read_reply answer_step answer_result match_remain
  ask_request_file_read file already_have = ask (read_file already_have file) (λ w.
      after_reply answer_result (read_reply (answer_step match_remain) 2048 conn fuel no_answer w))

  -- ETDProxy::dataChannelAddr
  unfoldable pub ask_data_channel_addr : W → W × Result (List SockName)
  unfolding ask after_reply read_reply addr_step
  ask_data_channel_addr = ask data_channel_addr (λ w.
      after_reply (λ s. ok s.addrs)
        (read_reply addr_step 2048 conn fuel (record { state = []; addrs = [] }) w))

  -- ETDProxy::removeUUID, which returns true if it returns
  unfoldable pub ask_remove_uuid : Bytes → W → W × Result Bool
  unfolding ask after_reply one_line_loop
  ask_remove_uuid uuid =
      ask (remove_uuid uuid) (λ w. after_reply (λ _. ok true) (one_line_loop fuel 2048 conn [] w))

  -- ETDProxy::sendFile
  unfoldable pub ask_send_file : Bytes → Bytes → ℤ → List SockName → W → W × Result Bool
  unfolding ask after_reply one_line_loop print_sockname
  ask_send_file src_uuid dst_uuid todo data_addrs =
      ask (send_file src_uuid dst_uuid todo (map print_sockname data_addrs))
        (λ w. after_reply (λ _. ok true) (one_line_loop fuel 2048 conn [] w))
