-- ===== src/Remote/Requests.antt =====
-- What ETDProxy gives back is what the server at the other end gave.
use etransfer.Common.{
  ◌^◌, ℕ, ◌<◌, ◌≡◌, refl, subst, inl, inr, Bool, true, [], ◌∷◌, Option, Bytes, codes, Failure, ok,
  err, refused, map,
}
use etransfer.Common.Int.{ℤ, pos, negsuc}
use etransfer.Fd.{EtdcFd}
use etransfer.OpenMode.{OpenMode}
use etransfer.Address.{print_sockname}
use etransfer.Wire.{reply_lines, list_replies}
use etransfer.Command.{data_channel_addr, remove_uuid}
use etransfer.Proxy.{Answer, no_answer, is_word, answer_step, answer_result}
use etransfer.Proxy.Answers.{error_line, addr_step-error, Readable, reply_lines-addresses}
use etransfer.Proxy.Requests.{addr_step, ask_data_channel_addr, ask_remove_uuid}
use etransfer.Wrapper.{EtdServerInterface, run_command, answer_replies}
use etransfer.Remote.{Served, seen, seen_done}
use etransfer.Remote.Loops.{Succeeds, Same, Ready, loops, one_line_asks}

-- A Uuid and a position that the reply can carry: AlreadyHave has no place for a sign.
abbrev pub Sound : Bool → Bytes × ℤ → Type 0
Sound signed (u, pos n) = (is_word u ≡ true) × (n < 2 ^ 63)
Sound signed (u, negsuc n) = (signed ≡ true) × (is_word u ≡ true) × (n < 2 ^ 63)

-- The fold over the lines gives the answer, which is a success.
abbrev Answers : (Bytes → Option Bytes) → Bytes → Bytes × ℤ → Type 0
Answers match_position name a =
    (t : Answer) × (reply_lines (answer_step match_position) no_answer (answer_replies name a)
      ≡ ok (true, t))
    × (answer_result t ≡ ok a)

abbrev Refuses : (Bytes → Option Bytes) → Bytes → Type 0
Refuses match_position text =
    (t : Answer) × (reply_lines (answer_step match_position) no_answer (error_line text ∷ [])
      ≡ ok (true, t))
    × (answer_result t ≡ err refused)

module _ {V W : Type 0} {what : Failure → Bytes} {srv : EtdServerInterface W} {conn : EtdcFd V}
    (sv : Served what srv conn) where
  open sv use {server}

  -- ETDProxy::dataChannelAddr, on a connection at whose other end a wrapper answers, does to the
  -- server what its dataChannelAddr does, and gives the same addresses, or fails where it fails,
  -- however the reply is cut into pieces. The command is_sendable and is one line, nothing else is
  -- on its way, and each reply, or the one for an exception, is a line and fits into the buffer,
  -- and each address is read by decode_data_addr as it is written.
  pub ask_data_channel_addr-Same :
      (fuel : ℕ) (v : V)
      → Ready sv 2048 fuel data_channel_addr v
      → Succeeds Readable (srv.on_data_channel_addr (server v)).1
      → Same sv seen (ask_data_channel_addr conn fuel v) (srv.on_data_channel_addr (server v))
  unfolding ask_data_channel_addr run_command
  ask_data_channel_addr-Same fuel v r h =
      let theirs = srv.on_data_channel_addr (server v) in
      loops sv addr_step (record { state = []; addrs = [] }) (λ s. ok s.addrs) 2048 fuel
        data_channel_addr v (λ found. list_replies (map print_sockname found)) theirs r refl
        (λ found e.
          (_, reply_lines-addresses [] [] found (inl refl) (subst (Succeeds Readable) e h), refl))
        (λ text. inr (addr_step-error text))

  -- ETDProxy::removeUUID, on a connection at whose other end a wrapper answers, does to the server
  -- what its removeUUID does, and returns true where it returns true, and fails where it returns
  -- false or fails, however the reply is cut into pieces. The command is_sendable and is one line,
  -- nothing else is on its way, and each reply, or the one for an exception, is a line and fits
  -- into the buffer.
  pub ask_remove_uuid-Same :
      (fuel : ℕ) (uuid : Bytes) (v : V)
      → Ready sv 2048 fuel (remove_uuid uuid) v
      → Same sv seen_done (ask_remove_uuid conn fuel uuid v) (srv.on_remove_uuid uuid (server v))
  unfolding ask_remove_uuid run_command
  ask_remove_uuid-Same fuel uuid v r =
      one_line_asks sv fuel (remove_uuid uuid) v (codes "Failed to remove UUID")
        (srv.on_remove_uuid uuid (server v)) r refl
