-- ===== src/Remote/Tests.antt =====
-- A small server, asked over a connection.
use etransfer.Common.{
  ℕ, suc, ◌≡◌, refl, true, [], ◌∷◌, Bytes, codes, Failure, ok, err, refused, bytes_eq, arith,
}
use etransfer.Common.Int.{pos, negsuc}
use etransfer.Text.{is_space}
use etransfer.Fd.{EtdcFd}
use etransfer.OpenMode.{resume}
use etransfer.State.{SockName}
use etransfer.Wire.{is_newline, get_replies, send_replies, reply_lines}
use etransfer.Address.{decode_data_addr, print_sockname}
use etransfer.Command.RoundTrip.{is_sendable}
use etransfer.Proxy.Answers.{Readable}
use etransfer.Wrapper.{EtdServerInterface, run_command}
use etransfer.Command.{data_channel_addr, remove_uuid, print_command}
use etransfer.Proxy.Requests.{ask_request_file_write, ask_data_channel_addr, ask_remove_uuid}
use etransfer.Remote.{Served, seen, seen_done}
use etransfer.Remote.Loops.{Ready, Same}
use etransfer.Remote.Loopback.{Link, loopback, loopback-Served}
use etransfer.Remote.Requests.{ask_data_channel_addr-Same, ask_remove_uuid-Same}

abbrev address : SockName
address = record { protocol = codes "udt"; host = codes "::1"; port = 8008 }

-- Its world counts the requests; there is one file.
abbrev toy : EtdServerInterface ℕ
toy = record {
  on_list_path = λ p w. (suc w, ok (codes "/a/b" ∷ codes "/a/c" ∷ []));
  on_request_file_write = λ p m w. (suc w, ok (codes "x-1", pos 12));
  on_request_file_read = λ p n w. (suc w, ok (codes "x-1", negsuc 4));
  on_send_file = λ u v n a w. (suc w, ok true);
  on_data_channel_addr = λ w. (suc w, ok (address ∷ []));
  on_remove_uuid = λ u w. (suc w, ok (bytes_eq u (codes "x-1")));
}

abbrev text : Failure → Bytes
text e = codes "no such file"

abbrev conn : EtdcFd (Link ℕ)
conn = loopback text toy 2

abbrev start : Link ℕ
start = record { world = 0; on_way = [] }

abbrev sv : Served text toy conn
sv = loopback-Served text toy 2

-- The server's answers come back, through the texts of both sides.
writes : (ask_request_file_write conn 100 (codes "/a b") resume start).1 ≡ ok (codes "x-1", pos 12)
unfolding ask_request_file_write loopback get_replies send_replies reply_lines
writes = refl

no_uuid : (ask_remove_uuid conn 100 (codes "x-2") start).1 ≡ err refused
unfolding ask_remove_uuid loopback get_replies send_replies reply_lines
no_uuid = refl

Ready-addr : Ready sv 2048 100 data_channel_addr start
unfolding is_sendable print_command run_command send_replies loopback-Served is_newline
    decode_data_addr
Ready-addr = record {
  sendable = refl;
  one_line = refl;
  quiet = refl;
  deliverable = record {
    lines = refl;
    fits = (omega arith, (omega arith, tt));
    in_time = omega arith;
  };
}

Ready-remove : Ready sv 2048 100 (remove_uuid (codes "x-1")) start
unfolding is_sendable print_command run_command send_replies loopback-Served is_newline
    decode_data_addr
Ready-remove = record {
  sendable = refl;
  one_line = refl;
  quiet = refl;
  deliverable = record { lines = refl; fits = (omega arith, tt); in_time = omega arith };
}

readable : Readable (address ∷ [])
unfolding decode_data_addr print_sockname is_newline is_space
readable = (refl, refl, tt)

data_channel_addr_example :
    Same sv seen (ask_data_channel_addr conn 100 start) (1, ok (address ∷ []))
unfolding loopback-Served
data_channel_addr_example = ask_data_channel_addr-Same sv 100 start Ready-addr readable

remove_uuid_example : Same sv seen_done (ask_remove_uuid conn 100 (codes "x-1") start) (1, ok true)
unfolding loopback-Served
remove_uuid_example = ask_remove_uuid-Same sv 100 (codes "x-1") start Ready-remove
