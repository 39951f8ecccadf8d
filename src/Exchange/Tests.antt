-- ===== src/Exchange/Tests.antt =====
-- The loops of sendFile and getFile on a pipe, and the calls on a daemon that has no transfers.
use etransfer.Common.{◌≡◌, refl, [], none, ok, codes, arith}
use etransfer.Common.Int.{pos}
use etransfer.Copy.Pipe.{source, sink, pipe, disk, to_disk, start}
use etransfer.Copy.Push.{Moves}
use etransfer.State.{EtdState}
use etransfer.Server.{is_read_mode}
use etransfer.Exchange.{send_header, send_over, get_over, get_loop, may_fill, send_file, get_file}
use etransfer.Exchange.Loops.{Fills, send_over_copies, get_over_copies}
use etransfer.Exchange.Calls.{Called, Idle, send_file-Called, get_file-Called}

header_text : send_header (codes "ab") 1024 ≡ codes "{ uuid:ab, sz:1024}"
unfolding send_header
header_text = refl

send_hello : (send_over source (sink 3) (codes "ab") 5 start).0.output ≡ codes "{ uhello"
unfolding send_over
send_hello = refl

get_hello : (get_over disk source (codes "ab") 5 start).0.output ≡ codes "hello world"
unfolding get_over
get_hello = refl

-- A file that takes three bytes at a time: the rest of what was read is lost, and the call returns.
get_loses :
    (get_loop 3 source (sink 3) 5 3 start)
    ≡ (record { input = codes " world"; taken = codes "hello"; output = codes "hel" }, ok tt)
unfolding get_loop
get_loses = refl

abbrev no_transfers : EtdState (Unit {0})
no_transfers = record {
  transfers = [];
  data_addrs = [];
  store = record { world = tt; devices = [] };
}

send_over_copies_example :
    Moves
      (pipe 64)
      5
      ((sink 64).write (send_header (codes "ab") 5) start).0
      (send_over source (sink 64) (codes "ab") 5 start)
send_over_copies_example = send_over_copies (pipe 64) (codes "ab") 5 start (omega arith)

get_over_copies_example : Fills to_disk 5 start (get_over disk source (codes "ab") 5 start)
get_over_copies_example =
    get_over_copies to_disk (codes "ab") 5 start (λ bs v k h. ground (arith, h))

send_file-Called_example :
    Called
      (codes "ab")
      is_read_mode
      (Idle (pos 5))
      no_transfers
      (send_file (λ _ s. (s, none)) (codes "ab") (codes "ab") (codes "cd") (pos 5) [] no_transfers)
send_file-Called_example =
    send_file-Called (λ _ s. (s, none)) (codes "ab") (codes "ab") (codes "cd") (pos 5) []
      no_transfers

get_file-Called_example :
    Called
      (codes "ab")
      may_fill
      (Idle (pos 5))
      no_transfers
      (get_file (λ _ s. (s, none)) (codes "ab") (codes "cd") (codes "ab") (pos 5) [] no_transfers)
get_file-Called_example =
    get_file-Called (λ _ s. (s, none)) (codes "ab") (codes "cd") (codes "ab") (pos 5) []
      no_transfers
