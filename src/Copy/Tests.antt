-- ===== src/Copy/Tests.antt =====
-- The copy loops run on a pipe.
use etransfer.Common.{◌≡◌, refl, ◌<◌, codes, arith}
use etransfer.Copy.{write_all, write_whole, push_loop, pull_loop, push_n, pull_n}
use etransfer.Copy.Push.{Moves, push_n_copies}
use etransfer.Copy.Pull.{Pulls, pull_n_copies}
use etransfer.Copy.Overrun.{Gains, pull_n_overruns}
use etransfer.Copy.Pipe.{source, sink, pipe, disk, to_disk, to_disk-Reliable, start}

push_hello : (push_n 5 source (sink 3) 4 start).0.output ≡ codes "hello"
unfolding push_n push_loop write_all
push_hello = refl

pull_hello : (pull_n 7 source (sink 64) 64 2 (codes "{}ab") start).0.output ≡ codes "abhello"
unfolding pull_n pull_loop write_whole
pull_hello = refl

push_n_copies_example : Moves (pipe 3) 5 start (push_n 5 source (sink 3) 4 start)
push_n_copies_example = push_n_copies (pipe 3) 5 4 start (omega arith) (omega arith)

pull_n_copies_example :
    Pulls (pipe 64) 7 (codes "ab") start (pull_n 7 source (sink 64) 64 2 (codes "{}ab") start)
pull_n_copies_example =
    pull_n_copies (pipe 64) 7 64 2 (codes "{}ab") start (omega arith) (omega arith) (omega arith)
      (omega arith) (omega arith)

pull_n_overruns_example :
    Gains to_disk (codes "abcd") start (pull_n 2 source disk 64 2 (codes "{}abcd") start) × (2 < 4)
pull_n_overruns_example =
    pull_n_overruns to_disk to_disk-Reliable 2 64 2 (codes "{}abcd") start (omega arith)
      (omega arith)
