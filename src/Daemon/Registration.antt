-- ===== src/Daemon/Registration.antt =====
-- The list of cancellations: which threads stand in it.
use etransfer.Common.{not, ◌||◌, if◌then◌else◌, ℕ, Bool, true, false, List, some, ◌≡◌, refl, arith}
use etransfer.Daemon.{
  Point, created, registered, accepting, accepted, stored, spawning, serving, served, erasing,
  ending, gone, Worker, no_daemon, Event, new_worker, accept_point, serve_point, move_worker, at,
  Move, run,
}
use etransfer.Daemon.Workers.{worker}
use etransfer.Daemon.Invariants.{run-at}

-- Whether a thread is between the insertion of its cancellation and the erasure.
unfoldable pub has_begun : Point → Bool
has_begun created = false
has_begun ending = false
has_begun gone = false
has_begun point = true

-- Whether a thread has the right mark: one between the two stands in the list, and another one does so
-- only if the daemon is being stopped.
abbrev pub is_right : Bool → Bool → Bool → Bool
is_right stopping begun mark = if begun then mark else stopping || not mark

abbrev pub Listed : Bool → Worker → Type 0
Listed stopping w = is_right stopping (has_begun w.point) w.is_registered ≡ true

pub move-Listed :
    (event : Event) (stopping : Bool) (closed : ℕ → Bool) (a c : ℕ) (p : Point) (r : Bool)
    → Listed stopping (worker a c p r)
    → Listed stopping (move_worker event stopping closed (worker a c p r))
unfolding move_worker has_begun accept_point serve_point
move-Listed event stopping closed a c created r h = refl
move-Listed event true closed a c registered r h = h
move-Listed event false closed a c registered r h = h
move-Listed event stopping closed a c accepting r h = ground arith
move-Listed event stopping closed a c (accepted _) r h = h
move-Listed event true closed a c stored r h = h
move-Listed event false closed a c stored r h = h
move-Listed event stopping closed a c spawning r h = h
move-Listed event stopping closed a c serving r h = ground arith
move-Listed event true closed a c served r h = refl
move-Listed event false closed a c served r h = h
move-Listed event true closed a c erasing r h = refl
move-Listed event false closed a c erasing r h = refl
move-Listed event stopping closed a c ending r h = h
move-Listed event stopping closed a c gone r h = h

pub new-Listed : (server : ℕ) → Listed false (new_worker server)
unfolding has_begun
new-Listed server = refl

pub stop-Listed : (stopping : Bool) (w : Worker) → Listed stopping w → Listed true w
stop-Listed stopping w h = ground arith

-- Whatever main and the threads of a daemon do, in whatever order: the cancellation of a thread that
-- has inserted it and has not gone on behind its erasure stands in the list; and as long as the daemon
-- is not told to stop, a cancellation in the list is that of such a thread.
pub run-Listed :
    (ms : List Move) (k : ℕ) (w : Worker)
    → at k (run ms no_daemon).workers ≡ some w
    → Listed (run ms no_daemon).threads.cancelled w
run-Listed = run-at Listed move-Listed new-Listed stop-Listed
