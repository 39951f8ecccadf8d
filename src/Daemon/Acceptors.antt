-- ===== src/Daemon/Acceptors.antt =====
-- The threads of a listening socket that wait for its next client.
use etransfer.Common.{
  ℕ, ◌+◌, ◌≤◌, min, Bool, true, false, List, [], ◌∷◌, ◌==◌, if◌then◌else◌, inl, inr, arith,
  Bool-cases, Option-cases,
}
use etransfer.Daemon.{
  Point, created, registered, accepting, accepted, stored, spawning, serving, served, erasing,
  ending, gone, Worker, Daemon, Event, new_worker, accept_point, serve_point, move_worker, launch,
  leave, share, at, put, turn, stop, call_cancellation, Move, start, turn_of, stopped, called, make,
  run,
}
use etransfer.Daemon.Sharing.{share-cases}
use etransfer.Daemon.Workers.{total, worker, total, total-append, total-put}

-- Whether a thread has not passed its call of add_thread.
unfoldable pub is_early : Point → ℕ
is_early created = 1
is_early registered = 1
is_early accepting = 1
is_early (accepted c) = 1
is_early stored = 1
is_early spawning = 1
is_early point = 0

unfoldable pub one_of : ℕ → ℕ → ℕ
one_of s server = if server == s then 1 else 0

unfoldable pub accepts : ℕ → Worker → ℕ
unfolding is_early one_of
accepts s w = min (is_early w.point) (one_of s w.server)

-- The threads of a socket that are to accept its next client.
unfoldable pub acceptors : ℕ → Daemon → ℕ
unfolding total accepts
acceptors s d = total (accepts s) d.workers

-- The threads that main starts for a socket.
unfoldable pub launches : ℕ → List Move → ℕ
unfolding one_of
launches s [] = 0
launches s (start server ∷ ms) = one_of s server + launches s ms
launches s (_ ∷ ms) = launches s ms

-- What a move at a point adds to the threads of a socket.
abbrev spawned : ℕ → Point → ℕ → ℕ
spawned s spawning server = one_of s server
spawned s point server = 0

move-accepts :
    (s : ℕ) (event : Event) (stopping : Bool) (closed : ℕ → Bool) (a c : ℕ) (p : Point) (r : Bool)
    → accepts s (move_worker event stopping closed (worker a c p r)) + spawned s p a
      ≤ accepts s (worker a c p r)
unfolding move_worker accepts is_early accept_point serve_point one_of
move-accepts s event stopping closed a c created r = omega arith
move-accepts s event true closed a c registered r = omega arith
move-accepts s event false closed a c registered r = omega arith
move-accepts s event stopping closed a c accepting r = ground arith
move-accepts s event stopping closed a c (accepted _) r = omega arith
move-accepts s event true closed a c stored r = omega arith
move-accepts s event false closed a c stored r = omega arith
move-accepts s event stopping closed a c spawning r = ground arith
move-accepts s event stopping closed a c serving r = ground arith
move-accepts s event true closed a c served r = omega arith
move-accepts s event false closed a c served r = omega arith
move-accepts s event stopping closed a c erasing r = omega arith
move-accepts s event stopping closed a c ending r = omega arith
move-accepts s event stopping closed a c gone r = omega arith

launch-acceptors :
    (s server : ℕ) (d : Daemon) → acceptors s (launch server d) ≤ acceptors s d + one_of s server
unfolding acceptors launch accepts is_early one_of
launch-acceptors s server d =
    let appended = total-append (accepts s) d.workers (new_worker server) in
    elim (Bool-cases d.threads.cancelled) [
      | inl e ↦ rw (e) (omega arith)
      | inr e ↦ rw (e) (omega (arith, appended))
    ]

share-acceptors :
    (s : ℕ) (p : Point) (server : ℕ) (d : Daemon)
    → acceptors s (share p server d) ≤ acceptors s d + spawned s p server
unfolding share acceptors leave
share-acceptors s p server d = elim (share-cases p) [
  | inl (inl e) ↦ rw (e) (launch-acceptors s server d)
  | inl (inr e) ↦ rw (e) (omega arith)
  | inr same ↦ rw (same server d) (omega arith)
]

turn-acceptors :
    (s k : ℕ) (event : Event) (d : Daemon) → acceptors s (turn k event d) ≤ acceptors s d
unfolding turn acceptors
turn-acceptors s k event d = elim (Option-cases (at k d.workers)) [
  | inl e ↦ rw (turn, e) (omega arith)
  | inr (w, e) ↦
      let w' = move_worker event d.threads.cancelled d.is_closed w in
      let d' : Daemon = record d { workers = put k w' d.workers } in
      let summed = total-put (accepts s) k d.workers w' w e in
      let kept =
        move-accepts s event d.threads.cancelled d.is_closed w.server w.client w.point
          w.is_registered in
      let shared = share-acceptors s w.point w.server d' in
      rw (turn, e) (omega (arith, summed, kept, shared))
]

-- Whatever main and the threads do, in whatever order: a listening socket never has more threads that
-- accept its next client than main started for it.
pub run-acceptors :
    (s : ℕ) (ms : List Move) (d : Daemon) → acceptors s (run ms d) ≤ acceptors s d + launches s ms
unfolding run make launches acceptors stop call_cancellation
run-acceptors s [] d = omega arith
run-acceptors s (start server ∷ ms) d =
    let ih = run-acceptors s ms (launch server d) in
    let first = launch-acceptors s server d in omega (arith, ih, first)
run-acceptors s (turn_of k event ∷ ms) d =
    let ih = run-acceptors s ms (turn k event d) in
    let first = turn-acceptors s k event d in omega (arith, ih, first)
run-acceptors s (stopped ∷ ms) d = run-acceptors s ms (stop d)
run-acceptors s (called k ∷ ms) d = run-acceptors s ms (call_cancellation k d)
