-- ===== src/Daemon/Leaving.antt =====
-- The threads of the daemon and the counter that its end waits for.
use etransfer.Common.{
  ℕ, ◌+◌, ◌-◌, ◌<◌, ◌^◌, Bool, true, false, List, [], ◌∷◌, ◌≡◌, ◌↔◌, sym, ◌∙◌, refl, inl, inr,
  arith, Bool-cases, Option-cases,
}
use etransfer.Threads.{
  no_threads, add_thread, end_thread, cancel, may_destroy, ThreadSteps, start, next, added, ended,
  stopped,
}
use etransfer.Threads.Counting.{may_destroy_iff}
use etransfer.Daemon.{
  Point, created, registered, accepting, accepted, stored, spawning, serving, served, erasing,
  ending, gone, Worker, Daemon, no_daemon, Event, new_worker, accept_point, serve_point,
  move_worker, launch, leave, share, at, put, turn, stop, call_cancellation, Move, turn_of, called,
  make, run,
}
use etransfer.Daemon.Workers.{worker, total, total-append, total-put}

unfoldable pub is_left : Point → ℕ
is_left gone = 0
is_left point = 1

unfoldable pub is_here : Worker → ℕ
unfolding is_left
is_here w = is_left w.point

abbrev leaves : Point → ℕ
leaves ending = 1
leaves point = 0

-- The threads that are not gone.
unfoldable pub present : Daemon → ℕ
unfolding total is_here
present d = total is_here d.workers

-- `running` counts the threads that are not gone, and the counter has come about by its steps.
abbrev pub Tallied : Daemon → Type 0
Tallied d = (d.threads.running ≡ present d) × ThreadSteps no_threads d.threads

move-is_here :
    (event : Event) (stopping : Bool) (closed : ℕ → Bool) (a c : ℕ) (p : Point) (r : Bool)
    → is_here (move_worker event stopping closed (worker a c p r)) + leaves p
      ≡ is_here (worker a c p r)
unfolding move_worker is_here is_left accept_point serve_point
move-is_here event stopping closed a c created r = refl
move-is_here event true closed a c registered r = refl
move-is_here event false closed a c registered r = refl
move-is_here event stopping closed a c accepting r = ground arith
move-is_here event stopping closed a c (accepted _) r = refl
move-is_here event true closed a c stored r = refl
move-is_here event false closed a c stored r = refl
move-is_here event stopping closed a c spawning r = refl
move-is_here event stopping closed a c serving r = ground arith
move-is_here event true closed a c served r = refl
move-is_here event false closed a c served r = refl
move-is_here event stopping closed a c erasing r = refl
move-is_here event stopping closed a c ending r = refl
move-is_here event stopping closed a c gone r = refl

launch-Tallied : (server : ℕ) (d : Daemon) → Tallied d → Tallied (launch server d)
unfolding launch add_thread present is_here is_left
launch-Tallied server d (h, s) =
    let appended = total-append is_here d.workers (new_worker server) in
    let counted : (launch server d).threads.running ≡ present (launch server d) =
      elim (Bool-cases d.threads.cancelled) [
        | inl e ↦ rw (e) h
        | inr e ↦ rw (e) (omega (arith, appended, h))
      ] in
    (counted, next s added)

-- `share` of a thread that stood at `p`.
share-Tallied :
    (p : Point) (server : ℕ) (d : Daemon)
    → d.threads.running ≡ present d + leaves p
    → ThreadSteps no_threads d.threads
    → Tallied (share p server d)
unfolding share leave end_thread present
share-Tallied spawning server d h s = launch-Tallied server d ((omega (arith, h)), s)
share-Tallied ending server d h s =
    (omega (arith, h), next s (ended (d.threads.running - 1) (omega (arith, h))))
share-Tallied created server d h s = (omega (arith, h), s)
share-Tallied registered server d h s = (omega (arith, h), s)
share-Tallied accepting server d h s = (omega (arith, h), s)
share-Tallied (accepted _) server d h s = (omega (arith, h), s)
share-Tallied stored server d h s = (omega (arith, h), s)
share-Tallied serving server d h s = (omega (arith, h), s)
share-Tallied served server d h s = (omega (arith, h), s)
share-Tallied erasing server d h s = (omega (arith, h), s)
share-Tallied gone server d h s = (omega (arith, h), s)

turn-Tallied : (k : ℕ) (event : Event) (d : Daemon) → Tallied d → Tallied (turn k event d)
unfolding turn present
turn-Tallied k event d (h, s) = elim (Option-cases (at k d.workers)) [
  | inl e ↦ rw (turn, e) (h, s)
  | inr (w, e) ↦
      let w' = move_worker event d.threads.cancelled d.is_closed w in
      let d' : Daemon = record d { workers = put k w' d.workers } in
      let summed = total-put is_here k d.workers w' w e in
      let kept =
        move-is_here event d.threads.cancelled d.is_closed w.server w.client w.point
          w.is_registered in
      let counted : d'.threads.running ≡ present d' + leaves w.point =
        omega (arith, summed, kept, h) in
      rw (turn, e) (share-Tallied w.point w.server d' counted s)
]

make-Tallied : (m : Move) (d : Daemon) → Tallied d → Tallied (make m d)
unfolding make stop call_cancellation cancel present
make-Tallied (Move.start server) d h = launch-Tallied server d h
make-Tallied (turn_of k event) d h = turn-Tallied k event d h
make-Tallied Move.stopped d (h, s) = (h, next s stopped)
make-Tallied (called k) d h = h

pub run-Tallied : (ms : List Move) (d : Daemon) → Tallied d → Tallied (run ms d)
unfolding run
run-Tallied [] d h = h
run-Tallied (m ∷ ms) d h = run-Tallied ms (make m d) (make-Tallied m d h)

-- Whatever main and the threads of a daemon do, in whatever order: as long as fewer than 2 ^ 32 of its
-- threads are there, the destructor of the shared state may go on if and only if each is gone.
pub run-may_destroy :
    (ms : List Move)
    → present (run ms no_daemon) < 2 ^ 32
    → (may_destroy (run ms no_daemon).threads ≡ true) ↔ (present (run ms no_daemon) ≡ 0)
unfolding present
run-may_destroy ms small =
    let d = run ms no_daemon in
    let (h, s) = run-Tallied ms no_daemon (refl, start) in
    let counted = may_destroy_iff s (omega (arith, h, small)) in
    ((λ e. sym h ∙ counted.0 e), (λ e. counted.1 (h ∙ e)))
