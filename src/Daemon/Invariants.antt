-- ===== src/Daemon/Invariants.antt =====
-- What each thread of the daemon satisfies at any time.
use etransfer.Common.{
  ℕ, Bool, true, false, List, [], ◌∷◌, some, ◌≡◌, subst, inl, inr, Bool-cases, Option-cases,
}
use etransfer.Threads.{add_thread, end_thread, cancel}
use etransfer.Daemon.{
  Point, Worker, Daemon, no_daemon, Event, new_worker, move_worker, launch, leave, share, at, put,
  turn, stop, call_cancellation, Move, start, turn_of, stopped, called, make, run,
}
use etransfer.Daemon.Sharing.{share-cases}
use etransfer.Daemon.Workers.{worker, Each, at-Each, put-Each, append-Each, map-Each}

-- A predicate of `cancelled` and a thread that a thread's own moves keep, that a new thread of a daemon
-- that is not stopped has, and that stays when the daemon is told to stop.
module _ (P : Bool → Worker → Type 0)
    (moves : (event : Event) (stopping : Bool) (closed : ℕ → Bool) (a c : ℕ) (p : Point) (r : Bool)
      → P stopping (worker a c p r)
      → P stopping (move_worker event stopping closed (worker a c p r)))
    (news : (server : ℕ) → P false (new_worker server))
    (stops : (stopping : Bool) (w : Worker) → P stopping w → P true w) where
  abbrev All : Daemon → Type 0
  All d = Each (P d.threads.cancelled) d.workers

  All-cancelled : (d : Daemon) → All d → (b : Bool) → d.threads.cancelled ≡ b → Each (P b) d.workers
  All-cancelled d h b e = subst (λ b. Each (P b) d.workers) e h

  launch-All : (server : ℕ) (d : Daemon) → All d → All (launch server d)
  unfolding launch add_thread
  launch-All server d h = elim (Bool-cases d.threads.cancelled) [
    | inl e ↦ rw (e) (All-cancelled d h true e)
    | inr e ↦ rw (e) (
        append-Each (P false) d.workers (new_worker server) (All-cancelled d h false e)
          (news server))
  ]

  share-All : (p : Point) (server : ℕ) (d : Daemon) → All d → All (share p server d)
  unfolding share leave end_thread
  share-All p server d h = elim (share-cases p) [
    | inl (inl e) ↦ rw (e) (launch-All server d h)
    | inl (inr e) ↦ rw (e) h
    | inr same ↦ rw (same server d) h
  ]

  turn-All : (k : ℕ) (event : Event) (d : Daemon) → All d → All (turn k event d)
  unfolding turn
  turn-All k event d h = elim (Option-cases (at k d.workers)) [
    | inl e ↦ rw (turn, e) h
    | inr (w, e) ↦
        let w' = move_worker event d.threads.cancelled d.is_closed w in
        let d' : Daemon = record d { workers = put k w' d.workers } in
        let before = at-Each (P d.threads.cancelled) k d.workers w e h in
        let moved =
          moves event d.threads.cancelled d.is_closed w.server w.client w.point w.is_registered
            before in
        let all = put-Each (P d.threads.cancelled) k d.workers w' moved h in
        rw (turn, e) (share-All w.point w.server d' all)
  ]

  make-All : (m : Move) (d : Daemon) → All d → All (make m d)
  unfolding make stop cancel call_cancellation
  make-All (start server) d h = launch-All server d h
  make-All (turn_of k event) d h = turn-All k event d h
  make-All stopped d h =
      map-Each (P d.threads.cancelled) (P true) (stops d.threads.cancelled) d.workers h
  make-All (called k) d h = h

  run-All : (ms : List Move) (d : Daemon) → All d → All (run ms d)
  unfolding run
  run-All [] d h = h
  run-All (m ∷ ms) d h = run-All ms (make m d) (make-All m d h)

  pub always : (ms : List Move) → All (run ms no_daemon)
  unfolding Each
  always ms = run-All ms no_daemon tt

  pub run-at :
      (ms : List Move) (k : ℕ) (w : Worker)
      → at k (run ms no_daemon).workers ≡ some w
      → P (run ms no_daemon).threads.cancelled w
  run-at ms k w e =
      let d = run ms no_daemon in at-Each (P d.threads.cancelled) k d.workers w e (always ms)
