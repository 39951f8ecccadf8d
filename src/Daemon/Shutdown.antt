-- ===== src/Daemon/Shutdown.antt =====
-- The end of the daemon.
use etransfer.Common.{
  ℕ, suc, ◌≤◌, Bool, true, false, List, [], ◌∷◌, ◌++◌, none, some, ◌==◌, ◌≡◌, sym, ◌∙◌, ap, subst,
  refl, inl, inr, arith, Option-cases, ==_iff,
}
use etransfer.Threads.{may_destroy}
use etransfer.Daemon.{
  Point, created, registered, accepting, accepted, stored, spawning, serving, served, erasing,
  ending, gone, Worker, Daemon, no_daemon, Event, move_worker, accept_point, serve_point, at,
  close_client, closed_by, call_cancellation, Move, called, make, run,
}
use etransfer.Daemon.Workers.{worker, total}
use etransfer.Daemon.Invariants.{run-at}
use etransfer.Daemon.Registration.{has_begun, Listed, move-Listed, new-Listed, stop-Listed}
use etransfer.Daemon.Closing.{ends_at, rank-is_left, rank_small}
use etransfer.Daemon.Nearing.{EndsAt, Closing, rank_of, rank_at, turns, run-Nears, run-cancelled}
use etransfer.Daemon.Leaving.{is_here, present, run-may_destroy}

-- Whether a thread has not stored a client.
unfoldable pub has_none : Point → Bool
has_none created = true
has_none registered = true
has_none accepting = true
has_none (accepted _) = true
has_none point = false

-- Until then `pClient` is the listening socket.
abbrev Ready : Bool → Worker → Type 0
Ready stopping w = Listed stopping w × (has_none w.point ≡ true → (w.client == w.server) ≡ true)

move-socket :
    (event : Event) (stopping : Bool) (closed : ℕ → Bool) (a c : ℕ) (p : Point) (r : Bool)
    → (has_none p ≡ true → (c == a) ≡ true)
    → let w' = move_worker event stopping closed (worker a c p r) in
      has_none w'.point ≡ true → (w'.client == w'.server) ≡ true
unfolding move_worker has_none accept_point serve_point
move-socket event stopping closed a c created r h e = h refl
move-socket event true closed a c registered r h e = h refl
move-socket event false closed a c registered r h e = h refl
move-socket event stopping closed a c accepting r h e = h refl
move-socket event stopping closed a c (accepted _) r h e = absurd (ground arith)
move-socket event true closed a c stored r h e = absurd (ground arith)
move-socket event false closed a c stored r h e = absurd (ground arith)
move-socket event stopping closed a c spawning r h e = absurd (ground arith)
move-socket event stopping closed a c serving r h e = absurd (ground arith)
move-socket event true closed a c served r h e = absurd (ground arith)
move-socket event false closed a c served r h e = absurd (ground arith)
move-socket event stopping closed a c erasing r h e = absurd (ground arith)
move-socket event stopping closed a c ending r h e = absurd (ground arith)
move-socket event stopping closed a c gone r h e = absurd (ground arith)

run-Ready :
    (ms : List Move) (k : ℕ) (w : Worker)
    → at k (run ms no_daemon).workers ≡ some w
    → Ready (run ms no_daemon).threads.cancelled w
run-Ready =
    run-at Ready
      (λ event stopping closed a c p r h. (
        move-Listed event stopping closed a c p r h.0,
        move-socket event stopping closed a c p r h.1,
      ))
      (λ server. (new-Listed server, λ _. (==_iff server server).1 refl))
      (λ stopping w h. (stop-Listed stopping w h.0, h.1))

-- What a cancellation closes.
abbrev Closed : (ℕ → Bool) → Worker → Type 0
Closed closed w = w.is_registered ≡ true → closed w.client ≡ true

closed_by-Closed :
    (k : ℕ) (ws : List Worker) (closed : ℕ → Bool) (w : Worker)
    → at k ws ≡ some w
    → Closed (closed_by k ws closed) w
unfolding closed_by close_client
closed_by-Closed k ws closed w there e =
    let reflexive : (w.client == w.client) ≡ true = (==_iff w.client w.client).1 refl in
    rw (closed_by, there, e) (rw (reflexive) refl)

called-Ends :
    (closed : ℕ → Bool) (a c : ℕ) (p : Point) (r : Bool)
    → Ready true (worker a c p r)
    → Closed closed (worker a c p r)
    → ends_at closed a p ≡ true
unfolding has_begun has_none
called-Ends closed a c accepting r (h, own) g =
    subst (λ x. closed x ≡ true) ((==_iff c a).0 (own refl)) (g (h))
called-Ends closed a c created r (h, own) g = refl
called-Ends closed a c registered r (h, own) g = refl
called-Ends closed a c (accepted _) r (h, own) g = refl
called-Ends closed a c stored r (h, own) g = refl
called-Ends closed a c spawning r (h, own) g = refl
called-Ends closed a c serving r (h, own) g = refl
called-Ends closed a c served r (h, own) g = refl
called-Ends closed a c erasing r (h, own) g = refl
called-Ends closed a c ending r (h, own) g = refl
called-Ends closed a c gone r (h, own) g = refl

-- A thread is cancelled, and its calls come to an end, in a schedule that follows `before`: its
-- cancellation is called, and it makes six moves after that by which it does more than wait in the service
-- of its client.
abbrev pub IsCancelled : ℕ → List Move → List Move → Type 0
IsCancelled k before after =
    (early : List Move) × ((late : List Move) × ((after ≡ early ++ called k ∷ late)
        × (6 ≤ turns k late (call_cancellation k (run (before ++ early) no_daemon)))))

none_left : (ws : List Worker) → ((k : ℕ) → rank_at k ws ≤ 0) → total is_here ws ≡ 0
unfolding total is_here rank_at rank_of at
none_left [] h = refl
none_left (w ∷ ws) h =
    let first = rank-is_left w.point (h 0) in
    let rest = none_left ws (λ k. h (suc k)) in omega (arith, first, rest)

rank_at_small : (k : ℕ) (ws : List Worker) → rank_at k ws ≤ 6
unfolding rank_at rank_of
rank_at_small k ws = elim (Option-cases (at k ws)) [
  | inl nobody ↦ rw (nobody) (omega arith)
  | inr (w, there) ↦ rw (there) (rank_small w.point)
]

run-append : (ms ns : List Move) (d : Daemon) → run (ms ++ ns) d ≡ run ns (run ms d)
unfolding run
run-append [] ns d = refl
run-append (m ∷ ms) ns d = run-append ms ns (make m d)

-- A thread whose cancellation is called is on its way to its end after that.
called-Closing :
    (k : ℕ) (ms : List Move)
    → (run ms no_daemon).threads.cancelled ≡ true
    → Closing k (call_cancellation k (run ms no_daemon))
unfolding call_cancellation
called-Closing k ms e =
    let d = run ms no_daemon in
    let closed = closed_by k d.workers d.is_closed in
    (
      e,
      λ w there.
          let ready : Ready true w = subst (λ b. Ready b w) e (run-Ready ms k w there) in
          called-Ends closed w.server w.client w.point w.is_registered ready
            (closed_by-Closed k d.workers d.is_closed w there),
    )

run-split :
    (k : ℕ) (before early late : List Move)
    → run (before ++ (early ++ called k ∷ late)) no_daemon
      ≡ run late (call_cancellation k (run (before ++ early) no_daemon))
unfolding run make
run-split k before early late =
    run-append before (early ++ called k ∷ late) no_daemon
    ∙ (run-append early (called k ∷ late) (run before no_daemon)
        ∙ ap (λ d. run late (call_cancellation k d)) (sym (run-append before early no_daemon)))

-- A thread that is cancelled and whose calls end is gone at the end.
cancelled-rank_at :
    (k : ℕ) (before after : List Move)
    → (run before no_daemon).threads.cancelled ≡ true
    → IsCancelled k before after
    → rank_at k (run (before ++ after) no_daemon).workers ≤ 0
cancelled-rank_at k before after e (early, (late, (split, enough))) =
    let now = run (before ++ early) no_daemon in
    let told : now.threads.cancelled ≡ true =
      rw (run-append before early no_daemon) (run-cancelled early (run before no_daemon) e) in
    let (closing, nearer) =
      run-Nears k late (call_cancellation k now) (called-Closing k (before ++ early) told) in
    let small = rank_at_small k (call_cancellation k now).workers in
    let gone_there : rank_at k (run late (call_cancellation k now)).workers ≤ 0 =
      omega (arith, nearer, small, enough) in
    rw (split) (rw (run-split k before early late) gone_there)

-- Where there was no thread when the daemon was told to stop, there is none later.
nobody-rank_at :
    (k : ℕ) (before after : List Move)
    → (run before no_daemon).threads.cancelled ≡ true
    → at k (run before no_daemon).workers ≡ none
    → rank_at k (run (before ++ after) no_daemon).workers ≤ 0
unfolding rank_at rank_of
nobody-rank_at k before after e nobody =
    let now = run before no_daemon in
    let none_here : EndsAt k now =
      λ w there. let never = sym nobody ∙ there in absurd (ground (arith, never)) in
    let (_, nearer) = run-Nears k after now (e, none_here) in
    let empty : rank_at k now.workers ≡ 0 = rw (nobody) refl in
    rw (run-append before after no_daemon) (omega (arith, nearer, empty))

-- After the daemon was told to stop, main calls the cancellations, one after the other. In every
-- schedule in which each thread that is there is cancelled and its calls end - after the call of its
-- cancellation it makes six moves, not counted those by which it waits in the service of its client, in
-- whatever order and between whatever other moves - no thread is there at the end, and the destructor of
-- the shared state may go on. A thread in accept leaves it when its cancellation has closed the socket;
-- that the service of a client ends is what the schedule has to provide.
pub run-shut_down :
    (before after : List Move)
    → (run before no_daemon).threads.cancelled ≡ true
    → ((k : ℕ) (w : Worker)
        → at k (run before no_daemon).workers ≡ some w
        → IsCancelled k before after)
    → let d = run (before ++ after) no_daemon in (present d ≡ 0) × (may_destroy d.threads ≡ true)
unfolding present
run-shut_down before after e fair =
    let ms = before ++ after in
    let near_end : (k : ℕ) → rank_at k (run ms no_daemon).workers ≤ 0 = λ k.
      elim (Option-cases (at k (run before no_daemon).workers)) [
        | inl nobody ↦ nobody-rank_at k before after e nobody
        | inr (w, there) ↦ cancelled-rank_at k before after e (fair k w there)
      ] in
    let empty : present (run ms no_daemon) ≡ 0 = none_left (run ms no_daemon).workers near_end in
    (empty, (run-may_destroy ms (omega (arith, empty))).1 empty)
