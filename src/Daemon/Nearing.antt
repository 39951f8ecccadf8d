-- ===== src/Daemon/Nearing.antt =====
-- The moves of a daemon that has called the cancellations.
use etransfer.Common.{
  ℕ, ◌+◌, ◌-◌, ◌≤◌, Bool, true, false, List, [], ◌∷◌, Option, none, some, if◌then◌else◌, ◌==◌, ◌≡◌,
  sym, ◌∙◌, subst, refl, inl, inr, arith, Bool-cases, Option-cases, ==_iff,
}
use etransfer.Threads.{add_thread, end_thread, cancel}
use etransfer.Daemon.{
  Point, Worker, Daemon, Event, move_worker, launch, leave, share, at, put, turn, stop, closed_by,
  call_cancellation, Move, start, turn_of, stopped, called, make, run,
}
use etransfer.Daemon.Sharing.{share-cases}
use etransfer.Daemon.Workers.{worker, some_eq, at_put, at_put_other}
use etransfer.Daemon.Closing.{Ends, rank, progress, move-Ends, closed_by-grows, grown-Ends}

-- Told to stop, with a k-th thread, if there is one, that comes to its end.
abbrev pub EndsAt : ℕ → Daemon → Type 0
EndsAt k d = (w : Worker) → at k d.workers ≡ some w → Ends d.is_closed w

abbrev pub Closing : ℕ → Daemon → Type 0
Closing k d = (d.threads.cancelled ≡ true) × EndsAt k d

-- How far the k-th thread is from its end.
unfoldable pub rank_of : Option Worker → ℕ
unfolding rank
rank_of none = 0
rank_of (some w) = rank w.point

unfoldable pub rank_at : ℕ → List Worker → ℕ
unfolding rank_of at
rank_at k ws = rank_of (at k ws)

unfoldable pub progress_of : Event → Option Worker → ℕ
unfolding progress
progress_of event none = 0
progress_of event (some w) = progress w.point event

unfoldable pub is_turn : ℕ → Move → Daemon → ℕ
unfolding progress_of at
is_turn k (turn_of j event) d = if k == j then progress_of event (at k d.workers) else 0
is_turn k m d = 0

-- The moves of the k-th thread in a schedule, but for those by which it waits in the service of its
-- client.
unfoldable pub turns : ℕ → List Move → Daemon → ℕ
unfolding is_turn make
turns k [] d = 0
turns k (m ∷ ms) d = is_turn k m d + turns k ms (make m d)

-- What a move does not change once the daemon is told to stop.
abbrev Same : Daemon → Daemon → Type 0
Same d d' = (d'.threads.cancelled ≡ true) × (d'.workers ≡ d.workers) × (d'.is_closed ≡ d.is_closed)

launch-Same : (server : ℕ) (d : Daemon) → d.threads.cancelled ≡ true → Same d (launch server d)
unfolding launch add_thread
launch-Same server d e = (rw (e) refl, rw (e) refl, refl)

share-Same :
    (p : Point) (server : ℕ) (d : Daemon) → d.threads.cancelled ≡ true → Same d (share p server d)
unfolding share leave end_thread
share-Same p server d e = elim (share-cases p) [
  | inl (inl q) ↦ rw (q) (launch-Same server d e)
  | inl (inr q) ↦ rw (q) (e, refl, refl)
  | inr same ↦ rw (same server d) (e, refl, refl)
]

-- The k-th thread stays on its way to its end, and comes nearer by so many steps.
abbrev pub Nears : ℕ → ℕ → Daemon → Daemon → Type 0
Nears k steps d d' = Closing k d' × (rank_at k d'.workers ≤ rank_at k d.workers - steps)

Same-Nears : (k : ℕ) (d d' : Daemon) → Closing k d → Same d d' → Nears k 0 d d'
unfolding rank_at
Same-Nears k d d' (e, h) (e', ws, closed) = (
  (e', λ w there. rw (closed) (h w (subst (λ l. at k l ≡ some w) ws there))),
  rw (ws) (omega arith),
)

moved :
    (event : Event) (d : Daemon) (a c : ℕ) (p : Point) (r : Bool)
    → d.threads.cancelled ≡ true
    → Ends d.is_closed (worker a c p r)
    → Ends d.is_closed (move_worker event d.threads.cancelled d.is_closed (worker a c p r))
      × (rank (move_worker event d.threads.cancelled d.is_closed (worker a c p r)).point
          ≤ rank p - progress p event)
moved event d a c p r e h = rw (e) (move-Ends event d.is_closed a c p r h)

rank_at-none : (k : ℕ) (ws : List Worker) → at k ws ≡ none → rank_at k ws ≡ 0
unfolding rank_at rank_of
rank_at-none k ws e = rw (e) refl

-- The k-th thread, when it is the one that moves.
own-Nears :
    (k : ℕ) (event : Event) (d : Daemon) (w : Worker)
    → at k d.workers ≡ some w
    → Closing k d
    → Nears k (progress w.point event) d (turn k event d)
unfolding turn rank_at rank_of
own-Nears k event d w there (e, h) =
    let w' = move_worker event d.threads.cancelled d.is_closed w in
    let d' : Daemon = record d { workers = put k w' d.workers } in
    let (ends, nearer) = moved event d w.server w.client w.point w.is_registered e (h w there) in
    let now : at k (put k w' d.workers) ≡ some w' = at_put k d.workers w' w there in
    let (stop', ws, closed) = share-Same w.point w.server d' e in
    rw (turn, there)
      (
        (
          stop',
          λ v at_v.
              let same : w' ≡ v = some_eq (sym now ∙ subst (λ l. at k l ≡ some v) ws at_v) in
              rw (closed) (subst (Ends d.is_closed) same ends),
        ),
        rw (ws) (rw (now) nearer),
      )

-- The k-th thread, when another one moves.
other-Nears :
    (k j : ℕ) (event : Event) (d : Daemon) (w : Worker)
    → at j d.workers ≡ some w
    → (k == j) ≡ false
    → Closing k d
    → Nears k 0 d (turn j event d)
unfolding turn rank_at rank_of
other-Nears k j event d w there other (e, h) =
    let w' = move_worker event d.threads.cancelled d.is_closed w in
    let d' : Daemon = record d { workers = put j w' d.workers } in
    let now : at k (put j w' d.workers) ≡ at k d.workers = at_put_other k j d.workers w' other in
    let (stop', ws, closed) = share-Same w.point w.server d' e in
    rw (turn, there)
      (
        (stop', λ v at_v. rw (closed) (h v (sym now ∙ subst (λ l. at k l ≡ some v) ws at_v))),
        rw (ws) (rw (now) (omega arith)),
      )

turn-Nears :
    (k j : ℕ) (event : Event) (d : Daemon)
    → Closing k d
    → Nears k (is_turn k (turn_of j event) d) d (turn j event d)
unfolding turn is_turn progress_of
turn-Nears k j event d c = elim (Option-cases (at j d.workers)) [
  | inl nobody ↦
      rw (turn, nobody)
        (
          c,
          elim (Bool-cases (k == j)) [
            | inl same ↦
                let zero_there : rank_at k d.workers ≡ 0 =
                  rank_at-none k d.workers (rw ((==_iff k j).0 same) nobody) in
                omega (arith, zero_there)
            | inr other ↦ rw (other) (omega arith)
          ],
        )
  | inr (w, there) ↦ elim (Bool-cases (k == j)) [
    | inl same ↦
        let k_is_j = (==_iff k j).0 same in
        let here : at k d.workers ≡ some w = rw (k_is_j) there in
        rw (same, here)
          (subst (λ i. Nears k (progress w.point event) d (turn i event d)) k_is_j
            (own-Nears k event d w here c))
    | inr other ↦ rw (other) (other-Nears k j event d w there other c)
  ]
]

-- Whatever happens, a thread on its way to its end comes nearer by each of its own moves.
make-Nears : (k : ℕ) (m : Move) (d : Daemon) → Closing k d → Nears k (is_turn k m d) d (make m d)
unfolding make stop cancel call_cancellation is_turn
make-Nears k (start server) d h = Same-Nears k d (launch server d) h (launch-Same server d h.0)
make-Nears k (turn_of j event) d h = turn-Nears k j event d h
make-Nears k stopped d (e, h) = ((refl, h), omega arith)
make-Nears k (called j) d (e, h) =
    let closed' = closed_by j d.workers d.is_closed in
    let grows = closed_by-grows j d.workers d.is_closed in
    ((e, λ w there. grown-Ends d.is_closed closed' w.server w.point grows (h w there)), omega arith)

pub run-Nears :
    (k : ℕ) (ms : List Move) (d : Daemon) → Closing k d → Nears k (turns k ms d) d (run ms d)
unfolding run turns
run-Nears k [] d h = (h, omega arith)
run-Nears k (m ∷ ms) d h =
    let (closing, first) = make-Nears k m d h in
    let (ended, later) = run-Nears k ms (make m d) closing in (ended, omega (arith, first, later))

-- A daemon that was told to stop stays so.
make-cancelled :
    (m : Move) (d : Daemon) → d.threads.cancelled ≡ true → (make m d).threads.cancelled ≡ true
unfolding make turn stop cancel call_cancellation
make-cancelled (start server) d e = (launch-Same server d e).0
make-cancelled (turn_of k event) d e = elim (Option-cases (at k d.workers)) [
  | inl nobody ↦ rw (turn, nobody) e
  | inr (w, there) ↦
      let w' = move_worker event d.threads.cancelled d.is_closed w in
      let d' : Daemon = record d { workers = put k w' d.workers } in
      rw (turn, there) (share-Same w.point w.server d' e).0
]
make-cancelled stopped d e = refl
make-cancelled (called k) d e = e

pub run-cancelled :
    (ms : List Move) (d : Daemon) → d.threads.cancelled ≡ true → (run ms d).threads.cancelled ≡ true
unfolding run
run-cancelled [] d e = e
run-cancelled (m ∷ ms) d e = run-cancelled ms (make m d) (make-cancelled m d e)
