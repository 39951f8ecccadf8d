-- ===== src/Daemon/Closing.antt =====
-- A daemon that has called the cancellations: no thread waits any more.
use etransfer.Common.{
  ℕ, ◌-◌, ◌≤◌, Bool, true, false, List, ◌==◌, ◌||◌, ◌≡◌, refl, inl, inr, arith, Bool-cases,
  Option-cases,
}
use etransfer.Daemon.{
  Point, created, registered, accepting, accepted, stored, spawning, serving, served, erasing,
  ending, gone, Worker, Event, waits, fails, gives, accept_point, serve_point, move_worker, at,
  close_client, closed_by,
}
use etransfer.Daemon.Leaving.{is_left}
use etransfer.Daemon.Workers.{worker}

-- A thread that moves of its own bring to its end, when the daemon is told to stop: any thread but one
-- that waits in accept on a socket that is open.
abbrev pub ends_at : (ℕ → Bool) → ℕ → Point → Bool
ends_at closed a accepting = closed a
ends_at closed a p = true

abbrev pub Ends : (ℕ → Bool) → Worker → Type 0
Ends closed w = ends_at closed w.server w.point ≡ true

-- How many moves a thread makes at most until it is gone.
unfoldable pub rank : Point → ℕ
rank created = 6
rank registered = 5
rank accepting = 3
rank (accepted _) = 5
rank stored = 4
rank spawning = 4
rank serving = 3
rank served = 2
rank erasing = 2
rank ending = 1
rank gone = 0

-- A move counts unless it leaves the thread in the service of its client.
unfoldable pub progress : Point → Event → ℕ
progress serving waits = 0
progress p event = 1

serve_point-rank :
    (listens : Bool) (event : Event) → rank (serve_point listens event) ≤ 3 - progress serving event
unfolding serve_point rank progress
serve_point-rank true waits = omega arith
serve_point-rank true fails = omega arith
serve_point-rank true (gives c) = omega arith
serve_point-rank false waits = omega arith
serve_point-rank false fails = omega arith
serve_point-rank false (gives c) = omega arith

serve_point-ends_at :
    (closed : ℕ → Bool) (a : ℕ) (listens : Bool) (event : Event)
    → ends_at closed a (serve_point listens event) ≡ true
unfolding serve_point
serve_point-ends_at closed a true event = refl
serve_point-ends_at closed a false waits = refl
serve_point-ends_at closed a false fails = refl
serve_point-ends_at closed a false (gives c) = refl

pub move-Ends :
    (event : Event) (closed : ℕ → Bool) (a c : ℕ) (p : Point) (r : Bool)
    → Ends closed (worker a c p r)
    → Ends closed (move_worker event true closed (worker a c p r))
      × (rank (move_worker event true closed (worker a c p r)).point ≤ rank p - progress p event)
unfolding move_worker accept_point rank progress
move-Ends event closed a c created r h = (refl, omega arith)
move-Ends event closed a c registered r h = (refl, omega arith)
move-Ends event closed a c accepting r h = (rw (h) refl, rw (h) (omega arith))
move-Ends event closed a c (accepted _) r h = (refl, omega arith)
move-Ends event closed a c stored r h = (refl, omega arith)
move-Ends event closed a c spawning r h = (refl, omega arith)
move-Ends event closed a c serving r h =
    (serve_point-ends_at closed a (c == a) event, serve_point-rank (c == a) event)
move-Ends event closed a c served r h = (refl, omega arith)
move-Ends event closed a c erasing r h = (refl, omega arith)
move-Ends event closed a c ending r h = (refl, omega arith)
move-Ends event closed a c gone r h = (refl, omega arith)

or_true : (a b : Bool) → b ≡ true → (a || b) ≡ true
or_true a b h = ground (arith, h)

pub closed_by-grows :
    (k : ℕ) (ws : List Worker) (closed : ℕ → Bool) (fd : ℕ)
    → closed fd ≡ true
    → closed_by k ws closed fd ≡ true
unfolding closed_by close_client
closed_by-grows k ws closed fd h = elim (Option-cases (at k ws)) [
  | inl nobody ↦ rw (closed_by, nobody) h
  | inr (w, there) ↦ elim (Bool-cases w.is_registered) [
    | inl e ↦ rw (closed_by, there, e) (or_true (fd == w.client) (closed fd) h)
    | inr e ↦ rw (closed_by, there, e) h
  ]
]

pub grown-Ends :
    (closed closed' : ℕ → Bool) (a : ℕ) (p : Point)
    → ((fd : ℕ) → closed fd ≡ true → closed' fd ≡ true)
    → ends_at closed a p ≡ true
    → ends_at closed' a p ≡ true
grown-Ends closed closed' a accepting grows h = grows a h
grown-Ends closed closed' a created grows h = refl
grown-Ends closed closed' a registered grows h = refl
grown-Ends closed closed' a (accepted _) grows h = refl
grown-Ends closed closed' a stored grows h = refl
grown-Ends closed closed' a spawning grows h = refl
grown-Ends closed closed' a serving grows h = refl
grown-Ends closed closed' a served grows h = refl
grown-Ends closed closed' a erasing grows h = refl
grown-Ends closed closed' a ending grows h = refl
grown-Ends closed closed' a gone grows h = refl

pub rank-is_left : (p : Point) → rank p ≤ 0 → is_left p ≡ 0
unfolding rank is_left
rank-is_left gone h = refl
rank-is_left created h = absurd (omega (arith, h))
rank-is_left registered h = absurd (omega (arith, h))
rank-is_left accepting h = absurd (omega (arith, h))
rank-is_left (accepted _) h = absurd (omega (arith, h))
rank-is_left stored h = absurd (omega (arith, h))
rank-is_left spawning h = absurd (omega (arith, h))
rank-is_left serving h = absurd (omega (arith, h))
rank-is_left served h = absurd (omega (arith, h))
rank-is_left erasing h = absurd (omega (arith, h))
rank-is_left ending h = absurd (omega (arith, h))

pub rank_small : (p : Point) → rank p ≤ 6
unfolding rank
rank_small gone = omega arith
rank_small created = omega arith
rank_small registered = omega arith
rank_small accepting = omega arith
rank_small (accepted _) = omega arith
rank_small stored = omega arith
rank_small spawning = omega arith
rank_small serving = omega arith
rank_small served = omega arith
rank_small erasing = omega arith
rank_small ending = omega arith
