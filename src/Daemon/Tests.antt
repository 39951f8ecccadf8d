-- ===== src/Daemon/Tests.antt =====
-- A daemon with one listening socket, 7, that serves the client 9 and is told to stop.
use etransfer.Common.{
  ℕ, zero, suc, true, List, [], ◌∷◌, ◌++◌, ◌+◌, some, ◌≡◌, ◌≤◌, ◌↔◌, refl, arith,
}
use etransfer.Threads.{add_thread, end_thread, cancel, may_destroy}
use etransfer.Daemon.{
  serving, gone, Worker, no_daemon, Event, waits, fails, gives, accept_point, serve_point,
  move_worker, launch, leave, share, at, put, turn, stop, close_client, closed_by,
  call_cancellation, Move, start, turn_of, stopped, called, make, run,
}
use etransfer.Daemon.Workers.{total}
use etransfer.Daemon.Acceptors.{acceptors, launches, accepts, is_early, one_of, run-acceptors}
use etransfer.Daemon.Registration.{Listed, run-Listed}
use etransfer.Daemon.Leaving.{is_left, is_here, present, run-may_destroy}
use etransfer.Daemon.Closing.{progress}
use etransfer.Daemon.Nearing.{turns, is_turn, progress_of}
use etransfer.Daemon.Shutdown.{IsCancelled, run-shut_down}

abbrev moves : ℕ → List Event → List Move
moves k [] = []
moves k (e ∷ es) = turn_of k e ∷ moves k es

-- The first thread has accepted the client and has not stored it.
abbrev accepting_client : List Move
accepting_client = start 7 ∷ moves 0 (waits ∷ waits ∷ gives 9 ∷ [])

-- The client is served, and a second thread waits in accept; then the daemon is told to stop.
abbrev serving_client : List Move
serving_client =
    accepting_client
    ++ (moves 0 (waits ∷ waits ∷ waits ∷ []) ++ (moves 1 (waits ∷ waits ∷ []) ++ stopped ∷ []))

-- Each thread makes six moves, the second one first; the service of the client fails.
abbrev six : List Event
six = fails ∷ fails ∷ fails ∷ fails ∷ fails ∷ fails ∷ []

abbrev to_the_end : List Move
to_the_end = moves 1 six ++ moves 0 six

abbrev shutting_down : List Move
shutting_down = called 0 ∷ called 1 ∷ to_the_end

is_served :
    at 0 (run serving_client no_daemon).workers
    ≡ some (record { server = 7; client = 9; point = serving; is_registered = true })
unfolding run make launch turn add_thread move_worker accept_point share at put stop cancel
is_served = refl

run-acceptors_example :
    acceptors 7 (run serving_client no_daemon) ≤ acceptors 7 no_daemon + launches 7 serving_client
run-acceptors_example = run-acceptors 7 serving_client no_daemon

run-Listed_example :
    Listed true (record { server = 7; client = 9; point = serving; is_registered = true })
unfolding run make launch turn add_thread move_worker accept_point share at put stop cancel
run-Listed_example = run-Listed serving_client 0 _ is_served

run-may_destroy_example :
    (may_destroy (run serving_client no_daemon).threads ≡ true)
    ↔ (present (run serving_client no_daemon) ≡ 0)
unfolding run make launch turn add_thread move_worker accept_point share at put stop cancel present
    total is_here is_left
run-may_destroy_example = run-may_destroy serving_client (omega arith)

is_stopped : (run serving_client no_daemon).threads.cancelled ≡ true
unfolding run make launch turn add_thread move_worker accept_point share at put stop cancel
is_stopped = refl

in_time :
    (k : ℕ) (w : Worker)
    → at k (run serving_client no_daemon).workers ≡ some w
    → IsCancelled k serving_client shutting_down
unfolding run make launch leave turn add_thread end_thread move_worker accept_point serve_point
    share at put stop cancel turns is_turn progress_of progress call_cancellation closed_by
    close_client
in_time zero w e = ([], (called 1 ∷ to_the_end, (refl, omega arith)))
in_time (suc zero) w e = (called 0 ∷ [], (to_the_end, (refl, omega arith)))
in_time (suc (suc k)) w e = absurd (ground arith)

run-shut_down_example :
    let d = run (serving_client ++ shutting_down) no_daemon in
    (present d ≡ 0) × (may_destroy d.threads ≡ true)
run-shut_down_example = run-shut_down serving_client shutting_down is_stopped in_time

-- A client that is accepted, but not stored, when the cancellations are called is not closed, and keeps
-- the daemon as long as it stays.
unstored_stays :
    at 0
      (run
        (accepting_client
          ++ (stopped ∷ called 0 ∷ moves 0 (waits ∷ waits ∷ waits ∷ waits ∷ waits ∷ [])))
        no_daemon).workers
    ≡ some (record { server = 7; client = 9; point = serving; is_registered = true })
unfolding run make launch turn add_thread move_worker accept_point serve_point share at put stop
    cancel call_cancellation closed_by close_client
unstored_stays = refl

-- After an accept that fails no thread accepts a client of the socket any more.
failed_accept : acceptors 7 (run (start 7 ∷ moves 0 (waits ∷ waits ∷ fails ∷ [])) no_daemon) ≡ 0
unfolding run make launch turn add_thread move_worker accept_point share at put acceptors accepts
    is_early one_of total
failed_accept = refl

-- A thread that ends after the daemon was told to stop leaves its cancellation in the list.
left_behind :
    at 0
      (run
        (start 7 ∷ stopped ∷ moves 0 (waits ∷ waits ∷ waits ∷ waits ∷ waits ∷ waits ∷ []))
        no_daemon).workers
    ≡ some (record { server = 7; client = 7; point = gone; is_registered = true })
unfolding run make launch turn add_thread end_thread move_worker accept_point serve_point share
    leave at put stop cancel
left_behind = refl
