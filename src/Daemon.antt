-- ===== src/Daemon.antt =====
-- src/etd.cc: command_server_thread and data_server_thread, which go through the same points, and what
-- main does with them: it starts one for each listening socket, and when it is told to stop it sets
-- `cancelled` and calls the cancellations.
mod Workers
mod Sharing
mod Acceptors
mod Invariants
mod Registration
mod Leaving
mod Closing
mod Nearing
mod Shutdown
mod Tests
use etransfer.Common.{
  ℕ, zero, suc, ◌-◌, Bool, true, false, List, [], ◌∷◌, ◌++◌, Option, none, some, ◌==◌, ◌||◌,
  if◌then◌else◌,
}
use etransfer.Threads.{ThreadState, no_threads, add_thread, end_thread, cancel}

-- Where a thread stands in its function.
pub data Point : Type 0 where
  -- It has not inserted its cancellation yet.
  created : Point
  -- in front of the first test of `cancelled`
  registered : Point
  -- in accept
  accepting : Point
  -- accept has returned this client, which is not stored in `pClient` yet
  accepted : ℕ → Point
  -- in front of the second test
  stored : Point
  -- in front of add_thread
  spawning : Point
  -- from getpeername to the end of the `try`
  serving : Point
  -- in front of the last test
  served : Point
  -- in front of the erasure of its cancellation
  erasing : Point
  -- in front of the end of etd_state_thread_s::operator()
  ending : Point
  gone : Point

-- The variables of a thread. `is_registered`: its cancellation stands in the list.
pub record Worker : Type 0 where
  pub server : ℕ
  pub client : ℕ
  pub point : Point
  pub is_registered : Bool

-- `is_closed`: the descriptors that a cancellation closed.
pub record Daemon : Type 0 where
  pub threads : ThreadState
  pub workers : List Worker
  pub is_closed : ℕ → Bool

abbrev pub no_daemon : Daemon
no_daemon = record { threads = no_threads; workers = []; is_closed = λ _. false }

-- What the other side lets a call do that may block: it goes on waiting, it fails or ends, or accept
-- returns a client.
pub data Event : Type 0 where
  waits : Event
  fails : Event
  gives : ℕ → Event

abbrev pub new_worker : ℕ → Worker
new_worker server = record {
  server = server;
  client = server;
  point = created;
  is_registered = false;
}

-- accept; on a closed descriptor it fails, and the exception leads behind the `try`.
unfoldable pub accept_point : Bool → Event → Point
accept_point true event = served
accept_point false waits = accepting
accept_point false fails = served
accept_point false (gives c) = accepted c

-- The service of a client. On a listening socket, whose getpeername fails, it ends at once. Else it ends
-- when its calls let it, also if a cancellation has closed the descriptor of the client: it may wait on
-- another descriptor, or for the lock of a transfer, or carry out commands that have come before.
unfoldable pub serve_point : Bool → Event → Point
serve_point true event = served
serve_point false waits = serving
serve_point false _ = served

-- One move of a thread, as far as it concerns the thread's own variables.
unfoldable pub move_worker : Event → Bool → (ℕ → Bool) → Worker → Worker
unfolding accept_point serve_point
move_worker event cancelled is_closed w = elim w.point [
  | created ↦ record w { point = registered; is_registered = true }
  | registered ↦ record w { point = if cancelled then stored else accepting }
  | accepting ↦ record w { point = accept_point (is_closed w.server) event }
  | accepted c ↦ record w { point = stored; client = c }
  | stored ↦ record w { point = if cancelled then serving else spawning }
  | spawning ↦ record w { point = serving }
  | serving ↦ record w { point = serve_point (w.client == w.server) event }
  | served ↦ record w { point = if cancelled then ending else erasing }
  | erasing ↦ record w { point = ending; is_registered = false }
  | ending ↦ record w { point = gone }
  | gone ↦ w
]

-- add_thread of the shared state: the new thread starts with the server socket as its client.
unfoldable pub launch : ℕ → Daemon → Daemon
unfolding add_thread
launch server d = record d {
  threads = add_thread d.threads;
  workers = if d.threads.cancelled then d.workers else d.workers ++ new_worker server ∷ [];
}

unfoldable pub leave : Daemon → Daemon
unfolding end_thread
leave d = record d { threads = end_thread (d.threads.running - 1) d.threads }

-- What a move does to the shared state, by the point and the socket of the thread that makes it.
unfoldable pub share : Point → ℕ → Daemon → Daemon
unfolding launch leave
share spawning server d = launch server d
share ending server d = leave d
share point server d = d

module _ {ℓ} {A : Type ℓ} where
  unfoldable pub at : ℕ → List A → Option A
  at k [] = none
  at zero (x ∷ xs) = some x
  at (suc k) (x ∷ xs) = at k xs

  unfoldable pub put : ℕ → A → List A → List A
  put k y [] = []
  put zero y (x ∷ xs) = y ∷ xs
  put (suc k) y (x ∷ xs) = x ∷ put k y xs

-- One move of the k-th thread.
unfoldable pub turn : ℕ → Event → Daemon → Daemon
unfolding at put move_worker share
turn k event d = elim (at k d.workers) [
  | none ↦ d
  | some w ↦
      share w.point w.server (record d {
        workers = put k (move_worker event d.threads.cancelled d.is_closed w) d.workers;
      })
]

-- std::atomic_store(&serverState.cancelled, true)
unfoldable pub stop : Daemon → Daemon
unfolding cancel
stop d = record d { threads = cancel d.threads }

-- The cancellation of a thread: it closes what `pClient` holds. The signal that follows makes a call
-- that waits on it fail.
unfoldable pub close_client : ℕ → (ℕ → Bool) → ℕ → Bool
close_client client is_closed fd = (fd == client) || is_closed fd

-- One round of `for(auto& cancel: serverState.cancellations) cancel();`, for the k-th thread, if its
-- cancellation stands in the list.
unfoldable pub closed_by : ℕ → List Worker → (ℕ → Bool) → ℕ → Bool
unfolding at close_client
closed_by k ws is_closed = elim (at k ws) [
  | none ↦ is_closed
  | some w ↦ if w.is_registered then close_client w.client is_closed else is_closed
]

unfoldable pub call_cancellation : ℕ → Daemon → Daemon
unfolding closed_by
call_cancellation k d = record d { is_closed = closed_by k d.workers d.is_closed }

-- What may happen next: main starts a thread for a listening socket, a thread makes a move, main sets
-- `cancelled`, main calls the cancellation of a thread.
pub data Move : Type 0 where
  start : ℕ → Move
  turn_of : ℕ → Event → Move
  stopped : Move
  called : ℕ → Move

unfoldable pub make : Move → Daemon → Daemon
unfolding launch turn stop call_cancellation
make (start server) d = launch server d
make (turn_of k event) d = turn k event d
make stopped d = stop d
make (called k) d = call_cancellation k d

unfoldable pub run : List Move → Daemon → Daemon
unfolding make
run [] d = d
run (m ∷ ms) d = run ms (make m d)
