-- ===== src/Threads.antt =====
-- src/etdc_etd_state.h: the threads of the daemon, which etd_state counts, and its destructor, which
-- waits for them. src/etd.cc sets `cancelled` when the daemon is told to stop.
pub mod Counting
mod Tests
use etransfer.Common.{ℕ, zero, suc, ◌+◌, ◌-◌, ◌%◌, ◌^◌, Bool, true, false, ◌==◌, if◌then◌else◌, ◌≡◌}

-- `n_threads` is an unsigned int. `running` counts the threads that were started and have not done
-- the bookkeeping at their end.
pub record ThreadState : Type 0 where
  pub n_threads : ℕ
  pub cancelled : Bool
  pub running : ℕ

-- etd_state::etd_state
abbrev pub no_threads : ThreadState
no_threads = record { n_threads = 0; cancelled = false; running = 0 }

-- etd_state::add_thread, which holds the mutex. A store to `cancelled` behind the test counts as one
-- behind the call.
unfoldable pub add_thread : ThreadState → ThreadState
add_thread st =
    if st.cancelled
    then st
    else record st { n_threads = (st.n_threads + 1) % 2 ^ 32; running = suc st.running }

-- The end of etd_state_thread_s::operator(), which holds the mutex; `left` threads run on.
unfoldable pub end_thread : ℕ → ThreadState → ThreadState
end_thread left st = record st {
  n_threads = (st.n_threads + (2 ^ 32 - 1)) % 2 ^ 32;
  running = left;
}

-- std::atomic_store(&serverState.cancelled, true)
unfoldable pub cancel : ThreadState → ThreadState
cancel st = record st { cancelled = true }

-- What the destructor waits for.
unfoldable pub may_destroy : ThreadState → Bool
may_destroy st = st.n_threads == 0

-- What may happen next, whichever thread does it.
pub data ThreadStep : ThreadState → ThreadState → Type 0 where
  added : {st : ThreadState} → ThreadStep st (add_thread st)
  ended : {st : ThreadState} (left : ℕ) → st.running ≡ suc left → ThreadStep st (end_thread left st)
  stopped : {st : ThreadState} → ThreadStep st (cancel st)

pub data ThreadSteps : ThreadState → ThreadState → Type 0 where
  start : {st : ThreadState} → ThreadSteps st st
  next :
      {st st' st'' : ThreadState} → ThreadSteps st st' → ThreadStep st' st'' → ThreadSteps st st''
