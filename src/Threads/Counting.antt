-- ===== src/Threads/Counting.antt =====
-- The counter of threads, and the destructor that looks at it.
use etransfer.Common.{◌%◌, ◌^◌, ◌<◌, true, ◌≡◌, refl, ◌↔◌, Bool-cases, inl, inr, arith, ==_iff}
use etransfer.Threads.{
  ThreadState, no_threads, add_thread, end_thread, cancel, may_destroy, ThreadStep, added, ended,
  stopped, ThreadSteps, start, next,
}

-- The counter is the number of threads, in an unsigned int.
abbrev pub Counts : ThreadState → Type 0
Counts st = st.n_threads ≡ st.running % 2 ^ 32

ThreadStep-Counts : {st st' : ThreadState} → ThreadStep st st' → Counts st → Counts st'
unfolding add_thread end_thread cancel
ThreadStep-Counts (added {st}) h = elim (Bool-cases st.cancelled) [
  | inl e ↦ rw (add_thread, e) h
  | inr e ↦ rw (add_thread, e) (omega (arith, h))
]
ThreadStep-Counts (ended {st} left e) h = omega (arith, h, e)
ThreadStep-Counts stopped h = h

ThreadSteps-Counts : {st st' : ThreadState} → ThreadSteps st st' → Counts st → Counts st'
ThreadSteps-Counts start h = h
ThreadSteps-Counts (next s t) h = ThreadStep-Counts t (ThreadSteps-Counts s h)

-- Whatever the threads do, in whatever order, from the start of the daemon on: as long as fewer than
-- 2 ^ 32 of them run, the destructor may go on if and only if none runs.
pub may_destroy_iff :
    {st : ThreadState}
    → ThreadSteps no_threads st
    → st.running < 2 ^ 32
    → (may_destroy st ≡ true) ↔ (st.running ≡ 0)
unfolding may_destroy
may_destroy_iff {st} s small =
    let h : Counts st = ThreadSteps-Counts s refl in
    (
      (λ e. omega (arith, h, (==_iff st.n_threads 0).0 e)),
      (λ e. (==_iff st.n_threads 0).1 (omega (arith, h, e))),
    )
