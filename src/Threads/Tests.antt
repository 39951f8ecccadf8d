-- ===== src/Threads/Tests.antt =====
-- A daemon that starts two threads and is told to stop.
use etransfer.Common.{◌≡◌, refl, false}
use etransfer.Threads.{
  ThreadState, no_threads, add_thread, end_thread, cancel, may_destroy, ThreadSteps, start, next,
  added, stopped,
}

abbrev stopping : ThreadState
stopping = cancel (add_thread (add_thread no_threads))

no_more : add_thread stopping ≡ stopping
unfolding add_thread cancel
no_more = refl

one_left : may_destroy (end_thread 1 stopping) ≡ false
unfolding add_thread end_thread cancel may_destroy
one_left = refl

abbrev to_stopping : ThreadSteps no_threads stopping
to_stopping = next (next (next start added) added) stopped
