-- ===== src/DataServer/Serving.antt =====
-- How a request on a data connection waits for the lock of its transfer, and ends.
use etransfer.Common.{
  ℕ, zero, suc, Bool, none, ◌<◌, ◌≡◌, refl, sym, true, false, some, Bytes, Result, err, Bool-cases,
  Option-cases, inl, inr, arith, ◌∙◌, not_initialized, not_for_reading, not_for_writing,
  if◌then◌else◌,
}
use mathlib.Core.Bool.{false≢true}
use etransfer.Fd.{EtdcFd}
use etransfer.Files.{Store}
use etransfer.State.{Transfer, EtdState, find_uuid}
use etransfer.Server.{again, done}
use etransfer.Copy.{push_n, pull_n}
use etransfer.DataServer.{DataRequest, serve_request, serve_loop, may_serve, to_size, data_buf_sz}

module _ {W : Type 0} (conn : EtdcFd (Store W)) where
  -- The copy that a request asks for, between the connection and the file of t.
  abbrev pub copy_of : DataRequest → ℕ → Bytes → Transfer W → Store W → Store W × Result (Unit {0})
  copy_of q rd_pos came t s = elim q.push [
    | true ↦ push_n (to_size q.amount) t.fd conn data_buf_sz s
    | false ↦ pull_n (to_size q.amount) conn t.fd data_buf_sz rd_pos came s
  ]

  -- What ends the wait of a request, in the state in which its transfer is not locked: there is no such
  -- transfer, its mode does not allow the copy, or the copy is made.
  pub data Outcome (q : DataRequest) (rd_pos : ℕ) (came : Bytes) (st : EtdState W)
      (o : EtdState W × Result (Unit {0})) : Type 0 where
    unknown :
        find_uuid q.uuid st.transfers ≡ none
        → o ≡ (st, err not_initialized)
        → Outcome q rd_pos came st o
    refused :
        (t : Transfer W)
        → find_uuid q.uuid st.transfers ≡ some t
        → t.locked ≡ false
        → may_serve q.push t.open_mode ≡ false
        → o ≡ (st, err (if q.push then not_for_reading else not_for_writing))
        → Outcome q rd_pos came st o
    copied :
        (t : Transfer W)
        → find_uuid q.uuid st.transfers ≡ some t
        → t.locked ≡ false
        → may_serve q.push t.open_mode ≡ true
        → o ≡ (
          record st { store = (copy_of q rd_pos came t st.store).0 },
          (copy_of q rd_pos came t st.store).1,
        )
        → Outcome q rd_pos came st o

  -- The transfer of the request is there, and another call holds its lock.
  unfoldable pub is_locked : DataRequest → EtdState W → Bool
  unfolding find_uuid
  is_locked q st = elim (find_uuid q.uuid st.transfers) [ none ↦ false | some t ↦ t.locked ]

  waiting-is_locked :
      (q : DataRequest) (rd_pos : ℕ) (came : Bytes) (st : EtdState W)
      → is_locked q st ≡ true
      → serve_request conn q rd_pos came st ≡ (st, again)
  unfolding serve_request is_locked
  waiting-is_locked q rd_pos came st h = elim (Option-cases (find_uuid q.uuid st.transfers)) [
    | inl e ↦
        let none_there : is_locked q st ≡ false = rw (is_locked, e) refl in
        absurd (false≢true (sym none_there ∙ h))
    | inr (t, e) ↦
        let held : is_locked q st ≡ t.locked = rw (is_locked, e) refl in
        rw (serve_request, e, sym held ∙ h) refl
  ]

  module _ (others : EtdState W → EtdState W) where
    -- The state after the other threads had n sleeps of this one.
    unfoldable pub after : ℕ → EtdState W → EtdState W
    after zero st = st
    after (suc n) st = after n (others st)

    -- The lock is held for n rounds, and then it is free.
    abbrev pub IsFreeAfter : ℕ → DataRequest → EtdState W → Type 0
    IsFreeAfter zero q st = is_locked q st ≡ false
    IsFreeAfter (suc n) q st = (is_locked q st ≡ true) × IsFreeAfter n q (others st)

    free-Outcome :
        (fuel : ℕ) (q : DataRequest) (rd_pos : ℕ) (came : Bytes) (st : EtdState W)
        → is_locked q st ≡ false
        → Outcome q rd_pos came st (serve_loop conn others (suc fuel) q rd_pos came st)
    unfolding serve_loop serve_request is_locked
    free-Outcome fuel q rd_pos came st h = elim (Option-cases (find_uuid q.uuid st.transfers)) [
      | inl e ↦
          let step : serve_request conn q rd_pos came st ≡ (st, done (err not_initialized)) =
            rw (serve_request, e) refl in
          unknown e (rw (serve_loop, step) (rw (step) refl))
      | inr (t, e) ↦
          let held : is_locked q st ≡ t.locked = rw (is_locked, e) refl in
          let free : t.locked ≡ false = sym held ∙ h in
          elim (Bool-cases (may_serve q.push t.open_mode)) [
            | inr m ↦
                let failed = err (if q.push then not_for_reading else not_for_writing) in
                let step : serve_request conn q rd_pos came st ≡ (st, done failed) =
                  rw (serve_request, e, free, m) refl in
                refused t e free m (rw (serve_loop, step) (rw (step) refl))
            | inl m ↦
                let o = copy_of q rd_pos came t st.store in
                let step : serve_request conn q rd_pos came st
                    ≡ (record st { store = o.0 }, done o.1) =
                  rw (serve_request, e, free, m) refl in
                copied t e free m (rw (serve_loop, step) (rw (step) refl))
          ]
    ]

    -- A request on a data connection waits as long as another call holds the lock of its transfer, and
    -- does nothing meanwhile. Once the lock is free, after n rounds, and if there is fuel for them, the
    -- loop ends: it fails, with nothing done, if there is no such transfer or its mode does not allow the
    -- copy; else it makes the copy, and what the copy gives is its result.
    pub serve_loop-Outcome :
        (n fuel : ℕ) (q : DataRequest) (rd_pos : ℕ) (came : Bytes) (st : EtdState W)
        → IsFreeAfter n q st
        → n < fuel
        → Outcome q rd_pos came (after n st) (serve_loop conn others fuel q rd_pos came st)
    unfolding serve_loop after
    serve_loop-Outcome n zero q rd_pos came st h l = absurd (ground (arith, l))
    serve_loop-Outcome zero (suc fuel) q rd_pos came st h l = free-Outcome fuel q rd_pos came st h
    serve_loop-Outcome (suc n) (suc fuel) q rd_pos came st h l =
        let step = waiting-is_locked q rd_pos came st h.0 in
        rw (serve_loop, step)
          (rw (step) (serve_loop-Outcome n fuel q rd_pos came (others st) h.1 (ground (arith, l))))
