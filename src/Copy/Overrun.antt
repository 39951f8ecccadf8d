-- ===== src/Copy/Overrun.antt =====
-- What pull_n does when the client sent more bytes behind its command than it announced.
use etransfer.Common.{
  ℕ, zero, suc, ◌+◌, min, ◌<◌, ◌≡◌, refl, sym, ap, ◌∙◌, inl, inr, Option-cases, List-cases, [], ◌∷◌,
  ◌++◌, some, append-nil, append_assoc, Bytes, Result, ok, err, length, drop, take-length,
  drop-append, length-append, length-drop, arith,
}
use etransfer.Fd.{EtdcFd}
use etransfer.Copy.{size_sub, write_whole, pull_loop, send_ack, pull_n}
use etransfer.Copy.Channel.{Writes, Channel}
use etransfer.Copy.Flush.{Flushed, write_whole-Flushed}

module _ {W : Type 0} {src dst : EtdcFd W} (c : Channel src dst) where
  open c use {got, put}

  -- dst gained at least `front`.
  pub record Gains (front : Bytes) (w : W) (o : W × Result (Unit {0})) : Type 0 where
    pub more : Bytes
    pub wrote : put o.0 ≡ put w ++ (front ++ more)

  Gains-more :
      (front sent : Bytes) (w w' : W) (o : W × Result (Unit {0}))
      → put w' ≡ put w ++ (front ++ sent)
      → Gains [] w' o
      → Gains front w o
  Gains-more front sent w w' o p f = record {
    more = sent ++ f.more;
    wrote = simp (f.wrote, p, append_assoc);
  }

  Gains-none : (w w' : W) (r : Result (Unit {0})) → put w' ≡ put w → Gains [] w (w', r)
  Gains-none w w' r p = record { more = []; wrote = p ∙ sym (append-nil (put w)) }

  round-Gains :
      (out : Bytes) (w w' w'' : W) (r : Result ℕ) (next : W × Result (Unit {0}))
      → put w' ≡ put w
      → Flushed c out 0 w' (w'', r)
      → Gains [] w'' next
      → Gains [] w (elim r as (λ _. W × Result (Unit {0})) [ err e ↦ (w'', err e) | ok _ ↦ next ])
  round-Gains out w w' w'' (ok k) next p f rest =
      Gains-more [] f.sent w w'' next (cc (f.wrote, p)) rest
  round-Gains out w w' w'' (err e) next p f rest = record { more = f.sent; wrote = cc (f.wrote, p) }

  -- Nothing that the loop does takes back what was written.
  pull_loop-Gains :
      (fuel n buf_sz rd_pos : ℕ) (buf : Bytes) (w : W)
      → Gains [] w (pull_loop fuel src dst buf_sz n rd_pos buf w)
  unfolding pull_loop
  pull_loop-Gains fuel zero buf_sz rd_pos buf w = Gains-none w w _ refl
  pull_loop-Gains zero (suc n) buf_sz rd_pos buf w = Gains-none w w _ refl
  pull_loop-Gains (suc fuel) (suc n) buf_sz rd_pos buf w =
      let m = min (size_sub (suc n + rd_pos) (length buf)) (size_sub buf_sz (length buf)) in
      let w' = (src.read m w).0 in
      let p = c.read_puts m w in
      elim (Option-cases (src.read m w).1) [
        | inl e ↦ rw (e, pull_loop) (Gains-none w w' _ p)
        | inr (bs, e) ↦ elim (List-cases (drop rd_pos (buf ++ bs))) [
          | inl e' ↦ rw (e, e', pull_loop) (Gains-none w w' _ p)
          | inr (b, out, e') ↦
              let o = write_whole dst (b ∷ out) w' in
              rw (e, e', pull_loop)
                (round-Gains (b ∷ out) w w' o.0 o.1
                  (pull_loop fuel src dst buf_sz (size_sub (suc n) (length (b ∷ out))) 0 [] o.0) p
                  (write_whole-Flushed c (b ∷ out) w')
                  (pull_loop-Gains fuel (size_sub (suc n) (length (b ∷ out))) buf_sz 0 [] o.0))
        ]
      ]

  send_ack-Gains :
      (front : Bytes) (w : W) (o : W × Result (Unit {0}))
      → Gains front w o
      → Gains front w (send_ack src o)
  unfolding send_ack
  send_ack-Gains front w (w', ok _) f = record {
    more = f.more;
    wrote = (c.ack_write _ w').1 ∙ f.wrote;
  }
  send_ack-Gains front w (w', err e) f = f

-- A client that stays connected, and a disk that is not full.
pub record Reliable {W : Type 0} (src dst : EtdcFd W) : Type 0 where
  pub reads : (n : ℕ) (w : W) → (bs : Bytes) × ((src.read n w).1 ≡ some bs)
  pub takes : (bs : Bytes) (w : W) → (dst.write bs w).1 ≡ some (length bs)

module _ {W : Type 0} {src dst : EtdcFd W} (c : Channel src dst) (rel : Reliable src dst) where
  open c use {put}

  write_whole-Reliable :
      (bs : Bytes) (w : W) → write_whole dst bs w ≡ ((dst.write bs w).0, ok (length bs))
  unfolding write_whole
  write_whole-Reliable bs w = rw (rel.takes bs w, write_whole) (ground arith)

  write_whole-puts : (bs : Bytes) (w : W) → put (write_whole dst bs w).0 ≡ put w ++ bs
  write_whole-puts bs w =
      let p : Writes bs (put w) (put (dst.write bs w).0) (some (length bs)) =
        rw (rel.takes bs w) at (c.write_puts bs w) in
      rw (write_whole-Reliable bs w) (p.1 ∙ ap (◌++◌ (put w)) (take-length bs))

  pull_loop-overruns :
      (fuel n buf_sz rd_pos : ℕ) (buf : Bytes) (w : W)
      → rd_pos < length buf
      → Gains c (drop rd_pos buf) w (pull_loop (suc fuel) src dst buf_sz (suc n) rd_pos buf w)
  unfolding pull_loop
  pull_loop-overruns fuel n buf_sz rd_pos buf w extra =
      let m = min (size_sub (suc n + rd_pos) (length buf)) (size_sub buf_sz (length buf)) in
      let w' = (src.read m w).0 in
      let (bs, e) = rel.reads m w in
      let whole = drop-append rd_pos buf bs (omega arith) in
      elim (List-cases (drop rd_pos (buf ++ bs))) [
        | inl e' ↦ absurd (
            omega (
              arith,
              ap length e',
              ap length whole,
              length-append (drop rd_pos buf) bs,
              length-drop rd_pos buf,
            ))
        | inr (b, out, e') ↦
            let w'' = (write_whole dst (b ∷ out) w').0 in
            rw (e, e', ap (λ o. o.1) (write_whole-Reliable (b ∷ out) w'), pull_loop)
              (Gains-more c (drop rd_pos buf) bs w w'' _
                (write_whole-puts (b ∷ out) w' ∙ cc (c.read_puts m w, e', whole))
                (pull_loop-Gains c fuel (size_sub (suc n) (length (b ∷ out))) buf_sz 0 [] w''))
      ]

-- The bytes behind the command are all written, also when the client announced fewer: with a client
-- that stays connected and a disk that takes every write, a pull_n of n bytes, n at least 1, that
-- finds more than n bytes in the buffer writes all of these to dst, so more than n bytes.
pub pull_n_overruns :
    {W : Type 0} {src dst : EtdcFd W} (c : Channel src dst) (rel : Reliable src dst)
    (n buf_sz rd_pos : ℕ) (buf : Bytes) (w : W)
    → 0 < n
    → n + rd_pos < length buf
    → Gains c (drop rd_pos buf) w (pull_n n src dst buf_sz rd_pos buf w)
      × (n < length (drop rd_pos buf))
unfolding pull_n
pull_n_overruns c rel zero buf_sz rd_pos buf w pos extra = absurd (omega arith)
pull_n_overruns c rel (suc n) buf_sz rd_pos buf w pos extra = (
  send_ack-Gains c (drop rd_pos buf) w (pull_loop (suc n) _ _ buf_sz (suc n) rd_pos buf w)
      (pull_loop-overruns c rel n n buf_sz rd_pos buf w (omega arith)),
  omega (arith, length-drop rd_pos buf),
)
