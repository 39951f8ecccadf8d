-- ===== src/Copy/Push.antt =====
-- push_n copies: nothing is lost, repeated or reordered on the way, also when it fails.
use etransfer.Common.{
  ℕ, zero, suc, ◌^◌, min, ◌+◌, ◌-◌, ◌≤◌, ◌<◌, ◌≡◌, ◌≢◌, refl, sym, ◌∙◌, inl, inr, Option-cases, [],
  ◌∷◌, ◌++◌, some, append-nil, append_assoc, Bytes, Result, Failure, ok, err, out_of_fuel, length,
  length-append, arith,
}
use etransfer.Fd.{EtdcFd}
use etransfer.Copy.{size_sub, write_all, push_loop, await_ack, push_n}
use etransfer.Copy.Channel.{Reads, Channel}
use etransfer.Copy.Flush.{Flushed, write_all-Flushed}

-- How a run that had to move n bytes ends.
abbrev pub Ending : ℕ → Bytes → Bytes → Result (Unit {0}) → Type 0
Ending n sent unsent (ok _) = (length sent ≡ n) × (unsent ≡ [])
Ending n sent unsent (err e) = e ≢ out_of_fuel

pub Ending-more :
    (n m : ℕ) (bs sent unsent : Bytes) (r : Result (Unit {0}))
    → n ≡ length bs + m
    → Ending m sent unsent r
    → Ending n (bs ++ sent) unsent r
Ending-more n m bs sent unsent (ok _) h (e, f) = (omega (arith, length-append bs sent), f)
Ending-more n m bs sent unsent (err e) h f = f

module _ {W : Type 0} {src dst : EtdcFd W} (c : Channel src dst) where
  open c use {got, put}

  -- What a copy of n bytes leaves: all that was sent is a front part of what was read.
  pub record Moves (n : ℕ) (w : W) (o : W × Result (Unit {0})) : Type 0 where
    pub sent : Bytes
    pub unsent : Bytes
    pub read : got o.0 ≡ got w ++ (sent ++ unsent)
    pub wrote : put o.0 ≡ put w ++ sent
    pub ends : Ending n sent unsent o.1

  pub Moves-stop :
      (n : ℕ) (sent unsent : Bytes) (w w' : W) {e : Failure}
      → got w' ≡ got w ++ (sent ++ unsent)
      → put w' ≡ put w ++ sent
      → e ≢ out_of_fuel
      → Moves n w (w', err e)
  Moves-stop n sent unsent w w' g p h = record {
    sent = sent;
    unsent = unsent;
    read = g;
    wrote = p;
    ends = h;
  }

  pub Moves-more :
      (n m : ℕ) (bs : Bytes) (w w' : W) (o : W × Result (Unit {0}))
      → n ≡ length bs + m
      → got w' ≡ got w ++ bs
      → put w' ≡ put w ++ bs
      → Moves m w' o
      → Moves n w o
  Moves-more n m bs w w' (v, r) h g p f = record {
    sent = bs ++ f.sent;
    unsent = f.unsent;
    read = simp (f.read, g, append_assoc);
    wrote = simp (f.wrote, p, append_assoc);
    ends = Ending-more n m bs f.sent f.unsent r h f.ends;
  }

  -- One round that read bs, was to write it, and goes on.
  round-Moves :
      (n : ℕ) (bs : Bytes) (w w' w'' : W) (r : Result ℕ) (next : ℕ → W × Result (Unit {0}))
      → n < 2 ^ 64
      → length bs ≤ n
      → got w' ≡ got w ++ bs
      → put w' ≡ put w
      → Flushed c bs 0 w' (w'', r)
      → (Moves (n - length bs) w'' (next (n - length bs)))
      → Moves n w (elim r as (λ _. W × Result (Unit {0})) [
        | err e ↦ (w'', err e)
        | ok k ↦ next (size_sub n k)
      ])
  round-Moves n bs w w' w'' (ok k) next small h g p f rest =
      let (k_lem, none_left) = f.ends in
      let all_sent : f.sent ≡ bs = cc (f.parts, none_left, append-nil f.sent) in
      let left : size_sub n k ≡ n - length bs = omega arith in
      rw left (
        Moves-more n (n - length bs) bs w w'' (next (n - length bs)) (omega arith) (f.kept ∙ g)
          (cc (f.wrote, p, all_sent)) rest)
  round-Moves n bs w w' w'' (err e) next small h g p f rest =
      Moves-stop n f.sent f.unsent w w'' (cc (f.kept, g, f.parts)) (cc (f.wrote, p)) f.ends

  pub push_loop-Moves :
      (fuel n buf_sz : ℕ) (w : W)
      → n ≤ fuel
      → n < 2 ^ 64
      → 0 < buf_sz
      → Moves n w (push_loop fuel src dst buf_sz n w)
  unfolding push_loop
  push_loop-Moves fuel zero buf_sz w h small pos = record {
    sent = [];
    unsent = [];
    read = sym (append-nil (got w));
    wrote = sym (append-nil (put w));
    ends = (refl, refl);
  }
  push_loop-Moves zero (suc n) buf_sz w h small pos = absurd (omega arith)
  push_loop-Moves (suc fuel) (suc n) buf_sz w h small pos =
      let w' = (src.read (min (suc n) buf_sz) w).0 in
      let g = c.read_gets (min (suc n) buf_sz) w in
      let p = c.read_puts (min (suc n) buf_sz) w in
      let puts = p ∙ sym (append-nil (put w)) in
      elim (Option-cases (src.read (min (suc n) buf_sz) w).1) [
        | inl e ↦
            let g' : got w' ≡ got w = rw e at g in
            rw (e, push_loop)
              (Moves-stop (suc n) [] [] w w' (g' ∙ sym (append-nil (got w))) puts (cc))
        | inr ([], e) ↦
            let g' : Reads (min (suc n) buf_sz) (got w) (got w') (some []) = rw e at g in
            rw (e, push_loop) (Moves-stop (suc n) [] [] w w' g'.1 puts (cc))
        | inr (b ∷ more, e) ↦
            let g' : Reads (min (suc n) buf_sz) (got w) (got w') (some (b ∷ more)) = rw e at g in
            let o = write_all (length (b ∷ more)) dst (b ∷ more) 0 w' in
            rw (e, push_loop)
              (round-Moves (suc n) (b ∷ more) w w' o.0 o.1
                (λ k. push_loop fuel src dst buf_sz k o.0) small (omega (arith, g'.0)) g'.1 p
                (write_all-Flushed c (length (b ∷ more)) (b ∷ more) 0 w' (omega arith))
                (push_loop-Moves fuel (suc n - length (b ∷ more)) buf_sz o.0 (omega arith)
                  (omega arith) pos))
      ]

  pub await_ack-Moves :
      (n : ℕ) (w : W) (o : W × Result (Unit {0})) → Moves n w o → Moves n w (await_ack dst o)
  unfolding await_ack
  await_ack-Moves n w (w', ok _) m = record {
    sent = m.sent;
    unsent = m.unsent;
    read = (c.ack_read 1 w').0 ∙ m.read;
    wrote = (c.ack_read 1 w').1 ∙ m.wrote;
    ends = m.ends;
  }
  await_ack-Moves n w (w', err e) m = m

-- push_n of n bytes, n less than 2 ^ 64, given a buffer, from src to dst that behave as Channel
-- says, ends: it never runs out of its n rounds. Whatever it wrote to dst is a front part of what
-- it read from src, in order; if it returns, it wrote all it read, n bytes.
pub push_n_copies :
    {W : Type 0} {src dst : EtdcFd W} (c : Channel src dst) (n buf_sz : ℕ) (w : W)
    → n < 2 ^ 64
    → 0 < buf_sz
    → Moves c n w (push_n n src dst buf_sz w)
unfolding push_n
push_n_copies c n buf_sz w small pos =
    await_ack-Moves c n w (push_loop n _ _ buf_sz n w)
      (push_loop-Moves c n n buf_sz w (omega arith) small pos)
