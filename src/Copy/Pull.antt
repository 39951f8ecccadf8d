-- ===== src/Copy/Pull.antt =====
-- pull_n copies what it was sent, starting with the bytes that came behind the command.
use etransfer.Common.{
  ℕ, zero, suc, ◌+◌, ◌-◌, ◌^◌, min, ◌≤◌, ◌<◌, ◌≡◌, ◌≢◌, refl, sym, ap, ◌∙◌, inl, inr, Option-cases,
  List-cases, [], ◌∷◌, ◌++◌, some, append-nil, append_assoc, Bytes, Result, Failure, ok, err,
  out_of_fuel, length, drop, drop-append, drop-length_le, length-append, length-drop, arith,
}
use etransfer.Fd.{EtdcFd}
use etransfer.Copy.{size_sub, write_whole, pull_loop, send_ack, pull_n}
use etransfer.Copy.Channel.{Reads, Channel}
use etransfer.Copy.Flush.{Flushed, write_whole-Flushed}
use etransfer.Copy.Push.{Ending, Ending-more}

module _ {W : Type 0} {src dst : EtdcFd W} (c : Channel src dst) where
  open c use {got, put}

  -- What a copy of n bytes leaves, `held` of which were in the buffer before: all that was sent is a
  -- front part of the held bytes and what was read after them.
  pub record Pulls (n : ℕ) (held : Bytes) (w : W) (o : W × Result (Unit {0})) : Type 0 where
    pub fresh : Bytes
    pub sent : Bytes
    pub unsent : Bytes
    pub read : got o.0 ≡ got w ++ fresh
    pub parts : sent ++ unsent ≡ held ++ fresh
    pub wrote : put o.0 ≡ put w ++ sent
    pub ends : Ending n sent unsent o.1

  Pulls-stop :
      (n : ℕ) (held fresh sent unsent : Bytes) (w w' : W) {e : Failure}
      → got w' ≡ got w ++ fresh
      → sent ++ unsent ≡ held ++ fresh
      → put w' ≡ put w ++ sent
      → e ≢ out_of_fuel
      → Pulls n held w (w', err e)
  Pulls-stop n held fresh sent unsent w w' g parts p h = record {
    fresh = fresh;
    sent = sent;
    unsent = unsent;
    read = g;
    parts = parts;
    wrote = p;
    ends = h;
  }

  Pulls-more :
      (n m : ℕ) (held bs out : Bytes) (w w' : W) (o : W × Result (Unit {0}))
      → n ≡ length out + m
      → out ≡ held ++ bs
      → got w' ≡ got w ++ bs
      → put w' ≡ put w ++ out
      → Pulls m [] w' o
      → Pulls n held w o
  Pulls-more n m held bs out w w' (v, r) h whole g p f = record {
    fresh = bs ++ f.fresh;
    sent = out ++ f.sent;
    unsent = f.unsent;
    read = simp (f.read, g, append_assoc);
    parts = simp (append_assoc, f.parts, whole);
    wrote = simp (f.wrote, p, append_assoc);
    ends = Ending-more n m out f.sent f.unsent r h f.ends;
  }

  -- One round that was to write out, and goes on if that returned.
  round-Pulls :
      (n : ℕ) (held bs out : Bytes) (w w' w'' : W) (r : Result ℕ) (next : W × Result (Unit {0}))
      → length out ≤ n
      → out ≡ held ++ bs
      → got w' ≡ got w ++ bs
      → put w' ≡ put w
      → Flushed c out 0 w' (w'', r)
      → Pulls (n - length out) [] w'' next
      → Pulls n held w
          (elim r as (λ _. W × Result (Unit {0})) [ err e ↦ (w'', err e) | ok _ ↦ next ])
  round-Pulls n held bs out w w' w'' (ok k) next h whole g p f rest =
      let all_sent : f.sent ≡ out = cc (f.parts, f.ends.1, append-nil f.sent) in
      Pulls-more n (n - length out) held bs out w w'' next (omega arith) whole (f.kept ∙ g)
        (cc (f.wrote, p, all_sent)) rest
  round-Pulls n held bs out w w' w'' (err e) next h whole g p f rest =
      Pulls-stop n held bs f.sent f.unsent w w'' (f.kept ∙ g) (f.parts ∙ whole) (cc (f.wrote, p))
        f.ends

  pull_loop-Pulls :
      (fuel n buf_sz rd_pos : ℕ) (buf : Bytes) (w : W)
      → n ≤ fuel
      → n < 2 ^ 64
      → buf_sz < 2 ^ 64
      → rd_pos ≤ length buf
      → length buf ≤ buf_sz
      → length buf ≤ n + rd_pos
      → Pulls n (drop rd_pos buf) w (pull_loop fuel src dst buf_sz n rd_pos buf w)
  unfolding pull_loop
  pull_loop-Pulls fuel zero buf_sz rd_pos buf w h small room rd wr fits =
      rw (drop-length_le rd_pos buf (omega arith)) (record {
        fresh = [];
        sent = [];
        unsent = [];
        read = sym (append-nil (got w));
        parts = refl;
        wrote = sym (append-nil (put w));
        ends = (refl, refl);
      })
  pull_loop-Pulls zero (suc n) buf_sz rd_pos buf w h small room rd wr fits = absurd (omega arith)
  pull_loop-Pulls (suc fuel) (suc n) buf_sz rd_pos buf w h small room rd wr fits =
      let m = min (size_sub (suc n + rd_pos) (length buf)) (size_sub buf_sz (length buf)) in
      let held = drop rd_pos buf in
      let w' = (src.read m w).0 in
      let g = c.read_gets m w in
      let p = c.read_puts m w in
      elim (Option-cases (src.read m w).1) [
        | inl e ↦
            let g' : got w' ≡ got w = rw e at g in
            rw (e, pull_loop)
              (Pulls-stop (suc n) held [] [] held w w' (g' ∙ sym (append-nil (got w)))
                (sym (append-nil held)) (p ∙ sym (append-nil (put w))) (cc))
        | inr (bs, e) ↦
            let g' : Reads m (got w) (got w') (some bs) = rw e at g in
            let whole = drop-append rd_pos buf bs rd in
            elim (List-cases (drop rd_pos (buf ++ bs))) [
              | inl e' ↦
                  rw (e, e', pull_loop)
                    (Pulls-stop (suc n) held bs [] (held ++ bs) w w' g'.1 refl
                      (p ∙ sym (append-nil (put w))) (cc))
              | inr (b, out, e') ↦
                  let o = write_whole dst (b ∷ out) w' in
                  let le : length (b ∷ out) ≤ suc n = omega (
                    arith,
                    ap length e',
                    ap length whole,
                    length-append held bs,
                    length-drop rd_pos buf,
                    g'.0,
                  ) in
                  let left : size_sub (suc n) (length (b ∷ out)) ≡ suc n - length (b ∷ out) =
                    omega arith in
                  rw (e, e', pull_loop)
                    (round-Pulls (suc n) held bs (b ∷ out) w w' o.0 o.1
                      (pull_loop fuel src dst buf_sz (size_sub (suc n) (length (b ∷ out))) 0 [] o.0)
                      le (sym e' ∙ whole) g'.1 p (write_whole-Flushed c (b ∷ out) w')
                      (rw left (
                        pull_loop-Pulls fuel (suc n - length (b ∷ out)) buf_sz 0 [] o.0
                          (omega arith) (omega arith) room (omega arith) (omega arith)
                          (omega arith))))
            ]
      ]

  send_ack-Pulls :
      (n : ℕ) (held : Bytes) (w : W) (o : W × Result (Unit {0}))
      → Pulls n held w o
      → Pulls n held w (send_ack src o)
  unfolding send_ack
  send_ack-Pulls n held w (w', ok _) m = record {
    fresh = m.fresh;
    sent = m.sent;
    unsent = m.unsent;
    read = (c.ack_write _ w').0 ∙ m.read;
    parts = m.parts;
    wrote = (c.ack_write _ w').1 ∙ m.wrote;
    ends = m.ends;
  }
  send_ack-Pulls n held w (w', err e) m = m

-- pull_n of n bytes, n less than 2 ^ 64, from src to dst that behave as Channel says, when no more
-- than n bytes stand behind the command in a buffer that holds them, of less than 2 ^ 64 bytes: it
-- ends within n rounds. Whatever it wrote to dst is a front part of those bytes and of what it read
-- from src after them, in order; if it returns, it wrote all of it, n bytes.
pub pull_n_copies :
    {W : Type 0} {src dst : EtdcFd W} (c : Channel src dst) (n buf_sz rd_pos : ℕ) (buf : Bytes)
    (w : W)
    → n < 2 ^ 64
    → buf_sz < 2 ^ 64
    → rd_pos ≤ length buf
    → length buf ≤ buf_sz
    → length buf ≤ n + rd_pos
    → Pulls c n (drop rd_pos buf) w (pull_n n src dst buf_sz rd_pos buf w)
unfolding pull_n
pull_n_copies c n buf_sz rd_pos buf w small room rd wr fits =
    send_ack-Pulls c n (drop rd_pos buf) w (pull_loop n _ _ buf_sz n rd_pos buf w)
      (pull_loop-Pulls c n n buf_sz rd_pos buf w (omega arith) small room rd wr fits)
