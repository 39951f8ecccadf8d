-- ===== src/Exchange/Loops.antt =====
-- The loops of sendFile and getFile, seen through the logs of a channel.
use etransfer.Common.{
  ℕ, zero, suc, ◌^◌, min, ◌+◌, ◌-◌, ◌≤◌, ◌<◌, ◌≡◌, ◌≢◌, refl, sym, ◌∙◌, ap, inl, inr, Option-cases,
  Result-cases, [], ◌∷◌, ◌++◌, some, append-nil, append_assoc, Bytes, Result, Failure, ok, err,
  out_of_fuel, length, take, take-length, length-append, arith,
}
use etransfer.Fd.{EtdcFd}
use etransfer.Copy.{size_sub, write_all, push_loop, send_ack}
use etransfer.Copy.Channel.{Reads, Writes, Channel}
use etransfer.Copy.Flush.{Written, write_all-Flushed}
use etransfer.Copy.Push.{Moves, push_loop-Moves, await_ack-Moves}
use etransfer.Exchange.{send_loop, get_loop, send_over, get_over, send_header, get_header, buf_size}

module _ {W : Type 0} {src dst : EtdcFd W} (c : Channel src dst) where
  open c use {got, put}

  write_all-sum :
      (bs : Bytes) (w : W) (k : ℕ) → (write_all (length bs) dst bs 0 w).1 ≡ ok k → k ≡ length bs
  write_all-sum bs w k h =
      let f = write_all-Flushed c (length bs) bs 0 w (omega arith) in
      let e : Written bs 0 f.sent f.unsent (ok k) = rw h at f.ends in omega (arith, e.0)

  send_loop-push_loop :
      (fuel n buf_sz : ℕ) (w : W)
      → n < 2 ^ 64
      → send_loop fuel src dst buf_sz n w ≡ push_loop fuel src dst buf_sz n w
  unfolding send_loop push_loop
  send_loop-push_loop fuel zero buf_sz w small = refl
  send_loop-push_loop zero (suc n) buf_sz w small = refl
  send_loop-push_loop (suc fuel) (suc n) buf_sz w small =
      let w' = (src.read (min (suc n) buf_sz) w).0 in
      elim (Option-cases (src.read (min (suc n) buf_sz) w).1) [
        | inl e ↦ rw (send_loop, push_loop, e) refl
        | inr ([], e) ↦ rw (send_loop, push_loop, e) refl
        | inr (b ∷ more, e) ↦
            let bs = b ∷ more in
            let o = write_all (length bs) dst bs 0 w' in
            let g : Reads (min (suc n) buf_sz) (got w) (got w') (some bs) =
              rw e at (c.read_gets (min (suc n) buf_sz) w) in
            elim (Result-cases o.1) [
              | inl (f, h) ↦ rw (send_loop, push_loop, e, h) refl
              | inr (k, h) ↦
                  let all : k ≡ length bs = write_all-sum bs w' k h in
                  let left : size_sub (suc n) k ≡ suc n - k = omega (arith, g.0) in
                  rw (send_loop, push_loop, e, h, left)
                    (send_loop-push_loop fuel (suc n - k) buf_sz o.0 (omega arith))
            ]
      ]

  send_over-Moves :
      (uuid : Bytes) (n : ℕ) (w : W)
      → n < 2 ^ 64
      → Moves c n (dst.write (send_header uuid n) w).0 (send_over src dst uuid n w)
  unfolding send_over
  send_over-Moves uuid n w small =
      let w' = (dst.write (send_header uuid n) w).0 in
      let o = send_loop n src dst buf_size n w' in
      let same : o ≡ push_loop n src dst buf_size n w' =
        send_loop-push_loop n n buf_size w' small in
      await_ack-Moves c n w' o
        (rw same (push_loop-Moves c n n buf_size w' (omega arith) small (omega arith)))

  -- How a run that had to move n bytes at least ends.
  abbrev pub Filled : ℕ → Bytes → Bytes → Result (Unit {0}) → Type 0
  Filled n moved unsent (ok _) = (n ≤ length moved) × (unsent ≡ [])
  Filled n moved unsent (err e) = e ≢ out_of_fuel

  -- What getFile leaves: all that was written is a front part of what was read.
  pub record Fills (n : ℕ) (w : W) (o : W × Result (Unit {0})) : Type 0 where
    pub moved : Bytes
    pub unsent : Bytes
    pub read : got o.0 ≡ got w ++ (moved ++ unsent)
    pub wrote : put o.0 ≡ put w ++ moved
    pub ends : Filled n moved unsent o.1

  Fills-stop :
      (n : ℕ) (unsent : Bytes) (w w' : W) (e : Failure)
      → got w' ≡ got w ++ unsent
      → put w' ≡ put w
      → e ≢ out_of_fuel
      → Fills n w (w', err e)
  Fills-stop n unsent w w' e g p h = record {
    moved = [];
    unsent = unsent;
    read = g;
    wrote = p ∙ sym (append-nil (put w));
    ends = h;
  }

  Filled-more :
      (n m : ℕ) (bs moved unsent : Bytes) (r : Result (Unit {0}))
      → n ≤ length bs + m
      → Filled m moved unsent r
      → Filled n (bs ++ moved) unsent r
  Filled-more n m bs moved unsent (ok _) h (e, f) = (omega (arith, length-append bs moved), f)
  Filled-more n m bs moved unsent (err e) h f = f

  Fills-more :
      (n m : ℕ) (bs : Bytes) (w w' : W) (o : W × Result (Unit {0}))
      → n ≤ length bs + m
      → got w' ≡ got w ++ bs
      → put w' ≡ put w ++ bs
      → Fills m w' o
      → Fills n w o
  Fills-more n m bs w w' (v, r) h g p f = record {
    moved = bs ++ f.moved;
    unsent = f.unsent;
    read = simp (f.read, g, append_assoc);
    wrote = simp (f.wrote, p, append_assoc);
    ends = Filled-more n m bs f.moved f.unsent r h f.ends;
  }

  get_loop-Fills :
      (fuel n buf_sz : ℕ) (w : W)
      → ((bs : Bytes) (v : W) (k : ℕ) → (dst.write bs v).1 ≡ some k → k ≡ length bs)
      → n ≤ fuel
      → Fills n w (get_loop fuel src dst buf_sz n w)
  unfolding get_loop
  get_loop-Fills fuel zero buf_sz w whole h = record {
    moved = [];
    unsent = [];
    read = sym (append-nil (got w));
    wrote = sym (append-nil (put w));
    ends = (omega arith, refl);
  }
  get_loop-Fills zero (suc n) buf_sz w whole h = absurd (omega arith)
  get_loop-Fills (suc fuel) (suc n) buf_sz w whole h =
      let w' = (src.read buf_sz w).0 in
      let g = c.read_gets buf_sz w in
      let p = c.read_puts buf_sz w in
      elim (Option-cases (src.read buf_sz w).1) [
        | inl e ↦
            let g' : got w' ≡ got w = rw e at g in
            rw (get_loop, e) (Fills-stop (suc n) [] w w' _ (g' ∙ sym (append-nil (got w))) p (cc))
        | inr ([], e) ↦
            let g' : Reads buf_sz (got w) (got w') (some []) = rw e at g in
            rw (get_loop, e) (Fills-stop (suc n) [] w w' _ g'.1 p (cc))
        | inr (b ∷ more, e) ↦
            let bs = b ∷ more in
            let g' : Reads buf_sz (got w) (got w') (some bs) = rw e at g in
            let w'' = (dst.write bs w').0 in
            let kept = c.write_gets bs w' in
            let puts = c.write_puts bs w' in
            elim (Option-cases (dst.write bs w').1) [
              | inl f ↦
                  let none_put : put w'' ≡ put w' = rw f at puts in
                  rw (get_loop, e, f)
                    (Fills-stop (suc n) bs w w'' _ (kept ∙ g'.1) (none_put ∙ p) (cc))
              | inr (zero, f) ↦ absurd (omega (arith, whole bs w' zero f))
              | inr (suc k, f) ↦
                  let all : suc k ≡ length bs = whole bs w' (suc k) f in
                  let took : Writes bs (put w') (put w'') (some (suc k)) = rw f at puts in
                  let put_all : put w'' ≡ put w ++ bs =
                    cc (took.1, p, ap (λ m. take m bs) all, take-length bs) in
                  rw (get_loop, e, f)
                    (Fills-more (suc n) (suc n - suc k) bs w w'' _ (omega (arith, all))
                      (kept ∙ g'.1) put_all
                      (get_loop-Fills fuel (suc n - suc k) buf_sz w'' whole (omega arith)))
            ]
      ]

  send_ack-Fills :
      (n : ℕ) (w : W) (o : W × Result (Unit {0})) → Fills n w o → Fills n w (send_ack src o)
  unfolding send_ack
  send_ack-Fills n w (w', ok _) f =
      let (g, p) = c.ack_write _ w' in
      record {
        moved = f.moved;
        unsent = f.unsent;
        read = g ∙ f.read;
        wrote = p ∙ f.wrote;
        ends = f.ends;
      }
  send_ack-Fills n w (w', err e) f = f

  Fills-from :
      (n : ℕ) (w w' : W) (o : W × Result (Unit {0}))
      → got w' ≡ got w
      → put w' ≡ put w
      → Fills n w' o
      → Fills n w o
  Fills-from n w w' o g p f = record {
    moved = f.moved;
    unsent = f.unsent;
    read = cc (f.read, g);
    wrote = cc (f.wrote, p);
    ends = f.ends;
  }

  get_over-Fills :
      (uuid : Bytes) (n : ℕ) (w : W)
      → ((bs : Bytes) (v : W) (k : ℕ) → (dst.write bs v).1 ≡ some k → k ≡ length bs)
      → Fills n w (get_over dst src uuid n w)
  unfolding get_over
  get_over-Fills uuid n w whole =
      let w' = (src.write (get_header uuid n) w).0 in
      let (g, p) = c.ack_write (get_header uuid n) w in
      let o = get_loop n src dst buf_size n w' in
      Fills-from n w w' (send_ack src o) g p
        (send_ack-Fills n w' o (get_loop-Fills n n buf_size w' whole (omega arith)))

-- sendFile on a connection, with todo less than 2 ^ 64 and a file and a connection that behave as
-- Channel says, ends: its loop never runs out of rounds. Behind the header it writes a front part
-- of what it read from the file, in order; if it returns, it wrote all it read, todo bytes.
pub send_over_copies :
    {W : Type 0} {file sock : EtdcFd W} (c : Channel file sock) (uuid : Bytes) (todo : ℕ) (w : W)
    → todo < 2 ^ 64
    → Moves c todo (sock.write (send_header uuid todo) w).0 (send_over file sock uuid todo w)
send_over_copies c uuid todo w small = send_over-Moves c uuid todo w small

-- getFile on a connection ends, if the connection and the file behave as Channel says and each
-- write to the file takes all or fails: its loop never runs out of rounds. It writes a front part
-- of what it reads from the connection, in order; if it returns, it wrote all it read, todo bytes
-- at least.
pub get_over_copies :
    {W : Type 0} {sock file : EtdcFd W} (c : Channel sock file) (uuid : Bytes) (todo : ℕ) (w : W)
    → ((bs : Bytes) (v : W) (k : ℕ) → (file.write bs v).1 ≡ some k → k ≡ length bs)
    → Fills c todo w (get_over file sock uuid todo w)
get_over_copies c uuid todo w whole = get_over-Fills c uuid todo w whole
