-- ===== src/Copy/Flush.antt =====
-- What writing one buffer leaves: write_all, which goes on until all is taken, and write_whole.
use etransfer.Common.{
  ℕ, zero, suc, true, ◌+◌, ◌≤◌, ◌≡◌, ◌≢◌, refl, sym, ◌∙◌, inl, inr, Bool-cases, Option-cases, [],
  ◌∷◌, ◌++◌, some, append-nil, append_assoc, Bytes, Result, Failure, ok, err, out_of_fuel, length,
  take, drop, take-append-drop, drop-length_le, length-drop, ◌==◌, arith,
}
use etransfer.Fd.{EtdcFd}
use etransfer.Copy.{write_all, write_whole}
use etransfer.Copy.Channel.{Writes, Channel}

abbrev pub Written : Bytes → ℕ → Bytes → Bytes → Result ℕ → Type 0
Written bs written sent unsent (ok k) = (k ≡ written + length bs) × (unsent ≡ [])
Written bs written sent unsent (err e) = e ≢ out_of_fuel

took_none :
    (k : ℕ) (bs before after : Bytes)
    → (k == 0) ≡ true
    → Writes bs before after (some k)
    → after ≡ before
took_none zero bs before after z (_, p) = p ∙ append-nil before
took_none (suc k) bs before after z h = ground arith

Written-more :
    (k : ℕ) (bs : Bytes) (written : ℕ) (sent unsent : Bytes) (r : Result ℕ)
    → k ≤ length bs
    → Written (drop k bs) (written + k) sent unsent r
    → Written bs written (take k bs ++ sent) unsent r
Written-more k bs written sent unsent (ok m) h (e, f) = (omega (arith, length-drop k bs), f)
Written-more k bs written sent unsent (err e) h f = f

module _ {W : Type 0} {src dst : EtdcFd W} (c : Channel src dst) where
  open c use {got, put}

  -- What write_all leaves: a front part of bs went out, all of it if the call returns.
  pub record Flushed (bs : Bytes) (written : ℕ) (w : W) (o : W × Result ℕ) : Type 0 where
    pub sent : Bytes
    pub unsent : Bytes
    pub kept : got o.0 ≡ got w
    pub wrote : put o.0 ≡ put w ++ sent
    pub parts : sent ++ unsent ≡ bs
    pub ends : Written bs written sent unsent o.1

  Flushed-stop :
      (bs : Bytes) (written : ℕ) (w w' : W) {e : Failure}
      → got w' ≡ got w
      → put w' ≡ put w
      → e ≢ out_of_fuel
      → Flushed bs written w (w', err e)
  Flushed-stop bs written w w' g p h = record {
    sent = [];
    unsent = bs;
    kept = g;
    wrote = p ∙ sym (append-nil (put w));
    parts = refl;
    ends = h;
  }

  Flushed-more :
      (k : ℕ) (bs : Bytes) (written : ℕ) (w w' : W) (o : W × Result ℕ)
      → k ≤ length bs
      → got w' ≡ got w
      → put w' ≡ put w ++ take k bs
      → Flushed (drop k bs) (written + k) w' o
      → Flushed bs written w o
  Flushed-more k bs written w w' (v, r) h g p f = record {
    sent = take k bs ++ f.sent;
    unsent = f.unsent;
    kept = f.kept ∙ g;
    wrote = simp (f.wrote, p, append_assoc);
    parts = simp (append_assoc, f.parts, take-append-drop);
    ends = Written-more k bs written f.sent f.unsent r h f.ends;
  }

  Flushed-part :
      (k : ℕ) (bs : Bytes) (w w' : W) {e : Failure}
      → got w' ≡ got w
      → Writes bs (put w) (put w') (some k)
      → e ≢ out_of_fuel
      → Flushed bs 0 w (w', err e)
  Flushed-part k bs w w' g p h = record {
    sent = take k bs;
    unsent = drop k bs;
    kept = g;
    wrote = p.1;
    parts = take-append-drop k bs;
    ends = h;
  }

  Flushed-all :
      (k : ℕ) (bs : Bytes) (w w' : W)
      → got w' ≡ got w
      → k ≡ length bs
      → Writes bs (put w) (put w') (some k)
      → Flushed bs 0 w (w', ok k)
  Flushed-all k bs w w' g full p = record {
    sent = take k bs;
    unsent = drop k bs;
    kept = g;
    wrote = p.1;
    parts = take-append-drop k bs;
    ends = (omega arith, drop-length_le k bs (omega arith));
  }

  pub write_all-Flushed :
      (fuel : ℕ) (bs : Bytes) (written : ℕ) (w : W)
      → length bs ≤ fuel
      → Flushed bs written w (write_all fuel dst bs written w)
  unfolding write_all
  write_all-Flushed fuel [] written w h = record {
    sent = [];
    unsent = [];
    kept = refl;
    wrote = sym (append-nil (put w));
    parts = refl;
    ends = (omega arith, refl);
  }
  write_all-Flushed zero (b ∷ bs) written w h = absurd (omega arith)
  write_all-Flushed (suc fuel) (b ∷ bs) written w h =
      let w' = (dst.write (b ∷ bs) w).0 in
      let g = c.write_gets (b ∷ bs) w in
      elim (Option-cases (dst.write (b ∷ bs) w).1) [
        | inl e ↦
            rw (e, write_all)
              (Flushed-stop (b ∷ bs) written w w' g (rw e at (c.write_puts (b ∷ bs) w)) (cc))
        | inr (k, e) ↦
            let p : Writes (b ∷ bs) (put w) (put w') (some k) = rw e at (c.write_puts (b ∷ bs) w) in
            elim (Bool-cases (k == 0)) [
              | inl z ↦
                  rw (e, z, write_all)
                    (Flushed-stop (b ∷ bs) written w w' g (took_none k (b ∷ bs) _ _ z p) (cc))
              | inr nz ↦
                  rw (e, nz, write_all)
                    (Flushed-more k (b ∷ bs) written w w' _ p.0 g p.1 (
                      write_all-Flushed fuel (drop k (b ∷ bs)) (written + k) w'
                        (ground (arith, length-drop k (b ∷ bs)))))
            ]
      ]

  pub write_whole-Flushed : (bs : Bytes) (w : W) → Flushed bs 0 w (write_whole dst bs w)
  unfolding write_whole
  write_whole-Flushed bs w =
      let w' = (dst.write bs w).0 in
      let g = c.write_gets bs w in
      elim (Option-cases (dst.write bs w).1) [
        | inl e ↦ rw (e, write_whole) (Flushed-stop bs 0 w w' g (rw e at (c.write_puts bs w)) (cc))
        | inr (k, e) ↦
            let p : Writes bs (put w) (put w') (some k) = rw e at (c.write_puts bs w) in
            elim (Bool-cases (k == length bs)) [
              | inl all ↦
                  let full : k ≡ length bs = ground arith in
                  rw (e, all, write_whole) (Flushed-all k bs w w' g full p)
              | inr short ↦ rw (e, short, write_whole) (Flushed-part k bs w w' g p (cc))
            ]
      ]
