-- ===== src/Proxy/Keeps.antt =====
-- Waiting for a reply changes nothing but what is on its way.
use etransfer.Common.{
  List-cases, ℕ, zero, suc, ◌-◌, ◌≡◌, refl, ◌∙◌, inl, inr, Bool, true, false, [], ◌∷◌, ◌++◌, Bytes,
  Result, length, ltb, Bool-cases, Option-cases, Result-cases, drop,
}
use etransfer.Fd.{EtdcFd}
use etransfer.Wire.{reply_lines, get_replies}
use etransfer.Proxy.{reply_loop, read_reply, take_lines, one_line_loop}

module _ {W V : Type 0} (conn : EtdcFd W) (view : W → V)
    (reads : (n : ℕ) (w : W) → view (conn.read n w).0 ≡ view w) (buf_sz : ℕ) where
  module _ {S : Type 0} (step : S → Bytes → Result (Bool × S)) where
    take_lines-keeps :
        (again : S → Bytes → W → W × Result (S × Bytes)) (s : S) (came : Bytes) (w : W)
        → ((t : S) (buf : Bytes) → view (again t buf w).0 ≡ view w)
        → view (take_lines step buf_sz conn again s came w).0 ≡ view w
    unfolding take_lines
    take_lines-keeps again s came w h =
        elim (Result-cases (reply_lines step s (get_replies came).0)) [
          | inl (e, q) ↦ rw (take_lines, q) refl
          | inr ((true, t), q) ↦ rw (take_lines, q) refl
          | inr ((false, t), q) ↦ rw (take_lines, q) (h t (drop (get_replies came).1 came))
        ]

    reply_loop-keeps :
        (fuel : ℕ) (s : S) (buf : Bytes) (w : W)
        → view (reply_loop step buf_sz conn fuel s buf w).0 ≡ view w
    unfolding reply_loop
    reply_loop-keeps zero s buf w = refl
    reply_loop-keeps (suc fuel) s buf w =
        let n = buf_sz - length buf in
        let o = conn.read n w in
        elim (Bool-cases (ltb (length buf) buf_sz)) [
          | inr full ↦ rw (reply_loop, full) refl
          | inl room ↦ elim (Option-cases o.1) [
            | inl q ↦ rw (reply_loop, room, q) (reads n w)
            | inr ([], q) ↦ rw (reply_loop, room, q) (reads n w)
            | inr (b ∷ bs, q) ↦
                rw (reply_loop, room, q)
                  (take_lines-keeps (reply_loop step buf_sz conn fuel) s (buf ++ b ∷ bs) o.0
                      (λ t buf'. reply_loop-keeps fuel t buf' o.0)
                    ∙ reads n w)
          ]
        ]

    pub read_reply-keeps :
        (fuel : ℕ) (s : S) (w : W) → view (read_reply step buf_sz conn fuel s w).0 ≡ view w
    unfolding read_reply
    read_reply-keeps fuel s w =
        let same = reply_loop-keeps fuel s [] w in
        elim (Result-cases (reply_loop step buf_sz conn fuel s [] w).1) [
          | inl (e, q) ↦ rw (read_reply, q) same
          | inr ((t, []), q) ↦ rw (read_reply, q) same
          | inr ((t, b ∷ bs), q) ↦ rw (read_reply, q) same
        ]

  pub one_line_loop-keeps :
      (fuel : ℕ) (buf : Bytes) (w : W) → view (one_line_loop fuel buf_sz conn buf w).0 ≡ view w
  unfolding one_line_loop
  one_line_loop-keeps zero buf w = refl
  one_line_loop-keeps (suc fuel) buf w =
      let n = buf_sz - length buf in
      let o = conn.read n w in
      elim (Bool-cases (ltb (length buf) buf_sz)) [
        | inr full ↦ rw (one_line_loop, full) refl
        | inl room ↦ elim (Option-cases o.1) [
          | inl q ↦ rw (one_line_loop, room, q) (reads n w)
          | inr ([], q) ↦ rw (one_line_loop, room, q) (reads n w)
          | inr (b ∷ bs, q) ↦ elim (List-cases (get_replies (buf ++ b ∷ bs)).0) [
            | inl r ↦
                rw (one_line_loop, room, q)
                  (rw r (one_line_loop-keeps fuel (buf ++ b ∷ bs) o.0 ∙ reads n w))
            | inr (line, [], r) ↦ rw (one_line_loop, room, q) (rw r (reads n w))
            | inr (line, l ∷ ls, r) ↦ rw (one_line_loop, room, q) (rw r (reads n w))
          ]
        ]
      ]
