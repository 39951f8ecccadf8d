-- ===== src/Proxy/OneLine.antt =====
-- A reply of one line is read the same way however the connection cuts it into pieces.
use etransfer.Common.{
  length-drop, ℕ, zero, suc, ◌-◌, ◌≤◌, ◌<◌, ◌≡◌, ◌≢◌, refl, sym, ap, subst, ◌∙◌, inl, inr, ◌⊎◌,
  Bool, true, false, List, [], ◌∷◌, ◌++◌, some, Bytes, Result, Failure, ok, err, length, drop,
  length-append, arith, append_assoc, ltb, lt→ltb, Option-cases,
}
use etransfer.Fd.{EtdcFd}
use etransfer.Wire.{reply_lines, get_replies, send_replies}
use etransfer.Wire.Lines.{are_lines}
use etransfer.Wire.Prefix.{Short, scan_lines-Found}
use etransfer.Proxy.{reply_loop, take_lines, one_line_loop, one_line_result}
use etransfer.Proxy.Chunks.{Given, Stream, get_replies-Found}

-- What a read brings of a line that has not come whole.
record Came {W : Type 0} {conn : EtdcFd W} (st : Stream conn) (n : ℕ) (buf whole : Bytes) (w : W)
    : Type 0 where
  first : ℕ
  more : Bytes
  read_it : (conn.read n w).1 ≡ some (first ∷ more)
  rest : (buf ++ first ∷ more) ++ st.to_come (conn.read n w).0 ≡ whole
  fewer : length (st.to_come (conn.read n w).0) < length (st.to_come w)

came :
    {W : Type 0} {conn : EtdcFd W} (st : Stream conn) (n : ℕ) (buf whole : Bytes) (w : W)
    → 1 ≤ n
    → length buf < length whole
    → buf ++ st.to_come w ≡ whole
    → Came st n buf whole w
came {conn} st n buf whole w room short e =
    let o = conn.read n w in
    let more_to_come : st.to_come w ≢ [] = λ none_left.
      omega (arith, ap length e, length-append buf (st.to_come w), ap length none_left) in
    let given = st.reads n w room more_to_come in
    elim (Option-cases o.1) [
      | inl q ↦ absurd (subst (Given n (st.to_come w) (st.to_come o.0)) q given)
      | inr ([], q) ↦
          let given' = subst (Given n (st.to_come w) (st.to_come o.0)) q given in
          absurd (omega (arith, given'.0))
      | inr (b ∷ bs, q) ↦
          let (some_came, fits, cut) = subst (Given n (st.to_come w) (st.to_come o.0)) q given in
          record {
            first = b;
            more = bs;
            read_it = q;
            rest = append_assoc buf (b ∷ bs) (st.to_come o.0) ∙ (ap (◌++◌ buf) (sym cut) ∙ e);
            fewer = omega (arith, ap length cut, length-append (b ∷ bs) (st.to_come o.0));
          }
    ]

-- The line came whole, or the buffer holds a part of it, which stays there.
abbrev OneLine : Bytes → Bytes → Type 0
OneLine line came =
    ((get_replies came).0 ≡ line ∷ [])
    ⊎ (((get_replies came).0 ≡ [])
        × (drop (get_replies came).1 came ≡ came)
        × (length came ≤ length line))

drop-all : (n : ℕ) (s t : Bytes) → length (drop n s ++ t) ≡ length (s ++ t) → drop n s ≡ s
drop-all zero s t e = refl
drop-all (suc n) [] t e = refl
drop-all (suc n) (c ∷ s) t e =
    absurd (omega (arith, e, length-append (drop n s) t, length-append s t, length-drop n s))

one_line :
    (line came to_come : Bytes)
    → are_lines (line ∷ []) ≡ true
    → came ++ to_come ≡ send_replies (line ∷ [])
    → OneLine line came
one_line line came to_come v e =
    let f = scan_lines-Found 0 false (line ∷ []) came to_come v e in
    cases f.front f.back f.used (get_replies-Found (line ∷ []) came to_come f) f.parts f.left
      f.short
  where
    cases :
        (front back : List Bytes) (used : ℕ)
        → get_replies came ≡ (front, used)
        → line ∷ [] ≡ front ++ back
        → drop used came ++ to_come ≡ send_replies back
        → Short (drop used came) back
        → OneLine line came
    cases [] back used r p left short =
        let whole : length (drop used came ++ to_come) ≡ length (came ++ to_come) =
          ap length (left ∙ (ap send_replies (sym p) ∙ sym e)) in
        let kept : drop used came ≡ came = drop-all used came to_come whole in
        let fits : length (drop used came) ≤ length line =
          subst (Short (drop used came)) (sym p) short in
        inr (rw r refl, rw r kept, subst (λ b. length b ≤ length line) kept fits)
    cases (l ∷ []) back used r p left short =
        let same : l ≡ line = ground (arith, p) in inl (rw (r, same) refl)
    cases (l ∷ m ∷ front) back used r p left short = absurd (ground (arith, p))

module _ {W : Type 0} {conn : EtdcFd W} (st : Stream conn) (buf_sz : ℕ) (line : Bytes)
    (v : are_lines (line ∷ []) ≡ true) (fit : length line < buf_sz) where
  open st use {to_come}

  module _ {S : Type 0} (step : S → Bytes → Result (Bool × S)) (e : Failure) where
    -- The loop fails where its body fails on the line.
    pub reply_loop-fails :
        (fuel : ℕ) (s : S) (buf : Bytes) (w : W)
        → length buf ≤ length line
        → buf ++ to_come w ≡ send_replies (line ∷ [])
        → step s line ≡ err e
        → length (to_come w) < fuel
        → (reply_loop step buf_sz conn fuel s buf w).1 ≡ err e
    unfolding reply_loop take_lines reply_lines send_replies
    reply_loop-fails zero s buf w short q h m = absurd (omega arith)
    reply_loop-fails (suc fuel) s buf w short q h m =
        let room : ltb (length buf) buf_sz ≡ true = lt→ltb (length buf) buf_sz (omega arith) in
        let n = buf_sz - length buf in
        let longer : length buf < length (line ++ 10 ∷ []) =
          omega (arith, length-append line (10 ∷ [])) in
        let c = came st n buf (line ++ 10 ∷ []) w (omega arith) longer q in
        let buf' = buf ++ c.first ∷ c.more in
        let o = conn.read n w in
        let again = reply_loop step buf_sz conn fuel in
        let go : reply_loop step buf_sz conn (suc fuel) s buf w
            ≡ take_lines step buf_sz conn again s buf' o.0 =
          rw (reply_loop, room, c.read_it) refl in
        elim (one_line line buf' (to_come o.0) v c.rest) [
          | inl r ↦
              let f : reply_lines step s (get_replies buf').0 ≡ err e =
                rw (r, reply_lines, h) refl in
              ap (λ x. x.1) go ∙ rw (take_lines, f) refl
          | inr (r, kept, fits) ↦
              let f : reply_lines step s (get_replies buf').0 ≡ ok (false, s) = rw r refl in
              ap (λ x. x.1) go
              ∙ rw (take_lines, f, kept)
                  (reply_loop-fails fuel s buf' o.0 fits c.rest h (omega (arith, c.fewer)))
        ]

  -- The requests whose reply is one line do what the line says.
  pub one_line_loop-line :
      (fuel : ℕ) (buf : Bytes) (w : W)
      → length buf ≤ length line
      → buf ++ to_come w ≡ send_replies (line ∷ [])
      → length (to_come w) < fuel
      → (one_line_loop fuel buf_sz conn buf w).1 ≡ one_line_result line
  unfolding one_line_loop send_replies
  one_line_loop-line zero buf w short q m = absurd (omega arith)
  one_line_loop-line (suc fuel) buf w short q m =
      let room : ltb (length buf) buf_sz ≡ true = lt→ltb (length buf) buf_sz (omega arith) in
      let n = buf_sz - length buf in
      let longer : length buf < length (line ++ 10 ∷ []) =
        omega (arith, length-append line (10 ∷ [])) in
      let c = came st n buf (line ++ 10 ∷ []) w (omega arith) longer q in
      let buf' = buf ++ c.first ∷ c.more in
      let o = conn.read n w in
      elim (one_line line buf' (to_come o.0) v c.rest) [
        | inl r ↦ rw (one_line_loop, room, c.read_it) (rw r refl)
        | inr (r, kept, fits) ↦
            rw (one_line_loop, room, c.read_it)
              (rw r (one_line_loop-line fuel buf' o.0 fits c.rest (omega (arith, c.fewer))))
      ]
