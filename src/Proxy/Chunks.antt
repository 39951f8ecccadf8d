-- ===== src/Proxy/Chunks.antt =====
-- A reply is read the same way however the connection cuts it into pieces.
use etransfer.Common.{
  ℕ, zero, suc, ◌+◌, ◌-◌, ◌≤◌, ◌<◌, ◌≡◌, ◌≢◌, refl, sym, ap, subst, ◌∙◌, inl, inr, Bool, true,
  false, List, [], ◌∷◌, ◌++◌, Option, none, some, Bytes, Result, Failure, ok, err, length, drop,
  length-append, arith, append_assoc, append-nil, ltb, lt→ltb, Option-cases, Result-cases,
  unprocessed_lines,
}
use etransfer.Fd.{EtdcFd}
use etransfer.Wire.{reply_lines, get_replies, send_replies}
use etransfer.Wire.Lines.{are_lines}
use etransfer.Wire.Prefix.{Short, Found, scan_lines-Found}
use etransfer.Proxy.{reply_loop, take_lines}

-- A read of n bytes gives some of those that are still to come, at most n.
abbrev pub Given : ℕ → Bytes → Bytes → Option Bytes → Type 0
Given n before after none = ⊥
Given n before after (some bs) = (1 ≤ length bs) × (length bs ≤ n) × (before ≡ bs ++ after)

-- A connection that is up, on which the bytes `to_come` are on their way.
pub record Stream {W : Type 0} (conn : EtdcFd W) : Type 0 where
  pub to_come : W → Bytes
  pub reads :
      (n : ℕ) (w : W)
      → 1 ≤ n
      → to_come w ≢ []
      → Given n (to_come w) (to_come (conn.read n w).0) (conn.read n w).1

-- Each line fits into the buffer, with its newline.
abbrev pub Fit : ℕ → List Bytes → Type 0
Fit n [] = Unit
Fit n (line ∷ lines) = (length line < n) × Fit n lines

Fit-back : (n : ℕ) (front back : List Bytes) → Fit n (front ++ back) → Fit n back
Fit-back n [] back h = h
Fit-back n (line ∷ front) back h = Fit-back n front back h.1

are_lines-back :
    (front back : List Bytes) → are_lines (front ++ back) ≡ true → are_lines back ≡ true
are_lines-back [] back h = h
are_lines-back (line ∷ front) back h = are_lines-back front back (ground (arith, h))

pub get_replies-Found :
    (ls : List Bytes) (came to_come : Bytes) (f : Found 0 false ls came to_come)
    → get_replies came ≡ (f.front, f.used)
unfolding get_replies
get_replies-Found ls came to_come f =
    let at : 0 + f.used ≡ f.used = omega arith in f.found ∙ rw at refl

module _ {S : Type 0} (step : S → Bytes → Result (Bool × S)) where
  -- Lines that end the loop with the last of them are read on from any place among them.
  reply_lines-cut :
      (s s' : S) (front : List Bytes) (line : Bytes) (back : List Bytes)
      → reply_lines step s (front ++ line ∷ back) ≡ ok (true, s')
      → (t : S) × (reply_lines step s front ≡ ok (false, t))
        × (reply_lines step t (line ∷ back) ≡ ok (true, s'))
  unfolding reply_lines
  reply_lines-cut s s' [] line back h = (s, refl, h)
  reply_lines-cut s s' (l ∷ front) line back h = elim (Result-cases (step s l)) [
    | inl (e, q) ↦ absurd (ground (arith, subst (λ r. r ≡ ok (true, s')) (fails e q) h))
    | inr ((true, t), q) ↦
        absurd (ground (arith, subst (λ r. r ≡ ok (true, s')) (too_many t q front) h))
    | inr ((false, t), q) ↦
        let h' : reply_lines step t (front ++ line ∷ back) ≡ ok (true, s') =
          subst (λ r. r ≡ ok (true, s')) (goes_on t q (front ++ line ∷ back)) h in
        let (u, f, g) = reply_lines-cut t s' front line back h' in (u, goes_on t q front ∙ f, g)
  ]
    where
      fails :
          (e : Failure) → step s l ≡ err e → reply_lines step s (l ∷ (front ++ line ∷ back)) ≡ err e
      fails e q = rw (reply_lines, q) refl

      goes_on :
          (t : S)
          → step s l ≡ ok (false, t)
          → (ls : List Bytes) → reply_lines step s (l ∷ ls) ≡ reply_lines step t ls
      goes_on t q ls = rw (reply_lines, q) refl

      too_many :
          (t : S)
          → step s l ≡ ok (true, t)
          → (ls : List Bytes) → reply_lines step s (l ∷ (ls ++ line ∷ back)) ≡ err unprocessed_lines
      too_many t q [] = rw (reply_lines, q) refl
      too_many t q (x ∷ xs) = rw (reply_lines, q) refl

  module _ {W : Type 0} {conn : EtdcFd W} (st : Stream conn) (buf_sz : ℕ) where
    open st use {to_come}

    -- The reply is read to its end: nothing is left in the buffer or on the way.
    abbrev pub Read : S → W × Result (S × Bytes) → Type 0
    Read s' o = (o.1 ≡ ok (s', [])) × (to_come o.0 ≡ [])

    take_lines-Read :
        (again : S → Bytes → W → W × Result (S × Bytes)) (s s' : S) (came : Bytes) (w : W)
        (ls : List Bytes)
        → are_lines ls ≡ true
        → came ++ to_come w ≡ send_replies ls
        → reply_lines step s ls ≡ ok (true, s')
        → ((t : S) (buf line : Bytes) (front back : List Bytes)
            → ls ≡ front ++ line ∷ back
            → Short buf (line ∷ back)
            → buf ++ to_come w ≡ send_replies (line ∷ back)
            → reply_lines step t (line ∷ back) ≡ ok (true, s')
            → Read s' (again t buf w))
        → Read s' (take_lines step buf_sz conn again s came w)
    unfolding take_lines send_replies
    take_lines-Read again s s' came w ls v e h more =
        let f = scan_lines-Found 0 false ls came (to_come w) v e in
        cases f.front f.back f.used (get_replies-Found ls came (to_come w) f) f.parts f.left f.short
      where
        cases :
            (front back : List Bytes) (used : ℕ)
            → get_replies came ≡ (front, used)
            → ls ≡ front ++ back
            → drop used came ++ to_come w ≡ send_replies back
            → Short (drop used came) back
            → Read s' (take_lines step buf_sz conn again s came w)
        cases front [] used r p left short =
            let h' : reply_lines step s front ≡ ok (true, s') =
              subst (λ l. reply_lines step s l ≡ ok (true, s')) (p ∙ append-nil front) h in
            let q : take_lines step buf_sz conn again s came w ≡ (w, ok (s', [])) =
              rw (take_lines, ap (λ x. reply_lines step s x.0) r ∙ h') (rw (r, short) refl) in
            subst (Read s') (sym q) (refl, subst (λ b. b ++ to_come w ≡ []) short left)
        cases front (line ∷ back) used r p left short =
            let (t, f, g) =
              reply_lines-cut s s' front line back
                (subst (λ l. reply_lines step s l ≡ ok (true, s')) p h) in
            let q : take_lines step buf_sz conn again s came w ≡ again t (drop used came) w =
              rw (take_lines, ap (λ x. reply_lines step s x.0) r ∙ f) (rw r refl) in
            subst (Read s') (sym q) (more t (drop used came) line front back p short left g)

    pub reply_loop-lines :
        (fuel : ℕ) (s s' : S) (buf : Bytes) (w : W) (ls : List Bytes)
        → are_lines ls ≡ true
        → Fit buf_sz ls
        → Short buf ls
        → buf ++ to_come w ≡ send_replies ls
        → reply_lines step s ls ≡ ok (true, s')
        → length (to_come w) < fuel
        → Read s' (reply_loop step buf_sz conn fuel s buf w)
    unfolding reply_loop reply_lines send_replies
    reply_loop-lines fuel s s' buf w [] v fit short e h m = absurd (ground (arith, h))
    reply_loop-lines zero s s' buf w (l ∷ ls) v fit short e h m = absurd (omega arith)
    reply_loop-lines (suc fuel) s s' buf w (l ∷ ls) v fit short e h m =
        let room : ltb (length buf) buf_sz ≡ true = lt→ltb (length buf) buf_sz (omega arith) in
        let n = buf_sz - length buf in
        let o = conn.read n w in
        let more_to_come : to_come w ≢ [] = λ none_left. omega (
          arith,
          ap length e,
          length-append buf (to_come w),
          length-append l (10 ∷ send_replies ls),
          ap length none_left,
        ) in
        let given = st.reads n w (omega arith) more_to_come in
        elim (Option-cases o.1) [
          | inl q ↦ absurd (subst (Given n (to_come w) (to_come o.0)) q given)
          | inr ([], q) ↦
              let given' = subst (Given n (to_come w) (to_come o.0)) q given in
              absurd (omega (arith, given'.0))
          | inr (b ∷ bs, q) ↦
              let (some_came, fits, cut) = subst (Given n (to_come w) (to_come o.0)) q given in
              let step_q : reply_loop step buf_sz conn (suc fuel) s buf w
                  ≡ take_lines step buf_sz conn (reply_loop step buf_sz conn fuel) s (buf ++ b ∷ bs)
                      o.0 =
                rw (reply_loop, room, q) refl in
              let rest : (buf ++ b ∷ bs) ++ to_come o.0 ≡ send_replies (l ∷ ls) =
                append_assoc buf (b ∷ bs) (to_come o.0) ∙ (ap (◌++◌ buf) (sym cut) ∙ e) in
              let shorter : length (to_come o.0) < fuel =
                omega (arith, ap length cut, length-append (b ∷ bs) (to_come o.0)) in
              subst (Read s') (sym step_q) (
                take_lines-Read (reply_loop step buf_sz conn fuel) s s' (buf ++ b ∷ bs) o.0 (l ∷ ls)
                  v rest h
                  (λ t buf' line front back p short' left g.
                    reply_loop-lines fuel t s' buf' o.0 (line ∷ back)
                      (are_lines-back front (line ∷ back) (subst (λ x. are_lines x ≡ true) p v))
                      (Fit-back buf_sz front (line ∷ back) (subst (Fit buf_sz) p fit)) short' left g
                      shorter))
        ]
