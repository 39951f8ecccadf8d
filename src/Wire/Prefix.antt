-- ===== src/Wire/Prefix.antt =====
-- What getReplies finds in the part of a reply that has come so far.
use etransfer.Common.{
  ℕ, suc, ◌+◌, ◌≤◌, ◌≡◌, refl, ap, subst, ◌⊎◌, inl, inr, Bool, true, false, List, [], ◌∷◌, ◌++◌,
  Bytes, length, drop, length-append, arith,
}
use etransfer.Wire.{scan_lines, send_replies}
use etransfer.Wire.Lines.{no_newline, are_lines, not-newline, scan_lines-line}

-- What came ends within a line, or behind it.
abbrev CutAt : Bytes → Bytes → Bytes → Bytes → Type 0
CutAt came to_come line behind =
    ((more : Bytes) × (line ≡ came ++ more))
    ⊎ ((more : Bytes) × (came ≡ line ++ 10 ∷ more) × (more ++ to_come ≡ behind))

cut_line :
    (came to_come line behind : Bytes)
    → came ++ to_come ≡ line ++ 10 ∷ behind
    → CutAt came to_come line behind
cut_line [] to_come line behind h = inl (line, refl)
cut_line (b ∷ came) to_come [] behind h =
    let head : b ≡ 10 = ground (arith, h) in
    let tail : came ++ to_come ≡ behind = ground (arith, h) in inr (came, rw head refl, tail)
cut_line (b ∷ came) to_come (c ∷ line) behind h =
    let head : b ≡ c = ground (arith, h) in
    let tail : came ++ to_come ≡ line ++ 10 ∷ behind = ground (arith, h) in
    elim (cut_line came to_come line behind tail) [
      | inl (more, e) ↦ inl (more, rw (head, e) refl)
      | inr (more, e, f) ↦ inr (more, rw (head, e) refl, f)
    ]

no_newline-front : (s t : Bytes) → no_newline (s ++ t) ≡ true → no_newline s ≡ true
no_newline-front [] t h = refl
no_newline-front (c ∷ s) t h = ground (arith, h, no_newline-front s t)

scan_lines-no_newline :
    (pos end : ℕ) (after : Bool) (line s : Bytes)
    → no_newline s ≡ true
    → scan_lines pos end after line s ≡ ([], end)
unfolding scan_lines
scan_lines-no_newline pos end after line [] h = refl
scan_lines-no_newline pos end after line (c ∷ s) h =
    rw (scan_lines, not-newline c s h)
      (scan_lines-no_newline (suc pos) end false (line ++ c ∷ []) s (ground (arith, h)))

-- The position behind a line, its newline and k more bytes.
behind_line : Bytes → ℕ → ℕ
behind_line [] k = suc k
behind_line (c ∷ line) k = suc (behind_line line k)

behind_line_lem : (line : Bytes) (k : ℕ) → behind_line line k ≡ length line + 1 + k
unfolding behind_line
behind_line_lem [] k = omega arith
behind_line_lem (c ∷ line) k = omega (arith, behind_line_lem line k)

drop-behind_line : (line s : Bytes) (k : ℕ) → drop (behind_line line k) (line ++ 10 ∷ s) ≡ drop k s
unfolding behind_line
drop-behind_line [] s k = refl
drop-behind_line (c ∷ line) s k = drop-behind_line line s k

-- The buffer holds no more than a part of the first line that is still to come.
abbrev pub Short : Bytes → List Bytes → Type 0
Short buf [] = buf ≡ []
Short buf (line ∷ lines) = length buf ≤ length line

-- What getReplies makes of the part `came` of a reply of the lines ls: the lines in front, with the
-- position behind them, from which the rest of the reply goes on.
pub record Found (pos : ℕ) (after : Bool) (ls : List Bytes) (came to_come : Bytes) : Type 0 where
  pub front : List Bytes
  pub back : List Bytes
  pub used : ℕ
  pub parts : ls ≡ front ++ back
  pub found : scan_lines pos pos after [] came ≡ (front, pos + used)
  pub left : drop used came ++ to_come ≡ send_replies back
  pub short : Short (drop used came) back

nil-left : (s t : Bytes) → s ++ t ≡ [] → s ≡ []
nil-left [] t h = refl
nil-left (c ∷ s) t h = absurd (ground (arith, h))

pub scan_lines-Found :
    (pos : ℕ) (after : Bool) (ls : List Bytes) (came to_come : Bytes)
    → are_lines ls ≡ true
    → came ++ to_come ≡ send_replies ls
    → Found pos after ls came to_come
unfolding scan_lines send_replies
scan_lines-Found pos after [] came to_come v h =
    let none_came : came ≡ [] = nil-left came to_come h in
    let at : pos + 0 ≡ pos = omega arith in
    record {
      front = [];
      back = [];
      used = 0;
      parts = refl;
      found = rw (none_came, at) refl;
      left = h;
      short = none_came;
    }
scan_lines-Found pos after ([] ∷ ls) came to_come v h = absurd (ground (arith, v))
scan_lines-Found pos after ((c ∷ line) ∷ ls) came to_come v h =
    elim (cut_line came to_come (c ∷ line) (send_replies ls) h) [
      | inl (more, e) ↦
          let whole : no_newline (c ∷ line) ≡ true = ground (arith, v) in
          let at : pos + 0 ≡ pos = omega arith in
          record {
            front = [];
            back = (c ∷ line) ∷ ls;
            used = 0;
            parts = refl;
            found = rw at (
                scan_lines-no_newline pos pos after [] came
                  (no_newline-front came more (subst (λ t. no_newline t ≡ true) e whole)));
            left = h;
            short = omega (arith, ap length e, length-append came more);
          }
      | inr (more, e, f) ↦
          let next = suc pos + length line + 1 in
          let r = scan_lines-Found next true ls more to_come (ground (arith, v)) f in
          let at : pos + behind_line (c ∷ line) r.used ≡ next + r.used =
            omega (arith, behind_line_lem (c ∷ line) r.used) in
          record {
            front = (c ∷ line) ∷ r.front;
            back = r.back;
            used = behind_line (c ∷ line) r.used;
            parts = ap (◌∷◌ (c ∷ line)) r.parts;
            found =
                rw (e, at)
                  (rw (scan_lines, not-newline c line (ground (arith, v)))
                    (rw
                      (
                        scan_lines-line (suc pos) pos next false c [] line more (ground (arith, v))
                            (omega arith),
                        r.found,
                      )
                      refl));
            left = rw (e, drop-behind_line (c ∷ line) more r.used) r.left;
            short = rw (e, drop-behind_line (c ∷ line) more r.used) r.short;
          }
    ]
