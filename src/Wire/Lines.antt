-- ===== src/Wire/Lines.antt =====
-- Lines that were written are read again.
use etransfer.Common.{
  ℕ, suc, ◌+◌, ◌≡◌, refl, sym, Bool, true, false, List, [], ◌∷◌, ◌++◌, Bytes, length, length-append,
  arith, append_assoc, append-nil, not, ◌&&◌,
}
use etransfer.Wire.{is_newline, scan_lines, get_replies, send_replies}

-- No byte is a newline, and there is one.
abbrev pub no_newline : Bytes → Bool
no_newline [] = true
no_newline (c ∷ s) = not (is_newline c) && no_newline s

abbrev pub is_line : Bytes → Bool
is_line [] = false
is_line (c ∷ s) = no_newline (c ∷ s)

abbrev pub are_lines : List Bytes → Bool
are_lines [] = true
are_lines (l ∷ ls) = is_line l && are_lines ls

pub not-newline : (c : ℕ) (s : Bytes) → no_newline (c ∷ s) ≡ true → is_newline c ≡ false
not-newline c s h = ground arith

-- The rest of a line, up to its newline.
pub scan_lines-line :
    (pos end next : ℕ) (after : Bool) (c : ℕ) (front line s : Bytes)
    → no_newline line ≡ true
    → next ≡ pos + length line + 1
    → scan_lines pos end after (c ∷ front) (line ++ 10 ∷ s) ≡ (
      ((c ∷ front) ++ line) ∷ (scan_lines next next true [] s).0,
      (scan_lines next next true [] s).1,
    )
unfolding scan_lines is_newline
scan_lines-line pos end next after c front [] s h q =
    let e : next ≡ suc pos = omega (arith, q) in rw (e, append-nil front) refl
scan_lines-line pos end next after c front (d ∷ line) s h q =
    rw (scan_lines, not-newline d line h, sym (append_assoc front (d ∷ []) line))
      (scan_lines-line (suc pos) end next false c (front ++ d ∷ []) line s (ground (arith, h))
        (omega (arith, q)))

scan_lines-send_replies :
    (pos : ℕ) (after : Bool) (ls : List Bytes)
    → are_lines ls ≡ true
    → scan_lines pos pos after [] (send_replies ls) ≡ (ls, pos + length (send_replies ls))
unfolding scan_lines send_replies
scan_lines-send_replies pos after [] h = let e : pos + 0 ≡ pos = omega arith in rw e refl
scan_lines-send_replies pos after ([] ∷ ls) h = absurd (ground (arith, h))
scan_lines-send_replies pos after ((c ∷ line) ∷ ls) h =
    let next = suc pos + length line + 1 in
    let whole : pos + length (send_replies ((c ∷ line) ∷ ls)) ≡ next + length (send_replies ls) =
      omega (arith, length-append line (10 ∷ send_replies ls)) in
    rw (scan_lines, not-newline c line (ground (arith, h)), whole)
      (rw
        (
          scan_lines-line (suc pos) pos next false c [] line (send_replies ls) (ground (arith, h))
              (omega arith),
          scan_lines-send_replies next true ls (ground (arith, h)),
        )
        refl)

-- Replies that are lines (not empty, with no newline in them) are got back by getReplies from what
-- was written for them, in order, and nothing is left over.
pub get_replies-send_replies :
    (ls : List Bytes)
    → are_lines ls ≡ true
    → get_replies (send_replies ls) ≡ (ls, length (send_replies ls))
unfolding get_replies
get_replies-send_replies ls h =
    let e : 0 + length (send_replies ls) ≡ length (send_replies ls) = omega arith in
    rw (get_replies, scan_lines-send_replies 0 false ls h, e) refl
