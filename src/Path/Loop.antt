-- ===== src/Path/Loop.antt =====
-- The loop of normalize_path ends: the passes that change the text make it shorter.
use etransfer.Common.{
  ℕ, zero, suc, ◌+◌, ◌≤◌, ◌<◌, ◌≡◌, refl, sym, ◌∙◌, ◌⊎◌, inl, inr, Bool-cases, Option-cases, true,
  [], ◌∷◌, some, Bytes, length, drop, min, bytes_eq, bytes_eq→eq, bytes_eq_iff, ◌==◌, arith,
}
use mathlib.Core.Bool.{false≢true}
use etransfer.Text.{take_while, drop_while}
use etransfer.Path.{slash, not_slash, slash_up_slash, parent_match, unparent, unparent_loop}

length-split :
    (s : Bytes) → length (take_while not_slash s) + length (drop_while not_slash s) ≡ length s
unfolding not_slash
length-split [] = omega arith
length-split (c ∷ s) = ground (arith, length-split s)

slash_up_slash-length : (s : Bytes) → slash_up_slash s ≡ true → 4 ≤ length s
unfolding slash_up_slash
slash_up_slash-length (a ∷ b ∷ c ∷ d ∷ s) h = omega arith
slash_up_slash-length [] h = ground arith
slash_up_slash-length (a ∷ []) h = ground arith
slash_up_slash-length (a ∷ b ∷ []) h = ground arith
slash_up_slash-length (a ∷ b ∷ c ∷ []) h = ground arith

-- A match lies within the text, and is longer than the slash that stands for it.
pub parent_match_bounds : (s : Bytes) (k : ℕ) → parent_match s ≡ some k → (0 < k) × (k ≤ length s)
unfolding parent_match
parent_match_bounds s k h =
    ground (arith, length-split s, slash_up_slash-length (drop_while not_slash s))

-- Passing bytes is dropping them.
pub unparent_skip : (k : ℕ) (s : Bytes) → unparent k s ≡ unparent zero (drop k s)
unfolding unparent
unparent_skip zero s = refl
unparent_skip (suc k) [] = refl
unparent_skip (suc k) (c ∷ s) = unparent_skip k s

unparent_shrinks : (k : ℕ) (s : Bytes) → length (unparent k s) + min k (length s) ≤ length s
unfolding unparent
unparent_shrinks zero [] = omega arith
unparent_shrinks (suc k) [] = omega arith
unparent_shrinks (suc k) (c ∷ s) = omega (arith, unparent_shrinks k s)
unparent_shrinks zero (c ∷ s) = elim (Bool-cases (c == slash)) [
  | inr other ↦ rw (other, unparent) (omega (arith, unparent_shrinks zero s))
  | inl hit ↦ elim (Option-cases (parent_match s)) [
    | inl e ↦ rw (hit, e, unparent) (omega (arith, unparent_shrinks zero s))
    | inr (k, e) ↦
        rw (hit, e, unparent) (omega (arith, unparent_shrinks k s, parent_match_bounds s k e))
  ]
]

-- A pass leaves the text alone, or makes it shorter.
unparent-cases : (s : Bytes) → (unparent zero s ≡ s) ⊎ (length (unparent zero s) < length s)
unfolding unparent
unparent-cases [] = inl refl
unparent-cases (c ∷ s) = elim (Bool-cases (c == slash)) [
  | inr other ↦ rw (other, unparent) (ground (arith, unparent-cases s))
  | inl hit ↦ elim (Option-cases (parent_match s)) [
    | inl e ↦ rw (hit, e, unparent) (ground (arith, unparent-cases s))
    | inr (k, e) ↦
        rw (hit, e, unparent) (inr (omega (arith, unparent_shrinks k s, parent_match_bounds s k e)))
  ]
]

-- With a round for each byte the loop reaches a text that a further pass does not change.
pub unparent_loop_fixed :
    (fuel : ℕ) (s : Bytes)
    → length s ≤ fuel
    → unparent zero (unparent_loop fuel s) ≡ unparent_loop fuel s
unfolding unparent_loop
unparent_loop_fixed zero [] h = unfold unparent in refl
unparent_loop_fixed zero (c ∷ s) h = absurd (omega arith)
unparent_loop_fixed (suc fuel) s h = elim (Bool-cases (bytes_eq (unparent zero s) s)) [
  | inl same ↦ rw (same, unparent_loop) (bytes_eq→eq (unparent zero s) s same)
  | inr changed ↦ elim (unparent-cases s) [
    | inl e ↦ absurd (false≢true (sym changed ∙ (bytes_eq_iff (unparent zero s) s).1 e))
    | inr shorter ↦
        rw (changed, unparent_loop) (unparent_loop_fixed fuel (unparent zero s) (omega arith))
  ]
]
