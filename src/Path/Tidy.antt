-- ===== src/Path/Tidy.antt =====
-- Paths that normalize_path leaves alone, and dots that it leaves in.
use etransfer.Common.{
  ℕ, zero, suc, ◌≡◌, refl, ap, Bool, true, false, [], ◌∷◌, ◌++◌, ◌&&◌, not, none, Bytes, codes,
  length, bytes_eq, bytes_eq_refl, ◌==◌, if◌then◌else◌, arith,
}
use etransfer.Text.{drop_while}
use etransfer.Path.{
  slash, dot, not_slash, slash_up_slash, starts_up, squeeze, undot, parent_match, unparent,
  unparent_loop, strip_ups, unroot, untrail, or_dot, normalize_path,
}

-- Behind each slash stands a byte that is neither a slash nor a dot.
abbrev pub starts_name : Bytes → Bool
starts_name [] = false
starts_name (c ∷ s) = not (c == slash) && not (c == dot)

abbrev pub is_tidy : Bytes → Bool
is_tidy [] = true
is_tidy (c ∷ s) = if c == slash then starts_name s && is_tidy s else is_tidy s

squeeze-tidy : (s : Bytes) → is_tidy s ≡ true → squeeze false s ≡ s
unfolding squeeze
squeeze-tidy [] h = refl
squeeze-tidy (c ∷ []) h = ground arith
squeeze-tidy (c ∷ d ∷ s) h = ground (arith, squeeze-tidy (d ∷ s))

undot-tidy : (s : Bytes) → is_tidy s ≡ true → undot s ≡ s
unfolding undot
undot-tidy [] h = refl
undot-tidy (a ∷ []) h = refl
undot-tidy (a ∷ b ∷ []) h = ground arith
undot-tidy (a ∷ b ∷ c ∷ s) h = ground (arith, undot-tidy (b ∷ c ∷ s))

no_up-tidy : (s : Bytes) → is_tidy s ≡ true → slash_up_slash (drop_while not_slash s) ≡ false
unfolding slash_up_slash not_slash
no_up-tidy [] h = refl
no_up-tidy (a ∷ []) h = ground (arith, no_up-tidy [])
no_up-tidy (a ∷ b ∷ []) h = ground (arith, no_up-tidy (b ∷ []))
no_up-tidy (a ∷ b ∷ c ∷ []) h = ground (arith, no_up-tidy (b ∷ c ∷ []))
no_up-tidy (a ∷ b ∷ c ∷ d ∷ s) h = ground (arith, no_up-tidy (b ∷ c ∷ d ∷ s))

no_match-tidy : (s : Bytes) → is_tidy s ≡ true → parent_match s ≡ none
unfolding parent_match
no_match-tidy s h = ground (arith, no_up-tidy s)

is_tidy-tail : (c : ℕ) (s : Bytes) → is_tidy (c ∷ s) ≡ true → is_tidy s ≡ true
is_tidy-tail c s h = ground arith

unparent-tidy : (s : Bytes) → is_tidy s ≡ true → unparent zero s ≡ s
unfolding unparent
unparent-tidy [] h = refl
unparent-tidy (c ∷ s) h =
    let t = is_tidy-tail c s h in ground (arith, no_match-tidy s t, unparent-tidy s t)

loop-fixed : (fuel : ℕ) (s : Bytes) → unparent zero s ≡ s → unparent_loop fuel s ≡ s
unfolding unparent_loop
loop-fixed zero s h = refl
loop-fixed (suc fuel) s h =
    let e : bytes_eq (unparent zero s) s ≡ true = rw h (bytes_eq_refl s) in rw (e, unparent_loop)

strip_ups-name : (s : Bytes) → starts_name s ≡ true → strip_ups s ≡ s
unfolding strip_ups
strip_ups-name [] h = refl
strip_ups-name (a ∷ []) h = refl
strip_ups-name (a ∷ b ∷ []) h = refl
strip_ups-name (a ∷ b ∷ c ∷ s) h = ground arith

unroot-tidy : (s : Bytes) → is_tidy s ≡ true → unroot s ≡ s
unfolding unroot
unroot-tidy [] h = refl
unroot-tidy (c ∷ s) h = ground (arith, strip_ups-name s)

untrail-tidy : (s : Bytes) → is_tidy s ≡ true → untrail s ≡ s
unfolding untrail
untrail-tidy [] h = refl
untrail-tidy (c ∷ []) h = ground (arith, untrail-tidy [])
untrail-tidy (c ∷ d ∷ s) h = ground (arith, untrail-tidy (d ∷ s))

-- normalize_path by its passes, where those behind the dots change nothing.
by_passes :
    (p a b : Bytes)
    → squeeze false p ≡ a
    → undot a ≡ b
    → unparent zero b ≡ b
    → unroot b ≡ b
    → untrail b ≡ b
    → normalize_path p ≡ or_dot b
unfolding normalize_path
by_passes p a b e₁ e₂ e₃ e₄ e₅ = rw (e₁, e₂, loop-fixed (length b) b e₃, e₄, e₅)

-- A path that is not empty, and in which behind each slash stands a byte that is neither a slash nor
-- a dot, is left as it is.
pub normalize_path-tidy :
    (c : ℕ) (s : Bytes) → is_tidy (c ∷ s) ≡ true → normalize_path (c ∷ s) ≡ c ∷ s
unfolding or_dot
normalize_path-tidy c s h =
    by_passes (c ∷ s) (c ∷ s) (c ∷ s) (squeeze-tidy (c ∷ s) h) (undot-tidy (c ∷ s) h)
      (unparent-tidy (c ∷ s) h) (unroot-tidy (c ∷ s) h) (untrail-tidy (c ∷ s) h)

module _ (d : ℕ) (t : Bytes) (h : is_tidy (slash ∷ d ∷ t) ≡ true) where
  abbrev clean : Bytes
  clean = slash ∷ d ∷ t

  squeeze-dots : squeeze false (codes "/./." ++ clean) ≡ codes "/./." ++ clean
  unfolding squeeze
  squeeze-dots = ap (λ s. codes "/./." ++ s) (squeeze-tidy clean h)

  undot-dots : undot (codes "/./." ++ clean) ≡ codes "/." ++ clean
  unfolding undot
  undot-dots = ap (λ s. codes "/." ++ s) (undot-tidy clean h)

  unparent-dot : unparent zero (codes "/." ++ clean) ≡ codes "/." ++ clean
  unfolding unparent parent_match starts_up slash_up_slash not_slash
  unparent-dot = ground (arith, unparent-tidy clean h)

  unroot-dot : unroot (codes "/." ++ clean) ≡ codes "/." ++ clean
  unfolding unroot strip_ups
  unroot-dot = refl

  untrail-dot : untrail (codes "/." ++ clean) ≡ codes "/." ++ clean
  unfolding untrail
  untrail-dot = ground (arith, untrail-tidy clean h)

-- Of two dots that are names in a row only one is removed: a clean absolute path behind "/./." is
-- normalized to that path behind "/.", which is not what it is normalized to itself.
pub normalize_path_keeps_dot :
    (d : ℕ) (t : Bytes)
    → is_tidy (slash ∷ d ∷ t) ≡ true
    → (normalize_path (codes "/./." ++ slash ∷ d ∷ t) ≡ codes "/." ++ slash ∷ d ∷ t)
      × (normalize_path (slash ∷ d ∷ t) ≡ slash ∷ d ∷ t)
unfolding or_dot
normalize_path_keeps_dot d t h = (
  by_passes _ _ (codes "/." ++ slash ∷ d ∷ t) (squeeze-dots d t h) (undot-dots d t h)
      (unparent-dot d t h) (unroot-dot d t h) (untrail-dot d t h),
  normalize_path-tidy slash (d ∷ t) h,
)
