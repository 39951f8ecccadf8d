-- ===== src/Path/Slashes.antt =====
-- What normalize_path leaves is a name: not empty, with single slashes only, and absolute if and only
-- if the text was.
use etransfer.Common.{
  ℕ, zero, suc, ◌+◌, ◌≤◌, ◌≡◌, ◌≢◌, refl, ◌∙◌, inl, inr, Bool, Bool-cases, Option-cases, true,
  false, [], ◌∷◌, ◌&&◌, not, some, Bytes, codes, length, drop, length-drop, bytes_eq, ◌==◌,
  if◌then◌else◌, arith,
}
use etransfer.Text.{take_while, drop_while}
use etransfer.Path.{
  slash, not_slash, slash_up_slash, squeeze, undot, parent_match, unparent, unparent_loop,
  strip_ups, unroot, untrail, or_dot, normalize_path,
}
use etransfer.Path.Loop.{unparent_skip}

-- No two slashes side by side. The flag: the byte before was a slash.
abbrev pub single_slashes : Bool → Bytes → Bool
single_slashes after [] = true
single_slashes after (c ∷ s) =
    if c == slash then not after && single_slashes true s else single_slashes false s

abbrev pub is_absolute : Bytes → Bool
is_absolute [] = false
is_absolute (c ∷ s) = c == slash

weaken : (s : Bytes) → single_slashes true s ≡ true → single_slashes false s ≡ true
weaken [] h = refl
weaken (c ∷ s) h = ground arith

squeeze-single : (after : Bool) (s : Bytes) → single_slashes after (squeeze after s) ≡ true
unfolding squeeze
squeeze-single after [] = refl
squeeze-single after (c ∷ s) = ground (arith, squeeze-single true s, squeeze-single false s)

undot-single :
    (after : Bool) (s : Bytes)
    → single_slashes after s ≡ true
    → single_slashes after (undot s) ≡ true
unfolding undot
undot-single after [] h = refl
undot-single after (a ∷ []) h = h
undot-single after (a ∷ b ∷ []) h = ground arith
undot-single after (a ∷ b ∷ c ∷ s) h =
    ground
      (arith, undot-single true s, undot-single true (b ∷ c ∷ s), undot-single false (b ∷ c ∷ s))

-- Behind a match of four bytes that ends in a slash the text goes on as behind a slash.
after_up :
    (after : Bool) (s : Bytes)
    → single_slashes after s ≡ true
    → slash_up_slash s ≡ true
    → single_slashes true (drop 4 s) ≡ true
unfolding slash_up_slash
after_up after (a ∷ b ∷ c ∷ d ∷ s) h m = ground arith
after_up after [] h m = ground arith
after_up after (a ∷ []) h m = ground arith
after_up after (a ∷ b ∷ []) h m = ground arith
after_up after (a ∷ b ∷ c ∷ []) h m = ground arith

after_name :
    (after : Bool) (s : Bytes)
    → single_slashes after s ≡ true
    → slash_up_slash (drop_while not_slash s) ≡ true
    → single_slashes true (drop (length (take_while not_slash s) + 4) s) ≡ true
unfolding not_slash
after_name after [] h m = refl
after_name after (c ∷ s) h m = elim (Bool-cases (c == slash)) [
  | inl hit ↦ rw hit (after_up after (c ∷ s) h (rw hit at m))
  | inr other ↦
      let skip : suc (length (take_while not_slash s)) + 4
          ≡ suc (length (take_while not_slash s) + 4) =
        omega arith in
      rw (other, skip) (after_name false s (rw other at h) (rw other at m))
]

after_match :
    (after : Bool) (s : Bytes) (k : ℕ)
    → single_slashes after s ≡ true
    → parent_match s ≡ some k
    → single_slashes true (drop k s) ≡ true
unfolding parent_match
after_match after s k h e = elim (Bool-cases (slash_up_slash (drop_while not_slash s))) [
  | inl up ↦
      let k_lem : k ≡ length (take_while not_slash s) + 4 = ground arith in
      rw k_lem (after_name after s h up)
  | inr no_up ↦ absurd (ground arith)
]

unparent-single :
    (fuel : ℕ) (after : Bool) (s : Bytes)
    → length s ≤ fuel
    → single_slashes after s ≡ true
    → single_slashes after (unparent zero s) ≡ true
unfolding unparent
unparent-single fuel after [] le h = refl
unparent-single zero after (c ∷ s) le h = absurd (omega arith)
unparent-single (suc fuel) after (c ∷ s) le h = elim (Bool-cases (c == slash)) [
  | inr other ↦
      let h' : single_slashes false s ≡ true = rw other at h in
      rw (other, unparent) (rw other (unparent-single fuel false s (omega arith) h'))
  | inl hit ↦ elim (Option-cases (parent_match s)) [
    | inl e ↦ rw (hit, e, unparent) (ground (arith, unparent-single fuel true s))
    | inr (k, e) ↦
        let h' : (not after && single_slashes true s) ≡ true = rw hit at h in
        let rest : single_slashes true (unparent zero (drop k s)) ≡ true =
          unparent-single fuel true (drop k s) (omega (arith, length-drop k s))
            (after_match true s k (ground arith) e) in
        rw (hit, e, unparent) (rw (unparent_skip k s) (ground arith))
  ]
]

loop-single :
    (fuel : ℕ) (s : Bytes)
    → single_slashes false s ≡ true
    → single_slashes false (unparent_loop fuel s) ≡ true
unfolding unparent_loop
loop-single zero s h = h
loop-single (suc fuel) s h =
    ground (arith, loop-single fuel (unparent zero s), unparent-single (length s) false s)

strip_ups-single :
    (s : Bytes) → single_slashes true s ≡ true → single_slashes true (strip_ups s) ≡ true
unfolding strip_ups
strip_ups-single [] h = h
strip_ups-single (a ∷ []) h = h
strip_ups-single (a ∷ b ∷ []) h = h
strip_ups-single (a ∷ b ∷ c ∷ s) h = ground (arith, strip_ups-single s)

unroot-single : (s : Bytes) → single_slashes false s ≡ true → single_slashes false (unroot s) ≡ true
unfolding unroot
unroot-single [] h = h
unroot-single (c ∷ s) h = ground (arith, strip_ups-single s)

untrail-single :
    (after : Bool) (s : Bytes)
    → single_slashes after s ≡ true
    → single_slashes after (untrail s) ≡ true
unfolding untrail
untrail-single after [] h = h
untrail-single after (c ∷ s) h = elim (Bool-cases (bytes_eq (c ∷ s) (codes "/../"))) [
  | inl e ↦ rw (e, untrail) (ground arith)
  | inr other ↦ rw (other, untrail) (ground (arith, untrail-single true s, untrail-single false s))
]

or_dot-single : (s : Bytes) → single_slashes false s ≡ true → single_slashes false (or_dot s) ≡ true
unfolding or_dot
or_dot-single [] h = refl
or_dot-single (c ∷ s) h = h

squeeze-absolute : (s : Bytes) → is_absolute (squeeze false s) ≡ is_absolute s
unfolding squeeze
squeeze-absolute [] = refl
squeeze-absolute (c ∷ s) = ground arith

undot-absolute : (s : Bytes) → is_absolute (undot s) ≡ is_absolute s
unfolding undot
undot-absolute [] = refl
undot-absolute (a ∷ []) = refl
undot-absolute (a ∷ b ∷ []) = ground arith
undot-absolute (a ∷ b ∷ c ∷ s) = ground arith

unparent-absolute : (s : Bytes) → is_absolute (unparent zero s) ≡ is_absolute s
unfolding unparent
unparent-absolute [] = refl
unparent-absolute (c ∷ s) = ground arith

loop-absolute : (fuel : ℕ) (s : Bytes) → is_absolute (unparent_loop fuel s) ≡ is_absolute s
unfolding unparent_loop
loop-absolute zero s = refl
loop-absolute (suc fuel) s =
    ground (arith, loop-absolute fuel (unparent zero s), unparent-absolute s)

unroot-absolute : (s : Bytes) → is_absolute (unroot s) ≡ is_absolute s
unfolding unroot
unroot-absolute [] = refl
unroot-absolute (c ∷ s) = ground arith

untrail-absolute : (s : Bytes) → is_absolute (untrail s) ≡ is_absolute s
unfolding untrail
untrail-absolute [] = refl
untrail-absolute (c ∷ s) = ground arith

or_dot-absolute : (s : Bytes) → is_absolute (or_dot s) ≡ is_absolute s
unfolding or_dot
or_dot-absolute [] = refl
or_dot-absolute (c ∷ s) = refl

or_dot-ne-nil : (s : Bytes) → or_dot s ≢ []
unfolding or_dot
or_dot-ne-nil [] h = cc
or_dot-ne-nil (c ∷ s) h = cc

-- A normalized path is not empty, has no two slashes side by side, and starts with a slash if and
-- only if the path did.
pub normalize_path_form :
    (p : Bytes)
    → (normalize_path p ≢ [])
      × (single_slashes false (normalize_path p) ≡ true)
      × (is_absolute (normalize_path p) ≡ is_absolute p)
unfolding normalize_path
normalize_path_form p =
    let single = undot (squeeze false p) in
    let looped = unparent_loop (length single) single in
    (
      or_dot-ne-nil (untrail (unroot looped)),
      or_dot-single (untrail (unroot looped)) (
          untrail-single false (unroot looped) (
            unroot-single looped (
              loop-single (length single) single
                (undot-single false (squeeze false p) (squeeze-single false p))))),
      or_dot-absolute (untrail (unroot looped))
          ∙ untrail-absolute (unroot looped)
          ∙ unroot-absolute looped
          ∙ loop-absolute (length single) single
          ∙ undot-absolute (squeeze false p)
          ∙ squeeze-absolute p,
    )
