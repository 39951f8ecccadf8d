-- ===== src/Path/Names.antt =====
-- dirname and basename take a path apart.
use mathlib.Core.List.{reverse, reverse-append, reverse-reverse, reverse-cons}
use etransfer.Common.{
  ℕ, ◌≤◌, ◌≡◌, refl, sym, ap, ◌∙◌, Bool, true, false, [], ◌∷◌, ◌++◌, ◌&&◌, ◌||◌, none, some, Bytes,
  length, append_assoc, length-append, ◌==◌, arith,
}
use etransfer.Text.{take_while, drop_while}
use etransfer.Path.{
  slash, is_slash, not_slash, up_to_last_slash, without_trailing, is_special, has_slash, dirname,
  all_backslash, basename,
}

has_slash-append : (xs ys : Bytes) → has_slash (xs ++ ys) ≡ (has_slash xs || has_slash ys)
unfolding has_slash
has_slash-append [] ys = refl
has_slash-append (x ∷ xs) ys = ground (arith, has_slash-append xs ys)

has_slash-reverse : (xs : Bytes) → has_slash (reverse xs) ≡ has_slash xs
unfolding has_slash
has_slash-reverse [] = refl
has_slash-reverse (x ∷ xs) = ground (
  arith,
  ap has_slash (reverse-cons x xs),
  has_slash-append (reverse xs) (x ∷ []),
  has_slash-reverse xs,
)

drop_while-name :
    (c : ℕ) (m r : Bytes) → has_slash (c ∷ m) ≡ false → drop_while is_slash (c ∷ r) ≡ c ∷ r
unfolding has_slash is_slash
drop_while-name c m r h = ground arith

take_while-name : (m r : Bytes) → has_slash m ≡ false → take_while not_slash (m ++ slash ∷ r) ≡ m
unfolding has_slash not_slash
take_while-name [] r h = refl
take_while-name (c ∷ m) r h = ground (arith, take_while-name m r)

up_to-none : (n : Bytes) → has_slash n ≡ false → up_to_last_slash n ≡ none
unfolding has_slash up_to_last_slash
up_to-none [] h = refl
up_to-none (c ∷ n) h = ground (arith, up_to-none n)

up_to-some :
    (d n : Bytes) → has_slash n ≡ false → up_to_last_slash (d ++ slash ∷ n) ≡ some (d ++ slash ∷ [])
unfolding up_to_last_slash
up_to-some [] n h = ground (arith, up_to-none n h)
up_to-some (x ∷ d) n h = ground (arith, up_to-some d n h)

special-slash : (p : Bytes) → 2 ≤ length p → has_slash p ≡ true → is_special p ≡ false
unfolding is_special has_slash
special-slash [] h e = absurd (omega arith)
special-slash (a ∷ []) h e = absurd (omega arith)
special-slash (a ∷ b ∷ []) h e = ground arith
special-slash (a ∷ b ∷ c ∷ s) h e = ground arith

no_backslash : (p : Bytes) → has_slash p ≡ true → all_backslash p ≡ false
unfolding has_slash all_backslash
no_backslash [] h = ground arith
no_backslash (a ∷ p) h = ground (arith, no_backslash p)

-- basename on a text that is not one of the special ones.
basename_of :
    (b c : ℕ) (q r : Bytes)
    → is_special (b ∷ q) ≡ false
    → all_backslash (b ∷ q) ≡ false
    → drop_while is_slash (reverse (b ∷ q)) ≡ c ∷ r
    → basename (b ∷ q) ≡ some (reverse (take_while not_slash (c ∷ r)))
unfolding basename
basename_of b c q r h₁ h₂ h₃ = rw (h₁, h₂, h₃)

dirname_of :
    (p t : Bytes)
    → is_special p ≡ false
    → has_slash p ≡ true
    → up_to_last_slash (without_trailing p) ≡ some t
    → dirname p ≡ t
unfolding dirname
dirname_of p t h₁ h₂ h₃ = rw (h₁, h₂, h₃)

without_trailing_of :
    (p r : Bytes) (c : ℕ)
    → drop_while is_slash (reverse p) ≡ c ∷ r
    → without_trailing p ≡ reverse (c ∷ r)
unfolding without_trailing
without_trailing_of p r c h = rw (h, without_trailing)

append_one : (ys : Bytes) (x : ℕ) → (c : ℕ) × (m : Bytes) × (ys ++ x ∷ [] ≡ c ∷ m)
append_one [] x = (x, [], refl)
append_one (y ∷ ys) x = (y, ys ++ x ∷ [], refl)

reverse-ne-nil : (x : ℕ) (n : Bytes) → (c : ℕ) × (m : Bytes) × (reverse (x ∷ n) ≡ c ∷ m)
reverse-ne-nil x n = let (c, m, e) = append_one (reverse n) x in (c, m, reverse-cons x n ∙ e)

-- A text that ends in a name, read from its end.
module _ (d : Bytes) (x : ℕ) (n : Bytes) (h : has_slash (x ∷ n) ≡ false) where
  backwards :
      (c : ℕ) (m : Bytes)
      → reverse (x ∷ n) ≡ c ∷ m
      → reverse (d ++ slash ∷ x ∷ n) ≡ c ∷ (m ++ slash ∷ reverse d)
  backwards c m e =
      reverse-append d (slash ∷ x ∷ n)
      ∙ ap (λ t. t ++ reverse d) (reverse-cons slash (x ∷ n))
      ∙ ap (λ t. (t ++ slash ∷ []) ++ reverse d) e
      ∙ append_assoc (c ∷ m) (slash ∷ []) (reverse d)

  name_backwards : (c : ℕ) (m : Bytes) → reverse (x ∷ n) ≡ c ∷ m → has_slash (c ∷ m) ≡ false
  name_backwards c m e = ap has_slash (sym e) ∙ has_slash-reverse (x ∷ n) ∙ h

  trailing_none :
      (c : ℕ) (m : Bytes)
      → reverse (x ∷ n) ≡ c ∷ m
      → drop_while is_slash (reverse (d ++ slash ∷ x ∷ n)) ≡ c ∷ (m ++ slash ∷ reverse d)
  trailing_none c m e =
      ap (drop_while is_slash) (backwards c m e)
      ∙ drop_while-name c m (m ++ slash ∷ reverse d) (name_backwards c m e)

  path_has_slash : has_slash (d ++ slash ∷ x ∷ n) ≡ true
  unfolding has_slash
  path_has_slash = ground (arith, has_slash-append d (slash ∷ x ∷ n))

  path_length : 2 ≤ length (d ++ slash ∷ x ∷ n)
  path_length = omega (arith, length-append d (slash ∷ x ∷ n))

  dirname_path : dirname (d ++ slash ∷ x ∷ n) ≡ d ++ slash ∷ []
  dirname_path =
      let (c, m, e) = reverse-ne-nil x n in
      let whole =
        without_trailing_of (d ++ slash ∷ x ∷ n) (m ++ slash ∷ reverse d) c (trailing_none c m e)
        ∙ ap reverse (sym (backwards c m e))
        ∙ reverse-reverse (d ++ slash ∷ x ∷ n) in
      dirname_of (d ++ slash ∷ x ∷ n) (d ++ slash ∷ [])
        (special-slash (d ++ slash ∷ x ∷ n) path_length path_has_slash) path_has_slash
        (ap up_to_last_slash whole ∙ up_to-some d (x ∷ n) h)

  basename_path :
      (b : ℕ) (q : Bytes)
      → b ∷ q ≡ d ++ slash ∷ x ∷ n
      → basename (d ++ slash ∷ x ∷ n) ≡ some (x ∷ n)
  basename_path b q p =
      let (c, m, e) = reverse-ne-nil x n in
      let name =
        ap reverse (take_while-name (c ∷ m) (reverse d) (name_backwards c m e) ∙ sym e)
        ∙ reverse-reverse (x ∷ n) in
      ap basename (sym p)
      ∙ basename_of b c q (m ++ slash ∷ reverse d)
          (ap is_special p ∙ special-slash (d ++ slash ∷ x ∷ n) path_length path_has_slash)
          (ap all_backslash p ∙ no_backslash (d ++ slash ∷ x ∷ n) path_has_slash)
          (ap (λ t. drop_while is_slash (reverse t)) p ∙ trailing_none c m e)
      ∙ ap some name

-- A path d ++ "/" ++ name, with a name that is not empty and holds no slash, is taken apart: basename
-- is the name, and dirname is d ++ "/", so that the two spell the path.
pub dirname-basename :
    (d : Bytes) (x : ℕ) (n : Bytes)
    → has_slash (x ∷ n) ≡ false
    → (basename (d ++ slash ∷ x ∷ n) ≡ some (x ∷ n))
      × (dirname (d ++ slash ∷ x ∷ n) ≡ d ++ slash ∷ [])
dirname-basename [] x n h = (basename_path [] x n h slash (x ∷ n) refl, dirname_path [] x n h)
dirname-basename (y ∷ d) x n h =
    (basename_path (y ∷ d) x n h y (d ++ slash ∷ x ∷ n) refl, dirname_path (y ∷ d) x n h)

abbrev pub all_slash : Bytes → Bool
all_slash [] = true
all_slash (c ∷ s) = (c == slash) && all_slash s

all_slash-drop : (s : Bytes) → all_slash s ≡ true → drop_while is_slash s ≡ []
unfolding is_slash
all_slash-drop [] h = refl
all_slash-drop (c ∷ s) h = ground (arith, all_slash-drop s)

all_slash-append : (xs ys : Bytes) → all_slash (xs ++ ys) ≡ (all_slash xs && all_slash ys)
all_slash-append [] ys = refl
all_slash-append (x ∷ xs) ys = ground (arith, all_slash-append xs ys)

all_slash-reverse : (xs : Bytes) → all_slash (reverse xs) ≡ all_slash xs
all_slash-reverse [] = refl
all_slash-reverse (x ∷ xs) = ground (
  arith,
  ap all_slash (reverse-cons x xs),
  all_slash-append (reverse xs) (x ∷ []),
  all_slash-reverse xs,
)

-- On a text of two or more slashes and nothing else basename reads in front of the text, which has
-- no defined result.
pub basename_of_slashes : (p : Bytes) → 2 ≤ length p → all_slash p ≡ true → basename p ≡ none
unfolding basename is_special all_backslash
basename_of_slashes [] h e = absurd (omega arith)
basename_of_slashes (a ∷ []) h e = absurd (omega arith)
basename_of_slashes (a ∷ b ∷ s) h e =
    ground (arith, all_slash-drop (reverse (a ∷ b ∷ s)) (all_slash-reverse (a ∷ b ∷ s) ∙ e))
