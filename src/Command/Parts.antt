-- ===== src/Command/Parts.antt =====
-- The fields of a command: words, numbers and lists as they are written are taken apart again.
use etransfer.Common.{ℕ, ◌≡◌, refl, Bool, true, false, [], ◌∷◌, ◌++◌, some, Bytes, arith, ◌&&◌}
use etransfer.Text.{is_space, take_while, drop_while}
use etransfer.Proxy.{all_bytes}
use etransfer.Command.{is_dot, rest_path, next_field, spaced_field, not_space}

module _ (p : ℕ → Bool) where
  pub take_while-end : (w : Bytes) → all_bytes p w ≡ true → take_while p w ≡ w
  unfolding all_bytes
  take_while-end [] h = refl
  take_while-end (c ∷ w) h = ground (arith, h, take_while-end w)

  pub drop_while-end : (w : Bytes) → all_bytes p w ≡ true → drop_while p w ≡ []
  unfolding all_bytes
  drop_while-end [] h = refl
  drop_while-end (c ∷ w) h = ground (arith, h, drop_while-end w)

  pub take_while-stop :
      (w : Bytes) (d : ℕ) (s : Bytes)
      → all_bytes p w ≡ true
      → p d ≡ false
      → take_while p (w ++ d ∷ s) ≡ w
  unfolding all_bytes
  take_while-stop [] d s h e = rw e refl
  take_while-stop (c ∷ w) d s h e = ground (arith, h, take_while-stop w d s)

  pub drop_while-stop :
      (w : Bytes) (d : ℕ) (s : Bytes)
      → all_bytes p w ≡ true
      → p d ≡ false
      → drop_while p (w ++ d ∷ s) ≡ d ∷ s
  unfolding all_bytes
  drop_while-stop [] d s h e = rw e refl
  drop_while-stop (c ∷ w) d s h e = ground (arith, h, drop_while-stop w d s)

  next_field-stop :
      (c : ℕ) (w : Bytes) (d : ℕ) (s : Bytes)
      → all_bytes p (c ∷ w) ≡ true
      → p d ≡ false
      → next_field p ((c ∷ w) ++ d ∷ s) ≡ some (c ∷ w, d ∷ s)
  unfolding next_field
  next_field-stop c w d s h e =
      rw (next_field, take_while-stop (c ∷ w) d s h e, drop_while-stop (c ∷ w) d s h e) refl

  next_field-end :
      (c : ℕ) (w : Bytes) → all_bytes p (c ∷ w) ≡ true → next_field p (c ∷ w) ≡ some (c ∷ w, [])
  unfolding next_field
  next_field-end c w h = rw (next_field, take_while-end (c ∷ w) h, drop_while-end (c ∷ w) h) refl

-- A text that starts with a byte that is no space and has no end of a line in it.
abbrev pub is_visible : Bytes → Bool
is_visible [] = false
is_visible (c ∷ s) = not_space c && all_bytes is_dot s

pub rest_path-visible : (s : Bytes) → is_visible s ≡ true → rest_path (b' ' ∷ s) ≡ some s
unfolding rest_path
rest_path-visible [] h = absurd (ground (arith, h))
rest_path-visible (c ∷ s) h =
    let v : is_space c ≡ false = ground (arith, h) in
    let one_line : all_bytes is_dot s ≡ true = ground (arith, h) in rw (rest_path, v, one_line) refl

-- A field behind one space, in front of a space or at the end.
abbrev pub is_field : (ℕ → Bool) → Bytes → Bool
is_field p [] = false
is_field p (c ∷ w) = not_space c && all_bytes p (c ∷ w)

pub spaced_field-stop :
    (p : ℕ → Bool) (w s : Bytes)
    → is_field p w ≡ true
    → p b' ' ≡ false
    → spaced_field p (b' ' ∷ (w ++ b' ' ∷ s)) ≡ some (w, b' ' ∷ s)
unfolding spaced_field
spaced_field-stop p [] s h e = absurd (ground (arith, h))
spaced_field-stop p (c ∷ w) s h e =
    let v : is_space c ≡ false = ground (arith, h) in
    let all : all_bytes p (c ∷ w) ≡ true = ground (arith, h) in
    rw v (next_field-stop p c w b' ' s all e)

pub spaced_field-end :
    (p : ℕ → Bool) (w : Bytes) → is_field p w ≡ true → spaced_field p (b' ' ∷ w) ≡ some (w, [])
unfolding spaced_field
spaced_field-end p [] h = absurd (ground (arith, h))
spaced_field-end p (c ∷ w) h =
    let v : is_space c ≡ false = ground (arith, h) in
    let all : all_bytes p (c ∷ w) ≡ true = ground (arith, h) in rw v (next_field-end p c w all)

pub all_bytes-append :
    (p : ℕ → Bool) (l r : Bytes)
    → all_bytes p l ≡ true
    → all_bytes p r ≡ true
    → all_bytes p (l ++ r) ≡ true
unfolding all_bytes
all_bytes-append p [] r h k = k
all_bytes-append p (c ∷ l) r h k = ground (arith, h, k, all_bytes-append p l r)

pub field-all : (p : ℕ → Bool) (a : Bytes) → is_field p a ≡ true → all_bytes p a ≡ true
unfolding all_bytes
field-all p [] h = refl
field-all p (c ∷ w) h = ground (arith, h)
