-- ===== src/Command/Matches.antt =====
-- The regular expressions that the lines of the requests are matched by, with their groups.
use etransfer.Common.{ℕ, ◌≡◌, ◌≢◌, refl, true, false, [], ◌∷◌, ◌++◌, some, Bytes, codes, arith}
use etransfer.Text.{is_space, is_digit, equal_ci, to_upper}
use etransfer.OpenMode.{OpenMode, new, over_write, resume, read, skip_existing, invalid, print_mode}
use etransfer.Exchange.{print_ℕ}
use etransfer.Proxy.{all_bytes, is_word, strip_prefix_ci}
use etransfer.Command.{
  after_spaces, next_field, not_space, match_list, match_write, match_read, match_send,
  match_remove, first_of, match_command, Fields, of_write, of_read, of_send, of_remove,
}
use etransfer.Command.Parts.{
  is_visible, is_field, rest_path-visible, spaced_field-stop, spaced_field-end,
}
use etransfer.Command.Numbers.{print_ℕ-field}

pub word-field : (u : Bytes) → is_word u ≡ true → is_field not_space u ≡ true
unfolding is_word all_bytes
word-field [] h = absurd (ground (arith, h))
word-field (c ∷ u) h = ground (arith, h)

no_digit : is_digit b' ' ≡ false
unfolding is_digit
no_digit = refl

no_word : not_space b' ' ≡ false
unfolding is_space
no_word = refl

pub match_write-mode :
    (m : OpenMode) (path : Bytes)
    → m ≢ invalid
    → is_visible path ≡ true
    → match_write (print_mode m ++ b' ' ∷ path) ≡ some (of_write (print_mode m) path)
unfolding match_write next_field print_mode is_space
match_write-mode new path h v = rw (match_write, rest_path-visible path v) refl
match_write-mode over_write path h v = rw (match_write, rest_path-visible path v) refl
match_write-mode resume path h v = rw (match_write, rest_path-visible path v) refl
match_write-mode read path h v = rw (match_write, rest_path-visible path v) refl
match_write-mode skip_existing path h v = rw (match_write, rest_path-visible path v) refl
match_write-mode invalid path h v = absurd (h refl)

pub match_read-number :
    (n : ℕ) (path : Bytes)
    → is_visible path ≡ true
    → match_read (b' ' ∷ (print_ℕ n ++ b' ' ∷ path)) ≡ some (of_read (print_ℕ n) path)
unfolding match_read
match_read-number n path v =
    rw
      (
        match_read,
        spaced_field-stop is_digit (print_ℕ n) path (print_ℕ-field n) no_digit,
        rest_path-visible path v,
      )
      refl

pub match_send-fields :
    (u v : Bytes) (n : ℕ) (addrs : Bytes)
    → is_word u ≡ true
    → is_word v ≡ true
    → is_field not_space addrs ≡ true
    → match_send (b' ' ∷ (u ++ b' ' ∷ (v ++ b' ' ∷ (print_ℕ n ++ b' ' ∷ addrs))))
      ≡ some (of_send u v (print_ℕ n) addrs)
unfolding match_send
match_send-fields u v n addrs hu hv ha =
    let number = print_ℕ n ++ b' ' ∷ addrs in
    rw
      (
        match_send,
        spaced_field-stop not_space u (v ++ b' ' ∷ number) (word-field u hu) no_word,
        spaced_field-stop not_space v number (word-field v hv) no_word,
        spaced_field-stop is_digit (print_ℕ n) addrs (print_ℕ-field n) no_digit,
        spaced_field-end not_space addrs ha,
      )
      refl

pub match_remove-word :
    (u : Bytes) → is_word u ≡ true → match_remove (b' ' ∷ u) ≡ some (of_remove u)
unfolding match_remove after_spaces is_word all_bytes
match_remove-word [] h = absurd (ground (arith, h))
match_remove-word (c ∷ u) h = let v : is_space c ≡ false = ground (arith, h) in rw (v, h) refl

-- The expression that the word at the front selects.
pub first-list :
    (s : Bytes) {f : Fields} → match_list s ≡ some f → match_command (codes "list" ++ s) ≡ some f
unfolding match_command first_of strip_prefix_ci equal_ci to_upper
first-list s h = rw (match_command, first_of, h) refl

pub first-write :
    (s : Bytes) {f : Fields}
    → match_write s ≡ some f
    → match_command (codes "write-file-" ++ s) ≡ some f
unfolding match_command first_of strip_prefix_ci equal_ci to_upper
first-write s h = rw (match_command, first_of, h) refl

pub first-read :
    (s : Bytes) {f : Fields}
    → match_read s ≡ some f
    → match_command (codes "read-file" ++ s) ≡ some f
unfolding match_command first_of strip_prefix_ci equal_ci to_upper
first-read s h = rw (match_command, first_of, h) refl

pub first-send :
    (s : Bytes) {f : Fields}
    → match_send s ≡ some f
    → match_command (codes "send-file" ++ s) ≡ some f
unfolding match_command first_of strip_prefix_ci equal_ci to_upper
first-send s h = rw (match_command, first_of, h) refl

pub first-remove :
    (s : Bytes) {f : Fields}
    → match_remove s ≡ some f
    → match_command (codes "remove-uuid" ++ s) ≡ some f
unfolding match_command first_of strip_prefix_ci equal_ci to_upper
first-remove s h = rw (match_command, first_of, h) refl
