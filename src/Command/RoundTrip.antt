-- ===== src/Command/RoundTrip.antt =====
-- What a request of ETDProxy sends is the request that ETDServerWrapper::handle finds in the line.
use etransfer.Common.{
  ℕ, ◌^◌, ◌<◌, ◌≡◌, ◌≢◌, refl, ap, Bool, true, false, List, ◌∷◌, ◌++◌, some, Bytes, codes, arith,
  ◌&&◌, ltb, ltb→lt,
}
use etransfer.Common.Int.{pos, negsuc}
use etransfer.Text.{equal_ci, to_upper}
use etransfer.OpenMode.{OpenMode, new, over_write, resume, read, skip_existing, invalid, print_mode}
use etransfer.OpenMode.RoundTrip.{parse_mode-print_mode}
use etransfer.Exchange.{print_ℕ}
use etransfer.Proxy.{is_word, strip_prefix_ci}
use etransfer.Command.{
  Command, list_path, write_file, read_file, send_file, data_channel_addr, remove_uuid, print_ℤ,
  join_commas, print_command, match_list, match_end, first_of, match_command, request_of,
  parse_command, Fields, of_list, of_write, of_read, of_send, of_remove,
}
use etransfer.Command.Parts.{is_visible, rest_path-visible}
use etransfer.Command.Numbers.{off_of-print_ℕ}
use etransfer.Command.Addresses.{are_addresses, split_commas-join_commas, join_commas-field}
use etransfer.Command.Matches.{
  match_write-mode, match_read-number, match_send-fields, match_remove-word, first-list,
  first-write, first-read, first-send, first-remove,
}

-- What is sent so that it is understood: paths that do not start with a space and have no end of a line
-- in them, the name of a mode, a number of bytes that an off_t holds, Uuids without spaces, and an
-- address at least.
unfoldable pub is_sendable : Command → Bool
unfolding are_addresses is_word
is_sendable (list_path path) = is_visible path
is_sendable (write_file invalid path) = false
is_sendable (write_file mode path) = is_visible path
is_sendable (read_file (pos n) path) = ltb n (2 ^ 63) && is_visible path
is_sendable (read_file (negsuc n) path) = false
is_sendable (send_file u v (pos n) addrs) =
    is_word u && (is_word v && (ltb n (2 ^ 63) && are_addresses addrs))
is_sendable (send_file u v (negsuc n) addrs) = false
is_sendable data_channel_addr = true
is_sendable (remove_uuid u) = is_word u

parse_command-fields :
    (line : Bytes) (f : Fields) (c : Command)
    → match_command line ≡ some f
    → request_of f ≡ some c
    → parse_command line ≡ some (some c)
unfolding parse_command
parse_command-fields line f c e r = rw (parse_command, e, r) refl

parse_command-list :
    (path : Bytes)
    → is_visible path ≡ true
    → parse_command (codes "list" ++ b' ' ∷ path) ≡ some (some (list_path path))
unfolding match_list request_of
parse_command-list path v =
    let m : match_list (b' ' ∷ path) ≡ some (of_list path) =
      rw (match_list, rest_path-visible path v) refl in
    parse_command-fields (codes "list" ++ b' ' ∷ path) (of_list path) (list_path path)
      (first-list (b' ' ∷ path) m) refl

parse_command-write :
    (mode : OpenMode) (path : Bytes)
    → mode ≢ invalid
    → is_visible path ≡ true
    → parse_command (codes "write-file-" ++ (print_mode mode ++ b' ' ∷ path))
      ≡ some (some (write_file mode path))
unfolding request_of
parse_command-write mode path h v =
    let s = print_mode mode ++ b' ' ∷ path in
    parse_command-fields (codes "write-file-" ++ s) (of_write (print_mode mode) path)
      (write_file mode path) (first-write s (match_write-mode mode path h v))
      (ap (λ m. some (write_file m path)) (parse_mode-print_mode mode h))

parse_command-read :
    (n : ℕ) (path : Bytes)
    → n < 2 ^ 63
    → is_visible path ≡ true
    → parse_command (codes "read-file" ++ b' ' ∷ (print_ℕ n ++ b' ' ∷ path))
      ≡ some (some (read_file (pos n) path))
unfolding request_of
parse_command-read n path h v =
    let s = b' ' ∷ (print_ℕ n ++ b' ' ∷ path) in
    let number : request_of (of_read (print_ℕ n) path) ≡ some (read_file (pos n) path) =
      rw (request_of, off_of-print_ℕ n h) refl in
    parse_command-fields (codes "read-file" ++ s) (of_read (print_ℕ n) path)
      (read_file (pos n) path) (first-read s (match_read-number n path v)) number

parse_command-send :
    (u v : Bytes) (n : ℕ) (addrs : List Bytes)
    → is_word u ≡ true
    → is_word v ≡ true
    → n < 2 ^ 63
    → are_addresses addrs ≡ true
    → parse_command (print_command (send_file u v (pos n) addrs))
      ≡ some (some (send_file u v (pos n) addrs))
unfolding request_of print_command print_ℤ
parse_command-send u v n addrs hu hv h ha =
    let joined = join_commas addrs in
    let s = b' ' ∷ (u ++ b' ' ∷ (v ++ b' ' ∷ (print_ℕ n ++ b' ' ∷ joined))) in
    let groups : request_of (of_send u v (print_ℕ n) joined) ≡ some (send_file u v (pos n) addrs) =
      rw (request_of, off_of-print_ℕ n h, split_commas-join_commas addrs ha) refl in
    parse_command-fields (codes "send-file" ++ s) (of_send u v (print_ℕ n) joined)
      (send_file u v (pos n) addrs)
      (first-send s (match_send-fields u v n joined hu hv (join_commas-field addrs ha))) groups

parse_command-remove :
    (u : Bytes)
    → is_word u ≡ true
    → parse_command (codes "remove-uuid" ++ b' ' ∷ u) ≡ some (some (remove_uuid u))
unfolding request_of
parse_command-remove u h =
    parse_command-fields (codes "remove-uuid" ++ b' ' ∷ u) (of_remove u) (remove_uuid u)
      (first-remove (b' ' ∷ u) (match_remove-word u h)) refl

parse_command-addr : parse_command (print_command data_channel_addr) ≡ some (some data_channel_addr)
unfolding parse_command print_command match_command first_of strip_prefix_ci equal_ci to_upper
    match_end request_of
parse_command-addr = refl

-- What ETDProxy sends for a request that is_sendable is understood as that request: it is matched by the
-- regular expression of its command, and the mode, the numbers, the Uuids and the addresses in it are
-- read as they were given.
pub parse_command-print_command :
    (c : Command) → is_sendable c ≡ true → parse_command (print_command c) ≡ some (some c)
unfolding is_sendable print_command print_ℤ
parse_command-print_command (list_path path) h = parse_command-list path h
parse_command-print_command (write_file invalid path) h = absurd (ground (arith, h))
parse_command-print_command (write_file new path) h =
    parse_command-write new path (λ e. ground arith) h
parse_command-print_command (write_file over_write path) h =
    parse_command-write over_write path (λ e. ground arith) h
parse_command-print_command (write_file resume path) h =
    parse_command-write resume path (λ e. ground arith) h
parse_command-print_command (write_file read path) h =
    parse_command-write read path (λ e. ground arith) h
parse_command-print_command (write_file skip_existing path) h =
    parse_command-write skip_existing path (λ e. ground arith) h
parse_command-print_command (read_file (pos n) path) h =
    parse_command-read n path (ltb→lt n (2 ^ 63) (ground (arith, h))) (ground (arith, h))
parse_command-print_command (read_file (negsuc n) path) h = absurd (ground (arith, h))
parse_command-print_command (send_file u v (pos n) addrs) h =
    parse_command-send u v n addrs (ground (arith, h)) (ground (arith, h))
      (ltb→lt n (2 ^ 63) (ground (arith, h))) (ground (arith, h))
parse_command-print_command (send_file u v (negsuc n) addrs) h = absurd (ground (arith, h))
parse_command-print_command data_channel_addr h = parse_command-addr
parse_command-print_command (remove_uuid u) h = parse_command-remove u h
