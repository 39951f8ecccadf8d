-- ===== src/Command.antt =====
-- src/etdc_etdserver.cc: the commands of the line protocol: the line that each request of ETDProxy
-- sends, and the regular expressions of ETDServerWrapper::handle, which take it apart again.
pub mod Parts
pub mod Numbers
mod Addresses
mod Matches
pub mod RoundTrip
mod Tests
use etransfer.Common.{
  ℕ, zero, suc, ◌^◌, Bool, true, false, List, [], ◌∷◌, ◌++◌, Option, none, some, Bytes, codes,
  bytes_eq, not, ◌&&◌, ◌||◌, ltb, ◌==◌, if◌then◌else◌,
}
use etransfer.Common.Int.{ℤ, pos, negsuc}
use etransfer.Text.{is_space, is_digit, take_while, drop_while}
use etransfer.OpenMode.{OpenMode, print_mode, parse_mode}
use etransfer.DevZero.{stoull}
use etransfer.Exchange.{print_ℕ}
use etransfer.Proxy.{all_bytes, strip_prefix_ci, is_word, is_number, off_of}

-- What a line asks for. The addresses of send_file are the text between commas.
pub data Command : Type 0 where
  list_path : Bytes → Command
  write_file : OpenMode → Bytes → Command
  read_file : ℤ → Bytes → Command
  send_file : Bytes → Bytes → ℤ → List Bytes → Command
  data_channel_addr : Command
  remove_uuid : Bytes → Command

-- operator<< of an off_t
unfoldable pub print_ℤ : ℤ → Bytes
unfolding print_ℕ
print_ℤ (pos n) = print_ℕ n
print_ℤ (negsuc n) = b'-' ∷ print_ℕ (suc n)

-- `((p!=begin) ? "," : "") << *p` for each
unfoldable pub join_commas : List Bytes → Bytes
join_commas [] = []
join_commas (a ∷ []) = a
join_commas (a ∷ b ∷ rest) = a ++ b',' ∷ join_commas (b ∷ rest)

-- The line that a request of ETDProxy sends, without its newline.
unfoldable pub print_command : Command → Bytes
unfolding print_ℤ join_commas print_mode
print_command (list_path path) = codes "list " ++ path
print_command (write_file mode path) = codes "write-file-" ++ (print_mode mode ++ b' ' ∷ path)
print_command (read_file have path) = codes "read-file " ++ (print_ℤ have ++ b' ' ∷ path)
print_command (send_file u v todo addrs) =
    codes "send-file " ++ (u ++ b' ' ∷ (v ++ b' ' ∷ (print_ℤ todo ++ b' ' ∷ join_commas addrs)))
print_command data_channel_addr = codes "data-channel-addr"
print_command (remove_uuid u) = codes "remove-uuid " ++ u

-- "\s+": what stands behind the spaces, if there is one at least.
unfoldable pub after_spaces : Bytes → Option Bytes
unfolding is_space
after_spaces [] = none
after_spaces (c ∷ s) = if is_space c then some (drop_while is_space s) else none

-- A byte that a dot fits, which is no end of a line.
unfoldable pub is_dot : ℕ → Bool
is_dot c = not ((c == 10) || (c == 13))

-- "\s+(\S.*)$"
unfoldable pub rest_path : Bytes → Option Bytes
unfolding after_spaces is_dot all_bytes
rest_path s = elim (after_spaces s) [
  | none ↦ none
  | some r ↦ elim r [
    | [] ↦ none
    | c ∷ path ↦ if all_bytes is_dot path then some (c ∷ path) else none
  ]
]

-- "(\S+)" and "([0-9]+)", and what stands behind.
unfoldable pub next_field : (ℕ → Bool) → Bytes → Option (Bytes × Bytes)
next_field p s = elim (take_while p s) [ [] ↦ none | c ∷ word ↦ some (c ∷ word, drop_while p s) ]

abbrev pub not_space : ℕ → Bool
not_space c = not (is_space c)

-- Such a field behind "\s+".
unfoldable pub spaced_field : (ℕ → Bool) → Bytes → Option (Bytes × Bytes)
unfolding after_spaces next_field
spaced_field p s = elim (after_spaces s) [ none ↦ none | some r ↦ next_field p r ]

-- The matches of data_sep, "[^,]+".
unfoldable pub split_commas : Bytes → Bytes → List Bytes
split_commas [] [] = []
split_commas (c ∷ word) [] = (c ∷ word) ∷ []
split_commas word (c ∷ s) =
    let joined = split_commas (word ++ c ∷ []) s in
    let rest = split_commas [] s in
    if c == b',' then elim word [ [] ↦ rest | w ∷ ws ↦ (w ∷ ws) ∷ rest ] else joined

-- The groups of a match, as texts: a field that is a number is not read yet.
pub data Fields : Type 0 where
  of_list : Bytes → Fields
  of_write of_read : Bytes → Bytes → Fields
  of_send : Bytes → Bytes → Bytes → Bytes → Fields
  of_addr : Fields
  of_remove : Bytes → Fields

-- rxList, rxReqFileWrite, rxReqFileRead, rxSendFile, rxRemoveUUID behind the words that they start with.
unfoldable pub match_list : Bytes → Option Fields
unfolding rest_path
match_list s = elim (rest_path s) [ none ↦ none | some path ↦ some (of_list path) ]

unfoldable pub match_write : Bytes → Option Fields
unfolding next_field rest_path
match_write s = elim (next_field not_space s) [
  | none ↦ none
  | some (mode, r) ↦ elim (rest_path r) [ none ↦ none | some path ↦ some (of_write mode path) ]
]

unfoldable pub match_read : Bytes → Option Fields
unfolding spaced_field rest_path
match_read s = elim (spaced_field is_digit s) [
  | none ↦ none
  | some (have, r) ↦ elim (rest_path r) [ none ↦ none | some path ↦ some (of_read have path) ]
]

unfoldable pub match_send : Bytes → Option Fields
unfolding spaced_field
match_send s = elim (spaced_field not_space s) [
  | none ↦ none
  | some (u, r) ↦ elim (spaced_field not_space r) [
    | none ↦ none
    | some (v, r') ↦ elim (spaced_field is_digit r') [
      | none ↦ none
      | some (todo, r'') ↦ elim (spaced_field not_space r'') [
        | none ↦ none
        | some (addrs, end) ↦ if bytes_eq end [] then some (of_send u v todo addrs) else none
      ]
    ]
  ]
]

unfoldable pub match_remove : Bytes → Option Fields
unfolding after_spaces is_word
match_remove s = elim (after_spaces s) [
  | none ↦ none
  | some u ↦ if is_word u then some (of_remove u) else none
]

-- The chain of regex_match: the first that fits. Each expression starts with a word of its own.
unfoldable pub first_of : List (Bytes × (Bytes → Option Fields)) → Bytes → Option Fields
unfolding strip_prefix_ci
first_of [] line = none
first_of ((word, match) ∷ rest) line =
    let others = first_of rest line in
    elim (strip_prefix_ci word line) [
      | none ↦ others
      | some s ↦ elim (match s) [ none ↦ others | some f ↦ some f ]
    ]

unfoldable pub match_end : Bytes → Option Fields
match_end [] = some of_addr
match_end (c ∷ s) = none

unfoldable pub match_command : Bytes → Option Fields
unfolding first_of match_list match_write match_read match_send match_end match_remove
match_command = first_of (
    (codes "list", match_list)
    ∷ (codes "write-file-", match_write)
    ∷ (codes "read-file", match_read)
    ∷ (codes "send-file", match_send)
    ∷ (codes "data-channel-addr", match_end)
    ∷ (codes "remove-uuid", match_remove)
    ∷ [])

-- The request that the groups stand for; `none` if a number is out of the range of off_t, where
-- string2off_t throws.
unfoldable pub request_of : Fields → Option Command
unfolding parse_mode off_of split_commas
request_of (of_list path) = some (list_path path)
request_of (of_write mode path) = some (write_file (parse_mode mode) path)
request_of (of_read have path) = elim (off_of have) [
  | none ↦ none
  | some n ↦ some (read_file n path)
]
request_of (of_send u v todo addrs) = elim (off_of todo) [
  | none ↦ none
  | some n ↦ some (send_file u v n (split_commas [] addrs))
]
request_of of_addr = some data_channel_addr
request_of (of_remove u) = some (remove_uuid u)

-- A line as ETDServerWrapper::handle understands it: `none` if no expression fits, and the request, or
-- the failure of string2off_t.
unfoldable pub parse_command : Bytes → Option (Option Command)
unfolding match_command request_of
parse_command line = elim (match_command line) [ none ↦ none | some f ↦ some (request_of f) ]
