-- ===== src/Wire.antt =====
-- src/etdc_etdserver.cc: the line protocol between ETDServerWrapper and ETDProxy: lines, replies, and
-- what the two make of a list of paths.
pub mod Lines
pub mod Listing
pub mod Prefix
mod Tests
use etransfer.Common.{
  ℕ, zero, suc, ◌+◌, Bool, true, false, List, [], ◌∷◌, ◌++◌, Option, none, some, Bytes, codes,
  Result, ok, err, map_ok, invalid_reply, changed_mind, refused, unprocessed_lines, map, bytes_eq,
  not, ◌==◌, ◌&&◌, ◌||◌, if◌then◌else◌,
}
use etransfer.Text.{is_space, equal_ci, drop_while}
use etransfer.DevZero.{strip_prefix}

-- [\r\n]
unfoldable pub is_newline : ℕ → Bool
is_newline c = (c == 10) || (c == 13)

-- getReplies from `pos` on, with the line so far; `after` tells whether the byte before is of a match
-- that newlines go on. The lines, and the position behind the last match.
unfoldable pub scan_lines : ℕ → ℕ → Bool → Bytes → Bytes → List Bytes × ℕ
unfolding is_newline
scan_lines pos end after line [] = ([], end)
scan_lines pos end after line (c ∷ s) =
    let joined = scan_lines (suc pos) end false (line ++ c ∷ []) s in
    let blank = scan_lines (suc pos) (if after then suc pos else end) after [] s in
    let ended = scan_lines (suc pos) (suc pos) true [] s in
    elim (is_newline c) [
      | false ↦ joined
      | true ↦ elim line [ [] ↦ blank | l ∷ ls ↦ ((l ∷ ls) ∷ ended.0, ended.1) ]
    ]

unfoldable pub get_replies : Bytes → List Bytes × ℕ
unfolding scan_lines
get_replies s = scan_lines 0 0 false [] s

-- "(\s+(\S.*)?)?$" behind the status: the third group.
unfoldable pub reply_info : Bytes → Option Bytes
unfolding is_space
reply_info [] = some []
reply_info (c ∷ s) = if is_space c then some (drop_while is_space s) else none

-- A match of rxReply: the status as it is written, and the text behind it.
unfoldable pub match_reply : Bytes → Option (Bytes × Bytes)
unfolding reply_info equal_ci
match_reply (a ∷ b ∷ s) =
    let with_info : Bytes → Bytes → Option (Bytes × Bytes) =
      λ status rest. elim (reply_info rest) [ none ↦ none | some info ↦ some (status, info) ] in
    if equal_ci (a ∷ b ∷ []) (codes "OK") then with_info (a ∷ b ∷ []) s else elim s [
      | [] ↦ none
      | c ∷ rest ↦
          if equal_ci (a ∷ b ∷ c ∷ []) (codes "ERR") then with_info (a ∷ b ∷ c ∷ []) rest else none
    ]
match_reply _ = none

-- The `for` over the lines of one read, which each request of ETDProxy has: `step` takes one line, and
-- tells whether it was the last of the reply. A line behind that one is an error.
unfoldable pub reply_lines {ℓ} :
    {S : Type ℓ} → (S → Bytes → Result (Bool × S)) → S → List Bytes → Result (Bool × S)
reply_lines step s [] = ok (false, s)
reply_lines step s (line ∷ lines) = elim (step s line) [
  | err e ↦ err e
  | ok (false, s') ↦ reply_lines step s' lines
  | ok (true, s') ↦ elim lines [ [] ↦ ok (true, s') | _ ∷ _ ↦ err unprocessed_lines ]
]

-- `state` and `rv` of ETDProxy::listPath
pub record Listed : Type 0 where
  pub state : Bytes
  pub paths : List Bytes

-- The body of that loop in ETDProxy::listPath. The single OK ends the reply.
unfoldable pub list_step : Listed → Bytes → Result (Bool × Listed)
unfolding match_reply
list_step s line = elim (match_reply line) [
  | none ↦ err invalid_reply
  | some (status, info) ↦
      if not (bytes_eq s.state [] || (bytes_eq s.state (codes "OK") && bytes_eq status s.state))
      then err changed_mind
      else if bytes_eq status (codes "ERR")
      then err refused
      else if bytes_eq status (codes "OK") && bytes_eq info []
      then ok (true, record s { state = status })
      else ok (false, record { state = status; paths = s.paths ++ info ∷ [] })
]

-- The replies of ETDServerWrapper::handle to a list command, and how they are written.
unfoldable pub list_replies : List Bytes → List Bytes
list_replies [] = codes "OK" ∷ []
list_replies (entry ∷ entries) = (codes "OK " ++ entry) ∷ list_replies entries

unfoldable pub send_replies : List Bytes → Bytes
send_replies [] = []
send_replies (r ∷ rs) = r ++ 10 ∷ send_replies rs
