-- ===== src/Path.antt =====
-- src/etdc_fd.cc, namespace etdc::detail: normalize_path, dirname and basename. Each std::regex_replace
-- is the scan that its expression asks for: leftmost matches, not overlapping, one after another.
mod Loop
mod Slashes
mod Tidy
mod Names
mod Tests
use etransfer.Common.{
  ℕ, zero, suc, ◌+◌, Bool, true, false, [], ◌∷◌, Option, none, some, Bytes, codes, ◌&&◌, ◌||◌, not,
  length, bytes_eq, ◌==◌, if◌then◌else◌,
}
use etransfer.Text.{take_while, drop_while}
use mathlib.Core.List.{reverse}

abbrev pub slash : ℕ
slash = b'/'

abbrev pub dot : ℕ
dot = b'.'

unfoldable pub is_slash : ℕ → Bool
is_slash c = c == slash

unfoldable pub not_slash : ℕ → Bool
not_slash c = not (c == slash)

-- "(/+)" by "/". The flag: the byte before was a slash.
unfoldable pub squeeze : Bool → Bytes → Bytes
squeeze after [] = []
squeeze after (c ∷ s) = elim (c == slash) [
  | true ↦ elim after [ true ↦ squeeze true s | false ↦ slash ∷ squeeze true s ]
  | false ↦ c ∷ squeeze false s
]

-- "(/\.(/|$))" by "/"
unfoldable pub undot : Bytes → Bytes
undot [] = []
undot (a ∷ []) = a ∷ []
undot (a ∷ b ∷ []) = if (a == slash) && (b == dot) then slash ∷ [] else a ∷ b ∷ []
undot (a ∷ b ∷ c ∷ s) = elim ((a == slash) && ((b == dot) && (c == slash))) [
  | true ↦ slash ∷ undot s
  | false ↦ a ∷ undot (b ∷ c ∷ s)
]

-- Whether the text goes on with `/../`, `../` or `..`.
unfoldable pub slash_up_slash : Bytes → Bool
slash_up_slash (a ∷ b ∷ c ∷ d ∷ s) = (a == slash) && ((b == dot) && ((c == dot) && (d == slash)))
slash_up_slash _ = false

unfoldable pub starts_up : Bytes → Bool
starts_up (a ∷ b ∷ s) = (a == dot) && (b == dot)
starts_up _ = false

-- The number of bytes that "(?!\.\.)[^/]+/\.\./" matches at the front.
unfoldable pub parent_match : Bytes → Option ℕ
unfolding starts_up slash_up_slash not_slash
parent_match s =
    if starts_up s || bytes_eq (take_while not_slash s) []
    then none
    else if slash_up_slash (drop_while not_slash s)
    then some (length (take_while not_slash s) + 4)
    else none

-- "(/(?!\.\.)[^/]+/\.\./)" by "/". The number: bytes of the last match that are still to be passed.
unfoldable pub unparent : ℕ → Bytes → Bytes
unparent skip [] = []
unparent (suc skip) (c ∷ s) = unparent skip s
unparent zero (c ∷ s) = elim (c == slash) [
  | true ↦ elim (parent_match s) [ some k ↦ slash ∷ unparent k s | none ↦ c ∷ unparent zero s ]
  | false ↦ c ∷ unparent zero s
]

-- `while( !done )`: until a pass changes nothing.
unfoldable pub unparent_loop : ℕ → Bytes → Bytes
unparent_loop zero s = s
unparent_loop (suc fuel) s = elim (bytes_eq (unparent zero s) s) [
  | true ↦ s
  | false ↦ unparent_loop fuel (unparent zero s)
]

-- "((\.\./)*)" at the front by nothing
unfoldable pub strip_ups : Bytes → Bytes
strip_ups (a ∷ b ∷ c ∷ s) = elim ((a == dot) && ((b == dot) && (c == slash))) [
  | true ↦ strip_ups s
  | false ↦ a ∷ b ∷ c ∷ s
]
strip_ups s = s

-- "^/((\.\./)*)" by "/"
unfoldable pub unroot : Bytes → Bytes
unfolding strip_ups
unroot [] = []
unroot (c ∷ s) = if c == slash then slash ∷ strip_ups s else c ∷ s

-- "/\.\./$" by "/.."
unfoldable pub untrail : Bytes → Bytes
untrail [] = []
untrail (c ∷ s) = if bytes_eq (c ∷ s) (codes "/../") then codes "/.." else c ∷ untrail s

unfoldable pub or_dot : Bytes → Bytes
or_dot [] = dot ∷ []
or_dot (c ∷ s) = c ∷ s

-- The loop is given one round for each byte.
unfoldable pub normalize_path : Bytes → Bytes
unfolding squeeze undot parent_match unparent unparent_loop unroot untrail or_dot
normalize_path p =
    let single = undot (squeeze false p) in
    or_dot (untrail (unroot (unparent_loop (length single) single)))

-- substr(0, i + 1), where i is the position of the last slash; `none` if there is none.
unfoldable pub up_to_last_slash : Bytes → Option Bytes
up_to_last_slash [] = none
up_to_last_slash (c ∷ s) = elim (up_to_last_slash s) [
  | some t ↦ some (c ∷ t)
  | none ↦ if c == slash then some (slash ∷ []) else none
]

-- The text up to and with the last byte that is no slash, and one slash behind it if that is all:
-- the text in which rfind('/', epos) looks.
unfoldable pub without_trailing : Bytes → Bytes
unfolding is_slash
without_trailing s = elim (drop_while is_slash (reverse s)) [
  | [] ↦ slash ∷ []
  | c ∷ r ↦ reverse (c ∷ r)
]

unfoldable pub is_special : Bytes → Bool
is_special p = bytes_eq p (codes "/") || (bytes_eq p (codes ".") || bytes_eq p (codes ".."))

unfoldable pub has_slash : Bytes → Bool
has_slash [] = false
has_slash (c ∷ s) = (c == slash) || has_slash s

unfoldable pub dirname : Bytes → Bytes
unfolding is_special has_slash without_trailing up_to_last_slash
dirname p =
    if is_special p
    then p
    else if not (has_slash p)
    then codes "."
    else elim (up_to_last_slash (without_trailing p)) [ none ↦ codes "." | some t ↦ t ]

-- "^\\+$" of std::regex: backslashes only
unfoldable pub all_backslash : Bytes → Bool
all_backslash [] = true
all_backslash (c ∷ s) = (c == b'\\') && all_backslash s

-- `none` is a read in front of the text, which C++ leaves undefined.
unfoldable pub basename : Bytes → Option Bytes
unfolding is_special all_backslash is_slash not_slash
basename p = if is_special p then some p else elim p [
  | [] ↦ some (codes ".")
  | b ∷ q ↦
      if all_backslash (b ∷ q)
      then some (codes "/")
      else elim (drop_while is_slash (reverse (b ∷ q))) [
        | [] ↦ none
        | c ∷ r ↦ some (reverse (take_while not_slash (c ∷ r)))
      ]
]
