-- ===== src/OpenMode.antt =====
-- src/etdc_etd_state.h: openmode_type, its text form, and the flags for open(2) that it stands for;
-- src/etc.cc: the options by which the user of the client chooses one.
pub mod RoundTrip
mod Tests
use etransfer.Common.{
  ℕ, ◌≡◌, Bool, true, false, List, [], ◌∷◌, Option, none, some, Bytes, codes, if◌then◌else◌,
}
use etransfer.Text.{stricmp, next_word}

-- `invalid` is static_cast<openmode_type>(-1).
pub data OpenMode : Type 0 where
  new over_write resume read skip_existing invalid : OpenMode

-- The access bits, with the values of Linux.
abbrev pub o_rdonly : ℕ
o_rdonly = 0

abbrev pub o_wronly : ℕ
o_wronly = 1

abbrev pub o_rdwr : ℕ
o_rdwr = 2

-- The second argument of open(2), by its bits. `access` is O_RDONLY or O_WRONLY, as a number.
pub record OpenFlags : Type 0 where
  pub access : ℕ
  pub creat : Bool
  pub excl : Bool
  pub trunc : Bool
  pub append : Bool

-- The value of the enumerator; that of SkipExisting is complemented by its users. The value -1 of
-- `invalid` is asserted away before it is used as a flag.
unfoldable pub open_flags : OpenMode → OpenFlags
open_flags new = record {
  access = o_wronly;
  creat = true;
  excl = true;
  trunc = false;
  append = false;
}
open_flags over_write = record {
  access = o_wronly;
  creat = true;
  excl = false;
  trunc = true;
  append = false;
}
open_flags resume = record {
  access = o_wronly;
  creat = true;
  excl = false;
  trunc = false;
  append = true;
}
open_flags skip_existing = record {
  access = o_wronly;
  creat = true;
  excl = false;
  trunc = false;
  append = true;
}
open_flags read = record {
  access = o_rdonly;
  creat = false;
  excl = false;
  trunc = false;
  append = false;
}
open_flags invalid = record {
  access = o_wronly;
  creat = true;
  excl = true;
  trunc = true;
  append = true;
}

-- om2string, in any order: no two names are alike.
abbrev pub om2string : List (OpenMode × Bytes)
om2string =
    (new, codes "New")
    ∷ (over_write, codes "OverWrite")
    ∷ (resume, codes "Resume")
    ∷ (read, codes "Read")
    ∷ (skip_existing, codes "SkipExisting")
    ∷ []

-- operator<<
unfoldable pub print_mode : OpenMode → Bytes
print_mode new = codes "New"
print_mode over_write = codes "OverWrite"
print_mode resume = codes "Resume"
print_mode read = codes "Read"
print_mode skip_existing = codes "SkipExisting"
print_mode invalid = codes "<invalid openmode_type>"

-- std::find_if in om2string
unfoldable pub find_mode : Bytes → List (OpenMode × Bytes) → OpenMode
find_mode s [] = invalid
find_mode s ((m, name) ∷ rest) = if stricmp s name then m else find_mode s rest

-- operator>>
unfoldable pub parse_mode : Bytes → OpenMode
unfolding find_mode
parse_mode s = find_mode (next_word s) om2string

-- The options of the client that set `mode`.
pub data ModeOption : Type 0 where
  overwrite_option resume_option skipexisting_option : ModeOption
  mode_option : Bytes → ModeOption

-- The mode that a command line with at most one of the options asks for; `none` if the parser of
-- the command line refuses the value of --mode.
unfoldable pub chosen_mode : Option ModeOption → Option OpenMode
unfolding parse_mode
chosen_mode none = some new
chosen_mode (some overwrite_option) = some over_write
chosen_mode (some resume_option) = some resume
chosen_mode (some skipexisting_option) = some resume
chosen_mode (some (mode_option s)) = elim (parse_mode s) [
  | read ↦ none
  | invalid ↦ none
  | m ↦ some m
]
