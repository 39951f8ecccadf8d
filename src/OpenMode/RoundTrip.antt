-- ===== src/OpenMode/RoundTrip.antt =====
-- The text form of a mode, written and read, and the modes that the client's options can choose.
use etransfer.Common.{◌≡◌, ◌≢◌, refl, Bytes, Option, none, some, true, arith}
use etransfer.Text.{next_word, stricmp}
use etransfer.OpenMode.{
  OpenMode, new, over_write, resume, read, skip_existing, invalid, print_mode, parse_mode,
  ModeOption, overwrite_option, resume_option, skipexisting_option, mode_option, chosen_mode,
}

-- The name that is written for a mode is read as that mode, if it is one of the five.
pub parse_mode-print_mode : (m : OpenMode) → m ≢ invalid → parse_mode (print_mode m) ≡ m
unfolding parse_mode print_mode next_word stricmp
parse_mode-print_mode new h = refl
parse_mode-print_mode over_write h = refl
parse_mode-print_mode resume h = refl
parse_mode-print_mode read h = refl
parse_mode-print_mode skip_existing h = refl
parse_mode-print_mode invalid h = absurd (h refl)

-- A text is read as one of the five modes only if its first word is the name of that mode, but for
-- upper and lower case.
pub parse_mode_sound :
    (s : Bytes) → parse_mode s ≢ invalid → stricmp (next_word s) (print_mode (parse_mode s)) ≡ true
unfolding parse_mode print_mode
parse_mode_sound s h = ground arith

-- Of the options of the client only --mode chooses SkipExisting: --skipexisting does not.
pub skip_existing_only_by_mode :
    (o : Option ModeOption)
    → chosen_mode o ≡ some skip_existing
    → (s : Bytes) × (o ≡ some (mode_option s)) × (parse_mode s ≡ skip_existing)
unfolding chosen_mode
skip_existing_only_by_mode none h = absurd (ground arith)
skip_existing_only_by_mode (some overwrite_option) h = absurd (ground arith)
skip_existing_only_by_mode (some resume_option) h = absurd (ground arith)
skip_existing_only_by_mode (some skipexisting_option) h = absurd (ground arith)
skip_existing_only_by_mode (some (mode_option s)) h = (s, refl, ground arith)
