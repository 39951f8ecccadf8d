-- ===== src/OpenMode/Tests.antt =====
-- Modes as a client and a server name them.
use etransfer.Common.{◌≡◌, refl, Bytes, codes, some}
use etransfer.Text.{next_word, stricmp}
use etransfer.OpenMode.{skip_existing, over_write, invalid, parse_mode, mode_option, chosen_mode}
use etransfer.OpenMode.RoundTrip.{skip_existing_only_by_mode}

abbrev asked : Bytes
asked = codes " oVERwrite now"

parse_asked : parse_mode asked ≡ over_write
unfolding parse_mode next_word stricmp
parse_asked = refl

parse_unknown : parse_mode (codes "Append") ≡ invalid
unfolding parse_mode next_word stricmp
parse_unknown = refl

skip_existing_only_by_mode_example :
    (s : Bytes) × (some (mode_option (codes "skipexisting")) ≡ some (mode_option s))
    × (parse_mode s ≡ skip_existing)
unfolding chosen_mode parse_mode next_word stricmp
skip_existing_only_by_mode_example =
    skip_existing_only_by_mode (some (mode_option (codes "skipexisting"))) refl
