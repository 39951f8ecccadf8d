-- ===== src/Uuid/Tests.antt =====
-- Uuids from given random numbers.
use etransfer.Common.{◌≡◌, refl, [], ◌∷◌, length}
use etransfer.Uuid.{uuid_chars, mk_uuid}
use etransfer.Uuid.Alphabet.{all_alphanumeric, all_below, mk_uuid_iff}

no_eight : length uuid_chars ≡ 61
no_eight = refl

with_nul : mk_uuid (0 ∷ 61 ∷ []) ≡ b'a' ∷ 0 ∷ []
unfolding mk_uuid
with_nul = refl

mk_uuid_iff_example :
    all_alphanumeric (mk_uuid (0 ∷ 61 ∷ [])) ≡ all_below (length uuid_chars) (0 ∷ 61 ∷ [])
mk_uuid_iff_example = mk_uuid_iff (0 ∷ 61 ∷ [])
