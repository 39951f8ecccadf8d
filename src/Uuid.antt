-- ===== src/Uuid.antt =====
-- src/etdc_uuid.h: how a new uuid is made, as a function of the random numbers that it draws.
mod Alphabet
mod Tests
use etransfer.Common.{ℕ, zero, suc, List, [], ◌∷◌, Bytes, codes, length}

-- __m_chars
abbrev pub uuid_chars : Bytes
uuid_chars = codes "abcdefghijklmnopqrstuvwxyzABCDEFGHIJKLMNOPQRSTUVWXYZ012345679"

-- operator[] of std::string: behind the last byte stands a NUL.
unfoldable pub char_at : Bytes → ℕ → ℕ
char_at [] i = 0
char_at (c ∷ s) zero = c
char_at (c ∷ s) (suc i) = char_at s i

-- uuid_type::mk: __m_sizegen gives how many numbers are drawn, 15 to 20, and __m_uniform_chars draws
-- each from 0 to __m_chars.size(), both included.
unfoldable pub mk_uuid : List ℕ → Bytes
unfolding char_at
mk_uuid [] = []
mk_uuid (i ∷ is) = char_at uuid_chars i ∷ mk_uuid is
