-- ===== src/State/Map.antt =====
-- The map of transfers: what is found after an insertion and after a removal.
use etransfer.Common.{
  ◌≡◌, ◌≢◌, refl, true, false, List, [], ◌∷◌, some, Bytes, bytes_eq, bytes_eq→eq, bytes_eq_refl,
  bytes_lt, Bool-cases, inl, inr, arith,
}
use etransfer.State.{Transfer, find_uuid, insert, erase}

pub bytes_eq-false : (xs ys : Bytes) → xs ≢ ys → bytes_eq xs ys ≡ false
bytes_eq-false xs ys h = elim (Bool-cases (bytes_eq xs ys)) [
  | inl e ↦ absurd (h (bytes_eq→eq xs ys e))
  | inr e ↦ e
]

bytes_lt-differs : (xs ys : Bytes) → bytes_lt xs ys ≡ true → bytes_eq xs ys ≡ false
bytes_lt-differs [] [] h = ground arith
bytes_lt-differs [] (y ∷ ys) h = refl
bytes_lt-differs (x ∷ xs) [] h = refl
bytes_lt-differs (x ∷ xs) (y ∷ ys) h = ground (arith, bytes_lt-differs xs ys)

module _ {W : Type 0} where
  -- A transfer that was put under a uuid is found there.
  pub find_uuid-insert :
      (uuid : Bytes) (t : Transfer W) (ts : List (Bytes × Transfer W))
      → find_uuid uuid (insert uuid t ts) ≡ some t
  unfolding find_uuid insert
  find_uuid-insert uuid t [] = rw (bytes_eq_refl uuid) refl
  find_uuid-insert uuid t ((k, u) ∷ ts) = elim (Bool-cases (bytes_lt k uuid)) [
    | inl e ↦ rw (e, bytes_lt-differs k uuid e) (find_uuid-insert uuid t ts)
    | inr e ↦ rw (e, bytes_eq_refl uuid) refl
  ]

  -- The others are found as before.
  pub find_uuid-insert_other :
      (other uuid : Bytes) (t : Transfer W) (ts : List (Bytes × Transfer W))
      → bytes_eq uuid other ≡ false
      → find_uuid other (insert uuid t ts) ≡ find_uuid other ts
  unfolding find_uuid insert
  find_uuid-insert_other other uuid t [] h = rw h refl
  find_uuid-insert_other other uuid t ((k, u) ∷ ts) h = elim (Bool-cases (bytes_lt k uuid)) [
    | inl e ↦ elim (Bool-cases (bytes_eq k other)) [
      | inl same ↦ rw (e, same) refl
      | inr differs ↦ rw (e, differs) (find_uuid-insert_other other uuid t ts h)
    ]
    | inr e ↦ rw (e, h) refl
  ]

  -- What was put under a free uuid can be taken away again.
  pub erase-insert :
      (uuid : Bytes) (t : Transfer W) (ts : List (Bytes × Transfer W))
      → erase uuid (insert uuid t ts) ≡ ts
  unfolding find_uuid insert erase
  erase-insert uuid t [] = rw (bytes_eq_refl uuid) refl
  erase-insert uuid t ((k, u) ∷ ts) = elim (Bool-cases (bytes_lt k uuid)) [
    | inl e ↦ rw (e, bytes_lt-differs k uuid e, erase-insert uuid t ts) refl
    | inr e ↦ rw (e, bytes_eq_refl uuid) refl
  ]
