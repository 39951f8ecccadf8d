-- ===== src/Server/Exclusive.antt =====
-- The transfers of all servers together: nobody writes a file that another transfer uses.
use etransfer.Common.{
  ◌≡◌, refl, sym, Bool, true, false, List, [], ◌∷◌, Bytes, bytes_eq, bytes_eq→eq, Bool-cases, inl,
  inr, not, ◌&&◌, ◌||◌, arith,
}
use etransfer.State.{Transfer, insert, erase, find_path, set_locked}
use etransfer.Server.{is_read_mode, is_dev_null, path_present, may_read}

bytes_eq_sym : (xs ys : Bytes) → bytes_eq xs ys ≡ bytes_eq ys xs
bytes_eq_sym [] [] = refl
bytes_eq_sym [] (y ∷ ys) = refl
bytes_eq_sym (x ∷ xs) [] = refl
bytes_eq_sym (x ∷ xs) (y ∷ ys) = ground (arith, bytes_eq_sym xs ys)

module _ {W : Type 0} where
  -- Two transfers that can be there together: of other files, of /dev/null, or both reading.
  abbrev pub compatible : Transfer W → Transfer W → Bool
  compatible t u =
      not (bytes_eq t.path u.path)
      || is_dev_null t.path
      || (is_read_mode t.open_mode && is_read_mode u.open_mode)

  abbrev pub all_compatible : Transfer W → List (Bytes × Transfer W) → Bool
  all_compatible t [] = true
  all_compatible t ((k, u) ∷ ts) = compatible t u && all_compatible t ts

  -- No two transfers of the map are in each other's way.
  abbrev pub exclusive : List (Bytes × Transfer W) → Bool
  exclusive [] = true
  exclusive ((k, t) ∷ ts) = all_compatible t ts && exclusive ts

  compatible_sym : (t u : Transfer W) → compatible t u ≡ true → compatible u t ≡ true
  compatible_sym t u h = elim (Bool-cases (bytes_eq t.path u.path)) [
    | inl e ↦
        let same : t.path ≡ u.path = bytes_eq→eq t.path u.path e in
        ground (arith, same, bytes_eq_sym t.path u.path)
    | inr e ↦ ground (arith, e, bytes_eq_sym t.path u.path)
  ]

  all_compatible-insert :
      (uuid : Bytes) (t u : Transfer W) (ts : List (Bytes × Transfer W))
      → compatible t u ≡ true
      → all_compatible t ts ≡ true
      → all_compatible t (insert uuid u ts) ≡ true
  unfolding insert
  all_compatible-insert uuid t u [] h a = ground arith
  all_compatible-insert uuid t u ((k, v) ∷ ts) h a =
      ground (arith, all_compatible-insert uuid t u ts)

  pub exclusive-insert :
      (uuid : Bytes) (t : Transfer W) (ts : List (Bytes × Transfer W))
      → all_compatible t ts ≡ true
      → exclusive ts ≡ true
      → exclusive (insert uuid t ts) ≡ true
  unfolding insert
  exclusive-insert uuid t [] h x = refl
  exclusive-insert uuid t ((k, u) ∷ ts) h x =
      ground
        (arith, exclusive-insert uuid t ts, all_compatible-insert uuid u t ts, compatible_sym t u)

  all_compatible-erase :
      (uuid : Bytes) (t : Transfer W) (ts : List (Bytes × Transfer W))
      → all_compatible t ts ≡ true
      → all_compatible t (erase uuid ts) ≡ true
  unfolding erase
  all_compatible-erase uuid t [] h = refl
  all_compatible-erase uuid t ((k, u) ∷ ts) h = ground (arith, all_compatible-erase uuid t ts)

  pub exclusive-erase :
      (uuid : Bytes) (ts : List (Bytes × Transfer W))
      → exclusive ts ≡ true
      → exclusive (erase uuid ts) ≡ true
  unfolding erase
  exclusive-erase uuid [] h = refl
  exclusive-erase uuid ((k, t) ∷ ts) h =
      ground (arith, exclusive-erase uuid ts, all_compatible-erase uuid t ts)

  all_compatible-set_locked :
      (uuid : Bytes) (b : Bool) (t : Transfer W) (ts : List (Bytes × Transfer W))
      → all_compatible t ts ≡ true
      → all_compatible t (set_locked uuid b ts) ≡ true
  unfolding set_locked
  all_compatible-set_locked uuid b t [] h = refl
  all_compatible-set_locked uuid b t ((k, u) ∷ ts) h =
      ground (arith, all_compatible-set_locked uuid b t ts)

  pub exclusive-set_locked :
      (uuid : Bytes) (b : Bool) (ts : List (Bytes × Transfer W))
      → exclusive ts ≡ true
      → exclusive (set_locked uuid b ts) ≡ true
  unfolding set_locked
  exclusive-set_locked uuid b [] h = refl
  exclusive-set_locked uuid b ((k, t) ∷ ts) h =
      ground (arith, exclusive-set_locked uuid b ts, all_compatible-set_locked uuid b t ts)

  -- requestFileWrite may add what it adds.
  pub path_present-compatible :
      (t : Transfer W) (ts : List (Bytes × Transfer W))
      → path_present t.path ts ≡ false
      → all_compatible t ts ≡ true
  unfolding path_present find_path
  path_present-compatible t [] h = refl
  path_present-compatible t ((k, u) ∷ ts) h =
      ground (arith, path_present-compatible t ts, bytes_eq_sym t.path u.path)

  -- All that stands with a reader of a file reads it, if it uses that file.
  reader_compatible :
      (t u : Transfer W) (ts : List (Bytes × Transfer W))
      → is_read_mode t.open_mode ≡ true
      → t.path ≡ u.path
      → all_compatible u ts ≡ true
      → all_compatible t ts ≡ true
  reader_compatible t u [] r e h = refl
  reader_compatible t u ((k, v) ∷ ts) r e h = ground (arith, reader_compatible t u ts)

  -- requestFileRead may add what it adds.
  pub may_read-compatible :
      (t : Transfer W) (ts : List (Bytes × Transfer W))
      → is_read_mode t.open_mode ≡ true
      → exclusive ts ≡ true
      → may_read t.path ts ≡ true
      → all_compatible t ts ≡ true
  unfolding may_read find_path
  may_read-compatible t [] r x h = refl
  may_read-compatible t ((k, u) ∷ ts) r x h = elim (Bool-cases (bytes_eq u.path t.path)) [
    | inl e ↦ ground (arith, reader_compatible t u ts r (sym (bytes_eq→eq u.path t.path e)))
    | inr e ↦ ground (arith, may_read-compatible t ts, bytes_eq_sym t.path u.path)
  ]
