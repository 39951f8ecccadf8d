-- ===== src/Client/Refusals.antt =====
-- The client does nothing but list when the destination does not fit.
use etransfer.Common.{
  ◌≤◌, true, false, List, Bytes, Failure, ok, err, target_with_wildcards, nothing_matched,
  many_files_one_target, length, ltb, ltb→lt, ==_iff, ◌==◌, ◌||◌, ◌≡◌, ◌⊎◌, inl, inr, refl, arith,
  Bool-cases,
}
use etransfer.OpenMode.{OpenMode}
use etransfer.Server.{is_dev_null}
use etransfer.Url.{Url}
use etransfer.Client.{is_dir}
use etransfer.Client.Program.{
  Endpoint, has_wildcards, files_to_do, checked, listed, routed, route, copy_files,
}

-- The destination has wildcards, there is no file, or there are several for one file.
abbrev pub Unfit : Bytes → List Bytes → Type 0
Unfit dst_path files =
    (has_wildcards dst_path ≡ true)
    ⊎ ((length files ≡ 0)
        ⊎ ((2 ≤ length files) × ((is_dir dst_path || is_dev_null dst_path) ≡ false)))

fit_dir :
    (dst_path : Bytes) (files : List Bytes)
    → has_wildcards dst_path ≡ false
    → (length files == 0) ≡ false
    → (is_dir dst_path || is_dev_null dst_path) ≡ true
    → Unfit dst_path files
    → ⊥
fit_dir dst_path files w z d (inl h) = ground (arith, w, h)
fit_dir dst_path files w z d (inr (inl h)) = ground (arith, z, h)
fit_dir dst_path files w z d (inr (inr (several, h))) = ground (arith, d, h)

fit_one :
    (dst_path : Bytes) (files : List Bytes)
    → has_wildcards dst_path ≡ false
    → (length files == 0) ≡ false
    → ltb 1 (length files) ≡ false
    → Unfit dst_path files
    → ⊥
fit_one dst_path files w z one (inl h) = ground (arith, w, h)
fit_one dst_path files w z one (inr (inl h)) = ground (arith, z, h)
fit_one dst_path files w z one (inr (inr (several, h))) = ground (arith, one, several)

checked-cases :
    (dst_path : Bytes) (paths : List Bytes)
    → (Unfit dst_path (files_to_do paths) × ((e : Failure) × (checked dst_path paths ≡ err e)))
      ⊎ ((Unfit dst_path (files_to_do paths) → ⊥)
          × (checked dst_path paths ≡ ok (files_to_do paths)))
unfolding checked
checked-cases dst_path paths =
    let files = files_to_do paths in
    elim (Bool-cases (has_wildcards dst_path)) [
      | inl w ↦ inl (inl w, (target_with_wildcards, rw (w) refl))
      | inr w ↦ elim (Bool-cases (length files == 0)) [
        | inl z ↦ inl (inr (inl ((==_iff (length files) 0).0 z)), (nothing_matched, rw (w, z) refl))
        | inr z ↦ elim (Bool-cases (is_dir dst_path || is_dev_null dst_path)) [
          | inl d ↦
              let fits : checked dst_path paths ≡ ok files =
                elim (Bool-cases (ltb 1 (length files))) [
                  | inl several ↦ rw (w, z, several, d) refl
                  | inr several ↦ rw (w, z, several) refl
                ] in
              inr ((λ h. fit_dir dst_path files w z d h), fits)
          | inr d ↦ elim (Bool-cases (ltb 1 (length files))) [
            | inl several ↦ inl (
              inr (inr (ltb→lt 1 (length files) several, d)),
              (many_files_one_target, rw (w, z, several, d) refl),
            )
            | inr several ↦
                inr ((λ h. fit_one dst_path files w z several h), rw (w, z, several) refl)
          ]
        ]
      ]
    ]

-- When the source lists `paths`, the client fails and has called nothing but the listing if the
-- destination does not fit what of them is no directory: it has wildcards, there is no file, or there
-- are several for what is neither a directory nor /dev/null. If it fits, the client goes on with just
-- these files, from the state that the listing left.
pub copy_files_lem :
    {W : Type 0} (src_url dst_url : Url) (src dst : Endpoint W) (mode : OpenMode) (w w' : W)
    (paths : List Bytes)
    → src.list_path src_url.path false w ≡ (w', ok paths)
    → (Unfit dst_url.path (files_to_do paths)
        × ((e : Failure) × (copy_files src_url dst_url src dst mode w ≡ (w', err e))))
      ⊎ ((Unfit dst_url.path (files_to_do paths) → ⊥)
          × (copy_files src_url dst_url src dst mode w
              ≡ routed src_url dst_url src dst mode
                  (files_to_do paths)
                  (route src_url dst_url src dst w')))
unfolding copy_files listed
copy_files_lem src_url dst_url src dst mode w w' paths e = elim (checked-cases dst_url.path paths) [
  | inl (h, (f, c)) ↦ inl (h, (f, rw (e) (rw (listed, c) refl)))
  | inr (h, c) ↦ inr (h, rw (e) (rw (listed, c) refl))
]
