-- ===== src/Client/Cleanup.antt =====
-- The client leaves no transfer behind, unless a request or a removal throws.
use etransfer.Common.{
  ℕ, zero, suc, Bool, List, [], ◌∷◌, Option, none, some, Bytes, Result, ok, err, ◌≡◌, ◌∙◌,
  Bool-cases, Result-cases, Failure, refl, ◌⊎◌, subst, inl, inr,
}
use etransfer.Common.Int.{ℤ, pos, negsuc}
use etransfer.OpenMode.{OpenMode}
use etransfer.Client.{
  ServerInterface, is_dir, output_path, to_be_read, remove_result, src_removed, dst_removed,
  clean_up, moved, src_ready, dst_ready, transfer_file, visit, transfer_files,
}

-- What a request, a removal and a move do to `mine`, the uuid of the transfer that the server called
-- holds, and to `other`, that of the other server. Of a call that throws it is only known that it leaves
-- the other server alone.
module _ {W : Type 0} (mine other : W → Option Bytes) where
  abbrev pub Requests : W → W × Result (Bytes × ℤ) → Type 0
  Requests w (w', err e) = other w' ≡ other w
  Requests w (w', ok (u, size)) = (mine w' ≡ some u) × (other w' ≡ other w)

  abbrev pub Frees : W → W × Result Bool → Type 0
  Frees w (w', err e) = other w' ≡ other w
  Frees w (w', ok b) = (mine w' ≡ none) × (other w' ≡ other w)

-- The call of a server that threw the exception with which the client ends, and what it may have left: a
-- request or a removal at one server leaves none at the other, but that the transfer at the source stays
-- if the removal at the destination throws.
pub data IsLeft {W : Type 0} (src dst : ServerInterface W) (at_src at_dst : W → Option Bytes)
    (w : W) (e : Failure) : Type 0 where
  by_write :
      (path : Bytes) (mode : OpenMode) (before : W)
      → dst.request_write path mode before ≡ (w, err e)
      → at_src w ≡ none
      → IsLeft src dst at_src at_dst w e
  by_read :
      (path : Bytes) (have : ℤ) (before left : W)
      → src.request_read path have before ≡ (left, err e)
      → at_dst w ≡ none
      → at_src w ≡ at_src left
      → IsLeft src dst at_src at_dst w e
  by_dst_removal :
      (u : Bytes) (before : W)
      → dst.remove u before ≡ (w, err e)
      → at_src w ≡ at_src before
      → IsLeft src dst at_src at_dst w e
  by_src_removal :
      (u : Bytes) (before : W)
      → src.remove u before ≡ (w, err e)
      → at_dst w ≡ none
      → IsLeft src dst at_src at_dst w e

-- Two servers, each with a place for one transfer: the one given up by a removal that names it and
-- returns.
pub record Ledger {W : Type 0} (src dst : ServerInterface W)
    (move : Bytes → Bytes → ℕ → W → W × Result Bool) : Type 0 where
  pub at_src : W → Option Bytes
  pub at_dst : W → Option Bytes
  pub writes :
      (path : Bytes) (mode : OpenMode) (w : W)
      → Requests at_dst at_src w (dst.request_write path mode w)
  pub reads :
      (path : Bytes) (have : ℤ) (w : W) → Requests at_src at_dst w (src.request_read path have w)
  pub frees_dst : (u : Bytes) (w : W) → at_dst w ≡ some u → Frees at_dst at_src w (dst.remove u w)
  pub frees_src : (u : Bytes) (w : W) → at_src w ≡ some u → Frees at_src at_dst w (src.remove u w)
  pub moves :
      (u v : Bytes) (n : ℕ) (w : W)
      → (at_dst (move v u n w).0 ≡ at_dst w) × (at_src (move v u n w).0 ≡ at_src w)

module _ {W : Type 0} {src dst : ServerInterface W} {move : Bytes → Bytes → ℕ → W → W × Result Bool}
    (l : Ledger src dst move) where
  open l use {at_src, at_dst}

  -- Neither server holds a transfer.
  abbrev pub Idle : W → Type 0
  Idle w = (at_dst w ≡ none) × (at_src w ≡ none)

  -- So it is at the end, unless a request or a removal threw the exception that ends the client.
  abbrev pub Ends : W × Result (Unit {0}) → Type 0
  Ends (w, ok _) = Idle w
  Ends (w, err e) = Idle w ⊎ IsLeft src dst at_src at_dst w e

  idle-Ends : (w : W) (r : Result (Unit {0})) → Idle w → Ends (w, r)
  idle-Ends w (ok _) h = h
  idle-Ends w (err e) h = inl h

  src_removed-Ends :
      (s : Option Bytes) (r : Result (Unit {0})) (w : W)
      → at_dst w ≡ none
      → at_src w ≡ s
      → Ends (src_removed r (remove_result src s w))
  unfolding remove_result src_removed
  src_removed-Ends none r w hd hs = idle-Ends w r (hd, hs)
  src_removed-Ends (some v) r w hd hs = freed (src.remove v w) refl (l.frees_src v w hs)
    where
      freed :
          (o : W × Result Bool)
          → src.remove v w ≡ o
          → Frees at_src at_dst w o
          → Ends (src_removed r o)
      freed (w', err e) q f = inr (by_src_removal v w q (f ∙ hd))
      freed (w', ok b) q f = idle-Ends w' r (f.1 ∙ hd, f.0)

  clean_up-Ends :
      (d s : Option Bytes) (r : Result (Unit {0})) (w : W)
      → at_dst w ≡ d
      → at_src w ≡ s
      → Ends (clean_up src dst d s r w)
  unfolding clean_up remove_result dst_removed
  clean_up-Ends none s r w hd hs = src_removed-Ends s r w hd hs
  clean_up-Ends (some u) s r w hd hs = freed (dst.remove u w) refl (l.frees_dst u w hd)
    where
      freed :
          (o : W × Result Bool)
          → dst.remove u w ≡ o
          → Frees at_dst at_src w o
          → Ends (dst_removed src dst s r o)
      freed (w', err e) q f = inr (by_dst_removal u w q f)
      freed (w', ok b) q f = src_removed-Ends s r w' f.0 (f.1 ∙ hs)

  moved-Ends :
      (u v : Bytes) (o : W × Result Bool)
      → at_dst o.0 ≡ some u
      → at_src o.0 ≡ some v
      → Ends (moved src dst move u v o)
  unfolding moved
  moved-Ends u v (w, err e) hd hs = clean_up-Ends (some u) (some v) (err e) w hd hs
  moved-Ends u v (w, ok b) hd hs = clean_up-Ends (some u) (some v) (ok tt) w hd hs

  -- The request to the source threw: the transfer at the destination is removed.
  read_threw-Ends :
      (u file : Bytes) (have : ℤ) (e : Failure) (w left : W)
      → src.request_read file have w ≡ (left, err e)
      → at_dst left ≡ some u
      → Ends (clean_up src dst (some u) none (err e) left)
  unfolding clean_up remove_result dst_removed src_removed
  read_threw-Ends u file have e w left q hd = freed (dst.remove u left) refl (l.frees_dst u left hd)
    where
      freed :
          (o : W × Result Bool)
          → dst.remove u left ≡ o
          → Frees at_dst at_src left o
          → Ends (dst_removed src dst none (err e) o)
      freed (w', err e') q' f = inr (by_dst_removal u left q' f)
      freed (w', ok b) q' f = inr (by_read file have w left q f.0 f.1)

  src_ready-Ends :
      (u file : Bytes) (have : ℤ) (w : W) (o : W × Result (Bytes × ℤ))
      → src.request_read file have w ≡ o
      → at_dst w ≡ some u
      → Requests at_src at_dst w o
      → Ends (src_ready src dst move u o)
  unfolding src_ready
  src_ready-Ends u file have w (w', err e) eq hd q = read_threw-Ends u file have e w w' eq (q ∙ hd)
  src_ready-Ends u file have w (w', ok (v, pos zero)) eq hd q =
      clean_up-Ends (some u) (some v) (ok tt) w' (q.1 ∙ hd) q.0
  src_ready-Ends u file have w (w', ok (v, negsuc n)) eq hd q =
      clean_up-Ends (some u) (some v) (ok tt) w' (q.1 ∙ hd) q.0
  src_ready-Ends u file have w (w', ok (v, pos (suc n))) eq hd q =
      let (kd, ks) = l.moves u v (suc n) w' in
      moved-Ends u v (move v u (suc n) w') (kd ∙ (q.1 ∙ hd)) (ks ∙ q.0)

  dst_ready-Ends :
      (out file : Bytes) (mode : OpenMode) (w : W) (o : W × Result (Bytes × ℤ))
      → dst.request_write out mode w ≡ o
      → Idle w
      → Requests at_dst at_src w o
      → Ends (dst_ready src dst move file mode o)
  unfolding dst_ready clean_up remove_result dst_removed src_removed
  dst_ready-Ends out file mode w (w', err e) eq (hd, hs) q = inr (by_write out mode w eq (q ∙ hs))
  dst_ready-Ends out file mode w (w', ok (u, have)) eq (hd, hs) q =
      elim (Bool-cases (to_be_read mode have)) [
        | inl t ↦
            rw (dst_ready, t)
              (src_ready-Ends u file have w' (src.request_read file have w') refl q.0
                (l.reads file have w'))
        | inr t ↦ rw (dst_ready, t) (clean_up-Ends (some u) none (ok tt) w' q.0 (q.1 ∙ hs))
      ]

  transfer_file-Ends :
      (dst_path : Bytes) (mode : OpenMode) (file : Bytes) (w : W)
      → Idle w
      → Ends (transfer_file src dst move dst_path mode file w)
  unfolding transfer_file
  transfer_file-Ends dst_path mode file w h = elim (Result-cases (output_path dst_path file)) [
    | inl (e, q) ↦ rw (transfer_file, q) (clean_up-Ends none none (err e) w h.0 h.1)
    | inr (out, q) ↦
        rw (transfer_file, q)
          (dst_ready-Ends out file mode w (dst.request_write out mode w) refl h
            (l.writes out mode w))
  ]

  visit-Ends :
      (dst_path : Bytes) (mode : OpenMode) (file : Bytes) (w : W)
      → Idle w
      → Ends (visit src dst move dst_path mode file w)
  unfolding visit
  visit-Ends dst_path mode file w h = elim (Bool-cases (is_dir file)) [
    | inl d ↦ rw (visit, d) h
    | inr d ↦ rw (visit, d) (transfer_file-Ends dst_path mode file w h)
  ]

  transfer_files-Ends :
      (dst_path : Bytes) (mode : OpenMode) (files : List Bytes) (w : W)
      → Idle w
      → Ends (transfer_files src dst move dst_path mode files w)
  unfolding transfer_files
  transfer_files-Ends dst_path mode [] w h = h
  transfer_files-Ends dst_path mode (file ∷ files) w h =
      let o = visit src dst move dst_path mode file w in
      let done : Ends o = visit-Ends dst_path mode file w h in
      elim (Result-cases o.1) [
        | inl (e, q) ↦ rw (transfer_files, q) (subst (λ r. Ends (o.0, r)) q done)
        | inr (x, q) ↦
            rw (transfer_files, q)
              (transfer_files-Ends dst_path mode files o.0 (subst (λ r. Ends (o.0, r)) q done))
      ]

-- Whichever files are in the list: if neither server holds a transfer when the loop of the client starts,
-- neither does when it returns. If it throws neither does either, unless the exception is one of a request
-- or of a removal; then IsLeft says where that call may have left a transfer. The servers behave as Ledger
-- says.
pub transfer_files_cleans :
    {W : Type 0} {src dst : ServerInterface W} {move : Bytes → Bytes → ℕ → W → W × Result Bool}
    (l : Ledger src dst move) (dst_path : Bytes) (mode : OpenMode) (files : List Bytes) (w : W)
    → Idle l w
    → Ends l (transfer_files src dst move dst_path mode files w)
transfer_files_cleans l dst_path mode files w h = transfer_files-Ends l dst_path mode files w h
