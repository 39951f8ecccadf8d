-- ===== src/Client.antt =====
-- src/etc.cc: the loop of the client over the files of a transfer, over src/etdc_etdserver.h, the
-- interface of a server. `W` is the world of both servers.
pub mod Program
mod Refusals
mod Routes
mod Whole
mod Cleanup
mod ProgramTests
mod Tests
use etransfer.Common.{
  ℕ, zero, suc, Bool, true, false, List, [], ◌∷◌, ◌++◌, Option, none, some, Bytes, Result, ok, err,
  out_of_range, ◌==◌, not, ◌||◌, if◌then◌else◌,
}
use etransfer.Common.Int.{ℤ, pos, negsuc}
use etransfer.OpenMode.{OpenMode, skip_existing}
use etransfer.Path.{slash, basename}

-- ETDServerInterface: the calls that the loop makes.
pub record ServerInterface (W : Type 0) : Type 0 where
  pub request_write : Bytes → OpenMode → W → W × Result (Bytes × ℤ)
  pub request_read : Bytes → ℤ → W → W × Result (Bytes × ℤ)
  pub remove : Bytes → W → W × Result Bool

-- isDir. The test of the loop, `file[file.size()-1]=='/'`, is the same but for an empty name, where it
-- reads out of range; globbing gives no such name.
unfoldable pub is_dir : Bytes → Bool
is_dir [] = false
is_dir (c ∷ []) = c == slash
is_dir (c ∷ d ∷ s) = is_dir (d ∷ s)

-- mkOutputPath
unfoldable pub output_path : Bytes → Bytes → Result Bytes
unfolding is_dir basename
output_path dst_path file =
    if is_dir dst_path
    then elim (basename file) [ none ↦ err out_of_range | some name ↦ ok (dst_path ++ name) ]
    else ok dst_path

-- `mode!=openmode_type::SkipExisting || nByte==0`
unfoldable pub to_be_read : OpenMode → ℤ → Bool
to_be_read skip_existing (pos zero) = true
to_be_read skip_existing have = false
to_be_read mode have = true

module _ {W : Type 0} where
  -- `if( result ) server->removeUUID(...)`
  unfoldable pub remove_result : ServerInterface W → Option Bytes → W → W × Result Bool
  remove_result server none w = (w, ok false)
  remove_result server (some uuid) w = server.remove uuid w

  -- The end of one file: the results are removed, then an exception is thrown again.
  unfoldable pub src_removed : Result (Unit {0}) → W × Result Bool → W × Result (Unit {0})
  src_removed thrown (w, err e) = (w, err e)
  src_removed thrown (w, ok _) = (w, thrown)

module _ {W : Type 0} (src dst : ServerInterface W) where
  unfoldable pub dst_removed :
      Option Bytes → Result (Unit {0}) → W × Result Bool → W × Result (Unit {0})
  unfolding src_removed remove_result
  dst_removed src_uuid thrown (w, err e) = (w, err e)
  dst_removed src_uuid thrown (w, ok _) = src_removed thrown (remove_result src src_uuid w)

  unfoldable pub clean_up :
      Option Bytes → Option Bytes → Result (Unit {0}) → W → W × Result (Unit {0})
  unfolding dst_removed remove_result
  clean_up dst_uuid src_uuid thrown w = dst_removed src_uuid thrown (remove_result dst dst_uuid w)

  -- `fn`: sendFile of the source, or getFile of the destination.
  module _ (move : Bytes → Bytes → ℕ → W → W × Result Bool) where
    unfoldable pub moved : Bytes → Bytes → W × Result Bool → W × Result (Unit {0})
    unfolding clean_up
    moved u v (w, err e) = clean_up (some u) (some v) (err e) w
    moved u v (w, ok _) = clean_up (some u) (some v) (ok tt) w

    unfoldable pub src_ready : Bytes → W × Result (Bytes × ℤ) → W × Result (Unit {0})
    unfolding moved clean_up
    src_ready u (w, err e) = clean_up (some u) none (err e) w
    src_ready u (w, ok (v, pos (suc n))) = moved u v (move v u (suc n) w)
    src_ready u (w, ok (v, _)) = clean_up (some u) (some v) (ok tt) w

    unfoldable pub dst_ready : Bytes → OpenMode → W × Result (Bytes × ℤ) → W × Result (Unit {0})
    unfolding src_ready clean_up to_be_read
    dst_ready file mode (w, err e) = clean_up none none (err e) w
    dst_ready file mode (w, ok (u, have)) = elim (to_be_read mode have) [
      | true ↦ src_ready u (src.request_read file have w)
      | false ↦ clean_up (some u) none (ok tt) w
    ]

    -- One file: the `try` and what follows it.
    unfoldable pub transfer_file : Bytes → OpenMode → Bytes → W → W × Result (Unit {0})
    unfolding output_path dst_ready clean_up
    transfer_file dst_path mode file w = elim (output_path dst_path file) [
      | err e ↦ clean_up none none (err e) w
      | ok out ↦ dst_ready file mode (dst.request_write out mode w)
    ]

    -- The body of the loop: directories are passed over.
    unfoldable pub visit : Bytes → OpenMode → Bytes → W → W × Result (Unit {0})
    unfolding transfer_file is_dir
    visit dst_path mode file w =
        if is_dir file then (w, ok tt) else transfer_file dst_path mode file w

    -- `for(auto const& file: files2do)`
    unfoldable pub transfer_files : Bytes → OpenMode → List Bytes → W → W × Result (Unit {0})
    unfolding visit
    transfer_files dst_path mode [] w = (w, ok tt)
    transfer_files dst_path mode (file ∷ files) w =
        let (w', r) = visit dst_path mode file w in
        let rest = transfer_files dst_path mode files w' in
        elim r [ err e ↦ (w', err e) | ok _ ↦ rest ]
