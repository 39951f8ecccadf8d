-- ===== src/Client/Tests.antt =====
-- The loop of the client with two servers that hold one transfer each.
use etransfer.Common.{
  ◌≡◌, ℕ, refl, Bool, true, false, [], ◌∷◌, Option, none, some, Bytes, Result, ok, err, codes,
  read_hung_up,
}
use etransfer.Common.Int.{pos}
use etransfer.OpenMode.{new, skip_existing}
use etransfer.Client.{ServerInterface, output_path, to_be_read, transfer_files}
use etransfer.Client.Cleanup.{Ledger}

record Places : Type 0 where
  at_source : Option Bytes
  at_target : Option Bytes

abbrev source : ServerInterface Places
source = record {
  request_write = λ _ _ w. (record w { at_source = some (codes "s") }, ok (codes "s", pos 0));
  request_read = λ _ _ w. (record w { at_source = some (codes "s") }, ok (codes "s", pos 9));
  remove = λ _ w. (record w { at_source = none }, ok true);
}

abbrev target : ServerInterface Places
target = record {
  request_write = λ _ _ w. (record w { at_target = some (codes "t") }, ok (codes "t", pos 0));
  request_read = λ _ _ w. (record w { at_target = some (codes "t") }, ok (codes "t", pos 9));
  remove = λ _ w. (record w { at_target = none }, ok true);
}

-- The connection breaks.
abbrev broken : Bytes → Bytes → ℕ → Places → Places × Result Bool
broken v u n w = (w, err read_hung_up)

abbrev ledger : Ledger source target broken
ledger = record {
  at_src = λ w. w.at_source;
  at_dst = λ w. w.at_target;
  writes = λ path mode w. (refl, refl);
  reads = λ path have w. (refl, refl);
  frees_dst = λ u w h. (refl, refl);
  frees_src = λ u w h. (refl, refl);
  moves = λ u v n w. (refl, refl);
}

-- A removal at this target throws: the transfer at the source, whose removal would follow, stays too.
abbrev dead_target : ServerInterface Places
dead_target = record {
  request_write = target.request_write;
  request_read = target.request_read;
  remove = λ _ w. (w, err read_hung_up);
}

abbrev free : Places
free = record { at_source = none; at_target = none }

file_in_dir : output_path (codes "/tmp/") (codes "/home/a.dat") ≡ ok (codes "/tmp/a.dat")
unfolding output_path
file_in_dir = refl

existing_skipped : to_be_read skip_existing (pos 4) ≡ false
unfolding to_be_read
existing_skipped = refl

fails_and_stops :
    (transfer_files source target broken
      (codes "/b")
      new
      (codes "/d/" ∷ codes "/a" ∷ codes "/c" ∷ [])
      free).1
    ≡ err read_hung_up
unfolding transfer_files
fails_and_stops = refl

both_left :
    transfer_files source dead_target broken (codes "/b") new (codes "/a" ∷ []) free
    ≡ (record { at_source = some (codes "s"); at_target = some (codes "t") }, err read_hung_up)
unfolding transfer_files
both_left = refl
