-- ===== src/Server/Listing.antt =====
-- src/etdc_etdserver.cc: ETDServer::listPath. glob(3), with GLOB_MARK, and GLOB_TILDE if the flag is set,
-- is a parameter; its result is not looked at, so a failed one is an empty list. Where the system has no
-- GLOB_TILDE the code throws instead; such a system is not modelled.
use etransfer.Common.{Bool, List, [], ◌∷◌, ◌++◌, Bytes, Result, ok, err, empty_path, if◌then◌else◌}
use etransfer.DevZero.{is_dev_zero}
use etransfer.Client.{is_dir}

-- What is globbed: behind a slash at the end stands a star.
unfoldable pub glob_path : Bytes → Bytes
unfolding is_dir
glob_path path = if is_dir path then path ++ b'*' ∷ [] else path

module _ {W : Type 0} (glob : Bytes → Bool → W → List Bytes) where
  unfoldable pub list_path : Bytes → Bool → W → W × Result (List Bytes)
  unfolding glob_path is_dev_zero
  list_path [] allow_tilde w = (w, err empty_path)
  list_path (c ∷ s) allow_tilde w =
      if is_dev_zero (c ∷ s)
      then (w, ok ((c ∷ s) ∷ []))
      else (w, ok (glob (glob_path (c ∷ s)) allow_tilde w))
