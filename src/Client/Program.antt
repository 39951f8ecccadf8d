-- ===== src/Client/Program.antt =====
-- src/etc.cc: what main does with the URLs of its command line, from the listing of the first one to the
-- loop over the files. `W` is the world of all servers.
use etransfer.Common.{
  ℕ, Bool, true, false, List, [], ◌∷◌, map, Bytes, Result, ok, err, target_with_wildcards,
  nothing_matched, many_files_one_target, no_url, codes, bytes_eq, length, ltb, ◌==◌, not, ◌&&◌,
  ◌||◌, if◌then◌else◌,
}
use etransfer.OpenMode.{OpenMode}
use etransfer.State.{SockName}
use etransfer.Address.{occurs}
use etransfer.Server.{is_dev_null}
use etransfer.Url.{Url}
use etransfer.Client.{ServerInterface, is_dir, transfer_files}

-- ETDServerInterface, with the calls that the loop does not make itself.
pub record Endpoint (W : Type 0) : Type 0 where
  pub calls : ServerInterface W
  pub list_path : Bytes → Bool → W → W × Result (List Bytes)
  pub data_channel_addr : W → W × Result (List SockName)
  pub send_file : Bytes → Bytes → ℕ → List SockName → W → W × Result Bool
  pub get_file : Bytes → Bytes → ℕ → List SockName → W → W × Result Bool

-- `find('*')` and `find('?')`
unfoldable pub has_wildcards : Bytes → Bool
unfolding occurs
has_wildcards path = occurs b'*' path || occurs b'?' path

-- std::copy_if: what is listed but the directories.
unfoldable pub files_to_do : List Bytes → List Bytes
unfolding is_dir
files_to_do [] = []
files_to_do (path ∷ paths) =
    let rest = files_to_do paths in if is_dir path then rest else path ∷ rest

-- The assertions on the destination and on what was listed; the files to transfer.
unfoldable pub checked : Bytes → List Bytes → Result (List Bytes)
unfolding has_wildcards files_to_do is_dir is_dev_null
checked dst_path listed =
    if has_wildcards dst_path
    then err target_with_wildcards
    else if length (files_to_do listed) == 0
    then err nothing_matched
    else if ltb 1 (length (files_to_do listed)) && not (is_dir dst_path || is_dev_null dst_path)
    then err many_files_one_target
    else ok (files_to_do listed)

-- "^(::|0.0.0.0)$"; each dot matches any byte but the end of a line.
abbrev any : ℕ → Bool
any c = not ((c == 10) || (c == 13))

unfoldable pub is_dotted_zero : Bytes → Bool
is_dotted_zero (a ∷ p ∷ b ∷ q ∷ c ∷ r ∷ d ∷ []) =
    ((a == b'0') && (any p && (b == b'0'))) && ((any q && (c == b'0')) && (any r && (d == b'0')))
is_dotted_zero host = false

unfoldable pub is_any_host : Bytes → Bool
unfolding is_dotted_zero
is_any_host host = bytes_eq host (codes "::") || is_dotted_zero host

-- std::regex_replace of the host, with the host of a URL, which holds no `$`.
unfoldable pub replace_host : Bytes → SockName → SockName
unfolding is_any_host
replace_host host a = record a { host = if is_any_host a.host then host else a.host }

module _ {W : Type 0} where
  -- std::transform: the client's own server for a local path, else a proxy, which has to be connected.
  unfoldable pub open_server :
      Endpoint W
      → (Bytes → Bytes → ℕ → W → W × Result (Endpoint W))
      → Url
      → W
      → W × Result (Endpoint W)
  open_server own connect url w =
      if url.is_local then (w, ok own) else connect url.protocol url.host url.port w

  -- `fn`
  unfoldable pub move_by :
      Endpoint W → Endpoint W → Bool → List SockName → Bytes → Bytes → ℕ → W → W × Result Bool
  move_by src dst push channels src_uuid dst_uuid n w =
      if push
      then src.send_file src_uuid dst_uuid n channels w
      else dst.get_file src_uuid dst_uuid n channels w

  unfoldable pub pulled : Url → W × Result (List SockName) → W × Result (Bool × List SockName)
  unfolding replace_host
  pulled src_url (w, err e) = (w, err e)
  pulled src_url (w, ok channels) = (w, ok (false, map (replace_host src_url.host) channels))

  unfoldable pub pushed :
      Url → Url → Endpoint W → W × Result (List SockName) → W × Result (Bool × List SockName)
  unfolding replace_host pulled
  pushed src_url dst_url src (w, err e) = (w, err e)
  pushed src_url dst_url src (w, ok []) = pulled src_url (src.data_channel_addr w)
  pushed src_url dst_url src (w, ok (c ∷ cs)) =
      (w, ok (true, map (replace_host dst_url.host) (c ∷ cs)))

  -- Whether to push, and the data channels: those of the destination, if it has any, else those of the
  -- source.
  unfoldable pub route : Url → Url → Endpoint W → Endpoint W → W → W × Result (Bool × List SockName)
  unfolding pushed
  route src_url dst_url src dst w = pushed src_url dst_url src (dst.data_channel_addr w)

  module _ (src_url dst_url : Url) (src dst : Endpoint W) (mode : OpenMode) where
    unfoldable pub routed : List Bytes → W × Result (Bool × List SockName) → W × Result (Unit {0})
    unfolding move_by
    routed files (w, err e) = (w, err e)
    routed files (w, ok (push, channels)) =
        transfer_files src.calls dst.calls (move_by src dst push channels) dst_url.path mode files w

    unfoldable pub listed : W × Result (List Bytes) → W × Result (Unit {0})
    unfolding checked route routed
    listed (w, err e) = (w, err e)
    listed (w, ok paths) = elim (checked dst_url.path paths) [
      | err e ↦ (w, err e)
      | ok files ↦ routed files (route src_url dst_url src dst w)
    ]

    -- main, with two servers
    unfoldable pub copy_files : W → W × Result (Unit {0})
    unfolding listed
    copy_files w = listed (src.list_path src_url.path false w)

  -- main: what it prints, from the URLs on.
  module _ (own : Endpoint W) (connect : Bytes → Bytes → ℕ → W → W × Result (Endpoint W))
      (mode : OpenMode) where
    unfoldable pub lines_of : W × Result (Unit {0}) → W × Result (List Bytes)
    lines_of (w, err e) = (w, err e)
    lines_of (w, ok _) = (w, ok [])

    unfoldable pub both_open :
        Url → Url → Endpoint W → W × Result (Endpoint W) → W × Result (List Bytes)
    unfolding copy_files lines_of
    both_open u v src (w, err e) = (w, err e)
    both_open u v src (w, ok dst) = lines_of (copy_files u v src dst mode w)

    unfoldable pub first_open : List Url → W × Result (Endpoint W) → W × Result (List Bytes)
    unfolding both_open open_server
    first_open urls (w, err e) = (w, err e)
    first_open (u ∷ []) (w, ok server) = server.list_path u.path false w
    first_open (u ∷ v ∷ _) (w, ok src) = both_open u v src (open_server own connect v w)
    first_open [] (w, ok _) = (w, err no_url)

    unfoldable pub client_main : List Url → W → W × Result (List Bytes)
    unfolding first_open open_server
    client_main [] w = (w, err no_url)
    client_main (u ∷ urls) w = first_open (u ∷ urls) (open_server own connect u w)
