-- ===== src/Client/Routes.antt =====
-- The addresses of the data channels that the client hands on.
use etransfer.Common.{
  ◌⊎◌, ap, ◌∙◌, Bool, true, false, List, [], ◌∷◌, map, Bytes, Result, ok, ◌≡◌, refl, Bool-cases,
  inl, inr,
}
use etransfer.State.{SockName}
use etransfer.Url.{Url}
use etransfer.Client.Program.{Endpoint, is_any_host, replace_host, pulled, pushed, route}

-- The host that an address is handed on with: the one of the URL in the place of a wildcard address, and
-- any other as it was announced.
abbrev pub IsHostOf : Bytes → SockName → SockName → Type 0
IsHostOf host a b =
    ((is_any_host a.host ≡ true) × (b.host ≡ host))
    ⊎ ((is_any_host a.host ≡ false) × (b.host ≡ a.host))

-- What a list of addresses becomes: as many, in the same order, of the same protocols and ports, each
-- with a host to connect to.
abbrev pub AreConcrete : Bytes → List SockName → List SockName → Type 0
AreConcrete host [] [] = Unit
AreConcrete host (a ∷ as') (b ∷ bs) =
    (b.protocol ≡ a.protocol)
    × ((b.port ≡ a.port)
        × (IsHostOf host a b × ((is_any_host b.host ≡ false) × AreConcrete host as' bs)))
AreConcrete host as' bs = ⊥

replace_host-IsHostOf :
    (host : Bytes) (a : SockName)
    → is_any_host host ≡ false
    → IsHostOf host a (replace_host host a) × (is_any_host (replace_host host a).host ≡ false)
unfolding replace_host
replace_host-IsHostOf host a h = elim (Bool-cases (is_any_host a.host)) [
  | inl any ↦
      let e : (replace_host host a).host ≡ host = rw (any) refl in
      (inl (any, e), ap is_any_host e ∙ h)
  | inr own ↦
      let e : (replace_host host a).host ≡ a.host = rw (own) refl in
      (inr (own, e), ap is_any_host e ∙ own)
]

replace_host-AreConcrete :
    (host : Bytes) (channels : List SockName)
    → is_any_host host ≡ false
    → AreConcrete host channels (map (replace_host host) channels)
unfolding replace_host
replace_host-AreConcrete host [] h = tt
replace_host-AreConcrete host (a ∷ channels) h =
    let (of_host, concrete) = replace_host-IsHostOf host a h in
    (refl, (refl, (of_host, (concrete, replace_host-AreConcrete host channels h))))

module _ {W : Type 0} where
  -- The route for the channels of both sides: a push to those of the destination, if it has any, with
  -- the host of its URL; else a pull from those of the source, which is asked after it, with the host of
  -- the URL of the source.
  abbrev pub IsRoute :
      Bytes
      → Bytes
      → List SockName
      → List SockName
      → W
      → W
      → W × Result (Bool × List SockName)
      → Type 0
  IsRoute src_host dst_host [] ours w w' o =
      (channels : List SockName) × ((o ≡ (w', ok (false, channels)))
        × AreConcrete src_host ours channels)
  IsRoute src_host dst_host (c ∷ theirs) ours w w' o =
      (channels : List SockName) × ((o ≡ (w, ok (true, channels)))
        × AreConcrete dst_host (c ∷ theirs) channels)

  -- The client pushes to the data channels of the destination or, only if that has none, pulls from
  -- those of the source. Each address keeps its protocol, its port and its place; a wildcard address is
  -- replaced by the host of the URL of the side that announced it, and any other host is kept. When the
  -- hosts of the URLs are no wildcard addresses, then no address that is handed on is one.
  pub route-IsRoute :
      (src_url dst_url : Url) (src dst : Endpoint W) (w w' w'' : W) (theirs ours : List SockName)
      → dst.data_channel_addr w ≡ (w', ok theirs)
      → src.data_channel_addr w' ≡ (w'', ok ours)
      → is_any_host src_url.host ≡ false
      → is_any_host dst_url.host ≡ false
      → IsRoute src_url.host dst_url.host theirs ours w' w'' (route src_url dst_url src dst w)
  unfolding route pushed pulled
  route-IsRoute src_url dst_url src dst w w' w'' [] ours e f a b = (
    map (replace_host src_url.host) ours,
    (rw (e) (rw (f) refl), replace_host-AreConcrete src_url.host ours a),
  )
  route-IsRoute src_url dst_url src dst w w' w'' (c ∷ theirs) ours e f a b = (
    map (replace_host dst_url.host) (c ∷ theirs),
    (rw (e) refl, replace_host-AreConcrete dst_url.host (c ∷ theirs) b),
  )
