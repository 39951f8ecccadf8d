-- ===== src/State.antt =====
-- src/etdc_etd_state.h: the state that all servers of one daemon share, and its map of transfers.
pub mod Map
use etransfer.Common.{
  ℕ, ◌≡◌, Bool, true, false, List, [], ◌∷◌, Option, none, some, Bytes, bytes_eq, bytes_lt,
  if◌then◌else◌,
}
use etransfer.Fd.{EtdcFd}
use etransfer.OpenMode.{OpenMode}
use etransfer.Files.{Store}

-- sockname_type
pub record SockName : Type 0 where
  pub protocol : Bytes
  pub host : Bytes
  pub port : ℕ

-- transferprops_type; `locked` tells whether somebody holds the mutex.
pub record Transfer (W : Type 0) : Type 0 where
  pub path : Bytes
  pub fd : EtdcFd (Store W)
  pub open_mode : OpenMode
  pub locked : Bool

-- etd_state, as far as the servers use it, with the world that the descriptors act on. Each
-- operation that holds the mutex of the state is one function.
pub record EtdState (W : Type 0) : Type 0 where
  pub transfers : List (Bytes × Transfer W)
  pub data_addrs : List SockName
  pub store : Store W

module _ {W : Type 0} where
  -- std::map::find
  unfoldable pub find_uuid : Bytes → List (Bytes × Transfer W) → Option (Transfer W)
  find_uuid uuid [] = none
  find_uuid uuid ((k, t) ∷ ts) = if bytes_eq k uuid then some t else find_uuid uuid ts

  -- The place of a new key in the order of the map.
  unfoldable pub insert : Bytes → Transfer W → List (Bytes × Transfer W) → List (Bytes × Transfer W)
  insert uuid t [] = (uuid, t) ∷ []
  insert uuid t ((k, u) ∷ ts) =
      if bytes_lt k uuid then (k, u) ∷ insert uuid t ts else (uuid, t) ∷ (k, u) ∷ ts

  -- std::map::emplace; `none` if the key is there.
  unfoldable pub emplace :
      Bytes → Transfer W → List (Bytes × Transfer W) → Option (List (Bytes × Transfer W))
  unfolding find_uuid insert
  emplace uuid t ts = elim (find_uuid uuid ts) [ some _ ↦ none | none ↦ some (insert uuid t ts) ]

  -- std::map::erase
  unfoldable pub erase : Bytes → List (Bytes × Transfer W) → List (Bytes × Transfer W)
  erase uuid [] = []
  erase uuid ((k, t) ∷ ts) = if bytes_eq k uuid then ts else (k, t) ∷ erase uuid ts

  -- std::find_if over the map: the first transfer of a path.
  unfoldable pub find_path : Bytes → List (Bytes × Transfer W) → Option (Transfer W)
  find_path path [] = none
  find_path path ((k, t) ∷ ts) = if bytes_eq t.path path then some t else find_path path ts

  -- The mutex of a transfer, taken or given back.
  unfoldable pub set_locked : Bytes → Bool → List (Bytes × Transfer W) → List (Bytes × Transfer W)
  set_locked uuid b [] = []
  set_locked uuid b ((k, t) ∷ ts) =
      if bytes_eq k uuid then (k, record t { locked = b }) ∷ ts else (k, t) ∷ set_locked uuid b ts
