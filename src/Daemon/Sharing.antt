-- ===== src/Daemon/Sharing.antt =====
-- The points at which a move of a thread does something to the shared state: there are two.
use etransfer.Common.{ℕ, ◌≡◌, ◌⊎◌, inl, inr, refl}
use etransfer.Daemon.{
  Point, created, registered, accepting, accepted, stored, spawning, serving, served, erasing,
  ending, gone, Daemon, share,
}

pub share-cases :
    (p : Point)
    → ((p ≡ spawning) ⊎ (p ≡ ending)) ⊎ ((server : ℕ) (d : Daemon) → share p server d ≡ d)
unfolding share
share-cases spawning = inl (inl refl)
share-cases ending = inl (inr refl)
share-cases created = inr (λ server d. refl)
share-cases registered = inr (λ server d. refl)
share-cases accepting = inr (λ server d. refl)
share-cases (accepted _) = inr (λ server d. refl)
share-cases stored = inr (λ server d. refl)
share-cases serving = inr (λ server d. refl)
share-cases served = inr (λ server d. refl)
share-cases erasing = inr (λ server d. refl)
share-cases gone = inr (λ server d. refl)
