-- ===== src/Daemon/Workers.antt =====
-- A thread by its fields, and lists of threads of which one moves.
use etransfer.Common.{
  ℕ, zero, suc, ◌+◌, Bool, List, [], ◌∷◌, ◌++◌, false, ◌==◌, refl, some, ◌≡◌, ap, subst, arith,
}
use etransfer.Daemon.{Point, Worker, at, put}

abbrev pub worker : ℕ → ℕ → Point → Bool → Worker
worker a c p r = record { server = a; client = c; point = p; is_registered = r }

module _ {ℓ κ} {A : Type ℓ} (P : A → Type κ) where
  -- Each element satisfies P.
  unfoldable pub Each : List A → Type κ
  Each [] = Unit
  Each (x ∷ xs) = P x × Each xs

module _ {ℓ κ} {A : Type ℓ} (P : A → Type κ) where
  pub at-Each : (k : ℕ) (xs : List A) (x : A) → at k xs ≡ some x → Each P xs → P x
  unfolding Each at
  at-Each k [] x e h = absurd (ground arith)
  at-Each zero (y ∷ xs) x e (p, ps) = let same : y ≡ x = cc in subst P same p
  at-Each (suc k) (y ∷ xs) x e (p, ps) = at-Each k xs x e ps

  pub put-Each : (k : ℕ) (xs : List A) (y : A) → P y → Each P xs → Each P (put k y xs)
  unfolding Each put
  put-Each k [] y p h = h
  put-Each zero (x ∷ xs) y p (q, qs) = (p, qs)
  put-Each (suc k) (x ∷ xs) y p (q, qs) = (q, put-Each k xs y p qs)

  pub append-Each : (xs : List A) (y : A) → Each P xs → P y → Each P (xs ++ y ∷ [])
  unfolding Each
  append-Each [] y h p = (p, tt)
  append-Each (x ∷ xs) y (q, qs) p = (q, append-Each xs y qs p)

module _ {ℓ} {A : Type ℓ} where
  pub some_eq : {x y : A} → some x ≡ some y → x ≡ y
  some_eq e = cc

  pub at_put : (k : ℕ) (xs : List A) (y x : A) → at k xs ≡ some x → at k (put k y xs) ≡ some y
  unfolding at put
  at_put k [] y x e = absurd (ground arith)
  at_put zero (z ∷ xs) y x e = refl
  at_put (suc k) (z ∷ xs) y x e = at_put k xs y x e

  pub at_put_other :
      (k j : ℕ) (xs : List A) (y : A) → (k == j) ≡ false → at k (put j y xs) ≡ at k xs
  unfolding at put
  at_put_other k j [] y e = refl
  at_put_other zero zero (z ∷ xs) y e = absurd (ground arith)
  at_put_other zero (suc j) (z ∷ xs) y e = refl
  at_put_other (suc k) zero (z ∷ xs) y e = refl
  at_put_other (suc k) (suc j) (z ∷ xs) y e = at_put_other k j xs y (ground arith)

module _ {ℓ κ μ} {A : Type ℓ} (P : A → Type κ) (Q : A → Type μ) where
  pub map-Each : ((x : A) → P x → Q x) → (xs : List A) → Each P xs → Each Q xs
  unfolding Each
  map-Each f [] h = tt
  map-Each f (x ∷ xs) (p, ps) = (f x p, map-Each f xs ps)

  pub zip-Each : (xs : List A) → Each P xs → Each Q xs → Each (λ x. P x × Q x) xs
  unfolding Each
  zip-Each [] h g = tt
  zip-Each (x ∷ xs) (p, ps) (q, qs) = ((p, q), zip-Each xs ps qs)

module _ {ℓ} {A : Type ℓ} (f : A → ℕ) where
  -- The sum of a number over the elements.
  unfoldable pub total : List A → ℕ
  total [] = 0
  total (x ∷ xs) = f x + total xs

  pub total-append : (xs : List A) (y : A) → total (xs ++ y ∷ []) ≡ total xs + f y
  unfolding total
  total-append [] y = omega arith
  total-append (x ∷ xs) y = let ih = total-append xs y in omega (arith, ih)

  pub total-put :
      (k : ℕ) (xs : List A) (y x : A) → at k xs ≡ some x → total (put k y xs) + f x ≡ total xs + f y
  unfolding total at put
  total-put k [] y x e = absurd (ground arith)
  total-put zero (z ∷ xs) y x e = let same : f z ≡ f x = ap f cc in omega (arith, same)
  total-put (suc k) (z ∷ xs) y x e = let ih = total-put k xs y x e in omega (arith, ih)
