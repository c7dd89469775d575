-- ===== src/Cache/Handles.antt =====
-- Membership in the set of handles that wait for eviction.
use filth.Base.{◌≡◌, refl, true, ◌||◌, List, [], ◌∷◌, ◌++◌, arith}
use filth.Cache.Defs.{contains}

module _ {ℓ} {K : Type ℓ} (dec : Discrete K) where
  pub contains-append :
      (q : K) (xs ys : List K)
      → contains dec q (xs ++ ys) ≡ (contains dec q xs || contains dec q ys)
  unfolding contains
  contains-append q [] ys = refl
  contains-append q (x ∷ xs) ys = ground (arith, contains-append q xs ys)

  pub contains-cons_self : (q : K) (xs : List K) → contains dec q (q ∷ xs) ≡ true
  unfolding contains
  contains-cons_self q xs = ground arith
