-- ===== src/Cache/Threads/Sum.antt =====
-- What the threads have reserved and in hand, together, and the share of one of them.
use filth.Base.{
  ℕ, zero, suc, ◌+◌, ◌*◌, ◌≤◌, ◌≡◌, refl, ap, ap₂, subst, ◌||◌, some, List, [], ◌∷◌, ◌++◌, All,
  length, get_elem?, set, arith,
}
use filth.Cache.Defs.{contains}
use filth.Cache.Handles.{contains-append}
use filth.Cache.Threads.Local.{over_of, size_of, hand}
use filth.Cache.Threads.Steps.{Pc, ready, put_back, all_ready}

module _ {ℓ} {K V : Type ℓ} where
  unfoldable pub sum : (Pc K V → ℕ) → List (Pc K V) → ℕ
  sum w [] = 0
  sum w (p ∷ ps) = w p + sum w ps

  unfoldable pub hands : List (Pc K V) → List K
  hands [] = []
  hands (p ∷ ps) = hand p ++ hands ps

  pub set-get_elem? :
      (ps : List (Pc K V)) (i : ℕ) (p : Pc K V) → get_elem? ps i ≡ some p → set ps i p ≡ ps
  set-get_elem? [] i p e = refl
  set-get_elem? (q ∷ ps) zero p e = ground arith
  set-get_elem? (q ∷ ps) (suc i) p e = ap (◌∷◌ q) (set-get_elem? ps i p e)

  pub length-set : (ps : List (Pc K V)) (i : ℕ) (p : Pc K V) → length (set ps i p) ≡ length ps
  length-set [] i p = refl
  length-set (q ∷ ps) zero p = refl
  length-set (q ∷ ps) (suc i) p = ap suc (length-set ps i p)

  pub All-set :
      (P : Pc K V → Type 0) (ps : List (Pc K V)) (i : ℕ) (p : Pc K V)
      → P p
      → All P ps
      → All P (set ps i p)
  All-set P [] i p h a = tt
  All-set P (q ∷ ps) zero p h a = (h, a.1)
  All-set P (q ∷ ps) (suc i) p h a = (a.0, All-set P ps i p h a.1)

  pub All-get_elem? :
      (P : Pc K V → Type 0) (ps : List (Pc K V)) (i : ℕ) (p : Pc K V)
      → get_elem? ps i ≡ some p
      → All P ps
      → P p
  All-get_elem? P [] i p e a = cc
  All-get_elem? P (q ∷ ps) zero p e a = subst P (ground arith) a.0
  All-get_elem? P (q ∷ ps) (suc i) p e a = All-get_elem? P ps i p e a.1

  -- the share of the thread at `i`
  pub sum-set :
      (w : Pc K V → ℕ) (ps : List (Pc K V)) (i : ℕ) (p q : Pc K V)
      → w ready ≡ 0
      → get_elem? ps i ≡ some q
      → sum w (set ps i p) ≡ sum w (set ps i ready) + w p
  unfolding sum
  sum-set w [] i p q z e = cc
  sum-set w (r ∷ ps) zero p q z e = omega arith
  sum-set w (r ∷ ps) (suc i) p q z e = omega (arith, sum-set w ps i p q z e)

  pub contains-hands-set :
      (dec : Discrete K) (k : K) (ps : List (Pc K V)) (i : ℕ) (p q : Pc K V)
      → get_elem? ps i ≡ some q
      → contains dec k (hands (set ps i p))
        ≡ (contains dec k (hand p) || contains dec k (hands (set ps i ready)))
  unfolding hands contains
  contains-hands-set dec k [] i p q e = cc
  contains-hands-set dec k (r ∷ ps) zero p q e = contains-append dec k (hand p) (hands ps)
  contains-hands-set dec k (r ∷ ps) (suc i) p q e = ground (
    arith,
    contains-append dec k (hand r) (hands (set ps i p)),
    contains-append dec k (hand r) (hands (set ps i ready)),
    contains-hands-set dec k ps i p q e,
  )

  over_of-le : (p : Pc K V) → over_of p ≤ size_of p
  over_of-le (put_back h s sz) = omega arith
  over_of-le _ = omega arith

  pub sum-over_of-le :
      (max : ℕ) (ps : List (Pc K V))
      → All (λ p. size_of p ≤ max) ps
      → sum over_of ps ≤ length ps * max
  unfolding sum
  sum-over_of-le max [] a = omega arith
  sum-over_of-le max (p ∷ ps) a = omega (arith, over_of-le p, sum-over_of-le max ps a.1)

  pub sum-quiet :
      (w : Pc K V → ℕ) (ps : List (Pc K V)) → w ready ≡ 0 → All (λ p. p ≡ ready) ps → sum w ps ≡ 0
  unfolding sum
  sum-quiet w [] z a = refl
  sum-quiet w (p ∷ ps) z a = omega (arith, ap w a.0, sum-quiet w ps z a.1)

  pub hands-quiet : (ps : List (Pc K V)) → All (λ p. p ≡ ready) ps → hands ps ≡ []
  unfolding hands
  hands-quiet [] a = refl
  hands-quiet (p ∷ ps) a = ap₂ ◌++◌ (ap hand a.0) (hands-quiet ps a.1)

  pub sum-all_ready : (w : Pc K V → ℕ) (n : ℕ) → w ready ≡ 0 → sum w (all_ready n) ≡ 0
  unfolding sum
  sum-all_ready w zero z = refl
  sum-all_ready w (suc n) z = omega (arith, sum-all_ready w n z)

pub hands-all_ready {ℓ} :
    {K : Type ℓ} (V : Type ℓ) (n : ℕ) → hands {K = K} (all_ready {V = V} n) ≡ []
unfolding hands
hands-all_ready V zero = refl
hands-all_ready V (suc n) = hands-all_ready V n

pub length-all_ready {ℓ} : (K V : Type ℓ) (n : ℕ) → length (all_ready {K = K} {V = V} n) ≡ n
length-all_ready K V zero = refl
length-all_ready K V (suc n) = ap suc (length-all_ready K V n)

pub All-all_ready {ℓ} :
    (K V : Type ℓ) (max n : ℕ) → All (λ p. size_of p ≤ max) (all_ready {K = K} {V = V} n)
All-all_ready K V max zero = tt
All-all_ready K V max (suc n) = (omega arith, All-all_ready K V max n)
