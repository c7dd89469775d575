-- ===== src/Queue/Store.antt =====
-- Preallocated (src/Preallocated.hpp): a store of blocks in a queue, one call at a time. A block is a
-- number; `::operator new` gives out numbers that it has not given before. Blocks that `prealloc_deinit`
-- frees are not given out again here.
use filth.Base.{
  ℕ, zero, suc, ◌+◌, ◌≤◌, ◌<◌, ◌≡◌, refl, ap, List, [], ◌∷◌, ◌++◌, ◌==◌, if◌then◌else◌, arith,
}

-- `used`, which the code does not have, are the blocks that objects live in.
pub record Store : Type 0 where
  pub store : List ℕ
  pub used : List ℕ
  pub fresh : ℕ

abbrev pub new_store : Store
new_store = record { store = []; used = []; fresh = 0 }

-- `operator new`: a block of the store, or one from the system
unfoldable pub new_from : List ℕ → Store → Store × ℕ
new_from [] s = (record s { used = s.fresh ∷ s.used; fresh = suc s.fresh }, s.fresh)
new_from (x ∷ rest) s = (record s { store = rest; used = x ∷ s.used }, x)

unfoldable pub new_block : Store → Store × ℕ
new_block s = new_from s.store s

unfoldable pub erase_first : ℕ → List ℕ → List ℕ
erase_first x [] = []
erase_first x (y ∷ ys) = let rest = erase_first x ys in if x == y then ys else y ∷ rest

-- `operator delete`
unfoldable pub delete_block : ℕ → Store → Store
delete_block x s = record s { store = s.store ++ x ∷ []; used = erase_first x s.used }

unfoldable pub prealloc_init : ℕ → Store → Store
prealloc_init zero s = s
prealloc_init (suc numobjs) s =
    prealloc_init numobjs (record s { store = s.store ++ s.fresh ∷ []; fresh = suc s.fresh })

-- the store afterwards, and the blocks that are freed
unfoldable pub prealloc_deinit : Store → Store × List ℕ
prealloc_deinit s = (record s { store = [] }, s.store)

unfoldable pub times : ℕ → List ℕ → ℕ
times q [] = 0
times q (x ∷ xs) = let rest = times q xs in if q == x then suc rest else rest

-- No block is in two places, and none is there that has not been given out.
pub record Single (s : Store) : Type 0 where
  pub once : (q : ℕ) → times q s.used + times q s.store ≤ 1
  pub older : (q : ℕ) → s.fresh ≤ q → times q s.used + times q s.store ≡ 0

times-append :
    (q : ℕ) (xs : List ℕ) (x : ℕ) → times q (xs ++ x ∷ []) ≡ times q xs + times q (x ∷ [])
unfolding times
times-append q [] x = ground arith
times-append q (y ∷ ys) x = ground (arith, times-append q ys x)

times-erase_first :
    (q x : ℕ) (xs : List ℕ)
    → 0 < times x xs
    → times q (erase_first x xs) + times q (x ∷ []) ≡ times q xs
unfolding times erase_first
times-erase_first q x [] there = absurd (omega arith)
times-erase_first q x (y ∷ ys) there = ground (arith, times-erase_first q x ys)

new_from-Single : (xs : List ℕ) (s : Store) → s.store ≡ xs → Single s → Single (new_from xs s).0
unfolding new_from times
new_from-Single [] s e v = record {
  once = λ q. ground (arith, v.once q, v.older q);
  older = λ q new. ground (arith, v.older q);
}
new_from-Single (x ∷ rest) s e v =
    let cut : (q : ℕ) → times q s.store ≡ times q (x ∷ rest) = λ q. ap (times q) e in
    record {
      once = λ q. ground (arith, v.once q, cut q);
      older = λ q new. ground (arith, v.older q, cut q);
    }

-- A block that `operator new` returns was not in use before, and then lives in one place like all others.
pub new_block-Single :
    (s : Store)
    → Single s
    → Single (new_block s).0
      × (times (new_block s).1 s.used ≡ 0)
      × ((new_block s).0.used ≡ (new_block s).1 ∷ s.used)
unfolding new_block new_from times
new_block-Single s v =
    (new_from-Single s.store s refl v, unused s.store s refl v, now_used s.store s)
  where
    unused :
        (xs : List ℕ) (s : Store) → s.store ≡ xs → Single s → times (new_from xs s).1 s.used ≡ 0
    unused [] s e v = omega (arith, v.older s.fresh (omega arith))
    unused (x ∷ rest) s e v =
        let cut : times x s.store ≡ times x (x ∷ rest) = ap (times x) e in
        ground (arith, v.once x, cut)

    now_used : (xs : List ℕ) (s : Store) → (new_from xs s).0.used ≡ (new_from xs s).1 ∷ s.used
    now_used [] s = refl
    now_used (x ∷ rest) s = refl

-- A block in use goes back to the store, and no block is in two places.
pub delete_block-Single :
    (x : ℕ) (s : Store) → Single s → 0 < times x s.used → Single (delete_block x s)
unfolding delete_block
delete_block-Single x s v there = record {
  once = λ q. omega (arith, v.once q, times-append q s.store x, times-erase_first q x s.used there);
  older = λ q new.
      omega (arith, v.older q new, times-append q s.store x, times-erase_first q x s.used there);
}

-- The blocks that are made beforehand are new ones.
pub prealloc_init-Single : (numobjs : ℕ) (s : Store) → Single s → Single (prealloc_init numobjs s)
unfolding prealloc_init times
prealloc_init-Single zero s v = v
prealloc_init-Single (suc numobjs) s v =
    prealloc_init-Single numobjs (record s { store = s.store ++ s.fresh ∷ []; fresh = suc s.fresh })
      (record {
        once = λ q. ground (arith, v.once q, v.older q, times-append q s.store s.fresh);
        older = λ q new. ground (arith, v.older q, times-append q s.store s.fresh);
      })
