-- ===== src/Cache/Sizes.antt =====
-- The sizes of the entries, added up, under the changes that the operations make to the map.
use mathlib.Core.List.{lookup}
use filth.Base.Maps.{insert, erase, modify, Distinct}
use filth.Base.{ℕ, ◌+◌, ◌≡◌, refl, none, some, List, [], ◌∷◌, arith}
use filth.Cache.Defs.{Stuff}

-- The bytes that the entries of the map account for.
unfoldable pub total {ℓ} : {K V : Type ℓ} → List (K × Stuff V) → ℕ
total [] = 0
total ((_, e) ∷ m) = e.sz + total m

module _ {ℓ} {K V : Type ℓ} (dec : Discrete K) where
  pub total-insert :
      (h : K) (e : Stuff V) (m : List (K × Stuff V))
      → lookup dec h m ≡ none
      → total (insert dec h e m) ≡ total m + e.sz
  unfolding lookup total insert
  total-insert h e [] _ = omega arith
  total-insert h e ((k, x) ∷ m) p = ground (arith, total-insert h e m)

  total-erase-none :
      (h : K) (m : List (K × Stuff V)) → lookup dec h m ≡ none → total (erase dec h m) ≡ total m
  unfolding lookup total erase
  total-erase-none h [] _ = refl
  total-erase-none h ((k, x) ∷ m) p = ground (arith, total-erase-none h m)

  pub total-erase :
      (h : K) (e : Stuff V) (m : List (K × Stuff V))
      → Distinct dec m
      → lookup dec h m ≡ some e
      → total (erase dec h m) + e.sz ≡ total m
  unfolding lookup total erase
  total-erase h e [] d p = ground arith
  total-erase h e ((k, x) ∷ m) d p = ground (arith, total-erase h e m d.1, total-erase-none h m)

  pub total-modify :
      (h : K) (f : Stuff V → Stuff V) (m : List (K × Stuff V))
      → ((e : Stuff V) → (f e).sz ≡ e.sz)
      → total (modify dec h f m) ≡ total m
  unfolding total modify
  total-modify h f [] p = refl
  total-modify h f ((k, x) ∷ m) p = ground (arith, total-modify h f m p, p x)
