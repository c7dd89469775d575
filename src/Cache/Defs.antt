-- ===== src/Cache/Defs.antt =====
-- `Cache<Handle, Stuff>` of src/Cache.hpp. Each critical section is one function; a member function
-- that takes its locks several times is the composition of such functions.
use mathlib.Core.List.{lookup}
use filth.Base.Maps.{insert, erase, modify}
use filth.Base.Words.{add64, sub64, inc32, dec32}
use filth.Base.{
  ℕ, zero, suc, Bool, true, false, not, ◌&&◌, Option, none, some, List, [], ◌∷◌, ◌++◌, ◌≡◌, map,
  ite, length, ltb, ◌==◌, if◌then◌else◌,
}

-- `_Stuff`: the counter is the 32-bit word of the `int`, which the code only compares with 0.
pub record Stuff {ℓ} (V : Type ℓ) : Type ℓ where
  pub s : V
  pub refcnt : ℕ
  pub invalid : Bool
  pub sz : ℕ

-- `freed` lists what the destructor of `_Stuff` has deleted.
pub record Cache {ℓ} (K V : Type ℓ) : Type ℓ where
  pub cache : List (K × Stuff V)
  pub toevict : List K
  pub cur : ℕ
  pub max : ℕ
  pub freed : List V

-- How `std::unordered_set` orders its elements is not said: `front k ks` is the element at `begin()`
-- of the non-empty set `k ∷ ks`, and the set without it.
abbrev pub Front {ℓ} : Type ℓ → Type ℓ
Front K = K → List K → K × List K

unfoldable pub contains {ℓ} : {K : Type ℓ} → Discrete K → K → List K → Bool
contains dec q [] = false
contains dec q (k ∷ ks) = ite (dec q k) true (contains dec q ks)

-- `begin()` points at an element, and `erase` of it takes away that element alone.
pub record FrontLaws {ℓ} {K : Type ℓ} (dec : Discrete K) (front : Front K) : Type ℓ where
  pub length-front : (k : K) (ks : List K) → length (front k ks).1 ≡ length ks
  pub contains-front :
      (q k : K) (ks : List K)
      → contains dec q ((front k ks).0 ∷ (front k ks).1) ≡ contains dec q (k ∷ ks)

abbrev pub new_cache {ℓ} : {K V : Type ℓ} → ℕ → Cache K V
new_cache max = record { cache = []; toevict = []; cur = 0; max = max; freed = [] }

module _ {ℓ} {K V : Type ℓ} where
  -- `__sync_add_and_fetch(&cur, sz) > max`: the new state, and whether it fits
  unfoldable pub reserve : ℕ → Cache K V → Cache K V × Bool
  reserve sz c = let total = add64 c.cur sz in (record c { cur = total }, not (ltb c.max total))

  -- `__sync_sub_and_fetch(&cur, sz)`
  abbrev pub unreserve : ℕ → Cache K V → Cache K V
  unreserve sz c = record c { cur = sub64 c.cur sz }

module _ {ℓ} {K V : Type ℓ} (dec : Discrete K) where
  -- `cache.find(h) != cache.end()`
  unfoldable pub found : K → Cache K V → Bool
  found h c = elim (lookup dec h c.cache) [ none ↦ false | some e ↦ true ]

  -- the section of `get`
  unfoldable pub get : K → Cache K V → Cache K V × Option V
  get h c = elim (lookup dec h c.cache) [
    | none ↦ (c, none)
    | some e ↦ (
      record c { cache = modify dec h (λ x. record x { refcnt = inc32 x.refcnt }) c.cache },
      some e.s,
    )
  ]

  -- the first section of `unget`: the new state, `doenq` and `doevict`
  unfoldable pub release : K → Cache K V → Cache K V × Bool × Bool
  release h c = elim (lookup dec h c.cache) [
    | none ↦ (c, false, false)
    | some e ↦
        let doenq = dec32 e.refcnt == 0 in
        (
          record c { cache = modify dec h (λ x. record x { refcnt = dec32 x.refcnt }) c.cache },
          doenq,
          doenq && e.invalid,
        )
  ]

  -- the section of `evict(h)`
  unfoldable pub evict_one : K → Cache K V → Cache K V × Bool
  evict_one h c = elim (lookup dec h c.cache) [
    | none ↦ (c, false)
    | some e ↦
        if e.refcnt == 0
        then (
          record c { cache = erase dec h c.cache; cur = sub64 c.cur e.sz; freed = e.s ∷ c.freed },
          true,
        )
        else (c, false)
  ]

  -- `toevict.insert(h)`, which leaves a set that has `h` alone
  unfoldable pub enqueue : K → Cache K V → Cache K V
  unfolding contains
  enqueue h c = if contains dec h c.toevict then c else record c { toevict = h ∷ c.toevict }

  unfoldable pub unget : K → Cache K V → Cache K V
  unget h c =
      let (c₁, doenq, doevict) = release h c in
      if not doenq
      then c₁
      else if not doevict
      then enqueue h c₁
      else let (c₂, evicted) = evict_one h c₁ in if evicted then c₂ else enqueue h c₂

  -- the last section of `put`: the new entry goes in unless the handle has come in meanwhile
  unfoldable pub publish : K → V → ℕ → Cache K V → Cache K V × Bool
  publish h s sz c = if found h c then (c, false) else (
    record c {
      cache = insert dec h (record { s = s; refcnt = 1; invalid = false; sz = sz }) c.cache;
    },
    true,
  )

  unfoldable pub flush : Cache K V → Cache K V
  flush c = record c { cache = []; cur = 0; freed = map (λ e. e.1.s) c.cache ++ c.freed }

  unfoldable pub advise_evict : K → Cache K V → Cache K V
  advise_evict h c = record c { cache = modify dec h (λ x. record x { invalid = true }) c.cache }

module _ {ℓ} {K V : Type ℓ} (dec : Discrete K) (front : Front K) where
  -- the section of `evict()`: the front of `toevict`
  unfoldable pub pick : Cache K V → Cache K V × Option K
  pick c = elim c.toevict [
    | [] ↦ (c, none)
    | k ∷ ks ↦ (record c { toevict = (front k ks).1 }, some (front k ks).0)
  ]

  -- one round of the loop of `evict()`; `rest` runs the later rounds
  unfoldable pub evict_round :
      (Cache K V → Option (Cache K V × Bool)) → Cache K V × Option K → Option (Cache K V × Bool)
  evict_round rest (c, none) = some (c, false)
  evict_round rest (c, some h) =
      let (c', evicted) = evict_one dec h c in if evicted then some (c', true) else rest c'

  -- the loop of `evict()`; `none` means that the fuel ran out
  unfoldable pub evict_loop : ℕ → Cache K V → Option (Cache K V × Bool)
  evict_loop zero c = none
  evict_loop (suc fuel) c = evict_round (evict_loop fuel) (pick c)

  -- each round takes a handle out of `toevict`
  unfoldable pub evict : Cache K V → Option (Cache K V × Bool)
  evict c = evict_loop (suc (length c.toevict)) c

  -- `if (evict()) goto put_tryagain; else return false;`
  unfoldable pub put_retry :
      (Cache K V → Option (Cache K V × Bool))
      → Option (Cache K V × Bool)
      → Option (Cache K V × Bool)
  put_retry again none = none
  put_retry again (some (c, false)) = some (c, false)
  put_retry again (some (c, true)) = again c

  -- `put` behind the test of its reservation; `new_ok` says whether `new _Stuff` succeeds
  unfoldable pub put_reserved :
      (Cache K V → Option (Cache K V × Bool))
      → Bool
      → K
      → V
      → ℕ
      → Cache K V × Bool
      → Option (Cache K V × Bool)
  put_reserved again new_ok h s sz (c, false) = put_retry again (evict (unreserve sz c))
  put_reserved again true h s sz (c, true) = some (publish dec h s sz c)
  put_reserved again false h s sz (c, true) = some (unreserve sz c, false)

  -- from `put_tryagain` on
  unfoldable pub put_loop : ℕ → Bool → K → V → ℕ → Cache K V → Option (Cache K V × Bool)
  put_loop zero new_ok h s sz c = none
  put_loop (suc fuel) new_ok h s sz c =
      put_reserved (put_loop fuel new_ok h s sz) new_ok h s sz (reserve sz c)

  unfoldable pub put : Bool → K → V → ℕ → Cache K V → Option (Cache K V × Bool)
  put new_ok h s sz c =
      if ltb c.max sz
      then some (c, false)
      else if found dec h c
      then some (c, false)
      else put_loop (suc (length c.toevict)) new_ok h s sz c
