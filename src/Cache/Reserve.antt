-- ===== src/Cache/Reserve.antt =====
-- The sections of `put`, `evict()` and `flush` keep the invariant.
use mathlib.Core.List.{lookup}
use filth.Base.Maps.{insert-Distinct, lookup-insert}
use filth.Base.{ℕ, ◌+◌, ◌^◌, ◌<◌, ◌≡◌, refl, true, false, Option, none, some, List, [], ◌∷◌, arith}
use filth.Cache.Defs.{
  Stuff, Cache, Front, FrontLaws, contains, found, reserve, unreserve, publish, flush, pick,
  new_cache,
}
use filth.Cache.Handles.{contains-append}
use filth.Cache.Invariant.{Inv}
use filth.Cache.Sizes.{total, total-insert}

pub lookup_of_not_found {ℓ} :
    {K V : Type ℓ} (dec : Discrete K) (h : K) (c : Cache K V)
    → found dec h c ≡ false
    → lookup dec h c.cache ≡ none
unfolding found
lookup_of_not_found dec h c p = ground arith

-- the handles in hand, with the one that `evict()` has taken out of the set
abbrev pub in_hand {ℓ} : {K : Type ℓ} → Option K → List K → List K
in_hand none pend = pend
in_hand (some h) pend = h ∷ pend

module _ {ℓ} {K V : Type ℓ} (dec : Discrete K) where
  -- an empty cache of any size
  pub new_cache-Inv : (max : ℕ) → max < 2 ^ 64 → Inv dec 0 0 [] (new_cache {V = V} max)
  unfolding total lookup
  new_cache-Inv max h = record {
    distinct = tt;
    accounted = omega arith;
    within = omega arith;
    word = omega arith;
    counters = λ q. omega arith;
    tracked = λ q i. cc;
  }

  module _ (firm over : ℕ) (pend : List K) (sz : ℕ) (c : Cache K V) where
    -- Room is found and is counted as reserved.
    pub reserve_fits-Inv :
        c.cur + sz < 2 ^ 64
        → (reserve sz c).1 ≡ true
        → Inv dec firm over pend c
        → Inv dec (firm + sz) over pend (reserve sz c).0
    unfolding reserve
    reserve_fits-Inv room fits v = record {
      distinct = v.distinct;
      accounted = omega (arith, v.accounted);
      within = ground (arith, v.accounted, v.within);
      word = omega arith;
      counters = v.counters;
      tracked = v.tracked;
    }

    -- No room: the bytes are still in `cur`, until they are given back.
    pub reserve_over-Inv :
        c.cur + sz < 2 ^ 64
        → Inv dec firm over pend c
        → Inv dec firm (over + sz) pend (reserve sz c).0
    unfolding reserve
    reserve_over-Inv room v = record {
      distinct = v.distinct;
      accounted = omega (arith, v.accounted);
      within = v.within;
      word = omega arith;
      counters = v.counters;
      tracked = v.tracked;
    }

    pub unreserve_over-Inv :
        Inv dec firm (over + sz) pend c → Inv dec firm over pend (unreserve sz c)
    unreserve_over-Inv v = record {
      distinct = v.distinct;
      accounted = omega (arith, v.accounted, v.word);
      within = v.within;
      word = omega arith;
      counters = v.counters;
      tracked = v.tracked;
    }

    pub unreserve_firm-Inv :
        Inv dec (firm + sz) over pend c → Inv dec firm over pend (unreserve sz c)
    unreserve_firm-Inv v = record {
      distinct = v.distinct;
      accounted = omega (arith, v.accounted, v.word);
      within = omega (arith, v.within);
      word = omega arith;
      counters = v.counters;
      tracked = v.tracked;
    }

    -- The reservation becomes an entry, with its first reader.
    pub publish-Inv :
        (h : K) (s : V)
        → found dec h c ≡ false
        → Inv dec (firm + sz) over pend c
        → Inv dec firm over pend (publish dec h s sz c).0
    unfolding publish
    publish-Inv h s absent v =
        rw (absent, publish)
          (record {
            distinct = insert-Distinct dec h _ c.cache v.distinct;
            accounted = omega (arith, v.accounted, total-insert dec h entry c.cache out);
            within = omega (arith, v.within, total-insert dec h entry c.cache out);
            word = v.word;
            counters = λ q. grind (arith, lookup-insert dec q h entry c.cache, v.counters q);
            tracked = λ q i. grind (arith, lookup-insert dec q h entry c.cache, v.tracked q);
          })
      where
        entry : Stuff V
        entry = record { s = s; refcnt = 1; invalid = false; sz = sz }

        out : lookup dec h c.cache ≡ none
        out = lookup_of_not_found dec h c absent

  -- `flush` keeps the invariant of a cache on which no call is in progress.
  pub flush-Inv : {c : Cache K V} → Inv dec 0 0 [] c → Inv dec 0 0 [] (flush dec c)
  unfolding flush total lookup
  flush-Inv v = record {
    distinct = tt;
    accounted = omega arith;
    within = omega arith;
    word = omega arith;
    counters = λ q. omega arith;
    tracked = λ q i. cc;
  }

module _ {ℓ} {K V : Type ℓ} (dec : Discrete K) (front : Front K) (laws : FrontLaws dec front) where
  pick_from :
      (firm over : ℕ) (pend ts : List K) (c : Cache K V)
      → c.toevict ≡ ts
      → Inv dec firm over pend c
      → Inv dec firm over (in_hand (pick dec front c).1 pend) (pick dec front c).0
  unfolding pick contains
  pick_from firm over pend [] c e v = rw (e, pick) v
  pick_from firm over pend (k ∷ ks) c e v =
      rw (e, pick)
        (record {
          distinct = v.distinct;
          accounted = v.accounted;
          within = v.within;
          word = v.word;
          counters = v.counters;
          tracked = λ q i. ground (
            arith,
            v.tracked q i,
            laws.contains-front q k ks,
            contains-append dec q pend (k ∷ ks),
            contains-append dec q pend (front k ks).1,
          );
        })

  -- The handle that `evict()` takes out of the set is in hand.
  pub pick-Inv :
      (firm over : ℕ) (pend : List K) (c : Cache K V)
      → Inv dec firm over pend c
      → Inv dec firm over (in_hand (pick dec front c).1 pend) (pick dec front c).0
  pick-Inv firm over pend c v = pick_from firm over pend c.toevict c refl v
