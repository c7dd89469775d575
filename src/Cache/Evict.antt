-- ===== src/Cache/Evict.antt =====
-- `evict()`: it comes to an end, drops entries that nobody holds and nothing else, and gives up only
-- when no handle waits any more.
use mathlib.Core.List.{lookup}
use filth.Base.Maps.{lookup-erase}
use filth.Base.{
  ℕ, zero, suc, ◌≤◌, ◌<◌, ◌≡◌, ◌≢◌, refl, Bool, true, false, none, some, List, [], ◌∷◌, length, inl,
  inr, arith, Bool-cases, ap, subst, if◌then◌else◌, ◌∙◌,
}
use filth.Cache.Defs.{
  Stuff, Cache, Front, FrontLaws, evict_one, pick, evict_round, evict_loop, evict,
}
use filth.Cache.Invariant.{Inv, evict_one-Inv}
use filth.Cache.Reserve.{in_hand, pick-Inv}

module _ {ℓ} {K V : Type ℓ} (dec : Discrete K) where
  -- The second state has lost entries that nobody held, and nothing else has changed in the map.
  pub record Drops (c c' : Cache K V) : Type ℓ where
    pub same_max : c'.max ≡ c.max
    pub kept :
        (q : K) (e : Stuff V)
        → lookup dec q c.cache ≡ some e
        → e.refcnt ≢ 0
        → lookup dec q c'.cache ≡ some e
    pub origin :
        (q : K) (e : Stuff V) → lookup dec q c'.cache ≡ some e → lookup dec q c.cache ≡ some e

  pub Drops-refl : (c : Cache K V) → Drops c c
  Drops-refl c = record { same_max = refl; kept = λ q e p n. p; origin = λ q e p. p }

  pub Drops-trans : (a b c : Cache K V) → Drops a b → Drops b c → Drops a c
  Drops-trans a b c f g = record {
    same_max = g.same_max ∙ f.same_max;
    kept = λ q e p n. g.kept q e (f.kept q e p n) n;
    origin = λ q e p. f.origin q e (g.origin q e p);
  }

  pub evict_one-Drops : (h : K) (c : Cache K V) → Drops c (evict_one dec h c).0
  unfolding evict_one
  evict_one-Drops h c = record {
    same_max = ground arith;
    kept = λ q e p n. grind (arith, lookup-erase dec q h c.cache);
    origin = λ q e p. grind (arith, lookup-erase dec q h c.cache);
  }

  pub toevict-evict_one : (h : K) (c : Cache K V) → (evict_one dec h c).0.toevict ≡ c.toevict
  unfolding evict_one
  toevict-evict_one h c = ground arith

  cache-evict_one :
      (h : K) (c : Cache K V)
      → (evict_one dec h c).1 ≡ false
      → (evict_one dec h c).0.cache ≡ c.cache
  unfolding evict_one
  cache-evict_one h c p = ground arith

  module _ (front : Front K) (laws : FrontLaws dec front) (firm over : ℕ) (pend : List K) where
    pub record Evicted (c : Cache K V) (r : Cache K V × Bool) : Type ℓ where
      pub valid : Inv dec firm over pend r.0
      pub drops : Drops c r.0
      pub fewer : r.1 ≡ true → length r.0.toevict < length c.toevict
      pub spent : r.1 ≡ false → r.0.toevict ≡ []
      pub untouched : r.1 ≡ false → r.0.cache ≡ c.cache
      pub shorter : length r.0.toevict ≤ length c.toevict

    -- One round: the front of the set is tried, and the state after it.
    abbrev tried : K → List K → Cache K V → Cache K V × Bool
    tried k ks c = evict_one dec (front k ks).0 (record c { toevict = (front k ks).1 })

    pick-cons :
        (k : K) (ks : List K) (c : Cache K V)
        → c.toevict ≡ k ∷ ks
        → pick dec front c ≡ (record c { toevict = (front k ks).1 }, some (front k ks).0)
    unfolding pick
    pick-cons k ks c e = rw (e, pick)

    tried-Inv :
        (k : K) (ks : List K) (c : Cache K V)
        → c.toevict ≡ k ∷ ks
        → Inv dec firm over pend c
        → Inv dec firm over pend (tried k ks c).0
    tried-Inv k ks c e v = evict_one-Inv dec (front k ks).0 (
        subst (λ p. Inv dec firm over (in_hand p.1 pend) p.0) (pick-cons k ks c e)
          (pick-Inv dec front laws firm over pend c v))

    tried-Drops : (k : K) (ks : List K) (c : Cache K V) → Drops c (tried k ks c).0
    tried-Drops k ks c =
        let d = evict_one-Drops (front k ks).0 (record c { toevict = (front k ks).1 }) in
        record { same_max = d.same_max; kept = d.kept; origin = d.origin }

    length-tried :
        (k : K) (ks : List K) (c : Cache K V) → length (tried k ks c).0.toevict ≡ length ks
    length-tried k ks c =
        ap length (toevict-evict_one (front k ks).0 (record c { toevict = (front k ks).1 }))
        ∙ laws.length-front k ks

    evict_loop-cons :
        (fuel : ℕ) (k : K) (ks : List K) (c : Cache K V)
        → c.toevict ≡ k ∷ ks
        → evict_loop dec front (suc fuel) c ≡ (
            if (tried k ks c).1
            then some ((tried k ks c).0, true)
            else evict_loop dec front fuel (tried k ks c).0)
    unfolding evict_loop evict_round
    evict_loop-cons fuel k ks c e =
        ap (evict_round dec front (evict_loop dec front fuel)) (pick-cons k ks c e)

    pick-nil : (c : Cache K V) → c.toevict ≡ [] → pick dec front c ≡ (c, none)
    unfolding pick
    pick-nil c e = ground arith

    evict_loop-nil :
        (fuel : ℕ) (c : Cache K V)
        → c.toevict ≡ []
        → evict_loop dec front (suc fuel) c ≡ some (c, false)
    unfolding evict_loop evict_round
    evict_loop-nil fuel c e = ap (evict_round dec front (evict_loop dec front fuel)) (pick-nil c e)

    pub evict_loop-Evicted :
        (fuel : ℕ) (c : Cache K V) (ts : List K)
        → c.toevict ≡ ts
        → length ts < fuel
        → Inv dec firm over pend c
        → (r : Cache K V × Bool) × (evict_loop dec front fuel c ≡ some r) × Evicted c r
    evict_loop-Evicted zero c ts e h v = elim h [ ]
    evict_loop-Evicted (suc fuel) c [] e h v = (
      (c, false),
      evict_loop-nil fuel c e,
      record {
        valid = v;
        drops = Drops-refl c;
        fewer = λ p. cc;
        spent = λ p. e;
        untouched = λ p. refl;
        shorter = omega arith;
      },
    )
    evict_loop-Evicted (suc fuel) c (k ∷ ks) e h v = elim (Bool-cases (tried k ks c).1) [
      | inl done ↦ (
        ((tried k ks c).0, true),
        evict_loop-cons fuel k ks c e ∙ rw done refl,
        record {
          valid = tried-Inv k ks c e v;
          drops = tried-Drops k ks c;
          fewer = λ p. omega (arith, length-tried k ks c, ap length e);
          spent = λ p. cc;
          untouched = λ p. cc;
          shorter = omega (arith, length-tried k ks c, ap length e);
        },
      )
      | inr more ↦
          let (r, run, post) =
            evict_loop-Evicted fuel (tried k ks c).0 (tried k ks c).0.toevict refl
              (omega (arith, length-tried k ks c)) (tried-Inv k ks c e v) in
          (
            r,
            evict_loop-cons fuel k ks c e ∙ rw more run,
            record {
              valid = post.valid;
              drops = Drops-trans _ _ _ (tried-Drops k ks c) post.drops;
              fewer = λ p. omega (arith, length-tried k ks c, ap length e, post.fewer p);
              spent = post.spent;
              untouched = λ p. post.untouched p ∙ cache-evict_one _ _ more;
              shorter = omega (arith, length-tried k ks c, ap length e, post.shorter);
            },
          )
    ]

    -- `evict()` returns on every cache with the invariant, and keeps it. It takes out only entries that
    -- nobody holds. Where it succeeds, fewer handles wait; where it fails, none waits any more and no
    -- entry has gone.
    pub evict-Evicted :
        (c : Cache K V)
        → Inv dec firm over pend c
        → (r : Cache K V × Bool) × (evict dec front c ≡ some r) × Evicted c r
    unfolding evict
    evict-Evicted c v = evict_loop-Evicted (suc (length c.toevict)) c c.toevict refl (omega arith) v
