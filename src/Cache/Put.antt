-- ===== src/Cache/Put.antt =====
-- `put`: it always returns, and what it has done to the cache.
use mathlib.Core.List.{lookup}
use filth.Base.Maps.{insert, lookup-insert}
use filth.Base.{
  ℕ, zero, suc, ◌+◌, ◌^◌, ◌≤◌, ◌<◌, ◌≡◌, ◌≢◌, ◌⊎◌, refl, Bool, true, false, Option, some, [],
  length, inl, inr, arith, ltb, Bool-cases, Option-cases, ap, ◌∙◌, subst,
}
use filth.Cache.Defs.{
  Stuff, Cache, Front, FrontLaws, contains, found, reserve, unreserve, publish, evict, put_retry,
  put_reserved, put_loop, put,
}
use filth.Cache.Evict.{Drops, Drops-refl, Drops-trans, Evicted, evict-Evicted}
use filth.Cache.Invariant.{Inv, idle}
use filth.Cache.Reserve.{
  reserve_fits-Inv, reserve_over-Inv, unreserve_over-Inv, unreserve_firm-Inv, publish-Inv,
  lookup_of_not_found,
}
use filth.Cache.Sizes.{total}

abbrev pub new_entry {ℓ} : {V : Type ℓ} → V → ℕ → Stuff V
new_entry s sz = record { s = s; refcnt = 1; invalid = false; sz = sz }

module _ {ℓ} {K V : Type ℓ} (dec : Discrete K) (new_ok : Bool) (h : K) (s : V) (sz : ℕ) where
  -- Why a call of `put` that returns false has stored nothing.
  pub data Refusal (c c' : Cache K V) : Type ℓ where
    too_large : c.max < sz → Refusal c c'
    present : found dec h c ≡ true → Refusal c c'
    no_memory : new_ok ≡ false → Refusal c c'
    -- all that is left in the cache is held, and there is no room beside it
    full : c.max < total c'.cache + sz → ((q : K) → idle dec q c' ≡ false) → Refusal c c'

  -- What a call of `put` has made of `c`.
  pub record Stored (c : Cache K V) (r : Cache K V × Bool) : Type ℓ where
    pub valid : Inv dec 0 0 [] r.0
    pub same_max : r.0.max ≡ c.max
    pub kept :
        (q : K) (e : Stuff V)
        → lookup dec q c.cache ≡ some e
        → e.refcnt ≢ 0
        → lookup dec q r.0.cache ≡ some e
    pub origin :
        (q : K) (e : Stuff V)
        → lookup dec q r.0.cache ≡ some e
        → (lookup dec q c.cache ≡ some e) ⊎ ((q ≡ h) × (r.1 ≡ true))
    pub stored : r.1 ≡ true → lookup dec h r.0.cache ≡ some (new_entry s sz)
    pub refused : r.1 ≡ false → Refusal c r.0

  refused-Stored :
      (c c' : Cache K V) → Inv dec 0 0 [] c' → Drops dec c c' → Refusal c c' → Stored c (c', false)
  refused-Stored c c' v d why = record {
    valid = v;
    same_max = d.same_max;
    kept = d.kept;
    origin = λ q e p. inl (d.origin q e p);
    stored = λ p. cc;
    refused = λ p. why;
  }

  publish-some :
      (c : Cache K V)
      → found dec h c ≡ false
      → publish dec h s sz c ≡ (record c { cache = insert dec h (new_entry s sz) c.cache }, true)
  unfolding publish
  publish-some c absent = rw absent

  publish-Stored :
      (c c' : Cache K V)
      → Drops dec c c'
      → found dec h c' ≡ false
      → Inv dec sz 0 [] c'
      → Stored c (publish dec h s sz c')
  publish-Stored c c' d absent v = rw (publish-some c' absent) (record {
    valid =
        subst (λ r. Inv dec 0 0 [] r.0) (publish-some c' absent)
          (publish-Inv dec 0 0 [] sz c' h s absent (subst (λ n. Inv dec n 0 [] c') zero_plus v));
    same_max = d.same_max;
    kept = λ q e p n. grind (
      arith,
      lookup-insert dec q h (new_entry s sz) c'.cache,
      d.kept q e p n,
      lookup_of_not_found dec h c' absent,
    );
    origin = λ q e p. elim (dec q h) [
      | yes same ↦ inr (same, refl)
      | no other ↦
          inl (d.origin q e (ground (arith, lookup-insert dec q h (new_entry s sz) c'.cache)))
    ];
    stored = λ p. ground (arith, lookup-insert dec h h (new_entry s sz) c'.cache);
    refused = λ p. cc;
  })
    where
      zero_plus : sz ≡ 0 + sz
      zero_plus = omega arith

  reserve-Drops : (c : Cache K V) → Drops dec c (reserve sz c).0
  unfolding reserve
  reserve-Drops c = record { same_max = refl; kept = λ q e p n. p; origin = λ q e p. p }

  given_back-Drops : (c : Cache K V) → Drops dec c (unreserve sz (reserve sz c).0)
  unfolding reserve
  given_back-Drops c = record { same_max = refl; kept = λ q e p n. p; origin = λ q e p. p }

  reserve-eta :
      (b : Bool) (c : Cache K V) → (reserve sz c).1 ≡ b → reserve sz c ≡ ((reserve sz c).0, b)
  reserve-eta b c p = ap (λ (t : Bool). ((reserve sz c).0, t)) p

  fits-Inv :
      (c : Cache K V)
      → c.cur + sz < 2 ^ 64
      → (reserve sz c).1 ≡ true
      → Inv dec 0 0 [] c
      → Inv dec sz 0 [] (reserve sz c).0
  fits-Inv c room fits v =
      let e : 0 + sz ≡ sz = omega arith in
      subst (λ n. Inv dec n 0 [] (reserve sz c).0) e (reserve_fits-Inv dec 0 0 [] sz c room fits v)

  found-Drops : (c c' : Cache K V) → Drops dec c c' → found dec h c ≡ false → found dec h c' ≡ false
  unfolding found
  found-Drops c c' d absent = elim (Option-cases (lookup dec h c'.cache)) [
    | inl out ↦ rw (out, found)
    | inr (e, there) ↦ absurd (cc (d.origin h e there, lookup_of_not_found dec h c absent))
  ]

  module _ (front : Front K) (laws : FrontLaws dec front) where
    abbrev again : ℕ → Cache K V → Option (Cache K V × Bool)
    again fuel = put_loop dec front fuel new_ok h s sz

    step_eq :
        (fuel : ℕ) (b : Bool) (c : Cache K V)
        → (reserve sz c).1 ≡ b
        → again (suc fuel) c
          ≡ put_reserved dec front (again fuel) new_ok h s sz ((reserve sz c).0, b)
    unfolding put_loop
    step_eq fuel b c p = ap (put_reserved dec front (again fuel) new_ok h s sz) (reserve-eta b c p)

    -- Room is found: the entry goes in, if there is memory for it.
    put_fits :
        (fuel : ℕ) (c₀ c : Cache K V)
        → c.cur + sz < 2 ^ 64
        → (reserve sz c).1 ≡ true
        → Drops dec c₀ c
        → found dec h c ≡ false
        → Inv dec 0 0 [] c
        → (r : Cache K V × Bool) × (again (suc fuel) c ≡ some r) × Stored c₀ r
    unfolding put_reserved
    put_fits fuel c₀ c room fits d absent v = elim (Bool-cases new_ok) [
      | inl has ↦ (
        publish dec h s sz (reserve sz c).0,
        step_eq fuel true c fits ∙ rw has refl,
        publish-Stored c₀ (reserve sz c).0 (Drops-trans dec _ _ _ d (reserve-Drops c))
            (found-Drops c (reserve sz c).0 (reserve-Drops c) absent) (fits-Inv c room fits v),
      )
      | inr lacks ↦ (
        (unreserve sz (reserve sz c).0, false),
        step_eq fuel true c fits ∙ rw lacks refl,
        refused-Stored c₀ _
            (unreserve_firm-Inv dec 0 0 [] sz _ (reserve_fits-Inv dec 0 0 [] sz c room fits v))
            (Drops-trans dec _ _ _ d (given_back-Drops c)) (no_memory lacks),
      )
    ]

    -- No room: the bytes are given back, and `evict()` is asked for some.
    abbrev given_back : Cache K V → Cache K V
    given_back c = unreserve sz (reserve sz c).0

    put_over :
        (fuel : ℕ) (c : Cache K V) (r : Cache K V × Bool) (b : Bool)
        → (reserve sz c).1 ≡ false
        → evict dec front (given_back c) ≡ some r
        → r.1 ≡ b
        → again (suc fuel) c ≡ put_retry dec front (again fuel) (some (r.0, b))
    unfolding put_reserved
    put_over fuel c r b over run is_b =
        step_eq fuel false c over
        ∙ ap (put_retry dec front (again fuel)) (run ∙ ap (λ (t : Bool). some (r.0, t)) is_b)

    abbrev Eviction : Cache K V → Cache K V × Bool → Type ℓ
    Eviction c r = Evicted dec front laws 0 0 [] (given_back c) r

    -- An eviction that found nothing leaves a cache of entries that are all held.
    full_lem :
        (c₀ c : Cache K V) (r : Cache K V × Bool)
        → c.cur + sz < 2 ^ 64
        → (reserve sz c).1 ≡ false
        → c.max ≡ c₀.max
        → Inv dec 0 0 [] c
        → Eviction c r
        → r.1 ≡ false
        → Refusal c₀ r.0
    unfolding reserve contains
    full_lem c₀ c r room over same v post spent =
        full (ground (arith, v.accounted, ap total (post.untouched spent))) (λ q.
          elim (Bool-cases (idle dec q r.0)) [
            | inl free ↦
                absurd (cc (post.valid.tracked q free, ap (contains dec q) (post.spent spent)))
            | inr busy ↦ busy
          ])

    length-fewer :
        (c : Cache K V) (r : Cache K V × Bool)
        → Eviction c r
        → r.1 ≡ true
        → length r.0.toevict < length c.toevict
    unfolding reserve
    length-fewer c r post more = post.fewer more

    evict-given_back :
        (c : Cache K V)
        → c.cur + sz < 2 ^ 64
        → Inv dec 0 0 [] c
        → (r : Cache K V × Bool) × (evict dec front (given_back c) ≡ some r) × Eviction c r
    evict-given_back c room v =
        evict-Evicted dec front laws 0 0 [] (given_back c)
          (unreserve_over-Inv dec 0 0 [] sz _ (reserve_over-Inv dec 0 0 [] sz c room v))

    -- `put` behind its first two tests
    put_loop-Stored :
        (fuel : ℕ) (c₀ c : Cache K V)
        → length c.toevict < fuel
        → sz ≤ c.max
        → c.max < 2 ^ 63
        → Drops dec c₀ c
        → found dec h c ≡ false
        → Inv dec 0 0 [] c
        → (r : Cache K V × Bool) × (again fuel c ≡ some r) × Stored c₀ r
    unfolding put_retry
    put_loop-Stored zero c₀ c enough small bound d absent v = elim enough [ ]
    put_loop-Stored (suc fuel) c₀ c enough small bound d absent v =
        elim (Bool-cases (reserve sz c).1) [
          | inl fits ↦ put_fits fuel c₀ c (omega arith) fits d absent v
          | inr over ↦
              let (r, run, post) = evict-given_back c (omega arith) v in
              let drops = Drops-trans dec _ _ _ (given_back-Drops c) post.drops in
              elim (Bool-cases r.1) [
                | inl more ↦
                    let (r', run', post') =
                      put_loop-Stored fuel c₀ r.0 (omega (arith, length-fewer c r post more))
                        (omega (arith, drops.same_max)) (omega (arith, drops.same_max))
                        (Drops-trans dec _ _ _ d drops) (found-Drops c r.0 drops absent)
                        post.valid in
                    (r', put_over fuel c r true over run more ∙ run', post')
                | inr spent ↦ (
                  (r.0, false),
                  put_over fuel c r false over run spent,
                  refused-Stored c₀ r.0 post.valid (Drops-trans dec _ _ _ d drops)
                      (full_lem c₀ c r (omega arith) over d.same_max v post spent),
                )
              ]
        ]

    -- `put` returns, whatever the handle and the size, on a cache with the invariant whose limit is below
    -- 2^63. The invariant stays; entries in use stay; no entry appears but the new one; true means
    -- that the new one is stored, and false has one of the reasons of `Refusal`.
    pub put-Stored :
        (c : Cache K V)
        → c.max < 2 ^ 63
        → Inv dec 0 0 [] c
        → (r : Cache K V × Bool) × (put dec front new_ok h s sz c ≡ some r) × Stored c r
    unfolding put
    put-Stored c bound v = elim (Bool-cases (ltb c.max sz)) [
      | inl large ↦ (
        (c, false),
        rw (large, put),
        refused-Stored c c v (Drops-refl dec c) (too_large (ground arith)),
      )
      | inr fits ↦
          rw (fits, put)
            elim (Bool-cases (found dec h c)) [
              | inl there ↦
                  ((c, false), rw there, refused-Stored c c v (Drops-refl dec c) (present there))
              | inr absent ↦ rw absent (
                  put_loop-Stored (suc (length c.toevict)) c c (omega arith) (ground arith) bound
                    (Drops-refl dec c) absent v)
            ]
    ]
