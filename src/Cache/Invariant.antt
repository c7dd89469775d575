-- ===== src/Cache/Invariant.antt =====
-- The invariant of the cache, kept by every section. It speaks of the reservations and handles that
-- the operations in progress have in hand, so that it also holds between two sections.
use mathlib.Core.List.{lookup}
use filth.Base.Maps.{
  Distinct, erase-Distinct, modify-Distinct, lookup-erase, lookup-modify, modify, erase,
}
use filth.Base.{
  ℕ, ◌+◌, ◌^◌, ◌≤◌, ◌<◌, ◌≡◌, refl, Bool, true, false, none, some, List, ◌∷◌, ◌++◌, inl, inr, arith,
  ◌==◌, Option-cases, Bool-cases, ap,
}
use filth.Base.Words.{sub64, sub64_exact}
use filth.Cache.Defs.{Stuff, Cache, contains, get, release, evict_one, enqueue, advise_evict}
use filth.Cache.Handles.{contains-append, contains-cons_self}
use filth.Cache.Sizes.{total, total-erase, total-modify}

module _ {ℓ} {K V : Type ℓ} (dec : Discrete K) where
  -- the entry is there and nobody holds it
  abbrev pub idle : K → Cache K V → Bool
  idle q c = elim (lookup dec q c.cache) [ none ↦ false | some e ↦ e.refcnt == 0 ]

  abbrev pub refs : K → Cache K V → ℕ
  refs q c = elim (lookup dec q c.cache) [ none ↦ 0 | some e ↦ e.refcnt ]

  -- `firm` bytes are reserved by calls of `put` that have found room, `over` bytes by calls that
  -- have not and are about to give them back; `pend` lists the handles that some call has in hand.
  pub record Inv (firm over : ℕ) (pend : List K) (c : Cache K V) : Type ℓ where
    pub distinct : Distinct dec c.cache
    pub accounted : c.cur ≡ total c.cache + firm + over
    pub within : total c.cache + firm ≤ c.max
    pub word : c.cur < 2 ^ 64
    pub counters : (q : K) → refs q c < 2 ^ 32
    pub tracked : (q : K) → idle q c ≡ true → contains dec q (pend ++ c.toevict) ≡ true

  module _ {firm over : ℕ} {pend : List K} (h : K) {c : Cache K V} where
    -- A handle more in hand does no harm.
    pub weaken-Inv : Inv firm over pend c → Inv firm over (h ∷ pend) c
    unfolding contains
    weaken-Inv v = record {
      distinct = v.distinct;
      accounted = v.accounted;
      within = v.within;
      word = v.word;
      counters = v.counters;
      tracked = λ q i. ground (arith, v.tracked q i);
    }

    modify-Inv :
        (f : Stuff V → Stuff V)
        → ((e : Stuff V) → (f e).sz ≡ e.sz)
        → ((e : Stuff V) → e.refcnt < 2 ^ 32 → (f e).refcnt < 2 ^ 32)
        → ((e : Stuff V)
            → lookup dec h c.cache ≡ some e
            → (f e).refcnt ≡ 0
            → contains dec h (pend ++ c.toevict) ≡ true)
        → Inv firm over pend c
        → Inv firm over pend (record c { cache = modify dec h f c.cache })
    modify-Inv f size small kept v = record {
      distinct = modify-Distinct dec h f c.cache v.distinct;
      accounted = omega (arith, v.accounted, total-modify dec h f c.cache size);
      within = omega (arith, v.within, total-modify dec h f c.cache size);
      word = v.word;
      counters = λ q. grind (arith, lookup-modify dec q h f c.cache, v.counters q, small);
      tracked = λ q i. grind (arith, lookup-modify dec q h f c.cache, v.tracked q, kept);
    }

  module _ {firm over : ℕ} {pend : List K} (h : K) {c : Cache K V} where
    -- A new reader, while the counter has room for it.
    pub get-Inv : refs h c + 1 < 2 ^ 32 → Inv firm over pend c → Inv firm over pend (get dec h c).0
    unfolding get
    get-Inv room v = elim (Option-cases (lookup dec h c.cache)) [
      | inl absent ↦ rw (absent, get) v
      | inr (e, present) ↦
          rw (present, get)
            (modify-Inv h _ (λ x. refl) (λ x small. omega arith) (λ x p z. ground arith) v)
    ]

    -- A reader fewer; its handle is in hand until `unget` has dealt with it.
    pub release-Inv :
        0 < refs h c → Inv firm over pend c → Inv firm over (h ∷ pend) (release dec h c).0
    unfolding release
    release-Inv held v = elim (Option-cases (lookup dec h c.cache)) [
      | inl absent ↦ rw (absent, release) (weaken-Inv h v)
      | inr (e, present) ↦
          rw (present, release)
            (modify-Inv h _ (λ x. refl) (λ x small. omega arith)
              (λ x p z. contains-cons_self dec h (pend ++ c.toevict)) (weaken-Inv h v))
    ]

    -- A handle in hand whose entry is held, or gone, can be dropped.
    pub settle-Inv : idle h c ≡ false → Inv firm over (h ∷ pend) c → Inv firm over pend c
    unfolding contains
    settle-Inv busy v = record {
      distinct = v.distinct;
      accounted = v.accounted;
      within = v.within;
      word = v.word;
      counters = v.counters;
      tracked = λ q i. elim (dec q h) [
        | yes same ↦ absurd (cc (i, busy, ap (λ k. idle k c) same))
        | no other ↦ ground (arith, v.tracked q i)
      ];
    }

    removed-Inv :
        (e : Stuff V)
        → lookup dec h c.cache ≡ some e
        → Inv firm over (h ∷ pend) c
        → Inv firm over pend (record c {
          cache = erase dec h c.cache;
          cur = sub64 c.cur e.sz;
          freed = e.s ∷ c.freed;
        })
    unfolding contains
    removed-Inv e p v = record {
      distinct = erase-Distinct dec h c.cache v.distinct;
      accounted = omega (arith, smaller, sub64_exact c.cur e.sz);
      within = omega (arith, smaller);
      word = omega arith;
      counters = λ q. grind (arith, lookup-erase dec q h c.cache, v.counters q);
      tracked = λ q i. grind (arith, lookup-erase dec q h c.cache, v.tracked q);
    }
      where
        smaller : total (erase dec h c.cache) + e.sz ≡ total c.cache
        smaller = total-erase dec h e c.cache v.distinct p

    -- The section of `evict(h)` leaves nothing to do about `h`.
    pub evict_one-Inv : Inv firm over (h ∷ pend) c → Inv firm over pend (evict_one dec h c).0
    unfolding evict_one
    evict_one-Inv v = elim (Option-cases (lookup dec h c.cache)) [
      | inl absent ↦ rw (absent, evict_one) (settle-Inv (ground arith) v)
      | inr (e, present) ↦
          rw (present, evict_one)
            elim (Bool-cases (e.refcnt == 0)) [
              | inl free ↦ rw free (removed-Inv e present v)
              | inr held ↦ rw held (settle-Inv (ground arith) v)
            ]
    ]

    pub enqueue-Inv : Inv firm over (h ∷ pend) c → Inv firm over pend (enqueue dec h c)
    unfolding enqueue contains
    enqueue-Inv v = record {
      distinct = ground (arith, v.distinct);
      accounted = ground (arith, v.accounted);
      within = ground (arith, v.within);
      word = ground (arith, v.word);
      counters = λ q. ground (arith, v.counters q);
      tracked = λ q i. ground (
        arith,
        v.tracked q,
        contains-append dec q pend c.toevict,
        contains-append dec q pend (h ∷ c.toevict),
      );
    }

    pub advise_evict-Inv : Inv firm over pend c → Inv firm over pend (advise_evict dec h c)
    unfolding advise_evict
    advise_evict-Inv v =
        modify-Inv h _ (λ x. refl) (λ x small. small) (λ x p z. ground (arith, v.tracked h)) v
