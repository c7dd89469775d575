-- ===== src/Cache/Threads/Local.antt =====
-- The invariant as one thread sees it, kept by each of its sections.
use filth.Base.{
  ℕ, ◌+◌, ◌^◌, ◌≤◌, ◌<◌, ◌≡◌, refl, true, false, List, [], ◌∷◌, ◌++◌, inl, inr, arith, Bool-cases,
  Option-cases, if◌then◌else◌, ◌∙◌,
}
use filth.Cache.Defs.{
  flush, Cache, Front, FrontLaws, found, get, release, evict_one, enqueue, advise_evict, reserve,
  publish, pick,
}
use filth.Cache.Borrow.{idle-release}
use filth.Cache.Evict.{evict_one-Drops}
use filth.Cache.Invariant.{
  Inv, refs, get-Inv, release-Inv, evict_one-Inv, enqueue-Inv, advise_evict-Inv, weaken-Inv,
  settle-Inv,
}
use filth.Cache.Reserve.{
  reserve_fits-Inv, reserve_over-Inv, unreserve_over-Inv, unreserve_firm-Inv, publish-Inv, pick-Inv,
}
use filth.Cache.Threads.Refs.{
  refs-get, refs-release, refs-evict_one, refs-advise_evict, refs-publish, refs-pick, refs-enqueue,
  count-le-length,
}
use filth.Cache.Threads.Steps.{
  Pc, hold, erase_one, after_pick, ready, unget_evict, unget_enqueue, put_try, put_back, put_evict,
  put_evict_one, put_new, Shared, count, after_release, Clients, Careful, Move, flush_step,
  get_step, unget_step, unget_evict_step, unget_enqueue_step, advise_step, put_step, reserve_step,
  give_back_step, pick_step, evict_step, no_memory_step, publish_step,
}

module _ {ℓ} {K V : Type ℓ} where
  -- what a thread has reserved and will turn into an entry, or give back
  abbrev pub firm_of : Pc K V → ℕ
  firm_of (put_new h s sz) = sz
  firm_of _ = 0

  -- what a thread has reserved beyond the limit
  abbrev pub over_of : Pc K V → ℕ
  over_of (put_back h s sz) = sz
  over_of _ = 0

  -- the handle that a thread has in hand
  abbrev pub hand : Pc K V → List K
  hand (unget_evict h) = h ∷ []
  hand (unget_enqueue h) = h ∷ []
  hand (put_evict_one h s sz k) = k ∷ []
  hand _ = []

  -- the size that a thread is putting
  abbrev pub size_of : Pc K V → ℕ
  size_of (put_try h s sz) = sz
  size_of (put_back h s sz) = sz
  size_of (put_evict h s sz) = sz
  size_of (put_evict_one h s sz k) = sz
  size_of (put_new h s sz) = sz
  size_of _ = 0

module _ {ℓ} {K V : Type ℓ} (dec : Discrete K) where
  pub recast :
      {a a' b b' : ℕ} {pend : List K} {c : Cache K V}
      → a ≡ a'
      → b ≡ b'
      → Inv dec a b pend c
      → Inv dec a' b' pend c
  recast p q v = record {
    distinct = v.distinct;
    accounted = omega (arith, v.accounted);
    within = omega (arith, v.within);
    word = v.word;
    counters = v.counters;
    tracked = v.tracked;
  }

  -- One thread at `p`, beside others that have reserved `firm` and `over` and hold `pend` in hand.
  pub record Local (firm over : ℕ) (pend : List K) (m : Shared K V) (p : Pc K V) : Type ℓ where
    pub inv : Inv dec (m.leaked + firm + firm_of p) (over + over_of p) (hand p ++ pend) m.cache
    pub same : (q : K) → refs dec q m.cache ≡ count dec q m.held
    pub sized : size_of p ≤ m.cache.max

  pub Move-max :
      (front : Front K) {cl : Clients} {m m' : Shared K V} {p p' : Pc K V}
      → Move dec front cl m p m' p'
      → m'.cache.max ≡ m.cache.max
  unfolding get release evict_one enqueue advise_evict flush reserve pick publish
  Move-max front (get_step h few) = ground arith
  Move-max front (unget_step h held) = ground arith
  Move-max front (unget_evict_step h) = ground arith
  Move-max front (unget_enqueue_step h) = ground arith
  Move-max front (advise_step h) = refl
  Move-max front (flush_step e) = refl
  Move-max front (put_step h s sz small absent) = refl
  Move-max front (reserve_step h s sz) = refl
  Move-max front (give_back_step h s sz) = refl
  Move-max front (pick_step h s sz) = ground arith
  Move-max front (evict_step h s sz k) = ground arith
  Move-max front (no_memory_step h s sz) = refl
  Move-max front (publish_step h s sz few) = ground arith

  max-pick : (front : Front K) (c : Cache K V) → (pick dec front c).0.max ≡ c.max
  unfolding pick
  max-pick front c = ground arith

  publish-found :
      (h : K) (s : V) (sz : ℕ) (c : Cache K V)
      → found dec h c ≡ true
      → publish dec h s sz c ≡ (c, false)
  unfolding publish
  publish-found h s sz c there = rw there

  publish-absent :
      (h : K) (s : V) (sz : ℕ) (c : Cache K V)
      → found dec h c ≡ false
      → (publish dec h s sz c).1 ≡ true
  unfolding publish
  publish-absent h s sz c absent = rw absent

  module _ (firm over : ℕ) (pend : List K) {m : Shared K V} where
    unget-Local :
        (h : K)
        → 0 < count dec h m.held
        → Local firm over pend m ready
        → Local firm over pend
            (record m { cache = (release dec h m.cache).0; held = erase_one dec h m.held })
            (after_release h (release dec h m.cache).1 (release dec h m.cache).2)
    unget-Local h held v =
        let after = release-Inv dec h (omega (arith, v.same h)) v.inv in
        let same = λ (q : K). refs-release dec q h m.cache m.held v.same held (v.inv.counters h) in
        elim (Bool-cases (release dec h m.cache).1) [
          | inl last ↦ rw last elim (Bool-cases (release dec h m.cache).2) [
            | inl now ↦ rw now (record { inv = after; same = same; sized = omega arith })
            | inr later ↦ rw later (record { inv = after; same = same; sized = omega arith })
          ]
          | inr more ↦ rw more (record {
            inv = settle-Inv dec h (idle-release dec h m.cache more) after;
            same = same;
            sized = omega arith;
          })
        ]

    unget_evict-Local :
        (h : K)
        → Local firm over pend m (unget_evict h)
        → Local firm over pend
            (record m { cache = (evict_one dec h m.cache).0 })
            (if (evict_one dec h m.cache).1 then ready else unget_enqueue h)
    unget_evict-Local h v =
        let after = evict_one-Inv dec h v.inv in
        let same = λ (q : K). refs-evict_one dec q h m.cache ∙ v.same q in
        elim (Bool-cases (evict_one dec h m.cache).1) [
          | inl gone ↦ rw gone (record { inv = after; same = same; sized = omega arith })
          | inr stays ↦
              rw stays (record { inv = weaken-Inv dec h after; same = same; sized = omega arith })
        ]

    reserve-Local :
        (h : K) (s : V) (sz : ℕ)
        → m.cache.max + m.cache.max + over < 2 ^ 64
        → Local firm over pend m (put_try h s sz)
        → Local firm over pend
            (record m { cache = (reserve sz m.cache).0 })
            (if (reserve sz m.cache).1 then put_new h s sz else put_back h s sz)
    unfolding reserve
    reserve-Local h s sz bound v =
        let room : m.cache.cur + sz < 2 ^ 64 =
          omega (arith, v.inv.accounted, v.inv.within, v.sized) in
        elim (Bool-cases (reserve sz m.cache).1) [
          | inl fits ↦ rw fits (record {
            inv =
                recast (omega arith) (omega arith)
                  (reserve_fits-Inv dec _ _ pend sz m.cache room fits v.inv);
            same = v.same;
            sized = v.sized;
          })
          | inr more ↦ rw more (record {
            inv =
                recast (omega arith) (omega arith)
                  (reserve_over-Inv dec _ _ pend sz m.cache room v.inv);
            same = v.same;
            sized = v.sized;
          })
        ]

    evict-Local :
        (h : K) (s : V) (sz : ℕ) (k : K)
        → Local firm over pend m (put_evict_one h s sz k)
        → Local firm over pend
            (record m { cache = (evict_one dec k m.cache).0 })
            (if (evict_one dec k m.cache).1 then put_try h s sz else put_evict h s sz)
    evict-Local h s sz k v =
        let after = evict_one-Inv dec k v.inv in
        let same = λ (q : K). refs-evict_one dec q k m.cache ∙ v.same q in
        let sized : sz ≤ (evict_one dec k m.cache).0.max =
          omega (arith, v.sized, (evict_one-Drops dec k m.cache).same_max) in
        elim (Bool-cases (evict_one dec k m.cache).1) [
          | inl gone ↦ rw gone (record { inv = after; same = same; sized = sized })
          | inr stays ↦ rw stays (record { inv = after; same = same; sized = sized })
        ]

    publish-Local :
        (h : K) (s : V) (sz : ℕ)
        → Local firm over pend m (put_new h s sz)
        → Local firm over pend
            (record m {
              cache = (publish dec h s sz m.cache).0;
              held = hold (publish dec h s sz m.cache).1 h m.held;
              leaked = if (publish dec h s sz m.cache).1 then m.leaked else m.leaked + sz;
            })
            ready
    publish-Local h s sz v =
        let same = λ (q : K). refs-publish dec q h s sz m.cache m.held v.same in
        elim (Bool-cases (found dec h m.cache)) [
          | inl there ↦ rw (publish-found h s sz m.cache there) (record {
            inv = recast (omega arith) (omega arith) v.inv;
            same = v.same;
            sized = omega arith;
          })
          | inr absent ↦
              let done = publish-absent h s sz m.cache absent in
              rw done (record {
                inv =
                    recast (omega arith) (omega arith)
                      (publish-Inv dec _ _ pend sz m.cache h s absent v.inv);
                same = λ q. rw done at (same q);
                sized = omega arith;
              })
        ]

    pick-Local :
        (front : Front K)
        → FrontLaws dec front
        → (h : K) (s : V) (sz : ℕ) → Local firm over pend m (put_evict h s sz)
        → Local firm over pend
            (record m { cache = (pick dec front m.cache).0 })
            (after_pick h s sz (pick dec front m.cache).1)
    pick-Local front laws h s sz v =
        let after = pick-Inv dec front laws _ _ pend m.cache v.inv in
        let same = λ (q : K). refs-pick dec front q m.cache ∙ v.same q in
        let sized : sz ≤ (pick dec front m.cache).0.max =
          omega (arith, v.sized, max-pick front m.cache) in
        elim (Option-cases (pick dec front m.cache).1) [
          | inl e ↦ rw e (record { inv = rw e at after; same = same; sized = omega arith })
          | inr (k, e) ↦ rw e (record { inv = rw e at after; same = same; sized = sized })
        ]

    -- Every section keeps the invariant, as long as the limits of the words are far.
    pub Move-Local :
        (front : Front K)
        → FrontLaws dec front
        → {cl : Clients} → Careful cl
        → {m' : Shared K V} {p p' : Pc K V} → m.cache.max + m.cache.max + over < 2 ^ 64
        → Move dec front cl m p m' p'
        → Local firm over pend m p
        → Local firm over pend m' p'
    Move-Local front laws care room (get_step h few) v = record {
      inv =
          get-Inv dec h (omega (arith, v.same h, count-le-length dec h m.held, few care.counted))
            v.inv;
      same = λ q. refs-get dec q h m.cache m.held v.same (few care.counted);
      sized = omega arith;
    }
    Move-Local front laws care room (unget_step h held) v = unget-Local h (held care.own) v
    Move-Local front laws care room (unget_evict_step h) v = unget_evict-Local h v
    Move-Local front laws care room (unget_enqueue_step h) v = record {
      inv = enqueue-Inv dec h v.inv;
      same = λ q. refs-enqueue dec q h m.cache ∙ v.same q;
      sized = omega arith;
    }
    Move-Local front laws care room (advise_step h) v = record {
      inv = advise_evict-Inv dec h v.inv;
      same = λ q. refs-advise_evict dec q h m.cache ∙ v.same q;
      sized = omega arith;
    }
    Move-Local front laws care room (flush_step e) v = absurd (ground (arith, e, care.no_flush))
    Move-Local front laws care room (put_step h s sz small absent) v = record {
      inv = v.inv;
      same = v.same;
      sized = small;
    }
    Move-Local front laws care room (reserve_step h s sz) v = reserve-Local h s sz room v
    Move-Local front laws care room (give_back_step h s sz) v = record {
      inv = recast refl (omega arith) (unreserve_over-Inv dec _ _ pend sz m.cache v.inv);
      same = v.same;
      sized = v.sized;
    }
    Move-Local front laws care room (pick_step h s sz) v = pick-Local front laws h s sz v
    Move-Local front laws care room (evict_step h s sz k) v = evict-Local h s sz k v
    Move-Local front laws care room (no_memory_step h s sz) v = record {
      inv = recast (omega arith) refl (unreserve_firm-Inv dec _ _ pend sz m.cache v.inv);
      same = v.same;
      sized = omega arith;
    }
    Move-Local front laws care room (publish_step h s sz few) v = publish-Local h s sz v
