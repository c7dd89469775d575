-- ===== src/Cache/Threads/Sound.antt =====
-- All threads together: borrowed entries stay in the cache, and the size is accounted for.
use mathlib.Core.List.{lookup}
use filth.Base.{
  ℕ, ◌+◌, ◌*◌, ◌^◌, ◌≤◌, ◌<◌, ◌≡◌, refl, sym, subst, true, none, some, List, ◌++◌, All, length,
  get_elem?, set, inl, inr, arith, Option-cases, ◌∙◌,
}
use filth.Cache.Defs.{flush, Stuff, Cache, Front, FrontLaws, contains, new_cache}
use filth.Cache.Handles.{contains-append}
use filth.Cache.Invariant.{Inv, idle, refs}
use filth.Cache.Reserve.{new_cache-Inv}
use filth.Cache.Sizes.{total}
use filth.Cache.Threads.Local.{Local, firm_of, over_of, hand, size_of, recast, Move-Local, Move-max}
use filth.Cache.Threads.Steps.{
  Clients, Careful, Pc, ready, flush_step, Shared, count, System, start, all_ready, Step, turn,
  Reach, begin, next,
}
use filth.Cache.Threads.Sum.{
  sum, hands, set-get_elem?, length-set, All-set, All-get_elem?, sum-set, contains-hands-set,
  sum-over_of-le, sum-all_ready, hands-all_ready, sum-quiet, hands-quiet, length-all_ready,
  All-all_ready,
}

module _ {ℓ} {K V : Type ℓ} (dec : Discrete K) where
  -- The invariant of the whole: `n` threads, over a cache of `max` bytes.
  pub record Sound (n max : ℕ) (s : System K V) : Type ℓ where
    pub inv :
        Inv dec (s.mem.leaked + sum firm_of s.pcs) (sum over_of s.pcs) (hands s.pcs) s.mem.cache
    pub same : (q : K) → refs dec q s.mem.cache ≡ count dec q s.mem.held
    pub sized : All (λ p. size_of p ≤ max) s.pcs
    pub threads : length s.pcs ≡ n
    pub limit : s.mem.cache.max ≡ max

  -- The handles in hand may be named in another order.
  reorder :
      {a b : ℕ} (xs ys : List K) {c : Cache K V}
      → ((q : K) → contains dec q xs ≡ contains dec q ys)
      → Inv dec a b xs c
      → Inv dec a b ys c
  reorder xs ys {c} e v = record {
    distinct = v.distinct;
    accounted = v.accounted;
    within = v.within;
    word = v.word;
    counters = v.counters;
    tracked = λ q i. ground (
      arith,
      v.tracked q i,
      e q,
      contains-append dec q xs c.toevict,
      contains-append dec q ys c.toevict,
    );
  }

  module _ (m : Shared K V) (ps : List (Pc K V)) (i : ℕ) (p q : Pc K V)
      (on : get_elem? ps i ≡ some q) where
    abbrev others : List (Pc K V)
    others = set ps i ready

    hands-set :
        (k : K) → contains dec k (hands (set ps i p)) ≡ contains dec k (hand p ++ hands others)
    hands-set k =
        contains-hands-set dec k ps i p q on ∙ sym (contains-append dec k (hand p) (hands others))

    together :
        Local dec (sum firm_of others) (sum over_of others) (hands others) m p
        → Inv dec
            (m.leaked + sum firm_of (set ps i p))
            (sum over_of (set ps i p))
            (hands (set ps i p))
            m.cache
    together v =
        reorder _ _ (λ k. sym (hands-set k))
          (recast dec (omega (arith, sum-set firm_of ps i p q refl on))
            (sym (sum-set over_of ps i p q refl on)) v.inv)

    apart :
        Inv dec
          (m.leaked + sum firm_of (set ps i p))
          (sum over_of (set ps i p))
          (hands (set ps i p))
          m.cache
        → ((k : K) → refs dec k m.cache ≡ count dec k m.held)
        → size_of p ≤ m.cache.max
        → Local dec (sum firm_of others) (sum over_of others) (hands others) m p
    apart v same sized = record {
      inv = reorder _ _ hands-set (
          recast dec (omega (arith, sum-set firm_of ps i p q refl on))
            (sum-set over_of ps i p q refl on) v);
      same = same;
      sized = sized;
    }

  start-Inv :
      (n max : ℕ)
      → max < 2 ^ 64
      → Inv dec
          (0 + sum {K = K} {V = V} firm_of (all_ready n))
          (sum {K = K} {V = V} over_of (all_ready n))
          (hands (all_ready {V = V} n))
          (new_cache {V = V} max)
  start-Inv n max bound =
      rw
        (
          hands-all_ready V n,
          sum-all_ready {K = K} {V = V} firm_of n refl,
          sum-all_ready {K = K} {V = V} over_of n refl,
        )
        (new_cache-Inv dec max bound)

  start-Sound : (n max : ℕ) → max < 2 ^ 64 → Sound n max (start n max)
  unfolding lookup count
  start-Sound n max bound = record {
    inv = start-Inv n max bound;
    same = λ q. refl;
    sized = All-all_ready K V max n;
    threads = length-all_ready K V n;
    limit = refl;
  }

  module _ (front : Front K) (laws : FrontLaws dec front) (n max : ℕ)
      (bound : (n + 2) * max < 2 ^ 64) {cl : Clients} (care : Careful cl) where
    Step-Sound : {s t : System K V} → Step dec front cl s t → Sound n max s → Sound n max t
    Step-Sound {s} (turn i {p} {p'} {m} on mv) v =
        let share =
          apart s.mem s.pcs i p p on
            (subst
              (λ ps.
                Inv dec (s.mem.leaked + sum firm_of ps) (sum over_of ps) (hands ps) s.mem.cache)
              (sym (set-get_elem? s.pcs i p on)) v.inv)
            v.same
            (subst (λ k. size_of p ≤ k) (sym v.limit)
              (All-get_elem? (λ p. size_of p ≤ max) s.pcs i p on v.sized)) in
        let few =
          subst (λ k. sum over_of (set s.pcs i ready) ≤ k * max)
            (length-set s.pcs i ready ∙ v.threads)
            (sum-over_of-le max (set s.pcs i ready)
              (All-set (λ p. size_of p ≤ max) s.pcs i ready (omega arith) v.sized)) in
        let after = Move-Local dec _ _ _ front laws care (omega (arith, few, v.limit)) mv share in
        record {
          inv = together m s.pcs i p' p on after;
          same = after.same;
          sized =
              All-set (λ p. size_of p ≤ max) s.pcs i p'
                (subst (λ k. size_of p' ≤ k) (Move-max dec front mv ∙ v.limit) after.sized) v.sized;
          threads = length-set s.pcs i p' ∙ v.threads;
          limit = Move-max dec front mv ∙ v.limit;
        }

    pub Reach-Sound : {s : System K V} → Reach dec front cl n max s → Sound n max s
    Reach-Sound begin = start-Sound n max (omega arith)
    Reach-Sound (next r st) = Step-Sound st (Reach-Sound r)

    -- However `n` threads interleave the sections of `get`, `unget`, `put` and `advise_evict`, while none
    -- calls `flush`, an entry that somebody has borrowed is in the cache, and its counter is the number
    -- of borrowers. Clients give back only what they hold, fewer than 2^32 handles are held at a time,
    -- and `n + 2` times the limit fits in 64 bits.
    pub held_stays :
        {s : System K V} (h : K)
        → Reach dec front cl n max s
        → 0 < count dec h s.mem.held
        → (e : Stuff V) × (lookup dec h s.mem.cache.cache ≡ some e)
          × (e.refcnt ≡ count dec h s.mem.held)
    held_stays {s} h r held =
        let same = (Reach-Sound r).same h in
        elim (Option-cases (lookup dec h s.mem.cache.cache)) [
          | inl out ↦ absurd (ground (arith, same))
          | inr (e, there) ↦ (e, there, ground (arith, same))
        ]

    -- In every state that `n` threads reach while none calls `flush`, the entries and the bytes that no
    -- entry will ever use do not exceed the limit together; and when no thread is in a call, `cur` is
    -- exactly their sum. Clients give back only what they hold, fewer than 2^32 handles are held at a
    -- time, and `n + 2` times the limit fits in 64 bits.
    pub total-le-max :
        {s : System K V}
        → Reach dec front cl n max s
        → (total s.mem.cache.cache + s.mem.leaked ≤ max)
          × (All (λ p. p ≡ ready) s.pcs → s.mem.cache.cur ≡ total s.mem.cache.cache + s.mem.leaked)
    total-le-max {s} r =
        let v = Reach-Sound r in
        (
          omega (arith, v.inv.within, v.limit),
          λ quiet. omega (
            arith,
            v.inv.accounted,
            sum-quiet firm_of s.pcs refl quiet,
            sum-quiet over_of s.pcs refl quiet,
          ),
        )

    -- In a state that `n` threads reach while none calls `flush`, and in which no thread is in a call, an
    -- entry that nobody holds waits in the set of handles to evict. Clients give back only what they
    -- hold, fewer than 2^32 handles are held at a time, and `n + 2` times the limit fits in 64 bits.
    pub idle_waits :
        {s : System K V} (h : K)
        → Reach dec front cl n max s
        → All (λ p. p ≡ ready) s.pcs
        → idle dec h s.mem.cache ≡ true
        → contains dec h s.mem.cache.toevict ≡ true
    idle_waits {s} h r quiet free =
        ground (arith, (Reach-Sound r).inv.tracked h free, hands-quiet s.pcs quiet)

  -- Where some client flushes, a thread in no call can: then clients hold what they held, and the cache has none of it.
  flush_drops_held :
      (front : Front K) (cl : Clients) (n max i : ℕ) (s : System K V)
      → cl.flushes ≡ true
      → Reach dec front cl n max s
      → get_elem? s.pcs i ≡ some ready
      → (t : System K V) × Reach dec front cl n max t
        × (t.mem.held ≡ s.mem.held)
        × ((h : K) → lookup dec h t.mem.cache.cache ≡ none)
  unfolding lookup flush
  flush_drops_held front cl n max i s may r on =
      (_, next r (turn i on (flush_step may)), refl, λ h. refl)
