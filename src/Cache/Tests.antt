-- ===== src/Cache/Tests.antt =====
-- The cache on concrete inputs: two entries, one held and one that waits to be evicted.
use mathlib.Core.List.{lookup}
use filth.Base.Maps.{insert, modify}
use filth.Base.{ℕ, ◌+◌, ◌≤◌, ◌≡◌, refl, Bool, true, false, some, [], ◌∷◌, ℕ_discrete, arith, All}
use filth.Cache.Defs.{
  Stuff, Cache, Front, FrontLaws, contains, found, release, enqueue, reserve, publish, evict, put,
}
use filth.Cache.Evict.{Evicted, evict-Evicted}
use filth.Cache.Invariant.{Inv}
use filth.Cache.Put.{Stored, put-Stored}
use filth.Cache.Sizes.{total}
use filth.Cache.Threads.Sound.{held_stays, total-le-max, idle_waits}
use filth.Cache.Threads.Steps.{
  Clients, Careful, Pc, ready, Shared, count, erase_one, turn, Reach, begin, next, put_step,
  reserve_step, publish_step, unget_step, unget_enqueue_step,
}

abbrev first_in : Front ℕ
first_in k ks = (k, ks)

first_in-FrontLaws : FrontLaws ℕ_discrete first_in
first_in-FrontLaws = record { length-front = λ k ks. refl; contains-front = λ q k ks. refl }

abbrev busy : Stuff ℕ
busy = record { s = 70; refcnt = 1; invalid = true; sz = 3 }

abbrev spare : Stuff ℕ
spare = record { s = 80; refcnt = 0; invalid = false; sz = 4 }

abbrev two_entries : Cache ℕ ℕ
two_entries = record {
  cache = (1, busy) ∷ (2, spare) ∷ [];
  toevict = 2 ∷ [];
  cur = 7;
  max = 10;
  freed = [];
}

two_entries-Inv : Inv ℕ_discrete 0 0 [] two_entries
unfolding total lookup contains ℕ_discrete
two_entries-Inv = record {
  distinct = (refl, (refl, tt));
  accounted = refl;
  within = omega arith;
  word = omega arith;
  counters = λ q. ground arith;
  tracked = λ q i. ground arith;
}

-- A new entry of five bytes takes the place of the one that nobody holds.
put-Stored_example :
    (r : Cache ℕ ℕ × Bool) × (put ℕ_discrete first_in true 3 90 5 two_entries ≡ some r)
    × Stored ℕ_discrete true 3 90 5 two_entries r
put-Stored_example =
    put-Stored ℕ_discrete true 3 90 5 first_in first_in-FrontLaws two_entries (omega arith)
      two_entries-Inv

evict-Evicted_example :
    (r : Cache ℕ ℕ × Bool) × (evict ℕ_discrete first_in two_entries ≡ some r)
    × Evicted ℕ_discrete first_in first_in-FrontLaws 0 0 [] two_entries r
evict-Evicted_example =
    evict-Evicted ℕ_discrete first_in first_in-FrontLaws 0 0 [] two_entries two_entries-Inv

-- A thread stores an entry, gives it back, and is out of every call again.
abbrev after_put : Shared ℕ ℕ
after_put = record {
  cache = record {
    cache = (1, record { s = 70; refcnt = 1; invalid = false; sz = 3 }) ∷ [];
    toevict = [];
    cur = 3;
    max = 10;
    freed = [];
  };
  held = 1 ∷ [];
  leaked = 0;
}

abbrev after_unget : Shared ℕ ℕ
after_unget = record {
  cache = record {
    cache = (1, record { s = 70; refcnt = 0; invalid = false; sz = 3 }) ∷ [];
    toevict = 1 ∷ [];
    cur = 3;
    max = 10;
    freed = [];
  };
  held = [];
  leaked = 0;
}

abbrev careful : Clients
careful = record { flushes = false; own_only = true; few = true }

careful-Careful : Careful careful
careful-Careful = record { no_flush = refl; own = refl; counted = refl }

put_reaches : Reach ℕ_discrete first_in careful 1 10 (record { mem = after_put; pcs = ready ∷ [] })
unfolding found reserve publish lookup insert count ℕ_discrete
put_reaches =
    next
      (next (next begin (turn 0 refl (put_step 1 70 3 (omega arith) refl)))
        (turn 0 refl (reserve_step 1 70 3)))
      (turn 0 refl (publish_step 1 70 3 (λ few. omega arith)))

unget_reaches :
    Reach ℕ_discrete first_in careful 1 10 (record { mem = after_unget; pcs = ready ∷ [] })
unfolding release enqueue contains lookup modify erase_one count ℕ_discrete
unget_reaches =
    next (next put_reaches (turn 0 refl (unget_step 1 (λ own. omega arith))))
      (turn 0 refl (unget_enqueue_step 1))

held_stays_example :
    (e : Stuff ℕ) × (lookup ℕ_discrete 1 after_put.cache.cache ≡ some e) × (e.refcnt ≡ 1)
unfolding count lookup ℕ_discrete
held_stays_example =
    held_stays ℕ_discrete first_in first_in-FrontLaws 1 10 (omega arith) careful-Careful 1
      put_reaches (omega arith)

total-le-max_example :
    (total after_unget.cache.cache + 0 ≤ 10)
    × (All {A = Pc ℕ ℕ} (λ p. p ≡ ready) (ready ∷ []) → 3 ≡ total after_unget.cache.cache + 0)
total-le-max_example =
    total-le-max ℕ_discrete first_in first_in-FrontLaws 1 10 (omega arith) careful-Careful
      unget_reaches

idle_waits_example : contains ℕ_discrete 1 after_unget.cache.toevict ≡ true
unfolding lookup ℕ_discrete
idle_waits_example =
    idle_waits ℕ_discrete first_in first_in-FrontLaws 1 10 (omega arith) careful-Careful 1
      unget_reaches (refl, tt) refl
