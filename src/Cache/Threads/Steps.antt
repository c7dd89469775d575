-- ===== src/Cache/Threads/Steps.antt =====
-- The sections of `get`, `unget`, `put`, `advise_evict` and `flush` as steps of a thread.
use filth.Base.{
  ℕ, zero, suc, ◌+◌, ◌^◌, ◌≤◌, ◌<◌, ◌≡◌, Bool, true, false, Option, none, some, List, [], ◌∷◌, ite,
  length, get_elem?, set, if◌then◌else◌,
}
use filth.Cache.Defs.{
  Cache, Front, found, get, release, evict_one, enqueue, reserve, unreserve, publish, pick,
  advise_evict, flush, new_cache,
}

-- Where a thread stands, with the local variables that are live there.
pub data Pc {ℓ} (K V : Type ℓ) : Type ℓ where
  ready : Pc K V  -- in no call
  unget_evict : K → Pc K V  -- before `evict(h)` in `unget`
  unget_enqueue : K → Pc K V  -- before `toevict.insert(h)`
  put_try : K → V → ℕ → Pc K V  -- at `put_tryagain`
  put_back : K → V → ℕ → Pc K V  -- the reservation was too much
  put_evict : K → V → ℕ → Pc K V  -- head of the loop of `evict()`
  put_evict_one : K → V → ℕ → K → Pc K V  -- before `evict(h)` in that loop
  put_new : K → V → ℕ → Pc K V  -- the reservation has room

-- Two fields that the code does not have: `held` lists the handles that clients have borrowed and not
-- yet returned, `leaked` the bytes that stay reserved for no entry.
pub record Shared {ℓ} (K V : Type ℓ) : Type ℓ where
  pub cache : Cache K V
  pub held : List K
  pub leaked : ℕ

module _ {ℓ} {K : Type ℓ} (dec : Discrete K) where
  unfoldable pub count : K → List K → ℕ
  count q [] = 0
  count q (k ∷ ks) = ite (dec q k) (suc (count q ks)) (count q ks)

  unfoldable pub erase_one : K → List K → List K
  erase_one q [] = []
  erase_one q (k ∷ ks) = ite (dec q k) ks (k ∷ erase_one q ks)

-- a handle more is held, if the call has succeeded
abbrev pub hold {ℓ} : {K : Type ℓ} → Bool → K → List K → List K
hold b h held = if b then h ∷ held else held

abbrev pub hit {ℓ} : {V : Type ℓ} → Option V → Bool
hit none = false
hit (some s) = true

module _ {ℓ} {K V : Type ℓ} where
  -- `unget` behind its first section
  abbrev pub after_release : K → Bool → Bool → Pc K V
  after_release h false doevict = ready
  after_release h true true = unget_evict h
  after_release h true false = unget_enqueue h

  -- `evict()` behind its section
  abbrev pub after_pick : K → V → ℕ → Option K → Pc K V
  after_pick h s sz none = ready
  after_pick h s sz (some k) = put_evict_one h s sz k

pub record System {ℓ} (K V : Type ℓ) : Type ℓ where
  pub mem : Shared K V
  pub pcs : List (Pc K V)

module _ {ℓ} {K V : Type ℓ} where
  abbrev pub all_ready : ℕ → List (Pc K V)
  all_ready zero = []
  all_ready (suc n) = ready ∷ all_ready n

  -- `n` threads over an empty cache
  abbrev pub start : ℕ → ℕ → System K V
  start n max = record {
    mem = record { cache = new_cache max; held = []; leaked = 0 };
    pcs = all_ready n;
  }

-- What the clients of the cache do: whether any of them calls `flush`, whether they all give back only what
-- they hold, and whether they hold fewer handles at a time than the counters can count.
pub record Clients : Type 0 where
  pub flushes : Bool
  pub own_only : Bool
  pub few : Bool

-- clients that keep to what the class asks of them
pub record Careful (cl : Clients) : Type 0 where
  pub no_flush : cl.flushes ≡ false
  pub own : cl.own_only ≡ true
  pub counted : cl.few ≡ true

module _ {ℓ} {K V : Type ℓ} (dec : Discrete K) (front : Front K) (cl : Clients) where
  pub data Move (m : Shared K V) : Pc K V → Shared K V → Pc K V → Type ℓ where
    get_step :
        (h : K)
        → (cl.few ≡ true → length m.held + 1 < 2 ^ 32)
        → Move m ready
            (record m {
              cache = (get dec h m.cache).0;
              held = hold (hit (get dec h m.cache).1) h m.held;
            })
            ready
    unget_step :
        (h : K)
        → (cl.own_only ≡ true → 0 < count dec h m.held)
        → Move m ready
            (record m { cache = (release dec h m.cache).0; held = erase_one dec h m.held })
            (after_release h (release dec h m.cache).1 (release dec h m.cache).2)
    unget_evict_step :
        (h : K)
        → Move m
            (unget_evict h)
            (record m { cache = (evict_one dec h m.cache).0 })
            (if (evict_one dec h m.cache).1 then ready else unget_enqueue h)
    unget_enqueue_step :
        (h : K) → Move m (unget_enqueue h) (record m { cache = enqueue dec h m.cache }) ready
    advise_step : (h : K) → Move m ready (record m { cache = advise_evict dec h m.cache }) ready
    -- clients go on holding what they held
    flush_step : cl.flushes ≡ true → Move m ready (record m { cache = flush dec m.cache }) ready
    put_step :
        (h : K) (s : V) (sz : ℕ)
        → sz ≤ m.cache.max
        → found dec h m.cache ≡ false
        → Move m ready m (put_try h s sz)
    reserve_step :
        (h : K) (s : V) (sz : ℕ)
        → Move m
            (put_try h s sz)
            (record m { cache = (reserve sz m.cache).0 })
            (if (reserve sz m.cache).1 then put_new h s sz else put_back h s sz)
    give_back_step :
        (h : K) (s : V) (sz : ℕ)
        → Move m (put_back h s sz) (record m { cache = unreserve sz m.cache }) (put_evict h s sz)
    pick_step :
        (h : K) (s : V) (sz : ℕ)
        → Move m
            (put_evict h s sz)
            (record m { cache = (pick dec front m.cache).0 })
            (after_pick h s sz (pick dec front m.cache).1)
    evict_step :
        (h : K) (s : V) (sz : ℕ) (k : K)
        → Move m
            (put_evict_one h s sz k)
            (record m { cache = (evict_one dec k m.cache).0 })
            (if (evict_one dec k m.cache).1 then put_try h s sz else put_evict h s sz)
    no_memory_step :
        (h : K) (s : V) (sz : ℕ)
        → Move m (put_new h s sz) (record m { cache = unreserve sz m.cache }) ready
    -- the handle may have come in since `put_step`: then nothing takes the reservation back
    publish_step :
        (h : K) (s : V) (sz : ℕ)
        → (cl.few ≡ true → length m.held + 1 < 2 ^ 32)
        → Move m
            (put_new h s sz)
            (record m {
              cache = (publish dec h s sz m.cache).0;
              held = hold (publish dec h s sz m.cache).1 h m.held;
              leaked = if (publish dec h s sz m.cache).1 then m.leaked else m.leaked + sz;
            })
            ready

  pub data Step (s : System K V) : System K V → Type ℓ where
    turn :
        (i : ℕ) {p p' : Pc K V} {m : Shared K V}
        → get_elem? s.pcs i ≡ some p
        → Move s.mem p m p'
        → Step s (record { mem = m; pcs = set s.pcs i p' })

  pub data Reach (n max : ℕ) : System K V → Type ℓ where
    begin : Reach n max (start n max)
    next : {s t : System K V} → Reach n max s → Step s t → Reach n max t
