-- ===== src/Server/Pool.antt =====
-- ThreadPool (src/ThreadPool.hpp) from `start` on: its threads leave the list as they finish, and the destructor
-- waits until the list is empty. Each step holds the lock; `pthread_create` gives each thread a number of its own.
pub mod Left
use filth.Base.{
  ℕ, zero, suc, ◌+◌, ◌-◌, ◌≤◌, ◌<◌, ◌≡◌, ◌≢◌, refl, sym, Bool, true, false, Option, none, some,
  List, [], ◌∷◌, ◌++◌, length, arith, inl, inr, Bool-cases, Option-cases, ◌==◌, if◌then◌else◌, ◌∙◌,
  ap,
}

-- the thread that destroys the pool
pub data Owner : Type 0 where
  elsewhere : Owner
  asleep : Owner
  awake : Owner
  through : Owner

-- `deleted` lists the threads whose objects were deleted, the last one first
pub record Pool : Type 0 where
  pub threads : List ℕ
  pub owner : Owner
  pub deleted : List ℕ

-- the pool behind `start`, which holds the lock till all threads are created
abbrev pub started : List ℕ → Pool
started ids = record { threads = ids; owner = elsewhere; deleted = [] }

-- the loop over the list, with the place of the last thread that was found and those that it deletes
unfoldable pub scan : ℕ → List ℕ → ℕ → Option ℕ → List ℕ → Option ℕ × List ℕ
scan me [] i toerase deleted = (toerase, deleted)
scan me (t ∷ ts) i toerase deleted =
    let here = scan me ts (suc i) (some i) (t ∷ deleted) in
    let on = scan me ts (suc i) toerase deleted in if t == me then here else on

-- `threads.erase(toerase)`
unfoldable pub erase_at : ℕ → List ℕ → List ℕ
erase_at i [] = []
erase_at zero (t ∷ ts) = ts
erase_at (suc i) (t ∷ ts) = t ∷ erase_at i ts

-- `done.signal()`
unfoldable pub signal : Owner → Owner
signal asleep = awake
signal elsewhere = elsewhere
signal awake = awake
signal through = through

abbrev pub empty : List ℕ → Bool
empty [] = true
empty (t ∷ ts) = false

unfoldable pub erased : Option ℕ → Pool → Pool
unfolding erase_at signal
erased none p = p
erased (some i) p = record p {
  threads = erase_at i p.threads;
  owner = if empty (erase_at i p.threads) then signal p.owner else p.owner;
}

-- `operator()`, which the thread `me` calls when it is done
unfoldable pub leave : ℕ → Pool → Pool
unfolding scan erased
leave me p =
    let found = scan me p.threads 0 none p.deleted in
    erased found.0 (record p { deleted = found.1 })

-- one test of the loop of the destructor
unfoldable pub wait : Pool → Pool
wait p = record p { owner = if empty p.threads then through else asleep }

pub data Step (p : Pool) : Pool → Type 0 where
  leave_step : (me : ℕ) → Step p (leave me p)
  destroy_step : p.owner ≡ elsewhere → Step p (wait p)
  wake_step : p.owner ≡ awake → Step p (wait p)
  spurious_step : p.owner ≡ asleep → Step p (wait p)

pub data Reach (ids : List ℕ) : Pool → Type 0 where
  start : Reach ids (started ids)
  next : {p q : Pool} → Reach ids p → Step p q → Reach ids q
