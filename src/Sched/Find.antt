-- ===== src/Sched/Find.antt =====
-- `FindWork_prealloc` of src/FindWork_prealloc.hpp: the map from descriptors to pieces of work, which
-- are told apart by a number.
use mathlib.Core.List.{lookup}
use filth.Base.Maps.{insert, erase, lookup-insert, lookup-erase}
use filth.Base.{
  ℕ, suc, ◌<◌, ◌≡◌, ◌≢◌, refl, Bool, true, false, Option, none, some, List, [], arith, ℕ_discrete,
  map,
}

-- `fresh` is the next number: work that `new` makes has not been seen before.
pub record FindWork : Type 0 where
  pub wmap : List (ℕ × ℕ)
  pub fresh : ℕ

-- `operator()`: the work of a descriptor, made if there is none yet
unfoldable pub find_work : ℕ → FindWork → FindWork × ℕ
find_work fd f = elim (lookup ℕ_discrete fd f.wmap) [
  | some w ↦ (f, w)
  | none ↦ (record f { wmap = insert ℕ_discrete fd f.fresh f.wmap; fresh = suc f.fresh }, f.fresh)
]

unfoldable pub unregister : ℕ → FindWork → FindWork
unregister fd f = record f { wmap = erase ℕ_discrete fd f.wmap }

-- `w` is the descriptor and the number of the work, `none` for a null pointer
unfoldable pub register_alien : Option (ℕ × ℕ) → FindWork → FindWork × Bool
register_alien none f = (f, false)
register_alien (some (fd, w)) f = elim (lookup ℕ_discrete fd f.wmap) [
  | some old ↦ (f, false)
  | none ↦ (record f { wmap = insert ℕ_discrete fd w f.wmap }, true)
]

-- `clear`: the map afterwards, and the work that is deleted
unfoldable pub clear : FindWork → FindWork × List ℕ
clear f = (record f { wmap = [] }, map (λ e. e.1) f.wmap)

-- No work belongs to two descriptors, and none in the map is still to be made.
pub record OneOwner (f : FindWork) : Type 0 where
  pub older : (fd w : ℕ) → lookup ℕ_discrete fd f.wmap ≡ some w → w < f.fresh
  pub single :
      (fd fd' w : ℕ)
      → lookup ℕ_discrete fd f.wmap ≡ some w
      → lookup ℕ_discrete fd' f.wmap ≡ some w
      → fd ≡ fd'

-- `operator()` hands out the work that the map then has for the descriptor, asks for nothing else
-- where there was one, leaves the other descriptors alone, and gives no work to two of them.
pub find_work-OneOwner :
    (fd : ℕ) (f : FindWork)
    → OneOwner f
    → OneOwner (find_work fd f).0
      × (lookup ℕ_discrete fd (find_work fd f).0.wmap ≡ some (find_work fd f).1)
      × ((w : ℕ) → lookup ℕ_discrete fd f.wmap ≡ some w → find_work fd f ≡ (f, w))
      × ((q : ℕ)
          → q ≢ fd
          → lookup ℕ_discrete q (find_work fd f).0.wmap ≡ lookup ℕ_discrete q f.wmap)
unfolding find_work
find_work-OneOwner fd f v = (
  record {
    older = λ q w h. grind (arith, lookup-insert ℕ_discrete q fd f.fresh f.wmap, v.older q w);
    single = λ q r w h k. grind (
      arith,
      lookup-insert ℕ_discrete q fd f.fresh f.wmap,
      lookup-insert ℕ_discrete r fd f.fresh f.wmap,
      v.older q w,
      v.older r w,
      v.single q r w,
    );
  },
  grind (arith, lookup-insert ℕ_discrete fd fd f.fresh f.wmap),
  λ w h. rw (h, find_work) refl,
  λ q other. grind (arith, lookup-insert ℕ_discrete q fd f.fresh f.wmap),
)

-- A descriptor that is unregistered is free: foreign work can be registered for it, which
-- `operator()` then finds; for a descriptor that is taken nothing changes.
pub register_alien-unregister :
    (fd w : ℕ) (f : FindWork)
    → ((register_alien (some (fd, w)) (unregister fd f)).1 ≡ true)
      × ((find_work fd (register_alien (some (fd, w)) (unregister fd f)).0).1 ≡ w)
      × (lookup ℕ_discrete fd f.wmap ≢ none → register_alien (some (fd, w)) f ≡ (f, false))
unfolding register_alien unregister find_work
register_alien-unregister fd w f = (
  grind (arith, lookup-erase ℕ_discrete fd fd f.wmap),
  grind (
    arith,
    lookup-erase ℕ_discrete fd fd f.wmap,
    lookup-insert ℕ_discrete fd fd w (erase ℕ_discrete fd f.wmap),
  ),
  λ taken. grind arith,
)
