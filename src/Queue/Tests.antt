-- ===== src/Queue/Tests.antt =====
-- Short runs of the queue.
use filth.Base.{ℕ, ◌≡◌, refl, [], ◌∷◌, arith}
use filth.Queue.Locked.{free, Queue, Reach}
use filth.Queue.Store.{Store, Single, times}
use filth.Queue.Wakeups.{wake_up_missed}

-- 7 is in the queue
abbrev seven_in : Queue ℕ
seven_in = record { q = 7 ∷ []; asleep = 0; woken = 0; back = free; ins = 7 ∷ []; outs = [] }

wake_up_missed_example :
    (u : Queue ℕ) × Reach 1 seven_in u
    × (u.q ≡ 8 ∷ [])
    × (u.asleep ≡ 1)
    × (u.woken ≡ 0)
    × (u.back ≡ free)
wake_up_missed_example = wake_up_missed 1 7 8 seven_in (omega arith) refl refl refl refl

abbrev one_block : Store
one_block = record { store = 3 ∷ []; used = 1 ∷ []; fresh = 4 }

one_block-Single : Single one_block
unfolding times
one_block-Single = record { once = λ q. ground arith; older = λ q new. ground arith }
