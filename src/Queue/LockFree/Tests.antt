-- ===== src/Queue/LockFree/Tests.antt =====
-- The theorems about LockFreeQueue at schedules that are written down.
use filth.Base.{ℕ, ◌≡◌, refl, true, false, Option, none, some, List, [], ◌∷◌, ◌++◌}
use filth.Queue.LockFree.{
  faults, run, enq, wait_deq, begin, enq_next, swing_tail, down, up, link, enq_branch, deq_empty,
  deq_branch, System, start, Reach, new,
}
use filth.Queue.LockFree.Order.{Chain, Reach-Chain}
use filth.Queue.LockFree.Schedule.{
  Act, calls, goes, play, act, called, gone, play-Reach, overtaken, enq_reads_deleted,
}

-- Thread 0 links 7 and does not come to swing the tail; thread 1 helps it, and links 8; thread 2 takes 7.
abbrev helped : List (Act ℕ)
helped =
    calls 0 (enq 7)
    ∷ goes 0
    ∷ goes 0
    ∷ goes 0
    ∷ goes 0
    ∷ calls 1 (enq 8)
    ∷ goes 1
    ∷ goes 1
    ∷ goes 1
    ∷ goes 1
    ∷ goes 1
    ∷ goes 1
    ∷ goes 1
    ∷ goes 1
    ∷ calls 2 wait_deq
    ∷ goes 2
    ∷ goes 2
    ∷ goes 2
    ∷ goes 2
    ∷ goes 2
    ∷ goes 2
    ∷ goes 2
    ∷ []

abbrev reached : Option (System ℕ) → System ℕ
reached none = start 0
reached (some s) = s

midway : System ℕ
midway = reached (play helped (start 0))

midway_reached : play helped (start 0) ≡ some midway
unfolding midway play act called gone run begin swing_tail down up link enq_branch deq_empty
    deq_branch
midway_reached = refl

midway_lists : (midway.mem.ins ≡ 7 ∷ 8 ∷ []) × (midway.mem.outs ≡ 7 ∷ []) × (midway.mem.tail ≡ 1)
unfolding midway play act called gone run begin swing_tail down up link enq_branch deq_empty
    deq_branch
midway_lists = (refl, refl, refl)

Reach-Chain_example :
    (rest : List ℕ) × Chain midway.mem midway.mem.head rest
    × (midway.mem.freed midway.mem.head ≡ false)
    × (midway.mem.ins ≡ midway.mem.outs ++ rest)
Reach-Chain_example = Reach-Chain (play-Reach helped (start 0) midway midway_reached new)

enq_reads_deleted_example :
    (s : System ℕ) × (play (overtaken 7 8) (start 0) ≡ some s)
    × Reach 0 s
    × (s.pc 0 ≡ enq_next 1 0)
    × (s.mem.freed 0 ≡ true)
    × (run (s.pc 0) s.mem ≡ faults)
enq_reads_deleted_example = enq_reads_deleted 0 7 8
