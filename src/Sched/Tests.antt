-- ===== src/Sched/Tests.antt =====
-- The scheduler and the workers on concrete inputs.
use mathlib.Core.List.{lookup}
use filth.Base.{
  not, ℕ, ◌≡◌, refl, Bool, true, false, ◌||◌, none, some, [], ◌∷◌, ◌++◌, arith, ℕ_discrete, ◌==◌,
}
use filth.Sched.Find.{FindWork, find_work}
use filth.Sched.Poll.{Event, Scheduler, halt, handle, queued, handle_lem}
use filth.Sched.Workers.{Ran, finished, Jobs, retired, work, closed, Quiet, work-drains}

-- descriptor 4 has work 0
abbrev one_work : FindWork
one_work = record { wmap = (4, 0) ∷ []; fresh = 1 }

-- Descriptor 3 has a callback, which halts.
abbrev polling : Scheduler
polling = record {
  fdcbs = (3, 0) ∷ [];
  fwork = one_work;
  q = [];
  deleted = [];
  watch = [];
  dowork = true;
}

abbrev halts : ℕ → Scheduler → Scheduler
halts cb s = halt s

abbrev readable : Event
readable = record { fd = 4; err = false; hup = false; rdhup = false; input = true; output = false }

abbrev signal : Event
signal = record readable { fd = 3 }

-- work 0 is the work of a client
abbrev ours : ℕ → Bool
ours w = not (w == 0)

handle_lem_example :
    (queued readable ≡ true
      → ((handle ours halts readable polling).q ≡ [] ++ some (find_work 4 one_work).1 ∷ [])
        × ((handle ours halts readable polling).deleted ≡ []))
    × ((readable.err || readable.hup || readable.rdhup) ≡ true
        → ((handle ours halts readable polling).q ≡ [])
          × ((handle ours halts readable polling).deleted ≡ (find_work 4 one_work).1 ∷ [])
          × (ours (find_work 4 one_work).1 ≡ true
              → lookup ℕ_discrete 4 (handle ours halts readable polling).fwork.wmap ≡ none)
          × (ours (find_work 4 one_work).1 ≡ false
              → lookup ℕ_discrete 4 (handle ours halts readable polling).fwork.wmap
                ≡ some (find_work 4 one_work).1))
    × ((readable.err || readable.hup || readable.rdhup) ≡ false
        → queued readable ≡ false
        → handle ours halts readable polling ≡ polling)
unfolding lookup ℕ_discrete
handle_lem_example = handle_lem ours halts readable polling refl

-- Odd work is done with after its call.
abbrev odd_ends : ℕ → Bool
odd_ends w = w == 1

abbrev one_call : ℕ → Jobs → Jobs × Ran
one_call w j = (j, finished (w == 1))

one_call-Quiet : Quiet one_call odd_ends
one_call-Quiet w j = (refl, λ e. cc, λ e f. ground (arith, e, f), λ e. ground (arith, e))

work-drains_example :
    work one_call 5 (record { q = some 0 ∷ some 1 ∷ none ∷ []; deleted = [] })
    ≡ some (record { q = none ∷ []; deleted = closed odd_ends (0 ∷ 1 ∷ []) [] }, retired)
work-drains_example =
    work-drains one_call odd_ends 5 (0 ∷ 1 ∷ []) [] [] one_call-Quiet (omega arith)
