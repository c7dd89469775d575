-- ===== src/Queue/LockFree/Schedule.antt =====
-- Interleavings of LockFreeQueue that are written down, and one of them: `enq` reads a node that another
-- thread has deleted, which the comment in `nowait_deq` (src/LockFreeQueue.hpp) takes to be impossible.
use filth.Base.{
  ℕ, ◌≡◌, refl, true, Option, none, some, List, [], ◌∷◌, arith, inl, inr, Option-cases, subst,
}
use filth.Queue.LockFree.{
  Pc, idle, moves, blocks, faults, Outcome, run, Call, enq, nowait_deq, begin, enq_next, swing_tail,
  down, up, link, enq_branch, deq_empty, deq_branch, update, System, start, Step, call_step,
  run_step, Reach, new, later,
}

pub data Act {ℓ} (T : Type ℓ) : Type ℓ where
  calls : ℕ → Call T → Act T
  goes : ℕ → Act T

unfoldable pub called {ℓ} : {T : Type ℓ} → ℕ → Call T → System T → Pc T → Option (System T)
called i c s idle = some (record { mem = (begin c s.mem).0; pc = update s.pc i (begin c s.mem).1 })
called i c s p = none

unfoldable pub gone {ℓ} : {T : Type ℓ} → ℕ → System T → Outcome T → Option (System T)
gone i s (moves m p) = some (record { mem = m; pc = update s.pc i p })
gone i s blocks = none
gone i s faults = none

unfoldable pub act {ℓ} : {T : Type ℓ} → Act T → System T → Option (System T)
act (calls i c) s = called i c s (s.pc i)
act (goes i) s = gone i s (run (s.pc i) s.mem)

unfoldable pub play {ℓ} : {T : Type ℓ} → List (Act T) → System T → Option (System T)
play [] s = some s
play (a ∷ acts) s = elim (act a s) [ none ↦ none | some u ↦ play acts u ]

module _ {T : Type 0} where
  called-Step :
      (i : ℕ) (c : Call T) (s u : System T) (p : Pc T)
      → s.pc i ≡ p
      → called i c s p ≡ some u
      → Step s u
  unfolding called
  called-Step i c s u idle at eq = subst (Step s) (cc) (call_step i c at)
  called-Step i c s u p at eq = absurd (cc)

  gone-Step :
      (i : ℕ) (s u : System T) (o : Outcome T)
      → run (s.pc i) s.mem ≡ o
      → gone i s o ≡ some u
      → Step s u
  unfolding gone
  gone-Step i s u (moves m p) at eq = subst (Step s) (cc) (run_step i m p at)
  gone-Step i s u blocks at eq = absurd (cc)
  gone-Step i s u faults at eq = absurd (cc)

  act-Step : (a : Act T) (s u : System T) → act a s ≡ some u → Step s u
  unfolding act
  act-Step (calls i c) s u eq = called-Step i c s u (s.pc i) refl eq
  act-Step (goes i) s u eq = gone-Step i s u (run (s.pc i) s.mem) refl eq

  pub play-Reach :
      {t : T} (acts : List (Act T)) (s u : System T) → play acts s ≡ some u → Reach t s → Reach t u
  unfolding play
  play-Reach [] s u eq r = subst (Reach _) (cc) r
  play-Reach (a ∷ acts) s u eq r = elim (Option-cases (act a s)) [
    | inl stuck ↦ absurd (ground arith)
    | inr (v, stepped) ↦ play-Reach acts v u (ground arith) (later r (act-Step a s v stepped))
  ]

  -- Thread 0 reads `tail` in `enq`; then thread 1 puts y in and takes it out.
  abbrev pub overtaken : T → T → List (Act T)
  overtaken x y =
      calls 0 (enq x)
      ∷ goes 0
      ∷ calls 1 (enq y)
      ∷ goes 1
      ∷ goes 1
      ∷ goes 1
      ∷ goes 1
      ∷ goes 1
      ∷ goes 1
      ∷ calls 1 nowait_deq
      ∷ goes 1
      ∷ goes 1
      ∷ goes 1
      ∷ goes 1
      ∷ goes 1
      ∷ goes 1
      ∷ goes 1
      ∷ goes 1
      ∷ goes 1
      ∷ []

  -- Whatever the elements are, a thread in `enq` can come to read the pointer of a node that has been deleted,
  -- after no more than an `enq` and a `nowait_deq` of one other thread.
  pub enq_reads_deleted :
      (t x y : T)
      → (s : System T) × (play (overtaken x y) (start t) ≡ some s)
        × Reach t s
        × (s.pc 0 ≡ enq_next 1 0)
        × (s.mem.freed 0 ≡ true)
        × (run (s.pc 0) s.mem ≡ faults)
  unfolding play act called gone run begin swing_tail down up link enq_branch deq_empty deq_branch
  enq_reads_deleted t x y =
      (reached, refl, play-Reach (overtaken x y) (start t) reached refl new, refl, refl, refl)
    where
      reached : System T
      reached = elim (play (overtaken x y) (start t)) [ none ↦ start t | some s ↦ s ]
