-- ===== src/Queue/Order.antt =====
-- DoubleLockedQueue keeps the order of its elements.
use filth.Base.{
  Bool, ℕ, zero, suc, ◌-◌, ◌≡◌, refl, sym, ap, ◌∙◌, Option, none, some, List, [], ◌∷◌, ◌++◌,
  append_assoc,
}
use filth.Queue.Locked.{
  Queue, new_queue, enq, push, push_step, wake, signal, take_front, nowait_deq, sleep_unless,
  wait_deq, Step, enq_step, signal_step, nowait_step, wait_step, resume_step, Reach, here, next,
}

-- what has been put in is what has been taken out and then what is there
abbrev pub InOrder {ℓ} : {T : Type ℓ} → Queue T → Type ℓ
InOrder s = s.ins ≡ s.outs ++ s.q

module _ {ℓ} {T : Type ℓ} where
  push-InOrder : (t : T) (dosignal : Bool) (s : Queue T) → InOrder s → InOrder (push t dosignal s)
  unfolding push
  push-InOrder t dosignal s h = ap (λ xs. xs ++ t ∷ []) h ∙ append_assoc s.outs s.q (t ∷ [])

  wake-InOrder : (n : ℕ) (s : Queue T) → InOrder s → InOrder (wake n s)
  unfolding wake
  wake-InOrder zero s h = h
  wake-InOrder (suc n) s h = h

  take_front-InOrder :
      (xs : List T) (s : Queue T) → s.ins ≡ s.outs ++ xs → s.q ≡ xs → InOrder (take_front xs s).0
  unfolding take_front
  take_front-InOrder [] s h e = h ∙ ap (◌++◌ s.outs) (sym e)
  take_front-InOrder (t ∷ rest) s h e = h ∙ sym (append_assoc s.outs (t ∷ []) rest)

  nowait_deq-InOrder : (s : Queue T) → InOrder s → InOrder (nowait_deq s).0
  unfolding nowait_deq
  nowait_deq-InOrder s h = take_front-InOrder s.q s h refl

  sleep_unless-InOrder : (r : Queue T × Option T) → InOrder r.0 → InOrder (sleep_unless r).0
  unfolding sleep_unless
  sleep_unless-InOrder (s, none) h = h
  sleep_unless-InOrder (s, some t) h = h

  wait_deq-InOrder : (s : Queue T) → InOrder s → InOrder (wait_deq s).0
  unfolding wait_deq
  wait_deq-InOrder s h = sleep_unless-InOrder (nowait_deq s) (nowait_deq-InOrder s h)

  Step-InOrder : {n : ℕ} {s u : Queue T} → Step n s u → InOrder s → InOrder u
  unfolding signal enq
  Step-InOrder {s = s} (enq_step t unlocked) h = h
  Step-InOrder {s = s} (push_step t dosignal at) h = push-InOrder t dosignal s h
  Step-InOrder {s = s} (signal_step due) h = wake-InOrder s.asleep s h
  Step-InOrder {s = s} (nowait_step room) h = nowait_deq-InOrder s h
  Step-InOrder {s = s} (wait_step room) h = wait_deq-InOrder s h
  Step-InOrder {s = s} (resume_step due) h = wait_deq-InOrder (record s { woken = s.woken - 1 }) h

  -- However the calls of any number of producers and consumers interleave, what has been taken out and
  -- then what is in the queue is what has been put in, in that order: nothing is lost, invented, repeated
  -- or overtaken, as long as push and pop each are one step.
  pub Reach-InOrder : (n : ℕ) (s : Queue T) → Reach n new_queue s → InOrder s
  Reach-InOrder n s here = refl
  Reach-InOrder n s (next r st) = Step-InOrder st (Reach-InOrder n _ r)
