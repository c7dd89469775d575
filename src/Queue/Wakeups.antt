-- ===== src/Queue/Wakeups.antt =====
-- A wake-up that DoubleLockedQueue misses.
use filth.Base.{ℕ, ◌<◌, ◌≡◌, refl, sym, subst, false, List, [], ◌∷◌, ◌++◌, arith}
use filth.Queue.Locked.{
  free, Queue, enq, push, take_front, nowait_deq, sleep_unless, wait_deq, enq_step, push_step,
  nowait_step, wait_step, Reach, here, next,
}

module _ {ℓ} {T : Type ℓ} where
  -- one element in the queue, nobody in a call
  abbrev one_in : T → List T → List T → Queue T
  one_in x ins outs = record {
    q = x ∷ [];
    asleep = 0;
    woken = 0;
    back = free;
    ins = ins;
    outs = outs;
  }

  -- one element in the queue beside a consumer that sleeps
  abbrev missed : T → T → List T → List T → Queue T
  missed x y ins outs = record {
    q = y ∷ [];
    asleep = 1;
    woken = 0;
    back = free;
    ins = ins ++ y ∷ [];
    outs = outs ++ x ∷ [];
  }

  -- The `enq` of `y` finds `x` in the queue; the consumer takes `x` out and comes back for more; then
  -- the `enq` goes on.
  missed_run :
      (n : ℕ) (x y : T) (ins outs : List T)
      → 0 < n
      → Reach n (one_in x ins outs) (missed x y ins outs)
  unfolding enq push wait_deq nowait_deq take_front sleep_unless
  missed_run n x y ins outs some_consumer =
      next
        (next (next (next here (enq_step y refl)) (nowait_step (omega (arith, some_consumer))))
          (wait_step (omega (arith, some_consumer))))
        (push_step y false refl)

  -- Even if push and pop each are one step, and with one producer and one consumer: from any state with
  -- one element in which nobody sleeps or is in a call, the calls can interleave so that the consumer
  -- sleeps beside an element, with no signal on its way.
  pub wake_up_missed :
      (n : ℕ) (x y : T) (s : Queue T)
      → 0 < n
      → s.q ≡ x ∷ []
      → s.asleep ≡ 0
      → s.woken ≡ 0
      → s.back ≡ free
      → (u : Queue T) × Reach n s u
        × (u.q ≡ y ∷ [])
        × (u.asleep ≡ 1)
        × (u.woken ≡ 0)
        × (u.back ≡ free)
  wake_up_missed n x y s some_consumer one none_asleep none_woken unlocked =
      let same : one_in x s.ins s.outs ≡ s = λ i. record {
        q = sym one i;
        asleep = sym none_asleep i;
        woken = sym none_woken i;
        back = sym unlocked i;
        ins = s.ins;
        outs = s.outs;
      } in
      (
        missed x y s.ins s.outs,
        subst (λ v. Reach n v (missed x y s.ins s.outs)) same
            (missed_run n x y s.ins s.outs some_consumer),
        refl,
        refl,
        refl,
        refl,
      )
