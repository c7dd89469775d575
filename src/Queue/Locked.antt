-- ===== src/Queue/Locked.antt =====
-- DoubleLockedQueue (src/DoubleLockedQueue.hpp): its calls cut where another thread can come between.
-- `enq` holds `back` and the others hold `front`, so the test, the push and the signal of `enq` are a step
-- each. A call of `push` or `pop` itself is taken to be one step.
use filth.Base.{
  ℕ, zero, suc, ◌+◌, ◌-◌, ◌<◌, ◌≡◌, Bool, true, false, Option, none, some, List, [], ◌∷◌, ◌++◌,
  if◌then◌else◌,
}

-- where the `enq` stands that holds `back`: before its push, with what `dosignal` holds, or before its signal
pub data Back {ℓ} (T : Type ℓ) : Type ℓ where
  free : Back T
  pushing : T → Bool → Back T
  signaling : Back T

-- The queue, the consumers that sleep in `nonempty.wait` and those that were woken and have not run since,
-- and the lock `back`. `ins` and `outs`, which the code does not have, are what has been put in and taken
-- out so far.
pub record Queue {ℓ} (T : Type ℓ) : Type ℓ where
  pub q : List T
  pub asleep : ℕ
  pub woken : ℕ
  pub back : Back T
  pub ins : List T
  pub outs : List T

abbrev pub new_queue {ℓ} : {T : Type ℓ} → Queue T
new_queue = record { q = []; asleep = 0; woken = 0; back = free; ins = []; outs = [] }

abbrev pub empty {ℓ} : {T : Type ℓ} → List T → Bool
empty [] = true
empty (x ∷ xs) = false

-- `enq` up to its push
unfoldable pub enq {ℓ} : {T : Type ℓ} → T → Queue T → Queue T
enq t s = record s { back = pushing t (empty s.q) }

-- behind the push: the signal, or the end
abbrev pub after_push {ℓ} : {T : Type ℓ} → Bool → Back T
after_push dosignal = if dosignal then signaling else free

unfoldable pub push {ℓ} : {T : Type ℓ} → T → Bool → Queue T → Queue T
push t dosignal s = record s {
  q = s.q ++ t ∷ [];
  back = after_push dosignal;
  ins = s.ins ++ t ∷ [];
}

-- `nonempty.signal()`: one of those that sleep is woken, if there are any
unfoldable pub wake {ℓ} : {T : Type ℓ} → ℕ → Queue T → Queue T
wake zero s = record s { back = free }
wake (suc n) s = record s { back = free; asleep = n; woken = suc s.woken }

unfoldable pub signal {ℓ} : {T : Type ℓ} → Queue T → Queue T
signal s = wake s.asleep s

-- `nowait_deq`: the element, if there is one
unfoldable pub take_front {ℓ} : {T : Type ℓ} → List T → Queue T → Queue T × Option T
take_front [] s = (s, none)
take_front (t ∷ rest) s = (record s { q = rest; outs = s.outs ++ t ∷ [] }, some t)

unfoldable pub nowait_deq {ℓ} : {T : Type ℓ} → Queue T → Queue T × Option T
nowait_deq s = take_front s.q s

-- the loop of `wait_deq` up to its wait, or to its end
unfoldable pub sleep_unless {ℓ} : {T : Type ℓ} → Queue T × Option T → Queue T × Option T
sleep_unless (s, none) = (record s { asleep = suc s.asleep }, none)
sleep_unless (s, some t) = (s, some t)

unfoldable pub wait_deq {ℓ} : {T : Type ℓ} → Queue T → Queue T × Option T
wait_deq s = sleep_unless (nowait_deq s)

-- The steps of any number of producers and of `n` consumers. An `enq` needs `back`.
pub data Step {ℓ} {T : Type ℓ} (n : ℕ) (s : Queue T) : Queue T → Type ℓ where
  enq_step : (t : T) → s.back ≡ free → Step n s (enq t s)
  push_step : (t : T) (dosignal : Bool) → s.back ≡ pushing t dosignal → Step n s (push t dosignal s)
  signal_step : s.back ≡ signaling → Step n s (signal s)
  nowait_step : s.asleep + s.woken < n → Step n s (nowait_deq s).0
  wait_step : s.asleep + s.woken < n → Step n s (wait_deq s).0
  resume_step : 0 < s.woken → Step n s (wait_deq (record s { woken = s.woken - 1 })).0

pub data Reach {ℓ} {T : Type ℓ} (n : ℕ) (s : Queue T) : Queue T → Type ℓ where
  here : Reach n s s
  next : {u v : Queue T} → Reach n s u → Step n u v → Reach n s v
