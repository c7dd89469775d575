-- ===== src/Queue/LockFree.antt =====
-- LockFreeQueue (src/LockFreeQueue.hpp), the queue of jobs of the server. A thread's call is cut at each
-- read and write of what the threads share. `new` never hands out an address twice, which leaves out the
-- recycled addresses that the header warns of; the memory is consistent for all threads.
pub mod Changes
pub mod Fresh
pub mod Keeps
pub mod Links
pub mod Order
pub mod Runs
pub mod Schedule
pub mod Shape
mod Tests
use filth.Base.{
  ℕ, zero, suc, ◌<◌, ◌≡◌, Bool, true, false, Option, none, some, List, [], ◌∷◌, ◌++◌, ◌==◌,
  if◌then◌else◌,
}

-- The nodes stand at numbers; `brk` is the first that was not handed out. `freed` tells what was deleted.
-- `ins` and `outs`, which the code does not have, are what was linked in and swung out so far.
pub record Mem {ℓ} (T : Type ℓ) : Type ℓ where
  pub head : ℕ
  pub tail : ℕ
  pub next : ℕ → Option ℕ
  pub val : ℕ → T
  pub freed : ℕ → Bool
  pub brk : ℕ
  pub sz : ℕ
  pub ins : List T
  pub outs : List T

abbrev pub update {ℓ} : {A : Type ℓ} → (ℕ → A) → ℕ → A → ℕ → A
update f p v q = if q == p then v else f q

-- The constructor; `t` is what happens to stand in its node.
abbrev pub new_mem {ℓ} : {T : Type ℓ} → T → Mem T
new_mem t = record {
  head = 0;
  tail = 0;
  next = λ p. none;
  val = λ p. t;
  freed = λ p. false;
  brk = 1;
  sz = 0;
  ins = [];
  outs = [];
}

-- Where a thread stands, with its variables: `enq` has made the node n, and the Boolean tells `wait_deq`
-- from `nowait_deq`.
pub data Pc {ℓ} (T : Type ℓ) : Type ℓ where
  idle : Pc T
  enq_tail : (n : ℕ) → Pc T
  enq_next : (n last : ℕ) → Pc T
  enq_check : (n last : ℕ) (next : Option ℕ) → Pc T
  enq_link : (n last : ℕ) → Pc T
  enq_help : (n last next : ℕ) → Pc T
  enq_swing : (n last : ℕ) → Pc T
  enq_up : Pc T
  deq_head : (waits : Bool) → Pc T
  deq_tail : (waits : Bool) (first : ℕ) → Pc T
  deq_ptr : (waits : Bool) (first last : ℕ) → Pc T
  deq_next : (waits : Bool) (first last p : ℕ) → Pc T
  deq_check : (waits : Bool) (first last : ℕ) (next : Option ℕ) → Pc T
  deq_help : (waits : Bool) (last next : ℕ) → Pc T
  deq_val : (waits : Bool) (first : ℕ) (next : Option ℕ) → Pc T
  deq_swing : (waits : Bool) (first next : ℕ) (t : T) → Pc T
  deq_down : (first : ℕ) → Pc T
  deq_delete : (first : ℕ) → Pc T
  empty_down : Pc T
  empty_up : Pc T

-- A thread moves, waits for the semaphore or has no call to run, or touches a node that was deleted or the
-- null pointer.
pub data Outcome {ℓ} (T : Type ℓ) : Type ℓ where
  moves : Mem T → Pc T → Outcome T
  blocks : Outcome T
  faults : Outcome T

-- `__sync_bool_compare_and_swap(&tail, last, p)`
unfoldable pub swing_tail {ℓ} : {T : Type ℓ} → ℕ → ℕ → Mem T → Mem T
swing_tail last p m = if m.tail == last then record m { tail = p } else m

-- `sz.down()`
unfoldable pub down {ℓ} : {T : Type ℓ} → ℕ → Pc T → Mem T → Outcome T
down zero p m = blocks
down (suc k) p m = moves (record m { sz = k }) p

unfoldable pub up {ℓ} : {T : Type ℓ} → Pc T → Mem T → Outcome T
up p m = moves (record m { sz = suc m.sz }) p

-- `__sync_bool_compare_and_swap(&last->next, NULL, n)`
unfoldable pub link {ℓ} : {T : Type ℓ} → ℕ → ℕ → Option ℕ → Mem T → Outcome T
link n last none m =
    moves (record m { next = update m.next last (some n); ins = m.ins ++ m.val n ∷ [] })
      (enq_swing n last)
link n last (some p) m = moves m (enq_tail n)

-- the branches of `enq` and of both `deq` on what they have read
unfoldable pub enq_branch {ℓ} : {T : Type ℓ} → ℕ → ℕ → Option ℕ → Pc T
enq_branch n last none = enq_link n last
enq_branch n last (some p) = enq_help n last p

unfoldable pub deq_empty {ℓ} : {T : Type ℓ} → Bool → ℕ → Option ℕ → Pc T
deq_empty true last none = empty_down
deq_empty false last none = idle
deq_empty waits last (some p) = deq_help waits last p

unfoldable pub deq_branch {ℓ} : {T : Type ℓ} → Bool → ℕ → ℕ → Option ℕ → Pc T
deq_branch waits first last next =
    if first == last then deq_empty waits last next else deq_val waits first next

-- the next step of a thread
unfoldable pub run {ℓ} : {T : Type ℓ} → Pc T → Mem T → Outcome T
run idle m = blocks
run (enq_tail n) m = moves m (enq_next n m.tail)
run (enq_next n last) m = if m.freed last then faults else moves m (enq_check n last (m.next last))
run (enq_check n last next) m =
    if m.tail == last then moves m (enq_branch n last next) else moves m (enq_tail n)
run (enq_link n last) m = if m.freed last then faults else link n last (m.next last) m
run (enq_help n last next) m = moves (swing_tail last next m) (enq_tail n)
run (enq_swing n last) m = moves (swing_tail last n m) enq_up
run enq_up m = up idle m
run (deq_head waits) m = moves m (deq_tail waits m.head)
run (deq_tail waits first) m = moves m (deq_ptr waits first m.tail)
run (deq_ptr waits first last) m = moves m (deq_next waits first last m.head)
run (deq_next waits first last p) m =
    if m.freed p then faults else moves m (deq_check waits first last (m.next p))
run (deq_check waits first last next) m =
    if m.head == first then moves m (deq_branch waits first last next) else moves m (deq_head waits)
run (deq_help waits last next) m = moves (swing_tail last next m) (deq_head waits)
run (deq_val waits first none) m = faults
run (deq_val waits first (some p)) m =
    if m.freed p then faults else moves m (deq_swing waits first p (m.val p))
run (deq_swing waits first next t) m =
    if m.head == first
    then moves (record m { head = next; outs = m.outs ++ t ∷ [] }) (deq_down first)
    else moves m (deq_head waits)
run (deq_down first) m = down m.sz (deq_delete first) m
run (deq_delete first) m =
    if m.freed first then faults else moves (record m { freed = update m.freed first true }) idle
run empty_down m = down m.sz empty_up m
run empty_up m = up (deq_head true) m

-- the calls, up to their first step: `enq` makes its node
pub data Call {ℓ} (T : Type ℓ) : Type ℓ where
  enq : T → Call T
  nowait_deq : Call T
  wait_deq : Call T

unfoldable pub begin {ℓ} : {T : Type ℓ} → Call T → Mem T → Mem T × Pc T
begin (enq t) m = (
  record m { next = update m.next m.brk none; val = update m.val m.brk t; brk = suc m.brk },
  enq_tail m.brk,
)
begin nowait_deq m = (m, deq_head false)
begin wait_deq m = (m, deq_head true)

-- the threads, told apart by a number
pub record System {ℓ} (T : Type ℓ) : Type ℓ where
  pub mem : Mem T
  pub pc : ℕ → Pc T

abbrev pub start {ℓ} : {T : Type ℓ} → T → System T
start t = record { mem = new_mem t; pc = λ i. idle }

pub data Step {ℓ} {T : Type ℓ} (s : System T) : System T → Type ℓ where
  call_step :
      (i : ℕ) (c : Call T)
      → s.pc i ≡ idle
      → Step s (record { mem = (begin c s.mem).0; pc = update s.pc i (begin c s.mem).1 })
  run_step :
      (i : ℕ) (m : Mem T) (p : Pc T)
      → run (s.pc i) s.mem ≡ moves m p
      → Step s (record { mem = m; pc = update s.pc i p })

pub data Reach {ℓ} {T : Type ℓ} (t : T) : System T → Type ℓ where
  new : Reach t (start t)
  later : {s u : System T} → Reach t s → Step s u → Reach t u
