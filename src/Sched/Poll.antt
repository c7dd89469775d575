-- ===== src/Sched/Poll.antt =====
-- `Scheduler` of src/Scheduler.cpp: one pass over the events that `epoll_wait` has returned, and what
-- `schedule` and `reschedule` ask of epoll.
use mathlib.Core.List.{lookup}
use filth.Base.Maps.{insert, lookup-insert, lookup-erase}
use filth.Base.{
  ℕ, ◌≡◌, refl, Bool, true, false, not, ◌&&◌, ◌||◌, Option, none, some, List, [], ◌∷◌, ◌++◌, inl,
  inr, arith, Bool-cases, Option-cases, ℕ_discrete, if◌then◌else◌, ◌∙◌, ap, if_pos,
}
use filth.Sched.Find.{FindWork, find_work, unregister}

-- `struct epoll_event`
pub record Event : Type 0 where
  pub fd : ℕ
  pub err : Bool
  pub hup : Bool
  pub rdhup : Bool
  pub input : Bool
  pub output : Bool

-- `Work::mode`
pub data Mode : Type 0 where
  read write : Mode

-- what `schedule`, `reschedule` ask epoll to watch
pub record Interest : Type 0 where
  pub fd : ℕ
  pub oneshot : Bool
  pub input : Bool
  pub output : Bool
  pub rdhup : Bool

unfoldable pub interest : ℕ → Mode → Bool → Interest
interest fd read oneshot = record {
  fd = fd;
  oneshot = oneshot;
  input = true;
  output = false;
  rdhup = true;
}
interest fd write oneshot = record {
  fd = fd;
  oneshot = oneshot;
  input = false;
  output = true;
  rdhup = true;
}

-- Callbacks are told apart by a number, as work is. `none` on the queue is the null pointer that
-- stops the workers; `deleted` lists the work that has been deleted, and `watch` what epoll was asked.
pub record Scheduler : Type 0 where
  pub fdcbs : List (ℕ × ℕ)
  pub fwork : FindWork
  pub q : List (Option ℕ)
  pub deleted : List ℕ
  pub watch : List Interest
  pub dowork : Bool

-- `registercb`; a negative descriptor, which is refused, is no number
unfoldable pub registercb : ℕ → ℕ → Mode → Bool → Scheduler → Scheduler
registercb fd cb m oneshot s = record s {
  fdcbs = insert ℕ_discrete fd cb s.fdcbs;
  fwork = (find_work fd s.fwork).0;
  watch = interest fd m oneshot ∷ s.watch;
}

-- `halt`
unfoldable pub halt : Scheduler → Scheduler
halt s = record s { dowork = false; q = s.q ++ none ∷ [] }

-- `q.enq((*fwork)(fd, ...))`
unfoldable pub enqueue : ℕ → Scheduler → Scheduler
enqueue fd s = record s {
  fwork = (find_work fd s.fwork).0;
  q = s.q ++ some (find_work fd s.fwork).1 ∷ [];
}

-- `delete` of the work of a descriptor. The destructor of HTTP_2616_Server_Work unregisters the
-- descriptor, that of HTTP_Client_Work does not: `unregisters` says which work is of the first kind.
unfoldable pub hang_up : (ℕ → Bool) → ℕ → Scheduler → Scheduler
hang_up unregisters fd s = record s {
  fwork =
      if unregisters (find_work fd s.fwork).1
      then unregister fd (find_work fd s.fwork).0
      else (find_work fd s.fwork).0;
  deleted = (find_work fd s.fwork).1 ∷ s.deleted;
}

-- the bits of an event that put its work on the queue
abbrev pub queued : Event → Bool
queued e = not (e.err || e.hup || e.rdhup) && (e.input || e.output)

-- A callback may do anything to the scheduler, so `call` is a parameter.
-- a descriptor has the work that is found for it
lookup-find_work :
    (fd : ℕ) (f : FindWork) → lookup ℕ_discrete fd (find_work fd f).0.wmap ≡ some (find_work fd f).1
unfolding find_work
lookup-find_work fd f = elim (Option-cases (lookup ℕ_discrete fd f.wmap)) [
  | inl new ↦
      rw (new, find_work)
        (lookup-insert ℕ_discrete fd fd f.fresh f.wmap ∙ if_pos (ℕ_discrete fd fd) refl _ _)
  | inr (w, old) ↦ rw (old, find_work) old
]

module _ (unregisters : ℕ → Bool) (call : ℕ → Scheduler → Scheduler) where
  unfoldable pub handle : Event → Scheduler → Scheduler
  handle e s = elim (lookup ℕ_discrete e.fd s.fdcbs) [
    | some cb ↦ call cb s
    | none ↦
        if e.err || e.hup || e.rdhup
        then hang_up unregisters e.fd s
        else if e.input
        then enqueue e.fd s
        else if e.output
        then enqueue e.fd s
        else s
  ]

  -- the loop over the events of one `epoll_wait`
  unfoldable pub handle_all : List Event → Scheduler → Scheduler
  handle_all [] s = s
  handle_all (e ∷ es) s = let s' = handle e s in if s'.dowork then handle_all es s' else s'

  -- the loop of `poll`, over what the calls of `epoll_wait` return; an interrupted call returns nothing.
  -- `none`: the loop is waiting.
  unfoldable pub poll : List (List Event) → Scheduler → Option Scheduler
  poll [] s = if s.dowork then none else some s
  poll (es ∷ waits) s = let rest = poll waits (handle_all es s) in if s.dowork then rest else some s

  -- What one event of a connection does: a readable or writable one puts exactly its own work at the
  -- end of the queue; an error or a hangup deletes exactly its own work, and frees the descriptor
  -- if the work's destructor unregisters it, else the descriptor still has the work that is deleted;
  -- anything else is ignored. The descriptor has no callback.
  pub handle_lem :
      (e : Event) (s : Scheduler)
      → lookup ℕ_discrete e.fd s.fdcbs ≡ none
      → (queued e ≡ true
          → ((handle e s).q ≡ s.q ++ some (find_work e.fd s.fwork).1 ∷ [])
            × ((handle e s).deleted ≡ s.deleted))
        × ((e.err || e.hup || e.rdhup) ≡ true
            → ((handle e s).q ≡ s.q)
              × ((handle e s).deleted ≡ (find_work e.fd s.fwork).1 ∷ s.deleted)
              × (unregisters (find_work e.fd s.fwork).1 ≡ true
                  → lookup ℕ_discrete e.fd (handle e s).fwork.wmap ≡ none)
              × (unregisters (find_work e.fd s.fwork).1 ≡ false
                  → lookup ℕ_discrete e.fd (handle e s).fwork.wmap
                    ≡ some (find_work e.fd s.fwork).1))
        × ((e.err || e.hup || e.rdhup) ≡ false → queued e ≡ false → handle e s ≡ s)
  unfolding handle enqueue hang_up unregister
  handle_lem e s connection = (
    λ ready. ground (arith, connection),
    λ gone. ground (
      arith,
      connection,
      lookup-erase ℕ_discrete e.fd e.fd (find_work e.fd s.fwork).0.wmap,
      lookup-find_work e.fd s.fwork,
    ),
    λ fine idle. ground (arith, connection),
  )

  handle_all-append :
      (es later : List Event) (e : Event) (s : Scheduler)
      → (handle_all es s).dowork ≡ true
      → (handle e (handle_all es s)).dowork ≡ false
      → handle_all (es ++ e ∷ later) s ≡ handle e (handle_all es s)
  unfolding handle_all
  handle_all-append [] later e s before after = rw (after, handle_all) refl
  handle_all-append (d ∷ es) later e s before after = elim (Bool-cases (handle d s).dowork) [
    | inl on ↦ ground (arith, handle_all-append es later e (handle d s))
    | inr off ↦ absurd (ground arith)
  ]

  poll_off : (ws : List (List Event)) (s : Scheduler) → s.dowork ≡ false → poll ws s ≡ some s
  unfolding poll
  poll_off [] s off = rw (off, poll) refl
  poll_off (w ∷ ws) s off = rw (off, poll) refl

  poll-on :
      (es : List Event) (ws : List (List Event)) (s : Scheduler)
      → s.dowork ≡ true
      → poll (es ∷ ws) s ≡ poll ws (handle_all es s)
  unfolding poll
  poll-on es ws s on = ap (λ (b : Bool). if b then poll ws (handle_all es s) else some s) on

  -- Once a handler has called for a halt, no later event is looked at, and `poll` returns with the
  -- scheduler as that handler left it.
  pub poll_halted :
      (es later : List Event) (waits : List (List Event)) (e : Event) (s : Scheduler)
      → s.dowork ≡ true
      → (handle_all es s).dowork ≡ true
      → (handle e (handle_all es s)).dowork ≡ false
      → poll ((es ++ e ∷ later) ∷ waits) s ≡ some (handle e (handle_all es s))
  poll_halted es later waits e s on before after =
      poll-on (es ++ e ∷ later) waits s on
      ∙ ap (poll waits) (handle_all-append es later e s before after)
      ∙ poll_off waits (handle e (handle_all es s)) after
