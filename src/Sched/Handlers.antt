-- ===== src/Sched/Handlers.antt =====
-- The two callbacks of src/Scheduler.cpp: `_acceptcb`, for the listening socket, and `_sigcb`, for the
-- descriptor of signals.
use mathlib.Core.List.{lookup}
use filth.Base.{
  ℕ, Bool, true, false, ◌||◌, Option, none, some, List, [], ◌∷◌, ℕ_discrete, ◌==◌, if◌then◌else◌,
}
use filth.Sched.Find.{find_work}
use filth.Sched.Poll.{interest, read, Scheduler}

-- `accept`: a descriptor, or what it left in `errno`
pub data Accepted : Type 0 where
  accepted : ℕ → Accepted
  failed : ℕ → Accepted

-- `SocketErr` and `ResourceErr`
pub data CallbackErr : Type 0 where
  socket_err : CallbackErr
  resource_err : CallbackErr

-- EINTR, EWOULDBLOCK, EPROTO and ECONNABORTED
abbrev pub harmless : ℕ → Bool
harmless err = err == 4 || err == 11 || err == 71 || err == 103

-- `schedule`; `added` says whether `epoll_ctl` succeeds
unfoldable pub schedule : Bool → ℕ → Scheduler → Scheduler × Option CallbackErr
schedule true fd s = (record s { watch = interest fd read true ∷ s.watch }, none)
schedule false fd s = (s, some resource_err)

-- `_acceptcb::operator()`; `flags_set` says whether both calls of `fcntl` succeed
unfoldable pub accept_one : Accepted → Bool → Bool → Scheduler → Scheduler × Option CallbackErr
accept_one (failed err) flags_set added s = if harmless err then (s, none) else (s, some socket_err)
accept_one (accepted fd) false added s = (s, some socket_err)
accept_one (accepted fd) true added s =
    schedule added fd (record s { fwork = (find_work fd s.fwork).0 })

-- A handler of a signal may change the scheduler, so `run` is a parameter.
module _ (run : ℕ → Scheduler → Scheduler) where
  -- `_sigcb::operator()` over the signals that are pending; `sighandlers` maps a signal to its handler
  unfoldable pub handle_signals : List (ℕ × ℕ) → List ℕ → Scheduler → Scheduler
  handle_signals sighandlers [] s = s
  handle_signals sighandlers (signo ∷ signals) s =
      let s' : Scheduler = elim (lookup ℕ_discrete signo sighandlers) [
        | none ↦ s
        | some h ↦ run h s
      ] in
      if s'.dowork then handle_signals sighandlers signals s' else s'
