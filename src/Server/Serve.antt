-- ===== src/Server/Serve.antt =====
-- The loop of `serve` in src/Server.hpp, with `halt`, `onstartup`, `onshutdown` and `flush` of
-- src/CachingServer.hpp, and `push_sighandler` of src/Scheduler.cpp.
use mathlib.Core.List.{lookup}
use mathlib.Core.Option
use filth.Base.Maps.{insert}
use filth.Base.{
  ℕ, zero, suc, ◌+◌, ◌-◌, Bool, true, false, Option, none, some, List, [], ◌∷◌, ℕ_discrete,
  if◌then◌else◌,
}

-- the functions that are made handlers
pub data Handler : Type 0 where
  halt : Handler
  unsafe_emerg_yank : Handler
  flush : Handler

abbrev pub Handlers : Type 0
Handlers = List (ℕ × Handler)

-- What lives while the loop runs: the objects that one pass makes and deletes, and the flags.
pub record Loop : Type 0 where
  pub doserve : Bool
  pub dowork : Bool
  pub sighandlers : Handlers
  pub live : ℕ
  pub flushed : Bool

-- The signals that the server is told of; `none` stands for -1. `haltsigs` is a set.
pub record Signals : Type 0 where
  pub haltsigs : ℕ → Bool
  pub sigdl_ext : Option ℕ
  pub sigflush : Option ℕ

-- NSIG
abbrev pub nsig : ℕ
nsig = 65

-- `CachingServer::flush`: the cache is emptied, and then is deleted with the pass
unfoldable pub flush_server : Loop → Loop
flush_server l = record l { flushed = true; dowork = false }

-- What a handler does to the flags. The yank stops the threads of the pool besides.
unfoldable pub handle : Handler → Loop → Loop
unfolding flush_server
handle halt l = record l { doserve = false; dowork = false }
handle unsafe_emerg_yank l = record l { dowork = false }
handle flush l = flush_server l

-- `_sigcb` over the signals that come in one pass, until `dowork` is false; `none`: the scheduler waits
unfoldable pub scheduler : List ℕ → Loop → Option Loop
scheduler [] l = none
scheduler (sig ∷ sigs) l = elim (lookup ℕ_discrete sig l.sighandlers) [
  | some h ↦ elim (handle h l).dowork [
    | true ↦ scheduler sigs (handle h l)
    | false ↦ some (handle h l)
  ]
  | none ↦ scheduler sigs l
]

-- How the server stands: a call has failed and the process ended; the scheduler waits; or `serve` has
-- returned.
pub data Served : Type 0 where
  exits : Served
  waits : Loop → Served
  returns : Loop → Served

-- `onshutdown`: the cache is deleted
unfoldable pub onshutdown : Loop → Loop
onshutdown l = record l { live = l.live - 1 }

-- behind the threads of a pass
unfoldable pub shutdown : Loop → Loop
unfolding onshutdown
shutdown l = onshutdown (record l { live = l.live - 3 })

-- behind `onstartup`, and behind the threads of the pass
unfoldable pub served : (Loop → Served) → Option Loop → Loop → Served
unfolding shutdown
served again none up = waits up
served again (some over) up = again (shutdown over)

unfoldable pub pass : (Loop → Served) → List ℕ → Option Loop → Served
unfolding served scheduler
pass again sigs none = exits
pass again sigs (some up) = served again (scheduler sigs up) up

-- `accepts` tells which signals `sigaddset` takes; it does not take -1.
module _ (accepts : ℕ → Bool) where
  -- `push_sighandler`, where there is signalfd: `none` is the end of the process
  unfoldable pub push_sighandler : Option ℕ → Handler → Handlers → Option Handlers
  push_sighandler none h t = none
  push_sighandler (some sig) h t = elim (lookup ℕ_discrete sig t) [
    | some old ↦ some (insert ℕ_discrete sig h t)
    | none ↦ if accepts sig then some (insert ℕ_discrete sig h t) else none
  ]

  -- the loop over the signals, from one on
  unfoldable pub push_halts : (ℕ → Bool) → ℕ → ℕ → Handlers → Option Handlers
  push_halts haltsigs zero sig t = some t
  push_halts haltsigs (suc n) sig t = elim (haltsigs sig) [
    | true ↦ Option.bind (push_sighandler (some sig) halt t) (push_halts haltsigs n (suc sig))
    | false ↦ push_halts haltsigs n (suc sig) t
  ]

  unfoldable pub push_yank : Option ℕ → Handlers → Option Handlers
  push_yank none t = some t
  push_yank (some sig) t = push_sighandler (some sig) unsafe_emerg_yank t

  -- `onstartup`; the cache that it makes is counted with the others
  unfoldable pub onstartup : Signals → Handlers → Option Handlers
  onstartup g t = push_sighandler g.sigflush flush t

  -- the handlers of one pass, those of `onstartup` first
  unfoldable pub push_all : Signals → Option Handlers
  unfolding push_yank onstartup
  push_all g =
      Option.bind (onstartup g [])
        (λ t. Option.bind (push_halts g.haltsigs 64 1 t) (push_yank g.sigdl_ext))

  -- the four objects of a pass are the queue, the map of the work, the scheduler and the cache
  unfoldable pub startup : Signals → Loop → Option Loop
  unfolding push_all
  startup g l =
      Option.map
        (λ t. record l { dowork = true; sighandlers = t; live = l.live + 4; flushed = false })
        (push_all g)

  -- `serve` from its loop on, over the signals that come in each pass; in the pass behind the last of them
  -- no signal comes
  unfoldable pub serve : Signals → List (List ℕ) → Loop → Served
  serve g [] l = if l.doserve then pass returns [] (startup g l) else returns l
  serve g (sigs ∷ passes) l =
      let next = pass (serve g passes) sigs (startup g l) in if l.doserve then next else returns l
