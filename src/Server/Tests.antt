-- ===== src/Server/Tests.antt =====
-- The theorems about the server at a machine with one interface, and at a few signals.
use mathlib.Core.Option
use mathlib.Core.List.{lookup}
use filth.Base.Maps.{insert}
use filth.Base.Text.{codes, starts_with}
use filth.Base.{
  ℕ, ◌+◌, ◌≤◌, ◌≡◌, ◌≢◌, refl, Bool, true, false, none, some, List, [], ◌∷◌, ◌++◌, arith, ◌==◌, leb,
  ltb, ◌&&◌, ◌||◌, ℕ_discrete,
}
use filth.Server.Pool.{
  Pool, asleep, through, leave, wait, Reach, start, next, leave_step, destroy_step, wake_step, scan,
  erase_at, erased, signal,
}
use filth.Server.Pool.Left.{count, Reach-Left}
use filth.Server.Start.{
  inet, Address, Call, sigmask_block_all, socket, getifaddrs, bind, net, getsockname, inet_ntop,
  setsockopt, so_keepalive, tcp_keepcnt, fcntl_getfl, fcntl_setfl, listen, setegid, seteuid,
  stat_here, System, Server, call, setup_inet, setup_net, setup, found_interface, find_interface,
  same_family, set_given, keepalive, socket_bind_listen, untrusted_sanity_checks, root_giveup,
  serve_start,
}
use filth.Server.Started.{BoundTo, serve_started}
use filth.Server.Serve.{
  halt, flush, Handlers, Loop, Signals, push_sighandler, push_halts, push_yank, push_all, handle,
  scheduler, exits, returns, startup, shutdown, served, pass, serve,
}
use filth.Server.Passes.{passed, serve_pass, serve_no_flush}

abbrev machine : System
machine = record {
  ok = λ c. true;
  listenfd = 3;
  nonblocking = 2048;
  interfaces = record { name = codes "lo"; family = inet; address = codes "127.0.0.1" } ∷ [];
  here = record { st_uid = 1000; st_gid = 1000; others_write = false };
  atoi = λ x. 8080;
}

abbrev web : Server
web = record {
  domain = inet;
  mount = codes "/srv";
  bindto = codes "8080";
  listenq = 100;
  ifnam = codes "lo";
  tcp_keepalive_intvl = none;
  tcp_keepalive_probes = some 5;
  tcp_keepalive_time = none;
  untrusted_uid = 9999;
  untrusted_gid = 9999;
  sockdir = codes "/";
}

abbrev calls : List Call
calls =
    sigmask_block_all
    ∷ socket inet
    ∷ getifaddrs
    ∷ bind (net inet (codes "127.0.0.1") 8080)
    ∷ getsockname
    ∷ inet_ntop
    ∷ setsockopt so_keepalive 1
    ∷ setsockopt tcp_keepcnt 5
    ∷ fcntl_getfl
    ∷ fcntl_setfl 2048
    ∷ listen 100
    ∷ setegid 9999
    ∷ seteuid 9999
    ∷ stat_here
    ∷ []

web_starts : serve_start machine web ≡ (calls, some tt)
unfolding serve_start socket_bind_listen setup setup_inet setup_net call found_interface
    find_interface same_family starts_with set_given keepalive root_giveup untrusted_sanity_checks
web_starts = refl

serve_started_example :
    (a : Address) × BoundTo machine web inet a
    × (before : List Call) × (later : List Call) × (calls
        ≡ before
          ++ bind a ∷ later
          ++ fcntl_setfl 2048 ∷ listen 100 ∷ setegid 9999 ∷ seteuid 9999 ∷ stat_here ∷ [])
    × (web.untrusted_uid ≢ 0)
    × (machine.here.st_uid ≢ 9999)
    × (machine.here.st_gid ≢ 9999)
    × (machine.here.others_write ≡ false)
serve_started_example = serve_started machine web calls web_starts

-- SIGINT and SIGTERM halt, SIGHUP flushes
abbrev signals : Signals
signals = record { haltsigs = λ n. (n == 2) || (n == 15); sigdl_ext = none; sigflush = some 1 }

abbrev takes : ℕ → Bool
takes n = leb 1 n && ltb n 65

abbrev handlers : Handlers
handlers = (1, flush) ∷ (2, halt) ∷ (15, halt) ∷ []

abbrev fresh : Loop
fresh = record { doserve = true; dowork = false; sighandlers = []; live = 0; flushed = false }

handlers_set : push_all takes signals ≡ some handlers
unfolding push_all push_sighandler push_halts push_yank Option.bind lookup insert ℕ_discrete
handlers_set = refl

serve_pass_example :
    serve takes signals (((10 ∷ []) ++ 1 ∷ 2 ∷ []) ∷ (15 ∷ []) ∷ []) fresh
    ≡ serve takes signals ((15 ∷ []) ∷ []) (passed handlers flush fresh)
serve_pass_example =
    serve_pass takes signals handlers fresh (10 ∷ []) (2 ∷ []) 1 flush ((15 ∷ []) ∷ []) handlers_set
      refl (refl, tt) refl

abbrev halted : Loop
halted = record {
  doserve = false;
  dowork = false;
  sighandlers = handlers;
  live = 0;
  flushed = false;
}

term_returns : serve takes signals ((15 ∷ []) ∷ []) fresh ≡ returns halted
unfolding serve pass served scheduler handle startup shutdown push_all push_sighandler push_halts
    push_yank Option.bind lookup insert ℕ_discrete
term_returns = refl

serve_no_flush_example :
    serve takes (record signals { sigflush = none }) ((15 ∷ []) ∷ []) fresh ≡ exits
serve_no_flush_example =
    serve_no_flush takes (record signals { sigflush = none }) ((15 ∷ []) ∷ []) fresh refl refl

-- the threads 7 and 9; the pool is destroyed meanwhile
abbrev over : Pool
over = record { threads = []; owner = through; deleted = 7 ∷ 9 ∷ [] }

over_reached : Reach (7 ∷ 9 ∷ []) over
unfolding leave wait scan erase_at erased signal
over_reached =
    next (next (next (next start (destroy_step refl)) (leave_step 9)) (leave_step 7))
      (wake_step refl)

at_most_once : (t : ℕ) → count t (7 ∷ 9 ∷ []) ≤ 1
at_most_once t = ground arith

Reach-Left_example :
    ((t : ℕ) → count t over.deleted + count t over.threads ≡ count t (7 ∷ 9 ∷ []))
    × (over.owner ≡ asleep → over.threads ≢ [])
    × (over.owner ≡ through → (t : ℕ) → count t over.deleted ≡ count t (7 ∷ 9 ∷ []))
Reach-Left_example = Reach-Left at_most_once over_reached
