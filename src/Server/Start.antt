-- ===== src/Server/Start.antt =====
-- The constructor of src/Server.hpp, `socket_bind_listen` with what it calls, the destructor, and
-- `root_giveup` of src/root_safety.cpp. The system is asked by calls, which are kept in a list; a call that
-- fails ends the process.
use filth.Base.Text.{Bytes, starts_with}
use filth.Base.{
  ℕ, Bool, true, false, not, ◌&&◌, ◌||◌, Option, none, some, List, [], ◌∷◌, ◌++◌, length, ◌==◌, ◌%◌,
  ltb, if◌then◌else◌,
}

pub data Domain : Type 0 where
  inet : Domain
  inet6 : Domain
  local : Domain
  unsupported : ℕ → Domain

-- what `getifaddrs` lists: the name, the family and the address
pub record Interface : Type 0 where
  pub name : Bytes
  pub family : Domain
  pub address : Bytes

-- `struct sockaddr_in`, `sockaddr_in6` and `sockaddr_un`; the port is what `atoi` reads in `bindto`, cut to 16 bits
pub data Address : Type 0 where
  net : Domain → Bytes → ℕ → Address
  path : Bytes → Address

pub data Sockopt : Type 0 where
  so_keepalive : Sockopt
  tcp_keepintvl : Sockopt
  tcp_keepcnt : Sockopt
  tcp_keepidle : Sockopt

pub data Call : Type 0 where
  sigmask_block_all : Call
  chdir : Bytes → Call
  socket : Domain → Call
  getifaddrs : Call
  bind : Address → Call
  getsockname : Call
  inet_ntop : Call
  setsockopt : Sockopt → ℕ → Call
  fcntl_getfl : Call
  fcntl_setfl : ℕ → Call
  listen : ℕ → Call
  setegid : ℕ → Call
  seteuid : ℕ → Call
  stat_here : Call
  unlink : Bytes → Call
  close : ℕ → Call

-- what `stat` says of the current directory
pub record Here : Type 0 where
  pub st_uid : ℕ
  pub st_gid : ℕ
  pub others_write : Bool

pub record System : Type 0 where
  pub ok : Call → Bool
  pub listenfd : ℕ
  pub nonblocking : ℕ
  pub interfaces : List Interface
  pub here : Here
  pub atoi : Bytes → ℕ

-- The arguments of the constructor that are used here; `none` stands for -1. `sockdir` is the directory that
-- the process was started in.
pub record Server : Type 0 where
  pub domain : Domain
  pub mount : Bytes
  pub bindto : Bytes
  pub listenq : ℕ
  pub ifnam : Bytes
  pub tcp_keepalive_intvl : Option ℕ
  pub tcp_keepalive_probes : Option ℕ
  pub tcp_keepalive_time : Option ℕ
  pub untrusted_uid : ℕ
  pub untrusted_gid : ℕ
  pub sockdir : Bytes

-- The calls so far, and the value; `none` is the end of the process.
abbrev pub Run : Type 0 → Type 0
Run A = List Call × Option A

abbrev pub exit : {A : Type 0} → Run A
exit = ([], none)

abbrev pub done : Run (Unit {0})
done = ([], some tt)

abbrev pub after : {A B : Type 0} → List Call → Option A → (A → Run B) → Run B
after cs none k = (cs, none)
after cs (some a) k = (cs ++ (k a).0, (k a).1)

infixl 5 ◌>>=◌ ◌>>◌
abbrev pub ◌>>=◌ : {A B : Type 0} → Run A → (A → Run B) → Run B
m >>= k = after m.0 m.1 k

abbrev pub ◌>>◌ : {B : Type 0} → Run (Unit {0}) → Run B → Run B
m >> n = m >>= λ _. n

-- `sizeof(sa.sun_path)`
abbrev pub sun_path_size : ℕ
sun_path_size = 108

-- `strncmp(name, ifnam, strlen(name)) == 0`, and the family: the name need only begin `ifnam`
unfoldable pub same_family : Domain → Domain → Bool
same_family inet inet = true
same_family inet6 inet6 = true
same_family a b = false

unfoldable pub find_interface : Domain → Bytes → List Interface → Option Interface
find_interface d ifnam [] = none
find_interface d ifnam (i ∷ is) =
    if starts_with i.name ifnam && same_family i.family d then some i else find_interface d ifnam is

-- behind the loop over the interfaces
unfoldable pub found_interface : {A : Type 0} → Option Interface → (Interface → Run A) → Run A
found_interface none k = exit
found_interface (some i) k = k i

module _ (sys : System) where
  unfoldable pub call : Call → Run (Unit {0})
  call c = (c ∷ [], if sys.ok c then some tt else none)

  unfoldable pub new_server : Server → Run (Unit {0})
  unfolding call
  new_server s = elim s.domain [
    | local ↦ if ltb 107 (length s.bindto) then exit else done
    | _ ↦ call (chdir s.mount)
  ]

  -- what `setup_AF_INET` and `setup_AF_INET6` both do
  unfoldable pub setup_net : Domain → Server → Run (Unit {0})
  unfolding call
  setup_net d s = do
    call getifaddrs
    found_interface (find_interface d s.ifnam sys.interfaces) (λ i.
        call (bind (net d i.address (sys.atoi s.bindto % 65536)))
        >> call getsockname
        >> call inet_ntop)

  unfoldable pub setup_inet : Server → Run (Unit {0})
  unfolding setup_net
  setup_inet s = setup_net inet s

  unfoldable pub setup_inet6 : Server → Run (Unit {0})
  unfolding setup_net
  setup_inet6 s = setup_net inet6 s

  unfoldable pub setup_local : Server → Run (Unit {0})
  unfolding call
  setup_local s = do call (chdir s.sockdir); call (bind (path s.bindto)); call (chdir s.mount)

  -- the `switch` on the domain
  unfoldable pub setup : Domain → Server → Run (Unit {0})
  unfolding setup_inet setup_inet6 setup_local
  setup inet s = setup_inet s
  setup inet6 s = setup_inet6 s
  setup local s = setup_local s
  setup (unsupported n) s = exit

  -- an option that is not -1
  unfoldable pub set_given : Sockopt → Option ℕ → Run (Unit {0})
  unfolding call
  set_given opt none = done
  set_given opt (some v) = call (setsockopt opt v)

  abbrev pub given : Option ℕ → Bool
  given none = false
  given (some v) = true

  unfoldable pub keepalive : Server → Run (Unit {0})
  unfolding call set_given
  keepalive s = do
    call (setsockopt so_keepalive 1)
    set_given tcp_keepintvl s.tcp_keepalive_intvl
    set_given tcp_keepcnt s.tcp_keepalive_probes
    set_given tcp_keepidle s.tcp_keepalive_time

  abbrev pub is_local : Domain → Bool
  is_local local = true
  is_local d = false

  abbrev pub wants_keepalive : Server → Bool
  wants_keepalive s =
      not (is_local s.domain)
      && (given s.tcp_keepalive_intvl || given s.tcp_keepalive_probes || given s.tcp_keepalive_time)

  unfoldable pub socket_bind_listen : Server → Run (Unit {0})
  unfolding call setup keepalive
  socket_bind_listen s = do
    call (socket s.domain)
    setup s.domain s
    if wants_keepalive s then keepalive s else done
    call fcntl_getfl
    call (fcntl_setfl sys.nonblocking)
    call (listen s.listenq)

  -- the conditions under which the process must not go on
  abbrev pub unsafe : ℕ → ℕ → Bool
  unsafe uid gid =
      uid == 0 || sys.here.st_uid == uid || sys.here.st_gid == gid || sys.here.others_write

  -- `untrusted_sanity_checks`, with the user and the group that the process has by then
  unfoldable pub untrusted_sanity_checks : ℕ → ℕ → Run (Unit {0})
  unfolding call
  untrusted_sanity_checks uid gid = do call stat_here; if unsafe uid gid then exit else done

  unfoldable pub root_giveup : ℕ → ℕ → Run (Unit {0})
  unfolding call untrusted_sanity_checks
  root_giveup uid gid = do call (setegid gid); call (seteuid uid); untrusted_sanity_checks uid gid

  -- `serve` up to its loop
  unfoldable pub serve_start : Server → Run (Unit {0})
  unfolding call socket_bind_listen root_giveup
  serve_start s = do
    call sigmask_block_all
    socket_bind_listen s
    root_giveup s.untrusted_uid s.untrusted_gid

  -- the destructor, by its calls: failures are logged, and ignored
  unfoldable pub delete_server : Server → List Call
  delete_server s = elim s.domain [
    | local ↦
        chdir s.sockdir
        ∷ ((if sys.ok (chdir s.sockdir) then unlink s.bindto ∷ [] else [])
            ++ close sys.listenfd ∷ [])
    | _ ↦ close sys.listenfd ∷ []
  ]
