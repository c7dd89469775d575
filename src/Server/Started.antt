-- ===== src/Server/Started.antt =====
-- What has happened when `serve` of src/Server.hpp comes to its loop.
use mathlib.Core.Option.{some-injective}
use filth.Base.Text.{Bytes, starts_with}
use filth.Base.{
  All, Bool-cases, if_true, if_false, subst, ap₂, ◌&&◌, ◌∙◌, ℕ, ◌≡◌, ◌≢◌, refl, sym, true, false,
  Option, none, some, List, [], ◌∷◌, ◌++◌, arith, inl, inr, Option-cases, ◌%◌, if◌then◌else◌, ap,
  append_assoc,
}
use filth.Server.Start.{
  same_family, Domain, inet, inet6, local, unsupported, Interface, Address, net, path, Call,
  sigmask_block_all, chdir, socket, getifaddrs, bind, getsockname, inet_ntop, fcntl_getfl,
  fcntl_setfl, listen, setegid, seteuid, stat_here, System, Server, Run, done, after, ◌>>◌, call,
  setup_inet, setup_inet6, setup_net, setup_local, setup, found_interface, find_interface,
  keepalive, socket_bind_listen, untrusted_sanity_checks, root_giveup, serve_start, wants_keepalive,
}

-- a run that went on made both of its parts go on
after-some :
    {A B : Type 0} (ms : List Call) (ma : Option A) (k : A → Run B) (cs : List Call) (b : B)
    → after ms ma k ≡ (cs, some b)
    → (a : A) × (ma ≡ some a) × (xs : List Call) × (k a ≡ (xs, some b)) × (cs ≡ ms ++ xs)
after-some {A} {B} ms none k cs b eq = absurd (cc (ap (λ (r : Run B). r.1) eq))
after-some {A} {B} ms (some a) k cs b eq = (
  a,
  refl,
  (k a).0,
  ap (λ (o : Option B). ((k a).0, o)) (ap (λ (r : Run B). r.1) eq),
  sym (ap (λ (r : Run B). r.0) eq),
)

-- An interface is of the domain's family, and its name is the name asked for or the start of it.
pub record Fits (d : Domain) (ifnam : Bytes) (i : Interface) : Type 0 where
  pub family : i.family ≡ d
  pub rest : Bytes
  pub begins : ifnam ≡ i.name ++ rest

-- the first interface of a list that fits
pub record First (d : Domain) (ifnam : Bytes) (is : List Interface) (i : Interface) : Type 0 where
  pub before : List Interface
  pub later : List Interface
  pub there : is ≡ before ++ i ∷ later
  pub fits : Fits d ifnam i
  pub none_before : All (λ j. Fits d ifnam j → ⊥) before

starts_with_sound : (x y : Bytes) → starts_with x y ≡ true → (rest : Bytes) × (y ≡ x ++ rest)
unfolding starts_with
starts_with_sound [] y e = (y, refl)
starts_with_sound (c ∷ x) [] e = absurd cc
starts_with_sound (c ∷ x) (d ∷ y) e =
    let (rest, same) = starts_with_sound x y (ground (arith, e)) in
    (rest, ap₂ ◌∷◌ (ground (arith, e)) same)

starts_with_own : (x rest : Bytes) → starts_with x (x ++ rest) ≡ true
unfolding starts_with
starts_with_own [] rest = refl
starts_with_own (c ∷ x) rest = ground (arith, starts_with_own x rest)

same_family_sound : (a b : Domain) → same_family a b ≡ true → a ≡ b
unfolding same_family
same_family_sound inet inet e = refl
same_family_sound inet6 inet6 e = refl
same_family_sound inet inet6 e = absurd cc
same_family_sound inet local e = absurd cc
same_family_sound inet (unsupported n) e = absurd cc
same_family_sound inet6 inet e = absurd cc
same_family_sound inet6 local e = absurd cc
same_family_sound inet6 (unsupported n) e = absurd cc
same_family_sound local b e = absurd cc
same_family_sound (unsupported n) b e = absurd cc

module _ (d : Domain) (ifnam : Bytes) (own : same_family d d ≡ true) where
  test-Fits :
      (i : Interface) → Fits d ifnam i → (starts_with i.name ifnam && same_family i.family d) ≡ true
  test-Fits i v =
      let begun =
        subst (λ y. starts_with i.name y ≡ true) (sym v.begins) (starts_with_own i.name v.rest) in
      let kin = subst (λ f. same_family f d ≡ true) (sym v.family) own in ground (arith, begun, kin)

  Fits-test :
      (i : Interface) → (starts_with i.name ifnam && same_family i.family d) ≡ true → Fits d ifnam i
  Fits-test i e =
      let (rest, begins) = starts_with_sound i.name ifnam (ground (arith, e)) in
      record {
        family = same_family_sound i.family d (ground (arith, e));
        rest = rest;
        begins = begins;
      }

  find_interface-First :
      (is : List Interface) (i : Interface)
      → find_interface d ifnam is ≡ some i
      → First d ifnam is i
  unfolding find_interface
  find_interface-First [] i e = absurd cc
  find_interface-First (j ∷ is) i e =
      elim (Bool-cases (starts_with j.name ifnam && same_family j.family d)) [
        | inl yes_ ↦
            let same = some-injective _ _ (sym (if_true _ _ yes_) ∙ e) in
            record {
              before = [];
              later = is;
              there = ap (λ k. k ∷ is) same;
              fits = subst (Fits d ifnam) same (Fits-test j yes_);
              none_before = tt;
            }
        | inr no_ ↦
            let v = find_interface-First is i (sym (if_false _ _ no_) ∙ e) in
            record {
              before = j ∷ v.before;
              later = v.later;
              there = ap (λ ks. j ∷ ks) v.there;
              fits = v.fits;
              none_before = ((λ k. cc (test-Fits j k, no_)), v.none_before);
            }
      ]

module _ (sys : System) where
  call_ok : (c : Call) → (call sys c).1 ≡ some tt → sys.ok c ≡ true
  unfolding call
  call_ok c eq = ground arith

  root_giveup_safe :
      (uid gid : ℕ) (cs : List Call)
      → root_giveup sys uid gid ≡ (cs, some tt)
      → (cs ≡ setegid gid ∷ seteuid uid ∷ stat_here ∷ [])
        × (sys.ok (setegid gid) ≡ true)
        × (sys.ok (seteuid uid) ≡ true)
        × (uid ≢ 0)
        × (sys.here.st_uid ≢ uid)
        × (sys.here.st_gid ≢ gid)
        × (sys.here.others_write ≡ false)
  unfolding root_giveup call untrusted_sanity_checks
  root_giveup_safe uid gid cs eq = ground arith

  -- what the listening socket is bound to
  abbrev pub BoundTo : Server → Domain → Address → Type 0
  BoundTo s local a = a ≡ path s.bindto
  BoundTo s (unsupported n) a = ⊥
  BoundTo s d a =
      (i : Interface) × First d s.ifnam sys.interfaces i
      × (a ≡ net d i.address (sys.atoi s.bindto % 65536))

  setup_net_bound :
      (d : Domain) (s : Server) (cs : List Call)
      → setup_net sys d s ≡ (cs, some tt)
      → (i : Interface) × (find_interface d s.ifnam sys.interfaces ≡ some i)
        × (cs
            ≡ getifaddrs
              ∷ bind (net d i.address (sys.atoi s.bindto % 65536))
              ∷ getsockname
              ∷ inet_ntop
              ∷ [])
  unfolding setup_net call found_interface
  setup_net_bound d s cs eq = elim (Option-cases (find_interface d s.ifnam sys.interfaces)) [
    | inl missing ↦ absurd (ground arith)
    | inr (i, found) ↦ (i, found, ground arith)
  ]

  setup_bound :
      (d : Domain) (s : Server) (cs : List Call)
      → setup sys d s ≡ (cs, some tt)
      → (a : Address) × BoundTo s d a
        × (before : List Call) × (later : List Call) × (cs ≡ before ++ bind a ∷ later)
  unfolding same_family setup setup_inet setup_inet6 setup_local call
  setup_bound inet s cs eq =
      let (i, found, is) = setup_net_bound inet s cs eq in
      (
        net inet i.address (sys.atoi s.bindto % 65536),
        (i, find_interface-First inet s.ifnam refl sys.interfaces i found, refl),
        getifaddrs ∷ [],
        getsockname ∷ inet_ntop ∷ [],
        is,
      )
  setup_bound inet6 s cs eq =
      let (i, found, is) = setup_net_bound inet6 s cs eq in
      (
        net inet6 i.address (sys.atoi s.bindto % 65536),
        (i, find_interface-First inet6 s.ifnam refl sys.interfaces i found, refl),
        getifaddrs ∷ [],
        getsockname ∷ inet_ntop ∷ [],
        is,
      )
  setup_bound local s cs eq =
      (path s.bindto, refl, chdir s.sockdir ∷ [], chdir s.mount ∷ [], ground arith)
  setup_bound (unsupported n) s cs eq = absurd (ground arith)

  -- the last calls of `socket_bind_listen`
  listen_last :
      (s : Server) (cs : List Call)
      → (call sys fcntl_getfl
          >> (call sys (fcntl_setfl sys.nonblocking) >> call sys (listen s.listenq)))
        ≡ (cs, some tt)
      → cs ≡ fcntl_getfl ∷ fcntl_setfl sys.nonblocking ∷ listen s.listenq ∷ []
  unfolding call
  listen_last s cs eq = ground arith

  socket_bind_listen_lem :
      (s : Server) (cs : List Call)
      → socket_bind_listen sys s ≡ (cs, some tt)
      → (a : Address) × BoundTo s s.domain a
        × (before : List Call) × (later : List Call) × (cs
            ≡ before ++ (bind a ∷ (later ++ (fcntl_setfl sys.nonblocking ∷ listen s.listenq ∷ []))))
  unfolding socket_bind_listen
  socket_bind_listen_lem s cs eq =
      let opened = call sys (socket s.domain) in
      let bound = setup sys s.domain s in
      let kept = if wants_keepalive sys s then keepalive sys s else done in
      let (_, _, xs, e, c) = after-some opened.0 opened.1 _ cs tt eq in
      let (_, went, ys, e', c') = after-some bound.0 bound.1 _ xs tt e in
      let (_, _, zs, e'', c'') = after-some kept.0 kept.1 _ ys tt e' in
      let (a, to, before, later, is) =
        setup_bound s.domain s bound.0 (ap (λ (o : Option (Unit {0})). (bound.0, o)) went) in
      (
        a,
        to,
        opened.0 ++ before,
        later ++ kept.0 ++ fcntl_getfl ∷ [],
        simp (c, c', c'', is, listen_last s zs e'', append_assoc),
      )

  -- The loop of `serve` is reached only when the socket is bound, then made nonblocking and listening, and
  -- only then the user and the group are changed. For the families of the internet it is bound to the
  -- address of the first interface of the family whose name is the one given or begins it, and to the
  -- port given, modulo 65536; else to the path given. The process then is not the superuser, neither it
  -- nor its group owns the directory that it serves, and others may not write there.
  pub serve_started :
      (s : Server) (cs : List Call)
      → serve_start sys s ≡ (cs, some tt)
      → (a : Address) × BoundTo s s.domain a
        × (before : List Call) × (later : List Call) × (cs
            ≡ before
              ++ bind a ∷ later
              ++ fcntl_setfl sys.nonblocking
                ∷ listen s.listenq
                ∷ setegid s.untrusted_gid
                ∷ seteuid s.untrusted_uid
                ∷ stat_here
                ∷ [])
        × (s.untrusted_uid ≢ 0)
        × (sys.here.st_uid ≢ s.untrusted_uid)
        × (sys.here.st_gid ≢ s.untrusted_gid)
        × (sys.here.others_write ≡ false)
  unfolding serve_start
  serve_started s cs eq =
      let blocked = call sys sigmask_block_all in
      let listening = socket_bind_listen sys s in
      let (_, _, xs, e, c) = after-some blocked.0 blocked.1 _ cs tt eq in
      let (_, went, ys, e', c') = after-some listening.0 listening.1 _ xs tt e in
      let (a, to, before, later, is) =
        socket_bind_listen_lem s listening.0
          (ap (λ (o : Option (Unit {0})). (listening.0, o)) went) in
      let (gave, _, _, user, own, group, others) =
        root_giveup_safe s.untrusted_uid s.untrusted_gid ys e' in
      (
        a,
        to,
        blocked.0 ++ before,
        later,
        simp (c, c', is, gave, append_assoc),
        user,
        own,
        group,
        others,
      )
