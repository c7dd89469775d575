-- ===== src/Server/Passes.antt =====
-- Which signal ends the server, and which only a pass of its loop (src/Server.hpp, src/CachingServer.hpp).
use mathlib.Core.List.{lookup}
use mathlib.Core.Option
use filth.Base.Maps.{lookup-insert}
use filth.Base.{
  ℕ, zero, suc, ◌+◌, ◌≤◌, ◌<◌, ◌≡◌, refl, sym, Bool, true, false, ◌&&◌, Option, none, some, List,
  [], ◌∷◌, ◌++◌, arith, inl, inr, Bool-cases, Option-cases, ℕ_discrete, ◌==◌, ltb, leb,
  if◌then◌else◌, if_true, if_false, ◌∙◌, ap, All,
}
use filth.Server.Serve.{
  Handler, halt, unsafe_emerg_yank, flush, Handlers, Loop, Signals, push_sighandler, push_halts,
  push_yank, push_all, handle, scheduler, Served, exits, returns, startup, shutdown, served, pass,
  serve,
}

abbrev pub is : Option ℕ → ℕ → Bool
is none q = false
is (some sig) q = sig == q

-- what a signal does, by the order in which the handlers are set
abbrev pub meaning : Signals → ℕ → Option Handler
meaning g q =
    if is g.sigdl_ext q
    then some unsafe_emerg_yank
    else if leb 1 q && ltb q 65 && g.haltsigs q
    then some halt
    else if is g.sigflush q
    then some flush
    else none

-- the loop as a pass leaves it whose first signal with a handler has the handler h
abbrev pub passed : Handlers → Handler → Loop → Loop
passed t h l =
    shutdown
      (handle h (record l { dowork = true; sighandlers = t; live = l.live + 4; flushed = false }))

module _ (accepts : ℕ → Bool) where
  lookup-push_sighandler :
      (sig : Option ℕ) (h : Handler) (t u : Handlers) (q : ℕ)
      → push_sighandler accepts sig h t ≡ some u
      → lookup ℕ_discrete q u ≡ (if is sig q then some h else lookup ℕ_discrete q t)
  unfolding push_sighandler
  lookup-push_sighandler none h t u q eq = absurd (cc)
  lookup-push_sighandler (some sig) h t u q eq = ground (arith, lookup-insert ℕ_discrete q sig h t)

  lookup-push_halts :
      (haltsigs : ℕ → Bool) (n sig : ℕ) (t u : Handlers) (q : ℕ)
      → push_halts accepts haltsigs n sig t ≡ some u
      → lookup ℕ_discrete q u
        ≡ (if leb sig q && ltb q (sig + n) && haltsigs q then some halt else lookup ℕ_discrete q t)
  unfolding push_halts Option.bind
  lookup-push_halts haltsigs zero sig t u q eq = ground arith
  lookup-push_halts haltsigs (suc n) sig t u q eq = elim (Bool-cases (haltsigs sig)) [
    | inl set ↦ elim (Option-cases (push_sighandler accepts (some sig) halt t)) [
      | inl refused ↦ absurd (ground arith)
      | inr (v, pushed) ↦ ground (
        arith,
        lookup-push_halts haltsigs n (suc sig) v u q,
        lookup-push_sighandler (some sig) halt t v q pushed,
      )
    ]
    | inr other ↦ ground (arith, lookup-push_halts haltsigs n (suc sig) t u q)
  ]

  lookup-push_yank :
      (sig : Option ℕ) (t u : Handlers) (q : ℕ)
      → push_yank accepts sig t ≡ some u
      → lookup ℕ_discrete q u ≡ (if is sig q then some unsafe_emerg_yank else lookup ℕ_discrete q t)
  unfolding push_yank
  lookup-push_yank none t u q eq = ap (lookup ℕ_discrete q) (cc)
  lookup-push_yank (some sig) t u q eq =
      lookup-push_sighandler (some sig) unsafe_emerg_yank t u q eq

  -- The handlers of a pass, if they can all be set: the signal of the yank wins over the signals that halt,
  -- and these win over the signal of the flush.
  pub lookup-push_all :
      (g : Signals) (t : Handlers) (q : ℕ)
      → push_all accepts g ≡ some t
      → lookup ℕ_discrete q t ≡ meaning g q
  unfolding push_all Option.bind lookup
  lookup-push_all g t q eq = elim (Option-cases (push_sighandler accepts g.sigflush flush [])) [
    | inl refused ↦ absurd (ground arith)
    | inr (v, first) ↦ elim (Option-cases (push_halts accepts g.haltsigs 64 1 v)) [
      | inl refused ↦ absurd (ground arith)
      | inr (w, second) ↦ ground (
        arith,
        lookup-push_sighandler g.sigflush flush [] v q first,
        lookup-push_halts g.haltsigs 64 1 v w q second,
        lookup-push_yank g.sigdl_ext w t q,
      )
    ]
  ]

  ignored_unset :
      (g : Signals) (t : Handlers) (sigs : List ℕ)
      → push_all accepts g ≡ some t
      → All (λ sig. meaning g sig ≡ none) sigs
      → All (λ sig. lookup ℕ_discrete sig t ≡ none) sigs
  ignored_unset g t [] all_set none_of = tt
  ignored_unset g t (sig ∷ sigs) all_set none_of =
      (lookup-push_all g t sig all_set ∙ none_of.0, ignored_unset g t sigs all_set none_of.1)

  -- signals without a handler are passed over
  scheduler_first :
      (ignored more : List ℕ) (q : ℕ) (h : Handler) (l : Loop)
      → All (λ sig. lookup ℕ_discrete sig l.sighandlers ≡ none) ignored
      → lookup ℕ_discrete q l.sighandlers ≡ some h
      → scheduler (ignored ++ q ∷ more) l ≡ some (handle h l)
  unfolding scheduler handle
  scheduler_first [] more q halt l none_of eq = ground arith
  scheduler_first [] more q unsafe_emerg_yank l none_of eq = ground arith
  scheduler_first [] more q flush l none_of eq = ground arith
  scheduler_first (sig ∷ ignored) more q h l none_of eq =
      ground (arith, scheduler_first ignored more q h l none_of.1)

  -- The first signal of a pass that means something ends the pass; what came before has no meaning and what comes
  -- behind is not looked at. The server goes on to its next pass, unless the signal is one that halts.
  pub serve_pass :
      (g : Signals) (t : Handlers) (l : Loop) (ignored more : List ℕ) (q : ℕ) (h : Handler)
      (passes : List (List ℕ))
      → push_all accepts g ≡ some t
      → l.doserve ≡ true
      → All (λ sig. meaning g sig ≡ none) ignored
      → meaning g q ≡ some h
      → serve accepts g ((ignored ++ q ∷ more) ∷ passes) l ≡ serve accepts g passes (passed t h l)
  unfolding serve pass served startup
  serve_pass g t l ignored more q h passes all_set on none_of eq =
      let up = record l { dowork = true; sighandlers = t; live = l.live + 4; flushed = false } in
      if_true (pass (serve accepts g passes) (ignored ++ q ∷ more) (startup accepts g l))
        (returns l) on
      ∙ ap
          (λ o. pass (serve accepts g passes) (ignored ++ q ∷ more) (
            Option.map
              (λ t. record l { dowork = true; sighandlers = t; live = l.live + 4; flushed = false })
              o))
          all_set
      ∙ ap (λ o. served (serve accepts g passes) o up)
          (scheduler_first ignored more q h up (ignored_unset g t ignored all_set none_of)
            (lookup-push_all g t q all_set ∙ eq))

  serve_off :
      (g : Signals) (passes : List (List ℕ)) (l : Loop)
      → l.doserve ≡ false
      → serve accepts g passes l ≡ returns l
  unfolding serve
  serve_off g [] l off = if_false (pass returns [] (startup accepts g l)) (returns l) off
  serve_off g (sigs ∷ passes) l off =
      if_false (pass (serve accepts g passes) sigs (startup accepts g l)) (returns l) off

  -- A signal that halts, as the first one with a meaning, ends the server: `serve` returns, and all that the pass
  -- made is deleted.
  pub serve_halted :
      (g : Signals) (t : Handlers) (l : Loop) (ignored more : List ℕ) (q : ℕ)
      (passes : List (List ℕ))
      → push_all accepts g ≡ some t
      → l.doserve ≡ true
      → All (λ sig. meaning g sig ≡ none) ignored
      → 1 ≤ q
      → q < 65
      → g.haltsigs q ≡ true
      → is g.sigdl_ext q ≡ false
      → (u : Loop) × (serve accepts g ((ignored ++ q ∷ more) ∷ passes) l ≡ returns u)
        × (u.live ≡ l.live)
        × (u.doserve ≡ false)
  unfolding handle shutdown
  serve_halted g t l ignored more q passes all_set on none_of low high halts other = (
    passed t halt l,
    serve_pass g t l ignored more q halt passes all_set on none_of (ground arith)
        ∙ serve_off g passes (passed t halt l) refl,
    omega arith,
    refl,
  )

  -- With the default of the signal that flushes, which is -1, the server never comes to serve: the process ends
  -- in the first pass.
  pub serve_no_flush :
      (g : Signals) (passes : List (List ℕ)) (l : Loop)
      → g.sigflush ≡ none
      → l.doserve ≡ true
      → serve accepts g passes l ≡ exits
  unfolding serve pass startup push_all push_sighandler Option.bind
  serve_no_flush g [] l default on = ground arith
  serve_no_flush g (sigs ∷ passes) l default on = ground arith

  scheduler-live : (sigs : List ℕ) (l u : Loop) → scheduler sigs l ≡ some u → u.live ≡ l.live
  unfolding scheduler handle
  scheduler-live [] l u eq = absurd (cc)
  scheduler-live (sig ∷ sigs) l u eq = elim (Option-cases (lookup ℕ_discrete sig l.sighandlers)) [
    | inl unset ↦ scheduler-live sigs l u (ground arith)
    | inr (halt, set) ↦ ground arith
    | inr (unsafe_emerg_yank, set) ↦ ground arith
    | inr (flush, set) ↦ ground arith
  ]

  pass-live :
      (g : Signals) (again : Loop → Served) (sigs : List ℕ) (l u : Loop)
      → ((v : Loop) → again v ≡ returns u → (u.live ≡ v.live) × (u.doserve ≡ false))
      → pass again sigs (startup accepts g l) ≡ returns u
      → (u.live ≡ l.live) × (u.doserve ≡ false)
  unfolding pass served startup shutdown
  pass-live g again sigs l u rest eq = elim (Option-cases (push_all accepts g)) [
    | inl refused ↦ absurd (ground arith)
    | inr (t, all_set) ↦
        let up = record l { dowork = true; sighandlers = t; live = l.live + 4; flushed = false } in
        elim (Option-cases (scheduler sigs up)) [
          | inl asleep ↦ absurd (ground arith)
          | inr (over, ended) ↦
              let after = rest (shutdown over) (ground arith) in
              (omega (arith, after.0, scheduler-live sigs up over ended), after.1)
        ]
  ]

  -- `serve` returns only once it was told to halt, and then with as much alive as before.
  pub serve-live :
      (g : Signals) (passes : List (List ℕ)) (l u : Loop)
      → serve accepts g passes l ≡ returns u
      → (u.live ≡ l.live) × (u.doserve ≡ false)
  unfolding serve pass served startup scheduler
  serve-live g [] l u eq = ground arith
  serve-live g (sigs ∷ passes) l u eq = elim (Bool-cases l.doserve) [
    | inl on ↦
        pass-live g (serve accepts g passes) sigs l u (λ v. serve-live g passes v u)
          (sym (if_true (pass (serve accepts g passes) sigs (startup accepts g l)) (returns l) on)
            ∙ eq)
    | inr off ↦
        let same =
          sym (if_false (pass (serve accepts g passes) sigs (startup accepts g l)) (returns l) off)
          ∙ eq in
        ground arith
  ]
