-- ===== src/Http/Response/Borrow.antt =====
-- What `cache_get` does to the cache.
use mathlib.Core.List.{lookup}
use mathlib.Core.Option
use filth.Base.Maps.{lookup-modify}
use filth.Base.Text.{Bytes}
use filth.Base.{
  ℕ, ◌+◌, ◌^◌, ◌<◌, ◌≡◌, refl, sym, ◌∙◌, ap, Bool, true, false, Option, none, some, ite, if_pos,
  arith, Bool-cases, inl, inr, ◌⊎◌, if◌then◌else◌,
}
use filth.Cache.Borrow.{lookup-get, unget-get}
use filth.Cache.Defs
use filth.Cache.Defs.{Stuff, Cache, unget, advise_evict}
use filth.Http.Entry.{CacheEntry, response_is_fresh, push_header}
use filth.Http.Response.Serve.{
  Bytes-discrete, CacheControl, accept, rewritten, update, aged, warned, serve, cache_get,
}
use filth.Int.{ℤ}

module _ (package_name : Bytes) (print : ℤ → Bytes) where
  module _ (now garbage : ℤ) (valid : Bool) (cc : CacheControl) (path : Bytes) where
    lookup-update :
        (q : Bytes) (f : CacheEntry → CacheEntry) (c : Cache Bytes CacheEntry)
        → lookup Bytes-discrete q (update path f c).cache
          ≡ ite
              (Bytes-discrete q path)
              (Option.map (rewritten f) (lookup Bytes-discrete q c.cache))
              (lookup Bytes-discrete q c.cache)
    unfolding update
    lookup-update q f c = lookup-modify Bytes-discrete q path (rewritten f) c.cache

    serve-refused :
        (c : Cache Bytes CacheEntry) (e : CacheEntry)
        → accept now garbage valid cc e ≡ false
        → serve package_name print now garbage valid cc path (c, some e)
          ≡ (unget Bytes-discrete path c, none)
    unfolding serve
    serve-refused c e bad = rw bad refl

    get-eta :
        (c : Cache Bytes CacheEntry) (o : Option CacheEntry)
        → (Defs.get Bytes-discrete path c).1 ≡ o
        → Defs.get Bytes-discrete path c ≡ ((Defs.get Bytes-discrete path c).0, o)
    get-eta c o h = ap (λ (t : Option CacheEntry). ((Defs.get Bytes-discrete path c).0, t)) h

    abbrev outcome : Cache Bytes CacheEntry → Cache Bytes CacheEntry × Option CacheEntry
    outcome c = cache_get package_name print now garbage valid cc path c

    -- the readers of an entry, and what it holds
    abbrev Borrowed : Cache Bytes CacheEntry → ℕ → CacheEntry → Type 0
    Borrowed c n s =
        (x : Stuff CacheEntry) × (lookup Bytes-discrete path c.cache ≡ some x)
        × (x.refcnt ≡ n)
        × (x.s ≡ s)

    update-Borrowed :
        (f : CacheEntry → CacheEntry) (c : Cache Bytes CacheEntry) (n : ℕ) (s : CacheEntry)
        → Borrowed c n s
        → Borrowed (update path f c) n (f s)
    update-Borrowed f c n s (x, there, readers, holds) = (
      record x { s = f x.s },
      lookup-update path f c
          ∙ if_pos (Bytes-discrete path path) refl _ _
          ∙ ap (Option.map (rewritten f)) there,
      readers,
      ap f holds,
    )

    abbrev marked : Stuff CacheEntry → Stuff CacheEntry
    marked x = record x { invalid = true }

    advise_evict-Borrowed :
        (c : Cache Bytes CacheEntry) (n : ℕ) (s : CacheEntry)
        → Borrowed c n s
        → Borrowed (advise_evict Bytes-discrete path c) n s
    unfolding advise_evict
    advise_evict-Borrowed c n s (x, there, readers, holds) = (
      marked x,
      lookup-modify Bytes-discrete path path marked c.cache
          ∙ if_pos (Bytes-discrete path path) refl _ _
          ∙ ap (Option.map marked) there,
      readers,
      holds,
    )

    serve-accepted :
        (c : Cache Bytes CacheEntry) (e : CacheEntry) (n : ℕ)
        → accept now garbage valid cc e ≡ true
        → Borrowed c n e
        → (s : CacheEntry) × ((serve package_name print now garbage valid cc path (c, some e)).1
            ≡ some s)
          × Borrowed (serve package_name print now garbage valid cc path (c, some e)).0 n s
    unfolding serve
    serve-accepted c e n yes_ there = elim (Bool-cases (response_is_fresh now e)) [
      | inl fresh ↦
          rw (yes_, fresh) (aged package_name print now e, refl, update-Borrowed _ c n e there)
      | inr stale ↦
          rw (yes_, stale)
            (
              warned package_name print (aged package_name print now e),
              refl,
              update-Borrowed _ _ n _ (advise_evict-Borrowed _ n _ (update-Borrowed _ c n e there)),
            )
    ]

    get-Borrowed :
        (c : Cache Bytes CacheEntry) (x : Stuff CacheEntry)
        → lookup Bytes-discrete path c.cache ≡ some x
        → x.refcnt + 1 < 2 ^ 32
        → Borrowed (Defs.get Bytes-discrete path c).0 (x.refcnt + 1) x.s
    get-Borrowed c x there room = (
      record x { refcnt = x.refcnt + 1 },
      (lookup-get Bytes-discrete path path c x there room).1
          ∙ if_pos (Bytes-discrete path path) refl _ _,
      refl,
      refl,
    )

    outcome_some :
        (c : Cache Bytes CacheEntry) (x : Stuff CacheEntry)
        → lookup Bytes-discrete path c.cache ≡ some x
        → x.refcnt + 1 < 2 ^ 32
        → cc.no_cache ≡ false
        → outcome c
          ≡ serve package_name print now garbage valid cc path
              ((Defs.get Bytes-discrete path c).0, some x.s)
    unfolding cache_get
    outcome_some c x there room plain =
        ap
          (λ b.
            if b
            then (c, none)
            else serve package_name print now garbage valid cc path
                (Defs.get Bytes-discrete path c))
          plain
        ∙ ap (serve package_name print now garbage valid cc path)
            (get-eta c (some x.s) (lookup-get Bytes-discrete path path c x there room).0)

    -- An entry that the request accepts is served, and stays borrowed: the cache counts one reader
    -- more for it, and holds the very entry that is served.
    pub cache_get-accepted :
        (c : Cache Bytes CacheEntry) (x : Stuff CacheEntry)
        → lookup Bytes-discrete path c.cache ≡ some x
        → x.refcnt + 1 < 2 ^ 32
        → cc.no_cache ≡ false
        → accept now garbage valid cc x.s ≡ true
        → (s : CacheEntry) × ((cache_get package_name print now garbage valid cc path c).1 ≡ some s)
          × Borrowed (cache_get package_name print now garbage valid cc path c).0 (x.refcnt + 1) s
    cache_get-accepted c x there room plain yes_ =
        rw (outcome_some c x there room plain)
          (serve-accepted _ x.s (x.refcnt + 1) yes_ (get-Borrowed c x there room))

    buf-serve :
        (c : Cache Bytes CacheEntry) (e s : CacheEntry)
        → accept now garbage valid cc e ≡ true
        → (serve package_name print now garbage valid cc path (c, some e)).1 ≡ some s
        → s.buf ≡ e.buf
    unfolding serve aged warned push_header
    buf-serve c e s yes_ served = ground (arith, yes_, served)

    -- What is served has the bytes of the entry.
    pub buf-cache_get :
        (c : Cache Bytes CacheEntry) (x : Stuff CacheEntry) (s : CacheEntry)
        → lookup Bytes-discrete path c.cache ≡ some x
        → x.refcnt + 1 < 2 ^ 32
        → cc.no_cache ≡ false
        → accept now garbage valid cc x.s ≡ true
        → (cache_get package_name print now garbage valid cc path c).1 ≡ some s
        → s.buf ≡ x.s.buf
    buf-cache_get c x s there room plain yes_ served =
        buf-serve (Defs.get Bytes-discrete path c).0 x.s s yes_ (
          sym (
            ap (λ (r : Cache Bytes CacheEntry × Option CacheEntry). r.1)
              (outcome_some c x there room plain))
          ∙ served)

    -- A request that gets nothing leaves every entry as it was, if others read the one it asked for.
    pub cache_get-refused :
        (q : Bytes) (c : Cache Bytes CacheEntry) (x : Stuff CacheEntry)
        → lookup Bytes-discrete path c.cache ≡ some x
        → 0 < x.refcnt
        → x.refcnt + 1 < 2 ^ 32
        → (cc.no_cache ≡ true) ⊎ (accept now garbage valid cc x.s ≡ false)
        → ((cache_get package_name print now garbage valid cc path c).1 ≡ none)
          × (lookup Bytes-discrete q
                (cache_get package_name print now garbage valid cc path c).0.cache
              ≡ lookup Bytes-discrete q c.cache)
    unfolding cache_get
    cache_get-refused q c x there held room why = elim (Bool-cases cc.no_cache) [
      | inl skip ↦ rw (skip, cache_get) (refl, refl)
      | inr plain ↦
          let bad : accept now garbage valid cc x.s ≡ false = ground (arith, why, plain) in
          rw (outcome_some c x there room plain) (
            rw (serve-refused _ x.s bad)
              (refl, unget-get Bytes-discrete path q c x there held room))
    ]

    -- Without min-fresh, max-age and max-stale, whatever is in the cache is served: also an entry that
    -- is stale and that the origin server has found out of date.
    pub stale_served :
        (c : Cache Bytes CacheEntry) (x : Stuff CacheEntry)
        → lookup Bytes-discrete path c.cache ≡ some x
        → x.refcnt + 1 < 2 ^ 32
        → cc.no_cache ≡ false
        → cc.use_min_fresh ≡ false
        → cc.use_max_age ≡ false
        → cc.use_max_stale ≡ false
        → (s : CacheEntry) × ((cache_get package_name print now garbage valid cc path c).1 ≡ some s)
    unfolding accept
    stale_served c x there room plain min max stale =
        let (s, run, _) = cache_get-accepted c x there room plain (ground arith) in (s, run)
