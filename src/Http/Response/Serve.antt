-- ===== src/Http/Response/Serve.antt =====
-- `cache_get` of src/HTTP_2616_Server_Work.cpp. The clock, `now`, is taken to stand still in a call.
use filth.Base.Maps.{modify}
use filth.Base.Text.{Bytes, codes}
use filth.Base.{
  Bool, true, false, not, ◌&&◌, ◌||◌, Option, none, some, ◌++◌, if◌then◌else◌, ℕ_discrete,
}
use filth.Cache.Defs
use filth.Cache.Defs.{Stuff, Cache, unget, advise_evict}
use filth.Http.Constants.{age, warning}
use filth.Http.Entry.{CacheEntry, current_age, freshness_lifetime, response_is_fresh, push_header}
use filth.Int.{ℤ, ◌+ℤ◌, ◌-ℤ◌, leb_ℤ, ltb_ℤ}

unfoldable pub Bytes-discrete : Discrete Bytes
Bytes-discrete = hlevel ℕ_discrete

-- `cc`, one field for each bit of `flags`
pub record CacheControl : Type 0 where
  pub no_cache : Bool
  pub no_store : Bool
  pub no_transform : Bool
  pub only_if_cached : Bool
  pub use_max_age : Bool
  pub use_min_fresh : Bool
  pub use_max_stale : Bool
  pub max_age : ℤ
  pub min_fresh : ℤ
  pub max_stale : ℤ

-- the comparison with `max_stale`
unfoldable pub stale_enough : ℤ → CacheControl → CacheEntry → Bool
stale_enough now cc e = leb_ℤ (current_age now e -ℤ freshness_lifetime e) cc.max_stale

-- `lesser` is read before it is set: `garbage` is what it holds then.
unfoldable pub lesser : ℤ → CacheControl → CacheEntry → ℤ
lesser garbage cc e =
    if e.use_max_age && ltb_ℤ e.max_age_value garbage then e.max_age_value else cc.max_age

-- whether `cache_get` goes to `cache_ok`; `valid` is what `validate` says
unfoldable pub accept : ℤ → ℤ → Bool → CacheControl → CacheEntry → Bool
accept now garbage valid cc e =
    if (response_is_fresh now e || valid) && (not cc.use_min_fresh && not cc.use_max_age)
    then true
    else if cc.use_min_fresh
    then leb_ℤ (current_age now e +ℤ cc.min_fresh) (freshness_lifetime e)
    else if cc.use_max_age
    then (if leb_ℤ (current_age now e) (lesser garbage cc e)
        then (if cc.use_max_stale then stale_enough now cc e else true)
        else false)
    else if cc.use_max_stale
    then stale_enough now cc e
    else true

abbrev pub rewritten : (CacheEntry → CacheEntry) → Stuff CacheEntry → Stuff CacheEntry
rewritten f x = record x { s = f x.s }

-- `*c << ...` for an entry that stands in the cache
unfoldable pub update :
    Bytes → (CacheEntry → CacheEntry) → Cache Bytes CacheEntry → Cache Bytes CacheEntry
update path f c = record c { cache = modify Bytes-discrete path (rewritten f) c.cache }

-- `PACKAGE_NAME` comes from the generated config.h, the printing of a number from the library.
module _ (package_name : Bytes) (print : ℤ → Bytes) where
  -- what `cache_ok` writes into the entry
  unfoldable pub aged : ℤ → CacheEntry → CacheEntry
  aged now e = push_header age (print (current_age now e)) e

  unfoldable pub warned : CacheEntry → CacheEntry
  warned e = push_header warning (codes "110 " ++ package_name ++ codes " \"Response is stale\"") e

  -- `cache_ok` and `cache_no`
  unfoldable pub serve :
      ℤ
      → ℤ
      → Bool
      → CacheControl
      → Bytes
      → Cache Bytes CacheEntry × Option CacheEntry
      → Cache Bytes CacheEntry × Option CacheEntry
  serve now garbage valid cc path (c, none) = (c, none)
  serve now garbage valid cc path (c, some e) =
      if accept now garbage valid cc e
      then (if response_is_fresh now e then (update path (aged now) c, some (aged now e)) else (
        update path warned (advise_evict Bytes-discrete path (update path (aged now) c)),
        some (warned (aged now e)),
      ))
      else (unget Bytes-discrete path c, none)

  -- `cache_get`: `some` is true, with the entry that `c` points to
  unfoldable pub cache_get :
      ℤ
      → ℤ
      → Bool
      → CacheControl
      → Bytes
      → Cache Bytes CacheEntry
      → Cache Bytes CacheEntry × Option CacheEntry
  cache_get now garbage valid cc path c =
      if cc.no_cache
      then (c, none)
      else serve now garbage valid cc path (Defs.get Bytes-discrete path c)
