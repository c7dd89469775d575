-- ===== src/Http/Response/Reset.antt =====
-- `reset` of src/HTTP_2616_Server_Work.cpp.
use mathlib.Core.List.{lookup}
use filth.Base.Text.{Bytes}
use filth.Base.{
  ◌≡◌, refl, ap, Bool, true, false, Option, none, some, [], if_pos, arith, if◌then◌else◌, ◌∙◌,
}
use filth.Cache.Borrow.{returned, lookup-unget}
use filth.Cache.Defs.{Stuff, Cache, unget}
use filth.Http.Entry.{CacheEntry}
use filth.Http.Response.Serve.{Bytes-discrete, CacheControl}

-- the members of HTTP_2616_Server_Work that `reset` reads or sets
pub record WorkState : Type 0 where
  pub resp_is_cached : Bool
  pub c : Option CacheEntry
  pub uncompressed : Option Bytes
  pub path : Bytes
  pub query : Bytes
  pub cl_cache_control : CacheControl

-- `cc::clear`
unfoldable pub clear : CacheControl → CacheControl
clear cc = record cc {
  no_cache = false;
  no_store = false;
  no_transform = false;
  only_if_cached = false;
  use_max_age = false;
  use_min_fresh = false;
  use_max_stale = false;
}

-- the members and the cache afterwards, and the entry that is deleted, if any
unfoldable pub reset :
    WorkState → Cache Bytes CacheEntry → WorkState × Cache Bytes CacheEntry × Option CacheEntry
reset w cache =
    let cleared = record w {
      uncompressed = none;
      path = [];
      query = [];
      cl_cache_control = clear w.cl_cache_control;
      c = none;
    } in
    if w.resp_is_cached
    then (cleared, unget Bytes-discrete w.path cache, none)
    else (cleared, cache, w.c)

pub cache-reset :
    (w : WorkState) (cache : Cache Bytes CacheEntry)
    → w.resp_is_cached ≡ true
    → (reset w cache).1 ≡ unget Bytes-discrete w.path cache
unfolding reset
cache-reset w cache h = ground arith

resp_is_cached-reset :
    (w : WorkState) (cache : Cache Bytes CacheEntry)
    → (reset w cache).0.resp_is_cached ≡ w.resp_is_cached
unfolding reset
resp_is_cached-reset w cache = ground arith

-- After a response from the cache, a request on the same connection that fails before it has asked
-- the cache takes away a reader all the same: an entry that one other client reads is then counted as
-- read by nobody, and `evict()` may delete it under that client.
pub reset_again :
    (w : WorkState) (cache : Cache Bytes CacheEntry) (path : Bytes) (x : Stuff CacheEntry)
    → w.resp_is_cached ≡ true
    → lookup Bytes-discrete path (reset w cache).1.cache ≡ some x
    → x.refcnt ≡ 1
    → x.invalid ≡ false
    → lookup Bytes-discrete path
        (reset (record (reset w cache).0 { path = path }) (reset w cache).1).1.cache
      ≡ some (record x { refcnt = 0 })
unfolding returned
reset_again w cache path x cached there one good =
    ap (λ (k : Cache Bytes CacheEntry). lookup Bytes-discrete path k.cache)
      (cache-reset (record (reset w cache).0 { path = path }) (reset w cache).1
        (resp_is_cached-reset w cache ∙ cached))
    ∙ lookup-unget Bytes-discrete path path (reset w cache).1 x there (omega arith) (omega arith)
    ∙ if_pos (Bytes-discrete path path) refl _ _
    ∙ ground (arith, one, good)
