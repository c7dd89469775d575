-- ===== src/Http/Response/Writes.antt =====
-- The part of `prepare_response` of src/HTTP_2616_Server_Work.cpp for the methods that write. What
-- HTTP_Origin_Server returns is an argument.
use mathlib.Core.List.{lookup}
use mathlib.Core.Option
use filth.Base.Maps.{lookup-modify}
use filth.Base.Text.{Bytes}
use filth.Base.{
  ℕ, ◌+◌, ◌^◌, ◌<◌, ◌≡◌, ◌≢◌, refl, ◌∙◌, ap, Bool, true, false, ◌||◌, Option, none, some, if_pos,
  arith, ◌==◌, if◌then◌else◌,
}
use filth.Cache.Borrow.{lookup-get}
use filth.Cache.Defs
use filth.Cache.Defs.{Stuff, Cache, Front, FrontLaws, advise_evict}
use filth.Http.Constants.{
  Status, ok_status, method_not_allowed, not_found, internal_server_error, forbidden, Method,
  connect, delete, head, options, post, put, trace,
}
use filth.Http.Entry.{CacheEntry}
use filth.Http.Response.Serve.{Bytes-discrete}
use filth.Base.Errno.{eperm, enoent, eacces, eisdir, espipe}

-- The path is a socket, or an `HTTP_oops` is thrown.
pub data WriteReply : Type 0 where
  to_socket : WriteReply
  throws : Status → WriteReply

-- the `switch` on what `putorpost` returns; ENOMEM, ENOTSUP and the rest are all internal errors
unfoldable pub write_reply : ℕ → WriteReply
write_reply err =
    if err == 0
    then throws ok_status
    else if err == espipe
    then to_socket
    else if err == enoent
    then throws not_found
    else if (err == eacces) || (err == eisdir)
    then throws forbidden
    else throws internal_server_error

-- the `switch` on what `unlink` returns
unfoldable pub unlink_reply : ℕ → WriteReply
unlink_reply err =
    if err == 0
    then throws ok_status
    else if (err == eacces) || (err == eisdir)
    then throws forbidden
    else if err == enoent
    then throws not_found
    else if err == eperm
    then throws forbidden
    else throws internal_server_error

unfoldable pub advised : ℕ → Bytes → Cache Bytes CacheEntry → Cache Bytes CacheEntry
advised err path c = if err == 0 then advise_evict Bytes-discrete path c else c

-- `prepare_response` up to the methods that read, for which the answer is `none`; `err` is what the
-- origin server returns
unfoldable pub write_through :
    Method → ℕ → Bytes → Cache Bytes CacheEntry → Cache Bytes CacheEntry × Option WriteReply
write_through connect err path c = (c, some (throws method_not_allowed))
write_through post err path c = (advised err path c, some (write_reply err))
write_through put err path c = (advised err path c, some (write_reply err))
write_through delete err path c = (advised err path c, some (unlink_reply err))
write_through Method.get err path c = (c, none)
write_through head err path c = (c, none)
write_through options err path c = (c, none)
write_through trace err path c = (c, none)

-- the methods that change a resource
abbrev pub writes : Method → Bool
writes post = true
writes put = true
writes delete = true
writes connect = false
writes Method.get = false
writes head = false
writes options = false
writes trace = false

cache-write_through :
    (meth : Method) (err : ℕ) (path : Bytes) (c : Cache Bytes CacheEntry)
    → writes meth ≡ true
    → (write_through meth err path c).0 ≡ advised err path c
unfolding write_through
cache-write_through post err path c h = refl
cache-write_through put err path c h = refl
cache-write_through delete err path c h = refl
cache-write_through connect err path c h = absurd cc
cache-write_through Method.get err path c h = absurd cc
cache-write_through head err path c h = absurd cc
cache-write_through options err path c h = absurd cc
cache-write_through trace err path c h = absurd cc

reply-write_through :
    (meth : Method) (path : Bytes) (c : Cache Bytes CacheEntry)
    → writes meth ≡ true
    → (write_through meth 0 path c).1 ≡ some (throws ok_status)
unfolding write_through write_reply unlink_reply
reply-write_through post path c h = refl
reply-write_through put path c h = refl
reply-write_through delete path c h = refl
reply-write_through connect path c h = absurd cc
reply-write_through Method.get path c h = absurd cc
reply-write_through head path c h = absurd cc
reply-write_through options path c h = absurd cc
reply-write_through trace path c h = absurd cc

abbrev marked : Stuff CacheEntry → Stuff CacheEntry
marked x = record x { invalid = true }

lookup-advised :
    (path : Bytes) (c : Cache Bytes CacheEntry) (x : Stuff CacheEntry)
    → lookup Bytes-discrete path c.cache ≡ some x
    → lookup Bytes-discrete path (advised 0 path c).cache ≡ some (marked x)
unfolding advised advise_evict
lookup-advised path c x there =
    lookup-modify Bytes-discrete path path marked c.cache
    ∙ if_pos (Bytes-discrete path path) refl _ _
    ∙ ap (Option.map marked) there

-- A write that the origin server refuses leaves the cache alone. A write that it carries out marks the
-- entry, but does not take it out: the next reader is still handed what was there before the write.
pub write_through_lem :
    (meth : Method) (path : Bytes) (c : Cache Bytes CacheEntry) (x : Stuff CacheEntry)
    → writes meth ≡ true
    → lookup Bytes-discrete path c.cache ≡ some x
    → x.refcnt + 1 < 2 ^ 32
    → ((err : ℕ) → err ≢ 0 → (write_through meth err path c).0 ≡ c)
      × ((write_through meth 0 path c).1 ≡ some (throws ok_status))
      × (lookup Bytes-discrete path (write_through meth 0 path c).0.cache
          ≡ some (record x { invalid = true }))
      × ((Defs.get Bytes-discrete path (write_through meth 0 path c).0).1 ≡ some x.s)
unfolding advised
write_through_lem meth path c x writing there room =
    let same = cache-write_through meth 0 path c writing in
    let stays = ap (λ k. lookup Bytes-discrete path k.cache) same ∙ lookup-advised path c x there in
    (
      λ err bad. cache-write_through meth err path c writing ∙ advised_not err bad,
      reply-write_through meth path c writing,
      stays,
      (lookup-get Bytes-discrete path path (write_through meth 0 path c).0 (marked x) stays room).0,
    )
  where
    advised_not : (err : ℕ) → err ≢ 0 → advised err path c ≡ c
    advised_not err bad = ground arith
