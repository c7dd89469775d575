-- ===== src/Http/Response/Tests.antt =====
-- The handling of a request over a cache with one entry.
mod Served
mod Exchanged
use mathlib.Core.List.{lookup}
use filth.Base.Maps.{modify}
use filth.Base.Text.{Bytes, codes}
use filth.Base.{
  ℕ, ◌≡◌, ◌≢◌, ◌⊎◌, refl, Bool, true, false, none, some, [], ◌∷◌, inr, arith, ℕ_discrete,
}
use filth.Cache.Defs
use filth.Cache.Defs.{Stuff, Cache, Front, FrontLaws, contains, found, release, unget}
use filth.Cache.Invariant.{Inv}
use filth.Cache.Put.{new_entry, Stored}
use filth.Cache.Sizes.{total}
use filth.Http.Constants.{Method, post, ok_status, identity}
use filth.Http.Entry.{CacheEntry, current_age, freshness_lifetime, response_is_fresh}
use filth.Base.Text.{split_at, skip_space, same}
use filth.Http.Constants.{expect, header_name}
use filth.Http.Lines.{header_of, find_header, trim_end}
use filth.Http.Response.Browse.{Browsed}
use filth.Http.Response.Borrow.{cache_get-accepted, cache_get-refused}
use filth.Http.Response.Read
use filth.Http.Response.Read.{ReadReply, served, fetched, FileEntry, read_miss, read_miss_lem}
use filth.Http.Constants.{gateway_timeout}
use filth.Http.Response.Reset.{WorkState, reset}
use filth.Http.Response.Serve.{Bytes-discrete, CacheControl, accept, cache_get}
use filth.Http.Response.Store.{Storable, cache_put, cache_put-Stored}
use filth.Http.Response.Writes.{write_through, throws, write_through_lem}
use filth.Int.{ℤ, pos, ◌+ℤ◌, ◌-ℤ◌}

abbrev plain : CacheControl
plain = record {
  no_cache = false;
  no_store = false;
  no_transform = false;
  only_if_cached = false;
  use_max_age = false;
  use_min_fresh = false;
  use_max_stale = false;
  max_age = pos 0;
  min_fresh = pos 0;
  max_stale = pos 0;
}

-- the client wants a response that stays fresh for an hour
abbrev demanding : CacheControl
demanding = record plain { use_min_fresh = true; min_fresh = pos 3600 }

-- a response of time 100 that says nothing of its lifetime
abbrev page : CacheEntry
page = record {
  szondisk = 5;
  szincache = 4;
  request_time = pos 99;
  response_time = pos 100;
  last_modified = pos 50;
  buf = codes "page";
  use_expires = false;
  use_max_age = false;
  max_age_value = pos 0;
  enc = identity;
  date_value = pos 100;
  age_value = pos 0;
  expires_value = pos 0;
  hdrs = [];
  stat = ok_status;
  omit_body = false;
  asif_uncompressed = false;
}

abbrev read_once : Stuff CacheEntry
read_once = record { s = page; refcnt = 1; invalid = false; sz = 4 }

abbrev one_page : Cache Bytes CacheEntry
one_page = record {
  cache = (codes "a", read_once) ∷ [];
  toevict = [];
  cur = 4;
  max = 10;
  freed = [];
}

abbrev no_print : ℤ → Bytes
no_print t = []

one_page_there : lookup Bytes-discrete (codes "a") one_page.cache ≡ some read_once
unfolding lookup Bytes-discrete ℕ_discrete
one_page_there = refl

page-accept : accept (pos 105) (pos 0) false demanding page ≡ false
unfolding accept current_age freshness_lifetime response_is_fresh ◌+ℤ◌ ◌-ℤ◌
page-accept = refl

page-accept-plain : accept (pos 105) (pos 0) false plain page ≡ true
unfolding accept
page-accept-plain = ground arith

cache_get-accepted_example :
    (s : CacheEntry) × ((cache_get [] no_print (pos 105) (pos 0) false plain (codes "a") one_page).1
      ≡ some s)
    × ((x : Stuff CacheEntry) × (lookup Bytes-discrete
            (codes "a")
            (cache_get [] no_print (pos 105) (pos 0) false plain (codes "a") one_page).0.cache
          ≡ some x)
        × (x.refcnt ≡ 2)
        × (x.s ≡ s))
cache_get-accepted_example =
    cache_get-accepted [] no_print (pos 105) (pos 0) false plain (codes "a") one_page read_once
      one_page_there (omega arith) refl page-accept-plain

cache_get-refused_example :
    ((cache_get [] no_print (pos 105) (pos 0) false demanding (codes "a") one_page).1 ≡ none)
    × (lookup Bytes-discrete
          (codes "a")
          (cache_get [] no_print (pos 105) (pos 0) false demanding (codes "a") one_page).0.cache
        ≡ lookup Bytes-discrete (codes "a") one_page.cache)
cache_get-refused_example =
    cache_get-refused [] no_print (pos 105) (pos 0) false demanding (codes "a") (codes "a") one_page
      read_once one_page_there (omega arith) (omega arith) (inr page-accept)

-- a cache that is still empty
abbrev no_pages : Cache Bytes CacheEntry
no_pages = record { cache = []; toevict = []; cur = 0; max = 10; freed = [] }

no_pages-Inv : Inv Bytes-discrete 0 0 [] no_pages
unfolding total lookup contains
no_pages-Inv = record {
  distinct = tt;
  accounted = refl;
  within = omega arith;
  word = omega arith;
  counters = λ q. omega arith;
  tracked = λ q i. absurd cc;
}

abbrev first_in : Front Bytes
first_in k ks = (k, ks)

first_in-FrontLaws : FrontLaws Bytes-discrete first_in
first_in-FrontLaws = record { length-front = λ k ks. refl; contains-front = λ q k ks. refl }

cache_put-Stored_example :
    (r : Cache Bytes CacheEntry × Bool) × (cache_put first_in true
        (pos 105)
        Method.get
        plain
        (codes "a")
        page
        no_pages
      ≡ some r)
    × (r.1 ≡ true
        → Storable (pos 105) page Method.get
          × (plain.no_store ≡ false)
          × (lookup Bytes-discrete (codes "a") r.0.cache ≡ some (new_entry page 4)))
    × ((r ≡ (no_pages, false)) ⊎ Stored Bytes-discrete true (codes "a") page 4 no_pages r)
cache_put-Stored_example =
    cache_put-Stored first_in first_in-FrontLaws true (pos 105) Method.get plain (codes "a") page
      no_pages (omega arith) no_pages-Inv

-- The first request was for "b", which is not in the cache any more.
abbrev after_hit : WorkState
after_hit = record {
  resp_is_cached = true;
  c = some page;
  uncompressed = none;
  path = codes "b";
  query = [];
  cl_cache_control = plain;
}

one_page_after :
    lookup Bytes-discrete (codes "a") (reset after_hit one_page).1.cache ≡ some read_once
unfolding reset unget release lookup modify Bytes-discrete ℕ_discrete
one_page_after = refl

abbrev fresh_request : Browsed
fresh_request = record {
  line = record { meth = Method.get; path = codes "a"; query = [] };
  cl_accept_enc = identity;
  cl_content_enc = identity;
  cl_cache_control = plain;
  cl_max_fwds = 0;
  deleteme = false;
}

-- numbers that are never found
abbrev keep : {A : Type 0} → Bytes → A → A
keep x v = v

expect_line : header_of (codes "Expect: 100-continue") ≡ some expect
unfolding header_of split_at skip_space trim_end find_header same header_name
expect_line = refl

abbrev nameless : Bytes → Bytes
nameless path = []

read_miss_lem_example :
    (r : Cache Bytes CacheEntry × Bool × ReadReply) × (read_miss nameless no_print 10 first_in true
        (pos 105)
        ok_status
        Method.get
        plain
        (codes "a")
        (some (fetched page))
        no_pages
      ≡ some r)
    × (plain.only_if_cached ≡ true → r ≡ (no_pages, false, Read.throws gateway_timeout))
    × (plain.only_if_cached ≡ false
        → (e : CacheEntry) → some (fetched page) ≡ some (fetched e)
        → (s : CacheEntry) × (r.2 ≡ served s)
          × FileEntry nameless no_print 10 (pos 105) ok_status (codes "a") e s)
    × (r.1 ≡ true
        → (e : CacheEntry) × (r.2 ≡ served e)
          × (lookup Bytes-discrete (codes "a") r.0.cache ≡ some (new_entry e e.szincache)))
read_miss_lem_example =
    read_miss_lem nameless no_print 10 first_in true (pos 105) ok_status Method.get plain
      (codes "a") first_in-FrontLaws (some (fetched page)) no_pages (omega arith) no_pages-Inv
      (λ any gone. cc gone)
