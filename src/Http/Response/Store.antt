-- ===== src/Http/Response/Store.antt =====
-- `cache_put` of src/HTTP_2616_Server_Work.cpp.
use mathlib.Core.List.{lookup}
use filth.Base.Text.{Bytes}
use filth.Base.{
  ◌^◌, ◌<◌, ◌≡◌, ◌⊎◌, refl, Bool, true, false, not, ◌||◌, Option, some, [], inl, inr, arith,
  Bool-cases, if◌then◌else◌,
}
use filth.Cache.Defs
use filth.Cache.Defs.{Stuff, Cache, Front, FrontLaws, advise_evict}
use filth.Cache.Invariant.{Inv}
use filth.Cache.Put.{new_entry, Stored, put-Stored}
use filth.Http.Constants.{Method, connect, delete, head, options, post, put, trace}
use filth.Http.Entry.{CacheEntry}
use filth.Http.Response.Serve.{Bytes-discrete, CacheControl}
use filth.Int.{ℤ, ltb_ℤ}

-- the tests of `cache_put`
unfoldable pub not_stored : ℤ → Method → CacheControl → CacheEntry → Bool
not_stored now delete cc e = true
not_stored now options cc e = true
not_stored now put cc e = true
not_stored now trace cc e = true
not_stored now post cc e = (not e.use_expires || ltb_ℤ e.expires_value now) || cc.no_store
not_stored now connect cc e = cc.no_store
not_stored now Method.get cc e = cc.no_store
not_stored now head cc e = cc.no_store

unfoldable pub cache_put :
    Front Bytes
    → Bool
    → ℤ
    → Method
    → CacheControl
    → Bytes
    → CacheEntry
    → Cache Bytes CacheEntry
    → Option (Cache Bytes CacheEntry × Bool)
cache_put front new_ok now meth cc path e c =
    if not_stored now meth cc e
    then some (c, false)
    else Defs.put Bytes-discrete front new_ok path e e.szincache c

-- RFC 2616, 9: the responses that may be stored.
pub data Storable (now : ℤ) (e : CacheEntry) : Method → Type 0 where
  get_response : Storable now e Method.get
  head_response : Storable now e head
  connect_response : Storable now e connect
  post_response : e.use_expires ≡ true → ltb_ℤ e.expires_value now ≡ false → Storable now e post

not_stored-Storable :
    (now : ℤ) (meth : Method) (control : CacheControl) (e : CacheEntry)
    → not_stored now meth control e ≡ false
    → Storable now e meth × (control.no_store ≡ false)
unfolding not_stored
not_stored-Storable now delete control e h = absurd cc
not_stored-Storable now options control e h = absurd cc
not_stored-Storable now put control e h = absurd cc
not_stored-Storable now trace control e h = absurd cc
not_stored-Storable now post control e h =
    (post_response (ground arith) (ground arith), ground arith)
not_stored-Storable now connect control e h = (connect_response, h)
not_stored-Storable now Method.get control e h = (get_response, h)
not_stored-Storable now head control e h = (head_response, h)

-- `cache_put` returns. If it returns true, the method and the headers allow storing, the request does
-- not forbid it, and the entry is in the cache; otherwise nothing new is. Entries in use stay.
pub cache_put-Stored :
    (front : Front Bytes) (laws : FrontLaws Bytes-discrete front) (new_ok : Bool) (now : ℤ)
    (meth : Method) (control : CacheControl) (path : Bytes) (e : CacheEntry)
    (c : Cache Bytes CacheEntry)
    → c.max < 2 ^ 63
    → Inv Bytes-discrete 0 0 [] c
    → (r : Cache Bytes CacheEntry × Bool) × (cache_put front new_ok now meth control path e c
        ≡ some r)
      × (r.1 ≡ true
          → Storable now e meth
            × (control.no_store ≡ false)
            × (lookup Bytes-discrete path r.0.cache ≡ some (new_entry e e.szincache)))
      × ((r ≡ (c, false)) ⊎ Stored Bytes-discrete new_ok path e e.szincache c r)
unfolding cache_put
cache_put-Stored front laws new_ok now meth control path e c bound v =
    elim (Bool-cases (not_stored now meth control e)) [
      | inl out ↦ ((c, false), rw (out, cache_put) refl, λ h. absurd cc, inl refl)
      | inr may ↦
          let (r, run, s) =
            put-Stored Bytes-discrete new_ok path e e.szincache front laws c bound v in
          let (storable, plain) = not_stored-Storable now meth control e may in
          (r, rw (may, cache_put) run, λ h. (storable, plain, s.stored h), inr s)
    ]
