-- ===== src/Http/Response/Returns.antt =====
-- `prepare_response` of src/HTTP_2616_Server_Work.cpp comes to an end.
use mathlib.Core.List.{lookup}
use mathlib.Core.Option
use filth.Base.Text.{Bytes}
use filth.Base.{
  ℕ, ◌+◌, ◌^◌, ◌<◌, ◌≡◌, ◌≢◌, refl, sym, ap, ◌∙◌, Bool, true, Option, none, some, [], arith, inl,
  inr, Bool-cases, Option-cases, subst, if_true, if_false,
}
use filth.Cache.Borrow.{lookup-get, unget-Inv}
use filth.Cache.Defs
use filth.Cache.Defs.{Cache, unget, release, evict_one, enqueue, FrontLaws}
use filth.Cache.Invariant.{Inv, refs, get-Inv}
use filth.Http.Conn.Server.{Reply}
use filth.Http.Constants.{
  Status, Method, post, put, delete, connect, head, options, trace, method_not_allowed,
}
use filth.Http.Entry.{CacheEntry}
use filth.Http.Lines.{Hdrs}
use filth.Http.Response.Browse.{Browsed, browse_req}
use filth.Http.Response.Prepare.{
  Members, Outside, Options, read_replied, prepare_read, write_replied, write_result, prepare_write,
  prepare_browsed, prepare,
}
use filth.Http.Response.Read.{ReadReply, served, read_from, read_miss_lem}
use filth.Http.Response.Serve.{Bytes-discrete, CacheControl, accept, serve, cache_get}
use filth.Http.Response.Writes.{WriteReply, write_through, write_reply, unlink_reply}
use filth.Int.{ℤ}

max-get :
    (path : Bytes) (c : Cache Bytes CacheEntry) → (Defs.get Bytes-discrete path c).0.max ≡ c.max
unfolding Defs.get
max-get path c = ground arith

max-unget : (path : Bytes) (c : Cache Bytes CacheEntry) → (unget Bytes-discrete path c).max ≡ c.max
unfolding unget release evict_one enqueue
max-unget path c = ground arith

record Ready (c : Cache Bytes CacheEntry) : Type 0 where
  bound : c.max < 2 ^ 63
  inv : Inv Bytes-discrete 0 0 [] c

-- The invariant of the cache holds, and one more reader of any entry can be counted.
pub record Usable (c : Cache Bytes CacheEntry) : Type 0 where
  pub bound : c.max < 2 ^ 63
  pub inv : Inv Bytes-discrete 0 0 [] c
  pub room : (path : Bytes) → refs Bytes-discrete path c + 1 < 2 ^ 32

module _ (package_name : Bytes) (print : ℤ → Bytes) (now garbage : ℤ) (valid : Bool)
    (control : CacheControl) (path : Bytes) where
  get-Ready :
      (c : Cache Bytes CacheEntry)
      → refs Bytes-discrete path c + 1 < 2 ^ 32
      → Ready c
      → Ready (Defs.get Bytes-discrete path c).0
  get-Ready c room v = record {
    bound = omega (arith, v.bound, max-get path c);
    inv = get-Inv Bytes-discrete path room v.inv;
  }

  missed :
      (c : Cache Bytes CacheEntry)
      → lookup Bytes-discrete path c.cache ≡ none
      → (Defs.get Bytes-discrete path c).1 ≡ none
  unfolding Defs.get
  missed c absent = ground arith

  held_by-get :
      (c : Cache Bytes CacheEntry)
      → refs Bytes-discrete path c + 1 < 2 ^ 32
      → (Defs.get Bytes-discrete path c).1 ≢ none
      → 0 < refs Bytes-discrete path (Defs.get Bytes-discrete path c).0
  held_by-get c room hit = elim (Option-cases (lookup Bytes-discrete path c.cache)) [
    | inl absent ↦ absurd (hit (missed c absent))
    | inr (e, there) ↦ ground (arith, lookup-get Bytes-discrete path path c e there)
  ]

  -- a cache that served nothing
  serve-Ready :
      (c : Cache Bytes CacheEntry) (o : Option CacheEntry)
      → Ready c
      → (o ≢ none → 0 < refs Bytes-discrete path c)
      → (serve package_name print now garbage valid control path (c, o)).1 ≡ none
      → Ready (serve package_name print now garbage valid control path (c, o)).0
  unfolding serve
  serve-Ready c none v held nothing = v
  serve-Ready c (some e) v held nothing = elim (Bool-cases (accept now garbage valid control e)) [
    | inl good ↦ absurd (ground arith)
    | inr bad ↦ rw bad (record {
      bound = omega (arith, v.bound, max-unget path c);
      inv = unget-Inv Bytes-discrete path c (held (λ gone. cc gone)) v.inv;
    })
  ]

  cache_get-Ready :
      (c : Cache Bytes CacheEntry)
      → refs Bytes-discrete path c + 1 < 2 ^ 32
      → Ready c
      → (cache_get package_name print now garbage valid control path c).1 ≡ none
      → Ready (cache_get package_name print now garbage valid control path c).0
  unfolding cache_get
  cache_get-Ready c room v nothing =
      let got =
        serve package_name print now garbage valid control path (Defs.get Bytes-discrete path c) in
      elim (Bool-cases control.no_cache) [
        | inl asked ↦
            subst (λ (r : Cache Bytes CacheEntry × Option CacheEntry). Ready r.0)
              (sym (if_true (c, none) got asked)) v
        | inr allowed ↦
            let same = if_false (c, none) got allowed in
            subst (λ (r : Cache Bytes CacheEntry × Option CacheEntry). Ready r.0) (sym same)
              (serve-Ready (Defs.get Bytes-discrete path c).0 (Defs.get Bytes-discrete path c).1
                (get-Ready c room v) (held_by-get c room)
                (ap (λ (r : Cache Bytes CacheEntry × Option CacheEntry). r.1) (sym same) ∙ nothing))
      ]

module _ (o : Options) (x : Outside) (laws : FrontLaws Bytes-discrete x.front) where
  read_from_returns :
      (m : Members) (got : Cache Bytes CacheEntry × Option CacheEntry)
      → (got.1 ≡ none → Ready got.0)
      → x.origin m.browsed.line.path ≢ none
      → (r : Cache Bytes CacheEntry × Bool × ReadReply) × (read_from o.mime o.print_date
            o.cache_expires x.front x.new_ok x.now m.stat m.browsed.line.meth
            m.browsed.cl_cache_control m.browsed.line.path
            (x.origin m.browsed.line.path)
            got
          ≡ some r)
  unfolding read_from
  read_from_returns m (c, some e) ready answers = ((c, true, served e), refl)
  read_from_returns m (c, none) ready answers =
      let (r, run, _, _, _) =
        read_miss_lem o.mime o.print_date o.cache_expires x.front x.new_ok x.now m.stat
          m.browsed.line.meth m.browsed.cl_cache_control m.browsed.line.path laws
          (x.origin m.browsed.line.path) c (ready refl).bound (ready refl).inv (λ any. answers) in
      (r, run)

  prepare_read_returns :
      (m : Members)
      → Usable m.cache
      → x.origin m.browsed.line.path ≢ none
      → (r : Members × Reply) × (prepare_read o x m ≡ some r)
  unfolding prepare_read
  prepare_read_returns m v answers =
      let path = m.browsed.line.path in
      let (r, run) =
        read_from_returns m
          (cache_get o.package_name o.print_time x.now x.garbage (x.valid path)
            m.browsed.cl_cache_control path m.cache)
          (cache_get-Ready o.package_name o.print_time x.now x.garbage (x.valid path)
            m.browsed.cl_cache_control path m.cache (v.room path)
            (record { bound = v.bound; inv = v.inv }))
          answers in
      (read_replied o x m r, ap (Option.map (read_replied o x m)) run)

  replied_returns :
      (m : Members) (c : Cache Bytes CacheEntry) (w : WriteReply)
      → (r : Members × Reply) × (write_replied o x m (c, some w) ≡ some r)
  unfolding write_replied
  replied_returns m c (WriteReply.throws s) = (_, refl)
  replied_returns m c WriteReply.to_socket = (_, refl)

  write_returns :
      (g : Method) (err : ℕ) (m : Members)
      → Usable m.cache
      → x.origin m.browsed.line.path ≢ none
      → (r : Members × Reply) × (write_replied o x m
            (write_through g err m.browsed.line.path m.cache)
          ≡ some r)
  unfolding write_through write_replied
  write_returns connect err m v answers = replied_returns m _ (WriteReply.throws method_not_allowed)
  write_returns post err m v answers = replied_returns m _ (write_reply err)
  write_returns put err m v answers = replied_returns m _ (write_reply err)
  write_returns delete err m v answers = replied_returns m _ (unlink_reply err)
  write_returns Method.get err m v answers = prepare_read_returns m v answers
  write_returns head err m v answers = prepare_read_returns m v answers
  write_returns options err m v answers = prepare_read_returns m v answers
  write_returns trace err m v answers = prepare_read_returns m v answers

  prepare_write_returns :
      (body : Bytes) (m : Members)
      → Usable m.cache
      → x.origin m.browsed.line.path ≢ none
      → write_result o x m.browsed.line.meth m.browsed.cl_content_enc m.browsed.line.path body
        ≢ none
      → (r : Members × Reply) × (prepare_write o x body m ≡ some r)
  unfolding prepare_write Option.bind
  prepare_write_returns body m v answers ends =
      let g = m.browsed.line.meth in
      let path = m.browsed.line.path in
      elim (Option-cases (write_result o x g m.browsed.cl_content_enc path body)) [
        | inl endless ↦ absurd (ends endless)
        | inr (err, wrote) ↦
            let (r, run) = write_returns g err m v answers in
            (
              r,
              ap
                    (λ (w : Option ℕ).
                      Option.bind w (λ err. write_replied o x m (write_through g err path m.cache)))
                    wrote
                  ∙ run,
            )
      ]

  -- `prepare_response` comes to an end for every request, whatever its headers and its body are, if the
  -- calls of the origin server that it makes for it do: that of `request` for the path, and that of
  -- `putorpost` or `unlink` where the method is POST, PUT or DELETE. The invariant of the cache holds,
  -- its limit is below 2^63, and one more reader of any entry can be counted.
  pub prepare_returns :
      (hdrs : Hdrs) (body : Bytes) (m : Members) (t : Browsed) (thrown : Option Status)
      → Usable m.cache
      → browse_req o.scan_time o.scan_size o.max_req_uri o.default_resource hdrs m.browsed
        ≡ (t, thrown)
      → (thrown ≡ none → x.origin t.line.path ≢ none)
      → (thrown ≡ none → write_result o x t.line.meth t.cl_content_enc t.line.path body ≢ none)
      → (r : Members × Reply) × (prepare o x hdrs body m ≡ some r)
  unfolding prepare prepare_browsed
  prepare_returns hdrs body m t none v browsed answers ends =
      let (r, run) =
        prepare_write_returns body (record m { browsed = t }) v (answers refl) (ends refl) in
      (r, ap (prepare_browsed o x body m) browsed ∙ run)
  prepare_returns hdrs body m t (some s) v browsed answers ends =
      (_, ap (prepare_browsed o x body m) browsed)
