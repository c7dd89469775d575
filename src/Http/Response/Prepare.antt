-- ===== src/Http/Response/Prepare.antt =====
-- `prepare_response` of src/HTTP_2616_Server_Work.cpp as a whole, from the headers of a request to the
-- headers and the body of the response.
use mathlib.Core.Option
use filth.Base.Text.{Bytes}
use filth.Base.{
  ℕ, ◌≡◌, ap, ap₂, ◌∙◌, Bool, true, false, Option, none, some, List, [], if◌then◌else◌,
}
use filth.Cache.Defs.{Cache, Front}
use filth.Http.Conn.Server.{Reply, responds, oops}
use filth.Http.Constants.{
  Status, internal_server_error, Header, Method, post, put, delete, connect, head, options, trace,
  ContentCoding, gzip,
}
use filth.Http.Entry.{CacheEntry}
use filth.Http.Lines.{Hdrs}
use filth.Http.Output.{print_entry}
use filth.Http.Response.Browse.{Browsed, browse_req}
use filth.Http.Response.Read.{Origin, ReadReply, read_from, choose_body}
use filth.Http.Response.Serve.{cache_get}
use filth.Http.Response.Writes.{WriteReply, write_through}
use filth.Int.{ℤ}

-- the members that the call reads or sets, but `uncompressed`, and the shared cache
pub record Members : Type 0 where
  pub browsed : Browsed
  pub stat : Status
  pub c : Option CacheEntry
  pub resp_is_cached : Bool
  pub nosch : Bool
  pub cache : Cache Bytes CacheEntry

-- What the call asks of the rest of the program and of the system. `unlink`, `putorpost` and
-- `origin`, the call of `request`, are none when the call does not return; `start_work` says whether the socket of a dynamic resource can be reached and there is memory.
pub record Outside : Type 0 where
  pub putorpost : Bool → ContentCoding → Bytes → Bytes → Option ℕ
  pub unlink : Bytes → Option ℕ
  pub origin : Bytes → Option Origin
  pub valid : Bytes → Bool
  pub start_work : Bytes → Bool
  pub uncompress : CacheEntry → Option Bytes
  pub front : Front Bytes
  pub new_ok : Bool
  pub now : ℤ
  pub garbage : ℤ

-- the options of the server, and what the library reads and prints
pub record Options : Type 0 where
  pub max_req_uri : ℕ
  pub default_resource : Bytes
  pub cache_expires : ℕ
  pub package_name : Bytes
  pub mime : Bytes → Bytes
  pub print_date : ℤ → Bytes
  pub print_time : ℤ → Bytes
  pub decimal : ℕ → Bytes
  pub order : List (Header × Bytes) → List (Header × Bytes)
  pub scan_time : Bytes → ℤ → ℤ
  pub scan_size : Bytes → ℕ → ℕ

module _ (o : Options) (x : Outside) where
  -- the headers of an entry are printed, which clears what the body asked of it
  unfoldable pub printed : Members → CacheEntry → Bytes → Members × Reply
  printed m e body =
      let out = print_entry o.decimal o.package_name o.order e in
      (record m { c = some out.1 }, responds out.0 body)

  -- the headers and the body that go with an entry
  unfoldable pub body_chosen : Members → CacheEntry × Option (Option Bytes) → Members × Reply
  body_chosen m (e, none) = (m, oops internal_server_error)
  body_chosen m (e, some none) = printed m e []
  body_chosen m (e, some (some body)) = printed m e body

  -- `handle_request_domain_socket`
  unfoldable pub start_socket : Members → Members × Reply
  start_socket m =
      if x.start_work m.browsed.line.path
      then (record m { nosch = true }, responds [] [])
      else (m, oops internal_server_error)

  unfoldable pub read_replied :
      Members → Cache Bytes CacheEntry × Bool × ReadReply → Members × Reply
  read_replied m (cache, cached, ReadReply.served e) =
      body_chosen (record m { cache = cache; resp_is_cached = cached; c = some e })
        (choose_body o.mime o.print_date o.cache_expires x.uncompress m.browsed.line.meth
          m.browsed.cl_accept_enc e)
  read_replied m (cache, cached, ReadReply.to_socket) =
      start_socket (record m { cache = cache; resp_is_cached = cached; c = none })
  read_replied m (cache, cached, ReadReply.throws s) =
      (record m { cache = cache; resp_is_cached = cached; c = none }, oops s)

  -- the methods that read
  unfoldable pub prepare_read : Members → Option (Members × Reply)
  prepare_read m = Option.map (read_replied m) (
      read_from o.mime o.print_date o.cache_expires x.front x.new_ok x.now m.stat
        m.browsed.line.meth m.browsed.cl_cache_control m.browsed.line.path
        (x.origin m.browsed.line.path)
        (cache_get o.package_name o.print_time x.now x.garbage (x.valid m.browsed.line.path)
          m.browsed.cl_cache_control m.browsed.line.path m.cache))

  unfoldable pub write_replied :
      Members → Cache Bytes CacheEntry × Option WriteReply → Option (Members × Reply)
  write_replied m (cache, some (WriteReply.throws s)) = some (record m { cache = cache }, oops s)
  write_replied m (cache, some WriteReply.to_socket) =
      some (start_socket (record m { cache = cache }))
  write_replied m (cache, none) = prepare_read m

  -- what the origin server returns for a method that writes
  unfoldable pub write_result : Method → ContentCoding → Bytes → Bytes → Option ℕ
  write_result post enc path body = x.putorpost false enc path body
  write_result put enc path body = x.putorpost true enc path body
  write_result delete enc path body = x.unlink path
  write_result connect enc path body = some 0
  write_result Method.get enc path body = some 0
  write_result head enc path body = some 0
  write_result options enc path body = some 0
  write_result trace enc path body = some 0

  unfoldable pub prepare_write : Bytes → Members → Option (Members × Reply)
  prepare_write body m =
      Option.bind
        (write_result m.browsed.line.meth m.browsed.cl_content_enc m.browsed.line.path body)
        (λ err. write_replied m (write_through m.browsed.line.meth err m.browsed.line.path m.cache))

  -- behind `browse_req`
  unfoldable pub prepare_browsed :
      Bytes → Members → Browsed × Option Status → Option (Members × Reply)
  prepare_browsed body m (t, some s) = some (record m { browsed = t }, oops s)
  prepare_browsed body m (t, none) = prepare_write body (record m { browsed = t })

  unfoldable pub prepare : Hdrs → Bytes → Members → Option (Members × Reply)
  prepare hdrs body m =
      prepare_browsed body m
        (browse_req o.scan_time o.scan_size o.max_req_uri o.default_resource hdrs m.browsed)

  -- A GET that the cache can serve, from a client that takes gzip, is answered from the entry, with its
  -- headers and its bytes as they are, whatever the origin server would say.
  pub prepare_hit :
      (hdrs : Hdrs) (body : Bytes) (m : Members) (t : Browsed) (cache : Cache Bytes CacheEntry)
      (e : CacheEntry)
      → browse_req o.scan_time o.scan_size o.max_req_uri o.default_resource hdrs m.browsed
        ≡ (t, none)
      → t.line.meth ≡ Method.get
      → t.cl_accept_enc ≡ gzip
      → cache_get o.package_name o.print_time x.now x.garbage
          (x.valid t.line.path)
          t.cl_cache_control
          t.line.path
          m.cache
        ≡ (cache, some e)
      → prepare hdrs body m
        ≡ some (
          record m {
            browsed = t;
            cache = cache;
            resp_is_cached = true;
            c = some (print_entry o.decimal o.package_name o.order e).1;
          },
          responds (print_entry o.decimal o.package_name o.order e).0 e.buf,
        )
  unfolding prepare prepare_browsed prepare_write write_result write_replied write_through
      prepare_read read_from read_replied body_chosen printed choose_body Option.bind
  prepare_hit hdrs body m t cache e browsed is_get takes_gzip hit =
      let m1 = record m { browsed = t } in
      let m2 = record m1 { cache = cache; resp_is_cached = true; c = some e } in
      let path = t.line.path in
      ap (prepare_browsed body m) browsed
      ∙ ap
          (λ g.
            Option.bind (write_result g t.cl_content_enc path body)
              (λ err. write_replied m1 (write_through g err path m.cache)))
          is_get
      ∙ ap
          (λ r. Option.map (read_replied m1) (
            read_from o.mime o.print_date o.cache_expires x.front x.new_ok x.now m.stat t.line.meth
              t.cl_cache_control path (x.origin path) r))
          hit
      ∙ ap₂
          (λ g enc.
            some (
              body_chosen m2
                (choose_body o.mime o.print_date o.cache_expires x.uncompress g enc e)))
          is_get takes_gzip

  -- A request that `browse_req` refuses leaves the cache as it was, and no other member is set.
  pub prepare_refused :
      (hdrs : Hdrs) (body : Bytes) (m : Members) (t : Browsed) (s : Status)
      → browse_req o.scan_time o.scan_size o.max_req_uri o.default_resource hdrs m.browsed
        ≡ (t, some s)
      → prepare hdrs body m ≡ some (record m { browsed = t }, oops s)
  unfolding prepare prepare_browsed
  prepare_refused hdrs body m t s refused = ap (prepare_browsed body m) refused

  -- A DELETE ends only if the call of `unlink` does.
  pub prepare_delete :
      (hdrs : Hdrs) (body : Bytes) (m : Members) (t : Browsed)
      → browse_req o.scan_time o.scan_size o.max_req_uri o.default_resource hdrs m.browsed
        ≡ (t, none)
      → t.line.meth ≡ delete
      → x.unlink t.line.path ≡ none
      → prepare hdrs body m ≡ none
  unfolding prepare prepare_browsed prepare_write write_result Option.bind
  prepare_delete hdrs body m t browsed is_delete endless =
      let m1 = record m { browsed = t } in
      let path = t.line.path in
      ap (prepare_browsed body m) browsed
      ∙ ap
          (λ g.
            Option.bind (write_result g t.cl_content_enc path body)
              (λ err. write_replied m1 (write_through g err path m.cache)))
          is_delete
      ∙ ap (λ r. Option.bind r (λ err. write_replied m1 (write_through delete err path m.cache)))
          endless
