-- ===== src/Http/Response/Exchange.antt =====
-- A whole exchange on a connection of a server with the class of src/HTTP_2616_Server_Work.cpp.
use mathlib.Core.List.{lookup}
use mathlib.Core.Option
use filth.Base.Text.{Bytes}
use filth.Base.{
  ℕ, ◌+◌, ◌^◌, ◌<◌, ◌≡◌, refl, sym, subst, ap, ◌∙◌, Bool, true, false, Option, none, some, List, [],
  ◌∷◌, ◌++◌, length, arith, if_pos, ◌==◌, ◌&&◌, Bool-cases, inl, inr,
}
use filth.Cache.Borrow.{returned, lookup-unget}
use filth.Cache.Defs.{Stuff, Cache, unget}
use filth.Cache.Invariant.{refs}
use filth.Http.Conn.Delivered.{response_sent}
use filth.Http.Conn.Receive.{WholeHeaders, with_headers, request_handled}
use filth.Http.Conn.Server.{rescheduled, turn, sent_first, Setup, replied, respond, server_turn}
use filth.Http.Conn.State.{Conn, new_conn, eagain, fits_cbuf, set_output, announced_size, body_next}
use filth.Http.Constants.{Method, gzip}
use filth.Http.Entry.{CacheEntry}
use filth.Http.Lines.Block.{store_all}
use filth.Http.Output.{print_entry}
use filth.Http.Response.Borrow.{cache_get-accepted, buf-cache_get}
use filth.Http.Response.Browse.{Browsed, browse_req}
use filth.Http.Response.Prepare.{Members, Outside, Options, prepare_hit}
use filth.Http.Response.Reset.{cache-reset}
use filth.Http.Response.Serve.{Bytes-discrete, CacheControl, accept, cache_get}
use filth.Int.{ℤ}
use filth.Sched.Poll.{read, write}
use filth.Work.Read.{Got, failed, Pieces, answers_of}
use filth.Work.Write.{Sent, SumsTo, pieces}
use filth.Http.Response.Methods.{work_state, reset_members, methods}

-- the readers of an entry that may be there
abbrev readers_of : Option (Stuff CacheEntry) → ℕ
readers_of none = 0
readers_of (some s) = s.refcnt

readers_of-returned :
    (path : Bytes) (s : Stuff CacheEntry)
    → 0 < s.refcnt
    → readers_of (returned Bytes-discrete path s) + 1 ≡ s.refcnt
unfolding returned
readers_of-returned path s held = elim (Bool-cases ((s.refcnt == 1) && s.invalid)) [
  | inl last ↦ rw last (ground (arith, last))
  | inr kept ↦ rw kept (omega (arith, held))
]

-- `unget` counts one reader less.
refs-unget :
    (path : Bytes) (c : Cache Bytes CacheEntry) (s : Stuff CacheEntry)
    → lookup Bytes-discrete path c.cache ≡ some s
    → 0 < s.refcnt
    → s.refcnt < 2 ^ 32
    → refs Bytes-discrete path (unget Bytes-discrete path c) + 1 ≡ s.refcnt
refs-unget path c s there held small =
    ap (λ r. readers_of r + 1)
      (lookup-unget Bytes-discrete path path c s there held small
        ∙ if_pos (Bytes-discrete path path) refl _ _)
    ∙ readers_of-returned path s held

-- The counter of a page that has been served, and then given back, is what it was.
refs-served :
    (package_name : Bytes) (print : ℤ → Bytes) (now garbage : ℤ) (valid : Bool)
    (control : CacheControl) (path : Bytes) (c : Cache Bytes CacheEntry) (s : Stuff CacheEntry)
    → lookup Bytes-discrete path c.cache ≡ some s
    → s.refcnt + 1 < 2 ^ 32
    → control.no_cache ≡ false
    → accept now garbage valid control s.s ≡ true
    → refs Bytes-discrete path (
        unget Bytes-discrete path (cache_get package_name print now garbage valid control path c).0)
      ≡ s.refcnt
refs-served package_name print now garbage valid control path c s there room plain yes_ =
    let (e, run, (s', there', readers, holds)) =
      cache_get-accepted package_name print now garbage valid control path c s there room plain
        yes_ in
    omega (
      arith,
      refs-unget path (cache_get package_name print now garbage valid control path c).0 s' there'
          (omega (arith, readers)) (omega (arith, readers, room)),
      readers,
    )

-- A request for a page of the cache: its lines, what they ask for, and the page.
pub record Asks (o : Options) (x : Outside) (lines : List Bytes) (m : Members) (t : Browsed)
    (s : Stuff CacheEntry) : Type 0 where
  pub browsed :
      browse_req o.scan_time o.scan_size o.max_req_uri o.default_resource
        (store_all lines [])
        m.browsed
      ≡ (t, none)
  pub is_get : t.line.meth ≡ Method.get
  pub takes_gzip : t.cl_accept_enc ≡ gzip
  pub there : lookup Bytes-discrete t.line.path m.cache.cache ≡ some s
  pub room : s.refcnt + 1 < 2 ^ 32
  pub cached : t.cl_cache_control.no_cache ≡ false
  pub accepted : accept x.now x.garbage (x.valid t.line.path) t.cl_cache_control s.s ≡ true
  pub kept : t.deleteme ≡ false
  pub scheduled : m.nosch ≡ false

module _ (o : Options) where
  abbrev out_of : CacheEntry → Bytes × CacheEntry
  out_of e = print_entry o.decimal o.package_name o.order e

  -- the connection while the page goes out
  abbrev pub with_page : List Bytes → CacheEntry → Conn
  with_page lines e =
      record (set_output (out_of e).0 e.buf
        (record (with_headers lines [] (new_conn read)) { inbody_sz = 0 })) { m = write }

  module _ (x : Outside) where
    abbrev got : Members → Browsed → Cache Bytes CacheEntry × Option CacheEntry
    got m t =
        cache_get o.package_name o.print_time x.now x.garbage (x.valid t.line.path)
          t.cl_cache_control t.line.path m.cache

    -- the members while the page goes out
    abbrev pub serving : Members → Browsed → CacheEntry → Members
    serving m t e = record m {
      browsed = t;
      cache = (got m t).0;
      resp_is_cached = true;
      c = some (out_of e).1;
    }

    module _ (setup : Setup) where
      respond_hit :
          (lines : List Bytes) (m : Members) (t : Browsed) (s : Stuff CacheEntry) (e : CacheEntry)
          → Asks o x lines m t s
          → (got m t).1 ≡ some e
          → respond setup
              (methods o x)
              (record (with_headers lines [] (new_conn read)) { inbody_sz = 0 })
              m
            ≡ some (turn (with_page lines e) (serving m t e) rescheduled)
      unfolding respond replied
      respond_hit lines m t s e a hit =
          ap
            (Option.map (
              replied setup (methods o x)
                (record (with_headers lines [] (new_conn read)) { inbody_sz = 0 })))
            (prepare_hit o x (store_all lines []) [] m t (got m t).0 e a.browsed a.is_get
              a.takes_gzip (ap (λ r. ((got m t).0, r)) hit))

      -- A whole exchange on a connection without a request: a GET for a page of the cache, without a
      -- body, in whatever pieces the lines come in and the response goes out. The first call answers,
      -- the second sends the headers, as far as they fit cbuf, the third the bytes that the cache has,
      -- and then the connection is as at first and the page has as many readers as before. The client
      -- takes gzip and accepts the page, stays and sends nothing else, one more reader can be counted,
      -- and no client work has the connection.
      pub page_sent :
          (sends : List Sent) (hs bs : List Got) (ps : Pieces) (lines : List Bytes) (ns ms : List ℕ)
          (m : Members) (t : Browsed) (s : Stuff CacheEntry) (e : CacheEntry)
          → Asks o x lines m t s
          → (got m t).1 ≡ some e
          → WholeHeaders setup.max_line_len (new_conn read) ps lines []
          → announced_size setup.scan_size (with_headers lines [] (new_conn read)) ≡ 0
          → SumsTo (length (fits_cbuf (out_of e).0)) ns
          → SumsTo (length s.s.buf) ms
          → (server_turn setup
                (methods o x)
                sends
                (answers_of ps ++ failed eagain ∷ [])
                bs
                (new_conn read)
                m
              ≡ some (turn (with_page lines e) (serving m t e) rescheduled))
            × (server_turn setup (methods o x) (pieces ns) hs bs (with_page lines e) (serving m t e)
                ≡ some (
                    sent_first
                      (fits_cbuf (out_of e).0)
                      (turn (body_next (with_page lines e)) (serving m t e) rescheduled)))
            × (server_turn setup
                  (methods o x)
                  (pieces ms)
                  hs
                  bs
                  (body_next (with_page lines e))
                  (serving m t e)
                ≡ some (
                    sent_first s.s.buf
                      (turn (new_conn read) (reset_members (serving m t e)) rescheduled)))
            × (refs Bytes-discrete t.line.path (reset_members (serving m t e)).cache
                ≡ refs Bytes-discrete t.line.path m.cache)
      unfolding reset_members set_output
      page_sent sends hs bs ps lines ns ms m t s e a hit whole empty sums sums' =
          let bytes =
            buf-cache_get o.package_name o.print_time x.now x.garbage (x.valid t.line.path)
              t.cl_cache_control t.line.path m.cache s e a.there a.room a.cached a.accepted hit in
          let (first, second) =
            response_sent setup (methods o x) ns ms hs bs (with_page lines e) (serving m t e)
              (record {
                ready = record { writing = refl; sized = refl; body_sized = refl };
                headers_first = refl;
                read_all = refl;
              })
              a.scheduled a.kept sums (subst (λ y. SumsTo (length y) ms) (sym bytes) sums') in
          (
            request_handled setup (methods o x) sends bs (new_conn read) m ps lines [] whole empty
                ∙ respond_hit lines m t s e a hit,
            first,
            second
                ∙ ap
                    (λ y. some (
                      sent_first y
                        (turn (new_conn read) (reset_members (serving m t e)) rescheduled)))
                    bytes,
            ap (refs Bytes-discrete t.line.path)
                  (cache-reset (work_state (serving m t e)) (got m t).0 refl)
                ∙ refs-served o.package_name o.print_time x.now x.garbage (x.valid t.line.path)
                    t.cl_cache_control t.line.path m.cache s a.there a.room a.cached a.accepted
                ∙ sym (ap readers_of a.there),
          )
