-- ===== src/Http/Response/Methods.antt =====
-- The class of src/HTTP_2616_Server_Work.hpp as a class derived from HTTP_Server_Work: what its virtual
-- methods do behind `operator()`.
use filth.Base.Text.{Bytes}
use filth.Base.{Option, none, ◌∷◌, ◌++◌}
use filth.Cache.Defs.{Cache}
use filth.Http.Conn.Server.{Derived}
use filth.Http.Constants.{Status, date, server}
use filth.Http.Entry.{CacheEntry}
use filth.Http.Lines.{crlf}
use filth.Http.Output.{print_header, print_status}
use filth.Http.Request.Line.{http_version}
use filth.Http.Response.Prepare.{Members, Outside, Options, prepare}
use filth.Http.Response.Reset.{WorkState, reset}

-- what `reset` reads of the members; `uncompressed` is only memory that it frees
abbrev pub work_state : Members → WorkState
work_state m = record {
  resp_is_cached = m.resp_is_cached;
  c = m.c;
  uncompressed = none;
  path = m.browsed.line.path;
  query = m.browsed.line.query;
  cl_cache_control = m.browsed.cl_cache_control;
}

abbrev with_state : Members → WorkState × Cache Bytes CacheEntry × Option CacheEntry → Members
with_state m (w, cache, deleted) = record m {
  browsed = record m.browsed {
    line = record m.browsed.line { path = w.path; query = w.query };
    cl_cache_control = w.cl_cache_control;
  };
  c = w.c;
  cache = cache;
}

-- `reset`, on all the members
unfoldable pub reset_members : Members → Members
reset_members m = with_state m (reset (work_state m) m.cache)

module _ (o : Options) (x : Outside) where
  -- `on_oops`
  unfoldable pub on_oops : Status → Members → Members × Bytes
  on_oops s m = (
    m,
    http_version
        ++ 32 ∷ print_status o.decimal s
        ++ crlf
        ++ print_header date
        ++ o.print_date x.now
        ++ crlf
        ++ print_header server
        ++ o.package_name
        ++ crlf,
  )

  -- the virtual methods of the class
  abbrev pub methods : Derived Members
  methods = record {
    prepare = prepare o x;
    on_oops = on_oops;
    reset_more = reset_members;
    nosch = λ m. m.nosch;
    deleteme = λ m. m.browsed.deleteme;
  }
