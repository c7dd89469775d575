-- ===== src/Http/Response/Tests/Served.antt =====
-- Requests, what the system answers, and `prepare_response` of them.
use mathlib.Core.List.{lookup}
use filth.Base.Text.{Bytes, codes, same, includes, split_at, is_space, skip_space, word_at, extract}
use filth.Base.{◌+◌, ◌^◌, ◌<◌, ◌≡◌, refl, true, false, Option, none, some, [], ◌∷◌, arith}
use filth.Cache.Defs.{Cache, Front}
use filth.Cache.Invariant.{refs}
use filth.Http.Conn.Server.{Reply}
use filth.Http.Constants.{
  Method, gzip, identity, ok_status, Header, method_name, content_coding_name,
}
use filth.Http.Entry.{CacheEntry}
use filth.Http.Lines.{Hdrs, request_line, field, Slot-discrete, line_at}
use filth.Http.Request.Line.{
  no_limit, find_method, parse_uri, split_query, check_version, parse_request_line,
}
use filth.Http.Response.Browse.{
  Browsed, browse_req, default_path, then_stage, accept_stage, cache_stage, connection_stage,
  content_stage, expect_stage, forwards_stage, find_coding, tolower,
}
use filth.Http.Response.Prepare
use filth.Http.Response.Prepare.{Members, Outside, Options, prepare}
use filth.Http.Response.Read
use filth.Http.Response.Returns.{prepare_returns}
use filth.Http.Response.Serve.{Bytes-discrete, cache_get}
use filth.Http.Response.Tests.{
  page, no_pages, no_pages-Inv, first_in, first_in-FrontLaws, plain, one_page, no_print,
}
use filth.Int.{pos}

abbrev first_of : Front Bytes
first_of k ks = (k, ks)

abbrev pub system : Outside
system = record {
  putorpost = λ truncates enc path body. some 0;
  unlink = λ path. none;
  origin = λ path. some (Read.failed 2 none);
  valid = λ path. false;
  start_work = λ path. false;
  uncompress = λ e. none;
  front = first_of;
  new_ok = true;
  now = pos 105;
  garbage = pos 0;
}

abbrev pub options : Options
options = record {
  max_req_uri = no_limit;
  default_resource = codes "index.html";
  cache_expires = 10;
  package_name = [];
  mime = λ path. [];
  print_date = no_print;
  print_time = no_print;
  decimal = λ n. [];
  order = λ hdrs. hdrs;
  scan_time = λ x old. old;
  scan_size = λ x old. old;
}

abbrev unread : Browsed
unread = record {
  line = record { meth = Method.head; path = []; query = [] };
  cl_accept_enc = identity;
  cl_content_enc = identity;
  cl_cache_control = plain;
  cl_max_fwds = 0;
  deleteme = false;
}

abbrev pub asked : Browsed
asked = record unread {
  line = record { meth = Method.get; path = codes "a"; query = [] };
  cl_accept_enc = gzip;
}

abbrev pub members : Members
members = record {
  browsed = unread;
  stat = ok_status;
  c = none;
  resp_is_cached = false;
  nosch = false;
  cache = one_page;
}

abbrev get_a : Hdrs
get_a =
    (request_line, codes "GET /a HTTP/1.1")
    ∷ (field Header.accept_encoding, codes "Accept-Encoding: gzip")
    ∷ []

get_a_browsed :
    browse_req options.scan_time options.scan_size options.max_req_uri options.default_resource
      get_a unread
    ≡ (asked, none)
unfolding browse_req default_path then_stage accept_stage cache_stage connection_stage content_stage
    expect_stage forwards_stage find_coding tolower line_at lookup Slot-discrete parse_request_line
    extract word_at skip_space is_space find_method parse_uri split_query split_at check_version
    same includes method_name content_coding_name
get_a_browsed = refl

abbrev pub got : Cache Bytes CacheEntry × Option CacheEntry
got = cache_get [] no_print (pos 105) (pos 0) false plain (codes "a") one_page

-- The cache is empty, and the origin server has the file.
abbrev fetching : Outside
fetching = record system { origin = λ path. some (Read.fetched page); front = first_in }

no_pages-room : (path : Bytes) → refs Bytes-discrete path no_pages + 1 < 2 ^ 32
unfolding lookup
no_pages-room path = omega arith

prepare_returns_example :
    (r : Members × Reply) × (prepare options fetching get_a [] (record members { cache = no_pages })
      ≡ some r)
unfolding Prepare.write_result
prepare_returns_example =
    prepare_returns options fetching first_in-FrontLaws get_a []
      (record members { cache = no_pages }) asked none
      (record { bound = omega arith; inv = no_pages-Inv; room = no_pages-room }) get_a_browsed
      (λ good gone. cc gone) (λ good gone. cc gone)
