-- ===== src/Http/Response/Tests/Exchanged.antt =====
-- A page of the cache, from the pieces of the request to the pieces of the response.
use mathlib.Core.List.{lookup}
use filth.Base.Text.{
  Bytes, codes, lacks, same, includes, split_at, is_space, skip_space, word_at, extract,
}
use filth.Base.{◌≡◌, refl, some, [], ◌∷◌, ◌++◌, List, length, arith, ℕ_discrete}
use filth.Cache.Defs
use filth.Cache.Defs.{Cache, Front}
use filth.Cache.Invariant.{refs}
use filth.Http.Conn.Server.{Setup, server_turn, turn, rescheduled, sent_first}
use filth.Http.Constants.{method_name, content_coding_name, header_name}
use filth.Http.Entry.{CacheEntry, response_is_fresh, current_age, freshness_lifetime}
use filth.Http.Conn.Receive.{WholeHeaders, with_headers}
use filth.Http.Conn.State.{body_next, new_conn, announced_size, fits_cbuf}
use filth.Base.Maps.{insert}
use filth.Http.Response.Exchange.{Asks, serving, with_page, page_sent}
use filth.Http.Response.Methods.{reset_members, methods}
use filth.Work.Read
use filth.Sched.Poll.{read}
use filth.Work.Read.{Pieces, no_null, c_string, answers_of}
use filth.Work.Write.{SumsTo, pieces}
use filth.Http.Lines.{
  store_line, header_of, find_header, trim_end, too_long, crlf, Slot-discrete, line_at,
}
use filth.Http.Output.{print_entry}
use filth.Http.Request.Line.{
  no_limit, find_method, parse_uri, split_query, check_version, parse_request_line,
}
use filth.Http.Response.Browse.{
  browse_req, default_path, then_stage, accept_stage, cache_stage, connection_stage, content_stage,
  expect_stage, forwards_stage, find_coding, tolower,
}
use filth.Http.Response.Serve.{Bytes-discrete, cache_get, accept, serve, aged, warned}
use filth.Http.Response.Tests.{
  page, read_once, one_page, no_print, one_page_there, page-accept-plain,
}
use filth.Int.{pos, ◌+ℤ◌, ◌-ℤ◌}
use filth.Http.Response.Tests.Served.{system, options, asked, members, got}

abbrev limits : Setup
limits = record {
  max_line_len = no_limit;
  max_req_body = no_limit;
  scan_size = λ x old. old;
  stale_errno = 11;
  decimal = λ n. [];
}

abbrev get_lines : List Bytes
get_lines = codes "GET /a HTTP/1.1" ∷ codes "Accept-Encoding: gzip" ∷ []

-- the request comes in two pieces
abbrev get_pieces : Pieces
get_pieces =
    (b'G', codes "ET /a HTTP/1.1" ++ crlf ++ codes "Accept-")
    ∷ (b'E', codes "ncoding: gzip" ++ crlf ++ crlf)
    ∷ []

-- the page as it goes out: it is stale
abbrev sent_page : CacheEntry
sent_page = warned [] no_print (aged [] no_print (pos 105) page)

got_sent : got.1 ≡ some sent_page
unfolding cache_get serve accept response_is_fresh current_age freshness_lifetime Defs.get lookup
    Bytes-discrete ℕ_discrete ◌+ℤ◌ ◌-ℤ◌
got_sent = refl

-- the headers of the page, as far as they fit `cbuf`
abbrev page_headers : Bytes
page_headers =
    fits_cbuf (print_entry options.decimal options.package_name options.order sent_page).0

get_lines-Asks : Asks options system get_lines members asked read_once
unfolding browse_req default_path then_stage accept_stage cache_stage connection_stage content_stage
    expect_stage forwards_stage find_coding tolower line_at lookup Slot-discrete parse_request_line
    extract word_at skip_space is_space find_method parse_uri split_query split_at check_version
    same includes method_name content_coding_name store_line insert header_of find_header
    header_name trim_end
get_lines-Asks = record {
  browsed = refl;
  is_get = refl;
  takes_gzip = refl;
  there = one_page_there;
  room = omega arith;
  cached = refl;
  accepted = page-accept-plain;
  kept = refl;
  scheduled = refl;
}

get_lines-WholeHeaders : WholeHeaders no_limit (new_conn read) get_pieces get_lines []
unfolding no_null lacks too_long
get_lines-WholeHeaders = record {
  reading = refl;
  headers_first = refl;
  text = refl;
  whole = refl;
  good = (
    (λ (e : codes "GET /a HTTP/1.1" ≡ []). absurd cc, refl, refl),
    ((λ (e : codes "Accept-Encoding: gzip" ≡ []). absurd cc, refl, refl), tt),
  );
}

no_size : announced_size limits.scan_size (with_headers get_lines [] (new_conn read)) ≡ 0
unfolding line_at lookup Slot-discrete announced_size split_at store_line insert header_of
    find_header header_name same trim_end skip_space includes
no_size = refl

page_headers-all : SumsTo (length page_headers) (length page_headers ∷ [])
unfolding fits_cbuf c_string print_entry
page_headers-all = (omega arith, omega arith, omega arith)

page_bytes : SumsTo (length (codes "page")) (1 ∷ 3 ∷ [])
page_bytes = (omega arith, omega arith, (omega arith, omega arith, refl))

-- The request comes in two pieces, the bytes of the page go out in two.
page_sent_example :
    (server_turn limits
        (methods options system)
        []
        (answers_of get_pieces ++ Read.failed 11 ∷ [])
        []
        (new_conn read)
        members
      ≡ some (
          turn
            (with_page options get_lines sent_page)
            (serving options system members asked sent_page)
            rescheduled))
    × (server_turn limits
          (methods options system)
          (pieces (length page_headers ∷ []))
          []
          []
          (with_page options get_lines sent_page)
          (serving options system members asked sent_page)
        ≡ some (
            sent_first page_headers (
              turn
                (body_next (with_page options get_lines sent_page))
                (serving options system members asked sent_page)
                rescheduled)))
    × (server_turn limits
          (methods options system)
          (pieces (1 ∷ 3 ∷ []))
          []
          []
          (body_next (with_page options get_lines sent_page))
          (serving options system members asked sent_page)
        ≡ some (
            sent_first (codes "page") (
              turn
                (new_conn read)
                (reset_members (serving options system members asked sent_page))
                rescheduled)))
    × (refs Bytes-discrete
          (codes "a")
          (reset_members (serving options system members asked sent_page)).cache
        ≡ refs Bytes-discrete (codes "a") one_page)
page_sent_example =
    page_sent options system limits [] [] [] get_pieces get_lines (length page_headers ∷ [])
      (1 ∷ 3 ∷ []) members asked read_once sent_page get_lines-Asks got_sent get_lines-WholeHeaders
      no_size page_headers-all page_bytes
