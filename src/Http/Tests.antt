-- ===== src/Http/Tests.antt =====
-- Requests and ages on concrete inputs.
use filth.Base.Text.{lacks, Bytes, codes, includes, is_word, same, split_at}
use filth.Base.{none, ◌≢◌, some, ◌≡◌, refl, false, some, [], ◌∷◌, ◌++◌, arith}
use filth.Http.Constants.{Status, http_version_not_supported, ok_status, identity, get, method_name}
use filth.Http.Entry.Freshness.{rfc_current_age, current_age-new_entry}
use filth.Http.Entry.{new_entry, current_age}
use filth.Http.Lines.Block.{Line, block, store_all, read_headers_total, read_headers-block}
use filth.Http.Lines.{HeaderRead, complete, read_headers, too_long}
use filth.Http.Request.Line.{
  no_limit, RequestLine, http_version, parse_uri, parse_request_line, split_query,
}
use filth.Http.Request.Uri.{parse_uri-safe, parse_request_line_lem}
use filth.Int.{pos, ◌+ℤ◌, ◌-ℤ◌}

abbrev blank_line : RequestLine
blank_line = record { meth = get; path = []; query = [] }

parse_uri-safe_example : includes (codes "..") (codes "a") ≡ false
unfolding parse_uri same includes split_query split_at
parse_uri-safe_example =
    parse_uri-safe 100 (codes "/a") blank_line (record { meth = get; path = codes "a"; query = [] })
      refl

parse_request_line_lem_example :
    (http_version ≡ codes "HTTP/1.1"
      → parse_request_line 100 (codes "GET /a HTTP/1.1") blank_line
        ≡ parse_uri 100 (codes "/a") blank_line)
    × (http_version ≢ codes "HTTP/1.1"
        → (parse_uri 100 (codes "/a") blank_line).1 ≡ none
        → parse_request_line 100 (codes "GET /a HTTP/1.1") blank_line
          ≡ ((parse_uri 100 (codes "/a") blank_line).0, some http_version_not_supported))
    × ((e : Status)
        → (parse_uri 100 (codes "/a") blank_line).1 ≡ some e
        → parse_request_line 100 (codes "GET /a HTTP/1.1") blank_line
          ≡ parse_uri 100 (codes "/a") blank_line)
unfolding is_word method_name
parse_request_line_lem_example =
    parse_request_line_lem 100 get b'/' b'H' (codes "a") (codes "TTP/1.1") blank_line refl refl

current_age-new_entry_example :
    current_age (pos 105) (new_entry 10 8 (pos 99) (pos 100) (pos 50) [] identity ok_status)
    ≡ rfc_current_age (pos 105) (new_entry 10 8 (pos 99) (pos 100) (pos 50) [] identity ok_status)
      +ℤ (pos 105 -ℤ pos 100)
current_age-new_entry_example =
    current_age-new_entry 10 8 (pos 99) (pos 100) (pos 50) [] identity ok_status (pos 105)
      (omega arith)

abbrev get_line : Bytes
get_line = codes "GET / HTTP/1.1"

read_headers_total_example : (r : HeaderRead) × (read_headers 20 no_limit get_line [] ≡ some r)
read_headers_total_example = read_headers_total 20 no_limit get_line [] (omega arith)

get_line-Line : Line no_limit get_line
unfolding lacks too_long
get_line-Line = (λ e. cc, refl, refl)

read_headers-block_example :
    read_headers 20 no_limit (block (get_line ∷ []) ++ codes "body") []
    ≡ some
        (record { outcome = complete; unread = codes "body"; hdrs = store_all (get_line ∷ []) [] })
read_headers-block_example =
    read_headers-block 20 no_limit (get_line ∷ []) (codes "body") [] (get_line-Line, tt)
      (omega arith)
