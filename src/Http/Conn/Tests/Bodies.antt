-- ===== src/Http/Conn/Tests/Bodies.antt =====
-- Requests and responses with bodies, on the server that answers with what it got.
use mathlib.Core.List.{lookup}
use filth.Base.Maps.{insert}
use filth.Base.Text.{Bytes, codes, lacks, split_at, includes, same, skip_space}
use filth.Base.{
  ℕ, zero, suc, ◌≡◌, refl, true, false, none, some, List, [], ◌∷◌, ◌++◌, length, arith, ap, ◌∙◌,
  append-nil, ℕ_discrete, All,
}
use filth.Http.Conn.Client.{client_turn}
use filth.Http.Conn.Delivered.{Waiting}
use filth.Http.Conn.Receive.{WholeHeaders, with_headers}
use filth.Http.Conn.Bodies.{with_body, with_announced, request_body_later, body_overruns}
use filth.Http.Conn.Relay.{
  RealClient, browse_resp, set_response, response_browsed, set_response_lem,
}
use filth.Http.Conn.Sending.{pending}
use filth.Http.Conn.Server.{turn, rescheduled, dangling, overruns, server_turn, too_large}
use filth.Http.Conn.State.{set_output, new_conn, announced_size, fits_cbuf}
use filth.Http.Conn.Tests.{echo, setup, scan}
use filth.Http.Constants.{header_name}
use filth.Http.Lines.{
  Slot-discrete, crlf, too_long, line_at, store_line, header_of, find_header, trim_end, print_hdrs,
}
use filth.Http.Lines.Block.{store_all, Line, block}
use filth.Sched.Poll.{read, write, interest}
use filth.Work.Read.{Pieces, joined, answers_of, no_null}
use filth.Work.Read

abbrev post_line : Bytes
post_line = codes "POST / HTTP/1.1"

abbrev length_line : Bytes
length_line = codes "Content-Length: 5"

abbrev post_lines : List Bytes
post_lines = post_line ∷ length_line ∷ []

post_lines_good : All (Line setup.max_line_len) post_lines
unfolding lacks too_long
post_lines_good = (
  (λ (e : post_line ≡ []). absurd cc, refl, refl),
  ((λ (e : length_line ≡ []). absurd cc, refl, refl), tt),
)

-- five bytes are announced
five : (tail : Bytes) → announced_size scan (with_headers post_lines tail (new_conn read)) ≡ 5
unfolding announced_size split_at Slot-discrete line_at lookup store_line includes insert header_of
    find_header header_name same trim_end skip_space
five tail = refl

abbrev post_pieces : Pieces
post_pieces =
    (b'P', codes "OST / HTTP/1.1" ++ 13 ∷ 10 ∷ length_line ++ 13 ∷ 10 ∷ crlf ++ codes "he") ∷ []

abbrev post_pieces_whole : Pieces
post_pieces_whole =
    (b'P', codes "OST / HTTP/1.1" ++ 13 ∷ 10 ∷ length_line ++ 13 ∷ 10 ∷ crlf ++ codes "hello") ∷ []

post_request : WholeHeaders setup.max_line_len (new_conn read) post_pieces post_lines (codes "he")
unfolding no_null
post_request = record {
  reading = refl;
  headers_first = refl;
  text = refl;
  whole = refl;
  good = post_lines_good;
}

request_body_later_example :
    server_turn setup echo []
      (answers_of post_pieces ++ Read.failed 11 ∷ [])
      (answers_of ((b'l', codes "l") ∷ (b'o', []) ∷ []))
      (new_conn read)
      0
    ≡ some (
        turn
          (record (set_output (codes "ok" ++ crlf ++ crlf) (codes "hello") (
            with_body
              (codes "hello")
              []
              0
              (with_headers post_lines (codes "he") (new_conn read)))) { m = write })
          1
          rescheduled)
unfolding no_null too_large
request_body_later_example =
    request_body_later setup echo [] (new_conn read) 0 1 post_pieces
      ((b'l', codes "l") ∷ (b'o', []) ∷ []) post_lines (codes "he") (codes "ok" ++ crlf ++ crlf)
      (codes "hello") 5 post_request (five (codes "he")) refl (omega arith) (omega arith)
      (omega arith) refl refl refl refl

letters : ℕ → Bytes
letters zero = []
letters (suc n) = b'a' ∷ letters n

letters_text : (n : ℕ) → no_null (letters n) ≡ true
unfolding no_null letters
letters_text zero = refl
letters_text (suc n) = letters_text n

length-letters : (n : ℕ) → length (letters n) ≡ n
unfolding letters
length-letters zero = refl
length-letters (suc n) = ap suc (length-letters n)

abbrev large_line : Bytes
large_line = codes "Content-Length: 4096"

abbrev large_lines : List Bytes
large_lines = post_line ∷ large_line ∷ []

large_lines_good : All (Line setup.max_line_len) large_lines
unfolding lacks too_long
large_lines_good = (
  (λ (e : post_line ≡ []). absurd cc, refl, refl),
  ((λ (e : large_line ≡ []). absurd cc, refl, refl), tt),
)

large : (tail : Bytes) → announced_size scan (with_headers large_lines tail (new_conn read)) ≡ 4096
unfolding announced_size split_at Slot-discrete line_at lookup store_line includes insert header_of
    find_header header_name same trim_end skip_space
large tail = refl

abbrev large_pieces : Bytes → Pieces
large_pieces tail =
    (b'P', codes "OST / HTTP/1.1" ++ 13 ∷ 10 ∷ large_line ++ 13 ∷ 10 ∷ crlf ++ tail) ∷ []

large_request :
    (tail : Bytes)
    → no_null (tail ++ []) ≡ true
    → WholeHeaders setup.max_line_len (new_conn read) (large_pieces tail) large_lines tail
unfolding no_null
large_request tail text = record {
  reading = refl;
  headers_first = refl;
  text = text;
  whole = append-nil (block large_lines ++ tail);
  good = large_lines_good;
}

-- 4096 bytes are announced, and all of them are there
body_overruns_example :
    server_turn setup echo []
      (answers_of (large_pieces (letters 4096)) ++ Read.failed 11 ∷ [])
      []
      (new_conn read)
      0
    ≡ some (
        turn
          (with_announced 4096
            (letters 4096)
            (with_headers large_lines (letters 4096) (new_conn read)))
          0
          overruns)
unfolding too_large
body_overruns_example =
    body_overruns setup echo [] [] (new_conn read) 0 (large_pieces (letters 4096)) large_lines
      (letters 4096) 4096
      (large_request (letters 4096) (ap no_null (append-nil (letters 4096)) ∙ letters_text 4096))
      (large (letters 4096)) refl (omega arith) (omega (arith, length-letters 4096))

abbrev sleeping : RealClient
sleeping = record {
  conn = new_conn write;
  fd = 5;
  nosch = true;
  fwork = record { wmap = (7, 0) ∷ (5, 1) ∷ []; fresh = 2 };
  asked = [];
}

-- the dynamic resource at 7 answers with "hello"
response_browsed_example :
    client_turn setup.max_line_len scan 11
      (browse_resp true 7)
      []
      (answers_of post_pieces_whole ++ Read.failed 11 ∷ [])
      (new_conn read)
      sleeping
    ≡ some (
        turn
          (with_body (codes "hello") [] 0 (with_headers post_lines (codes "hello") (new_conn read)))
          (set_response true 7 (store_all post_lines []) (codes "hello") sleeping)
          dangling)
unfolding no_null
response_browsed_example =
    response_browsed setup.max_line_len scan 11 (browse_resp true 7) [] (new_conn read) sleeping
      post_pieces_whole post_lines (codes "hello") []
      (record {
        reading = refl;
        headers_first = refl;
        text = refl;
        whole = refl;
        good = post_lines_good;
      })
      (five (codes "hello")) (omega arith) (omega arith) refl

set_response_lem_example :
    Waiting (set_response true 7 [] (codes "hello") sleeping).conn
    × (pending (set_response true 7 [] (codes "hello") sleeping).conn
        ≡ fits_cbuf (print_hdrs []) ++ codes "hello")
    × ((set_response true 7 [] (codes "hello") sleeping).nosch ≡ false)
    × ((set_response true 7 [] (codes "hello") sleeping).asked ≡ interest 5 write true ∷ [])
    × (lookup ℕ_discrete 7 (set_response true 7 [] (codes "hello") sleeping).fwork.wmap ≡ none)
unfolding no_null
set_response_lem_example = set_response_lem 7 [] (codes "hello") sleeping refl refl
