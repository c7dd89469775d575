-- ===== src/Http/Conn/Tests.antt =====
-- A server that answers with what it got, on small requests.
pub mod Bodies
pub mod Requests
use filth.Base.Text.{Bytes, codes, lacks, split_at, includes, starts_with, is_space, skip_space}
use filth.Base.{
  ℕ, zero, suc, ◌+◌, ◌*◌, ◌-◌, ◌≡◌, ◌≢◌, refl, Bool, true, false, Option, none, some, List, [], ◌∷◌,
  ◌++◌, length, arith, leb, ◌&&◌, if◌then◌else◌, ℕ_discrete,
}
use filth.Http.Conn.Delivered.{server_turn-Step, response_sent}
use filth.Http.Conn.Receive.{with_headers, request_answered}
use filth.Http.Conn.Bodies.{with_body, request_body_later, body_overruns}
use filth.Http.Conn.Sending.{Step}
use filth.Http.Conn.Server.{
  Reply, responds, oops, Derived, Setup, Turn, turn, rescheduled, sent_first, server_turn,
  write_turn, written, respond,
}
use filth.Http.Conn.State.{Conn, new_conn, announced_size, set_output, body_next}
use mathlib.Core.List.{lookup}
use mathlib.Core.Option
use filth.Base.Maps.{insert}
use filth.Http.Lines.{Hdrs, crlf, Slot-discrete, too_long, line_at, store_line}
use filth.Http.Request.Line.{no_limit}
use filth.Sched.Poll.{Mode, read, write}
use filth.Work.Read.{Pieces, answers_of, no_null}
use filth.Work.Read
use filth.Work.Write.{sent, wruntil}
use filth.Work.Write

abbrev pub no_reset : ℕ → ℕ
no_reset d = d

-- the answer to every request; `D` counts the requests
abbrev pub answer : Hdrs → Bytes → ℕ → Option (ℕ × Reply)
answer hdrs body d = some (suc d, responds (codes "ok" ++ crlf ++ crlf) body)

abbrev pub echo : Derived ℕ
echo = record {
  prepare = answer;
  on_oops = λ s d. (d, []);
  reset_more = no_reset;
  nosch = λ d. false;
  deleteme = λ d. false;
}

abbrev pub digits : ℕ → Bytes → ℕ
digits n [] = n
digits n (c ∷ x) =
    let later = digits (n * 10 + (c - 48)) x in if leb 48 c && leb c 57 then later else n

-- the digits behind one blank
abbrev pub scan : Bytes → ℕ → ℕ
scan [] n = n
scan (c ∷ x) n = digits 0 x

abbrev pub setup : Setup
setup = record {
  max_line_len = no_limit;
  max_req_body = no_limit;
  scan_size = scan;
  stale_errno = 11;
  decimal = λ n. [];
}

-- a response of headers "ab" and a body "cde", before anything is sent
abbrev sending : Conn
sending = record (new_conn write) {
  out = codes "ab";
  outsz = 2;
  outbody = codes "cde";
  outbody_sz = 3;
}

-- one byte goes out, then the socket would block
abbrev one_sent : Turn ℕ
one_sent =
    sent_first (codes "a") (turn (record sending { out = codes "b"; outsz = 1 }) 0 rescheduled)

server_turn-Step_example : Step sending one_sent
unfolding server_turn write_turn written wruntil Option.bind
server_turn-Step_example =
    server_turn-Step setup echo (sent 1 ∷ Write.failed 11 ∷ []) [] [] sending 0 one_sent
      (record { writing = refl; sized = refl; body_sized = refl })
      (omega arith, omega arith, (omega arith, tt)) refl

response_sent_example :
    (server_turn setup echo (sent 1 ∷ sent 1 ∷ []) [] [] sending 0
      ≡ some (sent_first (codes "ab") (turn (body_next sending) 0 rescheduled)))
    × (server_turn setup echo (sent 3 ∷ []) [] [] (body_next sending) 0
        ≡ some (sent_first (codes "cde") (turn (new_conn read) 0 rescheduled)))
response_sent_example =
    response_sent setup echo (1 ∷ 1 ∷ []) (3 ∷ []) [] [] sending 0
      (record {
        ready = record { writing = refl; sized = refl; body_sized = refl };
        headers_first = refl;
        read_all = refl;
      })
      refl refl (omega arith, omega arith, (omega arith, omega arith, refl))
      (omega arith, omega arith, refl)

abbrev get_line : Bytes
get_line = codes "GET / HTTP/1.1"

abbrev get_text : Bytes
get_text = get_line ++ 13 ∷ 10 ∷ crlf ++ codes "GET"

abbrev get_pieces : Pieces
get_pieces = (b'G', codes "ET /") ∷ (b' ', codes "HTTP/1.1" ++ (13 ∷ 10 ∷ crlf ++ codes "GET")) ∷ []

-- a request without a body, and the start of the next one
request_answered_example :
    server_turn setup echo [] (answers_of get_pieces ++ Read.failed 11 ∷ []) [] (new_conn read) 0
    ≡ some (
        turn
          (record (set_output
            (codes "ok" ++ crlf ++ crlf)
            []
            (record (with_headers (get_line ∷ []) (codes "GET") (new_conn read)) {
              inbody_sz = 0;
            })) { m = write })
          1
          rescheduled)
unfolding no_null lacks too_long announced_size split_at Slot-discrete line_at lookup store_line
    includes insert
request_answered_example =
    request_answered setup echo [] [] (new_conn read) 0 1 get_pieces (get_line ∷ []) (codes "GET")
      (codes "ok" ++ crlf ++ crlf) []
      (record {
        reading = refl;
        headers_first = refl;
        text = refl;
        whole = refl;
        good = ((λ (e : get_line ≡ []). absurd cc, refl, refl), tt);
      })
      refl refl
