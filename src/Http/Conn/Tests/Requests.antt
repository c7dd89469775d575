-- ===== src/Http/Conn/Tests/Requests.antt =====
-- A request that a client sends, read by the server.
use mathlib.Core.List.{lookup}
use filth.Base.Maps.{insert}
use filth.Base.Text.{codes, lacks, split_at, includes, same, skip_space}
use filth.Base.{some, ◌≡◌, inl, inr, refl, some, List, [], ◌∷◌, ◌++◌, arith, All}
use filth.Http.Conn.Client.{new_client, request_body}
use filth.Http.Conn.Receive.{with_headers}
use filth.Http.Conn.Bodies.{with_body}
use filth.Http.Conn.Sending.{pending}
use filth.Http.Conn.Server.{turn, rescheduled, server_turn, too_large, copied, zeros}
use filth.Http.Conn.Shifted.{request_shifted}
use filth.Http.Conn.State.{set_output, new_conn, announced_size, fits_cbuf, set_output}
use filth.Http.Conn.Tests.{echo, setup, scan}
use filth.Http.Constants.{Header, header_name}
use filth.Http.Lines.{
  Slot, Hdrs, Slot-discrete, request_line, field, crlf, too_long, store_line, line_at, header_of,
  find_header, trim_end, print_hdrs, print_slots, slots_down, all_slots, complete, HeaderRead,
  read_headers,
}
use filth.Http.Lines.Print.{Printable, lines_of, read_headers-print_hdrs}
use filth.Sched.Poll.{write, read}
use filth.Work.Read.{Pieces, joined, answers_of, no_null, c_string}
use filth.Work.Read

abbrev post_hdrs : Hdrs
post_hdrs =
    (request_line, codes "POST / HTTP/1.1")
    ∷ (field Header.content_length, codes "Content-Length: 5")
    ∷ []

printable : (s : Slot) → Printable setup.max_line_len post_hdrs s
unfolding line_at lookup Slot-discrete lacks too_long includes header_of find_header header_name
    split_at same trim_end skip_space
printable request_line = inr ((λ (e : codes "POST / HTTP/1.1" ≡ []). absurd cc, refl, refl), refl)
printable (field Header.content_length) =
    inr ((λ (e : codes "Content-Length: 5" ≡ []). absurd cc, refl, refl), (refl, refl))
printable (field Header.accept) = inl refl
printable (field Header.accept_charset) = inl refl
printable (field Header.accept_encoding) = inl refl
printable (field Header.accept_language) = inl refl
printable (field Header.accept_ranges) = inl refl
printable (field Header.age) = inl refl
printable (field Header.allow) = inl refl
printable (field Header.authorization) = inl refl
printable (field Header.cache_control) = inl refl
printable (field Header.connection) = inl refl
printable (field Header.content_encoding) = inl refl
printable (field Header.content_language) = inl refl
printable (field Header.content_location) = inl refl
printable (field Header.content_md5) = inl refl
printable (field Header.content_range) = inl refl
printable (field Header.content_type) = inl refl
printable (field Header.date) = inl refl
printable (field Header.etag) = inl refl
printable (field Header.expect) = inl refl
printable (field Header.expires) = inl refl
printable (field Header.from) = inl refl
printable (field Header.host) = inl refl
printable (field Header.if_match) = inl refl
printable (field Header.if_modified_since) = inl refl
printable (field Header.if_none_match) = inl refl
printable (field Header.if_range) = inl refl
printable (field Header.if_unmodified_since) = inl refl
printable (field Header.last_modified) = inl refl
printable (field Header.location) = inl refl
printable (field Header.max_forwards) = inl refl
printable (field Header.pragma) = inl refl
printable (field Header.proxy_authenticate) = inl refl
printable (field Header.proxy_authorization) = inl refl
printable (field Header.range) = inl refl
printable (field Header.referer) = inl refl
printable (field Header.retry_after) = inl refl
printable (field Header.server) = inl refl
printable (field Header.te) = inl refl
printable (field Header.trailer) = inl refl
printable (field Header.transfer_encoding) = inl refl
printable (field Header.upgrade) = inl refl
printable (field Header.user_agent) = inl refl
printable (field Header.vary) = inl refl
printable (field Header.via) = inl refl
printable (field Header.warning) = inl refl
printable (field Header.www_authenticate) = inl refl

all-Printable : (slots : List Slot) → All (Printable setup.max_line_len post_hdrs) slots
all-Printable [] = tt
all-Printable (s ∷ slots) = (printable s, all-Printable slots)

read_headers-print_hdrs_example :
    (r : HeaderRead) × (read_headers 50 setup.max_line_len
        (print_hdrs post_hdrs ++ codes "hello")
        []
      ≡ some r)
    × (r.outcome ≡ complete)
    × (r.unread ≡ codes "hello")
    × All (λ s. line_at s r.hdrs ≡ line_at s post_hdrs) all_slots
unfolding slots_down
read_headers-print_hdrs_example =
    read_headers-print_hdrs 50 setup.max_line_len post_hdrs (codes "hello")
      (all-Printable all_slots) (omega arith)

abbrev sent_pieces : Pieces
sent_pieces =
    (
      b'P',
      codes "OST / HTTP/1.1"
          ++ 13 ∷ 10 ∷ codes "Content-Length: 5"
          ++ 13 ∷ 10 ∷ crlf
          ++ crlf
          ++ codes "hello",
    )
    ∷ []

sent_size :
    announced_size scan
      (with_headers (lines_of all_slots post_hdrs) (crlf ++ codes "hello") (new_conn read))
    ≡ 5
unfolding lines_of slots_down line_at lookup Slot-discrete announced_size split_at store_line
    includes insert header_of find_header header_name same trim_end skip_space
sent_size = refl

-- the body "hello" is read as `\r\n` and "hel"
request_shifted_example :
    server_turn setup echo [] (answers_of sent_pieces ++ Read.failed 11 ∷ []) [] (new_conn read) 0
    ≡ some (
        turn
          (record (set_output (codes "ok" ++ crlf ++ crlf) (crlf ++ codes "hel") (
            with_body (crlf ++ codes "hel") (codes "lo") 0 (
              with_headers
                (lines_of all_slots post_hdrs)
                (crlf ++ codes "hello")
                (new_conn read)))) { m = write })
          1
          rescheduled)
unfolding no_null too_large fits_cbuf c_string print_hdrs print_slots slots_down line_at lookup
    Slot-discrete announced_size pending new_client set_output request_body copied zeros split_at
request_shifted_example =
    request_shifted setup echo [] [] 0 1 post_hdrs sent_pieces (codes "hel") (codes "lo")
      (codes "ok" ++ crlf ++ crlf) (crlf ++ codes "hel") (all-Printable all_slots) refl refl refl
      (omega arith) refl sent_size refl refl refl
