-- ===== src/Http/Conn/Shifted.antt =====
-- What a server of this kind reads of a request that a client of this kind sends: the constructor of
-- src/HTTP_Client_Work.cpp against `operator()` of src/HTTP_Server_Work.cpp.
use filth.Base.Text.{Bytes}
use filth.Base.{
  some, ◌<◌, ◌≡◌, refl, sym, ap, ap₂, ◌∙◌, true, false, List, [], ◌∷◌, ◌++◌, append_assoc, length,
  length-append, arith, All,
}
use filth.Http.Conn.State.{
  set_output, new_conn, eagain, announced_size, fits_cbuf, set_output, cbufsz,
}
use filth.Http.Lines.Block.{store_all}
use filth.Http.Conn.Server.{responds, turn, rescheduled, Derived, Setup, server_turn, too_large}
use filth.Http.Conn.Sending.{pending}
use filth.Http.Conn.Receive.{respond-responds, with_headers}
use filth.Http.Conn.Bodies.{with_body, request_with_body}
use filth.Http.Conn.Client.{new_client, request_body}
use filth.Http.Conn.Relay.{copied-no_null}
use filth.Http.Lines.{Hdrs, crlf, print_hdrs, all_slots}
use filth.Http.Lines.Print.{Printable, lines_of, lines_of-Line, block-lines_of}
use filth.Http.Lines.Block.{block}
use filth.Sched.Poll.{write, read}
use filth.Work.Read.{Got, failed, no_null, no_null-append_left, Pieces, answers_of, joined}
use filth.Work.Write.{Sent}

-- the text of a request: its headers, which end with an empty line, one more empty line, and the body
pending-new_client :
    (reqhdrs : Hdrs) (body : Bytes)
    → no_null body ≡ true
    → fits_cbuf (print_hdrs reqhdrs ++ crlf) ≡ print_hdrs reqhdrs ++ crlf
    → pending (new_client true reqhdrs body) ≡ block (lines_of all_slots reqhdrs) ++ (crlf ++ body)
unfolding pending new_client set_output request_body print_hdrs
pending-new_client reqhdrs body text fits =
    ap₂ ◌++◌ fits (copied_body body text)
    ∙ append_assoc (print_hdrs reqhdrs) crlf body
    ∙ ap (λ x. x ++ (crlf ++ body)) (block-lines_of all_slots reqhdrs)
  where
    copied_body : (x : Bytes) → no_null x ≡ true → request_body true x ≡ x
    copied_body [] t = refl
    copied_body (c ∷ x) t = copied-no_null (c ∷ x) t

-- A request with a body of `x` and then two more bytes `y`, all of which the server reads in one call,
-- in whatever pieces, is answered by what `prepare_response` makes of the body `\r\n` and `x`: the
-- constructor prints an empty line too many, and `y` stays unread, for the start of the next request.
-- The headers can be printed and fit `cbuf`, and the body has no 0 byte, is shorter than `cbuf`, allowed,
-- and announced with its length.
pub request_shifted {ℓ} :
    {D : Type ℓ} (setup : Setup) (v : Derived D) (sends : List Sent) (bs : List Got) (d d' : D)
    (reqhdrs : Hdrs) (ps : Pieces) (x y hdrs body : Bytes)
    → All (Printable setup.max_line_len reqhdrs) all_slots
    → fits_cbuf (print_hdrs reqhdrs ++ crlf) ≡ print_hdrs reqhdrs ++ crlf
    → no_null (x ++ y) ≡ true
    → length y ≡ 2
    → length (x ++ y) < cbufsz
    → too_large setup.max_req_body (length (x ++ y)) ≡ false
    → announced_size setup.scan_size
        (with_headers (lines_of all_slots reqhdrs) (crlf ++ (x ++ y)) (new_conn read))
      ≡ length (x ++ y)
    → joined ps ≡ pending (new_client true reqhdrs (x ++ y))
    → no_null (joined ps) ≡ true
    → v.prepare (store_all (lines_of all_slots reqhdrs) []) (crlf ++ x) d
      ≡ some (d', responds hdrs body)
    → server_turn setup v sends (answers_of ps ++ failed eagain ∷ []) bs (new_conn read) d
      ≡ some (
          turn
            (record (set_output hdrs body (
              with_body
                (crlf ++ x)
                y
                0
                (with_headers (lines_of all_slots reqhdrs) (crlf ++ (x ++ y)) (new_conn read)))) {
                  m = write;
                })
            d'
            rescheduled)
unfolding no_null
request_shifted setup v sends bs d d' reqhdrs ps x y hdrs body good fits text two small allowed size
      arrived text' prepared =
    let same : length (x ++ y) ≡ length (crlf ++ x) = omega (arith, length-append x y, two) in
    request_with_body setup v sends bs (new_conn read) d ps (lines_of all_slots reqhdrs) (crlf ++ x)
      y
      (record {
        reading = refl;
        headers_first = refl;
        text = text';
        whole = arrived ∙ pending-new_client reqhdrs (x ++ y) text fits;
        good = lines_of-Line setup.max_line_len all_slots reqhdrs good;
      })
      (size ∙ same) (omega (arith, same)) (omega (arith, same))
      (sym (ap (too_large setup.max_req_body) same) ∙ allowed) (no_null-append_left x y text)
    ∙ respond-responds setup v
        (with_body (crlf ++ x) y 0
          (with_headers (lines_of all_slots reqhdrs) (crlf ++ (x ++ y)) (new_conn read)))
        d d' hdrs body prepared
