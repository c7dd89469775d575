-- ===== src/Http/Conn/Receive.antt =====
-- How a call of `operator()` of src/HTTP_Server_Work.cpp reads a request.
use mathlib.Core.Option
use filth.Base.Text.{Bytes}
use filth.Base.{
  some, ℕ, suc, ◌<◌, ◌≡◌, ap, ◌∙◌, true, false, Option, List, [], ◌∷◌, ◌++◌, length, length-append,
  arith, if_false, All,
}
use filth.Http.Conn.State.{Conn, set_output, eagain, announced_size, failed_read}
use filth.Http.Conn.Server.{
  responds, replied, turn, rescheduled, Derived, Turn, Setup, server_turn, read_turn, headers_read,
  headers_done, sized, respond, headers_parsed, write_turn,
}
use filth.Http.Lines.{HeaderRead}
use filth.Http.Lines.Block.{Line, block, store_all, read_headers-block}
use filth.Sched.Poll.{Mode, read, write}
use filth.Work.Read.{Got, failed, no_null, rduntil, Pieces, answers_of, joined, rduntil_lem}
use filth.Work.Write.{Sent, eintr}

-- A whole block of header lines is in the text.
pub record WholeHeaders (max_line_len : ℕ) (c : Conn) (ps : Pieces) (lines : List Bytes)
    (tail : Bytes) : Type 0 where
  pub reading : c.m ≡ read
  pub headers_first : c.inhdrs_done ≡ false
  pub text : no_null (joined ps) ≡ true
  pub whole : c.inbuf ++ joined ps ≡ block lines ++ tail
  pub good : All (Line max_line_len) lines

abbrev pub with_headers : List Bytes → Bytes → Conn → Conn
with_headers lines tail c = record c {
  inhdrs_done = true;
  inbuf = tail;
  inhdrs = store_all lines c.inhdrs;
}

pub length-block : (lines : List Bytes) (tail : Bytes) → length lines < length (block lines ++ tail)
length-block [] tail = omega (arith)
length-block (line ∷ lines) tail = omega (
  arith,
  length-append (line ++ 13 ∷ 10 ∷ block lines) tail,
  length-append line (13 ∷ 10 ∷ block lines),
  length-append (block lines) tail,
  length-block lines tail,
)

module _ {ℓ} {D : Type ℓ} (setup : Setup) (v : Derived D) where
  server_turn-read :
      (sends : List Sent) (hs bs : List Got) (c : Conn) (d : D)
      → c.m ≡ read
      → c.inhdrs_done ≡ false
      → server_turn setup v sends hs bs c d
        ≡ Option.bind (rduntil 0 hs c.inbuf) (headers_read setup v bs c d)
  unfolding server_turn read_turn
  server_turn-read sends hs bs c d reading first =
      ap
        (λ (m : Mode). elim m as (λ _. Option (Turn D)) [
          | read ↦ read_turn setup v setup.stale_errno hs bs c d
          | write ↦ write_turn setup v sends hs bs c d
        ])
        reading
      ∙ if_false _ _ first

  headers_read-block :
      (bs : List Got) (c : Conn) (d : D) (lines : List Bytes) (tail : Bytes)
      → All (Line setup.max_line_len) lines
      → headers_read setup v bs c d (block lines ++ tail, eagain)
        ≡ headers_done setup v eagain bs (with_headers lines tail c) d
  unfolding headers_read headers_parsed Option.bind failed_read
  headers_read-block bs c d lines tail good =
      ap (λ (o : Option HeaderRead). Option.bind o (headers_parsed setup v eagain bs c d))
        (read_headers-block (suc (length (block lines ++ tail))) setup.max_line_len lines tail
          c.inhdrs good (omega (arith, length-block lines tail)))

  -- Once a block of header lines is in, whatever pieces it came in, the call goes on with exactly its
  -- headers, and keeps the text behind it.
  pub headers_received :
      (sends : List Sent) (bs : List Got) (c : Conn) (d : D) (ps : Pieces) (lines : List Bytes)
      (tail : Bytes)
      → WholeHeaders setup.max_line_len c ps lines tail
      → server_turn setup v sends (answers_of ps ++ failed eagain ∷ []) bs c d
        ≡ headers_done setup v eagain bs (with_headers lines tail c) d
  unfolding Option.bind
  headers_received sends bs c d ps lines tail r =
      server_turn-read sends (answers_of ps ++ failed eagain ∷ []) bs c d r.reading r.headers_first
      ∙ ap (λ o. Option.bind o (headers_read setup v bs c d))
          (rduntil_lem 0 eagain ps c.inbuf (λ (e : eagain ≡ eintr). absurd (omega arith)) r.text)
      ∙ ap (λ x. headers_read setup v bs c d (x, eagain)) r.whole
      ∙ headers_read-block bs c d lines tail r.good

  -- what `operator()` does with a response
  pub respond-responds :
      (c : Conn) (d d' : D) (hdrs body : Bytes)
      → v.prepare c.inhdrs c.inbody d ≡ some (d', responds hdrs body)
      → respond setup v c d
        ≡ some (turn (record (set_output hdrs body c) { m = write }) d' rescheduled)
  unfolding respond replied
  respond-responds c d d' hdrs body prepared = ap (Option.map (replied setup v c)) prepared

  pub request_handled :
      (sends : List Sent) (bs : List Got) (c : Conn) (d : D) (ps : Pieces) (lines : List Bytes)
      (tail : Bytes)
      → WholeHeaders setup.max_line_len c ps lines tail
      → announced_size setup.scan_size (with_headers lines tail c) ≡ 0
      → server_turn setup v sends (answers_of ps ++ failed eagain ∷ []) bs c d
        ≡ respond setup v (record (with_headers lines tail c) { inbody_sz = 0 }) d
  unfolding sized
  request_handled sends bs c d ps lines tail r empty =
      headers_received sends bs c d ps lines tail r
      ∙ ap (λ n. sized setup v eagain bs d (record (with_headers lines tail c) { inbody_sz = n }))
          empty

  -- A request without a body, whose lines are of text without 0 bytes, not too long, and complete when
  -- the reads of a call fail with EAGAIN, in whatever pieces they return them: if `prepare_response`
  -- makes a response of its headers, that call leaves the connection writing that response. What the
  -- client has sent behind the request stays unread.
  pub request_answered :
      (sends : List Sent) (bs : List Got) (c : Conn) (d d' : D) (ps : Pieces) (lines : List Bytes)
      (tail hdrs body : Bytes)
      → WholeHeaders setup.max_line_len c ps lines tail
      → announced_size setup.scan_size (with_headers lines tail c) ≡ 0
      → v.prepare (store_all lines c.inhdrs) c.inbody d ≡ some (d', responds hdrs body)
      → server_turn setup v sends (answers_of ps ++ failed eagain ∷ []) bs c d
        ≡ some (
            turn
              (record (set_output hdrs body
                (record (with_headers lines tail c) { inbody_sz = 0 })) { m = write })
              d'
              rescheduled)
  request_answered sends bs c d d' ps lines tail hdrs body r empty prepared =
      request_handled sends bs c d ps lines tail r empty
      ∙ respond-responds (record (with_headers lines tail c) { inbody_sz = 0 }) d d' hdrs body
          prepared
