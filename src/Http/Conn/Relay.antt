-- ===== src/Http/Conn/Relay.antt =====
-- A response of a dynamic resource on its way to the client: `browse_resp` of
-- src/HTTP_Client_Work_Unix.cpp and `async_setresponse` of src/HTTP_2616_Server_Work.cpp.
use mathlib.Core.List.{lookup}
use mathlib.Core.Option
use filth.Base.Maps.{lookup-erase}
use filth.Base.Text.{Bytes}
use filth.Base.{
  ℕ, suc, ◌-◌, ◌^◌, ◌<◌, ◌≡◌, refl, ap, ap₂, ◌∙◌, Bool, true, false, Option, none, some, List, [],
  ◌∷◌, ◌++◌, append-nil, length, arith, ◌==◌, if◌then◌else◌, if_false, ℕ_discrete, if_pos, All,
  pos→==,
}
use filth.Http.Conn.State.{Conn, eagain, announced_size, failed_read, fits_cbuf, set_output, cbufsz}
use filth.Http.Conn.Server.{
  rescheduled, dangling, overruns, Turn, turn, async_setresponse, copied, zeros,
}
use filth.Http.Conn.Sending.{pending}
use filth.Http.Conn.Delivered.{Waiting}
use filth.Http.Conn.Receive.{WholeHeaders, with_headers, length-block}
use filth.Http.Conn.Bodies.{
  with_announced, with_body, take_body-fits, body_in_buffer-whole, move_body-part,
}
use filth.Http.Conn.Client.{
  Browse, browsed, client_sized, client_headers_parsed, client_headers_read, client_read_turn,
  client_sent, client_turn,
}
use filth.Http.Lines.{Hdrs, print_hdrs}
use filth.Http.Lines.Block.{store_all, Line, block, read_headers-block}
use filth.Sched.Find.{FindWork, unregister}
use filth.Sched.Poll.{Mode, read, write, Interest, interest}
use filth.Work.Read.{
  Got, failed, c_string, no_null, c_string-no_null, rduntil, rduntil_lem, Pieces, answers_of,
}
use filth.Work.Write.{Sent, wruntil, eintr}

-- the client's work, as far as a response that comes later changes it, with what its worker knows
pub record RealClient : Type 0 where
  pub conn : Conn
  pub fd : ℕ
  pub nosch : Bool
  pub fwork : FindWork
  pub asked : List Interest

-- `HTTP_2616_Server_Work::async_setresponse`; `assoc` is the descriptor of the work that is deleted
unfoldable pub set_response : Bool → ℕ → Hdrs → Bytes → RealClient → RealClient
set_response new_ok assoc resphdrs respbody r = record r {
  conn = record (async_setresponse new_ok (print_hdrs resphdrs) respbody r.conn) { m = write };
  nosch = false;
  fwork = unregister assoc r.fwork;
  asked = r.asked ++ interest r.fd write true ∷ [];
}

-- `HTTP_Client_Work_Unix::browse_resp`; it ends with the work deleted
abbrev pub browse_resp : Bool → ℕ → Browse RealClient
browse_resp new_ok assoc resphdrs resp_body r =
    (set_response new_ok assoc resphdrs resp_body r, false)

module _ {ℓ} {D : Type ℓ} (max_line_len : ℕ) (scan_size : Bytes → ℕ → ℕ) (stale_errno : ℕ)
    (browse : Browse D) where
  client_turn-read :
      (sends : List Sent) (answers : List Got) (c : Conn) (d : D)
      → c.m ≡ read
      → c.inhdrs_done ≡ false
      → client_turn max_line_len scan_size stale_errno browse sends answers c d
        ≡ Option.bind
            (rduntil 0 answers c.inbuf)
            (client_headers_read max_line_len scan_size stale_errno browse c d)
  unfolding client_turn client_read_turn
  client_turn-read sends answers c d reading first =
      ap
        (λ (m : Mode). elim m as (λ _. Option (Turn D)) [
          | write ↦ Option.map (client_sent c d) (wruntil stale_errno sends c.out c.outsz)
          | read ↦ client_read_turn max_line_len scan_size stale_errno browse answers c d
        ])
        reading
      ∙ if_false _ _ first

  client_headers_read-block :
      (c : Conn) (d : D) (lines : List Bytes) (tail : Bytes)
      → All (Line max_line_len) lines
      → client_headers_read max_line_len scan_size stale_errno browse c d
          (block lines ++ tail, eagain)
        ≡ some (
            client_sized max_line_len scan_size stale_errno browse
              (with_announced
                (announced_size scan_size (with_headers lines tail c))
                tail
                (with_headers lines tail c))
              d)
  unfolding client_headers_read client_headers_parsed failed_read announced_size
  client_headers_read-block c d lines tail good =
      ap (Option.map (client_headers_parsed max_line_len scan_size stale_errno browse c d)) (
        read_headers-block (suc (length (block lines ++ tail))) max_line_len lines tail c.inhdrs
          good (omega (arith, length-block lines tail)))

  client_sized-whole :
      (c : Conn) (d : D) (body rest : Bytes)
      → 0 < length body
      → length body < cbufsz
      → no_null body ≡ true
      → client_sized max_line_len scan_size stale_errno browse
          (with_announced (length body) (body ++ rest) c)
          d
        ≡ browsed max_line_len scan_size stale_errno browse (with_body body rest 0 c) d
  unfolding client_sized
  client_sized-whole c d body rest some_body fits text =
      let none_left : length body - length body ≡ 0 = omega arith in
      let small : length body < 2 ^ 64 = omega arith in
      if_false _ _ (pos→== (length body) some_body)
      ∙ ap
          (λ (o : Option Conn). elim o as (λ _. Turn D) [
            | none ↦ turn (with_announced (length body) (body ++ rest) c) d overruns
            | some c' ↦
                if c'.inbody_sz == 0
                then browsed max_line_len scan_size stale_errno browse c' d
                else turn c' d rescheduled
          ])
          (take_body-fits (with_announced (length body) (body ++ rest) c) (length body)
              (body_in_buffer-whole c body rest) fits
            ∙ ap some (move_body-part body rest (length body) c text (omega arith) small)
            ∙ ap (λ n. some (with_body body rest n c)) none_left)

  -- A response whose headers and body are complete when the reads of a call fail with EAGAIN, in whatever
  -- pieces they return them, is passed to `browse_resp` in that call, with its headers and exactly its
  -- body, and the work is rescheduled unless `browse_resp` has deleted it. The lines are of text, not
  -- too long, and the body is not empty, has no 0 byte and fits `cbuf`.
  pub response_browsed :
      (sends : List Sent) (c : Conn) (d : D) (ps : Pieces) (lines : List Bytes) (body rest : Bytes)
      → WholeHeaders max_line_len c ps lines (body ++ rest)
      → announced_size scan_size (with_headers lines (body ++ rest) c) ≡ length body
      → 0 < length body
      → length body < cbufsz
      → no_null body ≡ true
      → client_turn max_line_len scan_size stale_errno browse sends
          (answers_of ps ++ failed eagain ∷ [])
          c
          d
        ≡ some (
            turn
              (with_body body rest 0 (with_headers lines (body ++ rest) c))
              (browse (store_all lines c.inhdrs) (c.inbody ++ body) d).0
              (if (browse (store_all lines c.inhdrs) (c.inbody ++ body) d).1
                then rescheduled
                else dangling))
  unfolding Option.bind browsed
  response_browsed sends c d ps lines body rest r size some_body fits text =
      let c1 = with_headers lines (body ++ rest) c in
      client_turn-read sends (answers_of ps ++ failed eagain ∷ []) c d r.reading r.headers_first
      ∙ ap (λ o. Option.bind o (client_headers_read max_line_len scan_size stale_errno browse c d))
          (rduntil_lem 0 eagain ps c.inbuf (λ (e : eagain ≡ eintr). absurd (omega arith)) r.text)
      ∙ ap (λ x. client_headers_read max_line_len scan_size stale_errno browse c d (x, eagain))
          r.whole
      ∙ client_headers_read-block c d lines (body ++ rest) r.good
      ∙ ap
          (λ n. some (
            client_sized max_line_len scan_size stale_errno browse
              (with_announced n (body ++ rest) c1) d))
          size
      ∙ ap some (client_sized-whole c1 d body rest some_body fits text)

pub copied-no_null : (x : Bytes) → no_null x ≡ true → copied x ≡ x
unfolding copied zeros
copied-no_null x text =
    let whole = c_string-no_null x text in
    let all : length x - length (c_string x) ≡ 0 = omega (arith, ap length whole) in
    ap₂ (λ y n. y ++ zeros n) whole all ∙ append-nil x

-- `async_setresponse` makes the client's connection ready to send the whole response, headers and body,
-- wakes it up with one request to watch its socket, and frees the descriptor of the resource.
pub set_response_lem :
    (assoc : ℕ) (resphdrs : Hdrs) (respbody : Bytes) (r : RealClient)
    → no_null respbody ≡ true
    → r.conn.inbuf ≡ []
    → Waiting (set_response true assoc resphdrs respbody r).conn
      × (pending (set_response true assoc resphdrs respbody r).conn
          ≡ fits_cbuf (print_hdrs resphdrs) ++ respbody)
      × ((set_response true assoc resphdrs respbody r).nosch ≡ false)
      × ((set_response true assoc resphdrs respbody r).asked
          ≡ r.asked ++ interest r.fd write true ∷ [])
      × (lookup ℕ_discrete assoc (set_response true assoc resphdrs respbody r).fwork.wmap ≡ none)
unfolding set_response async_setresponse set_output pending unregister
set_response_lem assoc resphdrs respbody r text all_read = (
  record {
    ready = record { writing = refl; sized = refl; body_sized = refl };
    headers_first = refl;
    read_all = all_read;
  },
  ap (λ x. fits_cbuf (print_hdrs resphdrs) ++ x) (copied-no_null respbody text),
  refl,
  refl,
  lookup-erase ℕ_discrete assoc assoc r.fwork.wmap ∙ if_pos (ℕ_discrete assoc assoc) refl _ _,
)
