-- ===== src/Http/Conn/Server.antt =====
-- `operator()` of src/HTTP_Server_Work.cpp, with `reset` and `async_setresponse`. A call writes at most
-- once and then reads at most twice, the headers and the body, each time with answers of its own.
use mathlib.Core.Option
use filth.Base.Text.{Bytes}
use filth.Base.{
  ℕ, suc, ◌-◌, Bool, true, false, not, ◌&&◌, Option, none, some, List, [], ◌∷◌, ◌++◌, length, ltb,
  ◌==◌, if◌then◌else◌,
}
use filth.Http.Conn.State.{
  Conn, eagain, failed_read, set_output, announced_size, take_body, body_next,
}
use filth.Http.Constants.{Status, status_name, content_length}
use filth.Http.Lines.{Hdrs, complete, partial, refused, HeaderRead, read_headers, crlf}
use filth.Http.Output.{print_header}
use filth.Http.Request.Line.{no_limit}
use filth.Sched.Poll.{read, write}
use filth.Work.Read.{Got, c_string, rduntil, rduntil_body}
use filth.Work.Write.{Sent, Written, wruntil}

-- what `prepare_response` leaves: headers and a body, or an `HTTP_oops`
pub data Reply : Type 0 where
  responds : Bytes → Bytes → Reply
  oops : Status → Reply

-- What the derived class adds: its own state `D`, in which it also sets `nosch` and `deleteme`, and the
-- virtual methods. `prepare` is none when it does not return.
pub record Derived {ℓ} (D : Type ℓ) : Type ℓ where
  pub prepare : Hdrs → Bytes → D → Option (D × Reply)
  pub on_oops : Status → D → D × Bytes
  pub reset_more : D → D
  pub nosch : D → Bool
  pub deleteme : D → Bool

-- How a call ends: back in the scheduler; dormant, until a response wakes it up; to be deleted; by a
-- SocketErr; by an HTTP_oops that nothing catches; by a write behind `cbuf`; or by a use of itself after
-- it has been deleted.
pub data After : Type 0 where
  rescheduled : After
  dormant : After
  finished : After
  socket_err : After
  escapes : After
  overruns : After
  dangling : After

-- a call: the state that it leaves, and what it has sent
pub record Turn {ℓ} (D : Type ℓ) : Type ℓ where
  pub conn : Conn
  pub derived : D
  pub wire : Bytes
  pub after : After

-- The limits, what the library does, reading and printing numbers, and what `errno` holds when a call
-- of `operator()` begins.
pub record Setup : Type 0 where
  pub max_line_len : ℕ
  pub max_req_body : ℕ
  pub scan_size : Bytes → ℕ → ℕ
  pub decimal : ℕ → Bytes
  pub stale_errno : ℕ

-- `HTTP_Server_Work::reset`; `inbuf` stays
unfoldable pub reset_conn : Conn → Conn
reset_conn c = record c {
  inhdrs_done = false;
  outhdrs_done = false;
  inhdrs = [];
  inbody = [];
  inbody_sz = 0;
  out = [];
  outsz = 0;
  outbody = [];
  outbody_sz = 0;
}

-- `strncpy` into a buffer of the text's size
unfoldable pub zeros : ℕ → Bytes
zeros ℕ.zero = []
zeros (suc n) = 0 ∷ zeros n

unfoldable pub copied : Bytes → Bytes
copied x = c_string x ++ zeros (length x - length (c_string x))

-- `HTTP_Server_Work::async_setresponse`, with the headers printed; `new_ok` says whether there is memory
-- for the copy
unfoldable pub async_setresponse : Bool → Bytes → Bytes → Conn → Conn
async_setresponse true hdrs body c = record (set_output hdrs (copied body) c) {
  outhdrs_done = false;
}
async_setresponse false hdrs body c = record (set_output hdrs [] c) { outhdrs_done = false }

-- `max_req_body != -1 && inbody_sz > max_req_body`
unfoldable pub too_large : ℕ → ℕ → Bool
too_large max_req_body inbody_sz = not (max_req_body == no_limit) && ltb max_req_body inbody_sz

abbrev pub turn {ℓ} : {D : Type ℓ} → Conn → D → After → Turn D
turn c d a = record { conn = c; derived = d; wire = []; after = a }

abbrev pub sent_first {ℓ} : {D : Type ℓ} → Bytes → Turn D → Turn D
sent_first wire t = record t { wire = wire }

module _ {ℓ} {D : Type ℓ} (setup : Setup) (v : Derived D) where
  -- the headers that go with an error, behind those of `on_oops`
  unfoldable pub oops_headers : Status → Bytes → Bytes
  oops_headers s hdrs =
      hdrs ++ print_header content_length ++ setup.decimal (length (status_name s)) ++ crlf ++ crlf

  unfoldable pub oopsed : Conn → Status → D × Bytes → Turn D
  oopsed c s (d, hdrs) =
      turn (record (set_output (oops_headers s hdrs) (status_name s) c) { m = write }) d rescheduled

  unfoldable pub replied : Conn → D × Reply → Turn D
  replied c (d, responds hdrs body) =
      turn (record (set_output hdrs body c) { m = write }) d rescheduled
  replied c (d, oops s) = oopsed c s (v.on_oops s d)

  -- from `dropdown` on
  unfoldable pub respond : Conn → D → Option (Turn D)
  respond c d = Option.map (replied c) (v.prepare c.inhdrs c.inbody d)

  -- a read of the body, and what follows
  unfoldable pub body_read : Conn → D → Bytes × ℕ × ℕ → Option (Turn D)
  body_read c d (s, left, err) =
      let c' = record c { inbody = s; inbody_sz = left } in
      if failed_read err
      then some (turn c' d socket_err)
      else if left == 0
      then respond c' d
      else some (turn c' d rescheduled)

  unfoldable pub read_body : ℕ → List Got → Conn → D → Option (Turn D)
  read_body errno answers c d =
      Option.bind (rduntil_body errno answers c.inbody c.inbody_sz) (body_read c d)

  -- the body behind the headers: it is there, or the call goes on to read it
  unfoldable pub body_begun : ℕ → List Got → D → Conn → Option (Turn D)
  body_begun errno answers d c =
      let rest = read_body errno answers c d in if c.inbody_sz == 0 then respond c d else rest

  -- the test of the size, and how much of the body has come in
  unfoldable pub sized : ℕ → List Got → D → Conn → Option (Turn D)
  sized errno answers d c =
      if c.inbody_sz == 0
      then respond c d
      else if too_large setup.max_req_body c.inbody_sz
      then some (turn c d escapes)
      else elim (take_body c) [
        | none ↦ some (turn c d overruns)
        | some c' ↦ body_begun errno answers d c'
      ]

  -- The headers are complete. A size other than 0 is only there if a header has announced it.
  abbrev pub headers_done : ℕ → List Got → Conn → D → Option (Turn D)
  headers_done errno answers c d =
      sized errno answers d (record c { inbody_sz = announced_size setup.scan_size c })

  -- `inhdrs_done = (inbuf >> inhdrs)`, and what follows
  unfoldable pub headers_parsed : ℕ → List Got → Conn → D → HeaderRead → Option (Turn D)
  headers_parsed errno answers c d r = elim r.outcome [
    | complete ↦
        headers_done errno answers
          (record c { inhdrs_done = true; inbuf = r.unread; inhdrs = r.hdrs }) d
    | partial ↦ some (turn (record c { inbuf = r.unread; inhdrs = r.hdrs }) d rescheduled)
    | refused ↦ some (turn (record c { inbuf = r.unread; inhdrs = r.hdrs }) d escapes)
  ]

  unfoldable pub headers_read : List Got → Conn → D → Bytes × ℕ → Option (Turn D)
  headers_read answers c d (text, err) =
      if failed_read err
      then some (turn (record c { inbuf = text }) d socket_err)
      else Option.bind (read_headers (suc (length text)) setup.max_line_len text c.inhdrs)
          (headers_parsed err answers c d)

  -- the case `Work::read`; `errno` is what earlier calls have left there
  unfoldable pub read_turn : ℕ → List Got → List Got → Conn → D → Option (Turn D)
  read_turn errno hdr_answers body_answers c d =
      if c.inhdrs_done
      then read_body errno body_answers c d
      else Option.bind (rduntil 0 hdr_answers c.inbuf) (headers_read body_answers c d)

  -- the response is sent: the next request of the client, which may have come in already
  unfoldable pub next_request : List Got → List Got → Conn → D → Option (Turn D)
  next_request hdr_answers body_answers c d =
      let c' = record (reset_conn c) { m = read } in
      elim c'.inbuf [
        | [] ↦ some (turn c' (v.reset_more d) rescheduled)
        | x ∷ rest ↦ read_turn setup.stale_errno hdr_answers body_answers c' (v.reset_more d)
      ]

  -- behind `wruntil`
  unfoldable pub written : List Got → List Got → Conn → D → ℕ → Option (Turn D)
  written hdr_answers body_answers c d err =
      if err == eagain
      then some (turn c d rescheduled)
      else if err == 0 && c.outsz == 0
      then (if not c.outhdrs_done
          then some (turn (body_next c) d rescheduled)
          else if v.nosch d
          then some (turn c d dormant)
          else if v.deleteme d
          then some (turn c d finished)
          else next_request hdr_answers body_answers c d)
      else some (turn c d socket_err)

  abbrev pub sent_some : List Got → List Got → Conn → D → Written → Option (Turn D)
  sent_some hdr_answers body_answers c d w =
      Option.map (sent_first w.wire)
        (written hdr_answers body_answers (record c { out = w.outbuf; outsz = w.towrite }) d w.err)

  -- the case `Work::write`
  unfoldable pub write_turn : List Sent → List Got → List Got → Conn → D → Option (Turn D)
  write_turn sends hdr_answers body_answers c d =
      Option.bind (wruntil setup.stale_errno sends c.out c.outsz)
        (sent_some hdr_answers body_answers c d)

  -- `operator()`
  unfoldable pub server_turn : List Sent → List Got → List Got → Conn → D → Option (Turn D)
  server_turn sends hdr_answers body_answers c d = elim c.m [
    | read ↦ read_turn setup.stale_errno hdr_answers body_answers c d
    | write ↦ write_turn sends hdr_answers body_answers c d
  ]
