-- ===== src/Http/Conn/Client.antt =====
-- HTTP_Client_Work of src/HTTP_Client_Work.cpp: its constructor and `operator()`.
use mathlib.Core.Option
use filth.Base.Text.{Bytes}
use filth.Base.{
  ℕ, suc, Bool, true, false, not, ◌&&◌, Option, none, some, List, [], ◌∷◌, ◌++◌, length, ◌==◌,
  if◌then◌else◌,
}
use filth.Http.Conn.State.{
  Conn, new_conn, eagain, failed_read, set_output, body_next, announced_size, take_body,
}
use filth.Http.Conn.Server.{
  Turn, turn, sent_first, copied, rescheduled, socket_err, escapes, overruns, dangling,
}
use filth.Http.Lines.{Hdrs, complete, partial, refused, HeaderRead, read_headers, print_hdrs, crlf}
use filth.Sched.Poll.{read, write}
use filth.Work.Read.{Got, rduntil, rduntil_body}
use filth.Work.Write.{Sent, Written, wruntil}

-- the copy of the body, if there is one and there is memory
unfoldable pub request_body : Bool → Bytes → Bytes
request_body new_ok [] = []
request_body true (c ∷ x) = copied (c ∷ x)
request_body false (c ∷ x) = []

-- the constructor
unfoldable pub new_client : Bool → Hdrs → Bytes → Conn
new_client new_ok reqhdrs req_body =
    set_output (print_hdrs reqhdrs ++ crlf) (request_body new_ok req_body) (new_conn write)

-- `browse_resp`, on the state `D` of a derived class and what it can reach; false means that the work
-- has been deleted
abbrev pub Browse {ℓ} : Type ℓ → Type ℓ
Browse D = Hdrs → Bytes → D → D × Bool

-- behind `wruntil`
unfoldable pub client_written {ℓ} : {D : Type ℓ} → Conn → D → ℕ → Turn D
client_written c d err =
    if err == eagain
    then turn c d rescheduled
    else if err == 0 && c.outsz == 0
    then turn (if not c.outhdrs_done then body_next c else record c { m = read }) d rescheduled
    else turn c d socket_err

abbrev pub client_sent {ℓ} : {D : Type ℓ} → Conn → D → Written → Turn D
client_sent c d w =
    sent_first w.wire (client_written (record c { out = w.outbuf; outsz = w.towrite }) d w.err)

-- `stale_errno` is what `errno` holds when a call begins.
module _ {ℓ} {D : Type ℓ} (max_line_len : ℕ) (scan_size : Bytes → ℕ → ℕ) (stale_errno : ℕ)
    (browse : Browse D) where
  -- from `dropdown` on
  unfoldable pub browsed : Conn → D → Turn D
  browsed c d =
      let (d', alive) = browse c.inhdrs c.inbody d in
      turn c d' (if alive then rescheduled else dangling)

  -- behind a read of the body
  unfoldable pub client_body_read : Conn → D → Bytes × ℕ × ℕ → Turn D
  client_body_read c d (s, left, err) =
      let c' = record c { inbody = s; inbody_sz = left } in
      if failed_read err
      then turn c' d socket_err
      else if left == 0
      then browsed c' d
      else turn c' d rescheduled

  -- the part of the body that has come in with the headers
  unfoldable pub client_sized : Conn → D → Turn D
  client_sized c d = if c.inbody_sz == 0 then browsed c d else elim (take_body c) [
    | none ↦ turn c d overruns
    | some c' ↦ if c'.inbody_sz == 0 then browsed c' d else turn c' d rescheduled
  ]

  unfoldable pub client_headers_parsed : Conn → D → HeaderRead → Turn D
  client_headers_parsed c d r =
      let c' = record c { inbuf = r.unread; inhdrs = r.hdrs } in
      elim r.outcome [
        | complete ↦
            client_sized (record c' { inhdrs_done = true; inbody_sz = announced_size scan_size c' })
              d
        | partial ↦ turn c' d rescheduled
        | refused ↦ turn c' d escapes
      ]

  unfoldable pub client_headers_read : Conn → D → Bytes × ℕ → Option (Turn D)
  client_headers_read c d (text, err) =
      if failed_read err
      then some (turn (record c { inbuf = text }) d socket_err)
      else Option.map (client_headers_parsed c d)
          (read_headers (suc (length text)) max_line_len text c.inhdrs)

  -- the case `Work::read`
  unfoldable pub client_read_turn : List Got → Conn → D → Option (Turn D)
  client_read_turn answers c d =
      if c.inhdrs_done
      then Option.map (client_body_read c d) (rduntil_body stale_errno answers c.inbody c.inbody_sz)
      else Option.bind (rduntil 0 answers c.inbuf) (client_headers_read c d)

  -- `operator()`
  unfoldable pub client_turn : List Sent → List Got → Conn → D → Option (Turn D)
  client_turn sends answers c d = elim c.m [
    | write ↦ Option.map (client_sent c d) (wruntil stale_errno sends c.out c.outsz)
    | read ↦ client_read_turn answers c d
  ]
