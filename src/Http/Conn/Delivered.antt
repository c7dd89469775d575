-- ===== src/Http/Conn/Delivered.antt =====
-- How a response gets out, with the calls of `operator()` of src/HTTP_Server_Work.cpp that it takes.
use mathlib.Core.Option
use mathlib.Core.Option.{some-injective}
use filth.Base.{
  ℕ, ◌≡◌, refl, sym, ap, ◌∙◌, true, false, not, Option, some, List, [], arith, ◌==◌, if_true,
  if_false,
}
use filth.Http.Conn.State.{Conn, body_next, new_conn}
use filth.Http.Conn.Server.{
  Derived, rescheduled, Turn, Setup, turn, written, write_turn, server_turn, read_turn,
  next_request, reset_conn, sent_first, sent_some,
}
use filth.Sched.Poll.{Mode, read, write}
use filth.Work.Read.{Got}
use filth.Work.Write.{
  Sent, Written, wruntil, Honest, wruntil-Progress, pieces, pieces-Honest, SumsTo, wruntil_all,
}
use filth.Http.Conn.Sending.{
  Ready, Step, after_write, wire_of_all, rest_of_all, written-headers, write_turn-Step,
}

-- the state in which a response is about to be sent: there is no more text of the client
pub record Waiting (c : Conn) : Type 0 where
  pub ready : Ready c
  pub headers_first : c.outhdrs_done ≡ false
  pub read_all : c.inbuf ≡ []

-- what a call of `write` leaves when the socket takes all it is given
pub record AllWritten (errno : ℕ) (c : Conn) (ns : List ℕ) (w : Written) : Type 0 where
  pub run : wruntil errno (pieces ns) c.out c.outsz ≡ some w
  pub wire : w.wire ≡ c.out
  pub none_left : w.towrite ≡ 0
  pub rest : w.outbuf ≡ []
  pub well : w.err ≡ 0

pub wruntil-AllWritten :
    (errno : ℕ) (c : Conn) (ns : List ℕ)
    → Ready c
    → SumsTo c.outsz ns
    → (w : Written) × AllWritten errno c ns w
wruntil-AllWritten errno c ns r sums =
    let (w, run, none_left) = wruntil_all errno ns c.out c.outsz sums in
    let p =
      wruntil-Progress errno (pieces ns) c.out c.outsz w (pieces-Honest c.outsz ns sums)
        (omega (arith, r.sized)) run in
    (
      w,
      record {
        run = run;
        wire = wire_of_all c w r p none_left;
        none_left = none_left;
        rest = rest_of_all c w r p none_left;
        well = p.done.1 none_left;
      },
    )

module _ {ℓ} {D : Type ℓ} (setup : Setup) (v : Derived D) where
  all_written :
      (ns : List ℕ) (hs bs : List Got) (c : Conn) (d : D) (t : Turn D)
      → Ready c
      → SumsTo c.outsz ns
      → ((w : Written) → w.towrite ≡ 0 → written setup v hs bs (after_write c w) d 0 ≡ some t)
      → write_turn setup v (pieces ns) hs bs c d ≡ some (sent_first c.out t)
  unfolding write_turn Option.bind
  all_written ns hs bs c d t r sums next =
      let (w, a) = wruntil-AllWritten setup.stale_errno c ns r sums in
      ap (λ o. Option.bind o (sent_some setup v hs bs c d)) a.run
      ∙ ap (λ e. Option.map (sent_first w.wire) (written setup v hs bs (after_write c w) d e))
          a.well
      ∙ ap (Option.map (sent_first w.wire)) (next w a.none_left)
      ∙ ap (λ x. some (sent_first x t)) a.wire

  -- A call on a connection that writes is a call that writes.
  server_turn-write :
      (sends : List Sent) (hs bs : List Got) (c : Conn) (d : D)
      → c.m ≡ write
      → server_turn setup v sends hs bs c d ≡ write_turn setup v sends hs bs c d
  unfolding server_turn
  server_turn-write sends hs bs c d writing =
      ap
        (λ (m : Mode). elim m as (λ _. Option (Turn D)) [
          | read ↦ read_turn setup v setup.stale_errno hs bs c d
          | write ↦ write_turn setup v sends hs bs c d
        ])
        writing

  next_request-idle :
      (hs bs : List Got) (c : Conn) (d : D)
      → c.inbuf ≡ []
      → next_request setup v hs bs c d ≡ some (turn (new_conn read) (v.reset_more d) rescheduled)
  unfolding next_request reset_conn
  next_request-idle hs bs c d all_read =
      ap (λ x. next_request setup v hs bs (record c { inbuf = x }) d) all_read

  written-body :
      (hs bs : List Got) (c : Conn) (d : D)
      → c.outsz ≡ 0
      → c.outhdrs_done ≡ true
      → v.nosch d ≡ false
      → v.deleteme d ≡ false
      → written setup v hs bs c d 0 ≡ next_request setup v hs bs c d
  unfolding written
  written-body hs bs c d none_left done scheduled kept =
      if_true _ _ (ap (λ n. n == 0) none_left)
      ∙ if_false _ _ (ap not done)
      ∙ if_false _ _ scheduled
      ∙ if_false _ _ kept

  -- A call on a connection that is ready to send sends a first part of what is pending, and leaves the
  -- rest pending: with honest answers of the socket, no byte is lost, sent twice or out of order.
  pub server_turn-Step :
      (sends : List Sent) (hs bs : List Got) (c : Conn) (d : D) (t : Turn D)
      → Ready c
      → Honest c.outsz sends
      → server_turn setup v sends hs bs c d ≡ some t
      → Step c t
  server_turn-Step sends hs bs c d t r honest run =
      write_turn-Step setup v hs bs sends c d t r honest
        (sym (server_turn-write sends hs bs c d r.writing) ∙ run)

  -- A response gets out: on a socket that takes all it is given, in pieces of any length, one call sends
  -- the headers and the next one the body, and then the connection is as new and waits for a request,
  -- if it is to be kept and the client has sent nothing more.
  pub response_sent :
      (ns ms : List ℕ) (hs bs : List Got) (c : Conn) (d : D)
      → Waiting c
      → v.nosch d ≡ false
      → v.deleteme d ≡ false
      → SumsTo c.outsz ns
      → SumsTo c.outbody_sz ms
      → (server_turn setup v (pieces ns) hs bs c d
          ≡ some (sent_first c.out (turn (body_next c) d rescheduled)))
        × (server_turn setup v (pieces ms) hs bs (body_next c) d
            ≡ some (sent_first c.outbody (turn (new_conn read) (v.reset_more d) rescheduled)))
  response_sent ns ms hs bs c d waiting scheduled kept sums sums' = (
    server_turn-write (pieces ns) hs bs c d waiting.ready.writing
        ∙ all_written ns hs bs c d (turn (body_next c) d rescheduled) waiting.ready sums
            (λ w none_left.
              written-headers setup v hs bs (after_write c w) d none_left waiting.headers_first),
    server_turn-write (pieces ms) hs bs (body_next c) d waiting.ready.writing
        ∙ all_written ms hs bs (body_next c) d (turn (new_conn read) (v.reset_more d) rescheduled)
            (record {
              writing = waiting.ready.writing;
              sized = waiting.ready.body_sized;
              body_sized = waiting.ready.body_sized;
            })
            sums'
            (λ w none_left.
              written-body hs bs (after_write (body_next c) w) d none_left refl scheduled kept
              ∙ next_request-idle hs bs (after_write (body_next c) w) d waiting.read_all),
  )
