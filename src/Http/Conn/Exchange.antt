-- ===== src/Http/Conn/Exchange.antt =====
-- HTTP_Client_Work of src/HTTP_Client_Work.cpp at work: its request gets out, and the response comes back.
use mathlib.Core.Option
use filth.Base.Text.{Bytes}
use filth.Base.{
  ℕ, ◌≡◌, refl, ap, ap₂, ◌∙◌, true, false, not, Option, some, List, [], ◌==◌, if_true, if_false,
}
use filth.Http.Conn.State.{Conn, body_next}
use filth.Http.Conn.Server.{rescheduled, Turn, turn, sent_first}
use filth.Http.Conn.Sending.{Ready}
use filth.Http.Conn.Delivered.{Waiting, wruntil-AllWritten}
use filth.Http.Conn.Client.{Browse, client_written, client_sent, client_read_turn, client_turn}
use filth.Sched.Poll.{Mode, read, write}
use filth.Work.Read.{Got}
use filth.Work.Write.{Sent, wruntil, SumsTo, pieces}

client_written-headers {ℓ} :
    {D : Type ℓ} (c : Conn) (d : D)
    → c.outsz ≡ 0
    → c.outhdrs_done ≡ false
    → client_written c d 0 ≡ turn (body_next c) d rescheduled
unfolding client_written
client_written-headers c d none_left not_yet =
    if_true _ _ (ap (λ n. n == 0) none_left)
    ∙ ap (λ c'. turn c' d rescheduled) (if_true _ _ (ap not not_yet))

client_written-body {ℓ} :
    {D : Type ℓ} (c : Conn) (d : D)
    → c.outsz ≡ 0
    → c.outhdrs_done ≡ true
    → client_written c d 0 ≡ turn (record c { m = read }) d rescheduled
unfolding client_written
client_written-body c d none_left done =
    if_true _ _ (ap (λ n. n == 0) none_left)
    ∙ ap (λ c'. turn c' d rescheduled) (if_false _ _ (ap not done))

-- the connection when the whole request is sent
abbrev pub request_done : Conn → Conn
request_done c = record (body_next c) { m = read; out = []; outsz = 0 }

module _ {ℓ} {D : Type ℓ} (max_line_len : ℕ) (scan_size : Bytes → ℕ → ℕ) (stale_errno : ℕ)
    (browse : Browse D) where
  client_turn-write :
      (sends : List Sent) (answers : List Got) (c : Conn) (d : D)
      → c.m ≡ write
      → client_turn max_line_len scan_size stale_errno browse sends answers c d
        ≡ Option.map (client_sent c d) (wruntil stale_errno sends c.out c.outsz)
  unfolding client_turn
  client_turn-write sends answers c d writing =
      ap
        (λ (m : Mode). elim m as (λ _. Option (Turn D)) [
          | write ↦ Option.map (client_sent c d) (wruntil stale_errno sends c.out c.outsz)
          | read ↦ client_read_turn max_line_len scan_size stale_errno browse answers c d
        ])
        writing

  -- A request gets out: on a socket that takes all it is given, in pieces of any length, one call sends
  -- the headers and the next one the body, and then the work waits for the response.
  pub request_sent :
      (ns ms : List ℕ) (answers : List Got) (c : Conn) (d : D)
      → Waiting c
      → SumsTo c.outsz ns
      → SumsTo c.outbody_sz ms
      → (client_turn max_line_len scan_size stale_errno browse (pieces ns) answers c d
          ≡ some (sent_first c.out (turn (body_next c) d rescheduled)))
        × (client_turn max_line_len scan_size stale_errno browse (pieces ms) answers (body_next c) d
            ≡ some (sent_first c.outbody (turn (request_done c) d rescheduled)))
  request_sent ns ms answers c d waiting sums sums' =
      let (w, a) = wruntil-AllWritten stale_errno c ns waiting.ready sums in
      let ready' : Ready (body_next c) = record {
        writing = waiting.ready.writing;
        sized = waiting.ready.body_sized;
        body_sized = waiting.ready.body_sized;
      } in
      let (w', a') = wruntil-AllWritten stale_errno (body_next c) ms ready' sums' in
      (
        client_turn-write (pieces ns) answers c d waiting.ready.writing
            ∙ ap (Option.map (client_sent c d)) a.run
            ∙ ap
                (λ e. some (
                  sent_first w.wire
                    (client_written (record c { out = w.outbuf; outsz = w.towrite }) d e)))
                a.well
            ∙ ap (λ t. some (sent_first w.wire t))
                (client_written-headers (record c { out = w.outbuf; outsz = w.towrite }) d
                  a.none_left waiting.headers_first)
            ∙ ap (λ x. some (sent_first x (turn (body_next c) d rescheduled))) a.wire,
        client_turn-write (pieces ms) answers (body_next c) d waiting.ready.writing
            ∙ ap (Option.map (client_sent (body_next c) d)) a'.run
            ∙ ap
                (λ e. some (
                  sent_first w'.wire (
                    client_written (record (body_next c) { out = w'.outbuf; outsz = w'.towrite }) d
                      e)))
                a'.well
            ∙ ap (λ t. some (sent_first w'.wire t))
                (client_written-body (record (body_next c) { out = w'.outbuf; outsz = w'.towrite })
                  d a'.none_left refl)
            ∙ ap
                (λ x. some (
                  sent_first x (
                    turn (record (body_next c) { m = read; out = w'.outbuf; outsz = w'.towrite }) d
                      rescheduled)))
                a'.wire
            ∙ ap₂
                (λ o n. some (
                  sent_first c.outbody
                    (turn (record (body_next c) { m = read; out = o; outsz = n }) d rescheduled)))
                a'.rest a'.none_left,
      )
