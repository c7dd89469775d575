-- ===== src/Http/Conn/Bodies.antt =====
-- How a call of `operator()` of src/HTTP_Server_Work.cpp reads the body of a request: what has come in
-- behind the headers, and what comes later.
use filth.Sched.Poll.{write}
use mathlib.Core.Option
use filth.Base.Text.{Bytes}
use filth.Base.{
  ℕ, ◌+◌, ◌-◌, ◌^◌, ◌≤◌, ◌<◌, ◌≡◌, refl, sym, ap, ap₂, ◌∙◌, true, false, Option, none, some, List,
  [], ◌∷◌, ◌++◌, append_assoc, append-nil, length, take, drop, length-append, arith, leb,
  if◌then◌else◌, if_true, if_false, lt→ltb, le→ltb, lt→leb, le→leb, pos→==,
}
use filth.Http.Conn.State.{
  set_output, Conn, eagain, announced_size, take_body, body_in_buffer, move_body, cbufsz,
  failed_read,
}
use filth.Http.Lines.Block.{store_all}
use filth.Http.Conn.Server.{
  responds, rescheduled, Derived, overruns, Turn, Setup, turn, server_turn, sized, respond,
  too_large, body_begun, read_body, body_read,
}
use filth.Work.Read.{
  Got, failed, c_string, no_null, c_string-no_null, rduntil_body, Pieces, answers_of, joined,
  rduntil_body_exact,
}
use filth.Base.Words.{sub64}
use filth.Work.Write.{Sent}
use filth.Http.Conn.Receive.{respond-responds, WholeHeaders, with_headers, headers_received}

take-length : (x y : Bytes) → take (length x) (x ++ y) ≡ x
take-length [] y = refl
take-length (c ∷ x) y = ap (◌∷◌ c) (take-length x y)

drop-length : (x y : Bytes) → drop (length x) (x ++ y) ≡ y
drop-length [] y = refl
drop-length (c ∷ x) y = drop-length x y

-- the connection when a body of `n` bytes is announced, and `x` stands behind the headers
abbrev pub with_announced : ℕ → Bytes → Conn → Conn
with_announced n x c = record c { inbuf = x; inbody_sz = n }

-- the connection when `x` has come in of the body, and `n` bytes are to come
abbrev pub with_body : Bytes → Bytes → ℕ → Conn → Conn
with_body x rest n c = record c { inbody = c.inbody ++ x; inbuf = rest; inbody_sz = n }

pub body_in_buffer-whole :
    (c : Conn) (body rest : Bytes)
    → body_in_buffer (with_announced (length body) (body ++ rest) c) ≡ length body
unfolding body_in_buffer
body_in_buffer-whole c body rest =
    if_false _ _
      (le→ltb (length (body ++ rest)) (length body) (omega (arith, length-append body rest)))

body_in_buffer-part :
    (c : Conn) (n : ℕ) (x : Bytes) → length x < n → body_in_buffer (with_announced n x c) ≡ length x
unfolding body_in_buffer
body_in_buffer-part c n x fewer = if_true _ _ (lt→ltb _ _ fewer)

pub take_body-fits :
    (c : Conn) (k : ℕ) → body_in_buffer c ≡ k → k < cbufsz → take_body c ≡ some (move_body k c)
unfolding take_body
take_body-fits c k known fits =
    ap (λ n. if leb cbufsz n then none else some (move_body n c)) known
    ∙ if_false _ _ (lt→leb k cbufsz fits)

pub move_body-part :
    (x rest : Bytes) (n : ℕ) (c : Conn)
    → no_null x ≡ true
    → length x ≤ n
    → n < 2 ^ 64
    → move_body (length x) (with_announced n (x ++ rest) c) ≡ with_body x rest (n - length x) c
move_body-part x rest n c text fewer small =
    ap₂ (λ y z. with_body y z (sub64 n (length x)) c)
      (ap c_string (take-length x rest) ∙ c_string-no_null x text) (drop-length x rest)
    ∙ ap (λ k. with_body x rest k c) (ground arith)

module _ {ℓ} {D : Type ℓ} (setup : Setup) (v : Derived D) where
  -- the size is allowed, and there is a body
  sized-allowed :
      (bs : List Got) (c c' : Conn) (d : D)
      → 0 < c.inbody_sz
      → too_large setup.max_req_body c.inbody_sz ≡ false
      → take_body c ≡ some c'
      → sized setup v eagain bs d c ≡ body_begun setup v eagain bs d c'
  unfolding sized
  sized-allowed bs c c' d some_body allowed taken =
      if_false _ _ (pos→== _ some_body)
      ∙ if_false _ _ allowed
      ∙ ap
          (λ (o : Option Conn). elim o as (λ _. Option (Turn D)) [
            | none ↦ some (turn c d overruns)
            | some c'' ↦ body_begun setup v eagain bs d c''
          ])
          taken

  -- A request whose whole body has come in with its headers is answered at once, with exactly the
  -- announced bytes as the body, and what is behind them stays for the next request.
  pub request_with_body :
      (sends : List Sent) (bs : List Got) (c : Conn) (d : D) (ps : Pieces) (lines : List Bytes)
      (body rest : Bytes)
      → WholeHeaders setup.max_line_len c ps lines (body ++ rest)
      → announced_size setup.scan_size (with_headers lines (body ++ rest) c) ≡ length body
      → 0 < length body
      → length body < cbufsz
      → too_large setup.max_req_body (length body) ≡ false
      → no_null body ≡ true
      → server_turn setup v sends (answers_of ps ++ failed eagain ∷ []) bs c d
        ≡ respond setup v (with_body body rest 0 (with_headers lines (body ++ rest) c)) d
  unfolding body_begun
  request_with_body sends bs c d ps lines body rest r size some_body fits allowed text =
      let c1 = with_headers lines (body ++ rest) c in
      let small : length body < 2 ^ 64 = omega arith in
      let none_left : length body - length body ≡ 0 = omega arith in
      headers_received setup v sends bs c d ps lines (body ++ rest) r
      ∙ ap (λ n. sized setup v eagain bs d (with_announced n (body ++ rest) c1)) size
      ∙ sized-allowed bs (with_announced (length body) (body ++ rest) c1)
          (with_body body rest (length body - length body) c1) d some_body allowed
          (take_body-fits (with_announced (length body) (body ++ rest) c1) (length body)
              (body_in_buffer-whole c1 body rest) fits
            ∙ ap some (move_body-part body rest (length body) c1 text (omega arith) small))
      ∙ ap (λ n. body_begun setup v eagain bs d (with_body body rest n c1)) none_left

  -- the rest of a body
  body_begun-more :
      (bs : List Got) (c : Conn) (d : D) (body : Bytes)
      → 0 < c.inbody_sz
      → rduntil_body eagain bs c.inbody c.inbody_sz ≡ some (body, 0, 0)
      → body_begun setup v eagain bs d c
        ≡ respond setup v (record c { inbody = body; inbody_sz = 0 }) d
  unfolding body_begun read_body body_read failed_read Option.bind
  body_begun-more bs c d body some_body run =
      if_false _ _ (pos→== _ some_body)
      ∙ ap (λ (o : Option (Bytes × ℕ × ℕ)). Option.bind o (body_read setup v c d)) run

  -- A request whose body has come in in part with the headers and otherwise in later reads of the same
  -- call, in whatever pieces: if `prepare_response` makes a response of its headers and of exactly the
  -- announced bytes, that call leaves the connection writing that response. The lines are of text, not
  -- too long, and the body has no 0 byte, the size is allowed and fits a word, and the first part of
  -- the body fits `cbuf`.
  pub request_body_later :
      (sends : List Sent) (c : Conn) (d d' : D) (ps later : Pieces) (lines : List Bytes)
      (first hdrs body : Bytes) (n : ℕ)
      → WholeHeaders setup.max_line_len c ps lines first
      → announced_size setup.scan_size (with_headers lines first c) ≡ n
      → length first + length (joined later) ≡ n
      → 0 < length (joined later)
      → length first < cbufsz
      → n < 2 ^ 64
      → too_large setup.max_req_body n ≡ false
      → no_null first ≡ true
      → no_null (joined later) ≡ true
      → v.prepare (store_all lines c.inhdrs) (c.inbody ++ (first ++ joined later)) d
        ≡ some (d', responds hdrs body)
      → server_turn setup v sends (answers_of ps ++ failed eagain ∷ []) (answers_of later) c d
        ≡ some (
            turn
              (record (set_output hdrs body
                (with_body (first ++ joined later) [] 0 (with_headers lines first c))) {
                  m = write;
                })
              d'
              rescheduled)
  request_body_later sends c d d' ps later lines first hdrs body n r size total more fits small
        allowed text text' prepared =
      let c1 = with_headers lines first c in
      headers_received setup v sends (answers_of later) c d ps lines first r
      ∙ ap (λ n. sized setup v eagain (answers_of later) d (with_announced n first c1)) size
      ∙ sized-allowed (answers_of later) (with_announced n first c1)
          (with_body first [] (n - length first) c1) d (omega arith) allowed
          (take_body-fits (with_announced n first c1) (length first)
              (body_in_buffer-part c1 n first (omega arith)) fits
            ∙ ap (λ x. some (move_body (length first) (with_announced n x c1)))
                (sym (append-nil first))
            ∙ ap some (move_body-part first [] n c1 text (omega arith) small))
      ∙ body_begun-more (answers_of later) (with_body first [] (n - length first) c1) d
          ((c.inbody ++ first) ++ joined later) (omega arith)
          (rduntil_body_exact eagain (n - length first) later (c.inbody ++ first) (omega arith)
            (omega arith) text')
      ∙ ap (λ x. respond setup v (record c1 { inbody = x; inbuf = []; inbody_sz = 0 }) d)
          (append_assoc c.inbody first (joined later))
      ∙ respond-responds setup v (with_body (first ++ joined later) [] 0 c1) d d' hdrs body prepared

  -- When as much of a body as `cbuf` has room for has come in with the headers, the 0 byte that ends it,
  -- and what is above the size of the buffer, is written behind `cbuf`.
  pub body_overruns :
      (sends : List Sent) (bs : List Got) (c : Conn) (d : D) (ps : Pieces) (lines : List Bytes)
      (tail : Bytes) (n : ℕ)
      → WholeHeaders setup.max_line_len c ps lines tail
      → announced_size setup.scan_size (with_headers lines tail c) ≡ n
      → too_large setup.max_req_body n ≡ false
      → cbufsz ≤ n
      → cbufsz ≤ length tail
      → server_turn setup v sends (answers_of ps ++ failed eagain ∷ []) bs c d
        ≡ some (turn (with_announced n tail (with_headers lines tail c)) d overruns)
  unfolding sized take_body body_in_buffer
  body_overruns sends bs c d ps lines tail n r size allowed large there =
      let c1 = with_announced n tail (with_headers lines tail c) in
      headers_received setup v sends bs c d ps lines tail r
      ∙ ap (λ n. sized setup v eagain bs d (with_announced n tail (with_headers lines tail c))) size
      ∙ if_false _ _ (pos→== n (omega arith))
      ∙ if_false _ _ allowed
      ∙ ap
          (λ (o : Option Conn). elim o as (λ _. Option (Turn D)) [
            | none ↦ some (turn c1 d overruns)
            | some c'' ↦ body_begun setup v eagain bs d c''
          ])
          (if_true _ _ (le→leb (body_in_buffer c1) cbufsz (ground arith)))
