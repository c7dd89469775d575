-- ===== src/Http/Conn/Sending.antt =====
-- What a connection has still to send, and how the calls of `operator()` of src/HTTP_Server_Work.cpp
-- send it: the headers and then the body, each byte once.
use mathlib.Core.Option
use mathlib.Core.Option.{some-injective}
use filth.Base.Text.{Bytes}
use filth.Base.{
  ℕ, suc, ◌≡◌, refl, sym, ap, subst, ◌∙◌, true, false, not, ◌&&◌, some, List, [], ◌∷◌, ◌++◌,
  append_assoc, append-nil, length, length-append, arith, ◌==◌, if◌then◌else◌, if_true, if_false,
  ==_iff, zero, ◌≢◌, Bool-cases, inl, inr,
}
use filth.Http.Conn.State.{Conn, body_next, eagain}
use filth.Http.Conn.Server.{
  Derived, rescheduled, socket_err, Turn, Setup, turn, written, write_turn, sent_first, sent_some,
}
use filth.Sched.Poll.{write}
use filth.Work.Read.{Got}
use filth.Work.Write.{Sent, Written, wruntil, Honest, Progress, wruntil-Progress}

-- what is still to be sent
unfoldable pub pending : Conn → Bytes
pending c = if c.outhdrs_done then c.out else c.out ++ c.outbody

-- The connection is writing, and the two sizes are right.
pub record Ready (c : Conn) : Type 0 where
  pub writing : c.m ≡ write
  pub sized : c.outsz ≡ length c.out
  pub body_sized : c.outbody_sz ≡ length c.outbody

-- What a call sends is a first part of what is pending. Then the connection is rescheduled with the
-- rest, or the socket has failed, or that was all.
pub data Step {ℓ} {D : Type ℓ} (c : Conn) (t : Turn D) : Type 0 where
  more : t.after ≡ rescheduled → Ready t.conn → t.wire ++ pending t.conn ≡ pending c → Step c t
  broken : t.after ≡ socket_err → (rest : Bytes) → t.wire ++ rest ≡ pending c → Step c t
  whole : c.outhdrs_done ≡ true → t.wire ≡ pending c → Step c t

abbrev pub after_write : Conn → Written → Conn
after_write c w = record c { out = w.outbuf; outsz = w.towrite }

-- what is pending behind a call of `write`
pending-after_write :
    (c : Conn) (w : Written)
    → w.wire ++ w.outbuf ≡ c.out
    → w.wire ++ pending (after_write c w) ≡ pending c
unfolding pending
pending-after_write c w same = elim (Bool-cases c.outhdrs_done) [
  | inl done ↦ ap (◌++◌ w.wire) (if_true _ _ done) ∙ same ∙ sym (if_true _ _ done)
  | inr not_yet ↦
      ap (◌++◌ w.wire) (if_false _ _ not_yet)
      ∙ sym (append_assoc w.wire w.outbuf c.outbody)
      ∙ ap (λ x. x ++ c.outbody) same
      ∙ sym (if_false _ _ not_yet)
]

after_write-Ready :
    (c : Conn) (w : Written) → Ready c → Progress c.out c.outsz w → Ready (after_write c w)
after_write-Ready c w r p = record {
  writing = r.writing;
  sized = omega (arith, length-append w.wire w.outbuf, ap length p.whole, p.counted, r.sized);
  body_sized = r.body_sized;
}

nil_of_length : {A : Type 0} (xs : List A) → length xs ≡ 0 → xs ≡ []
nil_of_length [] h = refl
nil_of_length (x ∷ xs) h = absurd (omega arith)

-- When nothing is left of `out`, it is all on the wire.
pub rest_of_all :
    (c : Conn) (w : Written) → Ready c → Progress c.out c.outsz w → w.towrite ≡ 0 → w.outbuf ≡ []
rest_of_all c w r p none_left =
    nil_of_length w.outbuf (sym (after_write-Ready c w r p).sized ∙ none_left)

pub wire_of_all :
    (c : Conn) (w : Written) → Ready c → Progress c.out c.outsz w → w.towrite ≡ 0 → w.wire ≡ c.out
wire_of_all c w r p none_left =
    sym (append-nil w.wire) ∙ ap (◌++◌ w.wire) (sym (rest_of_all c w r p none_left)) ∙ p.whole

-- The headers are sent: the body is what is left.
headers_sent :
    (c : Conn) (w : Written)
    → Ready c
    → Progress c.out c.outsz w
    → w.towrite ≡ 0
    → c.outhdrs_done ≡ false
    → w.wire ++ pending (body_next (after_write c w)) ≡ pending c
unfolding pending
headers_sent c w r p none_left not_yet =
    ap (λ x. x ++ c.outbody) (wire_of_all c w r p none_left) ∙ sym (if_false _ _ not_yet)

positive_test : (e : ℕ) → (suc e == 0) ≡ false
positive_test e = ground arith

module _ {ℓ} {D : Type ℓ} (setup : Setup) (v : Derived D) (hs bs : List Got) where
  pub written-headers :
      (c : Conn) (d : D)
      → c.outsz ≡ 0
      → c.outhdrs_done ≡ false
      → written setup v hs bs c d 0 ≡ some (turn (body_next c) d rescheduled)
  unfolding written
  written-headers c d none_left not_yet =
      if_true _ _ (ap (λ n. n == 0) none_left) ∙ if_true _ _ (ap not not_yet)

  written-again :
      (c : Conn) (d : D) → written setup v hs bs c d eagain ≡ some (turn c d rescheduled)
  unfolding written
  written-again c d = refl

  written-broken :
      (c : Conn) (d : D) (err : ℕ)
      → err == eagain ≡ false
      → err ≢ 0
      → written setup v hs bs c d err ≡ some (turn c d socket_err)
  unfolding written
  written-broken c d zero other bad = absurd (bad refl)
  written-broken c d (suc e) other bad =
      if_false _ _ other ∙ if_false _ _ (ap (λ b. b && c.outsz == 0) (positive_test e))

  -- Everything that `write` was given is sent.
  ended :
      (c : Conn) (d : D) (t : Turn D) (w : Written)
      → Ready c
      → Progress c.out c.outsz w
      → w.towrite ≡ 0
      → written setup v hs bs (after_write c w) d 0 ≡ some t
      → Step c (sent_first w.wire t)
  unfolding pending
  ended c d t w r p none_left run = elim (Bool-cases c.outhdrs_done) [
    | inl done ↦ whole done (wire_of_all c w r p none_left ∙ sym (if_true _ _ done))
    | inr not_yet ↦
        subst (λ (u : Turn D). Step c (sent_first w.wire u))
          (some-injective _ _ (sym (written-headers (after_write c w) d none_left not_yet) ∙ run))
          (more refl
            (record { writing = r.writing; sized = r.body_sized; body_sized = r.body_sized })
            (headers_sent c w r p none_left not_yet))
  ]

  -- The socket takes no more for now.
  blocked :
      (c : Conn) (d : D) (t : Turn D) (w : Written)
      → Ready c
      → Progress c.out c.outsz w
      → written setup v hs bs (after_write c w) d eagain ≡ some t
      → Step c (sent_first w.wire t)
  blocked c d t w r p run =
      subst (λ (u : Turn D). Step c (sent_first w.wire u))
        (some-injective _ _ (sym (written-again (after_write c w) d) ∙ run))
        (more refl (after_write-Ready c w r p) (pending-after_write c w p.whole))

  failed_write :
      (c : Conn) (d : D) (t : Turn D) (w : Written) (err : ℕ)
      → Progress c.out c.outsz w
      → err == eagain ≡ false
      → err ≢ 0
      → written setup v hs bs (after_write c w) d err ≡ some t
      → Step c (sent_first w.wire t)
  failed_write c d t w err p other bad run =
      subst (λ (u : Turn D). Step c (sent_first w.wire u))
        (some-injective _ _ (sym (written-broken (after_write c w) d err other bad) ∙ run))
        (broken refl (pending (after_write c w)) (pending-after_write c w p.whole))

  written-Step :
      (c : Conn) (d : D) (t : Turn D) (w : Written) (err : ℕ)
      → w.err ≡ err
      → Ready c
      → Progress c.out c.outsz w
      → written setup v hs bs (after_write c w) d err ≡ some t
      → Step c (sent_first w.wire t)
  written-Step c d t w zero known r p run = ended c d t w r p (p.done.0 known) run
  written-Step c d t w (suc e) known r p run = elim (Bool-cases (suc e == eagain)) [
    | inl again ↦ blocked c d t w r p (
        subst (λ n. written setup v hs bs (after_write c w) d n ≡ some t)
          ((==_iff (suc e) eagain).0 again) run)
    | inr other ↦
        failed_write c d t w (suc e) p other (λ (e0 : suc e ≡ 0). absurd (omega arith)) run
  ]

  -- A call that writes sends a first part of what is pending, and leaves the rest pending.
  pub write_turn-Step :
      (sends : List Sent) (c : Conn) (d : D) (t : Turn D)
      → Ready c
      → Honest c.outsz sends
      → write_turn setup v sends hs bs c d ≡ some t
      → Step c t
  unfolding write_turn
  write_turn-Step sends c d t r honest run =
      let (w, went, later) =
        (Option.bind-eq-some_iff (wruntil setup.stale_errno sends c.out c.outsz)
            (sent_some setup v hs bs c d)).0
          run in
      let (u, run', same) =
        (Option.map-eq-some_iff (sent_first w.wire)
            (written setup v hs bs (after_write c w) d w.err)).0
          later in
      subst (Step c) same (
        written-Step c d u w w.err refl r
          (wruntil-Progress setup.stale_errno sends c.out c.outsz w honest (omega (arith, r.sized))
            went)
          run')
