-- ===== src/Work/Write.antt =====
-- `Work::wruntil` of src/Work.cpp.
use mathlib.Core.Option.{some-injective}
use mathlib.Core.Option
use filth.Base.{
  ℕ, zero, suc, ◌+◌, ◌-◌, ◌≤◌, ◌<◌, ◌≡◌, ◌≢◌, ◌↔◌, refl, sym, ap, subst, ◌∙◌, Option, none, some,
  List, [], ◌∷◌, ◌++◌, append_assoc, length, take, drop, length-append, length-drop,
  take-append-drop, arith, ◌==◌, if◌then◌else◌, Bool-cases, if_true, if_false, inl, inr,
}
use filth.Base.Text.{Bytes}

-- `EINTR`
abbrev pub eintr : ℕ
eintr = 4

-- one call of `write`: how much it took, or -1 and what it left in `errno`
pub data Sent : Type 0 where
  sent : ℕ → Sent
  failed : ℕ → Sent

-- `outbuf` from where it points, `towrite` and the result; `wire` is what the socket has taken
pub record Written : Type 0 where
  pub wire : Bytes
  pub outbuf : Bytes
  pub towrite : ℕ
  pub err : ℕ

-- a `write` that took `x`, before the rest of the loop
abbrev pub taken : Bytes → Written → Written
taken x w = record w { wire = x ++ w.wire }

unfoldable pub wruntil : ℕ → List Sent → Bytes → ℕ → Option Written
wruntil errno answers outbuf zero =
    some (record { wire = []; outbuf = outbuf; towrite = 0; err = 0 })
wruntil errno [] outbuf (suc k) = none
wruntil errno (sent zero ∷ answers) outbuf (suc k) =
    some (record { wire = []; outbuf = outbuf; towrite = suc k; err = errno })
wruntil errno (sent (suc n) ∷ answers) outbuf (suc k) =
    Option.map (taken (take (suc n) outbuf))
      (wruntil errno answers (drop (suc n) outbuf) (suc k - suc n))
wruntil errno (failed e ∷ answers) outbuf (suc k) =
    let rest = wruntil e answers outbuf (suc k) in
    if e == eintr
    then rest
    else some (record { wire = []; outbuf = outbuf; towrite = suc k; err = e })

-- What `write` promises: it takes at least one byte and no more than it was given, or sets `errno`.
abbrev pub Honest : ℕ → List Sent → Type 0
Honest k [] = Unit
Honest k (sent n ∷ answers) = (0 < n) × (n ≤ k) × Honest (k - n) answers
Honest k (failed e ∷ answers) = (0 < e) × Honest k answers

-- Nothing is lost, repeated or swapped: what is on the wire and what is left make up the buffer.
pub record Progress (outbuf : Bytes) (towrite : ℕ) (w : Written) : Type 0 where
  pub whole : w.wire ++ w.outbuf ≡ outbuf
  pub counted : length w.wire + w.towrite ≡ towrite
  pub done : (w.err ≡ 0) ↔ (w.towrite ≡ 0)

stuck-Progress :
    (e k : ℕ) (outbuf : Bytes)
    → 0 < e
    → Progress outbuf (suc k) (record { wire = []; outbuf = outbuf; towrite = suc k; err = e })
stuck-Progress e k outbuf positive = record {
  whole = refl;
  counted = omega arith;
  done = ground arith;
}

length-take : {A : Type 0} (n : ℕ) (xs : List A) → n ≤ length xs → length (take n xs) ≡ n
length-take zero xs h = refl
length-take (suc n) [] h = absurd (omega arith)
length-take (suc n) (x ∷ xs) h = omega (arith, length-take n xs)

-- The same holds when `write` has taken some of the buffer first.
taken-Progress :
    (n k : ℕ) (outbuf : Bytes) (w : Written)
    → suc n ≤ suc k
    → suc k ≤ length outbuf
    → Progress (drop (suc n) outbuf) (suc k - suc n) w
    → Progress outbuf (suc k) (taken (take (suc n) outbuf) w)
taken-Progress n k outbuf w within fits p = record {
  whole =
      append_assoc (take (suc n) outbuf) w.wire w.outbuf
      ∙ ap (◌++◌ (take (suc n) outbuf)) p.whole
      ∙ take-append-drop (suc n) outbuf;
  counted = omega (
    arith,
    length-append (take (suc n) outbuf) w.wire,
    length-take (suc n) outbuf (omega arith),
    p.counted,
  );
  done = p.done;
}

-- If `write` takes at least one byte and no more than it was given, or fails with an `errno` other than 0,
-- and in the end fails with anything but an interruption, `wruntil` returns. Then what it sent and what
-- is left make up the buffer, the count is right, and it reports 0 exactly when all was sent.
pub wruntil_lem :
    (errno e : ℕ) (answers : List Sent) (outbuf : Bytes) (towrite : ℕ)
    → 0 < e
    → e ≢ eintr
    → Honest towrite answers
    → towrite ≤ length outbuf
    → (w : Written) × (wruntil errno (answers ++ failed e ∷ []) outbuf towrite ≡ some w)
      × Progress outbuf towrite w
unfolding wruntil
wruntil_lem errno e answers outbuf zero positive other honest fits = (
  record { wire = []; outbuf = outbuf; towrite = 0; err = 0 },
  ground arith,
  record { whole = refl; counted = refl; done = ground arith },
)
wruntil_lem errno e [] outbuf (suc k) positive other honest fits = (
  record { wire = []; outbuf = outbuf; towrite = suc k; err = e },
  ground arith,
  stuck-Progress e k outbuf positive,
)
wruntil_lem errno e (sent zero ∷ answers) outbuf (suc k) positive other honest fits =
    absurd (omega (arith, honest.0))
wruntil_lem errno e (sent (suc n) ∷ answers) outbuf (suc k) positive other honest fits =
    let (w, run, p) =
      wruntil_lem errno e answers (drop (suc n) outbuf) (suc k - suc n) positive other honest.2
        (omega (arith, length-drop (suc n) outbuf, honest.1)) in
    (
      taken (take (suc n) outbuf) w,
      rw run refl,
      taken-Progress n k outbuf w (omega (arith, honest.1)) fits p,
    )
wruntil_lem errno e (failed d ∷ answers) outbuf (suc k) positive other honest fits =
    let (w, run, p) = wruntil_lem d e answers outbuf (suc k) positive other honest.1 fits in
    elim (Bool-cases (d == eintr)) [
      | inl again ↦ (w, rw again run, p)
      | inr stop ↦ (
        record { wire = []; outbuf = outbuf; towrite = suc k; err = d },
        rw stop refl,
        stuck-Progress d k outbuf honest.0,
      )
    ]

-- Whenever `wruntil` returns, after honest answers, what it sent and what is left make up the buffer.
pub wruntil-Progress :
    (errno : ℕ) (answers : List Sent) (outbuf : Bytes) (towrite : ℕ) (w : Written)
    → Honest towrite answers
    → towrite ≤ length outbuf
    → wruntil errno answers outbuf towrite ≡ some w
    → Progress outbuf towrite w
unfolding wruntil
wruntil-Progress errno answers outbuf zero w honest fits run =
    subst (Progress outbuf 0) (some-injective _ _ run)
      (record { whole = refl; counted = refl; done = ground arith })
wruntil-Progress errno [] outbuf (suc k) w honest fits run = absurd cc
wruntil-Progress errno (sent zero ∷ answers) outbuf (suc k) w honest fits run =
    absurd (omega (arith, honest.0))
wruntil-Progress errno (sent (suc n) ∷ answers) outbuf (suc k) w honest fits run =
    let (v, went, same) =
      (Option.map-eq-some_iff (taken (take (suc n) outbuf))
          (wruntil errno answers (drop (suc n) outbuf) (suc k - suc n))).0
        run in
    subst (Progress outbuf (suc k)) same (
      taken-Progress n k outbuf v (omega (arith, honest.1)) fits (
        wruntil-Progress errno answers (drop (suc n) outbuf) (suc k - suc n) v honest.2
          (omega (arith, length-drop (suc n) outbuf, honest.1)) went))
wruntil-Progress errno (failed d ∷ answers) outbuf (suc k) w honest fits run =
    elim (Bool-cases (d == eintr)) [
      | inl again ↦
          wruntil-Progress d answers outbuf (suc k) w honest.1 fits (sym (if_true _ _ again) ∙ run)
      | inr stop ↦
          subst (Progress outbuf (suc k)) (some-injective _ _ (sym (if_false _ _ stop) ∙ run))
            (stuck-Progress d k outbuf honest.0)
    ]

-- a socket that takes all that it is given, in pieces of some length
abbrev pub pieces : List ℕ → List Sent
pieces [] = []
pieces (n ∷ ns) = sent n ∷ pieces ns

abbrev pub SumsTo : ℕ → List ℕ → Type 0
SumsTo k [] = k ≡ 0
SumsTo k (n ∷ ns) = (0 < n) × (n ≤ k) × SumsTo (k - n) ns

pub pieces-Honest : (k : ℕ) (ns : List ℕ) → SumsTo k ns → Honest k (pieces ns)
pieces-Honest k [] sums = tt
pieces-Honest k (n ∷ ns) sums = (sums.0, sums.1, pieces-Honest (k - n) ns sums.2)

-- Then one call sends everything.
pub wruntil_all :
    (errno : ℕ) (ns : List ℕ) (outbuf : Bytes) (towrite : ℕ)
    → SumsTo towrite ns
    → (w : Written) × (wruntil errno (pieces ns) outbuf towrite ≡ some w) × (w.towrite ≡ 0)
unfolding wruntil
wruntil_all errno ns outbuf zero sums =
    (record { wire = []; outbuf = outbuf; towrite = 0; err = 0 }, refl, refl)
wruntil_all errno [] outbuf (suc k) sums = absurd (omega (arith, sums))
wruntil_all errno (zero ∷ ns) outbuf (suc k) sums = absurd (omega (arith, sums.0))
wruntil_all errno (suc n ∷ ns) outbuf (suc k) sums =
    let (w, run, none_left) = wruntil_all errno ns (drop (suc n) outbuf) (suc k - suc n) sums.2 in
    (taken (take (suc n) outbuf) w, ap (Option.map (taken (take (suc n) outbuf))) run, none_left)
