-- ===== src/Work/Read.antt =====
-- The two `Work::rduntil` of src/Work.cpp. Both append with functions that stop at a 0 byte.
use filth.Base.{
  ℕ, zero, suc, ◌+◌, ◌-◌, ◌^◌, ◌<◌, ◌≡◌, ◌≢◌, refl, ap, ap₂, ◌∙◌, Bool, true, false, Option, none,
  some, List, [], ◌∷◌, ◌++◌, append_assoc, append-nil, length, length-append, arith, ◌==◌,
  if◌then◌else◌,
}
use filth.Base.Text.{Bytes}
use filth.Base.Words.{sub64}
use filth.Work.Write.{eintr}

-- one call of `read`: the bytes, the end of the stream, or -1 and what it left in `errno`
pub data Got : Type 0 where
  got : ℕ → Bytes → Got
  end_of_file : Got
  failed : ℕ → Got

-- what `operator<<` and `append` take of a C string
unfoldable pub c_string : Bytes → Bytes
c_string [] = []
c_string (c ∷ x) = let rest = c_string x in if c == 0 then [] else c ∷ rest

-- `rduntil(ostream &, ...)`: the stream and the result
unfoldable pub rduntil : ℕ → List Got → Bytes → Option (Bytes × ℕ)
rduntil errno [] inbuf = none
rduntil errno (got c x ∷ answers) inbuf = rduntil errno answers (inbuf ++ c_string (c ∷ x))
rduntil errno (end_of_file ∷ answers) inbuf = some (inbuf, errno)
rduntil errno (failed e ∷ answers) inbuf =
    let rest = rduntil e answers inbuf in if e == eintr then rest else some (inbuf, e)

-- `rduntil(string &, ..., size_t &)`: the text, `tord` and the result
unfoldable pub rduntil_body : ℕ → List Got → Bytes → ℕ → Option (Bytes × ℕ × ℕ)
rduntil_body errno answers s zero = some (s, 0, 0)
rduntil_body errno [] s (suc k) = none
rduntil_body errno (got c x ∷ answers) s (suc k) =
    rduntil_body errno answers (s ++ c_string (c ∷ x)) (sub64 (suc k) (length (c ∷ x)))
rduntil_body errno (end_of_file ∷ answers) s (suc k) = some (s, suc k, errno)
rduntil_body errno (failed e ∷ answers) s (suc k) =
    let rest = rduntil_body e answers s (suc k) in if e == eintr then rest else some (s, suc k, e)

-- Text has no 0 byte.
unfoldable pub no_null : Bytes → Bool
no_null [] = true
no_null (c ∷ x) = let rest = no_null x in if c == 0 then false else rest

pub c_string-no_null : (x : Bytes) → no_null x ≡ true → c_string x ≡ x
unfolding c_string no_null
c_string-no_null [] h = refl
c_string-no_null (c ∷ x) h = ground (arith, c_string-no_null x)

-- the pieces in which a body comes in, none of them empty
abbrev pub Pieces : Type 0
Pieces = List (ℕ × Bytes)

abbrev pub joined : Pieces → Bytes
joined [] = []
joined (p ∷ ps) = (p.0 ∷ p.1) ++ joined ps

abbrev pub answers_of : Pieces → List Got
answers_of [] = []
answers_of (p ∷ ps) = got p.0 p.1 ∷ answers_of ps

pub no_null-append_left : (x y : Bytes) → no_null (x ++ y) ≡ true → no_null x ≡ true
unfolding no_null
no_null-append_left [] y h = refl
no_null-append_left (c ∷ x) y h = ground (arith, no_null-append_left x y)

no_null-append_right : (x y : Bytes) → no_null (x ++ y) ≡ true → no_null y ≡ true
unfolding no_null
no_null-append_right [] y h = h
no_null-append_right (c ∷ x) y h = ground (arith, no_null-append_right x y)

-- Text that comes in, in whatever pieces, until `read` fails, is appended whole.
pub rduntil_lem :
    (errno e : ℕ) (ps : Pieces) (inbuf : Bytes)
    → e ≢ eintr
    → no_null (joined ps) ≡ true
    → rduntil errno (answers_of ps ++ failed e ∷ []) inbuf ≡ some (inbuf ++ joined ps, e)
unfolding rduntil
rduntil_lem errno e [] inbuf other text = ground (arith, append-nil inbuf)
rduntil_lem errno e ((c, x) ∷ ps) inbuf other text =
    ap (λ y. rduntil errno (answers_of ps ++ failed e ∷ []) (inbuf ++ y))
      (c_string-no_null (c ∷ x) (no_null-append_left (c ∷ x) (joined ps) text))
    ∙ rduntil_lem errno e ps (inbuf ++ c ∷ x) other (no_null-append_right (c ∷ x) (joined ps) text)
    ∙ ap (λ y. some (y, e)) (append_assoc inbuf (c ∷ x) (joined ps))

abbrev read_all : Bytes → Option (Bytes × ℕ × ℕ)
read_all s = some (s, 0, 0)

-- A body of text that comes in exactly, in whatever pieces, is read whole, and the call reports 0.
pub rduntil_body_exact :
    (errno tord : ℕ) (ps : Pieces) (s : Bytes)
    → length (joined ps) ≡ tord
    → tord < 2 ^ 64
    → no_null (joined ps) ≡ true
    → rduntil_body errno (answers_of ps) s tord ≡ some (s ++ joined ps, 0, 0)
unfolding rduntil_body
rduntil_body_exact errno zero [] s len small text = ap_nil
  where
    ap_nil : rduntil_body errno [] s 0 ≡ some (s ++ [], 0, 0)
    ap_nil = rw (append-nil s) refl
rduntil_body_exact errno (suc k) [] s len small text = absurd (omega arith)
rduntil_body_exact errno zero (p ∷ ps) s len small text = absurd (omega arith)
rduntil_body_exact errno (suc k) ((c, x) ∷ ps) s len small text =
    let now = c_string-no_null (c ∷ x) (no_null-append_left (c ∷ x) (joined ps) text) in
    let left : sub64 (suc k) (length (c ∷ x)) ≡ length (joined ps) =
      ground (arith, length-append (c ∷ x) (joined ps)) in
    ap₂ (λ y n. rduntil_body errno (answers_of ps) (s ++ y) n) now left
    ∙ rduntil_body_exact errno (length (joined ps)) ps (s ++ c ∷ x) refl
        (omega (arith, length-append (c ∷ x) (joined ps)))
        (no_null-append_right (c ∷ x) (joined ps) text)
    ∙ ap (λ y. read_all y) (append_assoc s (c ∷ x) (joined ps))

after_overrun :
    (errno e m n : ℕ) (s : Bytes)
    → e ≢ eintr
    → n ≡ m
    → 0 < m
    → rduntil_body errno (failed e ∷ []) s n ≡ some (s, m, e)
unfolding rduntil_body
after_overrun errno e m zero s other h positive = absurd (omega arith)
after_overrun errno e m (suc n) s other h positive = ground arith

-- A client that sends more than it announced, as one that pipelines does, makes the count wrap: the
-- call reports an error, and the bytes still to read are nearly 2^64.
pub rduntil_body_overrun :
    (errno e tord c : ℕ) (x s : Bytes)
    → 0 < tord
    → tord < length (c ∷ x)
    → length (c ∷ x) < 2 ^ 64
    → e ≢ eintr
    → rduntil_body errno (got c x ∷ failed e ∷ []) s tord
      ≡ some (s ++ c_string (c ∷ x), tord + 2 ^ 64 - length (c ∷ x), e)
unfolding rduntil_body
rduntil_body_overrun errno e zero c x s some_left over small other = absurd (omega arith)
rduntil_body_overrun errno e (suc k) c x s some_left over small other =
    after_overrun errno e (suc k + 2 ^ 64 - length (c ∷ x)) (sub64 (suc k) (length (c ∷ x)))
      (s ++ c_string (c ∷ x)) other (ground arith) (omega arith)
