-- ===== src/Http/Lines/Block.antt =====
-- Blocks of header lines: reading comes to an end, reads back what was written, and what it does
-- where the text breaks off.
use filth.Base.Text.{Bytes, lacks, split_at, split_at-append, split_at-lacks}
use filth.Base.{
  ℕ, zero, suc, ◌<◌, ◌≡◌, ◌≢◌, refl, true, false, Option, some, List, [], ◌∷◌, ◌++◌, append_assoc,
  length, arith, Bool-cases, Option-cases, inl, inr, All,
}
use filth.Http.Lines.{
  Hdrs, store_line, complete, partial, refused, HeaderRead, newline, too_long, seek_back, read_last,
  read_line, read_headers, crlf,
}

length-split_at : (c : ℕ) (x a b : Bytes) → split_at c x ≡ some (a, b) → length b < length x
unfolding split_at
length-split_at c [] a b e = absurd cc
length-split_at c (d ∷ x) a b e = elim (Option-cases (split_at c x)) [
  | inl out ↦ ground arith
  | inr ((a', b'), there) ↦ ground (arith, length-split_at c x a' b' there)
]

length-newline : (x y : Bytes) → newline x ≡ some y → length y < length x
unfolding newline
length-newline [] y e = absurd cc
length-newline (c ∷ x) y e = ground arith

line_total :
    (again : Bytes → Hdrs → Option HeaderRead) (max_line_len : ℕ) (line rest : Bytes) (hdrs : Hdrs)
    → ((y : Bytes) (h : Hdrs) → length y < length rest → (r : HeaderRead) × (again y h ≡ some r))
    → (r : HeaderRead) × (read_line again max_line_len line rest hdrs ≡ some r)
unfolding read_line
line_total again max_line_len [] rest hdrs later = elim (Option-cases (newline rest)) [
  | inl out ↦ (record { outcome = partial; unread = rest; hdrs = hdrs }, rw (out, read_line) refl)
  | inr (y, there) ↦
      (record { outcome = complete; unread = y; hdrs = hdrs }, rw (there, read_line) refl)
]
line_total again max_line_len (c ∷ line) rest hdrs later =
    elim (Bool-cases (too_long max_line_len (c ∷ line))) [
      | inl long ↦
          (record { outcome = refused; unread = rest; hdrs = hdrs }, rw (long, read_line) refl)
      | inr fits ↦ elim (Option-cases (newline rest)) [
        | inl out ↦ (
          record { outcome = partial; unread = seek_back (c ∷ line) rest; hdrs = hdrs },
          rw (fits, out, read_line) refl,
        )
        | inr (y, there) ↦
            let (r, run) = later y (store_line (c ∷ line) hdrs) (length-newline rest y there) in
            (r, rw (fits, there, read_line) run)
      ]
    ]

-- Reading always comes to an end: one unit of fuel for each byte, and one more, is enough.
pub read_headers_total :
    (fuel max_line_len : ℕ) (x : Bytes) (hdrs : Hdrs)
    → length x < fuel
    → (r : HeaderRead) × (read_headers fuel max_line_len x hdrs ≡ some r)
unfolding read_headers
read_headers_total zero max_line_len x hdrs enough = absurd (omega arith)
read_headers_total (suc fuel) max_line_len x hdrs enough = elim (Option-cases (split_at 13 x)) [
  | inl out ↦ (read_last max_line_len x hdrs, rw (out, read_headers) refl)
  | inr ((line, rest), there) ↦
      let (r, run) =
        line_total (read_headers fuel max_line_len) max_line_len line rest hdrs (λ y h shorter.
          read_headers_total fuel max_line_len y h
            (omega (arith, length-split_at 13 x line rest there))) in
      (r, rw (there, read_headers) run)
]

-- A line as it stands in a block: it has text, no `\r`, and is not too long.
abbrev pub Line : ℕ → Bytes → Type 0
Line max_line_len line = (line ≢ []) × (lacks 13 line ≡ true) × (too_long max_line_len line ≡ false)

abbrev pub block : List Bytes → Bytes
block [] = crlf
block (line ∷ lines) = line ++ 13 ∷ 10 ∷ block lines

abbrev pub store_all : List Bytes → Hdrs → Hdrs
store_all [] hdrs = hdrs
store_all (line ∷ lines) hdrs = store_all lines (store_line line hdrs)

-- A whole block is read line by line, and what follows it stays unread, whatever that is.
pub read_headers-block :
    (fuel max_line_len : ℕ) (lines : List Bytes) (tail : Bytes) (hdrs : Hdrs)
    → All (Line max_line_len) lines
    → length lines < fuel
    → read_headers fuel max_line_len (block lines ++ tail) hdrs
      ≡ some (record { outcome = complete; unread = tail; hdrs = store_all lines hdrs })
unfolding read_headers read_line newline split_at
read_headers-block zero max_line_len lines tail hdrs good enough = absurd (omega arith)
read_headers-block (suc fuel) max_line_len [] tail hdrs good enough = refl
read_headers-block (suc fuel) max_line_len ([] ∷ lines) tail hdrs good enough =
    absurd (good.0.0 refl)
read_headers-block (suc fuel) max_line_len ((c ∷ line) ∷ lines) tail hdrs good enough =
    rw (append_assoc (c ∷ line) (13 ∷ 10 ∷ block lines) tail) (
      ground (
        arith,
        split_at-append 13 (c ∷ line) (10 ∷ block lines ++ tail) good.0.1,
        read_headers-block fuel max_line_len lines tail (store_line (c ∷ line) hdrs) good.1
            (omega arith),
        good.0.2,
      ))

-- Text that breaks off before the end of a line is kept for the next attempt.
pub read_headers_partial :
    (fuel max_line_len : ℕ) (x : Bytes) (hdrs : Hdrs)
    → lacks 13 x ≡ true
    → too_long max_line_len x ≡ false
    → read_headers (suc fuel) max_line_len x hdrs
      ≡ some (record { outcome = partial; unread = x; hdrs = hdrs })
unfolding read_headers read_last
read_headers_partial fuel max_line_len x hdrs whole fits =
    rw (split_at-lacks 13 x whole, fits, read_headers, read_last) refl

-- But where it breaks off between the two bytes of a line's end, the first byte of the line is lost.
pub read_headers_torn :
    (fuel max_line_len c : ℕ) (line : Bytes) (hdrs : Hdrs)
    → lacks 13 (c ∷ line) ≡ true
    → too_long max_line_len (c ∷ line) ≡ false
    → read_headers (suc fuel) max_line_len (c ∷ line ++ 13 ∷ []) hdrs
      ≡ some (record { outcome = partial; unread = line ++ 13 ∷ []; hdrs = hdrs })
unfolding read_headers read_line newline seek_back
read_headers_torn fuel max_line_len c line hdrs whole fits =
    rw (split_at-append 13 (c ∷ line) [] whole, fits, read_headers, read_line) refl
