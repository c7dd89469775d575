-- ===== src/Http/Lines/Print.antt =====
-- Printing headers and reading them back: `operator<<` and `operator>>` of src/HTTP_parsing.cpp.
use mathlib.Core.List.{lookup}
use filth.Base.Maps.{insert, lookup-insert}
use filth.Base.Text.{Bytes, includes}
use filth.Base.{
  ℕ, ◌≡◌, ◌≢◌, ◌<◌, ◌≤◌, refl, sym, ap, subst, ◌∙◌, true, false, some, List, [], ◌∷◌, ◌++◌,
  append_assoc, length, arith, ◌⊎◌, inl, inr, List-cases, All,
}
use filth.Http.Lines.{
  Slot, request_line, field, Slot-discrete, header_of, Hdrs, store_line, complete, HeaderRead,
  read_headers, line_at, crlf, print_slots, print_hdrs, all_slots,
}
use filth.Http.Lines.Block.{Line, block, store_all, read_headers-block}
use filth.Http.Request.Line.{http_version}

-- The line is one that `operator>>` puts into this slot.
abbrev pub InPlace : Slot → Bytes → Type 0
InPlace request_line line = includes http_version line ≡ true
InPlace (field h) line = (includes http_version line ≡ false) × (header_of line ≡ some h)

-- The slot is empty, or its line can be printed and read.
abbrev pub Printable : ℕ → Hdrs → Slot → Type 0
Printable max_line_len hdrs s =
    (line_at s hdrs ≡ []) ⊎ (Line max_line_len (line_at s hdrs) × InPlace s (line_at s hdrs))

-- the lines that are printed
unfoldable pub lines_of : List Slot → Hdrs → List Bytes
lines_of [] hdrs = []
lines_of (s ∷ slots) hdrs = elim (line_at s hdrs) [
  | [] ↦ lines_of slots hdrs
  | c ∷ line ↦ (c ∷ line) ∷ lines_of slots hdrs
]

abbrev In : Slot → List Slot → Type 0
In s [] = ⊥
In s (x ∷ slots) = (s ≡ x) ⊎ In s slots

store_line-InPlace :
    (s : Slot) (line : Bytes) (hdrs : Hdrs)
    → InPlace s line
    → store_line line hdrs ≡ insert Slot-discrete s line hdrs
unfolding store_line
store_line-InPlace request_line line hdrs p = rw (p, store_line) refl
store_line-InPlace (field h) line hdrs p = rw (p.0, p.1, store_line) refl

line_at-insert_same :
    (s : Slot) (line : Bytes) (hdrs : Hdrs) → line_at s (insert Slot-discrete s line hdrs) ≡ line
unfolding line_at
line_at-insert_same s line hdrs =
    rw (line_at, lookup-insert Slot-discrete s s line hdrs) (ground arith)

line_at-insert_other :
    (s k : Slot) (line : Bytes) (hdrs : Hdrs)
    → s ≢ k
    → line_at s (insert Slot-discrete k line hdrs) ≡ line_at s hdrs
unfolding line_at
line_at-insert_other s k line hdrs other =
    rw (line_at, lookup-insert Slot-discrete s k line hdrs) (ground arith)

pub block-lines_of :
    (slots : List Slot) (hdrs : Hdrs) → print_slots slots hdrs ++ crlf ≡ block (lines_of slots hdrs)
unfolding print_slots lines_of
block-lines_of [] hdrs = refl
block-lines_of (s ∷ slots) hdrs = elim (List-cases (line_at s hdrs)) [
  | inl e ↦ rw (e, print_slots, lines_of) (block-lines_of slots hdrs)
  | inr (c, line, e) ↦
      rw (e, print_slots, lines_of)
        (append_assoc ((c ∷ line) ++ crlf) (print_slots slots hdrs) crlf
          ∙ ap (◌++◌ ((c ∷ line) ++ crlf)) (block-lines_of slots hdrs)
          ∙ append_assoc (c ∷ line) crlf (block (lines_of slots hdrs)))
]

-- what is read back so far agrees with the headers at `s`, or `s` is still to come
abbrev Agrees : Slot → List Slot → Hdrs → Hdrs → Type 0
Agrees s slots acc hdrs = (line_at s acc ≡ line_at s hdrs) ⊎ ((line_at s acc ≡ []) × In s slots)

stored-Agrees :
    (s x : Slot) (slots : List Slot) (acc hdrs : Hdrs)
    → Agrees s (x ∷ slots) acc hdrs
    → Agrees s slots (insert Slot-discrete x (line_at x hdrs) acc) hdrs
stored-Agrees s x slots acc hdrs agrees = elim (Slot-discrete s x) [
  | Dec.yes e ↦ inl (
      subst (λ y. line_at s (insert Slot-discrete y (line_at y hdrs) acc) ≡ line_at s hdrs) e
        (line_at-insert_same s (line_at s hdrs) acc))
  | Dec.no other ↦
      let kept = line_at-insert_other s x (line_at x hdrs) acc other in
      elim agrees [
        | inl e ↦ inl (kept ∙ e)
        | inr (e, inl here) ↦ absurd (other here)
        | inr (e, inr there) ↦ inr (kept ∙ e, there)
      ]
]

skipped-Agrees :
    (s x : Slot) (slots : List Slot) (acc hdrs : Hdrs)
    → line_at x hdrs ≡ []
    → Agrees s (x ∷ slots) acc hdrs
    → Agrees s slots acc hdrs
skipped-Agrees s x slots acc hdrs empty (inl e) = inl e
skipped-Agrees s x slots acc hdrs empty (inr (e, inl here)) =
    inl (e ∙ sym empty ∙ ap (λ y. line_at y hdrs) (sym here))
skipped-Agrees s x slots acc hdrs empty (inr (e, inr there)) = inr (e, there)

-- A line that stands in its slot is stored there again.
printed-InPlace :
    (max_line_len : ℕ) (x : Slot) (hdrs : Hdrs) (c : ℕ) (line : Bytes)
    → Printable max_line_len hdrs x
    → line_at x hdrs ≡ c ∷ line
    → Line max_line_len (line_at x hdrs) × InPlace x (line_at x hdrs)
printed-InPlace max_line_len x hdrs c line (inl empty) e = absurd cc
printed-InPlace max_line_len x hdrs c line (inr p) e = p

line_at-store_all :
    (max_line_len : ℕ) (s : Slot) (slots : List Slot) (acc hdrs : Hdrs)
    → All (Printable max_line_len hdrs) slots
    → Agrees s slots acc hdrs
    → line_at s (store_all (lines_of slots hdrs) acc) ≡ line_at s hdrs
unfolding lines_of
line_at-store_all max_line_len s [] acc hdrs good (inl e) = e
line_at-store_all max_line_len s [] acc hdrs good (inr (e, there)) = absurd there
line_at-store_all max_line_len s (x ∷ slots) acc hdrs good agrees =
    elim (List-cases (line_at x hdrs)) [
      | inl e ↦
          rw (e, lines_of)
            (line_at-store_all max_line_len s slots acc hdrs good.1
              (skipped-Agrees s x slots acc hdrs e agrees))
      | inr (c, line, e) ↦
          let p = printed-InPlace max_line_len x hdrs c line good.0 e in
          rw (e, lines_of)
            (ap (λ h. line_at s (store_all (lines_of slots hdrs) h))
                (ap (λ y. store_line y acc) (sym e) ∙ store_line-InPlace x (line_at x hdrs) acc p.1)
              ∙ line_at-store_all max_line_len s slots (insert Slot-discrete x (line_at x hdrs) acc)
                  hdrs good.1 (stored-Agrees s x slots acc hdrs agrees))
    ]

pub lines_of-Line :
    (max_line_len : ℕ) (slots : List Slot) (hdrs : Hdrs)
    → All (Printable max_line_len hdrs) slots
    → All (Line max_line_len) (lines_of slots hdrs)
unfolding lines_of
lines_of-Line max_line_len [] hdrs good = tt
lines_of-Line max_line_len (x ∷ slots) hdrs good = elim (List-cases (line_at x hdrs)) [
  | inl e ↦ rw (e, lines_of) (lines_of-Line max_line_len slots hdrs good.1)
  | inr (c, line, e) ↦
      let p = printed-InPlace max_line_len x hdrs c line good.0 e in
      rw (e, lines_of)
        (subst (Line max_line_len) e p.0, lines_of-Line max_line_len slots hdrs good.1)
]

length-lines_of : (slots : List Slot) (hdrs : Hdrs) → length (lines_of slots hdrs) ≤ length slots
unfolding lines_of
length-lines_of [] hdrs = omega arith
length-lines_of (x ∷ slots) hdrs = elim (List-cases (line_at x hdrs)) [
  | inl e ↦ rw (e, lines_of) (omega (arith, length-lines_of slots hdrs))
  | inr (c, line, e) ↦ rw (e, lines_of) (omega (arith, length-lines_of slots hdrs))
]

line_at-nil : (s : Slot) → line_at s [] ≡ []
unfolding line_at lookup
line_at-nil s = refl

all_of-In : {P : Slot → Type 0} (slots : List Slot) → ((s : Slot) → In s slots → P s) → All P slots
all_of-In [] each = tt
all_of-In (x ∷ slots) each = (each x (inl refl), all_of-In slots (λ s there. each s (inr there)))

-- Headers that are printed are read back: every slot has its line again, and what follows the headers
-- stays unread.
pub read_headers-print_hdrs :
    (fuel max_line_len : ℕ) (hdrs : Hdrs) (tail : Bytes)
    → All (Printable max_line_len hdrs) all_slots
    → length all_slots < fuel
    → (r : HeaderRead) × (read_headers fuel max_line_len (print_hdrs hdrs ++ tail) [] ≡ some r)
      × (r.outcome ≡ complete)
      × (r.unread ≡ tail)
      × All (λ s. line_at s r.hdrs ≡ line_at s hdrs) all_slots
unfolding print_hdrs
read_headers-print_hdrs fuel max_line_len hdrs tail good enough = (
  record { outcome = complete; unread = tail; hdrs = store_all (lines_of all_slots hdrs) [] },
  ap (λ x. read_headers fuel max_line_len (x ++ tail) []) (block-lines_of all_slots hdrs)
      ∙ read_headers-block fuel max_line_len (lines_of all_slots hdrs) tail []
          (lines_of-Line max_line_len all_slots hdrs good)
          (omega (arith, length-lines_of all_slots hdrs)),
  refl,
  refl,
  all_of-In all_slots (λ s there.
      line_at-store_all max_line_len s all_slots [] hdrs good (inr (line_at-nil s, there))),
)
