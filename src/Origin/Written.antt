-- ===== src/Origin/Written.antt =====
-- What `putorpost` of src/HTTP_Origin_Server.cpp leaves of a file.
use mathlib.Core.Option
use filth.Base.Text.{Bytes}
use filth.Base.{
  ℕ, zero, suc, ◌+◌, ◌≤◌, ◌<◌, ◌≡◌, refl, sym, ap, ◌∙◌, Bool, true, false, not, Option, none, some,
  List, [], ◌∷◌, ◌++◌, append_assoc, append-nil, length, length-append, take, drop,
  take-append-drop, length-drop, Bool-cases, ==_iff, inl, inr, subst, arith, ◌==◌, if◌then◌else◌,
  if_true, if_false, pos→==,
}
use filth.Http.Constants.{identity, gzip}
use filth.Int.{ℤ}
use filth.Origin.Files.{regular, file_is}
use filth.Origin.Put.{
  enomem, Writing, wrote, write_loop, Try, opened, Put, leave, fopen, put_tries, writing, untouched,
  put_coded, putorpost, TakesAll,
}

nil_of_length : (x : Bytes) → length x ≡ 0 → x ≡ []
nil_of_length [] h = refl
nil_of_length (c ∷ x) h = absurd (omega arith)

abbrev all_written : Writing → Writing
all_written w = record { file = w.file ++ w.left; left = []; moved = w.moved + length w.left }

length-take : (n : ℕ) (x : Bytes) → n ≤ length x → length (take n x) ≡ n
length-take n x h =
    omega (
      arith,
      length-append (take n x) (drop n x),
      ap length (take-append-drop n x),
      length-drop n x,
    )

all_written-nil : (w : Writing) → length w.left ≡ 0 → w ≡ all_written w
all_written-nil w h =
    let e = nil_of_length w.left h in
    let file : w.file ≡ w.file ++ w.left = sym (append-nil w.file) ∙ ap (◌++◌ w.file) (sym e) in
    let moved : w.moved ≡ w.moved + length w.left = omega (arith, h) in
    λ i. record { file = file i; left = e i; moved = moved i }

all_written-wrote :
    (n : ℕ) (w : Writing) → n ≤ length w.left → all_written (wrote n w) ≡ all_written w
all_written-wrote n w within =
    let file : (w.file ++ take n w.left) ++ drop n w.left ≡ w.file ++ w.left =
      append_assoc w.file (take n w.left) (drop n w.left)
      ∙ ap (◌++◌ w.file) (take-append-drop n w.left) in
    let moved : w.moved + n + length (drop n w.left) ≡ w.moved + length w.left =
      omega (arith, length-drop n w.left, within) in
    λ i. record { file = file i; left = []; moved = moved i }

write_loop_all :
    (ns : List ℕ) (w : Writing)
    → TakesAll (length w.left) ns
    → write_loop ns w ≡ some (all_written w)
unfolding write_loop
write_loop_all [] w takes = if_true _ _ (ap (λ n. n == 0) takes) ∙ ap some (all_written-nil w takes)
write_loop_all (n ∷ ns) w takes = elim (Bool-cases (length w.left == 0)) [
  | inl none_left ↦
      if_true _ _ none_left ∙ ap some (all_written-nil w ((==_iff (length w.left) 0).0 none_left))
  | inr more ↦
      if_false _ _ more
      ∙ write_loop_all ns (wrote n w)
          (subst (λ k. TakesAll k ns) (sym (length-drop n w.left)) takes.1)
      ∙ ap some (all_written-wrote n w takes.0)
]

-- what a round leaves that writes everything
round_done :
    (allocated truncates ferror : Bool) (ns : List ℕ) (tries : List Try) (w : Writing)
    → TakesAll (length w.left) ns
    → put_tries allocated truncates (opened ns ferror ∷ tries) w ≡ (
        if ferror
        then put_tries allocated truncates tries (all_written (fopen truncates w))
        else some (leave allocated 0 (all_written (fopen truncates w))))
unfolding put_tries Option.bind
round_done allocated truncates ferror ns tries w takes =
    ap
      (λ o. Option.bind o (λ w'.
        if ferror then put_tries allocated truncates tries w' else some (leave allocated 0 w')))
      (write_loop_all ns (fopen truncates w) takes)

-- A body that is compressed is written uncompressed, and then `delete[]` gets a pointer behind it, unless
-- it is empty.
pub putorpost_gzip :
    (uncompress : Bytes → Option Bytes) (size : ℕ) (mtime : ℤ) (truncates : Bool) (ns : List ℕ)
    (tries : List Try) (contents file tmp : Bytes)
    → uncompress contents ≡ some tmp
    → TakesAll (length tmp) ns
    → putorpost uncompress
        (file_is regular size mtime)
        gzip
        truncates
        (opened ns false ∷ tries)
        contents
        file
      ≡ some (record {
        result = 0;
        file = (if truncates then [] else file) ++ tmp;
        bad_delete = not (length tmp == 0);
      })
unfolding putorpost put_coded leave
putorpost_gzip uncompress size mtime truncates ns tries contents file tmp plain takes =
    ap
      (λ (o : Option Bytes). elim o as (λ _. Option Put) [
        | none ↦ some (untouched enomem file)
        | some tmp' ↦ put_tries true truncates (opened ns false ∷ tries) (writing file tmp')
      ])
      plain
    ∙ round_done true truncates false ns tries (writing file tmp) takes
    ∙ ap
        (λ n. some (record {
          result = 0;
          file = (if truncates then [] else file) ++ tmp;
          bad_delete = not (n == 0);
        }))
        all_moved
  where
    all_moved : 0 + length tmp ≡ length tmp
    all_moved = omega arith

-- After an error that `ferror` finds, the file is opened again, which empties it under the mode "w", but
-- nothing is written any more: the call reports success, and the body is lost.
pub putorpost_again :
    (uncompress : Bytes → Option Bytes) (size : ℕ) (mtime : ℤ) (ns ns' : List ℕ) (tries : List Try)
    (contents file : Bytes)
    → TakesAll (length contents) ns
    → TakesAll 0 ns'
    → putorpost uncompress
        (file_is regular size mtime)
        identity
        true
        (opened ns true ∷ opened ns' false ∷ tries)
        contents
        file
      ≡ some (untouched 0 [])
unfolding putorpost put_coded leave
putorpost_again uncompress size mtime ns ns' tries contents file takes takes' =
    round_done false true true ns (opened ns' false ∷ tries) (writing file contents) takes
    ∙ round_done false true false ns' tries (all_written (fopen true (writing file contents)))
        takes'

abbrev pub zero_writes : ℕ → List ℕ
zero_writes zero = []
zero_writes (suc n) = 0 ∷ zero_writes n

-- Writes that take nothing, as on a full disk, keep the loop going for ever: it ends on no number of them.
pub write_loop_endless :
    (k : ℕ) (w : Writing) → 0 < length w.left → write_loop (zero_writes k) w ≡ none
unfolding write_loop
write_loop_endless zero w more = if_false _ _ (pos→== _ more)
write_loop_endless (suc k) w more =
    if_false _ _ (pos→== _ more) ∙ write_loop_endless k (wrote 0 w) more
