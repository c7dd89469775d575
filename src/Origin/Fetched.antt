-- ===== src/Origin/Fetched.antt =====
-- What `request` of src/HTTP_Origin_Server.cpp makes of a file.
use mathlib.Core.Option
use filth.Base.Text.{Bytes}
use filth.Base.{
  ℕ, ◌-◌, ◌<◌, ◌≡◌, refl, sym, ap, ◌∙◌, Bool, true, false, not, Option, none, some, List, [], ◌∷◌,
  ◌++◌, append_assoc, append-nil, length, length-append, arith, ◌==◌, if◌then◌else◌, if_true,
  if_false, pos→==, Bool-cases, ==_iff, inl, inr,
}
use filth.Http.Constants.{gzip}
use filth.Http.Entry.{CacheEntry, new_entry}
use filth.Int.{ℤ}
use filth.Origin.Files.{regular, file_is}
use filth.Origin.Put.{enomem}
use filth.Origin.Request.{
  read_loop, opened, Round, Requested, refused_with, Rest, make_entry, access_file, access_stat,
  request_rounds, request,
}

-- the chunks make up the file, none of them too long
abbrev pub joined : List Bytes → Bytes
joined [] = []
joined (x ∷ xs) = x ++ joined xs

nil_of_length : (x : Bytes) → length x ≡ 0 → x ≡ []
nil_of_length [] h = refl
nil_of_length (c ∷ x) h = absurd (omega arith)

read_loop_all :
    (xs : List Bytes) (got : Bytes) (n : ℕ)
    → length (joined xs) ≡ n
    → read_loop xs (record { got = got; toread = n })
      ≡ some (record { got = got ++ joined xs; toread = 0 })
unfolding read_loop
read_loop_all [] got n h =
    if_true _ _ (ap (λ k. k == 0) (sym h))
    ∙ (λ i. some (record { got = sym (append-nil got) i; toread = sym h i }))
read_loop_all (x ∷ xs) got n h = elim (Bool-cases (n == 0)) [
  | inl none_left ↦
      let zero_n = (==_iff n 0).0 none_left in
      let e : joined (x ∷ xs) ≡ [] = nil_of_length (joined (x ∷ xs)) (h ∙ zero_n) in
      if_true _ _ none_left ∙ (λ i.
        some (record { got = (sym (append-nil got) ∙ ap (◌++◌ got) (sym e)) i; toread = zero_n i }))
  | inr more ↦
      if_false _ _ more
      ∙ read_loop_all xs (got ++ x) (n - length x) (omega (arith, h, length-append x (joined xs)))
      ∙ ap (λ y. some (record { got = y; toread = 0 })) (append_assoc got x (joined xs))
]

-- a round in which the file is read whole
abbrev pub whole_round : ℕ → ℤ → List Bytes → Bool → Round
whole_round size mtime xs ferror = record {
  stat = file_is regular size mtime;
  access = opened xs ferror;
}

round_read :
    (s : Rest) (mtime : ℤ) (xs : List Bytes) (ferror bad : Bool) (rs : List Round)
    → request_rounds s (whole_round (length (joined xs)) mtime xs ferror ∷ rs) bad ≡ (
        if ferror
        then request_rounds s rs (if length (joined xs) == 0 then bad else true)
        else some (make_entry s bad (length (joined xs)) mtime (joined xs)))
unfolding request_rounds access_stat access_file Option.bind
round_read s mtime xs ferror bad rs =
    ap
      (λ o. Option.bind o (λ r.
        if ferror
        then request_rounds s rs (if length (joined xs) == 0 then bad else true)
        else some (make_entry s bad (length (joined xs)) mtime r.got)))
      (read_loop_all xs [] (length (joined xs)) refl)

made :
    (s : Rest) (bad : Bool) (size : ℕ) (mtime : ℤ) (content x : Bytes)
    → s.new_ok ≡ true
    → s.compress content ≡ some x
    → make_entry s bad size mtime content ≡ record {
      answer = some (new_entry size (length x) s.req_t s.now mtime x gzip s.unset);
      err = 0;
      bad_free = bad;
    }
unfolding make_entry
made s bad size mtime content x memory made_of =
    if_false _ _ (ap not memory)
    ∙ ap
        (λ (o : Option Bytes). elim o as (λ _. Requested) [
          | none ↦ refused_with bad enomem
          | some x ↦ record {
            answer = some (new_entry size (length x) s.req_t s.now mtime x gzip s.unset);
            err = 0;
            bad_free = bad;
          }
        ])
        made_of

-- After an error that `ferror` finds, the file is read again, but the pointer that is freed stands behind
-- the memory that was allocated, unless the file is empty.
pub request_again :
    (s : Rest) (mtime mtime' : ℤ) (xs ys : List Bytes) (x : Bytes) (rs : List Round)
    → 0 < length (joined xs)
    → s.new_ok ≡ true
    → s.compress (joined ys) ≡ some x
    → (e : CacheEntry) × (request s (
          whole_round (length (joined xs)) mtime xs true
          ∷ whole_round (length (joined ys)) mtime' ys false
          ∷ rs)
        ≡ some (record { answer = some e; err = 0; bad_free = true }))
      × (e.buf ≡ x)
unfolding request new_entry
request_again s mtime mtime' xs ys x rs some_text memory made_of = (
  new_entry (length (joined ys)) (length x) s.req_t s.now mtime' x gzip s.unset,
  round_read s mtime xs true false (whole_round (length (joined ys)) mtime' ys false ∷ rs)
      ∙ ap (request_rounds s (whole_round (length (joined ys)) mtime' ys false ∷ rs))
          (if_false _ _ (pos→== _ some_text))
      ∙ round_read s mtime' ys false true rs
      ∙ ap some (made s true (length (joined ys)) mtime' (joined ys) x memory made_of),
  refl,
)
