-- ===== src/Http/Response/Headers.antt =====
-- What `browse_req` makes of a line of Cache-Control or Expect.
use filth.Base.Text.{
  Bytes, codes, same, same_iff, is_word, lacks, split_at, split_at-lacks, extract, extract-word,
  extract_last, extract_blank,
}
use filth.Base.{
  ℕ, ◌+◌, ◌≤◌, ◌≡◌, refl, ap, ◌∙◌, Bool, true, false, none, some, [], ◌∷◌, ◌++◌, arith, Bool-cases,
  inl, inr, if◌then◌else◌,
}
use filth.Http.Constants.{expectation_failed, expect}
use filth.Http.Lines.{header_of}
use filth.Http.Response.Browse.{Browsed, tolower, seconds, read_directive, expect_stage}
use filth.Http.Response.Serve.{CacheControl}
use filth.Int.{ℤ}

lacks-tolower : (x : Bytes) → lacks b':' (tolower x) ≡ true → lacks b':' x ≡ true
unfolding lacks tolower
lacks-tolower [] h = refl
lacks-tolower (c ∷ x) h = ground (arith, lacks-tolower x)

header_of-lacks : (line : Bytes) → lacks b':' line ≡ true → header_of line ≡ none
unfolding header_of
header_of-lacks line h = rw (split_at-lacks b':' line h, header_of) refl

no_colon : (x : Bytes) → x ≡ codes "100-continue" → lacks b':' x ≡ true
unfolding lacks
no_colon x e = rw e refl

not_continue :
    (line : Bytes)
    → header_of line ≡ some expect
    → same (codes "100-continue") (tolower line) ≡ false
not_continue line h = elim (Bool-cases (same (codes "100-continue") (tolower line))) [
  | inl equal ↦ absurd (
      cc (
        h,
        header_of-lacks line (
            lacks-tolower line (
              no_colon (tolower line)
                (cc ((same_iff (codes "100-continue") (tolower line)).0 equal)))),
      ))
  | inr other ↦ other
]

module _ (scan_time : Bytes → ℤ → ℤ) (scan_size : Bytes → ℕ → ℕ) where
  -- The line of an Expect header has the name in it, so it never equals the one expectation that the
  -- code means to know: every such header is refused.
  pub expect_refused :
      (line : Bytes) (t : Browsed)
      → header_of line ≡ some expect
      → expect_stage scan_time scan_size line t ≡ (t, some expectation_failed)
  unfolding expect_stage header_of split_at
  expect_refused [] t h = absurd cc
  expect_refused (c ∷ line) t h = rw (not_continue (c ∷ line) h, expect_stage) refl

  -- Where the library leaves a number alone that it finds no text for, a directive without blanks in
  -- it, such as max-age=60, never sets its number: it is skipped as the second word.
  pub seconds_ignored :
      (d : ℕ) (directive : Bytes) (old : ℤ)
      → ((v : ℤ) → scan_time [] v ≡ v)
      → is_word (d ∷ directive) ≡ true
      → seconds scan_time scan_size (codes "Cache-Control: " ++ d ∷ directive) old ≡ old
  unfolding seconds is_word
  seconds_ignored d directive old nothing word =
      let one = extract-word b'C' (codes "ache-Control:") (d ∷ directive) refl in
      let two = extract_blank (d ∷ directive) ∙ extract_last d directive word in
      ap (λ (p : Bytes × Bytes). scan_time (extract p.1).1 old) one
      ∙ ap (λ (p : Bytes × Bytes). scan_time p.1 old) two
      ∙ nothing old

  -- how many directives are set
  abbrev pub one_if : Bool → ℕ
  one_if b = if b then 1 else 0

  abbrev pub directives : CacheControl → ℕ
  directives cc =
      one_if cc.no_cache
      + one_if cc.no_store
      + one_if cc.no_transform
      + one_if cc.only_if_cached
      + one_if cc.use_max_age
      + one_if cc.use_min_fresh
      + one_if cc.use_max_stale

  -- Of all the directives of a request at most one takes effect; the others are dropped.
  pub directives-read_directive :
      (line : Bytes) (control : CacheControl)
      → directives control ≡ 0
      → directives (read_directive scan_time scan_size line control) ≤ 1
  unfolding read_directive
  directives-read_directive line control none_set = ground arith
