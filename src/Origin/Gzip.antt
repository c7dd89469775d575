-- ===== src/Origin/Gzip.antt =====
-- `gzip::uncompress` of src/gzip.cpp with an allocation of its own. Zlib is a parameter: `inflate src n`
-- is what it makes of `src` in a buffer of `n` bytes, and `new_ok n` says whether there is such a buffer.
use mathlib.Core.Option.{none-ne-some}
use filth.Base.Text.{Bytes}
use filth.Base.{
  ℕ, zero, suc, ◌+◌, ◌-◌, ◌*◌, ◌≤◌, ◌<◌, ◌≡◌, sym, ap, ◌∙◌, Bool, Option, none, some, length, arith,
  if◌then◌else◌, if_true, if_false, Option-cases, Bool-cases, inl, inr,
}

module _ (inflate : Bytes → ℕ → Option Bytes) (new_ok : ℕ → Bool) where
  -- the loop over `multiplier`, in `rounds` rounds
  unfoldable pub uncompress_loop : ℕ → ℕ → Bytes → Option Bytes
  uncompress_loop zero multiplier src = none
  uncompress_loop (suc rounds) multiplier src =
      let resultsz = multiplier * length src in
      let later = uncompress_loop rounds (suc multiplier) src in
      if new_ok resultsz
      then elim (inflate src resultsz) [ none ↦ later | some x ↦ some x ]
      else none

  -- `start` is 2 and `stop` is 5 where nothing else is said
  unfoldable pub uncompress : ℕ → ℕ → Bytes → Option Bytes
  uncompress start stop src = uncompress_loop (stop - start) start src

  loop_within :
      (rounds multiplier : ℕ) (src x : Bytes)
      → uncompress_loop rounds multiplier src ≡ some x
      → (n : ℕ) × (multiplier ≤ n)
        × (n < multiplier + rounds)
        × (inflate src (n * length src) ≡ some x)
  unfolding uncompress_loop
  loop_within zero multiplier src x run = absurd (none-ne-some x run)
  loop_within (suc rounds) multiplier src x run =
      elim (Bool-cases (new_ok (multiplier * length src))) [
        | inr full ↦ absurd (none-ne-some x (sym (if_false _ _ full) ∙ run))
        | inl memory ↦ elim (Option-cases (inflate src (multiplier * length src))) [
          | inr (y, here) ↦ (
            multiplier,
            omega arith,
            omega arith,
            here
                ∙ sym (
                    ap
                      (λ (o : Option Bytes). elim o as (λ _. Option Bytes) [
                        | none ↦ uncompress_loop rounds (suc multiplier) src
                        | some z ↦ some z
                      ])
                      here)
                ∙ sym (if_true _ _ memory)
                ∙ run,
          )
          | inl out ↦
              let (n, above, below, there) = loop_within rounds (suc multiplier) src x (
                sym (
                  ap
                    (λ (o : Option Bytes). elim o as (λ _. Option Bytes) [
                      | none ↦ uncompress_loop rounds (suc multiplier) src
                      | some z ↦ some z
                    ])
                    out)
                ∙ sym (if_true _ _ memory)
                ∙ run) in
              (n, omega (arith, above), omega (arith, below), there)
        ]
      ]

  -- What `uncompress` returns, zlib has made in a buffer of `n` times the size of the source, for an `n`
  -- from `start` on that is less than `stop`.
  pub uncompress_within :
      (start stop : ℕ) (src x : Bytes)
      → uncompress start stop src ≡ some x
      → (n : ℕ) × (start ≤ n) × (n < stop) × (inflate src (n * length src) ≡ some x)
  unfolding uncompress
  uncompress_within start stop src x run =
      let (n, above, below, there) = loop_within (stop - start) start src x run in
      (n, above, omega (arith, above, below), there)
