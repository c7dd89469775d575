-- ===== src/Cmdline/Names.antt =====
-- What the arguments leave as it is, and the names of the signals: src/cmdline.hpp.
use mathlib.Core.Option
use mathlib.Core.Option.{some-injective, none-ne-some}
use filth.Base.Text.{Bytes, codes, starts_with}
use filth.Base.{
  ℕ, ◌≡◌, ◌≢◌, refl, sym, ap, ◌∙◌, Bool, not, ◌&&◌, Option, none, some, List, [], ◌∷◌, ◌++◌, map,
  ◌==◌, if_true, if_false, Bool-cases, Option-cases, inl, inr,
}
use filth.Cmdline.Parse.{
  Opt, Parsed, parsed, give, give_first, behind_equals, long_option, short_option, nonempty,
  argument, parse_args, Signal, hup, int, quit, ill, abrt, fpe, segv, pipe, alrm, term, usr1, usr2,
  chld, cont, tstp, ttin, ttou, signal_name, find_signal, sigconv,
}
use filth.Cmdline.Given.{parse_args-some, parse_args-none, parse_args-help}

abbrev pub name_of : Opt → ℕ × Bytes × Bytes
name_of o = (o.short, o.long, o.desc)

abbrev pub names : List Opt → List (ℕ × Bytes × Bytes)
names os = map name_of os

give-names : (value : Option Bytes) (o o' : Opt) → give value o ≡ some o' → name_of o' ≡ name_of o
unfolding give
give-names (some x) o o' e = ap name_of (sym (some-injective _ _ e))
give-names none o o' e = elim (Bool-cases o.bval) [
  | inl b ↦ ap name_of (sym (some-injective _ _ (sym (if_true _ _ b) ∙ e)))
  | inr b ↦ absurd (none-ne-some o' (sym (if_false _ _ b) ∙ e))
]

give_first-names :
    (test : Opt → Bool) (value : Option Bytes) (os os' : List Opt)
    → give_first test value os ≡ some os'
    → names os' ≡ names os
unfolding give_first
give_first-names test value [] os' e = absurd (none-ne-some os' e)
give_first-names test value (o ∷ os) os' e = elim (Bool-cases (test o)) [
  | inl b ↦
      let (o', given, same) =
        (Option.map-eq-some_iff (λ p. p ∷ os) (give value o)).0 (sym (if_true _ _ b) ∙ e) in
      ap names (sym same) ∙ ap (λ n. n ∷ names os) (give-names value o o' given)
  | inr b ↦
      let (rest, later, same) =
        (Option.map-eq-some_iff (◌∷◌ o) (give_first test value os)).0 (sym (if_false _ _ b) ∙ e) in
      ap names (sym same) ∙ ap (◌∷◌ (name_of o)) (give_first-names test value os rest later)
]

argument-names :
    (tmp : Bytes) (os os' : List Opt) → argument tmp os ≡ some os' → names os' ≡ names os
unfolding argument long_option short_option
argument-names [] os os' e = absurd (none-ne-some os' e)
argument-names (c ∷ []) os os' e = absurd (none-ne-some os' e)
argument-names (c ∷ d ∷ value) os os' e = elim (Bool-cases (not (c == b'-'))) [
  | inl b ↦ absurd (none-ne-some os' (sym (if_true _ _ b) ∙ e))
  | inr b ↦ elim (Bool-cases (d == b'-')) [
    | inl long ↦
        give_first-names (λ o. starts_with o.long value) (behind_equals (c ∷ d ∷ value)) os os'
          (sym (if_true _ _ long) ∙ sym (if_false _ _ b) ∙ e)
    | inr short ↦
        give_first-names (λ o. d == o.short && not (d == b'-')) (nonempty value) os os'
          (sym (if_false _ _ short) ∙ sym (if_false _ _ b) ∙ e)
  ]
]

parsed_inj : (os os' : List Opt) → parsed os ≡ parsed os' → os ≡ os'
parsed_inj os os' e = cc

helped-ne-parsed : (os os' : List Opt) → Parsed.helped os ≢ parsed os'
helped-ne-parsed os os' e = absurd cc

unrecognized-ne-parsed : (tmp : Bytes) (os : List Opt) → Parsed.unrecognized tmp ≢ parsed os
unrecognized-ne-parsed tmp os e = absurd cc

-- However the arguments read, the options that the table holds and their names stay the same.
pub parse_args-names :
    (argv : List Bytes) (os os' : List Opt) → parse_args argv os ≡ parsed os' → names os' ≡ names os
unfolding parse_args
parse_args-names [] os os' e = ap names (parsed_inj os' os (sym e))
parse_args-names (tmp ∷ argv) os os' e = elim (Bool-cases (starts_with (codes "--help") tmp)) [
  | inl b ↦ absurd (helped-ne-parsed os os' (sym (parse_args-help tmp argv os b) ∙ e))
  | inr b ↦ elim (Option-cases (argument tmp os)) [
    | inl out ↦
        absurd (unrecognized-ne-parsed tmp os' (sym (parse_args-none tmp argv os b out) ∙ e))
    | inr (rest, there) ↦
        parse_args-names argv rest os' (sym (parse_args-some tmp argv os rest b there) ∙ e)
        ∙ argument-names tmp os rest there
  ]
]

-- A signal is found under its name, whatever stands behind the name.
pub sigconv-signal_name : (s : Signal) (x : Bytes) → sigconv (signal_name s ++ x) ≡ some s
unfolding sigconv find_signal signal_name starts_with
sigconv-signal_name hup x = refl
sigconv-signal_name int x = refl
sigconv-signal_name quit x = refl
sigconv-signal_name ill x = refl
sigconv-signal_name abrt x = refl
sigconv-signal_name fpe x = refl
sigconv-signal_name segv x = refl
sigconv-signal_name pipe x = refl
sigconv-signal_name alrm x = refl
sigconv-signal_name term x = refl
sigconv-signal_name usr1 x = refl
sigconv-signal_name usr2 x = refl
sigconv-signal_name chld x = refl
sigconv-signal_name cont x = refl
sigconv-signal_name tstp x = refl
sigconv-signal_name ttin x = refl
sigconv-signal_name ttou x = refl
