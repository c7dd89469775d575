-- ===== src/Cmdline/Given.antt =====
-- What the options of the command line do to the table, and the names of the signals.
use mathlib.Core.Option
use mathlib.Core.Option.{some-injective, none-ne-some}
use filth.Base.Text.{Bytes, codes, starts_with, split_at, lacks, split_at-append}
use filth.Base.{
  ◌≡◌, refl, ap, ◌∙◌, Bool, true, false, Option, none, some, List, [], ◌∷◌, ◌++◌, arith, if_true,
  if_false, All, get_elem?, set,
}
use filth.Cmdline.Parse.{
  Opt, Parsed, give, give_first, behind_equals, long_option, argument, parse_args,
}
use filth.Cmdline.Table.{server_options, int_opt}

starts_with-append : (x y : Bytes) → starts_with x (x ++ y) ≡ true
unfolding starts_with
starts_with-append [] y = refl
starts_with-append (c ∷ x) y = ground (arith, starts_with-append x y)

-- The first option that the test accepts is the one that gets the value.
give_first-there :
    (test : Opt → Bool) (value : Bytes) (before : List Opt) (o : Opt) (after : List Opt)
    → All (λ p. test p ≡ false) before
    → test o ≡ true
    → give_first test (some value) (before ++ o ∷ after)
      ≡ some (before ++ record o { sval = value } ∷ after)
unfolding give_first give
give_first-there test value [] o after others here = if_true _ _ here
give_first-there test value (p ∷ before) o after others here =
    if_false _ _ others.0
    ∙ ap (Option.map (◌∷◌ p)) (give_first-there test value before o after others.1 here)

-- the argument that gives an option its value by its long name
abbrev pub long_arg : Bytes → Bytes → Bytes
long_arg name value = b'-' ∷ b'-' ∷ name ++ b'=' ∷ value

behind_equals-long_arg :
    (name value : Bytes) → lacks b'=' name ≡ true → behind_equals (long_arg name value) ≡ some value
unfolding behind_equals lacks
behind_equals-long_arg name value plain =
    ap (Option.map (λ p. p.1)) (split_at-append b'=' (b'-' ∷ b'-' ∷ name) value plain)

-- an argument after which the loop goes on, and two that end it
pub parse_args-some :
    (tmp : Bytes) (argv : List Bytes) (os os' : List Opt)
    → starts_with (codes "--help") tmp ≡ false
    → argument tmp os ≡ some os'
    → parse_args (tmp ∷ argv) os ≡ parse_args argv os'
unfolding parse_args
parse_args-some tmp argv os os' no_help there =
    if_false _ _ no_help
    ∙ ap
        (λ (r : Option (List Opt)). elim r as (λ _. Parsed) [
          | none ↦ Parsed.unrecognized tmp
          | some os'' ↦ parse_args argv os''
        ])
        there

pub parse_args-none :
    (tmp : Bytes) (argv : List Bytes) (os : List Opt)
    → starts_with (codes "--help") tmp ≡ false
    → argument tmp os ≡ none
    → parse_args (tmp ∷ argv) os ≡ Parsed.unrecognized tmp
unfolding parse_args
parse_args-none tmp argv os no_help out =
    if_false _ _ no_help
    ∙ ap
        (λ (r : Option (List Opt)). elim r as (λ _. Parsed) [
          | none ↦ Parsed.unrecognized tmp
          | some os'' ↦ parse_args argv os''
        ])
        out

pub parse_args-help :
    (tmp : Bytes) (argv : List Bytes) (os : List Opt)
    → starts_with (codes "--help") tmp ≡ true
    → parse_args (tmp ∷ argv) os ≡ Parsed.helped os
unfolding parse_args
parse_args-help tmp argv os help = if_true _ _ help

-- `--name=value` sets the value of the option of that name and changes nothing else, given that the name
-- has no `=`, that the argument does not begin with `--help`, and that no earlier option's name begins it.
pub long_option_lem :
    (argv : List Bytes) (value : Bytes) (before : List Opt) (o : Opt) (after : List Opt)
    → All (λ p. starts_with p.long (o.long ++ b'=' ∷ value) ≡ false) before
    → lacks b'=' o.long ≡ true
    → starts_with (codes "--help") (long_arg o.long value) ≡ false
    → parse_args (long_arg o.long value ∷ argv) (before ++ o ∷ after)
      ≡ parse_args argv (before ++ record o { sval = value } ∷ after)
unfolding argument long_option
long_option_lem argv value before o after others plain no_help =
    parse_args-some (long_arg o.long value) argv (before ++ o ∷ after)
      (before ++ record o { sval = value } ∷ after) no_help
      (ap
          (λ x.
            give_first (λ p. starts_with p.long (o.long ++ b'=' ∷ value)) x (before ++ o ∷ after))
          (behind_equals-long_arg o.long value plain)
        ∙ give_first-there (λ p. starts_with p.long (o.long ++ b'=' ∷ value)) value before o after
            others (starts_with-append o.long (b'=' ∷ value)))

-- The table has the name `untrusted-uid` twice, at 5 for the group and at 12 for the user: whatever value
-- the option gives, it is the group's that is set, and the user's stays as it was.
pub untrusted_uid_lem :
    (argv : List Bytes) (value : Bytes)
    → (o : Opt) × (get_elem? server_options 5 ≡ some o)
      × (o.desc ≡ codes "untrusted gid to execute as")
      × (parse_args (long_arg (codes "untrusted-uid") value ∷ argv) server_options
          ≡ parse_args argv (set server_options 5 (record o { sval = value })))
      × (get_elem? (set server_options 5 (record o { sval = value })) 12
          ≡ get_elem? server_options 12)
unfolding parse_args argument long_option give_first give behind_equals split_at starts_with
    server_options
untrusted_uid_lem argv value = (
  int_opt b'g' (codes "untrusted-uid") (codes "untrusted gid to execute as") (codes "9999"),
  refl,
  refl,
  refl,
  refl,
)
