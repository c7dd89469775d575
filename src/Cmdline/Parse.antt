-- ===== src/Cmdline/Parse.antt =====
-- The template `cmdline` of src/cmdline.hpp: its arrays as a list of options, and its functions. `atoi`
-- is a parameter.
use mathlib.Core.Option
use filth.Base.Text.{Bytes, codes, starts_with, split_at}
use filth.Base.{
  ℕ, Bool, false, not, ◌&&◌, Option, none, some, List, [], ◌∷◌, drop, ◌==◌, if◌then◌else◌,
}
use filth.Int.{ℤ}

-- one index of the arrays. `is_int` says whether `ivals` was not 0 before the options were read.
pub record Opt : Type 0 where
  pub short : ℕ
  pub long : Bytes
  pub desc : Bytes
  pub sval : Bytes
  pub is_int : Bool
  pub ival : ℤ
  pub bval : Bool

-- How `parsecmdline` ends: with the options, or with the process, by `unrecognized_opt` on an argument or
-- by `print_help` on the options as they are then.
pub data Parsed : Type 0 where
  parsed : List Opt → Parsed
  unrecognized : Bytes → Parsed
  helped : List Opt → Parsed

-- the value of an option: what is given, or "true" for a boolean option without a value
unfoldable pub give : Option Bytes → Opt → Option Opt
give (some x) o = some (record o { sval = x })
give none o = if o.bval then some (record o { sval = codes "true" }) else none

-- the first option that the test accepts is given the value
unfoldable pub give_first : (Opt → Bool) → Option Bytes → List Opt → Option (List Opt)
give_first test value [] = none
give_first test value (o ∷ os) =
    let rest = give_first test value os in
    if test o then Option.map (λ o'. o' ∷ os) (give value o) else Option.map (◌∷◌ o) rest

-- the text behind the first `=`
unfoldable pub behind_equals : Bytes → Option Bytes
behind_equals tmp = Option.map (λ p. p.1) (split_at b'=' tmp)

-- `--name=value`
unfoldable pub long_option : Bytes → List Opt → Option (List Opt)
long_option tmp os = give_first (λ o. starts_with o.long (drop 2 tmp)) (behind_equals tmp) os

-- `strlen(tmp) < 3` means that there is no value
unfoldable pub nonempty : Bytes → Option Bytes
nonempty [] = none
nonempty (c ∷ x) = some (c ∷ x)

-- `-nvalue`
unfoldable pub short_option : ℕ → Bytes → List Opt → Option (List Opt)
short_option c value os = give_first (λ o. c == o.short && not (c == b'-')) (nonempty value) os

-- one argument: the options that it leaves, unless it ends the process
unfoldable pub argument : Bytes → List Opt → Option (List Opt)
argument [] os = none
argument (c ∷ []) os = none
argument (c ∷ d ∷ value) os =
    if not (c == b'-')
    then none
    else if d == b'-'
    then long_option (c ∷ d ∷ value) os
    else short_option d value os

-- the loop over `argv`
unfoldable pub parse_args : List Bytes → List Opt → Parsed
parse_args [] os = parsed os
parse_args (tmp ∷ argv) os =
    if starts_with (codes "--help") tmp
    then helped os
    else elim (argument tmp os) [ none ↦ unrecognized tmp | some os' ↦ parse_args argv os' ]

-- `atoi_opts`, on one option
unfoldable pub atoi_opt : (Bytes → ℤ) → Opt → Opt
atoi_opt atoi o =
    if o.is_int
    then record o { ival = atoi o.sval }
    else if o.bval && starts_with (codes "false") o.sval
    then record o { bval = false }
    else o

unfoldable pub atoi_opts : (Bytes → ℤ) → List Opt → List Opt
atoi_opts atoi [] = []
atoi_opts atoi (o ∷ os) = atoi_opt atoi o ∷ atoi_opts atoi os

unfoldable pub parsecmdline : (Bytes → ℤ) → List Bytes → List Opt → Parsed
parsecmdline atoi argv os = elim (parse_args argv os) [
  | parsed os' ↦ parsed (atoi_opts atoi os')
  | unrecognized tmp ↦ unrecognized tmp
  | helped os' ↦ helped os'
]

-- the signals of `sigs.def`
pub data Signal : Type 0 where
  hup int quit ill abrt fpe segv pipe alrm term usr1 usr2 chld cont tstp ttin ttou : Signal

unfoldable pub signal_name : Signal → Bytes
signal_name hup = codes "HUP"
signal_name int = codes "INT"
signal_name quit = codes "QUIT"
signal_name ill = codes "ILL"
signal_name abrt = codes "ABRT"
signal_name fpe = codes "FPE"
signal_name segv = codes "SEGV"
signal_name pipe = codes "PIPE"
signal_name alrm = codes "ALRM"
signal_name term = codes "TERM"
signal_name usr1 = codes "USR1"
signal_name usr2 = codes "USR2"
signal_name chld = codes "CHLD"
signal_name cont = codes "CONT"
signal_name tstp = codes "TSTP"
signal_name ttin = codes "TTIN"
signal_name ttou = codes "TTOU"

abbrev pub signals : List Signal
signals =
    hup ∷ int ∷ quit ∷ ill ∷ abrt ∷ fpe ∷ segv ∷ pipe ∷ alrm ∷ term ∷ usr1 ∷ usr2 ∷ chld ∷ cont
    ∷ tstp ∷ ttin ∷ ttou ∷ []

-- the loop of `sigconv`; `none` means that the process ends
unfoldable pub find_signal : Bytes → List Signal → Option Signal
find_signal sig [] = none
find_signal sig (s ∷ rest) =
    let later = find_signal sig rest in if starts_with (signal_name s) sig then some s else later

unfoldable pub sigconv : Bytes → Option Signal
sigconv sig = find_signal sig signals
