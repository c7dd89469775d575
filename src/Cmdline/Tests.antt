-- ===== src/Cmdline/Tests.antt =====
-- Arguments on the table of the server.
use filth.Base.Text.{codes, lacks, starts_with}
use filth.Base.{◌≡◌, refl, [], ◌∷◌}
use filth.Cmdline.Given.{long_option_lem}
use filth.Cmdline.Parse.{Opt, parse_args}
use filth.Cmdline.Table.{str_opt, int_opt, bool_opt}

abbrev ipv6 : Opt
ipv6 = bool_opt b'6' (codes "ipv6") (codes "use IPv6") (codes "false")

abbrev mount : Opt
mount = str_opt b'm' (codes "mount") (codes "where to mount") (codes ".")

abbrev port : Opt
port = int_opt b'p' (codes "port") (codes "listening port") (codes "80")

long_option_lem_example :
    parse_args (codes "--mount=/srv" ∷ []) (ipv6 ∷ mount ∷ port ∷ [])
    ≡ parse_args [] (ipv6 ∷ record mount { sval = codes "/srv" } ∷ port ∷ [])
unfolding starts_with lacks
long_option_lem_example =
    long_option_lem [] (codes "/srv") (ipv6 ∷ []) mount (port ∷ []) (refl, tt) refl refl
