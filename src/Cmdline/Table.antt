-- ===== src/Cmdline/Table.antt =====
-- The options of the server: `cmdlinesetup` of src/HTTP_cmdline.cpp over data/HTTP_cmdline.def, in their
-- order there. `is_int` and `bval` are what `ivals` and `bvals` are filled with.
use filth.Base.Text.{Bytes, codes}
use filth.Base.{ℕ, true, false, List, [], ◌∷◌}
use filth.Cmdline.Parse.{Opt, Parsed, parsecmdline}
use filth.Int.{ℤ, pos}

-- DEFINE_ME_BOOL, DEFINE_ME_INT and DEFINE_ME_STR
abbrev pub bool_opt : ℕ → Bytes → Bytes → Bytes → Opt
bool_opt short long desc default = record {
  short = short;
  long = long;
  desc = desc;
  sval = default;
  is_int = false;
  ival = pos 0;
  bval = true;
}

abbrev pub int_opt : ℕ → Bytes → Bytes → Bytes → Opt
int_opt short long desc default = record {
  short = short;
  long = long;
  desc = desc;
  sval = default;
  is_int = true;
  ival = pos 1;
  bval = false;
}

abbrev pub str_opt : ℕ → Bytes → Bytes → Bytes → Opt
str_opt short long desc default = record {
  short = short;
  long = long;
  desc = desc;
  sval = default;
  is_int = false;
  ival = pos 0;
  bval = false;
}

unfoldable pub server_options : List Opt
server_options =
    bool_opt b'6' (codes "ipv6") (codes "use IPv6") (codes "false")
    ∷ int_opt b'c' (codes "cache-mb") (codes "cache size (MB)") (codes "10")
    ∷ str_opt b'd' (codes "default-resource") (codes "resource to serve when \"/\" is requested")
        (codes "index.html")
    ∷ str_opt b'e' (codes "sigdeadlock") (codes "emergency de-deadlock signal") (codes "USR1")
    ∷ str_opt b'f' (codes "sigflush") (codes "server flush signal") (codes "CONT")
    ∷ int_opt b'g' (codes "untrusted-uid") (codes "untrusted gid to execute as") (codes "9999")
    ∷ str_opt b'i' (codes "interface") (codes "network interface to use") (codes "eth0")
    ∷ str_opt b'm' (codes "mount") (codes "where in the filesystem to mount") (codes ".")
    ∷ int_opt b'p' (codes "port") (codes "listening port") (codes "80")
    ∷ int_opt b'q' (codes "listen-queue") (codes "TCP listen queue size") (codes "10")
    ∷ int_opt b'r' (codes "req-prealloc-mb") (codes "space to preallocate for HTTP requests (MB)")
        (codes "10")
    ∷ str_opt b't' (codes "sigth") (codes "INTERNAL USE ONLY thread communication signal")
        (codes "USR2")
    ∷ int_opt b'u' (codes "untrusted-uid") (codes "untrusted uid to execute as") (codes "9999")
    ∷ int_opt b'w' (codes "num-workers") (codes "number of worker threads") (codes "10")
    ∷ int_opt b'x' (codes "cache-expires") (codes "default cache expiration time (minutes)")
        (codes "10")
    ∷ int_opt b'-' (codes "max-req-body") (codes "maximum request body size (MB)") (codes "10")
    ∷ int_opt b'-' (codes "max-req-header") (codes "maximum request header line length (bytes)")
        (codes "4096")
    ∷ int_opt b'-' (codes "max-req-uri") (codes "maximum request URI size (bytes)") (codes "4096")
    ∷ str_opt b'-' (codes "mime-db") (codes "CUPS-style MIME database to use")
        (codes "/etc/mime.types")
    ∷ int_opt b'-' (codes "tcp-keepalive-intvl") (codes "advanced TCP option") (codes "1")
    ∷ int_opt b'-' (codes "tcp-keepalive-probes") (codes "advanced TCP option") (codes "1")
    ∷ int_opt b'-' (codes "tcp-keepalive-time") (codes "advanced TCP option") (codes "15")
    ∷ []

-- `cmdlinesetup`
unfoldable pub cmdlinesetup : (Bytes → ℤ) → List Bytes → Parsed
cmdlinesetup atoi argv = parsecmdline atoi argv server_options
