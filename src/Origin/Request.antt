-- ===== src/Origin/Request.antt =====
-- `request` of src/HTTP_Origin_Server.cpp over the answers of the file system. Zlib's compression and
-- what is left in `stat` of a new entry are parameters.
use mathlib.Core.Option
use filth.Base.Text.{Bytes}
use filth.Base.{
  ℕ, ◌-◌, Bool, true, false, not, Option, none, some, List, [], ◌∷◌, ◌++◌, length, ◌==◌,
  if◌then◌else◌,
}
use filth.Http.Constants.{gzip, Status}
use filth.Http.Entry.{CacheEntry, new_entry}
use filth.Base.Errno.{eacces, eisdir, espipe}
use filth.Int.{ℤ}
use filth.Origin.Files.{regular, directory, socket, other, Stat, file_is, missing}
use filth.Origin.Put.{enomem}

-- what has been read of the file, and how much is still to be read
pub record Reading : Type 0 where
  pub got : Bytes
  pub toread : ℕ

-- one `fread_unlocked`; an empty chunk is 0
abbrev pub took : Bytes → Reading → Reading
took x r = record { got = r.got ++ x; toread = r.toread - length x }

-- `while (toread)`; reads that have run out leave it going for ever
unfoldable pub read_loop : List Bytes → Reading → Option Reading
read_loop [] r = if r.toread == 0 then some r else none
read_loop (x ∷ xs) r = let rest = read_loop xs (took x r) in if r.toread == 0 then some r else rest

-- A file that `stat` has found regular: `fopen` fails, another thread has the lock, `malloc` fails, or the
-- reads and what `ferror` says.
pub data Access : Type 0 where
  no_open : ℕ → Access
  locked : Access
  no_memory : Access
  opened : List Bytes → Bool → Access

-- one round from `request_tryagain` on
pub record Round : Type 0 where
  pub stat : Stat
  pub access : Access

-- The result is an entry or an error. `bad_free` means that a round has freed a pointer that `malloc` did
-- not return.
pub record Requested : Type 0 where
  pub answer : Option CacheEntry
  pub err : ℕ
  pub bad_free : Bool

abbrev pub refused_with : Bool → ℕ → Requested
refused_with bad_free err = record { answer = none; err = err; bad_free = bad_free }

-- the clock at the two calls of `time`, whether `new` has memory, what zlib makes of the file, and the
-- `stat` of the new entry
pub record Rest : Type 0 where
  pub req_t : ℤ
  pub now : ℤ
  pub new_ok : Bool
  pub compress : Bytes → Option Bytes
  pub unset : Status

-- the file is read
unfoldable pub make_entry : Rest → Bool → ℕ → ℤ → Bytes → Requested
make_entry s bad size mtime content =
    if not s.new_ok then refused_with bad enomem else elim (s.compress content) [
      | none ↦ refused_with bad enomem
      | some x ↦ record {
        answer = some (new_entry size (length x) s.req_t s.now mtime x gzip s.unset);
        err = 0;
        bad_free = bad;
      }
    ]

-- `fp` is open, and the rounds after an error of the stream are `again`
unfoldable pub access_file :
    Rest → (Bool → Option Requested) → Bool → ℕ → ℤ → Access → Option Requested
access_file s again bad size mtime (no_open errno) = some (refused_with bad errno)
access_file s again bad size mtime locked = some (refused_with bad eacces)
access_file s again bad size mtime no_memory = some (refused_with bad enomem)
access_file s again bad size mtime (opened xs ferror) =
    Option.bind (read_loop xs (record { got = []; toread = size })) (λ r.
      if ferror
      then again (if size == 0 then bad else true)
      else some (make_entry s bad size mtime r.got))

unfoldable pub access_stat :
    Rest → (Bool → Option Requested) → Bool → Access → Stat → Option Requested
access_stat s again bad access (missing errno) = some (refused_with bad errno)
access_stat s again bad access (file_is directory size mtime) = some (refused_with bad eisdir)
access_stat s again bad access (file_is socket size mtime) = some (refused_with bad espipe)
access_stat s again bad access (file_is other size mtime) = some (refused_with bad eacces)
access_stat s again bad access (file_is regular size mtime) =
    access_file s again bad size mtime access

unfoldable pub request_rounds : Rest → List Round → Bool → Option Requested
request_rounds s [] bad = none
request_rounds s (r ∷ rs) bad = access_stat s (request_rounds s rs) bad r.access r.stat

unfoldable pub request : Rest → List Round → Option Requested
request s rounds = request_rounds s rounds false
