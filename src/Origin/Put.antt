-- ===== src/Origin/Put.antt =====
-- `putorpost` of src/HTTP_Origin_Server.cpp over the answers of the file system. A loop that has used
-- up the answers goes on for ever.
use mathlib.Core.Option
use filth.Base.Text.{Bytes}
use filth.Base.{
  ℕ, ◌+◌, ◌-◌, ◌≤◌, ◌≡◌, Bool, true, false, not, ◌&&◌, Option, none, some, List, [], ◌∷◌, ◌++◌,
  length, take, drop, ◌==◌, if◌then◌else◌,
}
use filth.Http.Constants.{ContentCoding, identity, gzip, compress, deflate}
use filth.Base.Errno.{eacces, espipe}
use filth.Origin.Files.{regular, directory, socket, other, Stat, file_is, missing}

abbrev pub enomem : ℕ
enomem = 12

abbrev pub enotsup : ℕ
enotsup = 95

-- The file, what is still to be written, which is where `tmp` points, and how far `tmp` has moved since it
-- was allocated.
pub record Writing : Type 0 where
  pub file : Bytes
  pub left : Bytes
  pub moved : ℕ

-- one `fwrite_unlocked` that takes `n` bytes
abbrev pub wrote : ℕ → Writing → Writing
wrote n w = record { file = w.file ++ take n w.left; left = drop n w.left; moved = w.moved + n }

-- `while (towrite)`
unfoldable pub write_loop : List ℕ → Writing → Option Writing
write_loop [] w = if length w.left == 0 then some w else none
write_loop (n ∷ ns) w =
    let rest = write_loop ns (wrote n w) in if length w.left == 0 then some w else rest

-- one round from `put_tryagain` on: `fopen` fails with `errno`, another thread has the lock, or the
-- writes, and what `ferror` says afterwards
pub data Try : Type 0 where
  no_open : ℕ → Try
  locked : Try
  opened : List ℕ → Bool → Try

-- The result and the file. `bad_delete` means that `delete[]` got a pointer that `new` did not return.
pub record Put : Type 0 where
  pub result : ℕ
  pub file : Bytes
  pub bad_delete : Bool

-- the ways out behind the allocation: `tmp` is deleted if it was allocated
unfoldable pub leave : Bool → ℕ → Writing → Put
leave allocated result w = record {
  result = result;
  file = w.file;
  bad_delete = allocated && not (w.moved == 0);
}

-- `fopen` with the mode "w" empties the file
abbrev pub fopen : Bool → Writing → Writing
fopen truncates w = record w { file = if truncates then [] else w.file }

unfoldable pub put_tries : Bool → Bool → List Try → Writing → Option Put
put_tries allocated truncates [] w = none
put_tries allocated truncates (no_open errno ∷ tries) w = some (leave allocated errno w)
put_tries allocated truncates (locked ∷ tries) w = some (leave allocated eacces (fopen truncates w))
put_tries allocated truncates (opened ns ferror ∷ tries) w =
    Option.bind (write_loop ns (fopen truncates w))
      (λ w'. if ferror then put_tries allocated truncates tries w' else some (leave allocated 0 w'))

abbrev pub writing : Bytes → Bytes → Writing
writing file contents = record { file = file; left = contents; moved = 0 }

abbrev pub untouched : ℕ → Bytes → Put
untouched result file = record { result = result; file = file; bad_delete = false }

-- the switch over the coding; `uncompress` is that of gzip
unfoldable pub put_coded :
    (Bytes → Option Bytes) → ContentCoding → Bool → List Try → Bytes → Bytes → Option Put
put_coded uncompress identity truncates tries contents file =
    put_tries false truncates tries (writing file contents)
put_coded uncompress gzip truncates tries contents file = elim (uncompress contents) [
  | none ↦ some (untouched enomem file)
  | some tmp ↦ put_tries true truncates tries (writing file tmp)
]
put_coded uncompress compress truncates tries contents file = some (untouched enotsup file)
put_coded uncompress deflate truncates tries contents file = some (untouched enotsup file)

-- `truncates` says whether `mode` is "w"
unfoldable pub putorpost :
    (Bytes → Option Bytes) → Stat → ContentCoding → Bool → List Try → Bytes → Bytes → Option Put
putorpost uncompress (missing errno) enc truncates tries contents file = some (untouched errno file)
putorpost uncompress (file_is socket size mtime) enc truncates tries contents file =
    some (untouched espipe file)
putorpost uncompress (file_is directory size mtime) enc truncates tries contents file =
    some (untouched eacces file)
putorpost uncompress (file_is other size mtime) enc truncates tries contents file =
    some (untouched eacces file)
putorpost uncompress (file_is regular size mtime) enc truncates tries contents file =
    put_coded uncompress enc truncates tries contents file

-- the writes take all there is, in pieces
abbrev pub TakesAll : ℕ → List ℕ → Type 0
TakesAll k [] = k ≡ 0
TakesAll k (n ∷ ns) = (n ≤ k) × TakesAll (k - n) ns
