-- ===== src/Origin/Files.antt =====
-- `validate` and `unlink` of src/HTTP_Origin_Server.cpp, and what `stat` answers.
use mathlib.Core.Option
use filth.Base.Text.{Bytes}
use filth.Base.{
  ℕ, zero, suc, ◌-◌, ◌^◌, ◌≡◌, refl, ap, Bool, false, Option, none, some, ◌==◌, if◌then◌else◌,
}
use filth.Http.Entry.{CacheEntry}
use filth.Int.{ℤ, leb_ℤ}

pub data Kind : Type 0 where
  regular directory socket other : Kind

-- what `stat` answers: the kind, the size and the time of the last change, or -1 with `errno`
pub data Stat : Type 0 where
  file_is : Kind → ℕ → ℤ → Stat
  missing : ℕ → Stat

-- `tocheck` is none for a null pointer
unfoldable pub validate : Stat → Option CacheEntry → Bool
validate answer none = false
validate (missing e) (some tocheck) = false
validate (file_is kind size mtime) (some tocheck) = leb_ℤ mtime tocheck.last_modified

-- -1 as an `int`
abbrev minus_one : ℕ
minus_one = 2 ^ 32 - 1

abbrev unlinked : ℕ → ℕ → ℕ
unlinked errno r = if r == minus_one then errno else 0

-- `unlink`: the name means the function itself, which is declared in the namespace and takes a
-- `string`, and not the system call of the same name. The fuel is the depth of the calls.
unfoldable pub unlink : ℕ → ℕ → Bytes → Option ℕ
unlink zero errno path = none
unlink (suc fuel) errno path = Option.map (unlinked errno) (unlink fuel errno path)

-- So it never returns, however deep the calls may go, and no file is deleted.
pub unlink_endless : (fuel errno : ℕ) (path : Bytes) → unlink fuel errno path ≡ none
unfolding unlink
unlink_endless zero errno path = refl
unlink_endless (suc fuel) errno path =
    ap (Option.map (unlinked errno)) (unlink_endless fuel errno path)
