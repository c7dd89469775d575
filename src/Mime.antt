-- ===== src/Mime.antt =====
-- The MIME types of src/mime_types.cpp: `init` on the lines of the database, and the lookup by the suffix
-- of a file name. The static map is the state.
pub mod Suffix
use mathlib.Core.List.{lookup}
use filth.Base.Maps.{insert}
use filth.Base.Text.{Bytes, extract}
use filth.Http.Response.Serve.{Bytes-discrete}
use filth.Base.{
  ℕ, zero, suc, Bool, true, false, Option, none, some, List, [], ◌∷◌, length, ◌==◌, if◌then◌else◌,
}

abbrev pub Types : Type 0
Types = List (Bytes × Bytes)

-- `while (tmp.good())`: the stream is good while it has read a word and there is text behind it. When
-- no word is left, `extension` keeps its old value, and is stored once more.
unfoldable pub good : Bytes × Bytes → Bool
good (word, []) = false
good ([], c ∷ rest) = false
good (w ∷ word, c ∷ rest) = true

unfoldable pub next_extension : Bytes → Bytes → Bytes
next_extension old [] = old
next_extension old (c ∷ word) = c ∷ word

unfoldable pub read_extensions : ℕ → Bytes → Bytes × Bytes → Bytes → Types → Option Types
read_extensions zero type stream extension types = none
read_extensions (suc fuel) type stream extension types =
    let after = extract stream.1 in
    let extension' = next_extension extension after.0 in
    let rest =
      read_extensions fuel type after extension' (insert Bytes-discrete extension' type types) in
    if good stream then rest else some types

-- a line of the database; a line that is empty or begins with `#` is passed over
unfoldable pub read_types : Bytes → Types → Option Types
read_types [] types = some types
read_types (c ∷ line) types =
    let first = extract (c ∷ line) in
    if c == b'#'
    then some types
    else read_extensions (suc (length (c ∷ line))) first.0 first [] types

-- `init`
unfoldable pub init : List Bytes → Types → Option Types
init [] types = some types
init (line ∷ lines) types = elim (read_types line types) [
  | none ↦ none
  | some types' ↦ init lines types'
]

-- what stands behind the last `.`, if there is one
unfoldable pub suffix : Bytes → Option Bytes
suffix [] = none
suffix (c ∷ x) = elim (suffix x) [ some y ↦ some y | none ↦ if c == b'.' then some x else none ]

-- `operator()`
unfoldable pub mime_type : Bytes → Types → Bytes → Bytes
mime_type fallback_type types filename = elim (suffix filename) [
  | none ↦ fallback_type
  | some extension ↦ elim (lookup Bytes-discrete extension types) [
    | none ↦ fallback_type
    | some t ↦ t
  ]
]
