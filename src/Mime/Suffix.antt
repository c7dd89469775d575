-- ===== src/Mime/Suffix.antt =====
-- A line of the MIME database, and the file names that it is about.
use mathlib.Core.List.{lookup}
use filth.Base.Maps.{insert, lookup-insert}
use filth.Base.Text.{Bytes, extract, is_word, lacks, extract-word, extract_last, extract_blank}
use filth.Base.{
  ℕ, suc, ◌≡◌, refl, ap, ◌∙◌, true, false, Option, none, some, [], ◌∷◌, ◌++◌, length, ◌==◌,
  if◌then◌else◌, if_true, if_false, if_pos, arith,
}
use filth.Http.Response.Serve.{Bytes-discrete}
use filth.Mime.{Types, good, next_extension, read_extensions, read_types, suffix, mime_type}

suffix-lacks : (x : Bytes) → lacks b'.' x ≡ true → suffix x ≡ none
unfolding suffix lacks
suffix-lacks [] h = refl
suffix-lacks (c ∷ x) h = ground (arith, suffix-lacks x)

suffix-append : (name ext : Bytes) → lacks b'.' ext ≡ true → suffix (name ++ b'.' ∷ ext) ≡ some ext
unfolding suffix
suffix-append [] ext h = ground (arith, suffix-lacks ext h)
suffix-append (c ∷ name) ext h = ground (arith, suffix-append name ext h)

-- the last word of a line
read_extensions_last :
    (fuel : ℕ) (type word : Bytes) (d : ℕ) (e : Bytes) (types : Types)
    → is_word (d ∷ e) ≡ true
    → good (word, 32 ∷ d ∷ e) ≡ true
    → read_extensions (suc (suc fuel)) type (word, 32 ∷ d ∷ e) [] types
      ≡ some (insert Bytes-discrete (d ∷ e) type types)
unfolding read_extensions good next_extension
read_extensions_last fuel type word d e types plain open_line =
    if_true _ _ open_line
    ∙ ap
        (λ (after : Bytes × Bytes).
          if good after
          then read_extensions fuel type (extract after.1)
              (next_extension (next_extension [] after.0) (extract after.1).0)
              (insert Bytes-discrete
                (next_extension (next_extension [] after.0) (extract after.1).0) type
                (insert Bytes-discrete (next_extension [] after.0) type types))
          else some (insert Bytes-discrete (next_extension [] after.0) type types))
        (extract_blank (d ∷ e) ∙ extract_last d e plain)

-- A line of a type and an extension gives that type to the file names with that extension, given that both
-- are words, the type does not begin with `#`, and the extension has no `.`.
pub read_types-mime_type :
    (fallback_type name : Bytes) (c d : ℕ) (type ext : Bytes) (types : Types)
    → is_word (c ∷ type) ≡ true
    → is_word (d ∷ ext) ≡ true
    → (c == b'#') ≡ false
    → lacks b'.' (d ∷ ext) ≡ true
    → (t : Types) × (read_types (c ∷ type ++ 32 ∷ d ∷ ext) types ≡ some t)
      × (mime_type fallback_type t (name ++ b'.' ∷ d ∷ ext) ≡ c ∷ type)
unfolding read_types mime_type good
read_types-mime_type fallback_type name c d type ext types word word' no_comment plain = (
  insert Bytes-discrete (d ∷ ext) (c ∷ type) types,
  if_false _ _ no_comment
      ∙ ap
          (λ (first : Bytes × Bytes).
            read_extensions (suc (length (c ∷ type ++ 32 ∷ d ∷ ext))) first.0 first [] types)
          (extract-word c type (d ∷ ext) word)
      ∙ read_extensions_last (length (type ++ 32 ∷ d ∷ ext)) (c ∷ type) (c ∷ type) d ext types word'
          refl,
  ap
        (λ (o : Option Bytes). elim o as (λ _. Bytes) [
          | none ↦ fallback_type
          | some extension ↦
              elim (lookup Bytes-discrete extension
                (insert Bytes-discrete (d ∷ ext) (c ∷ type) types)) [
                  | none ↦ fallback_type
                  | some t ↦ t
                ]
        ])
        (suffix-append name (d ∷ ext) plain)
      ∙ ap (λ (o : Option Bytes). elim o as (λ _. Bytes) [ none ↦ fallback_type | some t ↦ t ])
          (lookup-insert Bytes-discrete (d ∷ ext) (d ∷ ext) (c ∷ type) types
            ∙ if_pos (Bytes-discrete (d ∷ ext) (d ∷ ext)) refl _ _),
)
