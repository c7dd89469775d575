-- ===== src/Http/Request/Escape.antt =====
-- `uri_hex_escape` of src/HTTP_Server_Work.cpp, which nothing calls. Each round takes the next `%` with two
-- characters away, so the length of the text and one more is enough fuel. The stream of the library
-- that reads a number from the two characters is a parameter: it may leave the old number.
use filth.Base.Text.{Bytes, lacks}
use filth.Base.{
  ℕ, zero, suc, ◌<◌, ◌≡◌, refl, true, false, Option, none, some, [], ◌∷◌, length, ◌⊎◌, inl, inr,
  arith, Bool-cases, ◌==◌, ◌%◌,
}

-- two characters, and what is behind them
unfoldable pub two_chars : Bytes → Option (ℕ × (ℕ × Bytes))
two_chars [] = none
two_chars (a ∷ []) = none
two_chars (a ∷ (b ∷ x)) = some (a, (b, x))

-- how the function ends
pub data Unescaped : Type 0 where
  bad_request : Unescaped
  text : Bytes → Unescaped

unfoldable pub behind : ℕ → Option Unescaped → Option Unescaped
behind b none = none
behind b (some bad_request) = some bad_request
behind b (some (text x)) = some (text (b ∷ x))

two_chars-cases :
    (x : Bytes)
    → (two_chars x ≡ none)
      ⊎ ((a : ℕ) × (b : ℕ) × (rest : Bytes) × (two_chars x ≡ some (a, (b, rest)))
          × (length x ≡ suc (suc (length rest))))
unfolding two_chars
two_chars-cases [] = inl refl
two_chars-cases (a ∷ []) = inl refl
two_chars-cases (a ∷ (b ∷ x)) = inr (a, b, x, refl, refl)

behind_total : (b : ℕ) (r : Unescaped) → (r' : Unescaped) × (behind b (some r) ≡ some r')
unfolding behind
behind_total b bad_request = (bad_request, refl)
behind_total b (text x) = (text (b ∷ x), refl)

behind-lacks :
    (b : ℕ) (o : Option Unescaped) (y : Bytes)
    → (b == b'%') ≡ false
    → ((x : Bytes) → o ≡ some (text x) → lacks b'%' x ≡ true)
    → behind b o ≡ some (text y)
    → lacks b'%' y ≡ true
unfolding behind lacks
behind-lacks b none y other rest h = absurd (ground arith)
behind-lacks b (some bad_request) y other rest h = absurd (ground arith)
behind-lacks b (some (text x)) [] other rest h = refl
behind-lacks b (some (text x)) (c ∷ y) other rest h = ground (arith, rest x refl)

module _ {Stream : Type 0} (read_hex : ℕ → ℕ → Stream × ℕ → Stream × ℕ) where
  -- The character that is put in is looked at again.
  unfoldable pub uri_hex_escape : ℕ → Stream × ℕ → Bytes → Option Unescaped
  uri_hex_escape zero s x = none
  uri_hex_escape (suc n) s [] = some (text [])
  uri_hex_escape (suc n) s (b ∷ x) = elim (b == b'%') [
    | true ↦ elim (two_chars x) [
      | none ↦ some bad_request
      | some (h, (l, rest)) ↦ uri_hex_escape n (read_hex h l s) ((read_hex h l s).1 % 256 ∷ rest)
    ]
    | false ↦ behind b (uri_hex_escape n s x)
  ]

  -- One unit of fuel more than the text is long is enough, whatever the stream reads.
  pub uri_hex_escape_total :
      (n : ℕ) (s : Stream × ℕ) (x : Bytes)
      → length x < n
      → (r : Unescaped) × (uri_hex_escape n s x ≡ some r)
  unfolding uri_hex_escape two_chars behind
  uri_hex_escape_total zero s x h = absurd (omega arith)
  uri_hex_escape_total (suc n) s [] h = (text [], refl)
  uri_hex_escape_total (suc n) s (b ∷ x) h = elim (Bool-cases (b == b'%')) [
    | inl percent ↦ elim (two_chars-cases x) [
      | inl out ↦ (bad_request, ground arith)
      | inr (a, c, rest, eq, there) ↦
          let again =
            uri_hex_escape_total n (read_hex a c s) ((read_hex a c s).1 % 256 ∷ rest)
              (omega arith) in
          (again.0, ground (arith, again.1, eq))
    ]
    | inr other ↦
        let again = uri_hex_escape_total n s x (omega arith) in
        let shown = behind_total b again.0 in (shown.0, ground (arith, again.1, shown.1))
  ]

  -- No `%` is left in a text that comes back.
  pub uri_hex_escape-lacks :
      (n : ℕ) (s : Stream × ℕ) (x y : Bytes)
      → uri_hex_escape n s x ≡ some (text y)
      → lacks b'%' y ≡ true
  unfolding uri_hex_escape two_chars behind lacks
  uri_hex_escape-lacks zero s x y h = absurd (ground arith)
  uri_hex_escape-lacks (suc n) s [] y h = ground arith
  uri_hex_escape-lacks (suc n) s (b ∷ x) y h = elim (Bool-cases (b == b'%')) [
    | inl percent ↦ elim (two_chars-cases x) [
      | inl out ↦ absurd (ground arith)
      | inr (a, c, rest, eq, there) ↦
          uri_hex_escape-lacks n (read_hex a c s) ((read_hex a c s).1 % 256 ∷ rest) y (ground arith)
    ]
    | inr other ↦
        behind-lacks b (uri_hex_escape n s x) y other (uri_hex_escape-lacks n s x) (ground arith)
  ]
