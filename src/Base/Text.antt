-- ===== src/Base/Text.antt =====
-- Text as a list of byte values.
use Prim.Native.Nat.{ℕ}
use Prim.Native.Char.{code}
use Prim.Native.String.{String}
use mathlib.Core.Bool.{Bool, true, false, ◌&&◌}
use mathlib.Core.List.{List, [], ◌∷◌}
use mathlib.Core.List.{◌++◌}
use mathlib.Core.Option
use mathlib.Core.Option.{Option, none, some}
use mathlib.Core.Logic.{◌↔◌}
use mathlib.Core.Bool.{not, ◌||◌}
use mathlib.Core.Path.{◌≡◌, refl}
use native.Mathlib.Omega.{arith}
use filth.Base.Tests.{◌==◌, leb, if◌then◌else◌}

abbrev pub Bytes : Type 0
Bytes = List ℕ

-- the code points of a literal; every literal of the development is ASCII
abbrev pub codes : String → Bytes
codes String.[] = []
codes (String.◌∷◌ c s) = code c ∷ codes s

-- `a == b` on texts
unfoldable pub same : Bytes → Bytes → Bool
same [] [] = true
same [] (y ∷ ys) = false
same (x ∷ xs) [] = false
same (x ∷ xs) (y ∷ ys) = x == y && same xs ys

-- `x` is a prefix of `y`
unfoldable pub starts_with : Bytes → Bytes → Bool
starts_with [] y = true
starts_with (c ∷ x) [] = false
starts_with (c ∷ x) (d ∷ y) = c == d && starts_with x y

-- `y.find(x) != string::npos`
unfoldable pub includes : Bytes → Bytes → Bool
unfolding starts_with
includes x [] = starts_with x []
includes x (d ∷ y) = starts_with x (d ∷ y) || includes x y

-- `y.find(c)`: the text before the first `c` and behind it
unfoldable pub split_at : ℕ → Bytes → Option (Bytes × Bytes)
split_at c [] = none
split_at c (d ∷ y) =
    if d == c then some ([], y) else Option.map (λ p. (d ∷ p.0, p.1)) (split_at c y)

-- `isspace`
unfoldable pub is_space : ℕ → Bool
is_space c = c == 32 || (leb 9 c && leb c 13)

-- no white space in the text
unfoldable pub is_word : Bytes → Bool
unfolding is_space
is_word [] = true
is_word (c ∷ x) = not (is_space c) && is_word x

-- `stream >> word`: white space is skipped, and the word ends before the next
unfoldable pub skip_space : Bytes → Bytes
unfolding is_space
skip_space [] = []
skip_space (c ∷ x) = if is_space c then skip_space x else c ∷ x

unfoldable pub word_at : Bytes → Bytes × Bytes
unfolding is_space
word_at [] = ([], [])
word_at (c ∷ x) = let (w, rest) = word_at x in if is_space c then ([], c ∷ x) else (c ∷ w, rest)

unfoldable pub extract : Bytes → Bytes × Bytes
extract x = word_at (skip_space x)

-- the byte does not occur
unfoldable pub lacks : ℕ → Bytes → Bool
lacks c [] = true
lacks c (d ∷ x) = not (d == c) && lacks c x

pub split_at-lacks : (c : ℕ) (x : Bytes) → lacks c x ≡ true → split_at c x ≡ none
unfolding split_at lacks
split_at-lacks c [] h = refl
split_at-lacks c (d ∷ x) h = ground (arith, split_at-lacks c x)

pub split_at-append :
    (c : ℕ) (x y : Bytes) → lacks c x ≡ true → split_at c (x ++ c ∷ y) ≡ some (x, y)
unfolding split_at lacks
split_at-append c [] y h = ground arith
split_at-append c (d ∷ x) y h = ground (arith, split_at-append c x y)

pub same_iff : (x y : Bytes) → (same x y ≡ true) ↔ (x ≡ y)
unfolding same
same_iff [] [] = (λ e. refl, λ e. refl)
same_iff [] (d ∷ y) = (λ e. cc, λ e. cc)
same_iff (c ∷ x) [] = (λ e. cc, λ e. cc)
same_iff (c ∷ x) (d ∷ y) = (λ e. ground (arith, same_iff x y), λ e. ground (arith, same_iff x y))

-- A word behind which a blank stands, or nothing, is read as it is.
pub word_at-word : (w rest : Bytes) → is_word w ≡ true → word_at (w ++ 32 ∷ rest) ≡ (w, 32 ∷ rest)
unfolding word_at is_word
word_at-word [] rest h = refl
word_at-word (c ∷ w) rest h = ground (arith, word_at-word w rest)

word_at_end : (w : Bytes) → is_word w ≡ true → word_at w ≡ (w, [])
unfolding word_at is_word
word_at_end [] h = refl
word_at_end (c ∷ w) h = ground (arith, word_at_end w)

skip_space-word : (c : ℕ) (w : Bytes) → is_word (c ∷ w) ≡ true → skip_space (c ∷ w) ≡ c ∷ w
unfolding skip_space is_word
skip_space-word c w h = ground arith

is_word-head : (c : ℕ) (w rest : Bytes) → is_word (c ∷ w) ≡ true → skip_space (c ∷ rest) ≡ c ∷ rest
unfolding skip_space is_word
is_word-head c w rest h = ground arith

pub extract-word :
    (c : ℕ) (w rest : Bytes)
    → is_word (c ∷ w) ≡ true
    → extract (c ∷ w ++ 32 ∷ rest) ≡ (c ∷ w, 32 ∷ rest)
unfolding extract
extract-word c w rest h = rw (is_word-head c w (w ++ 32 ∷ rest) h) (word_at-word (c ∷ w) rest h)

pub extract_last : (c : ℕ) (w : Bytes) → is_word (c ∷ w) ≡ true → extract (c ∷ w) ≡ (c ∷ w, [])
unfolding extract
extract_last c w h = rw (skip_space-word c w h) (word_at_end (c ∷ w) h)

-- the blank between two words
pub extract_blank : (x : Bytes) → extract (32 ∷ x) ≡ extract x
unfolding extract skip_space
extract_blank x = refl
