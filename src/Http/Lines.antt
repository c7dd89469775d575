-- ===== src/Http/Lines.antt =====
-- Header lines: `operator>>` and `operator<<` of src/HTTP_parsing.cpp, and `operator>>` for a header
-- of src/HTTP_constants.cpp.
pub mod Block
pub mod Print
use mathlib.Core.List.{lookup}
use filth.Base.Maps.{insert}
use filth.Base.Text.{Bytes, codes, same, includes, split_at, is_space, skip_space}
use filth.Base.{
  ℕ, zero, suc, ◌-◌, Bool, true, false, not, ◌&&◌, Option, none, some, List, [], ◌∷◌, ◌++◌, length,
  ltb, ◌==◌, if◌then◌else◌, map,
}
use filth.Http.Constants.{Header, header_name, headers}
use filth.Http.Request.Line.{http_version, no_limit}

-- an index of `structured_hdrs_type`: a header, or `reqln` behind them all
pub data Slot : Type 0 where
  request_line : Slot
  field : Header → Slot

unfoldable pub Slot-discrete : Discrete Slot
Slot-discrete = hlevel

-- the two loops over hyphens and over white space at either end of the name
abbrev pub underscores : Bytes → Bytes
underscores x = map (λ c. if c == b'-' then b'_' else c) x

unfoldable pub trim_end : Bytes → Bytes
trim_end [] = []
trim_end (c ∷ x) =
    let rest = trim_end x in
    elim rest [ [] ↦ if is_space c then [] else c ∷ [] | d ∷ y ↦ c ∷ d ∷ y ]

-- the loop over `header_strs`
unfoldable pub find_header : Bytes → List Header → Option Header
find_header tmp [] = none
find_header tmp (h ∷ hs) =
    let rest = find_header tmp hs in if same tmp (header_name h) then some h else rest

-- `stream >> h` on one line. A name of blanks alone, where the code reads outside the string, is taken
-- for one that is not found.
unfoldable pub header_of : Bytes → Option Header
header_of line = elim (split_at b':' line) [
  | none ↦ none
  | some p ↦ find_header (trim_end (skip_space (underscores p.0))) headers
]

abbrev pub Hdrs : Type 0
Hdrs = List (Slot × Bytes)

-- `hdrs[...] = line`; a header that is not known is dropped
unfoldable pub store_line : Bytes → Hdrs → Hdrs
store_line line hdrs =
    if includes http_version line
    then insert Slot-discrete request_line line hdrs
    else elim (header_of line) [ none ↦ hdrs | some h ↦ insert Slot-discrete (field h) line hdrs ]

-- true, false, or `HTTP_oops(Bad_Request)`
pub data Outcome : Type 0 where
  complete : Outcome
  partial : Outcome
  refused : Outcome

-- what is unread afterwards, and the headers
pub record HeaderRead : Type 0 where
  pub outcome : Outcome
  pub unread : Bytes
  pub hdrs : Hdrs

-- `peek() == '\n'`, and what is behind it
unfoldable pub newline : Bytes → Option Bytes
newline [] = none
newline (c ∷ x) = if c == 10 then some x else none

unfoldable pub too_long : ℕ → Bytes → Bool
too_long max_line_len line = not (max_line_len == no_limit) && ltb max_line_len (length line)

-- `seekg(-line.length(), ios::cur)` behind the `\r` that `getline` has taken
unfoldable pub seek_back : Bytes → Bytes → Bytes
seek_back [] rest = rest
seek_back (c ∷ line) rest = line ++ 13 ∷ rest

-- Text that ends before a `\r`: it is put back whole, unless it is too long a line already.
unfoldable pub read_last : ℕ → Bytes → Hdrs → HeaderRead
read_last max_line_len line hdrs =
    if too_long max_line_len line
    then record { outcome = refused; unread = []; hdrs = hdrs }
    else record { outcome = partial; unread = line; hdrs = hdrs }

-- one round, on a line and what is behind its `\r`; `again` runs the later rounds
unfoldable pub read_line :
    (Bytes → Hdrs → Option HeaderRead) → ℕ → Bytes → Bytes → Hdrs → Option HeaderRead
read_line again max_line_len [] rest hdrs = elim (newline rest) [
  | none ↦ some (record { outcome = partial; unread = rest; hdrs = hdrs })
  | some rest' ↦ some (record { outcome = complete; unread = rest'; hdrs = hdrs })
]
read_line again max_line_len (c ∷ line) rest hdrs =
    if too_long max_line_len (c ∷ line)
    then some (record { outcome = refused; unread = rest; hdrs = hdrs })
    else elim (newline rest) [
      | none ↦ some (record { outcome = partial; unread = seek_back (c ∷ line) rest; hdrs = hdrs })
      | some rest' ↦ again rest' (store_line (c ∷ line) hdrs)
    ]

-- `stream >> hdrs`; `none` means that the fuel ran out
unfoldable pub read_headers : ℕ → ℕ → Bytes → Hdrs → Option HeaderRead
read_headers zero max_line_len x hdrs = none
read_headers (suc fuel) max_line_len x hdrs = elim (split_at 13 x) [
  | none ↦ some (read_last max_line_len x hdrs)
  | some p ↦ read_line (read_headers fuel max_line_len) max_line_len p.0 p.1 hdrs
]

-- `hdrs[h]`, which is empty at first
unfoldable pub line_at : Slot → Hdrs → Bytes
line_at s hdrs = elim (lookup Slot-discrete s hdrs) [ none ↦ [] | some line ↦ line ]

abbrev pub crlf : Bytes
crlf = 13 ∷ 10 ∷ []

unfoldable pub print_slots : List Slot → Hdrs → Bytes
print_slots [] hdrs = []
print_slots (s ∷ slots) hdrs = elim (line_at s hdrs) [
  | [] ↦ print_slots slots hdrs
  | c ∷ line ↦ (c ∷ line) ++ crlf ++ print_slots slots hdrs
]

-- counting down, the request line first
unfoldable pub slots_down : List Header → List Slot → List Slot
slots_down [] below = below
slots_down (h ∷ hs) below = slots_down hs (field h ∷ below)

abbrev pub all_slots : List Slot
all_slots = request_line ∷ slots_down headers []

-- `stream << hdrs`
unfoldable pub print_hdrs : Hdrs → Bytes
print_hdrs hdrs = print_slots all_slots hdrs ++ crlf
