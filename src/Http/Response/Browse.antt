-- ===== src/Http/Response/Browse.antt =====
-- `browse_req` of src/HTTP_2616_Server_Work.cpp: what the headers of a request say. The lines of the
-- headers are whole, with their names. That the code also overwrites some of them is left out.
use filth.Base.Text.{Bytes, codes, same, includes, extract}
use filth.Base.{ℕ, ◌+◌, Bool, true, ◌&&◌, ◌||◌, Option, none, some, [], ◌∷◌, leb, if◌then◌else◌}
use filth.Http.Constants.{
  Status, not_acceptable, unsupported_media_type, continue_status, expectation_failed,
  ContentCoding, gzip, identity, content_coding_name, accept_encoding, cache_control, connection,
  content_encoding, expect, max_forwards,
}
use filth.Http.Lines.{Hdrs, request_line, field, line_at}
use filth.Http.Request.Line.{RequestLine, Thrown, parse_request_line}
use filth.Http.Response.Serve.{CacheControl}
use filth.Int.{ℤ, negsuc}

-- the members that `browse_req` sets
pub record Browsed : Type 0 where
  pub line : RequestLine
  pub cl_accept_enc : ContentCoding
  pub cl_content_enc : ContentCoding
  pub cl_cache_control : CacheControl
  pub cl_max_fwds : ℕ
  pub deleteme : Bool

-- `util::tolower`
unfoldable pub tolower : Bytes → Bytes
tolower [] = []
tolower (c ∷ x) =
    let rest = tolower x in if leb b'A' c && leb c b'Z' then (32 + c) ∷ rest else c ∷ rest

-- the search for a coding that the server knows
unfoldable pub find_coding : Bytes → Option ContentCoding
find_coding line =
    if includes (content_coding_name gzip) (tolower line)
    then some gzip
    else if includes (content_coding_name identity) (tolower line)
    then some identity
    else none

-- Numbers are read by the library: `scan_time` and `scan_size` take the text and the old value.
module _ (scan_time : Bytes → ℤ → ℤ) (scan_size : Bytes → ℕ → ℕ) where
  -- two words are skipped, and a number is read
  unfoldable pub seconds : Bytes → ℤ → ℤ
  seconds line old =
      let (_, behind) = extract line in let (_, behind') = extract behind in scan_time behind' old

  -- the directives of Cache-Control: the first that is found is the only one
  unfoldable pub read_directive : Bytes → CacheControl → CacheControl
  read_directive line cc =
      if includes (codes "no-cache") line
      then record cc { no_cache = true }
      else if includes (codes "no-store") line
      then record cc { no_store = true }
      else if includes (codes "no-transform") line
      then record cc { no_transform = true }
      else if includes (codes "only-if-cached") line
      then record cc { only_if_cached = true }
      else if includes (codes "max-age") line
      then record cc { use_max_age = true; max_age = seconds line cc.max_age }
      else if includes (codes "max-stale") line
      then record cc {
        use_max_stale = true;
        max_stale = if includes (codes "=") line then seconds line cc.max_stale else negsuc 0;
      }
      else if includes (codes "min-fresh") line
      then record cc { use_min_fresh = true; min_fresh = seconds line cc.min_fresh }
      else cc

  -- one block of the body each: what it sets, and the status of the exception, if any
  abbrev pub Stage : Type 0
  Stage = Browsed → Browsed × Option Status

  unfoldable pub accept_stage : Bytes → Stage
  accept_stage [] t = (t, none)
  accept_stage (c ∷ line) t = elim (find_coding (c ∷ line)) [
    | none ↦ (t, some not_acceptable)
    | some enc ↦ (record t { cl_accept_enc = enc }, none)
  ]

  unfoldable pub cache_stage : Bytes → Stage
  cache_stage [] t = (t, none)
  cache_stage (c ∷ line) t =
      (record t { cl_cache_control = read_directive (c ∷ line) t.cl_cache_control }, none)

  unfoldable pub connection_stage : Bytes → Stage
  connection_stage line t =
      (record t { deleteme = t.deleteme || includes (codes "close") line }, none)

  unfoldable pub content_stage : Bytes → Stage
  content_stage [] t = (t, none)
  content_stage (c ∷ line) t = elim (find_coding (c ∷ line)) [
    | none ↦ (t, some unsupported_media_type)
    | some enc ↦ (record t { cl_content_enc = enc }, none)
  ]

  unfoldable pub expect_stage : Bytes → Stage
  expect_stage [] t = (t, none)
  expect_stage (c ∷ line) t =
      if same (codes "100-continue") (tolower (c ∷ line))
      then (t, some continue_status)
      else (t, some expectation_failed)

  unfoldable pub forwards_stage : Bytes → Stage
  forwards_stage [] t = (t, none)
  forwards_stage (c ∷ line) t =
      (record t { cl_max_fwds = scan_size (c ∷ line) t.cl_max_fwds }, none)

  -- An exception ends the body.
  unfoldable pub then_stage : Browsed × Option Status → Stage → Browsed × Option Status
  then_stage (t, some e) stage = (t, some e)
  then_stage (t, none) stage = stage t

  -- `path == "/"`
  unfoldable pub default_path : Bytes → Browsed → Thrown → Browsed × Option Status
  default_path default_resource t (line, some e) = (record t { line = line }, some e)
  default_path default_resource t (line, none) = (
    record t {
      line = if same line.path (codes "/") then record line { path = default_resource } else line;
    },
    none,
  )

  unfoldable pub browse_req : ℕ → Bytes → Hdrs → Stage
  browse_req max_req_uri default_resource hdrs t =
      let t₀ =
        default_path default_resource t
          (parse_request_line max_req_uri (line_at request_line hdrs) t.line) in
      let t₁ = then_stage t₀ (accept_stage (line_at (field accept_encoding) hdrs)) in
      let t₂ = then_stage t₁ (cache_stage (line_at (field cache_control) hdrs)) in
      let t₃ = then_stage t₂ (connection_stage (line_at (field connection) hdrs)) in
      let t₄ = then_stage t₃ (content_stage (line_at (field content_encoding) hdrs)) in
      let t₅ = then_stage t₄ (expect_stage (line_at (field expect) hdrs)) in
      then_stage t₅ (forwards_stage (line_at (field max_forwards) hdrs))
