-- ===== src/Http/Request/Line.antt =====
-- `parsereqln` and `parseuri` of src/HTTP_Server_Work.cpp, and `operator>>` for methods of
-- src/HTTP_constants.cpp. A text is the list of its bytes.
use filth.Base.Text.{Bytes, codes, same, includes, split_at, extract}
use filth.Base.{
  ℕ, ◌-◌, ◌^◌, not, ◌&&◌, ◌||◌, Option, none, some, List, [], ◌∷◌, length, ltb, ◌==◌, if◌then◌else◌,
}
use filth.Http.Constants.{
  Status, bad_request, request_uri_too_long, http_version_not_supported, Method, method_name,
  methods,
}

-- `HTTP_Version`
abbrev pub http_version : Bytes
http_version = codes "HTTP/1.1"

-- `-1` as a `size_t`: no limit
abbrev pub no_limit : ℕ
no_limit = 2 ^ 64 - 1

-- the loop over `method_strs`
unfoldable pub find_method : Bytes → List Method → Option Method
find_method tmp [] = none
find_method tmp (m ∷ ms) = if same tmp (method_name m) then some m else find_method tmp ms

-- `meth`, `path` and `query`, members of HTTP_2616_Server_Work
pub record RequestLine : Type 0 where
  pub meth : Method
  pub path : Bytes
  pub query : Bytes

-- the members as a call leaves them, and the status of the `HTTP_oops` that it throws, if any
abbrev pub Thrown : Type 0
Thrown = RequestLine × Option Status

-- `uri[0]`, which is 0 for the empty string
abbrev pub first : Bytes → ℕ
first [] = 0
first (c ∷ x) = c

abbrev pub rest_of : Bytes → Bytes
rest_of [] = []
rest_of (c ∷ x) = x

-- the split at `?`, behind the slash; without a `?` the old `query` stays
unfoldable pub split_query : Bytes → RequestLine → Option (Bytes × Bytes) → RequestLine
split_query uri t none = record t { path = rest_of uri }
split_query uri t (some (before, behind)) = record t { path = rest_of before; query = behind }

-- `parseuri`
unfoldable pub parse_uri : ℕ → Bytes → RequestLine → Thrown
parse_uri max_req_uri uri t =
    if not (max_req_uri == no_limit) && ltb max_req_uri (length uri)
    then (t, some request_uri_too_long)
    else if same uri (codes "*")
    then (record t { path = codes "*" }, none)
    else if not (first uri == b'/') || includes (codes "..") uri
    then (t, some bad_request)
    else if same uri (codes "/")
    then (record t { path = codes "/" }, none)
    else (split_query uri t (split_at b'?' uri), none)

-- `parsereqln` behind the call of `parseuri`
unfoldable pub check_version : Bytes → Thrown → Thrown
check_version version (t, some e) = (t, some e)
check_version version (t, none) =
    if same version http_version then (t, none) else (t, some http_version_not_supported)

-- `parsereqln`
unfoldable pub parse_request_line : ℕ → Bytes → RequestLine → Thrown
parse_request_line max_req_uri reqln t =
    let (w, tmp) = extract reqln in
    let (uri, tmp') = extract tmp in
    let (version, _) = extract tmp' in
    elim (find_method w methods) [
      | none ↦ (t, some bad_request)
      | some m ↦ check_version version (parse_uri max_req_uri uri (record t { meth = m }))
    ]
