-- ===== src/Http/Request/Uri.antt =====
-- What `parseuri` accepts, and the round trip of a request line.
use filth.Base.Text.{
  lacks, split_at-lacks, split_at-append, Bytes, codes, same, same_iff, starts_with, includes,
  split_at, extract, is_word, extract-word, extract_last, extract_blank,
}
use filth.Base.{
  ℕ, ◌+◌, ◌≤◌, ◌≡◌, ◌≢◌, ◌∙◌, if_true, if_false, refl, true, false, Option, none, some, [], ◌∷◌,
  ◌++◌, length, inl, inr, arith, Bool-cases, Option-cases, ◌==◌,
}
use filth.Http.Constants.{
  Status, http_version_not_supported, Method, connect, delete, get, head, options, post, put, trace,
  method_name, methods,
}
use filth.Http.Request.Line.{
  Thrown, http_version, find_method, RequestLine, split_query, parse_uri, check_version,
  parse_request_line,
}

-- a text is what was split
split_at_sound : (c : ℕ) (x a b : Bytes) → split_at c x ≡ some (a, b) → x ≡ a ++ c ∷ b
unfolding split_at
split_at_sound c [] a b e = cc
split_at_sound c (d ∷ x) a b e = elim (Bool-cases (d == c)) [
  | inl here ↦ ground arith
  | inr on ↦ elim (Option-cases (split_at c x)) [
    | inl out ↦ absurd (ground arith)
    | inr ((a', b'), there) ↦ ground (arith, split_at_sound c x a' b' there)
  ]
]

starts_with-append : (x y z : Bytes) → starts_with x y ≡ true → starts_with x (y ++ z) ≡ true
unfolding starts_with
starts_with-append [] y z h = refl
starts_with-append (c ∷ x) [] z h = cc
starts_with-append (c ∷ x) (d ∷ y) z h = ground (arith, starts_with-append x y z)

-- what a part of a text includes, the text includes
includes-append_left :
    (c : ℕ) (x y z : Bytes) → includes (c ∷ x) y ≡ true → includes (c ∷ x) (y ++ z) ≡ true
unfolding includes
includes-append_left c x [] z h = absurd (ground arith)
includes-append_left c x (d ∷ y) z h =
    ground (arith, includes-append_left c x y z, starts_with-append (c ∷ x) (d ∷ y) z)

includes-cons : (x : Bytes) (d : ℕ) (y : Bytes) → includes x (d ∷ y) ≡ false → includes x y ≡ false
unfolding includes
includes-cons x d y h = ground arith

excludes-append_left :
    (c : ℕ) (x y z : Bytes) → includes (c ∷ x) (y ++ z) ≡ false → includes (c ∷ x) y ≡ false
excludes-append_left c x y z h = elim (Bool-cases (includes (c ∷ x) y)) [
  | inl there ↦ absurd (cc (includes-append_left c x y z there))
  | inr out ↦ out
]

-- A URI with a path and a query, no longer than the limit, without `..` and with no `?` in the path,
-- comes apart into them; the method stays.
pub parse_uri-append :
    (max_req_uri : ℕ) (p q : Bytes) (t : RequestLine)
    → length (b'/' ∷ p ++ b'?' ∷ q) ≤ max_req_uri
    → lacks b'?' p ≡ true
    → includes (codes "..") (b'/' ∷ p ++ b'?' ∷ q) ≡ false
    → parse_uri max_req_uri (b'/' ∷ p ++ b'?' ∷ q) t
      ≡ (record { meth = t.meth; path = p; query = q }, none)
unfolding parse_uri split_query same lacks
parse_uri-append max_req_uri p q t fits plain safe =
    ground (arith, split_at-append b'?' (b'/' ∷ p) q, not_slash p q)
  where
    not_slash : (x y : Bytes) → same (b'/' ∷ x ++ b'?' ∷ y) (codes "/") ≡ false
    not_slash [] y = refl
    not_slash (c ∷ x) y = refl

excludes_query :
    (uri : Bytes) (t : RequestLine) (o : Option (Bytes × Bytes))
    → split_at b'?' uri ≡ o
    → includes (codes "..") uri ≡ false
    → includes (codes "..") (split_query uri t o).path ≡ false
unfolding split_query includes
excludes_query [] t none e safe = safe
excludes_query (c ∷ uri) t none e safe = includes-cons (codes "..") c uri safe
excludes_query uri t (some ([], b)) e safe = refl
excludes_query uri t (some (c ∷ a, b)) e safe = includes-cons (codes "..") c a (
    excludes-append_left b'.' (codes ".") (c ∷ a) (b'?' ∷ b)
      (rw (split_at_sound b'?' uri (c ∷ a) b e) at safe))

-- No path that `parseuri` accepts climbs: it has no `..` in it.
pub parse_uri-safe :
    (max_req_uri : ℕ) (uri : Bytes) (t t' : RequestLine)
    → parse_uri max_req_uri uri t ≡ (t', none)
    → includes (codes "..") t'.path ≡ false
unfolding parse_uri includes starts_with
parse_uri-safe max_req_uri uri t t' e =
    ground (arith, excludes_query uri t (split_at b'?' uri) refl)

-- Of two slashes at the front of a URI one is left, if the URI is no longer than the limit and has
-- neither `..` nor a `?`: the path that the server opens is then an absolute one.
pub parse_uri_absolute :
    (max_req_uri : ℕ) (p : Bytes) (t : RequestLine)
    → length p + 2 ≤ max_req_uri
    → lacks b'?' p ≡ true
    → includes (codes "..") (b'/' ∷ b'/' ∷ p) ≡ false
    → parse_uri max_req_uri (b'/' ∷ b'/' ∷ p) t ≡ (record t { path = b'/' ∷ p }, none)
unfolding parse_uri split_query same lacks
parse_uri_absolute max_req_uri p t fits plain safe =
    ground (arith, split_at-lacks b'?' (b'/' ∷ b'/' ∷ p))

find_method-name : (m : Method) → find_method (method_name m) methods ≡ some m
unfolding find_method method_name same
find_method-name connect = refl
find_method-name delete = refl
find_method-name get = refl
find_method-name head = refl
find_method-name options = refl
find_method-name post = refl
find_method-name put = refl
find_method-name trace = refl

extract-method_name :
    (m : Method) (rest : Bytes) → extract (method_name m ++ 32 ∷ rest) ≡ (method_name m, 32 ∷ rest)
unfolding method_name is_word
extract-method_name connect rest = extract-word b'C' (codes "ONNECT") rest refl
extract-method_name delete rest = extract-word b'D' (codes "ELETE") rest refl
extract-method_name get rest = extract-word b'G' (codes "ET") rest refl
extract-method_name head rest = extract-word b'H' (codes "EAD") rest refl
extract-method_name options rest = extract-word b'O' (codes "PTIONS") rest refl
extract-method_name post rest = extract-word b'P' (codes "OST") rest refl
extract-method_name put rest = extract-word b'P' (codes "UT") rest refl
extract-method_name trace rest = extract-word b'T' (codes "RACE") rest refl

parse_request_line-check_version :
    (max_req_uri : ℕ) (m : Method) (c d : ℕ) (uri version : Bytes) (t : RequestLine)
    → is_word (c ∷ uri) ≡ true
    → is_word (d ∷ version) ≡ true
    → parse_request_line max_req_uri (method_name m ++ 32 ∷ (c ∷ uri ++ 32 ∷ d ∷ version)) t
      ≡ check_version (d ∷ version) (parse_uri max_req_uri (c ∷ uri) (record t { meth = m }))
unfolding parse_request_line
parse_request_line-check_version max_req_uri m c d uri version t u v =
    let tail = c ∷ uri ++ 32 ∷ d ∷ version in
    cc (
      extract-method_name m tail,
      find_method-name m,
      extract_blank tail,
      extract-word c uri (d ∷ version) u,
      extract_blank (d ∷ version),
      extract_last d version v,
    )

check_version_cases :
    (version : Bytes) (r : Thrown)
    → (version ≡ codes "HTTP/1.1" → check_version version r ≡ r)
      × (version ≢ codes "HTTP/1.1"
          → r.1 ≡ none
          → check_version version r ≡ (r.0, some http_version_not_supported))
      × ((e : Status) → r.1 ≡ some e → check_version version r ≡ r)
unfolding check_version
check_version_cases version (t, some e) = (λ h. refl, λ h n. cc, λ d h. refl)
check_version_cases version (t, none) = (
  λ h. if_true _ _ ((same_iff version http_version).1 h),
  λ h n. elim (Bool-cases (same version http_version)) [
    | inl yes_ ↦ absurd (h ((same_iff version http_version).0 yes_))
    | inr no_ ↦ if_false _ _ no_
  ],
  λ d h. cc,
)

-- A request line made of the name of a method, a URI and a version, words with a blank between them, is
-- read as that method and what `parseuri` makes of the URI, if the version is HTTP/1.1; with any other
-- version it is refused with 505, where `parseuri` throws nothing; and what `parseuri` throws is thrown.
pub parse_request_line_lem :
    (max_req_uri : ℕ) (m : Method) (c d : ℕ) (uri version : Bytes) (t : RequestLine)
    → is_word (c ∷ uri) ≡ true
    → is_word (d ∷ version) ≡ true
    → (d ∷ version ≡ codes "HTTP/1.1"
        → parse_request_line max_req_uri (method_name m ++ 32 ∷ (c ∷ uri ++ 32 ∷ d ∷ version)) t
          ≡ parse_uri max_req_uri (c ∷ uri) (record t { meth = m }))
      × (d ∷ version ≢ codes "HTTP/1.1"
          → (parse_uri max_req_uri (c ∷ uri) (record t { meth = m })).1 ≡ none
          → parse_request_line max_req_uri (method_name m ++ 32 ∷ (c ∷ uri ++ 32 ∷ d ∷ version)) t
            ≡ (
              (parse_uri max_req_uri (c ∷ uri) (record t { meth = m })).0,
              some http_version_not_supported,
            ))
      × ((e : Status)
          → (parse_uri max_req_uri (c ∷ uri) (record t { meth = m })).1 ≡ some e
          → parse_request_line max_req_uri (method_name m ++ 32 ∷ (c ∷ uri ++ 32 ∷ d ∷ version)) t
            ≡ parse_uri max_req_uri (c ∷ uri) (record t { meth = m }))
parse_request_line_lem max_req_uri m c d uri version t u v =
    let run = parse_request_line-check_version max_req_uri m c d uri version t u v in
    let (good, bad, thrown) =
      check_version_cases (d ∷ version) (parse_uri max_req_uri (c ∷ uri) (record t { meth = m })) in
    (λ h. run ∙ good h, λ h n. run ∙ bad h n, λ e h. run ∙ thrown e h)
