-- ===== src/Http/Response/Read.antt =====
-- The part of `prepare_response` of src/HTTP_2616_Server_Work.cpp for the methods that read. What
-- HTTP_Origin_Server returns is an argument, none where its call of `request` does not return.
use filth.Base.Maps.{insert, lookup-insert}
use mathlib.Core.List.{lookup}
use mathlib.Core.Option
use filth.Base.Text.{Bytes, codes}
use filth.Base.{
  ◌≢◌, if_neg, if_pos, subst, List, ℕ, ◌*◌, ◌^◌, ◌<◌, ◌≡◌, refl, ap, ◌∙◌, Bool, true, false, Option,
  none, some, [], inl, inr, arith, Bool-cases, ◌==◌, if◌then◌else◌,
}
use filth.Cache.Defs.{Cache, Front, FrontLaws}
use filth.Cache.Invariant.{Inv}
use filth.Cache.Put.{new_entry}
use filth.Http.Constants.{
  Header, Status, not_found, internal_server_error, forbidden, gateway_timeout, Method, head,
  ContentCoding, gzip, identity, compress, deflate, content_type, date, last_modified, expires,
}
use filth.Http.Entry.{
  Header-discrete, CacheEntry, push_header, push_status, push_manip, as_head, as_identity,
}
use filth.Http.Response.Serve.{Bytes-discrete, CacheControl}
use filth.Base.Errno.{enoent, eacces, eisdir, espipe}
use filth.Http.Response.Store.{cache_put, cache_put-Stored}
use filth.Int.{ℤ, pos, ◌+ℤ◌}

-- what the origin server answers: an entry, or an error with the page that `dirtoHTML` makes, if any
pub data Origin : Type 0 where
  fetched : CacheEntry → Origin
  failed : ℕ → Option CacheEntry → Origin

-- an entry to answer with, the work of a socket, or an `HTTP_oops`
pub data ReadReply : Type 0 where
  served : CacheEntry → ReadReply
  to_socket : ReadReply
  throws : Status → ReadReply

finds :
    (h : Header) (x : Bytes) (hdrs : List (Header × Bytes))
    → lookup Header-discrete h (insert Header-discrete h x hdrs) ≡ some x
finds h x hdrs = lookup-insert Header-discrete h h x hdrs ∙ if_pos (Header-discrete h h) refl _ _

skips :
    (h k : Header) (x : Bytes) (hdrs : List (Header × Bytes))
    → h ≢ k
    → lookup Header-discrete h (insert Header-discrete k x hdrs) ≡ lookup Header-discrete h hdrs
skips h k x hdrs apart =
    lookup-insert Header-discrete h k x hdrs ∙ if_neg (Header-discrete h k) apart _ _

fetched_same : (e e' : CacheEntry) → some (fetched e) ≡ some (fetched e') → e ≡ e'
fetched_same e e' q = cc q

-- MIME types and dates are printed by code that the cache does not depend on.
module _ (mime : Bytes → Bytes) (print_date : ℤ → Bytes) (cache_expires : ℕ) where
  -- `use_expires`, `expires_value` and the header
  unfoldable pub with_expiry : ℤ → CacheEntry → CacheEntry
  with_expiry now e =
      let at_time = now +ℤ pos (60 * cache_expires) in
      push_header expires (print_date at_time)
        (record e { use_expires = true; expires_value = at_time })

  -- the headers of a file
  unfoldable pub file_headers : ℤ → Status → Bytes → CacheEntry → CacheEntry
  file_headers now stat path e = with_expiry now (
      push_header last_modified (print_date e.last_modified) (
        push_header date (print_date now)
          (push_header content_type (mime path) (push_status stat e))))

  -- the headers of a directory
  unfoldable pub directory_headers : ℤ → Status → CacheEntry → CacheEntry
  directory_headers now stat e = with_expiry now (
      push_header date (print_date now)
        (push_header content_type (codes "text/html") (push_status stat e)))

  -- what an entry says that is served for a file that the origin server had in the entry `e`
  pub record FileEntry (now : ℤ) (stat : Status) (path : Bytes) (e s : CacheEntry) : Type 0 where
    pub bytes : s.buf ≡ e.buf
    pub status : s.stat ≡ stat
    pub expiry_set : s.use_expires ≡ true
    pub expiry : s.expires_value ≡ now +ℤ pos (60 * cache_expires)
    pub type_there : lookup Header-discrete content_type s.hdrs ≡ some (mime path)
    pub date_there : lookup Header-discrete date s.hdrs ≡ some (print_date now)
    pub modified_there :
        lookup Header-discrete last_modified s.hdrs ≡ some (print_date e.last_modified)
    pub expiry_there :
        lookup Header-discrete expires s.hdrs ≡ some (print_date (now +ℤ pos (60 * cache_expires)))

  file_headers-FileEntry :
      (now : ℤ) (stat : Status) (path : Bytes) (e : CacheEntry)
      → FileEntry now stat path e (file_headers now stat path e)
  unfolding file_headers with_expiry push_header push_status
  file_headers-FileEntry now stat path e = record {
    bytes = refl;
    status = refl;
    expiry_set = refl;
    expiry = refl;
    type_there =
        skips content_type expires _ _ (λ q. cc)
        ∙ skips content_type last_modified _ _ (λ q. cc)
        ∙ skips content_type date _ _ (λ q. cc)
        ∙ finds content_type _ _;
    date_there =
        skips date expires _ _ (λ q. cc) ∙ skips date last_modified _ _ (λ q. cc) ∙ finds date _ _;
    modified_there = skips last_modified expires _ _ (λ q. cc) ∙ finds last_modified _ _;
    expiry_there = finds expires _ _;
  }

  -- the branches for an error of the origin server
  unfoldable pub read_error : ℤ → Status → ℕ → Option CacheEntry → ReadReply
  read_error now stat err page =
      if err == enoent
      then throws not_found
      else if err == eacces
      then throws forbidden
      else if err == eisdir
      then elim page [
        | none ↦ throws internal_server_error
        | some e ↦ served (directory_headers now stat e)
      ]
      else if err == espipe
      then to_socket
      else throws internal_server_error

  abbrev pub fetched_reply :
      CacheEntry → Cache Bytes CacheEntry × Bool → Cache Bytes CacheEntry × Bool × ReadReply
  fetched_reply e r = (r.0, r.1, served e)

  module _ (front : Front Bytes) (new_ok : Bool) (now : ℤ) (stat : Status) (meth : Method)
      (cc : CacheControl) (path : Bytes) where
    -- the cache afterwards, `resp_is_cached` and the reply, where the cache had nothing
    unfoldable pub read_miss :
        Option Origin → Cache Bytes CacheEntry → Option (Cache Bytes CacheEntry × Bool × ReadReply)
    read_miss none c = if cc.only_if_cached then some (c, false, throws gateway_timeout) else none
    read_miss (some (failed err page)) c =
        if cc.only_if_cached
        then some (c, false, throws gateway_timeout)
        else some (c, false, read_error now stat err page)
    read_miss (some (fetched e)) c =
        if cc.only_if_cached
        then some (c, false, throws gateway_timeout)
        else Option.map (fetched_reply (file_headers now stat path e))
            (cache_put front new_ok now meth cc path (file_headers now stat path e) c)

    -- from the question to the cache on
    unfoldable pub read_from :
        Option Origin
        → Cache Bytes CacheEntry × Option CacheEntry
        → Option (Cache Bytes CacheEntry × Bool × ReadReply)
    read_from origin (c, some e) = some (c, true, served e)
    read_from origin (c, none) = read_miss origin c

    read_miss-fetched :
        (e : CacheEntry) (c : Cache Bytes CacheEntry)
        → cc.only_if_cached ≡ false
        → read_miss (some (fetched e)) c
          ≡ Option.map
              (fetched_reply (file_headers now stat path e))
              (cache_put front new_ok now meth cc path (file_headers now stat path e) c)
    unfolding read_miss
    read_miss-fetched e c any =
        ap
          (λ (b : Bool).
            if b
            then some (c, false, throws gateway_timeout)
            else Option.map (fetched_reply (file_headers now stat path e))
                (cache_put front new_ok now meth cc path (file_headers now stat path e) c))
          any

    -- On a miss, with a cache whose invariant holds and whose limit is below 2^63, the reply comes if
    -- the call of the origin server returns, which only-if-cached does without. With only-if-cached it is
    -- 504, and the cache is not touched; otherwise a file that the origin server has is served, with its
    -- bytes, the status, and the type, the dates and the expiry in its headers. If the response counts as
    -- cached, the entry that is served is in the cache, with one reader.
    pub read_miss_lem :
        (laws : FrontLaws Bytes-discrete front) (origin : Option Origin)
        (c : Cache Bytes CacheEntry)
        → c.max < 2 ^ 63
        → Inv Bytes-discrete 0 0 [] c
        → (cc.only_if_cached ≡ false → origin ≢ none)
        → (r : Cache Bytes CacheEntry × Bool × ReadReply) × (read_miss origin c ≡ some r)
          × (cc.only_if_cached ≡ true → r ≡ (c, false, throws gateway_timeout))
          × (cc.only_if_cached ≡ false
              → (e : CacheEntry) → origin ≡ some (fetched e)
              → (s : CacheEntry) × (r.2 ≡ served s) × FileEntry now stat path e s)
          × (r.1 ≡ true
              → (e : CacheEntry) × (r.2 ≡ served e)
                × (lookup Bytes-discrete path r.0.cache ≡ some (new_entry e e.szincache)))
    unfolding read_miss
    read_miss_lem laws none c bound v answers = elim (Bool-cases cc.only_if_cached) [
      | inl only ↦ (
        (c, false, throws gateway_timeout),
        rw (only, read_miss) refl,
        λ h. refl,
        λ h e q. absurd (ground (arith, only, h)),
        λ h. absurd (ground (arith, h)),
      )
      | inr any ↦ absurd (answers any refl)
    ]
    read_miss_lem laws (some (failed err page)) c bound v answers =
        elim (Bool-cases cc.only_if_cached) [
          | inl only ↦ (
            (c, false, throws gateway_timeout),
            rw (only, read_miss) refl,
            λ h. refl,
            λ h e q. absurd (ground (arith, only, h)),
            λ h. absurd (ground (arith, h)),
          )
          | inr any ↦ (
            (c, false, read_error now stat err page),
            rw (any, read_miss) refl,
            λ h. absurd (ground (arith, any, h)),
            λ h e q. absurd (ground (arith, q)),
            λ h. absurd (ground (arith, h)),
          )
        ]
    read_miss_lem laws (some (fetched e)) c bound v answers = elim (Bool-cases cc.only_if_cached) [
      | inl only ↦ (
        (c, false, throws gateway_timeout),
        rw (only, read_miss) refl,
        λ h. refl,
        λ h e q. absurd (ground (arith, only, h)),
        λ h. absurd (ground (arith, h)),
      )
      | inr any ↦
          let full = file_headers now stat path e in
          let (r, run, put_in, _) =
            cache_put-Stored front laws new_ok now meth cc path full c bound v in
          (
            (r.0, r.1, served full),
            read_miss-fetched e c any ∙ ap (Option.map (fetched_reply full)) run,
            λ h. absurd (ground (arith, any, h)),
            λ h e' q. (
              full,
              refl,
              subst (λ k. FileEntry now stat path k full) (fetched_same e e' q)
                  (file_headers-FileEntry now stat path e),
            ),
            λ h. (full, refl, (put_in h).2),
          )
    ]

  -- The body: none, as it stands in the entry, or uncompressed, which may fail for want of memory or on
  -- bad data. `cl_accept_enc` is never one of the other two codings.
  unfoldable pub choose_body :
      (CacheEntry → Option Bytes)
      → Method
      → ContentCoding
      → CacheEntry
      → CacheEntry × Option (Option Bytes)
  choose_body uncompress head enc e = (push_manip as_head e, some none)
  choose_body uncompress meth gzip e = (e, some (some e.buf))
  choose_body uncompress meth identity e = elim (uncompress e) [
    | none ↦ (e, none)
    | some text ↦ (push_manip as_identity e, some (some text))
  ]
  choose_body uncompress meth compress e = (e, some none)
  choose_body uncompress meth deflate e = (e, some none)
