-- ===== src/Http/Output.antt =====
-- How constants and an entry are printed: `operator<<` of src/HTTP_constants.cpp and of
-- src/HTTP_CacheEntry.cpp. Numbers are printed by the library: `decimal` is a parameter.
use filth.Base.Text.{Bytes, codes, split_at, same, skip_space}
use filth.Base.{ℕ, ◌≡◌, refl, false, some, List, [], ◌∷◌, ◌++◌, map, ◌==◌, if◌then◌else◌}
use filth.Http.Constants.{
  Status, status_val, status_name, Header, header_name, identity, content_coding_name,
  content_length, content_encoding, server,
}
use filth.Http.Entry.{CacheEntry}
use filth.Http.Lines.{header_of, find_header, trim_end, crlf}
use filth.Http.Request.Line.{http_version}

-- `operator<<` for a header: hyphens, the colon and the space
unfoldable pub print_header : Header → Bytes
print_header h = map (λ c. if c == b'_' then b'-' else c) (header_name h) ++ codes ": "

module _ (decimal : ℕ → Bytes) where
  -- `operator<<` for a status
  unfoldable pub print_status : Status → Bytes
  print_status s =
      decimal (status_val s) ++ 32 ∷ map (λ c. if c == b'_' then 32 else c) (status_name s)

  -- the size that the entry announces
  unfoldable pub announced : CacheEntry → ℕ
  announced e = if e.omit_body then 0 else if e.asif_uncompressed then e.szondisk else e.szincache

  unfoldable pub print_headers : List (Header × Bytes) → Bytes
  print_headers [] = []
  print_headers ((h, value) ∷ hdrs) = print_header h ++ value ++ crlf ++ print_headers hdrs

  -- `operator<<` for an entry: the text, and the entry without its manipulators. `order` is the order
  -- in which the unordered map has its headers.
  unfoldable pub print_entry :
      Bytes → (List (Header × Bytes) → List (Header × Bytes)) → CacheEntry → Bytes × CacheEntry
  print_entry package_name order e = (
    http_version
        ++ 32 ∷ print_status e.stat
        ++ crlf
        ++ print_header content_length
        ++ decimal (announced e)
        ++ crlf
        ++ print_header content_encoding
        ++ content_coding_name (if e.asif_uncompressed then identity else e.enc)
        ++ crlf
        ++ print_header server
        ++ package_name
        ++ crlf
        ++ print_headers (order e.hdrs)
        ++ crlf,
    record e { omit_body = false; asif_uncompressed = false },
  )

-- A header that is printed, with any value behind it, is read back as the same header.
pub header_of-print_header :
    (h : Header) (value : Bytes) → header_of (print_header h ++ value) ≡ some h
unfolding header_of print_header header_name find_header split_at same skip_space trim_end
header_of-print_header Header.accept value = refl
header_of-print_header Header.accept_charset value = refl
header_of-print_header Header.accept_encoding value = refl
header_of-print_header Header.accept_language value = refl
header_of-print_header Header.accept_ranges value = refl
header_of-print_header Header.age value = refl
header_of-print_header Header.allow value = refl
header_of-print_header Header.authorization value = refl
header_of-print_header Header.cache_control value = refl
header_of-print_header Header.connection value = refl
header_of-print_header Header.content_encoding value = refl
header_of-print_header Header.content_language value = refl
header_of-print_header Header.content_length value = refl
header_of-print_header Header.content_location value = refl
header_of-print_header Header.content_md5 value = refl
header_of-print_header Header.content_range value = refl
header_of-print_header Header.content_type value = refl
header_of-print_header Header.date value = refl
header_of-print_header Header.etag value = refl
header_of-print_header Header.expect value = refl
header_of-print_header Header.expires value = refl
header_of-print_header Header.from value = refl
header_of-print_header Header.host value = refl
header_of-print_header Header.if_match value = refl
header_of-print_header Header.if_modified_since value = refl
header_of-print_header Header.if_none_match value = refl
header_of-print_header Header.if_range value = refl
header_of-print_header Header.if_unmodified_since value = refl
header_of-print_header Header.last_modified value = refl
header_of-print_header Header.location value = refl
header_of-print_header Header.max_forwards value = refl
header_of-print_header Header.pragma value = refl
header_of-print_header Header.proxy_authenticate value = refl
header_of-print_header Header.proxy_authorization value = refl
header_of-print_header Header.range value = refl
header_of-print_header Header.referer value = refl
header_of-print_header Header.retry_after value = refl
header_of-print_header Header.server value = refl
header_of-print_header Header.te value = refl
header_of-print_header Header.trailer value = refl
header_of-print_header Header.transfer_encoding value = refl
header_of-print_header Header.upgrade value = refl
header_of-print_header Header.user_agent value = refl
header_of-print_header Header.vary value = refl
header_of-print_header Header.via value = refl
header_of-print_header Header.warning value = refl
header_of-print_header Header.www_authenticate value = refl
