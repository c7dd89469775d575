-- ===== src/Http/Entry.antt =====
-- `HTTP_CacheEntry` of src/HTTP_CacheEntry.hpp and src/HTTP_CacheEntry.cpp: a response with what is
-- needed to tell its age. The clock is an argument, `now`, taken to stand still in a call.
pub mod Freshness
use filth.Base.Maps.{insert}
use filth.Base.Text.{Bytes, codes}
use filth.Base.{ℕ, Bool, true, false, List, [], if◌then◌else◌, ℕ_discrete}
use filth.Http.Constants.{Status, ok_status, Header, ContentCoding}
use filth.Int.{ℤ, pos, ◌+ℤ◌, ◌-ℤ◌, ltb_ℤ}

pub record CacheEntry : Type 0 where
  pub szondisk : ℕ
  pub szincache : ℕ
  pub request_time : ℤ
  pub response_time : ℤ
  pub last_modified : ℤ
  pub buf : Bytes
  pub use_expires : Bool
  pub use_max_age : Bool
  pub max_age_value : ℤ
  pub enc : ContentCoding
  pub date_value : ℤ
  pub age_value : ℤ
  pub expires_value : ℤ
  pub hdrs : List (Header × Bytes)
  pub stat : Status
  pub omit_body : Bool
  pub asif_uncompressed : Bool

pub Header-discrete : Discrete Header
Header-discrete = hlevel

-- the constructor; `stat` has no initialiser, so its value is an argument
unfoldable pub new_entry : ℕ → ℕ → ℤ → ℤ → ℤ → Bytes → ContentCoding → Status → CacheEntry
new_entry szondisk szincache request_time response_time last_modified buf enc stat = record {
  szondisk = szondisk;
  szincache = szincache;
  request_time = request_time;
  response_time = response_time;
  last_modified = last_modified;
  buf = buf;
  use_expires = false;
  use_max_age = false;
  max_age_value = pos 0;
  enc = enc;
  date_value = response_time;
  age_value = pos 0;
  expires_value = pos 0;
  hdrs = [];
  stat = stat;
  omit_body = false;
  asif_uncompressed = false;
}

unfoldable pub corrected_received_age : ℤ → CacheEntry → ℤ
corrected_received_age now e =
    let tmp = now -ℤ e.date_value in if ltb_ℤ e.age_value tmp then tmp else e.age_value

unfoldable pub response_delay : CacheEntry → ℤ
response_delay e = e.response_time -ℤ e.request_time

unfoldable pub corrected_initial_age : ℤ → CacheEntry → ℤ
unfolding corrected_received_age response_delay
corrected_initial_age now e = corrected_received_age now e +ℤ response_delay e

unfoldable pub resident_time : ℤ → CacheEntry → ℤ
resident_time now e = now -ℤ e.response_time

unfoldable pub current_age : ℤ → CacheEntry → ℤ
unfolding corrected_initial_age resident_time
current_age now e = corrected_initial_age now e +ℤ resident_time now e

unfoldable pub freshness_lifetime : CacheEntry → ℤ
freshness_lifetime e = if e.use_max_age then e.max_age_value else e.expires_value -ℤ e.date_value

unfoldable pub response_is_fresh : ℤ → CacheEntry → Bool
unfolding freshness_lifetime current_age
response_is_fresh now e = ltb_ℤ (current_age now e) (freshness_lifetime e)

-- `HTTP_CacheEntry::manip`
pub data Manip : Type 0 where
  as_head : Manip
  as_identity : Manip

-- `operator<<` for a header, a status and a manipulator
unfoldable pub push_header : Header → Bytes → CacheEntry → CacheEntry
push_header h s e = record e { hdrs = insert Header-discrete h s e.hdrs }

unfoldable pub push_status : Status → CacheEntry → CacheEntry
push_status s e = record e { stat = s }

unfoldable pub push_manip : Manip → CacheEntry → CacheEntry
push_manip as_head e = record e { omit_body = true }
push_manip as_identity e = record e { asif_uncompressed = true }
