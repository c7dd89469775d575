-- ===== src/Http/Entry/Freshness.antt =====
-- The age of an entry, against the definition of RFC 2616, section 13.2.3.
use filth.Base.Text.{Bytes}
use filth.Base.{ℕ, ◌≡◌, refl, arith, if◌then◌else◌}
use filth.Http.Constants.{Status, ContentCoding}
use filth.Http.Entry.{CacheEntry, new_entry, current_age, corrected_received_age}
use filth.Int.{ℤ, pos, ◌+ℤ◌, ◌-ℤ◌, ◌≤ℤ◌, ltb_ℤ, int_laws}

-- RFC 2616, 13.2.3: the age that a response had when it came in is measured at that time.
abbrev apparent_age : CacheEntry → ℤ
apparent_age e = let d = e.response_time -ℤ e.date_value in if ltb_ℤ d (pos 0) then pos 0 else d

abbrev received_age : CacheEntry → ℤ
received_age e = if ltb_ℤ e.age_value (apparent_age e) then apparent_age e else e.age_value

-- `now - response_time` on top of it, and the delay of the response
abbrev pub rfc_current_age : ℤ → CacheEntry → ℤ
rfc_current_age now e =
    received_age e +ℤ (e.response_time -ℤ e.request_time) +ℤ (now -ℤ e.response_time)

sub_self : (a : ℤ) → a -ℤ a ≡ pos 0
sub_self a = omega int_laws

sub_nonneg : (a b : ℤ) → b ≤ℤ a → pos 0 ≤ℤ a -ℤ b
sub_nonneg a b h = omega int_laws

larger : (t : ℤ) → pos 0 ≤ℤ t → (if ltb_ℤ (pos 0) t then t else pos 0) ≡ t
larger t h = ground arith

regroup : (a b : ℤ) → a +ℤ b +ℤ a ≡ pos 0 +ℤ b +ℤ a +ℤ a
regroup a b = omega int_laws

module _ (szondisk szincache : ℕ) (request_time response_time last_modified : ℤ) (buf : Bytes)
    (enc : ContentCoding) (stat : Status) where
  abbrev made : CacheEntry
  made = new_entry szondisk szincache request_time response_time last_modified buf enc stat

  received_age-new_entry : received_age made ≡ pos 0
  unfolding new_entry
  received_age-new_entry = rw (sub_self response_time) refl

  corrected_received_age-new_entry :
      (now : ℤ) → response_time ≤ℤ now → corrected_received_age now made ≡ now -ℤ response_time
  unfolding new_entry corrected_received_age
  corrected_received_age-new_entry now later = larger _ (sub_nonneg now response_time later)

  -- As the constructor leaves an entry, the time since its response counts twice in its age: the age
  -- exceeds the one that RFC 2616 defines by that time.
  pub current_age-new_entry :
      (now : ℤ)
      → response_time ≤ℤ now
      → current_age now made ≡ rfc_current_age now made +ℤ (now -ℤ response_time)
  unfolding current_age new_entry
  current_age-new_entry now later =
      rw (corrected_received_age-new_entry now later, received_age-new_entry)
        (regroup (now -ℤ response_time) (response_time -ℤ request_time))
