-- ===== src/Cache/Threads/Refs.antt =====
-- How each section changes the number of readers that the entries count.
use filth.Base.Maps.{lookup-modify, lookup-erase, lookup-insert}
use filth.Base.Words.{inc32, dec32}
use filth.Base.{
  ℕ, ◌+◌, ◌-◌, ◌^◌, ◌≤◌, ◌<◌, ◌≡◌, true, false, List, [], ◌∷◌, ite, if_pos, if_neg, length, arith,
}
use filth.Cache.Defs.{
  Cache, Front, found, get, release, evict_one, enqueue, publish, pick, advise_evict,
}
use filth.Cache.Invariant.{refs}
use filth.Cache.Threads.Steps.{count, erase_one, hold, hit}

module _ {ℓ} {K : Type ℓ} (dec : Discrete K) where
  pub count-erase_one :
      (q h : K) (l : List K)
      → 0 < count dec h l
      → count dec q (erase_one dec h l) ≡ ite (dec q h) (count dec q l - 1) (count dec q l)
  unfolding count erase_one
  count-erase_one q h [] p = absurd (omega arith)
  count-erase_one q h (k ∷ l) p = elim (dec h k) [
    | yes here ↦ rw (if_pos (dec h k) here) (ground arith)
    | no there ↦ rw (if_neg (dec h k) there) (ground (arith, count-erase_one q h l))
  ]

  pub count-le-length : (q : K) (l : List K) → count dec q l ≤ length l
  unfolding count
  count-le-length q [] = omega arith
  count-le-length q (k ∷ l) = ground (arith, count-le-length q l)

module _ {ℓ} {K V : Type ℓ} (dec : Discrete K) where
  -- `get`
  pub refs-get :
      (q h : K) (c : Cache K V) (held : List K)
      → ((k : K) → refs dec k c ≡ count dec k held)
      → length held + 1 < 2 ^ 32
      → refs dec q (get dec h c).0 ≡ count dec q (hold (hit (get dec h c).1) h held)
  unfolding get count
  refs-get q h c held same room = grind (
    arith,
    same q,
    same h,
    count-le-length dec h held,
    lookup-modify dec q h (λ x. record x { refcnt = inc32 x.refcnt }) c.cache,
  )

  pub refs-release :
      (q h : K) (c : Cache K V) (held : List K)
      → ((k : K) → refs dec k c ≡ count dec k held)
      → 0 < count dec h held
      → refs dec h c < 2 ^ 32
      → refs dec q (release dec h c).0 ≡ count dec q (erase_one dec h held)
  unfolding release
  refs-release q h c held same some_held small = grind (
    arith,
    same q,
    same h,
    count-erase_one dec q h held some_held,
    lookup-modify dec q h (λ x. record x { refcnt = dec32 x.refcnt }) c.cache,
  )

  pub refs-evict_one : (q h : K) (c : Cache K V) → refs dec q (evict_one dec h c).0 ≡ refs dec q c
  unfolding evict_one
  refs-evict_one q h c = grind (arith, lookup-erase dec q h c.cache)

  pub refs-advise_evict :
      (q h : K) (c : Cache K V) → refs dec q (advise_evict dec h c) ≡ refs dec q c
  unfolding advise_evict
  refs-advise_evict q h c =
      grind (arith, lookup-modify dec q h (λ x. record x { invalid = true }) c.cache)

  pub refs-publish :
      (q h : K) (s : V) (sz : ℕ) (c : Cache K V) (held : List K)
      → ((k : K) → refs dec k c ≡ count dec k held)
      → refs dec q (publish dec h s sz c).0 ≡ count dec q (hold (publish dec h s sz c).1 h held)
  unfolding publish found count
  refs-publish q h s sz c held same = grind (
    arith,
    same q,
    same h,
    lookup-insert dec q h (record { s = s; refcnt = 1; invalid = false; sz = sz }) c.cache,
  )

  pub refs-pick :
      (front : Front K) (q : K) (c : Cache K V) → refs dec q (pick dec front c).0 ≡ refs dec q c
  unfolding pick
  refs-pick front q c = ground arith

  pub refs-enqueue : (q h : K) (c : Cache K V) → refs dec q (enqueue dec h c) ≡ refs dec q c
  unfolding enqueue
  refs-enqueue q h c = ground arith
