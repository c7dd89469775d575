-- ===== src/Cache/Borrow.antt =====
-- `get` and `unget`: what they do to the entry that is borrowed, and to all others.
use mathlib.Core.List.{lookup}
use filth.Base.Maps.{lookup-modify, lookup-erase}
use filth.Base.Words.{inc32, dec32, dec32_exact, inc32_exact}
use filth.Base.{
  ◌+◌, ◌-◌, ◌^◌, ◌<◌, ◌≡◌, refl, true, false, ◌&&◌, Option, none, some, [], ite, inl, inr, if_pos,
  arith, Bool-cases, ◌∙◌, ◌==◌, if◌then◌else◌,
}
use filth.Cache.Defs.{Stuff, Cache, get, release, evict_one, enqueue, unget}
use filth.Cache.Invariant.{
  Inv, idle, refs, release-Inv, evict_one-Inv, enqueue-Inv, weaken-Inv, settle-Inv,
}

module _ {ℓ} {K V : Type ℓ} (dec : Discrete K) (h : K) where
  -- What `unget` leaves of the entry that it is called for.
  unfoldable pub returned : Stuff V → Option (Stuff V)
  returned e =
      if (e.refcnt == 1) && e.invalid then none else some (record e { refcnt = e.refcnt - 1 })

  returned_kept :
      (e : Stuff V)
      → ((e.refcnt == 1) && e.invalid) ≡ false
      → returned e ≡ some (record e { refcnt = e.refcnt - 1 })
  unfolding returned
  returned_kept e p = rw p

  cache-enqueue : (c : Cache K V) → (enqueue dec h c).cache ≡ c.cache
  unfolding enqueue
  cache-enqueue c = ground arith

  -- A hit hands out the value and counts one more reader; nothing else is touched.
  pub lookup-get :
      (q : K) (c : Cache K V) (e : Stuff V)
      → lookup dec h c.cache ≡ some e
      → e.refcnt + 1 < 2 ^ 32
      → ((get dec h c).1 ≡ some e.s)
        × (lookup dec q (get dec h c).0.cache
            ≡ ite (dec q h) (some (record e { refcnt = e.refcnt + 1 })) (lookup dec q c.cache))
  unfolding get
  lookup-get q c e p room = (
    rw (p, get),
    rw (p, get)
        (ground (
          arith,
          lookup-modify dec q h (λ x. record x { refcnt = inc32 x.refcnt }) c.cache,
          inc32_exact e.refcnt,
        )),
  )

  -- the section that counts a reader less
  lookup-release :
      (q : K) (c : Cache K V) (e : Stuff V)
      → lookup dec h c.cache ≡ some e
      → 0 < e.refcnt
      → e.refcnt < 2 ^ 32
      → ((release dec h c).1 ≡ (e.refcnt == 1))
        × ((release dec h c).2 ≡ ((e.refcnt == 1) && e.invalid))
        × (lookup dec q (release dec h c).0.cache
            ≡ ite (dec q h) (some (record e { refcnt = e.refcnt - 1 })) (lookup dec q c.cache))
  unfolding release
  lookup-release q c e p held small =
      let one = dec32_exact e.refcnt held small in
      rw (p, release)
        (
          ground (arith, one),
          ground (arith, one),
          ground (
            arith,
            lookup-modify dec q h (λ x. record x { refcnt = dec32 x.refcnt }) c.cache,
            one,
          ),
        )

  lookup-evict_one :
      (q : K) (c : Cache K V) (e : Stuff V)
      → lookup dec h c.cache ≡ some e
      → e.refcnt ≡ 0
      → ((evict_one dec h c).1 ≡ true)
        × (lookup dec q (evict_one dec h c).0.cache ≡ ite (dec q h) none (lookup dec q c.cache))
  unfolding evict_one
  lookup-evict_one q c e p free =
      rw (p, evict_one) (ground arith, ground (arith, lookup-erase dec q h c.cache))

  -- `unget` takes one reader away; the last reader of an entry that is marked invalid takes the
  -- entry along. Nothing else is touched.
  pub lookup-unget :
      (q : K) (c : Cache K V) (e : Stuff V)
      → lookup dec h c.cache ≡ some e
      → 0 < e.refcnt
      → e.refcnt < 2 ^ 32
      → lookup dec q (unget dec h c).cache ≡ ite (dec q h) (returned e) (lookup dec q c.cache)
  unfolding unget returned
  lookup-unget q c e p held small =
      let here = lookup-release h c e p held small in
      let there = lookup-release q c e p held small in
      elim (Bool-cases (e.refcnt == 1)) [
        | inl last ↦
            let doenq : (release dec h c).1 ≡ true = ground (arith, here.0) in
            rw doenq elim (Bool-cases e.invalid) [
              | inl bad ↦
                  let gone =
                    lookup-evict_one q (release dec h c).0 (record e { refcnt = e.refcnt - 1 })
                      (here.2 ∙ if_pos (dec h h) refl _ _) (ground arith) in
                  let now : (release dec h c).2 ≡ true = ground (arith, here.1) in
                  rw now (rw gone.0 (gone.1 ∙ rw (last, bad) (drop_both _ _ _ there.2)))
              | inr good ↦
                  let later : (release dec h c).2 ≡ false = ground (arith, here.1) in
                  rw later
                    (rw (cache-enqueue (release dec h c).0, returned_kept e (ground arith)) there.2)
            ]
        | inr more ↦
            let doenq : (release dec h c).1 ≡ false = ground (arith, here.0) in
            rw (doenq, returned_kept e (ground arith)) there.2
      ]
    where
      drop_both :
          (x y z : Option (Stuff V))
          → x ≡ ite (dec q h) z y
          → ite (dec q h) none x ≡ ite (dec q h) none y
      drop_both x y z e = ground arith

  -- Where somebody else still holds the entry, it is not idle.
  pub idle-release :
      (c : Cache K V) → (release dec h c).1 ≡ false → idle dec h (release dec h c).0 ≡ false
  unfolding release
  idle-release c p =
      ground (arith, lookup-modify dec h h (λ x. record x { refcnt = dec32 x.refcnt }) c.cache)

  -- `unget` of an entry that has a reader keeps the invariant of the cache.
  pub unget-Inv :
      (c : Cache K V) → 0 < refs dec h c → Inv dec 0 0 [] c → Inv dec 0 0 [] (unget dec h c)
  unfolding unget
  unget-Inv c held v =
      let after = release-Inv dec h held v in
      elim (Bool-cases (release dec h c).1) [
        | inl last ↦ rw last elim (Bool-cases (release dec h c).2) [
          | inl now ↦ rw now elim (Bool-cases (evict_one dec h (release dec h c).0).1) [
            | inl gone ↦ rw gone (evict_one-Inv dec h after)
            | inr stays ↦
                rw stays (enqueue-Inv dec h (weaken-Inv dec h (evict_one-Inv dec h after)))
          ]
          | inr later ↦ rw later (enqueue-Inv dec h after)
        ]
        | inr more ↦ rw more (settle-Inv dec h (idle-release c more) after)
      ]

  -- A borrow and its return, of an entry that somebody else holds as well, leave every entry of the map
  -- as it was.
  pub unget-get :
      (q : K) (c : Cache K V) (e : Stuff V)
      → lookup dec h c.cache ≡ some e
      → 0 < e.refcnt
      → e.refcnt + 1 < 2 ^ 32
      → lookup dec q (unget dec h (get dec h c).0).cache ≡ lookup dec q c.cache
  unfolding returned
  unget-get q c e p held room = ground (
    arith,
    lookup-get q c e p room,
    lookup-get h c e p room,
    lookup-unget q (get dec h c).0 (record e { refcnt = e.refcnt + 1 }),
  )
