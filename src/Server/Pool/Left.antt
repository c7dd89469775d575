-- ===== src/Server/Pool/Left.antt =====
-- How the threads of ThreadPool leave, and when its destructor is through.
use filth.Base.{
  ℕ, suc, ◌+◌, ◌≤◌, ◌≡◌, ◌≢◌, refl, sym, Option, none, some, List, [], ◌∷◌, arith, inl, inr,
  Bool-cases, ◌==◌, ==_iff, if◌then◌else◌, ◌∙◌, ap, subst,
}
use filth.Server.Pool.{
  Owner, elsewhere, asleep, awake, through, Pool, scan, erase_at, signal, empty, erased, leave,
  wait, Step, leave_step, destroy_step, wake_step, spurious_step, Reach, start, next,
}

abbrev pub count : ℕ → List ℕ → ℕ
count t [] = 0
count t (x ∷ xs) = (if x == t then 1 else 0) + count t xs

scan_none :
    (me : ℕ) (ts : List ℕ) (i : ℕ) (e : Option ℕ) (d : List ℕ)
    → count me ts ≡ 0
    → scan me ts i e d ≡ (e, d)
unfolding scan
scan_none me [] i e d h = refl
scan_none me (t ∷ ts) i e d h = ground (arith, scan_none me ts (suc i) e d)

scan_one :
    (me : ℕ) (ts : List ℕ) (i : ℕ) (e : Option ℕ) (d : List ℕ)
    → count me ts ≡ 1
    → (k : ℕ) × (scan me ts i e d ≡ (some (i + k), me ∷ d))
      × ((t : ℕ) → count t (erase_at k ts) + count t (me ∷ []) ≡ count t ts)
unfolding scan erase_at
scan_one me [] i e d h = absurd (omega arith)
scan_one me (t ∷ ts) i e d h = elim (Bool-cases (t == me)) [
  | inl here ↦ (0, ground (arith, scan_none me ts (suc i) (some i) (t ∷ d)), λ q. ground arith)
  | inr on ↦
      let (k, found, same) = scan_one me ts (suc i) e d (ground arith) in
      (suc k, ground arith, λ q. omega (arith, same q))
]

-- the invariant: what was deleted and what is left make up the pool
record Inv (ids : List ℕ) (p : Pool) : Type 0 where
  pub all : (t : ℕ) → count t p.deleted + count t p.threads ≡ count t ids
  pub sleeps : p.owner ≡ asleep → p.threads ≢ []
  pub over : p.owner ≡ through → p.threads ≡ []

leave_absent : (me : ℕ) (p : Pool) → count me p.threads ≡ 0 → leave me p ≡ p
unfolding leave erased
leave_absent me p h =
    ap (λ (r : Option ℕ × List ℕ). erased r.0 (record p { deleted = r.1 }))
      (scan_none me p.threads 0 none p.deleted h)

signal-ne-asleep : (o : Owner) → signal o ≢ asleep
unfolding signal
signal-ne-asleep elsewhere = λ e. cc
signal-ne-asleep asleep = λ e. cc
signal-ne-asleep awake = λ e. cc
signal-ne-asleep through = λ e. cc

-- the destructor's thread, behind a thread that leaves the list es
still_sleeps : (es : List ℕ) (o : Owner) → (if empty es then signal o else o) ≡ asleep → es ≢ []
still_sleeps [] o eq = absurd (signal-ne-asleep o eq)
still_sleeps (e ∷ es) o eq = λ none_left. cc

still_over :
    (es : List ℕ) (o : Owner) → o ≢ through → (if empty es then signal o else o) ≡ through → es ≡ []
still_over [] o other eq = refl
still_over (e ∷ es) o other eq = absurd (other eq)

erased-Inv :
    (ids : List ℕ) (k me : ℕ) (p : Pool)
    → ((t : ℕ) → count t (erase_at k p.threads) + count t (me ∷ []) ≡ count t p.threads)
    → count me p.threads ≡ 1
    → Inv ids p
    → Inv ids (erased (some k) (record p { deleted = me ∷ p.deleted }))
unfolding erased
erased-Inv ids k me p same one v = record {
  all = λ t. omega (arith, v.all t, same t);
  sleeps = λ eq. still_sleeps (erase_at k p.threads) p.owner eq;
  over = λ eq. still_over (erase_at k p.threads) p.owner (λ done. ground (arith, v.over done)) eq;
}

leave_there :
    (ids : List ℕ) (me : ℕ) (p : Pool) → count me p.threads ≡ 1 → Inv ids p → Inv ids (leave me p)
unfolding leave
leave_there ids me p h v =
    let (k, found, same) = scan_one me p.threads 0 none p.deleted h in
    subst (Inv ids)
      (ap (λ (r : Option ℕ × List ℕ). erased r.0 (record p { deleted = r.1 }))
        (sym (found ∙ ap (λ j. (some j, me ∷ p.deleted)) (omega arith))))
      (erased-Inv ids k me p same h v)

leave-Inv : (ids : List ℕ) (me : ℕ) (p : Pool) → count me ids ≤ 1 → Inv ids p → Inv ids (leave me p)
leave-Inv ids me p once v = elim (Bool-cases (count me p.threads == 0)) [
  | inl absent ↦ subst (Inv ids) (sym (leave_absent me p ((==_iff _ 0).0 absent))) v
  | inr there ↦ leave_there ids me p (ground (arith, v.all me)) v
]

wait-Inv : (ids : List ℕ) (p : Pool) → Inv ids p → Inv ids (wait p)
unfolding wait
wait-Inv ids p v = record {
  all = v.all;
  sleeps = λ eq. waits_for p.threads eq;
  over = λ eq. waited p.threads eq;
}
  where
    waits_for : (ts : List ℕ) → (if empty ts then through else asleep) ≡ asleep → ts ≢ []
    waits_for [] eq = cc
    waits_for (t ∷ ts) eq = λ none_left. cc

    waited : (ts : List ℕ) → (if empty ts then through else asleep) ≡ through → ts ≡ []
    waited [] eq = refl
    waited (t ∷ ts) eq = cc

Step-Inv :
    {ids : List ℕ} {p q : Pool} → ((t : ℕ) → count t ids ≤ 1) → Step p q → Inv ids p → Inv ids q
Step-Inv {ids} {p} once (leave_step me) v = leave-Inv ids me p (once me) v
Step-Inv {ids} {p} once (destroy_step at) v = wait-Inv ids p v
Step-Inv {ids} {p} once (wake_step at) v = wait-Inv ids p v
Step-Inv {ids} {p} once (spurious_step at) v = wait-Inv ids p v

Reach-Inv : {ids : List ℕ} {p : Pool} → ((t : ℕ) → count t ids ≤ 1) → Reach ids p → Inv ids p
Reach-Inv once start = record { all = λ t. omega arith; sleeps = λ eq. cc; over = λ eq. cc }
Reach-Inv once (next r st) = Step-Inv once st (Reach-Inv once r)

-- In whatever order the threads of a pool finish, the object of each is deleted at most once and not while it is
-- in the list; the destructor is never left asleep when the list is empty, and once it is through every one
-- is deleted.
pub Reach-Left :
    {ids : List ℕ} {p : Pool}
    → ((t : ℕ) → count t ids ≤ 1)
    → Reach ids p
    → ((t : ℕ) → count t p.deleted + count t p.threads ≡ count t ids)
      × (p.owner ≡ asleep → p.threads ≢ [])
      × (p.owner ≡ through → (t : ℕ) → count t p.deleted ≡ count t ids)
Reach-Left once r =
    let v = Reach-Inv once r in
    (v.all, v.sleeps, λ done t. omega (arith, v.all t, ap (count t) (v.over done)))
