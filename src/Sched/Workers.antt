-- ===== src/Sched/Workers.antt =====
-- `Worker::work` of src/Worker.cpp.
use filth.Base.{
  ℕ, zero, suc, ◌<◌, ◌≡◌, ◌≢◌, refl, Bool, true, false, Option, none, some, List, [], ◌∷◌, ◌++◌,
  length, map, arith, if◌then◌else◌, ◌∙◌, ap,
}

-- how a call of the work ends: with its `deleteme`, with a SocketErr, or with another exception
pub data Ran : Type 0 where
  finished : Bool → Ran
  socket_err : Ran
  escapes : Ran

-- `none` on the queue is the null pointer; `deleted` lists the work that has been deleted
pub record Jobs : Type 0 where
  pub q : List (Option ℕ)
  pub deleted : List ℕ

-- The worker has retired, or an exception has left `work`.
pub data Left : Type 0 where
  retired : Left
  terminated : Left

unfoldable pub delete_work : ℕ → Jobs → Jobs
delete_work w j = record j { deleted = w ∷ j.deleted }

-- behind the call of the work; `again` runs the later rounds
unfoldable pub after_work : (Jobs → Option (Jobs × Left)) → ℕ → Ran → Jobs → Option (Jobs × Left)
after_work again w (finished false) j = again j
after_work again w (finished true) j = again (delete_work w j)
after_work again w socket_err j = again (delete_work w j)
after_work again w escapes j = some (j, terminated)

-- which of the pieces of work are deleted, the last one first
unfoldable pub closed : (ℕ → Bool) → List ℕ → List ℕ → List ℕ
closed ends [] deleted = deleted
closed ends (w ∷ ws) deleted = closed ends ws (if ends w then w ∷ deleted else deleted)

-- A call of the work may put anything on the queue, so `run` is a parameter.
module _ (run : ℕ → Jobs → Jobs × Ran) where
  -- `none`: the queue is empty and the worker sleeps, or the fuel ran out
  unfoldable pub work : ℕ → Jobs → Option (Jobs × Left)
  work zero j = none
  work (suc fuel) j = elim j.q [
    | [] ↦ none
    | none ∷ q ↦ some (record j { q = q ++ none ∷ [] }, retired)
    | some w ∷ q ↦
        after_work (work fuel) w (run w (record j { q = q })).1 (run w (record j { q = q })).0
  ]

  -- how a call ends that leaves the jobs alone: its work is done with, or not
  abbrev pub Quiet : (ℕ → Bool) → Type 0
  Quiet ends =
      (w : ℕ) (j : Jobs)
      → ((run w j).0 ≡ j)
        × ((run w j).1 ≢ escapes)
        × (ends w ≡ true → (run w j).1 ≢ finished false)
        × (ends w ≡ false → (run w j).1 ≡ finished false)

  after_work_quiet :
      (again : Jobs → Option (Jobs × Left)) (ends : ℕ → Bool) (w : ℕ) (r : Ran) (j : Jobs)
      → r ≢ escapes
      → (ends w ≡ true → r ≢ finished false)
      → (ends w ≡ false → r ≡ finished false)
      → after_work again w r j ≡ again (if ends w then delete_work w j else j)
  unfolding after_work
  after_work_quiet again ends w (finished false) j safe over on = ground arith
  after_work_quiet again ends w (finished true) j safe over on = ground arith
  after_work_quiet again ends w socket_err j safe over on = ground arith
  after_work_quiet again ends w escapes j safe over on = absurd (safe refl)

  abbrev jobs : List ℕ → List (Option ℕ) → List ℕ → Jobs
  jobs ws later deleted = record { q = map (λ v. some v) ws ++ none ∷ later; deleted = deleted }

  deleted_one :
      (b : Bool) (w : ℕ) (ws : List ℕ) (later : List (Option ℕ)) (deleted : List ℕ)
      → (if b then delete_work w (jobs ws later deleted) else jobs ws later deleted)
        ≡ jobs ws later (if b then w ∷ deleted else deleted)
  unfolding delete_work
  deleted_one true w ws later deleted = refl
  deleted_one false w ws later deleted = refl

  -- If no call of the work changes the queue or throws anything but a SocketErr, and each piece of work
  -- always ends as `ends` says, then a worker runs all the work that stands in the queue before the null
  -- pointer and deletes what is done with or has failed; then it retires, with the null pointer back on
  -- the queue for the others.
  pub work-drains :
      (ends : ℕ → Bool) (fuel : ℕ) (ws : List ℕ) (later : List (Option ℕ)) (deleted : List ℕ)
      → Quiet ends
      → length ws < fuel
      → work fuel (record { q = map (λ w. some w) ws ++ none ∷ later; deleted = deleted })
        ≡ some (record { q = later ++ none ∷ []; deleted = closed ends ws deleted }, retired)
  unfolding work closed delete_work
  work-drains ends zero ws later deleted quiet enough = absurd (omega arith)
  work-drains ends (suc fuel) [] later deleted quiet enough = refl
  work-drains ends (suc fuel) (w ∷ ws) later deleted quiet enough =
      let (same, safe, over, on) = quiet w (jobs ws later deleted) in
      ap (after_work (work fuel) w (run w (jobs ws later deleted)).1) same
      ∙ after_work_quiet (work fuel) ends w (run w (jobs ws later deleted)).1
          (jobs ws later deleted) safe over on
      ∙ ap (work fuel) (deleted_one (ends w) w ws later deleted)
      ∙ work-drains ends fuel ws later (if ends w then w ∷ deleted else deleted) quiet (omega arith)
