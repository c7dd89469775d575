-- ===== src/Queue/LockFree/Runs.antt =====
-- Each step of a thread of LockFreeQueue keeps the shape of the nodes, and what the thread remembers fits.
use filth.Base.{
  ℕ, suc, ◌≤◌, ◌≡◌, ◌≢◌, refl, sym, Bool, true, false, Option, none, some, [], ◌∷◌, ◌++◌, arith,
  ◌∙◌, ap, inl, inr, Bool-cases, if_true, if_false, ◌==◌, ==_iff, subst,
}
use filth.Queue.LockFree.{
  Mem, Pc, idle, enq_tail, enq_next, enq_check, enq_link, enq_help, enq_swing, enq_up, deq_head,
  deq_tail, deq_ptr, deq_next, deq_check, deq_help, deq_val, deq_swing, deq_down, deq_delete,
  empty_down, empty_up, moves, faults, run, down, up, link, swing_tail, enq_branch, deq_empty,
  deq_branch, update,
}
use filth.Queue.LockFree.Changes.{swing_tail-Change, head-Change, delete-Change}
use filth.Queue.LockFree.Shape.{Linked, Shape, Taken, Local, owner, Read, Behind, Ends}
use filth.Queue.LockFree.Keeps.{
  Kept, KeptBy, if-Kept, Kept-Change, stay, down-Kept, up-Kept, Read-at, Behind-At, link-Kept,
  enq_branch-Kept, Behind-Read, Read-weaken,
}

module _ {T : Type 0} (g : Linked) (m : Mem T) (s : Shape g m) where
  deq_empty-Kept :
      (p : Pc T) (waits : Bool) (last : ℕ) (next : Option ℕ)
      → owner p ≡ none
      → Behind g last next
      → Kept g m p m (deq_empty waits last next)
  unfolding deq_empty
  deq_empty-Kept p true last none free b = stay g m s p empty_down tt (λ x eq. free ∙ eq)
  deq_empty-Kept p false last none free b = stay g m s p idle tt (λ x eq. free ∙ eq)
  deq_empty-Kept p true last (some q) free b =
      stay g m s p (deq_help true last q) b (λ x eq. free ∙ eq)
  deq_empty-Kept p false last (some q) free b =
      stay g m s p (deq_help false last q) b (λ x eq. free ∙ eq)

  deq_val-Kept :
      (p : Pc T) (waits : Bool) (first last i j : ℕ) (next : Option ℕ)
      → owner p ≡ none
      → Ends g first last i j
      → first ≢ last
      → Read g j i next
      → Kept g m p m (deq_val waits first next)
  deq_val-Kept p waits first last i j none free (le, le', le'', eq, eq') other r =
      absurd (other (sym eq ∙ ap g.at (omega arith) ∙ eq'))
  deq_val-Kept p waits first last i j (some q) free (le, le', le'', eq, eq') other r =
      stay g m s p (deq_val waits first (some q)) (i, le, ground (arith, s.tl_le), eq, r.1)
        (λ x eq. free ∙ eq)

  deq_branch-Kept :
      (p : Pc T) (waits : Bool) (first last i j k : ℕ) (next : Option ℕ)
      → owner p ≡ none
      → Ends g first last i j
      → i ≤ k
      → k ≤ g.hd
      → Read g j k next
      → m.head ≡ first
      → Kept g m p m (deq_branch waits first last next)
  unfolding deq_branch
  deq_branch-Kept p waits first last i j k next free (le, le', le'', eq, eq') up down r same =
      let here =
        s.inj i g.hd (omega (arith, s.hd_le, s.tl_le)) (omega (arith, s.hd_le, s.tl_le))
          (eq ∙ sym same ∙ s.head_at) in
      let r' = subst (λ q. Read g j q next) {x = k} {y = i} (omega arith) r in
      elim (Bool-cases (first == last)) [
        | inl one ↦
            subst (Kept g m p m)
              (sym (if_true (deq_empty waits last next) (deq_val waits first next) one))
              (deq_empty-Kept p waits last next free (
                Behind-Read g m s last i next (eq ∙ (==_iff first last).0 one)
                  (Read-weaken g m s j i next r')))
        | inr two ↦
            subst (Kept g m p m)
              (sym (if_false (deq_empty waits last next) (deq_val waits first next) two))
              (deq_val-Kept p waits first last i j next free (le, le', le'', eq, eq')
                (λ e. cc ((==_iff first last).1 e)) r')
      ]

  deq_swing-Kept :
      (waits : Bool) (first next : ℕ) (t : T)
      → m.head ≡ first
      → Taken g first next
      → t ≡ m.val next
      → Kept g m
          (deq_swing waits first next t)
          (record m { head = next; outs = m.outs ++ t ∷ [] })
          (deq_down first)
  deq_swing-Kept waits first next t same (i, le, le', eq, eq') is =
      subst
        (λ v.
          Kept g m (deq_swing waits first next t)
            (record m { head = next; outs = m.outs ++ v ∷ [] }) (deq_down first))
        (sym is)
        (Kept-Change g m s (deq_swing waits first next t) (deq_down first)
          (record m { head = next; outs = m.outs ++ m.val next ∷ [] }) (record g { hd = suc g.hd })
          (head-Change g m next s (i, le, le', eq ∙ sym same, eq')) (i, omega arith, eq)
          (λ x eq. eq))

  pub run-Kept : (p : Pc T) → Local g m p → KeptBy g m p (run p m)
  unfolding run
  run-Kept idle l = tt
  run-Kept (enq_tail n) o =
      stay g m s (enq_tail n) (enq_next n m.tail) (o, (g.tl, omega arith, sym s.tail_at))
        (λ x eq. eq)
  run-Kept (enq_next n last) (o, a) =
      if-Kept g m s (enq_next n last) (m.freed last) faults
        (moves m (enq_check n last (m.next last))) (λ bad. tt)
        (λ fine.
          stay g m s (enq_next n last) (enq_check n last (m.next last))
            (o, a, Behind-At g m s last a) (λ x eq. eq))
  run-Kept (enq_check n last next) (o, a, b) =
      if-Kept g m s (enq_check n last next) (m.tail == last) (moves m (enq_branch n last next))
        (moves m (enq_tail n)) (λ same. enq_branch-Kept g m s n last next o a b)
        (λ moved. stay g m s (enq_check n last next) (enq_tail n) o (λ x eq. eq))
  run-Kept (enq_link n last) (o, a) =
      if-Kept g m s (enq_link n last) (m.freed last) faults (link n last (m.next last) m)
        (λ bad. tt) (λ fine. link-Kept g m s n last (m.next last) refl o a)
  run-Kept (enq_help n last next) (o, l) =
      let (h, c) = swing_tail-Change g m last next s l in
      Kept-Change g m s (enq_help n last next) (enq_tail n) (swing_tail last next m) h c (c.own n o)
        (λ x eq. eq)
  run-Kept (enq_swing n last) l =
      let (h, c) = swing_tail-Change g m last n s l in
      Kept-Change g m s (enq_swing n last) enq_up (swing_tail last n m) h c tt (λ x eq. eq)
  run-Kept enq_up l = up-Kept g m s enq_up idle tt (λ x eq. eq)
  run-Kept (deq_head waits) l =
      stay g m s (deq_head waits) (deq_tail waits m.head) (g.hd, omega arith, sym s.head_at)
        (λ x eq. eq)
  run-Kept (deq_tail waits first) (i, le, eq) =
      stay g m s (deq_tail waits first) (deq_ptr waits first m.tail)
        (i, g.tl, (le, omega (arith, s.hd_le), omega arith, eq, sym s.tail_at)) (λ x eq. eq)
  run-Kept (deq_ptr waits first last) (i, j, e) =
      stay g m s (deq_ptr waits first last) (deq_next waits first last m.head)
        (i, j, g.hd, e, e.0, omega arith, sym s.head_at) (λ x eq. eq)
  run-Kept (deq_next waits first last p) (i, j, k, e, le, le', eq) =
      if-Kept g m s (deq_next waits first last p) (m.freed p) faults
        (moves m (deq_check waits first last (m.next p))) (λ bad. tt)
        (λ fine.
          stay g m s (deq_next waits first last p) (deq_check waits first last (m.next p))
            (
              i,
              j,
              k,
              e,
              le,
              le',
              subst (λ q. Read g j k (m.next q)) eq
                  (Read-at g m s k j (omega (arith, s.hd_le, s.tl_le))
                    (omega (arith, e.2, s.tl_le))),
            )
            (λ x eq. eq))
  run-Kept (deq_check waits first last next) (i, j, k, e, le, le', r) =
      if-Kept g m s (deq_check waits first last next) (m.head == first)
        (moves m (deq_branch waits first last next)) (moves m (deq_head waits))
        (λ same.
          deq_branch-Kept (deq_check waits first last next) waits first last i j k next refl e le
            le' r ((==_iff m.head first).0 same))
        (λ moved. stay g m s (deq_check waits first last next) (deq_head waits) tt (λ x eq. eq))
  run-Kept (deq_help waits last next) l =
      let (h, c) = swing_tail-Change g m last next s l in
      Kept-Change g m s (deq_help waits last next) (deq_head waits) (swing_tail last next m) h c tt
        (λ x eq. eq)
  run-Kept (deq_val waits first none) l = tt
  run-Kept (deq_val waits first (some p)) l =
      if-Kept g m s (deq_val waits first (some p)) (m.freed p) faults
        (moves m (deq_swing waits first p (m.val p))) (λ bad. tt)
        (λ fine.
          stay g m s (deq_val waits first (some p)) (deq_swing waits first p (m.val p)) (l, refl)
            (λ x eq. eq))
  run-Kept (deq_swing waits first next t) (l, eq) =
      if-Kept g m s (deq_swing waits first next t) (m.head == first)
        (moves (record m { head = next; outs = m.outs ++ t ∷ [] }) (deq_down first))
        (moves m (deq_head waits))
        (λ same. deq_swing-Kept waits first next t ((==_iff m.head first).0 same) l eq)
        (λ moved. stay g m s (deq_swing waits first next t) (deq_head waits) tt (λ x eq. eq))
  run-Kept (deq_down first) l =
      down-Kept g m s m.sz (deq_down first) (deq_delete first) (λ k. l) (λ x eq. eq)
  run-Kept (deq_delete first) (i, lt, eq) =
      if-Kept g m s (deq_delete first) (m.freed first) faults
        (moves (record m { freed = update m.freed first true }) idle) (λ bad. tt)
        (λ fine.
          subst (λ q. Kept g m (deq_delete first) (record m { freed = update m.freed q true }) idle)
            eq
            (Kept-Change g m s (deq_delete first) idle
              (record m { freed = update m.freed (g.at i) true }) g (delete-Change g m i s lt) tt
              (λ x eq. eq)))
  run-Kept empty_down l = down-Kept g m s m.sz empty_down empty_up (λ k. tt) (λ x eq. eq)
  run-Kept empty_up l = up-Kept g m s empty_up (deq_head true) tt (λ x eq. eq)
