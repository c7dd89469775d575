-- ===== src/Queue/LockFree/Order.antt =====
-- LockFreeQueue hands out in order what was put in, as its threads interleave.
use filth.Base.{
  ℕ, zero, suc, ◌+◌, ◌-◌, ◌≤◌, ◌≡◌, ◌≢◌, refl, sym, false, none, some, List, [], ◌∷◌, ◌++◌, arith,
  ◌∙◌, ap, inl, inr, Bool-cases, ◌==◌, ==_iff, if_true, if_false, subst,
}
use filth.Queue.LockFree.{
  Mem, Pc, idle, Call, enq, nowait_deq, wait_deq, begin, update, System, start, Step, call_step,
  run_step, Reach, new, later,
}
use filth.Queue.LockFree.Changes.{no-Change}
use filth.Queue.LockFree.Fresh.{new-Change, new-Own}
use filth.Queue.LockFree.Keeps.{Kept, KeptBy}
use filth.Queue.LockFree.Runs.{run-Kept}
use filth.Queue.LockFree.Shape.{Linked, Shape, Local, Local-Grows, owner, owner-Own, items}

module _ {T : Type 0} where
  -- The invariant of the threads together: no two have made the same node.
  record Inv (s : System T) : Type 0 where
    g : Linked
    shape : Shape g s.mem
    here : (i : ℕ) → Local g s.mem (s.pc i)
    apart : (i j x : ℕ) → i ≢ j → owner (s.pc i) ≡ some x → owner (s.pc j) ≢ some x

  start-Inv : (t : T) → Inv (start t)
  start-Inv t = record {
    g = record { at = λ i. 0; hd = 0; tl = 0; len = 0 };
    shape = record {
      head_at = refl;
      tail_at = refl;
      hd_le = omega arith;
      tl_le = omega arith;
      inj = λ i j le le' eq. omega arith;
      inner = λ i lt. absurd (omega arith);
      end = refl;
      old = λ i le. omega arith;
      gone = λ i le gone. absurd (cc);
      unused = λ p le. refl;
      order = refl;
    };
    here = λ i. tt;
    apart = λ i j x other eq. absurd (cc);
  }

  update_both :
      (f : ℕ → Pc T) (i j : ℕ) (q : Pc T) (P : Pc T → Type 0)
      → (j ≡ i → P q)
      → (j ≢ i → P (f j))
      → P (update f i q j)
  update_both f i j q P here away = elim (Bool-cases (j == i)) [
    | inl same ↦ subst P (sym (if_true q (f j) same)) (here ((==_iff j i).0 same))
    | inr other ↦
        subst P (sym (if_false q (f j) other)) (away (λ e. absurd (ground (arith, other))))
  ]

  -- a thread that stands at p goes to q, and the others stay where they are
  Kept-Inv :
      (s : System T) (v : Inv s) (i : ℕ) (m : Mem T) (q : Pc T)
      → Kept v.g s.mem (s.pc i) m q
      → Inv (record { mem = m; pc = update s.pc i q })
  Kept-Inv s v i m q k =
      let others : (j : ℕ) → j ≢ i → Local k.h m (s.pc j) = λ j other.
        Local-Grows v.g k.h s.mem m v.shape k.grows (s.pc j)
          (λ x eq o. k.own x (λ mine. v.apart i j x (λ same. other (sym same)) mine eq) o)
          (v.here j) in
      let fresh : (j x : ℕ) → j ≢ i → owner q ≡ some x → owner (s.pc j) ≢ some x =
        λ j x other mine theirs. elim (k.from x mine) [
          | inl old ↦ v.apart i j x (λ same. other (sym same)) old theirs
          | inr made ↦
              absurd (omega (arith, (owner-Own v.g s.mem (s.pc j) x theirs (v.here j)).made))
        ] in
      record {
        g = k.h;
        shape = k.shape;
        here = λ j. update_both s.pc i j q (Local k.h m) (λ same. k.here) (others j);
        apart = λ j l x other.
            update_both s.pc i j q (λ p. owner p ≡ some x → owner (update s.pc i q l) ≢ some x)
              (λ here.
                update_both s.pc i l q (λ p. owner q ≡ some x → owner p ≢ some x)
                  (λ there. absurd (other (here ∙ sym there))) (λ moved mine. fresh l x moved mine))
              (λ away theirs.
                update_both s.pc i l q (λ p. owner p ≢ some x)
                  (λ there mine. fresh j x away mine theirs) (λ moved. v.apart j l x other theirs));
      }

  begin-Kept :
      (g : Linked) (m : Mem T) (c : Call T) → Shape g m → Kept g m idle (begin c m).0 (begin c m).1
  unfolding begin
  begin-Kept g m (enq t) s =
      let c = new-Change g m t s in
      record {
        h = g;
        shape = c.shape;
        grows = c.grows;
        here = new-Own g m t s;
        own = λ x other o. c.own x o;
        from = λ x eq. inr (ground arith);
      }
  begin-Kept g m nowait_deq s =
      let c = no-Change g m s in
      record {
        h = g;
        shape = c.shape;
        grows = c.grows;
        here = tt;
        own = λ x other o. o;
        from = λ x eq. inl eq;
      }
  begin-Kept g m wait_deq s =
      let c = no-Change g m s in
      record {
        h = g;
        shape = c.shape;
        grows = c.grows;
        here = tt;
        own = λ x other o. o;
        from = λ x eq. inl eq;
      }

  Step-Inv : {s u : System T} → Step s u → Inv s → Inv u
  Step-Inv {s} (call_step i c ready) v = Kept-Inv s v i (begin c s.mem).0 (begin c s.mem).1 (
      subst (λ p. Kept v.g s.mem p (begin c s.mem).0 (begin c s.mem).1) (sym ready)
        (begin-Kept v.g s.mem c v.shape))
  Step-Inv {s} (run_step i m p eq) v =
      Kept-Inv s v i m p
        (subst (KeptBy v.g s.mem (s.pc i)) eq (run-Kept v.g s.mem v.shape (s.pc i) (v.here i)))

  Reach-Inv : {t : T} {s : System T} → Reach t s → Inv s
  Reach-Inv {t} new = start-Inv t
  Reach-Inv (later r st) = Step-Inv st (Reach-Inv r)

  -- the elements behind the node p, following the pointers up to the null pointer; the nodes exist
  abbrev pub Chain : Mem T → ℕ → List T → Type 0
  Chain m p [] = m.next p ≡ none
  Chain m p (t ∷ ts) =
      (q : ℕ) × (m.next p ≡ some q) × (m.freed q ≡ false) × (m.val q ≡ t) × Chain m q ts

  Chain-items :
      (g : Linked) (m : Mem T) (i k : ℕ)
      → Shape g m
      → i + k ≡ g.len
      → g.hd ≤ i
      → Chain m (g.at i) (items g.at m.val i k)
  Chain-items g m i zero s eq le = ap (λ q. m.next (g.at q)) (omega arith) ∙ s.end
  Chain-items g m i (suc k) s eq le = (
    g.at (suc i),
    s.inner i (omega arith),
    elim (Bool-cases (m.freed (g.at (suc i)))) [
      | inl gone ↦ absurd (omega (arith, s.gone (suc i) (omega arith) gone))
      | inr kept ↦ kept
    ],
    refl,
    Chain-items g m (suc i) k s (omega arith) (omega arith),
  )

  head_kept : (g : Linked) (m : Mem T) → Shape g m → m.freed m.head ≡ false
  head_kept g m s = elim (Bool-cases (m.freed m.head)) [
    | inl gone ↦ absurd (
        omega (
          arith,
          s.gone g.hd (omega (arith, s.hd_le, s.tl_le)) (ap m.freed (sym s.head_at) ∙ gone),
        ))
    | inr kept ↦ kept
  ]

  -- However the calls of any number of threads interleave, the dummy node and the chain behind it are not
  -- deleted, and what has been taken out and then what stands in the chain is what has been put in, in that order.
  pub Reach-Chain :
      {t : T} {s : System T}
      → Reach t s
      → (rest : List T) × Chain s.mem s.mem.head rest
        × (s.mem.freed s.mem.head ≡ false)
        × (s.mem.ins ≡ s.mem.outs ++ rest)
  Reach-Chain {s = s} r =
      let v = Reach-Inv r in
      (
        items v.g.at s.mem.val v.g.hd (v.g.len - v.g.hd),
        subst (λ q. Chain s.mem q (items v.g.at s.mem.val v.g.hd (v.g.len - v.g.hd)))
            (sym v.shape.head_at)
            (Chain-items v.g s.mem v.g.hd (v.g.len - v.g.hd) v.shape
              (omega (arith, v.shape.hd_le, v.shape.tl_le)) (omega arith)),
        head_kept v.g s.mem v.shape,
        v.shape.order,
      )
