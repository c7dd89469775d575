-- ===== src/Queue/LockFree/Changes.antt =====
-- What the writes of LockFreeQueue do to its nodes.
use filth.Base.{
  ℕ, zero, suc, ◌+◌, ◌-◌, ◌≤◌, ◌<◌, ◌≡◌, refl, sym, ap₂, true, [], ◌∷◌, ◌++◌, arith, ◌∙◌, ap, inl,
  inr, Bool-cases, ==_iff, ◌==◌, if◌then◌else◌, subst, append_assoc,
}
use filth.Queue.LockFree.{Mem, swing_tail, update}
use filth.Queue.LockFree.Shape.{Linked, Shape, Own, LinkedTo, Taken, Grows, items}

-- A step of a thread leads from one state of the nodes to another, and lets the nodes alone that are not
-- linked yet.
pub record Change {T : Type 0} (g h : Linked) (m n : Mem T) : Type 0 where
  pub shape : Shape h n
  pub grows : Grows g h m n
  pub own : (q : ℕ) → Own g m q → Own h n q

module _ {T : Type 0} where
  pub items_cong :
      (at bt : ℕ → ℕ) (v w : ℕ → T) (i k : ℕ)
      → ((j : ℕ) → j < k → v (at (suc (i + j))) ≡ w (bt (suc (i + j))))
      → items at v i k ≡ items bt w i k
  items_cong at bt v w i zero same = refl
  items_cong at bt v w i (suc k) same =
      ap₂ (λ x xs. x ∷ xs)
        (subst (λ j. v (at (suc j)) ≡ w (bt (suc j))) (omega arith) (same 0 (omega arith)))
        (items_cong at bt v w (suc i) k (λ j lt.
          subst (λ q. v (at (suc q)) ≡ w (bt (suc q))) (omega arith) (same (suc j) (omega arith))))

  pub items_snoc :
      (at : ℕ → ℕ) (v : ℕ → T) (i k : ℕ)
      → items at v i (suc k) ≡ items at v i k ++ v (at (suc (i + k))) ∷ []
  items_snoc at v i zero = ap (λ q. v (at (suc q)) ∷ []) (omega arith)
  items_snoc at v i (suc k) =
      ap (λ xs. v (at (suc i)) ∷ xs)
        (items_snoc at v (suc i) k
          ∙ ap (λ q. items at v (suc i) k ++ v (at (suc q)) ∷ []) (omega arith))

  pub Grows-refl : (g : Linked) (m : Mem T) → Grows g g m m
  Grows-refl g m = record {
    same_at = λ i le. refl;
    hd_up = omega arith;
    tl_up = omega arith;
    len_up = omega arith;
    same_val = λ p lt. refl;
  }

  pub no-Change : (g : Linked) (m : Mem T) → Shape g m → Change g g m m
  no-Change g m s = record { shape = s; grows = Grows-refl g m; own = λ q o. o }

  pub sz-Change : (g : Linked) (m : Mem T) (k : ℕ) → Shape g m → Change g g m (record m { sz = k })
  sz-Change g m k s = record {
    shape = record {
      head_at = s.head_at;
      tail_at = s.tail_at;
      hd_le = s.hd_le;
      tl_le = s.tl_le;
      inj = s.inj;
      inner = s.inner;
      end = s.end;
      old = s.old;
      gone = s.gone;
      unused = s.unused;
      order = s.order;
    };
    grows = record {
      same_at = λ i le. refl;
      hd_up = omega arith;
      tl_up = omega arith;
      len_up = omega arith;
      same_val = λ p lt. refl;
    };
    own = λ q o. record { made = o.made; ends = o.ends; kept = o.kept; apart = o.apart };
  }

  tail-Change :
      (g : Linked) (m : Mem T) (i : ℕ)
      → Shape g m
      → g.tl ≡ i
      → suc i ≤ g.len
      → Change g (record g { tl = suc i }) m (record m { tail = g.at (suc i) })
  tail-Change g m i s eq le = record {
    shape = record {
      head_at = s.head_at;
      tail_at = refl;
      hd_le = omega (arith, s.hd_le);
      tl_le = le;
      inj = s.inj;
      inner = s.inner;
      end = s.end;
      old = s.old;
      gone = s.gone;
      unused = s.unused;
      order = s.order;
    };
    grows = record {
      same_at = λ i le. refl;
      hd_up = omega arith;
      tl_up = omega arith;
      len_up = omega arith;
      same_val = λ p lt. refl;
    };
    own = λ q o. record { made = o.made; ends = o.ends; kept = o.kept; apart = o.apart };
  }

  pub swing_tail-Change :
      (g : Linked) (m : Mem T) (last p : ℕ)
      → Shape g m
      → LinkedTo g last p
      → (h : Linked) × Change g h m (swing_tail last p m)
  unfolding swing_tail
  swing_tail-Change g m last p s (i, le, eq, eq') = elim (Bool-cases (m.tail == last)) [
    | inl here ↦ (
      record g { tl = suc i },
      subst (λ n. Change g (record g { tl = suc i }) m n)
          (ap (λ b. if b then record m { tail = p } else m) (sym here))
          (subst (λ q. Change g (record g { tl = suc i }) m (record m { tail = q })) eq'
            (tail-Change g m i s
              (s.inj g.tl i s.tl_le (omega arith)
                (sym s.tail_at ∙ (==_iff m.tail last).0 here ∙ sym eq))
              le)),
    )
    | inr moved ↦ (
      g,
      subst (λ n. Change g g m n) (ap (λ b. if b then record m { tail = p } else m) (sym moved))
          (no-Change g m s),
    )
  ]

  -- the head moves on, and takes what stands in the node behind it
  pub head-Change :
      (g : Linked) (m : Mem T) (p : ℕ)
      → Shape g m
      → Taken g m.head p
      → Change g
          (record g { hd = suc g.hd })
          m
          (record m { head = p; outs = m.outs ++ m.val p ∷ [] })
  head-Change g m p s (i, le, le', eq, eq') =
      let here =
        s.inj i g.hd (omega (arith, s.tl_le)) (omega (arith, s.hd_le, s.tl_le)) (eq ∙ s.head_at) in
      record {
        shape = record {
          head_at = sym eq' ∙ ap (λ q. g.at (suc q)) here;
          tail_at = s.tail_at;
          hd_le = omega (arith, here);
          tl_le = s.tl_le;
          inj = s.inj;
          inner = s.inner;
          end = s.end;
          old = s.old;
          gone = λ j bound gone. omega (arith, s.gone j bound gone);
          unused = s.unused;
          order =
              s.order
              ∙ ap (λ k. m.outs ++ items g.at m.val g.hd k) {y = suc (g.len - suc g.hd)}
                  (omega (arith, here, s.tl_le))
              ∙ ap (λ v. m.outs ++ m.val v ∷ items g.at m.val (suc g.hd) (g.len - suc g.hd))
                  (ap (λ q. g.at (suc q)) (sym here) ∙ eq')
              ∙ sym (
                  append_assoc m.outs (m.val p ∷ [])
                    (items g.at m.val (suc g.hd) (g.len - suc g.hd)));
        };
        grows = record {
          same_at = λ i le. refl;
          hd_up = omega arith;
          tl_up = omega arith;
          len_up = omega arith;
          same_val = λ p lt. refl;
        };
        own = λ q o. record { made = o.made; ends = o.ends; kept = o.kept; apart = o.apart };
      }

  pub delete-Change :
      (g : Linked) (m : Mem T) (i : ℕ)
      → Shape g m
      → i < g.hd
      → Change g g m (record m { freed = update m.freed (g.at i) true })
  delete-Change g m i s lt = record {
    shape = record {
      head_at = s.head_at;
      tail_at = s.tail_at;
      hd_le = s.hd_le;
      tl_le = s.tl_le;
      inj = s.inj;
      inner = s.inner;
      end = s.end;
      old = s.old;
      gone = λ j bound gone. ground (arith, s.gone j bound, s.inj j i bound, s.hd_le, s.tl_le);
      unused = λ p le. ground (arith, s.unused p, s.old i, s.hd_le, s.tl_le);
      order = s.order;
    };
    grows = record {
      same_at = λ i le. refl;
      hd_up = omega arith;
      tl_up = omega arith;
      len_up = omega arith;
      same_val = λ p lt. refl;
    };
    own = λ q o. record {
      made = o.made;
      ends = o.ends;
      kept = ground (arith, o.kept, o.apart i, s.hd_le, s.tl_le);
      apart = o.apart;
    };
  }
