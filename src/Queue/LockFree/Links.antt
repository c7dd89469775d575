-- ===== src/Queue/LockFree/Links.antt =====
-- A node of LockFreeQueue is linked behind the last one.
use filth.Base.{
  ℕ, suc, ◌+◌, ◌-◌, ◌≡◌, ◌≢◌, refl, sym, some, [], ◌∷◌, ◌++◌, arith, ◌∙◌, ap, append_assoc,
}
use filth.Queue.LockFree.{Mem, update}
use filth.Queue.LockFree.Changes.{items_cong, items_snoc}
use filth.Queue.LockFree.Shape.{Linked, Shape, Own, LinkedTo, Grows, items}

pub linked : Linked → ℕ → Linked
linked g n = record g { at = update g.at (suc g.len) n; len = suc g.len }

pub link-LinkedTo : (g : Linked) (last n : ℕ) → g.at g.len ≡ last → LinkedTo (linked g n) last n
unfolding linked
link-LinkedTo g last n eq = (g.len, omega arith, ground arith, ground arith)

module _ {T : Type 0} where
  link-items :
      (g : Linked) (m : Mem T) (n : ℕ)
      → Shape g m
      → items g.at m.val g.hd (g.len - g.hd) ++ m.val n ∷ []
        ≡ items (linked g n).at m.val (linked g n).hd ((linked g n).len - (linked g n).hd)
  unfolding linked
  link-items g m n s =
      let bt = update g.at (suc g.len) n in
      let k = g.len - g.hd in
      ap (λ xs. xs ++ m.val n ∷ [])
        (items_cong g.at bt m.val m.val g.hd k (λ j lt. ap m.val (ground arith)))
      ∙ ap (λ q. items bt m.val g.hd k ++ m.val q ∷ []) {y = bt (suc (g.hd + k))}
          (ground (arith, s.hd_le, s.tl_le))
      ∙ sym (items_snoc bt m.val g.hd k)
      ∙ ap (items bt m.val g.hd) {x = suc k} (omega (arith, s.hd_le, s.tl_le))

  pub link-Shape :
      (g : Linked) (m : Mem T) (last n : ℕ)
      → Shape g m
      → Own g m n
      → g.at g.len ≡ last
      → Shape
          (linked g n)
          (record m { next = update m.next last (some n); ins = m.ins ++ m.val n ∷ [] })
  unfolding linked
  link-Shape g m last n s o eq = record {
    head_at = ground (arith, s.head_at, s.hd_le, s.tl_le);
    tail_at = ground (arith, s.tail_at, s.tl_le);
    hd_le = s.hd_le;
    tl_le = omega (arith, s.tl_le);
    inj = λ i j le le' same. ground (arith, s.inj i j, o.apart i, o.apart j);
    inner = λ i lt. ground (arith, s.inner i, s.inj i g.len);
    end = ground (arith, o.ends, o.apart g.len);
    old = λ i le. ground (arith, s.old i, o.made);
    gone = λ i le gone. ground (arith, s.gone i, o.kept);
    unused = s.unused;
    order =
        ap (λ xs. xs ++ m.val n ∷ []) s.order
        ∙ append_assoc m.outs (items g.at m.val g.hd (g.len - g.hd)) (m.val n ∷ [])
        ∙ ap (λ xs. m.outs ++ xs) (link-items g m n s);
  }

  pub link-Grows :
      (g : Linked) (m : Mem T) (last n : ℕ)
      → Grows g
          (linked g n)
          m
          (record m { next = update m.next last (some n); ins = m.ins ++ m.val n ∷ [] })
  unfolding linked
  link-Grows g m last n = record {
    same_at = λ i le. ground arith;
    hd_up = omega arith;
    tl_up = omega arith;
    len_up = omega arith;
    same_val = λ p lt. refl;
  }

  pub link-Own :
      (g : Linked) (m : Mem T) (last n q : ℕ)
      → g.at g.len ≡ last
      → n ≢ q
      → Own g m q
      → Own
          (linked g n)
          (record m { next = update m.next last (some n); ins = m.ins ++ m.val n ∷ [] })
          q
  unfolding linked
  link-Own g m last n q eq other o = record {
    made = o.made;
    ends = ground (arith, o.ends, o.apart g.len);
    kept = o.kept;
    apart = λ i le. ground (arith, o.apart i);
  }
