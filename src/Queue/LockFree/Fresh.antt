-- ===== src/Queue/LockFree/Fresh.antt =====
-- What the allocation of a node does to the nodes of LockFreeQueue.
use filth.Base.{suc, ◌+◌, ◌-◌, refl, none, ◌++◌, arith, ◌∙◌, ap}
use filth.Queue.LockFree.{Mem, update}
use filth.Queue.LockFree.Shape.{Linked, Shape, Own}
use filth.Queue.LockFree.Changes.{Change, items_cong}

module _ {T : Type 0} where
  pub new-Change :
      (g : Linked) (m : Mem T) (t : T)
      → Shape g m
      → Change g g m (record m {
        next = update m.next m.brk none;
        val = update m.val m.brk t;
        brk = suc m.brk;
      })
  new-Change g m t s = record {
    shape = record {
      head_at = s.head_at;
      tail_at = s.tail_at;
      hd_le = s.hd_le;
      tl_le = s.tl_le;
      inj = s.inj;
      inner = λ i lt. ground (arith, s.inner i, s.old i);
      end = ground (arith, s.end, s.old g.len);
      old = λ i le. omega (arith, s.old i le);
      gone = s.gone;
      unused = λ p le. s.unused p (omega arith);
      order =
          s.order
          ∙ ap (λ xs. m.outs ++ xs)
              (items_cong g.at g.at m.val (update m.val m.brk t) g.hd (g.len - g.hd)
                (λ j lt. ground (arith, s.old (suc (g.hd + j)))));
    };
    grows = record {
      same_at = λ i le. refl;
      hd_up = omega arith;
      tl_up = omega arith;
      len_up = omega arith;
      same_val = λ p lt. ground arith;
    };
    own = λ q o. record {
      made = omega (arith, o.made);
      ends = ground (arith, o.ends, o.made);
      kept = o.kept;
      apart = o.apart;
    };
  }

  pub new-Own :
      (g : Linked) (m : Mem T) (t : T)
      → Shape g m
      → Own g
          (record m {
            next = update m.next m.brk none;
            val = update m.val m.brk t;
            brk = suc m.brk;
          })
          m.brk
  new-Own g m t s = record {
    made = omega arith;
    ends = ground arith;
    kept = s.unused m.brk (omega arith);
    apart = λ i le. λ eq. omega (arith, s.old i le, eq);
  }
