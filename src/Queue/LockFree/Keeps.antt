-- ===== src/Queue/LockFree/Keeps.antt =====
-- What a step of a thread of LockFreeQueue is to keep, and the steps of `enq` that write or branch.
use filth.Base.{
  ℕ, zero, suc, ◌≤◌, ◌≡◌, ◌≢◌, refl, sym, Bool, true, false, Option, none, some, arith, ◌∙◌, ap,
  ◌⊎◌, inl, if◌then◌else◌, subst, dec_lt,
}
use filth.Queue.LockFree.{
  Mem, Pc, enq_tail, enq_check, enq_link, enq_help, Outcome, moves, blocks, faults, down, up, link,
  enq_branch,
}
use filth.Queue.LockFree.Changes.{Change, no-Change, sz-Change}
use filth.Queue.LockFree.Links.{linked, link-LinkedTo, link-Shape, link-Grows, link-Own}
use filth.Queue.LockFree.Shape.{Linked, Shape, Own, Grows, Local, owner, At, Read, Behind}

-- From the program point p to the point q: a node that q has not linked yet is that of p, or new.
pub record Kept {T : Type 0} (g : Linked) (m : Mem T) (p : Pc T) (n : Mem T) (q : Pc T)
    : Type 0 where
  pub h : Linked
  pub shape : Shape h n
  pub grows : Grows g h m n
  pub here : Local h n q
  pub own : (x : ℕ) → owner p ≢ some x → Own g m x → Own h n x
  pub from : (x : ℕ) → owner q ≡ some x → (owner p ≡ some x) ⊎ (m.brk ≤ x)

-- every outcome but a move is fine
abbrev pub KeptBy : {T : Type 0} → Linked → Mem T → Pc T → Outcome T → Type 0
KeptBy g m p (moves n q) = Kept g m p n q
KeptBy g m p blocks = Unit
KeptBy g m p faults = Unit

module _ {T : Type 0} (g : Linked) (m : Mem T) (s : Shape g m) where
  pub if-Kept :
      (p : Pc T) (b : Bool) (x y : Outcome T)
      → (b ≡ true → KeptBy g m p x)
      → (b ≡ false → KeptBy g m p y)
      → KeptBy g m p (if b then x else y)
  if-Kept p true x y yes_x no_y = yes_x refl
  if-Kept p false x y yes_x no_y = no_y refl

  -- a change that lets all nodes alone that are not linked yet
  pub Kept-Change :
      (p q : Pc T) (n : Mem T) (h : Linked)
      → Change g h m n
      → Local h n q
      → ((x : ℕ) → owner q ≡ some x → owner p ≡ some x)
      → Kept g m p n q
  Kept-Change p q n h c l from = record {
    h = h;
    shape = c.shape;
    grows = c.grows;
    here = l;
    own = λ x other o. c.own x o;
    from = λ x eq. inl (from x eq);
  }

  pub stay :
      (p q : Pc T) → Local g m q → ((x : ℕ) → owner q ≡ some x → owner p ≡ some x) → Kept g m p m q
  stay p q l from = Kept-Change p q m g (no-Change g m s) l from

  pub down-Kept :
      (k : ℕ) (p q : Pc T)
      → ((k : ℕ) → Local g (record m { sz = k }) q)
      → ((x : ℕ) → owner q ≡ some x → owner p ≡ some x)
      → KeptBy g m p (down k q m)
  unfolding down
  down-Kept zero p q l from = tt
  down-Kept (suc k) p q l from =
      Kept-Change p q (record m { sz = k }) g (sz-Change g m k s) (l k) from

  pub up-Kept :
      (p q : Pc T)
      → Local g (record m { sz = suc m.sz }) q
      → ((x : ℕ) → owner q ≡ some x → owner p ≡ some x)
      → KeptBy g m p (up q m)
  unfolding up
  up-Kept p q l from =
      Kept-Change p q (record m { sz = suc m.sz }) g (sz-Change g m (suc m.sz) s) l from

  -- what is read behind a linked node: null at the last node only
  pub Read-at : (k j : ℕ) → k ≤ g.len → j ≤ g.len → Read g j k (m.next (g.at k))
  Read-at k j le le' = elim (dec_lt k g.len) [
    | yes lt ↦ subst (Read g j k) (sym (s.inner k lt)) (lt, refl)
    | no last ↦
        subst (Read g j k) (sym (ap (λ q. m.next (g.at q)) (omega arith) ∙ s.end)) (omega arith)
  ]

  pub Behind-Read : (p i : ℕ) (next : Option ℕ) → g.at i ≡ p → Read g 0 i next → Behind g p next
  Behind-Read p i none eq r = tt
  Behind-Read p i (some q) eq (le, eq') = (i, le, eq, eq')

  pub Read-weaken : (j i : ℕ) (next : Option ℕ) → Read g j i next → Read g 0 i next
  Read-weaken j i none r = omega arith
  Read-weaken j i (some q) r = r

  pub Behind-At : (p : ℕ) → At g p g.tl → Behind g p (m.next p)
  Behind-At p (i, le, eq) =
      subst (λ q. Behind g q (m.next q)) eq
        (Behind-Read (g.at i) i (m.next (g.at i)) refl
          (Read-at i 0 (omega (arith, s.tl_le)) (omega arith)))

  -- the node behind which the pointer is null is the last one
  at_end : (i last : ℕ) → i ≤ g.len → g.at i ≡ last → m.next last ≡ none → g.at g.len ≡ last
  at_end i last le is eq = elim (dec_lt i g.len) [
    | yes lt ↦ absurd (ground (arith, s.inner i lt))
    | no not_lt ↦ ap g.at (omega arith) ∙ is
  ]

  pub link-Kept :
      (n last : ℕ) (next : Option ℕ)
      → m.next last ≡ next
      → Own g m n
      → At g last g.tl
      → KeptBy g m (enq_link n last) (link n last next m)
  unfolding link
  link-Kept n last (some p) eq o a = stay (enq_link n last) (enq_tail n) o (λ x eq. eq)
  link-Kept n last none eq o (i, le, is) =
      let end = at_end i last (omega (arith, s.tl_le)) is eq in
      record {
        h = linked g n;
        shape = link-Shape g m last n s o end;
        grows = link-Grows g m last n;
        here = link-LinkedTo g last n end;
        own = λ x other o'. link-Own g m last n x end (λ same. other (ap (λ y. some y) same)) o';
        from = λ x none_is. absurd (cc);
      }

  pub enq_branch-Kept :
      (n last : ℕ) (next : Option ℕ)
      → Own g m n
      → At g last g.tl
      → Behind g last next
      → KeptBy g m (enq_check n last next) (moves m (enq_branch n last next))
  unfolding enq_branch
  enq_branch-Kept n last none o a b =
      stay (enq_check n last none) (enq_link n last) (o, a) (λ x eq. eq)
  enq_branch-Kept n last (some p) o a b =
      stay (enq_check n last (some p)) (enq_help n last p) (o, b) (λ x eq. eq)
