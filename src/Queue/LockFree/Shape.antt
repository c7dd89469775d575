-- ===== src/Queue/LockFree/Shape.antt =====
-- What holds of the nodes of LockFreeQueue, and of what a thread remembers of them.
use filth.Base.{
  ℕ, zero, suc, ◌-◌, ◌≤◌, ◌<◌, ◌≡◌, ◌≢◌, refl, true, false, Option, none, some, List, [], ◌∷◌, ◌++◌,
  arith, subst,
}
use filth.Queue.LockFree.{
  Mem, Pc, idle, enq_tail, enq_next, enq_check, enq_link, enq_help, enq_swing, enq_up, deq_head,
  deq_tail, deq_ptr, deq_next, deq_check, deq_help, deq_val, deq_swing, deq_down, deq_delete,
  empty_down, empty_up,
}

-- The nodes that were ever linked, in that order: `at i` for i up to `len`, with the places of the node
-- that `head` points to, and of that of `tail`.
pub record Linked : Type 0 where
  pub at : ℕ → ℕ
  pub hd : ℕ
  pub tl : ℕ
  pub len : ℕ

-- what stands in the k nodes behind the place i
abbrev pub items {ℓ} : {T : Type ℓ} → (ℕ → ℕ) → (ℕ → T) → ℕ → ℕ → List T
items at val i zero = []
items at val i (suc k) = val (at (suc i)) ∷ items at val (suc i) k

pub record Shape {T : Type 0} (g : Linked) (m : Mem T) : Type 0 where
  pub head_at : m.head ≡ g.at g.hd
  pub tail_at : m.tail ≡ g.at g.tl
  pub hd_le : g.hd ≤ g.tl
  pub tl_le : g.tl ≤ g.len
  pub inj : (i j : ℕ) → i ≤ g.len → j ≤ g.len → g.at i ≡ g.at j → i ≡ j
  pub inner : (i : ℕ) → i < g.len → m.next (g.at i) ≡ some (g.at (suc i))
  pub end : m.next (g.at g.len) ≡ none
  pub old : (i : ℕ) → i ≤ g.len → g.at i < m.brk
  pub gone : (i : ℕ) → i ≤ g.len → m.freed (g.at i) ≡ true → i < g.hd
  pub unused : (p : ℕ) → m.brk ≤ p → m.freed p ≡ false
  pub order : m.ins ≡ m.outs ++ items g.at m.val g.hd (g.len - g.hd)

-- a node that is not linked yet
pub record Own {T : Type 0} (g : Linked) (m : Mem T) (n : ℕ) : Type 0 where
  pub made : n < m.brk
  pub ends : m.next n ≡ none
  pub kept : m.freed n ≡ false
  pub apart : (i : ℕ) → i ≤ g.len → g.at i ≢ n

-- a node that stands no further than the place k
abbrev pub At : Linked → ℕ → ℕ → Type 0
At g p k = (i : ℕ) × (i ≤ k) × (g.at i ≡ p)

-- two nodes, one behind the other
abbrev pub LinkedTo : Linked → ℕ → ℕ → Type 0
LinkedTo g p q = (i : ℕ) × (suc i ≤ g.len) × (g.at i ≡ p) × (g.at (suc i) ≡ q)

-- A node that `head` has reached, with the one behind it, which `tail` has reached.
abbrev pub Taken : Linked → ℕ → ℕ → Type 0
Taken g first p = (i : ℕ) × (i ≤ g.hd) × (suc i ≤ g.tl) × (g.at i ≡ first) × (g.at (suc i) ≡ p)

-- what a thread has read of the pointer behind the place k, when `tail` had reached the place j
abbrev pub Read : Linked → ℕ → ℕ → Option ℕ → Type 0
Read g j k none = j ≤ k
Read g j k (some p) = (suc k ≤ g.len) × (g.at (suc k) ≡ p)

-- `first` at i, `last` at j
abbrev pub Ends : Linked → ℕ → ℕ → ℕ → ℕ → Type 0
Ends g first last i j = (i ≤ g.hd) × (i ≤ j) × (j ≤ g.tl) × (g.at i ≡ first) × (g.at j ≡ last)

abbrev pub Behind : Linked → ℕ → Option ℕ → Type 0
Behind g last none = Unit
Behind g last (some p) = LinkedTo g last p

abbrev pub Local : {T : Type 0} → Linked → Mem T → Pc T → Type 0
Local g m idle = Unit
Local g m (enq_tail n) = Own g m n
Local g m (enq_next n last) = Own g m n × At g last g.tl
Local g m (enq_check n last next) = Own g m n × At g last g.tl × Behind g last next
Local g m (enq_link n last) = Own g m n × At g last g.tl
Local g m (enq_help n last next) = Own g m n × LinkedTo g last next
Local g m (enq_swing n last) = LinkedTo g last n
Local g m enq_up = Unit
Local g m (deq_head waits) = Unit
Local g m (deq_tail waits first) = At g first g.hd
Local g m (deq_ptr waits first last) = (i : ℕ) × (j : ℕ) × Ends g first last i j
Local g m (deq_next waits first last p) =
    (i : ℕ) × (j : ℕ) × (k : ℕ) × Ends g first last i j × (i ≤ k) × (k ≤ g.hd) × (g.at k ≡ p)
Local g m (deq_check waits first last next) =
    (i : ℕ) × (j : ℕ) × (k : ℕ) × Ends g first last i j × (i ≤ k) × (k ≤ g.hd) × Read g j k next
Local g m (deq_help waits last next) = LinkedTo g last next
Local g m (deq_val waits first none) = ⊥
Local g m (deq_val waits first (some p)) = Taken g first p
Local g m (deq_swing waits first next t) = Taken g first next × (t ≡ m.val next)
Local g m (deq_down first) = (i : ℕ) × (i < g.hd) × (g.at i ≡ first)
Local g m (deq_delete first) = (i : ℕ) × (i < g.hd) × (g.at i ≡ first)
Local g m empty_down = Unit
Local g m empty_up = Unit

-- what only grows
pub record Grows {T : Type 0} (g h : Linked) (m n : Mem T) : Type 0 where
  pub same_at : (i : ℕ) → i ≤ g.len → h.at i ≡ g.at i
  pub hd_up : g.hd ≤ h.hd
  pub tl_up : g.tl ≤ h.tl
  pub len_up : g.len ≤ h.len
  pub same_val : (p : ℕ) → p < m.brk → n.val p ≡ m.val p

-- the node that a thread has made and not linked yet
abbrev pub owner : {T : Type 0} → Pc T → Option ℕ
owner idle = none
owner (enq_tail n) = some n
owner (enq_next n last) = some n
owner (enq_check n last next) = some n
owner (enq_link n last) = some n
owner (enq_help n last next) = some n
owner (enq_swing n last) = none
owner enq_up = none
owner (deq_head waits) = none
owner (deq_tail waits first) = none
owner (deq_ptr waits first last) = none
owner (deq_next waits first last p) = none
owner (deq_check waits first last next) = none
owner (deq_help waits last next) = none
owner (deq_val waits first next) = none
owner (deq_swing waits first next t) = none
owner (deq_down first) = none
owner (deq_delete first) = none
owner empty_down = none
owner empty_up = none

pub owner-Own :
    {T : Type 0} (g : Linked) (m : Mem T) (p : Pc T) (n : ℕ)
    → owner p ≡ some n
    → Local g m p
    → Own g m n
owner-Own g m idle n eq l = absurd (cc)
owner-Own g m (enq_tail q) n eq l = subst (Own g m) (cc) l
owner-Own g m (enq_next q last) n eq l = subst (Own g m) (cc) l.0
owner-Own g m (enq_check q last next) n eq l = subst (Own g m) (cc) l.0
owner-Own g m (enq_link q last) n eq l = subst (Own g m) (cc) l.0
owner-Own g m (enq_help q last next) n eq l = subst (Own g m) (cc) l.0
owner-Own g m p n eq l = absurd (cc)

module _ {T : Type 0} (g h : Linked) (m n : Mem T) (shape : Shape g m) (grows : Grows g h m n) where
  At-Grows : (p k l : ℕ) → k ≤ g.len → k ≤ l → At g p k → At h p l
  At-Grows p k l bound up (i, le, eq) = (i, omega arith, ground (arith, grows.same_at i))

  LinkedTo-Grows : (p q : ℕ) → LinkedTo g p q → LinkedTo h p q
  LinkedTo-Grows p q (i, le, eq, eq') = (
    i,
    omega (arith, grows.len_up),
    ground (arith, grows.same_at i),
    ground (arith, grows.same_at (suc i)),
  )

  Taken-Grows : (p q : ℕ) → Taken g p q → Taken h p q
  Taken-Grows p q (i, le, le', eq, eq') = (
    i,
    omega (arith, grows.hd_up),
    omega (arith, grows.tl_up),
    ground (arith, grows.same_at i, shape.tl_le),
    ground (arith, grows.same_at (suc i), shape.tl_le),
  )

  Ends-Grows : (p q i j : ℕ) → Ends g p q i j → Ends h p q i j
  Ends-Grows p q i j e =
      ground (
        arith,
        grows.same_at i,
        grows.same_at j,
        grows.hd_up,
        grows.tl_up,
        shape.tl_le,
        shape.hd_le,
      )

  Read-Grows : (j k : ℕ) (next : Option ℕ) → Read g j k next → Read h j k next
  Read-Grows j k none r = r
  Read-Grows j k (some p) r = ground (arith, grows.same_at (suc k), grows.len_up)

  Behind-Grows : (p : ℕ) (next : Option ℕ) → Behind g p next → Behind h p next
  Behind-Grows p none b = tt
  Behind-Grows p (some q) b = LinkedTo-Grows p q b

  -- What a thread remembers stays true while the others go on, given that its own node is let alone.
  pub Local-Grows :
      (p : Pc T) → ((q : ℕ) → owner p ≡ some q → Own g m q → Own h n q) → Local g m p → Local h n p
  Local-Grows idle own l = tt
  Local-Grows (enq_tail q) own l = own q refl l
  Local-Grows (enq_next q last) own (o, a) =
      (own q refl o, At-Grows last g.tl h.tl shape.tl_le grows.tl_up a)
  Local-Grows (enq_check q last next) own (o, a, b) =
      (own q refl o, At-Grows last g.tl h.tl shape.tl_le grows.tl_up a, Behind-Grows last next b)
  Local-Grows (enq_link q last) own (o, a) =
      (own q refl o, At-Grows last g.tl h.tl shape.tl_le grows.tl_up a)
  Local-Grows (enq_help q last next) own (o, b) = (own q refl o, LinkedTo-Grows last next b)
  Local-Grows (enq_swing q last) own l = LinkedTo-Grows last q l
  Local-Grows enq_up own l = tt
  Local-Grows (deq_head waits) own l = tt
  Local-Grows (deq_tail waits first) own l =
      At-Grows first g.hd h.hd (omega (arith, shape.hd_le, shape.tl_le)) grows.hd_up l
  Local-Grows (deq_ptr waits first last) own (i, j, e) = (i, j, Ends-Grows first last i j e)
  Local-Grows (deq_next waits first last p) own (i, j, k, e, le, le', eq) = (
    i,
    j,
    k,
    Ends-Grows first last i j e,
    le,
    omega (arith, grows.hd_up),
    ground (arith, grows.same_at k, shape.hd_le, shape.tl_le),
  )
  Local-Grows (deq_check waits first last next) own (i, j, k, e, le, le', r) =
      (i, j, k, Ends-Grows first last i j e, le, omega (arith, grows.hd_up), Read-Grows j k next r)
  Local-Grows (deq_help waits last next) own l = LinkedTo-Grows last next l
  Local-Grows (deq_val waits first none) own l = l
  Local-Grows (deq_val waits first (some p)) own l = Taken-Grows first p l
  Local-Grows (deq_swing waits first p t) own ((i, le, le', eq, eq'), is) = (
    Taken-Grows first p (i, le, le', eq, eq'),
    ground (arith, grows.same_val p, shape.old (suc i), shape.tl_le),
  )
  Local-Grows (deq_down first) own (i, le, eq) =
      (i, omega (arith, grows.hd_up), ground (arith, grows.same_at i, shape.hd_le, shape.tl_le))
  Local-Grows (deq_delete first) own (i, le, eq) =
      (i, omega (arith, grows.hd_up), ground (arith, grows.same_at i, shape.hd_le, shape.tl_le))
  Local-Grows empty_down own l = tt
  Local-Grows empty_up own l = tt
