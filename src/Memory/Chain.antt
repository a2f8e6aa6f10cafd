-- ===== src/Memory/Chain.antt =====
-- Doubly linked segments of queue nodes and their footprints.
use itc_framework.Base.{
  ◌≡◌, refl, ◌≢◌, Bool, true, false, ◌||◌, Option, none, some, List, [], ◌∷◌, ◌++◌, arith, ◌==◌,
}
use mathlib.Core.Bool.{or_assoc}
use itc_framework.Memory.{Ptr, null, Node, node, update}

-- What a queue stands for: the address and the item of each node, in order.
abbrev pub Cells : Type 0
Cells = List (Ptr × Ptr)

abbrev pub Nodes : Type 0
Nodes = Ptr → Option Node

abbrev pub among : Ptr → Cells → Bool
among a [] = false
among a ((p, x) ∷ xs) = (a == p) || among a xs

infix 40 ◌∈◌ ◌∉◌
abbrev pub ◌∈◌ : Ptr → Cells → Type 0
a ∈ xs = among a xs ≡ true

abbrev pub ◌∉◌ : Ptr → Cells → Type 0
a ∉ xs = among a xs ≡ false

abbrev pub Apart : Cells → Cells → Type 0
Apart xs ys = (a : Ptr) → a ∈ xs → a ∉ ys

-- `g` differs from `h` at most at the addresses of `xs`.
abbrev pub AgreeOutside : Cells → Nodes → Nodes → Type 0
AgreeOutside xs h g = (a : Ptr) → a ∉ xs → g a ≡ h a

pub among-append : (a : Ptr) (xs ys : Cells) → among a (xs ++ ys) ≡ (among a xs || among a ys)
among-append a [] ys = refl
among-append a ((p, x) ∷ xs) ys = rw (among-append a xs ys, or_assoc)

-- `p` is no null pointer and holds the node `m`.
pub record Points (h : Nodes) (p : Ptr) (m : Node) : Type 0 where
  pub ne_null : p ≢ null
  pub holds : h p ≡ some m

-- From `p`, whose `prev` is `b`, the links lead in both directions through the distinct nodes
-- `xs`. The last node is `last`, and its `next` is `stop`.
pub data Seg (h : Nodes) (last stop : Ptr) : Ptr → Ptr → Cells → Type 0 where
  nil : Seg h last stop last stop []
  cons :
      {b p q x : Ptr} {xs : Cells}
      → Points h p (node q b x)
      → p ∉ xs
      → Seg h last stop p q xs
      → Seg h last stop b p ((p, x) ∷ xs)

module _ {h : Nodes} {last stop : Ptr} where
  pub eq_of_nil : {b p : Ptr} → Seg h last stop b p [] → (p ≡ stop) × (b ≡ last)
  eq_of_nil nil = (refl, refl)

  pub head_eq : {b p a x : Ptr} {xs : Cells} → Seg h last stop b p ((a, x) ∷ xs) → p ≡ a
  head_eq (cons e out s) = refl

  pub head_ne_null :
      {b p : Ptr} {c : Ptr × Ptr} {xs : Cells} → Seg h last stop b p (c ∷ xs) → p ≢ null
  head_ne_null (cons e out s) = e.ne_null

  -- A segment survives any change that spares its own addresses.
  pub frame :
      {g : Nodes} {b p : Ptr} {xs : Cells}
      → Seg h last stop b p xs
      → ((a : Ptr) → a ∈ xs → g a ≡ h a)
      → Seg g last stop b p xs
  frame nil spared = nil
  frame (cons {p} e out s) spared =
      cons (ground (arith, spared p)) out (frame s λ b m. spared b (ground arith))

  pub not-mem_of_none :
      {b p : Ptr} {xs : Cells} (a : Ptr) → Seg h last stop b p xs → h a ≡ none → a ∉ xs
  not-mem_of_none a nil unused = refl
  not-mem_of_none a (cons e out s) unused = ground (arith, not-mem_of_none a s unused)

  pub ne_null_of_mem :
      {b p : Ptr} {xs : Cells} (a : Ptr) → Seg h last stop b p xs → a ∈ xs → a ≢ null
  ne_null_of_mem a nil i = cc
  ne_null_of_mem a (cons e out s) i = ground (arith, ne_null_of_mem a s)

  pub last_mem :
      {b p : Ptr} {c : Ptr × Ptr} {xs : Cells} → Seg h last stop b p (c ∷ xs) → last ∈ (c ∷ xs)
  last_mem (cons e out nil) = ground arith
  last_mem (cons e out (cons e' out' s)) = ground (arith, last_mem (cons e' out' s))

  -- The node at the end of a segment.
  pub last-Points :
      {b p : Ptr} {c : Ptr × Ptr} {xs : Cells}
      → Seg h last stop b p (c ∷ xs)
      → (m : Node) × Points h last m × (m.next ≡ stop)
  last-Points (cons {b} {x} e out nil) = (node stop b x, e, refl)
  last-Points (cons e out (cons e' out' s)) = last-Points (cons e' out' s)

  -- The end of a segment is moved by a write of its last node's `next`.
  pub retarget :
      {g : Nodes} {b p : Ptr} {c : Ptr × Ptr} {xs : Cells} (m : Node) (n : Ptr)
      → Seg h last stop b p (c ∷ xs)
      → h last ≡ some m
      → g last ≡ some (record m { next = n })
      → ((a : Ptr) → a ∈ (c ∷ xs) → a ≢ last → g a ≡ h a)
      → Seg g last n b p (c ∷ xs)
  retarget m n (cons e out nil) at new same = cons (ground arith) out nil
  retarget m n (cons {p} e out (cons e' out' s)) at new same =
      cons (ground (arith, same p, last_mem (cons e' out' s))) out
        (retarget m n (cons e' out' s) at new λ a i. same a (ground arith))

  -- The node at the start of a segment.
  pub first-Points :
      {b p : Ptr} {c : Ptr × Ptr} {xs : Cells}
      → Seg h last stop b p (c ∷ xs)
      → (m : Node) × Points h p m × (m.prev ≡ b)
  first-Points (cons {b} {q} {x} e out s) = (node q b x, e, refl)

  pub first_mem :
      {b p : Ptr} {c : Ptr × Ptr} {xs : Cells} → Seg h last stop b p (c ∷ xs) → p ∈ (c ∷ xs)
  first_mem (cons e out s) = ground arith

  -- A write of the first node's `prev` changes what stands before the segment.
  pub rehead :
      {g : Nodes} {b p : Ptr} {c : Ptr × Ptr} {xs : Cells} (m : Node) (b' : Ptr)
      → Seg h last stop b p (c ∷ xs)
      → h p ≡ some m
      → g p ≡ some (record m { prev = b' })
      → ((a : Ptr) → a ∈ (c ∷ xs) → a ≢ p → g a ≡ h a)
      → Seg g last stop b' p (c ∷ xs)
  rehead m b' (cons e out s) at new same =
      cons (ground arith) out (frame s λ a i. same a (ground arith) (λ d. ground arith))

  pub join :
      {end goal b p : Ptr} {ys xs : Cells}
      → Seg h last stop b p xs
      → Seg h end goal last stop ys
      → Apart xs ys
      → Seg h end goal b p (xs ++ ys)
  join nil t apart = t
  join (cons {p} e out s) t apart =
      cons e (rw (among-append, out) (apart p (ground arith)))
        (join s t λ a i. apart a (ground arith))

-- A segment taken apart at one of its nodes.
pub record Split (h : Nodes) (last stop b p a x : Ptr) (ys zs : Cells) : Type 0 where
  pub before : Ptr
  pub after : Ptr
  pub front : Seg h before a b p ys
  pub here : Points h a (node after before x)
  pub back : Seg h last stop a after zs
  pub out_front : a ∉ ys
  pub out_back : a ∉ zs
  pub apart : Apart ys zs

module _ {h : Nodes} {last stop a x : Ptr} where
  pub split :
      {b p : Ptr} (ys : Cells) {zs : Cells}
      → Seg h last stop b p (ys ++ ((a, x) ∷ zs))
      → Split h last stop b p a x ys zs
  split [] (cons {b} {q} e out s) = record {
    before = b;
    after = q;
    front = nil;
    here = e;
    back = s;
    out_front = refl;
    out_back = out;
    apart = λ c i. cc;
  }
  split ((d, w) ∷ ys) {zs} (cons e out s) =
      let r = split ys s in
      record {
        before = r.before;
        after = r.after;
        front = cons e (ground (arith, among-append d ys ((a, x) ∷ zs))) r.front;
        here = r.here;
        back = r.back;
        out_front = ground (arith, among-append d ys ((a, x) ∷ zs), r.out_front);
        out_back = r.out_back;
        apart = λ c i. ground (arith, among-append d ys ((a, x) ∷ zs), r.apart c);
      }

-- A node put behind the last one by the three writes that the C code makes.
abbrev pub linked : Nodes → (last fresh item : Ptr) → Node → Nodes
linked h last fresh item m =
    update
      (update (update h fresh (some (node null null item))) last (some (record m { next = fresh })))
      fresh (some (node null last item))

pub snoc :
    {h : Nodes} {last b p : Ptr} {c : Ptr × Ptr} {xs : Cells} (fresh item : Ptr) (m : Node)
    → Seg h last null b p (c ∷ xs)
    → h last ≡ some m
    → fresh ≢ null
    → fresh ∉ (c ∷ xs)
    → Seg (linked h last fresh item m) fresh null b p ((c ∷ xs) ++ ((fresh, item) ∷ []))
snoc {last} fresh item m s at ne out =
    let inside = last_mem s in
    let apart : fresh ≢ last = (λ e. ground arith) in
    join (retarget m fresh s at (ground arith) (λ a i d. ground arith))
      (cons (ground arith) refl nil) (λ a i. ground arith)
