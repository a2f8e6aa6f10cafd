-- ===== src/Queue/Refine.antt =====
-- A `struct itc_queue` against the plain list of the items that it carries, over any sequence of
-- calls. A call that puts an item also gives the address that `malloc` answers it with.
use itc_framework.Base.{
  ℕ, ◌+◌, ◌<◌, ◌≤◌, ◌^◌, ◌≡◌, refl, ◌≢◌, ◌∙◌, Bool, true, false, inl, inr, none, List, [], ◌∷◌,
  ◌++◌, arith, ◌==◌, ◌||◌, if◌then◌else◌, length, length-append, Bool-cases,
}
use itc_framework.Memory.{Ptr, null, Heap, Command, ended, continue_with, pure, ◌>>=◌, itc_ok}
use itc_framework.Memory.Chain.{Cells, AgreeOutside, not-mem_of_none}
use itc_framework.Memory.Returns
use itc_framework.Memory.Returns.{Returns, returns}
use itc_framework.Queue.{Queue, enqueue, dequeue, remove}
use itc_framework.Queue.Shape.{IsQueue}
use itc_framework.Queue.Fifo.{enqueue_appends, dequeue_first, dequeue_empty}
use itc_framework.Memory.Items.{erase, carries}
use itc_framework.Queue.Remove.{remove_erases, remove_absent}

-- A call of a client.
pub data Op : Type 0 where
  put : (fresh item : Ptr) → Op
  take : Op
  drop : Ptr → Op

abbrev pub items : Cells → List Ptr
items [] = []
items ((p, x) ∷ xs) = x ∷ items xs

-- The specification: a list, with removal of the first occurrence.
unfoldable pub delete : Ptr → List Ptr → List Ptr
delete x [] = []
delete x (y ∷ ys) = if y == x then ys else y ∷ delete x ys

items-append : (xs ys : Cells) → items (xs ++ ys) ≡ items xs ++ items ys
items-append [] ys = refl
items-append ((p, x) ∷ xs) ys = ground (arith, items-append xs ys)

items-erase : (x : Ptr) (xs : Cells) → items (erase x xs) ≡ delete x (items xs)
unfolding erase delete
items-erase x [] = refl
items-erase x ((p, y) ∷ xs) = ground (arith, items-erase x xs)

delete-absent : (x : Ptr) (xs : Cells) → carries x xs ≡ false → delete x (items xs) ≡ items xs
unfolding delete carries
delete-absent x [] h = refl
delete-absent x ((p, y) ∷ xs) h = ground (arith, delete-absent x xs)

length-items : (xs : Cells) → length (items xs) ≡ length xs
length-items [] = refl
length-items ((p, x) ∷ xs) = omega (arith, length-items xs)

length-erase : (x : Ptr) (xs : Cells) → length (erase x xs) ≤ length xs
unfolding erase
length-erase x [] = omega arith
length-erase x ((p, y) ∷ xs) = ground (arith, length-erase x xs)

unfoldable pub spec : List Ptr → List Op → List Ptr × List Ptr
spec xs [] = (xs, [])
spec xs (put a x ∷ ops) = spec (xs ++ (x ∷ [])) ops
spec [] (take ∷ ops) = let (ys, out) = spec [] ops in (ys, null ∷ out)
spec (x ∷ xs) (take ∷ ops) = let (ys, out) = spec xs ops in (ys, x ∷ out)
spec xs (drop x ∷ ops) = spec (delete x xs) ops

-- The return code is no part of a queue.
pub reset :
    {h : Heap} {q : Queue} {rc : ℕ} {xs : Cells}
    → IsQueue h q xs
    → IsQueue (record h { rc = rc }) q xs
reset is = record { chain = is.chain; size = is.size; small = is.small }

-- The client's calls in order; the return code is reset before each, as itc.c does. The result
-- lists what the calls of `q_dequeue` returned.
unfoldable pub run : List Op → Queue → Command (Queue × List Ptr)
run [] q h = ended (q, []) h
run (put a x ∷ ops) q h =
    continue_with (enqueue a q x (record h { rc = itc_ok })) (λ q'. run ops q')
run (take ∷ ops) q h =
    continue_with (dequeue q (record h { rc = itc_ok }))
      λ r. run ops r.1 >>= λ rest. pure (rest.0, r.0 ∷ rest.1)
run (drop x ∷ ops) q h = continue_with (remove q x (record h { rc = itc_ok })) (λ q'. run ops q')

-- The memory never runs out, and `malloc` answers with addresses not in use, each once.
abbrev pub allocates : Ptr → List Op → Bool
allocates b [] = false
allocates b (put a x ∷ ops) = (b == a) || allocates b ops
allocates b (take ∷ ops) = allocates b ops
allocates b (drop x ∷ ops) = allocates b ops

abbrev pub Once : List Op → Type 0
Once [] = Unit {0}
Once (put a x ∷ ops) = (allocates a ops ≡ false) × Once ops
Once (take ∷ ops) = Once ops
Once (drop x ∷ ops) = Once ops

pub record Supplied (h : Heap) (ops : List Op) : Type 0 where
  pub once : Once ops
  pub fresh : (a : Ptr) → allocates a ops ≡ true → (a ≢ null) × (h.nodes a ≡ none)

-- Writes to the queue's own nodes leave the supply alone.
outside-fresh :
    {h : Heap} {q : Queue} {xs : Cells} (ops : List Op) (g : Heap)
    → IsQueue h q xs
    → AgreeOutside xs h.nodes g.nodes
    → ((a : Ptr) → allocates a ops ≡ true → (a ≢ null) × (h.nodes a ≡ none))
    → (a : Ptr) → allocates a ops ≡ true
    → (a ≢ null) × (g.nodes a ≡ none)
outside-fresh ops g is same fresh a i =
    let (ne, unused) = fresh a i in (ne, same a (not-mem_of_none a is.chain unused) ∙ unused)

-- Any sequence of calls on a valid queue, with memory for what it puts, and as long as it cannot
-- hold 2^32 nodes, runs without a fault, returns item by item what the plain list returns, and
-- ends in a valid queue that carries the list's items in the list's order.
pub run_refines :
    (ops : List Op) {h : Heap} {q : Queue} (xs : Cells)
    → IsQueue h q xs
    → Supplied h ops
    → length xs + length ops < 2 ^ 32
    → Returns
        (λ r g.
          (ys : Cells) × IsQueue g r.0 ys
          × (items ys ≡ (spec (items xs) ops).0)
          × (r.1 ≡ (spec (items xs) ops).1))
        (run ops q h)
unfolding run spec
run_refines [] xs is supply room = returns (xs, is, refl, refl)
run_refines (put a x ∷ ops) {h} xs is supply room =
    let (new, once) = supply.once in
    let (ne, unused) = supply.fresh a (ground arith) in
    Returns.bind (enqueue_appends a x ne unused refl (reset is) (omega arith)) λ q' g e.
      rw (← items-append xs ((a, x) ∷ []), spec)
        (run_refines ops (xs ++ ((a, x) ∷ [])) e.queue
          (record {
            once = once;
            fresh = λ b i.
                let (ne', free) = supply.fresh b (ground (arith, i)) in
                (ne', e.same b (ground (arith, i, new, not-mem_of_none b is.chain free)) ∙ free);
          })
          (omega (arith, length-append xs ((a, x) ∷ []))))
run_refines (take ∷ ops) {h} {q} [] is supply room =
    rw (dequeue_empty (record h { rc = itc_ok }) q (reset is)) (
      Returns.bind
        (run_refines ops [] (reset is) (record { once = supply.once; fresh = supply.fresh })
          (omega arith))
        λ rest g (ys, is', left, out). returns (ys, is', left, ground (arith, out)))
run_refines (take ∷ ops) {h} {q} ((p, x) ∷ xs) is supply room =
    Returns.bind (dequeue_first xs (reset is)) λ (item, q') g d.
      Returns.bind
        (run_refines ops xs d.queue
          (record { once = supply.once; fresh = outside-fresh ops g is d.same supply.fresh })
          (omega arith))
        λ rest g' (ys, is', left, out). returns (ys, is', left, ground (arith, out, d.item))
run_refines (drop x ∷ ops) {h} {q} xs is supply room = elim (Bool-cases (carries x xs)) [
  | inl there ↦ Returns.bind (remove_erases x (reset is) there) λ q' g r.
      rw (← items-erase x xs, spec)
        (run_refines ops (erase x xs) r.queue
          (record { once = supply.once; fresh = outside-fresh ops g is r.same supply.fresh })
          (omega (arith, length-erase x xs)))
  | inr absent ↦
      rw
        (
          remove_absent {h = record h { rc = itc_ok }} x (reset is) absent,
          delete-absent x xs absent,
          spec,
        )
        (run_refines ops xs (reset is) (record { once = supply.once; fresh = supply.fresh })
          (omega arith))
]
