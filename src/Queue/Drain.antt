-- ===== src/Queue/Drain.antt =====
-- `q_clear` and `q_exit` of itc_queue.c: every node is given back.
use itc_framework.Base.{
  ℕ, zero, suc, ◌+◌, ◌<◌, ◌≡◌, refl, ◌≢◌, true, false, Option, none, some, [], ◌∷◌, arith, bit_or,
  ◌==◌, ltb, if◌then◌else◌, length, test_ne, Bool-cases, inl, inr,
}
use itc_framework.Memory.{
  Ptr, Heap, ended, raise, clear_flag, itc_ok, itc_queue_null, itc_queue_empty, itc_syscall_error,
}
use itc_framework.Memory.Chain.{Cells, Nodes, among}
use itc_framework.Memory.Returns
use itc_framework.Memory.Returns.{Returns, returns}
use itc_framework.Queue.{Queue, drain, clear, exit}
use itc_framework.Queue.Shape.{IsQueue}
use itc_framework.Queue.Fifo.{Dequeued, dequeue_first, dequeue_empty}

-- No node carries `NULL`, which the loops read as the end of the queue.
abbrev pub NoNull : Cells → Type 0
NoNull [] = Unit {0}
NoNull ((p, x) ∷ xs) = (x ≢ 0) × NoNull xs

-- `g` is `h` less the nodes of `xs`.
abbrev pub Without : Cells → Nodes → Nodes → Type 0
Without xs h g = (a : Ptr) → g a ≡ (if among a xs then none else h a)

record Drained (h : Heap) (xs : Cells) (q : Queue) (g : Heap) : Type 0 where
  queue : IsQueue g q []
  freed : Without xs h.nodes g.nodes
  messages : g.messages ≡ h.messages
  rc : g.rc ≡ bit_or h.rc itc_queue_empty

Drained-cons :
    {h h1 g : Heap} {p x : Ptr} {xs : Cells} {r : Ptr × Queue} {q : Queue}
    → Dequeued h p x xs r h1
    → Drained h1 xs q g
    → Drained h ((p, x) ∷ xs) q g
Drained-cons {p} d e = record {
  queue = e.queue;
  freed = λ a. ground (arith, e.freed a, d.same a, d.freed);
  messages = ground (arith, e.messages, d.keeps);
  rc = ground (arith, e.rc, d.keeps);
}

drain-Drained :
    (k : ℕ) (h : Heap) (q : Queue) (xs : Cells)
    → IsQueue h q xs
    → NoNull xs
    → length xs < k
    → Returns (Drained h xs) (drain k q h)
unfolding drain
drain-Drained zero h q xs is full fuel = absurd (omega arith)
drain-Drained (suc k) h q [] is full fuel = rw (dequeue_empty h q is) (
    returns (record {
      queue = record { chain = is.chain; size = is.size; small = is.small };
      freed = λ a. refl;
      messages = refl;
      rc = refl;
    }))
drain-Drained (suc k) h q ((p, x) ∷ xs) is full fuel =
    Returns.bind (dequeue_first xs is) λ (item, q') h1 d.
      rw (d.item, test_ne full.0)
        (Returns.weaken (drain-Drained k h1 q' xs d.queue full.1 (omega arith))
          λ q'' g e. Drained-cons d e)

-- What `q_clear` leaves behind.
pub record Cleared (h : Heap) (xs : Cells) (r : Option Queue) (g : Heap) : Type 0 where
  pub queue : (q : Queue) × (r ≡ some q) × IsQueue g q []
  pub freed : Without xs h.nodes g.nodes
  pub messages : g.messages ≡ h.messages
  pub rc : g.rc ≡ (if ltb 0 (length xs) then bit_or h.rc itc_queue_empty else h.rc)

-- On a valid queue that carries no `NULL`, `q_clear` ends, frees exactly the nodes of the queue,
-- each once, and leaves a valid empty queue and the messages as they were; `ITC_QUEUE_EMPTY` is
-- raised unless the queue was empty before.
pub clear_frees :
    {h : Heap} {q : Queue} {xs : Cells}
    → IsQueue h q xs
    → NoNull xs
    → Returns (Cleared h xs) (clear (some q) h)
unfolding clear
clear_frees {h} {q} {xs = []} is full =
    let nothing_left : ltb 0 q.size ≡ false = ground (arith, is.size) in
    rw nothing_left
      (returns (record { queue = (q, refl, is); freed = λ a. refl; messages = refl; rc = refl }))
clear_frees {h} {q} {xs = c ∷ xs} is full =
    let some_left : ltb 0 q.size ≡ true = ground (arith, is.size) in
    rw some_left (
      Returns.bind (drain-Drained (q.size + 1) h q (c ∷ xs) is full (omega (arith, is.size)))
        λ q' g d. returns (record {
          queue = (q', refl, d.queue);
          freed = d.freed;
          messages = d.messages;
          rc = ground (arith, d.rc);
        }))

-- `q_clear` and `q_exit` of a null queue touch nothing and raise `ITC_QUEUE_NULL`.
pub null_queue :
    (h : Heap) (ret : ℕ)
    → (clear none h ≡ ended none (record h { rc = bit_or h.rc itc_queue_null }))
      × (exit ret none h ≡ ended tt (record h { rc = bit_or h.rc itc_queue_null }))
unfolding clear exit raise
null_queue h ret = (refl, refl)

-- What `q_exit` leaves behind; `ret` is what destroying the mutex returned.
pub record Exited (h : Heap) (xs : Cells) (ret : ℕ) (u : Unit {0}) (g : Heap) : Type 0 where
  pub freed : Without xs h.nodes g.nodes
  pub messages : g.messages ≡ h.messages
  pub rc : g.rc ≡ (if ret == 0 then itc_ok else itc_syscall_error)

-- `q_exit` of a valid queue that carries no `NULL`, with no error pending, ends and frees exactly
-- the nodes of the queue; the flag that emptying it raises is taken back, so the return code is
-- clean unless the mutex could not be destroyed.
pub exit_frees :
    {h : Heap} {q : Queue} {xs : Cells} (ret : ℕ)
    → IsQueue h q xs
    → NoNull xs
    → h.rc ≡ itc_ok
    → Returns (Exited h xs ret) (exit ret (some q) h)
unfolding exit raise clear_flag
exit_frees {h} {q} {xs = []} ret is full rc = elim (Bool-cases (ret == 0)) [
  | inl fine ↦
      rw (is.size, fine)
        (returns (record { freed = λ a. refl; messages = refl; rc = rw (fine, rc) }))
  | inr bad ↦
      rw (is.size, bad) (returns (record { freed = λ a. refl; messages = refl; rc = rw (bad, rc) }))
]
exit_frees {h} {q} {xs = c ∷ xs} ret is full rc =
    let some_left : ltb 0 q.size ≡ true = ground (arith, is.size) in
    rw some_left (
      Returns.bind (drain-Drained (q.size + 1) h q (c ∷ xs) is full (omega (arith, is.size)))
        λ q' g d. elim (Bool-cases (ret == 0)) [
          | inl fine ↦ rw fine (
              returns (record { freed = d.freed; messages = d.messages; rc = rw (fine, d.rc, rc) }))
          | inr bad ↦
              rw bad (
                returns
                  (record { freed = d.freed; messages = d.messages; rc = rw (bad, d.rc, rc) }))
        ])
