-- ===== src/Queue/Fifo.antt =====
-- `q_enqueue` and `q_dequeue` of itc_queue.c: a first-in first-out list.
use itc_framework.Base.{
  ℕ, suc, ◌+◌, ◌<◌, ◌^◌, ◌≡◌, refl, sym, ◌≢◌, none, some, [], ◌∷◌, ◌++◌, arith, bit_or, length,
  length-append, test_eq, test_ne,
}
use itc_framework.Memory.{
  Ptr, null, node, Heap, update, ended, raise, get_rc, itc_ok, itc_syscall_error, itc_queue_empty,
}
use itc_framework.Memory.Access.{
  not_null, load-ended, set_next-ended, set_prev-ended, free_node-ended,
}
use itc_framework.Memory.Chain.{
  Cells, AgreeOutside, Points, Seg, nil, cons, eq_of_nil, frame, snoc, last_mem, last-Points,
  not-mem_of_none,
}
use itc_framework.Memory.Returns.{Returns, returns}
use itc_framework.Queue.{Queue, create_node, enqueue, dequeue, remove_node}
use itc_framework.Queue.Shape.{IsQueue, Keeps}

-- What `q_enqueue` of `item` on a node at `fresh` leaves behind.
pub record Enqueued (h : Heap) (xs : Cells) (fresh item : Ptr) (q : Queue) (g : Heap) : Type 0 where
  pub queue : IsQueue g q (xs ++ ((fresh, item) ∷ []))
  pub same : AgreeOutside ((fresh, item) ∷ xs) h.nodes g.nodes
  pub keeps : Keeps h g

module _ {h : Heap} {q : Queue} (fresh item : Ptr) (ne : fresh ≢ null)
    (unused : h.nodes fresh ≡ none) (rc : h.rc ≡ itc_ok) where
  enqueue-nil : IsQueue h q [] → Returns (Enqueued h [] fresh item) (enqueue fresh q item h)
  unfolding enqueue create_node get_rc
  enqueue-nil is =
      let (p, t) = eq_of_nil is.chain in
      rw (test_ne ne, test_eq rc, test_eq (sym t))
        (returns (record {
          queue = record {
            chain = cons (ground arith) refl nil;
            size = ground arith;
            small = omega arith;
          };
          same = ground arith;
          keeps = record { messages = refl; rc = refl };
        }))

  enqueue-cons :
      {c : Ptr × Ptr} {xs : Cells}
      → IsQueue h q (c ∷ xs)
      → length (c ∷ xs) + 1 < 2 ^ 32
      → Returns (Enqueued h (c ∷ xs) fresh item) (enqueue fresh q item h)
  unfolding enqueue create_node get_rc
  enqueue-cons {c} {xs} is room =
      let out = not-mem_of_none fresh is.chain unused in
      let inside = last_mem is.chain in
      let (m, at, end) = last-Points is.chain in
      let apart : fresh ≢ q.tail = (λ e. ground arith) in
      let h1 = record h { nodes = update h.nodes fresh (some (node null null item)) } in
      let h2 = record h { nodes = update h1.nodes q.tail (some (record m { next = fresh })) } in
      let h3 = record h { nodes = update h2.nodes fresh (some (node null q.tail item)) } in
      let at1 : Points h1.nodes q.tail m = ground arith in
      let at2 : Points h2.nodes fresh (node null null item) = ground arith in
      rw
        (
          test_ne ne,
          test_eq rc,
          not_null at,
          set_next-ended h1 at1 fresh,
          set_prev-ended h2 at2 q.tail,
        )
        (returns {h = h3} (record {
          queue = record {
            chain = snoc fresh item m is.chain at.holds ne out;
            size = omega (arith, length-append xs ((fresh, item) ∷ []), is.size);
            small = omega (arith, length-append xs ((fresh, item) ∷ []));
          };
          same = ground arith;
          keeps = record { messages = refl; rc = refl };
        }))

-- `q_enqueue` on a valid queue, with a fresh node from `malloc` and no error pending, appends the
-- item at the tail: the queue holds the old nodes and then the new one, its size counts them, no
-- node outside the queue is written, and messages and return code are left alone.
pub enqueue_appends :
    {h : Heap} {q : Queue} {xs : Cells} (fresh item : Ptr)
    → fresh ≢ null
    → h.nodes fresh ≡ none
    → h.rc ≡ itc_ok
    → IsQueue h q xs
    → length xs + 1 < 2 ^ 32
    → Returns (Enqueued h xs fresh item) (enqueue fresh q item h)
enqueue_appends {xs = []} fresh item ne unused rc is room = enqueue-nil fresh item ne unused rc is
enqueue_appends {xs = c ∷ xs} fresh item ne unused rc is room =
    enqueue-cons fresh item ne unused rc is room

-- When `malloc` fails, `q_enqueue` leaves the queue, the nodes and the messages as they were, and
-- records a system call error.
pub enqueue_out_of_memory :
    (h : Heap) (q : Queue) (item : Ptr)
    → h.rc ≡ itc_ok
    → enqueue null q item h ≡ ended q (record h { rc = itc_syscall_error })
unfolding enqueue create_node get_rc raise
enqueue_out_of_memory h q item rc = rw rc

-- What `q_dequeue` of the first node leaves behind.
pub record Dequeued (h : Heap) (p x : Ptr) (xs : Cells) (r : Ptr × Queue) (g : Heap) : Type 0 where
  pub item : r.0 ≡ x
  pub queue : IsQueue g r.1 xs
  pub freed : g.nodes p ≡ none
  pub same : AgreeOutside ((p, x) ∷ xs) h.nodes g.nodes
  pub keeps : Keeps h g

-- The head as a variable, since a field cannot be matched against an index.
abbrev queue_at : Ptr → Ptr → Ptr → ℕ → Queue
queue_at head tail search size = record { head = head; tail = tail; search = search; size = size }

module _ {h : Heap} (search : Ptr) {size : ℕ} where
  dequeue-one :
      {head tail p x : Ptr}
      → Seg h.nodes tail null null head ((p, x) ∷ [])
      → size ≡ 1
      → Returns (Dequeued h p x []) (dequeue (queue_at head tail search size) h)
  unfolding dequeue remove_node
  dequeue-one (cons {p} e out nil) one =
      rw (not_null e, load-ended h e, test_eq {a = p} refl, free_node-ended h e)
        (returns (record {
          item = refl;
          queue = record { chain = nil; size = ground arith; small = omega arith };
          freed = ground arith;
          same = ground arith;
          keeps = record { messages = refl; rc = refl };
        }))

  dequeue-several :
      {head tail p x : Ptr} {c : Ptr × Ptr} {xs : Cells}
      → Seg h.nodes tail null null head ((p, x) ∷ c ∷ xs)
      → size ≡ suc (suc (length xs))
      → size < 2 ^ 32
      → Returns (Dequeued h p x (c ∷ xs)) (dequeue (queue_at head tail search size) h)
  unfolding dequeue remove_node
  dequeue-several {tail} (cons {p} e out (cons {p = p'} {q = q'} {x = x'} e' out' s)) count small =
      let inside = last_mem (cons e' out' s) in
      let apart : p ≢ tail = (λ d. ground arith) in
      let h1 = record h { nodes = update h.nodes p none } in
      let at : Points h1.nodes p' (node q' p x') = ground arith in
      rw
        (
          not_null e,
          load-ended h e,
          test_ne apart,
          load-ended h e',
          not_null e,
          free_node-ended h e,
          set_prev-ended h1 at null,
        )
        (returns (record {
          item = refl;
          queue = record {
            chain = cons (ground arith) out' (frame s (ground arith));
            size = omega arith;
            small = omega arith;
          };
          freed = ground arith;
          same = ground arith;
          keeps = record { messages = refl; rc = refl };
        }))

-- `q_dequeue` on a valid queue of one node or more returns the first item, gives exactly the first
-- node back, leaves a valid queue of the other nodes in order, writes no node outside the queue,
-- and leaves messages and return code alone.
pub dequeue_first :
    {h : Heap} {q : Queue} {p x : Ptr} (xs : Cells)
    → IsQueue h q ((p, x) ∷ xs)
    → Returns (Dequeued h p x xs) (dequeue q h)
dequeue_first {q} [] is = dequeue-one q.search is.chain is.size
dequeue_first {q} (c ∷ xs) is =
    dequeue-several q.search is.chain is.size (omega (arith, is.size, is.small))

-- On an empty queue `q_dequeue` returns `NULL`, changes no queue and no memory, and raises
-- `ITC_QUEUE_EMPTY`.
pub dequeue_empty :
    (h : Heap) (q : Queue)
    → IsQueue h q []
    → dequeue q h ≡ ended (null, q) (record h { rc = bit_or h.rc itc_queue_empty })
unfolding dequeue raise
dequeue_empty h q is = let (p, t) = eq_of_nil is.chain in rw (test_eq p)
