-- ===== src/Rxq/Fifo.antt =====
-- enqueue_message and dequeue_message of itc_local.c: first in, first out.
use itc_framework.Base.{
  ◌-◌, ◌≡◌, refl, ◌≢◌, true, none, some, [], ◌∷◌, ◌++◌, arith, bit_and, bit_or, is_some, test_eq,
  test_ne,
}
use itc_framework.Memory.{
  Ptr, null, node, Message, Heap, update, ended, raise, get_rc, itc_ok, itc_syscall_error,
  itc_queue_empty,
}
use itc_framework.Memory.Access.{
  not_null, load-ended, set_next-ended, set_prev-ended, free_node-ended, load_message-ended,
}
use itc_framework.Memory.Chain.{
  Cells, AgreeOutside, Points, Seg, nil, cons, eq_of_nil, head_ne_null, frame, snoc, last_mem,
  last-Points, not-mem_of_none,
}
use itc_framework.Memory.Returns.{Returns, returns}
use itc_framework.Message.{msg_in_rx_queue}
use itc_framework.Rxq.{
  RxQueue, mark, unmark, create_qitem, link_qitem, remove_qitem, take_only, take_first,
  enqueue_message, dequeue_message,
}
use itc_framework.Rxq.Shape.{AllMessages, AllMessages-mono, IsRxQueue}

abbrev pub marked : Message → Message
marked m = record m { flags = bit_or m.flags msg_in_rx_queue }

abbrev pub unmarked : Message → Message
unmarked m = record m { flags = bit_and m.flags (0xffffffff - msg_in_rx_queue) }

module _ (h : Heap) {p : Ptr} {m : Message} (ne : p ≢ null) (at : h.messages p ≡ some m) where
  pub mark-ended :
      mark p h ≡ ended tt (record h { messages = update h.messages p (some (marked m)) })
  unfolding mark
  mark-ended = rw (load_message-ended h ne at)

  pub unmark-ended :
      unmark p h ≡ ended tt (record h { messages = update h.messages p (some (unmarked m)) })
  unfolding unmark
  unmark-ended = rw (load_message-ended h ne at)

AllMessages-snoc :
    (h : Heap) (xs : Cells) (p x : Ptr)
    → AllMessages h xs
    → x ≢ null
    → is_some (h.messages x) ≡ true
    → AllMessages h (xs ++ ((p, x) ∷ []))
AllMessages-snoc h [] p x all ne at = (ne, at, tt)
AllMessages-snoc h ((q, y) ∷ xs) p x all ne at =
    (all.0, all.1, AllMessages-snoc h xs p x all.2 ne at)

-- What enqueue_message of `x` on a node at `fresh` leaves behind.
pub record Enqueued (h : Heap) (xs : Cells) (fresh x : Ptr) (m : Message) (q : RxQueue) (g : Heap)
    : Type 0 where
  pub queue : IsRxQueue g q (xs ++ ((fresh, x) ∷ []))
  pub message : g.messages ≡ update h.messages x (some (marked m))
  pub same : AgreeOutside ((fresh, x) ∷ xs) h.nodes g.nodes
  pub rc : g.rc ≡ h.rc

module _ {h : Heap} {q : RxQueue} (fresh x : Ptr) (m : Message) (ne : fresh ≢ null)
    (unused : h.nodes fresh ≡ none) (rc : h.rc ≡ itc_ok) (xne : x ≢ null)
    (at : h.messages x ≡ some m) where
  enqueue-nil : IsRxQueue h q [] → Returns (Enqueued h [] fresh x m) (enqueue_message fresh q x h)
  unfolding enqueue_message create_qitem link_qitem get_rc
  enqueue-nil is =
      let (p, t) = eq_of_nil is.chain in
      let h1 = record h { nodes = update h.nodes fresh (some (node null null x)) } in
      rw (test_ne ne, test_eq rc, test_eq (is.closed p), mark-ended h1 xne at)
        (returns (record {
          queue = record {
            before = null;
            chain = cons (ground arith) refl nil;
            closed = ground arith;
            messages = (xne, ground arith, tt);
          };
          message = refl;
          same = ground arith;
          rc = refl;
        }))

  enqueue-cons :
      {c : Ptr × Ptr} {xs : Cells}
      → IsRxQueue h q (c ∷ xs)
      → Returns (Enqueued h (c ∷ xs) fresh x m) (enqueue_message fresh q x h)
  unfolding enqueue_message create_qitem link_qitem get_rc
  enqueue-cons {c} {xs} is =
      let out = not-mem_of_none fresh is.chain unused in
      let inside = last_mem is.chain in
      let (n, on, _) = last-Points is.chain in
      let apart : fresh ≢ q.tail = (λ e. ground arith) in
      let h1 = record h { nodes = update h.nodes fresh (some (node null null x)) } in
      let h2 = record h { nodes = update h1.nodes q.tail (some (record n { next = fresh })) } in
      let h3 = record h { nodes = update h2.nodes fresh (some (node null q.tail x)) } in
      let on1 : Points h1.nodes q.tail n = ground arith in
      let on2 : Points h2.nodes fresh (node null null x) = ground arith in
      let g = record h3 { messages = update h.messages x (some (marked m)) } in
      rw
        (
          test_ne ne,
          test_eq rc,
          not_null on,
          set_next-ended h1 on1 fresh,
          set_prev-ended h2 on2 q.tail,
          mark-ended h3 xne at,
        )
        (returns {h = g} (record {
          queue = record {
            before = is.before;
            chain = snoc fresh x n is.chain on.holds ne out;
            closed = λ e. absurd (head_ne_null is.chain e);
            messages =
                AllMessages-snoc g (c ∷ xs) fresh x
                  (AllMessages-mono h g (c ∷ xs) (λ a i. ground arith) is.messages) xne
                  (ground arith);
          };
          message = refl;
          same = ground arith;
          rc = refl;
        }))

-- enqueue_message on a valid rx queue, with a fresh node from `malloc` and no error pending, puts
-- the message behind all others, sets its in-queue flag and changes no other message, writes no
-- node outside the queue and keeps the return code.
pub enqueue_message_appends :
    {h : Heap} {q : RxQueue} (xs : Cells) (fresh x : Ptr) (m : Message)
    → fresh ≢ null
    → h.nodes fresh ≡ none
    → h.rc ≡ itc_ok
    → x ≢ null
    → h.messages x ≡ some m
    → IsRxQueue h q xs
    → Returns (Enqueued h xs fresh x m) (enqueue_message fresh q x h)
enqueue_message_appends [] fresh x m ne unused rc xne at is =
    enqueue-nil fresh x m ne unused rc xne at is
enqueue_message_appends (c ∷ xs) fresh x m ne unused rc xne at is =
    enqueue-cons fresh x m ne unused rc xne at is

-- When memory is exhausted, enqueue_message changes no queue, node or message, and records a
-- system call error.
pub message_not_enqueued :
    (h : Heap) (q : RxQueue) (x : Ptr)
    → h.rc ≡ itc_ok
    → enqueue_message null q x h ≡ ended q (record h { rc = itc_syscall_error })
unfolding enqueue_message create_qitem get_rc raise
message_not_enqueued h q x rc = rw rc

-- What dequeue_message of the first message `x`, on the node `p`, leaves behind.
pub record Dequeued (h : Heap) (p x : Ptr) (m : Message) (xs : Cells) (r : Ptr × RxQueue) (g : Heap)
    : Type 0 where
  pub item : r.0 ≡ x
  pub queue : IsRxQueue g r.1 xs
  pub message : g.messages ≡ update h.messages x (some (unmarked m))
  pub freed : g.nodes p ≡ none
  pub same : AgreeOutside ((p, x) ∷ xs) h.nodes g.nodes
  pub rc : g.rc ≡ h.rc

-- The head as a variable, since a field cannot be matched against an index.
abbrev rx_queue_at : Ptr → Ptr → Ptr → RxQueue
rx_queue_at head tail find = record { head = head; tail = tail; find = find }

module _ {h : Heap} (find : Ptr) {x : Ptr} (m : Message) (xne : x ≢ null)
    (at : h.messages x ≡ some m) where
  dequeue-one :
      {head tail before p : Ptr}
      → Seg h.nodes tail null before head ((p, x) ∷ [])
      → Returns (Dequeued h p x m []) (dequeue_message (rx_queue_at head tail find) h)
  unfolding dequeue_message take_only remove_qitem
  dequeue-one (cons {p} e out nil) =
      let h1 = record h { nodes = update h.nodes p none } in
      rw
        (
          not_null e,
          load-ended h e,
          test_eq {a = p} refl,
          free_node-ended h e,
          unmark-ended h1 xne at,
        )
        (returns (record {
          item = refl;
          queue = record { before = null; chain = nil; closed = λ _. refl; messages = tt };
          message = refl;
          freed = ground arith;
          same = ground arith;
          rc = refl;
        }))

  dequeue-several :
      {head tail before p : Ptr} {c : Ptr × Ptr} {xs : Cells}
      → Seg h.nodes tail null before head ((p, x) ∷ c ∷ xs)
      → AllMessages h (c ∷ xs)
      → Returns (Dequeued h p x m (c ∷ xs)) (dequeue_message (rx_queue_at head tail find) h)
  unfolding dequeue_message take_first remove_qitem
  dequeue-several {tail} {c} {xs} (cons {p} e out (cons {p = p'} {q = q'} {x = x'} e' out' s)) all =
      let inside = last_mem (cons e' out' s) in
      let apart : p ≢ tail = (λ d. ground arith) in
      let h1 = record h { nodes = update h.nodes p none } in
      let on : Points h1.nodes p' (node q' p x') = ground arith in
      let h2 = record h { nodes = update h1.nodes p' (some (node q' null x')) } in
      let g = record h2 { messages = update h.messages x (some (unmarked m)) } in
      rw
        (
          not_null e,
          load-ended h e,
          test_ne apart,
          load-ended h e',
          not_null e,
          free_node-ended h e,
          set_prev-ended h1 on null,
          unmark-ended h2 xne at,
        )
        (returns {h = g} (record {
          item = refl;
          queue = record {
            before = null;
            chain = cons (ground arith) out' (frame s (ground arith));
            closed = λ d. absurd (e'.ne_null d);
            messages = AllMessages-mono h g ((p', x') ∷ xs) (λ a i. ground arith) all;
          };
          message = refl;
          freed = ground arith;
          same = ground arith;
          rc = refl;
        }))

-- dequeue_message on a valid rx queue of one message or more returns the first, takes its in-queue
-- flag back and changes no other message, gives exactly the first node back, leaves a valid queue
-- of the others in order and keeps the return code.
pub dequeue_message_takes :
    {h : Heap} {q : RxQueue} {p x : Ptr} (xs : Cells) (m : Message)
    → h.messages x ≡ some m
    → IsRxQueue h q ((p, x) ∷ xs)
    → Returns (Dequeued h p x m xs) (dequeue_message q h)
dequeue_message_takes {q} [] m at is = dequeue-one q.find m is.messages.0 at is.chain
dequeue_message_takes {q} (c ∷ xs) m at is =
    dequeue-several q.find m is.messages.0 at is.chain is.messages.2

-- On an empty rx queue dequeue_message returns `NULL`, changes nothing else and raises
-- `ITC_QUEUE_EMPTY`.
pub no_message_dequeued :
    (h : Heap) (q : RxQueue)
    → IsRxQueue h q []
    → dequeue_message q h ≡ ended (null, q) (record h { rc = bit_or h.rc itc_queue_empty })
unfolding dequeue_message raise
no_message_dequeued h q is = let (p, t) = eq_of_nil is.chain in rw (test_eq p)
