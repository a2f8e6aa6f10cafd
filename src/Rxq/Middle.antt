-- ===== src/Rxq/Middle.antt =====
-- remove_message_fromqueue of itc_local.c between the two ends of a queue, and the next
-- dequeue_message.
use itc_framework.Base.{ℕ, zero, suc, ◌<◌, ◌≡◌, refl, ◌≢◌, none, some, ◌∷◌, arith, test_eq, test_ne}
use itc_framework.Memory.{Ptr, null, node, Message, Heap, update, fault, ◌>>=◌}
use itc_framework.Memory.Access.{
  not_null, load-ended, set_next-ended, free_node-ended, free_node-fault,
}
use itc_framework.Memory.Chain.{Cells, Points, Seg, cons, last_mem}
use itc_framework.Rxq.{
  RxQueue, find, bypass, take_out, remove_qitem, remove_message, dequeue_message, take_first,
}
use itc_framework.Rxq.Shape.{IsRxQueue}
use itc_framework.Rxq.Fifo.{unmarked, unmark-ended}

-- Between the two ends the `prev` of the node that follows is not moved, and leads to the node that
-- was freed. The next dequeue_message follows it and frees that node again.
module _ (h : Heap) (search : Ptr) {x y : Ptr} (m : Message) (yne : y ≢ null)
    (at : h.messages y ≡ some m) where
  second-fault :
      {head tail before p a : Ptr} {c : Ptr × Ptr} {xs : Cells} (k : ℕ)
      → Seg h.nodes tail null before head ((p, x) ∷ (a, y) ∷ c ∷ xs)
      → x ≢ y
      → (remove_message (suc (suc k)) (record { head = head; tail = tail; find = search }) y
            >>= λ r. dequeue_message r.1)
          h
        ≡ fault
  unfolding remove_message find take_out bypass remove_qitem dequeue_message take_first
  second-fault {tail} {before} k
        (cons {p} e out (cons {p = a} e' out' (cons {p = b} {q = d} {x = z} e'' out'' s))) other =
      let inside = last_mem (cons e'' out'' s) in
      let apart : tail ≢ a = (λ f. ground arith) in
      let apart' : p ≢ tail = (λ f. ground arith) in
      let later : a ≢ p = (λ f. ground arith) in
      let h1 = record h { nodes = update h.nodes p (some (node b before x)) } in
      let h2 = record h1 { messages = update h.messages y (some (unmarked m)) } in
      let h3 = record h2 { nodes = update h1.nodes a none } in
      let at2 : Points h2.nodes a (node b p y) = ground arith in
      let at3 : Points h3.nodes p (node b before x) = ground arith in
      let on3 : Points h3.nodes b (node d a z) = ground arith in
      rw
        (
          not_null e,
          load-ended h e,
          test_ne other,
          not_null e',
          load-ended h e',
          test_eq {a = y} refl,
          not_null e',
          load-ended h e',
          test_ne later,
          set_next-ended h e b,
          unmark-ended h1 yne at,
          free_node-ended h2 at2,
          test_ne apart,
        )
        (rw (
          not_null e,
          load-ended h3 at3,
          test_ne apart',
          load-ended h3 on3,
          not_null e',
          free_node-fault h3 a (ground arith),
        ))

-- remove_message_fromqueue of the second of three or more messages, and then dequeue_message, is a
-- double free, whatever the queue holds otherwise.
pub dequeue-remove_second :
    (h : Heap) (q : RxQueue) {p x a y : Ptr} {c : Ptr × Ptr} {xs : Cells} (fuel : ℕ) (m : Message)
    → h.messages y ≡ some m
    → IsRxQueue h q ((p, x) ∷ (a, y) ∷ c ∷ xs)
    → x ≢ y
    → 1 < fuel
    → (remove_message fuel q y >>= λ r. dequeue_message r.1) h ≡ fault
dequeue-remove_second h q zero m at is other enough = absurd (omega arith)
dequeue-remove_second h q (suc zero) m at is other enough = absurd (omega arith)
dequeue-remove_second h q (suc (suc k)) m at is other enough =
    second-fault h q.find m is.messages.2.0 at k is.chain other
