-- ===== src/Local/Delivery.antt =====
-- local_send and local_receive of itc_local.c: what they do to the mailboxes of the process.
use itc_framework.Base.{ℕ, ◌^◌, ◌<◌, ◌≡◌, refl, sym, ◌∙◌, ◌≢◌, none, some, [], ◌∷◌, ◌++◌, arith}
use itc_framework.Memory.{Ptr, null, Message, Heap, update, itc_ok, itc_queue_empty}
use itc_framework.Memory.Chain.{Cells, AgreeOutside, among-append}
use itc_framework.Memory.Returns
use itc_framework.Memory.Returns.{Returns, returns}
use itc_framework.Rxq.Shape.{IsRxQueue}
use itc_framework.Rxq.Fifo
use itc_framework.Rxq.Fifo.{marked, unmarked, Dequeued}
use itc_framework.Local.{LocalInstance, send, receive}
use itc_framework.Local.Lookup.{own_id}
use itc_framework.Local.Table.{
  Boxes, cells, with_box, queued, queue_of, set-IsTable, unused-not-mem, Ready,
}
use itc_framework.Local.Slot.{put-Ready, slot, with_queue-queued}

-- What local_send of `x` to the mailbox `i` leaves behind.
pub record Sent (h : Heap) (process k : ℕ) (bs : Boxes) (i : ℕ) (xs : Cells) (fresh x : Ptr)
    (m : Message) (inst : LocalInstance) (g : Heap) : Type 0 where
  pub ready : Ready g inst process k (with_box bs i (some (xs ++ ((fresh, x) ∷ []))))
  pub message : g.messages ≡ update h.messages x (some (marked m))
  pub same : AgreeOutside ((fresh, x) ∷ xs) h.nodes g.nodes
  pub rc : g.rc ≡ itc_ok

-- local_send, in a process that is set up, to one of its mailboxes, with a fresh node from `malloc`:
-- the message is appended to that mailbox's queue and marked as queued; all other mailboxes hold
-- what they held, no other message is changed, and no error is raised.
pub send_delivers :
    {h : Heap} {inst : LocalInstance} {process k : ℕ} {bs : Boxes} (i : ℕ) (xs : Cells)
    (fresh x : Ptr) (m : Message)
    → Ready h inst process k bs
    → i < 2 ^ k
    → bs i ≡ some xs
    → h.rc ≡ itc_ok
    → fresh ≢ null
    → h.nodes fresh ≡ none
    → x ≢ null
    → h.messages x ≡ some m
    → Returns (Sent h process k bs i xs fresh x m) (send fresh inst x (own_id process i) h)
unfolding send
send_delivers {h} {inst} {process} {k} {bs} i xs fresh x m r hi box rc ne unused xne at =
    let (s, holds, here) = slot r i hi in
    let (q, found, is) = queue_of holds box in
    rw (with_queue-queued r inst _ i hi rc s q here found) (
      Returns.bind (Fifo.enqueue_message_appends xs fresh x m ne unused rc xne at is) λ q' g e.
        returns (record {
          ready =
              put-Ready r g i (record s { rxq = some q' }) _
                (λ t len table.
                  set-IsTable g i (record s { rxq = some q' }) (some (xs ++ ((fresh, x) ∷ [])))
                    table (omega arith) (queued e.queue)
                    (λ j ne a m. ground (
                      arith,
                      table.apart i j (λ d. ne (sym d)) a,
                      unused-not-mem fresh table unused j,
                      e.same a,
                    ))
                    (λ j ne a c m. ground (arith, e.message))
                    (λ j ne a m. ground (
                      arith,
                      table.apart i j (λ d. ne (sym d)) a,
                      unused-not-mem fresh table unused j,
                      among-append a xs ((fresh, x) ∷ []),
                    )));
          message = e.message;
          same = e.same;
          rc = e.rc ∙ rc;
        }))

-- What local_receive of the first message `x`, on the node `p`, leaves behind.
pub record Received (h : Heap) (process k : ℕ) (bs : Boxes) (i : ℕ) (p x : Ptr) (m : Message)
    (xs : Cells) (r : Ptr × LocalInstance) (g : Heap) : Type 0 where
  pub item : r.0 ≡ x
  pub ready : Ready g r.1 process k (with_box bs i (some xs))
  pub message : g.messages ≡ update h.messages x (some (unmarked m))
  pub freed : g.nodes p ≡ none
  pub same : AgreeOutside ((p, x) ∷ xs) h.nodes g.nodes
  pub rc : g.rc ≡ itc_ok

module _ {h : Heap} {inst : LocalInstance} {process k : ℕ} {bs : Boxes} (i : ℕ)
    (r : Ready h inst process k bs) (hi : i < 2 ^ k) (rc : h.rc ≡ itc_ok) where
  -- local_receive, in a process that is set up, from a mailbox that holds a message: the first
  -- message is returned and is no longer marked as queued, the mailbox holds the others in order,
  -- all other mailboxes hold what they held, and no error is raised.
  pub receive_takes_first :
      {p x : Ptr} (m : Message) (xs : Cells)
      → bs i ≡ some ((p, x) ∷ xs)
      → h.messages x ≡ some m
      → Returns (Received h process k bs i p x m xs) (receive inst (own_id process i) h)
  unfolding receive
  receive_takes_first {p} {x} m xs box at =
      let (s, holds, here) = slot r i hi in
      let (q, found, is) = queue_of holds box in
      let otherwise : Ptr × LocalInstance = (null, inst) in
      let inside : (a : Ptr) → cells (bs i) ≡ (p, x) ∷ xs = λ a. rw box in
      rw (with_queue-queued r otherwise _ i hi rc s q here found) (
        Returns.bind (Fifo.dequeue_message_takes xs m at is) λ (got, q') g d. returns (record {
          item = d.item;
          ready =
              put-Ready r g i (record s { rxq = some q' }) _
                (λ t len table.
                  set-IsTable g i (record s { rxq = some q' }) (some xs) table (omega arith)
                    (queued d.queue)
                    (λ j ne a m.
                      ground (arith, table.apart i j (λ e. ne (sym e)) a, inside a, d.same a))
                    (λ j ne a c m. ground (arith, d.message))
                    (λ j ne a m. ground (arith, table.apart i j (λ e. ne (sym e)) a, inside a)));
          message = d.message;
          freed = d.freed;
          same = d.same;
          rc = d.rc ∙ rc;
        }))

  -- From a mailbox that holds none it returns `NULL` and raises `ITC_QUEUE_EMPTY`; all mailboxes
  -- hold what they held, and nodes and messages are as before.
  pub receive_none :
      bs i ≡ some []
      → Returns
          (λ t g.
            (t.0 ≡ null)
            × Ready g t.1 process k (with_box bs i (some []))
            × (g ≡ record h { rc = itc_queue_empty }))
          (receive inst (own_id process i) h)
  unfolding receive
  receive_none box =
      let (s, holds, here) = slot r i hi in
      let (q, found, is) = queue_of holds box in
      let g = record h { rc = itc_queue_empty } in
      let otherwise : Ptr × LocalInstance = (null, inst) in
      let is' : IsRxQueue g q [] = record {
        before = is.before;
        chain = is.chain;
        closed = is.closed;
        messages = tt;
      } in
      rw
        (
          with_queue-queued r otherwise _ i hi rc s q here found,
          Fifo.no_message_dequeued h q is,
          rc,
        )
        (returns {h = g} (
          refl,
          put-Ready r g i (record s { rxq = some q }) _
              (λ t len table.
                set-IsTable g i (record s { rxq = some q }) (some []) table (omega arith)
                  (queued is') (λ j ne a m. refl) (λ j ne a c m. m) (λ j ne a m. cc)),
          refl,
        ))
