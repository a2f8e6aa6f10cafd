-- ===== src/Local/Discard.antt =====
-- The loop of local_delete_mbox and release_localmbx_resources of itc_local.c that discards what an
-- rx queue holds.
use itc_framework.Base.{
  ℕ, zero, suc, ◌-◌, ◌/◌, ◌<◌, ◌≡◌, refl, ◌≢◌, true, false, none, some, [], ◌∷◌, arith, bit_and,
  if◌then◌else◌, length, bit_and_step, bit_and-le, test_ne,
}
use itc_framework.Memory.{Ptr, null, Message, Heap, update, itc_ok, itc_queue_empty}
use itc_framework.Memory.Chain.{Cells, among}
use itc_framework.Memory.Items.{carries}
use itc_framework.Memory.Returns
use itc_framework.Memory.Returns.{Returns, returns}
use itc_framework.Message.{endpoint, byte_at}
use itc_framework.Message.Lifecycle.{Releasable, free_releases}
use itc_framework.Rxq.{RxQueue}
use itc_framework.Rxq.Shape.{AllMessages, IsRxQueue}
use itc_framework.Rxq.Fifo.{unmarked, dequeue_message_takes, no_message_dequeued}
use itc_framework.Local.{discard}

unflagged : (f : ℕ) → bit_and (bit_and f (0xffffffff - 1)) 1 ≡ 0
unflagged f = omega (
  arith,
  bit_and_step (bit_and f 0xfffffffe) 1,
  bit_and-le (bit_and f 0xfffffffe / 2) 0,
  bit_and_step f 0xfffffffe,
)

unmarked-Releasable : (m : Message) → byte_at m m.size ≡ some endpoint → Releasable (unmarked m)
unfolding byte_at
unmarked-Releasable m guarded = record { idle = unflagged m.flags; whole = guarded }

-- The messages of a queue are different ones, and the endpoint byte of each is whole.
pub data Whole (h : Heap) : Cells → Type 0 where
  no_more : Whole h []
  one_more :
      {p x : Ptr} {m : Message} {xs : Cells}
      → x ≢ null
      → h.messages x ≡ some m
      → byte_at m m.size ≡ some endpoint
      → carries x xs ≡ false
      → Whole h xs
      → Whole h ((p, x) ∷ xs)

Whole-same :
    {h : Heap} (g : Heap) {xs : Cells}
    → Whole h xs
    → ((a : Ptr) → carries a xs ≡ true → g.messages a ≡ h.messages a)
    → Whole g xs
unfolding carries
Whole-same g no_more same = no_more
Whole-same g (one_more {x} ne at guarded once w) same =
    one_more ne (ground (arith, same x, at)) guarded once
      (Whole-same g w λ a i. same a (ground (arith, i)))

Whole-AllMessages : {h : Heap} {xs : Cells} → Whole h xs → AllMessages h xs
Whole-AllMessages no_more = tt
Whole-AllMessages (one_more ne at guarded once w) = (ne, rw at, Whole-AllMessages w)

-- What the loop leaves behind.
pub record Discarded (h : Heap) (xs : Cells) (q : RxQueue) (g : Heap) : Type 0 where
  pub queue : IsRxQueue g q []
  pub nodes : (a : Ptr) → g.nodes a ≡ (if among a xs then none else h.nodes a)
  pub messages : (a : Ptr) → g.messages a ≡ (if carries a xs then none else h.messages a)
  pub rc : g.rc ≡ itc_queue_empty

-- The loop on a valid rx queue of different and whole messages, with no error pending and a round
-- for each of them and one more: it ends, frees each message and each node once and nothing else,
-- and leaves a valid empty queue, with `ITC_QUEUE_EMPTY` raised.
pub discard_frees :
    (k : ℕ) (h : Heap) {q : RxQueue} (xs : Cells)
    → IsRxQueue h q xs
    → Whole h xs
    → h.rc ≡ itc_ok
    → length xs < k
    → Returns (Discarded h xs) (discard true k q h)
unfolding discard carries
discard_frees zero h xs is w rc enough = absurd (omega arith)
discard_frees (suc k) h {q} [] is w rc enough =
    rw (no_message_dequeued h q is, rc)
      (returns (record {
        queue = record { before = is.before; chain = is.chain; closed = is.closed; messages = tt };
        nodes = λ a. refl;
        messages = λ a. refl;
        rc = refl;
      }))
discard_frees (suc k) h ((p, x) ∷ xs) is (one_more {m} ne at guarded once w) rc enough =
    Returns.bind (dequeue_message_takes xs m at is) λ (item, q') g d.
      let there : g.messages x ≡ some (unmarked m) = ground (arith, d.message) in
      let ready : Releasable (unmarked m) = unmarked-Releasable m guarded in
      let g' : Heap = record g { messages = update g.messages x none; rc = itc_ok } in
      let w' : Whole g' xs = Whole-same g' w λ a i. ground (arith, d.message, once, i) in
      let is' : IsRxQueue g' q' xs = record {
        before = d.queue.before;
        chain = d.queue.chain;
        closed = d.queue.closed;
        messages = Whole-AllMessages w';
      } in
      rw (d.item, test_ne ne, free_releases g x (unmarked m) ne there ready)
        (Returns.weaken (discard_frees k g' xs is' w' refl (omega arith)) λ q'' g'' e. record {
          queue = e.queue;
          nodes = λ a. ground (arith, e.nodes a, d.same a, d.freed);
          messages = λ a. ground (arith, e.messages a, d.message);
          rc = e.rc;
        })
