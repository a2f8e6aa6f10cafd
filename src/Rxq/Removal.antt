-- ===== src/Rxq/Removal.antt =====
-- remove_message_fromqueue of itc_local.c at the two ends of a queue.
use itc_framework.Base.{
  ℕ, zero, suc, ◌<◌, ◌≡◌, refl, sym, ◌≢◌, false, none, some, [], ◌∷◌, ◌++◌, arith, bit_or, ◌==◌,
  length, test_eq, test_ne,
}
use itc_framework.Memory.{
  Ptr, null, Node, node, Message, Heap, update, ended, raise, itc_queue_empty,
}
use itc_framework.Memory.Access.{not_null, load-ended, set_next-ended, free_node-ended}
use itc_framework.Memory.Chain.{
  Cells, Points, Seg, split, nil, cons, eq_of_nil, head_ne_null, frame, first_mem, last_mem,
  last-Points, retarget,
}
use itc_framework.Memory.Items.{carries}
use itc_framework.Memory.Returns
use itc_framework.Memory.Returns.{Returns, returns}
use itc_framework.Rxq.{RxQueue, find, bypass, take_out, remove_qitem, remove_message}
use itc_framework.Rxq.Shape.{AllMessages, AllMessages-mono, IsRxQueue}
use itc_framework.Rxq.Fifo.{Dequeued, unmarked, unmark-ended}

-- The search stops at the first node of the message, and hands over the node before it.
find-front :
    (k : ℕ) (h : Heap) {b p a w : Ptr} {ys : Cells} (n : Node) (x : Ptr)
    → Seg h.nodes w a b p ys
    → carries x ys ≡ false
    → Points h.nodes a n
    → n.item ≡ x
    → length ys < k
    → find k p b x h ≡ ended (a, w) h
unfolding find carries
find-front zero h n x s absent at hit fuel = absurd (omega arith)
find-front (suc k) h n x nil absent at hit fuel = rw (not_null at, load-ended h at, test_eq hit)
find-front (suc k) h n x (cons {x = y} {xs} e out s) absent at hit fuel =
    let miss : (y == x) ≡ false = ground arith in
    rw (not_null e, load-ended h e, miss) (find-front k h n x s (ground arith) at hit (omega arith))

find-absent :
    (k : ℕ) (h : Heap) {last b p : Ptr} {xs : Cells} (prev x : Ptr)
    → Seg h.nodes last null b p xs
    → carries x xs ≡ false
    → length xs < k
    → Returns (λ r g. (r.0 ≡ null) × (g ≡ h)) (find k p prev x h)
unfolding find carries
find-absent zero h prev x s absent fuel = absurd (omega arith)
find-absent (suc k) h prev x nil absent fuel = returns (refl, refl)
find-absent (suc k) h prev x (cons {p} {x = y} e out s) absent fuel =
    let miss : (y == x) ≡ false = ground arith in
    rw (not_null e, load-ended h e, miss) (find-absent k h p x s (ground arith) (omega arith))

-- remove_message_fromqueue of a message that the queue does not carry ends, returns `NULL`, keeps
-- queue and memory and raises `ITC_QUEUE_EMPTY`.
pub message_not_removed :
    {h : Heap} {q : RxQueue} (fuel : ℕ) (x : Ptr) {xs : Cells}
    → IsRxQueue h q xs
    → carries x xs ≡ false
    → length xs < fuel
    → Returns
        (λ r g. (r ≡ (null, q)) × (g ≡ record h { rc = bit_or h.rc itc_queue_empty }))
        (remove_message fuel q x h)
unfolding remove_message raise
message_not_removed {h} {q} fuel x is absent enough =
    Returns.bind (find-absent fuel h null x is.chain absent enough)
      λ r g (gone, same). rw (gone, same) (returns (refl, refl))

-- The first message: the same outcome as that of dequeue_message, but for the `prev` of the new
-- first node.
module _ {h : Heap} (search : Ptr) {x : Ptr} (m : Message) (xne : x ≢ null)
    (at : h.messages x ≡ some m) where
  remove-one :
      {head tail before p : Ptr} {xs : Cells} (k : ℕ)
      → Seg h.nodes tail null before head ((p, x) ∷ xs)
      → AllMessages h xs
      → Returns
          (Dequeued h p x m xs)
          (remove_message (suc k) (record { head = head; tail = tail; find = search }) x h)
  unfolding remove_message find take_out bypass remove_qitem
  remove-one k (cons {p} e out nil) all =
      let h1 = record h { messages = update h.messages x (some (unmarked m)) } in
      rw
        (
          not_null e,
          load-ended h e,
          test_eq {a = x} refl,
          not_null e,
          load-ended h e,
          test_eq {a = p} refl,
          unmark-ended h xne at,
          free_node-ended h1 e,
        )
        (returns (record {
          item = refl;
          queue = record { before = null; chain = nil; closed = λ _. refl; messages = tt };
          message = refl;
          freed = ground arith;
          same = ground arith;
          rc = refl;
        }))
  remove-one k (cons {p} e out (cons {p = p'} {x = x'} {xs} e' out' s)) all =
      let h1 = record h { messages = update h.messages x (some (unmarked m)) } in
      let g = record h1 { nodes = update h.nodes p none } in
      rw
        (
          not_null e,
          load-ended h e,
          test_eq {a = x} refl,
          not_null e,
          load-ended h e,
          test_eq {a = p} refl,
          unmark-ended h xne at,
          free_node-ended h1 e,
          not_null e',
        )
        (returns {h = g} (record {
          item = refl;
          queue = record {
            before = p;
            chain = frame (cons e' out' s) (ground arith);
            closed = λ d. absurd (e'.ne_null d);
            messages = AllMessages-mono h g ((p', x') ∷ xs) (λ a i. ground arith) all;
          };
          message = refl;
          freed = ground arith;
          same = ground arith;
          rc = refl;
        }))

-- remove_message_fromqueue of the message that stands first ends, returns it, frees its node, takes
-- its in-queue flag back, and leaves a valid queue of the others in order.
pub first_message_removed :
    {h : Heap} {q : RxQueue} {p x : Ptr} {xs : Cells} (fuel : ℕ) (m : Message)
    → h.messages x ≡ some m
    → IsRxQueue h q ((p, x) ∷ xs)
    → 0 < fuel
    → Returns (Dequeued h p x m xs) (remove_message fuel q x h)
first_message_removed zero m at is enough = absurd (omega arith)
first_message_removed {q} (suc k) m at is enough =
    remove-one q.find m is.messages.0 at k is.chain is.messages.2

find-later :
    (k : ℕ) (h : Heap) {b p a w : Ptr} {c : Ptr × Ptr} {ys : Cells} (n : Node) (prev x : Ptr)
    → Seg h.nodes w a b p (c ∷ ys)
    → carries x (c ∷ ys) ≡ false
    → Points h.nodes a n
    → n.item ≡ x
    → length (c ∷ ys) < k
    → find k p prev x h ≡ ended (a, w) h
unfolding find carries
find-later zero h n prev x s absent at hit fuel = absurd (omega arith)
find-later (suc k) h n prev x (cons {x = y} e out s) absent at hit fuel =
    let miss : (y == x) ≡ false = ground arith in
    rw (not_null e, load-ended h e, miss) (find-front k h n x s (ground arith) at hit (omega arith))

-- What taking out the last message leaves behind.
pub record RemovedLast (h : Heap) (a x : Ptr) (m : Message) (ys : Cells) (r : Ptr × RxQueue)
    (g : Heap) : Type 0 where
  pub item : r.0 ≡ x
  pub queue : IsRxQueue g r.1 ys
  pub message : g.messages ≡ update h.messages x (some (unmarked m))
  pub freed : g.nodes a ≡ none
  pub rc : g.rc ≡ h.rc

-- The messages before the last.
AllMessages-front : (h : Heap) (ys zs : Cells) → AllMessages h (ys ++ zs) → AllMessages h ys
AllMessages-front h [] zs all = tt
AllMessages-front h ((p, x) ∷ ys) zs all = (all.0, all.1, AllMessages-front h ys zs all.2)

AllMessages-last :
    (h : Heap) (ys : Cells) (a x : Ptr) → AllMessages h (ys ++ ((a, x) ∷ [])) → x ≢ null
AllMessages-last h [] a x all = all.0
AllMessages-last h ((p, y) ∷ ys) a x all = AllMessages-last h ys a x all.2

-- remove_message_fromqueue of the message that stands last behind others, where none of those is
-- the same message, ends, returns it, frees its node, takes its in-queue flag back, and leaves a
-- valid queue of the others in order.
pub last_message_removed :
    {h : Heap} {q : RxQueue} {a x : Ptr} {c : Ptr × Ptr} {ys : Cells} (fuel : ℕ) (m : Message)
    → h.messages x ≡ some m
    → IsRxQueue h q ((c ∷ ys) ++ ((a, x) ∷ []))
    → carries x (c ∷ ys) ≡ false
    → length (c ∷ ys) < fuel
    → Returns (RemovedLast h a x m (c ∷ ys)) (remove_message fuel q x h)
unfolding remove_message take_out bypass remove_qitem
last_message_removed {h} {q} {a} {x} {c} {ys} fuel m at is absent enough =
    let s = split (c ∷ ys) is.chain in
    let xne = AllMessages-last h (c ∷ ys) a x is.messages in
    let (n, on, _) = last-Points s.front in
    let inside = last_mem s.front in
    let later : a ≢ q.head = (λ d. ground (arith, s.out_front, first_mem s.front)) in
    let apart : a ≢ s.before = (λ d. ground (arith, s.out_front)) in
    let (stop, end) = eq_of_nil s.back in
    let h1 = record h { nodes = update h.nodes s.before (some (record n { next = s.after })) } in
    let h2 = record h1 { messages = update h.messages x (some (unmarked m)) } in
    let here : Points h2.nodes a (node s.after s.before x) = record {
      ne_null = s.here.ne_null;
      holds = ground (arith, s.here);
    } in
    let g = record h2 { nodes = update h1.nodes a none } in
    rw
      (
        find-later fuel h (node s.after s.before x) null x s.front absent s.here refl enough,
        not_null s.here,
        load-ended h s.here,
        test_ne later,
        set_next-ended h on s.after,
        unmark-ended h1 xne at,
        free_node-ended h2 here,
        test_eq (sym end),
      )
      (returns {h = g} (record {
        item = refl;
        queue = record {
          before = is.before;
          chain =
              retarget n null s.front on.holds (ground (arith, stop))
                (λ b i d. ground (arith, s.out_front));
          closed = λ d. absurd (head_ne_null s.front d);
          messages =
              AllMessages-mono h g (c ∷ ys) (λ b i. ground arith)
                (AllMessages-front h (c ∷ ys) ((a, x) ∷ []) is.messages);
        };
        message = refl;
        freed = ground arith;
        rc = refl;
      }))
