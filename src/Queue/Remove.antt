-- ===== src/Queue/Remove.antt =====
-- `q_remove` of itc_queue.c: the first node that carries an item leaves the list.
use itc_framework.Base.{
  ℕ, zero, suc, ◌+◌, ◌<◌, ◌^◌, ◌≡◌, refl, sym, ◌≢◌, true, false, inl, inr, none, some, [], ◌∷◌,
  ◌++◌, arith, ◌==◌, length, length-append, test_eq, test_ne, Bool-cases,
}
use mathlib.Core.List.{append-nil}
use itc_framework.Memory.{Ptr, null, node, Heap, update, ended}
use itc_framework.Memory.Access.{
  not_null, load-ended, set_next-ended, set_prev-ended, free_node-ended,
}
use itc_framework.Memory.Chain.{
  Cells, AgreeOutside, among-append, first-Points, first_mem, Points, Seg, nil, cons, Split, split,
  eq_of_nil, join, last_mem, last-Points, retarget, rehead,
}
use itc_framework.Memory.Items.{erase, address_of, carries, cut, address_of-absent}
use itc_framework.Memory.Returns
use itc_framework.Memory.Returns.{Returns, returns}
use itc_framework.Queue.{Queue, find, unlink, detach, remove, remove_node}
use itc_framework.Queue.Shape.{IsQueue, Keeps}

-- With one round for each node and one more the search ends, at the right node.
find-address_of :
    (k : ℕ) (h : Heap) {last b p : Ptr} {xs : Cells} (item : Ptr)
    → Seg h.nodes last null b p xs
    → length xs < k
    → find k p item h ≡ ended (address_of item xs) h
unfolding find address_of
find-address_of zero h item s fuel = absurd (omega arith)
find-address_of (suc k) h item nil fuel = refl
find-address_of (suc k) h item (cons {x} e out s) fuel =
    rw (not_null e, load-ended h e)
      (elim (Bool-cases (x == item)) [
        | inl hit ↦ rw hit
        | inr miss ↦ rw miss (find-address_of k h item s (omega arith))
      ])

-- What taking out the node at `a`, between `ys` and `zs`, leaves behind.
record Detached (h : Heap) (a x : Ptr) (ys zs : Cells) (q : Queue) (g : Heap) : Type 0 where
  queue : IsQueue g q (ys ++ zs)
  freed : g.nodes a ≡ none
  same : AgreeOutside (ys ++ ((a, x) ∷ zs)) h.nodes g.nodes
  keeps : Keeps h g

module _ {h : Heap} (q : Queue) {a x : Ptr} where
  detach-only :
      Split h.nodes q.tail null null q.head a x [] []
      → q.size ≡ 1
      → Returns (Detached h a x [] []) (detach q a h)
  unfolding detach unlink remove_node
  detach-only s one =
      let first : a ≡ q.head = sym (eq_of_nil s.front).0 in
      rw
        (load-ended h s.here, test_eq first, test_eq one, not_null s.here, free_node-ended h s.here)
        (returns (record {
          queue = record { chain = nil; size = ground arith; small = omega arith };
          freed = ground arith;
          same = ground arith;
          keeps = record { messages = refl; rc = refl };
        }))

  detach-first :
      {c : Ptr × Ptr} {zs : Cells}
      → Split h.nodes q.tail null null q.head a x [] (c ∷ zs)
      → q.size ≡ suc (suc (length zs))
      → q.size < 2 ^ 32
      → Returns (Detached h a x [] (c ∷ zs)) (detach q a h)
  unfolding detach unlink remove_node
  detach-first {c} {zs} s count small =
      let first : a ≡ q.head = sym (eq_of_nil s.front).0 in
      let (m, at, _) = first-Points s.back in
      let inside = first_mem s.back in
      let apart : a ≢ s.after = (λ d. ground (arith, s.out_back)) in
      let h1 = record h { nodes = update h.nodes s.after (some (record m { prev = null })) } in
      let here : Points h1.nodes a (node s.after s.before x) = record {
        ne_null = s.here.ne_null;
        holds = ground (arith, s.here);
      } in
      rw
        (
          load-ended h s.here,
          test_eq first,
          test_ne {a = q.size} {b = 1} (omega arith),
          set_prev-ended h at null,
          not_null s.here,
          free_node-ended h1 here,
        )
        (returns (record {
          queue = record {
            chain =
                rehead m null s.back at.holds (ground arith) (λ b i d. ground (arith, s.out_back));
            size = omega arith;
            small = omega arith;
          };
          freed = ground arith;
          same = ground arith;
          keeps = record { messages = refl; rc = refl };
        }))

  detach-last :
      {c : Ptr × Ptr} {ys : Cells}
      → Split h.nodes q.tail null null q.head a x (c ∷ ys) []
      → q.size ≡ length (c ∷ ys) + 1
      → q.size < 2 ^ 32
      → Returns (Detached h a x (c ∷ ys) []) (detach q a h)
  unfolding detach unlink remove_node
  detach-last {c} {ys} s count small =
      let (m, at, _) = last-Points s.front in
      let inside = last_mem s.front in
      let apart : a ≢ s.before = (λ d. ground (arith, s.out_front)) in
      let later : a ≢ q.head = (λ d. ground (arith, s.out_front, first_mem s.front)) in
      let end : a ≡ q.tail = (eq_of_nil s.back).1 in
      let h1 = record h { nodes = update h.nodes s.before (some (record m { next = null })) } in
      let here : Points h1.nodes a (node s.after s.before x) = record {
        ne_null = s.here.ne_null;
        holds = ground (arith, s.here);
      } in
      rw
        (
          load-ended h s.here,
          test_ne later,
          test_eq end,
          set_next-ended h at null,
          not_null s.here,
          free_node-ended h1 here,
        )
        (returns (record {
          queue = record {
            chain = rw append-nil (
                retarget m null s.front at.holds (ground arith)
                  (λ b i d. ground (arith, s.out_front)));
            size = omega (arith, length-append ys []);
            small = omega (arith, length-append ys []);
          };
          freed = ground arith;
          same = (λ b o. ground (arith, among-append b (c ∷ ys) ((a, x) ∷ [])));
          keeps = record { messages = refl; rc = refl };
        }))

  detach-middle :
      {c d : Ptr × Ptr} {ys zs : Cells}
      → Split h.nodes q.tail null null q.head a x (c ∷ ys) (d ∷ zs)
      → q.size ≡ length (c ∷ ys) + length (d ∷ zs) + 1
      → q.size < 2 ^ 32
      → Returns (Detached h a x (c ∷ ys) (d ∷ zs)) (detach q a h)
  unfolding detach unlink remove_node
  detach-middle {c} {d} {ys} {zs} s count small =
      let (m, at, _) = last-Points s.front in
      let (n, on, _) = first-Points s.back in
      let inside = last_mem s.front in
      let inside' = first_mem s.back in
      let later : a ≢ q.head = (λ e. ground (arith, s.out_front, first_mem s.front)) in
      let sooner : a ≢ q.tail = (λ e. ground (arith, s.out_back, last_mem s.back)) in
      let apart : s.before ≢ s.after = (λ e. ground (arith, s.apart s.before)) in
      let h1 = record h { nodes = update h.nodes s.before (some (record m { next = s.after })) } in
      let on1 : Points h1.nodes s.after n = record {
        ne_null = on.ne_null;
        holds = ground (arith, on.holds);
      } in
      let h2 = record h { nodes = update h1.nodes s.after (some (record n { prev = s.before })) } in
      let here : Points h2.nodes a (node s.after s.before x) = record {
        ne_null = s.here.ne_null;
        holds = ground (arith, s.here, s.out_front, s.out_back);
      } in
      rw
        (
          load-ended h s.here,
          test_ne later,
          test_ne sooner,
          set_next-ended h at s.after,
          set_prev-ended h1 on1 s.before,
          not_null s.here,
          free_node-ended h2 here,
        )
        (returns (record {
          queue = record {
            chain =
                join
                  (retarget m s.after s.front at.holds (ground (arith, s.out_front))
                    (λ b i e. ground (arith, s.out_front, s.apart b)))
                  (rehead n s.before s.back on.holds (ground (arith, s.out_back))
                    (λ b i e. ground (arith, s.out_back, s.apart s.before)))
                  s.apart;
            size = omega (arith, length-append ys (d ∷ zs));
            small = omega (arith, length-append ys (d ∷ zs));
          };
          freed = ground arith;
          same = (λ b o. ground (arith, among-append b (c ∷ ys) ((a, x) ∷ d ∷ zs)));
          keeps = record { messages = refl; rc = refl };
        }))

  detach-Detached :
      (ys zs : Cells)
      → Seg h.nodes q.tail null null q.head (ys ++ ((a, x) ∷ zs))
      → q.size ≡ length (ys ++ ((a, x) ∷ zs))
      → q.size < 2 ^ 32
      → Returns (Detached h a x ys zs) (detach q a h)
  detach-Detached [] [] s count small = detach-only (split [] s) count
  detach-Detached [] (d ∷ zs) s count small = detach-first (split [] s) count small
  detach-Detached (c ∷ ys) [] s count small =
      detach-last (split (c ∷ ys) s) (omega (arith, length-append ys ((a, x) ∷ []))) small
  detach-Detached (c ∷ ys) (d ∷ zs) s count small =
      detach-middle (split (c ∷ ys) s) (omega (arith, length-append ys ((a, x) ∷ d ∷ zs))) small

-- What `q_remove` of `item` leaves behind, where some node carries it.
pub record Removed (h : Heap) (item : Ptr) (xs : Cells) (q : Queue) (g : Heap) : Type 0 where
  pub queue : IsQueue g q (erase item xs)
  pub freed : g.nodes (address_of item xs) ≡ none
  pub same : AgreeOutside xs h.nodes g.nodes
  pub keeps : Keeps h g

-- Where some node of a valid queue carries the item, `q_remove` ends, takes out and frees exactly
-- the first such node, at the head, at the tail or between, and leaves a valid queue of the others
-- in order; no node outside the queue is written, and messages and return code are left alone.
pub remove_erases :
    {h : Heap} {q : Queue} (item : Ptr) {xs : Cells}
    → IsQueue h q xs
    → carries item xs ≡ true
    → Returns (Removed h item xs) (remove q item h)
unfolding remove
remove_erases {h} {q} item {xs} is there =
    let r = cut item xs there in
    let chain : Seg h.nodes q.tail null null q.head (r.front ++ ((r.at, item) ∷ r.back)) =
      rw r.whole at is.chain in
    let count : q.size ≡ length (r.front ++ ((r.at, item) ∷ r.back)) = rw r.whole at is.size in
    let ne : r.at ≢ null = (split r.front chain).here.ne_null in
    rw
      (find-address_of (q.size + 1) h item is.chain (omega (arith, is.size)), r.address, test_ne ne)
      (Returns.weaken
        (detach-Detached q r.front r.back chain count (omega (arith, is.size, is.small)))
        λ q' g d. record {
          queue = rw r.erased d.queue;
          freed = rw r.address d.freed;
          same = λ b o. d.same b (rw r.whole at o);
          keeps = d.keeps;
        })

-- Where no node carries the item, `q_remove` ends and changes nothing.
pub remove_absent :
    {h : Heap} {q : Queue} (item : Ptr) {xs : Cells}
    → IsQueue h q xs
    → carries item xs ≡ false
    → remove q item h ≡ ended q h
unfolding remove
remove_absent {h} {q} item {xs} is absent = rw (
  find-address_of (q.size + 1) h item is.chain (omega (arith, is.size)),
  address_of-absent item xs absent,
)
