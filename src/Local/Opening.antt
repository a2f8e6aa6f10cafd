-- ===== src/Local/Opening.antt =====
-- local_create_mbox of itc_local.c, and the calls on a mailbox that is not there.
use itc_framework.Base.{
  ℕ, ◌^◌, ◌<◌, ◌≡◌, refl, ◌≢◌, true, false, none, some, [], arith, is_some, test_eq, test_ne,
}
use itc_framework.Memory.{Ptr, null, Heap, ended, raise, get_rc, itc_ok, itc_already_used}
use itc_framework.Memory.Chain.{Cells, nil}
use itc_framework.Memory.Returns.{Returns, returns}
use itc_framework.Rxq.{init_queue}
use itc_framework.Local.{LocalInstance, LocalMboxData, create_mbox}
use itc_framework.Local.Lookup.{own_id, find-own}
use itc_framework.Local.Table.{Boxes, with_box, queued, queue_of, vacant_of, set-IsTable, Ready}
use itc_framework.Local.Slot.{load_slot-ended, put-Ready, slot}

module _ {h : Heap} {inst : LocalInstance} {process k : ℕ} {bs : Boxes} (i : ℕ)
    (r : Ready h inst process k bs) (hi : i < 2 ^ k) (rc : h.rc ≡ itc_ok) where
  -- local_create_mbox of a mailbox that is not there yet, with memory for its queue, opens an empty
  -- one beside the others and changes no memory.
  pub create_opens :
      (fresh : Ptr) (flags : ℕ)
      → bs i ≡ none
      → fresh ≢ null
      → Returns
          (λ inst' g. (g ≡ h) × Ready g inst' process k (with_box bs i (some [])))
          (create_mbox fresh inst (own_id process i) flags h)
  unfolding create_mbox init_queue get_rc
  create_opens fresh flags box ne =
      let (s, holds, here) = slot r i hi in
      let gone : is_some s.rxq ≡ false = rw (vacant_of holds box) in
      let new : LocalMboxData = record {
        mbox_id = own_id process i;
        flags = flags;
        rxq = some (record { head = null; tail = null; find = null });
      } in
      rw
        (
          find-own inst process k r.laid h i hi,
          test_eq rc,
          load_slot-ended h inst (some i) s here,
          gone,
          test_ne ne,
          test_eq rc,
        )
        (returns (
          refl,
          put-Ready r h i new _ (λ t len table.
              set-IsTable h i new (some []) table (omega arith)
                (queued (record { before = null; chain = nil; closed = λ _. refl; messages = tt }))
                (λ j ne a m. refl) (λ j ne a c m. m) (λ j ne a m. cc)),
        ))

  -- local_create_mbox of a mailbox that is there raises `ITC_ALREADY_USED` and changes nothing else.
  pub create_refuses :
      (fresh : Ptr) (flags : ℕ) (xs : Cells)
      → bs i ≡ some xs
      → create_mbox fresh inst (own_id process i) flags h
        ≡ ended inst (record h { rc = itc_already_used })
  unfolding create_mbox raise get_rc
  create_refuses fresh flags xs box =
      let (s, holds, here) = slot r i hi in
      let (q, found, is) = queue_of holds box in
      let there : is_some s.rxq ≡ true = rw found in
      rw (
        find-own inst process k r.laid h i hi,
        test_eq rc,
        load_slot-ended h inst (some i) s here,
        there,
        rc,
      )
