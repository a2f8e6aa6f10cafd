-- ===== src/Local/Deletion.antt =====
-- local_delete_mbox of itc_local.c.
use itc_framework.Base.{
  false, ◌≢◌, ℕ, ◌<◌, ◌^◌, ◌≡◌, refl, true, none, some, arith, if◌then◌else◌, length,
}
use itc_framework.Memory.{Ptr, Heap, itc_ok, clear_flag}
use itc_framework.Memory.Chain.{Cells, among}
use itc_framework.Memory.Items.{carries}
use itc_framework.Memory.Returns
use itc_framework.Memory.Returns.{Returns, returns}
use itc_framework.Local.{LocalInstance, no_mbox, put_slot, delete_mbox}
use itc_framework.Local.Lookup.{own_id}
use itc_framework.Local.Table.{Boxes, queue_of, cells, with_box, vacant, set-IsTable, Ready}
use itc_framework.Local.Slot.{slot, put-Ready, with_queue-queued}
use itc_framework.Local.Discard.{Whole, discard_frees}

-- What local_delete_mbox of the mailbox `i`, which holds `xs`, leaves behind.
pub record Deleted (h : Heap) (inst : LocalInstance) (process k : ℕ) (bs : Boxes) (i : ℕ)
    (xs : Cells) (inst' : LocalInstance) (g : Heap) : Type 0 where
  pub slots : inst' ≡ put_slot inst (some i) no_mbox
  pub ready : Ready g inst' process k (with_box bs i none)
  pub nodes : (a : Ptr) → g.nodes a ≡ (if among a xs then none else h.nodes a)
  pub messages : (a : Ptr) → g.messages a ≡ (if carries a xs then none else h.messages a)
  pub rc : g.rc ≡ itc_ok

-- local_delete_mbox, in a process that is set up, of one of its mailboxes, whose messages are
-- different and whole and in no other mailbox, with fuel for each of them and no error pending: it
-- ends without a fault, frees each message that was left and each node of the queue and nothing
-- else, clears that mailbox's slot only, leaves the other mailboxes valid and with what they held,
-- and takes back the flag that emptying the queue raised.
pub delete_frees :
    {h : Heap} {inst : LocalInstance} {process k : ℕ} {bs : Boxes} (i : ℕ) (xs : Cells) (fuel : ℕ)
    → Ready h inst process k bs
    → i < 2 ^ k
    → bs i ≡ some xs
    → Whole h xs
    → ((j : ℕ) → j ≢ i → (a : Ptr) → carries a (cells (bs j)) ≡ true → carries a xs ≡ false)
    → h.rc ≡ itc_ok
    → length xs < fuel
    → Returns (Deleted h inst process k bs i xs) (delete_mbox true fuel inst (own_id process i) h)
unfolding delete_mbox clear_flag
delete_frees {h} {inst} {process} {k} {bs} i xs fuel r hi box w alone rc enough =
    let (s, holds, here) = slot r i hi in
    let (q, found, is) = queue_of holds box in
    let inside : cells (bs i) ≡ xs = rw box in
    rw (with_queue-queued r inst _ i hi rc s q here found) (
      Returns.bind (discard_frees fuel h xs is w rc enough) λ q' g d. returns (record {
        slots = refl;
        ready =
            put-Ready r (record g { rc = _ }) i no_mbox _
              (λ t len table.
                set-IsTable _ i no_mbox none table (omega arith) vacant
                  (λ j ne a m. ground (arith, d.nodes a, table.apart j i ne a, inside))
                  (λ j ne a c m. ground (arith, d.messages a, alone j ne a c)) (λ j ne a m. cc));
        nodes = d.nodes;
        messages = d.messages;
        rc = ground (arith, d.rc);
      }))
