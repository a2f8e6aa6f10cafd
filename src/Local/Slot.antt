-- ===== src/Local/Slot.antt =====
-- Reading and writing a slot of the table of itc_local.c, and the checks that its calls share.
use itc_framework.Base.{
  ℕ, zero, suc, ◌^◌, ◌<◌, ◌≡◌, refl, ◌∙◌, ap, Option, none, some, List, [], ◌∷◌, arith, bit_or,
  length, get_elem?, set, length-set, test_eq,
}
use itc_framework.Memory.{Heap, Command, ended, raise, get_rc, itc_ok, itc_queue_null}
use itc_framework.Rxq.{RxQueue}
use itc_framework.Local.{
  LocalInstance, LocalMboxData, slot_at, load_slot, put_slot, check_queue, with_queue,
}
use itc_framework.Local.Lookup.{own_id, find-own}
use itc_framework.Local.Table.{Boxes, Holds, IsTable, Ready}

-- An index inside a list names an element.
get_elem?-some :
    {A : Type 0} (t : List A) (i : ℕ) → i < length t → (s : A) × (get_elem? t i ≡ some s)
get_elem?-some [] i h = absurd (omega arith)
get_elem?-some (x ∷ t) zero h = (x, refl)
get_elem?-some (x ∷ t) (suc i) h = get_elem?-some t i (omega arith)

pub load_slot-ended :
    (h : Heap) (inst : LocalInstance) (i : Option ℕ) (s : LocalMboxData)
    → slot_at inst i ≡ some s
    → load_slot inst i h ≡ ended s h
unfolding load_slot
load_slot-ended h inst i s at = rw (at, load_slot)

module _ {h : Heap} {inst : LocalInstance} {process k : ℕ} {bs : Boxes}
    (r : Ready h inst process k bs) where
  -- A slot written in the table.
  pub put-Ready :
      (g : Heap) (i : ℕ) (s : LocalMboxData) (bs' : Boxes)
      → ((t : List LocalMboxData) → length t ≡ 2 ^ k → IsTable h t bs → IsTable g (set t i s) bs')
      → Ready g (put_slot inst (some i) s) process k bs'
  unfolding put_slot
  put-Ready g i s bs' step =
      let (t, at, len, is) = r.table in
      record {
        laid = record {
          my = r.laid.my;
          coord_mask = r.laid.coord_mask;
          local_mask = r.laid.local_mask;
          count = r.laid.count;
          table = (set t i s, rw at, length-set t i s ∙ len);
          known = r.laid.known;
          even = r.laid.even;
          small = r.laid.small;
        };
        table = (set t i s, rw at, length-set t i s ∙ len, step t len is);
      }

  -- The slot of a mailbox number.
  pub slot :
      (i : ℕ)
      → i < 2 ^ k
      → (s : LocalMboxData) × Holds h s.rxq (bs i) × (slot_at inst (some i) ≡ some s)
  unfolding slot_at
  slot i hi =
      let (t, at, len, is) = r.table in
      let (s, here) = get_elem?-some t i (omega arith) in (s, is.slots i s here, rw at here)

  module _ {A : Type 0} (otherwise : A) (f : Option ℕ → LocalMboxData → RxQueue → Command A) (i : ℕ)
      (hi : i < 2 ^ k) (rc : h.rc ≡ itc_ok) where
    checked :
        (s : LocalMboxData)
        → slot_at inst (some i) ≡ some s
        → with_queue otherwise f inst (own_id process i) h
          ≡ check_queue otherwise f (some i) s s.rxq h
    unfolding with_queue get_rc
    checked s at =
        rw (find-own inst process k r.laid h i hi, test_eq rc, load_slot-ended h inst (some i) s at)

    pub with_queue-queued :
        (s : LocalMboxData) (q : RxQueue)
        → slot_at inst (some i) ≡ some s
        → s.rxq ≡ some q
        → with_queue otherwise f inst (own_id process i) h ≡ f (some i) s q h
    unfolding check_queue
    with_queue-queued s q at here =
        checked s at ∙ ap (λ o. check_queue otherwise f (some i) s o h) here

    pub with_queue-vacant :
        (s : LocalMboxData)
        → slot_at inst (some i) ≡ some s
        → s.rxq ≡ none
        → with_queue otherwise f inst (own_id process i) h
          ≡ ended otherwise (record h { rc = bit_or h.rc itc_queue_null })
    unfolding check_queue raise
    with_queue-vacant s at here =
        checked s at ∙ ap (λ o. check_queue otherwise f (some i) s o h) here
