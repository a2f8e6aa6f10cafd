-- ===== src/Local/Tests.antt =====
-- itc_local.c at small inputs: its theorems in a process of four slots, where mailbox 1 holds a
-- message and mailbox 3 is open and empty.
use itc_framework.Base.{
  false, ℕ, zero, suc, ◌≡◌, refl, sym, ◌∙◌, ◌≢◌, ◌==◌, ◌^◌, ◌*◌, true, none, some, List, [], ◌∷◌,
  arith, if◌then◌else◌, ltb, leb, bit_or, get_elem?,
}
use mathlib.Core.Path.{subst}
use native.Mathlib.Decide.{ℕ_discrete}
use itc_framework.Memory.{
  Ptr, null, node, Message, Heap, ended, update, itc_not_this_proc, itc_out_of_range,
  itc_not_del_all_mbox,
}
use itc_framework.Memory.Chain.{nil, cons}
use itc_framework.Memory.Returns.{Returns}
use itc_framework.Local.{
  LocalInstance, LocalMboxData, no_mbox, no_instance, find_localmbx_data, delete_mbox, send,
  receive, exit,
}
use itc_framework.Local.Lookup.{itc_coord_mask, own_id, LaidOut, find_classifies}
use itc_framework.Local.Table.{Boxes, cells, Holds, vacant, queued, ap_rxq, IsTable, Ready}
use itc_framework.Message.{endpoint, byte_at}
use itc_framework.Memory.Items.{carries}
use itc_framework.Local.Discard.{Whole, no_more, one_more}
use itc_framework.Local.Deletion.{Deleted, delete_frees}
use itc_framework.Local.Closing.{opened, exit_counts}
use itc_framework.Local.Delivery.{Sent, send_delivers, Received, receive_takes_first}

abbrev queued_message : Message
queued_message = record {
  flags = 1;
  receiver = 2;
  sender = 3;
  size = 4;
  msgno = 5;
  payload = endpoint ∷ [];
}

abbrev memory : Heap
memory = record {
  nodes = update (λ _. none) 10 (some (node null null 100));
  messages = λ _. some queued_message;
  rc = 0;
}

abbrev one : LocalMboxData
one = record {
  mbox_id = own_id 5 1;
  flags = 0;
  rxq = some (record { head = 10; tail = 10; find = null });
}

abbrev three : LocalMboxData
three = record {
  mbox_id = own_id 5 3;
  flags = 0;
  rxq = some (record { head = null; tail = null; find = null });
}

abbrev slots : List LocalMboxData
slots = no_mbox ∷ one ∷ no_mbox ∷ three ∷ []

abbrev instance_of_4 : LocalInstance
instance_of_4 = record {
  my_mbox_id_in_itccoord = 5 * 2 ^ 20;
  itccoord_mask = itc_coord_mask;
  local_mbox_mask = 3;
  nr_localmbx_datas = 4;
  localmbx_data = some slots;
}

abbrev boxes : Boxes
boxes zero = none
boxes (suc zero) = some ((10, 100) ∷ [])
boxes (suc (suc zero)) = none
boxes (suc (suc (suc zero))) = some []
boxes (suc (suc (suc (suc i)))) = none

laid : LaidOut instance_of_4 5 2
laid = record {
  my = refl;
  coord_mask = refl;
  local_mask = refl;
  count = refl;
  table = (slots, refl, refl);
  known = omega arith;
  even = omega arith;
  small = omega arith;
}

only_one : (i : ℕ) → i ≢ 1 → cells (boxes i) ≡ []
only_one zero ne = refl
only_one (suc zero) ne = absurd (ne refl)
only_one (suc (suc zero)) ne = refl
only_one (suc (suc (suc zero))) ne = refl
only_one (suc (suc (suc (suc i)))) ne = refl

boxes_outside : (i : ℕ) → get_elem? slots i ≡ none → boxes i ≡ none
boxes_outside zero at = refl
boxes_outside (suc zero) at = cc
boxes_outside (suc (suc zero)) at = refl
boxes_outside (suc (suc (suc zero))) at = cc
boxes_outside (suc (suc (suc (suc i)))) at = refl

slot_holds :
    (i : ℕ)
    → (r : LocalMboxData) × (Holds memory r.rxq (boxes i))
      × ((s : LocalMboxData) → get_elem? slots i ≡ some s → some r ≡ some s)
slot_holds zero = (no_mbox, vacant, λ s at. at)
slot_holds (suc zero) = (
  one,
  queued (record {
    before = null;
    chain = cons (record { ne_null = omega arith; holds = refl }) refl nil;
    closed = λ e. absurd (omega arith);
    messages = (omega arith, refl, tt);
  }),
  λ s at. at,
)
slot_holds (suc (suc zero)) = (no_mbox, vacant, λ s at. at)
slot_holds (suc (suc (suc zero))) = (
  three,
  queued (record { before = null; chain = nil; closed = λ e. refl; messages = tt }),
  λ s at. at,
)
slot_holds (suc (suc (suc (suc i)))) = (no_mbox, vacant, λ s at. cc)

holds : IsTable memory slots boxes
holds = record {
  slots = λ i s at.
      let (r, is, same) = slot_holds i in
      subst (λ o. Holds memory o (boxes i)) (ap_rxq r s (same s at)) is;
  outside = boxes_outside;
  apart = λ i j ne a m. elim (ℕ_discrete i 1) [
    | yes e ↦ rw (only_one j (λ f. ne (e ∙ sym f)))
    | no n ↦ absurd (ground (arith, m, only_one i n))
  ];
}

ready : Ready memory instance_of_4 5 2 boxes
ready = record { laid = laid; table = (slots, refl, refl, holds) }

find_classifies_example : find_localmbx_data instance_of_4 (own_id 6 1) memory ≡ (
    if 6 == 5
    then if ltb 1 (2 ^ 2)
      then ended (some 1) memory
      else ended none (record memory { rc = bit_or memory.rc itc_out_of_range })
    else ended none (record memory { rc = bit_or memory.rc itc_not_this_proc }))
find_classifies_example =
    find_classifies memory instance_of_4 5 2 6 1 laid (omega arith) (omega arith)

send_delivers_example :
    Returns
      (Sent memory 5 2 boxes 1 ((10, 100) ∷ []) 40 400 queued_message)
      (send 40 instance_of_4 400 (own_id 5 1) memory)
send_delivers_example =
    send_delivers 1 ((10, 100) ∷ []) 40 400 queued_message ready (omega arith) refl refl
      (omega arith) refl (omega arith) refl

receive_takes_first_example :
    Returns
      (Received memory 5 2 boxes 1 10 100 queued_message [])
      (receive instance_of_4 (own_id 5 1) memory)
receive_takes_first_example =
    receive_takes_first 1 ready (omega arith) refl queued_message [] refl refl

whole : Whole memory ((10, 100) ∷ [])
unfolding byte_at carries
whole = one_more (omega arith) refl refl refl no_more

alone :
    (j : ℕ)
    → j ≢ 1
    → (a : Ptr) → carries a (cells (boxes j)) ≡ true
    → carries a ((10, 100) ∷ []) ≡ false
unfolding carries
alone j ne a c =
    let vacant_box : carries a (cells (boxes j)) ≡ false = rw (only_one j ne) refl in
    absurd (ground (arith, c, vacant_box))

delete_frees_example :
    Returns
      (Deleted memory instance_of_4 5 2 boxes 1 ((10, 100) ∷ []))
      (delete_mbox true 2 instance_of_4 (own_id 5 1) memory)
delete_frees_example =
    delete_frees 1 ((10, 100) ∷ []) 2 ready (omega arith) refl whole alone refl (omega arith)

exit_counts_example : exit instance_of_4 memory ≡ (
    if leb (opened boxes (2 ^ 2) 0) 1
    then ended no_instance memory
    else ended instance_of_4 (record memory { rc = itc_not_del_all_mbox }))
exit_counts_example = exit_counts ready refl
