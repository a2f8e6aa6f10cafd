-- ===== src/Local.antt =====
-- sw/itc/src/transporters/itc_local.c: the transport inside one process. `local_inst`, its one
-- global, is passed along. A slot's `rxq` pointer is an optional queue; `fresh` is what `malloc`
-- returns, `fuel` bounds the rounds of the loops over a queue, and `up` says for itc_free_zz that
-- ITC is initialised. The build is the one without UNITTEST.
pub mod Lookup
pub mod Table
pub mod Slot
pub mod Delivery
pub mod Opening
pub mod Discard
pub mod Deletion
pub mod Closing
mod Tests
use itc_framework.Base.{
  ℕ, zero, suc, ◌+◌, ◌-◌, ◌/◌, ◌%◌, ◌^◌, Bool, true, false, not, Option, none, some, List, bit_and,
  bit_or, ltb, leb, ◌==◌, if◌then◌else◌, is_some, get_elem?, set, replicate,
}
use itc_framework.Memory.{
  Ptr, null, Heap, Outcome, fault, Command, ended, out_of_fuel, pure, ◌>>=◌, ◌>>◌, raise,
  clear_flag, get_rc, itc_ok, itc_already_used, itc_already_init, itc_not_init_yet, itc_queue_null,
  itc_queue_empty, itc_not_this_proc, itc_out_of_range, itc_not_del_all_mbox, itc_syscall_error,
}
use itc_framework.Message
use itc_framework.Rxq.{RxQueue, init_queue, enqueue_message, dequeue_message, remove_message}

-- `struct local_mbox_data`
pub record LocalMboxData : Type 0 where
  pub mbox_id : ℕ
  pub flags : ℕ
  pub rxq : Option RxQueue

-- `struct local_instance`
pub record LocalInstance : Type 0 where
  pub my_mbox_id_in_itccoord : ℕ
  pub itccoord_mask : ℕ
  pub local_mbox_mask : ℕ
  pub nr_localmbx_datas : ℕ
  pub localmbx_data : Option (List LocalMboxData)

-- What `memset` with 0 makes of the two.
abbrev pub no_mbox : LocalMboxData
no_mbox = record { mbox_id = 0; flags = 0; rxq = none }

abbrev pub no_instance : LocalInstance
no_instance = record {
  my_mbox_id_in_itccoord = 0;
  itccoord_mask = 0;
  local_mbox_mask = 0;
  nr_localmbx_datas = 0;
  localmbx_data = none;
}

-- `ITC_MAX_MAILBOXES`, `ITC_FLAGS_FORCE_REINIT`, `ITC_NR_INTERNAL_USED_MBOXES`
abbrev pub itc_max_mailboxes : ℕ
itc_max_mailboxes = 65534

abbrev pub itc_flags_force_reinit : ℕ
itc_flags_force_reinit = 0x100

abbrev pub itc_nr_internal_used_mboxes : ℕ
itc_nr_internal_used_mboxes = 1

-- The number of binary digits, of a number that has at most `fuel`.
unfoldable pub bit_length : (fuel n : ℕ) → ℕ
bit_length zero n = 0
bit_length (suc k) n = let rest = bit_length k (n / 2) in if n == 0 then 0 else rest + 1

-- `0xFFFFFFFF >> CLZ(n)`
unfoldable pub mask_of : ℕ → ℕ
unfolding bit_length
mask_of n = 0xffffffff / 2 ^ (32 - bit_length 32 n)

-- find_localmbx_data: the index of the slot, or `NULL`.
unfoldable pub find_localmbx_data : LocalInstance → ℕ → Command (Option ℕ)
find_localmbx_data inst mbox_id =
    if not (is_some inst.localmbx_data)
    then raise itc_not_init_yet >> pure none
    else if not (bit_and mbox_id inst.itccoord_mask == inst.my_mbox_id_in_itccoord)
    then raise itc_not_this_proc >> pure none
    else if leb inst.nr_localmbx_datas (bit_and mbox_id itc_max_mailboxes)
    then raise itc_out_of_range >> pure none
    else pure (some (bit_and mbox_id inst.local_mbox_mask))

-- A read and a write through the pointer that find_localmbx_data returned.
unfoldable pub slot_at : LocalInstance → Option ℕ → Option LocalMboxData
slot_at inst none = none
slot_at inst (some i) = elim inst.localmbx_data [ none ↦ none | some table ↦ get_elem? table i ]

unfoldable pub load_slot : LocalInstance → Option ℕ → Command LocalMboxData
load_slot inst i h = elim (slot_at inst i) [ none ↦ fault | some s ↦ ended s h ]

unfoldable pub put_slot : LocalInstance → Option ℕ → LocalMboxData → LocalInstance
put_slot inst none s = inst
put_slot inst (some i) s = record inst {
  localmbx_data = elim inst.localmbx_data [ none ↦ none | some table ↦ some (set table i s) ];
}

-- The loop that discards what a queue holds.
pub discard : (up : Bool) (fuel : ℕ) → RxQueue → Command RxQueue
discard up zero q = λ _. out_of_fuel
discard up (suc k) q = do
  (message, q') ← dequeue_message q
  if message == null then pure q' else (Message.free up message >>= λ _. discard up k q')

-- release_localmbx_resources: `n` slots are left, the next is `i`.
release_slots : (up : Bool) (fuel n i : ℕ) → LocalInstance → Command LocalInstance
release_slots up fuel zero i inst = pure inst
release_slots up fuel (suc n) i inst = do
  at ← find_localmbx_data inst (bit_or inst.my_mbox_id_in_itccoord i)
  s ← load_slot inst at
  elim s.rxq [
    | none ↦ release_slots up fuel n (i + 1) inst
    | some q ↦ discard up fuel q >>= λ _.
        release_slots up fuel n (i + 1) (put_slot inst at (record s { rxq = none }))
  ]

pub release_localmbx_resources : (up : Bool) (fuel : ℕ) → LocalInstance → Command LocalInstance
unfolding release_slots
release_localmbx_resources up fuel inst =
    release_slots up fuel inst.nr_localmbx_datas 0 inst >> pure no_instance

-- The part of local_init behind the re-initialisation.
unfoldable pub setup : LocalInstance → (fresh : Ptr) (my mask nr_mboxes : ℕ) → Command LocalInstance
unfolding mask_of
setup inst fresh my mask nr_mboxes =
    let size = (mask_of nr_mboxes + 1) % 2 ^ 32 in
    let inst' : LocalInstance = record inst {
      my_mbox_id_in_itccoord = my;
      itccoord_mask = mask;
      local_mbox_mask = mask_of nr_mboxes;
      localmbx_data = none;
    } in
    if fresh == null
    then raise itc_syscall_error >> pure inst'
    else pure
        (record inst' { nr_localmbx_datas = size; localmbx_data = some (replicate size no_mbox) })

pub init :
    (up : Bool) (fuel : ℕ)
    → LocalInstance
    → (fresh : Ptr) (my mask nr_mboxes flags : ℕ) → Command LocalInstance
init up fuel inst fresh my mask nr_mboxes flags =
    if not (is_some inst.localmbx_data)
    then setup inst fresh my mask nr_mboxes
    else if bit_and flags itc_flags_force_reinit == 0
    then raise itc_already_init >> pure inst
    else (release_localmbx_resources up fuel inst >>= λ inst'. setup inst' fresh my mask nr_mboxes)

-- The loop of local_exit: whether it came to its end.
unfoldable pub count_running : LocalInstance → (n i running : ℕ) → Command Bool
count_running inst zero i running = pure true
count_running inst (suc n) i running = do
  at ← find_localmbx_data inst (bit_or inst.my_mbox_id_in_itccoord i)
  rc ← get_rc
  if not (rc == itc_ok) then pure false else do
    s ← load_slot inst at
    let running' = if is_some s.rxq then running + 1 else running
    if ltb itc_nr_internal_used_mboxes running'
        then raise itc_not_del_all_mbox >> pure false
        else count_running inst n (i + 1) running'

pub exit : LocalInstance → Command LocalInstance
unfolding count_running
exit inst = if not (is_some inst.localmbx_data) then pure inst else do
  done ← count_running inst inst.nr_localmbx_datas 0 0
  if done then pure no_instance else pure inst

-- local_create_mbox; the mailbox is given by its two fields that are read.
pub create_mbox : (fresh : Ptr) → LocalInstance → (mbox_id flags : ℕ) → Command LocalInstance
create_mbox fresh inst mbox_id flags = do
  at ← find_localmbx_data inst mbox_id
  rc ← get_rc
  if not (rc == itc_ok) then pure inst else do
    s ← load_slot inst at
    if is_some s.rxq then (raise itc_already_used >> pure inst) else do
      q ← init_queue fresh
      rc' ← get_rc
      if not (rc' == itc_ok)
          then pure (put_slot inst at (record s { rxq = q }))
          else pure (put_slot inst at (record { mbox_id = mbox_id; flags = flags; rxq = q }))

-- The look-up and the two checks that the other four operations begin with.
module _ {A : Type 0} (otherwise : A)
    (use_queue : Option ℕ → LocalMboxData → RxQueue → Command A) where
  check_queue : Option ℕ → LocalMboxData → Option RxQueue → Command A
  check_queue at s none = raise itc_queue_null >> pure otherwise
  check_queue at s (some q) = use_queue at s q

  pub with_queue : LocalInstance → (mbox_id : ℕ) → Command A
  with_queue inst mbox_id = do
    at ← find_localmbx_data inst mbox_id
    rc ← get_rc
    if not (rc == itc_ok) then pure otherwise else do s ← load_slot inst at; check_queue at s s.rxq

pub delete_mbox : (up : Bool) (fuel : ℕ) → LocalInstance → (mbox_id : ℕ) → Command LocalInstance
unfolding with_queue
delete_mbox up fuel inst mbox_id =
    with_queue inst
      (λ at s q. do discard up fuel q; clear_flag itc_queue_empty; pure (put_slot inst at no_mbox))
      inst mbox_id

pub send : (fresh : Ptr) → LocalInstance → (message : Ptr) (to : ℕ) → Command LocalInstance
unfolding with_queue
send fresh inst message to =
    with_queue inst
      (λ at s q. do
        q' ← enqueue_message fresh q message
        pure (put_slot inst at (record s { rxq = some q' })))
      inst to

pub receive : LocalInstance → (mbox_id : ℕ) → Command (Ptr × LocalInstance)
unfolding with_queue
receive inst mbox_id =
    with_queue (null, inst)
      (λ at s q. do
        (message, q') ← dequeue_message q
        pure (message, put_slot inst at (record s { rxq = some q' })))
      inst mbox_id

pub remove :
    (fuel : ℕ) → LocalInstance → (mbox_id : ℕ) (message : Ptr) → Command (Ptr × LocalInstance)
unfolding with_queue
remove fuel inst mbox_id message =
    with_queue (null, inst)
      (λ at s q. do
        (found, q') ← remove_message fuel q message
        pure (found, put_slot inst at (record s { rxq = some q' })))
      inst mbox_id
