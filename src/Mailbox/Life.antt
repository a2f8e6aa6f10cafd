-- ===== src/Mailbox/Life.antt =====
-- itc_create_mailbox_zz and itc_delete_mailbox_zz of itc.c, with insert_mbox_to_tree and
-- remove_mbox_from_tree. What the other calls come to is an argument.
use itc_framework.Base.{
  ℕ, Bool, true, false, not, Option, none, some, List, [], ◌∷◌, ◌++◌, bit_and, ◌==◌, ltb,
  if◌then◌else◌, is_some, pos, length,
}
use itc_framework.Message.{itc_no_mbox_id}
use itc_framework.Proto.{Name, same_name, Packet, notify_coord_add_mbox, notify_coord_rmv_mbox}
use itc_framework.Mailbox.{
  EventFd, Transport, Mailbox, Process, mailbox_at, put_mailbox, my_mailbox, find_by_name,
  create_over, delete_over,
}
use itc_framework.Mailbox.Calls.{send}

-- `ITC_MAX_NAME_LENGTH`
abbrev pub itc_max_name_length : ℕ
itc_max_name_length = 255

-- Whether `pthread_setspecific` succeeds, itc_alloc gets memory for the notification, and q_enqueue
-- for its node.
pub record LifeCalls : Type 0 where
  pub destructor : Bool
  pub notice_memory : Bool
  pub node : Bool

module _ {F W : Type 0} where
  unfoldable pub insert_mbox_to_tree : Process F W → (name : Name) (i : ℕ) → List ℕ → List ℕ
  insert_mbox_to_tree p name i t = if is_some (find_by_name p name t) then t else i ∷ t

  unfoldable pub remove_mbox_from_tree : Process F W → (name : Name) → List ℕ → List ℕ
  remove_mbox_from_tree p name [] = []
  remove_mbox_from_tree p name (i ∷ t) =
      let rest = remove_mbox_from_tree p name t in
      elim (mailbox_at p i) [
        | none ↦ i ∷ rest
        | some m ↦ if same_name name m.name then t else i ∷ rest
      ]

module _ {F W : Type 0} (api : EventFd F) (ts : List (Transport W)) (io : LifeCalls) where
  -- The notification to the coordinator, unless this is its own process.
  unfoldable pub notify : Process F W → Packet → (from : ℕ) → Option (Process F W)
  notify p packet from =
      if p.my_mbox_id_in_itccoord == bit_and p.itccoord_mbox_id p.itccoord_mask
      then some p
      else if not io.notice_memory
      then none
      else some
          (send api ts p
            (some (record { sender = itc_no_mbox_id; receiver = itc_no_mbox_id; body = packet }))
            p.itccoord_mbox_id from).1

  -- itc_create_mailbox_zz on the mailbox `i`, once it is taken from the free queue. A name of exactly
  -- 255 characters is let through and overruns its array.
  unfoldable pub equip :
      Process F W → ℕ → Mailbox F → (name : Name) (flags tid : ℕ) → Option (ℕ × Process F W)
  unfolding put_mailbox insert_mbox_to_tree notify
  equip p i m name flags tid =
      let m' : Mailbox F = record m {
        name = name;
        flags = flags;
        attached = true;
        rxq_len = pos 0;
        is_in_rx = false;
        in_use = true;
        tid = tid;
      } in
      let made = create_over ts m.mbox_id flags p.transports in
      let p1 : Process F W = put_mailbox p i m' in
      let p2 : Process F W = record p1 { transports = made.1 } in
      let p3 : Process F W = record p2 {
        local_locating_mbox_tree = insert_mbox_to_tree p2 name i p2.local_locating_mbox_tree;
        my_threadlocal_mbox = some i;
      } in
      if ltb itc_max_name_length (length name)
      then some (itc_no_mbox_id, p)
      else if length name == itc_max_name_length
      then none
      else if not made.0
      then some (itc_no_mbox_id, p2)
      else if not io.destructor
      then some (itc_no_mbox_id, p2)
      else elim (notify p3 (notify_coord_add_mbox m.mbox_id name) m.mbox_id) [
        | none ↦ none
        | some q ↦ some (m.mbox_id, q)
      ]

  unfoldable pub take_free :
      Process F W → List ℕ → (name : Name) (flags tid : ℕ) → Option (ℕ × Process F W)
  unfolding equip mailbox_at
  take_free p [] name flags tid = some (itc_no_mbox_id, p)
  take_free p (i ∷ rest) name flags tid = elim (mailbox_at p i) [
    | none ↦ none
    | some m ↦ equip (record p { free_mboxes_queue = rest }) i m name flags tid
  ]

  unfoldable pub create_mailbox :
      Process F W → (name : Name) (flags tid : ℕ) → Option (ℕ × Process F W)
  unfolding take_free
  create_mailbox p name flags tid =
      if not (is_some p.mboxes)
      then some (itc_no_mbox_id, p)
      else if is_some p.my_threadlocal_mbox
      then some (itc_no_mbox_id, p)
      else take_free p p.free_mboxes_queue name flags tid

  -- itc_delete_mailbox_zz from the transports on: the calls before may have changed the process.
  unfoldable pub dismantle : Process F W → ℕ → Mailbox F → Option (Bool × Process F W)
  unfolding put_mailbox
  dismantle p i m =
      let gone = delete_over ts m.mbox_id p.transports in
      let p1 : Process F W = record p { transports = gone.1 } in
      let p2 : Process F W = put_mailbox p1 i (record m { attached = false; name = []; tid = 0 }) in
      if not gone.0
      then some (false, p1)
      else if not io.node
      then some (false, p2)
      else some (
        true,
        record p2 {
          free_mboxes_queue = p2.free_mboxes_queue ++ (i ∷ []);
          my_threadlocal_mbox = none;
        },
      )

  unfoldable pub delete_mailbox : Process F W → (mbox_id : ℕ) → Option (Bool × Process F W)
  unfolding my_mailbox put_mailbox mailbox_at remove_mbox_from_tree notify dismantle
  delete_mailbox p mbox_id = elim (my_mailbox p) [
    | none ↦ some (false, p)
    | some (i, m) ↦
        if not (mbox_id == m.mbox_id)
        then some (false, p)
        else let m' : Mailbox F = record m { in_use = false; rxq_fd = none } in
          let p1 : Process F W = record p {
            local_locating_mbox_tree = remove_mbox_from_tree p m.name p.local_locating_mbox_tree;
          } in
          elim (notify (put_mailbox p1 i m') (notify_coord_rmv_mbox m.mbox_id m.name) m.mbox_id) [
            | none ↦ none
            | some q ↦ elim (mailbox_at q i) [ none ↦ none | some m'' ↦ dismantle q i m'' ]
          ]
  ]
