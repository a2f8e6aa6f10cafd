-- ===== src/Mailbox/Start.antt =====
-- itc_init_zz and release_all_itc_resources of itc.c. What the system calls, the
-- transports and the thread manager come to is an argument.
pub mod Ready
pub mod Exit
pub mod Again
mod Tests
use itc_framework.Base.{
  ℕ, zero, suc, ◌+◌, ◌*◌, ◌^◌, Bool, true, false, not, Option, none, some, List, [], ◌∷◌, ◌==◌,
  ◌||◌, ltb, bit_or, if◌then◌else◌, is_some, pos, replicate,
}
use itc_framework.Local.{itc_nr_internal_used_mboxes, mask_of}
use itc_framework.Local.Lookup.{itc_coord_mask}
use itc_framework.Mailbox.{Mailbox, Process}

-- `rc` of the calling thread: `NULL`, in use, or a pointer to what was freed.
pub data ReturnCode : Type 0 where
  absent : ReturnCode
  held : ReturnCode
  freed : ReturnCode

-- `itc_inst` with its `pid`, and `rc`. Once `boxes_freed`, its pointers lead to freed memory.
pub record Library (F W : Type 0) : Type 0 where
  pub process : Process F W
  pub pid : ℕ
  pub rc : ReturnCode
  pub boxes_freed : Bool

abbrev pub Outcome : (F W : Type 0) → Type 0
Outcome F W = Option (Bool × Library F W)

-- The id of the process, `itccoord_mask` and the id of the coordinator's mailbox.
pub record Place : Type 0 where
  pub my_mbox_id_in_itccoord : ℕ
  pub itccoord_mask : ℕ
  pub itccoord_mbox_id : ℕ

-- `malloc` of `rc` and of the mailboxes, `getpid`, the deletion of the old key, the mutex of the
-- list of threads, the answer of each transport that can look for the coordinator, the calls that
-- equip the mailbox `i`, q_enqueue for it, the new key, the mutex of the tree, itci_trans_init of
-- each transport that has it, and start_itcthreads.
pub record InitCalls (F W : Type 0) : Type 0 where
  pub rc_memory : Bool
  pub pid : ℕ
  pub key_deleted : Bool
  pub mutex : Bool
  pub located : List (Option (Option Place))
  pub memory : Bool
  pub equipped : ℕ → Bool
  pub queued : ℕ → Bool
  pub key : Bool
  pub tree_mutex : Bool
  pub trans_init : List (Option (Place → (nr_mboxes : ℕ) (force : Bool) → W → Bool × W))
  pub threads : Process F W → Bool × Process F W

-- The loop over itci_trans_locate_itccoord.
unfoldable pub first_place : List (Option (Option Place)) → Option Place
first_place [] = none
first_place (none ∷ ts) = first_place ts
first_place (some none ∷ ts) = first_place ts
first_place (some (some x) ∷ ts) = some x

unfoldable pub place_of : (is_coord : Bool) → List (Option (Option Place)) → Option Place
unfolding first_place
place_of true ts = some (record {
  my_mbox_id_in_itccoord = 2 ^ 20;
  itccoord_mask = itc_coord_mask;
  itccoord_mbox_id = 2 ^ 20 + 1;
})
place_of false ts = first_place ts

module _ {F : Type 0} where
  -- A mailbox after `memset`, with an id.
  abbrev pub blank : ℕ → Mailbox F
  blank id = record {
    mbox_id = id;
    name = [];
    flags = 0;
    in_use = false;
    tid = 0;
    attached = false;
    rxq_len = pos 0;
    rxq_fd = none;
    is_in_rx = false;
  }

  -- The loop over the `n` mailboxes from `i` on, for the mailboxes and the queue of the free ones,
  -- and whether it came to its end.
  unfoldable pub equip_all :
      (equipped queued : ℕ → Bool) (my i n : ℕ) → List (Mailbox F) × List ℕ × Bool
  equip_all equipped queued my i zero = ([], [], true)
  equip_all equipped queued my i (suc n) =
      let (boxes, queue, done) = equip_all equipped queued my (i + 1) n in
      if equipped i
      then (blank (bit_or my i) ∷ boxes, (if queued i then i ∷ queue else queue), done)
      else (blank (bit_or my i) ∷ replicate n (blank 0), [], false)

module _ {W : Type 0} where
  unfoldable pub init_over :
      List (Option (Place → ℕ → Bool → W → Bool × W))
      → Place
      → (nr_mboxes : ℕ) (force : Bool) → W
      → Bool × W
  init_over [] x n force w = (true, w)
  init_over (none ∷ ts) x n force w = init_over ts x n force w
  init_over (some f ∷ ts) x n force w =
      let (done, w') = f x n force w in
      let rest = init_over ts x n force w' in if done then rest else (false, w')

module _ {F W : Type 0} where
  -- `free(rc); return false;`
  abbrev pub fail : Library F W → Outcome F W
  fail l = some (false, record l { rc = freed })

  -- The mailboxes of a process, from their `malloc` to the end of their loop.
  unfoldable pub lay_out : InitCalls F W → Place → (n : ℕ) → Process F W → Process F W
  unfolding equip_all
  lay_out io x n p =
      let (boxes, queue, done) = equip_all io.equipped io.queued x.my_mbox_id_in_itccoord 0 n in
      record p {
        my_mbox_id_in_itccoord = x.my_mbox_id_in_itccoord;
        itccoord_mask = x.itccoord_mask;
        itccoord_mbox_id = x.itccoord_mbox_id;
        mboxes = some boxes;
        free_mboxes_queue = if io.equipped 0 then queue else p.free_mboxes_queue;
        local_mbox_mask = mask_of n;
        nr_mboxes = n;
      }

  -- itc_init_zz from its loop over the transports' itci_trans_init on.
  unfoldable pub start : InitCalls F W → Place → (n : ℕ) (force : Bool) → Library F W → Outcome F W
  unfolding init_over
  start io x n force l =
      let (done, w) = init_over io.trans_init x n force l.process.transports in
      let l1 : Library F W = record l { process = record (l.process) { transports = w } } in
      let (started, p) = io.threads l1.process in
      let l2 : Library F W = record l1 { process = p } in
      if not done then fail l1 else if started then some (true, l2) else fail l2

  -- Behind the search for the coordinator.
  unfoldable pub allocate :
      InitCalls F W → Place → (n : ℕ) (force : Bool) → Library F W → Outcome F W
  unfolding lay_out start
  allocate io x n force l =
      let l1 : Library F W = record l { process = lay_out io x n l.process; boxes_freed = false } in
      let placed : Process F W = record (l.process) {
        my_mbox_id_in_itccoord = x.my_mbox_id_in_itccoord;
        itccoord_mask = x.itccoord_mask;
        itccoord_mbox_id = x.itccoord_mbox_id;
        mboxes = none;
      } in
      if not io.memory
      then fail (record l { process = placed })
      else if not (equip_all {F = F} io.equipped io.queued x.my_mbox_id_in_itccoord 0 n).2
          || not io.key
          || not io.tree_mutex
      then fail l1
      else start io x n force l1

  -- Behind the re-initialisation.
  unfoldable pub bring_up :
      InitCalls F W → (nr_mboxes : ℕ) (is_coord force : Bool) → Library F W → Outcome F W
  unfolding allocate
  bring_up io nr_mboxes is_coord force l =
      let l1 : Library F W = record l { pid = io.pid } in
      if not io.mutex then fail l1 else elim (place_of is_coord io.located) [
        | none ↦ fail l1
        | some x ↦ allocate io x (nr_mboxes + 1) force l1
      ]

  -- release_all_itc_resources where the key is deleted: `rc` and `itc_inst` become zero.
  unfoldable pub release_all : Library F W → Library F W
  release_all l = record {
    process = record (l.process) {
      mboxes = none;
      free_mboxes_queue = [];
      local_locating_mbox_tree = [];
      my_mbox_id_in_itccoord = 0;
      itccoord_mask = 0;
      itccoord_mbox_id = 0;
      local_mbox_mask = 0;
      nr_mboxes = 0;
      my_threadlocal_mbox = none;
    };
    pid = 0;
    rc = absent;
    boxes_freed = false;
  }

  -- The re-initialisation, with an allocator that has itci_alloc_exit and itci_alloc_init. Where
  -- `rc` was released, the rest writes through `NULL`, unless the mutex fails before.
  unfoldable pub enter :
      InitCalls F W → (nr_mboxes : ℕ) (is_coord : Bool) → Library F W → Outcome F W
  unfolding bring_up release_all
  enter io nr_mboxes is_coord l =
      if not (is_some l.process.mboxes)
      then bring_up io nr_mboxes is_coord false l
      else if io.pid == l.pid
      then fail l
      else if not io.key_deleted
      then bring_up io nr_mboxes is_coord true l
      else if io.mutex
      then none
      else some (false, record (release_all l) { pid = io.pid })

  unfoldable pub init :
      InitCalls F W → (nr_mboxes : ℕ) (is_coord : Bool) → Library F W → Outcome F W
  unfolding enter
  init io nr_mboxes is_coord l = elim l.rc [
    | freed ↦ none
    | held ↦ enter io nr_mboxes is_coord l
    | absent ↦
        if io.rc_memory
        then enter io nr_mboxes is_coord (record l { rc = held })
        else some (false, l)
  ]
