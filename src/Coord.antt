-- ===== src/Coord.antt =====
-- sw/coord/itccoord.c: the coordinator's tables of processes and mailboxes, and its handlers. What
-- the system calls return is an argument; `none` as a result is undefined behaviour. A queue of
-- processes is the list that a `struct itc_queue` stands for, by Queue/Refine; a tree of
-- `tsearch` is the list of its nodes, which have different names.
pub mod Names
pub mod Locate
pub mod Connection
pub mod Registry
pub mod Ownership
pub mod Slots
pub mod Incoming
mod Tests
use itc_framework.Base.{
  ℕ, suc, ◌+◌, ◌-◌, ◌/◌, ◌^◌, Bool, true, false, not, Option, none, some, List, [], ◌∷◌, ◌++◌, map,
  bit_and, bit_or, ◌==◌, ltb, if◌then◌else◌, is_some, get_elem?, set, ℤ,
}
use itc_framework.Memory.{itc_ok, itc_queue_empty, itc_syscall_error}
use itc_framework.Queue.{dec32, inc32}
use itc_framework.Queue.Refine.{delete}
use itc_framework.Proto.{Name, same_name, Packet}

-- `process_state_e`
pub data ProcessState : Type 0 where
  proc_unused : ProcessState
  proc_listening : ProcessState
  proc_connected : ProcessState
  proc_invalid : ProcessState

-- `struct itc_mbox_info`
pub record MboxInfo : Type 0 where
  pub mbox_id : ℕ
  pub mbox_name : Name

-- A tree's root: it leads to nodes, or to memory that was given back.
pub data Tree : Type 0 where
  tree : List MboxInfo → Tree
  dangling : Tree

-- `struct itc_process`, without its `sockaddr`. A `pid` or `sockfd` of -1 is none.
pub record Process : Type 0 where
  pub mbox_id_in_itccoord : ℕ
  pub pid : Option ℕ
  pub sockfd : Option ℕ
  pub state : ProcessState
  pub list_mboxes_tree : Tree

-- `struct itccoord_instance`, less its descriptors, with `rc->flags`, the messages sent
-- so far and, of each itc_locate_coord_reply, its three ids; the last comes first.
-- The two lists hold indices into `processes` for the pointers to its elements.
pub record Instance : Type 0 where
  pub free_list : List ℕ
  pub used_list : List ℕ
  pub mbox_tree : List MboxInfo
  pub mbox_id : ℕ
  pub freelist_count : ℕ
  pub processes : List Process
  pub rc : ℕ
  pub sent : List (ℕ × Packet)
  pub replies : List (ℕ × ℕ × ℕ)

abbrev pub max_supported_processes : ℕ
max_supported_processes = 255

-- `tfind`, `tsearch` and `tdelete` with the names as keys.
unfoldable pub find_name : Name → List MboxInfo → Option MboxInfo
find_name n [] = none
find_name n (i ∷ t) = if same_name n i.mbox_name then some i else find_name n t

unfoldable pub insert_info : MboxInfo → List MboxInfo → List MboxInfo
insert_info i t = if is_some (find_name i.mbox_name t) then t else i ∷ t

unfoldable pub delete_name : Name → List MboxInfo → List MboxInfo
delete_name n [] = []
delete_name n (i ∷ t) =
    let rest = delete_name n t in if same_name n i.mbox_name then rest else i ∷ rest

unfoldable pub find_process : ℕ → Option ℕ
find_process mbox_id =
    let index = bit_and mbox_id 0xfff00000 / 2 ^ 20 in
    if ltb max_supported_processes index then none else some index

abbrev pub connected? : ProcessState → Bool
connected? proc_unused = false
connected? proc_listening = false
connected? proc_connected = true
connected? proc_invalid = false

abbrev pub put_process : Instance → ℕ → Process → Instance
put_process c i p = record c { processes = set c.processes i p }

-- The look-up and the two checks that handle_add_mbox, handle_remove_mbox and handle_locate_mbox
-- make: `otherwise` is what comes of a process that is unknown or not connected.
unfoldable pub with_connected :
    {A : Type 0} → A → (ℕ → Process → Option A) → Instance → ℕ → Option A
with_connected otherwise f c mbox_id = elim (find_process mbox_id) [
  | none ↦ some otherwise
  | some i ↦ elim (get_elem? c.processes i) [
    | none ↦ none
    | some p ↦ if connected? p.state then f i p else some otherwise
  ]
]

-- handle_add_mbox; `memory` is whether `malloc` finds some.
unfoldable pub register : Instance → MboxInfo → ℕ → Process → Tree → Option Instance
unfolding insert_info
register c info i p dangling = none
register c info i p (tree t) = some (record c {
  mbox_tree = insert_info info c.mbox_tree;
  processes = set c.processes i (record p { list_mboxes_tree = tree (insert_info info t) });
})

unfoldable pub handle_add_mbox :
    (memory : Bool) → Instance → (mbox_id : ℕ) (mbox_name : Name) → Option Instance
unfolding with_connected register
handle_add_mbox memory c mbox_id mbox_name =
    with_connected c
      (λ i p.
        if not memory
        then some c
        else if is_some (find_name mbox_name c.mbox_tree)
        then some c
        else register c (record { mbox_id = mbox_id; mbox_name = mbox_name }) i p
            p.list_mboxes_tree)
      c mbox_id

-- A list that still holds the info once it is given back leads to freed memory.
unfoldable pub lose : Name → Tree → Tree
lose n dangling = dangling
lose n (tree t) = if is_some (find_name n t) then dangling else tree t

unfoldable pub lose_in : Name → Process → Process
unfolding lose
lose_in n p = record p { list_mboxes_tree = lose n p.list_mboxes_tree }

-- handle_remove_mbox
unfoldable pub unregister : Instance → Name → ℕ → Process → Tree → Option Instance
unfolding lose_in delete_name
unregister c n i p dangling = none
unregister c n i p (tree t) = some (record c {
  mbox_tree = delete_name n c.mbox_tree;
  processes =
      map (lose_in n) (set c.processes i (record p { list_mboxes_tree = tree (delete_name n t) }));
})

unfoldable pub handle_remove_mbox : Instance → (mbox_id : ℕ) (mbox_name : Name) → Option Instance
unfolding with_connected unregister
handle_remove_mbox c mbox_id mbox_name =
    with_connected c
      (λ i p.
        if is_some (find_name mbox_name c.mbox_tree)
        then unregister c mbox_name i p p.list_mboxes_tree
        else some c)
      c mbox_id
