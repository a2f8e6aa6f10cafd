-- ===== src/Coord/Registry.antt =====
-- The mailboxes that itccoord.c has registered: its tree of all mailboxes against the lists of the
-- processes.
use itc_framework.Base.{
  ℕ, ◌<◌, ◌≡◌, ap, ◌∙◌, ◌≢◌, Bool, true, false, Option, none, some, List, [], ◌∷◌, arith, is_some,
  map, get_elem?, set, length, get_elem?-set_self,
}
use itc_framework.Message.{itc_no_mbox_id}
use itc_framework.Proto.{Name, locate_mbox_sync_reply, same_name-eq, same_name_self}
use itc_framework.Coord.{
  MboxInfo, tree, Process, Instance, connected?, find_name, insert_info, delete_name, find_process,
  with_connected, register, unregister, handle_add_mbox, handle_remove_mbox, lose_in,
}
use itc_framework.Coord.Names.{find_name-insert_info, find_name-delete_name}
use itc_framework.Coord.Locate.{LocateCalls, reply, handle_locate_mbox}

-- The mailbox `mbox_id` is one of the connected process `p`, whose slot is `i`.
pub record Connected (c : Instance) (mbox_id i : ℕ) (p : Process) : Type 0 where
  pub slot : find_process mbox_id ≡ some i
  pub process : get_elem? c.processes i ≡ some p
  pub state : connected? p.state ≡ true

with_connected_lem :
    {A : Type 0} (otherwise : A) (f : ℕ → Process → Option A) {c : Instance} {mbox_id i : ℕ}
    {p : Process}
    → Connected c mbox_id i p
    → with_connected otherwise f c mbox_id ≡ f i p
unfolding with_connected
with_connected_lem otherwise f k = rw (k.slot, k.process, k.state, with_connected)

-- The instance after handle_add_mbox of a new name.
abbrev pub added : Instance → MboxInfo → ℕ → Process → List MboxInfo → Instance
added c info i p t = record c {
  mbox_tree = insert_info info c.mbox_tree;
  processes = set c.processes i (record p { list_mboxes_tree = tree (insert_info info t) });
}

abbrev pub removed : Instance → Name → ℕ → Process → List MboxInfo → Instance
removed c n i p t = record c {
  mbox_tree = delete_name n c.mbox_tree;
  processes =
      map (lose_in n) (set c.processes i (record p { list_mboxes_tree = tree (delete_name n t) }));
}

module _ {c : Instance} {mbox_id i : ℕ} {p : Process} (n : Name) (t : List MboxInfo)
    (k : Connected c mbox_id i p) (live : p.list_mboxes_tree ≡ tree t) where
  pub handle_add_mbox-new :
      find_name n c.mbox_tree ≡ none
      → handle_add_mbox true c mbox_id n
        ≡ some (added c (record { mbox_id = mbox_id; mbox_name = n }) i p t)
  unfolding handle_add_mbox register
  handle_add_mbox-new new =
      rw (with_connected_lem c _ k, new)
        (ap (λ o. register c (record { mbox_id = mbox_id; mbox_name = n }) i p o) live ∙ rw new)

  pub handle_remove_mbox-known :
      is_some (find_name n c.mbox_tree) ≡ true
      → handle_remove_mbox c mbox_id n ≡ some (removed c n i p t)
  unfolding handle_remove_mbox unregister
  handle_remove_mbox-known known =
      rw (with_connected_lem c _ k, known) (ap (λ o. unregister c n i p o) live)

module _ (calls : LocateCalls) (memory : calls.reply_memory ≡ true) (goes : calls.reply_sent ≡ true)
    (from_mbox : ℕ) where
  abbrev pub replied : Instance → (mbox_id : ℕ) (pid : Option ℕ) → Instance
  replied c mbox_id pid = record c {
    sent = (from_mbox, locate_mbox_sync_reply mbox_id pid false []) ∷ c.sent;
  }

  pub handle_locate_mbox-known :
      {c : Instance} {i : ℕ} {p : Process} (n : Name) (info : MboxInfo) (only : Bool)
      → find_name n c.mbox_tree ≡ some info
      → Connected c info.mbox_id i p
      → handle_locate_mbox calls c from_mbox only n ≡ some (replied c info.mbox_id p.pid)
  unfolding handle_locate_mbox reply
  handle_locate_mbox-known {c} n info only found k =
      rw (found, handle_locate_mbox, with_connected_lem c _ k, memory, goes)

  pub handle_locate_mbox-absent :
      {c : Instance} (n : Name)
      → find_name n c.mbox_tree ≡ none
      → handle_locate_mbox calls c from_mbox true n ≡ some (replied c itc_no_mbox_id none)
  unfolding handle_locate_mbox reply
  handle_locate_mbox-absent n absent = rw (absent, handle_locate_mbox, memory, goes)

  module _ {c : Instance} {mbox_id i : ℕ} {p : Process} (n : Name) (t : List MboxInfo)
      (k : Connected c mbox_id i p) (live : p.list_mboxes_tree ≡ tree t)
      (small : i < length c.processes) where
    -- A mailbox of a connected process that is registered under a new name by handle_add_mbox is
    -- found by handle_locate_mbox: whoever asks, in this host only or in all, is sent its id and
    -- its process's pid, and nothing else changes. The reply has memory and reaches the asker.
    pub locate-add :
        (only : Bool)
        → find_name n c.mbox_tree ≡ none
        → (c' : Instance) × (handle_add_mbox true c mbox_id n ≡ some c')
          × (handle_locate_mbox calls c' from_mbox only n ≡ some (replied c' mbox_id p.pid))
    locate-add only new =
        let info : MboxInfo = record { mbox_id = mbox_id; mbox_name = n } in
        let c' = added c info i p t in
        let there : find_name n c'.mbox_tree ≡ some info =
          rw (find_name-insert_info n info c.mbox_tree new, same_name_self n) in
        let k' : Connected c' mbox_id i
            (record p { list_mboxes_tree = tree (insert_info info t) }) =
          record {
            slot = k.slot;
            process = get_elem?-set_self c.processes i _ small;
            state = k.state;
          } in
        (c', handle_add_mbox-new n t k live new, handle_locate_mbox-known n info only there k')

    -- A registered mailbox that a connected process has removed by handle_remove_mbox is found no
    -- more: who asks for it in this host is sent ITC_NO_MBOX_ID and no pid, and a mailbox of another
    -- name is found as before. The reply has memory and reaches the asker.
    pub locate-remove :
        is_some (find_name n c.mbox_tree) ≡ true
        → (c' : Instance) × (handle_remove_mbox c mbox_id n ≡ some c')
          × (handle_locate_mbox calls c' from_mbox true n ≡ some (replied c' itc_no_mbox_id none))
          × ((m : Name) → m ≢ n → find_name m c'.mbox_tree ≡ find_name m c.mbox_tree)
    locate-remove known =
        let c' = removed c n i p t in
        let gone : find_name n c'.mbox_tree ≡ none =
          rw (find_name-delete_name n n c.mbox_tree, same_name_self n) in
        (
          c',
          handle_remove_mbox-known n t k live known,
          handle_locate_mbox-absent n gone,
          λ m ne. ground (arith, find_name-delete_name m n c.mbox_tree, same_name-eq m n, ne),
        )
