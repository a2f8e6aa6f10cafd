-- ===== src/Mailbox/Cycle.antt =====
-- A mailbox from itc_create_mailbox_zz to itc_delete_mailbox_zz of itc.c.
use itc_framework.Base.{
  ℕ, ◌≡◌, Bool, true, false, none, some, List, [], ◌∷◌, bit_and, ◌==◌, ◌<◌, is_some, length, ◌||◌,
}
use itc_framework.Proto.{Name}
use itc_framework.Mailbox.{EventFd, Transport, Mailbox, Process, entry}
use itc_framework.Mailbox.Life.{LifeCalls}

abbrev pub lists : ℕ → List ℕ → Bool
lists i [] = false
lists i (j ∷ t) = (i == j) || lists i t

module _ {F W : Type 0} (api : EventFd F) (ts : List (Transport W)) (io : LifeCalls) where
  -- The calling thread has no mailbox yet, `i` is the next free one, and its process needs no
  -- notification, being the coordinator's.
  pub record MayCreate (p : Process F W) (name : Name) (i : ℕ) (rest : List ℕ) (m : Mailbox F)
      : Type 0 where
    pub up : is_some p.mboxes ≡ true
    pub without : p.my_threadlocal_mbox ≡ none
    pub free : p.free_mboxes_queue ≡ i ∷ rest
    pub slot : entry p.mboxes i ≡ some m
    pub home : p.my_mbox_id_in_itccoord ≡ bit_and p.itccoord_mbox_id p.itccoord_mask
    pub short : length name < 255
    pub destructor : io.destructor ≡ true
    pub node : io.node ≡ true
