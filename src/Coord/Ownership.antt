-- ===== src/Coord/Ownership.antt =====
-- The invariant of itccoord.c's mailbox trees: the list of a process is the part of the tree of all
-- mailboxes that belongs to it.
use itc_framework.Base.{
  ℕ, ◌≡◌, Bool, false, Option, none, some, List, [], ◌==◌, if◌then◌else◌, get_elem?,
}
use itc_framework.Proto.{Name}
use itc_framework.Coord.{MboxInfo, Tree, tree, dangling, Process, Instance, find_name, find_process}

abbrev pub belongs : ℕ → Option ℕ → Bool
belongs i none = false
belongs i (some j) = j == i

-- What a process has of what the tree of all mailboxes has under a name.
abbrev pub own : ℕ → Option MboxInfo → Option MboxInfo
own i none = none
own i (some info) = if belongs i (find_process info.mbox_id) then some info else none

abbrev pub nodes : Tree → List MboxInfo
nodes (tree t) = t
nodes dangling = []

abbrev pub list_of : Option Process → List MboxInfo
list_of none = []
list_of (some p) = nodes p.list_mboxes_tree

pub record IsRegistry (c : Instance) : Type 0 where
  pub owned :
      (i : ℕ) (n : Name)
      → find_name n (list_of (get_elem? c.processes i)) ≡ own i (find_name n c.mbox_tree)
