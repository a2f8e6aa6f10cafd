-- ===== src/Coord/Names.antt =====
-- The trees of itccoord.c as finite maps from names.
use itc_framework.Base.{
  ◌≡◌, refl, none, some, List, [], ◌∷◌, arith, if◌then◌else◌, is_some, inl, inr, Bool-cases,
}
use itc_framework.Proto.{Name, same_name, same_name-eq, same_name_self}
use itc_framework.Coord.{MboxInfo, find_name, insert_info, delete_name}
use itc_framework.Coord.Connection.{delete_counterparts}

pub find_name-insert_info :
    (n : Name) (i : MboxInfo) (t : List MboxInfo)
    → find_name i.mbox_name t ≡ none
    → find_name n (insert_info i t) ≡ (if same_name n i.mbox_name then some i else find_name n t)
unfolding insert_info find_name
find_name-insert_info n i t absent = rw absent

pub find_name-delete_name :
    (n m : Name) (t : List MboxInfo)
    → find_name n (delete_name m t) ≡ (if same_name n m then none else find_name n t)
unfolding find_name delete_name
find_name-delete_name n m [] = ground arith
find_name-delete_name n m (i ∷ t) = ground (
  arith,
  find_name-delete_name n m t,
  same_name-eq n m,
  same_name-eq m i.mbox_name,
  same_name-eq n i.mbox_name,
  same_name_self n,
)

-- What the walk over a process's list leaves in the other tree.
pub find_name-delete_counterparts :
    (n : Name) (own t : List MboxInfo)
    → find_name n (delete_counterparts own t)
      ≡ (if is_some (find_name n own) then none else find_name n t)
unfolding find_name delete_counterparts
find_name-delete_counterparts n [] t = refl
find_name-delete_counterparts n (i ∷ own) t =
    elim (Bool-cases (is_some (find_name i.mbox_name t))) [
      | inl there ↦ ground (
        arith,
        there,
        find_name-delete_counterparts n own (delete_name i.mbox_name t),
        find_name-delete_name n i.mbox_name t,
      )
      | inr absent ↦
          ground (arith, absent, find_name-delete_counterparts n own t, same_name-eq n i.mbox_name)
    ]
