-- ===== src/Proto.antt =====
-- sw/itc/inc/itc_proto.h: the messages between processes, the coordinator and the gateways, less
-- their binary form. A `char` array is the list of its characters before the null.
use itc_framework.Base.{
  ℕ, ◌≡◌, refl, Bool, true, false, List, [], ◌∷◌, Option, arith, ◌==◌, ◌&&◌, ℤ,
}

abbrev pub Name : Type 0
Name = List ℕ

-- `strcmp(a, b) == 0`
unfoldable pub same_name : Name → Name → Bool
same_name [] [] = true
same_name [] (b ∷ ys) = false
same_name (a ∷ xs) [] = false
same_name (a ∷ xs) (b ∷ ys) = (a == b) && same_name xs ys

-- `union itc_msg` of itc.c and itccoord.c, a message of a user included. A `pid` of -1 is none.
pub data Packet : Type 0 where
  notify_coord_add_mbox : (mbox_id : ℕ) (mbox_name : Name) → Packet
  notify_coord_rmv_mbox : (mbox_id : ℕ) (mbox_name : Name) → Packet
  locate_mbox_sync_request :
      (from_mbox : ℕ) (timeout : ℤ) (find_only_internal : Bool) (mbox_name : Name) → Packet
  locate_mbox_sync_reply :
      (mbox_id : ℕ) (pid : Option ℕ) (is_external : Bool) (namespace : Name) → Packet
  locate_mbox_from_itcgws_request : (itccoord_mboxid : ℕ) (mboxname : Name) → Packet
  locate_mbox_from_itcgws_reply : (mbox_id : ℕ) (namespace : Name) → Packet
  get_namespace_request : (mbox_id : ℕ) → Packet
  get_namespace_reply : (namespace : Name) → Packet
  user_message : (message : ℕ) → Packet

pub same_name-eq : (a b : Name) → same_name a b ≡ true → a ≡ b
unfolding same_name
same_name-eq [] [] e = refl
same_name-eq [] (b ∷ ys) e = ground arith
same_name-eq (a ∷ xs) [] e = ground arith
same_name-eq (a ∷ xs) (b ∷ ys) e = ground (arith, same_name-eq xs ys)

pub same_name_self : (a : Name) → same_name a a ≡ true
unfolding same_name
same_name_self [] = refl
same_name_self (a ∷ xs) = ground (arith, same_name_self xs)
