-- ===== src/Coord/Tests.antt =====
-- itccoord.c at small inputs: four slots, of which the third is a process with one mailbox and the
-- fourth is free, and a full table of 255 slots.
use itc_framework.Base.{
  ℕ, ◌≡◌, refl, ap, ◌≢◌, ◌<◌, ◌*◌, ◌^◌, true, false, none, some, [], ◌∷◌, arith, is_some, replicate,
  length-replicate,
}
use itc_framework.Memory.{itc_ok}
use itc_framework.Message.{itc_no_mbox_id}
use itc_framework.Local.Lookup.{own_id}
use itc_framework.Proto.{Name, same_name}
use itc_framework.Coord.{
  MboxInfo, tree, Process, proc_unused, proc_connected, proc_invalid, Instance, find_name,
  find_process, handle_add_mbox, handle_remove_mbox,
}
use itc_framework.Coord.Locate.{LocateCalls, handle_locate_mbox}
use itc_framework.Coord.Connection.{
  Closing, closed, interrupted, unlinked, accepted, request, delivered, LocateCoordCalls,
}
use itc_framework.Coord.Registry.{Connected, replied, locate-add, locate-remove}
use itc_framework.Coord.Slots.{process_bounds}

abbrev lamp : Name
lamp = 108 ∷ 97 ∷ 109 ∷ 112 ∷ []

abbrev fan : Name
fan = 102 ∷ 97 ∷ 110 ∷ []

abbrev info : MboxInfo
info = record { mbox_id = own_id 2 1; mbox_name = lamp }

abbrev unused_slot : Process
unused_slot = record {
  mbox_id_in_itccoord = 3 * 2 ^ 20;
  pid = none;
  sockfd = none;
  state = proc_unused;
  list_mboxes_tree = tree [];
}

abbrev root : Process
root = record unused_slot { mbox_id_in_itccoord = itc_no_mbox_id; state = proc_invalid }

abbrev coord : Process
coord = record unused_slot { mbox_id_in_itccoord = 2 ^ 20; pid = some 40; state = proc_connected }

abbrev client : Process
client = record {
  mbox_id_in_itccoord = 2 * 2 ^ 20;
  pid = some 77;
  sockfd = some 5;
  state = proc_connected;
  list_mboxes_tree = tree (info ∷ []);
}

abbrev instance_of_4 : Instance
instance_of_4 = record {
  free_list = 3 ∷ [];
  used_list = 2 ∷ [];
  mbox_tree = info ∷ [];
  mbox_id = own_id 1 1;
  freelist_count = 1;
  processes = root ∷ coord ∷ client ∷ unused_slot ∷ [];
  rc = itc_ok;
  sent = [];
  replies = [];
}

abbrev instance_of_255 : Instance
instance_of_255 = record instance_of_4 { free_list = []; processes = replicate 255 unused_slot }

abbrev calls : LocateCalls
calls = record {
  request_memory = true;
  request_sent = true;
  answer = none;
  reply_memory = true;
  reply_sent = true;
  stale_pid = none;
}

abbrev closing : Closing
closing = record { closes = interrupted ∷ closed ∷ []; unlink = unlinked; node = true }

abbrev arrival : LocateCoordCalls
arrival = record {
  accept = accepted 9;
  request_memory = true;
  request = request 88;
  node = true;
  socket = some 10;
  bind = true;
  chmod = true;
  listen = true;
  reply_memory = true;
  send = delivered;
  close = true;
  closing = closing;
}

connected :
    (m : ℕ)
    → m < 2 ^ 20
    → find_process (own_id 2 m) ≡ some 2
    → Connected instance_of_4 (own_id 2 m) 2 client
connected m low slot = record { slot = slot; process = refl; state = refl }

theirs : find_process info.mbox_id ≡ some 2
unfolding find_process
theirs = refl

known : find_name lamp (info ∷ []) ≡ some info
unfolding find_name same_name
known = refl

new : find_name fan (info ∷ []) ≡ none
unfolding find_name same_name
new = refl

second : find_process (own_id 2 2) ≡ some 2
unfolding find_process
second = refl

locate-add_example :
    (c' : Instance) × (handle_add_mbox true instance_of_4 (own_id 2 2) fan ≡ some c')
    × (handle_locate_mbox calls c' 900 false fan
        ≡ some (replied calls refl refl 900 c' (own_id 2 2) (some 77)))
locate-add_example =
    locate-add calls refl refl 900 fan (info ∷ []) (connected 2 (omega arith) second) refl
      (omega arith) false new

locate-remove_example :
    (c' : Instance) × (handle_remove_mbox instance_of_4 (own_id 2 1) lamp ≡ some c')
    × (handle_locate_mbox calls c' 900 true lamp
        ≡ some (replied calls refl refl 900 c' itc_no_mbox_id none))
    × ((m : Name) → m ≢ lamp → find_name m c'.mbox_tree ≡ find_name m (info ∷ []))
locate-remove_example =
    locate-remove calls refl refl 900 lamp (info ∷ []) (connected 1 (omega arith) theirs) refl
      (omega arith) (ap is_some known)

abbrev edge : ℕ
edge = 255

process_bounds_example :
    (255 < edge
      → (handle_add_mbox true instance_of_255 (own_id edge 7) fan ≡ some instance_of_255)
        × (handle_remove_mbox instance_of_255 (own_id edge 7) fan ≡ some instance_of_255))
    × (edge ≡ 255
        → (handle_add_mbox true instance_of_255 (own_id edge 7) fan ≡ none)
          × (handle_remove_mbox instance_of_255 (own_id edge 7) fan ≡ none))
process_bounds_example =
    process_bounds instance_of_255 edge 7 fan (length-replicate 255 unused_slot) (omega arith)
      (omega arith)
