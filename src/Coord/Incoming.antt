-- ===== src/Coord/Incoming.antt =====
-- handle_incoming_request of itccoord.c.
use itc_framework.Base.{Bool, Option, none, some}
use itc_framework.Proto.{
  Packet, notify_coord_add_mbox, notify_coord_rmv_mbox, locate_mbox_sync_request,
  locate_mbox_sync_reply, locate_mbox_from_itcgws_request, locate_mbox_from_itcgws_reply,
  get_namespace_request, get_namespace_reply, user_message,
}
use itc_framework.Coord.{Instance, handle_add_mbox, handle_remove_mbox}
use itc_framework.Coord.Locate.{LocateCalls, handle_locate_mbox}

-- The message is what itc_receive returns; `NULL`, which it does not test for, is `none`. `memory`
-- is whether the handler for a new mailbox gets some.
unfoldable pub handle_incoming_request :
    (memory : Bool) → LocateCalls → Option Packet → Instance → Option Instance
unfolding handle_add_mbox handle_remove_mbox handle_locate_mbox
handle_incoming_request memory calls none c = none
handle_incoming_request memory calls (some (notify_coord_add_mbox id n)) c =
    handle_add_mbox memory c id n
handle_incoming_request memory calls (some (notify_coord_rmv_mbox id n)) c =
    handle_remove_mbox c id n
handle_incoming_request memory calls (some (locate_mbox_sync_request from t only n)) c =
    handle_locate_mbox calls c from only n
handle_incoming_request memory calls (some (locate_mbox_sync_reply id p e n)) c = some c
handle_incoming_request memory calls (some (locate_mbox_from_itcgws_request id n)) c = some c
handle_incoming_request memory calls (some (locate_mbox_from_itcgws_reply id n)) c = some c
handle_incoming_request memory calls (some (get_namespace_request id)) c = some c
handle_incoming_request memory calls (some (get_namespace_reply n)) c = some c
handle_incoming_request memory calls (some (user_message m)) c = some c
