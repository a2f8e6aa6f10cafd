-- ===== src/Gateway/Client/Receive.antt =====
-- What the TCP client thread of itc_gw.c does with a message from its mailbox and with a packet
-- from another host. `none` is undefined behaviour: a read behind what was received.
use itc_framework.Base.{
  ℕ, Bool, true, false, Option, none, some, List, [], ◌∷◌, ◌==◌, if◌then◌else◌,
}
use itc_framework.Proto.{locate_mbox_from_itcgws_reply}
use itc_framework.Gateway.Tree.{Tree, tfind}
use itc_framework.Gateway.Peers.{namespace_of, compare_sockfd}
use itc_framework.Gateway.Stream.{Incoming, bytes, closed, broken, recv_data}
use itc_framework.Gateway.Packet.{Header, itcgw_locate_mbox_reply, load_header, ntoh}
use itc_framework.Gateway.Effect.{Effect, to_mailbox, Calls}
use itc_framework.Gateway.Client.{
  Client, Request, udp_add_peer, fwd_data_to_itcgws, locate_mbox_from_itcgws_request, other,
  Connecting, handle_tcp_client_add_peer, handle_tcp_client_rmv_peer, handle_fwd_data_out,
  handle_locate_mbox_request,
}

abbrev pub Result : Type 0
Result = Bool × Client × List Effect

-- handle_receive_itcmsg_at_client; `received` is what `itc_receive` returns.
unfoldable pub handle_receive_itcmsg_at_client :
    (Tree → Tree) → Calls → Connecting → (received : Option Request) → Client → Result
handle_receive_itcmsg_at_client balance io peer none c = (false, c, [])
handle_receive_itcmsg_at_client balance io peer (some (udp_add_peer addr namespace)) c = (
  true,
  record c { table = (handle_tcp_client_add_peer balance peer addr namespace c.table).1 },
  [],
)
handle_receive_itcmsg_at_client balance io peer (some (fwd_data_to_itcgws d)) c =
    (true, c, (handle_fwd_data_out io c.table d).1)
handle_receive_itcmsg_at_client balance io peer (some (locate_mbox_from_itcgws_request coord name))
      c =
    let c' : Client = record c { itccoord_mbox_id = coord } in
    (true, c', (handle_locate_mbox_request io c' name).1)
handle_receive_itcmsg_at_client balance io peer (some other) c = (true, c, [])

-- The part of handle_receive_locate_mbox_reply behind its recv_data.
unfoldable pub report : Calls → (sockfd mbox_id : ℕ) → Client → Bool × List Effect
report io sockfd mbox_id c = elim (tfind (compare_sockfd c.table.peers sockfd) c.table.tree) [
  | none ↦ (false, [])
  | some i ↦
      if io.delivers c.itccoord_mbox_id
      then (
        true,
        to_mailbox c.itccoord_mbox_id
              (locate_mbox_from_itcgws_reply mbox_id (namespace_of c.table.peers i))
            ∷ [],
      )
      else (false, [])
]

unfoldable pub handle_receive_locate_mbox_reply :
    Calls → (sockfd : ℕ) → Header → Client → Incoming → Option ((Bool × List Effect) × Incoming)
unfolding report ntoh
handle_receive_locate_mbox_reply io sockfd h c s = elim (recv_data h.payload_len s) [
  | none ↦ none
  | some (closed, s') ↦ some ((false, []), s')
  | some (broken, s') ↦ some ((false, []), s')
  | some (bytes bs, s') ↦
      ntoh bs λ errorcode b. ntoh b λ mbox_id rest. some (report io sockfd mbox_id c, s')
]

-- The switch of handle_receive_tcp_packet_at_client, behind its header.
unfoldable pub dispatch :
    Calls → (sockfd : ℕ) → Client → Option Header → Incoming → Option (Result × Incoming)
unfolding handle_receive_locate_mbox_reply
dispatch io sockfd c none s = none
dispatch io sockfd c (some h) s =
    if h.msgno == itcgw_locate_mbox_reply
    then elim (handle_receive_locate_mbox_reply io sockfd h c s) [
      | none ↦ none
      | some ((done, es), s') ↦ some ((true, c, es), s')
    ]
    else some ((true, c, []), s)

unfoldable pub handle_receive_tcp_packet_at_client :
    (Tree → Tree) → Calls → (sockfd : ℕ) → Client → Incoming → Option (Result × Incoming)
unfolding dispatch
handle_receive_tcp_packet_at_client balance io sockfd c s = elim (recv_data 20 s) [
  | none ↦ none
  | some (closed, s') ↦
      some
        ((true, record c { table = (handle_tcp_client_rmv_peer balance sockfd c.table).1 }, []), s')
  | some (broken, s') ↦ some ((false, c, []), s')
  | some (bytes bs, s') ↦ dispatch io sockfd c (load_header bs) s'
]
