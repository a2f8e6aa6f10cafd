-- ===== src/Gateway/Server/Receive.antt =====
-- What the TCP server thread of itc_gw.c does with a packet from another host. `none` is undefined
-- behaviour: an access behind the end of a buffer, or the use of what itc_alloc returned where that
-- is `NULL`.
use itc_framework.Base.{
  ℕ, Bool, true, false, not, Option, none, some, List, [], ◌∷◌, ◌==◌, if◌then◌else◌,
}
use itc_framework.Memory.{Message}
use itc_framework.Message.{itc_no_mbox_id}
use itc_framework.Proto.{Name}
use itc_framework.Gateway.Tree.{Tree}
use itc_framework.Gateway.Peers.{TcpPeers}
use itc_framework.Gateway.Stream.{Incoming, bytes, closed, broken, recv_data}
use itc_framework.Gateway.Packet.{
  Header, itcgw_itc_data_fwd, itcgw_locate_mbox_request, locate_reply_packet, load_header, ntoh,
  c_string, open_data_fwd,
}
use itc_framework.Gateway.Effect.{Effect, to_socket, pass_on, remove_peer, Calls}
use itc_framework.Gateway.Server.{delete_tcp_peer_resource}

abbrev pub Result : Type 0
Result = Bool × TcpPeers × List Effect

-- The `itc_send` of handle_receive_data_fwd.
unfoldable pub deliver : Calls → Option Message → Option (Bool × List Effect)
deliver io none = none
deliver io (some m) =
    if io.delivers m.receiver then some (true, pass_on m.receiver m ∷ []) else some (false, [])

unfoldable pub handle_receive_data_fwd :
    Calls → Header → Incoming → Option ((Bool × List Effect) × Incoming)
unfolding deliver
handle_receive_data_fwd io h s = elim (recv_data h.payload_len s) [
  | none ↦ none
  | some (closed, s') ↦ some ((false, []), s')
  | some (broken, s') ↦ some ((false, []), s')
  | some (bytes bs, s') ↦ elim (deliver io (open_data_fwd io.fresh bs)) [
    | none ↦ none
    | some r ↦ some (r, s')
  ]
]

unfoldable pub send_locate_mbox_reply : Calls → (sockfd mbox_id : ℕ) → Bool × List Effect
send_locate_mbox_reply io sockfd mbox_id =
    if not io.memory
    then (false, [])
    else if io.sends sockfd
    then (true, to_socket sockfd (locate_reply_packet io.pid mbox_id) ∷ [])
    else (false, [])

-- The part of handle_receive_locate_mbox behind its recv_data.
unfoldable pub look_up : Calls → (sockfd : ℕ) → Name → Bool × List Effect
unfolding send_locate_mbox_reply
look_up io sockfd name =
    if io.locate name == itc_no_mbox_id
    then (false, [])
    else send_locate_mbox_reply io sockfd (io.locate name)

unfoldable pub handle_receive_locate_mbox :
    Calls → (sockfd : ℕ) → Header → Incoming → Option ((Bool × List Effect) × Incoming)
unfolding look_up ntoh
handle_receive_locate_mbox io sockfd h s = elim (recv_data h.payload_len s) [
  | none ↦ none
  | some (closed, s') ↦ some ((false, []), s')
  | some (broken, s') ↦ some ((false, []), s')
  | some (bytes bs, s') ↦ ntoh bs λ errorcode b. elim (c_string b) [
    | none ↦ none
    | some name ↦ some (look_up io sockfd name, s')
  ]
]

-- What the switch keeps of a case's outcome: its result is not looked at.
abbrev pub kept : TcpPeers → Option ((Bool × List Effect) × Incoming) → Option (Result × Incoming)
kept t none = none
kept t (some ((done, es), s)) = some ((true, t, es), s)

-- The switch of handle_receive_tcp_packet_at_server, behind its header.
unfoldable pub dispatch :
    Calls → (sockfd : ℕ) → TcpPeers → Option Header → Incoming → Option (Result × Incoming)
unfolding handle_receive_data_fwd handle_receive_locate_mbox
dispatch io sockfd t none s = none
dispatch io sockfd t (some h) s =
    if h.msgno == itcgw_itc_data_fwd
    then kept t (handle_receive_data_fwd io h s)
    else if h.msgno == itcgw_locate_mbox_request
    then kept t (handle_receive_locate_mbox io sockfd h s)
    else some ((true, t, []), s)

-- A peer that has closed its connection; `noticed` is what the `itc_send` to the UDP thread returns.
unfoldable pub disconnect : (Tree → Tree) → (noticed : Bool) → (sockfd : ℕ) → TcpPeers → Result
disconnect balance noticed sockfd t =
    let (done, t', notice) = delete_tcp_peer_resource balance noticed sockfd t in
    (true, t', elim notice [ none ↦ [] | some addr ↦ remove_peer addr ∷ [] ])

unfoldable pub handle_receive_tcp_packet_at_server :
    (Tree → Tree)
    → Calls
    → (noticed : Bool) → (sockfd : ℕ) → TcpPeers
    → Incoming
    → Option (Result × Incoming)
unfolding dispatch disconnect
handle_receive_tcp_packet_at_server balance io noticed sockfd t s = elim (recv_data 20 s) [
  | none ↦ none
  | some (closed, s') ↦ some (disconnect balance noticed sockfd t, s')
  | some (broken, s') ↦ some ((false, t, []), s')
  | some (bytes bs, s') ↦ dispatch io sockfd t (load_header bs) s'
]
