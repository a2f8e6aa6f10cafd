-- ===== src/Gateway/Client.antt =====
-- The TCP client thread of itc_gw.c: its peers, what it sends to other hosts, and the replies that
-- it receives from them.
pub mod Receive
use itc_framework.Base.{
  ℕ, ◌+◌, ◌≡◌, Bool, true, false, not, Option, none, some, List, [], ◌∷◌, ◌++◌, ◌==◌, if◌then◌else◌,
  is_some, length, take,
}
use itc_framework.Memory.{Message}
use itc_framework.Message.{itc_no_mbox_id}
use itc_framework.Proto.{Name, Packet, locate_mbox_from_itcgws_reply}
use itc_framework.Mailbox.Forward.{FwdData}
use itc_framework.Gateway.Tree.{Tree, tfind, tsearch}
use itc_framework.Gateway.Peers.{
  TcpPeer, TcpPeers, addr_of, fd_of, namespace_of, compare_addr, compare_namespace, compare_sockfd,
  free_from, update_peer,
}
use itc_framework.Gateway.Server.{release_peer}
use itc_framework.Gateway.Stream.{Incoming, Received, bytes, closed, broken, recv_data}
use itc_framework.Gateway.Packet.{
  Header, data_fwd_packet, locate_request_packet, itcgw_locate_mbox_reply, load_header, ntoh,
}
use itc_framework.Gateway.Effect.{Effect, to_socket, to_mailbox, Calls}

pub record Client : Type 0 where
  pub table : TcpPeers
  pub itccoord_mbox_id : ℕ

-- The messages that handle_receive_itcmsg_at_client tells apart.
pub data Request : Type 0 where
  udp_add_peer : (addr namespace : Name) → Request
  fwd_data_to_itcgws : FwdData → Request
  locate_mbox_from_itcgws_request : (itccoord_mboxid : ℕ) (mboxname : Name) → Request
  other : Request

-- What `socket` and `connect` to a peer come to.
pub data Connecting : Type 0 where
  connected : (fd : ℕ) → Connecting
  unreachable : Connecting

module _ (balance : Tree → Tree) where
  unfoldable pub add : TcpPeers → (i : ℕ) (addr namespace : Name) (fd : ℕ) → TcpPeers
  unfolding update_peer
  add s i addr namespace fd =
      let ps =
        update_peer s.peers i
          (λ p. record p { addr = addr; namespace = namespace; fd = some fd }) in
      record { peers = ps; tree = tsearch balance (compare_addr ps (addr_of ps i)) i s.tree }

  unfoldable pub handle_tcp_client_add_peer :
      Connecting → (addr namespace : Name) → TcpPeers → Bool × TcpPeers
  unfolding add
  handle_tcp_client_add_peer unreachable addr namespace s = (false, s)
  handle_tcp_client_add_peer (connected fd) addr namespace s =
      elim (tfind (compare_addr s.peers addr) s.tree) [
        | some i ↦ (false, s)
        | none ↦ elim (free_from s.peers 0) [
          | none ↦ (false, s)
          | some i ↦ (true, add s i addr namespace fd)
        ]
      ]

  -- The removal is that of delete_tcp_peer_resource with its notice sent, less the notice.
  unfoldable pub handle_tcp_client_rmv_peer : (sockfd : ℕ) → TcpPeers → Bool × TcpPeers
  unfolding release_peer
  handle_tcp_client_rmv_peer sockfd s = elim (tfind (compare_sockfd s.peers sockfd) s.tree) [
    | none ↦ (false, s)
    | some i ↦ release_peer balance true s i
  ]

-- `send` over the socket of an element; that of an element with none fails.
unfoldable pub send_over : Calls → Option ℕ → List ℕ → Bool × List Effect
send_over io none packet = (false, [])
send_over io (some fd) packet =
    if io.sends fd then (true, to_socket fd packet ∷ []) else (false, [])

unfoldable pub handle_fwd_data_out : Calls → TcpPeers → FwdData → Bool × List Effect
unfolding send_over
handle_fwd_data_out io s d =
    if not io.memory
    then (false, [])
    else elim (tfind (compare_namespace s.peers d.to_namespace) s.tree) [
      | none ↦ (true, [])
      | some i ↦ send_over io (fd_of s.peers i) (data_fwd_packet io.pid d.payload)
    ]

-- The loop of handle_locate_mbox_request: the packets that went out, one to a connected peer.
unfoldable pub ask_all : Calls → List ℕ → List TcpPeer → List Effect
unfolding send_over
ask_all io packet [] = []
ask_all io packet (p ∷ ps) = (send_over io p.fd packet).1 ++ ask_all io packet ps

unfoldable pub answer_no_mailbox : Calls → (itccoord : ℕ) → Bool × List Effect
answer_no_mailbox io itccoord =
    if io.delivers itccoord
    then (true, to_mailbox itccoord (locate_mbox_from_itcgws_reply itc_no_mbox_id []) ∷ [])
    else (false, [])

unfoldable pub handle_locate_mbox_request : Calls → Client → Name → Bool × List Effect
unfolding ask_all answer_no_mailbox
handle_locate_mbox_request io c name =
    if not io.memory
    then (false, [])
    else let asked = ask_all io (locate_request_packet io.pid name) c.table.peers in
      elim asked [ [] ↦ answer_no_mailbox io c.itccoord_mbox_id | e ∷ es ↦ (true, e ∷ es) ]
