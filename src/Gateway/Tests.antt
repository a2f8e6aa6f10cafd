-- ===== src/Gateway/Tests.antt =====
-- itc_gw.c at small inputs: a table of three elements of which two are connected, the later address
-- having the older socket; and a message of five bytes for mailbox 7 of another host.
use Prim.Native.Nat.{Ordering}
use itc_framework.Base.{
  ℕ, zero, suc, ◌≡◌, refl, ◌<◌, true, false, none, some, List, [], ◌∷◌, ◌++◌, arith, take, drop,
  is_some,
}
use mathlib.Core.Option.{some-injective}
use itc_framework.Proto.{Name}
use itc_framework.Memory.{Message}
use itc_framework.Message.{endpoint}
use itc_framework.Mailbox.Forward.{ForwardCalls}
use itc_framework.Gateway.Stream.{Incoming, burst, failure, recv_data, Reading, recv_data_reads}
use itc_framework.Gateway.Tree.{Tree, leaf, node, tfind}
use itc_framework.Gateway.Peers.{TcpPeer, TcpPeers, addr_of, fd_of, compare_sockfd, strcmp, no_addr}
use itc_framework.Gateway.Peers.Order.{mem}
use itc_framework.Gateway.Server.{
  handle_accept_new_connection, accepted, peer_addr, delete_tcp_peer_resource,
}
use itc_framework.Gateway.Server.Invariant.{IsPeers, Accepts, accepts}
use itc_framework.Gateway.Server.Removal.{Released, delete_found, SocketsFall, delete_misses}
use itc_framework.Gateway.Packet.{locate_request_packet, locate_reply_packet}
use itc_framework.Gateway.Effect.{Calls}
use itc_framework.Gateway.Client.{Client}
use itc_framework.Gateway.Exchange.{packet_of, addressed}

abbrev two_bursts : Incoming
two_bursts = burst 1 (2 ∷ []) ∷ burst 3 (4 ∷ 5 ∷ []) ∷ failure ∷ []

recv_data_reads_example : Reading 4 two_bursts (recv_data 4 two_bursts)
recv_data_reads_example = recv_data_reads 4 two_bursts (omega arith)

abbrev no_balance : Tree → Tree
no_balance t = t

-- Hosts "1" and "2", whose namespaces are "h" and "k".
abbrev older : TcpPeer
older = record { addr = peer_addr (50 ∷ []); fd = some 8; namespace = 107 ∷ [] }

abbrev newer : TcpPeer
newer = record { addr = peer_addr (49 ∷ []); fd = some 9; namespace = 104 ∷ [] }

abbrev vacant : TcpPeer
vacant = record { addr = no_addr; fd = none; namespace = [] }

abbrev two_peers : TcpPeers
two_peers = record { peers = older ∷ newer ∷ vacant ∷ []; tree = node (node leaf 1 leaf) 0 leaf }

two_peers-IsPeers : IsPeers two_peers
unfolding mem strcmp
two_peers-IsPeers = record { sorted = (first, ((λ j m. cc), tt)); used = used }
  where
    first :
        (j : ℕ)
        → mem j (0 ∷ []) ≡ true
        → strcmp (peer_addr (49 ∷ [])) (addr_of two_peers.peers j) ≡ Ordering.lt
    first zero m = refl
    first (suc j) m = absurd (ground arith)

    used : (i : ℕ) → mem i (1 ∷ 0 ∷ []) ≡ is_some (fd_of two_peers.peers i)
    used zero = refl
    used (suc zero) = refl
    used (suc (suc zero)) = refl
    used (suc (suc (suc i))) = ground arith

accepts_example :
    Accepts two_peers
      (peer_addr (51 ∷ []))
      (handle_accept_new_connection no_balance (accepted 10 (51 ∷ [])) two_peers)
accepts_example = accepts no_balance (λ t. refl) two_peers 10 (51 ∷ []) two_peers-IsPeers

search_8 : tfind (compare_sockfd two_peers.peers 8) two_peers.tree ≡ some 0
unfolding tfind
search_8 = refl

delete_found_example :
    let (done, s', notice) = delete_tcp_peer_resource no_balance true 8 two_peers in
    (done ≡ true) × (notice ≡ some (peer_addr (50 ∷ []))) × Released two_peers 0 s'
delete_found_example =
    delete_found no_balance (λ t. refl) two_peers true 8 0 two_peers-IsPeers search_8

two_peers-SocketsFall : SocketsFall two_peers.peers (1 ∷ 0 ∷ [])
unfolding mem
two_peers-SocketsFall = (first, ((λ j d e m. ground arith), tt))
  where
    first :
        (j d e : ℕ)
        → mem j (0 ∷ []) ≡ true
        → fd_of two_peers.peers 1 ≡ some d
        → fd_of two_peers.peers j ≡ some e
        → e < d
    first zero d e m at_1 at_j = omega (arith, some-injective _ _ at_1, some-injective _ _ at_j)
    first (suc j) d e m at_1 at_j = ground arith

member_1 : mem 1 (1 ∷ 0 ∷ []) ≡ true
unfolding mem
member_1 = refl

delete_misses_example :
    delete_tcp_peer_resource no_balance true 9 two_peers ≡ (false, two_peers, none)
delete_misses_example =
    delete_misses no_balance two_peers (node leaf 1 leaf) leaf 0 1 9 true two_peers-IsPeers refl
      two_peers-SocketsFall member_1 (ground arith) refl

abbrev letter : Message
letter = record {
  flags = 0;
  receiver = 0;
  sender = 0;
  size = 5;
  msgno = 300;
  payload = 65 ∷ endpoint ∷ [];
}

abbrev process : ForwardCalls
process = record { memory = true; located = 0; sent = true }

abbrev host : Calls
host = record {
  sends = λ fd. true;
  delivers = λ id. true;
  memory = true;
  fresh = some (0 ∷ 0 ∷ []);
  locate = λ name. 0;
  pid = 77;
}

-- To the namespace "h", of the peer at the root of a tree that is in the order of namespaces.
abbrev route : TcpPeers
route = record two_peers { tree = node leaf 1 (node leaf 0 leaf) }

-- A stream that comes in two bursts, of which the first has the bytes up to `n`, and one byte more.
abbrev in_two : ℕ → List ℕ → Incoming
in_two n [] = []
in_two zero (b ∷ bs) = burst b bs ∷ []
in_two (suc n) (b ∷ bs) = burst b (take n bs) ∷ rest (drop n bs)
  where
    rest : List ℕ → Incoming
    rest [] = []
    rest (c ∷ cs) = burst c cs ∷ []

abbrev arriving : Incoming
arriving = in_two 11 (packet_of 77 (addressed 3 7 letter) ++ (1 ∷ 2 ∷ []))

abbrev lamp : Name
lamp = 108 ∷ 97 ∷ 109 ∷ 112 ∷ []

abbrev knowing : Calls
knowing = record host { locate = λ name. 3145731 }

abbrev client : Client
client = record { table = two_peers; itccoord_mbox_id = 1048577 }

abbrev asked : Incoming
asked = in_two 3 (locate_request_packet 77 lamp)

abbrev replied : Incoming
replied = in_two 21 (locate_reply_packet 77 3145731)
