-- ===== src/Gateway/Udp/Tests.antt =====
-- The UDP part of itc_gw.c at small inputs: a gateway with a long IP address, and a table of two
-- peers.
use itc_framework.Base.{ℕ, ◌≡◌, refl, false, some, List, [], ◌∷◌, arith, replicate}
use mathlib.Core.Option
use mathlib.Core.Option.{some-injective}
use itc_framework.Proto.{Name}
use itc_framework.Gateway.Tree.{leaf, node}
use itc_framework.Gateway.Peers.{no_addr}
use itc_framework.Gateway.Text.{codes, contains, emit, print_hu}
use itc_framework.Gateway.Udp
use itc_framework.Gateway.Udp.{
  UdpPeers, tcp_addr, scan_greeting, create_broadcast_message, fill_add_peer, read_add_peer,
}
use itc_framework.Gateway.Udp.Broadcast.{scan_greeting-create_broadcast_message}
use itc_framework.Gateway.Udp.Notice.{read_add_peer-fill_add_peer}

abbrev home : Name
home = codes "home"

abbrev local_ip : Name
local_ip = codes "192.168.100.101"

free_of :
    (contains 62 home ≡ false)
    × (contains 58 local_ip ≡ false)
    × (contains 0 home ≡ false)
    × (contains 0 (tcp_addr local_ip 22222) ≡ false)
unfolding contains print_hu emit
free_of = (refl, refl, refl, refl)

scan_greeting-create_broadcast_message_example :
    scan_greeting (create_broadcast_message home local_ip 22222)
    ≡ some (record { namespace = home; tcp_ip = local_ip; tcp_port = 22222 })
scan_greeting-create_broadcast_message_example =
    scan_greeting-create_broadcast_message home local_ip 22222 free_of.0 (λ e. absurd cc)
      (ground arith) free_of.1 (λ e. absurd cc) (ground arith) (ground arith)

-- The address of a host whose IP address has 15 characters: of the 28 characters of its TCP address
-- the client reads 25, with the namespace behind them.
abbrev block : List ℕ
block = replicate 35 0

read_add_peer-fill_add_peer_example :
    Option.map read_add_peer (fill_add_peer block (tcp_addr local_ip 22222) home)
    ≡ some (some (codes "tcp://192.168.100.101:222home"), some home)
unfolding print_hu emit
read_add_peer-fill_add_peer_example =
    read_add_peer-fill_add_peer (replicate 4 0) (replicate 31 0) (tcp_addr local_ip 22222) home refl
      (ground arith) (ground arith) free_of.3 free_of.2

abbrev known_peers : UdpPeers
known_peers = record {
  addrs = codes "p" ∷ codes "q" ∷ no_addr ∷ [];
  tree = node leaf 0 (node leaf 1 leaf);
}
