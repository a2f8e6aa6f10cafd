-- ===== src/Gateway/Server.antt =====
-- The peers of the TCP server thread of itc_gw.c: setup_tcp_server_peer,
-- handle_accept_new_connection and delete_tcp_peer_resource.
pub mod Invariant
pub mod Removal
pub mod Receive
use itc_framework.Base.{
  ℕ, ◌≡◌, Bool, true, false, Option, none, some, List, [], ◌∷◌, ◌++◌, if◌then◌else◌, map,
}
use itc_framework.Proto.{Name}
use itc_framework.Gateway.Tree.{Tree, leaf, tfind, tsearch, tdelete}
use itc_framework.Gateway.Peers.{
  TcpPeer, TcpPeers, addr_of, compare_addr, compare_sockfd, free_from, update_peer, no_addr,
  tcp_scheme, listening_port,
}

-- setup_tcp_server_peer, on a table of any size.
unfoldable pub setup_peers : TcpPeers → TcpPeers
setup_peers s = record s {
  peers = map {A = TcpPeer} (λ p. record p { fd = none; addr = no_addr }) s.peers;
}

-- What `accept` returns: a socket of a peer with a given IP address; EINTR; another error.
pub data Accepted : Type 0 where
  accepted : (fd : ℕ) (ip : Name) → Accepted
  interrupted : Accepted
  destroyed : Accepted

abbrev pub peer_addr : Name → Name
peer_addr ip = tcp_scheme ++ ip ++ listening_port

module _ (balance : Tree → Tree) where
  -- The free element `i` is filled in and put into the tree.
  unfoldable pub add : TcpPeers → (i : ℕ) (addr : Name) (fd : ℕ) → TcpPeers
  unfolding update_peer
  add s i addr fd =
      let ps = update_peer s.peers i (λ p. record p { addr = addr; fd = some fd }) in
      record { peers = ps; tree = tsearch balance (compare_addr ps (addr_of ps i)) i s.tree }

  -- The branch of handle_accept_new_connection for an address that is not in the tree.
  unfoldable pub take_slot : TcpPeers → Option ℕ → (addr : Name) (fd : ℕ) → Bool × TcpPeers
  take_slot s none addr fd = (false, s)
  take_slot s (some i) addr fd = (true, add s i addr fd)

  unfoldable pub handle_accept_new_connection : Accepted → TcpPeers → Bool × TcpPeers
  unfolding take_slot
  handle_accept_new_connection interrupted s = (true, s)
  handle_accept_new_connection destroyed s = (false, s)
  handle_accept_new_connection (accepted fd ip) s =
      elim (tfind (compare_addr s.peers (peer_addr ip)) s.tree) [
        | some i ↦ (true, s)
        | none ↦ take_slot s (free_from s.peers 0) (peer_addr ip) fd
      ]

  -- The part of delete_tcp_peer_resource behind its search, which found the element `i`. `sent` is
  -- what `itc_send` of the notice to the UDP thread returns.
  unfoldable pub release_peer : (sent : Bool) → TcpPeers → ℕ → Bool × TcpPeers
  unfolding update_peer
  release_peer sent s i =
      let ps = update_peer s.peers i (λ p. record p { fd = none }) in
      let t = tdelete balance (compare_addr ps (addr_of ps i)) s.tree in
      if sent
      then (true, record { peers = update_peer ps i (λ p. record p { addr = no_addr }); tree = t })
      else (false, record { peers = ps; tree = t })

  -- delete_tcp_peer_resource, with memory for the notice; also the address that is sent, if any.
  unfoldable pub delete_tcp_peer_resource :
      (sent : Bool) (sockfd : ℕ) → TcpPeers → Bool × TcpPeers × Option Name
  unfolding release_peer
  delete_tcp_peer_resource sent sockfd s = elim (tfind (compare_sockfd s.peers sockfd) s.tree) [
    | none ↦ (false, s, none)
    | some i ↦
        let (done, s') = release_peer sent s i in
        (done, s', (if sent then some (addr_of s.peers i) else none))
  ]
