-- ===== src/Gateway/Udp.antt =====
-- The UDP part of itc_gw.c: the greeting that gateways broadcast, the peers that are known by it,
-- and the messages to the UDP thread.
pub mod Broadcast
pub mod Notice
pub mod Removal
mod Tests
use itc_framework.Base.{
  ℕ, ◌+◌, Bool, true, false, Option, none, some, List, [], ◌∷◌, ◌++◌, ltb, leb, if◌then◌else◌,
  length, take, drop, get_elem?, set, map,
}
use itc_framework.Proto.{Name, same_name}
use itc_framework.Gateway.Tree.{Tree, Comparison, tfind, tsearch, tdelete}
use itc_framework.Gateway.Peers.{strcmp, no_addr, tcp_scheme}
use itc_framework.Gateway.Packet.{c_string}
use itc_framework.Gateway.Text.{
  codes, print_hu, expect, read_until, read_hu, Scanned, scanned, mismatch, fault,
}

-- `udp_peers` and `udp_tree`
pub record UdpPeers : Type 0 where
  pub addrs : List Name
  pub tree : Tree

abbrev pub addr_at : List Name → ℕ → Name
addr_at table i = elim (get_elem? table i) [ none ↦ [] | some a ↦ a ]

-- compare_addr_udp_tree; compare_peer_udp_tree of the peer at `i` has the key `addr_at table i`.
abbrev pub compare_addr : List Name → Name → Comparison
compare_addr table key i = strcmp key (addr_at table i)

-- The part of setup_udp_peer for the table, of any size.
unfoldable pub setup_peers : UdpPeers → UdpPeers
setup_peers u = record u { addrs = map {A = Name} (λ a. no_addr) u.addrs }

abbrev pub greeting_front : Name
greeting_front = codes "Broadcast Message: ITCGW from host <"

abbrev pub greeting_middle : Name
greeting_middle = codes "> listening on tcp://"

-- create_broadcast_message
unfoldable pub create_broadcast_message : (namespace ip : Name) (port : ℕ) → Name
create_broadcast_message namespace ip port =
    take 509
      (greeting_front ++ (namespace ++ (greeting_middle ++ (ip ++ (58 ∷ print_hu port (47 ∷ []))))))

-- What the `sscanf` of handle_receive_broadcast_msg reads. Where it stops before the last field the
-- variables are used as they are, which is undefined behaviour, as is a field that is too long.
pub record Greeting : Type 0 where
  pub namespace : Name
  pub tcp_ip : Name
  pub tcp_port : ℕ

abbrev pub with_field : {A : Type 0} → Scanned A → (A → Name → Option Greeting) → Option Greeting
with_field mismatch k = none
with_field fault k = none
with_field (scanned a rest) k = k a rest

abbrev pub with_text : Option Name → (Name → Option Greeting) → Option Greeting
with_text none k = none
with_text (some rest) k = k rest

unfoldable pub scan_greeting : Name → Option Greeting
scan_greeting s = with_text (expect greeting_front s) λ s1.
    with_field (read_until 62 255 s1) λ namespace s2. with_text (expect greeting_middle s2) λ s3.
      with_field (read_until 58 25 s3) λ ip s4. with_text (expect (58 ∷ []) s4) λ s5.
        with_field (read_hu s5)
          λ port s6. some (record { namespace = namespace; tcp_ip = ip; tcp_port = port })

-- `snprintf(m_addr, 40, "tcp://%s:%hu/", ...)`
abbrev pub tcp_addr : Name → ℕ → Name
tcp_addr ip port = take 39 (tcp_scheme ++ (ip ++ (58 ∷ print_hu port (47 ∷ []))))

-- The search for the first element that holds "NO_ADDR", from the index `i` on.
unfoldable pub free_from : List Name → (i : ℕ) → Option ℕ
free_from [] i = none
free_from (a ∷ table) i =
    let rest = free_from table (i + 1) in if same_name a no_addr then some i else rest

-- `strcpy` into a block at an offset. `none` is a write behind its end.
unfoldable pub strcpy_at : (offset : ℕ) → Name → (block : List ℕ) → Option (List ℕ)
strcpy_at offset s block =
    let t = s ++ (0 ∷ []) in
    if ltb (length block) (offset + length t)
    then none
    else some (take offset block ++ (t ++ drop (offset + length t) block))

-- The two members of ITCGW_UDP_ADD_PEER, at the offsets that its `char addr[25]` gives, in a block
-- from itc_alloc.
unfoldable pub fill_add_peer : (block : List ℕ) (addr namespace : Name) → Option (List ℕ)
unfolding strcpy_at
fill_add_peer block addr namespace = elim (strcpy_at 4 addr block) [
  | none ↦ none
  | some b ↦ strcpy_at 29 namespace b
]

-- How handle_receive_itcmsg_at_client reads them.
unfoldable pub read_add_peer : (block : List ℕ) → Option Name × Option Name
read_add_peer block = (c_string (drop 4 block), c_string (drop 29 block))

-- What the UDP thread does to the world: ITCGW_UDP_ADD_PEER to the TCP client, the greeting
-- broadcast, ITC_GET_NAMESPACE_REPLY.
pub data Effect : Type 0 where
  add_peer : (block : List ℕ) → Effect
  broadcast : Effect
  namespace_reply : (mbox_id : ℕ) (namespace : Name) → Effect

-- What `recvfrom` returns.
pub data Datagram : Type 0 where
  datagram : List ℕ → Datagram
  no_datagram : Datagram

-- The memory of the message for a namespace of that many characters (`none` where itc_alloc returns
-- `NULL`, which is used), and whether `itc_send` and `sendto` succeed.
pub record Calls : Type 0 where
  pub memory : ℕ → Option (List ℕ)
  pub delivers : Bool
  pub sends : Bool

-- The last part of handle_receive_broadcast_msg: the TCP client is told, and the greeting sent.
unfoldable pub tell_client :
    Calls → (addr namespace : Name) → UdpPeers → Option (Bool × UdpPeers × List Effect)
unfolding fill_add_peer
tell_client io addr namespace u = elim (io.memory (length namespace)) [
  | none ↦ none
  | some block ↦ elim (fill_add_peer block addr namespace) [
    | none ↦ none
    | some b ↦
        if io.delivers
        then if io.sends
          then some (true, u, add_peer b ∷ broadcast ∷ [])
          else some (false, u, add_peer b ∷ [])
        else some (false, u, [])
  ]
]

module _ (balance : Tree → Tree) where
  unfoldable pub add : UdpPeers → (i : ℕ) → Name → UdpPeers
  add u i addr =
      let table = set u.addrs i addr in
      record {
        addrs = table;
        tree = tsearch balance (compare_addr table (addr_at table i)) i u.tree;
      }

  unfoldable pub greet : Calls → Greeting → UdpPeers → Option (Bool × UdpPeers × List Effect)
  unfolding add tell_client
  greet io g u =
      let addr = tcp_addr g.tcp_ip g.tcp_port in
      elim (tfind (compare_addr u.addrs addr) u.tree) [
        | some i ↦ some (true, u, [])
        | none ↦ elim (free_from u.addrs 0) [
          | none ↦ some (false, u, [])
          | some i ↦ tell_client io addr g.namespace (add u i addr)
        ]
      ]

  -- The buffer has 1500 bytes, and a null is written behind what was received. `none` is undefined
  -- behaviour.
  unfoldable pub handle_receive_broadcast_msg :
      Calls → Datagram → UdpPeers → Option (Bool × UdpPeers × List Effect)
  unfolding greet scan_greeting
  handle_receive_broadcast_msg io no_datagram u = some (false, u, [])
  handle_receive_broadcast_msg io (datagram bs) u =
      if leb 1500 (length bs) then none else elim (c_string (bs ++ (0 ∷ []))) [
        | none ↦ none
        | some text ↦ elim (scan_greeting text) [ none ↦ none | some g ↦ greet io g u ]
      ]

  unfoldable pub handle_udp_rmv_peer : Name → UdpPeers → Bool × UdpPeers
  handle_udp_rmv_peer addr u = elim (tfind (compare_addr u.addrs addr) u.tree) [
    | none ↦ (false, u)
    | some i ↦
        let table = set u.addrs i no_addr in
        (
          true,
          record {
            addrs = table;
            tree = tdelete balance (compare_addr table (addr_at table i)) u.tree;
          },
        )
  ]

-- The messages that handle_receive_itcmsg_at_udp tells apart.
pub data Request : Type 0 where
  udp_rmv_peer : (addr : Name) → Request
  get_namespace_request : (mbox_id : ℕ) → Request
  other : Request

-- handle_udp_get_namespace_request, with memory for the reply
unfoldable pub handle_udp_get_namespace_request :
    Calls → (namespace : Name) (mbox_id : ℕ) → Bool × List Effect
handle_udp_get_namespace_request io namespace mbox_id =
    if io.delivers then (true, namespace_reply mbox_id namespace ∷ []) else (false, [])

unfoldable pub handle_receive_itcmsg_at_udp :
    (Tree → Tree)
    → Calls
    → (namespace : Name) (received : Option Request) → UdpPeers
    → Bool × UdpPeers × List Effect
handle_receive_itcmsg_at_udp balance io namespace none u = (false, u, [])
handle_receive_itcmsg_at_udp balance io namespace (some (udp_rmv_peer addr)) u =
    (true, (handle_udp_rmv_peer balance addr u).1, [])
handle_receive_itcmsg_at_udp balance io namespace (some (get_namespace_request mbox_id)) u =
    (true, u, (handle_udp_get_namespace_request io namespace mbox_id).1)
handle_receive_itcmsg_at_udp balance io namespace (some other) u = (true, u, [])
