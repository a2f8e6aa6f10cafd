-- ===== src/Gateway/Peers.antt =====
-- The tables of TCP peers in itc_gw.c, of the server thread and of the client thread, each with its
-- search tree of pointers into the table, and the comparison functions of the trees.
pub mod Strcmp
pub mod Order
pub mod Table
use Prim.Native.Nat.{compare, Ordering}
use itc_framework.Base.{
  ℕ, ◌+◌, ◌≡◌, Bool, true, false, Option, none, some, List, [], ◌∷◌, ◌++◌, if◌then◌else◌, is_some,
  get_elem?, set,
}
use itc_framework.Proto.{Name}
use itc_framework.Gateway.Tree.{Tree, Comparison}

-- `struct tcp_peer_info`; an `fd` of -1 is none.
pub record TcpPeer : Type 0 where
  pub addr : Name
  pub fd : Option ℕ
  pub namespace : Name

-- `tcp_server_peers` and `tcp_server_tree`, or the client's two.
pub record TcpPeers : Type 0 where
  pub peers : List TcpPeer
  pub tree : Tree

-- `strcmp`, as the sign of its result.
unfoldable pub strcmp : Name → Name → Ordering
strcmp [] [] = Ordering.eq
strcmp [] (b ∷ ys) = Ordering.lt
strcmp (a ∷ xs) [] = Ordering.gt
strcmp (a ∷ xs) (b ∷ ys) = elim (compare a b) [
  | Ordering.lt ↦ Ordering.lt
  | Ordering.eq ↦ strcmp xs ys
  | Ordering.gt ↦ Ordering.gt
]

-- The members of an element. Behind the table there is none.
abbrev pub addr_of : List TcpPeer → ℕ → Name
addr_of ps i = elim (get_elem? ps i) [ none ↦ [] | some p ↦ p.addr ]

abbrev pub fd_of : List TcpPeer → ℕ → Option ℕ
fd_of ps i = elim (get_elem? ps i) [ none ↦ none | some p ↦ p.fd ]

abbrev pub namespace_of : List TcpPeer → ℕ → Name
namespace_of ps i = elim (get_elem? ps i) [ none ↦ [] | some p ↦ p.namespace ]

-- compare_addr_tcp_tree; compare_peer_tcp_tree of the peer at `i` has the key `addr_of ps i`.
abbrev pub compare_addr : List TcpPeer → Name → Comparison
compare_addr ps key i = strcmp key (addr_of ps i)

-- compare_namespace_tcp_tree
abbrev pub compare_namespace : List TcpPeer → Name → Comparison
compare_namespace ps key i = strcmp key (namespace_of ps i)

-- compare_sockfd_tcp_tree, for a key that is no -1
abbrev pub compare_sockfd : List TcpPeer → ℕ → Comparison
compare_sockfd ps key i = elim (fd_of ps i) [ none ↦ Ordering.gt | some d ↦ compare key d ]

-- The search for the first element whose `fd` is -1, from the index `i` on.
unfoldable pub free_from : List TcpPeer → (i : ℕ) → Option ℕ
free_from [] i = none
free_from (p ∷ ps) i = let rest = free_from ps (i + 1) in if is_some p.fd then rest else some i

unfoldable pub update_peer : List TcpPeer → ℕ → (TcpPeer → TcpPeer) → List TcpPeer
update_peer ps i f = elim (get_elem? ps i) [ none ↦ ps | some p ↦ set ps i (f p) ]

-- "NO_ADDR", "tcp://" and ":22222/"
abbrev pub no_addr : Name
no_addr = 78 ∷ 79 ∷ 95 ∷ 65 ∷ 68 ∷ 68 ∷ 82 ∷ []

abbrev pub tcp_scheme : Name
tcp_scheme = 116 ∷ 99 ∷ 112 ∷ 58 ∷ 47 ∷ 47 ∷ []

abbrev pub listening_port : Name
listening_port = 58 ∷ 50 ∷ 50 ∷ 50 ∷ 50 ∷ 50 ∷ 47 ∷ []
