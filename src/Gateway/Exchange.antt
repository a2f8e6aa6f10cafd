-- ===== src/Gateway/Exchange.antt =====
-- The gateways of two hosts together: what the client thread of one sends, the server thread of the
-- other makes of it, and back.
pub mod Locate
use itc_framework.Base.{ℕ, ◌+◌, ◌≤◌, ◌≡◌, ◌≢◌, true, some, List, length, take}
use itc_framework.Memory.{Message}
use itc_framework.Message.{itc_no_mbox_id}
use itc_framework.Proto.{Name}
use itc_framework.Mailbox.Forward.{ForwardCalls}
use itc_framework.Gateway.Tree.{Tree, tfind}
use itc_framework.Gateway.Wire.{IsWord}
use itc_framework.Gateway.Stream.{Incoming, bytes, flow, recv_data}
use itc_framework.Gateway.Packet.{Header, header_bytes, flatten, data_fwd_packet}
use itc_framework.Gateway.Peers.{TcpPeers, fd_of, compare_namespace}
use itc_framework.Gateway.Effect.{Calls}
use itc_framework.Gateway.Server.Receive

-- A packet whose header is read first and gives the length of the rest.
record Split (h : Header) (rest more : List ℕ) (s : Incoming) : Type 0 where
  behind : Incoming
  last : Incoming
  first : recv_data 20 s ≡ some (bytes (header_bytes h), behind)
  second : recv_data h.payload_len behind ≡ some (bytes rest, last)
  left : flow last ≡ more

-- A process that can pass a message of `my` on to the gateway of its host: it knows the gateway's
-- mailbox, itc_alloc has memory and itc_send succeeds.
pub record CanForward (io : ForwardCalls) (itcgw_mboxid : ℕ) (namespace : Name) : Type 0 where
  pub known : itcgw_mboxid ≢ itc_no_mbox_id
  pub memory : io.memory ≡ true
  pub sent : io.sent ≡ true
  pub short : length namespace ≤ 255

-- A client thread whose search for the namespace finds a peer on the socket `fd`.
pub record Routes (io : Calls) (t : TcpPeers) (namespace : Name) (fd : ℕ) : Type 0 where
  pub peer : ℕ
  pub found : tfind (compare_namespace t.peers namespace) t.tree ≡ some peer
  pub socket : fd_of t.peers peer ≡ some fd
  pub memory : io.memory ≡ true
  pub sends : io.sends fd ≡ true
  pub pid : IsWord io.pid

-- A server thread with memory for a message with `n` bytes of user data, and whose itc_send to the
-- mailbox `to` succeeds.
pub record CanDeliver (io : Calls) (n to : ℕ) : Type 0 where
  pub memory : List ℕ
  pub fresh : io.fresh ≡ some memory
  pub room : length memory ≡ n + 1
  pub delivers : io.delivers to ≡ true

-- The message with its two ids filled in, and the packet that carries it.
abbrev pub addressed : (my to : ℕ) → Message → Message
addressed my to m = record m { sender = my; receiver = to }

abbrev pub packet_of : (pid : ℕ) → Message → List ℕ
packet_of pid m = data_fwd_packet pid (take (m.size + 16) (flatten m))
