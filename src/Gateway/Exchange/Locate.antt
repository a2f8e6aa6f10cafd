-- ===== src/Gateway/Exchange/Locate.antt =====
-- A search for a mailbox over the gateways of two hosts: handle_locate_mbox_request, the server of
-- the other host, and handle_receive_locate_mbox_reply of itc_gw.c.
use itc_framework.Base.{ℕ, ◌≡◌, ◌≢◌, true, some}
use itc_framework.Message.{itc_no_mbox_id}
use itc_framework.Proto.{Name}
use itc_framework.Gateway.Tree.{Tree, tfind}
use itc_framework.Gateway.Wire.{IsWord}
use itc_framework.Gateway.Peers.{compare_sockfd}
use itc_framework.Gateway.Effect.{Effect, Calls}
use itc_framework.Gateway.Client.{Client}
use itc_framework.Gateway.Server.Receive
use itc_framework.Gateway.Client.Receive as Reply

-- A server that knows the mailbox `name` of its host by the id `mbox_id`, and can send on `sockfd`.
pub record Knows (io : Calls) (sockfd mbox_id : ℕ) (name : Name) : Type 0 where
  pub found : io.locate name ≡ mbox_id
  pub some_mbox : mbox_id ≢ itc_no_mbox_id
  pub word : IsWord mbox_id
  pub pid : IsWord io.pid
  pub memory : io.memory ≡ true
  pub sends : io.sends sockfd ≡ true

-- A client that finds the peer of the socket `fd`, and the coordinator.
pub record Reports (io : Calls) (c : Client) (fd peer : ℕ) : Type 0 where
  pub peer_found : tfind (compare_sockfd c.table.peers fd) c.table.tree ≡ some peer
  pub pid : IsWord io.pid
  pub delivers : io.delivers c.itccoord_mbox_id ≡ true
