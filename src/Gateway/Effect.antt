-- ===== src/Gateway/Effect.antt =====
-- What the handlers of itc_gw.c do to the world outside their tables, and what its calls come to.
use itc_framework.Base.{ℕ, Bool, Option, List}
use itc_framework.Memory.{Message}
use itc_framework.Proto.{Name, Packet}

pub data Effect : Type 0 where
  -- `send` of a packet over a TCP socket
  to_socket : (fd : ℕ) (packet : List ℕ) → Effect
  -- `itc_send` of a message of the ITC system, of a message from another host, and of
  -- ITCGW_UDP_RMV_PEER to the UDP thread
  to_mailbox : (mbox_id : ℕ) (message : Packet) → Effect
  pass_on : (mbox_id : ℕ) (message : Message) → Effect
  remove_peer : (addr : Name) → Effect

-- What calls come to: `send` on a socket, `itc_send` to a mailbox, `malloc` of a packet, what the
-- memory that `itc_alloc` gets holds (`none` where it returns NULL), `itc_locate_sync` of a name,
-- and `getpid`.
pub record Calls : Type 0 where
  pub sends : ℕ → Bool
  pub delivers : ℕ → Bool
  pub memory : Bool
  pub fresh : Option (List ℕ)
  pub locate : Name → ℕ
  pub pid : ℕ
