-- ===== src/Mailbox/Forward.antt =====
-- handle_forward_itc_msg_to_itcgw of itc.c: a message for a mailbox on another host is packed into a
-- message to the gateway's TCP client.
use itc_framework.Base.{
  ℕ, ◌+◌, ◌%◌, ◌^◌, Bool, true, false, not, ◌||◌, Option, none, some, List, ltb, ◌==◌,
  if◌then◌else◌, length, take,
}
use itc_framework.Memory.{Message}
use itc_framework.Message.{itc_no_mbox_id}
use itc_framework.Proto.{Name}
use itc_framework.Gateway.Packet.{flatten}

abbrev pub itc_gateway_eth_packet_size : ℕ
itc_gateway_eth_packet_size = 1500

-- `struct itc_fwd_data_to_itcgws`, `payload_length` being the length of `payload`.
pub record FwdData : Type 0 where
  pub to_namespace : Name
  pub payload : List ℕ

-- What the calls come to: whether itc_alloc had memory, what itc_locate_sync of the gateway's
-- mailbox returns, and whether itc_send of the packed message succeeds.
pub record ForwardCalls : Type 0 where
  pub memory : Bool
  pub located : ℕ
  pub sent : Bool

-- The result, the message with its two ids filled in, `itcgw_mboxid`, and what was sent to that.
pub record Forwarded : Type 0 where
  pub result : Bool
  pub message : Message
  pub itcgw_mboxid : ℕ
  pub sent : Option FwdData

unfoldable pub pass_to_gateway : ForwardCalls → (itcgw_mboxid : ℕ) → Message → FwdData → Forwarded
pass_to_gateway io known m d =
    let gateway = if known == itc_no_mbox_id then io.located else known in
    if gateway == itc_no_mbox_id
    then record { result = false; message = m; itcgw_mboxid = gateway; sent = none }
    else if io.sent
    then record { result = true; message = m; itcgw_mboxid = gateway; sent = some d }
    else record { result = false; message = m; itcgw_mboxid = gateway; sent = none }

-- The sum of `size` and the header's size is one of 32-bit numbers. `none` is undefined behaviour:
-- the use of what itc_alloc returned where that is `NULL`, a namespace that is longer than its
-- array, or a read behind the message.
unfoldable pub handle_forward_itc_msg_to_itcgw :
    ForwardCalls → (my to itcgw_mboxid : ℕ) → Name → Message → Option Forwarded
unfolding pass_to_gateway
handle_forward_itc_msg_to_itcgw io my to known namespace m =
    let m' : Message = record m { sender = my; receiver = to } in
    let payload_len = (m.size + 16) % 2 ^ 32 in
    if ltb itc_gateway_eth_packet_size payload_len
    then some (record { result = false; message = m'; itcgw_mboxid = known; sent = none })
    else if not io.memory || ltb 255 (length namespace) || ltb (length (flatten m')) payload_len
    then none
    else some (
        pass_to_gateway io known m'
          (record { to_namespace = namespace; payload = take payload_len (flatten m') }))
