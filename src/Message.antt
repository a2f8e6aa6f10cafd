-- ===== src/Message.antt =====
-- The message calls of sw/itc/src/itc.c: itc_alloc_zz, itc_free_zz, itc_sender_zz, itc_receiver_zz
-- and itc_size_zz. A `union itc_msg *` is named by the address of its `struct itc_message`: the
-- offset of `ITC_HEADER_SIZE` between the two, and the macros that add and subtract it, are left
-- out. `up` says that `itc_inst.mboxes` is not null.
pub mod Lifecycle
mod Tests
use itc_framework.Base.{
  ℕ, ◌+◌, ◌-◌, ◌*◌, ◌/◌, ◌%◌, ◌^◌, Bool, true, false, not, Option, none, some, bit_and, ltb, ◌==◌,
  if◌then◌else◌, get_elem?, set,
}
use itc_framework.Memory.{
  Ptr, null, Message, Heap, Outcome, fault, ended, Command, pure, ◌>>=◌, ◌>>◌, get_rc, load_message,
  put_message, itc_ok,
}
use itc_framework.Alloc

abbrev pub itc_no_mbox_id : ℕ
itc_no_mbox_id = 0xffffffff

-- `ITC_FLAGS_MSG_INRXQUEUE`
abbrev pub msg_in_rx_queue : ℕ
msg_in_rx_queue = 1

-- `ENDPOINT`
abbrev pub endpoint : ℕ
endpoint = 0xaa

-- `rc->flags = ITC_OK`
unfoldable pub reset_rc : Command (Unit {0})
reset_rc h = ended tt (record h { rc = itc_ok })

-- The byte at `offset` behind `&message->msgno`: of `msgno` itself, little-endian, or of what
-- follows it. `none` is outside the block.
unfoldable pub byte_at : Message → ℕ → Option ℕ
byte_at m offset =
    if ltb offset 4
    then some (m.msgno / 2 ^ (8 * offset) % 256)
    else get_elem? m.payload (offset - 4)

-- The fields that itc_alloc_zz fills in.
unfoldable pub stamp : Message → (size msgno : ℕ) → Message
stamp m size msgno = record m {
  msgno = msgno;
  sender = itc_no_mbox_id;
  receiver = itc_no_mbox_id;
  size = size % 2 ^ 32;
  flags = 0;
  payload = set m.payload (size - 4) endpoint;
}

-- `if(size < sizeof(msgno)) size = sizeof(msgno);`
abbrev pub at_least_msgno : ℕ → ℕ
at_least_msgno size = if ltb size 4 then 4 else size

-- itc_alloc_zz; `max` is the allocator's `max_mallocsize`, `fresh` what `malloc` returns.
pub alloc : (up : Bool) (max : ℕ) (fresh : Ptr) (size msgno : ℕ) → Command Ptr
unfolding stamp
alloc up max fresh size msgno = if not up then pure null else do
  reset_rc
  message ← Alloc.alloc max fresh ((at_least_msgno size + Alloc.itc_header_size + 1) % 2 ^ 64)
  reset_rc
  if message == null then pure null else do
    m ← load_message message
    put_message message (some (stamp m (at_least_msgno size) msgno))
    pure message

-- The last part of itc_free_zz, once the message has passed its checks.
release : Ptr → Command Bool
release msg = do reset_rc; Alloc.free msg; rc ← get_rc; pure (rc == itc_ok)

checked : Ptr → Message → Command Bool
unfolding release byte_at
checked msg m =
    if not (bit_and m.flags msg_in_rx_queue == 0) then pure false else elim (byte_at m m.size) [
      | none ↦ λ _. fault
      | some b ↦ if not (b == endpoint) then pure false else release msg
    ]

-- itc_free_zz: whether the message was freed.
pub free : (up : Bool) → Ptr → Command Bool
unfolding checked
free up msg =
    if not up
    then pure false
    else if msg == null
    then pure false
    else load_message msg >>= checked msg

-- itc_sender_zz, itc_receiver_zz and itc_size_zz
pub sender : Ptr → Command ℕ
sender msg = if msg == null then pure itc_no_mbox_id else load_message msg >>= λ m. pure m.sender

pub receiver : Ptr → Command ℕ
receiver msg =
    if msg == null then pure itc_no_mbox_id else load_message msg >>= λ m. pure m.receiver

pub size : Ptr → Command ℕ
size msg = if msg == null then pure 0 else load_message msg >>= λ m. pure m.size
