-- ===== src/Rxq.antt =====
-- The rx queue of sw/itc/src/transporters/itc_local.c: init_queue, enqueue_message,
-- dequeue_message, remove_message_fromqueue and their helpers, over the explicit memory. The
-- `struct rxqueue` is a value, and `fresh` is what `malloc` returns.
pub mod Shape
pub mod Fifo
pub mod Removal
pub mod Middle
mod Tests
use itc_framework.Base.{
  ℕ, zero, suc, ◌-◌, Bool, not, Option, none, some, bit_and, bit_or, ◌==◌, if◌then◌else◌,
}
use itc_framework.Memory.{
  Ptr, null, node, Command, out_of_fuel, pure, ◌>>=◌, ◌>>◌, put_node, raise, get_rc, load, set_next,
  set_prev, free_node, load_message, put_message, itc_ok, itc_queue_empty, itc_free_null_ptr,
  itc_syscall_error,
}
use itc_framework.Message.{msg_in_rx_queue}

-- `struct rxqueue`
pub record RxQueue : Type 0 where
  pub head : Ptr
  pub tail : Ptr
  pub find : Ptr

unfoldable pub init_queue : (fresh : Ptr) → Command (Option RxQueue)
init_queue fresh =
    if fresh == null
    then raise itc_syscall_error >> pure none
    else pure (some (record { head = null; tail = null; find = null }))

-- `message->flags |= ITC_FLAGS_MSG_INRXQUEUE`, and the flag taken back, on 32 bits.
pub mark : Ptr → Command (Unit {0})
mark p = do
  m ← load_message p
  put_message p (some (record m { flags = bit_or m.flags msg_in_rx_queue }))

pub unmark : Ptr → Command (Unit {0})
unmark p = do
  m ← load_message p
  put_message p (some (record m { flags = bit_and m.flags (0xffffffff - msg_in_rx_queue) }))

create_qitem : (fresh : Ptr) → Ptr → Command Ptr
create_qitem fresh message =
    if fresh == null
    then raise itc_syscall_error >> pure null
    else put_node fresh (some (node null null message)) >> pure fresh

-- The value that remove_qitem leaves in `*qitem`.
remove_qitem : Ptr → Command Ptr
remove_qitem p = if p == null then raise itc_free_null_ptr >> pure p else free_node p >> pure null

-- The part of enqueue_message that links the new node in.
link_qitem : RxQueue → Ptr → Command RxQueue
link_qitem q item =
    if q.tail == null
    then pure (record q { head = item; tail = item })
    else do set_next q.tail item; set_prev item q.tail; pure (record q { tail = item })

pub enqueue_message : (fresh : Ptr) → RxQueue → Ptr → Command RxQueue
unfolding create_qitem link_qitem
enqueue_message fresh q message = do
  item ← create_qitem fresh message
  rc ← get_rc
  if not (rc == itc_ok) then pure q else do q' ← link_qitem q item; mark message; pure q'

-- dequeue_message on the last node, and on a list of several.
take_only : RxQueue → Command RxQueue
unfolding remove_qitem
take_only q = remove_qitem q.head >> pure (record q { head = null; tail = null })

take_first : RxQueue → (next : Ptr) → Command RxQueue
unfolding remove_qitem
take_first q next = do
  m ← load next
  p ← remove_qitem m.prev
  set_prev next p
  pure (record q { head = next })

pub dequeue_message : RxQueue → Command (Ptr × RxQueue)
unfolding take_only take_first
dequeue_message q = if q.head == null then raise itc_queue_empty >> pure (null, q) else do
  n ← load q.head
  q' ← (if q.head == q.tail then take_only q else take_first q n.next)
  unmark n.item
  pure (n.item, q')

-- The search of remove_message_fromqueue: the node of the message, or `NULL`, and the node before.
pub find : ℕ → (iter prev message : Ptr) → Command (Ptr × Ptr)
find zero iter prev message = λ _. out_of_fuel
find (suc k) iter prev message = if iter == null then pure (null, prev) else do
  n ← load iter
  if n.item == message then pure (iter, prev) else find k n.next iter message

-- What remove_message_fromqueue does with the links, once the node is found.
pub bypass : RxQueue → (iter prev next : Ptr) → Command RxQueue
bypass q iter prev next =
    if iter == q.head
    then pure (record q { head = next; tail = if next == null then null else q.tail })
    else set_next prev next >> pure (record q { tail = if q.tail == iter then prev else q.tail })

take_out : RxQueue → (iter prev : Ptr) → Command (Ptr × RxQueue)
unfolding bypass remove_qitem
take_out q iter prev = do
  n ← load iter
  q' ← bypass q iter prev n.next
  unmark n.item
  remove_qitem iter
  pure (n.item, q')

-- remove_message_fromqueue; `fuel` bounds the rounds of its search.
pub remove_message : (fuel : ℕ) → RxQueue → Ptr → Command (Ptr × RxQueue)
unfolding take_out
remove_message fuel q message = do
  (iter, prev) ← find fuel q.head null message
  if iter == null then raise itc_queue_empty >> pure (null, q) else take_out q iter prev
