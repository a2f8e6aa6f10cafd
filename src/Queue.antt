-- ===== src/Queue.antt =====
-- sw/itc/src/helpers/itc_queue.c over the explicit memory. A `struct itc_queue` is a value here: a
-- function that updates one returns it. Locking is left out, a call being one step. A loop runs on
-- fuel, one round for each node and one more.
pub mod Shape
pub mod Fifo
pub mod Remove
pub mod Drain
pub mod Refine
mod Tests
use itc_framework.Base.{
  ℕ, zero, suc, ◌+◌, ◌-◌, ◌%◌, ◌^◌, Bool, not, Option, none, some, ◌==◌, ltb, if◌then◌else◌,
}
use itc_framework.Memory.{
  Ptr, null, node, Command, out_of_fuel, pure, ◌>>=◌, ◌>>◌, put_node, raise, clear_flag, get_rc,
  load, set_next, set_prev, free_node, itc_ok, itc_queue_null, itc_queue_empty, itc_free_null_ptr,
  itc_syscall_error,
}

-- `struct itc_queue`, without its mutex.
pub record Queue : Type 0 where
  pub head : Ptr
  pub tail : Ptr
  pub search : Ptr
  pub size : ℕ

-- `uint32_t` increment and decrement.
abbrev pub inc32 : ℕ → ℕ
inc32 n = (n + 1) % 2 ^ 32

abbrev pub dec32 : ℕ → ℕ
dec32 n = (n + 2 ^ 32 - 1) % 2 ^ 32

-- `q_init`; the arguments are what the two `malloc` calls and `pthread_mutex_init` return.
pub init : (queue mutex : Ptr) (ret : ℕ) → Command (Option Queue)
init queue mutex ret =
    if queue == null
    then raise itc_syscall_error >> pure none
    else if mutex == null
    then raise itc_syscall_error >> pure none
    else if not (ret == 0)
    then raise itc_syscall_error >> pure none
    else pure (some (record { head = null; tail = null; search = null; size = 0 }))

-- `q_createnode`; `fresh` is what `malloc` returns.
pub create_node : (fresh : Ptr) → Ptr → Command Ptr
create_node fresh item =
    if fresh == null
    then raise itc_syscall_error >> pure null
    else put_node fresh (some (node null null item)) >> pure fresh

-- `q_removenode`: the value that it leaves in `*node`.
pub remove_node : Ptr → Command Ptr
remove_node p = if p == null then raise itc_free_null_ptr >> pure p else free_node p >> pure null

pub enqueue : (fresh : Ptr) → Queue → Ptr → Command Queue
unfolding create_node
enqueue fresh q item = do
  new_node ← create_node fresh item
  rc ← get_rc
  if not (rc == itc_ok)
      then pure q
      else if q.tail == null
      then pure (record q { head = new_node; tail = new_node; size = inc32 q.size })
      else do
        set_next q.tail new_node
        set_prev new_node q.tail
        pure (record q { tail = new_node; size = inc32 q.size })

-- `q_dequeue` on the last node, and on a list of several.
take_only : Queue → Ptr → Command (Ptr × Queue)
unfolding remove_node
take_only q item = do
  remove_node q.head
  pure (item, record q { head = null; tail = null; size = dec32 q.size })

take_first : Queue → (next item : Ptr) → Command (Ptr × Queue)
unfolding remove_node
take_first q next item = do
  m ← load next
  p ← remove_node m.prev
  set_prev next p
  pure (item, record q { head = next; size = dec32 q.size })

pub dequeue : Queue → Command (Ptr × Queue)
unfolding take_only take_first
dequeue q = if q.head == null then raise itc_queue_empty >> pure (null, q) else do
  n ← load q.head
  if q.head == q.tail then take_only q n.item else take_first q n.next n.item

-- The search of `q_remove`: the first node that carries `item`, or `NULL`.
pub find : ℕ → Ptr → Ptr → Command Ptr
find zero iter item = λ _. out_of_fuel
find (suc k) iter item =
    if iter == null
    then pure null
    else do n ← load iter; if n.item == item then pure iter else find k n.next item

-- The ways in which `q_remove` takes the node at `iter` out of the list.
unlink_first : Queue → (next : Ptr) → Command Queue
unlink_first q next =
    if q.size == 1
    then pure (record q { head = null; tail = null })
    else set_prev next null >> pure (record q { head = next })

unlink_last : Queue → (prev : Ptr) → Command Queue
unlink_last q prev = set_next prev null >> pure (record q { tail = prev })

unlink_middle : Queue → (prev next : Ptr) → Command Queue
unlink_middle q prev next = do set_next prev next; set_prev next prev; pure q

pub unlink : Queue → Ptr → Command Queue
unfolding unlink_first unlink_last unlink_middle
unlink q iter = do
  n ← load iter
  if iter == q.head
      then unlink_first q n.next
      else if iter == q.tail
      then unlink_last q n.prev
      else unlink_middle q n.prev n.next

pub detach : Queue → Ptr → Command Queue
unfolding unlink remove_node
detach q iter = do q' ← unlink q iter; remove_node iter; pure (record q' { size = dec32 q'.size })

pub remove : Queue → Ptr → Command Queue
remove q item = do
  iter ← find (q.size + 1) q.head item
  if iter == null then pure q else detach q iter

-- `while((data = q_dequeue(rc, q)) != NULL)`, of `q_clear` and `q_exit`.
pub drain : ℕ → Queue → Command Queue
drain zero q = λ _. out_of_fuel
drain (suc k) q = do (item, q') ← dequeue q; if item == null then pure q' else drain k q'

pub clear : Option Queue → Command (Option Queue)
clear none = raise itc_queue_null >> pure none
clear (some q) =
    if ltb 0 q.size then drain (q.size + 1) q >>= (λ q'. pure (some q')) else pure (some q)

-- `q_exit`; `ret` is what `pthread_mutex_destroy` returns. The queue itself is given back.
pub exit : (ret : ℕ) → Option Queue → Command (Unit {0})
exit ret none = raise itc_queue_null
exit ret (some q) = do
  (if ltb 0 q.size then drain (q.size + 1) q else pure q)
  clear_flag itc_queue_empty
  if not (ret == 0) then raise itc_syscall_error else pure tt
