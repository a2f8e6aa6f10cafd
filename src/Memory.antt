-- ===== src/Memory.antt =====
-- The memory that the C code works on: queue nodes and messages at addresses, the thread's return
-- code, and commands over them (itc_impl.h and itc_queue.h).
pub mod Chain
pub mod Access
pub mod Items
pub mod Update
pub mod Returns
use itc_framework.Base.{ℕ, ◌-◌, Option, none, some, List, bit_and, bit_or, ◌==◌, if◌then◌else◌}

abbrev pub Ptr : Type 0
Ptr = ℕ

abbrev pub null : Ptr
null = 0

-- `struct itcq_node` and `struct llqueue_item`: two links and the pointer that the node carries.
pub record Node : Type 0 where
  pub next : Ptr
  pub prev : Ptr
  pub item : Ptr

abbrev pub node : Ptr → Ptr → Ptr → Node
node n p x = record { next = n; prev = p; item = x }

-- `struct itc_message`. `payload` is what stands behind `msgno`, the endpoint byte included.
pub record Message : Type 0 where
  pub flags : ℕ
  pub receiver : ℕ
  pub sender : ℕ
  pub size : ℕ
  pub msgno : ℕ
  pub payload : List ℕ

-- `rc` is `rc->flags` of the calling thread.
pub record Heap : Type 0 where
  pub nodes : Ptr → Option Node
  pub messages : Ptr → Option Message
  pub rc : ℕ

-- `fault` is undefined behaviour: an access through a pointer to nothing, or a double free.
pub data Outcome (A : Type 0) : Type 0 where
  fault : Outcome A
  out_of_fuel : Outcome A
  ended : A → Heap → Outcome A

abbrev pub Command : Type 0 → Type 0
Command A = Heap → Outcome A

abbrev pub pure : {A : Type 0} → A → Command A
pure = ended

module _ {A B : Type 0} where
  abbrev pub continue_with : Outcome A → (A → Command B) → Outcome B
  continue_with fault k = fault
  continue_with out_of_fuel k = out_of_fuel
  continue_with (ended a h) k = k a h

  infixl 5 ◌>>=◌ ◌>>◌
  abbrev pub ◌>>=◌ : Command A → (A → Command B) → Command B
  m >>= k = λ h. continue_with (m h) k

  abbrev pub ◌>>◌ : Command A → Command B → Command B
  m >> k = m >>= λ _. k

abbrev pub update : {A : Type 0} → (Ptr → Option A) → Ptr → Option A → Ptr → Option A
update f p c a = if a == p then c else f a

-- `ITC_OK` and the flags of `result_code_e`.
abbrev pub itc_ok : ℕ
itc_ok = 0

abbrev pub itc_already_used : ℕ
itc_already_used = 0b1

abbrev pub itc_already_init : ℕ
itc_already_init = 0b10

abbrev pub itc_not_init_yet : ℕ
itc_not_init_yet = 0b100

abbrev pub itc_queue_null : ℕ
itc_queue_null = 0b1000

abbrev pub itc_queue_empty : ℕ
itc_queue_empty = 0b10000

abbrev pub itc_not_this_proc : ℕ
itc_not_this_proc = 0b100000

abbrev pub itc_out_of_range : ℕ
itc_out_of_range = 0b1000000

abbrev pub itc_not_del_all_mbox : ℕ
itc_not_del_all_mbox = 0b10000000

abbrev pub itc_free_null_ptr : ℕ
itc_free_null_ptr = 0b1000000000

abbrev pub itc_invalid_arguments : ℕ
itc_invalid_arguments = 0b10000000000

abbrev pub itc_syscall_error : ℕ
itc_syscall_error = 0b100000000000

-- `rc->flags |= f`
unfoldable pub raise : ℕ → Command (Unit {0})
raise f h = ended tt (record h { rc = bit_or h.rc f })

-- `rc->flags &= ~f`, on 32 bits
unfoldable pub clear_flag : ℕ → Command (Unit {0})
clear_flag f h = ended tt (record h { rc = bit_and h.rc (0xffffffff - f) })

-- `rc->flags`
unfoldable pub get_rc : Command ℕ
get_rc h = ended h.rc h

-- `*p` for a node: a fault at `NULL` and at an address that holds no node.
unfoldable pub load : Ptr → Command Node
load p h = if p == null then fault else elim (h.nodes p) [ none ↦ fault | some n ↦ ended n h ]

-- The raw write of a node; `none` gives the address back.
abbrev pub put_node : Ptr → Option Node → Command (Unit {0})
put_node p c h = ended tt (record h { nodes = update h.nodes p c })

-- `p->next = q`
unfoldable pub set_next : Ptr → Ptr → Command (Unit {0})
set_next p q = do n ← load p; put_node p (some (record n { next = q }))

-- `p->prev = q`
unfoldable pub set_prev : Ptr → Ptr → Command (Unit {0})
set_prev p q = do n ← load p; put_node p (some (record n { prev = q }))

-- `free(p)` for a node; `p` is not `NULL` where the code calls it.
unfoldable pub free_node : Ptr → Command (Unit {0})
free_node p = load p >> put_node p none

-- `message->flags`, and a write of it.
unfoldable pub load_message : Ptr → Command Message
load_message p h =
    if p == null then fault else elim (h.messages p) [ none ↦ fault | some m ↦ ended m h ]

abbrev pub put_message : Ptr → Option Message → Command (Unit {0})
put_message p c h = ended tt (record h { messages = update h.messages p c })
