-- ===== src/Alloc.antt =====
-- sw/itc/src/allocators/itc_malloc.c: the allocator of messages. `max_mallocsize`, its one global,
-- is passed along; `fresh` is what `malloc` returns.
use itc_framework.Base.{
  ℕ, ◌+◌, ◌-◌, none, some, ltb, ◌==◌, if◌then◌else◌, replicate, ℤ, pos, negsuc, sub_ℕ,
}
use itc_framework.Memory.{
  Ptr, null, Command, pure, ◌>>=◌, ◌>>◌, raise, load_message, put_message, itc_invalid_arguments,
  itc_syscall_error, itc_free_null_ptr,
}

-- `ITC_HEADER_SIZE`; the fields of `struct itc_message` take four bytes more, those of `msgno`.
abbrev pub itc_header_size : ℕ
itc_header_size = 16

-- The new value of `max_mallocsize`.
unfoldable pub init : (max : ℕ) → ℤ → Command ℕ
init max (negsuc n) = raise itc_invalid_arguments >> pure max
init max (pos n) = pure n

unfoldable pub exit : Command (Unit {0})
exit = pure tt

-- `size` counts the whole block. The block is zeroed; it holds the five fields and then bytes.
unfoldable pub alloc : (max : ℕ) (fresh : Ptr) (size : ℕ) → Command Ptr
alloc max fresh size =
    if ltb max size
    then raise itc_invalid_arguments >> pure null
    else if fresh == null
    then raise itc_syscall_error >> pure null
    else put_message fresh (
        some (record {
          flags = 0;
          receiver = 0;
          sender = 0;
          size = 0;
          msgno = 0;
          payload = replicate (size - 20) 0;
        }))
      >> pure fresh

-- The value that is left in `*message`. A pointer that leads to no message is freed twice.
unfoldable pub free : Ptr → Command Ptr
free message =
    if message == null
    then raise itc_free_null_ptr >> pure message
    else load_message message >>= λ _. put_message message none >> pure null

-- `max_msgsize` of the information that users get.
unfoldable pub getinfo : (max : ℕ) → ℤ
getinfo max = sub_ℕ max (itc_header_size + 1)
