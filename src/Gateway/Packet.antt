-- ===== src/Gateway/Packet.antt =====
-- The packets that itc_gw.c exchanges with other hosts: what handle_fwd_data_out,
-- handle_locate_mbox_request and send_locate_mbox_reply write, and how the receiving side takes a
-- packet apart.
pub mod Decode
use itc_framework.Base.{
  ℕ, zero, suc, ◌+◌, ◌-◌, ◌≡◌, Bool, true, false, Option, none, some, List, [], ◌∷◌, ◌++◌, leb, ltb,
  ◌==◌, ◌||◌, if◌then◌else◌, length, take, drop,
}
use itc_framework.Memory.{Message}
use itc_framework.Message.{stamp, at_least_msgno}
use itc_framework.Proto.{Name}
use itc_framework.Gateway.Wire.{store32, load32, htonl}
use itc_framework.Gateway.Stream.{Incoming, bytes, closed, broken, recv_data}

-- `struct itcgw_header`
pub record Header : Type 0 where
  pub sender : ℕ
  pub receiver : ℕ
  pub prot_rev : ℕ
  pub msgno : ℕ
  pub payload_len : ℕ

abbrev pub itcgw_itc_data_fwd : ℕ
itcgw_itc_data_fwd = 0x103

abbrev pub itcgw_locate_mbox_request : ℕ
itcgw_locate_mbox_request = 0x104

abbrev pub itcgw_locate_mbox_reply : ℕ
itcgw_locate_mbox_reply = 0x105

-- A word as it stands in a packet.
abbrev pub net32 : ℕ → List ℕ
net32 v = store32 (htonl v)

abbrev pub header_bytes : Header → List ℕ
header_bytes h =
    net32 h.sender
    ++ (net32 h.receiver ++ (net32 h.prot_rev ++ (net32 h.msgno ++ net32 h.payload_len)))

-- handle_fwd_data_out: the packet around the bytes of a message.
unfoldable pub data_fwd_packet : (pid : ℕ) (payload : List ℕ) → List ℕ
data_fwd_packet pid payload =
    header_bytes (record {
      sender = pid;
      receiver = 222;
      prot_rev = 15;
      msgno = itcgw_itc_data_fwd;
      payload_len = 8 + length payload;
    })
    ++ (net32 0 ++ (net32 (length payload) ++ payload))

-- handle_locate_mbox_request: the packet with a name and its null.
unfoldable pub locate_request_packet : (pid : ℕ) → Name → List ℕ
locate_request_packet pid name =
    header_bytes (record {
      sender = pid;
      receiver = 111;
      prot_rev = 15;
      msgno = itcgw_locate_mbox_request;
      payload_len = 4 + length name + 1;
    })
    ++ (net32 0 ++ (name ++ (0 ∷ [])))

-- send_locate_mbox_reply: the packet with an id.
unfoldable pub locate_reply_packet : (pid mbox_id : ℕ) → List ℕ
locate_reply_packet pid mbox_id =
    header_bytes (record {
      sender = pid;
      receiver = 111;
      prot_rev = 15;
      msgno = itcgw_locate_mbox_reply;
      payload_len = 8;
    })
    ++ (net32 0 ++ net32 mbox_id)

-- A word of a packet, turned into the host's order.
unfoldable pub ntoh : {A : Type 0} → List ℕ → (ℕ → List ℕ → Option A) → Option A
ntoh bs k = elim (load32 bs) [ none ↦ none | some (v, rest) ↦ k (htonl v) rest ]

-- The header that 20 received bytes hold.
unfoldable pub load_header : List ℕ → Option Header
unfolding ntoh
load_header bs = ntoh bs λ sender b. ntoh b λ receiver c. ntoh c λ prot_rev d. ntoh d λ msgno e.
    ntoh e λ len f. some (record {
      sender = sender;
      receiver = receiver;
      prot_rev = prot_rev;
      msgno = msgno;
      payload_len = len;
    })

-- A C string in a buffer. `none` is a buffer with no null.
unfoldable pub c_string : List ℕ → Option Name
c_string [] = none
c_string (b ∷ bs) =
    let rest = c_string bs in
    if b == 0 then some [] else elim rest [ none ↦ none | some s ↦ some (b ∷ s) ]

-- The memory of an itc_message, and the itc_message that some memory holds.
unfoldable pub flatten : Message → List ℕ
flatten m =
    store32 m.flags
    ++ (store32 m.receiver
        ++ (store32 m.sender ++ (store32 m.size ++ (store32 m.msgno ++ m.payload))))

unfoldable pub word_at : {A : Type 0} → List ℕ → (ℕ → List ℕ → Option A) → Option A
word_at bs k = elim (load32 bs) [ none ↦ none | some (v, rest) ↦ k v rest ]

unfoldable pub unflatten : List ℕ → Option Message
unfolding word_at
unflatten bs = word_at bs λ flags b. word_at b λ receiver c. word_at c λ sender d.
    word_at d λ size e. word_at e λ msgno f. some (record {
      flags = flags;
      receiver = receiver;
      sender = sender;
      size = size;
      msgno = msgno;
      payload = f;
    })

-- `memcpy` of the first `n` bytes of `from` to the front of a block. `none` is an access behind the
-- end of either.
unfoldable pub copy : (n : ℕ) (from block : List ℕ) → Option (List ℕ)
copy n from block =
    if ltb (length from) n || ltb (length block) n then none else some (take n from ++ drop n block)

-- handle_receive_data_fwd behind its recv_data: a message of its own for the bytes of the packet's
-- payload. `fresh` is what the memory that itc_alloc got holds; the pointer is used without a test.
unfoldable pub rebuild :
    (fresh : Option (List ℕ)) (payload_length : ℕ) (from : List ℕ) → Option Message
unfolding unflatten copy stamp
rebuild none n from = none
rebuild (some memory) n from = elim (unflatten from) [
  | none ↦ none
  | some head ↦
      let blank : Message = record {
        flags = 0;
        receiver = 0;
        sender = 0;
        size = 0;
        msgno = 0;
        payload = memory;
      } in
      let block = flatten (stamp blank (at_least_msgno head.size) head.msgno) in
      elim (copy n from block) [ none ↦ none | some copied ↦ unflatten copied ]
]

unfoldable pub open_data_fwd : (fresh : Option (List ℕ)) → List ℕ → Option Message
unfolding ntoh rebuild
open_data_fwd fresh bs =
    ntoh bs λ errorcode b. ntoh b λ payload_length from. rebuild fresh payload_length from
