-- ===== src/Mailbox/Lookup.antt =====
-- itc_locate_sync_zz, itc_get_namespace_zz and mailbox_destructor_at_thread_exit of itc.c: the calls
-- that are made of itc_send_zz, itc_receive_zz and itc_delete_mailbox_zz.
pub mod Found
pub mod Ends
mod Tests
use itc_framework.Base.{
  ℕ, zero, suc, ◌+◌, ◌-◌, ◌^◌, Bool, true, false, not, Option, none, some, List, [], ◌∷◌, ◌==◌,
  ◌&&◌, if◌then◌else◌, is_some, ℤ, pos, negsuc, length,
}
use itc_framework.Message.{itc_no_mbox_id}
use itc_framework.Proto.{
  Name, Packet, notify_coord_add_mbox, notify_coord_rmv_mbox, locate_mbox_sync_request,
  locate_mbox_sync_reply, locate_mbox_from_itcgws_request, locate_mbox_from_itcgws_reply,
  get_namespace_request, get_namespace_reply, user_message,
}
use itc_framework.Gateway.Text.{codes}
use itc_framework.Mailbox.{
  EventFd, Envelope, Transport, Mailbox, Process, mailbox_at, my_mailbox, locate_local_mbox,
}
use itc_framework.Mailbox.Calls.{
  itc_my_mbox_id, Timeout, no_wait, forever, timed, Wake, send, receive,
}
use itc_framework.Mailbox.Life.{LifeCalls, delete_mailbox}

-- The `int32_t` of a timeout. For the negative numbers that are no ITC_WAIT_FOREVER, itc_receive_zz
-- waits until a time that it has not set.
unfoldable pub timeout_of : ℤ → Timeout
timeout_of (pos zero) = no_wait
timeout_of (pos (suc n)) = timed (suc n)
timeout_of (negsuc zero) = forever
timeout_of (negsuc (suc n)) = timed 0

-- What itc_locate_sync_zz returns, and what it writes to `is_external` and `ns`, if anything.
pub record Located : Type 0 where
  pub mbox_id : ℕ
  pub written : Option (Bool × Name)

abbrev pub nowhere : Located
nowhere = record { mbox_id = itc_no_mbox_id; written = none }

abbrev pub located :
    (find_only_internal : Bool) (mbox_id : ℕ) (is_external : Bool) (namespace : Name) → Located
located only id is_external namespace = record {
  mbox_id = id;
  written = if only then none else some (is_external, namespace);
}

-- `return false` where no message came, and the switch on the one that came.
unfoldable pub read_reply : (find_only_internal : Bool) → Option Packet → Located
read_reply only none = record { mbox_id = 0; written = none }
read_reply only (some (locate_mbox_sync_reply id pid is_external namespace)) =
    located only id is_external namespace
read_reply only (some (notify_coord_add_mbox id n)) = nowhere
read_reply only (some (notify_coord_rmv_mbox id n)) = nowhere
read_reply only (some (locate_mbox_sync_request f t o n)) = nowhere
read_reply only (some (locate_mbox_from_itcgws_request id n)) = nowhere
read_reply only (some (locate_mbox_from_itcgws_reply id n)) = nowhere
read_reply only (some (get_namespace_request id)) = nowhere
read_reply only (some (get_namespace_reply n)) = nowhere
read_reply only (some (user_message m)) = nowhere

abbrev pub body_of : Option Envelope → Option Packet
body_of none = none
body_of (some e) = some e.body

abbrev pub envelope_of : Packet → Envelope
envelope_of body = record { sender = itc_no_mbox_id; receiver = itc_no_mbox_id; body = body }

-- "itc_gw_udp_mailbox"
abbrev pub itc_gateway_mbox_udp_name : Name
itc_gateway_mbox_udp_name = codes "itc_gw_udp_mailbox"

abbrev pub is_index : Option ℕ → ℕ → Bool
is_index none i = false
is_index (some k) i = k == i

module _ {F W : Type 0} (api : EventFd F) (ts : List (Transport W)) where
  -- The question to the coordinator, on a thread with a mailbox whose id is `my`. `memory` is whether
  -- itc_alloc had some; `none` is undefined behaviour, or a call that has not returned.
  unfoldable pub ask_coordinator :
      (memory : Bool)
      → List (Wake F W)
      → Process F W
      → (my : ℕ) (timeout : ℤ) (name : Name) (only : Bool) → Option (Located × Process F W)
  unfolding read_reply
  ask_coordinator memory wakes p my timeout name only =
      if not memory
      then none
      else let request = envelope_of (locate_mbox_sync_request my timeout only name) in
        let (sent, p1) = send api ts p (some request) p.itccoord_mbox_id itc_my_mbox_id in
        let answer = receive api ts (timeout_of timeout) wakes p1 in
        if not sent then some (nowhere, p1) else elim answer [
          | none ↦ none
          | some (reply, p2) ↦ some (read_reply only (body_of reply), p2)
        ]

  unfoldable pub locate_sync :
      (memory : Bool)
      → List (Wake F W)
      → Process F W
      → (timeout : ℤ) (name : Name) (only : Bool) → Option (Located × Process F W)
  unfolding ask_coordinator mailbox_at
  locate_sync memory wakes p timeout name only = elim (my_mailbox p) [
    | none ↦ some (nowhere, p)
    | some (i, my) ↦ elim (locate_local_mbox p name) [
      | none ↦ ask_coordinator memory wakes p my.mbox_id timeout name only
      | some j ↦ elim (mailbox_at p j) [
        | none ↦ none
        | some m ↦ some (located only m.mbox_id false [], p)
      ]
    ]
  ]

  -- What itc_get_namespace_zz takes from the reply: `itc_inst.namespace` and its result.
  unfoldable pub keep_namespace : (namespace : Name) → Option Packet → Option Name × Name
  keep_namespace namespace none = (none, namespace)
  keep_namespace namespace (some (get_namespace_reply n)) = (some n, n)
  keep_namespace namespace (some (locate_mbox_sync_reply id pid e n)) = (none, namespace)
  keep_namespace namespace (some (notify_coord_add_mbox id n)) = (none, namespace)
  keep_namespace namespace (some (notify_coord_rmv_mbox id n)) = (none, namespace)
  keep_namespace namespace (some (locate_mbox_sync_request f t o n)) = (none, namespace)
  keep_namespace namespace (some (locate_mbox_from_itcgws_request id n)) = (none, namespace)
  keep_namespace namespace (some (locate_mbox_from_itcgws_reply id n)) = (none, namespace)
  keep_namespace namespace (some (get_namespace_request id)) = (none, namespace)
  keep_namespace namespace (some (user_message m)) = (none, namespace)

  -- The question to the gateway's UDP thread, whose mailbox is `gateway`.
  unfoldable pub ask_namespace :
      List (Wake F W)
      → Process F W
      → (my gateway : ℕ) (timeout : ℤ) (namespace : Name)
      → Option ((Option Name × Name) × Process F W)
  unfolding keep_namespace
  ask_namespace wakes p my gateway timeout namespace =
      let request = envelope_of (get_namespace_request my) in
      let (sent, p1) = send api ts p (some request) gateway itc_my_mbox_id in
      let answer = receive api ts (timeout_of timeout) wakes p1 in
      if not sent then some ((none, namespace), p1) else elim answer [
        | none ↦ none
        | some (reply, p2) ↦ some (keep_namespace namespace (body_of reply), p2)
      ]

  -- itc_get_namespace_zz; `namespace` is `itc_inst.namespace`. The result is what was written to
  -- `name`, if it returned true, and `itc_inst.namespace` behind it. The waits of the two receptions
  -- come one after the other.
  unfoldable pub get_namespace :
      (memory : Bool) (wakes wakes' : List (Wake F W)) (namespace : Name)
      → Process F W
      → (timeout : ℤ) → Option ((Option Name × Name) × Process F W)
  unfolding ask_namespace locate_sync
  get_namespace memory wakes wakes' namespace p timeout = elim (my_mailbox p) [
    | none ↦ some ((none, namespace), p)
    | some (i, my) ↦
        if not (length namespace == 0)
        then some ((some namespace, namespace), p)
        else if not memory
        then none
        else elim (locate_sync memory wakes p timeout itc_gateway_mbox_udp_name true) [
          | none ↦ none
          | some (gateway, p1) ↦
              if gateway.mbox_id == itc_no_mbox_id
              then some ((none, namespace), p1)
              else ask_namespace wakes' p1 my.mbox_id gateway.mbox_id timeout namespace
        ]
  ]

  -- mailbox_destructor_at_thread_exit, of the mailbox at `i`.
  unfoldable pub destructor : LifeCalls → Process F W → (i : ℕ) → Option (Process F W)
  unfolding mailbox_at
  destructor io p i = elim (mailbox_at p i) [
    | none ↦ none
    | some m ↦
        let deleted = delete_mailbox api ts io p m.mbox_id in
        if m.in_use && is_index p.my_threadlocal_mbox i
        then elim deleted [ none ↦ none | some (done, q) ↦ some q ]
        else some p
  ]
