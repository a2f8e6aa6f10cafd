-- ===== src/Mailbox/Lookup/Found.antt =====
-- itc_locate_sync_zz of itc.c together with handle_locate_mbox of itccoord.c, and what it and
-- handle_forward_itc_msg_to_itcgw make of a reply that does not come.
use itc_framework.Base.{
  ℕ, ◌≡◌, refl, ap, sym, ◌∙◌, Bool, true, false, Option, none, some, List, [], ◌∷◌, ℤ,
}
use itc_framework.Message.{itc_no_mbox_id}
use itc_framework.Proto.{
  Name, Packet, locate_mbox_sync_request, locate_mbox_sync_reply, user_message,
}
use itc_framework.Memory.{Message}
use itc_framework.Mailbox.{
  EventFd, Envelope, Transport, Mailbox, Process, my_mailbox, locate_local_mbox,
}
use itc_framework.Mailbox.Calls.{itc_my_mbox_id, Wake, send, receive}
use itc_framework.Mailbox.Lookup.{
  timeout_of, located, read_reply, body_of, envelope_of, ask_coordinator, locate_sync,
}
use itc_framework.Coord
use itc_framework.Coord.{MboxInfo, Instance, find_name}
use itc_framework.Coord.Locate.{LocateCalls, handle_locate_mbox}
use itc_framework.Coord.Registry.{Connected, handle_locate_mbox-known, handle_locate_mbox-absent}

-- The names that the coordinator answers for by itself: those of connected processes, and, where
-- only this host is asked, those that nobody has.
pub data Known (c : Instance) : (find_only_internal : Bool) → Option MboxInfo → Type 0 where
  registered :
      {only : Bool} {info : MboxInfo} {j : ℕ} {owner : Coord.Process}
      → Connected c info.mbox_id j owner
      → Known c only (some info)
  unregistered : {only : Bool} → only ≡ true → Known c only none

abbrev pub id_of : Option MboxInfo → ℕ
id_of none = itc_no_mbox_id
id_of (some info) = info.mbox_id

abbrev first_body : List (ℕ × Packet) → Packet
first_body [] = user_message 0
first_body ((to, body) ∷ sent) = body

module _ {F W : Type 0} (api : EventFd F) (ts : List (Transport W)) where
  -- The question of a thread and the message that it then receives.
  pub record Exchange (p : Process F W) (wakes : List (Wake F W)) (my : ℕ) (timeout : ℤ)
      (name : Name) (only : Bool) : Type 0 where
    pub asked : Process F W
    pub after : Process F W
    pub answer : Option Envelope
    pub sent :
        send api ts p
          (some (envelope_of (locate_mbox_sync_request my timeout only name)))
          p.itccoord_mbox_id
          itc_my_mbox_id
        ≡ (true, asked)
    pub came : receive api ts (timeout_of timeout) wakes asked ≡ some (answer, after)

  module _ (p : Process F W) {i : ℕ} {my : Mailbox F} (wakes : List (Wake F W)) (timeout : ℤ)
      (name : Name) (only : Bool) (mine : my_mailbox p ≡ some (i, my))
      (elsewhere : locate_local_mbox p name ≡ none)
      (x : Exchange p wakes my.mbox_id timeout name only) where
    asked_lem :
        locate_sync api ts true wakes p timeout name only
        ≡ some (read_reply only (body_of x.answer), x.after)
    unfolding locate_sync ask_coordinator
    asked_lem = rw (mine, locate_sync, elsewhere, x.sent, x.came) refl

    -- itc_locate_sync_zz of a name that no mailbox of its process has, where the coordinator's reply
    -- has memory, and the message that comes back is what handle_locate_mbox sends for the request:
    -- it returns the id under which the coordinator has the name registered by a connected process,
    -- or ITC_NO_MBOX_ID for a name that is registered nowhere, and then only this host was asked.
    -- Where all hosts are asked, it writes that the mailbox is in this host, and no namespace.
    pub locate_sync-handle_locate_mbox :
        (c : Instance) (calls : LocateCalls) (o : Option MboxInfo) (e : Envelope)
        → calls.reply_memory ≡ true
        → calls.reply_sent ≡ true
        → find_name name c.mbox_tree ≡ o
        → Known c only o
        → x.answer ≡ some e
        → ((c' : Instance)
            → handle_locate_mbox calls c my.mbox_id only name ≡ some c'
            → c'.sent ≡ (my.mbox_id, e.body) ∷ c.sent)
        → locate_sync api ts true wakes p timeout name only
          ≡ some (located only (id_of o) false [], x.after)
    unfolding read_reply
    locate_sync-handle_locate_mbox c calls (some info) e memory goes found
          (registered {owner = owner} k) answered served =
        let body : e.body ≡ locate_mbox_sync_reply info.mbox_id owner.pid false [] = sym (
          ap first_body (
            served _
              (handle_locate_mbox-known calls memory goes my.mbox_id name info only found k))) in
        asked_lem ∙ rw (answered, body) refl
    locate_sync-handle_locate_mbox c calls none e memory goes found (unregistered internal) answered
          served =
        let body : e.body ≡ locate_mbox_sync_reply itc_no_mbox_id none false [] = sym (
          ap first_body (
            served _ (
              ap (λ b. handle_locate_mbox calls c my.mbox_id b name) internal
              ∙ handle_locate_mbox-absent calls memory goes my.mbox_id name found))) in
        asked_lem ∙ rw (answered, body) refl
