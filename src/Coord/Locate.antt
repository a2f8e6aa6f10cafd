-- ===== src/Coord/Locate.antt =====
-- handle_locate_mbox of itccoord.c.
use itc_framework.Base.{ℕ, Bool, true, false, not, Option, none, some, [], ◌∷◌, if◌then◌else◌}
use itc_framework.Message.{itc_no_mbox_id}
use itc_framework.Proto.{
  Name, Packet, notify_coord_add_mbox, notify_coord_rmv_mbox, locate_mbox_sync_request,
  locate_mbox_sync_reply, locate_mbox_from_itcgws_request, locate_mbox_from_itcgws_reply,
  get_namespace_request, get_namespace_reply, user_message,
}
use itc_framework.Coord.{Instance, find_name, with_connected}

-- `ITC_GATEWAY_MBOX_TCP_CLI_NAME`, "itcgw_tcpclient_mailbox"
abbrev pub itc_gateway_mbox_tcp_cli_name : Name
itc_gateway_mbox_tcp_cli_name =
    105 ∷ 116 ∷ 99 ∷ 103 ∷ 119 ∷ 95 ∷ 116 ∷ 99 ∷ 112 ∷ 99 ∷ 108 ∷ 105 ∷ 101 ∷ 110 ∷ 116 ∷ 95 ∷ 109
    ∷ 97 ∷ 105 ∷ 108 ∷ 98 ∷ 111 ∷ 120 ∷ []

-- What the calls of itc_alloc, itc_send and itc_receive come to, for the gateway and for the
-- reply, and the value that the variable `pid` has before anything is assigned to it.
pub record LocateCalls : Type 0 where
  pub request_memory : Bool
  pub request_sent : Bool
  pub answer : Option Packet
  pub reply_memory : Bool
  pub reply_sent : Bool
  pub stale_pid : Option ℕ

module _ (calls : LocateCalls) (c : Instance) (from_mbox : ℕ) where
  unfoldable pub reply :
      (mbox_id : ℕ) (pid : Option ℕ) (is_external : Bool) (namespace : Name)
      → Instance
      → Option Instance
  reply mbox_id pid is_external namespace c' =
      if not calls.reply_memory
      then none
      else if not calls.reply_sent
      then some c'
      else some (record c' {
        sent = (from_mbox, locate_mbox_sync_reply mbox_id pid is_external namespace) ∷ c'.sent;
      })

  -- The answer of the gateway.
  unfoldable pub relay : Instance → Option Packet → Option Instance
  unfolding reply
  relay c' none = some c'
  relay c' (some (notify_coord_add_mbox id n)) = some c'
  relay c' (some (notify_coord_rmv_mbox id n)) = some c'
  relay c' (some (locate_mbox_sync_request f t o n)) = some c'
  relay c' (some (locate_mbox_sync_reply id p e n)) = some c'
  relay c' (some (locate_mbox_from_itcgws_request id n)) = some c'
  relay c' (some (locate_mbox_from_itcgws_reply id n)) = reply id calls.stale_pid true n c'
  relay c' (some (get_namespace_request id)) = some c'
  relay c' (some (get_namespace_reply n)) = some c'
  relay c' (some (user_message m)) = some c'

  -- The search in the other hosts.
  unfoldable pub ask_gateway : Name → Option Instance
  unfolding relay
  ask_gateway mbox_name =
      if not calls.request_memory
      then none
      else elim (find_name itc_gateway_mbox_tcp_cli_name c.mbox_tree) [
        | none ↦ some c
        | some gw ↦
            if not calls.request_sent
            then some c
            else relay
                (record c {
                  sent = (gw.mbox_id, locate_mbox_from_itcgws_request c.mbox_id mbox_name) ∷ c.sent;
                })
                calls.answer
      ]

  unfoldable pub handle_locate_mbox :
      (find_only_internal : Bool) (mbox_name : Name) → Option Instance
  unfolding reply ask_gateway with_connected
  handle_locate_mbox find_only_internal mbox_name = elim (find_name mbox_name c.mbox_tree) [
    | none ↦
        if find_only_internal then reply itc_no_mbox_id none false [] c else ask_gateway mbox_name
    | some info ↦ with_connected c (λ i p. reply info.mbox_id p.pid false [] c) c info.mbox_id
  ]
