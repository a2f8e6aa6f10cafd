-- ===== src/Mailbox/Lookup/Tests.antt =====
-- Look-ups at small inputs: a thread of process 2 asks the coordinator, which knows a mailbox of
-- process 3 by the name "a", over a transport that brings the coordinator's reply at once; and a
-- transport that brings a namespace.
use itc_framework.Base.{
  ℕ, ◌≡◌, refl, ap, sym, true, false, Option, none, some, List, [], ◌∷◌, ◌++◌, pos, negsuc,
}
use mathlib.Core.Option.{some-injective}
use itc_framework.Memory.{itc_ok, Message}
use itc_framework.Proto.{
  Name, Packet, same_name, notify_coord_add_mbox, notify_coord_rmv_mbox, locate_mbox_sync_request,
  locate_mbox_sync_reply, locate_mbox_from_itcgws_request, locate_mbox_from_itcgws_reply,
  get_namespace_request, get_namespace_reply, user_message,
}
use itc_framework.Coord
use itc_framework.Coord.{
  MboxInfo, Instance, tree, proc_connected, find_name, find_process, with_connected,
}
use itc_framework.Coord.Locate.{LocateCalls, handle_locate_mbox, reply}
use itc_framework.Coord.Registry.{Connected}
use itc_framework.Mailbox.{
  Envelope, Transport, Mailbox, Process, mailbox_at, put_mailbox, my_mailbox, find_by_name,
  locate_local_mbox, find_mbox, send_over, receive_over,
}
use itc_framework.Mailbox.Calls
use itc_framework.Mailbox.Calls.{itc_my_mbox_id, send, receive}
use itc_framework.Mailbox.Forward.{ForwardCalls, FwdData}
use itc_framework.Mailbox.Tests.{counter, vacant, line, silent, silent_process}
use itc_framework.Mailbox.Lookup
use itc_framework.Mailbox.Lookup.{
  timeout_of, itc_gateway_mbox_udp_name, located, envelope_of, locate_sync, get_namespace,
}
use itc_framework.Mailbox.Lookup.Found.{registered, Exchange, locate_sync-handle_locate_mbox}
use itc_framework.Mailbox.Lookup.Ends.{get_namespace_remembers}

abbrev a : Name
a = 97 ∷ []

abbrev target : MboxInfo
target = record { mbox_id = 3145731; mbox_name = a }

abbrev gateway : MboxInfo
gateway = record { mbox_id = 3145732; mbox_name = itc_gateway_mbox_udp_name }

abbrev owner : Coord.Process
owner = record {
  mbox_id_in_itccoord = 3145728;
  pid = some 77;
  sockfd = some 5;
  state = proc_connected;
  list_mboxes_tree = tree (target ∷ []);
}

abbrev office : Instance
office = record {
  free_list = [];
  used_list = 3 ∷ [];
  mbox_tree = target ∷ gateway ∷ [];
  mbox_id = 1048577;
  freelist_count = 0;
  processes = owner ∷ owner ∷ owner ∷ owner ∷ [];
  rc = itc_ok;
  sent = [];
  replies = [];
}

abbrev calls : LocateCalls
calls = record {
  request_memory = true;
  request_sent = true;
  answer = none;
  reply_memory = true;
  reply_sent = true;
  stale_pid = none;
}

abbrev answer_of : Option Instance → List Envelope
answer_of none = []
answer_of (some c) = elim c.sent [ [] ↦ [] | (to, body) ∷ es ↦ envelope_of body ∷ [] ]

-- What the coordinator and the gateway's UDP thread send for a message.
abbrev respond : Packet → List Envelope
respond (locate_mbox_sync_request from t only n) =
    answer_of (handle_locate_mbox calls office from only n)
respond (get_namespace_request id) = envelope_of (get_namespace_reply a) ∷ []
respond (locate_mbox_sync_reply id pid e n) = []
respond (notify_coord_add_mbox id n) = []
respond (notify_coord_rmv_mbox id n) = []
respond (locate_mbox_from_itcgws_request id n) = []
respond (locate_mbox_from_itcgws_reply id n) = []
respond (get_namespace_reply n) = []
respond (user_message m) = []

abbrev post : Transport (List Envelope)
post = record line { send = some (λ e to w. (true, w ++ respond e.body)) }

-- A transport on which nothing comes back.
abbrev mute : Transport (List Envelope)
mute = record line { send = some (λ e to w. (true, w)) }

abbrev own : Mailbox ℕ
own = record silent { mbox_id = 2097154 }

abbrev asker : Process ℕ (List Envelope)
asker = record silent_process {
  my_mbox_id_in_itccoord = 2097152;
  mboxes = some (vacant ∷ own ∷ vacant ∷ []);
  local_locating_mbox_tree = [];
  transports = [];
}

mine : my_mailbox asker ≡ some (1, own)
unfolding my_mailbox mailbox_at
mine = refl

elsewhere : locate_local_mbox asker a ≡ none
unfolding locate_local_mbox find_by_name
elsewhere = refl

unfoldable asking : Exchange counter (post ∷ []) asker [] 2097154 (pos 100) a false
unfolding send my_mailbox mailbox_at find_mbox send_over receive receive_over handle_locate_mbox
    find_name with_connected find_process reply same_name timeout_of put_mailbox Calls.transmit
    Calls.active Calls.announce_at Calls.rounds Calls.poll Calls.look Calls.took Calls.quiet_fd
    Calls.finish
asking = record { asked = _; after = _; answer = _; sent = refl; came = refl }

found_it : find_name a office.mbox_tree ≡ some target
unfolding find_name same_name
found_it = refl

connected : Connected office target.mbox_id 3 owner
unfolding find_process
connected = record { slot = refl; process = refl; state = refl }

the_reply : Envelope
the_reply = envelope_of (locate_mbox_sync_reply 3145731 (some 77) false [])

answered : asking.answer ≡ some the_reply
unfolding asking handle_locate_mbox find_name with_connected find_process reply same_name the_reply
answered = refl

served :
    (c' : Instance)
    → handle_locate_mbox calls office 2097154 false a ≡ some c'
    → c'.sent ≡ (2097154, the_reply.body) ∷ office.sent
unfolding handle_locate_mbox find_name with_connected find_process reply same_name the_reply
served c' e = ap (λ c. c.sent) (sym (some-injective _ _ e))

locate_sync-handle_locate_mbox_example :
    locate_sync counter (post ∷ []) true [] asker (pos 100) a false
    ≡ some (located false 3145731 false [], asking.after)
locate_sync-handle_locate_mbox_example =
    locate_sync-handle_locate_mbox counter (post ∷ []) asker [] (pos 100) a false mine elsewhere
      asking office calls (some target) the_reply refl refl found_it (registered connected) answered
      served

-- No reply, and a wait that ends.
unfoldable unanswered :
    Exchange counter (mute ∷ []) asker (Calls.timed_out ∷ []) 2097154 (pos 100) a true
unfolding send my_mailbox mailbox_at find_mbox send_over receive receive_over timeout_of put_mailbox
    Calls.transmit Calls.active Calls.announce_at Calls.rounds Calls.poll Calls.look Calls.finish
    Calls.leave_rx
unanswered = record { asked = _; after = _; answer = none; sent = refl; came = refl }

abbrev mail : Message
mail = record { flags = 0; receiver = 7; sender = 3; size = 4; msgno = 300; payload = 239 ∷ [] }

abbrev packed : FwdData
packed = record { to_namespace = a; payload = [] }

abbrev forwards : ForwardCalls
forwards = record { memory = true; located = 0; sent = false }

asker_after : Process ℕ (List Envelope)
asker_after = record asker {
  mboxes = some (vacant ∷ record own { rxq_len = negsuc 0; is_in_rx = false } ∷ vacant ∷ []);
}

got_namespace :
    get_namespace counter (post ∷ []) true [] [] [] asker (pos 100)
    ≡ some ((some a, a), asker_after)
unfolding get_namespace send my_mailbox mailbox_at find_mbox send_over receive receive_over
    handle_locate_mbox find_name with_connected find_process reply same_name timeout_of put_mailbox
    Calls.transmit Calls.active Calls.announce_at Calls.rounds Calls.poll Calls.look Calls.took
    Calls.quiet_fd Calls.finish locate_sync Lookup.ask_coordinator Lookup.read_reply
    Lookup.ask_namespace Lookup.keep_namespace locate_local_mbox find_by_name asker_after
got_namespace = refl

still_mine : my_mailbox asker_after ≡ some (1, record own { rxq_len = negsuc 0; is_in_rx = false })
unfolding my_mailbox mailbox_at asker_after
still_mine = refl

get_namespace_remembers_example :
    get_namespace counter (post ∷ []) false [] [] a asker_after (pos 0)
    ≡ some ((some a, a), asker_after)
get_namespace_remembers_example =
    get_namespace_remembers counter (post ∷ []) true false [] [] [] [] [] a a asker asker_after
      (pos 100) (pos 0) 1 _ got_namespace refl still_mine
