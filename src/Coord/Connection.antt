-- ===== src/Coord/Connection.antt =====
-- The life of a process slot in itccoord.c: handle_locate_coord_request, connect_to_process,
-- disconnect_from_process and close_socket_connection. What the system calls come to is an argument.
use itc_framework.Base.{
  ℕ, Bool, true, false, not, Option, none, some, List, [], ◌∷◌, ◌++◌, bit_or, ◌==◌, ◌&&◌,
  if◌then◌else◌, is_some, get_elem?, set,
}
use itc_framework.Memory.{itc_ok, itc_queue_empty, itc_syscall_error}
use itc_framework.Queue.{dec32, inc32}
use itc_framework.Queue.Refine.{delete}
use itc_framework.Coord.{
  proc_unused, proc_listening, proc_connected, MboxInfo, Tree, tree, dangling, Process, Instance,
  find_name, delete_name, put_process,
}

-- What one `close` comes to, and `unlink`.
pub data Close : Type 0 where
  closed : Close
  interrupted : Close
  bad_descriptor : Close
  not_closed : Close

pub data Unlink : Type 0 where
  unlinked : Unlink
  no_entry : Unlink
  not_unlinked : Unlink

-- The calls of disconnect_from_process; `node` is whether q_enqueue gets memory.
pub record Closing : Type 0 where
  pub closes : List Close
  pub unlink : Unlink
  pub node : Bool

abbrev pub unlink_result : Unlink → Bool
unlink_result unlinked = true
unlink_result no_entry = true
unlink_result not_unlinked = false

-- The loop of close_socket_connection and what follows; with no more results it has not returned.
unfoldable pub close_loop : List Close → Unlink → Option Bool
close_loop [] u = none
close_loop (closed ∷ rest) u = some (unlink_result u)
close_loop (interrupted ∷ rest) u = close_loop rest u
close_loop (bad_descriptor ∷ rest) u = some true
close_loop (not_closed ∷ rest) u = some false

unfoldable pub close_socket_connection : Closing → Option ℕ → Option Bool
unfolding close_loop
close_socket_connection io none = some true
close_socket_connection io (some fd) = close_loop io.closes io.unlink

-- `twalk` of a process's list with delete_counterpart_mailboxes_in_mailboxtree.
unfoldable pub delete_counterparts : List MboxInfo → List MboxInfo → List MboxInfo
delete_counterparts [] t = t
delete_counterparts (i ∷ own) t =
    delete_counterparts own
      (if is_some (find_name i.mbox_name t) then delete_name i.mbox_name t else t)

-- `tdestroy`, which does not clear the root.
abbrev pub destroyed : List MboxInfo → Tree
destroyed [] = tree []
destroyed (i ∷ t) = dangling

-- `q_enqueue` and the return code after it.
unfoldable pub q_enqueue : (node : Bool) (rc : ℕ) → List ℕ → ℕ → List ℕ × ℕ
q_enqueue node rc xs i =
    if not node
    then (xs, bit_or rc itc_syscall_error)
    else if not (rc == itc_ok)
    then (xs, rc)
    else (xs ++ (i ∷ []), rc)

-- The part of disconnect_from_process behind the socket.
unfoldable pub retire : Closing → Instance → ℕ → Process → Tree → Option (Bool × Instance)
unfolding delete_counterparts q_enqueue
retire io c i p dangling = none
retire io c i p (tree t) =
    let q = q_enqueue io.node c.rc c.free_list i in
    some (
      true,
      record c {
        mbox_tree = delete_counterparts t c.mbox_tree;
        processes = set c.processes i (record p { list_mboxes_tree = destroyed t });
        free_list = q.0;
        rc = q.1;
        freelist_count = inc32 c.freelist_count;
      },
    )

unfoldable pub disconnect_from_process : Closing → Instance → ℕ → Option (Bool × Instance)
unfolding retire close_socket_connection delete
disconnect_from_process io c i = elim (get_elem? c.processes i) [
  | none ↦ none
  | some p ↦
      let c' : Instance = record c { used_list = delete i c.used_list } in
      let p' : Process = record p { state = proc_unused; pid = none; sockfd = none } in
      elim (close_socket_connection io p.sockfd) [
        | none ↦ none
        | some done ↦
            if not done
            then some (false, put_process c' i p')
            else retire io c' i p' p.list_mboxes_tree
      ]
]

-- What `accept` comes to, and what `recv` delivers: a message that is too short because the peer is
-- gone or else, one that is no ITC_LOCATE_COORD_REQUEST, or one that is.
pub data Accept : Type 0 where
  accepted : ℕ → Accept
  aborted : Accept
  not_accepted : Accept

pub data Request : Type 0 where
  too_short : (gone : Bool) → Request
  unknown : Request
  request : (my_pid : ℕ) → Request

pub data Send : Type 0 where
  delivered : Send
  send_interrupted : Send
  broken_pipe : Send
  not_sent : Send

-- The calls of handle_locate_coord_request.
pub record LocateCoordCalls : Type 0 where
  pub accept : Accept
  pub request_memory : Bool
  pub request : Request
  pub node : Bool
  pub socket : Option ℕ
  pub bind : Bool
  pub chmod : Bool
  pub listen : Bool
  pub reply_memory : Bool
  pub send : Send
  pub close : Bool
  pub closing : Closing

-- `disconnect_from_process(tmp)`, whose result is not looked at.
unfoldable pub give_up : (result : Bool) → Closing → Instance → ℕ → Option (Bool × Instance)
unfolding disconnect_from_process
give_up result io c i = elim (disconnect_from_process io c i) [
  | none ↦ none
  | some r ↦ some (result, r.1)
]

module _ (io : LocateCoordCalls) where
  -- The reply to the process.
  unfoldable pub answer : Send → Instance → ℕ → Process → Option (Bool × Instance)
  unfolding give_up
  answer delivered c i p =
      some (
        io.close,
        record c { replies = (p.mbox_id_in_itccoord, 0xfff00000, c.mbox_id) ∷ c.replies },
      )
  answer broken_pipe c i p = give_up false io.closing c i
  answer send_interrupted c i p = some (false, c)
  answer not_sent c i p = some (false, c)

  -- The socket for the process, which listens, and then the reply.
  unfoldable pub open_socket : Instance → ℕ → Process → Option ℕ → Option (Bool × Instance)
  unfolding answer
  open_socket c i p none = some (false, put_process c i (record p { sockfd = none }))
  open_socket c i p (some fd) =
      let p1 : Process = record p { sockfd = some fd } in
      let p2 : Process = record p1 { state = proc_listening } in
      if not (io.bind && (io.chmod && io.listen))
      then some (false, put_process c i p1)
      else if not io.reply_memory
      then some (false, put_process c i p2)
      else answer io.send (put_process c i p2) i p2

  -- From `q_dequeue` on. On an empty list it raises ITC_QUEUE_EMPTY, and the handler fails.
  unfoldable pub assign : (pid : Option ℕ) → Instance → List ℕ → Option (Bool × Instance)
  unfolding q_enqueue open_socket
  assign pid c [] = some (false, record c { rc = bit_or c.rc itc_queue_empty })
  assign pid c (i ∷ rest) =
      let q = q_enqueue io.node c.rc c.used_list i in
      let c1 : Instance = record c { free_list = rest } in
      let c2 : Instance = record c1 {
        freelist_count = dec32 c.freelist_count;
        used_list = q.0;
        rc = q.1;
      } in
      if not (c.rc == itc_ok)
      then some (false, c1)
      else if not (q.1 == itc_ok)
      then some (false, c2)
      else elim (get_elem? c.processes i) [
        | none ↦ none
        | some p ↦ open_socket c2 i (record p { pid = pid }) io.socket
      ]

  unfoldable pub receive_request : Request → Instance → Option (Bool × Instance)
  unfolding assign
  receive_request (too_short gone) c = if gone then some (true, c) else assign none c c.free_list
  receive_request unknown c = some (false, c)
  receive_request (request my_pid) c = assign (some my_pid) c c.free_list

  unfoldable pub accept_request : Accept → Instance → Option (Bool × Instance)
  unfolding receive_request
  accept_request (accepted sd) c =
      if not io.request_memory then some (false, c) else receive_request io.request c
  accept_request aborted c = some (true, c)
  accept_request not_accepted c = some (false, c)

unfoldable pub handle_locate_coord_request : LocateCoordCalls → Instance → Option (Bool × Instance)
unfolding accept_request
handle_locate_coord_request io c = accept_request io io.accept c

-- The loop of connect_to_process that sends "ack", and what follows.
unfoldable pub acknowledge : List Send → Closing → Instance → ℕ → Process → Option (Bool × Instance)
unfolding give_up
acknowledge [] io c i p = none
acknowledge (delivered ∷ rest) io c i p =
    some (true, put_process c i (record p { state = proc_connected }))
acknowledge (send_interrupted ∷ rest) io c i p = acknowledge rest io c i p
acknowledge (broken_pipe ∷ rest) io c i p = give_up true io c i
acknowledge (not_sent ∷ rest) io c i p = some (false, c)

unfoldable pub connect_to_process :
    Accept → List Send → Closing → Instance → ℕ → Option (Bool × Instance)
unfolding acknowledge
connect_to_process a acks io c i = elim (get_elem? c.processes i) [
  | none ↦ none
  | some p ↦ elim a [
    | accepted sd ↦
        let p' : Process = record p { sockfd = some sd } in
        acknowledge acks io (put_process c i p') i p'
    | aborted ↦ give_up true io c i
    | not_accepted ↦ some (false, c)
  ]
]
