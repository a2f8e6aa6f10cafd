-- ===== src/Coord/Slots.antt =====
-- The process slots of itccoord.c: how an id leads to one, how a process gets one, and what is left
-- in it behind.
use itc_framework.Base.{
  ℕ, ◌*◌, ◌^◌, ◌/◌, ◌<◌, ◌≡◌, ap, ◌∙◌, true, none, some, ◌∷◌, arith, ltb, if◌then◌else◌, get_elem?,
  set, length, test_lt, test_ge, get_elem?-outside,
}
use itc_framework.Local.Lookup.{own_id, coord-own_id}
use itc_framework.Proto.{Name}
use itc_framework.Coord.{
  Process, proc_listening, Instance, find_process, handle_add_mbox, handle_remove_mbox, put_process,
  with_connected,
}
use itc_framework.Coord.Connection.{
  accepted, request, delivered, LocateCoordCalls, open_socket, answer,
}

find_process-own_id :
    (i m : ℕ)
    → i < 2 ^ 12
    → m < 2 ^ 20
    → find_process (own_id i m) ≡ (if ltb 255 i then none else some i)
unfolding find_process
find_process-own_id i m known low =
    let index : i * 2 ^ 20 / 2 ^ 20 ≡ i = omega arith in rw (coord-own_id i m known low, index)

-- The handlers for mailboxes, at the ids of every process, against a table of 255 slots: an id of a
-- process from 256 on changes nothing; an id of process 255 passes the check, and the slot that it
-- leads to lies behind the table's end.
pub process_bounds :
    (c : Instance) (i m : ℕ) (n : Name)
    → length c.processes ≡ 255
    → i < 2 ^ 12
    → m < 2 ^ 20
    → (255 < i
        → (handle_add_mbox true c (own_id i m) n ≡ some c)
          × (handle_remove_mbox c (own_id i m) n ≡ some c))
      × (i ≡ 255
          → (handle_add_mbox true c (own_id i m) n ≡ none)
            × (handle_remove_mbox c (own_id i m) n ≡ none))
unfolding handle_add_mbox handle_remove_mbox
process_bounds c i m n size known low =
    let slot = find_process-own_id i m known low in
    (
      (λ big.
          let unknown : find_process (own_id i m) ≡ none = rw (slot, test_lt big) in
          (rw (unknown, with_connected), rw (unknown, with_connected))),
      (λ e.
          let edge : find_process (own_id i m) ≡ some i =
            rw (slot, test_ge {a = 255} {b = i} (omega (arith, e))) in
          let behind : get_elem? c.processes i ≡ none =
            get_elem?-outside c.processes i (omega (arith, e, size)) in
          (rw (edge, behind, with_connected), rw (edge, behind, with_connected))),
    )

-- A request from the process `pid` reaches handle_locate_coord_request; and all later calls succeed
-- too, `fd` being the new socket.
pub record Arrives (io : LocateCoordCalls) (pid : ℕ) : Type 0 where
  pub accept : (sd : ℕ) × (io.accept ≡ accepted sd)
  pub memory : io.request_memory ≡ true
  pub request : io.request ≡ request pid

pub record Succeeds (io : LocateCoordCalls) (fd : ℕ) : Type 0 where
  pub node : io.node ≡ true
  pub socket : io.socket ≡ some fd
  pub bind : io.bind ≡ true
  pub chmod : io.chmod ≡ true
  pub listen : io.listen ≡ true
  pub memory : io.reply_memory ≡ true
  pub send : io.send ≡ delivered
  pub close : io.close ≡ true

opened :
    {io : LocateCoordCalls} {fd : ℕ} (c : Instance) (i : ℕ) (p : Process)
    → Succeeds io fd
    → let p2 : Process = record p { sockfd = some fd; state = proc_listening } in
      open_socket io c i p io.socket
      ≡ some (
        true,
        record c {
          processes = set c.processes i p2;
          replies = (p.mbox_id_in_itccoord, 0xfff00000, c.mbox_id) ∷ c.replies;
        },
      )
unfolding open_socket answer
opened {io} {fd} c i p s =
    let p2 : Process = record p { sockfd = some fd; state = proc_listening } in
    ap (open_socket io c i p) s.socket
    ∙ rw (s.bind, s.chmod, s.listen, s.memory)
        (ap (λ r. answer io r (put_process c i p2) i p2) s.send ∙ rw s.close)
