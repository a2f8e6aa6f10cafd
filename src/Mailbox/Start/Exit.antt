-- ===== src/Mailbox/Start/Exit.antt =====
-- itc_exit_zz of itc.c. What the system calls, the transports and the thread manager come to is an
-- argument.
use itc_framework.Base.{
  ℕ, ◌+◌, Bool, true, false, not, Option, none, some, List, [], ◌∷◌, ◌||◌, ltb, if◌then◌else◌,
}
use itc_framework.Local.{itc_nr_internal_used_mboxes}
use itc_framework.Mailbox.{Mailbox, Process}
use itc_framework.Mailbox.Start.{absent, held, freed, Library, Outcome}

unfoldable pub running : {F : Type 0} → List (Mailbox F) → ℕ
running [] = 0
running (m ∷ ms) = (if m.in_use then 1 else 0) + running ms

unfoldable pub exit_over : {W : Type 0} → List (Option (W → Bool × W)) → W → Bool × W
exit_over [] w = (true, w)
exit_over (none ∷ ts) w = exit_over ts w
exit_over (some f ∷ ts) w =
    let (done, w') = f w in let rest = exit_over ts w' in if done then rest else (false, w')

-- `malloc` of `rc`, terminate_itcthreads, the destruction of what the mailboxes have, itci_trans_exit
-- of each transport that has it, the deletion of the key, the two mutexes, and whether q_exit leaves
-- no error.
pub record ExitCalls (F W : Type 0) : Type 0 where
  pub rc_memory : Bool
  pub threads : Process F W → Bool × Process F W
  pub destroyed : Bool
  pub trans_exit : List (Option (W → Bool × W))
  pub key : Bool
  pub mutexes : Bool
  pub queue : Bool

module _ {F W : Type 0} where
  -- From terminate_itcthreads on.
  unfoldable pub shut_down : ExitCalls F W → Library F W → Outcome F W
  unfolding exit_over
  shut_down io l =
      let (ended, p) = io.threads l.process in
      let l1 : Library F W = record l { process = p } in
      let (left, w) = exit_over io.trans_exit p.transports in
      let l2 : Library F W = record l { process = record p { transports = w } } in
      let l3 : Library F W = record l2 { boxes_freed = true } in
      if not ended || not io.destroyed
      then some (false, l1)
      else if not left || not io.key || not io.mutexes
      then some (false, l2)
      else if io.queue
      then some (true, record l3 { rc = absent })
      else some (false, l3)

  unfoldable pub leave : ExitCalls F W → Library F W → List (Mailbox F) → Outcome F W
  unfolding shut_down running
  leave io l boxes =
      if l.boxes_freed
      then none
      else if ltb itc_nr_internal_used_mboxes (running boxes)
      then some (false, l)
      else shut_down io l

  unfoldable pub exit : ExitCalls F W → Library F W → Outcome F W
  unfolding leave
  exit io l = elim l.process.mboxes [
    | none ↦ some (false, l)
    | some boxes ↦ elim l.rc [
      | freed ↦ none
      | held ↦ leave io l boxes
      | absent ↦ if io.rc_memory then leave io (record l { rc = held }) boxes else some (false, l)
    ]
  ]
