-- ===== src/Mailbox/Start/Again.antt =====
-- itc_init_zz of itc.c after itc_exit_zz.
use itc_framework.Base.{
  ℕ, ◌≡◌, refl, ap, sym, ◌∙◌, Bool, true, false, not, ◌||◌, Option, none, some, List, arith, ltb,
  is_some, if◌then◌else◌, test_eq,
}
use mathlib.Core.Path.{subst}
use itc_framework.Local.{itc_nr_internal_used_mboxes}
use itc_framework.Mailbox.{Mailbox, Process}
use itc_framework.Mailbox.Start.{
  ReturnCode, absent, held, freed, Library, Outcome, InitCalls, enter, init,
}
use itc_framework.Mailbox.Start.Exit.{running, exit_over, ExitCalls, shut_down, leave, exit}

-- What a successful itc_exit_zz leaves of the globals.
record Left {F W : Type 0} (l l' : Library F W) : Type 0 where
  same_pid : l'.pid ≡ l.pid
  no_rc : l'.rc ≡ absent
  boxes : is_some l'.process.mboxes ≡ true

abbrev Leaves : {F W : Type 0} → Library F W → Outcome F W → Type 0
Leaves l none = Unit {0}
Leaves l (some (false, l')) = Unit {0}
Leaves l (some (true, l')) = Left l l'

module _ {F W : Type 0} (io : ExitCalls F W)
    (keeps : (p : Process F W) → is_some (io.threads p).1.mboxes ≡ is_some p.mboxes) where
  Leaves-if :
      (l : Library F W) (b : Bool) (x y : Outcome F W)
      → Leaves l x
      → Leaves l y
      → Leaves l (if b then x else y)
  Leaves-if l true x y h k = h
  Leaves-if l false x y h k = k

  shut_down-Leaves :
      (l l' : Library F W)
      → l'.pid ≡ l.pid
      → is_some l'.process.mboxes ≡ true
      → Leaves l (shut_down io l')
  unfolding shut_down
  shut_down-Leaves l l' pid boxes =
      let (ended, p) = io.threads l'.process in
      let (left, w) = exit_over io.trans_exit p.transports in
      Leaves-if l (not ended || not io.destroyed) _ _ tt (
        Leaves-if l (not left || not io.key || not io.mutexes) _ _ tt (
          Leaves-if l io.queue _ _
            (record { same_pid = pid; no_rc = refl; boxes = keeps l'.process ∙ boxes }) tt))

  leave-Leaves :
      (l l' : Library F W) (boxes : List (Mailbox F))
      → l'.pid ≡ l.pid
      → is_some l'.process.mboxes ≡ true
      → Leaves l (leave io l' boxes)
  unfolding leave
  leave-Leaves l l' boxes pid there = Leaves-if l l'.boxes_freed _ _ tt (
      Leaves-if l (ltb itc_nr_internal_used_mboxes (running boxes)) _ _ tt
        (shut_down-Leaves l l' pid there))

  exit-Leaves : (l : Library F W) → Leaves l (exit io l)
  unfolding exit
  exit-Leaves l = by_boxes l.process.mboxes refl
    where
      with_rc :
          (boxes : List (Mailbox F))
          → is_some l.process.mboxes ≡ true
          → (r : ReturnCode)
          → Leaves l (elim r as (λ x. Outcome F W) [
            | freed ↦ none
            | held ↦ leave io l boxes
            | absent ↦
                if io.rc_memory then leave io (record l { rc = held }) boxes else some (false, l)
          ])
      with_rc boxes there freed = tt
      with_rc boxes there held = leave-Leaves l l boxes refl there
      with_rc boxes there absent =
          Leaves-if l io.rc_memory _ _ (leave-Leaves l (record l { rc = held }) boxes refl there) tt

      by_boxes :
          (o : Option (List (Mailbox F)))
          → l.process.mboxes ≡ o
          → Leaves l (elim o as (λ x. Outcome F W) [
            | none ↦ some (false, l)
            | some boxes ↦ elim l.rc as (λ x. Outcome F W) [
              | freed ↦ none
              | held ↦ leave io l boxes
              | absent ↦
                  if io.rc_memory then leave io (record l { rc = held }) boxes else some (false, l)
            ]
          ])
      by_boxes none at = tt
      by_boxes (some boxes) at = with_rc boxes (ap is_some at) l.rc

  -- Once itc_exit_zz has returned true, the library cannot be used again in that process, where
  -- terminate_itcthreads does not touch the pointer to the mailboxes: itc_init_zz takes the freed
  -- mailboxes for those of a library that is still in use, and returns false; and it has freed
  -- `rc` and kept the pointer, so that the next itc_init_zz or itc_exit_zz of that thread writes
  -- through it.
  pub init-exit :
      (l l' : Library F W) (again : InitCalls F W) (nr_mboxes : ℕ) (is_coord : Bool)
      → exit io l ≡ some (true, l')
      → again.pid ≡ l.pid
      → again.rc_memory ≡ true
      → let l2 : Library F W = record l' { rc = freed } in
        (init again nr_mboxes is_coord l' ≡ some (false, l2))
        × (init again nr_mboxes is_coord l2 ≡ none)
        × (exit io l2 ≡ none)
  unfolding init enter exit
  init-exit l l' again nr_mboxes is_coord ended same memory =
      let left : Left l l' = subst (Leaves l) ended (exit-Leaves l) in
      let at_pid = test_eq (same ∙ sym left.same_pid) in
      (
        rw (left.no_rc, init, memory, left.boxes, at_pid) refl,
        refl,
        no_exit l'.process.mboxes left.boxes,
      )
    where
      no_exit :
          (o : Option (List (Mailbox F)))
          → is_some o ≡ true
          → (elim o as (λ x. Outcome F W) [
            | none ↦ some (false, record l' { rc = freed })
            | some boxes ↦ none
          ])
            ≡ none
      no_exit none e = absurd (ground (arith, e))
      no_exit (some boxes) e = refl
