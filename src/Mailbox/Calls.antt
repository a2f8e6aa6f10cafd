-- ===== src/Mailbox/Calls.antt =====
-- itc_send_zz, itc_receive_zz and itc_get_fd_zz of itc.c.
use itc_framework.Base.{
  ℕ, Bool, true, false, not, Option, none, some, List, [], ◌∷◌, ◌==◌, ◌&&◌, if◌then◌else◌, is_some,
  ℤ,
}
use itc_framework.Mailbox.{
  inc, dec, is_zero, EventFd, Envelope, Transport, Mailbox, Process, mailbox_at, put_mailbox,
  my_mailbox, find_mbox, send_over, receive_over,
}

-- `ITC_MY_MBOX_ID`
abbrev pub itc_my_mbox_id : ℕ
itc_my_mbox_id = 0xfff00000

-- `ITC_NO_WAIT`, `ITC_WAIT_FOREVER`, and a time.
pub data Timeout : Type 0 where
  no_wait : Timeout
  forever : Timeout
  timed : ℕ → Timeout

-- What one look at the transports by itc_receive_zz comes to.
pub data Polled : Type 0 where
  received : Envelope → Polled
  nothing : Polled
  read_failed : Polled

-- How one wait on the condition variable ends: after what other threads have done, or not.
pub data Wake (F W : Type 0) : Type 0 where
  woken : (Process F W → Process F W) → Wake F W
  timed_out : Wake F W
  wait_failed : Wake F W

module _ {F : Type 0} (api : EventFd F) where
  -- The write of itc_send_zz to the receiver's descriptor, of which a failure is ignored.
  unfoldable pub wake_fd : (rxq_len : ℤ) → Option F → Option F
  wake_fd len none = none
  wake_fd len (some f) =
      if is_zero len then elim (api.write f) [ none ↦ some f | some g ↦ some g ] else some f

  -- What itc_send_zz does to the receiver's mailbox once the message is on its way.
  unfoldable pub announce : Mailbox F → Mailbox F
  unfolding wake_fd
  announce m =
      if m.attached
      then record m { rxq_fd = wake_fd m.rxq_len m.rxq_fd; rxq_len = inc m.rxq_len }
      else m

  -- The read of itc_receive_zz; `none` where it fails.
  unfoldable pub quiet_fd : (rxq_len : ℤ) → Option F → Option (Option F)
  quiet_fd len none = some none
  quiet_fd len (some f) =
      if not (is_zero len)
      then some (some f)
      else elim (api.read f) [ none ↦ none | some g ↦ some (some g) ]

  -- The bookkeeping of itc_receive_zz, once a transport has handed a message over.
  unfoldable pub took : Mailbox F → Envelope → Polled × Mailbox F
  unfolding quiet_fd
  took m e =
      let m' : Mailbox F = record m { rxq_len = dec m.rxq_len } in
      elim (quiet_fd m'.rxq_len m'.rxq_fd) [
        | none ↦ (read_failed, m')
        | some fd ↦ (received e, record m' { rxq_fd = fd; is_in_rx = false })
      ]

  -- itc_get_fd_zz; `created` is what `eventfd` returns. `none` stands for -1.
  unfoldable pub open_fd : Mailbox F → (created : Option F) → Bool × Mailbox F
  open_fd m none = (false, m)
  open_fd m (some f) =
      let m' : Mailbox F = record m { rxq_fd = some f } in
      if is_zero m.rxq_len
      then (true, m')
      else elim (api.write f) [ none ↦ (false, m') | some g ↦ (true, record m { rxq_fd = some g }) ]

module _ {F W : Type 0} (api : EventFd F) (trans_mechanisms : List (Transport W)) where
  unfoldable pub announce_at : Process F W → Option ℕ → Process F W
  unfolding announce mailbox_at put_mailbox
  announce_at p none = p
  announce_at p (some i) = elim (mailbox_at p i) [
    | none ↦ p
    | some m ↦ put_mailbox p i (announce api m)
  ]

  unfoldable pub active : Process F W → Option ℕ → Bool
  unfolding mailbox_at
  active p none = true
  active p (some i) = elim (mailbox_at p i) [ none ↦ false | some m ↦ m.in_use ]

  unfoldable pub transmit :
      Process F W → Envelope → (to : ℕ) (to_mbox : Option ℕ) → Bool × Process F W
  unfolding announce_at active
  transmit p m to to_mbox =
      if not (active p to_mbox)
      then (false, p)
      else let (sent, w) = send_over trans_mechanisms m to p.transports in
        let p' : Process F W = record p { transports = w } in
        if sent then (true, announce_at p' to_mbox) else (false, p')

  -- itc_send_zz within the host: `ns` is `NULL`. `true` says that the message was handed over.
  unfoldable pub send : Process F W → Option Envelope → (to from : ℕ) → Bool × Process F W
  unfolding transmit
  send p message to from = elim (my_mailbox p) [
    | none ↦ (false, p)
    | some (i, my) ↦
        if to == my.mbox_id
        then (false, p)
        else if not (from == itc_my_mbox_id) && not (from == my.mbox_id)
        then (false, p)
        else elim message [
          | none ↦ (false, p)
          | some m ↦
              transmit p (record m { sender = my.mbox_id; receiver = to }) to (find_mbox p to)
        ]
  ]

  unfoldable pub look : Process F W → ℕ → Mailbox F → Polled × Process F W
  unfolding put_mailbox took
  look p i m =
      let (found, w) = receive_over trans_mechanisms m.mbox_id p.transports in
      let p' : Process F W = record p { transports = w } in
      let m' : Mailbox F = record m { is_in_rx = true } in
      elim found [
        | none ↦ (nothing, put_mailbox p' i m')
        | some e ↦ let (out, m'') = took api m' e in (out, put_mailbox p' i m'')
      ]

  unfoldable pub leave_rx : Process F W → ℕ → Process F W
  unfolding mailbox_at put_mailbox
  leave_rx p i = elim (mailbox_at p i) [
    | none ↦ p
    | some m ↦ put_mailbox p i (record m { is_in_rx = false })
  ]

  -- The end of a round; `wait` is what waiting comes to.
  unfoldable pub finish :
      Timeout
      → ℕ
      → Polled × Process F W
      → (Process F W → Option (Option Envelope × Process F W))
      → Option (Option Envelope × Process F W)
  unfolding leave_rx
  finish tmo i (received e, p) wait = some (some e, p)
  finish tmo i (read_failed, p) wait = some (none, p)
  finish no_wait i (nothing, p) wait = some (none, leave_rx p i)
  finish forever i (nothing, p) wait = wait p
  finish (timed t) i (nothing, p) wait = wait p

  unfoldable pub poll : Process F W → ℕ → Polled × Process F W
  unfolding look mailbox_at
  poll p i = elim (mailbox_at p i) [ none ↦ (nothing, p) | some m ↦ look p i m ]

  -- The loop of itc_receive_zz; when no more waits end, it has not returned.
  unfoldable pub rounds :
      Timeout → List (Wake F W) → ℕ → Process F W → Option (Option Envelope × Process F W)
  unfolding poll finish leave_rx
  rounds tmo [] i p = finish tmo i (poll p i) (λ p'. none)
  rounds tmo (woken others ∷ ws) i p =
      finish tmo i (poll p i) (λ p'. rounds tmo ws i (leave_rx (others p') i))
  rounds tmo (timed_out ∷ ws) i p = finish tmo i (poll p i) (λ p'. some (none, leave_rx p' i))
  rounds tmo (wait_failed ∷ ws) i p = finish tmo i (poll p i) (λ p'. some (none, p'))

  unfoldable pub receive :
      Timeout → List (Wake F W) → Process F W → Option (Option Envelope × Process F W)
  unfolding rounds my_mailbox
  receive tmo wakes p = elim (my_mailbox p) [
    | none ↦ some (none, p)
    | some (i, m) ↦ rounds tmo wakes i p
  ]

  -- itc_get_fd_zz; whether it returned the descriptor.
  unfoldable pub get_fd : Process F W → (created : Option F) → Bool × Process F W
  unfolding open_fd my_mailbox put_mailbox
  get_fd p created = elim (my_mailbox p) [
    | none ↦ (false, p)
    | some (i, m) ↦
        if is_some m.rxq_fd
        then (true, p)
        else let (done, m') = open_fd api m created in (done, put_mailbox p i m')
  ]
