-- ===== src/Mailbox/Threads.antt =====
-- itc_send_zz, itc_receive_zz and itc_get_fd_zz of itc.c in a process: what they do to its mailboxes.
use itc_framework.Base.{ℕ, suc, ◌≡◌, ap, true, false, none, some, List, [], ◌∷◌, is_some, pos}
use itc_framework.Mailbox.{
  EventFd, EventFdLaws, Envelope, Transport, Mailbox, Process, mailbox_at, put_mailbox, my_mailbox,
  receive_over,
}
use itc_framework.Mailbox.Calls.{
  received, look, poll, Timeout, Wake, woken, timed_out, wait_failed, finish, rounds, receive,
  get_fd,
}
use itc_framework.Mailbox.Readiness.{Signals, Signalling, took-Signals, open_fd-Signals}

module _ {F W : Type 0} (api : EventFd F) where
  -- Every mailbox's descriptor tells whether it has messages.
  pub record AllSignal (p : Process F W) : Type 0 where
    pub each : (i : ℕ) (m : Mailbox F) → mailbox_at p i ≡ some m → Signalling api m

module _ {F W : Type 0} (api : EventFd F) (ts : List (Transport W)) (laws : EventFdLaws api) where
  module _ (p : Process F W) {i n : ℕ} {m : Mailbox F} (mine : my_mailbox p ≡ some (i, m))
      (there : mailbox_at p i ≡ some m) where
    -- itc_receive_zz by a thread whose mailbox counts a waiting message that a transport hands over:
    -- whatever the timeout, it returns that message at once; the mailbox counts one less, its
    -- descriptor is readable if more are waiting, and it is out of reception.
    pub receive_takes :
        (e : Envelope) (w : W) (tmo : Timeout) (wakes : List (Wake F W))
        → Signals api (suc n) m
        → receive_over ts m.mbox_id p.transports ≡ (some e, w)
        → (m' : Mailbox F) × (receive api ts tmo wakes p
            ≡ some (some e, put_mailbox (record p { transports = w }) i m'))
          × Signals api n m'
          × (m'.is_in_rx ≡ false)
    unfolding receive poll look rounds finish put_mailbox
    receive_takes e w tmo wakes s handed =
        let m1 : Mailbox F = record m { is_in_rx = true } in
        let (m', took', signals, out) =
          took-Signals api laws m1 e (record { count = s.count; ready = s.ready }) in
        let result = put_mailbox (record p { transports = w }) i m' in
        let polled : poll api ts p i ≡ (received e, result) =
          rw (there, poll, look, handed, took', handed, put_mailbox) in
        (m', rw (mine, receive) (at_once tmo wakes polled), signals, out)
      where
        at_once :
            (tmo : Timeout) (wakes : List (Wake F W)) {e : Envelope} {q : Process F W}
            → poll api ts p i ≡ (received e, q)
            → rounds api ts tmo wakes i p ≡ some (some e, q)
        at_once tmo [] polled = rw (polled, finish)
        at_once tmo (woken f ∷ ws) polled = rw (polled, finish)
        at_once tmo (timed_out ∷ ws) polled = rw (polled, finish)
        at_once tmo (wait_failed ∷ ws) polled = rw (polled, finish)

    -- itc_get_fd_zz by a thread whose mailbox counts `n` messages and has no descriptor yet: with a new
    -- eventfd it succeeds, and the descriptor is then readable exactly if messages are
    -- waiting, those that came before it was made included.
    pub get_fd_opens :
        (f : F)
        → m.rxq_len ≡ pos n
        → m.rxq_fd ≡ none
        → api.readable f ≡ false
        → (m' : Mailbox F) × (get_fd api ts p (some f) ≡ (true, put_mailbox p i m'))
          × Signals api n m'
          × (is_some m'.rxq_fd ≡ true)
    unfolding get_fd
    get_fd_opens f count missing blank =
        let (m', opened, signals, ready) = open_fd-Signals api laws m f count blank in
        let no_fd : is_some m.rxq_fd ≡ false = ap is_some missing in
        (m', rw (mine, get_fd, no_fd, opened), signals, ready)
