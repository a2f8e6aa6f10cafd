-- ===== src/Mailbox/Tests.antt =====
-- itc.c at small inputs: a process of three mailboxes, of which the second is the thread's own and
-- holds a message, with one transport that is a single queue, and an eventfd that is a counter.
use itc_framework.Base.{
  ℕ, zero, suc, ◌+◌, ◌≡◌, refl, true, false, Option, none, some, List, [], ◌∷◌, ◌++◌, arith, pos,
}
use mathlib.Core.Path.{subst}
use mathlib.Core.Option.{some-injective}
use itc_framework.Proto.{user_message}
use itc_framework.Mailbox.{
  EventFd, EventFdLaws, Envelope, Transport, Mailbox, Process, mailbox_at, put_mailbox, my_mailbox,
  receive_over,
}
use itc_framework.Mailbox.Calls.{send, timed, timed_out, receive}
use itc_framework.Mailbox.Readiness.{waiting, Signals}
use itc_framework.Mailbox.Threads.{receive_takes}
use itc_framework.Mailbox.Life.{LifeCalls}
use itc_framework.Mailbox.Cycle.{MayCreate}

abbrev take_all : ℕ → Option ℕ
take_all zero = none
take_all (suc n) = some 0

abbrev pub counter : EventFd ℕ
counter = record { write = λ n. some (n + 1); read = take_all; readable = waiting }

counter-laws : EventFdLaws counter
counter-laws = record { write_ok = written; read_ok = taken }
  where
    written : (n : ℕ) → waiting n ≡ false → (g : ℕ) × (some (n + 1) ≡ some g) × (waiting g ≡ true)
    written zero e = (1, refl, refl)
    written (suc n) e = cc

    taken : (n : ℕ) → waiting n ≡ true → (g : ℕ) × (take_all n ≡ some g) × (waiting g ≡ false)
    taken zero e = cc
    taken (suc n) e = (0, refl, refl)

abbrev pop : List Envelope → Option Envelope × List Envelope
pop [] = (none, [])
pop (e ∷ w) = (some e, w)

abbrev pub line : Transport (List Envelope)
line = record {
  create_mbox = some (λ id flags w. (true, w));
  delete_mbox = some (λ id w. (true, w));
  send = some (λ e to w. (true, w ++ (e ∷ [])));
  receive = some (λ id w. pop w);
}

abbrev pub letter : Envelope
letter = record { sender = 3; receiver = 2; body = user_message 100 }

abbrev pub vacant : Mailbox ℕ
vacant = record {
  mbox_id = 2;
  name = [];
  flags = 0;
  in_use = false;
  tid = 0;
  attached = false;
  rxq_len = pos 0;
  rxq_fd = none;
  is_in_rx = false;
}

abbrev mine : Mailbox ℕ
mine = record vacant {
  mbox_id = 1048578;
  name = 97 ∷ [];
  in_use = true;
  tid = 9;
  attached = true;
  rxq_len = pos 1;
  rxq_fd = some 1;
}

abbrev process : Process ℕ (List Envelope)
process = record {
  mboxes = some (vacant ∷ mine ∷ vacant ∷ []);
  free_mboxes_queue = 0 ∷ 2 ∷ [];
  local_locating_mbox_tree = 1 ∷ [];
  my_mbox_id_in_itccoord = 1048576;
  itccoord_mask = 0xfff00000;
  itccoord_mbox_id = 1048577;
  local_mbox_mask = 3;
  nr_mboxes = 3;
  my_threadlocal_mbox = some 1;
  transports = letter ∷ [];
}

-- The same process, for a thread without a mailbox.
abbrev pub newcomer : Process ℕ (List Envelope)
newcomer = record process { my_threadlocal_mbox = none }

-- The same process, where the mailbox has no descriptor.
abbrev pub silent : Mailbox ℕ
silent = record mine { rxq_fd = none }

abbrev pub silent_process : Process ℕ (List Envelope)
silent_process = record process { mboxes = some (vacant ∷ silent ∷ vacant ∷ []) }

abbrev pub life : LifeCalls
life = record { destructor = true; notice_memory = true; node = true }

mine-Signals : Signals counter 1 mine
mine-Signals = record {
  count = refl;
  ready = λ f e. subst (λ x. waiting x ≡ true) (some-injective _ _ e) refl;
}

receive_takes_example :
    (m' : Mailbox ℕ) × (receive counter (line ∷ []) (timed 50) (timed_out ∷ []) process
      ≡ some (some letter, put_mailbox (record process { transports = [] }) 1 m'))
    × Signals counter 0 m'
    × (m'.is_in_rx ≡ false)
unfolding my_mailbox mailbox_at receive_over
receive_takes_example =
    receive_takes counter (line ∷ []) counter-laws process refl refl letter [] (timed 50)
      (timed_out ∷ []) mine-Signals refl

pub may : MayCreate counter (line ∷ []) life newcomer (98 ∷ []) 0 (2 ∷ []) vacant
may = record {
  up = refl;
  without = refl;
  free = refl;
  slot = refl;
  home = refl;
  short = omega arith;
  destructor = refl;
  node = refl;
}
