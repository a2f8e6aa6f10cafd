-- ===== src/Mailbox/Start/Tests.antt =====
-- A process that starts the library with two mailboxes and one for the library, and that ends it.
use itc_framework.Base.{ℕ, suc, ◌≡◌, refl, true, false, none, some, [], ◌∷◌, arith}
use itc_framework.Mailbox.{Process}
use itc_framework.Mailbox.Start.Exit
use itc_framework.Mailbox.Start.{
  absent, held, freed, Library, InitCalls, first_place, init_over, init, blank,
}
use itc_framework.Mailbox.Start.Exit.{ExitCalls, exit, running, exit_over}
use itc_framework.Mailbox.Start.Ready.{given, SetUp, Succeeds, init_sets_up}
use itc_framework.Mailbox.Start.Again.{init-exit}

abbrev zeroed : Process ℕ ℕ
zeroed = record {
  mboxes = none;
  free_mboxes_queue = [];
  local_locating_mbox_tree = [];
  my_mbox_id_in_itccoord = 0;
  itccoord_mask = 0;
  itccoord_mbox_id = 0;
  local_mbox_mask = 0;
  nr_mboxes = 0;
  my_threadlocal_mbox = none;
  transports = 5;
}

abbrev blank_library : Library ℕ ℕ
blank_library = record { process = zeroed; pid = 0; rc = absent; boxes_freed = false }

-- The second transport finds the coordinator, and counts its starts.
abbrev calls : InitCalls ℕ ℕ
calls = record {
  rc_memory = true;
  pid = 70;
  key_deleted = true;
  mutex = true;
  located = none ∷ some (some (given 2 1048577)) ∷ [];
  memory = true;
  equipped = λ i. true;
  queued = λ i. true;
  key = true;
  tree_mutex = true;
  trans_init = none ∷ some (λ x n force w. (true, suc w)) ∷ [];
  threads = λ p. (true, p);
}

succeeds : Succeeds calls 2 1048577 3 5 6
unfolding first_place init_over
succeeds = record {
  rc_memory = refl;
  mutex = refl;
  located = refl;
  memory = refl;
  equipped = λ i. refl;
  queued = λ i. refl;
  key = refl;
  tree_mutex = refl;
  transports = refl;
  threads = λ p. refl;
}

init_sets_up_example :
    (p : Process ℕ ℕ) × SetUp p 2 3
    × (p.transports ≡ 6)
    × (init calls 2 false blank_library
        ≡ some (true, record { process = p; pid = 70; rc = held; boxes_freed = false }))
init_sets_up_example =
    init_sets_up calls blank_library 2 1048577 2 6 refl refl succeeds (omega arith) (omega arith)

abbrev ending : ExitCalls ℕ ℕ
ending = record {
  rc_memory = true;
  threads = λ p. (true, p);
  destroyed = true;
  trans_exit = none ∷ some (λ w. (true, w)) ∷ [];
  key = true;
  mutexes = true;
  queue = true;
}

abbrev up : Library ℕ ℕ
up = record {
  process = record zeroed {
    mboxes = some (blank 2097152 ∷ blank 2097153 ∷ []);
    free_mboxes_queue = 0 ∷ 1 ∷ [];
    nr_mboxes = 2;
  };
  pid = 70;
  rc = held;
  boxes_freed = false;
}

abbrev down : Library ℕ ℕ
down = record up { rc = absent; boxes_freed = true }

goes_down : exit ending up ≡ some (true, down)
unfolding exit Exit.leave Exit.shut_down running exit_over
goes_down = refl

init-exit_example :
    (init calls 2 false down ≡ some (false, record down { rc = freed }))
    × (init calls 2 false (record down { rc = freed }) ≡ none)
    × (exit ending (record down { rc = freed }) ≡ none)
init-exit_example = init-exit ending (λ p. refl) up down calls 2 false goes_down refl refl
