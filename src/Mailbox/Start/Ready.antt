-- ===== src/Mailbox/Start/Ready.antt =====
-- What a first itc_init_zz of itc.c sets up.
use mathlib.Core.Path.{ap₂}
use itc_framework.Base.{
  ℕ, zero, suc, ◌+◌, ◌*◌, ◌<◌, ◌≤◌, ◌^◌, ◌≡◌, refl, ap, ◌∙◌, ◌≢◌, Bool, true, false, none, some,
  List, [], ◌∷◌, arith, bit_and, bit_or, is_some, get_elem?, test_eq, test_ne, test_lt,
  bit_and-low_under,
}
use itc_framework.Local.{bit_length, mask_of}
use itc_framework.Local.Lookup.{
  itc_coord_mask, own_id, own_id-fields, coord-own_id, mask_of_lem, bit_length-le, lt-bit_length,
}
use itc_framework.Mailbox.{Mailbox, Process, mailbox_at, find_mbox}
use itc_framework.Mailbox.Start.{
  absent, held, Library, Place, InitCalls, first_place, place_of, blank, equip_all, init_over,
  lay_out, start, allocate, bring_up, enter, init,
}

abbrev pub upto : (i n : ℕ) → List ℕ
upto i zero = []
upto i (suc n) = i ∷ upto (i + 1) n

abbrev blanks : {F : Type 0} → (my i n : ℕ) → List (Mailbox F)
blanks my i zero = []
blanks my i (suc n) = blank (bit_or my i) ∷ blanks my (i + 1) n

-- The mailboxes of process number `process` after a start with `n` of them: each has its id and is
-- free, in order; an id of the process leads to its mailbox, and one of another process to none.
pub record SetUp {F W : Type 0} (p : Process F W) (process n : ℕ) : Type 0 where
  pub boxes : (k : ℕ) → k < n → mailbox_at p k ≡ some (blank (own_id process k))
  pub queue : p.free_mboxes_queue ≡ upto 0 n
  pub own : (k : ℕ) → k < n → find_mbox p (own_id process k) ≡ some k
  pub foreign :
      (other k : ℕ)
      → other < 2 ^ 12
      → k < 2 ^ 20
      → other ≢ process
      → find_mbox p (own_id other k) ≡ none

-- What the coordinator gives to the process.
abbrev pub given : (process coord : ℕ) → Place
given process coord = record {
  my_mbox_id_in_itccoord = process * 2 ^ 20;
  itccoord_mask = itc_coord_mask;
  itccoord_mbox_id = coord;
}

-- Calls that all succeed, in a process to which the coordinator gives the number `process`. `w` is
-- what the transports have become.
pub record Succeeds {F W : Type 0} (io : InitCalls F W) (process coord n : ℕ) (before w : W)
    : Type 0 where
  pub rc_memory : io.rc_memory ≡ true
  pub mutex : io.mutex ≡ true
  pub located : first_place io.located ≡ some (given process coord)
  pub memory : io.memory ≡ true
  pub equipped : (i : ℕ) → io.equipped i ≡ true
  pub queued : (i : ℕ) → io.queued i ≡ true
  pub key : io.key ≡ true
  pub tree_mutex : io.tree_mutex ≡ true
  pub transports : init_over io.trans_init (given process coord) n false before ≡ (true, w)
  pub threads : (p : Process F W) → (io.threads p).0 ≡ true

equip_all-blanks :
    {F : Type 0} (equipped queued : ℕ → Bool) (my i n : ℕ)
    → ((j : ℕ) → equipped j ≡ true)
    → ((j : ℕ) → queued j ≡ true)
    → equip_all {F = F} equipped queued my i n ≡ (blanks my i n, upto i n, true)
unfolding equip_all
equip_all-blanks equipped queued my i zero e q = refl
equip_all-blanks {F} equipped queued my i (suc n) e q =
    rw (e i, q i, equip_all, equip_all-blanks {F = F} equipped queued my (i + 1) n e q) refl

blanks_at :
    {F : Type 0} (my i n k : ℕ)
    → k < n
    → get_elem? (blanks {F = F} my i n) k ≡ some (blank (bit_or my (i + k)))
blanks_at my i zero k h = absurd (omega arith)
blanks_at my i (suc n) zero h = ap (λ j. some (blank (bit_or my j))) (omega arith)
blanks_at my i (suc n) (suc k) h =
    blanks_at my (i + 1) n k (omega arith) ∙ ap (λ j. some (blank (bit_or my j))) (omega arith)

module _ {F W : Type 0} where
  -- The process after a loop that came to its end.
  abbrev laid : (process coord n : ℕ) → W → Process F W → Process F W
  laid process coord n w p = record p {
    my_mbox_id_in_itccoord = process * 2 ^ 20;
    itccoord_mask = itc_coord_mask;
    itccoord_mbox_id = coord;
    mboxes = some (blanks (process * 2 ^ 20) 0 n);
    free_mboxes_queue = upto 0 n;
    local_mbox_mask = mask_of n;
    nr_mboxes = n;
    transports = w;
  }

  laid-SetUp :
      (process coord n : ℕ) (w : W) (p : Process F W)
      → process < 2 ^ 12
      → n < 2 ^ 16
      → SetUp (laid process coord n w p) process n
  unfolding mailbox_at find_mbox
  laid-SetUp process coord n w p known few =
      let b = bit_length 32 n in
      let (mask, covers) = mask_of_lem n (omega arith) in
      let short : b ≤ 16 = bit_length-le 32 16 n few in
      let (fits, _) = lt-bit_length 32 n (omega arith) in
      record {
        boxes = λ k h.
            blanks_at (process * 2 ^ 20) 0 n k h
            ∙ ap (λ j. some (blank (bit_or (process * 2 ^ 20) j))) (omega arith);
        queue = refl;
        own = λ k h.
            let at_home = coord-own_id process k known (omega arith) in
            let index : bit_and (own_id process k) (mask_of n) ≡ k =
              ap₂ bit_and (own_id-fields process k (omega arith)) mask
              ∙ bit_and-low_under 20 b process k (omega arith) (omega arith) in
            rw (at_home, test_eq {a = process * 2 ^ 20} refl, index, test_lt h) refl;
        foreign = λ other k h hk ne.
            let away : bit_and (own_id other k) itc_coord_mask ≢ process * 2 ^ 20 =
              rw (coord-own_id other k h hk) (omega arith) in
            rw (test_ne away) refl;
      }

  -- The first itc_init_zz of a process that is not the coordinator's, for fewer than 2^16 mailboxes
  -- with the one that it adds for itself, where all calls succeed and the coordinator gives it a
  -- number below 2^12: it returns true and keeps `rc`, and start_itcthreads gets a process whose
  -- mailboxes are all free, in order, each with an id that leads to it alone.
  pub init_sets_up :
      (io : InitCalls F W) (l : Library F W) (process coord nr_mboxes : ℕ) (w : W)
      → l.process.mboxes ≡ none
      → l.rc ≡ absent
      → Succeeds io process coord (nr_mboxes + 1) l.process.transports w
      → process < 2 ^ 12
      → nr_mboxes + 1 < 2 ^ 16
      → (p : Process F W) × SetUp p process (nr_mboxes + 1)
        × (p.transports ≡ w)
        × (init io nr_mboxes false l
            ≡ some (
              true,
              record { process = (io.threads p).1; pid = io.pid; rc = held; boxes_freed = false },
            ))
  unfolding init enter bring_up place_of allocate start lay_out
  init_sets_up io l process coord nr_mboxes w first no_rc s known few =
      let n = nr_mboxes + 1 in
      let p = laid process coord n w l.process in
      let all =
        equip_all-blanks {F = F} io.equipped io.queued (process * 2 ^ 20) 0 n s.equipped s.queued in
      let none_yet : is_some l.process.mboxes ≡ false = ap is_some first in
      (
        p,
        laid-SetUp process coord n w l.process known few,
        refl,
        rw
            (
              no_rc,
              init,
              s.rc_memory,
              none_yet,
              s.mutex,
              s.located,
              s.memory,
              all,
              s.equipped 0,
              s.key,
              s.tree_mutex,
              s.transports,
              s.threads p,
            )
            refl,
      )
