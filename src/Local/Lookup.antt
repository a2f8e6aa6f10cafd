-- ===== src/Local/Lookup.antt =====
-- find_localmbx_data of itc_local.c against the table that local_init lays out.
use itc_framework.Base.{
  ℕ, zero, suc, ◌+◌, ◌-◌, ◌*◌, ◌/◌, ◌%◌, ◌^◌, ◌≤◌, ◌<◌, ◌≡◌, refl, ◌≢◌, Bool, true, false, ◌&&◌,
  none, some, List, arith, bit_and, bit_or, ltb, leb, ◌==◌, if◌then◌else◌, is_some, length,
  replicate, length-replicate, bit_and-low, bit_and-mask, pow_le, bit_and-low_under, bit_and-high,
  bit_or-fields, test_eq, test_ne, Bool-cases, inl, inr, test_true, and_true, test_lt, test_ge,
}
use native.Mathlib.Nat.{two-pow-succ}
use native.Mathlib.Numerals.{add-one}
use native.Mathlib.Decide.{ℕ_discrete, dec_lt}
use itc_framework.Memory.{Ptr, null, Heap, ended, raise, itc_not_this_proc, itc_out_of_range}
use itc_framework.Memory.Returns.{Returns, returns}
use itc_framework.Local.{
  LocalInstance, LocalMboxData, no_mbox, bit_length, mask_of, find_localmbx_data, setup, init,
  itc_max_mailboxes,
}

-- `ITC_COORD_MASK`
abbrev pub itc_coord_mask : ℕ
itc_coord_mask = 0xfff00000

-- The ids of a process: its slot in itccoord above, the mailbox in the low 20 bits.
abbrev pub own_id : (process i : ℕ) → ℕ
own_id process i = bit_or (process * 2 ^ 20) i

pub lt-bit_length : (k n : ℕ) → n < 2 ^ k → (n < 2 ^ bit_length k n) × (bit_length k n ≤ k)
unfolding bit_length
lt-bit_length zero n h = omega arith
lt-bit_length (suc k) n h = elim (Bool-cases (n == 0)) [
  | inl done ↦ rw done (ground arith)
  | inr more ↦
      let ih = lt-bit_length k (n / 2) (omega (arith, two-pow-succ k)) in
      rw more (rw add-one (omega (arith, ih.0, ih.1, two-pow-succ (bit_length k (n / 2)))))
]

pub bit_length-le : (k j n : ℕ) → n < 2 ^ j → bit_length k n ≤ j
unfolding bit_length
bit_length-le zero j n h = omega arith
bit_length-le (suc k) zero n h = let e : n ≡ 0 = omega arith in rw e (omega arith)
bit_length-le (suc k) (suc j) n h =
    ground (arith, bit_length-le k j (n / 2) (omega (arith, two-pow-succ j)))

pos_of_lt_pow : (k n : ℕ) → 0 < n → n < 2 ^ k → 0 < k
pos_of_lt_pow zero n some_n h = absurd (omega arith)
pos_of_lt_pow (suc k) n some_n h = omega arith

even_pow : (k : ℕ) → 0 < k → (e : ℕ) × (2 ^ k ≡ e + e)
even_pow zero h = absurd (omega arith)
even_pow (suc k) h = (2 ^ k, two-pow-succ k)

-- The table has `2 ^ k` slots, more than there are mailboxes.
all_masks : ℕ → Bool
all_masks zero = 0xffffffff / 2 ^ 32 == 2 ^ 0 - 1
all_masks (suc k) = (0xffffffff / 2 ^ (32 - suc k) == 2 ^ suc k - 1) && all_masks k

all_masks_sound : (n k : ℕ) → all_masks n ≡ true → k ≤ n → 0xffffffff / 2 ^ (32 - k) ≡ 2 ^ k - 1
unfolding all_masks
all_masks_sound zero zero h le = refl
all_masks_sound zero (suc k) h le = absurd (omega arith)
all_masks_sound (suc n) k h le = elim (ℕ_discrete k (suc n)) [
  | yes e ↦ rw e (test_true _ _ (and_true _ (all_masks n) h).0)
  | no ne ↦
      all_masks_sound n k (and_true (0xffffffff / 2 ^ (32 - suc n) == 2 ^ suc n - 1) _ h).1
        (omega arith)
]

masks_table : all_masks 32 ≡ true
unfolding all_masks
masks_table = refl

-- `0xFFFFFFFF >> CLZ(n)` is a row of ones that is at least as long as `n`.
pub mask_of_lem : (n : ℕ) → n < 2 ^ 32 → (mask_of n ≡ 2 ^ bit_length 32 n - 1) × (n ≤ mask_of n)
unfolding mask_of
mask_of_lem n h =
    let (fits, short) = lt-bit_length 32 n h in
    let e : 0xffffffff / 2 ^ (32 - bit_length 32 n) ≡ 2 ^ bit_length 32 n - 1 =
      all_masks_sound 32 (bit_length 32 n) masks_table short in
    (e, omega (arith, e))

-- The two masks that find_localmbx_data applies to an id of the own process.
pub own_id-fields : (process i : ℕ) → i < 2 ^ 20 → own_id process i ≡ process * 2 ^ 20 + i
own_id-fields process i h = bit_or-fields 20 process i h

pub coord-own_id :
    (process i : ℕ)
    → process < 2 ^ 12
    → i < 2 ^ 20
    → bit_and (own_id process i) itc_coord_mask ≡ process * 2 ^ 20
coord-own_id process i hp hi =
    let e : bit_and process (2 ^ 12 - 1) ≡ process = bit_and-mask 12 process hp in
    rw (own_id-fields process i hi, bit_and-high 20 process (2 ^ 12 - 1) i hi, e)

-- The mask 65534 drops the lowest bit, and the bits from the seventeenth on.
range-own_id :
    (process i : ℕ) → i < 2 ^ 16 → bit_and (own_id process i) itc_max_mailboxes ≡ i / 2 * 2
range-own_id process i hi =
    let big : i < 2 ^ 20 = omega arith in
    let split : process * 2 ^ 20 + i ≡ (process * 16 * 2 ^ 15 + i / 2) * 2 ^ 1 + i % 2 =
      omega arith in
    rw (
      own_id-fields process i big,
      split,
      bit_and-high 1 (process * 16 * 2 ^ 15 + i / 2) (2 ^ 15 - 1) (i % 2) (omega arith),
      bit_and-low 15 (process * 16) (i / 2) (omega arith),
    )

local-own_id :
    (k process i : ℕ) → k ≤ 20 → i < 2 ^ k → i < 2 ^ 20 → bit_and (own_id process i) (2 ^ k - 1) ≡ i
local-own_id k process i hk hi big =
    rw (own_id-fields process i big) (bit_and-low_under 20 k process i hk hi)

-- An instance as local_init lays it out, for a process of the coordinator and `2 ^ k` slots.
pub record LaidOut (inst : LocalInstance) (process k : ℕ) : Type 0 where
  pub my : inst.my_mbox_id_in_itccoord ≡ process * 2 ^ 20
  pub coord_mask : inst.itccoord_mask ≡ itc_coord_mask
  pub local_mask : inst.local_mbox_mask ≡ 2 ^ k - 1
  pub count : inst.nr_localmbx_datas ≡ 2 ^ k
  pub table : (t : List LocalMboxData) × (inst.localmbx_data ≡ some t) × (length t ≡ 2 ^ k)
  pub known : process < 2 ^ 12
  pub even : 0 < k
  pub small : k ≤ 16

module _ (inst : LocalInstance) (process k : ℕ) (l : LaidOut inst process k) where
  ready : is_some inst.localmbx_data ≡ true
  ready = let (t, at, _) = l.table in rw at

  pub find-own :
      (h : Heap) (i : ℕ)
      → i < 2 ^ k
      → find_localmbx_data inst (own_id process i) h ≡ ended (some i) h
  unfolding find_localmbx_data
  find-own h i hi =
      let low : i < 2 ^ 16 = omega (arith, pow_le 16 k l.small) in
      let big : i < 2 ^ 20 = omega arith in
      let mine : bit_and (own_id process i) inst.itccoord_mask ≡ inst.my_mbox_id_in_itccoord =
        rw (l.coord_mask, l.my) (coord-own_id process i l.known big) in
      let below : leb inst.nr_localmbx_datas (bit_and (own_id process i) itc_max_mailboxes)
          ≡ false =
        rw (l.count, range-own_id process i low) (ground arith) in
      let here : bit_and (own_id process i) inst.local_mbox_mask ≡ i =
        rw l.local_mask (local-own_id k process i (omega (arith, l.small)) hi big) in
      rw (ready, test_eq mine, below, here)

  pub find-out_of_range :
      (h : Heap) (i : ℕ)
      → 2 ^ k ≤ i
      → i < 2 ^ 16
      → find_localmbx_data inst (own_id process i) h
        ≡ ended none (record h { rc = bit_or h.rc itc_out_of_range })
  unfolding find_localmbx_data raise
  find-out_of_range h i hi low =
      let big : i < 2 ^ 20 = omega arith in
      let mine : bit_and (own_id process i) inst.itccoord_mask ≡ inst.my_mbox_id_in_itccoord =
        rw (l.coord_mask, l.my) (coord-own_id process i l.known big) in
      let beyond : leb inst.nr_localmbx_datas (bit_and (own_id process i) itc_max_mailboxes)
          ≡ true =
        rw (l.count, range-own_id process i low)
          (let (e, twice) = even_pow k l.even in ground arith) in
      rw (ready, test_eq mine, beyond)

  pub find-foreign :
      (h : Heap) (other i : ℕ)
      → other < 2 ^ 12
      → other ≢ process
      → i < 2 ^ 20
      → find_localmbx_data inst (own_id other i) h
        ≡ ended none (record h { rc = bit_or h.rc itc_not_this_proc })
  unfolding find_localmbx_data raise
  find-foreign h other i known ne big =
      let foreign : bit_and (own_id other i) inst.itccoord_mask ≢ inst.my_mbox_id_in_itccoord =
        rw (l.coord_mask, l.my, coord-own_id other i known big) (omega arith) in
      rw (ready, test_ne foreign)

-- What find_localmbx_data answers in a process that local_init has set up with `2 ^ k` slots, for
-- any process number and any mailbox number below 2^16: its own number is the slot's index; a
-- number with no slot is out of range; an id of another process is not of this process. The answer
-- depends on nothing else, and only the return code changes.
pub find_classifies :
    (h : Heap) (inst : LocalInstance) (process k other i : ℕ)
    → LaidOut inst process k
    → other < 2 ^ 12
    → i < 2 ^ 16
    → find_localmbx_data inst (own_id other i) h ≡ (
        if other == process
        then if ltb i (2 ^ k)
          then ended (some i) h
          else ended none (record h { rc = bit_or h.rc itc_out_of_range })
        else ended none (record h { rc = bit_or h.rc itc_not_this_proc }))
find_classifies h inst process k other i l known low = elim (ℕ_discrete other process) [
  | no ne ↦ rw (test_ne ne) (find-foreign inst process k l h other i known ne (omega arith))
  | yes e ↦
      rw (test_eq e, e)
        (elim (dec_lt i (2 ^ k)) [
          | yes hi ↦ rw (test_lt hi) (find-own inst process k l h i hi)
          | no out ↦
              rw (test_ge {a = i} {b = 2 ^ k} (omega arith))
                (find-out_of_range inst process k l h i (omega arith) low)
        ])
]

-- A first local_init, or one after local_exit, for fewer than 2^16 mailboxes: with memory for the
-- table it lays out an empty slot for each mailbox and more, a power of two of them, under the ids
-- of this process, and changes no memory.
pub init_lays_out :
    (h : Heap) (up : Bool) (fuel : ℕ) (inst : LocalInstance) (fresh : Ptr)
    (process nr_mboxes flags : ℕ)
    → inst.localmbx_data ≡ none
    → fresh ≢ null
    → process < 2 ^ 12
    → 0 < nr_mboxes
    → nr_mboxes < 2 ^ 16
    → Returns
        (λ inst' g.
          (g ≡ h)
          × ((k : ℕ) × LaidOut inst' process k
              × (nr_mboxes < 2 ^ k)
              × (inst'.localmbx_data ≡ some (replicate (2 ^ k) no_mbox))))
        (init up fuel inst fresh (process * 2 ^ 20) itc_coord_mask nr_mboxes flags h)
unfolding init setup
init_lays_out h up fuel inst fresh process nr_mboxes flags blank ne known some_boxes few =
    let k = bit_length 32 nr_mboxes in
    let (mask, covers) = mask_of_lem nr_mboxes (omega arith) in
    let short : k ≤ 16 = bit_length-le 32 16 nr_mboxes few in
    let (fits, _) = lt-bit_length 32 nr_mboxes (omega arith) in
    let size : (mask_of nr_mboxes + 1) % 2 ^ 32 ≡ 2 ^ k =
      omega (arith, mask, fits, pow_le 16 k short) in
    rw (blank, test_ne ne, size)
      (returns (
        refl,
        (
          k,
          record {
            my = refl;
            coord_mask = refl;
            local_mask = mask;
            count = refl;
            table = (replicate (2 ^ k) no_mbox, refl, length-replicate (2 ^ k) no_mbox);
            known = known;
            even = pos_of_lt_pow k nr_mboxes some_boxes fits;
            small = short;
          },
          fits,
          refl,
        ),
      ))
