-- ===== src/Local/Table.antt =====
-- The table of itc_local.c as a map from mailbox numbers to what their rx queues carry.
use itc_framework.Base.{
  ℕ, zero, suc, ◌^◌, ◌<◌, ◌≡◌, refl, sym, ◌∙◌, ◌≢◌, true, inl, inr, Option, none, some, List, [],
  arith, ◌==◌, if◌then◌else◌, is_some, length, get_elem?, set, replicate, get_elem?-set_self,
  get_elem?-set_ne, test_eq, test_ne, Bool-cases,
}
use mathlib.Core.Path.{subst}
use native.Mathlib.Decide.{ℕ_discrete}
use itc_framework.Memory.{Ptr, Heap}
use itc_framework.Memory.Chain.{Cells, Apart, ◌∈◌, ◌∉◌, among, frame, not-mem_of_none}
use itc_framework.Memory.Items.{carries}
use itc_framework.Rxq.{RxQueue}
use itc_framework.Rxq.Shape.{AllMessages-frame, IsRxQueue}
use itc_framework.Local.{LocalInstance, LocalMboxData, no_mbox}
use itc_framework.Local.Lookup.{LaidOut}

-- What the mailboxes of a process hold: `none` where there is no mailbox.
abbrev pub Boxes : Type 0
Boxes = ℕ → Option Cells

abbrev pub cells : Option Cells → Cells
cells none = []
cells (some xs) = xs

abbrev pub with_box : Boxes → ℕ → Option Cells → Boxes
with_box bs i v j = if j == i then v else bs j

-- A slot's queue holds what the map says.
pub data Holds (h : Heap) : Option RxQueue → Option Cells → Type 0 where
  vacant : Holds h none none
  queued : {q : RxQueue} {xs : Cells} → IsRxQueue h q xs → Holds h (some q) (some xs)

pub Holds-frame :
    {h : Heap} (g : Heap) {r : Option RxQueue} {v : Option Cells}
    → Holds h r v
    → ((a : Ptr) → a ∈ cells v → g.nodes a ≡ h.nodes a)
    → ((a : Ptr)
        → carries a (cells v) ≡ true
        → is_some (h.messages a) ≡ true
        → is_some (g.messages a) ≡ true)
    → Holds g r v
Holds-frame g vacant same keep = vacant
Holds-frame {h} g (queued {xs} is) same keep = queued (record {
  before = is.before;
  chain = frame is.chain same;
  closed = is.closed;
  messages = AllMessages-frame h g xs keep is.messages;
})

-- What a slot holds, where the map shows a queue, and where it shows none.
pub queue_of :
    {h : Heap} {r : Option RxQueue} {v : Option Cells} {xs : Cells}
    → Holds h r v
    → v ≡ some xs
    → (q : RxQueue) × (r ≡ some q) × IsRxQueue h q xs
queue_of vacant e = cc
queue_of {h} {xs} (queued {q} {xs = ys} is) e =
    let same : ys ≡ xs = ground arith in (q, refl, subst (IsRxQueue h q) same is)

pub vacant_of :
    {h : Heap} {r : Option RxQueue} {v : Option Cells} → Holds h r v → v ≡ none → r ≡ none
vacant_of vacant e = refl
vacant_of (queued is) e = cc

pub record IsTable (h : Heap) (t : List LocalMboxData) (bs : Boxes) : Type 0 where
  pub slots : (i : ℕ) (s : LocalMboxData) → get_elem? t i ≡ some s → Holds h s.rxq (bs i)
  pub outside : (i : ℕ) → get_elem? t i ≡ none → bs i ≡ none
  pub apart : (i j : ℕ) → i ≢ j → Apart (cells (bs i)) (cells (bs j))

-- One slot is written, in a memory in which the others' queues are as before.
pub set-IsTable :
    {h : Heap} (g : Heap) {t : List LocalMboxData} {bs : Boxes} (i : ℕ) (s : LocalMboxData)
    (v : Option Cells)
    → IsTable h t bs
    → i < length t
    → Holds g s.rxq v
    → ((j : ℕ) → j ≢ i → (a : Ptr) → a ∈ cells (bs j) → g.nodes a ≡ h.nodes a)
    → ((j : ℕ)
        → j ≢ i
        → (a : Ptr) → carries a (cells (bs j)) ≡ true
        → is_some (h.messages a) ≡ true
        → is_some (g.messages a) ≡ true)
    → ((j : ℕ) → j ≢ i → Apart (cells v) (cells (bs j)))
    → IsTable g (set t i s) (with_box bs i v)
set-IsTable {h} g {t} {bs} i s v is inside holds same keep away = record {
  slots = λ j r at. elim (ℕ_discrete j i) [
    | yes e ↦
        let at' : get_elem? (set t i s) i ≡ some r = rw e at at in
        let eq : s ≡ r = ground (arith, get_elem?-set_self t i s inside) in
        rw (test_eq e) (subst (λ r'. Holds g r'.rxq v) eq holds)
    | no ne ↦
        let at' : get_elem? t j ≡ some r = sym (get_elem?-set_ne t i j s (λ e. ne (sym e))) ∙ at in
        rw (test_ne ne) (Holds-frame g (is.slots j r at') (same j ne) (keep j ne))
  ];
  outside = λ j at. elim (ℕ_discrete j i) [
    | yes e ↦
        let at' : get_elem? (set t i s) i ≡ none = rw e at at in
        absurd (ground (arith, get_elem?-set_self t i s inside))
    | no ne ↦ rw (test_ne ne) (is.outside j (sym (get_elem?-set_ne t i j s (λ e. ne (sym e))) ∙ at))
  ];
  apart = λ j l ne a m. elim (ℕ_discrete j i) [
    | yes e ↦
        let other : l ≢ i = (λ d. ne (e ∙ sym d)) in
        rw (test_ne other) (away l other a (rw (test_eq e) at m))
    | no nj ↦
        let m' : a ∈ cells (bs j) = rw (test_ne nj) at m in
        elim (ℕ_discrete l i) [
          | yes e ↦ rw (test_eq e) (elim (Bool-cases (among a (cells v))) [
            | inl both ↦ ground (arith, away j nj a)
            | inr out ↦ out
          ])
          | no nl ↦ rw (test_ne nl) (is.apart j l ne a m')
        ]
  ];
}

-- The process is set up, and its mailboxes hold `bs`.
pub record Ready (h : Heap) (inst : LocalInstance) (process k : ℕ) (bs : Boxes) : Type 0 where
  pub laid : LaidOut inst process k
  pub table :
      (t : List LocalMboxData) × (inst.localmbx_data ≡ some t) × (length t ≡ 2 ^ k) × IsTable h t bs

pub ap_rxq : (r s : LocalMboxData) → some r ≡ some s → r.rxq ≡ s.rxq
ap_rxq r s e = ground arith

-- After local_init every slot is vacant.
pub replicate-IsTable : (h : Heap) (n : ℕ) → IsTable h (replicate n no_mbox) (λ _. none)
replicate-IsTable h n = record {
  slots = vacant_slots n;
  outside = λ i at. refl;
  apart = λ i j ne a m. refl;
}
  where
    vacant_slots :
        (n i : ℕ) (s : LocalMboxData)
        → get_elem? (replicate n no_mbox) i ≡ some s
        → Holds h s.rxq none
    vacant_slots zero i s at = cc
    vacant_slots (suc n) zero s at = subst (λ r. Holds h r none) (ap_rxq no_mbox s at) vacant
    vacant_slots (suc n) (suc i) s at = vacant_slots n i s at

Holds-unused :
    {h : Heap} {r : Option RxQueue} {v : Option Cells} (a : Ptr)
    → Holds h r v
    → h.nodes a ≡ none
    → a ∉ cells v
Holds-unused a vacant unused = refl
Holds-unused a (queued is) unused = not-mem_of_none a is.chain unused

-- No queue of the process uses an unused address.
pub unused-not-mem :
    {h : Heap} {t : List LocalMboxData} {bs : Boxes} (a : Ptr)
    → IsTable h t bs
    → h.nodes a ≡ none
    → (j : ℕ) → a ∉ cells (bs j)
unused-not-mem {h} {t} {bs} a is unused j = go (get_elem? t j) refl
  where
    go : (o : Option LocalMboxData) → get_elem? t j ≡ o → a ∉ cells (bs j)
    go none e = rw (is.outside j e)
    go (some s) e = Holds-unused a (is.slots j s e) unused
