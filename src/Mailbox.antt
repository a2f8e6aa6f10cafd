-- ===== src/Mailbox.antt =====
-- sw/itc/src/itc.c: the mailboxes of a process and the calls of its threads on them. Locking is left
-- out, a call being one step between the points where it waits. `none` as a result is undefined
-- behaviour. Messages go through the transports, whose state is `W`, and `rxq_fd` is an eventfd,
-- whose state is `F`.
pub mod Calls
pub mod Forward
pub mod Lookup
pub mod Start
pub mod Readiness
pub mod Threads
pub mod Life
pub mod Cycle
mod Tests
use itc_framework.Base.{
  ◌≡◌, ℕ, zero, suc, ◌+◌, Bool, true, false, not, Option, none, some, List, [], ◌∷◌, bit_and, ◌==◌,
  ◌&&◌, ltb, if◌then◌else◌, is_some, ℤ, pos, negsuc, length, get_elem?, set,
}
use itc_framework.Message.{itc_no_mbox_id}
use itc_framework.Proto.{Name, same_name, Packet}

-- `rxq_len++` and `rxq_len--`
abbrev pub inc : ℤ → ℤ
inc (pos n) = pos (suc n)
inc (negsuc zero) = pos 0
inc (negsuc (suc n)) = negsuc n

abbrev pub dec : ℤ → ℤ
dec (pos zero) = negsuc 0
dec (pos (suc n)) = pos n
dec (negsuc n) = negsuc (suc n)

abbrev pub is_zero : ℤ → Bool
is_zero (pos zero) = true
is_zero (pos (suc n)) = false
is_zero (negsuc n) = false

-- What itc.c asks of an eventfd; `none` is a call that fails.
pub record EventFd (F : Type 0) : Type 0 where
  pub write : F → Option F
  pub read : F → Option F
  pub readable : F → Bool

-- eventfd(2): a new counter is 0; it is readable unless it is 0; a write of 1 to a counter that is 0
-- succeeds; a read takes all that is there.
pub record EventFdLaws {F : Type 0} (api : EventFd F) : Type 0 where
  pub write_ok :
      (f : F) → api.readable f ≡ false → (g : F) × (api.write f ≡ some g) × (api.readable g ≡ true)
  pub read_ok :
      (f : F) → api.readable f ≡ true → (g : F) × (api.read f ≡ some g) × (api.readable g ≡ false)

-- A message with the two ids of its header that the transports read.
pub record Envelope : Type 0 where
  pub sender : ℕ
  pub receiver : ℕ
  pub body : Packet

-- The calls of `struct itci_transport_apis` that threads make. Where `rc` comes back, `true` stands
-- for `ITC_OK`.
pub record Transport (W : Type 0) : Type 0 where
  pub create_mbox : Option (ℕ → ℕ → W → Bool × W)
  pub delete_mbox : Option (ℕ → W → Bool × W)
  pub send : Option (Envelope → ℕ → W → Bool × W)
  pub receive : Option (ℕ → W → Option Envelope × W)

-- `struct itc_mailbox` and its `struct mbox_rxq_info`. `attached` is whether `p_rxq_info` is set,
-- `rxq_fd` is there if `is_fd_created`.
pub record Mailbox (F : Type 0) : Type 0 where
  pub mbox_id : ℕ
  pub name : Name
  pub flags : ℕ
  pub in_use : Bool
  pub tid : ℕ
  pub attached : Bool
  pub rxq_len : ℤ
  pub rxq_fd : Option F
  pub is_in_rx : Bool

-- `struct itc_instance`, with the calling thread's `my_threadlocal_mbox`. Pointers to a mailbox are
-- indices into `mboxes`.
pub record Process (F W : Type 0) : Type 0 where
  pub mboxes : Option (List (Mailbox F))
  pub free_mboxes_queue : List ℕ
  pub local_locating_mbox_tree : List ℕ
  pub my_mbox_id_in_itccoord : ℕ
  pub itccoord_mask : ℕ
  pub itccoord_mbox_id : ℕ
  pub local_mbox_mask : ℕ
  pub nr_mboxes : ℕ
  pub my_threadlocal_mbox : Option ℕ
  pub transports : W

module _ {F : Type 0} where
  abbrev pub entry : Option (List (Mailbox F)) → ℕ → Option (Mailbox F)
  entry none i = none
  entry (some t) i = get_elem? t i

  abbrev pub put_entry : Option (List (Mailbox F)) → ℕ → Mailbox F → Option (List (Mailbox F))
  put_entry none i m = none
  put_entry (some t) i m = some (set t i m)

module _ {F W : Type 0} where
  unfoldable pub mailbox_at : Process F W → ℕ → Option (Mailbox F)
  mailbox_at p i = entry p.mboxes i

  unfoldable pub put_mailbox : Process F W → ℕ → Mailbox F → Process F W
  put_mailbox p i m = record p { mboxes = put_entry p.mboxes i m }

  -- The mailbox of the calling thread, in a process that is initialised.
  unfoldable pub my_mailbox : Process F W → Option (ℕ × Mailbox F)
  unfolding mailbox_at
  my_mailbox p = elim p.my_threadlocal_mbox [
    | none ↦ none
    | some i ↦ elim (mailbox_at p i) [ none ↦ none | some m ↦ some (i, m) ]
  ]

  unfoldable pub find_mbox : Process F W → ℕ → Option ℕ
  find_mbox p mbox_id =
      if not (bit_and mbox_id p.itccoord_mask == p.my_mbox_id_in_itccoord)
      then none
      else if ltb (bit_and mbox_id p.local_mbox_mask) p.nr_mboxes
      then some (bit_and mbox_id p.local_mbox_mask)
      else none

  -- `tfind` in the tree of names, which compares through the mailboxes.
  unfoldable pub find_by_name : Process F W → Name → List ℕ → Option ℕ
  unfolding mailbox_at
  find_by_name p n [] = none
  find_by_name p n (i ∷ t) =
      let rest = find_by_name p n t in
      elim (mailbox_at p i) [ none ↦ rest | some m ↦ if same_name n m.name then some i else rest ]

  unfoldable pub locate_local_mbox : Process F W → Name → Option ℕ
  unfolding find_by_name
  locate_local_mbox p n = find_by_name p n p.local_locating_mbox_tree

  pub current_mbox : Process F W → ℕ
  unfolding my_mailbox
  current_mbox p = elim (my_mailbox p) [ none ↦ itc_no_mbox_id | some (i, m) ↦ m.mbox_id ]

  pub get_name : Process F W → ℕ → Option Name
  unfolding my_mailbox
  get_name p mbox_id = elim (my_mailbox p) [
    | none ↦ none
    | some (i, m) ↦ if mbox_id == m.mbox_id then some m.name else none
  ]

module _ {W : Type 0} where
  -- The loops over `trans_mechanisms`.
  unfoldable pub send_over : List (Transport W) → Envelope → ℕ → W → Bool × W
  send_over [] m to w = (false, w)
  send_over (t ∷ ts) m to w = elim t.send [
    | none ↦ send_over ts m to w
    | some f ↦
        let (sent, w') = f m to w in
        let rest = send_over ts m to w' in if sent then (true, w') else rest
  ]

  unfoldable pub receive_over : List (Transport W) → ℕ → W → Option Envelope × W
  receive_over [] id w = (none, w)
  receive_over (t ∷ ts) id w = elim t.receive [
    | none ↦ receive_over ts id w
    | some f ↦
        let (m, w') = f id w in
        let rest = receive_over ts id w' in if is_some m then (m, w') else rest
  ]

  unfoldable pub create_over : List (Transport W) → (id flags : ℕ) → W → Bool × W
  create_over [] id flags w = (true, w)
  create_over (t ∷ ts) id flags w = elim t.create_mbox [
    | none ↦ create_over ts id flags w
    | some f ↦
        let (done, w') = f id flags w in
        let rest = create_over ts id flags w' in if done then rest else (false, w')
  ]

  unfoldable pub delete_over : List (Transport W) → (id : ℕ) → W → Bool × W
  delete_over [] id w = (true, w)
  delete_over (t ∷ ts) id w = elim t.delete_mbox [
    | none ↦ delete_over ts id w
    | some f ↦
        let (done, w') = f id w in
        let rest = delete_over ts id w' in if done then rest else (false, w')
  ]
