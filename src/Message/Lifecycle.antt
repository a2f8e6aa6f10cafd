-- ===== src/Message/Lifecycle.antt =====
-- The life of a message: itc_alloc_zz makes it, itc_free_zz takes it back or refuses.
use itc_framework.Base.{
  ℕ, ◌+◌, ◌-◌, ◌%◌, ◌<◌, ◌≤◌, ◌^◌, ◌≡◌, refl, ◌≢◌, Bool, true, false, inl, inr, none, some, arith,
  bit_and, ltb, ◌==◌, length, replicate, get_elem?-set_self, length-replicate, length-set, test_ne,
  Bool-cases,
}
use itc_framework.Memory.{Ptr, null, Message, Heap, update, ended, ◌>>=◌, get_rc, itc_ok}
use itc_framework.Memory.Returns
use itc_framework.Memory.Returns.{Returns, returns}
use itc_framework.Memory.Access.{load_message-ended}
use itc_framework.Memory.Update.{update-update, update_self}
use itc_framework.Alloc
use itc_framework.Message.{
  itc_no_mbox_id, msg_in_rx_queue, endpoint, reset_rc, byte_at, stamp, at_least_msgno, alloc,
  release, checked, free,
}

-- A message as itc_alloc_zz hands it out, for a request of `size` bytes.
pub record Fresh (n no : ℕ) (m : Message) : Type 0 where
  pub flags : m.flags ≡ 0
  pub sender : m.sender ≡ itc_no_mbox_id
  pub receiver : m.receiver ≡ itc_no_mbox_id
  pub size : m.size ≡ at_least_msgno n
  pub msgno : m.msgno ≡ no
  pub room : length m.payload ≡ at_least_msgno n - 3
  pub guarded : byte_at m m.size ≡ some endpoint

stamp-Fresh :
    (m : Message) (size msgno : ℕ)
    → length m.payload ≡ at_least_msgno size - 3
    → size < 2 ^ 32
    → Fresh size msgno (stamp m (at_least_msgno size) msgno)
unfolding stamp byte_at
stamp-Fresh m size msgno len small = record {
  flags = refl;
  sender = refl;
  receiver = refl;
  size = ground arith;
  msgno = refl;
  room = ground (arith, length-set m.payload (at_least_msgno size - 4) endpoint);
  guarded = ground (arith, get_elem?-set_self m.payload (at_least_msgno size - 4) endpoint);
}

-- What a successful itc_alloc_zz leaves behind.
pub record Allocated (h : Heap) (fresh : Ptr) (size msgno : ℕ) (r : Ptr) (g : Heap) : Type 0 where
  pub address : r ≡ fresh
  pub message : (m : Message) × (g.messages ≡ update h.messages fresh (some m)) × Fresh size msgno m
  pub nodes : g.nodes ≡ h.nodes
  pub rc : g.rc ≡ itc_ok

pub alloc_succeeds :
    (h : Heap) (max : ℕ) (fresh : Ptr) (size msgno : ℕ)
    → fresh ≢ null
    → at_least_msgno size + 17 ≤ max
    → max < 2 ^ 32
    → Returns (Allocated h fresh size msgno) (alloc true max fresh size msgno h)
unfolding alloc Alloc.alloc reset_rc
alloc_succeeds h max fresh size msgno ne fits small =
    let n = at_least_msgno size in
    let whole : (n + 16 + 1) % 2 ^ 64 ≡ n + 17 = ground arith in
    let given : ltb max (n + 17) ≡ false = ground arith in
    let blank : Message = record {
      flags = 0;
      receiver = 0;
      sender = 0;
      size = 0;
      msgno = 0;
      payload = replicate (n + 17 - 20) 0;
    } in
    let h1 = record h { messages = update h.messages fresh (some blank); rc = itc_ok } in
    rw (whole, given, test_ne ne, test_ne ne, load_message-ended h1 {m = blank} ne (ground arith))
      (returns (record {
        address = refl;
        message = (
          stamp blank n msgno,
          update-update h.messages fresh (some blank) (some (stamp blank n msgno)),
          stamp-Fresh blank size msgno (omega (arith, length-replicate {A = ℕ} (n + 17 - 20) 0))
              (ground arith),
        );
        nodes = refl;
        rc = refl;
      }))

-- The reasons for which itc_alloc_zz gives no message: ITC is not up, the request does not fit the
-- allocator's limit, or memory is exhausted.
pub data Refused (up : Bool) (max : ℕ) (fresh : Ptr) (size : ℕ) : Type 0 where
  down : up ≡ false → Refused up max fresh size
  large : max < (at_least_msgno size + 17) % 2 ^ 64 → Refused up max fresh size
  exhausted : fresh ≡ null → Refused up max fresh size

-- What itc_free_zz demands of a message: it is in no rx queue, and its endpoint byte is whole.
pub record Releasable (m : Message) : Type 0 where
  pub idle : bit_and m.flags msg_in_rx_queue ≡ 0
  pub whole : byte_at m m.size ≡ some endpoint

module _ (h : Heap) (msg : Ptr) (m : Message) (ne : msg ≢ null)
    (there : h.messages msg ≡ some m) where
  -- A message that is in no rx queue and whose endpoint byte is whole is freed by itc_free_zz: it
  -- says so, exactly that block is given back, and the return code is clean.
  pub free_releases :
      Releasable m
      → free true msg h
        ≡ ended true (record h { messages = update h.messages msg none; rc = itc_ok })
  unfolding free checked release reset_rc Alloc.free get_rc
  free_releases r = rw (
    test_ne ne,
    load_message-ended h ne there,
    r.idle,
    r.whole,
    test_ne ne,
    load_message-ended (record h { rc = itc_ok }) ne there,
  )

  -- A message that still stands in an rx queue is not freed by itc_free_zz, which says so and
  -- changes nothing.
  pub free_keeps_queued : bit_and m.flags msg_in_rx_queue ≢ 0 → free true msg h ≡ ended false h
  unfolding free checked
  free_keeps_queued busy = rw (test_ne ne, load_message-ended h ne there, test_ne busy)

  -- A message whose endpoint byte was overwritten is not freed by itc_free_zz, which says so and
  -- changes nothing.
  pub free_keeps_damaged :
      (b : ℕ) → byte_at m m.size ≡ some b → b ≢ endpoint → free true msg h ≡ ended false h
  unfolding free checked
  free_keeps_damaged b at bad = elim (Bool-cases (bit_and m.flags msg_in_rx_queue == 0)) [
    | inl idle ↦ rw (test_ne ne, load_message-ended h ne there, idle, at, test_ne bad)
    | inr busy ↦ rw (test_ne ne, load_message-ended h ne there, busy)
  ]

Fresh-Releasable : {n no : ℕ} {m : Message} → Fresh n no m → Releasable m
Fresh-Releasable f = record { idle = rw f.flags; whole = f.guarded }

-- itc_alloc_zz of a request that fits, with memory from `malloc`, and then itc_free_zz of the
-- result: both succeed without a fault, and the memory is as it was before, with a clean return
-- code.
pub free-alloc :
    (h : Heap) (max : ℕ) (fresh : Ptr) (size msgno : ℕ)
    → fresh ≢ null
    → h.messages fresh ≡ none
    → at_least_msgno size + 17 ≤ max
    → max < 2 ^ 32
    → Returns
        (λ done g.
          (done ≡ true) × (g.messages ≡ h.messages) × (g.nodes ≡ h.nodes) × (g.rc ≡ itc_ok))
        ((alloc true max fresh size msgno >>= free true) h)
free-alloc h max fresh size msgno ne unused fits small =
    Returns.bind (alloc_succeeds h max fresh size msgno ne fits small) λ r g a.
      let (m, at, f) = a.message in
      let there : g.messages fresh ≡ some m = ground (arith, at) in
      rw (a.address, free_releases g fresh m ne there (Fresh-Releasable f))
        (returns (
          refl,
          rw (at, update-update h.messages fresh (some m) none)
              (update_self h.messages fresh none unused),
          a.nodes,
          refl,
        ))
