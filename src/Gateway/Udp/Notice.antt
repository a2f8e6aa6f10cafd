-- ===== src/Gateway/Udp/Notice.antt =====
-- ITCGW_UDP_ADD_PEER of itc_gw.c: what the TCP client reads of the address and the namespace that
-- the UDP thread wrote, whose message holds 25 bytes for the address.
use itc_framework.Base.{
  ℕ, zero, suc, ◌+◌, ◌-◌, ◌<◌, ◌≤◌, ◌≡◌, refl, sym, ◌∙◌, ap, false, some, List, [], ◌∷◌, ◌++◌,
  arith, leb, ltb, if◌then◌else◌, length, take, drop, take-drop, take-append, drop-append,
  take-within, take-beyond, drop-beyond, length-take, length-drop, length-append, test_ge,
  Bool-cases, inl, inr,
}
use mathlib.Core.Option
use mathlib.Core.List.{append_assoc}
use itc_framework.Proto.{Name}
use itc_framework.Gateway.Packet.{c_string}
use itc_framework.Gateway.Text.{contains}
use itc_framework.Gateway.Udp.{strcpy_at, fill_add_peer, read_add_peer}

-- A text in front of its null.
pub c_string-append :
    (s : Name) (rest : List ℕ) → contains 0 s ≡ false → c_string (s ++ (0 ∷ rest)) ≡ some s
unfolding c_string contains
c_string-append [] rest h = refl
c_string-append (x ∷ s) rest h = ground (arith, c_string-append s rest)

contains-take : (n : ℕ) (s : Name) → contains 0 s ≡ false → contains 0 (take n s) ≡ false
unfolding contains
contains-take zero s h = refl
contains-take (suc n) [] h = refl
contains-take (suc n) (x ∷ s) h = ground (arith, contains-take n s)

contains-append :
    (s t : Name) → contains 0 s ≡ false → contains 0 t ≡ false → contains 0 (s ++ t) ≡ false
unfolding contains
contains-append [] t h k = k
contains-append (x ∷ s) t h k = ground (arith, contains-append s t)

-- `strcpy` inside a block, whose first part it leaves.
strcpy_at-split :
    (s : Name) (front back : List ℕ)
    → length s < length back
    → strcpy_at (length front) s (front ++ back)
      ≡ some (front ++ (s ++ (0 ∷ drop (length s + 1) back)))
unfolding strcpy_at
strcpy_at-split s front back room =
    let len : length (s ++ (0 ∷ [])) ≡ length s + 1 = length-append s (0 ∷ []) in
    let inside : ltb (length (front ++ back)) (length front + length (s ++ (0 ∷ []))) ≡ false =
      test_ge {a = length (front ++ back)} {b = length front + length (s ++ (0 ∷ []))}
        (omega (arith, len, length-append front back)) in
    let behind : drop (length front + length (s ++ (0 ∷ []))) (front ++ back)
        ≡ drop (length s + 1) back =
      drop-beyond (length front + length (s ++ (0 ∷ []))) front back (omega arith)
      ∙ ap (λ k. drop k back) (omega (arith, len)) in
    rw (inside, take-append front back, behind)
      (ap (λ t. some (front ++ t)) (append_assoc s (0 ∷ []) (drop (length s + 1) back)))

-- The text that stands at the start of the 25 bytes of the address, with its null among them or not.
abbrev pub addr_read : (addr namespace : Name) → Name
addr_read addr namespace = if leb (length addr) 24 then addr else take 25 addr ++ namespace

c_string-addr :
    (addr namespace : Name) (tail rest : List ℕ)
    → contains 0 addr ≡ false
    → contains 0 namespace ≡ false
    → c_string (take 25 (addr ++ (0 ∷ tail)) ++ (namespace ++ (0 ∷ rest)))
      ≡ some (addr_read addr namespace)
c_string-addr addr namespace tail rest no_null no_null' = elim (Bool-cases (leb (length addr) 24)) [
  | inl small ↦
      let fits : length addr ≤ 24 = ground (arith, small) in
      let cut : take 25 (addr ++ (0 ∷ tail)) ≡ addr ++ (0 ∷ take (24 - length addr) tail) =
        take-beyond 25 addr (0 ∷ tail) (omega arith)
        ∙ ap (λ k. addr ++ take k (0 ∷ tail)) {y = suc (24 - length addr)} (omega (arith, fits)) in
      rw
        (small, cut, append_assoc addr (0 ∷ take (24 - length addr) tail) (namespace ++ (0 ∷ rest)))
        (c_string-append addr (take (24 - length addr) tail ++ (namespace ++ (0 ∷ rest))) no_null)
  | inr large ↦
      let long : 25 ≤ length addr = ground (arith, large) in
      rw
        (
          large,
          take-within 25 addr (0 ∷ tail) long,
          sym (append_assoc (take 25 addr) namespace (0 ∷ rest)),
        )
        (c_string-append (take 25 addr ++ namespace) rest
          (contains-append (take 25 addr) namespace (contains-take 25 addr no_null) no_null'))
]

-- A block from itc_alloc, of which the first four bytes are the message number, in which both texts
-- find room. The address is read back only if it has at most 24 characters; of a longer one the
-- first 25 are read, and then the namespace. The namespace is read back.
pub read_add_peer-fill_add_peer :
    (msgno room : List ℕ) (addr namespace : Name)
    → length msgno ≡ 4
    → length addr < length room
    → 25 + length namespace < length room
    → contains 0 addr ≡ false
    → contains 0 namespace ≡ false
    → Option.map read_add_peer (fill_add_peer (msgno ++ room) addr namespace)
      ≡ some (some (addr_read addr namespace), some namespace)
unfolding fill_add_peer read_add_peer
read_add_peer-fill_add_peer msgno room addr namespace four addr_fits both_fit no_null no_null' =
    let tail = drop (length addr + 1) room in
    let c = addr ++ (0 ∷ tail) in
    let first : strcpy_at 4 addr (msgno ++ room) ≡ some (msgno ++ c) =
      ap (λ k. strcpy_at k addr (msgno ++ room)) (sym four)
      ∙ strcpy_at-split addr msgno room addr_fits in
    let size : length c ≡ length room =
      omega
        (arith, length-append addr (0 ∷ tail), length-drop (length addr + 1) room (omega arith)) in
    let front = msgno ++ take 25 c in
    let rest = drop (length namespace + 1) (drop 25 c) in
    let at_29 : length front ≡ 29 =
      omega (arith, length-append msgno (take 25 c), length-take 25 c (omega (arith, size))) in
    let parted : msgno ++ c ≡ front ++ drop 25 c =
      ap (λ t. msgno ++ t) (sym (take-drop 25 c))
      ∙ sym (append_assoc msgno (take 25 c) (drop 25 c)) in
    let second : strcpy_at 29 namespace (msgno ++ c) ≡ some (front ++ (namespace ++ (0 ∷ rest))) =
      ap (strcpy_at 29 namespace) parted
      ∙ ap (λ k. strcpy_at k namespace (front ++ drop 25 c)) (sym at_29)
      ∙ strcpy_at-split namespace front (drop 25 c)
          (omega (arith, size, length-drop 25 c (omega (arith, size)))) in
    let out = namespace ++ (0 ∷ rest) in
    let at_addr : drop 4 (front ++ out) ≡ take 25 c ++ out =
      ap (drop 4) (append_assoc msgno (take 25 c) out)
      ∙ ap (λ k. drop k (msgno ++ (take 25 c ++ out))) (sym four)
      ∙ drop-append msgno (take 25 c ++ out) in
    let at_namespace : drop 29 (front ++ out) ≡ out =
      ap (λ k. drop k (front ++ out)) (sym at_29) ∙ drop-append front out in
    let read : read_add_peer (front ++ out) ≡ (some (addr_read addr namespace), some namespace) =
      rw
        (
          at_addr,
          at_namespace,
          c_string-addr addr namespace tail rest no_null no_null',
          c_string-append namespace rest no_null',
        )
        refl in
    rw (first, second, fill_add_peer) (ap some read)
