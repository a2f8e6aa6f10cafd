-- ===== src/Gateway/Packet/Decode.antt =====
-- The packets of itc_gw.c are read back as they were written.
use itc_framework.Base.{
  Option, ℕ, zero, suc, ◌+◌, ◌-◌, ◌≡◌, refl, sym, ap, ◌∙◌, false, some, List, [], ◌∷◌, ◌++◌, arith,
  ltb, ◌||◌, length, take, drop, set, take-all, take-append, drop-beyond, length-append, length-set,
  test_ge,
}
use mathlib.Core.List.{append_assoc}
use itc_framework.Memory.{Message}
use itc_framework.Message.{stamp, at_least_msgno, endpoint}
use itc_framework.Gateway.Wire.{
  store32, load32, htonl, IsWord, htonl-htonl, htonl-IsWord, load32-store32, load32-store32_end,
}
use itc_framework.Gateway.Packet.{
  Header, header_bytes, net32, ntoh, load_header, flatten, unflatten, word_at, copy, rebuild,
  open_data_fwd,
}

net : (v : ℕ) (rest : List ℕ) → load32 (net32 v ++ rest) ≡ some (htonl v, rest)
net v rest = load32-store32 (htonl v) rest (htonl-IsWord v)

pub ntoh-net32 :
    {A : Type 0} (v : ℕ) (rest : List ℕ) (k : ℕ → List ℕ → Option A)
    → IsWord v
    → ntoh (net32 v ++ rest) k ≡ k v rest
unfolding ntoh
ntoh-net32 v rest k h = rw (net v rest, ntoh, htonl-htonl v h) refl

pub ntoh-net32_end :
    {A : Type 0} (v : ℕ) (k : ℕ → List ℕ → Option A) → IsWord v → ntoh (net32 v) k ≡ k v []
unfolding ntoh
ntoh-net32_end v k h =
    rw (load32-store32_end (htonl v) (htonl-IsWord v), ntoh, htonl-htonl v h) refl

pub record HeaderWords (h : Header) : Type 0 where
  pub sender : IsWord h.sender
  pub receiver : IsWord h.receiver
  pub prot_rev : IsWord h.prot_rev
  pub msgno : IsWord h.msgno
  pub payload_len : IsWord h.payload_len

pub load_header-header_bytes : (h : Header) → HeaderWords h → load_header (header_bytes h) ≡ some h
unfolding load_header ntoh
load_header-header_bytes h w =
    let e = net32 h.payload_len in
    let d = net32 h.msgno ++ e in
    let c = net32 h.prot_rev ++ d in
    let b = net32 h.receiver ++ c in
    rw
      (
        net h.sender b,
        load_header,
        ntoh,
        net h.receiver c,
        net h.prot_rev d,
        net h.msgno e,
        load32-store32_end (htonl h.payload_len) (htonl-IsWord h.payload_len),
        htonl-htonl h.sender w.sender,
        htonl-htonl h.receiver w.receiver,
        htonl-htonl h.prot_rev w.prot_rev,
        htonl-htonl h.msgno w.msgno,
        htonl-htonl h.payload_len w.payload_len,
      )
      refl

-- A message whose members fit their words, and whose payload ends with the endpoint byte.
pub record Whole (m : Message) (body : List ℕ) : Type 0 where
  pub flags : IsWord m.flags
  pub receiver : IsWord m.receiver
  pub sender : IsWord m.sender
  pub size : IsWord m.size
  pub msgno : IsWord m.msgno
  pub body_size : m.size ≡ length body + 4
  pub guarded : m.payload ≡ body ++ (endpoint ∷ [])

unflatten-flatten :
    (m : Message) (body tail : List ℕ)
    → Whole m body
    → unflatten (flatten (record m { payload = tail })) ≡ some (record m { payload = tail })
unfolding unflatten word_at flatten
unflatten-flatten m body tail w =
    let e = store32 m.msgno ++ tail in
    let d = store32 m.size ++ e in
    let c = store32 m.sender ++ d in
    let b = store32 m.receiver ++ c in
    rw
      (
        load32-store32 m.flags b w.flags,
        unflatten,
        word_at,
        load32-store32 m.receiver c w.receiver,
        load32-store32 m.sender d w.sender,
        load32-store32 m.size e w.size,
        load32-store32 m.msgno tail w.msgno,
      )
      refl

-- The 20 bytes in front of a payload.
front : Message → List ℕ
front m = flatten (record m { payload = [] })

flatten-front : (m : Message) (p : List ℕ) → flatten (record m { payload = p }) ≡ front m ++ p
unfolding front flatten store32
flatten-front m p = refl

length-front : (m : Message) → length (front m) ≡ 20
unfolding front flatten store32
length-front m = refl

pub length-flatten :
    (m : Message) (p : List ℕ) → length (flatten (record m { payload = p })) ≡ 20 + length p
length-flatten m p =
    ap length (flatten-front m p) ∙ omega (arith, length-append (front m) p, length-front m)

-- A message without its endpoint byte.
pub take-flatten :
    (m : Message) (body : List ℕ)
    → Whole m body
    → take (m.size + 16) (flatten m) ≡ flatten (record m { payload = body })
take-flatten m body w =
    let n : m.size + 16 ≡ length (flatten (record m { payload = body })) =
      omega (arith, w.body_size, length-flatten m body) in
    let split : flatten m ≡ flatten (record m { payload = body }) ++ (endpoint ∷ []) =
      flatten-front m m.payload
      ∙ ap (λ p. front m ++ p) w.guarded
      ∙ sym (append_assoc (front m) body (endpoint ∷ []))
      ∙ ap (λ t. t ++ (endpoint ∷ [])) (sym (flatten-front m body)) in
    rw (n, split) (take-append (flatten (record m { payload = body })) (endpoint ∷ []))

drop-set_last : (xs : List ℕ) (i v : ℕ) → length xs ≡ suc i → drop i (set xs i v) ≡ v ∷ []
drop-set_last [] i v e = absurd (omega arith)
drop-set_last (x ∷ []) zero v e = refl
drop-set_last (x ∷ y ∷ xs) zero v e = absurd (omega arith)
drop-set_last (x ∷ xs) (suc i) v e = drop-set_last xs i v (omega arith)

-- `memcpy` of a message over a block of its size leaves the block's endpoint byte.
copy-over :
    (m b : Message) (body junk : List ℕ)
    → length junk ≡ length body + 1
    → copy
        (20 + length body)
        (flatten (record m { payload = body }))
        (flatten (record b { payload = set junk (length body) endpoint }))
      ≡ some (flatten (record m { payload = body ++ (endpoint ∷ []) }))
unfolding copy
copy-over m b body junk room =
    let from = flatten (record m { payload = body }) in
    let block = flatten (record b { payload = set junk (length body) endpoint }) in
    let n = 20 + length body in
    let len : length from ≡ n = length-flatten m body in
    let size : length block ≡ n + 1 = omega (
      arith,
      length-flatten b (set junk (length body) endpoint),
      length-set junk (length body) endpoint,
    ) in
    let whole : take n from ≡ from = take-all n from (omega (arith, len)) in
    let rest : drop n block ≡ endpoint ∷ [] =
      ap (drop n) (flatten-front b (set junk (length body) endpoint))
      ∙ drop-beyond n (front b) (set junk (length body) endpoint) (omega (arith, length-front b))
      ∙ ap (λ k. drop k (set junk (length body) endpoint)) (omega (arith, length-front b))
      ∙ drop-set_last junk (length body) endpoint (omega (arith, room)) in
    let joined : from ++ (endpoint ∷ [])
        ≡ flatten (record m { payload = body ++ (endpoint ∷ []) }) =
      ap (λ t. t ++ (endpoint ∷ [])) (flatten-front m body)
      ∙ append_assoc (front m) body (endpoint ∷ [])
      ∙ sym (flatten-front m (body ++ (endpoint ∷ []))) in
    let inside : ltb (length from) n || ltb (length block) n ≡ false =
      rw
        (
          test_ge {a = length from} {b = n} (omega (arith, len)),
          test_ge {a = length block} {b = n} (omega (arith, size)),
        )
        refl in
    rw (inside, whole, rest, joined) refl

-- The message that a packet of handle_fwd_data_out brings is the one that was packed.
pub open_data_fwd-flatten :
    (m : Message) (body junk : List ℕ)
    → Whole m body
    → length junk ≡ length body + 1
    → IsWord (m.size + 16)
    → open_data_fwd (some junk) (
        net32 0
        ++ (net32 (length (flatten (record m { payload = body })))
            ++ flatten (record m { payload = body })))
      ≡ some m
unfolding open_data_fwd ntoh rebuild stamp
open_data_fwd-flatten m body junk w room fits =
    let from = flatten (record m { payload = body }) in
    let blank : Message = record {
      flags = 0;
      receiver = 0;
      sender = 0;
      size = 0;
      msgno = 0;
      payload = junk;
    } in
    let stamped = stamp blank (at_least_msgno m.size) m.msgno in
    let len : length from ≡ 20 + length body = length-flatten m body in
    let same : htonl (htonl (length from)) ≡ 20 + length body =
      htonl-htonl (length from) (omega (arith, len, w.body_size, fits)) ∙ len in
    let block : stamped ≡ record stamped { payload = set junk (length body) endpoint } =
      let behind : m.size - 4 ≡ length body = omega (arith, w.body_size) in
      rw (test_ge {a = m.size} {b = 4} (omega (arith, w.body_size)), behind) refl in
    rw
      (
        net 0 (net32 (length from) ++ from),
        open_data_fwd,
        ntoh,
        net (length from) from,
        rebuild,
        unflatten-flatten m body body w,
        same,
        block,
        copy-over m stamped body junk room,
        unflatten-flatten m body (body ++ (endpoint ∷ [])) w,
      )
      (ap (λ p. some (record m { payload = p })) (sym w.guarded))
