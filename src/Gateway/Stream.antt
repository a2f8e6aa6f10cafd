-- ===== src/Gateway/Stream.antt =====
-- recv_data of itc_gw.c: reading a given number of bytes from a TCP socket.
use itc_framework.Base.{
  ℕ, zero, suc, ◌-◌, ◌<◌, ◌≤◌, ◌≡◌, refl, ap, ◌∙◌, List, [], ◌∷◌, ◌++◌, arith, ltb, if◌then◌else◌,
  length, take, drop, Option, none, some, length-take, take-append, drop-append, take-all, drop-all,
  take-within, drop-within, take-beyond, drop-beyond, length-append, false, true, sym,
}
use mathlib.Core.List.{append_assoc}
use native.Mathlib.Decide.{dec_le}

-- What the kernel has for a socket, in order: bursts of one byte or more, and failures of `recv`.
-- Behind the last of them the peer has closed the connection.
pub data Arrival : Type 0 where
  burst : ℕ → List ℕ → Arrival
  failure : Arrival

abbrev pub Incoming : Type 0
Incoming = List Arrival

-- What `recv` returns: some bytes, no byte (0), or an error (-1).
pub data Received : Type 0 where
  bytes : List ℕ → Received
  closed : Received
  broken : Received

-- What is left of a burst.
unread : List ℕ → Incoming → Incoming
unread [] s = s
unread (c ∷ cs) s = burst c cs ∷ s

-- `recv(fd, buffer, n, 0)` takes at most one burst, and leaves what does not fit.
unfoldable pub recv : ℕ → Incoming → Received × Incoming
unfolding unread
recv zero s = (closed, s)
recv (suc n) [] = (closed, [])
recv (suc n) (failure ∷ s) = (broken, s)
recv (suc n) (burst b bs ∷ s) = (bytes (b ∷ take n bs), unread (drop n bs) s)

-- The loop of recv_data: `n` bytes are still to be read behind `got`. `none` is a lack of fuel.
unfoldable pub read_on : (fuel n : ℕ) (got : List ℕ) → Incoming → Option (Received × Incoming)
unfolding recv
read_on zero n got s = none
read_on (suc k) n got s =
    let (r, s') = recv n s in
    elim r [
      | closed ↦ some (closed, s')
      | broken ↦ some (broken, s')
      | bytes bs ↦
          let rest = read_on k (n - length bs) (got ++ bs) s' in
          if ltb 0 (n - length bs) then rest else some (bytes (got ++ bs), s')
    ]

unfoldable pub recv_data : ℕ → Incoming → Option (Received × Incoming)
unfolding read_on
recv_data n s = read_on (suc n) n [] s

-- All bytes that arrive before the first failure or the end.
abbrev pub flow : Incoming → List ℕ
flow [] = []
flow (failure ∷ s) = []
flow (burst b bs ∷ s) = b ∷ (bs ++ flow s)

-- How the stream ends.
abbrev pub ending : Incoming → Received
ending [] = closed
ending (failure ∷ s) = broken
ending (burst b bs ∷ s) = ending s

flow-unread : (bs : List ℕ) (s : Incoming) → flow (unread bs s) ≡ bs ++ flow s
unfolding unread
flow-unread [] s = refl
flow-unread (c ∷ cs) s = refl

ending-unread : (bs : List ℕ) (s : Incoming) → ending (unread bs s) ≡ ending s
unfolding unread
ending-unread [] s = refl
ending-unread (c ∷ cs) s = refl

-- What the loop returns where there are enough bytes, and what it leaves.
record Reads (k n : ℕ) (got : List ℕ) (s : Incoming) : Type 0 where
  rest : Incoming
  read : read_on k n got s ≡ some (bytes (got ++ take n (flow s)), rest)
  left : flow rest ≡ drop n (flow s)
  ends : ending rest ≡ ending s

-- A burst that is used up.
Reads-burst :
    (k m b : ℕ) (got bs : List ℕ) (s : Incoming)
    → length bs < m
    → Reads k (m - length bs) (got ++ (b ∷ bs)) s
    → Reads (suc k) (suc m) got (burst b bs ∷ s)
unfolding read_on unread
Reads-burst k m b got bs s short r =
    let whole = take-all m bs (omega arith) in
    let none_left = drop-all m bs (omega arith) in
    let more : ltb 0 (suc m - length (b ∷ bs)) ≡ true = ground arith in
    let less : suc m - length (b ∷ bs) ≡ m - length bs = omega arith in
    let joined : (got ++ (b ∷ bs)) ++ take (m - length bs) (flow s)
        ≡ got ++ take (suc m) (flow (burst b bs ∷ s)) =
      append_assoc got (b ∷ bs) _
      ∙ ap (λ t. got ++ (b ∷ t)) (sym (take-beyond m bs (flow s) (omega arith))) in
    record {
      rest = r.rest;
      read = rw (whole, none_left, more, less) (r.read ∙ ap (λ t. some (bytes t, r.rest)) joined);
      left = r.left ∙ sym (drop-beyond m bs (flow s) (omega arith));
      ends = r.ends;
    }

-- A burst that is enough.
Reads-last :
    (k m b : ℕ) (got bs : List ℕ) (s : Incoming)
    → m ≤ length bs
    → Reads (suc k) (suc m) got (burst b bs ∷ s)
unfolding read_on
Reads-last k m b got bs s h =
    let len = length-take m bs h in
    let all : ltb 0 (suc m - length (b ∷ take m bs)) ≡ false = ground (arith, len) in
    record {
      rest = unread (drop m bs) s;
      read = rw (all, take-within m bs (flow s) h);
      left = flow-unread (drop m bs) s ∙ sym (drop-within m bs (flow s) h);
      ends = ending-unread (drop m bs) s;
    }

-- Enough bytes: the loop ends with the first `n` of them behind `got`.
read_on-enough :
    (k n : ℕ) (got : List ℕ) (s : Incoming) → 0 < n → n < k → n ≤ length (flow s) → Reads k n got s
read_on-enough zero n got s pos fuel enough = absurd (omega arith)
read_on-enough (suc k) zero got s pos fuel enough = absurd (omega arith)
read_on-enough (suc k) (suc m) got [] pos fuel enough = absurd (omega arith)
read_on-enough (suc k) (suc m) got (failure ∷ s) pos fuel enough = absurd (omega arith)
read_on-enough (suc k) (suc m) got (burst b bs ∷ s) pos fuel enough = elim (dec_le m (length bs)) [
  | yes h ↦ Reads-last k m b got bs s h
  | no h ↦
      let len = length-append bs (flow s) in
      Reads-burst k m b got bs s (omega arith) (
        read_on-enough k (m - length bs) (got ++ (b ∷ bs)) s (omega arith) (omega arith)
          (omega (arith, len)))
]

-- Too few: it ends as the stream does.
read_on-ends :
    (k n : ℕ) (got : List ℕ) (s : Incoming)
    → n < k
    → length (flow s) < n
    → (s' : Incoming) × (read_on k n got s ≡ some (ending s, s'))
unfolding read_on
read_on-ends zero n got s fuel few = absurd (omega arith)
read_on-ends (suc k) zero got s fuel few = absurd (omega arith)
read_on-ends (suc k) (suc m) got [] fuel few = ([], refl)
read_on-ends (suc k) (suc m) got (failure ∷ s) fuel few = (s, refl)
read_on-ends (suc k) (suc m) got (burst b bs ∷ s) fuel few =
    let len = length-append bs (flow s) in
    let whole = take-all m bs (omega (arith, len)) in
    let none_left = drop-all m bs (omega (arith, len)) in
    let more : ltb 0 (suc m - length (b ∷ bs)) ≡ true = ground (arith, len) in
    let (s', read) =
      read_on-ends k (suc m - length (b ∷ bs)) (got ++ (b ∷ bs)) s (omega (arith, len))
        (omega (arith, len)) in
    (s', rw (whole, none_left, more, unread) read)

-- What recv_data of `n` bytes comes to.
pub data Reading (n : ℕ) (s : Incoming) : Option (Received × Incoming) → Type 0 where
  enough :
      {s' : Incoming}
      → n ≤ length (flow s)
      → flow s' ≡ drop n (flow s)
      → ending s' ≡ ending s
      → Reading n s (some (bytes (take n (flow s)), s'))
  short : {s' : Incoming} → length (flow s) < n → Reading n s (some (ending s, s'))

-- recv_data of `n` bytes, however they are cut into bursts: if that many arrive before the stream
-- fails or ends, it returns exactly the first `n` of them and leaves the others; if fewer arrive,
-- it returns 0 or -1 as the stream ends. It always ends.
pub recv_data_reads : (n : ℕ) (s : Incoming) → 0 < n → Reading n s (recv_data n s)
unfolding recv_data
recv_data_reads n s pos = elim (dec_le n (length (flow s))) [
  | yes h ↦
      let r = read_on-enough (suc n) n [] s pos (omega arith) h in
      rw r.read (enough h r.left r.ends)
  | no h ↦
      let few : length (flow s) < n = omega arith in
      let (s', e) = read_on-ends (suc n) n [] s (omega arith) few in rw e (short few)
]

-- A stream that begins with a given list of bytes.
pub recv_data-append :
    (n : ℕ) (xs ys : List ℕ) (s : Incoming)
    → 0 < n
    → length xs ≡ n
    → flow s ≡ xs ++ ys
    → (s' : Incoming) × (recv_data n s ≡ some (bytes xs, s')) × (flow s' ≡ ys)
unfolding recv_data
recv_data-append n xs ys s pos len begins =
    let r =
      read_on-enough (suc n) n [] s pos (omega arith)
        (omega (arith, ap length begins, length-append xs ys, len)) in
    let first : take n (flow s) ≡ xs = rw (begins, ← len) (take-append xs ys) in
    let behind : drop n (flow s) ≡ ys = rw (begins, ← len) (drop-append xs ys) in
    (r.rest, r.read ∙ ap (λ t. some (bytes t, r.rest)) first, r.left ∙ behind)
