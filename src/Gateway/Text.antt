-- ===== src/Gateway/Text.antt =====
-- Text in itc_gw.c: numbers as `%hu` writes and reads them, and the other directives of its
-- `sscanf`.
use Prim.Native.Char.{code}
use Prim.Native.String.{String}
use itc_framework.Base.{
  ℕ, zero, suc, ◌+◌, ◌-◌, ◌*◌, ◌/◌, ◌%◌, ◌^◌, ◌<◌, ◌≤◌, ◌≡◌, refl, sym, ◌∙◌, ap, Bool, true, false,
  Option, none, some, [], ◌∷◌, ◌++◌, arith, ltb, leb, ◌==◌, ◌&&◌, ◌||◌, if◌then◌else◌, length, not,
  Bool-cases, inl, inr, test_lt, test_eq, test_ne, ◌≢◌,
}
use itc_framework.Proto.{Name}

-- The characters of a text.
abbrev pub codes : String → Name
codes String.[] = []
codes (String.◌∷◌ c s) = code c ∷ codes s

-- `%hu` of `printf`: a decimal number in front of `out`, of at most `k` digits.
unfoldable pub emit : (k n : ℕ) → Name → Name
emit zero n out = out
emit (suc k) n out =
    let rest = emit k (n / 10) ((48 + n % 10) ∷ out) in if ltb n 10 then (48 + n) ∷ out else rest

unfoldable pub print_hu : ℕ → Name → Name
unfolding emit
print_hu n out = emit 5 n out

-- White space in a format, and before a number, stands for any white space.
abbrev pub is_space : ℕ → Bool
is_space c = (c == 32) || (leb 9 c && leb c 13)

unfoldable pub skip_spaces : Name → Name
skip_spaces [] = []
skip_spaces (c ∷ s) = let rest = skip_spaces s in if is_space c then rest else c ∷ s

-- Literal text of a format.
unfoldable pub expect : (format : Name) → Name → Option Name
unfolding skip_spaces
expect [] s = some s
expect (f ∷ fs) [] = if is_space f then expect fs [] else none
expect (f ∷ fs) (c ∷ s) =
    let behind_space = expect fs (skip_spaces (c ∷ s)) in
    let behind = expect fs s in if is_space f then behind_space else if f == c then behind else none

-- `%[^c]`: the characters before the first `c`, and the rest.
unfoldable pub before : (c : ℕ) → Name → Name × Name
before c [] = ([], [])
before c (d ∷ s) = let (xs, rest) = before c s in if d == c then ([], d ∷ s) else (d ∷ xs, rest)

-- It fails on no character. `fault` is a text that its array of `size` bytes does not hold.
pub data Scanned (A : Type 0) : Type 0 where
  scanned : A → Name → Scanned A
  mismatch : Scanned A
  fault : Scanned A

unfoldable pub read_until : (c size : ℕ) → Name → Scanned Name
unfolding before
read_until c size s =
    let (xs, rest) = before c s in
    if length xs == 0 then mismatch else if ltb (length xs) size then scanned xs rest else fault

-- The digits of a number, up to the largest `unsigned long`.
unfoldable pub digits_from : (acc : ℕ) → Name → ℕ × Name
digits_from acc [] = (acc, [])
digits_from acc (c ∷ s) =
    let more = digits_from (acc * 10 + (c - 48)) s in
    if leb 48 c && leb c 57 then more else (acc, c ∷ s)

abbrev pub saturate : ℕ → ℕ
saturate v = if ltb v (2 ^ 64) then v else 2 ^ 64 - 1

unfoldable pub read_digits : (negative : Bool) → Name → Scanned ℕ
read_digits negative [] = mismatch
read_digits negative (c ∷ s) =
    if not (leb 48 c && leb c 57)
    then mismatch
    else let (v, rest) = digits_from 0 (c ∷ s) in
      scanned ((if negative then 2 ^ 64 - saturate v else saturate v) % 2 ^ 16) rest

-- `%hu` of `sscanf`, with the sign that it allows.
unfoldable pub read_sign : Name → Scanned ℕ
unfolding read_digits
read_sign [] = mismatch
read_sign (c ∷ s) =
    if c == 45
    then read_digits true s
    else if c == 43
    then read_digits false s
    else read_digits false (c ∷ s)

unfoldable pub read_hu : Name → Scanned ℕ
unfolding read_sign skip_spaces
read_hu s = read_sign (skip_spaces s)

-- A number with at most `k` digits is below this.
bound : ℕ → ℕ
bound zero = 1
bound (suc k) = 10 * bound k

digits_from-digit :
    (acc d : ℕ) (out : Name)
    → d < 10
    → digits_from acc ((48 + d) ∷ out) ≡ digits_from (acc * 10 + d) out
unfolding digits_from
digits_from-digit acc d out h =
    let digit : (leb 48 (48 + d) && leb (48 + d) 57) ≡ true = ground arith in
    rw digit (ap (λ v. digits_from v out) (omega arith))

emit-digits :
    (k n : ℕ) (out : Name) → n < bound k → digits_from 0 (emit k n out) ≡ digits_from n out
unfolding emit bound
emit-digits zero n out h = ap (λ v. digits_from v out) (omega arith)
emit-digits (suc k) n out h = elim (Bool-cases (ltb n 10)) [
  | inl last ↦
      rw last (
        digits_from-digit 0 n out (ground (arith, last))
        ∙ ap (λ v. digits_from v out) (omega arith))
  | inr more ↦ rw more (
      emit-digits k (n / 10) ((48 + n % 10) ∷ out) (omega arith)
      ∙ digits_from-digit (n / 10) (n % 10) out (omega arith)
      ∙ ap (λ v. digits_from v out) (omega arith))
]

length-emit : (k n : ℕ) (out : Name) → length (emit k n out) ≤ k + length out
unfolding emit
length-emit zero n out = omega arith
length-emit (suc k) n out = elim (Bool-cases (ltb n 10)) [
  | inl last ↦ rw last (omega arith)
  | inr more ↦ rw more (omega (arith, length-emit k (n / 10) ((48 + n % 10) ∷ out)))
]

pub length-print_hu : (n : ℕ) (out : Name) → length (print_hu n out) ≤ 5 + length out
unfolding print_hu
length-print_hu n out = length-emit 5 n out

-- The first character of a number is a digit.
emit_head :
    (k n : ℕ) (out : Name)
    → n < bound (suc k)
    → (d : ℕ) × (s : Name) × (emit (suc k) n out ≡ (48 + d) ∷ s) × (d < 10)
unfolding emit bound
emit_head zero n out h = (n, out, rw (test_lt {a = n} {b = 10} (omega arith)) refl, omega arith)
emit_head (suc k) n out h = elim (Bool-cases (ltb n 10)) [
  | inl last ↦ (n, out, rw last refl, ground (arith, last))
  | inr more ↦
      let (d, s, e, digit) = emit_head k (n / 10) ((48 + n % 10) ∷ out) (omega arith) in
      (d, s, rw more e, digit)
]

no_digit : (n : ℕ) (rest : Name) → digits_from n (47 ∷ rest) ≡ (n, 47 ∷ rest)
unfolding digits_from
no_digit n rest = refl

unfoldable pub contains : ℕ → Name → Bool
contains c [] = false
contains c (d ∷ s) = (d == c) || contains c s

before-append :
    (c : ℕ) (xs rest : Name) → contains c xs ≡ false → before c (xs ++ (c ∷ rest)) ≡ (xs, c ∷ rest)
unfolding before contains
before-append c [] rest h = rw (test_eq {a = c} refl) refl
before-append c (x ∷ xs) rest h = ground (arith, before-append c xs rest)

length_ne : (xs : Name) → xs ≢ [] → length xs ≢ 0
length_ne [] ne = absurd (ne refl)
length_ne (x ∷ xs) ne = λ e. absurd (omega (arith, e))

read_digits-value :
    (d : ℕ) (s : Name) (v : ℕ) (rest : Name)
    → d < 10
    → digits_from 0 ((48 + d) ∷ s) ≡ (v, rest)
    → v < 2 ^ 16
    → read_digits false ((48 + d) ∷ s) ≡ scanned v rest
unfolding read_digits
read_digits-value d s v rest digit value small =
    let first : (leb 48 (48 + d) && leb (48 + d) 57) ≡ true = ground arith in
    rw (first, value, test_lt {a = v} {b = 2 ^ 64} (omega arith))
      (ap (λ n. scanned n rest) (omega arith))

read_hu-digit :
    (d : ℕ) (s : Name) → d < 10 → read_hu ((48 + d) ∷ s) ≡ read_digits false ((48 + d) ∷ s)
unfolding read_hu read_sign skip_spaces
read_hu-digit d s digit =
    let space : is_space (48 + d) ≡ false = ground arith in
    let minus : (48 + d == 45) ≡ false = ground arith in
    let plus : (48 + d == 43) ≡ false = ground arith in rw (space, minus, plus) refl

-- A port that `%hu` wrote is read by `%hu`.
pub read_hu-print_hu :
    (n : ℕ) (rest : Name) → n < 2 ^ 16 → read_hu (print_hu n (47 ∷ rest)) ≡ scanned n (47 ∷ rest)
unfolding print_hu bound
read_hu-print_hu n rest h =
    let (d, s, e, digit) = emit_head 4 n (47 ∷ rest) (omega arith) in
    let value : digits_from 0 ((48 + d) ∷ s) ≡ (n, 47 ∷ rest) =
      sym (ap (digits_from 0) e) ∙ emit-digits 5 n (47 ∷ rest) (omega arith) ∙ no_digit n rest in
    ap read_hu e ∙ read_hu-digit d s digit ∙ read_digits-value d s n (47 ∷ rest) digit value h

-- A field in front of its terminator.
pub read_until-append :
    (c size : ℕ) (xs rest : Name)
    → contains c xs ≡ false
    → xs ≢ []
    → length xs < size
    → read_until c size (xs ++ (c ∷ rest)) ≡ scanned xs (c ∷ rest)
unfolding read_until
read_until-append c size xs rest free some_text fits =
    rw (before-append c xs rest free, test_ne (length_ne xs some_text), test_lt fits) refl
