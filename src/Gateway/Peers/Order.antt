-- ===== src/Gateway/Peers/Order.antt =====
-- Lists of elements of a table of itc_gw.c, sorted by their addresses.
use Prim.Native.Nat.{Ordering}
use itc_framework.Base.{
  ℕ, ◌≡◌, refl, ◌≢◌, ◌∙◌, sym, ap, Bool, true, false, not, none, some, List, [], ◌∷◌, ◌++◌, arith,
  ◌==◌, ◌||◌, ◌&&◌, inl, inr, Bool-cases, test_eq, test_true,
}
use itc_framework.Proto.{Name}
use itc_framework.Gateway.Tree.{Comparison, Tree, leaf, node, elements, tfind}
use itc_framework.Gateway.Tree.Search.{Before, Falls, find_in, put_in, cut_in, Ordering-cases}
use itc_framework.Gateway.Peers.{strcmp}
use itc_framework.Gateway.Peers.Strcmp.{strcmp_self, strcmp_swap, strcmp_swap_lt, strcmp_trans}

unfoldable pub mem : ℕ → List ℕ → Bool
mem i [] = false
mem i (x ∷ xs) = (i == x) || mem i xs

or_swap : (a b c : Bool) → (a || (b || c)) ≡ (b || (a || c))
or_swap true true c = refl
or_swap true false c = refl
or_swap false b c = refl

module _ (addr : ℕ → Name) where
  abbrev pub IsSorted : List ℕ → Type 0
  IsSorted [] = Unit {0}
  IsSorted (i ∷ xs) =
      ((j : ℕ) → mem j xs ≡ true → strcmp (addr i) (addr j) ≡ Ordering.lt) × IsSorted xs

  module _ (k : Name) where
    -- How the key `k` stands to an element.
    abbrev pub at_key : Comparison
    at_key i = strcmp k (addr i)

    Before-all :
        (xs : List ℕ) → ((j : ℕ) → mem j xs ≡ true → at_key j ≡ Ordering.lt) → Before at_key xs
    unfolding mem
    Before-all [] h = tt
    Before-all (x ∷ xs) h =
        (h x (ground (arith, test_eq {a = x} refl)), Before-all xs (λ j m. h j (ground (arith, m))))

    pub Falls-sorted : (xs : List ℕ) → IsSorted xs → Falls at_key xs
    Falls-sorted [] s = tt
    Falls-sorted (x ∷ xs) (first, s) = (
      λ ne. Before-all xs (λ j m. strcmp_trans k (addr x) (addr j) ne (first j m)),
      Falls-sorted xs s,
    )

    -- No element has the key, where it is not found.
    find_in-none :
        (xs : List ℕ)
        → find_in at_key xs ≡ none
        → (j : ℕ) → mem j xs ≡ true
        → at_key j ≢ Ordering.eq
    unfolding find_in mem
    find_in-none [] e j m d = cc
    find_in-none (x ∷ xs) e j m d = elim (Bool-cases (j == x)) [
      | inl same ↦
          let eq : at_key x ≡ Ordering.eq = ap at_key (sym (test_true j x same)) ∙ d in
          ground (arith, e, eq)
      | inr other ↦ find_in-none xs (ground (arith, e)) j (ground (arith, m, other)) d
    ]

    pub mem-put_in :
        (i : ℕ) (xs : List ℕ)
        → find_in at_key xs ≡ none
        → (j : ℕ) → mem j (put_in at_key i xs) ≡ ((j == i) || mem j xs)
    unfolding find_in put_in mem
    mem-put_in i [] e j = refl
    mem-put_in i (x ∷ xs) e j = elim (Ordering-cases (at_key x)) [
      | inl lt ↦ rw (lt, put_in) refl
      | inr (inl eq) ↦ absurd (ground (arith, e, eq))
      | inr (inr gt) ↦
          let ih = mem-put_in i xs (ground (arith, e, gt)) j in
          rw (gt, put_in) (ap (λ t. (j == x) || t) ih ∙ or_swap (j == x) (j == i) (mem j xs))
    ]

    pub find_in-put_in :
        (i : ℕ) (xs : List ℕ)
        → addr i ≡ k
        → find_in at_key xs ≡ none
        → find_in at_key (put_in at_key i xs) ≡ some i
    unfolding find_in put_in
    find_in-put_in i [] a e =
        let self : at_key i ≡ Ordering.eq = rw a (strcmp_self k) in rw (self, find_in)
    find_in-put_in i (x ∷ xs) a e =
        let self : at_key i ≡ Ordering.eq = rw a (strcmp_self k) in
        ground (arith, e, self, find_in-put_in i xs a)

    pub put_in-IsSorted :
        (i : ℕ) (xs : List ℕ)
        → addr i ≡ k
        → IsSorted xs
        → find_in at_key xs ≡ none
        → IsSorted (put_in at_key i xs)
    unfolding find_in put_in mem
    put_in-IsSorted i [] a s e = (λ j m. cc, tt)
    put_in-IsSorted i (x ∷ xs) a (first, s) e = elim (Ordering-cases (at_key x)) [
      | inl lt ↦
          rw (lt, put_in)
            (
              (λ j m. elim (Bool-cases (j == x)) [
                | inl same ↦ rw (test_true j x same, a) lt
                | inr other ↦ rw a (
                    strcmp_trans k (addr x) (addr j) (λ d. cc) (first j (ground (arith, m, other))))
              ]),
              (first, s),
            )
      | inr (inl eq) ↦ absurd (ground (arith, e, eq))
      | inr (inr gt) ↦
          let e' : find_in at_key xs ≡ none = ground (arith, e, gt) in
          rw (gt, put_in)
            (
              (λ j m. elim (Bool-cases (j == i)) [
                | inl same ↦ rw (test_true j i same, a) (strcmp_swap k (addr x) gt)
                | inr other ↦ first j (ground (arith, m, other, mem-put_in i xs e' j))
              ]),
              put_in-IsSorted i xs a s e',
            )
    ]

    -- The key of the element `i`.
    pub mem-cut_in :
        (i : ℕ) (xs : List ℕ)
        → addr i ≡ k
        → IsSorted xs
        → mem i xs ≡ true
        → (j : ℕ) → mem j (cut_in at_key xs) ≡ (not (j == i) && mem j xs)
    unfolding cut_in mem
    mem-cut_in i [] a s m j = cc
    mem-cut_in i (x ∷ xs) a (first, s) m j = elim (Bool-cases (i == x)) [
      | inl same ↦
          let is = test_true i x same in
          let eq : at_key x ≡ Ordering.eq = rw (← is) (rw a (strcmp_self k)) in
          let gone : mem x xs ≡ false = ground (arith, first x, strcmp_self (addr x)) in
          rw (eq, cut_in)
            (elim (Bool-cases (j == x)) [
              | inl e ↦
                  let mj : mem j xs ≡ false = rw (test_true j x e) gone in ground (arith, mj, is, e)
              | inr e ↦ ground (arith, is, e)
            ])
      | inr other ↦
          let behind : mem i xs ≡ true = ground (arith, m, other) in
          let gt : at_key x ≡ Ordering.gt =
            rw (← a) (strcmp_swap_lt (addr x) (addr i) (first i behind)) in
          rw (gt, cut_in)
            (ap (λ t. (j == x) || t) (mem-cut_in i xs a s behind j) ∙ ground (arith, other))
    ]

    pub cut_in-IsSorted :
        (i : ℕ) (xs : List ℕ)
        → addr i ≡ k
        → IsSorted xs
        → mem i xs ≡ true
        → IsSorted (cut_in at_key xs)
    unfolding cut_in mem
    cut_in-IsSorted i [] a s m = cc
    cut_in-IsSorted i (x ∷ xs) a (first, s) m = elim (Bool-cases (i == x)) [
      | inl same ↦
          let is = test_true i x same in
          let eq : at_key x ≡ Ordering.eq = rw (← is) (rw a (strcmp_self k)) in rw (eq, cut_in) s
      | inr other ↦
          let behind : mem i xs ≡ true = ground (arith, m, other) in
          let gt : at_key x ≡ Ordering.gt =
            rw (← a) (strcmp_swap_lt (addr x) (addr i) (first i behind)) in
          rw (gt, cut_in)
            (
              (λ j mj. first j (ground (arith, mj, mem-cut_in i xs a s behind j))),
              cut_in-IsSorted i xs a s behind,
            )
    ]

-- The addresses of the listed elements are all that counts.
pub IsSorted-same :
    (addr addr' : ℕ → Name) (xs : List ℕ)
    → ((j : ℕ) → mem j xs ≡ true → addr' j ≡ addr j)
    → IsSorted addr xs
    → IsSorted addr' xs
unfolding mem
IsSorted-same addr addr' [] same s = tt
IsSorted-same addr addr' (x ∷ xs) same (first, s) = (
  λ j m. rw (same x (ground (arith, test_eq {a = x} refl)), same j (ground (arith, m))) (first j m),
  IsSorted-same addr addr' xs (λ j m. same j (ground (arith, m))) s,
)

-- What a search for any key returns is an element that the key is equal to.
pub mem-find_in :
    (cmp : Comparison) (xs : List ℕ) (i : ℕ)
    → find_in cmp xs ≡ some i
    → (mem i xs ≡ true) × (cmp i ≡ Ordering.eq)
unfolding find_in mem
mem-find_in cmp [] i e = cc
mem-find_in cmp (x ∷ xs) i e = elim (Ordering-cases (cmp x)) [
  | inl lt ↦ let r = mem-find_in cmp xs i (ground (arith, e, lt)) in (ground (arith, r.0), r.1)
  | inr (inl eq) ↦
      let is : x ≡ i = ground (arith, e, eq) in rw (← is) (ground (arith, test_eq {a = x} refl), eq)
  | inr (inr gt) ↦
      let r = mem-find_in cmp xs i (ground (arith, e, gt)) in (ground (arith, r.0), r.1)
]

pub find_in-same :
    (cmp cmp' : Comparison) (xs : List ℕ)
    → ((j : ℕ) → mem j xs ≡ true → cmp' j ≡ cmp j)
    → find_in cmp' xs ≡ find_in cmp xs
unfolding find_in mem
find_in-same cmp cmp' [] same = refl
find_in-same cmp cmp' (x ∷ xs) same = ground (
  arith,
  same x (ground (arith, test_eq {a = x} refl)),
  find_in-same cmp cmp' xs (λ j m. same j (ground (arith, m))),
)

pub mem-append : (j : ℕ) (xs ys : List ℕ) → mem j (xs ++ ys) ≡ (mem j xs || mem j ys)
unfolding mem
mem-append j [] ys = refl
mem-append j (x ∷ xs) ys = ground (arith, mem-append j xs ys)

-- What a search of a tree for any key returns, whether the key falls or not.
pub mem-tfind :
    (cmp : Comparison) (t : Tree) (i : ℕ)
    → tfind cmp t ≡ some i
    → (mem i (elements t) ≡ true) × (cmp i ≡ Ordering.eq)
unfolding tfind mem
mem-tfind cmp leaf i e = cc
mem-tfind cmp (node l j r) i e = elim (Ordering-cases (cmp j)) [
  | inl lt ↦
      let h = mem-tfind cmp l i (rw (lt, tfind) at e) in
      (ground (arith, h.0, mem-append i (elements l) (j ∷ elements r)), h.1)
  | inr (inl eq) ↦
      let is : j ≡ i = ground (arith, (rw (eq, tfind) at e)) in
      rw (← is)
        (ground (arith, test_eq {a = j} refl, mem-append j (elements l) (j ∷ elements r)), eq)
  | inr (inr gt) ↦
      let h = mem-tfind cmp r i (rw (gt, tfind) at e) in
      (ground (arith, h.0, mem-append i (elements l) (j ∷ elements r)), h.1)
]
