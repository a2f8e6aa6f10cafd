-- ===== src/Gateway/Tree/Search.antt =====
-- The three tree operations of itc_gw.c against plain lists.
use Prim.Native.Nat.{Ordering}
use itc_framework.Base.{
  ℕ, ◌≡◌, refl, ap, ◌∙◌, sym, Option, none, some, List, [], ◌∷◌, ◌++◌, arith, inl, inr, ◌⊎◌, ◌≢◌,
}
use mathlib.Core.List.{append_assoc}
use itc_framework.Gateway.Tree.{
  Tree, leaf, node, elements, Comparison, tfind, put, last_of, join, cut,
}

-- The key stands behind some elements, then at most at one, then before the others.
abbrev pub Before : Comparison → List ℕ → Type 0
Before cmp [] = Unit {0}
Before cmp (i ∷ xs) = (cmp i ≡ Ordering.lt) × Before cmp xs

abbrev pub Behind : Comparison → List ℕ → Type 0
Behind cmp [] = Unit {0}
Behind cmp (i ∷ xs) = (cmp i ≡ Ordering.gt) × Behind cmp xs

abbrev pub Falls : Comparison → List ℕ → Type 0
Falls cmp [] = Unit {0}
Falls cmp (i ∷ xs) = (cmp i ≢ Ordering.gt → Before cmp xs) × Falls cmp xs

-- The operations on the list of a tree's elements, in order.
unfoldable pub find_in : Comparison → List ℕ → Option ℕ
find_in cmp [] = none
find_in cmp (i ∷ xs) = elim (cmp i) [ Ordering.eq ↦ some i | _ ↦ find_in cmp xs ]

unfoldable pub put_in : Comparison → ℕ → List ℕ → List ℕ
put_in cmp new [] = new ∷ []
put_in cmp new (i ∷ xs) = elim (cmp i) [
  | Ordering.lt ↦ new ∷ i ∷ xs
  | Ordering.eq ↦ i ∷ xs
  | Ordering.gt ↦ i ∷ put_in cmp new xs
]

unfoldable pub cut_in : Comparison → List ℕ → List ℕ
cut_in cmp [] = []
cut_in cmp (i ∷ xs) = elim (cmp i) [ Ordering.eq ↦ xs | _ ↦ i ∷ cut_in cmp xs ]

gt_or_not : (o : Ordering) → (o ≡ Ordering.gt) ⊎ (o ≢ Ordering.gt)
gt_or_not Ordering.lt = inr (λ e. cc)
gt_or_not Ordering.eq = inr (λ e. cc)
gt_or_not Ordering.gt = inl refl

pub Ordering-cases : (o : Ordering) → (o ≡ Ordering.lt) ⊎ ((o ≡ Ordering.eq) ⊎ (o ≡ Ordering.gt))
Ordering-cases Ordering.lt = inl refl
Ordering-cases Ordering.eq = inr (inl refl)
Ordering-cases Ordering.gt = inr (inr refl)

-- A node taken out of a tree leaves the elements of both sides.
elements-last_of :
    (l : Tree) (i : ℕ) (r : Tree)
    → elements (last_of l i r).0 ++ ((last_of l i r).1 ∷ []) ≡ elements (node l i r)
unfolding last_of
elements-last_of l i leaf = refl
elements-last_of l i (node rl j rr) =
    append_assoc (elements l) _ _ ∙ ap (λ t. elements l ++ (i ∷ t)) (elements-last_of rl j rr)

elements-join : (l r : Tree) → elements (join l r) ≡ elements l ++ elements r
unfolding join
elements-join leaf r = refl
elements-join (node ll i lr) r =
    sym (append_assoc (elements (last_of ll i lr).0) ((last_of ll i lr).1 ∷ []) (elements r))
    ∙ ap (λ xs. xs ++ elements r) (elements-last_of ll i lr)

module _ (cmp : Comparison) where
  Before-split : (xs ys : List ℕ) → Before cmp (xs ++ ys) → Before cmp xs × Before cmp ys
  Before-split [] ys b = (tt, b)
  Before-split (x ∷ xs) ys b = let (l, r) = Before-split xs ys b.1 in ((b.0, l), r)

  -- At the root of a tree.
  record AtRoot (xs : List ℕ) (i : ℕ) (ys : List ℕ) : Type 0 where
    left : Falls cmp xs
    right : Falls cmp ys
    after : cmp i ≢ Ordering.gt → Before cmp ys
    behind : cmp i ≢ Ordering.lt → Behind cmp xs

  split : (xs : List ℕ) (i : ℕ) (ys : List ℕ) → Falls cmp (xs ++ (i ∷ ys)) → AtRoot xs i ys
  split [] i ys (a, f) = record { left = tt; right = f; after = a; behind = λ ne. tt }
  split (x ∷ xs) i ys (a, f) =
      let s = split xs i ys f in
      let first : cmp i ≢ Ordering.lt → cmp x ≡ Ordering.gt = λ ne. elim (gt_or_not (cmp x)) [
        | inl e ↦ e
        | inr not_gt ↦ absurd (ne (Before-split xs (i ∷ ys) (a not_gt)).1.0)
      ] in
      record {
        left = (λ ne. (Before-split xs (i ∷ ys) (a ne)).0, s.left);
        right = s.right;
        after = s.after;
        behind = λ ne. (first ne, s.behind ne);
      }

  find_in-Before : (xs : List ℕ) → Before cmp xs → find_in cmp xs ≡ none
  unfolding find_in
  find_in-Before [] b = refl
  find_in-Before (x ∷ xs) (e, b) = rw (e, find_in) (find_in-Before xs b)

  find_in-Behind : (xs ys : List ℕ) → Behind cmp xs → find_in cmp (xs ++ ys) ≡ find_in cmp ys
  unfolding find_in
  find_in-Behind [] ys b = refl
  find_in-Behind (x ∷ xs) ys (e, b) = rw e (find_in-Behind xs ys b)

  find_in-append : (xs ys : List ℕ) → Before cmp ys → find_in cmp (xs ++ ys) ≡ find_in cmp xs
  unfolding find_in
  find_in-append [] ys b = find_in-Before ys b
  find_in-append (x ∷ xs) ys b = ground (arith, find_in-append xs ys b)

  put_in-Behind :
      (new : ℕ) (xs ys : List ℕ)
      → Behind cmp xs
      → put_in cmp new (xs ++ ys) ≡ xs ++ put_in cmp new ys
  unfolding put_in
  put_in-Behind new [] ys b = refl
  put_in-Behind new (x ∷ xs) ys (e, b) = rw e (ap (λ t. x ∷ t) (put_in-Behind new xs ys b))

  put_in-append :
      (new : ℕ) (xs : List ℕ) (i : ℕ) (ys : List ℕ)
      → cmp i ≡ Ordering.lt
      → put_in cmp new (xs ++ (i ∷ ys)) ≡ put_in cmp new xs ++ (i ∷ ys)
  unfolding put_in
  put_in-append new [] i ys e = rw e
  put_in-append new (x ∷ xs) i ys e = ground (arith, put_in-append new xs i ys e)

  cut_in-Before : (xs : List ℕ) → Before cmp xs → cut_in cmp xs ≡ xs
  unfolding cut_in
  cut_in-Before [] b = refl
  cut_in-Before (x ∷ xs) (e, b) = rw (e, cut_in) (ap (λ t. x ∷ t) (cut_in-Before xs b))

  cut_in-Behind : (xs ys : List ℕ) → Behind cmp xs → cut_in cmp (xs ++ ys) ≡ xs ++ cut_in cmp ys
  unfolding cut_in
  cut_in-Behind [] ys b = refl
  cut_in-Behind (x ∷ xs) ys (e, b) = rw e (ap (λ t. x ∷ t) (cut_in-Behind xs ys b))

  cut_in-append : (xs ys : List ℕ) → Before cmp ys → cut_in cmp (xs ++ ys) ≡ cut_in cmp xs ++ ys
  unfolding cut_in
  cut_in-append [] ys b = cut_in-Before ys b
  cut_in-append (x ∷ xs) ys b = ground (arith, cut_in-append xs ys b)

  -- On a tree in which the key falls between the elements, `tfind`, and `tsearch` and `tdelete` up
  -- to the rebalancing, do what the plain operations do on the elements in order.
  pub tfind-find_in : (t : Tree) → Falls cmp (elements t) → tfind cmp t ≡ find_in cmp (elements t)
  unfolding tfind find_in
  tfind-find_in leaf f = refl
  tfind-find_in (node l i r) f =
      let s = split (elements l) i (elements r) f in
      let ih = tfind-find_in l s.left in
      let ih' = tfind-find_in r s.right in
      elim (Ordering-cases (cmp i)) [
        | inl e ↦
            let ne : cmp i ≢ Ordering.gt = λ d. cc in
            rw (e, tfind) (ih ∙ sym (find_in-append (elements l) (i ∷ elements r) (e, s.after ne)))
        | inr (inl e) ↦
            let ne : cmp i ≢ Ordering.lt = λ d. cc in
            rw (e, tfind)
              (sym (find_in-Behind (elements l) (i ∷ elements r) (s.behind ne) ∙ rw (e, find_in)))
        | inr (inr e) ↦
            let ne : cmp i ≢ Ordering.lt = λ d. cc in
            rw (e, tfind)
              (ih'
                ∙ sym
                    (find_in-Behind (elements l) (i ∷ elements r) (s.behind ne) ∙ rw (e, find_in)))
      ]

  pub put-put_in :
      (new : ℕ) (t : Tree)
      → Falls cmp (elements t)
      → elements (put cmp new t) ≡ put_in cmp new (elements t)
  unfolding put put_in
  put-put_in new leaf f = refl
  put-put_in new (node l i r) f =
      let s = split (elements l) i (elements r) f in
      elim (Ordering-cases (cmp i)) [
        | inl e ↦
            rw (e, put)
              (ap (λ xs. xs ++ (i ∷ elements r)) (put-put_in new l s.left)
                ∙ sym (put_in-append new (elements l) i (elements r) e))
        | inr (inl e) ↦
            let ne : cmp i ≢ Ordering.lt = λ d. cc in
            rw (e, put)
              (sym (put_in-Behind new (elements l) (i ∷ elements r) (s.behind ne) ∙ rw (e, put_in)))
        | inr (inr e) ↦
            let ne : cmp i ≢ Ordering.lt = λ d. cc in
            rw (e, put)
              (ap (λ xs. elements l ++ (i ∷ xs)) (put-put_in new r s.right)
                ∙ sym (
                    put_in-Behind new (elements l) (i ∷ elements r) (s.behind ne) ∙ rw (e, put_in)))
      ]

  pub cut-cut_in :
      (t : Tree) → Falls cmp (elements t) → elements (cut cmp t) ≡ cut_in cmp (elements t)
  unfolding cut cut_in
  cut-cut_in leaf f = refl
  cut-cut_in (node l i r) f =
      let s = split (elements l) i (elements r) f in
      elim (Ordering-cases (cmp i)) [
        | inl e ↦
            let ne : cmp i ≢ Ordering.gt = λ d. cc in
            rw (e, cut)
              (ap (λ xs. xs ++ (i ∷ elements r)) (cut-cut_in l s.left)
                ∙ sym (cut_in-append (elements l) (i ∷ elements r) (e, s.after ne)))
        | inr (inl e) ↦
            let ne : cmp i ≢ Ordering.lt = λ d. cc in
            rw (e, cut)
              (elements-join l r
                ∙ sym (cut_in-Behind (elements l) (i ∷ elements r) (s.behind ne) ∙ rw (e, cut_in)))
        | inr (inr e) ↦
            let ne : cmp i ≢ Ordering.lt = λ d. cc in
            rw (e, cut)
              (ap (λ xs. elements l ++ (i ∷ xs)) (cut-cut_in r s.right)
                ∙ sym (cut_in-Behind (elements l) (i ∷ elements r) (s.behind ne) ∙ rw (e, cut_in)))
      ]
