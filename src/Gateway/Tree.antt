-- ===== src/Gateway/Tree.antt =====
-- `tfind`, `tsearch` and `tdelete` of <search.h>, as itc_gw.c uses them: binary search trees of
-- pointers to elements of a peer table, each given by its index there. After each change the
-- library may rebalance the tree: `balance` is how.
pub mod Search
use Prim.Native.Nat.{Ordering}
use itc_framework.Base.{ℕ, ◌≡◌, Option, none, some, List, [], ◌∷◌, ◌++◌}

pub data Tree : Type 0 where
  leaf : Tree
  node : Tree → ℕ → Tree → Tree

abbrev pub elements : Tree → List ℕ
elements leaf = []
elements (node l i r) = elements l ++ (i ∷ elements r)

-- A comparison function with its key: how the key stands to an element.
abbrev pub Comparison : Type 0
Comparison = ℕ → Ordering

unfoldable pub tfind : Comparison → Tree → Option ℕ
tfind cmp leaf = none
tfind cmp (node l i r) = elim (cmp i) [
  | Ordering.lt ↦ tfind cmp l
  | Ordering.eq ↦ some i
  | Ordering.gt ↦ tfind cmp r
]

unfoldable pub put : Comparison → ℕ → Tree → Tree
put cmp new leaf = node leaf new leaf
put cmp new (node l i r) = elim (cmp i) [
  | Ordering.lt ↦ node (put cmp new l) i r
  | Ordering.eq ↦ node l i r
  | Ordering.gt ↦ node l i (put cmp new r)
]

-- The tree without its last element, and that element.
unfoldable pub last_of : (l : Tree) (i : ℕ) (r : Tree) → Tree × ℕ
last_of l i leaf = (l, i)
last_of l i (node rl j rr) = let (rest, k) = last_of rl j rr in (node l i rest, k)

unfoldable pub join : Tree → Tree → Tree
unfolding last_of
join leaf r = r
join (node ll i lr) r = let (l', k) = last_of ll i lr in node l' k r

unfoldable pub cut : Comparison → Tree → Tree
unfolding join
cut cmp leaf = leaf
cut cmp (node l i r) = elim (cmp i) [
  | Ordering.lt ↦ node (cut cmp l) i r
  | Ordering.eq ↦ join l r
  | Ordering.gt ↦ node l i (cut cmp r)
]

module _ (balance : Tree → Tree) where
  abbrev pub tsearch : Comparison → ℕ → Tree → Tree
  tsearch cmp new t = balance (put cmp new t)

  abbrev pub tdelete : Comparison → Tree → Tree
  tdelete cmp t = balance (cut cmp t)

-- What a rebalancing keeps.
abbrev pub Rebalances : (Tree → Tree) → Type 0
Rebalances balance = (t : Tree) → elements (balance t) ≡ elements t
