-- ===== src/Memory/Items.antt =====
-- Lists of nodes by the items that they carry.
use itc_framework.Base.{
  ◌≡◌, refl, Bool, true, false, ◌||◌, inl, inr, [], ◌∷◌, ◌++◌, arith, ◌==◌, if◌then◌else◌,
  Bool-cases,
}
use itc_framework.Memory.{Ptr, null}
use itc_framework.Memory.Chain.{Cells}

-- The list without its first node that carries `item`.
unfoldable pub erase : Ptr → Cells → Cells
erase item [] = []
erase item ((p, x) ∷ xs) = if x == item then xs else (p, x) ∷ erase item xs

-- The address of that node, or `NULL`.
unfoldable pub address_of : Ptr → Cells → Ptr
address_of item [] = null
address_of item ((p, x) ∷ xs) = if x == item then p else address_of item xs

unfoldable pub carries : Ptr → Cells → Bool
carries item [] = false
carries item ((p, x) ∷ xs) = (x == item) || carries item xs

-- The list at its first node that carries `item`.
pub record Cut (item : Ptr) (xs : Cells) : Type 0 where
  pub front : Cells
  pub at : Ptr
  pub back : Cells
  pub whole : xs ≡ front ++ ((at, item) ∷ back)
  pub erased : erase item xs ≡ front ++ back
  pub address : address_of item xs ≡ at

pub cut : (item : Ptr) (xs : Cells) → carries item xs ≡ true → Cut item xs
unfolding erase address_of carries
cut item [] h = cc
cut item ((p, x) ∷ xs) h = elim (Bool-cases (x == item)) [
  | inl hit ↦ record {
    front = [];
    at = p;
    back = xs;
    whole = ground arith;
    erased = rw hit;
    address = rw hit;
  }
  | inr miss ↦
      let r = cut item xs (ground arith) in
      record {
        front = (p, x) ∷ r.front;
        at = r.at;
        back = r.back;
        whole = ground (arith, r.whole);
        erased = rw miss (ground (arith, r.erased));
        address = rw miss r.address;
      }
]

pub erase-absent : (item : Ptr) (xs : Cells) → carries item xs ≡ false → erase item xs ≡ xs
unfolding erase carries
erase-absent item [] h = refl
erase-absent item ((p, x) ∷ xs) h = ground (arith, erase-absent item xs)

pub address_of-absent :
    (item : Ptr) (xs : Cells) → carries item xs ≡ false → address_of item xs ≡ null
unfolding address_of carries
address_of-absent item [] h = refl
address_of-absent item ((p, x) ∷ xs) h = ground (arith, address_of-absent item xs)
