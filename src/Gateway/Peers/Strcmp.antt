-- ===== src/Gateway/Peers/Strcmp.antt =====
-- The order of `strcmp`, by which the search trees of itc_gw.c stand.
use Prim.Native.Nat.{Ordering}
use itc_framework.Base.{◌≡◌, refl, ◌≢◌, [], ◌∷◌, arith}
use itc_framework.Proto.{Name}
use itc_framework.Gateway.Peers.{strcmp}

pub strcmp_self : (a : Name) → strcmp a a ≡ Ordering.eq
unfolding strcmp
strcmp_self [] = refl
strcmp_self (x ∷ a) = ground (arith, strcmp_self a)

pub eq_of_strcmp : (a b : Name) → strcmp a b ≡ Ordering.eq → a ≡ b
unfolding strcmp
eq_of_strcmp [] [] e = refl
eq_of_strcmp [] (y ∷ b) e = cc
eq_of_strcmp (x ∷ a) [] e = cc
eq_of_strcmp (x ∷ a) (y ∷ b) e = ground (arith, eq_of_strcmp a b)

pub strcmp_swap : (a b : Name) → strcmp a b ≡ Ordering.gt → strcmp b a ≡ Ordering.lt
unfolding strcmp
strcmp_swap [] [] e = cc
strcmp_swap [] (y ∷ b) e = cc
strcmp_swap (x ∷ a) [] e = refl
strcmp_swap (x ∷ a) (y ∷ b) e = ground (arith, strcmp_swap a b)

pub strcmp_swap_lt : (a b : Name) → strcmp a b ≡ Ordering.lt → strcmp b a ≡ Ordering.gt
unfolding strcmp
strcmp_swap_lt [] [] e = cc
strcmp_swap_lt (x ∷ a) [] e = cc
strcmp_swap_lt [] (y ∷ b) e = refl
strcmp_swap_lt (x ∷ a) (y ∷ b) e = ground (arith, strcmp_swap_lt a b)

pub strcmp_trans :
    (a b c : Name) → strcmp a b ≢ Ordering.gt → strcmp b c ≡ Ordering.lt → strcmp a c ≡ Ordering.lt
unfolding strcmp
strcmp_trans a [] [] ne e = cc
strcmp_trans a (y ∷ b) [] ne e = cc
strcmp_trans [] b (z ∷ c) ne e = refl
strcmp_trans (x ∷ a) [] (z ∷ c) ne e = absurd (ne refl)
strcmp_trans (x ∷ a) (y ∷ b) (z ∷ c) ne e = ground (arith, strcmp_trans a b c)
