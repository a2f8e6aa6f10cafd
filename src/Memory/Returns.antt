-- ===== src/Memory/Returns.antt =====
-- Total correctness of a run over the memory: no fault, enough fuel, and a postcondition.
use itc_framework.Memory.{Heap, Outcome, ended, Command, continue_with}

pub data Returns {A : Type 0} (Post : A → Heap → Type 0) : Outcome A → Type 0 where
  returns : {a : A} {h : Heap} → Post a h → Returns Post (ended a h)

-- A weaker postcondition.
pub weaken :
    {A : Type 0} {Post Post' : A → Heap → Type 0} {o : Outcome A}
    → Returns Post o
    → ((a : A) (h : Heap) → Post a h → Post' a h)
    → Returns Post' o
weaken (returns p) f = returns (f _ _ p)

-- The rule for a command that follows.
pub bind :
    {A B : Type 0} {Post : A → Heap → Type 0} {Final : B → Heap → Type 0} {o : Outcome A}
    {k : A → Command B}
    → Returns Post o
    → ((a : A) (h : Heap) → Post a h → Returns Final (k a h))
    → Returns Final (continue_with o k)
bind (returns p) rest = rest _ _ p
