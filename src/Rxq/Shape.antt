-- ===== src/Rxq/Shape.antt =====
-- When an rx queue and the memory hold a given list of messages.
use itc_framework.Base.{◌≡◌, ◌≢◌, true, [], ◌∷◌, is_some, arith}
use itc_framework.Memory.{Ptr, null, Heap}
use itc_framework.Memory.Chain.{Cells, Seg}
use itc_framework.Memory.Items.{carries}
use itc_framework.Rxq.{RxQueue}

-- The messages that a queue carries are allocated.
abbrev pub AllMessages : Heap → Cells → Type 0
AllMessages h [] = Unit {0}
AllMessages h ((p, x) ∷ xs) = (x ≢ null) × (is_some (h.messages x) ≡ true) × AllMessages h xs

pub AllMessages-frame :
    (h g : Heap) (xs : Cells)
    → ((a : Ptr)
        → carries a xs ≡ true
        → is_some (h.messages a) ≡ true
        → is_some (g.messages a) ≡ true)
    → AllMessages h xs
    → AllMessages g xs
unfolding carries
AllMessages-frame h g [] keep all = tt
AllMessages-frame h g ((p, x) ∷ xs) keep all = (
  all.0,
  keep x (ground arith) all.1,
  AllMessages-frame h g xs (λ a i. keep a (ground arith)) all.2,
)

pub AllMessages-mono :
    (h g : Heap) (xs : Cells)
    → ((a : Ptr) → is_some (h.messages a) ≡ true → is_some (g.messages a) ≡ true)
    → AllMessages h xs
    → AllMessages g xs
AllMessages-mono h g xs keep all = AllMessages-frame h g xs (λ a i. keep a) all

-- The first node's `prev` is never read: it may be anything, and is `before` here.
pub record IsRxQueue (h : Heap) (q : RxQueue) (xs : Cells) : Type 0 where
  pub before : Ptr
  pub chain : Seg h.nodes q.tail null before q.head xs
  pub closed : q.head ≡ null → q.tail ≡ null
  pub messages : AllMessages h xs
