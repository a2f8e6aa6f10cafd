-- ===== src/Queue/Shape.antt =====
-- When a `struct itc_queue` and the memory hold a given list of nodes.
use itc_framework.Base.{◌≡◌, ◌<◌, ◌^◌, length}
use itc_framework.Memory.{null, Heap}
use itc_framework.Memory.Chain.{Cells, Seg}
use itc_framework.Queue.{Queue}

pub record IsQueue (h : Heap) (q : Queue) (xs : Cells) : Type 0 where
  pub chain : Seg h.nodes q.tail null null q.head xs
  pub size : q.size ≡ length xs
  pub small : length xs < 2 ^ 32

-- What an operation of the queue leaves alone beside the nodes.
pub record Keeps (h g : Heap) : Type 0 where
  pub messages : g.messages ≡ h.messages
  pub rc : g.rc ≡ h.rc
