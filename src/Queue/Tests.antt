-- ===== src/Queue/Tests.antt =====
-- itc_queue.c at small inputs: runs of the queue, and its theorems at a queue of three nodes.
use itc_framework.Base.{◌≡◌, refl, none, some, List, [], ◌∷◌, arith}
use itc_framework.Memory.{null, node, Heap, update}
use itc_framework.Memory.Chain.{Cells, nil, cons}
use itc_framework.Memory.Returns.{Returns}
use itc_framework.Queue.{Queue, clear}
use itc_framework.Queue.Shape.{IsQueue}
use itc_framework.Queue.Drain.{Cleared, clear_frees}
use itc_framework.Queue.Refine.{
  Op, put, take, drop, delete, items, spec, run, Supplied, run_refines,
}

abbrev blank : Heap
blank = record { nodes = λ _. none; messages = λ _. none; rc = 0 }

abbrev empty_queue : Queue
empty_queue = record { head = null; tail = null; search = null; size = 0 }

abbrev three : Cells
three = (10, 7) ∷ (20, 8) ∷ (30, 9) ∷ []

abbrev memory : Heap
memory = record blank {
  nodes =
      update (update (update (λ _. none) 10 (some (node 20 null 7))) 20 (some (node 30 10 8))) 30
        (some (node null 20 9));
}

abbrev queue : Queue
queue = record { head = 10; tail = 30; search = null; size = 3 }

abbrev script : List Op
script = put 40 5 ∷ take ∷ drop 9 ∷ take ∷ take ∷ take ∷ []

empty_queue-IsQueue : IsQueue blank empty_queue []
empty_queue-IsQueue = record { chain = nil; size = refl; small = omega arith }

queue-IsQueue : IsQueue memory queue three
queue-IsQueue = record {
  chain =
      cons (record { ne_null = omega arith; holds = refl }) refl
        (cons (record { ne_null = omega arith; holds = refl }) refl
          (cons (record { ne_null = omega arith; holds = refl }) refl nil));
  size = refl;
  small = omega arith;
}

spec-script : spec (items three) script ≡ ([], 7 ∷ 8 ∷ 5 ∷ null ∷ [])
unfolding spec delete
spec-script = refl

supply : Supplied memory script
supply = record { once = (refl, tt); fresh = λ a i. ground arith }

run_refines_example :
    Returns
      (λ r g.
        (ys : Cells) × IsQueue g r.0 ys
        × (items ys ≡ (spec (items three) script).0)
        × (r.1 ≡ (spec (items three) script).1))
      (run script queue memory)
run_refines_example = run_refines script three queue-IsQueue supply (omega arith)

clear_frees_example : Returns (Cleared memory three) (clear (some queue) memory)
clear_frees_example = clear_frees queue-IsQueue (omega arith, (omega arith, (omega arith, tt)))
