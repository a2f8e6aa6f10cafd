-- ===== src/Rxq/Tests.antt =====
-- The rx queue of itc_local.c at small inputs: its theorems at a queue of three messages.
use itc_framework.Base.{◌≡◌, refl, none, some, [], ◌∷◌, arith}
use itc_framework.Memory.{null, node, Message, Heap, fault, ◌>>=◌, update}
use itc_framework.Memory.Chain.{Cells, nil, cons}
use itc_framework.Memory.Items.{carries}
use itc_framework.Memory.Returns.{Returns}
use itc_framework.Rxq.{RxQueue, dequeue_message, remove_message}
use itc_framework.Rxq.Shape.{IsRxQueue}
use itc_framework.Rxq.Removal.{RemovedLast, last_message_removed}
use itc_framework.Rxq.Middle.{dequeue-remove_second}

abbrev queued_message : Message
queued_message = record { flags = 1; receiver = 2; sender = 3; size = 4; msgno = 5; payload = [] }

abbrev three : Cells
three = (10, 100) ∷ (20, 200) ∷ (30, 300) ∷ []

abbrev memory : Heap
memory = record {
  nodes =
      update (update (update (λ _. none) 10 (some (node 20 null 100))) 20 (some (node 30 10 200)))
        30 (some (node null 20 300));
  messages = λ _. some queued_message;
  rc = 0;
}

abbrev queue : RxQueue
queue = record { head = 10; tail = 30; find = null }

queue-IsRxQueue : IsRxQueue memory queue three
queue-IsRxQueue = record {
  before = null;
  chain =
      cons (record { ne_null = omega arith; holds = refl }) refl
        (cons (record { ne_null = omega arith; holds = refl }) refl
          (cons (record { ne_null = omega arith; holds = refl }) refl nil));
  closed = λ e. absurd (omega arith);
  messages = (omega arith, refl, (omega arith, refl, (omega arith, refl, tt)));
}

last_message_removed_example :
    Returns
      (RemovedLast memory 30 300 queued_message ((10, 100) ∷ (20, 200) ∷ []))
      (remove_message 4 queue 300 memory)
unfolding carries
last_message_removed_example =
    last_message_removed {c = (10, 100)} {ys = (20, 200) ∷ []} 4 queued_message refl queue-IsRxQueue
      refl (omega arith)

dequeue-remove_second_example :
    (remove_message 4 queue 200 >>= λ r. dequeue_message r.1) memory ≡ fault
dequeue-remove_second_example =
    dequeue-remove_second memory queue 4 queued_message refl queue-IsRxQueue (omega arith)
      (omega arith)
