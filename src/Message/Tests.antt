-- ===== src/Message/Tests.antt =====
-- itc_alloc_zz and itc_free_zz at small inputs.
use itc_framework.Base.{◌≡◌, refl, none, some, [], ◌∷◌, arith, true, false}
use itc_framework.Memory.{Heap, Message, ended, ◌>>=◌, update, itc_ok}
use itc_framework.Memory.Returns.{Returns}
use itc_framework.Message.{endpoint, alloc, free}
use itc_framework.Message.Lifecycle.{free_keeps_queued, free-alloc}

abbrev blank : Heap
blank = record { nodes = λ _. none; messages = λ _. none; rc = 0 }

-- A queued message of 4 bytes, and the same one taken out but written past its end.
abbrev queued_message : Message
queued_message = record {
  flags = 1;
  receiver = 2;
  sender = 3;
  size = 4;
  msgno = 5;
  payload = endpoint ∷ [];
}

abbrev damaged_message : Message
damaged_message = record queued_message { flags = 0; payload = 0 ∷ [] }

abbrev holding : Message → Heap
holding m = record blank { messages = update (λ _. none) 100 (some m) }

free-alloc_example :
    Returns
      (λ done g.
        (done ≡ true) × (g.messages ≡ blank.messages) × (g.nodes ≡ blank.nodes) × (g.rc ≡ itc_ok))
      ((alloc true 1000 100 8 5 >>= free true) blank)
free-alloc_example = free-alloc blank 1000 100 8 5 (omega arith) refl (omega arith) (omega arith)

free_queued : free true 100 (holding queued_message) ≡ ended false (holding queued_message)
free_queued =
    free_keeps_queued (holding queued_message) 100 queued_message (omega arith) refl (omega arith)
