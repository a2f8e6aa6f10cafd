-- ===== src/Memory/Access.antt =====
-- What the accesses to a node do where the pointer leads to one.
use itc_framework.Base.{◌≡◌, ◌≢◌, false, none, some, arith, ◌==◌, test_ne}
use itc_framework.Memory.{
  Ptr, null, Node, Message, Heap, update, ended, fault, load, load_message, set_next, set_prev,
  free_node,
}
use itc_framework.Memory.Chain.{Nodes, Points}

pub not_null : {h : Nodes} {p : Ptr} {m : Node} → Points h p m → (p == null) ≡ false
not_null e = ground arith

module _ (h : Heap) {p : Ptr} {m : Node} (e : Points h.nodes p m) where
  pub load-ended : load p h ≡ ended m h
  unfolding load
  load-ended = rw (not_null e, e.holds)

  pub set_next-ended :
      (q : Ptr)
      → set_next p q h
        ≡ ended tt (record h { nodes = update h.nodes p (some (record m { next = q })) })
  unfolding set_next
  set_next-ended q = rw load-ended

  pub set_prev-ended :
      (q : Ptr)
      → set_prev p q h
        ≡ ended tt (record h { nodes = update h.nodes p (some (record m { prev = q })) })
  unfolding set_prev
  set_prev-ended q = rw load-ended

  pub free_node-ended : free_node p h ≡ ended tt (record h { nodes = update h.nodes p none })
  unfolding free_node
  free_node-ended = rw load-ended

pub load_message-ended :
    (h : Heap) {p : Ptr} {m : Message}
    → p ≢ null
    → h.messages p ≡ some m
    → load_message p h ≡ ended m h
unfolding load_message
load_message-ended h ne at = rw (test_ne ne, at)

-- A second free of a node, or any access to one that was freed.
pub free_node-fault : (h : Heap) (p : Ptr) → h.nodes p ≡ none → free_node p h ≡ fault
unfolding free_node load
free_node-fault h p gone = ground arith
