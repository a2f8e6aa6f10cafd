-- ===== src/Gateway/Peers/Table.antt =====
-- Reads of a peer table of itc_gw.c behind a write.
use itc_framework.Base.{
  ℕ, suc, ◌+◌, ◌≡◌, refl, sym, ◌≢◌, none, some, List, [], ◌∷◌, arith, Bool-cases, inl, inr,
  get_elem?, get_elem?-set_self, get_elem?-set_ne, get_elem?-inside, is_some,
}
use itc_framework.Gateway.Peers.{TcpPeer, update_peer, free_from}

module _ (ps : List TcpPeer) (i : ℕ) (f : TcpPeer → TcpPeer) (p : TcpPeer)
    (at : get_elem? ps i ≡ some p) where
  pub update_peer_self : get_elem? (update_peer ps i f) i ≡ some (f p)
  unfolding update_peer
  update_peer_self =
      rw (at, update_peer) (get_elem?-set_self ps i (f p) (get_elem?-inside ps i p at))

  pub update_peer_ne : (j : ℕ) → j ≢ i → get_elem? (update_peer ps i f) j ≡ get_elem? ps j
  unfolding update_peer
  update_peer_ne j ne = rw (at, update_peer) (get_elem?-set_ne ps i j (f p) (λ e. ne (sym e)))

-- The search for a free element finds one that is not connected.
pub free_from-is_free :
    (ps : List TcpPeer) (k i : ℕ)
    → free_from ps k ≡ some i
    → (j : ℕ) × (p : TcpPeer) × (i ≡ k + j) × (get_elem? ps j ≡ some p) × (p.fd ≡ none)
unfolding free_from
free_from-is_free [] k i e = cc
free_from-is_free (p ∷ ps) k i e = elim (Bool-cases (is_some p.fd)) [
  | inl taken ↦
      let (j, q, is, at, free) = free_from-is_free ps (k + 1) i (ground (arith, e, taken)) in
      (suc j, q, omega (arith, is), at, free)
  | inr vacant ↦ (0, p, ground (arith, e, vacant), refl, ground (arith, vacant))
]
