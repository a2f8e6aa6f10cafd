-- ===== src/Gateway/Server/Invariant.antt =====
-- The server's table and tree of itc_gw.c stay consistent.
use itc_framework.Base.{
  ℕ, ◌≡◌, refl, get_elem?, ◌≢◌, ◌∙◌, sym, ap, Bool, true, false, Option, none, some, List, is_some,
  arith, test_eq, test_ne,
}
use native.Mathlib.Decide.{ℕ_discrete}
use itc_framework.Proto.{Name}
use itc_framework.Gateway.Tree.{Tree, elements, tfind, Rebalances, tsearch}
use itc_framework.Gateway.Tree.Search.{find_in, put_in, tfind-find_in, put-put_in}
use itc_framework.Gateway.Peers.{
  TcpPeer, TcpPeers, addr_of, fd_of, compare_addr, free_from, update_peer,
}
use itc_framework.Gateway.Peers.Table.{update_peer_self, update_peer_ne, free_from-is_free}
use itc_framework.Gateway.Peers.Order.{
  mem, find_in-same, mem-tfind, IsSorted, IsSorted-same, Falls-sorted, find_in-put_in,
  put_in-IsSorted, mem-put_in,
}
use itc_framework.Gateway.Server.{add, take_slot, handle_accept_new_connection, accepted, peer_addr}

-- The tree leads to the connected elements of the table, each once, in the order of addresses.
pub record IsPeers (s : TcpPeers) : Type 0 where
  pub sorted : IsSorted (addr_of s.peers) (elements s.tree)
  pub used : (i : ℕ) → mem i (elements s.tree) ≡ is_some (fd_of s.peers i)

-- How the table looks where the element `i` has become `p'`.
pub record Changed (ps ps' : List TcpPeer) (i : ℕ) (p' : TcpPeer) : Type 0 where
  pub self : get_elem? ps' i ≡ some p'
  pub others : (j : ℕ) → j ≢ i → get_elem? ps' j ≡ get_elem? ps j

pub changed :
    (ps : List TcpPeer) (i : ℕ) (f : TcpPeer → TcpPeer) (p : TcpPeer)
    → get_elem? ps i ≡ some p
    → Changed ps (update_peer ps i f) i (f p)
changed ps i f p at = record {
  self = update_peer_self ps i f p at;
  others = update_peer_ne ps i f p at;
}

pub fd_at : (ps : List TcpPeer) (i : ℕ) (p : TcpPeer) → get_elem? ps i ≡ some p → fd_of ps i ≡ p.fd
fd_at ps i p at = rw (at, fd_of) refl

-- What handle_accept_new_connection of the address `addr` comes to.
pub data Accepts (s : TcpPeers) (addr : Name) : Bool × TcpPeers → Type 0 where
  found :
      {s' : TcpPeers} (i : ℕ)
      → IsPeers s'
      → tfind (compare_addr s'.peers addr) s'.tree ≡ some i
      → is_some (fd_of s'.peers i) ≡ true
      → Accepts s addr (true, s')
  full :
      tfind (compare_addr s.peers addr) s.tree ≡ none
      → free_from s.peers 0 ≡ none
      → Accepts s addr (false, s)

module _ (balance : Tree → Tree) (keeps : Rebalances balance) where
  -- A free element that gets an address which no connected peer has.
  joins :
      (s : TcpPeers) (ps' : List TcpPeer) (i : ℕ) (p' : TcpPeer)
      → IsPeers s
      → Changed s.peers ps' i p'
      → is_some (fd_of s.peers i) ≡ false
      → is_some p'.fd ≡ true
      → tfind (compare_addr s.peers p'.addr) s.tree ≡ none
      → let t = tsearch balance (compare_addr ps' (addr_of ps' i)) i s.tree in
        IsPeers (record { peers = ps'; tree = t }) × (tfind (compare_addr ps' p'.addr) t ≡ some i)
  joins s ps' i p' is c vacant connected absent =
      let xs = elements s.tree in
      let unlisted : mem i xs ≡ false = is.used i ∙ vacant in
      let others : (j : ℕ) → mem j xs ≡ true → get_elem? ps' j ≡ get_elem? s.peers j =
        λ j m. c.others j (λ e. ground (arith, ap (λ k. mem k xs) e, m, unlisted)) in
      let same : (j : ℕ) → mem j xs ≡ true → addr_of ps' j ≡ addr_of s.peers j =
        λ j m. rw (others j m, addr_of) refl in
      let key : addr_of ps' i ≡ p'.addr = rw (c.self, addr_of) refl in
      let sorted : IsSorted (addr_of ps') xs =
        IsSorted-same (addr_of s.peers) (addr_of ps') xs same is.sorted in
      let falls = Falls-sorted (addr_of ps') (addr_of ps' i) xs sorted in
      let listed : elements (tsearch balance (compare_addr ps' (addr_of ps' i)) i s.tree)
          ≡ put_in (compare_addr ps' (addr_of ps' i)) i xs =
        keeps _ ∙ put-put_in (compare_addr ps' (addr_of ps' i)) i s.tree falls in
      let cmp = compare_addr ps' (addr_of ps' i) in
      let t = tsearch balance cmp i s.tree in
      let old = compare_addr s.peers p'.addr in
      let new : find_in cmp xs ≡ none =
        find_in-same old cmp xs (λ j m. rw (key, same j m) refl)
        ∙ (sym (tfind-find_in old s.tree (Falls-sorted (addr_of s.peers) p'.addr xs is.sorted))
            ∙ absent) in
      let ordered : IsSorted (addr_of ps') (elements t) =
        rw listed (put_in-IsSorted (addr_of ps') (addr_of ps' i) i xs refl sorted new) in
      (
        record {
          sorted = ordered;
          used = λ j.
              ap (mem j) listed
              ∙ (mem-put_in (addr_of ps') (addr_of ps' i) i xs new j ∙ elim (ℕ_discrete j i) [
                | yes e ↦ rw (test_eq e, e, fd_at ps' i p' c.self) (sym connected)
                | no ne ↦ rw (test_ne ne, c.others j ne, fd_of) (is.used j)
              ]);
        },
        ap (λ k. tfind (compare_addr ps' k) t) (sym key)
            ∙ (tfind-find_in cmp t (Falls-sorted (addr_of ps') (addr_of ps' i) (elements t) ordered)
                ∙ (ap (find_in cmp) listed
                    ∙ find_in-put_in (addr_of ps') (addr_of ps' i) i xs refl new)),
      )

  slot_taken :
      (s : TcpPeers) (fd : ℕ) (addr : Name)
      → IsPeers s
      → tfind (compare_addr s.peers addr) s.tree ≡ none
      → (o : Option ℕ) → free_from s.peers 0 ≡ o
      → Accepts s addr (take_slot balance s o addr fd)
  unfolding take_slot add
  slot_taken s fd addr is absent none e = full absent e
  slot_taken s fd addr is absent (some i) e =
      let (j, p, i_is, at, free) = free_from-is_free s.peers 0 i e in
      let here : get_elem? s.peers i ≡ some p = ap (get_elem? s.peers) (omega (arith, i_is)) ∙ at in
      let c = changed s.peers i (λ q. record q { addr = addr; fd = some fd }) p here in
      let vacant : is_some (fd_of s.peers i) ≡ false = rw (fd_at s.peers i p here, free) refl in
      let (is', at') =
        joins s _ i (record p { addr = addr; fd = some fd }) is c vacant refl absent in
      found i is' at' (ap is_some (fd_at _ i _ c.self))

  -- handle_accept_new_connection of a connection, whatever the library's rebalancing, on a table
  -- and tree that are consistent: either it returns true, table and tree are consistent, and the
  -- peer's address is found in the tree, at a connected element; or it returns false and changes
  -- nothing, and then the address is not in the tree and no element is free.
  pub accepts :
      (s : TcpPeers) (fd : ℕ) (ip : Name)
      → IsPeers s
      → Accepts s (peer_addr ip) (handle_accept_new_connection balance (accepted fd ip) s)
  unfolding handle_accept_new_connection
  accepts s fd ip is = search_first (tfind (compare_addr s.peers (peer_addr ip)) s.tree) refl
    where
      search_first :
          (o : Option ℕ)
          → tfind (compare_addr s.peers (peer_addr ip)) s.tree ≡ o
          → Accepts s (peer_addr ip) (handle_accept_new_connection balance (accepted fd ip) s)
      search_first none e =
          rw (e, handle_accept_new_connection)
            (slot_taken s fd (peer_addr ip) is e (free_from s.peers 0) refl)
      search_first (some i) e =
          let m = mem-tfind (compare_addr s.peers (peer_addr ip)) s.tree i e in
          rw (e, handle_accept_new_connection) (found i is e (sym (is.used i) ∙ m.0))
