-- ===== src/Gateway/Server/Removal.antt =====
-- delete_tcp_peer_resource of itc_gw.c: what it keeps where its search finds the socket, and which
-- sockets its search does not find.
use Prim.Native.Nat.{Ordering}
use native.Mathlib.Decide.{ℕ_discrete}
use itc_framework.Base.{
  ℕ, ◌<◌, ◌≡◌, refl, get_elem?, ◌≢◌, ◌∙◌, sym, ap, Bool, true, false, not, Option, none, some, List,
  [], ◌∷◌, ◌++◌, ◌==◌, ◌&&◌, is_some, arith, test_eq, test_ne, if◌then◌else◌, inl, inr, Bool-cases,
  test_true,
}
use itc_framework.Gateway.Tree.{Tree, node, elements, tfind, Rebalances, tdelete}
use itc_framework.Gateway.Tree.Search.{cut_in, cut-cut_in}
use itc_framework.Gateway.Peers.{
  TcpPeer, TcpPeers, addr_of, fd_of, compare_addr, compare_sockfd, no_addr,
}
use itc_framework.Gateway.Peers.Order.{
  mem, mem-tfind, mem-append, IsSorted-same, Falls-sorted, mem-cut_in, cut_in-IsSorted,
}
use itc_framework.Gateway.Server.{release_peer, delete_tcp_peer_resource}
use itc_framework.Gateway.Server.Invariant.{IsPeers, Changed, changed, fd_at}

socket_of : (o : Option ℕ) → is_some o ≡ true → (d : ℕ) × (o ≡ some d)
socket_of none e = cc
socket_of (some d) e = (d, refl)

equal_sockets :
    (ps : List TcpPeer) (d k : ℕ) → compare_sockfd ps d k ≡ Ordering.eq → fd_of ps k ≡ some d
equal_sockets ps d k eq = ground (arith, eq)

-- A connected element is inside the table.
peer_at :
    (ps : List TcpPeer) (i : ℕ)
    → is_some (fd_of ps i) ≡ true
    → (p : TcpPeer) × (get_elem? ps i ≡ some p)
peer_at ps i e = go (get_elem? ps i) refl
  where
    go : (o : Option TcpPeer) → get_elem? ps i ≡ o → (p : TcpPeer) × (get_elem? ps i ≡ some p)
    go (some p) at = (p, at)
    go none at = let none_there : is_some (fd_of ps i) ≡ false = rw (at, fd_of) refl in cc

-- An element taken out of the tree by its address, `ps1` being the table at that time.
leaves :
    (balance : Tree → Tree)
    → Rebalances balance
    → (s : TcpPeers) (ps1 ps2 : List TcpPeer) (i : ℕ) (p1 p2 : TcpPeer) → IsPeers s
    → mem i (elements s.tree) ≡ true
    → Changed s.peers ps1 i p1
    → p1.addr ≡ addr_of s.peers i
    → Changed s.peers ps2 i p2
    → p2.fd ≡ none
    → IsPeers
        (record { peers = ps2; tree = tdelete balance (compare_addr ps1 (addr_of ps1 i)) s.tree })
leaves balance keeps s ps1 ps2 i p1 p2 is m c1 kept c2 gone =
    let xs = elements s.tree in
    let cmp = compare_addr ps1 (addr_of ps1 i) in
    let same : (j : ℕ) → mem j xs ≡ true → addr_of ps1 j ≡ addr_of s.peers j = λ j mj.
      elim (ℕ_discrete j i) [
        | yes e ↦ rw (e, c1.self, addr_of) kept
        | no ne ↦ rw (c1.others j ne, addr_of) refl
      ] in
    let sorted = IsSorted-same (addr_of s.peers) (addr_of ps1) xs same is.sorted in
    let falls = Falls-sorted (addr_of ps1) (addr_of ps1 i) xs sorted in
    let listed : elements (tdelete balance cmp s.tree) ≡ cut_in cmp xs =
      keeps _ ∙ cut-cut_in cmp s.tree falls in
    let members : (j : ℕ) → mem j (cut_in cmp xs) ≡ (not (j == i) && mem j xs) =
      mem-cut_in (addr_of ps1) (addr_of ps1 i) i xs refl sorted m in
    let later : (j : ℕ) → mem j (cut_in cmp xs) ≡ true → addr_of ps2 j ≡ addr_of ps1 j = λ j mj.
      let other : j ≢ i = λ e. ground (arith, mj, members j, test_eq e) in
      rw (c2.others j other, c1.others j other, addr_of) refl in
    record {
      sorted = rw listed (
          IsSorted-same (addr_of ps1) (addr_of ps2) (cut_in cmp xs) later
            (cut_in-IsSorted (addr_of ps1) (addr_of ps1 i) i xs refl sorted m));
      used = λ j.
          ap (mem j) listed
          ∙ (members j ∙ elim (ℕ_discrete j i) [
            | yes e ↦ rw (test_eq e, e, fd_at ps2 i p2 c2.self, gone) refl
            | no ne ↦ rw (test_ne ne, c2.others j ne, fd_of) (is.used j)
          ]);
    }

-- What the removal of the element `i` leaves.
pub record Released (s : TcpPeers) (i : ℕ) (s' : TcpPeers) : Type 0 where
  pub valid : IsPeers s'
  pub gone : fd_of s'.peers i ≡ none
  pub others : (j : ℕ) → j ≢ i → fd_of s'.peers j ≡ fd_of s.peers j

module _ (balance : Tree → Tree) (keeps : Rebalances balance) where
  released :
      (s : TcpPeers) (sent : Bool) (i : ℕ) (p : TcpPeer)
      → IsPeers s
      → mem i (elements s.tree) ≡ true
      → get_elem? s.peers i ≡ some p
      → ((release_peer balance sent s i).0 ≡ sent) × Released s i (release_peer balance sent s i).1
  unfolding release_peer
  released s true i p is m at =
      let p1 : TcpPeer = record p { fd = none } in
      let c1 = changed s.peers i (λ q. record q { fd = none }) p at in
      let c2 = changed _ i (λ q. record q { addr = no_addr }) p1 c1.self in
      let both : Changed s.peers _ i (record p1 { addr = no_addr }) = record {
        self = c2.self;
        others = λ j ne. c2.others j ne ∙ c1.others j ne;
      } in
      (
        refl,
        record {
          valid = leaves balance keeps s _ _ i p1 _ is m c1 (rw (at, addr_of) refl) both refl;
          gone = fd_at _ i _ both.self;
          others = λ j ne. rw (both.others j ne, fd_of) refl;
        },
      )
  released s false i p is m at =
      let p1 : TcpPeer = record p { fd = none } in
      let c1 = changed s.peers i (λ q. record q { fd = none }) p at in
      (
        refl,
        record {
          valid = leaves balance keeps s _ _ i p1 p1 is m c1 (rw (at, addr_of) refl) c1 refl;
          gone = fd_at _ i _ c1.self;
          others = λ j ne. rw (c1.others j ne, fd_of) refl;
        },
      )

  -- delete_tcp_peer_resource of a socket that its search finds, at the element `i`, whatever the
  -- library's rebalancing, on a consistent table and tree: it returns what `itc_send` of the notice
  -- returns, and if that is true the peer's address was in the notice; and in each case table and
  -- tree stay consistent, the element is free and the others are as connected as before.
  pub delete_found :
      (s : TcpPeers) (sent : Bool) (sockfd i : ℕ)
      → IsPeers s
      → tfind (compare_sockfd s.peers sockfd) s.tree ≡ some i
      → let (done, s', notice) = delete_tcp_peer_resource balance sent sockfd s in
        (done ≡ sent)
        × (notice ≡ (if sent then some (addr_of s.peers i) else none))
        × Released s i s'
  unfolding delete_tcp_peer_resource release_peer
  delete_found s sent sockfd i is e =
      let m = (mem-tfind (compare_sockfd s.peers sockfd) s.tree i e).0 in
      let (p, at) = peer_at s.peers i (sym (is.used i) ∙ m) in
      let (done, left) = released s sent i p is m at in
      rw (e, delete_tcp_peer_resource) (done, refl, left)

-- Along the elements the sockets fall.
abbrev pub SocketsFall : List TcpPeer → List ℕ → Type 0
SocketsFall ps [] = Unit {0}
SocketsFall ps (i ∷ xs) =
    ((j : ℕ) (d e : ℕ) → mem j xs ≡ true → fd_of ps i ≡ some d → fd_of ps j ≡ some e → e < d)
    × SocketsFall ps xs

fall_across :
    (ps : List TcpPeer) (xs ys : List ℕ) (j k d e : ℕ)
    → SocketsFall ps (xs ++ ys)
    → mem j xs ≡ true
    → mem k ys ≡ true
    → fd_of ps j ≡ some d
    → fd_of ps k ≡ some e
    → e < d
unfolding mem
fall_across ps [] ys j k d e f mj mk at_j at_k = cc
fall_across ps (x ∷ xs) ys j k d e (first, f) mj mk at_j at_k = elim (Bool-cases (j == x)) [
  | inl same ↦
      let at_x : fd_of ps x ≡ some d = ap (fd_of ps) (sym (test_true j x same)) ∙ at_j in
      first k d e (ground (arith, mem-append k xs ys, mk)) at_x at_k
  | inr other ↦ fall_across ps xs ys j k d e f (ground (arith, mj, other)) mk at_j at_k
]

falls_behind : (ps : List TcpPeer) (xs ys : List ℕ) → SocketsFall ps (xs ++ ys) → SocketsFall ps ys
falls_behind ps [] ys f = f
falls_behind ps (x ∷ xs) ys (first, f) = falls_behind ps xs ys f

-- A search for a socket that no element of a tree has.
tfind-none :
    (ps : List TcpPeer) (d : ℕ) (t : Tree)
    → ((k : ℕ) → mem k (elements t) ≡ true → fd_of ps k ≢ some d)
    → tfind (compare_sockfd ps d) t ≡ none
tfind-none ps d t absent = go (tfind (compare_sockfd ps d) t) refl
  where
    go : (o : Option ℕ) → tfind (compare_sockfd ps d) t ≡ o → tfind (compare_sockfd ps d) t ≡ none
    go none e = e
    go (some k) e =
        let (m, eq) = mem-tfind (compare_sockfd ps d) t k e in
        absurd (absent k m (equal_sockets ps d k eq))

-- Where the address order and the order of sockets run against each other, the search of
-- delete_tcp_peer_resource goes astray at the root: of all connected peers it finds none but the
-- one at the root of the tree. When another of them closes its connection the function returns
-- false, and the socket is not closed and its element not freed.
pub delete_misses :
    (balance : Tree → Tree) (s : TcpPeers) (l r : Tree) (i j d : ℕ) (sent : Bool)
    → IsPeers s
    → s.tree ≡ node l i r
    → SocketsFall s.peers (elements (node l i r))
    → mem j (elements s.tree) ≡ true
    → j ≢ i
    → fd_of s.peers j ≡ some d
    → delete_tcp_peer_resource balance sent d s ≡ (false, s, none)
unfolding delete_tcp_peer_resource mem tfind
delete_misses balance s l r i j d sent is at falls m ne at_j =
    let root : mem i (elements s.tree) ≡ true =
      rw at (ground (arith, mem-append i (elements l) (i ∷ elements r), test_eq {a = i} refl)) in
    let (e, at_i) = socket_of (fd_of s.peers i) (sym (is.used i) ∙ root) in
    let astray : tfind (compare_sockfd s.peers d) (node l i r) ≡ none =
      elim (Bool-cases (mem j (elements l))) [
        | inl left ↦
            let above : e < d =
              fall_across s.peers (elements l) (i ∷ elements r) j i d e falls left
                (ground (arith, test_eq {a = i} refl)) at_j at_i in
            let goes : compare_sockfd s.peers d i ≡ Ordering.gt =
              rw (at_i, compare_sockfd) (ground arith) in
            rw (goes, tfind)
              (tfind-none s.peers d r λ k mk at_k. absurd (
                omega (
                  arith,
                  fall_across s.peers (elements l) (i ∷ elements r) j k d d falls left
                      (ground (arith, mk)) at_j at_k,
                )))
        | inr right ↦
            let mj : mem j (elements r) ≡ true = ground (
              arith,
              right,
              (rw at at m),
              mem-append j (elements l) (i ∷ elements r),
              test_ne ne,
            ) in
            let below : d < e =
              (falls_behind s.peers (elements l) (i ∷ elements r) falls).0 j e d mj at_i at_j in
            let goes : compare_sockfd s.peers d i ≡ Ordering.lt =
              rw (at_i, compare_sockfd) (ground arith) in
            rw (goes, tfind)
              (tfind-none s.peers d l λ k mk at_k. absurd (
                omega (
                  arith,
                  fall_across s.peers (elements l) (i ∷ elements r) k i d e falls mk
                      (ground (arith, test_eq {a = i} refl)) at_k at_i,
                )))
      ] in
    let lost : tfind (compare_sockfd s.peers d) s.tree ≡ none =
      ap (tfind (compare_sockfd s.peers d)) at ∙ astray in
    rw (lost, delete_tcp_peer_resource) refl
