-- ===== src/Gateway/Udp/Removal.antt =====
-- handle_udp_rmv_peer of itc_gw.c: the peer's address is overwritten before the tree is searched for
-- it.
use itc_framework.Gateway.Tree.{Tree}
