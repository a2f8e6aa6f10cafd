-- ===== src/Lib.antt =====
-- Verification of itc-framework, inter-thread and inter-process communication in C.
--
-- The parts of the program. A thread owns a mailbox and sends and receives messages through the
-- library (sw/itc/src/itc.c). A message travels by one of several transports, of which the local
-- one (sw/itc/src/transporters/itc_local.c) serves the threads of one process: it has an rx queue
-- for each mailbox. Free mailboxes, and the process slots of the coordinator, stand in queues of
-- sw/itc/src/helpers/itc_queue.c. The coordinator (sw/coord/itccoord.c) gives each process the high
-- bits of its mailbox ids and knows the names of all mailboxes of the host. A message for another
-- host goes to the gateway (sw/gateway/itc_gw.c), a daemon with a UDP thread, by whose broadcasts the
-- gateways find each other, a TCP client thread that sends, and a TCP server thread that receives.
--
-- The files.
--   Base      names of the libraries, Boolean tests, lists, bit masks, signed integers.
--   Memory    nodes and messages at addresses, the return code `rc->flags`, commands, list segments.
--   Queue     itc_queue.c: q_init, q_exit, q_enqueue, q_dequeue, q_remove, q_clear.
--   Alloc     sw/itc/src/allocators/itc_malloc.c: malloc_init to malloc_getinfo.
--   Message   itc.c: itc_alloc_zz, itc_free_zz, itc_sender_zz, itc_receiver_zz, itc_size_zz.
--   Rxq       itc_local.c: enqueue_message, dequeue_message, remove_message_fromqueue.
--   Local     itc_local.c: local_init, local_exit, local_create_mbox, local_delete_mbox, local_send,
--             local_receive, local_remove, and find_localmbx_data.
--   Mailbox   itc.c: itc_create_mailbox_zz, itc_delete_mailbox_zz, itc_send_zz, itc_receive_zz,
--             itc_get_fd_zz, find_mbox, locate_local_mbox. The transports are a list of records of
--             functions over a state of any type; the eventfd of a mailbox is an interface with
--             laws, as eventfd(2) documents them. Mailbox/Forward has
--             handle_forward_itc_msg_to_itcgw, and Mailbox/Lookup itc_locate_sync_zz,
--             itc_get_namespace_zz and mailbox_destructor_at_thread_exit; Mailbox/Start has
--             itc_init_zz and itc_exit_zz.
--   Time      itc.c: calc_abs_time, calc_time_diff.
--   Proto     sw/itc/inc/itc_proto.h: the messages to and from the coordinator.
--   Coord     itccoord.c: find_process, handle_add_mbox, handle_remove_mbox; Coord/Locate has
--             handle_locate_mbox, Coord/Connection has handle_locate_coord_request,
--             connect_to_process, disconnect_from_process and close_socket_connection, and
--             Coord/Incoming has handle_incoming_request.
--   Gateway   itc_gw.c. Stream has recv_data and Wire the byte order; Tree has the search trees of
--             <search.h>, and Peers the tables and comparison functions. Server has the peers of the
--             server thread (setup_tcp_server_peer, handle_accept_new_connection,
--             delete_tcp_peer_resource) and Server/Receive its packets
--             (handle_receive_tcp_packet_at_server and what it calls). Packet has the packets of
--             sw/gateway/itc_gw_proto.h as bytes. Client and Client/Receive have the client thread:
--             handle_tcp_client_add_peer, handle_tcp_client_rmv_peer, handle_fwd_data_out,
--             handle_locate_mbox_request, handle_receive_itcmsg_at_client,
--             handle_receive_tcp_packet_at_client. Exchange puts the sending and the receiving side
--             together. Text has the parts of printf and scanf that the greeting uses, and Udp the
--             UDP thread: create_broadcast_message, handle_receive_broadcast_msg,
--             handle_receive_itcmsg_at_udp and what they call.
-- A function has the name of its C function, less a prefix that its module's name already gives.
--
-- How state and errors are modelled. In Memory, Queue, Rxq and Local a command goes from a heap to a
-- result and a heap, or to `fault`, which stands for an access through a pointer to nothing and for a
-- double free. Globals (`local_inst`, `itc_inst`, `itccoord_inst`) are values that are passed on. In
-- Mailbox, Coord and Gateway `none` as a result stands for undefined behaviour. What `malloc` and
-- the system calls return is an argument. How the C library rebalances a search tree is an argument
-- too, of which the theorems ask only that it keeps the elements and their order. Words are stored as
-- on a little-endian host, and packets are shorter than 2^31 bytes, so that they fit an `int`. Numbers
-- are native, with wrap-around where the C type wraps.
--
-- Loops. The search of q_remove and the drains of q_clear and q_exit run on fuel, one round more than
-- `size` says there are nodes, which is enough for a valid queue. The loops of itc_local.c take
-- their fuel as an argument. The waits of itc_receive_zz, and the retries of system calls in
-- itccoord.c, follow a list of what they come to. recv_data reads from a list of bursts; each of its
-- rounds takes a byte or more or ends it, so that one round more than there are bytes to read is
-- enough fuel.
--
-- Not modelled. Mutexes: a call is one step, and only the wait of itc_receive_zz lets others run. The
-- trees of `tsearch` in Mailbox and Coord are lists of their nodes, without their shape; their
-- allocation does not fail. Of itc_init_zz the limits of the system and the largest size of a message
-- are left out. main of itccoord.c, main and the loops of the threads of itc_gw.c with the set-up of
-- their sockets, the other transports and the thread manager are not there; nor are traces, socket
-- addresses and the mutex attributes.
pub mod Base
pub mod Memory
pub mod Queue
pub mod Alloc
pub mod Message
pub mod Rxq
pub mod Local
pub mod Proto
pub mod Coord
pub mod Mailbox
pub mod Gateway
pub mod Time
