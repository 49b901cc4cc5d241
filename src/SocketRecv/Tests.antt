-- ===== src/SocketRecv/Tests.antt =====
-- The theorems on the way in of net/SocketImpl.cpp at concrete sockets and messages.
use hudp.Common.{◌≡◌, refl, zero, suc, arith}
use hudp.Message.{Msg, Store, new_msg}
use hudp.SocketImpl.{
  Socket, ss_ready, ss_fin_wait_1, release_socket, ss_time_wait, ss_closing, ss_last_ack,
  new_socket, send_fin_message, wi_reliable_orderly,
}
use hudp.SocketRecv.Kept.{at}
use hudp.SocketRecv.{recv_message, insert_to_list, to_recv}
use hudp.SocketRecv.Answered.{Answers, recv_message-Answers}
use hudp.SocketRecv.Start.{insert_to_list-late}
use hudp.SocketRecv.Status.{recv_message-status}
use hudp.SocketRecv.Handshake.{Adds, before_close, close_handshake, last_ack-released}

abbrev fin : Msg
fin = record new_msg { head = record (new_msg.head) { flag = 0x414; id = 7 } }

abbrev fin_ack : Msg
fin_ack = record new_msg { head = record (new_msg.head) { flag = 0x881; id = 3 } }

-- Pointer 0 leads to the FIN, the others to the FIN_ACK.
abbrev store : Store
store zero = fin
store (suc p) = fin_ack

abbrev ready : Socket
ready = at ss_ready new_socket

recv_message-status_example :
    (recv_message store 0 (at ss_fin_wait_1 new_socket)).sk_status ≡ ss_closing
recv_message-status_example = recv_message-status store 0 (at ss_fin_wait_1 new_socket)

close_handshake_example :
    let closing = send_fin_message ready in
    ((recv_message store 0 ready).sk_status ≡ ss_last_ack)
    × ((recv_message store 0 (recv_message store 1 closing)).sk_status ≡ ss_time_wait)
    × ((recv_message store 1 (recv_message store 0 closing)).sk_status ≡ ss_time_wait)
    × ((recv_message store 1 (recv_message store 0 closing)).sk_status ≡ ss_time_wait)
close_handshake_example =
    close_handshake store 0 1 ready ready (refl, refl) (refl, refl, refl) refl refl

-- A socket that gets the message 7 of a stream before the message 3.
insert_to_list-late_example :
    let r = insert_to_list wi_reliable_orderly store 0 ready in
    let q = insert_to_list wi_reliable_orderly store 1 r.0 in
    (r.0.outputs ≡ (to_recv store 0 ready).outputs) × (q.0.outputs ≡ r.0.outputs) × (q.1 ≡ 0)
insert_to_list-late_example =
    insert_to_list-late store 0 1 ready refl (omega arith) (omega arith) (omega arith)

-- A FIN that comes again.
recv_message-Answers_example :
    Answers
      (before_close store 0 (at ss_last_ack new_socket))
      (recv_message store 0 (at ss_last_ack new_socket)).outputs
recv_message-Answers_example =
    recv_message-Answers store 0 (at ss_last_ack new_socket) (refl, refl) refl

last_ack-released_example :
    ((recv_message store 1 (at ss_last_ack new_socket)).sk_status ≡ ss_last_ack)
    × Adds release_socket
        (before_close store 1 (at ss_last_ack new_socket))
        (recv_message store 1 (at ss_last_ack new_socket)).outputs
last_ack-released_example =
    last_ack-released store 1 (at ss_last_ack new_socket) (refl, refl, refl) refl
