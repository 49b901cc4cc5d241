-- ===== src/ProcessThread/Tests.antt =====
-- The theorem on hudp/ProcessThread.cpp at two bodies for one socket.
use hudp.Common.{◌≡◌, refl, List, [], ◌∷◌, map, some, none, Option, arith, ℕ}
use hudp.Message.{Msg, new_msg}
use hudp.SocketImpl.{new_socket, can_send_message}
use hudp.Front.{Front, find}
use hudp.TaskQueue.{TaskQueue, new_task_queue, pop}
use hudp.TaskQueue.LastFirst.{pushes}
use hudp.ProcessThread.{run, handle}
use hudp.ProcessThread.Overtaken.{send_each, sent, send_each-run}

abbrev front : Front
front = record {
  socket_map = (49 ∷ 50 ∷ [], 0) ∷ [];
  sockets = λ p. new_socket;
  made = 1;
  pushed = [];
}

abbrev bodies : List (List ℕ)
bodies = (7 ∷ 8 ∷ []) ∷ (9 ∷ []) ∷ []

send_each-run_example :
    (q : TaskQueue (Option Msg)) × (pushes
        (map some (send_each (49 ∷ 50 ∷ []) 2 5 bodies front).pushed)
        (new_task_queue 0)
      ≡ some q)
    × (run 2 q ≡ (new_task_queue 0, map (sent (49 ∷ 50 ∷ []) 2 5 0) ((9 ∷ []) ∷ (7 ∷ 8 ∷ []) ∷ [])))
unfolding find can_send_message
send_each-run_example =
    send_each-run (49 ∷ 50 ∷ []) 2 5 bodies front 0 refl refl (omega arith, (omega arith, tt)) refl
      (omega arith)

-- A message without a socket, and no message at all, are passed over.
passed_over : (run 5 (record { list_size = 9; block_queue = none ∷ some new_msg ∷ [] })).1 ≡ []
unfolding run pop handle
passed_over = refl
