-- ===== src/Front/Tests.antt =====
-- The theorem on hudp/HudpImpl.cpp at a concrete front.
use hudp.Common.{ℕ, none, ◌≤◌, ◌<◌, ◌≡◌, [], ◌∷◌, true, false, some}
use hudp.Config.{msg_body_size, hec_success, hec_failed, hec_invalid_param}
use hudp.SocketImpl.{new_socket, can_send_message}
use hudp.Front.{Front, find, net_msg, send_to}
use hudp.Front.Contract.{send_to-answers}

-- One socket, for the handle 49 50.
abbrev front : Front
front = record {
  socket_map = (49 ∷ 50 ∷ [], 0) ∷ [];
  sockets = λ p. new_socket;
  made = 1;
  pushed = [];
}

send_to-answers_example :
    let (g, code) = send_to (51 ∷ []) 2 (7 ∷ 8 ∷ []) 5 front in
    (msg_body_size < 2 → (g ≡ front) × (code ≡ hec_invalid_param))
    × (2 ≤ msg_body_size
        → (sock : ℕ) × (find (51 ∷ []) g.socket_map ≡ some sock)
          × ((p : ℕ) → find (51 ∷ []) front.socket_map ≡ some p → sock ≡ p)
          × (find (51 ∷ []) front.socket_map ≡ none → (sock ≡ 1) × (g.sockets sock ≡ new_socket))
          × ((p : ℕ) → p < 1 → g.sockets p ≡ new_socket)
          × (false ≡ false
              → find (49 ∷ 50 ∷ []) g.socket_map ≡ find (49 ∷ 50 ∷ []) front.socket_map)
          × (can_send_message (g.sockets sock) ≡ true
              → (code ≡ hec_success) × (g.pushed ≡ net_msg (51 ∷ []) 2 (7 ∷ 8 ∷ []) 5 sock ∷ []))
          × (can_send_message (g.sockets sock) ≡ false → (code ≡ hec_failed) × (g.pushed ≡ [])))
send_to-answers_example = send_to-answers (51 ∷ []) (49 ∷ 50 ∷ []) 2 (7 ∷ 8 ∷ []) 5 front
