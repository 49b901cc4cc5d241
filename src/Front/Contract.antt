-- ===== src/Front/Contract.antt =====
-- What hudp/HudpImpl.cpp promises its user, on the map of net/SocketManager.cpp.
use hudp.Common.{
  ℕ, ◌≤◌, ◌<◌, ◌≡◌, refl, Bool-cases, Option-cases, inl, inr, true, false, none, some, ◌==◌, List,
  [], ◌∷◌, ◌++◌, length, ltb, arith,
}
use hudp.Config.{msg_body_size, hec_success, hec_failed, hec_invalid_param}
use hudp.SocketImpl.{can_send_message, new_socket}
use hudp.Front.{HudpHandle, is_handle, Front, find, get_socket, net_msg, send_to}

is_handle_refl : (h : HudpHandle) → is_handle h h ≡ true
is_handle_refl [] = refl
is_handle_refl (x ∷ xs) = ground (arith, is_handle_refl xs)

-- `GetSocket` gives the socket that is there, or a new one that is there from then on; it finds the
-- sockets of all other handles as before.
get_socket-find :
    (handle other : HudpHandle) (f : Front)
    → let (g, sock) = get_socket handle f in
      (find handle g.socket_map ≡ some sock)
      × (is_handle handle other ≡ false → find other g.socket_map ≡ find other f.socket_map)
      × (g.pushed ≡ f.pushed)
unfolding get_socket find
get_socket-find handle other f = elim (Option-cases (find handle f.socket_map)) [
  | inl e ↦ rw (get_socket, e, find, is_handle_refl handle) (refl, λ h. rw (find, h) refl, refl)
  | inr (p, e) ↦ rw (get_socket, e) (e, λ h. refl, refl)
]

-- `SendTo` by its tests.
send_to-cases :
    (handle : HudpHandle) (flag : ℕ) (msg : List ℕ) (upper_id : ℕ) (f : Front)
    → let r = send_to handle flag msg upper_id f in
      let (g, sock) = get_socket handle f in
      (ltb msg_body_size (length msg) ≡ true → r ≡ (f, hec_invalid_param))
      × (ltb msg_body_size (length msg) ≡ false
          → can_send_message (g.sockets sock) ≡ true
          → r ≡ (
            record g { pushed = g.pushed ++ (net_msg handle flag msg upper_id sock ∷ []) },
            hec_success,
          ))
      × (ltb msg_body_size (length msg) ≡ false
          → can_send_message (g.sockets sock) ≡ false
          → r ≡ (g, hec_failed))
unfolding send_to
send_to-cases handle flag msg upper_id f =
    (λ b. rw (send_to, b) refl, λ b c. rw (send_to, b, c) refl, λ b c. rw (send_to, b, c) refl)

-- The socket that `GetSocket` gives: the one of the handle, or one that was never made before. The
-- sockets that were made before stay as they are.
get_socket-same :
    (handle : HudpHandle) (f : Front)
    → let (g, sock) = get_socket handle f in
      ((p : ℕ) → find handle f.socket_map ≡ some p → (sock ≡ p) × (g ≡ f))
      × (find handle f.socket_map ≡ none → (sock ≡ f.made) × (g.sockets sock ≡ new_socket))
      × ((p : ℕ) → p < f.made → g.sockets p ≡ f.sockets p)
unfolding get_socket
get_socket-same handle f = elim (Option-cases (find handle f.socket_map)) [
  | inl e ↦
      rw (get_socket, e)
        (
          λ p h. absurd (ground (arith, h)),
          λ h. (refl, let e : (f.made == f.made) ≡ true = ground arith in rw e refl),
          λ p l. let e : (p == f.made) ≡ false = ground (arith, l) in rw e refl,
        )
  | inr (p, e) ↦
      rw (get_socket, e)
        (λ q h. (ground (arith, h), refl), λ h. absurd (ground (arith, h)), λ q l. refl)
]

-- A body of more than `__msg_body_size` bytes is refused and nothing changes. Any other call of
-- `SendTo` leaves the handle with a socket: the one that it had, or, if it had none, a new one that no
-- other call has made. The sockets that were made before, and those of all other handles, are as they
-- were. If the socket can send, the call succeeds and hands just one message to the process thread,
-- behind the others, with that body and that socket; if it cannot, the call fails and hands on nothing.
pub send_to-answers :
    (handle other : HudpHandle) (flag : ℕ) (msg : List ℕ) (upper_id : ℕ) (f : Front)
    → let (g, code) = send_to handle flag msg upper_id f in
      (msg_body_size < length msg → (g ≡ f) × (code ≡ hec_invalid_param))
      × (length msg ≤ msg_body_size
          → (sock : ℕ) × (find handle g.socket_map ≡ some sock)
            × ((p : ℕ) → find handle f.socket_map ≡ some p → sock ≡ p)
            × (find handle f.socket_map ≡ none → (sock ≡ f.made) × (g.sockets sock ≡ new_socket))
            × ((p : ℕ) → p < f.made → g.sockets p ≡ f.sockets p)
            × (is_handle handle other ≡ false → find other g.socket_map ≡ find other f.socket_map)
            × (can_send_message (g.sockets sock) ≡ true
                → (code ≡ hec_success)
                  × (g.pushed ≡ f.pushed ++ (net_msg handle flag msg upper_id sock ∷ [])))
            × (can_send_message (g.sockets sock) ≡ false
                → (code ≡ hec_failed) × (g.pushed ≡ f.pushed)))
send_to-answers handle other flag msg upper_id f =
    let r = send_to-cases handle flag msg upper_id f in
    let (found, others, pushed) = get_socket-find handle other f in
    let (same, new, old) = get_socket-same handle f in
    let (g, sock) = get_socket handle f in
    elim (Bool-cases (ltb msg_body_size (length msg))) [
      | inl b ↦ rw (r.0 b) (λ h. (refl, refl), λ h. absurd (ground (arith, b, h)))
      | inr b ↦ elim (Bool-cases (can_send_message (g.sockets sock))) [
        | inl c ↦ rw (r.1 b c) (
          λ h. absurd (ground (arith, b, h)),
          λ h. (
            sock,
            found,
            λ p e. (same p e).0,
            new,
            old,
            others,
            λ k. (refl, rw pushed refl),
            λ k. absurd (ground (arith, c, k)),
          ),
        )
        | inr c ↦ rw (r.2 b c) (
          λ h. absurd (ground (arith, b, h)),
          λ h. (
            sock,
            found,
            λ p e. (same p e).0,
            new,
            old,
            others,
            λ k. absurd (ground (arith, c, k)),
            λ k. (refl, pushed),
          ),
        )
      ]
    ]
