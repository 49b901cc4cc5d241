-- ===== src/ProcessThread/Overtaken.antt =====
-- The order in which hudp/ProcessThread.cpp sends what hudp/HudpImpl.cpp has taken.
use mathlib.Core.List.{reverse, reverse-cons, map-append, map-map}
use hudp.Common.{
  ℕ, zero, suc, ◌≤◌, ◌≡◌, ◌∙◌, refl, sym, ap, inl, inr, Option-cases, true, false, Option, none,
  some, List, [], ◌∷◌, ◌++◌, append-nil, append_assoc, length, ltb, arith, map,
}
use hudp.Config.{msg_body_size}
use hudp.Message
use hudp.Message.{Msg}
use hudp.SocketImpl.{can_send_message}
use hudp.Front.{Front, HudpHandle, find, get_socket, net_msg, send_to}
use hudp.TaskQueue.{TaskQueue, pop, int_max, new_task_queue}
use hudp.TaskQueue.LastFirst.{pushes, pops, pops-pushes}
use hudp.ProcessThread.{Call, send_message, handle, run}

-- Several calls of `SendTo` with one handle.
unfoldable pub send_each : HudpHandle → ℕ → ℕ → List (List ℕ) → Front → Front
send_each h flag upper_id [] f = f
send_each h flag upper_id (body ∷ bodies) f =
    send_each h flag upper_id bodies (send_to h flag body upper_id f).0

abbrev pub AllFit : List (List ℕ) → Type 0
AllFit [] = Unit
AllFit (body ∷ bodies) = (length body ≤ msg_body_size) × AllFit bodies

send_to-pushed :
    (h : HudpHandle) (flag upper_id : ℕ) (body : List ℕ) (f : Front) (sock : ℕ)
    → find h f.socket_map ≡ some sock
    → can_send_message (f.sockets sock) ≡ true
    → length body ≤ msg_body_size
    → (send_to h flag body upper_id f).0
      ≡ record f { pushed = f.pushed ++ (net_msg h flag body upper_id sock ∷ []) }
unfolding send_to get_socket
send_to-pushed h flag upper_id body f sock found ready fits =
    let small : ltb msg_body_size (length body) ≡ false = ground (arith, fits) in
    rw (small, send_to) (rw (found, get_socket) (rw ready refl))

send_each-pushed :
    (h : HudpHandle) (flag upper_id : ℕ) (bodies : List (List ℕ)) (f : Front) (sock : ℕ)
    → find h f.socket_map ≡ some sock
    → can_send_message (f.sockets sock) ≡ true
    → AllFit bodies
    → (send_each h flag upper_id bodies f).pushed
      ≡ f.pushed ++ map (λ body. net_msg h flag body upper_id sock) bodies
unfolding send_each
send_each-pushed h flag upper_id [] f sock found ready fits = sym (append-nil f.pushed)
send_each-pushed h flag upper_id (body ∷ bodies) f sock found ready (this, fits) =
    let g : Front = record f { pushed = f.pushed ++ (net_msg h flag body upper_id sock ∷ []) } in
    ap (λ k. (send_each h flag upper_id bodies k).pushed)
      (send_to-pushed h flag upper_id body f sock found ready this)
    ∙ send_each-pushed h flag upper_id bodies g sock found ready fits
    ∙ append_assoc f.pushed (net_msg h flag body upper_id sock ∷ [])
        (map (λ b. net_msg h flag b upper_id sock) bodies)

abbrev handle_each : List (Option Msg) → List Call
handle_each [] = []
handle_each (msg ∷ msgs) = handle msg ++ handle_each msgs

-- What the turns come to if none of them waits.
abbrev unless_waits :
    TaskQueue (Option Msg) × List Call
    → Option (TaskQueue (Option Msg) × List (Option Msg))
    → TaskQueue (Option Msg) × List Call
unless_waits r none = r
unless_waits r (some (q, msgs)) = (q, handle_each msgs)

run-pops : (n : ℕ) (q : TaskQueue (Option Msg)) → run n q ≡ unless_waits (run n q) (pops n q)
unfolding run pops
run-pops zero q = refl
run-pops (suc n) q = elim (Option-cases (pop q)) [
  | inl e ↦ rw (e, run, pops) refl
  | inr ((q', msg), e) ↦ elim (Option-cases (pops n q')) [
    | inl e' ↦ rw (e, pops) (rw e' refl)
    | inr ((q'', msgs), e') ↦
        let rest : run n q' ≡ (q'', handle_each msgs) =
          run-pops n q' ∙ ap (unless_waits (run n q')) e' in
        rw (e, pops, run) (rw e' (rw rest refl))
  ]
]

-- The call that sends a body.
abbrev pub sent : HudpHandle → ℕ → ℕ → ℕ → List ℕ → Call
sent h flag upper_id sock body = send_message sock (net_msg h flag body upper_id sock)

handle_each-sent :
    (h : HudpHandle) (flag upper_id sock : ℕ) (bodies : List (List ℕ))
    → handle_each (map (λ body. some (net_msg h flag body upper_id sock)) bodies)
      ≡ map (sent h flag upper_id sock) bodies
unfolding handle Message.set_body Message.set_header_flag Message.set_flag
handle_each-sent h flag upper_id sock [] = refl
handle_each-sent h flag upper_id sock (body ∷ bodies) =
    ap (λ calls. sent h flag upper_id sock body ∷ calls)
      (handle_each-sent h flag upper_id sock bodies)

length-map : {A B : Type 0} (f : A → B) (xs : List A) → length (map f xs) ≡ length xs
length-map f [] = refl
length-map f (x ∷ xs) = ap suc (length-map f xs)

reverse-map : {A B : Type 0} (f : A → B) (xs : List A) → reverse (map f xs) ≡ map f (reverse xs)
reverse-map f [] = refl
reverse-map f (x ∷ xs) =
    reverse-cons (f x) (map f xs)
    ∙ ap (λ l. l ++ (f x ∷ [])) (reverse-map f xs)
    ∙ sym (ap (map f) (reverse-cons x xs) ∙ map-append f (reverse xs) (x ∷ []))

-- If `SendTo` takes several bodies one after the other for a socket that may send, and the thread,
-- which had nothing to do, turns when all of them are there, then no call has to wait, and the thread
-- has the socket send the last body first: they leave in the reverse of the order in which the user
-- gave them.
pub send_each-run :
    (h : HudpHandle) (flag upper_id : ℕ) (bodies : List (List ℕ)) (f : Front) (sock : ℕ)
    → find h f.socket_map ≡ some sock
    → can_send_message (f.sockets sock) ≡ true
    → AllFit bodies
    → f.pushed ≡ []
    → length bodies ≤ int_max
    → (q : TaskQueue (Option Msg)) × (pushes
          (map some (send_each h flag upper_id bodies f).pushed)
          (new_task_queue 0)
        ≡ some q)
      × (run (length bodies) q
          ≡ (new_task_queue 0, map (sent h flag upper_id sock) (reverse bodies)))
send_each-run h flag upper_id bodies f sock found ready fits idle few =
    let msg : List ℕ → Msg = λ body. net_msg h flag body upper_id sock in
    let msgs : List (Option Msg) = map (λ body. some (msg body)) bodies in
    let pushed : map some (send_each h flag upper_id bodies f).pushed ≡ msgs =
      ap (map some) (
        send_each-pushed h flag upper_id bodies f sock found ready fits
        ∙ ap (λ l. l ++ map msg bodies) idle)
      ∙ map-map some msg bodies in
    let count : length msgs ≡ length bodies = length-map (λ body. some (msg body)) bodies in
    let (q, all, back) = pops-pushes msgs (new_task_queue 0) (omega (arith, count, few)) in
    let turns : run (length msgs) q ≡ (new_task_queue 0, handle_each (reverse msgs)) =
      run-pops (length msgs) q ∙ ap (unless_waits (run (length msgs) q)) back in
    let calls : handle_each (reverse msgs) ≡ map (sent h flag upper_id sock) (reverse bodies) =
      ap handle_each (reverse-map (λ body. some (msg body)) bodies)
      ∙ handle_each-sent h flag upper_id sock (reverse bodies) in
    (
      q,
      ap (λ l. pushes l (new_task_queue 0)) pushed ∙ all,
      ap (λ n. run n q) (sym count) ∙ turns ∙ ap (λ l. (new_task_queue 0, l)) calls,
    )
