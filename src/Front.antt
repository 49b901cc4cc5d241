-- ===== src/Front.antt =====
-- The front of the library: the sockets by their handles, net/SocketManager.cpp, and the calls of
-- the user, hudp/HudpImpl.cpp. The sockets are shared objects: the map holds pointers to them, which
-- messages and callers may keep. What SendTo hands to the process thread is kept in order.
mod Tests
pub mod Contract
use Prim.Native.Nat.{bit_or}
use hudp.Common.{
  ℕ, ◌+◌, Bool, true, false, ◌&&◌, Option, none, some, List, [], ◌∷◌, ◌++◌, ltb, ◌==◌, length,
  if◌then◌else◌,
}
use hudp.Config.{msg_body_size, msg_send, hpf_upper, hec_success, hec_failed, hec_invalid_param}
use hudp.Message.{Msg, new_msg, set_body, set_flag, set_header_flag}
use hudp.SocketImpl.{Socket, new_socket, can_send_message, send_fin_message}

-- A text of an address and a port.
abbrev pub HudpHandle : Type 0
HudpHandle = List ℕ

abbrev pub is_handle : HudpHandle → HudpHandle → Bool
is_handle [] [] = true
is_handle [] (y ∷ ys) = false
is_handle (x ∷ xs) [] = false
is_handle (x ∷ xs) (y ∷ ys) = (x == y) && is_handle xs ys

abbrev pub SocketMap : Type 0
SocketMap = List (HudpHandle × ℕ)

-- `made` is the number of sockets that were made, and so the pointer of the next one.
pub record Front : Type 0 where
  pub socket_map : SocketMap
  pub sockets : ℕ → Socket
  pub made : ℕ
  pub pushed : List Msg

-- `_socket_map.find(handle)`.
unfoldable pub find : HudpHandle → SocketMap → Option ℕ
find handle [] = none
find handle ((k, p) ∷ m) = if is_handle k handle then some p else find handle m

-- `_socket_map.erase(iter)`.
unfoldable pub erase : HudpHandle → SocketMap → SocketMap
erase handle [] = []
erase handle ((k, p) ∷ m) =
    let rest = erase handle m in if is_handle k handle then m else (k, p) ∷ rest

-- A write to a shared socket.
abbrev pub put : ℕ → Socket → (ℕ → Socket) → ℕ → Socket
put p s sockets q = if q == p then s else sockets q

unfoldable pub is_socket_exist : HudpHandle → Front → Bool
unfolding find
is_socket_exist handle f = elim (find handle f.socket_map) [ none ↦ false | some p ↦ true ]

unfoldable pub get_socket : HudpHandle → Front → Front × ℕ
get_socket handle f = elim (find handle f.socket_map) [
  | some p ↦ (f, p)
  | none ↦ (
    record f {
      socket_map = (handle, f.made) ∷ f.socket_map;
      sockets = put f.made new_socket f.sockets;
      made = f.made + 1;
    },
    f.made,
  )
]

unfoldable pub delete_socket : HudpHandle → Front → Front × Bool
unfolding erase
delete_socket handle f = elim (find handle f.socket_map) [
  | none ↦ (f, false)
  | some p ↦ (record f { socket_map = erase handle f.socket_map }, true)
]

unfoldable pub close_socket : HudpHandle → Front → Front × Bool
close_socket handle f = elim (find handle f.socket_map) [
  | none ↦ (f, false)
  | some p ↦ (record f { sockets = put p (send_fin_message (f.sockets p)) f.sockets }, true)
]

-- The message that `SendTo` makes.
abbrev pub net_msg : HudpHandle → ℕ → List ℕ → ℕ → ℕ → Msg
net_msg handle flag msg upper_id sock =
    let m = set_flag msg_send (record new_msg { upper_id = upper_id }) in
    let flagged = set_header_flag (bit_or flag hpf_upper) m in
    let filled = set_body msg (record flagged { ip_port = handle }) in
    record filled { socket = some sock }

-- `SendTo`, with its error code.
unfoldable pub send_to : HudpHandle → ℕ → List ℕ → ℕ → Front → Front × ℕ
send_to handle flag msg upper_id f =
    let (g, sock) = get_socket handle f in
    if ltb msg_body_size (length msg)
    then (f, hec_invalid_param)
    else if can_send_message (g.sockets sock)
    then (
      record g { pushed = g.pushed ++ (net_msg handle flag msg upper_id sock ∷ []) },
      hec_success,
    )
    else (g, hec_failed)

unfoldable pub close : HudpHandle → Front → Front × ℕ
unfolding close_socket
close handle f =
    let (g, closed) = close_socket handle f in (g, if closed then hec_success else hec_failed)

unfoldable pub release_socket : HudpHandle → Front → Front
unfolding delete_socket
release_socket handle f = (delete_socket handle f).0

-- `CheckCanSend` makes a socket where there is none.
unfoldable pub check_can_send : HudpHandle → Front → Front × ℕ
check_can_send handle f =
    let (g, sock) = get_socket handle f in
    (g, if can_send_message (g.sockets sock) then hec_success else hec_failed)
