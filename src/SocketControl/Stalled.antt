-- ===== src/SocketControl/Stalled.antt =====
-- What acks do to the send windows and to the pacing rate of net/SocketImpl.cpp.
use hudp.Common.{ℕ, ◌≡◌, some}
use hudp.SendWnd.{SendWnd}
use hudp.SocketImpl.{WndIndex}
use hudp.SocketControl.{Control, wnd_at}

-- The window of an index, of a size.
abbrev pub HasSize : WndIndex → ℕ → Control → Type 0
HasSize index n d = (v : SendWnd) × (wnd_at index d ≡ some v) × (v.send_wnd_size ≡ n)
