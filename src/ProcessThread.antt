-- ===== src/ProcessThread.antt =====
-- The thread that sends and receives for all sockets, hudp/ProcessThread.cpp. The sockets' own work is
-- in SocketControl and SocketRecv; here are the calls that the thread makes of them.
mod Tests
pub mod Overtaken
use hudp.Common.{ℕ, zero, suc, Option, none, some, List, [], ◌∷◌, ◌++◌, has, if◌then◌else◌}
use hudp.Config.{msg_recv}
use hudp.Message.{Msg}
use hudp.TaskQueue.{TaskQueue, pop}

-- What is called of which socket.
pub data Call : Type 0 where
  recv_message : ℕ → Msg → Call
  send_message : ℕ → Msg → Call

-- What `Run` does with what it has popped; the null pointer is `none`.
unfoldable pub handle : Option Msg → List Call
handle none = []
handle (some msg) = elim msg.socket [
  | none ↦ []
  | some sock ↦
      (if has msg.flag msg_recv then recv_message sock msg else send_message sock msg) ∷ []
]

-- Some turns of the loop of `Run`, until it has to wait.
unfoldable pub run : ℕ → TaskQueue (Option Msg) → TaskQueue (Option Msg) × List Call
unfolding handle
run zero q = (q, [])
run (suc turns) q = elim (pop q) [
  | none ↦ (q, [])
  | some (q', msg) ↦ let (q'', calls) = run turns q' in (q'', handle msg ++ calls)
]
