-- ===== src/Node/System.antt =====
-- The read thread and the executor thread together: their steps in any order, from the constructor
-- on. A callback, a timer call and a turn of the read loop are one step each.
pub mod Invariant
pub mod Numbered
pub mod Runs
pub mod Balance
pub mod Intake
pub mod Silent
pub mod Summary
pub mod Stamps
pub mod Echo
pub mod Exits
pub mod Ending
pub mod Reception
pub mod Watch
pub mod Follows
use ros2_dji_serial_bridge.Base.{
  ℕ, Bool, true, false, ◌≡◌, List, [], ◌∷◌, Option, none, some, if◌then◌else◌,
}
use ros2_dji_serial_bridge.Base.Bytes.{IsByte}
use ros2_dji_serial_bridge.Node.State.{Node, CvTarget, Ping, PointStamped}
use ros2_dji_serial_bridge.Node.Receive.{Rx}
use ros2_dji_serial_bridge.Node.ReadLoop.{PollResult, Turn, read_turn, read_loop, thread_exit}
use ros2_dji_serial_bridge.Node.ReadLoop.Laws.{IsPoll}
use ros2_dji_serial_bridge.Node.Callbacks.{
  nav_goal_callback, cv_target_callback, relocalize_callback, ping_callback,
}
use ros2_dji_serial_bridge.Node.Start.{Port}
use ros2_dji_serial_bridge.Node.Diagnostics.{print_diagnostics}

-- `reading` until the read thread has left its loop.
pub record System : Type 0 where
  pub rx : Rx
  pub reading : Bool

abbrev pub on_system : (Node → Node) → System → System
on_system f s = record s { rx = record s.rx { node = f s.rx.node } }

-- Each callback's `write` gives whatever the port gives then.
pub data Step (poll_ms : ℕ) (to_float : ℕ → ℕ) (s : System) : System → Type 0 where
  read :
      (poll : PollResult) (t : Rx)
      → s.reading ≡ true
      → IsPoll poll
      → read_turn poll_ms poll s.rx ≡ Turn.next t
      → Step poll_ms to_float s (record s { rx = t })
  break :
      (poll : PollResult) (t : Rx)
      → s.reading ≡ true
      → IsPoll poll
      → read_turn poll_ms poll s.rx ≡ Turn.break t
      → Step poll_ms to_float s (record { rx = thread_exit t; reading = false })
  nav_goal :
      (write : List ℕ → Option ℕ) (msg : PointStamped)
      → Step poll_ms to_float s (on_system (nav_goal_callback write to_float msg) s)
  cv_target :
      (write : List ℕ → Option ℕ) (msg : CvTarget)
      → Step poll_ms to_float s (on_system (cv_target_callback write msg) s)
  relocalize :
      (write : List ℕ → Option ℕ) (msg : PointStamped)
      → Step poll_ms to_float s (on_system (relocalize_callback write to_float msg) s)
  ping :
      (write : List ℕ → Option ℕ) (msg : Ping)
      → IsByte msg.number
      → Step poll_ms to_float s (on_system (ping_callback write msg) s)
  timer : Step poll_ms to_float s (on_system print_diagnostics s)

pub data Reach (poll_ms : ℕ) (to_float : ℕ → ℕ) (s : System) : System → Type 0 where
  here : Reach poll_ms to_float s s
  later :
      {t u : System}
      → Reach poll_ms to_float s t
      → Step poll_ms to_float t u
      → Reach poll_ms to_float s u

-- The state that the constructor leaves.
abbrev pub launched : Node → System
launched n = record { rx = record { buf = []; read_ns = []; node = n }; reading = true }

-- `~DjiSerialBridge`: `running_` is cleared, so the read thread, if it still reads, makes no further
-- poll than that of the turn it is in; it is joined. `turn` is `none` where it is between two turns.
abbrev turn_polls : Option PollResult → List PollResult
turn_polls none = []
turn_polls (some poll) = poll ∷ []

unfoldable pub join_thread : (poll_ms : ℕ) → (turn : Option PollResult) → System → Rx
join_thread poll_ms turn s = if s.reading then read_loop poll_ms (turn_polls turn) s.rx else s.rx

-- `if (serial_fd_ >= 0) ::close(serial_fd_)`.
abbrev pub close_fd : Port → Port
close_fd Port.opened = Port.closed
close_fd Port.closed = Port.closed
close_fd Port.never_opened = Port.never_opened

unfoldable pub destroy : (poll_ms : ℕ) → (turn : Option PollResult) → System → Port → Rx × Port
unfolding join_thread
destroy poll_ms turn s fd = (join_thread poll_ms turn s, close_fd fd)
