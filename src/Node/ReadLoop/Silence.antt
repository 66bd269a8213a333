-- ===== src/Node/ReadLoop/Silence.antt =====
-- When the read thread says that no data comes.
use ros2_dji_serial_bridge.Base.{ℕ, zero, suc, ◌+◌, List, [], ◌∷◌}
use ros2_dji_serial_bridge.Node.State.{Node, Event, Log}
use ros2_dji_serial_bridge.Node.ReadLoop.{silent_poll}

-- How many of the events are the silence warning.
is_warning : Event → ℕ
is_warning (Event.logged (Log.no_data milliseconds poll_ms)) = 1
is_warning _ = 0

unfoldable pub warnings : List Event → ℕ
unfolding is_warning
warnings [] = 0
warnings (e ∷ es) = is_warning e + warnings es

-- `k` polls in a row that time out.
abbrev pub silence : (poll_ms : ℕ) → ℕ → Node → Node
silence poll_ms zero n = n
silence poll_ms (suc k) n = silence poll_ms k (silent_poll poll_ms n)
