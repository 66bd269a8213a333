-- ===== src/Tests/Startup.antt =====
-- The constructor.
use ros2_dji_serial_bridge.Base.{◌-◌, ◌^◌, ◌≡◌, refl, arith, true, false, List, [], ◌∷◌, ◌++◌}
use ros2_dji_serial_bridge.Base.Int.{pos, negsuc}
use ros2_dji_serial_bridge.Node.State.{Node, Event, Log}
use ros2_dji_serial_bridge.Node.Start.{
  Termios, Device, clear_nonblock, Started, Parameters, entities, as_int, line_attributes,
  ready_lines, initial, construct, configure, configured, configure_serial, apply_line,
  baud_to_speed,
}
use ros2_dji_serial_bridge.Node.Start.Laws.{
  is_ready, leaks, construct-is_ready, Is8n1, Blocks, construct-Is8n1,
}
use ros2_dji_serial_bridge.Tests.Data.{parameters, platform, termios}

-- A `cfmakeraw` that does nothing.
abbrev pub keep : Termios → Termios
keep tty = tty

-- `create_wall_timer` throws on a negative period: the port is left open.
abbrev negative_period : Parameters
negative_period = record parameters { diag_interval_s = negsuc 0 }

construct-is_ready_example :
    (is_ready (construct keep platform negative_period) ≡ false)
    × (leaks (construct keep platform negative_period) ≡ true)
construct-is_ready_example = construct-is_ready keep platform negative_period

as_int_test : as_int (pos (2 ^ 32 - 1)) ≡ negsuc 0
unfolding as_int
as_int_test = refl

abbrev pub opening : List Event
opening = Event.logged Log.accessible ∷ Event.logged Log.port_opened ∷ []

-- The flags were O_RDWR and O_NONBLOCK.
abbrev pub configured_device : Device
configured_device = record { line = line_attributes keep 115200 termios; flags = 2 }

unfoldable pub started : Node
unfolding initial ready_lines
started = initial parameters ((opening ++ []) ++ ready_lines parameters)

pub construct_test :
    construct keep platform parameters ≡ Started.ready configured_device (pos 5) started
unfolding construct configure configured entities configure_serial apply_line baud_to_speed as_int
    clear_nonblock started
construct_test = refl

construct-Is8n1_example : Is8n1 115200 configured_device.line × Blocks configured_device.flags
construct-Is8n1_example =
    construct-Is8n1 keep platform parameters 115200 configured_device (pos 5) started refl
      (omega arith) construct_test
