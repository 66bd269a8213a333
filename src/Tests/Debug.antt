-- ===== src/Tests/Debug.antt =====
-- The diagnostic tools' serial port, options and main loop.
use Prim.Native.String.{String}
use text.Mathlib.Text.{◌==◌ as ◌=t=◌}
use ros2_dji_serial_bridge.Base.{
  ℕ, ◌+◌, ◌*◌, ◌≡◌, refl, arith, Bool, true, false, ◌&&◌, List, [], ◌∷◌, Option, none, some, length,
  ltb, if◌then◌else◌,
}
use ros2_dji_serial_bridge.Base.Int.{ℤ, pos}
use ros2_dji_serial_bridge.Base.Bytes.{AreBytes}
use ros2_dji_serial_bridge.Node.Start.{Port, baud_to_speed}
use ros2_dji_serial_bridge.Diagnostic.{test_frame}
use ros2_dji_serial_bridge.Diagnostic.Serial.{
  PortResults, PortError, Construction, baud_speed, serial_port, hex, hex_loop, hex_byte, hex_digit,
}
use ros2_dji_serial_bridge.Diagnostic.Serial.Hex.{read_hex, read_hex-hex}
use ros2_dji_serial_bridge.Diagnostic.Serial.Laws.{
  is_open, leaks_port, has_rate, RunsPolledAt, serial_port-is_open, baud_speed-baud_to_speed,
}
use ros2_dji_serial_bridge.Diagnostic.Options.{
  Options, Parsed, Refusal, parse_arguments, parse_loop, branch,
}
use ros2_dji_serial_bridge.Diagnostic.Options.Laws.{command_line, parse_arguments-command_line}
use ros2_dji_serial_bridge.Diagnostic.Debug.{WriteResult, Sent, send_all, Round, debug_main}
use ros2_dji_serial_bridge.Diagnostic.Debug.Sending.{send_all-complete}
use ros2_dji_serial_bridge.Diagnostic.Debug.Exits.{ExitTrue, asks_log, debug_main-ExitTrue}
use ros2_dji_serial_bridge.Tests.Data.{termios}
use ros2_dji_serial_bridge.Tests.Startup.{keep}

abbrev two_writes : List WriteResult
two_writes = WriteResult.took 2 ∷ WriteResult.busy ∷ WriteResult.took 3 ∷ []

send_all-complete_example :
    send_all two_writes (1 ∷ 2 ∷ 3 ∷ 4 ∷ []) ≡ (Sent.complete, 1 ∷ 2 ∷ 3 ∷ 4 ∷ [])
send_all-complete_example = send_all-complete two_writes (1 ∷ 2 ∷ 3 ∷ 4 ∷ []) tt (omega arith)

-- The result of a write that fails is what was taken before.
send_all_broken :
    send_all (WriteResult.took 1 ∷ WriteResult.broken ∷ []) (7 ∷ 8 ∷ []) ≡ (Sent.failed, 7 ∷ [])
unfolding send_all
send_all_broken = refl

hex_bytes : AreBytes (0x0a ∷ 0xf3 ∷ [])
hex_bytes = omega arith

hex_test : hex (0x0a ∷ 0xf3 ∷ []) true ≡ b'0' ∷ b'a' ∷ b' ' ∷ b'f' ∷ b'3' ∷ []
unfolding hex hex_loop hex_byte hex_digit
hex_test = refl

read_hex-hex_example :
    (read_hex (hex (0x0a ∷ 0xf3 ∷ []) true) ≡ 0x0a ∷ 0xf3 ∷ [])
    × (length (hex (0x0a ∷ 0xf3 ∷ []) true) ≡ 2 * 2 + 1)
read_hex-hex_example = read_hex-hex (0x0a ∷ 0xf3 ∷ []) true hex_bytes

-- A system that defines the rates below 1000000, and a port that works.
abbrev pub defines : ℕ → Bool
defines baud = ltb baud 1000000

abbrev pub port : PortResults
port = record { opens = true; attributes = some termios; takes_attributes = true }

serial_port_unsupported :
    serial_port keep defines port (pos 1000000)
    ≡ Construction.thrown (PortError.unsupported_baudrate (pos 1000000)) Port.closed
serial_port_unsupported = unfold serial_port baud_speed in refl

serial_port-is_open_example :
    (is_open (serial_port keep defines port (pos 921600))
      ≡ (true && true && has_rate (baud_speed defines (pos 921600)) && true))
    × (leaks_port (serial_port keep defines port (pos 921600)) ≡ false)
    × RunsPolledAt 921600 (serial_port keep defines port (pos 921600))
serial_port-is_open_example = serial_port-is_open keep defines port 921600

baud_speed-baud_to_speed_example :
    (baud_speed defines (pos 921600) ≡ some (baud_to_speed (pos 921600)).0)
    × ((baud_to_speed (pos 921600)).1 ≡ [])
baud_speed-baud_to_speed_example = baud_speed-baud_to_speed defines 921600 refl refl

-- Readers of one number each.
abbrev pub stoi : String → Option ℤ
stoi text = if text =t= "57600" then some (pos 57600) else none

abbrev pub stod : String → Option ℕ
stod text = if text =t= "2.0" then some 0x4000000000000000 else none

abbrev options : Options
options = record {
  device = "/dev/ttyUSB0";
  log_path = "frames.bin";
  baud = pos 57600;
  rate = 0x4000000000000000;
  tx = true;
}

parse_arguments-command_line_example :
    parse_arguments stoi stod (command_line "57600" "2.0" options) ≡ Parsed.accepted options
parse_arguments-command_line_example =
    parse_arguments-command_line stoi stod "57600" "2.0" options refl refl refl refl

parse_arguments_two_ports :
    parse_arguments stoi stod ("a" ∷ "b" ∷ []) ≡ Parsed.refused (Refusal.bad_argument "b")
parse_arguments_two_ports = unfold parse_arguments parse_loop branch in refl

abbrev pub rounds : List Round
rounds =
    record {
      received = 1 ∷ test_frame 3;
      now = pos 0;
      writes = WriteResult.took 10 ∷ WriteResult.busy ∷ WriteResult.took 30 ∷ [];
      later = pos 5;
    }
    ∷ []

abbrev pub command : List String
command = "--tx" ∷ "--log" ∷ "frames.bin" ∷ "/dev/ttyUSB0" ∷ []

debug_main-ExitTrue_example : ExitTrue (asks_log (parse_arguments stoi stod command)) (
    debug_main keep defines stoi stod
      (λ rate. pos 1000000000)
      command
      (record { port = port; log_opens = true; now = pos 0 })
      rounds)
debug_main-ExitTrue_example =
    debug_main-ExitTrue keep defines stoi stod (λ rate. pos 1000000000) command
      (record { port = port; log_opens = true; now = pos 0 }) rounds
