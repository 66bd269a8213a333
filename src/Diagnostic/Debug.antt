-- ===== src/Diagnostic/Debug.antt =====
-- src/serial_debug.cpp: `main` of the hex tool from the opened port on. One `Round` holds what `poll`,
-- `read`, the clock and `write` give in one turn of the loop; the list of rounds ends where a signal
-- clears `running`. The parser's own lines stand in the parser.
pub mod Sending
pub mod Outputs
pub mod Laws
pub mod Exits
pub mod Reports
use Prim.Native.String.{String}
use text.Mathlib.Text.{◌==◌ as ◌=t=◌}
use ros2_dji_serial_bridge.Base.{
  ℕ, ◌+◌, ◌%◌, ◌^◌, Bool, not, ◌&&◌, List, [], ◌∷◌, ◌++◌, Option, none, some, take, drop, ◌==◌,
  if◌then◌else◌,
}
use ros2_dji_serial_bridge.Base.Int.{ℤ, ◌+ℤ◌, leb_ℤ}
use ros2_dji_serial_bridge.Base.Bytes.{u8}
use ros2_dji_serial_bridge.Node.Start.{Termios, Port}
use ros2_dji_serial_bridge.Diagnostic.{FrameParser, append, test_frame}
use ros2_dji_serial_bridge.Diagnostic.Serial.{
  PortResults, PortError, Construction, serial_port, close_port,
}
use ros2_dji_serial_bridge.Diagnostic.Options.{Options, Parsed, parse_arguments}

-- What `write` gives: a count above 0, or none with an `errno` of EAGAIN or EINTR, or with another.
pub data WriteResult : Type 0 where
  took : ℕ → WriteResult
  busy broken : WriteResult

-- How the loop over a frame's bytes ends; `waiting` where no further result of `write` is given.
pub data Sent : Type 0 where
  complete failed waiting : Sent

-- The loop, with the bytes that were not taken yet; the result has those that were taken.
unfoldable pub send_all : List WriteResult → List ℕ → Sent × List ℕ
send_all results [] = (complete, [])
send_all [] (b ∷ left) = (waiting, [])
send_all (took count ∷ results) (b ∷ left) =
    let rest = send_all results (drop count (b ∷ left)) in (rest.0, take count (b ∷ left) ++ rest.1)
send_all (busy ∷ results) (b ∷ left) = send_all results (b ∷ left)
send_all (broken ∷ results) (b ∷ left) = (failed, [])

-- What goes to the standard output, but for the parser's lines.
pub data Output : Type 0 where
  rx : List ℕ → Output
  tx : List ℕ → Output
  opened : (device : String) → (baud : ℤ) → Output
  statistics : (frames bad_crc8 bad_crc16 desyncs : ℕ) → Output

pub record Session : Type 0 where
  pub parser : FrameParser
  pub sequence : ℕ
  pub next_tx : ℤ
  pub log : List ℕ
  pub port_took : List ℕ
  pub output : List Output

-- `received` is empty where `read` gives no bytes; `now` and `later` are the clock before and after
-- the frame is sent.
pub record Round : Type 0 where
  pub received : List ℕ
  pub now : ℤ
  pub writes : List WriteResult
  pub later : ℤ

-- The exceptions after the arguments.
pub data DebugError : Type 0 where
  port_error : PortError → DebugError
  log_error write_error zero_rate : DebugError

-- A round ends, throws, or is still in the loop that sends a frame.
pub data RoundEnd : Type 0 where
  next : Session → RoundEnd
  throws : DebugError → Session → RoundEnd
  blocked : Session → RoundEnd

-- `count > 0`.
unfoldable pub receive : (logging : Bool) → List ℕ → Session → Session
receive logging [] s = s
receive logging (b ∷ bytes) s = record s {
  parser = append (b ∷ bytes) s.parser;
  log = if logging then s.log ++ (b ∷ bytes) else s.log;
  output = s.output ++ (rx (b ∷ bytes) ∷ []);
}

-- Both zeros of a double.
abbrev pub is_zero : ℕ → Bool
is_zero rate = rate % 2 ^ 63 == 0

-- What follows the loop over a frame's bytes.
unfoldable pub after_sending :
    (rate : ℕ) → (frame : List ℕ) → (next_tx : ℤ) → Sent → Session → RoundEnd
after_sending rate frame next_tx waiting s = blocked s
after_sending rate frame next_tx failed s = throws write_error s
after_sending rate frame next_tx complete s =
    let said = record s { output = s.output ++ (tx frame ∷ []) } in
    if is_zero rate then throws zero_rate said else next (record said { next_tx = next_tx })

-- `period rate` is the duration of 1.0 / rate in ticks of the clock.
module _ (period : ℕ → ℤ) where
  unfoldable pub transmit : (rate : ℕ) → Round → Session → RoundEnd
  unfolding after_sending
  transmit rate round s =
      let frame = test_frame s.sequence in
      let sent = send_all round.writes frame in
      let stepped = record s {
        sequence = u8 (s.sequence + 1);
        port_took = s.port_took ++ sent.1;
      } in
      after_sending rate frame (round.later +ℤ period rate) sent.0 stepped

  -- One turn of `while (running)`.
  unfoldable pub debug_turn : Options → (logging : Bool) → Round → Session → RoundEnd
  debug_turn o logging round s =
      let read = receive logging round.received s in
      if o.tx && leb_ℤ read.next_tx round.now then transmit o.rate round read else next read

  unfoldable pub debug_loop : Options → (logging : Bool) → List Round → Session → RoundEnd
  debug_loop o logging [] s = next s
  debug_loop o logging (round ∷ rounds) s = elim (debug_turn o logging round s) [
    | next t ↦ debug_loop o logging rounds t
    | throws error t ↦ throws error t
    | blocked t ↦ blocked t
  ]

-- The statistics behind the loop.
unfoldable pub finish : Session → Session
finish s = record s {
  output =
      s.output
      ++ (statistics s.parser.frames s.parser.bad_crc8 s.parser.bad_crc16 s.parser.desyncs ∷ []);
}

unfoldable pub start_session : Options → (now : ℤ) → Session
start_session o now = record {
  parser = record {
    frames = 0;
    bad_crc8 = 0;
    bad_crc16 = 0;
    desyncs = 0;
    buffer = [];
    printed = [];
  };
  sequence = 0;
  next_tx = now;
  log = [];
  port_took = [];
  output = opened o.device o.baud ∷ [];
}

-- What the system gives: the port's calls, whether the log file opens, and the clock at the start.
pub record DebugSystem : Type 0 where
  pub port : PortResults
  pub log_opens : Bool
  pub now : ℤ

-- How `main` ends: with a status, the port as it is left, and the session if there was one.
-- `running_on` is a process that is still sending.
pub data Exit : Type 0 where
  returned : (status : ℕ) → Port → Option Session → Exit
  running_on : Session → Exit

-- The port's destructor runs on every way out of the block.
unfoldable pub leave_block : Termios → RoundEnd → Exit
leave_block options (next s) = returned 0 (close_port options) (some (finish s))
leave_block options (throws error s) = returned 1 (close_port options) (some s)
leave_block options (blocked s) = running_on s

-- From the port's constructor on.
module _ (period : ℕ → ℤ) where
  unfoldable pub with_port : DebugSystem → List Round → Options → Construction → Exit
  with_port sys rounds o (Construction.thrown error port) = returned 1 port none
  with_port sys rounds o (Construction.constructed options) =
      let logging = not (o.log_path =t= "") in
      if logging && not sys.log_opens
      then returned 1 (close_port options) none
      else leave_block options (debug_loop period o logging rounds (start_session o sys.now))

module _ (make_raw : Termios → Termios) (defines : ℕ → Bool) (stoi : String → Option ℤ)
    (stod : String → Option ℕ) (period : ℕ → ℤ) where
  unfoldable pub debug_main : List String → DebugSystem → List Round → Exit
  debug_main args sys rounds = elim (parse_arguments stoi stod args) [
    | Parsed.usage ↦ returned 0 Port.never_opened none
    | Parsed.refused error ↦ returned 1 Port.never_opened none
    | Parsed.accepted o ↦
        with_port period sys rounds o (serial_port make_raw defines sys.port o.baud)
  ]
