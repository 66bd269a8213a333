-- ===== src/Diagnostic/Debug/Exits.antt =====
-- Every way out of the hex tool's `main`.
use Prim.Native.String.{String}
use text.Mathlib.Text.{◌==◌ as ◌=t=◌}
use ros2_dji_serial_bridge.Base.{
  concat, ℕ, zero, suc, ◌%◌, ◌≡◌, refl, sym, ap, ◌∙◌, subst, arith, Bool, true, false, ◌&&◌, not,
  List, [], ◌∷◌, Option, none, some, length, append-nil, if◌then◌else◌,
}
use ros2_dji_serial_bridge.Base.Int.{ℤ}
use ros2_dji_serial_bridge.Node.Start.{Termios, Port}
use ros2_dji_serial_bridge.Diagnostic.Interop.{fresh_parser}
use ros2_dji_serial_bridge.Diagnostic.Serial.{
  Construction, close_port, serial_port, set_options, PortResults,
}
use ros2_dji_serial_bridge.Diagnostic.Options.{Options, Parsed, parse_arguments}
use ros2_dji_serial_bridge.Diagnostic.Debug.{
  Output, Session, Round, RoundEnd, Exit, DebugSystem, finish, start_session, debug_loop,
  leave_block, with_port, debug_main,
}
use ros2_dji_serial_bridge.Diagnostic.Debug.Outputs.{
  chunks_read, chunks_read-append, frames_sent, frames_sent-append, test_frames,
}
use ros2_dji_serial_bridge.Diagnostic.Refines.{parse_chunks}
use ros2_dji_serial_bridge.Diagnostic.Debug.Laws.{
  ReadsTrue, SendsTrue, EndsTrue, debug_loop-EndsTrue, start_session-true,
}

abbrev pub is_shut : Port → Bool
is_shut Port.opened = false
is_shut _ = true

-- What a session that came to an end with a status says.
abbrev pub SessionTrue : (logging : Bool) → (status : ℕ) → Option Session → Type 0
SessionTrue logging status none = Unit {0}
SessionTrue logging zero (some s) = ReadsTrue logging s × SendsTrue s
SessionTrue logging (suc status) (some s) = ReadsTrue logging s

abbrev pub ExitTrue : (logging : Bool) → Exit → Type 0
ExitTrue logging (Exit.running_on s) = ReadsTrue logging s
ExitTrue logging (Exit.returned status port session) =
    (is_shut port ≡ true) × SessionTrue logging status session

-- Whether the command line asks for a log file.
abbrev pub asks_log : Parsed → Bool
asks_log (Parsed.accepted o) = not (o.log_path =t= "")
asks_log _ = false

statistics_line : Session → Output
statistics_line s =
    Output.statistics s.parser.frames s.parser.bad_crc8 s.parser.bad_crc16 s.parser.desyncs

finish-true :
    (logging : Bool) (s : Session)
    → ReadsTrue logging s
    → SendsTrue s
    → SessionTrue logging 0 (some (finish s))
unfolding finish statistics_line
finish-true logging s h g =
    let read =
      sym (
        chunks_read-append s.output (statistics_line s ∷ []) ∙ append-nil (chunks_read s.output)) in
    let sent =
      sym (
        frames_sent-append s.output (statistics_line s ∷ []) ∙ append-nil (frames_sent s.output)) in
    (
      record {
        parsed = h.parsed ∙ ap (parse_chunks fresh_parser) read;
        logged = h.logged ∙ ap (λ cs. if logging then concat cs else []) read;
      },
      record {
        frames = subst (λ fs. fs ≡ test_frames (length fs)) sent g.frames;
        taken = g.taken ∙ ap concat sent;
        sequence = g.sequence ∙ ap (λ (fs : List (List ℕ)). length fs % 256) sent;
      },
    )

leave_block-ExitTrue :
    (logging : Bool) (options : Termios) (e : RoundEnd)
    → EndsTrue logging e
    → ExitTrue logging (leave_block options e)
unfolding leave_block
leave_block-ExitTrue logging options (RoundEnd.next s) h = (refl, finish-true logging s h.0 h.1)
leave_block-ExitTrue logging options (RoundEnd.throws error s) h = (refl, h)
leave_block-ExitTrue logging options (RoundEnd.blocked s) h = h

abbrev PortShut : Construction → Type 0
PortShut (Construction.constructed options) = Unit {0}
PortShut (Construction.thrown error port) = is_shut port ≡ true

serial_port-PortShut :
    (make_raw : Termios → Termios) (defines : ℕ → Bool) (sys : PortResults) (baud : ℤ)
    → PortShut (serial_port make_raw defines sys baud)
unfolding serial_port set_options
serial_port-PortShut make_raw defines sys baud = ground arith

session-EndsTrue :
    (period : ℕ → ℤ) (o : Options) (logging : Bool) (rounds : List Round) (now : ℤ)
    → EndsTrue logging (debug_loop period o logging rounds (start_session o now))
session-EndsTrue period o logging rounds now =
    let (reads, sends) = start_session-true o logging now in
    debug_loop-EndsTrue period o logging rounds (start_session o now) reads sends

tested-ExitTrue :
    (logging b : Bool) (x y : Exit)
    → ExitTrue logging x
    → ExitTrue logging y
    → ExitTrue logging (if b then x else y)
tested-ExitTrue logging true x y h k = h
tested-ExitTrue logging false x y h k = k

with_port-ExitTrue :
    (period : ℕ → ℤ) (sys : DebugSystem) (rounds : List Round) (o : Options) (c : Construction)
    → PortShut c
    → ExitTrue (not (o.log_path =t= "")) (with_port period sys rounds o c)
unfolding with_port
with_port-ExitTrue period sys rounds o (Construction.thrown error port) h = (h, tt)
with_port-ExitTrue period sys rounds o (Construction.constructed options) h =
    let logging = not (o.log_path =t= "") in
    tested-ExitTrue logging (logging && not sys.log_opens)
      (Exit.returned 1 (close_port options) none)
      (leave_block options (debug_loop period o logging rounds (start_session o sys.now)))
      (refl, tt)
      (leave_block-ExitTrue logging options
        (debug_loop period o logging rounds (start_session o sys.now))
        (session-EndsTrue period o logging rounds sys.now))

after_arguments-ExitTrue :
    (period : ℕ → ℤ) (open_port : ℤ → Construction) (sys : DebugSystem) (rounds : List Round)
    → (parsed : Parsed) → ((baud : ℤ) → PortShut (open_port baud))
    → ExitTrue (asks_log parsed) (elim parsed [
      | Parsed.usage ↦ Exit.returned 0 Port.never_opened none
      | Parsed.refused error ↦ Exit.returned 1 Port.never_opened none
      | Parsed.accepted o ↦ with_port period sys rounds o (open_port o.baud)
    ])
after_arguments-ExitTrue period open_port sys rounds Parsed.usage h = (refl, tt)
after_arguments-ExitTrue period open_port sys rounds (Parsed.refused error) h = (refl, tt)
after_arguments-ExitTrue period open_port sys rounds (Parsed.accepted o) h =
    with_port-ExitTrue period sys rounds o (open_port o.baud) (h o.baud)

-- However `main` of the hex tool ends, for any arguments, port, reads and partial writes: the port is
-- not left open; if there was a session, the parser has been given just the chunks that were printed
-- as read, in order, and the log file holds just their bytes if one was asked for, and nothing
-- otherwise; and if it ends with status 0 after a session, the frames printed as sent are the test
-- frames numbered from 0 modulo 256, and the port has taken exactly their bytes. While it is still
-- sending a frame, the same holds of the parser and the log file.
pub debug_main-ExitTrue :
    (make_raw : Termios → Termios) (defines : ℕ → Bool) (stoi : String → Option ℤ)
    → (stod : String → Option ℕ) (period : ℕ → ℤ) (args : List String) (sys : DebugSystem)
    → (rounds : List Round)
    → ExitTrue
        (asks_log (parse_arguments stoi stod args))
        (debug_main make_raw defines stoi stod period args sys rounds)
unfolding debug_main
debug_main-ExitTrue make_raw defines stoi stod period args sys rounds =
    after_arguments-ExitTrue period (serial_port make_raw defines sys.port) sys rounds
      (parse_arguments stoi stod args) (serial_port-PortShut make_raw defines sys.port)
