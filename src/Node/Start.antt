-- ===== src/Node/Start.antt =====
-- The constructor, `configure_serial` and `baud_to_speed`. What `stat`, `access`, `open`, `fcntl` and the
-- `termios` calls give is the input; `cfmakeraw` is a parameter. The read thread's first lines may
-- come before the last line of the constructor; here they come behind it.
pub mod Laws
use ros2_dji_serial_bridge.Base.{
  ℕ, ◌*◌, ◌/◌, ◌%◌, ◌-◌, ◌+◌, ◌^◌, Bool, true, false, ◌&&◌, List, [], ◌∷◌, ◌++◌, Option, none, some,
  ◌==◌, ltb, if◌then◌else◌,
}
use ros2_dji_serial_bridge.Base.Int.{ℤ, pos, negsuc, pos_part}
use ros2_dji_serial_bridge.Node.State.{Node, Event, Log}

-- `static_cast<int>` of an `int64_t`.
unfoldable pub as_int : ℤ → ℤ
as_int (ℤ.pos n) =
    let low = n % 2 ^ 32 in if ltb low (2 ^ 31) then pos low else negsuc (2 ^ 32 - low - 1)
as_int (ℤ.negsuc n) =
    let low = n % 2 ^ 32 in if ltb low (2 ^ 31) then negsuc low else pos (2 ^ 32 - low - 1)

-- The rate behind each `speed_t` constant that the switch returns, `none` in the default case.
abbrev supported_rate : ℕ → Option ℕ
supported_rate baud =
    if baud == 9600
    then some 9600
    else if baud == 19200
    then some 19200
    else if baud == 38400
    then some 38400
    else if baud == 57600
    then some 57600
    else if baud == 115200
    then some 115200
    else if baud == 230400
    then some 230400
    else if baud == 460800
    then some 460800
    else if baud == 921600
    then some 921600
    else if baud == 2000000
    then some 2000000
    else if baud == 4000000
    then some 4000000
    else none

-- The rate of the line, and the warning of the default case.
unfoldable pub baud_to_speed : ℤ → ℕ × List Event
baud_to_speed baud = elim (supported_rate (pos_part baud)) [
  | some rate ↦ (rate, [])
  | none ↦ (921600, Event.logged (Log.unsupported_baudrate baud) ∷ [])
]

-- The attributes of the line that the code touches, each mask of `termios` by its name.
pub record Termios : Type 0 where
  pub ispeed : ℕ
  pub ospeed : ℕ
  pub char_size : ℕ
  pub ignbrk : Bool
  pub ixon : Bool
  pub ixoff : Bool
  pub ixany : Bool
  pub clocal : Bool
  pub cread : Bool
  pub parenb : Bool
  pub parodd : Bool
  pub cstopb : Bool
  pub crtscts : Bool
  pub lflag : ℕ
  pub oflag : ℕ
  pub vmin : ℕ
  pub vtime : ℕ

-- What the system gives while the port is opened: `tcgetattr` the attributes or -1, `tcsetattr`
-- whether it took them, `fcntl` the status flags as 32 bits. `create_wall_timer` throws on a period that
-- is negative or too large; so may the creation of the publishers, the subscriptions and the thread.
pub record Platform : Type 0 where
  pub exists : Bool
  pub is_char_device : Bool
  pub accessible : Bool
  pub opens : Bool
  pub attributes : Option Termios
  pub takes_attributes : Bool
  pub status_flags : ℕ
  pub publishers_created : Bool
  pub subscriptions_created : Bool
  pub timer_accepts : (period_s : ℤ) → Bool
  pub thread_starts : Bool

-- The attributes that `configure_serial` hands to `tcsetattr`.
unfoldable pub line_attributes : (Termios → Termios) → (rate : ℕ) → Termios → Termios
line_attributes make_raw rate tty = record (make_raw tty) {
  ospeed = rate;
  ispeed = rate;
  char_size = 8;
  ignbrk = false;
  lflag = 0;
  oflag = 0;
  vmin = 0;
  vtime = 5;
  ixon = false;
  ixoff = false;
  ixany = false;
  clocal = true;
  cread = true;
  parenb = false;
  parodd = false;
  cstopb = false;
  crtscts = false;
}

-- What `configure_serial` does with the result of `tcgetattr`: the attributes that the line has then,
-- `none` for the result `false`, with the log lines.
unfoldable pub apply_line :
    (Termios → Termios)
    → (takes : Bool) → (baudrate : ℤ) → Option Termios
    → Option Termios × List Event
apply_line make_raw takes baudrate none = (none, Event.logged Log.tcgetattr_failed ∷ [])
apply_line make_raw takes baudrate (some tty) =
    let (rate, warning) = baud_to_speed baudrate in
    if takes
    then (some (line_attributes make_raw rate tty), warning)
    else (none, warning ++ (Event.logged Log.tcsetattr_failed ∷ []))

unfoldable pub configure_serial :
    (Termios → Termios) → Platform → (baudrate : ℤ) → Option Termios × List Event
unfolding apply_line
configure_serial make_raw sys baudrate =
    apply_line make_raw sys.takes_attributes baudrate sys.attributes

pub record Parameters : Type 0 where
  pub baudrate : ℤ
  pub poll_ms : ℤ
  pub enforce_crc : Bool
  pub debug_log : Bool
  pub diag_interval_s : ℤ

-- `10 * 1000000000LL / std::max<int64_t>(baudrate, 1)`.
unfoldable pub wire_ns : (baudrate : ℤ) → ℕ
wire_ns baudrate = 10 * 1000000000 / (if ltb 1 (pos_part baudrate) then pos_part baudrate else 1)

-- The member variables at the start of the read thread.
unfoldable pub initial : Parameters → List Event → Node
initial p events = record {
  bytes_rx = 0;
  frames_rx = 0;
  crc8_errors = 0;
  crc16_errors = 0;
  pose_msgs_pub = 0;
  ref_sys_msgs_pub = 0;
  nav_goal_msgs_tx = 0;
  cv_target_msgs_tx = 0;
  relocalize_msgs_tx = 0;
  ping_msgs_pub = 0;
  ping_msgs_tx = 0;
  last_pose_x = 0;
  last_pose_y = 0;
  have_pose = false;
  last_odom_status = 0;
  silent_polls = 0;
  byte_wire_ns = wire_ns p.baudrate;
  tx_seq = 0;
  enforce_crc = p.enforce_crc;
  debug_log = p.debug_log;
  events = events;
}

-- How a constructor leaves the port.
pub data Port : Type 0 where
  never_opened closed opened : Port

-- `fl & ~O_NONBLOCK`, where O_NONBLOCK is bit 11.
unfoldable pub clear_nonblock : ℕ → ℕ
clear_nonblock fl = if fl / 2 ^ 11 % 2 == 1 then fl - 2 ^ 11 else fl

-- The opened port as it was asked to be: the attributes that `tcsetattr` was given, which reported
-- success, and the status flags that `fcntl` was given, whose result is not looked at.
pub record Device : Type 0 where
  pub line : Termios
  pub flags : ℕ

pub data Started : Type 0 where
  thrown : Port → List Event → Started
  ready : Device → (timer_period_s : ℤ) → Node → Started

abbrev lines : List Log → List Event
lines [] = []
lines (l ∷ ls) = Event.logged l ∷ lines ls

-- The lines from the configured port on.
unfoldable pub ready_lines : Parameters → List Event
ready_lines p = lines (
    Log.port_configured p.baudrate
    ∷ Log.publishers_ready
    ∷ Log.subscribers_ready
    ∷ Log.bridge_ready
    ∷ [])

-- From the configured port on. An exception leaves the descriptor open: the destructor of an object
-- whose constructor throws does not run.
unfoldable pub entities : Device → Platform → Parameters → List Event → Started
entities device sys p before =
    let configured = Log.port_configured p.baudrate in
    if sys.publishers_created
    then (if sys.subscriptions_created
        then (if sys.timer_accepts p.diag_interval_s && sys.thread_starts
            then Started.ready device p.diag_interval_s (initial p (before ++ ready_lines p))
            else Started.thrown Port.opened
                (before ++ lines (configured ∷ Log.publishers_ready ∷ Log.subscribers_ready ∷ [])))
        else Started.thrown Port.opened (before ++ lines (configured ∷ Log.publishers_ready ∷ [])))
    else Started.thrown Port.opened (before ++ lines (configured ∷ []))

-- The constructor on the result of `configure_serial`, with what was logged before and in it.
unfoldable pub configured :
    Option Termios × List Event → Platform → Parameters → List Event → Started
unfolding clear_nonblock entities
configured (none, said) sys p before = Started.thrown Port.closed (before ++ said)
configured (some tty, said) sys p before =
    entities (record { line = tty; flags = clear_nonblock sys.status_flags }) sys p (before ++ said)

-- The constructor from the opened port on.
unfoldable pub configure : (Termios → Termios) → Platform → Parameters → List Event → Started
configure make_raw sys p before =
    configured (configure_serial make_raw sys (as_int p.baudrate)) sys p before

unfoldable pub construct : (Termios → Termios) → Platform → Parameters → Started
construct make_raw sys p =
    let permission = if sys.accessible then Log.accessible else Log.no_permission in
    if sys.exists
    then (if sys.is_char_device
        then (if sys.opens
            then configure make_raw sys p (lines (permission ∷ Log.port_opened ∷ []))
            else Started.thrown Port.never_opened (lines (permission ∷ [])))
        else Started.thrown Port.never_opened (lines (Log.not_a_character_device ∷ [])))
    else Started.thrown Port.never_opened (lines (Log.device_missing ∷ []))
