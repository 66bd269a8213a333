-- ===== src/Diagnostic/Serial.antt =====
-- include/dji_serial_bridge/diagnostic_serial.hpp: the tools' serial port and the hex text of bytes.
-- Text is a list of ASCII codes here. What the system gives is the input; `cfmakeraw` and the rates
-- whose constants the system's headers define are parameters.
pub mod Hex
pub mod Laws
use ros2_dji_serial_bridge.Base.{
  ℕ, ◌+◌, ◌-◌, ◌/◌, ◌%◌, Bool, true, false, not, ◌&&◌, List, [], ◌∷◌, ◌++◌, Option, none, some, ltb,
  among, if◌then◌else◌,
}
use ros2_dji_serial_bridge.Base.Int.{ℤ, pos, negsuc}
use ros2_dji_serial_bridge.Node.Start.{Termios, Port}

-- The cases of the switch without a preprocessor test, and those under `#ifdef`.
abbrev pub base_rates : List ℕ
base_rates =
    50 ∷ 75 ∷ 110 ∷ 134 ∷ 150 ∷ 200 ∷ 300 ∷ 600 ∷ 1200 ∷ 1800 ∷ 2400 ∷ 4800 ∷ 9600 ∷ 19200 ∷ 38400
    ∷ 57600 ∷ 115200 ∷ 230400 ∷ []

abbrev pub optional_rates : List ℕ
optional_rates =
    460800 ∷ 500000 ∷ 576000 ∷ 921600 ∷ 1000000 ∷ 1152000 ∷ 1500000 ∷ 2000000 ∷ 2500000 ∷ 3000000
    ∷ 3500000 ∷ 4000000 ∷ []

-- The rate behind the `speed_t` constant, `none` where the function throws.
unfoldable pub baud_speed : (defines : ℕ → Bool) → (baud : ℤ) → Option ℕ
baud_speed defines (ℤ.pos baud) =
    if among baud base_rates
    then some baud
    else if among baud optional_rates && defines baud
    then some baud
    else none
baud_speed defines (ℤ.negsuc n) = none

-- What the constructor is given: whether `open` succeeds, `tcgetattr`, and `tcsetattr`.
pub record PortResults : Type 0 where
  pub opens : Bool
  pub attributes : Option Termios
  pub takes_attributes : Bool

pub data PortError : Type 0 where
  open_failed tcgetattr_failed tcsetattr_failed : PortError
  unsupported_baudrate : ℤ → PortError

-- The constructor returns with the port open and its attributes, or throws.
pub data Construction : Type 0 where
  constructed : Termios → Construction
  thrown : PortError → Port → Construction

unfoldable pub raw_options : (Termios → Termios) → (rate : ℕ) → Termios → Termios
raw_options make_raw rate options = record (make_raw options) {
  clocal = true;
  cread = true;
  parenb = false;
  cstopb = false;
  crtscts = false;
  char_size = 8;
  vmin = 0;
  vtime = 0;
  ispeed = rate;
  ospeed = rate;
}

-- The `try` block after `tcgetattr`; its handler closes the port.
unfoldable pub set_options :
    (Termios → Termios) → (takes : Bool) → (baud : ℤ) → Option ℕ → Termios → Construction
set_options make_raw takes baud none options =
    Construction.thrown (PortError.unsupported_baudrate baud) Port.closed
set_options make_raw takes baud (some rate) options =
    if takes
    then Construction.constructed (raw_options make_raw rate options)
    else Construction.thrown PortError.tcsetattr_failed Port.closed

unfoldable pub serial_port :
    (Termios → Termios) → (defines : ℕ → Bool) → PortResults → (baud : ℤ) → Construction
unfolding set_options
serial_port make_raw defines sys baud =
    if sys.opens
    then elim sys.attributes [
      | none ↦ Construction.thrown PortError.tcgetattr_failed Port.closed
      | some options ↦
          set_options make_raw sys.takes_attributes baud (baud_speed defines baud) options
    ]
    else Construction.thrown PortError.open_failed Port.never_opened

-- The destructor of a constructed port.
abbrev pub close_port : Termios → Port
close_port options = Port.closed

unfoldable pub hex_digit : ℕ → ℕ
hex_digit d = if ltb d 10 then b'0' + d else b'a' + (d - 10)

-- `setw(2)` with the fill '0' and the manipulator `hex`, for one byte.
unfoldable pub hex_byte : ℕ → List ℕ
unfolding hex_digit
hex_byte b = hex_digit (b / 16) ∷ hex_digit (b % 16) ∷ []

-- The loop from the index on that `first` says is 0.
unfoldable pub hex_loop : (spaces first : Bool) → List ℕ → List ℕ
hex_loop spaces first [] = []
hex_loop spaces first (b ∷ bytes) =
    (if spaces && not first then b' ' ∷ [] else []) ++ (hex_byte b ++ hex_loop spaces false bytes)

unfoldable pub hex : List ℕ → (spaces : Bool) → List ℕ
unfolding hex_loop
hex bytes spaces = hex_loop spaces true bytes
