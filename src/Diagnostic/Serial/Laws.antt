-- ===== src/Diagnostic/Serial/Laws.antt =====
-- What the tools' port does on every path, and how its rates compare with the bridge's.
use ros2_dji_serial_bridge.Base.{
  subst, sym, ℕ, ◌≡◌, refl, arith, Bool, true, false, ◌&&◌, [], Option, none, some, among,
}
use ros2_dji_serial_bridge.Base.Int.{pos}
use ros2_dji_serial_bridge.Node.Start.{Termios, Port, baud_to_speed}
use ros2_dji_serial_bridge.Node.Start.Laws.{is_some, rates}
use ros2_dji_serial_bridge.Diagnostic.Serial.{
  baud_speed, PortResults, Construction, raw_options, set_options, serial_port,
}

-- 8N1 without hardware flow control, at a rate, with reads that return at once.
pub record IsPolled8n1 (rate : ℕ) (options : Termios) : Type 0 where
  pub rates : (options.ispeed ≡ rate) × (options.ospeed ≡ rate)
  pub char_size : options.char_size ≡ 8
  pub parity : options.parenb ≡ false
  pub stop : options.cstopb ≡ false
  pub hardware_flow : options.crtscts ≡ false
  pub receiver : (options.cread ≡ true) × (options.clocal ≡ true)
  pub no_wait : (options.vmin ≡ 0) × (options.vtime ≡ 0)

abbrev pub has_rate : Option ℕ → Bool
has_rate none = false
has_rate (some rate) = true

abbrev pub is_open : Construction → Bool
is_open (Construction.constructed options) = true
is_open (Construction.thrown error port) = false

-- A port that is left open by a constructor that throws.
abbrev pub leaks_port : Construction → Bool
leaks_port (Construction.thrown error Port.opened) = true
leaks_port _ = false

abbrev pub RunsPolledAt : ℕ → Construction → Type 0
RunsPolledAt rate (Construction.constructed options) = IsPolled8n1 rate options
RunsPolledAt rate (Construction.thrown error port) = Unit {0}

baud_speed_same :
    (defines : ℕ → Bool) (baud rate : ℕ) → baud_speed defines (pos baud) ≡ some rate → baud ≡ rate
unfolding baud_speed
baud_speed_same defines baud rate e = ground arith

raw_options-IsPolled8n1 :
    (make_raw : Termios → Termios) (rate : ℕ) (options : Termios)
    → IsPolled8n1 rate (raw_options make_raw rate options)
unfolding raw_options
raw_options-IsPolled8n1 make_raw rate options = record {
  rates = (refl, refl);
  char_size = refl;
  parity = refl;
  stop = refl;
  hardware_flow = refl;
  receiver = (refl, refl);
  no_wait = (refl, refl);
}

set_options-RunsPolledAt :
    (make_raw : Termios → Termios) (takes : Bool) (baud : ℕ) (speed : Option ℕ) (options : Termios)
    → ((rate : ℕ) → speed ≡ some rate → baud ≡ rate)
    → RunsPolledAt baud (set_options make_raw takes (pos baud) speed options)
unfolding set_options
set_options-RunsPolledAt make_raw takes baud none options same = tt
set_options-RunsPolledAt make_raw false baud (some rate) options same = tt
set_options-RunsPolledAt make_raw true baud (some rate) options same =
    subst (λ r. IsPolled8n1 r (raw_options make_raw rate options)) (sym (same rate refl))
      (raw_options-IsPolled8n1 make_raw rate options)

serial_port-RunsPolledAt :
    (make_raw : Termios → Termios) (defines : ℕ → Bool) (opens takes : Bool)
    → (attributes : Option Termios) (baud : ℕ)
    → RunsPolledAt baud (
        serial_port make_raw defines
          (record { opens = opens; attributes = attributes; takes_attributes = takes })
          (pos baud))
unfolding serial_port
serial_port-RunsPolledAt make_raw defines false takes attributes baud = tt
serial_port-RunsPolledAt make_raw defines true takes none baud = tt
serial_port-RunsPolledAt make_raw defines true takes (some options) baud =
    set_options-RunsPolledAt make_raw takes baud (baud_speed defines (pos baud)) options
      (baud_speed_same defines baud)

-- At a baud rate that is not negative, the tools' port opens exactly if the device opens, its
-- attributes can be read and written, and the rate is one that `baud_speed` has; where the constructor throws, no port is left open; and
-- where it returns, the line runs at that very rate with 8 data bits, no parity, one stop bit and no
-- hardware flow control, and a read never waits.
pub serial_port-is_open :
    (make_raw : Termios → Termios) (defines : ℕ → Bool) (sys : PortResults) (baud : ℕ)
    → (is_open (serial_port make_raw defines sys (pos baud)) ≡ (
        sys.opens
        && is_some sys.attributes
        && has_rate (baud_speed defines (pos baud))
        && sys.takes_attributes))
      × (leaks_port (serial_port make_raw defines sys (pos baud)) ≡ false)
      × RunsPolledAt baud (serial_port make_raw defines sys (pos baud))
serial_port-is_open make_raw defines sys baud = (
  unfold serial_port set_options in ground arith,
  unfold serial_port set_options in ground arith,
  serial_port-RunsPolledAt make_raw defines sys.opens sys.takes_attributes sys.attributes baud,
)

-- At every baud rate that the bridge supports, and whose constant the system defines for the tools,
-- the tools' port and the bridge's line run at one and the same rate, without a warning of the bridge.
pub baud_speed-baud_to_speed :
    (defines : ℕ → Bool) (baud : ℕ)
    → among baud rates ≡ true
    → defines baud ≡ true
    → (baud_speed defines (pos baud) ≡ some (baud_to_speed (pos baud)).0)
      × ((baud_to_speed (pos baud)).1 ≡ [])
unfolding baud_speed baud_to_speed
baud_speed-baud_to_speed defines baud h k = ground arith
