-- ===== src/Diagnostic/Options.antt =====
-- src/serial_debug.cpp: the command line of the hex tool. `std::stoi` and `std::stod` are parameters,
-- `none` where they throw; a double is its bit pattern.
pub mod Laws
use Prim.Native.String.{String}
use text.Mathlib.Text.{◌==◌, starts_with}
use mathlib.Core.Bool.{◌||◌}
use ros2_dji_serial_bridge.Base.{
  ℕ, Bool, true, false, not, ◌&&◌, List, [], ◌∷◌, Option, none, some, if◌then◌else◌,
}
use ros2_dji_serial_bridge.Base.Int.{ℤ, pos}

pub record Options : Type 0 where
  pub device : String
  pub log_path : String
  pub baud : ℤ
  pub rate : ℕ
  pub tx : Bool

-- The values before the loop; the rate is 1.0.
abbrev pub defaults : Options
defaults = record {
  device = "";
  log_path = "";
  baud = pos 921600;
  rate = 0x3ff0000000000000;
  tx = false;
}

-- The exceptions of the argument loop and of the test behind it.
pub data Refusal : Type 0 where
  bad_argument : String → Refusal
  bad_number : String → Refusal
  no_port : Refusal

pub data Parsed : Type 0 where
  usage : Parsed
  refused : Refusal → Parsed
  accepted : Options → Parsed

-- Which branch of the loop an argument takes; `has_next` is `i + 1 < argc`.
pub data Branch : Type 0 where
  help set_tx take_baud take_log take_rate take_device unknown : Branch

unfoldable pub branch : (has_next : Bool) → (device arg : String) → Branch
branch has_next device arg =
    if arg == "--help" || arg == "-h"
    then help
    else if arg == "--tx"
    then set_tx
    else if arg == "--baud" && has_next
    then take_baud
    else if arg == "--log" && has_next
    then take_log
    else if arg == "--tx-rate" && has_next
    then take_rate
    else if device == "" && not (arg == "") && not (starts_with arg "-")
    then take_device
    else unknown

-- The test for a port behind the loop.
abbrev pub check_device : Options → Parsed
check_device o = if o.device == "" then Parsed.refused Refusal.no_port else Parsed.accepted o

module _ (stoi : String → Option ℤ) (stod : String → Option ℕ) where
  unfoldable pub parse_loop : List String → Options → Parsed
  parse_loop [] o = check_device o
  parse_loop (arg ∷ []) o = elim (branch false o.device arg) [
    | help ↦ Parsed.usage
    | set_tx ↦ check_device (record o { tx = true })
    | take_device ↦ check_device (record o { device = arg })
    | _ ↦ Parsed.refused (Refusal.bad_argument arg)
  ]
  parse_loop (arg ∷ value ∷ rest) o = elim (branch true o.device arg) [
    | help ↦ Parsed.usage
    | set_tx ↦ parse_loop (value ∷ rest) (record o { tx = true })
    | take_baud ↦ elim (stoi value) [
      | none ↦ Parsed.refused (Refusal.bad_number value)
      | some baud ↦ parse_loop rest (record o { baud = baud })
    ]
    | take_log ↦ parse_loop rest (record o { log_path = value })
    | take_rate ↦ elim (stod value) [
      | none ↦ Parsed.refused (Refusal.bad_number value)
      | some rate ↦ parse_loop rest (record o { rate = rate })
    ]
    | take_device ↦ parse_loop (value ∷ rest) (record o { device = arg })
    | unknown ↦ Parsed.refused (Refusal.bad_argument arg)
  ]

  unfoldable pub parse_arguments : List String → Parsed
  unfolding parse_loop branch
  parse_arguments args = parse_loop args defaults
