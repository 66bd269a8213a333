-- ===== src/Diagnostic/Options/Laws.antt =====
-- The command line of every setting is read back.
use Prim.Native.String.{String}
use text.Mathlib.Text.{◌==◌, starts_with}
use text.Mathlib.TextEquality.{eq_iff}
use ros2_dji_serial_bridge.Base.{
  Bool-cases, inl, inr, ap, ℕ, ◌≡◌, refl, arith, true, false, List, [], ◌∷◌, Option, some,
  if◌then◌else◌,
}
use ros2_dji_serial_bridge.Base.Int.{ℤ}
use ros2_dji_serial_bridge.Diagnostic.Options.{
  Options, Parsed, Branch, branch, parse_loop, parse_arguments,
}

-- A way to write options down, the port last.
abbrev pub command_line : (baud_text rate_text : String) → Options → List String
command_line baud_text rate_text o =
    let tail =
      "--baud" ∷ baud_text ∷ "--log" ∷ o.log_path ∷ "--tx-rate" ∷ rate_text ∷ o.device ∷ [] in
    if o.tx then "--tx" ∷ tail else tail

-- A text that does not start with a dash is none of the options.
not_option :
    (s option : String)
    → starts_with option "-" ≡ true
    → starts_with s "-" ≡ false
    → (s == option) ≡ false
not_option s option dash plain = elim (Bool-cases (s == option)) [
  | inl same ↦ absurd (dashed ((eq_iff s option).0 same))
  | inr differ ↦ differ
]
  where
    dashed : s ≡ option → ⊥
    dashed e = cc (ap (λ (t : String). starts_with t "-") e)

branch_device :
    (device : String)
    → (device == "") ≡ false
    → starts_with device "-" ≡ false
    → branch false "" device ≡ Branch.take_device
unfolding branch
branch_device device filled plain =
    let no_help = not_option device "--help" refl plain in
    let no_h = not_option device "-h" refl plain in
    let no_tx = not_option device "--tx" refl plain in
    let no_baud = not_option device "--baud" refl plain in
    let no_log = not_option device "--log" refl plain in
    let no_rate = not_option device "--tx-rate" refl plain in
    rw (no_help, no_h, no_tx, no_baud, no_log, no_rate, filled, plain) refl

module _ (stoi : String → Option ℤ) (stod : String → Option ℕ) where
  device_taken :
      (o : Options)
      → (o.device == "") ≡ false
      → starts_with o.device "-" ≡ false
      → parse_loop stoi stod (o.device ∷ []) (record o { device = "" }) ≡ Parsed.accepted o
  unfolding parse_loop
  device_taken o filled plain = ground (arith, branch_device o.device filled plain)

  -- Whatever the port, the log file, the baud rate, the transmit rate and `--tx` are set to, a command
  -- line that names them all is read back as these settings, if the port's name is not empty and does
  -- not start with a dash, and the two numbers are texts that `stoi` and `stod` read as them.
  pub parse_arguments-command_line :
      (baud_text rate_text : String) (o : Options)
      → stoi baud_text ≡ some o.baud
      → stod rate_text ≡ some o.rate
      → (o.device == "") ≡ false
      → starts_with o.device "-" ≡ false
      → parse_arguments stoi stod (command_line baud_text rate_text o) ≡ Parsed.accepted o
  unfolding parse_arguments parse_loop
  parse_arguments-command_line baud_text rate_text o read_baud read_rate filled plain =
      ground (arith, device_taken o filled plain)
