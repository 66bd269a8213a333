-- ===== src/Node/System/Intake.antt =====
-- All the bytes that were read in a run, against what the node counted and reported.
use ros2_dji_serial_bridge.Base.{
  ℕ, ◌+◌, ◌≡◌, refl, subst, ◌∙◌, arith, ◌++◌, List, [], ◌∷◌, Option, some, none, length,
}
use ros2_dji_serial_bridge.Base.Int.{ℤ}
use ros2_dji_serial_bridge.Node.State.{Node, Event, Log, CvTarget, Ping, PointStamped, emit}
use ros2_dji_serial_bridge.Node.Tally.{tally, tally-append, weigh, nothing}
use ros2_dji_serial_bridge.Node.Transmit.{send_frame}
use ros2_dji_serial_bridge.Node.Callbacks.{
  nav_goal_callback, cv_target_callback, relocalize_callback, ping_callback,
}
use ros2_dji_serial_bridge.Node.Diagnostics.{diagnostics_line, print_diagnostics}
use ros2_dji_serial_bridge.Node.Start.{
  Termios, Device, Platform, Parameters, Started, construct, configure, configured,
  configure_serial, initial, as_int,
}
use ros2_dji_serial_bridge.Node.Start.Laws.{entities_cases}
use ros2_dji_serial_bridge.Node.System.{System, Step, Reach, launched, on_system}
use ros2_dji_serial_bridge.Node.System.Invariant.{constructed}
use ros2_dji_serial_bridge.Node.System.Balance.{
  IsBalanced, SameCost, TurnBalanced, turn_bytes, read_turn-balanced, note-IsBalanced,
}

module _ (write : List ℕ → Option ℕ) where
  cv_target_callback-SameCost :
      (msg : CvTarget) (n : Node) → SameCost (cv_target_callback write msg n) n
  unfolding cv_target_callback send_frame emit tally weigh
  cv_target_callback-SameCost msg n = grind (arith, tally-append)

  ping_callback-SameCost : (msg : Ping) (n : Node) → SameCost (ping_callback write msg n) n
  unfolding ping_callback send_frame emit tally weigh
  ping_callback-SameCost msg n = grind (arith, tally-append)

  module _ (to_float : ℕ → ℕ) where
    nav_goal_callback-SameCost :
        (msg : PointStamped) (n : Node) → SameCost (nav_goal_callback write to_float msg n) n
    unfolding nav_goal_callback send_frame emit tally weigh
    nav_goal_callback-SameCost msg n = grind (arith, tally-append)

    relocalize_callback-SameCost :
        (msg : PointStamped) (n : Node) → SameCost (relocalize_callback write to_float msg n) n
    unfolding relocalize_callback send_frame emit tally weigh
    relocalize_callback-SameCost msg n = grind (arith, tally-append)

diagnostics_line_silent : (n : Node) → tally (Event.logged (diagnostics_line n) ∷ []) ≡ nothing
unfolding diagnostics_line tally weigh
diagnostics_line_silent n = ground arith

print_diagnostics-SameCost : (n : Node) → SameCost (print_diagnostics n) n
unfolding print_diagnostics emit
print_diagnostics-SameCost n = ground (
  arith,
  tally-append n.events (Event.logged (diagnostics_line n) ∷ []),
  diagnostics_line_silent n,
)

-- All bytes that were read in a run.
unfoldable pub bytes_taken :
    {poll_ms : ℕ} {to_float : ℕ → ℕ} {s t : System} → Reach poll_ms to_float s t → ℕ
bytes_taken Reach.here = 0
bytes_taken (Reach.later r (Step.read poll t on p e)) = bytes_taken r + length (turn_bytes poll)
bytes_taken (Reach.later r (Step.break poll t on p e)) = bytes_taken r + length (turn_bytes poll)
bytes_taken (Reach.later r _) = bytes_taken r

same-IsBalanced :
    (f : Node → Node) (bytes : ℕ) (s : System)
    → SameCost (f s.rx.node) s.rx.node
    → IsBalanced bytes s.rx
    → IsBalanced bytes (on_system f s).rx
same-IsBalanced f bytes s same b = record {
  counted = same.1 ∙ b.counted;
  covered = omega (arith, same, b.covered);
}

module _ {poll_ms : ℕ} {to_float : ℕ → ℕ} {s : System} where
  run-IsBalanced :
      {t : System} (r : Reach poll_ms to_float s t)
      → IsBalanced 0 s.rx
      → IsBalanced (bytes_taken r) t.rx
  unfolding bytes_taken
  run-IsBalanced Reach.here b = b
  run-IsBalanced (Reach.later {t} r (Step.read poll u on p e)) b =
      subst (TurnBalanced (bytes_taken r + length (turn_bytes poll))) e
        (read_turn-balanced poll_ms poll (bytes_taken r) t.rx (run-IsBalanced r b))
  run-IsBalanced (Reach.later {t} r (Step.break poll u on p e)) b =
      note-IsBalanced (Log.thread_exiting u.node.bytes_rx u.node.frames_rx) _ u
        (unfold tally weigh in refl)
        (subst (TurnBalanced (bytes_taken r + length (turn_bytes poll))) e
          (read_turn-balanced poll_ms poll (bytes_taken r) t.rx (run-IsBalanced r b)))
  run-IsBalanced (Reach.later {t} r (Step.nav_goal write msg)) b =
      same-IsBalanced (nav_goal_callback write to_float msg) _ t
        (nav_goal_callback-SameCost write to_float msg t.rx.node) (run-IsBalanced r b)
  run-IsBalanced (Reach.later {t} r (Step.cv_target write msg)) b =
      same-IsBalanced (cv_target_callback write msg) _ t
        (cv_target_callback-SameCost write msg t.rx.node) (run-IsBalanced r b)
  run-IsBalanced (Reach.later {t} r (Step.relocalize write msg)) b =
      same-IsBalanced (relocalize_callback write to_float msg) _ t
        (relocalize_callback-SameCost write to_float msg t.rx.node) (run-IsBalanced r b)
  run-IsBalanced (Reach.later {t} r (Step.ping write msg byte)) b =
      same-IsBalanced (ping_callback write msg) _ t (ping_callback-SameCost write msg t.rx.node)
        (run-IsBalanced r b)
  run-IsBalanced (Reach.later {t} r Step.timer) b =
      same-IsBalanced print_diagnostics _ t (print_diagnostics-SameCost t.rx.node)
        (run-IsBalanced r b)

-- No byte was counted before the threads start.
abbrev StartsAtZero : Started → Type 0
StartsAtZero (Started.thrown port es) = Unit {0}
StartsAtZero (Started.ready tty period n) = n.bytes_rx ≡ 0

configured-StartsAtZero :
    (c : Option Termios × List Event) (sys : Platform) (p : Parameters) (before : List Event)
    → StartsAtZero (configured c sys p before)
unfolding configured initial
configured-StartsAtZero (none, said) sys p before = tt
configured-StartsAtZero (some tty, said) sys p before =
    entities_cases StartsAtZero _ sys p (before ++ said) (λ port es. tt) refl

construct-StartsAtZero :
    (make_raw : Termios → Termios) (sys : Platform) (p : Parameters)
    → StartsAtZero (construct make_raw sys p)
unfolding construct configure
construct-StartsAtZero make_raw sys p =
    grind (arith, configured-StartsAtZero (configure_serial make_raw sys (as_int p.baudrate)) sys p)

-- From a constructor that succeeds, through any steps of the read thread, the four callbacks and the
-- timer in any order: `bytes_rx` is the number of all bytes that were read, modulo 2 ^ 64, and these
-- bytes cover 9 for each frame that was handed on, one for each failed checksum, and the bytes that the
-- buffer still holds.
pub Reach-IsBalanced :
    (make_raw : Termios → Termios) (sys : Platform) (p : Parameters)
    → (poll_ms : ℕ) (to_float : ℕ → ℕ) (tty : Device) (period : ℤ) (n : Node) (s : System)
    → construct make_raw sys p ≡ Started.ready tty period n
    → (r : Reach poll_ms to_float (launched n) s) → IsBalanced (bytes_taken r) s.rx
Reach-IsBalanced make_raw sys p poll_ms to_float tty period n s e r =
    let (sound, silent, seq) = constructed make_raw sys p e in
    let zero : n.bytes_rx ≡ 0 = subst StartsAtZero e (construct-StartsAtZero make_raw sys p) in
    run-IsBalanced r (record { counted = omega (arith, zero); covered = ground (arith, silent) })
