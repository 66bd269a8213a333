-- ===== src/Node/System/Runs.antt =====
-- A run of the node as a sequence of actions on the state that the constructor leaves.
use ros2_dji_serial_bridge.Base.{
  ℕ, ◌≡◌, refl, subst, arith, List, [], ◌∷◌, ◌++◌, Option, none, some, All, All-append,
}
use ros2_dji_serial_bridge.Base.Int.{ℤ}
use ros2_dji_serial_bridge.Node.State.{Node, Event, Log}
use ros2_dji_serial_bridge.Node.Callbacks.{previous_pose}
use ros2_dji_serial_bridge.Node.Start.{
  Termios, Device, Platform, Parameters, Started, construct, configure, configured,
  configure_serial, baud_to_speed, initial, ready_lines, as_int, wire_ns,
}
use ros2_dji_serial_bridge.Node.Start.Laws.{entities_cases}
use ros2_dji_serial_bridge.Node.Actions.{IsPlain, Action, Actions, join}
use ros2_dji_serial_bridge.Node.Actions.Inbound.{turn_node, read_turn-Actions}
use ros2_dji_serial_bridge.Node.Actions.Outbound.{
  nav_goal_callback-Actions, cv_target_callback-Actions, relocalize_callback-Actions,
  ping_callback-Actions, print_diagnostics-Actions,
}
use ros2_dji_serial_bridge.Node.System.{System, Step, Reach, launched}
use ros2_dji_serial_bridge.Node.System.Invariant.{IsSound, ReadyWhile, Reach-launched-IsSound}

-- Only plain lines.
abbrev pub IsPlainEvent : Event → Type 0
IsPlainEvent (Event.logged line) = IsPlain line
IsPlainEvent _ = ⊥

pub record IsFresh (n : Node) : Type 0 where
  pub events : All IsPlainEvent n.events
  pub tx_seq : n.tx_seq ≡ 0
  pub previous : previous_pose n ≡ none
  pub status : n.last_odom_status ≡ 0

abbrev StartsFresh : Started → Type 0
StartsFresh (Started.thrown port es) = Unit {0}
StartsFresh (Started.ready tty period n) = IsFresh n

initial-IsFresh : (p : Parameters) (es : List Event) → All IsPlainEvent es → IsFresh (initial p es)
unfolding initial
initial-IsFresh p es h = record { events = h; tx_seq = refl; previous = refl; status = refl }

configured-StartsFresh :
    (c : Option Termios × List Event) (sys : Platform) (p : Parameters) (before : List Event)
    → All IsPlainEvent c.1
    → All IsPlainEvent before
    → StartsFresh (configured c sys p before)
unfolding configured ready_lines
configured-StartsFresh (none, said) sys p before h k = tt
configured-StartsFresh (some tty, said) sys p before h k =
    let ready : All IsPlainEvent (ready_lines p) = (tt, (tt, (tt, (tt, tt)))) in
    entities_cases StartsFresh _ sys p (before ++ said) (λ port es. tt)
      (initial-IsFresh p ((before ++ said) ++ ready_lines p) (
        All-append IsPlainEvent (before ++ said) (ready_lines p)
          (All-append IsPlainEvent before said k h) ready))

configure_serial-plain :
    (make_raw : Termios → Termios) (sys : Platform) (baudrate : ℤ)
    → All IsPlainEvent (configure_serial make_raw sys baudrate).1
unfolding configure_serial baud_to_speed
configure_serial-plain make_raw sys baudrate = ground arith

construct-StartsFresh :
    (make_raw : Termios → Termios) (sys : Platform) (p : Parameters)
    → StartsFresh (construct make_raw sys p)
unfolding construct configure
construct-StartsFresh make_raw sys p =
    let said = configure_serial make_raw sys (as_int p.baudrate) in
    let lines = λ (line : Log). Event.logged line ∷ Event.logged Log.port_opened ∷ [] in
    let plain = configure_serial-plain make_raw sys (as_int p.baudrate) in
    ground (
      arith,
      configured-StartsFresh said sys p (lines Log.accessible) plain (tt, (tt, tt)),
      configured-StartsFresh said sys p (lines Log.no_permission) plain (tt, (tt, tt)),
    )

pub constructed-IsFresh :
    (make_raw : Termios → Termios) (sys : Platform) (p : Parameters)
    → {tty : Device} {period : ℤ} {n : Node} → construct make_raw sys p ≡ Started.ready tty period n
    → IsFresh n
constructed-IsFresh make_raw sys p e = subst StartsFresh e (construct-StartsFresh make_raw sys p)

-- The wire time of a byte is the one of the parameter's baud rate.
abbrev StartsTimed : Parameters → Started → Type 0
StartsTimed p (Started.thrown port es) = Unit {0}
StartsTimed p (Started.ready tty period n) = n.byte_wire_ns ≡ wire_ns p.baudrate

configured-StartsTimed :
    (c : Option Termios × List Event) (sys : Platform) (p : Parameters) (before : List Event)
    → StartsTimed p (configured c sys p before)
unfolding configured initial
configured-StartsTimed (none, said) sys p before = tt
configured-StartsTimed (some tty, said) sys p before =
    entities_cases (StartsTimed p) _ sys p (before ++ said) (λ port es. tt) refl

construct-StartsTimed :
    (make_raw : Termios → Termios) (sys : Platform) (p : Parameters)
    → StartsTimed p (construct make_raw sys p)
unfolding construct configure
construct-StartsTimed make_raw sys p =
    grind (arith, configured-StartsTimed (configure_serial make_raw sys (as_int p.baudrate)) sys p)

pub constructed_timed :
    (make_raw : Termios → Termios) (sys : Platform) (p : Parameters)
    → {tty : Device} {period : ℤ} {n : Node} → construct make_raw sys p ≡ Started.ready tty period n
    → n.byte_wire_ns ≡ wire_ns p.baudrate
constructed_timed make_raw sys p e = subst (StartsTimed p) e (construct-StartsTimed make_raw sys p)

-- One step, from a state with a well-formed buffer.
Step-Actions :
    {poll_ms : ℕ} {to_float : ℕ → ℕ} {s t : System}
    → Step poll_ms to_float s t
    → IsSound s
    → Actions s.rx.node t.rx.node
Step-Actions {poll_ms} {to_float} {s} (Step.read poll t on p e) i =
    let ready = subst (λ b. ReadyWhile b s.rx) on i.ready in
    subst (λ u. Actions s.rx.node (turn_node u)) e
      (read_turn-Actions poll_ms poll s.rx p ready.bytes)
Step-Actions {poll_ms} {to_float} {s} (Step.break poll t on p e) i =
    let ready = subst (λ b. ReadyWhile b s.rx) on i.ready in
    Actions.further
      (subst (λ u. Actions s.rx.node (turn_node u)) e
        (read_turn-Actions poll_ms poll s.rx p ready.bytes))
      (Action.says (Log.thread_exiting t.node.bytes_rx t.node.frames_rx) tt)
Step-Actions {poll_ms} {to_float} {s} (Step.nav_goal write msg) i =
    nav_goal_callback-Actions write to_float msg s.rx.node
Step-Actions {poll_ms} {to_float} {s} (Step.cv_target write msg) i =
    cv_target_callback-Actions write msg s.rx.node
Step-Actions {poll_ms} {to_float} {s} (Step.relocalize write msg) i =
    relocalize_callback-Actions write to_float msg s.rx.node
Step-Actions {poll_ms} {to_float} {s} (Step.ping write msg byte) i =
    ping_callback-Actions write msg s.rx.node byte
Step-Actions {poll_ms} {to_float} {s} Step.timer i = print_diagnostics-Actions s.rx.node

-- Every run from a constructor that succeeds.
pub run-Actions :
    (make_raw : Termios → Termios) (sys : Platform) (p : Parameters)
    → (poll_ms : ℕ) (to_float : ℕ → ℕ) (tty : Device) (period : ℤ) (n : Node) (s : System)
    → construct make_raw sys p ≡ Started.ready tty period n
    → Reach poll_ms to_float (launched n) s
    → Actions n s.rx.node
run-Actions make_raw sys p poll_ms to_float tty period n s e Reach.here = Actions.none_left
run-Actions make_raw sys p poll_ms to_float tty period n s e (Reach.later {t} r st) =
    join (run-Actions make_raw sys p poll_ms to_float tty period n t e r)
      (Step-Actions st (Reach-launched-IsSound make_raw sys p poll_ms to_float tty period n t e r))
