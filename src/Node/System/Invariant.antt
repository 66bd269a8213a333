-- ===== src/Node/System/Invariant.antt =====
-- What holds in every state that the node reaches.
use ros2_dji_serial_bridge.Base.{
  sym, ℕ, ◌≡◌, refl, arith, Bool, true, false, List, [], ◌∷◌, ◌++◌, Option, some, none, subst,
  if◌then◌else◌,
}
use ros2_dji_serial_bridge.Node.State.{Node, Event, Log}
use ros2_dji_serial_bridge.Node.Tally.{tally, tally-append, weigh, nothing}
use ros2_dji_serial_bridge.Node.Consistent.{IsConsistent, emit-IsConsistent}
use ros2_dji_serial_bridge.Node.Receive.{Rx}
use ros2_dji_serial_bridge.Node.ReadLoop.{thread_exit}
use ros2_dji_serial_bridge.Node.ReadLoop.Laws.{IsReady, TurnKeeps, read_turn-keeps}
use ros2_dji_serial_bridge.Node.Callbacks.Laws.{
  nav_goal_callback-IsConsistent, cv_target_callback-IsConsistent, relocalize_callback-IsConsistent,
  ping_callback-IsConsistent,
}
use ros2_dji_serial_bridge.Base.Int.{ℤ}
use ros2_dji_serial_bridge.Node.Callbacks.{
  nav_goal_callback, cv_target_callback, relocalize_callback, ping_callback,
}
use ros2_dji_serial_bridge.Node.Diagnostics.{print_diagnostics, diagnostics_line}
use ros2_dji_serial_bridge.Node.Start.{
  Device, Platform, Termios, Parameters, Started, construct, configure, initial, as_int,
  ready_lines, configured, configure_serial, baud_to_speed,
}
use ros2_dji_serial_bridge.Node.Start.Laws.{entities_cases}
use ros2_dji_serial_bridge.Node.System.{System, Step, Reach, launched, on_system}

-- The read thread's own state, as long as the thread reads.
abbrev pub ReadyWhile : Bool → Rx → Type 0
ReadyWhile true s = IsReady s
ReadyWhile false s = Unit {0}

-- The counters are right, and while the thread reads its buffer is well formed and bounded.
pub record IsSound (s : System) : Type 0 where
  pub consistent : IsConsistent s.rx.node
  pub ready : ReadyWhile s.reading s.rx

diagnostics_line-silent : (n : Node) → tally (Event.logged (diagnostics_line n) ∷ []) ≡ nothing
unfolding diagnostics_line tally weigh
diagnostics_line-silent n = ground arith

print_diagnostics-IsConsistent : (n : Node) → IsConsistent n → IsConsistent (print_diagnostics n)
unfolding print_diagnostics
print_diagnostics-IsConsistent n c =
    emit-IsConsistent (Event.logged (diagnostics_line n) ∷ []) n (diagnostics_line-silent n) c

on_node-ReadyWhile :
    (f : Node → Node) (b : Bool) (s : Rx)
    → (IsConsistent s.node → IsConsistent (f s.node))
    → ReadyWhile b s
    → ReadyWhile b (record s { node = f s.node })
on_node-ReadyWhile f true s keep r = record {
  parallel = r.parallel;
  bytes = r.bytes;
  bounded = r.bounded;
  consistent = keep r.consistent;
}
on_node-ReadyWhile f false s keep r = tt

on_system-IsSound :
    (f : Node → Node) (s : System)
    → (IsConsistent s.rx.node → IsConsistent (f s.rx.node))
    → IsSound s
    → IsSound (on_system f s)
on_system-IsSound f s keep i = record {
  consistent = keep i.consistent;
  ready = on_node-ReadyWhile f s.reading s.rx keep i.ready;
}

pub thread_exit-IsConsistent : (s : Rx) → IsConsistent s.node → IsConsistent (thread_exit s).node
thread_exit-IsConsistent s c =
    emit-IsConsistent (Event.logged (Log.thread_exiting s.node.bytes_rx s.node.frames_rx) ∷ [])
      s.node (unfold tally weigh in refl) c

Step-IsSound :
    {poll_ms : ℕ} {to_float : ℕ → ℕ} {s t : System}
    → Step poll_ms to_float s t
    → IsSound s
    → IsSound t
Step-IsSound {poll_ms} {to_float} {s} (Step.read poll t on p e) i =
    let was = subst (λ b. ReadyWhile b s.rx) on i.ready in
    let kept = subst TurnKeeps e (read_turn-keeps poll_ms poll s.rx p was) in
    record { consistent = kept.consistent; ready = subst (λ b. ReadyWhile b t) (sym on) kept }
Step-IsSound {poll_ms} {to_float} {s} (Step.break poll t on p e) i =
    let was = subst (λ b. ReadyWhile b s.rx) on i.ready in
    let kept = subst TurnKeeps e (read_turn-keeps poll_ms poll s.rx p was) in
    record { consistent = thread_exit-IsConsistent t kept; ready = tt }
Step-IsSound {poll_ms} {to_float} {s} (Step.nav_goal write msg) i =
    on_system-IsSound (nav_goal_callback write to_float msg) s
      (nav_goal_callback-IsConsistent write to_float msg s.rx.node) i
Step-IsSound {poll_ms} {to_float} {s} (Step.cv_target write msg) i =
    on_system-IsSound (cv_target_callback write msg) s
      (cv_target_callback-IsConsistent write msg s.rx.node) i
Step-IsSound {poll_ms} {to_float} {s} (Step.relocalize write msg) i =
    on_system-IsSound (relocalize_callback write to_float msg) s
      (relocalize_callback-IsConsistent write to_float msg s.rx.node) i
Step-IsSound {poll_ms} {to_float} {s} (Step.ping write msg byte) i =
    on_system-IsSound (ping_callback write msg) s (ping_callback-IsConsistent write msg s.rx.node) i
Step-IsSound {poll_ms} {to_float} {s} Step.timer i =
    on_system-IsSound print_diagnostics s (print_diagnostics-IsConsistent s.rx.node) i

Reach-IsSound :
    {poll_ms : ℕ} {to_float : ℕ → ℕ} {s t : System}
    → IsSound s
    → Reach poll_ms to_float s t
    → IsSound t
Reach-IsSound i Reach.here = i
Reach-IsSound i (Reach.later r st) = Step-IsSound st (Reach-IsSound i r)

initial-IsConsistent :
    (p : Parameters) (es : List Event) → tally es ≡ nothing → IsConsistent (initial p es)
unfolding initial
initial-IsConsistent p es h = ground arith

launched-IsSound : (n : Node) → IsConsistent n → IsSound (launched n)
launched-IsSound n c = record {
  consistent = c;
  ready = record { parallel = refl; bytes = tt; bounded = omega arith; consistent = c };
}

-- The log lines of the constructor count for nothing.
abbrev StartsConsistent : Started → Type 0
StartsConsistent (Started.thrown port es) = Unit {0}
StartsConsistent (Started.ready tty period n) =
    IsConsistent n × (tally n.events ≡ nothing) × (n.tx_seq ≡ 0)

configure_serial-silent :
    (make_raw : Termios → Termios) (sys : Platform) (baudrate : ℤ)
    → tally (configure_serial make_raw sys baudrate).1 ≡ nothing
unfolding configure_serial baud_to_speed tally weigh
configure_serial-silent make_raw sys baudrate = ground arith

ready_lines-silent : (p : Parameters) → tally (ready_lines p) ≡ nothing
unfolding ready_lines tally weigh
ready_lines-silent p = refl

configured-starts :
    (c : Option Termios × List Event) (sys : Platform) (p : Parameters) (before : List Event)
    → tally c.1 ≡ nothing
    → tally before ≡ nothing
    → StartsConsistent (configured c sys p before)
unfolding configured
configured-starts (none, said) sys p before h k = tt
configured-starts (some tty, said) sys p before h k =
    entities_cases StartsConsistent _ sys p (before ++ said) (λ port es. tt)
      (
        initial-IsConsistent p ((before ++ said) ++ ready_lines p) silent,
        unfold initial in silent,
        unfold initial in refl,
      )
  where
    silent : tally ((before ++ said) ++ ready_lines p) ≡ nothing
    silent = ground (
      arith,
      tally-append (before ++ said) (ready_lines p),
      tally-append before said,
      ready_lines-silent p,
    )

configure-starts :
    (make_raw : Termios → Termios) (sys : Platform) (p : Parameters) (before : List Event)
    → tally before ≡ nothing
    → StartsConsistent (configure make_raw sys p before)
unfolding configure
configure-starts make_raw sys p before h =
    configured-starts (configure_serial make_raw sys (as_int p.baudrate)) sys p before
      (configure_serial-silent make_raw sys (as_int p.baudrate)) h

construct-starts :
    (make_raw : Termios → Termios) (sys : Platform) (p : Parameters)
    → StartsConsistent (construct make_raw sys p)
unfolding construct tally weigh
construct-starts make_raw sys p =
    let line = if sys.accessible then Log.accessible else Log.no_permission in
    ground (
      arith,
      configure-starts make_raw sys p (Event.logged line ∷ Event.logged Log.port_opened ∷ []),
    )

pub constructed :
    (make_raw : Termios → Termios) (sys : Platform) (p : Parameters)
    → {tty : Device} {period : ℤ} {n : Node} → construct make_raw sys p ≡ Started.ready tty period n
    → IsConsistent n × (tally n.events ≡ nothing) × (n.tx_seq ≡ 0)
constructed make_raw sys p e = subst StartsConsistent e (construct-starts make_raw sys p)

-- From a constructor that succeeds, through any steps of the read thread, the four callbacks and the
-- timer in any order, with anything that `poll`, `read` (at most 256 bytes) and `write` may give: every counter equals
-- the number of its events modulo its width, and while the thread reads, the buffer and its times
-- have one length, the buffer holds bytes, and fewer than 65544 of them.
pub Reach-launched-IsSound :
    (make_raw : Termios → Termios) (sys : Platform) (p : Parameters)
    → (poll_ms : ℕ) (to_float : ℕ → ℕ) (tty : Device) (period : ℤ) (n : Node) (s : System)
    → construct make_raw sys p ≡ Started.ready tty period n
    → Reach poll_ms to_float (launched n) s
    → IsSound s
Reach-launched-IsSound make_raw sys p poll_ms to_float tty period n s e r =
    Reach-IsSound (launched-IsSound n (constructed make_raw sys p e).0) r
