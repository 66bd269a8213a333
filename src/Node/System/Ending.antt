-- ===== src/Node/System/Ending.antt =====
-- The end of the read thread, in a run or in the destructor.
use ros2_dji_serial_bridge.Base.{
  ℕ, ◌+◌, ◌≡◌, refl, subst, sym, ap₂, ◌∙◌, arith, Bool, true, false, List, [], ◌∷◌, ◌++◌, Option,
  some, none, length, if◌then◌else◌,
}
use ros2_dji_serial_bridge.Base.Int.{ℤ}
use ros2_dji_serial_bridge.Node.State.{Node, Event, Log, CvTarget, Ping, PointStamped, emit}
use ros2_dji_serial_bridge.Node.Receive.{Rx}
use ros2_dji_serial_bridge.Node.ReadLoop.{PollResult, Turn, read_turn, read_loop, thread_exit}
use ros2_dji_serial_bridge.Node.Transmit.{send_frame}
use ros2_dji_serial_bridge.Node.Callbacks.{
  nav_goal_callback, cv_target_callback, relocalize_callback, ping_callback,
}
use ros2_dji_serial_bridge.Node.Diagnostics.{print_diagnostics, diagnostics_line}
use ros2_dji_serial_bridge.Node.Start.{
  Termios, Device, Platform, Parameters, Started, Port, construct, configure, configured,
  configure_serial, baud_to_speed, ready_lines, initial, as_int,
}
use ros2_dji_serial_bridge.Node.Start.Laws.{entities_cases}
use ros2_dji_serial_bridge.Node.System.{System, Step, Reach, launched, join_thread, destroy}
use ros2_dji_serial_bridge.Node.System.Exits.{
  exits, exits_more, SameExits, TurnExits, read_turn-SameExits, Left, thread_exit-Left,
}
use ros2_dji_serial_bridge.Node.Tally.{tally, weigh}
use ros2_dji_serial_bridge.Node.System.Balance.{
  IsBalanced, TurnBalanced, turn_bytes, read_turn-balanced, note-IsBalanced,
}
use ros2_dji_serial_bridge.Node.System.Intake.{bytes_taken, Reach-IsBalanced}

-- What the executor's steps leave as it is: the lines of leaving and the counts in them.
record SameEnd (n m : Node) : Type 0 where
  exits : SameExits n m
  bytes : n.bytes_rx ≡ m.bytes_rx
  frames : n.frames_rx ≡ m.frames_rx

SameEnd-Left : (b : Bool) (n m : Node) → SameEnd n m → Left b m → Left b n
SameEnd-Left true n m same h = same.exits ∙ h
SameEnd-Left false n m same h =
    same.exits
    ∙ h
    ∙ sym (ap₂ (λ b f. let pair : List (ℕ × ℕ) = (b, f) ∷ [] in pair) same.bytes same.frames)

module _ (write : List ℕ → Option ℕ) where
  cv_target_callback-SameEnd :
      (msg : CvTarget) (n : Node) → SameEnd (cv_target_callback write msg n) n
  unfolding cv_target_callback send_frame emit exits
  cv_target_callback-SameEnd msg n = grind (arith, exits_more)

  ping_callback-SameEnd : (msg : Ping) (n : Node) → SameEnd (ping_callback write msg n) n
  unfolding ping_callback send_frame emit exits
  ping_callback-SameEnd msg n = grind (arith, exits_more)

  module _ (to_float : ℕ → ℕ) where
    nav_goal_callback-SameEnd :
        (msg : PointStamped) (n : Node) → SameEnd (nav_goal_callback write to_float msg n) n
    unfolding nav_goal_callback send_frame emit exits
    nav_goal_callback-SameEnd msg n = grind (arith, exits_more)

    relocalize_callback-SameEnd :
        (msg : PointStamped) (n : Node) → SameEnd (relocalize_callback write to_float msg n) n
    unfolding relocalize_callback send_frame emit exits
    relocalize_callback-SameEnd msg n = grind (arith, exits_more)

diagnostics_line-exits : (n : Node) → exits (Event.logged (diagnostics_line n) ∷ []) ≡ []
unfolding diagnostics_line exits
diagnostics_line-exits n = ground arith

print_diagnostics-SameEnd : (n : Node) → SameEnd (print_diagnostics n) n
unfolding print_diagnostics emit
print_diagnostics-SameEnd n = record {
  exits = exits_more n.events _ (diagnostics_line-exits n);
  bytes = refl;
  frames = refl;
}

turned :
    (poll_ms : ℕ) (poll : PollResult) (s t : Rx) (b : Bool)
    → b ≡ true
    → Left b s.node
    → TurnExits [] (read_turn poll_ms poll s)
turned poll_ms poll s t b on h =
    subst (λ es. TurnExits es (read_turn poll_ms poll s)) (subst (λ c. Left c s.node) on h)
      (read_turn-SameExits poll_ms poll s)

Step-Left :
    {poll_ms : ℕ} {to_float : ℕ → ℕ} {s t : System}
    → Step poll_ms to_float s t
    → Left s.reading s.rx.node
    → Left t.reading t.rx.node
Step-Left {poll_ms} {to_float} {s} (Step.read poll t on p e) h =
    subst (λ b. Left b t.node) (sym on)
      (subst (TurnExits []) e (turned poll_ms poll s.rx t s.reading on h))
Step-Left {poll_ms} {to_float} {s} (Step.break poll t on p e) h =
    thread_exit-Left t (subst (TurnExits []) e (turned poll_ms poll s.rx t s.reading on h))
Step-Left {poll_ms} {to_float} {s} (Step.nav_goal write msg) h =
    SameEnd-Left s.reading _ _ (nav_goal_callback-SameEnd write to_float msg s.rx.node) h
Step-Left {poll_ms} {to_float} {s} (Step.cv_target write msg) h =
    SameEnd-Left s.reading _ _ (cv_target_callback-SameEnd write msg s.rx.node) h
Step-Left {poll_ms} {to_float} {s} (Step.relocalize write msg) h =
    SameEnd-Left s.reading _ _ (relocalize_callback-SameEnd write to_float msg s.rx.node) h
Step-Left {poll_ms} {to_float} {s} (Step.ping write msg byte) h =
    SameEnd-Left s.reading _ _ (ping_callback-SameEnd write msg s.rx.node) h
Step-Left {poll_ms} {to_float} {s} Step.timer h =
    SameEnd-Left s.reading _ _ (print_diagnostics-SameEnd s.rx.node) h

Reach-Left :
    {poll_ms : ℕ} {to_float : ℕ → ℕ} {s t : System}
    → Left s.reading s.rx.node
    → Reach poll_ms to_float s t
    → Left t.reading t.rx.node
Reach-Left h Reach.here = h
Reach-Left h (Reach.later r st) = Step-Left st (Reach-Left h r)

configure_serial-exits :
    (make_raw : Termios → Termios) (sys : Platform) (baudrate : ℤ)
    → exits (configure_serial make_raw sys baudrate).1 ≡ []
unfolding configure_serial baud_to_speed exits
configure_serial-exits make_raw sys baudrate = ground arith

-- The thread has not left before it starts.
abbrev StartsWithin : Started → Type 0
StartsWithin (Started.thrown port es) = Unit {0}
StartsWithin (Started.ready tty period n) = exits n.events ≡ []

configured-StartsWithin :
    (c : Option Termios × List Event) (sys : Platform) (p : Parameters) (before : List Event)
    → exits c.1 ≡ []
    → exits before ≡ []
    → StartsWithin (configured c sys p before)
unfolding configured initial
configured-StartsWithin (none, said) sys p before h k = tt
configured-StartsWithin (some tty, said) sys p before h k =
    entities_cases StartsWithin _ sys p (before ++ said) (λ port es. tt)
      (exits_more (before ++ said) (ready_lines p) (unfold exits ready_lines in refl)
        ∙ exits_more before said h
        ∙ k)

opening_exits :
    (b : Bool)
    → exits (
        Event.logged (if b then Log.accessible else Log.no_permission)
        ∷ Event.logged Log.port_opened
        ∷ [])
      ≡ []
unfolding exits
opening_exits true = refl
opening_exits false = refl

construct-StartsWithin :
    (make_raw : Termios → Termios) (sys : Platform) (p : Parameters)
    → StartsWithin (construct make_raw sys p)
unfolding construct configure
construct-StartsWithin make_raw sys p =
    let line = if sys.accessible then Log.accessible else Log.no_permission in
    let said = configure_serial make_raw sys (as_int p.baudrate) in
    ground (
      arith,
      configured-StartsWithin said sys p (Event.logged line ∷ Event.logged Log.port_opened ∷ [])
          (configure_serial-exits make_raw sys (as_int p.baudrate)) (opening_exits sys.accessible),
    )

-- The destructor, once the thread has left or not.
abbrev pub last_bytes : Option PollResult → Bool → ℕ
last_bytes (some poll) true = length (turn_bytes poll)
last_bytes _ _ = 0

-- The thread has left once, and its line has the counts that are the last; the bytes are all that were read.
pub record HasEnded (bytes : ℕ) (s : Rx) : Type 0 where
  pub left : Left false s.node
  pub counted : IsBalanced bytes s

leave-HasEnded :
    (bytes : ℕ) (s : Rx) → Left true s.node → IsBalanced bytes s → HasEnded bytes (thread_exit s)
leave-HasEnded bytes s h b = record {
  left = thread_exit-Left s h;
  counted = note-IsBalanced _ bytes s (unfold tally weigh in refl) b;
}

leave_turn-HasEnded :
    (poll_ms bytes : ℕ) (t : Turn)
    → TurnExits [] t
    → TurnBalanced bytes t
    → HasEnded bytes
        (elim t [ Turn.next s ↦ read_loop poll_ms [] s | Turn.break s ↦ thread_exit s ])
unfolding read_loop
leave_turn-HasEnded poll_ms bytes (Turn.next s) h b = leave-HasEnded bytes s h b
leave_turn-HasEnded poll_ms bytes (Turn.break s) h b = leave-HasEnded bytes s h b

reading-HasEnded :
    (poll_ms : ℕ) (turn : Option PollResult) (bytes : ℕ) (s : Rx)
    → Left true s.node
    → IsBalanced bytes s
    → HasEnded
        (bytes + last_bytes turn true)
        (join_thread poll_ms turn (record { rx = s; reading = true }))
unfolding join_thread read_loop
reading-HasEnded poll_ms none bytes s h b =
    let same : bytes ≡ bytes + 0 = omega arith in
    subst (λ k. HasEnded k (thread_exit s)) same (leave-HasEnded bytes s h b)
reading-HasEnded poll_ms (some poll) bytes s h b =
    leave_turn-HasEnded poll_ms (bytes + length (turn_bytes poll)) (read_turn poll_ms poll s)
      (turned poll_ms poll s s true refl h) (read_turn-balanced poll_ms poll bytes s b)

join_thread-HasEnded :
    (poll_ms : ℕ) (turn : Option PollResult) (reading : Bool) (bytes : ℕ) (s : Rx)
    → Left reading s.node
    → IsBalanced bytes s
    → HasEnded
        (bytes + last_bytes turn reading)
        (join_thread poll_ms turn (record { rx = s; reading = reading }))
unfolding join_thread
join_thread-HasEnded poll_ms turn true bytes s h b = reading-HasEnded poll_ms turn bytes s h b
join_thread-HasEnded poll_ms none false bytes s h b =
    let same : bytes ≡ bytes + 0 = omega arith in
    subst (λ k. HasEnded k s) same (record { left = h; counted = b })
join_thread-HasEnded poll_ms (some poll) false bytes s h b =
    let same : bytes ≡ bytes + 0 = omega arith in
    subst (λ k. HasEnded k s) same (record { left = h; counted = b })

-- From a constructor that succeeds, through any steps of the read thread, the four callbacks and the
-- timer in any order, a step at a time: as long as the read thread reads, no line of its leaving was
-- logged; and once it has left, or the destructor has joined it, in the middle of a turn or not, exactly one
-- was, with the counts of bytes and frames that are the last ones. That count of bytes is the number
-- of all bytes read, those of the turn that the destructor waited for included, modulo 2 ^ 64, and they
-- cover 9 for each frame that was handed on, one for each failed checksum, and the bytes still buffered.
pub Reach-destroy :
    (make_raw : Termios → Termios) (sys : Platform) (p : Parameters)
    → (poll_ms : ℕ) (to_float : ℕ → ℕ) (tty : Device) (period : ℤ) (n : Node) (s : System)
    → (turn : Option PollResult) (fd : Port) → construct make_raw sys p ≡ Started.ready tty period n
    → (r : Reach poll_ms to_float (launched n) s)
    → Left s.reading s.rx.node
      × HasEnded (bytes_taken r + last_bytes turn s.reading) (destroy poll_ms turn s fd).0
unfolding destroy
Reach-destroy make_raw sys p poll_ms to_float tty period n s turn fd e r =
    let within = subst StartsWithin e (construct-StartsWithin make_raw sys p) in
    let left = Reach-Left within r in
    let balanced = Reach-IsBalanced make_raw sys p poll_ms to_float tty period n s e r in
    (left, join_thread-HasEnded poll_ms turn s.reading (bytes_taken r) s.rx left balanced)
