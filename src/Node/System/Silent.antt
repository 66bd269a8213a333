-- ===== src/Node/System/Silent.antt =====
-- Every counter of the node over a run: those of events, the bytes that were read, and the silent
-- polls.
use ros2_dji_serial_bridge.Base.{
  ℕ, ◌+◌, ◌≡◌, refl, subst, ◌∙◌, arith, Bool, true, false, List, [], ◌∷◌, ◌++◌, Option, some, none,
  some_inverse, length, take, drop, get_or, ◌-◌, lt→ltb,
}
use ros2_dji_serial_bridge.Base.Int.{ℤ, pos}
use ros2_dji_serial_bridge.Base.Bytes.{u64}
use ros2_dji_serial_bridge.Node.State.{Node, Event, CvTarget, Ping, PointStamped, emit}
use ros2_dji_serial_bridge.Node.Handlers.{
  handle_pose, handle_ref_sys, handle_ping, dispatch_incoming,
}
use ros2_dji_serial_bridge.Node.Receive.{
  Verdict, Rx, act, drop_front, deliver, rx_turn, scan, process_rx_buffer, total_len, frame_stamp,
}
use ros2_dji_serial_bridge.Node.Receive.Loop.{process_induction, process_stop, process_turn}
use ros2_dji_serial_bridge.Node.Receive.Chunks.{arrive}
use ros2_dji_serial_bridge.Node.ReadLoop.{
  ReadResult, PollResult, Turn, silent_poll, take_chunk, after_read, read_input, read_turn,
}
use ros2_dji_serial_bridge.Node.Transmit.{send_frame}
use ros2_dji_serial_bridge.Node.Callbacks.{
  nav_goal_callback, cv_target_callback, relocalize_callback, ping_callback,
}
use ros2_dji_serial_bridge.Node.Diagnostics.{print_diagnostics}
use ros2_dji_serial_bridge.Node.Start.{
  Termios, Device, Platform, Parameters, Started, construct, configure, configured,
  configure_serial, initial, as_int,
}
use ros2_dji_serial_bridge.Node.Start.Laws.{entities_cases}
use ros2_dji_serial_bridge.Node.System.{System, Step, Reach, launched}
use ros2_dji_serial_bridge.Node.System.Invariant.{IsSound, Reach-launched-IsSound}
use ros2_dji_serial_bridge.Node.System.Intake.{bytes_taken, Reach-IsBalanced}

-- The same number of silent polls.
abbrev SameSilence : Node → Node → Type 0
SameSilence n m = n.silent_polls ≡ m.silent_polls

dispatch-SameSilence :
    (msg_type : ℕ) (payload : List ℕ) (len : ℕ) (stamp : ℤ) (n : Node)
    → SameSilence (dispatch_incoming msg_type payload len stamp n) n
unfolding dispatch_incoming handle_pose handle_ref_sys handle_ping
dispatch-SameSilence msg_type payload len stamp n = ground arith

act-SameSilence : (v : Verdict) (s t : Rx) → act v s ≡ some t → SameSilence t.node s.node
unfolding act drop_front emit deliver
act-SameSilence Verdict.too_short s t p = cc
act-SameSilence Verdict.partial s t p = cc
act-SameSilence Verdict.not_head s t p = ground arith
act-SameSilence (Verdict.bad_crc8 x hdr) s t p = ground arith
act-SameSilence (Verdict.bad_crc16 x y hdr) s t p = ground arith
act-SameSilence (Verdict.complete hdr) s t p =
    let one =
      dispatch-SameSilence hdr.msg_type (take hdr.data_length (drop 7 s.buf)) hdr.data_length
        (frame_stamp (get_or s.read_ns (total_len hdr - 1) (pos 0)) (total_len hdr) s.node)
        (record s.node { frames_rx = u64 (s.node.frames_rx + 1) }) in
    subst (λ (u : Rx). SameSilence u.node s.node) (some_inverse _ t p) one

process-SameSilence : (s : Rx) → SameSilence (process_rx_buffer s).node s.node
process-SameSilence =
    process_induction (λ s. SameSilence (process_rx_buffer s).node s.node)
      (λ s h. rw (process_stop s h) refl)
      (λ s t p ih.
        rw (process_turn s t p)
          (ih ∙ act-SameSilence (scan s.node.enforce_crc s.buf) s t (unfold rx_turn in p)))

-- The silent polls behind a turn: one more at a timeout, none once a `read` gave bytes.
abbrev after_result : ReadResult → ℕ → ℕ
after_result (ReadResult.bytes (b ∷ bytes)) k = 0
after_result _ k = k

unfoldable pub silence_after : PollResult → ℕ → ℕ
silence_after PollResult.timeout k = k + 1
silence_after (PollResult.events true trouble result now) k = after_result result k
silence_after _ k = k

-- The timeouts of a run since the last `read` that gave bytes.
unfoldable pub silent_turns :
    {poll_ms : ℕ} {to_float : ℕ → ℕ} {s t : System} → Reach poll_ms to_float s t → ℕ
unfolding silence_after
silent_turns Reach.here = 0
silent_turns (Reach.later r (Step.read poll t on p e)) = silence_after poll (silent_turns r)
silent_turns (Reach.later r (Step.break poll t on p e)) = silence_after poll (silent_turns r)
silent_turns (Reach.later r _) = silent_turns r

-- `k` silent polls were counted.
abbrev Silent : ℕ → Node → Type 0
Silent k n = n.silent_polls ≡ u64 k

abbrev TurnSilent : ℕ → Turn → Type 0
TurnSilent k (Turn.next s) = Silent k s.node
TurnSilent k (Turn.break s) = Silent k s.node

after_read-Silent :
    (trouble : Bool) (k : ℕ) (s : Rx) → Silent k s.node → TurnSilent k (after_read trouble s)
unfolding after_read emit
after_read-Silent true k s h = h
after_read-Silent false k s h = process-SameSilence s ∙ h

take_chunk-Silent : (chunk : List ℕ) (now : ℤ) (s : Rx) → Silent 0 (take_chunk chunk now s).node
unfolding take_chunk arrive emit
take_chunk-Silent chunk now s = ground arith

read_input-Silent :
    (trouble : Bool) (result : ReadResult) (now : ℤ) (k : ℕ) (s : Rx)
    → Silent k s.node
    → TurnSilent (after_result result k) (read_input trouble result now s)
unfolding read_input emit
read_input-Silent trouble (ReadResult.bytes []) now k s h = after_read-Silent trouble k s h
read_input-Silent trouble (ReadResult.bytes (c ∷ chunk)) now k s h =
    rw (lt→ltb 0 (length (c ∷ chunk)) (omega arith)) (
      after_read-Silent trouble 0 (take_chunk (c ∷ chunk) now s)
        (take_chunk-Silent (c ∷ chunk) now s))
read_input-Silent trouble ReadResult.again now k s h = after_read-Silent trouble k s h
read_input-Silent trouble ReadResult.failed now k s h = h

silent_poll-Silent :
    (poll_ms k : ℕ) (n : Node) → Silent k n → Silent (k + 1) (silent_poll poll_ms n)
unfolding silent_poll emit
silent_poll-Silent poll_ms k n h = ground arith

read_turn-Silent :
    (poll_ms : ℕ) (poll : PollResult) (k : ℕ) (s : Rx)
    → Silent k s.node
    → TurnSilent (silence_after poll k) (read_turn poll_ms poll s)
unfolding read_turn silence_after emit
read_turn-Silent poll_ms PollResult.interrupted k s h = h
read_turn-Silent poll_ms PollResult.error k s h = h
read_turn-Silent poll_ms PollResult.timeout k s h = silent_poll-Silent poll_ms k s.node h
read_turn-Silent poll_ms (PollResult.events true trouble result now) k s h =
    read_input-Silent trouble result now k s h
read_turn-Silent poll_ms (PollResult.events false trouble result now) k s h =
    after_read-Silent trouble k s h

print_diagnostics-SameSilence : (n : Node) → SameSilence (print_diagnostics n) n
unfolding print_diagnostics emit
print_diagnostics-SameSilence n = refl

module _ (write : List ℕ → Option ℕ) where
  cv_target_callback-SameSilence :
      (msg : CvTarget) (n : Node) → SameSilence (cv_target_callback write msg n) n
  unfolding cv_target_callback send_frame emit
  cv_target_callback-SameSilence msg n = ground arith

  ping_callback-SameSilence : (msg : Ping) (n : Node) → SameSilence (ping_callback write msg n) n
  unfolding ping_callback send_frame emit
  ping_callback-SameSilence msg n = ground arith

  module _ (to_float : ℕ → ℕ) where
    nav_goal_callback-SameSilence :
        (msg : PointStamped) (n : Node) → SameSilence (nav_goal_callback write to_float msg n) n
    unfolding nav_goal_callback send_frame emit
    nav_goal_callback-SameSilence msg n = ground arith

    relocalize_callback-SameSilence :
        (msg : PointStamped) (n : Node) → SameSilence (relocalize_callback write to_float msg n) n
    unfolding relocalize_callback send_frame emit
    relocalize_callback-SameSilence msg n = ground arith

module _ {poll_ms : ℕ} {to_float : ℕ → ℕ} {s : System} where
  run-Silent :
      {t : System} (r : Reach poll_ms to_float s t)
      → Silent 0 s.rx.node
      → Silent (silent_turns r) t.rx.node
  unfolding silent_turns emit
  run-Silent Reach.here h = h
  run-Silent (Reach.later {t} r (Step.read poll u on p e)) h =
      subst (TurnSilent (silence_after poll (silent_turns r))) e
        (read_turn-Silent poll_ms poll (silent_turns r) t.rx (run-Silent r h))
  run-Silent (Reach.later {t} r (Step.break poll u on p e)) h =
      subst (TurnSilent (silence_after poll (silent_turns r))) e
        (read_turn-Silent poll_ms poll (silent_turns r) t.rx (run-Silent r h))
  run-Silent (Reach.later {t} r (Step.nav_goal write msg)) h =
      nav_goal_callback-SameSilence write to_float msg t.rx.node ∙ run-Silent r h
  run-Silent (Reach.later {t} r (Step.cv_target write msg)) h =
      cv_target_callback-SameSilence write msg t.rx.node ∙ run-Silent r h
  run-Silent (Reach.later {t} r (Step.relocalize write msg)) h =
      relocalize_callback-SameSilence write to_float msg t.rx.node ∙ run-Silent r h
  run-Silent (Reach.later {t} r (Step.ping write msg byte)) h =
      ping_callback-SameSilence write msg t.rx.node ∙ run-Silent r h
  run-Silent (Reach.later {t} r Step.timer) h =
      print_diagnostics-SameSilence t.rx.node ∙ run-Silent r h

-- No poll was silent before the threads start.
abbrev StartsSilent : Started → Type 0
StartsSilent (Started.thrown port es) = Unit {0}
StartsSilent (Started.ready tty period n) = n.silent_polls ≡ 0

configured-StartsSilent :
    (c : Option Termios × List Event) (sys : Platform) (p : Parameters) (before : List Event)
    → StartsSilent (configured c sys p before)
unfolding configured initial
configured-StartsSilent (none, said) sys p before = tt
configured-StartsSilent (some tty, said) sys p before =
    entities_cases StartsSilent _ sys p (before ++ said) (λ port es. tt) refl

construct-StartsSilent :
    (make_raw : Termios → Termios) (sys : Platform) (p : Parameters)
    → StartsSilent (construct make_raw sys p)
unfolding construct configure
construct-StartsSilent make_raw sys p =
    grind (arith, configured-StartsSilent (configure_serial make_raw sys (as_int p.baudrate)) sys p)

-- Every counter is right after a run that read `bytes` bytes and ended in `silent` timeouts, and the read
-- thread's buffer is well formed.
pub record IsCounted (bytes silent : ℕ) (s : System) : Type 0 where
  pub sound : IsSound s
  pub bytes_rx : s.rx.node.bytes_rx ≡ u64 bytes
  pub silent_polls : s.rx.node.silent_polls ≡ u64 silent

-- From a constructor that succeeds, through any steps of the read thread, the four callbacks and the
-- timer in any order, with anything that `poll`, `read` (at most 256 bytes) and `write` may give: the
-- counters of frames, failed checksums, published poses, referee messages and pings, and of frames
-- sent per message type equal the number of their events modulo 2 ^ 64, and the sequence number that
-- of all frames handed to `write` modulo 256; `bytes_rx` is the number of all bytes read and
-- `silent_polls` that of the timeouts since the last `read` that gave bytes, modulo 2 ^ 64; the flag of
-- a known pose says whether a pose was published; and while the thread reads, the buffer and
-- its times have one length, the buffer holds bytes, and fewer than 65544 of them.
pub Reach-IsCounted :
    (make_raw : Termios → Termios) (sys : Platform) (p : Parameters)
    → (poll_ms : ℕ) (to_float : ℕ → ℕ) (tty : Device) (period : ℤ) (n : Node) (s : System)
    → construct make_raw sys p ≡ Started.ready tty period n
    → (r : Reach poll_ms to_float (launched n) s) → IsCounted (bytes_taken r) (silent_turns r) s
Reach-IsCounted make_raw sys p poll_ms to_float tty period n s e r =
    let zero : n.silent_polls ≡ 0 = subst StartsSilent e (construct-StartsSilent make_raw sys p) in
    record {
      sound = Reach-launched-IsSound make_raw sys p poll_ms to_float tty period n s e r;
      bytes_rx = (Reach-IsBalanced make_raw sys p poll_ms to_float tty period n s e r).counted;
      silent_polls = run-Silent r (omega (arith, zero));
    }
