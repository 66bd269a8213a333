-- ===== src/Node/System/Exits.antt =====
-- The lines by which the read thread leaves: nothing in a turn of the loop logs one.
use ros2_dji_serial_bridge.Base.{
  ℕ, ◌+◌, ◌≡◌, refl, subst, ap, ◌∙◌, arith, Bool, true, false, List, [], ◌∷◌, ◌++◌, append-nil,
  some, some_inverse, length, take, drop, get_or, ◌-◌, lt→ltb,
}
use ros2_dji_serial_bridge.Base.Int.{ℤ, pos}
use ros2_dji_serial_bridge.Base.Bytes.{u64}
use ros2_dji_serial_bridge.Node.State.{Node, Event, Log, emit}
use ros2_dji_serial_bridge.Node.Handlers.{
  odom_log, first_pose_log, handle_pose, handle_ref_sys, handle_ping, dispatch_incoming,
}
use ros2_dji_serial_bridge.Protocol.{PosePayload}
use ros2_dji_serial_bridge.Node.Receive.{
  Verdict, Rx, act, drop_front, deliver, rx_turn, scan, process_rx_buffer, total_len, frame_stamp,
}
use ros2_dji_serial_bridge.Node.Receive.Loop.{process_induction, process_stop, process_turn}
use ros2_dji_serial_bridge.Node.Receive.Chunks.{arrive}
use ros2_dji_serial_bridge.Node.ReadLoop.{
  ReadResult, PollResult, Turn, silent_poll, take_chunk, after_read, read_input, read_turn,
  thread_exit,
}

-- The counts of bytes and frames in the lines that the read thread leaves by.
unfoldable pub exits : List Event → List (ℕ × ℕ)
exits [] = []
exits (Event.logged (Log.thread_exiting bytes frames) ∷ es) = (bytes, frames) ∷ exits es
exits (_ ∷ es) = exits es

pub exits-append : (xs ys : List Event) → exits (xs ++ ys) ≡ exits xs ++ exits ys
unfolding exits
exits-append [] ys = refl
exits-append (Event.logged (Log.thread_exiting bytes frames) ∷ es) ys =
    ap (λ l. (bytes, frames) ∷ l) (exits-append es ys)
exits-append (e ∷ es) ys = exits-append es ys

-- No line of leaving more.
abbrev pub SameExits : Node → Node → Type 0
SameExits n m = exits n.events ≡ exits m.events

exits-odom_log : (previous status : ℕ) → exits (odom_log previous status) ≡ []
unfolding odom_log exits
exits-odom_log previous status = ground arith

exits-first_pose_log : (count : ℕ) (raw : PosePayload) → exits (first_pose_log count raw) ≡ []
unfolding first_pose_log exits
exits-first_pose_log count raw = ground arith

pub exits_more : (es more : List Event) → exits more ≡ [] → exits (es ++ more) ≡ exits es
exits_more es more h = exits-append es more ∙ ap (λ l. exits es ++ l) h ∙ append-nil (exits es)

handle_pose-SameExits :
    (payload : List ℕ) (len : ℕ) (stamp : ℤ) (n : Node)
    → SameExits (handle_pose payload len stamp n) n
unfolding handle_pose exits
handle_pose-SameExits payload len stamp n =
    grind (arith, exits_more, exits-append, exits-odom_log, exits-first_pose_log)

handle_ref_sys-SameExits :
    (payload : List ℕ) (len : ℕ) (stamp : ℤ) (n : Node)
    → SameExits (handle_ref_sys payload len stamp n) n
unfolding handle_ref_sys exits
handle_ref_sys-SameExits payload len stamp n = grind (arith, exits_more)

handle_ping-SameExits :
    (payload : List ℕ) (len : ℕ) (stamp : ℤ) (n : Node)
    → SameExits (handle_ping payload len stamp n) n
unfolding handle_ping exits
handle_ping-SameExits payload len stamp n = grind (arith, exits_more)

dispatch-SameExits :
    (msg_type : ℕ) (payload : List ℕ) (len : ℕ) (stamp : ℤ) (n : Node)
    → SameExits (dispatch_incoming msg_type payload len stamp n) n
unfolding dispatch_incoming exits
dispatch-SameExits msg_type payload len stamp n =
    grind
      (arith, exits_more, handle_pose-SameExits, handle_ref_sys-SameExits, handle_ping-SameExits)

act-SameExits : (v : Verdict) (s t : Rx) → act v s ≡ some t → SameExits t.node s.node
unfolding act drop_front emit deliver exits
act-SameExits Verdict.too_short s t p = cc
act-SameExits Verdict.partial s t p = cc
act-SameExits Verdict.not_head s t p = ground arith
act-SameExits (Verdict.bad_crc8 x hdr) s t p = grind (arith, exits_more)
act-SameExits (Verdict.bad_crc16 x y hdr) s t p = grind (arith, exits_more)
act-SameExits (Verdict.complete hdr) s t p =
    let one =
      dispatch-SameExits hdr.msg_type (take hdr.data_length (drop 7 s.buf)) hdr.data_length
        (frame_stamp (get_or s.read_ns (total_len hdr - 1) (pos 0)) (total_len hdr) s.node)
        (record s.node { frames_rx = u64 (s.node.frames_rx + 1) }) in
    subst (λ (u : Rx). SameExits u.node s.node) (some_inverse _ t p) one

process-SameExits : (s : Rx) → SameExits (process_rx_buffer s).node s.node
process-SameExits =
    process_induction (λ s. SameExits (process_rx_buffer s).node s.node)
      (λ s h. rw (process_stop s h) refl)
      (λ s t p ih.
        rw (process_turn s t p)
          (ih ∙ act-SameExits (scan s.node.enforce_crc s.buf) s t (unfold rx_turn in p)))

abbrev pub TurnExits : List (ℕ × ℕ) → Turn → Type 0
TurnExits es (Turn.next s) = exits s.node.events ≡ es
TurnExits es (Turn.break s) = exits s.node.events ≡ es

abbrev pub TurnSame : Node → Turn → Type 0
TurnSame n t = TurnExits (exits n.events) t

after_read-SameExits : (trouble : Bool) (s : Rx) → TurnSame s.node (after_read trouble s)
unfolding after_read emit
after_read-SameExits true s = exits_more s.node.events _ (unfold exits in refl)
after_read-SameExits false s = process-SameExits s

take_chunk-SameExits :
    (chunk : List ℕ) (now : ℤ) (s : Rx) → SameExits (take_chunk chunk now s).node s.node
unfolding take_chunk arrive emit exits
take_chunk-SameExits chunk now s = grind (arith, exits_more)

silent_poll-SameExits : (poll_ms : ℕ) (n : Node) → SameExits (silent_poll poll_ms n) n
unfolding silent_poll emit exits
silent_poll-SameExits poll_ms n = grind (arith, exits_more)

chunk-SameExits :
    (trouble : Bool) (chunk : List ℕ) (now : ℤ) (s : Rx)
    → TurnSame s.node (after_read trouble (take_chunk chunk now s))
chunk-SameExits trouble chunk now s =
    subst (λ es. TurnExits es (after_read trouble (take_chunk chunk now s)))
      (take_chunk-SameExits chunk now s) (after_read-SameExits trouble (take_chunk chunk now s))

read_input-SameExits :
    (trouble : Bool) (result : ReadResult) (now : ℤ) (s : Rx)
    → TurnSame s.node (read_input trouble result now s)
unfolding read_input emit
read_input-SameExits trouble (ReadResult.bytes []) now s = after_read-SameExits trouble s
read_input-SameExits trouble (ReadResult.bytes (c ∷ chunk)) now s =
    rw (lt→ltb 0 (length (c ∷ chunk)) (omega arith)) (chunk-SameExits trouble (c ∷ chunk) now s)
read_input-SameExits trouble ReadResult.again now s = after_read-SameExits trouble s
read_input-SameExits trouble ReadResult.failed now s =
    exits_more s.node.events _ (unfold exits in refl)

pub read_turn-SameExits :
    (poll_ms : ℕ) (poll : PollResult) (s : Rx) → TurnSame s.node (read_turn poll_ms poll s)
unfolding read_turn emit
read_turn-SameExits poll_ms PollResult.interrupted s = refl
read_turn-SameExits poll_ms PollResult.error s = exits_more s.node.events _ (unfold exits in refl)
read_turn-SameExits poll_ms PollResult.timeout s = silent_poll-SameExits poll_ms s.node
read_turn-SameExits poll_ms (PollResult.events true trouble result now) s =
    read_input-SameExits trouble result now s
read_turn-SameExits poll_ms (PollResult.events false trouble result now) s =
    after_read-SameExits trouble s

-- Left or not: no line while the thread reads, then one with the counts.
abbrev pub Left : Bool → Node → Type 0
Left true n = exits n.events ≡ []
Left false n = exits n.events ≡ (n.bytes_rx, n.frames_rx) ∷ []

pub thread_exit-Left : (s : Rx) → Left true s.node → Left false (thread_exit s).node
unfolding emit exits
thread_exit-Left s h = grind (arith, exits-append)
