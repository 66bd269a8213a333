-- ===== src/Node/System/Reception.antt =====
-- What a turn of the read thread, a callback and the timer have to do with what is published.
pub mod Run
use ros2_dji_serial_bridge.Base.{
  ℕ, ◌+◌, ◌≡◌, sym, ap₂, subst, ◌∙◌, arith, true, false, List, [], ◌++◌, append-nil, Option, length,
  replicate,
}
use ros2_dji_serial_bridge.Base.Int.{ℤ}
use ros2_dji_serial_bridge.Node.State.{Node, CvTarget, Ping, PointStamped, emit}
use ros2_dji_serial_bridge.Node.Transmit.{send_frame}
use ros2_dji_serial_bridge.Node.Callbacks.{
  nav_goal_callback, cv_target_callback, relocalize_callback, ping_callback,
}
use ros2_dji_serial_bridge.Node.Diagnostics.{print_diagnostics}
use ros2_dji_serial_bridge.Node.Handlers.Laws.{publications, publications-append}
use ros2_dji_serial_bridge.Node.Receive.{Rx, process_rx_buffer}
use ros2_dji_serial_bridge.Node.Receive.Loop.{IsParallel, process_stop, process-ends}
use ros2_dji_serial_bridge.Node.Receive.Chunks.{arrive, process_chunks}
use ros2_dji_serial_bridge.Node.Receive.Stream.{rx}
use ros2_dji_serial_bridge.Node.Receive.Core.{AreAlike, AreAlike-trans, process-AreAlike}
use ros2_dji_serial_bridge.Node.ReadLoop.{
  ReadResult, PollResult, Turn, silent_poll, after_read, read_input, read_turn,
}
use ros2_dji_serial_bridge.Node.ReadLoop.Delivery.{read_turn-alike, arrive-alike}
use ros2_dji_serial_bridge.Node.System.{System, Step, Reach}

-- Two nodes that publish alike and have the same settings.
pub record SameOutside (n m : Node) : Type 0 where
  pub enforce_crc : n.enforce_crc ≡ m.enforce_crc
  pub byte_wire_ns : n.byte_wire_ns ≡ m.byte_wire_ns
  pub published : publications n.events ≡ publications m.events

module _ (write : List ℕ → Option ℕ) where
  pub cv_target_callback-SameOutside :
      (msg : CvTarget) (n : Node) → SameOutside (cv_target_callback write msg n) n
  unfolding cv_target_callback send_frame emit
  cv_target_callback-SameOutside msg n = grind (arith, publications-append, append-nil)

  pub ping_callback-SameOutside :
      (msg : Ping) (n : Node) → SameOutside (ping_callback write msg n) n
  unfolding ping_callback send_frame emit
  ping_callback-SameOutside msg n = grind (arith, publications-append, append-nil)

  module _ (to_float : ℕ → ℕ) where
    pub nav_goal_callback-SameOutside :
        (msg : PointStamped) (n : Node) → SameOutside (nav_goal_callback write to_float msg n) n
    unfolding nav_goal_callback send_frame emit
    nav_goal_callback-SameOutside msg n = grind (arith, publications-append, append-nil)

    pub relocalize_callback-SameOutside :
        (msg : PointStamped) (n : Node) → SameOutside (relocalize_callback write to_float msg n) n
    unfolding relocalize_callback send_frame emit
    relocalize_callback-SameOutside msg n = grind (arith, publications-append, append-nil)

pub print_diagnostics-SameOutside : (n : Node) → SameOutside (print_diagnostics n) n
unfolding print_diagnostics emit
print_diagnostics-SameOutside n = grind (arith, publications-append, append-nil)

silent_poll-SameOutside : (poll_ms : ℕ) (n : Node) → SameOutside (silent_poll poll_ms n) n
unfolding silent_poll emit
silent_poll-SameOutside poll_ms n = grind (arith, publications-append, append-nil)

-- The bytes that a poll brought, and their read times.
abbrev pub poll_bytes : PollResult → List ℕ
poll_bytes (PollResult.events true trouble (ReadResult.bytes chunk) now) = chunk
poll_bytes _ = []

abbrev pub poll_times : PollResult → List ℤ
poll_times (PollResult.events true trouble (ReadResult.bytes chunk) now) =
    replicate (length chunk) now
poll_times _ = []

-- All bytes that were read in a run while the thread reads on.
unfoldable pub received :
    {poll_ms : ℕ} {to_float : ℕ → ℕ} {s t : System} → Reach poll_ms to_float s t → List ℕ
received Reach.here = []
received (Reach.later r (Step.read poll t on p e)) = received r ++ poll_bytes poll
received (Reach.later r _) = received r

unfoldable pub received_times :
    {poll_ms : ℕ} {to_float : ℕ → ℕ} {s t : System} → Reach poll_ms to_float s t → List ℤ
received_times Reach.here = []
received_times (Reach.later r (Step.read poll t on p e)) = received_times r ++ poll_times poll
received_times (Reach.later r _) = received_times r

pub node_alike :
    (f : Node → Node) (s t : Rx)
    → SameOutside (f s.node) s.node
    → AreAlike s t
    → AreAlike (record s { node = f s.node }) t
node_alike f s t o h = record {
  buf = h.buf;
  read_ns = h.read_ns;
  enforce_crc = o.enforce_crc ∙ h.enforce_crc;
  byte_wire_ns = o.byte_wire_ns ∙ h.byte_wire_ns;
  published = o.published ∙ h.published;
}

grown-alike :
    (bytes : List ℕ) (times : List ℤ) (r s : Rx)
    → IsParallel s
    → AreAlike r (process_rx_buffer s)
    → AreAlike (process_rx_buffer (arrive bytes times r)) (process_rx_buffer (arrive bytes times s))
grown-alike bytes times r s par h =
    subst (AreAlike (process_rx_buffer (arrive bytes times r))) (process_chunks bytes times s par) (
      process-AreAlike (arrive bytes times r) (arrive bytes times (process_rx_buffer s))
        (arrive-alike bytes times r (process_rx_buffer s) h))

-- Processing again changes nothing.
again-alike :
    (r s : Rx)
    → AreAlike r (process_rx_buffer s)
    → AreAlike (process_rx_buffer r) (process_rx_buffer s)
again-alike r s h =
    subst (AreAlike (process_rx_buffer r)) (process_stop (process_rx_buffer s) (process-ends s))
      (process-AreAlike r (process_rx_buffer s) h)

abbrev pub TurnAlike : Turn → Rx → Type 0
TurnAlike (Turn.next t) s = AreAlike t s
TurnAlike (Turn.break t) s = Unit {0}

no_more :
    (bytes : List ℕ) (times : List ℤ) (n : Node) (r : Rx)
    → AreAlike r (process_rx_buffer (rx bytes times n))
    → AreAlike r (process_rx_buffer (rx (bytes ++ []) (times ++ []) n))
no_more bytes times n r h =
    subst (λ s. AreAlike r (process_rx_buffer s))
      (ap₂ (λ b t. rx b t n) (sym (append-nil bytes)) (sym (append-nil times))) h

-- A turn that goes on leaves what processing all bytes at once would leave.
pub read_turn-TurnAlike :
    (poll_ms : ℕ) (poll : PollResult) (r : Rx) (bytes : List ℕ) (times : List ℤ) (n : Node)
    → length times ≡ length bytes
    → AreAlike r (process_rx_buffer (rx bytes times n))
    → TurnAlike
        (read_turn poll_ms poll r)
        (process_rx_buffer (rx (bytes ++ poll_bytes poll) (times ++ poll_times poll) n))
unfolding read_turn read_input after_read
read_turn-TurnAlike poll_ms PollResult.interrupted r bytes times n par h = no_more bytes times n r h
read_turn-TurnAlike poll_ms PollResult.error r bytes times n par h = tt
read_turn-TurnAlike poll_ms PollResult.timeout r bytes times n par h =
    no_more bytes times n _
      (node_alike (silent_poll poll_ms) r _ (silent_poll-SameOutside poll_ms r.node) h)
read_turn-TurnAlike poll_ms (PollResult.events false true result now) r bytes times n par h = tt
read_turn-TurnAlike poll_ms (PollResult.events false false result now) r bytes times n par h =
    no_more bytes times n _ (again-alike r (rx bytes times n) h)
read_turn-TurnAlike poll_ms (PollResult.events true trouble ReadResult.failed now) r bytes times n
      par h =
    tt
read_turn-TurnAlike poll_ms (PollResult.events true true ReadResult.again now) r bytes times n par
      h =
    tt
read_turn-TurnAlike poll_ms (PollResult.events true false ReadResult.again now) r bytes times n par
      h =
    no_more bytes times n _ (again-alike r (rx bytes times n) h)
read_turn-TurnAlike poll_ms (PollResult.events true true (ReadResult.bytes chunk) now) r bytes times
      n par h =
    tt
read_turn-TurnAlike poll_ms (PollResult.events true false (ReadResult.bytes chunk) now) r bytes
      times n par h =
    unfold arrive in
    AreAlike-trans (read_turn-alike poll_ms chunk now r)
      (grown-alike chunk (replicate (length chunk) now) r (rx bytes times n) par h)
