-- ===== src/Node/ReadLoop/Laws.antt =====
-- The read thread: what each turn keeps, what it counts, and when the silence warning comes.
use ros2_dji_serial_bridge.Base.{
  lt→ltb, ℕ, ◌≤◌, ◌<◌, refl, arith, Bool, true, false, List, [], ◌∷◌, length, replicate,
  length-append, length-replicate, All-append,
}
use ros2_dji_serial_bridge.Base.Int.{ℤ}
use ros2_dji_serial_bridge.Base.Bytes.{AreBytes, IsByte}
use ros2_dji_serial_bridge.Node.State.{Node, Event, Log, emit}
use ros2_dji_serial_bridge.Node.Tally.{tally, tally-append, weigh}
use ros2_dji_serial_bridge.Node.Consistent.{IsConsistent, process-IsConsistent, emit-IsConsistent}
use ros2_dji_serial_bridge.Node.Receive.{Rx, process_rx_buffer}
use ros2_dji_serial_bridge.Node.Receive.Chunks.{arrive}
use ros2_dji_serial_bridge.Node.Receive.Loop.{IsParallel, process-IsParallel}
use ros2_dji_serial_bridge.Node.Receive.Bounded.{length-process-lt, process-AreBytes}
use ros2_dji_serial_bridge.Node.ReadLoop.{
  ReadResult, PollResult, Turn, silent_poll, take_chunk, after_read, read_input, read_turn,
}

-- What holds of the read thread's state between polls.
pub record IsReady (s : Rx) : Type 0 where
  pub parallel : IsParallel s
  pub bytes : AreBytes s.buf
  pub bounded : length s.buf < 65544
  pub consistent : IsConsistent s.node

-- What comes out of `read` are at most 256 bytes, the size of `chunk`.
abbrev pub IsRead : ReadResult → Type 0
IsRead (ReadResult.bytes chunk) = AreBytes chunk × (length chunk ≤ 256)
IsRead _ = Unit {0}

abbrev pub IsPoll : PollResult → Type 0
IsPoll (PollResult.events input trouble result now) = IsRead result
IsPoll _ = Unit {0}

-- A turn that goes on leaves the thread ready; one that breaks leaves the counters right.
abbrev pub TurnKeeps : Turn → Type 0
TurnKeeps (Turn.next s) = IsReady s
TurnKeeps (Turn.break s) = IsConsistent s.node

-- A silent poll changes no counter of events.
silent_poll-IsConsistent :
    (poll_ms : ℕ) (n : Node) → IsConsistent n → IsConsistent (silent_poll poll_ms n)
unfolding silent_poll emit tally weigh
silent_poll-IsConsistent poll_ms n c = grind (arith, tally-append)

take_chunk-IsConsistent :
    (chunk : List ℕ) (now : ℤ) (s : Rx)
    → IsConsistent s.node
    → IsConsistent (take_chunk chunk now s).node
unfolding take_chunk arrive emit tally weigh
take_chunk-IsConsistent chunk now s c = grind (arith, tally-append)

-- Bytes that have arrived but are not processed.
record IsLoaded (s : Rx) : Type 0 where
  parallel : IsParallel s
  bytes : AreBytes s.buf
  consistent : IsConsistent s.node

process-IsReady : (s : Rx) → IsLoaded s → IsReady (process_rx_buffer s)
process-IsReady s l = record {
  parallel = process-IsParallel s l.parallel;
  bytes = process-AreBytes s l.bytes;
  bounded = length-process-lt s l.bytes;
  consistent = process-IsConsistent s l.consistent;
}

take_chunk-IsLoaded :
    (chunk : List ℕ) (now : ℤ) (s : Rx)
    → AreBytes chunk
    → IsReady s
    → IsLoaded (take_chunk chunk now s)
take_chunk-IsLoaded chunk now s h r = record {
  parallel =
      unfold take_chunk arrive in
      omega (
        arith,
        r.parallel,
        length-append s.buf chunk,
        length-append s.read_ns (replicate (length chunk) now),
        length-replicate (length chunk) now,
      );
  bytes = unfold take_chunk arrive in All-append IsByte s.buf chunk r.bytes h;
  consistent = take_chunk-IsConsistent chunk now s r.consistent;
}

after_read-keeps : (trouble : Bool) (s : Rx) → IsLoaded s → TurnKeeps (after_read trouble s)
unfolding after_read
after_read-keeps true s l =
    emit-IsConsistent (Event.logged Log.device_disconnected ∷ []) s.node
      (unfold tally weigh in refl) l.consistent
after_read-keeps false s l = process-IsReady s l

ready-IsLoaded : (s : Rx) → IsReady s → IsLoaded s
ready-IsLoaded s r = record { parallel = r.parallel; bytes = r.bytes; consistent = r.consistent }

read_input-keeps :
    (trouble : Bool) (result : ReadResult) (now : ℤ) (s : Rx)
    → IsRead result
    → IsReady s
    → TurnKeeps (read_input trouble result now s)
unfolding read_input
read_input-keeps trouble (ReadResult.bytes []) now s h r =
    after_read-keeps trouble s (ready-IsLoaded s r)
read_input-keeps trouble (ReadResult.bytes (b ∷ chunk)) now s h r =
    rw (lt→ltb 0 (length (b ∷ chunk)) (omega arith)) (
      after_read-keeps trouble (take_chunk (b ∷ chunk) now s)
        (take_chunk-IsLoaded (b ∷ chunk) now s h.0 r))
read_input-keeps trouble ReadResult.again now s h r =
    after_read-keeps trouble s (ready-IsLoaded s r)
read_input-keeps trouble ReadResult.failed now s h r =
    emit-IsConsistent (Event.logged Log.read_error ∷ []) s.node (unfold tally weigh in refl)
      r.consistent

-- Whatever `poll` and `read` give, a turn of the read thread that goes on keeps the buffer's two
-- vectors parallel, its elements bytes, its length below one longest frame, and every counter
-- equal to what it counts; a turn that breaks keeps the counters.
pub read_turn-keeps :
    (poll_ms : ℕ) (poll : PollResult) (s : Rx)
    → IsPoll poll
    → IsReady s
    → TurnKeeps (read_turn poll_ms poll s)
unfolding read_turn
read_turn-keeps poll_ms PollResult.interrupted s h r = r
read_turn-keeps poll_ms PollResult.error s h r =
    emit-IsConsistent (Event.logged Log.poll_error ∷ []) s.node (unfold tally weigh in refl)
      r.consistent
read_turn-keeps poll_ms PollResult.timeout s h r = record {
  parallel = r.parallel;
  bytes = r.bytes;
  bounded = r.bounded;
  consistent = silent_poll-IsConsistent poll_ms s.node r.consistent;
}
read_turn-keeps poll_ms (PollResult.events true trouble result now) s h r =
    read_input-keeps trouble result now s h r
read_turn-keeps poll_ms (PollResult.events false trouble result now) s h r =
    after_read-keeps trouble s (ready-IsLoaded s r)
